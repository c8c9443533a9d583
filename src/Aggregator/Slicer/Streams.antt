-- ===== src/Aggregator/Slicer/Streams.antt =====
-- The slicer as one stream of blocks for each source: what has come in and not gone out.
use readout.DataBlock.{undefined_timeframe_id}
use readout.Aggregator.Slicer.{
  Block, DataBlockSlicer, DataSet, DataSourceId, PartialSlice, find_entry, reset, same_source,
  source_of,
}
use readout.Aggregator.Slicer.Map.{Apart, Sorted, current_of, same_source-Apart, same_source_refl}
use readout.Prelude.{
  All, List, [], ap, append_assoc, arith, false, if◌then◌else◌, length, refl, some, subst, sym,
  true, ℕ, ◌++◌, ◌∷◌, ◌≡◌, ◌≤◌,
}

abbrev pub from_source : DataSourceId → List Block → List Block
from_source k [] = []
from_source k (b ∷ bs) =
    if same_source (source_of b) k then b ∷ from_source k bs else from_source k bs

abbrev pub concat : List DataSet → List Block
concat [] = []
concat (d ∷ ds) = d ++ concat ds

-- The blocks of a source that are in complete slices, oldest first, and then those in its current
-- slice.
abbrev pub stream : DataSourceId → DataBlockSlicer → List Block
stream k s = from_source k (concat s.slices) ++ current_of k s.partial_slices

-- The blocks of a slice are of one source and one timeframe, and a block with no timeframe stands
-- alone.
pub record IsSlice (k : DataSourceId) (tf : ℕ) (d : DataSet) : Type 0 where
  pub sources : All (λ b. source_of b ≡ k) d
  pub timeframes : All (λ b. b.header.timeframe_id ≡ tf) d
  pub filled : 1 ≤ length d
  pub alone : tf ≡ undefined_timeframe_id → length d ≡ 1

abbrev pub IsPartial : DataSourceId → PartialSlice → Type 0
IsPartial k p = (d : DataSet) → p.current_data_set ≡ some d → IsSlice k p.tf_id d

pub record IsValid (s : DataBlockSlicer) : Type 0 where
  pub sorted : Sorted s.partial_slices
  pub partials : (k : DataSourceId) → IsPartial k (find_entry k s.partial_slices)
  pub complete : All (λ d. (k : DataSourceId) × (tf : ℕ) × IsSlice k tf d) s.slices

pub from_source-append :
    (k : DataSourceId) (xs ys : List Block)
    → from_source k (xs ++ ys) ≡ from_source k xs ++ from_source k ys
from_source-append k [] ys = refl
from_source-append k (b ∷ bs) ys = ground (arith, from_source-append k bs ys)

pub concat-append : (xs ys : List DataSet) → concat (xs ++ ys) ≡ concat xs ++ concat ys
concat-append [] ys = refl
concat-append (d ∷ ds) ys = rw (concat-append ds ys) (sym (append_assoc d (concat ds) (concat ys)))

is_of : (b : Block) (k : DataSourceId) → source_of b ≡ k → same_source (source_of b) k ≡ true
is_of b k e = subst (λ t. same_source t k ≡ true) (sym e) (same_source_refl k)

is_not_of :
    (b : Block) (i k : DataSourceId)
    → Apart i k
    → source_of b ≡ k
    → same_source (source_of b) i ≡ false
is_not_of b i k a e = subst (λ t. same_source t i ≡ false) (sym e) (same_source-Apart i k a)

pub from_source-All :
    (k : DataSourceId) (d : DataSet) → All (λ b. source_of b ≡ k) d → from_source k d ≡ d
from_source-All k [] h = refl
from_source-All k (b ∷ bs) h = rw (is_of b k h.0) (ap (λ t. b ∷ t) (from_source-All k bs h.1))

pub from_source-none :
    (i k : DataSourceId) (d : DataSet)
    → Apart i k
    → All (λ b. source_of b ≡ k) d
    → from_source i d ≡ []
from_source-none i k [] a h = refl
from_source-none i k (b ∷ bs) a h = rw (is_not_of b i k a h.0) (from_source-none i k bs a h.1)

-- A slicer that is reset holds nothing.
pub reset-IsValid : (s : DataBlockSlicer) → IsValid (reset s)
unfolding reset find_entry
reset-IsValid s = record { sorted = tt; partials = λ k d e. absurd (ground arith); complete = tt }
