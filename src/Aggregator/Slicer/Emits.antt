-- ===== src/Aggregator/Slicer/Emits.antt =====
-- Data sets that leave the partial slices: what getSlice and completeSliceOnTimeout have in common.
use readout.Aggregator.Slicer.{
  DataSet, DataSourceId, PartialSlice, PartialSliceMap, find_entry, fresh_slice, without_data,
}
use readout.Aggregator.Slicer.Map.{
  Above, Above-Sorted, Sorted, blocks_of, current_of, find_entry-Above, find_entry-nil,
  find_entry-skip, find_entry_self, same-or-Apart,
}
use readout.Aggregator.Slicer.Streams.{
  IsPartial, IsSlice, concat, from_source, from_source-All, from_source-append, from_source-none,
}
use readout.Prelude.{
  All, List, [], ap, append-nil, inl, inr, refl, some, subst, sym, ℕ, ◌++◌, ◌∙◌, ◌∷◌, ◌≡◌,
}

-- Some entries give up their data set, in the order of their keys; the others stay as they are.
pub data Emits : List DataSet → PartialSliceMap → PartialSliceMap → Type 0 where
  nil : Emits [] [] []
  keep :
      {ds : List DataSet} {m m' : PartialSliceMap} (k : DataSourceId) (p : PartialSlice)
      → Emits ds m m'
      → Emits ds ((k, p) ∷ m) ((k, p) ∷ m')
  emit :
      {ds : List DataSet} {m m' : PartialSliceMap} (k : DataSourceId) (p : PartialSlice)
      → (d : DataSet) → p.current_data_set ≡ some d
      → Emits ds m m'
      → Emits (d ∷ ds) ((k, p) ∷ m) ((k, without_data p) ∷ m')

abbrev pub Partials : PartialSliceMap → Type 0
Partials = All λ e. IsPartial e.0 e.1

fresh-IsPartial : (k : DataSourceId) → IsPartial k fresh_slice
fresh-IsPartial k d e = cc

without_data-IsPartial : (k : DataSourceId) (p : PartialSlice) → IsPartial k (without_data p)
without_data-IsPartial k p d e = cc

pub Partials-intro :
    (m : PartialSliceMap)
    → Sorted m
    → ((k : DataSourceId) → IsPartial k (find_entry k m))
    → Partials m
Partials-intro [] s h = tt
Partials-intro ((j, p) ∷ m) s h = (
  subst (IsPartial j) (find_entry_self j p m) (h j),
  Partials-intro m (Above-Sorted j m s) λ k. elim (same-or-Apart k j) [
    | inl e ↦
        subst (IsPartial k) (sym (ap (λ t. find_entry t m) e ∙ find_entry-Above j m s))
          (fresh-IsPartial k)
    | inr a ↦ subst (IsPartial k) (find_entry-skip k j p m a s) (h k)
  ],
)

pub Partials-find :
    (k : DataSourceId) (m : PartialSliceMap) → Sorted m → Partials m → IsPartial k (find_entry k m)
Partials-find k [] s h = rw find_entry-nil (fresh-IsPartial k)
Partials-find k ((j, p) ∷ m) s h = elim (same-or-Apart k j) [
  | inl e ↦ rw (e, find_entry_self j p m) h.0
  | inr a ↦ rw (find_entry-skip k j p m a s) (Partials-find k m (Above-Sorted j m s) h.1)
]

pub Emits-Above :
    {ds : List DataSet} {m m' : PartialSliceMap} (a : DataSourceId)
    → Emits ds m m'
    → Above a m
    → Above a m'
Emits-Above a nil h = tt
Emits-Above a (keep k p e) h = (h.0, Emits-Above k e h.1)
Emits-Above a (emit k p d _ e) h = (h.0, Emits-Above k e h.1)

pub Emits-Sorted :
    {ds : List DataSet} {m m' : PartialSliceMap} → Emits ds m m' → Sorted m → Sorted m'
Emits-Sorted nil s = tt
Emits-Sorted (keep k p e) s = Emits-Above k e s
Emits-Sorted (emit k p d _ e) s = Emits-Above k e s

pub Emits-Partials :
    {ds : List DataSet} {m m' : PartialSliceMap} → Emits ds m m' → Partials m → Partials m'
Emits-Partials nil h = tt
Emits-Partials (keep k p e) h = (h.0, Emits-Partials e h.1)
Emits-Partials (emit k p d _ e) h = (without_data-IsPartial k p, Emits-Partials e h.1)

pub Emits-complete :
    {ds : List DataSet} {m m' : PartialSliceMap}
    → Emits ds m m'
    → Partials m
    → All (λ d. (k : DataSourceId) × (tf : ℕ) × IsSlice k tf d) ds
Emits-complete nil h = tt
Emits-complete (keep k p e) h = Emits-complete e h.1
Emits-complete (emit k p d at e) h = ((k, p.tf_id, h.0 d at), Emits-complete e h.1)

no_left {ℓ} : {A : Type ℓ} (xs ys : List A) → xs ++ ys ≡ [] → xs ≡ []
no_left [] ys h = refl
no_left (x ∷ xs) ys h = cc

nothing_emitted :
    (k : DataSourceId) (ds : List DataSet) (m m' : PartialSliceMap)
    → Above k m
    → from_source k (concat ds) ++ current_of k m' ≡ current_of k m
    → from_source k (concat ds) ≡ []
nothing_emitted k ds m m' above e =
    no_left _ (current_of k m') (e ∙ ap blocks_of (find_entry-Above k m above))

-- The blocks of a source that are emitted, and those that stay, are those that were there.
pub Emits-stream :
    {ds : List DataSet} {m m' : PartialSliceMap} (i : DataSourceId)
    → Emits ds m m'
    → Sorted m
    → Partials m
    → from_source i (concat ds) ++ current_of i m' ≡ current_of i m
Emits-stream i nil s h = refl
Emits-stream i (keep {ds} {m} {m'} k p e) s h =
    let below = Above-Sorted k m s in
    let here = nothing_emitted k ds m m' s (Emits-stream k e below h.1) in
    elim (same-or-Apart i k) [
      | inl same ↦ rw (same, here, find_entry_self k p m', find_entry_self k p m)
      | inr a ↦
          rw (find_entry-skip i k p m' a (Emits-Above k e s), find_entry-skip i k p m a s)
            (Emits-stream i e below h.1)
    ]
Emits-stream i (emit {ds} {m} {m'} k p d at e) s h =
    let below = Above-Sorted k m s in
    let here = nothing_emitted k ds m m' s (Emits-stream k e below h.1) in
    let sources = (h.0 d at).sources in
    elim (same-or-Apart i k) [
      | inl same ↦ rw (
        same,
        from_source-append k d (concat ds),
        here,
        from_source-All k d sources,
        find_entry_self k (without_data p) m',
        find_entry_self k p m,
        at,
        append-nil (d ++ []),
        append-nil d,
      )
      | inr a ↦
          rw
            (
              from_source-append i d (concat ds),
              from_source-none i k d a sources,
              find_entry-skip i k (without_data p) m' a (Emits-Above k e s),
              find_entry-skip i k p m a s,
            )
            (Emits-stream i e below h.1)
    ]
