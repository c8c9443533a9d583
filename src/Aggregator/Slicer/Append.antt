-- ===== src/Aggregator/Slicer/Append.antt =====
-- appendBlock: the block goes to the end of its source's stream.
use readout.Prelude.Int.{negsuc, pos, ◌≤ℤ◌}
use readout.DataBlock.{undefined_timeframe_id}
use readout.Aggregator.Slicer.{
  Block, DataBlockSlicer, DataSet, DataSourceId, PartialSlice, append_block, closed_slice, closes,
  extend_slice, find_entry, is_link_ok, open_blocks, source_of, update_entry,
}
use readout.Aggregator.Slicer.Map.{
  Apart, blocks_of, find_entry-update_ne, find_entry-update_self, same-or-Apart,
  update_entry-Sorted,
}
use readout.Aggregator.Slicer.Streams.{
  IsPartial, IsSlice, IsValid, concat, concat-append, from_source, from_source-All,
  from_source-append, from_source-none, stream,
}
use mathlib.Core.Path.{ap₂}
use readout.Prelude.{
  All, All-append, Bool-cases, Option, [], ap, append-nil, append_assoc, arith, false, inl, inr,
  length-append, none, refl, some, subst, sym, true, ℕ, ◌++◌, ◌∙◌, ◌∷◌, ◌≡◌, ◌≢◌, ◌⊎◌,
}

single-IsSlice : (b : Block) → IsSlice (source_of b) b.header.timeframe_id (b ∷ [])
single-IsSlice b = record {
  sources = (refl, tt);
  timeframes = (refl, tt);
  filled = omega arith;
  alone = λ _. refl;
}

grown-IsSlice :
    (b : Block) (d : DataSet)
    → b.header.timeframe_id ≢ undefined_timeframe_id
    → IsSlice (source_of b) b.header.timeframe_id d
    → IsSlice (source_of b) b.header.timeframe_id (d ++ b ∷ [])
grown-IsSlice b d h s = record {
  sources = All-append (λ x. source_of x ≡ source_of b) d (b ∷ []) s.sources (refl, tt);
  timeframes =
      All-append (λ x. x.header.timeframe_id ≡ b.header.timeframe_id) d (b ∷ []) s.timeframes
        (refl, tt);
  filled = omega (arith, length-append d (b ∷ []));
  alone = λ e. absurd (h e);
}

-- The slice that the block ends in, after the current slice `o` of its source.
open_blocks-IsSlice :
    (b : Block) (p : PartialSlice) (o : Option DataSet)
    → p.current_data_set ≡ o
    → IsPartial (source_of b) p
    → IsSlice (source_of b) b.header.timeframe_id (open_blocks p b.header.timeframe_id ++ b ∷ [])
unfolding open_blocks
open_blocks-IsSlice b p none e h = rw e (single-IsSlice b)
open_blocks-IsSlice b p (some d) e h = elim (Bool-cases (closes p.tf_id b.header.timeframe_id)) [
  | inl c ↦ rw (e, c) (single-IsSlice b)
  | inr c ↦
      let same : p.tf_id ≡ b.header.timeframe_id = ground arith in
      rw (e, c)
        (grown-IsSlice b d (ground arith) (subst (λ t. IsSlice (source_of b) t d) same (h d e)))
]

closed_slice_complete :
    (k : DataSourceId) (p : PartialSlice) (tf : ℕ) (o : Option DataSet)
    → p.current_data_set ≡ o
    → IsPartial k p
    → All (λ d. (k : DataSourceId) × (tf : ℕ) × IsSlice k tf d) (closed_slice p tf)
unfolding closed_slice
closed_slice_complete k p tf none e h = rw e tt
closed_slice_complete k p tf (some d) e h = elim (Bool-cases (closes p.tf_id tf)) [
  | inl c ↦ rw (e, c) ((k, p.tf_id, h d e), tt)
  | inr c ↦ rw (e, c) tt
]

-- What is closed and what stays open are together the current slice.
closed-open :
    (k : DataSourceId) (p : PartialSlice) (tf : ℕ) (o : Option DataSet)
    → p.current_data_set ≡ o
    → IsPartial k p
    → from_source k (concat (closed_slice p tf)) ++ open_blocks p tf ≡ blocks_of p
unfolding closed_slice open_blocks
closed-open k p tf none e h = rw e
closed-open k p tf (some d) e h = elim (Bool-cases (closes p.tf_id tf)) [
  | inl c ↦
      rw (e, c, append-nil (from_source k (d ++ [])), append-nil d)
        (from_source-All k d (h d e).sources)
  | inr c ↦ rw (e, c)
]

closed-other :
    (i k : DataSourceId) (p : PartialSlice) (tf : ℕ) (o : Option DataSet)
    → Apart i k
    → p.current_data_set ≡ o
    → IsPartial k p
    → from_source i (concat (closed_slice p tf)) ≡ []
unfolding closed_slice
closed-other i k p tf none a e h = rw e
closed-other i k p tf (some d) a e h = elim (Bool-cases (closes p.tf_id tf)) [
  | inl c ↦ rw (e, c, append-nil d) (from_source-none i k d a (h d e).sources)
  | inr c ↦ rw (e, c)
]

IsPartial-some :
    (k : DataSourceId) (tf t : ℕ) (d : DataSet)
    → IsSlice k tf d
    → IsPartial k (record { tf_id = tf; last_update_time = t; current_data_set = some d })
IsPartial-some k tf t d h e same = subst (IsSlice k tf) (cc same) h

abbrev extended : Block → ℕ → DataBlockSlicer → DataBlockSlicer
extended b timestamp s = record s {
  slices =
      s.slices ++ closed_slice (find_entry (source_of b) s.partial_slices) b.header.timeframe_id;
  partial_slices = update_entry (source_of b) (extend_slice b timestamp) s.partial_slices;
}

blocks_of-extend_slice :
    (b : Block) (timestamp : ℕ) (p : PartialSlice)
    → blocks_of (extend_slice b timestamp p) ≡ open_blocks p b.header.timeframe_id ++ b ∷ []
unfolding extend_slice
blocks_of-extend_slice b timestamp p = refl

extend_slice-IsPartial :
    (b : Block) (timestamp : ℕ) (p : PartialSlice)
    → IsPartial (source_of b) p
    → IsPartial (source_of b) (extend_slice b timestamp p)
unfolding extend_slice
extend_slice-IsPartial b timestamp p h =
    IsPartial-some (source_of b) b.header.timeframe_id timestamp _
      (open_blocks-IsSlice b p p.current_data_set refl h)

extended-IsValid :
    (b : Block) (timestamp : ℕ) (s : DataBlockSlicer) → IsValid s → IsValid (extended b timestamp s)
extended-IsValid b timestamp s v = record {
  sorted = update_entry-Sorted (source_of b) _ s.partial_slices v.sorted;
  partials = λ i. elim (same-or-Apart i (source_of b)) [
    | inl e ↦
        rw (e, find_entry-update_self (source_of b) (extend_slice b timestamp) s.partial_slices)
          (extend_slice-IsPartial b timestamp _ (v.partials (source_of b)))
    | inr a ↦
        rw
          (find_entry-update_ne i (source_of b) (extend_slice b timestamp) s.partial_slices a
            v.sorted)
          (v.partials i)
  ];
  complete = All-append _ s.slices _ v.complete (
      closed_slice_complete (source_of b) _ b.header.timeframe_id _ refl
        (v.partials (source_of b)));
}

stream-extended_self :
    (b : Block) (timestamp : ℕ) (s : DataBlockSlicer)
    → IsValid s
    → stream (source_of b) (extended b timestamp s) ≡ stream (source_of b) s ++ b ∷ []
stream-extended_self b timestamp s v =
    let k = source_of b in
    let p = find_entry k s.partial_slices in
    let tf = b.header.timeframe_id in
    let done = from_source k (concat s.slices) in
    let closed = from_source k (concat (closed_slice p tf)) in
    let opened = open_blocks p tf in
    let slices : from_source k (concat (s.slices ++ closed_slice p tf)) ≡ done ++ closed =
      ap (from_source k) (concat-append s.slices (closed_slice p tf))
      ∙ from_source-append k (concat s.slices) (concat (closed_slice p tf)) in
    let now =
      ap blocks_of (find_entry-update_self k (extend_slice b timestamp) s.partial_slices)
      ∙ blocks_of-extend_slice b timestamp p in
    ap₂ ◌++◌ slices now
    ∙ append_assoc done closed (opened ++ b ∷ [])
    ∙ ap (◌++◌ done) (
        sym (append_assoc closed opened (b ∷ []))
        ∙ ap (λ t. t ++ b ∷ []) (closed-open k p tf p.current_data_set refl (v.partials k)))
    ∙ sym (append_assoc done (blocks_of p) (b ∷ []))

stream-extended_ne :
    (b : Block) (timestamp : ℕ) (s : DataBlockSlicer) (i : DataSourceId)
    → IsValid s
    → Apart i (source_of b)
    → stream i (extended b timestamp s) ≡ stream i s
stream-extended_ne b timestamp s i v a =
    let k = source_of b in
    let p = find_entry k s.partial_slices in
    let tf = b.header.timeframe_id in
    let slices : from_source i (concat (s.slices ++ closed_slice p tf))
        ≡ from_source i (concat s.slices) =
      ap (from_source i) (concat-append s.slices (closed_slice p tf))
      ∙ from_source-append i (concat s.slices) (concat (closed_slice p tf))
      ∙ ap (◌++◌ (from_source i (concat s.slices)))
          (closed-other i k p tf p.current_data_set a refl (v.partials k))
      ∙ append-nil (from_source i (concat s.slices)) in
    ap₂ ◌++◌ slices (
      ap blocks_of
        (find_entry-update_ne i k (extend_slice b timestamp) s.partial_slices a v.sorted))

-- A block of a good link goes to the end of the stream of its source, the streams of the other
-- sources stay, and every slice still holds blocks of one source and timeframe. A block of a bad
-- link is refused with -1, and changes nothing.
pub append_block_lem :
    (b : Block) (timestamp : ℕ) (s : DataBlockSlicer)
    → IsValid s
    → let (n, s') = append_block b timestamp s in
      ((is_link_ok b.header.link_id ≡ true)
        × (pos 1 ≤ℤ n)
        × IsValid s'
        × (stream (source_of b) s' ≡ stream (source_of b) s ++ b ∷ [])
        × ((i : DataSourceId) → Apart i (source_of b) → stream i s' ≡ stream i s))
      ⊎ ((is_link_ok b.header.link_id ≡ false) × (n ≡ negsuc 0) × (s' ≡ s))
unfolding append_block
append_block_lem b timestamp s v = elim (Bool-cases (is_link_ok b.header.link_id)) [
  | inr e ↦ inr (rw e (refl, refl, refl))
  | inl e ↦ inl (
      rw e (
        refl,
        omega (
          arith,
          length-append
              (open_blocks (find_entry (source_of b) s.partial_slices) b.header.timeframe_id)
              (b ∷ []),
        ),
        extended-IsValid b timestamp s v,
        stream-extended_self b timestamp s v,
        λ i a. stream-extended_ne b timestamp s i v a,
      ))
]
