-- ===== src/Aggregator/Slicer/Timeout.antt =====
-- completeSliceOnTimeout and getSlice: what leaves the streams, and what only moves within them.
use readout.Aggregator.Slicer.{
  DataBlockSlicer, DataSet, DataSourceId, PartialSlice, PartialSliceMap, complete_slice_on_timeout,
  flush_entries, get_from, get_slice, is_old, take_first,
}
use readout.Aggregator.Slicer.Map.{current_of}
use readout.Aggregator.Slicer.Streams.{
  IsSlice, IsValid, concat, concat-append, from_source, from_source-append, stream,
}
use readout.Aggregator.Slicer.Emits.{
  Emits, Emits-Partials, Emits-Sorted, Emits-complete, Emits-stream, Partials-find, Partials-intro,
  emit, keep, nil,
}
use readout.Prelude.{
  All, All-append, Bool, Bool-cases, List, Option, [], ap, append-nil, append_assoc, arith, false,
  if◌then◌else◌, inl, inr, length, length-append, none, refl, some, subst, sym, true, ℕ, ◌++◌, ◌+◌,
  ◌∙◌, ◌∷◌, ◌≡◌, ◌⊎◌,
}
use readout.Prelude.Int.{leb_ℤ, pos, ℤ}

abbrev entry : ℕ → ℕ → Option DataSet → PartialSlice
entry tf t o = record { tf_id = tf; last_update_time = t; current_data_set = o }

flush_head :
    (ts : ℤ) (k : DataSourceId) (tf t : ℕ) (o : Option DataSet) (m : PartialSliceMap)
    → Emits (flush_entries ts m).0 m (flush_entries ts m).1
    → Emits
        (flush_entries ts ((k, entry tf t o) ∷ m)).0
        ((k, entry tf t o) ∷ m)
        (flush_entries ts ((k, entry tf t o) ∷ m)).1
unfolding flush_entries
flush_head ts k tf t none m h = keep k (entry tf t none) h
flush_head ts k tf t (some d) m h = elim (Bool-cases (is_old (entry tf t (some d)) ts)) [
  | inl old ↦ rw old (emit k (entry tf t (some d)) d refl h)
  | inr new ↦ rw new (keep k (entry tf t (some d)) h)
]

flush_entries-Emits :
    (ts : ℤ) (m : PartialSliceMap) → Emits (flush_entries ts m).0 m (flush_entries ts m).1
unfolding flush_entries
flush_entries-Emits ts [] = nil
flush_entries-Emits ts ((k, p) ∷ m) =
    flush_head ts k p.tf_id p.last_update_time p.current_data_set m (flush_entries-Emits ts m)

abbrev to_list : Option DataSet → List DataSet
to_list none = []
to_list (some d) = d ∷ []

take_head :
    (k : DataSourceId) (tf t : ℕ) (o : Option DataSet) (m : PartialSliceMap)
    → Emits [] m m
    → Emits (to_list (take_first m).0) m (take_first m).1
    → Emits
        (to_list (take_first ((k, entry tf t o) ∷ m)).0)
        ((k, entry tf t o) ∷ m)
        (take_first ((k, entry tf t o) ∷ m)).1
unfolding take_first
take_head k tf t none m e rest = keep k (entry tf t none) rest
take_head k tf t (some d) m e rest = emit k (entry tf t (some d)) d refl e

none-Emits : (m : PartialSliceMap) → Emits [] m m
none-Emits [] = nil
none-Emits ((k, p) ∷ m) = keep k p (none-Emits m)

take_first-Emits : (m : PartialSliceMap) → Emits (to_list (take_first m).0) m (take_first m).1
unfolding take_first
take_first-Emits [] = nil
take_first-Emits ((k, p) ∷ m) =
    take_head k p.tf_id p.last_update_time p.current_data_set m (none-Emits m) (take_first-Emits m)

emitted-IsValid :
    (s : DataBlockSlicer) (ds ds' : List DataSet) (m' : PartialSliceMap)
    → IsValid s
    → Emits ds' s.partial_slices m'
    → All (λ d. (k : DataSourceId) × (tf : ℕ) × IsSlice k tf d) ds
    → IsValid (record s { slices = ds; partial_slices = m' })
emitted-IsValid s ds ds' m' v e h =
    let before = Partials-intro s.partial_slices v.sorted v.partials in
    record {
      sorted = Emits-Sorted e v.sorted;
      partials = λ k. Partials-find k m' (Emits-Sorted e v.sorted) (Emits-Partials e before);
      complete = h;
    }

-- The number of slices that have blocks and were last updated at `ts` or before.
abbrev pub count_old : ℤ → PartialSliceMap → ℕ
count_old ts [] = 0
count_old ts ((k, p) ∷ m) =
    elim p.current_data_set [
      | none ↦ 0
      | some d ↦ if leb_ℤ (pos p.last_update_time) ts then 1 else 0
    ]
    + count_old ts m

-- A slice that has blocks was updated after `ts`.
abbrev pub IsRecent : ℤ → DataSourceId × PartialSlice → Type 0
IsRecent ts (k, p) = (p.current_data_set ≡ none) ⊎ (leb_ℤ (pos p.last_update_time) ts ≡ false)

abbrev Flushed : ℤ → PartialSliceMap → List DataSet × PartialSliceMap → Type 0
Flushed ts m (ds, m') = (length ds ≡ count_old ts m) × All (IsRecent ts) m'

flush_entries-Flushed : (ts : ℤ) (m : PartialSliceMap) → Flushed ts m (flush_entries ts m)
unfolding flush_entries
flush_entries-Flushed ts [] = (refl, tt)
flush_entries-Flushed ts ((k, p) ∷ m) =
    head p.tf_id p.last_update_time p.current_data_set (flush_entries-Flushed ts m)
  where
    head :
        (tf t : ℕ) (o : Option DataSet)
        → Flushed ts m (flush_entries ts m)
        → Flushed ts ((k, entry tf t o) ∷ m) (flush_entries ts ((k, entry tf t o) ∷ m))
    head tf t none (l, r) = (omega (arith, l), (inl refl, r))
    head tf t (some d) (l, r) = elim (Bool-cases (leb_ℤ (pos t) ts)) [
      | inl old ↦ rw old (omega (arith, l), (inl refl, r))
      | inr new ↦ rw new (omega (arith, l), (inr new, r))
    ]

-- The slices that are flushed are appended to the complete ones, so no stream changes and every
-- slice keeps its form. They are the ones that had blocks and were last updated at the time given
-- or before: the number of those is returned, and no such slice is left incomplete.
pub complete_slice_on_timeout_lem :
    (ts : ℤ) (s : DataBlockSlicer)
    → IsValid s
    → let (n, s') = complete_slice_on_timeout ts s in
      IsValid s'
      × ((k : DataSourceId) → stream k s' ≡ stream k s)
      × (length s'.slices ≡ length s.slices + n)
      × (n ≡ count_old ts s.partial_slices)
      × All (IsRecent ts) s'.partial_slices
unfolding complete_slice_on_timeout
complete_slice_on_timeout_lem ts s v =
    let m = s.partial_slices in
    let ds = (flush_entries ts m).0 in
    let m' = (flush_entries ts m).1 in
    let e = flush_entries-Emits ts m in
    let before = Partials-intro m v.sorted v.partials in
    (
      emitted-IsValid s (s.slices ++ ds) ds m' v e
          (All-append _ s.slices ds v.complete (Emits-complete e before)),
      λ k.
          ap (λ t. from_source k t ++ current_of k m') (concat-append s.slices ds)
          ∙ ap (λ t. t ++ current_of k m') (from_source-append k (concat s.slices) (concat ds))
          ∙ append_assoc (from_source k (concat s.slices)) (from_source k (concat ds))
              (current_of k m')
          ∙ ap (◌++◌ (from_source k (concat s.slices))) (Emits-stream k e v.sorted before),
      length-append s.slices ds,
      (flush_entries-Flushed ts m).0,
      (flush_entries-Flushed ts m).1,
    )

-- What getSlice returned, `o`, and the slicer after it.
abbrev pub Taken : DataBlockSlicer → Option DataSet → DataBlockSlicer → Type 0
Taken s o s' =
    IsValid s'
    × ((k : DataSourceId) → stream k s ≡ from_source k (concat (to_list o)) ++ stream k s')
    × All (λ d. (k : DataSourceId) × (tf : ℕ) × IsSlice k tf d) (to_list o)

from_partials :
    (s : DataBlockSlicer)
    → s.slices ≡ []
    → IsValid s
    → Taken s
        (take_first s.partial_slices).0
        (record s { partial_slices = (take_first s.partial_slices).1 })
from_partials s none_complete v =
    let m = s.partial_slices in
    let (o, m') = take_first m in
    let e = take_first-Emits m in
    let before = Partials-intro m v.sorted v.partials in
    (
      emitted-IsValid s s.slices (to_list o) m' v e v.complete,
      λ k. rw none_complete (sym (Emits-stream k e v.sorted before)),
      Emits-complete e before,
    )

get_from-Taken :
    (include_incomplete : Bool) (s : DataBlockSlicer) (ds : List DataSet)
    → s.slices ≡ ds
    → IsValid s
    → Taken s (get_from include_incomplete s ds).0 (get_from include_incomplete s ds).1
unfolding get_from
get_from-Taken true s [] e v = from_partials s e v
get_from-Taken false s [] e v = (v, λ k. refl, tt)
get_from-Taken include_incomplete s (d ∷ ds) e v =
    let all = subst (All (λ d. (k : DataSourceId) × (tf : ℕ) × IsSlice k tf d)) e v.complete in
    (
      record { sorted = v.sorted; partials = v.partials; complete = all.1 },
      λ k.
          ap (λ t. from_source k (concat t) ++ current_of k s.partial_slices) e
          ∙ ap (λ t. t ++ current_of k s.partial_slices) (from_source-append k d (concat ds))
          ∙ append_assoc (from_source k d) (from_source k (concat ds))
              (current_of k s.partial_slices)
          ∙ ap (λ t. from_source k t ++ stream k (record s { slices = ds })) (sym (append-nil d)),
      (all.0, tt),
    )

abbrev pub IsEmpty : DataSourceId × PartialSlice → Type 0
IsEmpty (k, p) = p.current_data_set ≡ none

-- Which slice getSlice returns, `o`, and what it leaves, `s'`.
abbrev pub Chosen : Bool → DataBlockSlicer → Option DataSet → DataBlockSlicer → Type 0
Chosen include_incomplete s o s' =
    ((d : DataSet) × (o ≡ some d)
      × (s.slices ≡ d ∷ s'.slices)
      × (s'.partial_slices ≡ s.partial_slices))
    ⊎ ((s.slices ≡ []) × (include_incomplete ≡ false) × (o ≡ none) × (s' ≡ s))
    ⊎ ((s.slices ≡ []) × (include_incomplete ≡ true) × (o ≡ none) × All IsEmpty s.partial_slices)
    ⊎ ((s.slices ≡ [])
        × (include_incomplete ≡ true)
        × (d : DataSet) × (o ≡ some d)
        × (s'.slices ≡ []))

take_first-cases :
    (m : PartialSliceMap)
    → (((take_first m).0 ≡ none) × All IsEmpty m) ⊎ ((d : DataSet) × ((take_first m).0 ≡ some d))
unfolding take_first
take_first-cases [] = inl (refl, tt)
take_first-cases ((k, p) ∷ m) =
    head p.tf_id p.last_update_time p.current_data_set (take_first-cases m)
  where
    head :
        (tf t : ℕ) (o : Option DataSet)
        → (((take_first m).0 ≡ none) × All IsEmpty m)
          ⊎ ((d : DataSet) × ((take_first m).0 ≡ some d))
        → (((take_first ((k, entry tf t o) ∷ m)).0 ≡ none) × All IsEmpty ((k, entry tf t o) ∷ m))
          ⊎ ((d : DataSet) × ((take_first ((k, entry tf t o) ∷ m)).0 ≡ some d))
    head tf t none (inl (e, h)) = inl (e, (refl, h))
    head tf t none (inr h) = inr h
    head tf t (some d) h = inr (d, refl)

get_from-Chosen :
    (include_incomplete : Bool) (s : DataBlockSlicer) (ds : List DataSet)
    → s.slices ≡ ds
    → Chosen include_incomplete s
        (get_from include_incomplete s ds).0
        (get_from include_incomplete s ds).1
unfolding get_from
get_from-Chosen include_incomplete s (d ∷ ds) e = inl (d, refl, e, refl)
get_from-Chosen false s [] e = inr (inl (e, refl, refl, refl))
get_from-Chosen true s [] e = elim (take_first-cases s.partial_slices) [
  | inl (o, h) ↦ inr (inr (inl (e, refl, o, h)))
  | inr (d, o) ↦ inr (inr (inr (e, refl, d, o, e)))
]

-- getSlice takes the oldest complete slice if there is one. If there is none, it takes an incomplete
-- one when asked to include these, and then returns nothing only if no source has blocks; when not
-- asked to, it returns nothing and changes nothing. What it takes is a slice of one source and
-- timeframe from the front of its source's stream, and the other streams stay.
pub get_slice_lem :
    (include_incomplete : Bool) (s : DataBlockSlicer)
    → IsValid s
    → Taken s (get_slice include_incomplete s).0 (get_slice include_incomplete s).1
      × Chosen include_incomplete s
          (get_slice include_incomplete s).0
          (get_slice include_incomplete s).1
unfolding get_slice
get_slice_lem include_incomplete s v = (
  get_from-Taken include_incomplete s s.slices refl v,
  get_from-Chosen include_incomplete s s.slices refl,
)
