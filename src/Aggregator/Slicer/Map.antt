-- ===== src/Aggregator/Slicer/Map.antt =====
-- The map of partial slices: keys, entries, and the blocks of a source.

use readout.Aggregator.Slicer.{
  DataSet, DataSourceId, PartialSlice, PartialSliceMap, find_entry, fresh_slice, same_source,
  source_lt, update_entry,
}
use readout.Prelude.{
  Bool-cases, [], arith, false, inl, inr, none, refl, some, subst, sym, true, ◌∙◌, ◌∷◌, ◌≡◌, ◌⊎◌,
}

-- The keys rise along the map, from above `k` on.
abbrev pub Above : DataSourceId → PartialSliceMap → Type 0
Above k [] = Unit
Above k ((j, p) ∷ m) = (source_lt k j ≡ true) × Above j m

abbrev pub Sorted : PartialSliceMap → Type 0
Sorted [] = Unit
Sorted ((j, p) ∷ m) = Above j m

abbrev pub blocks_of : PartialSlice → DataSet
blocks_of p = elim p.current_data_set [ none ↦ [] | some d ↦ d ]

-- The blocks in the current slice of a source.
abbrev pub current_of : DataSourceId → PartialSliceMap → DataSet
current_of k m = blocks_of (find_entry k m)

pub source_lt_trans :
    (a b c : DataSourceId) → source_lt a b ≡ true → source_lt b c ≡ true → source_lt a c ≡ true
source_lt_trans a b c h k = ground arith

pub source_lt-asymm : (a b : DataSourceId) → source_lt a b ≡ true → source_lt b a ≡ false
source_lt-asymm a b h = ground arith

Above-trans :
    (a b : DataSourceId) (m : PartialSliceMap) → source_lt a b ≡ true → Above b m → Above a m
Above-trans a b [] h k = tt
Above-trans a b ((j, p) ∷ m) h k = (source_lt_trans a b j h k.0, k.1)

pub Above-Sorted : (k : DataSourceId) (m : PartialSliceMap) → Above k m → Sorted m
Above-Sorted k [] h = tt
Above-Sorted k ((j, p) ∷ m) h = h.1

pub find_entry-Above :
    (k : DataSourceId) (m : PartialSliceMap) → Above k m → find_entry k m ≡ fresh_slice
unfolding find_entry
find_entry-Above k [] h = refl
find_entry-Above k ((j, p) ∷ m) h = rw (h.0)

pub update_entry-Above :
    (a k : DataSourceId) (f : PartialSlice → PartialSlice) (m : PartialSliceMap)
    → source_lt a k ≡ true
    → Above a m
    → Above a (update_entry k f m)
unfolding update_entry
update_entry-Above a k f [] h s = (h, tt)
update_entry-Above a k f ((j, p) ∷ m) h s = elim (Bool-cases (source_lt k j)) [
  | inl below ↦ rw below (h, (below, s.1))
  | inr not_below ↦ elim (Bool-cases (source_lt j k)) [
    | inl above ↦ rw (not_below, above) (s.0, update_entry-Above j k f m above s.1)
    | inr same ↦ rw (not_below, same) s
  ]
]

pub update_entry-Sorted :
    (k : DataSourceId) (f : PartialSlice → PartialSlice) (m : PartialSliceMap)
    → Sorted m
    → Sorted (update_entry k f m)
unfolding update_entry
update_entry-Sorted k f [] s = tt
update_entry-Sorted k f ((j, p) ∷ m) s = elim (Bool-cases (source_lt k j)) [
  | inl below ↦ rw below (below, s)
  | inr not_below ↦ elim (Bool-cases (source_lt j k)) [
    | inl above ↦ rw (not_below, above) (update_entry-Above j k f m above s)
    | inr same ↦ rw (not_below, same) s
  ]
]

pub eq_of_not_lt : (a b : DataSourceId) → source_lt a b ≡ false → source_lt b a ≡ false → a ≡ b
eq_of_not_lt a b h k = ground arith

pub source_lt_irrefl : (a : DataSourceId) → source_lt a a ≡ false
source_lt_irrefl a = ground arith

-- Two sources that differ are in order one way or the other.
abbrev pub Apart : DataSourceId → DataSourceId → Type 0
Apart a b = (source_lt a b ≡ true) ⊎ (source_lt b a ≡ true)

pub same-or-Apart : (a b : DataSourceId) → (a ≡ b) ⊎ Apart a b
same-or-Apart a b = elim (Bool-cases (source_lt a b)) [
  | inl h ↦ inr (inl h)
  | inr h ↦ elim (Bool-cases (source_lt b a)) [
    | inl k ↦ inr (inr k)
    | inr k ↦ inl (eq_of_not_lt a b h k)
  ]
]

pub find_entry-nil : (k : DataSourceId) → find_entry k [] ≡ fresh_slice
unfolding find_entry
find_entry-nil k = refl

pub find_entry_self :
    (k : DataSourceId) (p : PartialSlice) (m : PartialSliceMap) → find_entry k ((k, p) ∷ m) ≡ p
unfolding find_entry
find_entry_self k p m = rw (source_lt_irrefl k)

-- Looking up after an update, the key that was changed and another one.
pub find_entry-update_self :
    (k : DataSourceId) (f : PartialSlice → PartialSlice) (m : PartialSliceMap)
    → find_entry k (update_entry k f m) ≡ f (find_entry k m)
unfolding find_entry update_entry
find_entry-update_self k f [] = rw (source_lt_irrefl k)
find_entry-update_self k f ((j, p) ∷ m) = elim (Bool-cases (source_lt k j)) [
  | inl below ↦ rw (below, source_lt_irrefl k)
  | inr not_below ↦ elim (Bool-cases (source_lt j k)) [
    | inl above ↦ rw (not_below, above) (rw (not_below, above) (find_entry-update_self k f m))
    | inr same ↦ rw (not_below, same) (rw (not_below, same))
  ]
]

pub find_entry-skip :
    (i k : DataSourceId) (p : PartialSlice) (m : PartialSliceMap)
    → Apart i k
    → Above k m
    → find_entry i ((k, p) ∷ m) ≡ find_entry i m
unfolding find_entry
find_entry-skip i k p m (inl h) s = rw h (sym (find_entry-Above i m (Above-trans i k m h s)))
find_entry-skip i k p m (inr h) s = rw (source_lt-asymm k i h, h)

find_entry-cons :
    (i j : DataSourceId) (p : PartialSlice) (m m' : PartialSliceMap)
    → find_entry i m ≡ find_entry i m'
    → find_entry i ((j, p) ∷ m) ≡ find_entry i ((j, p) ∷ m')
unfolding find_entry
find_entry-cons i j p m m' e = rw e

pub find_entry-update_ne :
    (i k : DataSourceId) (f : PartialSlice → PartialSlice) (m : PartialSliceMap)
    → Apart i k
    → Sorted m
    → find_entry i (update_entry k f m) ≡ find_entry i m
unfolding update_entry
find_entry-update_ne i k f [] h s = find_entry-skip i k (f fresh_slice) [] h tt
find_entry-update_ne i k f ((j, p) ∷ m) h s = elim (Bool-cases (source_lt k j)) [
  | inl below ↦ rw below (find_entry-skip i k (f fresh_slice) ((j, p) ∷ m) h (below, s))
  | inr not_below ↦ elim (Bool-cases (source_lt j k)) [
    | inl above ↦
        rw (not_below, above)
          (find_entry-cons i j p _ m (find_entry-update_ne i k f m h (Above-Sorted j m s)))
    | inr same ↦
        let at_j = subst (Apart i) (eq_of_not_lt k j not_below same) h in
        rw (not_below, same)
          (find_entry-skip i j (f p) m at_j s ∙ sym (find_entry-skip i j p m at_j s))
  ]
]

pub same_source_refl : (k : DataSourceId) → same_source k k ≡ true
same_source_refl k = rw (source_lt_irrefl k)

pub same_source-Apart : (i k : DataSourceId) → Apart i k → same_source k i ≡ false
same_source-Apart i k (inl h) = rw (source_lt-asymm i k h, h)
same_source-Apart i k (inr h) = rw h
