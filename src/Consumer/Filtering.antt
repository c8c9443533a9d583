-- ===== src/Consumer/Filtering.antt =====
-- Which blocks pass the filter of a consumer.
use mathlib.Core.List.{Mem, Memᴰ}
use mathlib.Core.Logic.{∥∥₁_elim}
use readout.Aggregator.Slicer.{Block}
use readout.Prelude.Int.{eq_ℤ, eq_ℤ_iff, pos, ℤ}
use readout.Prelude.{
  Bool, Bool-cases, List, [], arith, false, inl, inr, length, ltb, not, refl, sym, true, ◌&&◌, ◌==◌,
  ◌||◌, ◌↔◌, ◌∷◌, ◌≡◌, ◌⊎◌,
}
use readout.Consumer.{contains, is_data_block_filter_ok, is_id_ok, make_filter}

contains_of_mem : (id : ℤ) (is : List ℤ) → Memᴰ id is → contains id is ≡ true
unfolding contains
contains_of_mem id [] m = elim m [ ]
contains_of_mem id (i ∷ is) (Memᴰ.head e) = ground (arith, eq_ℤ_iff i id, sym e)
contains_of_mem id (i ∷ is) (Memᴰ.tail m) = ground (arith, contains_of_mem id is m)

mem_of_contains : (id : ℤ) (is : List ℤ) → contains id is ≡ true → Memᴰ id is
unfolding contains
mem_of_contains id [] h = absurd (ground arith)
mem_of_contains id (i ∷ is) h = elim (Bool-cases (eq_ℤ i id)) [
  | inl e ↦ Memᴰ.head (sym ((eq_ℤ_iff i id).0 e))
  | inr e ↦ Memᴰ.tail (mem_of_contains id is (rw e at h))
]

-- What a filter with two lists accepts.
pub record Accepts (include exclude : List ℤ) (id : ℤ) : Type 0 where
  pub not_excluded : ¬ Mem id exclude
  pub included : (include ≡ []) ⊎ Mem id include

contains_iff : (id : ℤ) (is : List ℤ) → (contains id is ≡ true) ↔ Mem id is
contains_iff id is =
    (λ h. ∣ mem_of_contains id is h ∣₁, λ h. ∥∥₁_elim h (hlevel) (contains_of_mem id is))

nil_iff : (is : List ℤ) → ((length is == 0) ≡ true) ↔ (is ≡ [])
nil_iff is = ground arith

-- The filter as one test: where both lists are empty, it is the same whether it is enabled.
is_id_ok_lem :
    (include exclude : List ℤ) (id : ℤ)
    → is_id_ok (ltb 0 (length include) || ltb 0 (length exclude)) include exclude id
      ≡ (not (contains id exclude) && (length include == 0 || contains id include))
unfolding is_id_ok contains
is_id_ok_lem [] [] id = refl
is_id_ok_lem [] (e ∷ es) id = ground arith
is_id_ok_lem (i ∷ is) [] id = ground arith
is_id_ok_lem (i ∷ is) (e ∷ es) id = ground arith

decided :
    (excluded empty included : Bool) {E N I : Type 0}
    → (excluded ≡ true) ↔ E
    → (empty ≡ true) ↔ N
    → (included ≡ true) ↔ I
    → ((not excluded && (empty || included)) ≡ true) ↔ ((¬ E) × (N ⊎ I))
decided true b c (e, e') n i = (λ h. absurd (ground arith), λ (ne, o). absurd (ne (e refl)))
decided false true c (e, e') (n, n') i =
    (λ h. (λ x. absurd (let y = e' x in ground arith), inl (n refl)), λ o. refl)
decided false false true (e, e') n (i, i') =
    (λ h. (λ x. absurd (let y = e' x in ground arith), inr (i refl)), λ o. refl)
decided false false false e (n, n') (i, i') =
    (λ h. absurd (ground arith), λ (ne, o). elim o [ inl x ↦ n' x | inr x ↦ i' x ])

is_id_ok_iff :
    (include exclude : List ℤ) (id : ℤ)
    → (is_id_ok (ltb 0 (length include) || ltb 0 (length exclude)) include exclude id ≡ true)
      ↔ Accepts include exclude id
is_id_ok_iff include exclude id =
    let (forth, back) =
      decided (contains id exclude) (length include == 0) (contains id include)
        (contains_iff id exclude) (nil_iff include) (contains_iff id include) in
    rw (is_id_ok_lem) (
      λ h. let (n, o) = forth h in record { not_excluded = n; included = o },
      λ a. back (a.not_excluded, a.included),
    )

-- A block passes the filter of a consumer exactly if neither its link nor its equipment is in the
-- list of the excluded ones, and each is in the list of the included ones where that is not empty.
-- Nothing else is looked at: the function lets an empty block pass, against its comment in
-- src/Consumer.h, which says that empty blocks are always excluded.
pub is_data_block_filter_ok_iff :
    (links_include links_exclude equipments_include equipments_exclude : List ℤ) (b : Block)
    → (is_data_block_filter_ok
          (make_filter links_include links_exclude equipments_include equipments_exclude)
          b
        ≡ true)
      ↔ (Accepts links_include links_exclude (pos b.header.link_id)
          × Accepts equipments_include equipments_exclude (pos b.header.equipment_id))
unfolding is_data_block_filter_ok make_filter
is_data_block_filter_ok_iff li le ei ee b =
    let (i, j) = is_id_ok_iff li le (pos b.header.link_id) in
    let (k, l) = is_id_ok_iff ei ee (pos b.header.equipment_id) in
    (λ h. let (x, y) = both _ _ h in (i x, k y), λ (x, y). rw (j x, l y) refl)
  where
    both : (a b : Bool) → (a && b) ≡ true → (a ≡ true) × (b ≡ true)
    both true true h = (refl, refl)
    both true false h = absurd (ground arith)
    both false b h = absurd (ground arith)
