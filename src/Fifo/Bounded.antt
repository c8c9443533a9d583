-- ===== src/Fifo/Bounded.antt =====
-- A queue that meets the interface: a list with its capacity, for the tests.
use readout.Prelude.{
  Bool, List, Option, [], arith, false, if◌then◌else◌, leb, length, ltb, none, refl, some, true, ℕ,
  ◌++◌, ◌<◌, ◌∷◌, ◌≡◌, ◌≤◌,
}
use readout.Fifo.{Fifo}

pub record Bounded (A : Type 0) : Type 0 where
  pub items : List A
  pub cap : ℕ

module _ {A : Type 0} where
  abbrev pub push : Bounded A → A → Bool × Bounded A
  push q a =
      if ltb (length q.items) q.cap
      then (true, record q { items = q.items ++ (a ∷ []) })
      else (false, q)

  abbrev pub pop_from : Bounded A → List A → Option A × Bounded A
  pop_from q [] = (none, q)
  pop_from q (a ∷ r) = (some a, record q { items = r })

  abbrev pub head_of : List A → Option A
  head_of [] = none
  head_of (a ∷ r) = some a

  abbrev pub nil_test : List A → Bool
  nil_test [] = true
  nil_test (a ∷ r) = false

  pub nil_test-true : (xs : List A) → nil_test xs ≡ true → xs ≡ []
  nil_test-true xs h = ground arith

  pub nil_test-false : (xs : List A) → nil_test xs ≡ false → 1 ≤ length xs
  nil_test-false xs h = grind arith

  pub full_test-true : (xs : List A) (c : ℕ) → leb c (length xs) ≡ true → c ≤ length xs
  full_test-true xs c h = ground arith

  pub full_test-false : (xs : List A) (c : ℕ) → leb c (length xs) ≡ false → length xs < c
  full_test-false xs c h = ground arith

  pub push-room_ok : (q : Bounded A) (a : A) → length q.items < q.cap → (push q a).0 ≡ true
  push-room_ok q a h = ground arith

  pub push-room :
      (q : Bounded A) (a : A) → length q.items < q.cap → (push q a).1.items ≡ q.items ++ (a ∷ [])
  push-room q a h = ground arith

  pub push-no_room : (q : Bounded A) (a : A) → q.cap ≤ length q.items → push q a ≡ (false, q)
  push-no_room q a h = ground arith

  pub cap-push : (q : Bounded A) (a : A) → (push q a).1.cap ≡ q.cap
  cap-push q a = ground arith

  pub pop_from-nil : (q : Bounded A) → q.items ≡ [] → pop_from q q.items ≡ (none, q)
  pop_from-nil q h = ground arith

  pub pop_from-cons :
      (q : Bounded A) (a : A) (r : List A) → q.items ≡ a ∷ r → (pop_from q q.items).0 ≡ some a
  pop_from-cons q a r h = ground arith

  pub items-pop_from :
      (q : Bounded A) (a : A) (r : List A) → q.items ≡ a ∷ r → (pop_from q q.items).1.items ≡ r
  items-pop_from q a r h = ground arith

  pub cap-pop_from : (q : Bounded A) (xs : List A) → (pop_from q xs).1.cap ≡ q.cap
  cap-pop_from q xs = ground arith

  pub head_of-nil : (xs : List A) → xs ≡ [] → head_of xs ≡ none
  head_of-nil xs h = ground arith

  pub head_of-cons : (xs : List A) (a : A) (r : List A) → xs ≡ a ∷ r → head_of xs ≡ some a
  head_of-cons xs a r h = ground arith

abbrev pub bounded : (A : Type 0) → Fifo A
bounded A = record {
  Queue = Bounded A;
  create = λ n. record { items = []; cap = n };
  push = push;
  pop = λ q. pop_from q q.items;
  front = λ q. head_of q.items;
  clear = λ q. record q { items = [] };
  is_full = λ q. leb q.cap (length q.items);
  is_empty = λ q. nil_test q.items;
  used_slots = λ q. length q.items;
  contents = λ q. q.items;
  capacity = λ q. q.cap;
  contents-create = λ n. refl;
  capacity-create = λ n. refl;
  used_slots_lem = λ q. refl;
  is_full-true = λ q. full_test-true q.items q.cap;
  is_full-false = λ q. full_test-false q.items q.cap;
  is_empty-true = λ q. nil_test-true q.items;
  is_empty-false = λ q. nil_test-false q.items;
  push-ok = push-room_ok;
  contents-push = push-room;
  push-full = push-no_room;
  capacity-push = cap-push;
  pop-nil = pop_from-nil;
  pop-cons = pop_from-cons;
  contents-pop = items-pop_from;
  capacity-pop = λ q. cap-pop_from q q.items;
  front-nil = λ q. head_of-nil q.items;
  front-cons = λ q. head_of-cons q.items;
  contents-clear = λ q. refl;
  capacity-clear = λ q. refl;
}
