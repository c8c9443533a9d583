-- ===== src/Fifo.antt =====
-- The bounded queue `AliceO2::Common::Fifo<T>` of the Common library, which is not part of this
-- repository: what the callers rely on, as operations with their documented behaviour.
pub mod Bounded
pub mod Steps
use readout.Prelude.{
  Bool, List, Option, [], false, length, none, some, true, ℕ, ◌++◌, ◌<◌, ◌∷◌, ◌≡◌, ◌≤◌,
}

-- `push` and `pop` return 0 on success in the source, which is `true` here. A `pop` or a `front`
-- that fails leaves its argument as it was, which the callers have set to a null value: `none`.
pub record Fifo (A : Type 0) : Type 1 where
  pub Queue : Type 0
  pub create : ℕ → Queue
  pub push : Queue → A → Bool × Queue
  pub pop : Queue → Option A × Queue
  pub front : Queue → Option A
  pub clear : Queue → Queue
  pub is_full : Queue → Bool
  pub is_empty : Queue → Bool
  pub used_slots : Queue → ℕ
  -- What a queue holds, oldest first, and how much it may hold.
  pub contents : Queue → List A
  pub capacity : Queue → ℕ
  pub contents-create : (n : ℕ) → contents (create n) ≡ []
  pub capacity-create : (n : ℕ) → capacity (create n) ≡ n
  pub used_slots_lem : (q : Queue) → used_slots q ≡ length (contents q)
  pub is_full-true : (q : Queue) → is_full q ≡ true → capacity q ≤ length (contents q)
  pub is_full-false : (q : Queue) → is_full q ≡ false → length (contents q) < capacity q
  pub is_empty-true : (q : Queue) → is_empty q ≡ true → contents q ≡ []
  pub is_empty-false : (q : Queue) → is_empty q ≡ false → 1 ≤ length (contents q)
  pub push-ok : (q : Queue) (a : A) → length (contents q) < capacity q → (push q a).0 ≡ true
  pub contents-push :
      (q : Queue) (a : A)
      → length (contents q) < capacity q
      → contents (push q a).1 ≡ contents q ++ (a ∷ [])
  pub push-full : (q : Queue) (a : A) → capacity q ≤ length (contents q) → push q a ≡ (false, q)
  pub capacity-push : (q : Queue) (a : A) → capacity (push q a).1 ≡ capacity q
  pub pop-nil : (q : Queue) → contents q ≡ [] → pop q ≡ (none, q)
  pub pop-cons : (q : Queue) (a : A) (r : List A) → contents q ≡ a ∷ r → (pop q).0 ≡ some a
  pub contents-pop : (q : Queue) (a : A) (r : List A) → contents q ≡ a ∷ r → contents (pop q).1 ≡ r
  pub capacity-pop : (q : Queue) → capacity (pop q).1 ≡ capacity q
  pub front-nil : (q : Queue) → contents q ≡ [] → front q ≡ none
  pub front-cons : (q : Queue) (a : A) (r : List A) → contents q ≡ a ∷ r → front q ≡ some a
  pub contents-clear : (q : Queue) → contents (clear q) ≡ []
  pub capacity-clear : (q : Queue) → capacity (clear q) ≡ capacity q
