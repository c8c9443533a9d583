-- ===== src/Fifo/Steps.antt =====
-- What a push or a pop of a queue did, told from what it returned.
use mathlib.Core.Bool.{false≢true}
use mathlib.Core.Option.{none-ne-some, some-injective}
use readout.Prelude.{
  Bool-cases, List, [], ap, inl, inr, length, none, refl, some, sym, true, ◌<◌, ◌∙◌, ◌∷◌, ◌≡◌,
}
use readout.Fifo.{Fifo}

-- A pop that gives an element took the first one.
pub pop_some :
    {A : Type 0} (F : Fifo A) (q : F.Queue) (a : A)
    → (F.pop q).0 ≡ some a
    → (r : List A) × (F.contents q ≡ a ∷ r) × (F.contents (F.pop q).1 ≡ r)
pop_some F q a h = by_contents (F.contents q) refl
  where
    by_contents :
        (l : List _)
        → F.contents q ≡ l
        → (r : List _) × (F.contents q ≡ a ∷ r) × (F.contents (F.pop q).1 ≡ r)
    by_contents [] e = absurd (none-ne-some a (sym (ap (λ x. x.0) (F.pop-nil q e)) ∙ h))
    by_contents (b ∷ r) e =
        let f : b ≡ a = some-injective b a (sym (F.pop-cons q b r e) ∙ h) in
        (r, e ∙ ap (λ x. x ∷ r) f, F.contents-pop q b r e)

-- A push that succeeds had room.
pub push_room :
    {A : Type 0} (F : Fifo A) (q : F.Queue) (a : A)
    → (F.push q a).0 ≡ true
    → length (F.contents q) < F.capacity q
push_room F q a ok = elim (Bool-cases (F.is_full q)) [
  | inl e ↦ absurd (false≢true (sym (ap (λ x. x.0) (F.push-full q a (F.is_full-true q e))) ∙ ok))
  | inr e ↦ F.is_full-false q e
]

-- A pop that gives nothing leaves the queue as it was.
pub pop_none :
    {A : Type 0} (F : Fifo A) (q : F.Queue)
    → (F.pop q).0 ≡ none
    → F.contents (F.pop q).1 ≡ F.contents q
pop_none F q h = by_contents (F.contents q) refl
  where
    by_contents : (l : List _) → F.contents q ≡ l → F.contents (F.pop q).1 ≡ F.contents q
    by_contents [] e = ap (λ x. F.contents x.1) (F.pop-nil q e)
    by_contents (b ∷ r) e = absurd (none-ne-some b (sym h ∙ F.pop-cons q b r e))
