-- ===== src/FmqChannel/Pipeline/Rounds.antt =====
-- Lists that are filled and emptied in turn, as one sequence.
use readout.Prelude.{
  ==_iff, Bool-cases, List, [], ap, arith, false, if-intro, inl, inr, refl, subst, sym, ℕ, ◌++◌,
  ◌==◌, ◌∙◌, ◌∷◌, ◌≡◌, ◌≢◌,
}
use readout.FmqChannel.Pipeline.{next_ix, update_at}

module _ {A : Type 0} where
  pub update_at-same : (f : ℕ → A) (i : ℕ) (a : A) → update_at f i a i ≡ a
  update_at-same f i a = ground arith

  pub update_at-eq : (f : ℕ → A) (i j : ℕ) (a : A) → j ≡ i → update_at f i a j ≡ a
  update_at-eq f i j a h = ground arith

  pub update_at-ne : (f : ℕ → A) (i j : ℕ) (a : A) → j ≢ i → update_at f i a j ≡ f j
  update_at-ne f i j a h = ground arith

pub ==-ne : (a b : ℕ) → (a == b) ≡ false → a ≢ b
==-ne a b h e = ground (arith, h, e)

other_of :
    {A : Type 0} (qs : ℕ → List A) (i e j : ℕ) (r : List A) (x : A)
    → j ≢ i
    → e ≢ i
    → update_at qs e (qs e ++ (x ∷ [])) j
      ≡ update_at (update_at qs i r) e (update_at qs i r e ++ (x ∷ [])) j
other_of qs i e j r x h k = elim (Bool-cases (j == e)) [
  | inl t ↦
      let u = (==_iff j e).0 t in
      update_at-eq qs e j (qs e ++ (x ∷ [])) u
      ∙ ap (λ l. l ++ (x ∷ [])) (sym (update_at-ne qs i e r k))
      ∙ sym (update_at-eq (update_at qs i r) e j (update_at qs i r e ++ (x ∷ [])) u)
  | inr t ↦
      let u = ==-ne j e t in
      update_at-ne qs e j (qs e ++ (x ∷ [])) u
      ∙ sym (update_at-ne qs i j r h)
      ∙ sym (update_at-ne (update_at qs i r) e j (update_at qs i r e ++ (x ∷ [])) u)
]

abbrev head_or : {A : Type 0} → A → List A → A
head_or d [] = d
head_or d (x ∷ xs) = x

abbrev rest_of : {A : Type 0} → List A → List A
rest_of [] = []
rest_of (x ∷ xs) = xs

module _ {A : Type 0} (n : ℕ) where
  -- Taking from the lists in turn from `i` on gives `xs`, leaves them empty, and ends at `e`.
  unfoldable pub IsRound : ℕ → (ℕ → List A) → List A → ℕ → Type 0
  IsRound i qs [] e = (i ≡ e) × ((j : ℕ) → qs j ≡ [])
  IsRound i qs (x ∷ xs) e =
      (r : List A) × (qs i ≡ x ∷ r) × IsRound (next_ix n i) (update_at qs i r) xs e

  pub IsRound-ext :
      (i : ℕ) (qs rs : ℕ → List A) (xs : List A) (e : ℕ)
      → ((j : ℕ) → rs j ≡ qs j)
      → IsRound i qs xs e
      → IsRound i rs xs e
  unfolding IsRound
  IsRound-ext i qs rs [] e h (p, k) = (p, λ j. h j ∙ k j)
  IsRound-ext i qs rs (x ∷ xs) e h (r, p, k) = (
    r,
    h i ∙ p,
    IsRound-ext (next_ix n i) (update_at qs i r) (update_at rs i r) xs e
        (λ j.
          if-intro (λ (l : List A). l ≡ update_at qs i r j) (j == i) (λ f. rw (f) refl)
            (λ f. rw (f) (h j)))
        k,
  )

  -- One more at the end.
  pub IsRound-snoc :
      (i : ℕ) (qs : ℕ → List A) (xs : List A) (e : ℕ) (x : A)
      → IsRound i qs xs e
      → IsRound i (update_at qs e (qs e ++ (x ∷ []))) (xs ++ (x ∷ [])) (next_ix n e)
  unfolding IsRound
  IsRound-snoc i qs [] e x (p, k) = (
    [],
    update_at-eq qs e i (qs e ++ (x ∷ [])) p ∙ ap (λ l. l ++ (x ∷ [])) (k e),
    (
      ap (next_ix n) p,
      λ j.
          if-intro (λ (l : List A). l ≡ []) (j == i) (λ f. refl)
            (λ f. update_at-ne qs e j (qs e ++ (x ∷ [])) (λ g. ==-ne j i f (g ∙ sym p)) ∙ k j),
    ),
  )
  IsRound-snoc i qs (y ∷ ys) e x (r, p, k) =
      let new = qs e ++ (x ∷ []) in
      let qs' = update_at qs i r in
      let ih = IsRound-snoc (next_ix n i) qs' ys e x k in
      elim (Bool-cases (i == e)) [
        | inl f ↦
            let g = (==_iff i e).0 f in
            (
              r ++ (x ∷ []),
              update_at-eq qs e i new g
                  ∙ ap (λ m. qs m ++ (x ∷ [])) (sym g)
                  ∙ ap (λ l. l ++ (x ∷ [])) p,
              IsRound-ext _ _ _ _ _
                  (λ j. elim (Bool-cases (j == i)) [
                    | inl t ↦
                        let u = (==_iff j i).0 t in
                        update_at-eq (update_at qs e new) i j (r ++ (x ∷ [])) u
                        ∙ ap (λ l. l ++ (x ∷ [])) (sym (update_at-eq qs i e r (sym g)))
                        ∙ sym (update_at-eq qs' e j (qs' e ++ (x ∷ [])) (u ∙ g))
                    | inr t ↦
                        let u = ==-ne j i t in
                        update_at-ne (update_at qs e new) i j (r ++ (x ∷ [])) u
                        ∙ update_at-ne qs e j new (λ v. u (v ∙ sym g))
                        ∙ sym (update_at-ne qs i j r u)
                        ∙ sym (update_at-ne qs' e j (qs' e ++ (x ∷ [])) (λ v. u (v ∙ sym g)))
                  ])
                  ih,
            )
        | inr f ↦
            let g = ==-ne i e f in
            (
              r,
              update_at-ne qs e i new g ∙ p,
              IsRound-ext _ _ _ _ _
                  (λ j. elim (Bool-cases (j == i)) [
                    | inl t ↦
                        let u = (==_iff j i).0 t in
                        update_at-eq (update_at qs e new) i j r u
                        ∙ sym (update_at-eq qs i j r u)
                        ∙ sym (update_at-ne qs' e j (qs' e ++ (x ∷ [])) (λ v. g (sym u ∙ v)))
                    | inr t ↦
                        let u = ==-ne j i t in
                        update_at-ne (update_at qs e new) i j r u
                        ∙ other_of qs i e j r x u (λ v. g (sym v))
                  ])
                  ih,
            )
      ]

  pub IsRound-head :
      (i : ℕ) (qs : ℕ → List A) (xs : List A) (e : ℕ) (x : A) (r : List A)
      → IsRound i qs xs e
      → qs i ≡ x ∷ r
      → (ys : List A) × (xs ≡ x ∷ ys) × IsRound (next_ix n i) (update_at qs i r) ys e
  unfolding IsRound
  IsRound-head i qs [] e x r (p, k) h = absurd (ground (arith, k i, h))
  IsRound-head i qs (y ∷ ys) e x r (s, p, k) h =
      let f = sym p ∙ h in
      (
        ys,
        ap (λ a. a ∷ ys) (ap (head_or y) f),
        subst (λ l. IsRound (next_ix n i) (update_at qs i l) ys e) (ap rest_of f) k,
      )
