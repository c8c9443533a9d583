-- ===== src/FmqChannel/Bytes.antt =====
-- Stretches of memory: what is read there, and what a copy (`memcpy`) changes.
use readout.Prelude.{
  List, [], ap, append_assoc, arith, drop, length, length-drop, length-take, refl, suc, take, zero,
  ℕ, ◌++◌, ◌+◌, ◌∷◌, ◌≡◌, ◌≤◌,
}

module _ {A : Type 0} where
  unfoldable pub slice : ℕ → ℕ → List A → List A
  slice start len xs = take len (drop start xs)

  -- The copy of some bytes to an offset; it does not write past the end.
  unfoldable pub overwrite : List A → ℕ → List A → List A
  overwrite [] i bs = []
  overwrite (x ∷ xs) zero [] = x ∷ xs
  overwrite (x ∷ xs) zero (b ∷ bs) = b ∷ overwrite xs zero bs
  overwrite (x ∷ xs) (suc i) bs = x ∷ overwrite xs i bs

  abbrev pub concat : List (List A) → List A
  concat [] = []
  concat (xs ∷ xss) = xs ++ concat xss

  pub concat-append : (xss yss : List (List A)) → concat (xss ++ yss) ≡ concat xss ++ concat yss
  concat-append [] yss = refl
  concat-append (xs ∷ xss) yss =
      rw (concat-append xss yss, append_assoc xs (concat xss) (concat yss)) refl

  take-split : (a b : ℕ) (xs : List A) → take a xs ++ take b (drop a xs) ≡ take (a + b) xs
  take-split zero b xs = let e : 0 + b ≡ b = omega arith in rw (e) refl
  take-split (suc a) zero [] = let e : suc a + 0 ≡ suc a = omega arith in rw (e) refl
  take-split (suc a) (suc b) [] =
      let e : suc a + suc b ≡ suc (a + suc b) = omega arith in rw (e) refl
  take-split (suc a) b (x ∷ xs) =
      let e : suc a + b ≡ suc (a + b) = omega arith in rw (e) (ap (λ l. x ∷ l) (take-split a b xs))

  drop-drop : (a b : ℕ) (xs : List A) → drop a (drop b xs) ≡ drop (b + a) xs
  drop-drop a zero xs = let e : 0 + a ≡ a = omega arith in rw (e) refl
  drop-drop zero (suc b) [] = let e : suc b + 0 ≡ suc b = omega arith in rw (e) refl
  drop-drop (suc a) (suc b) [] =
      let e : suc b + suc a ≡ suc (b + suc a) = omega arith in rw (e) refl
  drop-drop a (suc b) (x ∷ xs) =
      let e : suc b + a ≡ suc (b + a) = omega arith in rw (e) (drop-drop a b xs)

  -- Adjacent stretches are one.
  pub slice-append :
      (start a b : ℕ) (xs : List A)
      → slice start a xs ++ slice (start + a) b xs ≡ slice start (a + b) xs
  unfolding slice
  slice-append start a b xs = rw (← drop-drop a start xs) (take-split a b (drop start xs))

  pub length-slice :
      (start len : ℕ) (xs : List A) → start + len ≤ length xs → length (slice start len xs) ≡ len
  unfolding slice
  length-slice start len xs h = omega (arith, length-take len (drop start xs), length-drop start xs)

  pub slice-nil : (start : ℕ) (xs : List A) → slice start 0 xs ≡ []
  unfolding slice
  slice-nil start xs = refl

  pub length-overwrite :
      (xs : List A) (i : ℕ) (bs : List A) → length (overwrite xs i bs) ≡ length xs
  unfolding overwrite
  length-overwrite [] i bs = refl
  length-overwrite (x ∷ xs) zero [] = refl
  length-overwrite (x ∷ xs) zero (b ∷ bs) = ap suc (length-overwrite xs zero bs)
  length-overwrite (x ∷ xs) (suc i) bs = ap suc (length-overwrite xs i bs)

  -- What was written is read back, when there is room for it.
  pub slice-overwrite :
      (xs : List A) (i : ℕ) (bs : List A)
      → i + length bs ≤ length xs
      → slice i (length bs) (overwrite xs i bs) ≡ bs
  unfolding slice overwrite
  slice-overwrite [] zero [] h = refl
  slice-overwrite [] zero (b ∷ bs) h = absurd (omega arith)
  slice-overwrite [] (suc i) bs h = absurd (omega arith)
  slice-overwrite (x ∷ xs) zero [] h = refl
  slice-overwrite (x ∷ xs) zero (b ∷ bs) h =
      ap (λ l. b ∷ l) (slice-overwrite xs zero bs (omega arith))
  slice-overwrite (x ∷ xs) (suc i) bs h = slice-overwrite xs i bs (omega arith)

  -- What stands before it is cs it was.
  pub slice-overwrite_before :
      (xs : List A) (i : ℕ) (bs : List A) (start len : ℕ)
      → start + len ≤ i
      → slice start len (overwrite xs i bs) ≡ slice start len xs
  unfolding slice overwrite
  slice-overwrite_before [] i bs start len h = refl
  slice-overwrite_before (x ∷ xs) zero [] start len h = refl
  slice-overwrite_before (x ∷ xs) zero (b ∷ bs) start len h =
      let e : start ≡ 0 = omega arith in let f : len ≡ 0 = omega arith in rw (e, f) refl
  slice-overwrite_before (x ∷ xs) (suc i) bs zero zero h = refl
  slice-overwrite_before (x ∷ xs) (suc i) bs zero (suc len) h =
      ap (λ l. x ∷ l) (slice-overwrite_before xs i bs zero len (omega arith))
  slice-overwrite_before (x ∷ xs) (suc i) bs (suc start) len h =
      slice-overwrite_before xs i bs start len (omega arith)

  -- Copies one after the other are one copy.
  pub overwrite-overwrite :
      (xs : List A) (i : ℕ) (cs bs : List A)
      → overwrite (overwrite xs i cs) (i + length cs) bs ≡ overwrite xs i (cs ++ bs)
  unfolding overwrite
  overwrite-overwrite [] i cs bs = refl
  overwrite-overwrite (x ∷ xs) zero [] bs = refl
  overwrite-overwrite (x ∷ xs) zero (a ∷ cs) bs =
      let e : 0 + length (a ∷ cs) ≡ suc (0 + length cs) = omega arith in
      rw (e) (ap (λ l. a ∷ l) (overwrite-overwrite xs zero cs bs))
  overwrite-overwrite (x ∷ xs) (suc i) cs bs =
      let e : suc i + length cs ≡ suc (i + length cs) = omega arith in
      rw (e) (ap (λ l. x ∷ l) (overwrite-overwrite xs i cs bs))

  pub overwrite-nil : (xs : List A) (i : ℕ) → overwrite xs i [] ≡ xs
  unfolding overwrite
  overwrite-nil [] i = refl
  overwrite-nil (x ∷ xs) zero = refl
  overwrite-nil (x ∷ xs) (suc i) = ap (λ l. x ∷ l) (overwrite-nil xs i)
