-- ===== src/FileRecorder/Push/Filter.antt =====
-- The packets that are not written: those of the pairs of an empty HBstart and an empty HBstop.
use readout.FileRecorder.Push.{is_empty_hb_start, is_empty_hb_stop}
use readout.FileRecorder.File.{Chunk}
use readout.Rdh.{Rdh}
use readout.Prelude.{
  Bool, List, Option, [], ap, false, if-intro, if◌then◌else◌, none, refl, some, subst, sym, true, ℕ,
  ◌&&◌, ◌++◌, ◌+◌, ◌∙◌, ◌∷◌, ◌≡◌,
}

-- A packet: its header, its place in memory, and the timeframe of its page.
pub record Item : Type 0 where
  pub rdh : Rdh
  pub chunk : Chunk
  pub tf : ℕ

abbrev pub to_list {ℓ} : {A : Type ℓ} → Option A → List A
to_list none = []
to_list (some a) = a ∷ []

module _ (mask : ℕ) where
  -- The specification: each empty HBstart that an empty HBstop follows is dropped, and the HBstop.
  abbrev pub drop_pairs : List Item → List Item
  drop_pairs [] = []
  drop_pairs (a ∷ []) = a ∷ []
  drop_pairs (a ∷ b ∷ l) =
      let rest = drop_pairs l in
      let others = drop_pairs (b ∷ l) in
      if is_empty_hb_start mask a.rdh && is_empty_hb_stop mask b.rdh then rest else a ∷ others

  abbrev pub is_kept_start : Option Item → Bool
  is_kept_start none = false
  is_kept_start (some a) = is_empty_hb_start mask a.rdh

  -- One pass, with the packet kept aside before: what is written, the packet kept aside at the end,
  -- and the number of packets dropped.
  abbrev pub scan : Option Item → List Item → List Item × Option Item × ℕ
  scan kept [] = ([], kept, 0)
  scan kept (a ∷ l) =
      let (w, p, n) = scan none l in
      let (w', p', n') = scan (some a) l in
      if is_kept_start kept && is_empty_hb_stop mask a.rdh
      then (w, p, n + 2)
      else if is_empty_hb_start mask a.rdh
      then (to_list kept ++ w', p', n')
      else (to_list kept ++ (a ∷ w), p, n)

  abbrev pub IsKeptStart : Option Item → Type 0
  IsKeptStart none = Unit
  IsKeptStart (some a) = is_empty_hb_start mask a.rdh ≡ true

  drop_pairs-pair :
      (a b : Item) (l : List Item)
      → (is_empty_hb_start mask a.rdh && is_empty_hb_stop mask b.rdh) ≡ true
      → drop_pairs (a ∷ b ∷ l) ≡ drop_pairs l
  drop_pairs-pair a b l h = rw (h) refl

  drop_pairs-next :
      (a b : Item) (l : List Item)
      → (is_empty_hb_start mask a.rdh && is_empty_hb_stop mask b.rdh) ≡ false
      → drop_pairs (a ∷ b ∷ l) ≡ a ∷ drop_pairs (b ∷ l)
  drop_pairs-next a b l h = rw (h) refl

  drop_pairs-cons :
      (a : Item) (l : List Item)
      → is_empty_hb_start mask a.rdh ≡ false
      → drop_pairs (a ∷ l) ≡ a ∷ drop_pairs l
  drop_pairs-cons a [] h = refl
  drop_pairs-cons a (b ∷ l) h = drop_pairs-next a b l (rw (h) refl)

  -- What a pass writes and what it keeps are the packets `d`.
  abbrev Leaves : List Item → List Item × Option Item × ℕ → Type 0
  Leaves d (w, p, n) = (w ++ to_list p ≡ d) × IsKeptStart p

  later :
      (a : Item) (r : List Item × Option Item × ℕ) {d d' : List Item}
      → d' ≡ a ∷ d
      → Leaves d r
      → Leaves d' (a ∷ r.0, r.1, r.2)
  later a r e (h, k) = (ap (λ x. a ∷ x) h ∙ sym e, k)

  -- The pass writes what the specification leaves, but for the packet that it keeps aside.
  pub scan-drop_pairs :
      (kept : Option Item) (l : List Item)
      → IsKeptStart kept
      → (let (w, p, n) = scan kept l in
          (w ++ to_list p ≡ drop_pairs (to_list kept ++ l)) × IsKeptStart p)
  scan-drop_pairs none [] h = (refl, tt)
  scan-drop_pairs (some a) [] h = (refl, h)
  scan-drop_pairs none (a ∷ l) h =
      if-intro (Leaves (drop_pairs (a ∷ l))) (is_empty_hb_start mask a.rdh)
        (λ e. scan-drop_pairs (some a) l e)
        λ e. later a (scan none l) (drop_pairs-cons a l e) (scan-drop_pairs none l tt)
  scan-drop_pairs (some p) (a ∷ l) h =
      if-intro (Leaves (drop_pairs (p ∷ a ∷ l)))
        (is_empty_hb_start mask p.rdh && is_empty_hb_stop mask a.rdh)
        (λ e.
          subst (λ d. Leaves d (scan none l)) (sym (drop_pairs-pair p a l e))
            (scan-drop_pairs none l tt))
        λ e.
          (let d = drop_pairs-next p a l e in
            if-intro (Leaves (drop_pairs (p ∷ a ∷ l))) (is_empty_hb_start mask a.rdh)
              (λ g. later p (scan (some a) l) d (scan-drop_pairs (some a) l g))
              λ g.
                later p (a ∷ (scan none l).0, (scan none l).1, (scan none l).2) d
                  (later a (scan none l) (drop_pairs-cons a l g) (scan-drop_pairs none l tt)))
