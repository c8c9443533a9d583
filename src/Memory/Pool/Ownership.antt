-- ===== src/Memory/Pool/Ownership.antt =====
-- Who has a page: the pool's list of available pages, or the callers of `getPage`.
use readout.Memory.Page.{Readings, allocated, idle}
use readout.Prelude.{
  All, All-append, All-append_left, All-append_right, All-map, List, [], ap, arith, count,
  count-append, count-cons, count-nil, count-singleton, if◌then◌else◌, inl, inr, length,
  length-append, refl, some, subst, sym, true, ℕ, ◌++◌, ◌+◌, ◌<◌, ◌∙◌, ◌∷◌, ◌≡◌, ◌≢◌, ◌⊎◌,
}
use readout.Fifo.{Fifo}
use readout.Counter.{CounterStats, set_value}
use readout.Memory.Pool.{
  Pool, get_number_of_pages_available, get_page, is_page_valid, or_null, release_page,
  update_buffer_state, update_page_state,
}
use readout.Memory.Pool.Index.{IsLaidOut, is_page_valid_iff}
use readout.Memory.Pool.Kept.{
  Keeps, Keeps-IsLaidOut, Keeps-trans, is_page_valid-Keeps, update_buffer_state-Keeps,
  update_page_state-Keeps,
}

List-cases : (xs : List ℕ) → (xs ≡ []) ⊎ ((a : ℕ) × (r : List ℕ) × (xs ≡ a ∷ r))
List-cases [] = inl refl
List-cases (a ∷ r) = inr (a, r, refl)

module _ {F : Fifo ℕ} where
  abbrev pub available : Pool F → List ℕ
  available p = F.contents p.pages_available

  -- A pool beside the pages that its callers have, `held`: every page is in its place, and the
  -- queue has room for all of them.
  pub record IsShared (p : Pool F) (held : List ℕ) : Type 0 where
    pub laid_out : IsLaidOut p
    pub valid_available : All (λ a. is_page_valid F p a ≡ true) (available p)
    pub valid_held : All (λ a. is_page_valid F p a ≡ true) held
    pub all_room : F.capacity p.pages_available ≡ p.number_of_pages
    pub all_pages : length (available p) + length held ≡ p.number_of_pages

  -- A call of `getPage` or of `releasePage`; only pages that are held are released.
  pub data Step : Pool F × List ℕ → Pool F × List ℕ → Type 0 where
    gets :
        (now : Readings) (p : Pool F) (held : List ℕ)
        → (get_page F now p).0 ≢ 0
        → Step (p, held) ((get_page F now p).1, (get_page F now p).0 ∷ held)
    gets_none :
        (now : Readings) (p : Pool F) (held : List ℕ)
        → (get_page F now p).0 ≡ 0
        → Step (p, held) ((get_page F now p).1, held)
    releases :
        (now : Readings) (a : ℕ) (p q : Pool F) (before after : List ℕ)
        → release_page F now a p ≡ some q
        → Step (p, before ++ a ∷ after) (q, before ++ after)

  pub data Reach (s : Pool F × List ℕ) : Pool F × List ℕ → Type 0 where
    here : Reach s s
    next : {t u : Pool F × List ℕ} → Reach s t → Step t u → Reach s u

  valid-pos : (p : Pool F) (a : ℕ) → IsLaidOut p → is_page_valid F p a ≡ true → a ≢ 0
  valid-pos p a w v e =
      let (i, h, same, _) = (is_page_valid_iff p a w).0 v in omega (arith, w.first_pos)

  -- The pool after the queue has changed and the rest was kept.
  kept-IsShared :
      (p q : Pool F) (held held' : List ℕ)
      → IsShared p held
      → Keeps p q
      → All (λ a. is_page_valid F p a ≡ true) (available q)
      → All (λ a. is_page_valid F p a ≡ true) held'
      → F.capacity q.pages_available ≡ F.capacity p.pages_available
      → length (available q) + length held' ≡ length (available p) + length held
      → IsShared q held'
  kept-IsShared p q held held' w k va vh c n = record {
    laid_out = Keeps-IsLaidOut k w.laid_out;
    valid_available = All-map _ _ (λ a v. is_page_valid-Keeps a k ∙ v) (available q) va;
    valid_held = All-map _ _ (λ a v. is_page_valid-Keeps a k ∙ v) held' vh;
    all_room = c ∙ w.all_room ∙ sym k.number_kept;
    all_pages = n ∙ w.all_pages ∙ sym k.number_kept;
  }

  queue_changed-Keeps :
      (p : Pool F) (stats : CounterStats) (q : F.Queue)
      → Keeps p (record p { pool_stats = stats; pages_available = q })
  queue_changed-Keeps p stats q = record {
    number_kept = refl;
    size_kept = refl;
    first_kept = refl;
    last_kept = refl;
    length_kept = refl;
    ptrs_kept = λ i. refl;
  }

  -- `getPage`: the queue of the result is what `pop` leaves.
  get_page-Keeps :
      (now : Readings) (p : Pool F)
      → Keeps p (get_page F now p).1
        × ((get_page F now p).1.pages_available ≡ (F.pop p.pages_available).1)
        × ((get_page F now p).0 ≡ or_null F (F.pop p.pages_available).0)
  unfolding get_page
  get_page-Keeps now p =
      let stats = set_value p.pool_stats (get_number_of_pages_available F p) in
      let rest = (F.pop p.pages_available).1 in
      let ptr = or_null F (F.pop p.pages_available).0 in
      let p' : Pool F = record p { pool_stats = stats; pages_available = rest } in
      let u = update_page_state-Keeps now ptr allocated p' in
      let b = update_buffer_state-Keeps (update_page_state F now ptr allocated p').1 in
      (Keeps-trans (queue_changed-Keeps p stats rest) (Keeps-trans u.0 b.0), b.1 ∙ u.1, refl)

  -- `getPage` hands out the oldest available page, or null exactly when there is none.
  pub get_page_lem :
      (now : Readings) (p : Pool F) (held : List ℕ)
      → IsShared p held
      → let (a, q) = get_page F now p in
        ((available p ≡ []) × (a ≡ 0) × (available q ≡ []) × IsShared q held)
        ⊎ ((available p ≡ a ∷ available q) × (a ≢ 0) × IsShared q (a ∷ held))
  get_page_lem now p held w = elim (List-cases (available p)) [
    | inl e ↦
        let (k, queue, ptr) = get_page-Keeps now p in
        let popped = F.pop-nil p.pages_available e in
        let queue' = queue ∙ ap (λ t. t.1) popped in
        let same = ap F.contents queue' in
        inl (
          e,
          ptr ∙ ap (λ t. or_null F t.0) popped,
          same ∙ e,
          kept-IsShared p _ held held w k
              (subst (All (λ a. is_page_valid F p a ≡ true)) (sym same) w.valid_available)
              w.valid_held (ap F.capacity queue') (ap (λ xs. length xs + length held) same),
        )
    | inr (a, r, e) ↦
        let (k, queue, ptr) = get_page-Keeps now p in
        let got = ptr ∙ ap (or_null F) (F.pop-cons p.pages_available a r e) in
        let rest = ap F.contents queue ∙ F.contents-pop p.pages_available a r e in
        let ok = subst (All (λ x. is_page_valid F p x ≡ true)) e w.valid_available in
        inr (
          rw (got, rest) e,
          rw got (valid-pos p a w.laid_out ok.0),
          kept-IsShared p _ held _ w k
              (subst (All (λ x. is_page_valid F p x ≡ true)) (sym rest) ok.1)
              (rw got ok.0, w.valid_held) (ap F.capacity queue ∙ F.capacity-pop p.pages_available)
              (omega (arith, ap length rest, ap length e)),
        )
  ]

  release_page-Keeps :
      (now : Readings) (a : ℕ) (p : Pool F)
      → is_page_valid F p a ≡ true
      → (q : Pool F) × (release_page F now a p ≡ some q)
        × Keeps p q
        × (q.pages_available ≡ (F.push p.pages_available a).1)
  unfolding release_page
  release_page-Keeps now a p v =
      let u = update_page_state-Keeps now a idle p in
      let p' = (update_page_state F now a idle p).1 in
      let pushed = (F.push p'.pages_available a).1 in
      let p'' : Pool F = record p' { pages_available = pushed } in
      let b = update_buffer_state-Keeps p'' in
      (
        update_buffer_state F p'',
        rw v,
        Keeps-trans u.0 (Keeps-trans (queue_changed-Keeps p' p'.pool_stats pushed) b.0),
        b.1 ∙ ap (λ t. (F.push t a).1) u.1,
      )

  -- `releasePage` of a page that is held always succeeds, and puts it behind the available pages.
  pub release_page_lem :
      (now : Readings) (a : ℕ) (p : Pool F) (before after : List ℕ)
      → IsShared p (before ++ a ∷ after)
      → (q : Pool F) × (release_page F now a p ≡ some q)
        × (available q ≡ available p ++ a ∷ [])
        × IsShared q (before ++ after)
  release_page_lem now a p before after w =
      let valid : Type 0 = All (λ x. is_page_valid F p x ≡ true) (before ++ after) in
      let tail_valid =
        All-append_right (λ x. is_page_valid F p x ≡ true) before (a ∷ after) w.valid_held in
      let head_valid =
        All-append_left (λ x. is_page_valid F p x ≡ true) before (a ∷ after) w.valid_held in
      let (q, e, k, queue) = release_page-Keeps now a p tail_valid.0 in
      let room : length (available p) < F.capacity p.pages_available =
        omega (arith, w.all_room, w.all_pages, length-append before (a ∷ after)) in
      let pushed = ap F.contents queue ∙ F.contents-push p.pages_available a room in
      (
        q,
        e,
        pushed,
        kept-IsShared p q _ _ w k
            (subst (All (λ x. is_page_valid F p x ≡ true)) (sym pushed) (
              All-append (λ x. is_page_valid F p x ≡ true) (available p) (a ∷ []) w.valid_available
                (tail_valid.0, tt)))
            (All-append (λ x. is_page_valid F p x ≡ true) before after head_valid tail_valid.1)
            (ap F.capacity queue ∙ F.capacity-push p.pages_available a)
            (omega (
              arith,
              ap length pushed,
              length-append (available p) (a ∷ []),
              length-append before (a ∷ after),
              length-append before after,
            )),
      )

  -- How many times a page is available or held.
  abbrev pub copies : ℕ → Pool F × List ℕ → ℕ
  copies x s = count x (available s.0) + count x s.1

  Step-copies :
      {s t : Pool F × List ℕ}
      → Step s t
      → IsShared s.0 s.1
      → IsShared t.0 t.1 × ((x : ℕ) → copies x t ≡ copies x s)
  Step-copies (gets now p held h) w = elim (get_page_lem now p held w) [
    | inl (_, e, _, _) ↦ absurd (h e)
    | inr (e, _, w') ↦ (
      w',
      λ x. omega (
        arith,
        ap (count x) e,
        count-cons x (get_page F now p).0 held,
        count-cons x (get_page F now p).0 (available (get_page F now p).1),
      ),
    )
  ]
  Step-copies (gets_none now p held h) w = elim (get_page_lem now p held w) [
    | inl (e, _, e', w') ↦ (w', λ x. omega (arith, ap (count x) (e' ∙ sym e)))
    | inr (_, e, _) ↦ absurd (e h)
  ]
  Step-copies (releases now a p q before after h) w =
      let (q', e, r, w') = release_page_lem now a p before after w in
      let same : q' ≡ q = cc (sym e ∙ h) in
      subst
        (λ t.
          IsShared t (before ++ after)
          × ((x : ℕ) → copies x (t, before ++ after) ≡ copies x (p, before ++ a ∷ after)))
        same
        (
          w',
          λ x. omega (
            arith,
            ap (count x) r,
            count-append x (available p) (a ∷ []),
            count-append x before after,
            count-append x before (a ∷ after),
            count-cons x a after,
            count-singleton x a,
          ),
        )

  Reach-copies :
      {s t : Pool F × List ℕ}
      → Reach s t
      → IsShared s.0 s.1
      → IsShared t.0 t.1 × ((x : ℕ) → copies x t ≡ copies x s)
  Reach-copies here w = (w, λ x. refl)
  Reach-copies (next r st) w =
      let (w', e) = Reach-copies r w in let (w'', e') = Step-copies st w' in (w'', λ x. e' x ∙ e x)

  -- From a pool in which every page is available once and none is held, any sequence of `getPage`
  -- and of releases of held pages keeps every page in exactly one place: a page that is held is
  -- held once and is not available, and no page is lost or made up.
  pub Reach-exclusive :
      {p : Pool F} {t : Pool F × List ℕ} (x : ℕ)
      → IsShared p []
      → ((y : ℕ) → count y (available p) ≡ (if is_page_valid F p y then 1 else 0))
      → Reach (p, []) t
      → IsShared t.0 t.1 × (copies x t ≡ (if is_page_valid F p x then 1 else 0))
  Reach-exclusive x w once r =
      let (w', e) = Reach-copies r w in (w', omega (arith, e x, once x, count-nil x))
