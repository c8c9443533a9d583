-- ===== src/Processor/Progress.antt =====
-- The collector finds the block that is next, wherever it stands.
use mathlib.Core.Bool.{false≢true}
use mathlib.Core.Option.{none-ne-some, some-injective}
use native.Mathlib.Decide.{dec_lt}
use native.Mathlib.Nat.{add-mod_right, add-mod-mod, mod-eq_of_lt, mod-lt}
use readout.Processor.Order.{FoundId, find_front-FoundId}
use readout.Prelude.{
  Bool, List, Option, Option-intro, [], ap, arith, get_elem?, if-intro, length, refl, some, subst,
  suc, sym, true, zero, ℕ, ◌%◌, ◌++◌, ◌+◌, ◌-◌, ◌<◌, ◌==◌, ◌^◌, ◌∙◌, ◌∷◌, ◌≡◌, ◌≤◌,
}
use readout.Processor.{Processor, Worker, collect, collect_next, find_front, thread_at}
use readout.Fifo.{Fifo}
use readout.Aggregator.Slicer.{Block}

get_elem?-below :
    {A : Type 0} (xs : List A) (i : ℕ) → i < length xs → (x : A) × (get_elem? xs i ≡ some x)
get_elem?-below [] i h = absurd (ground arith)
get_elem?-below (x ∷ xs) zero h = (x, refl)
get_elem?-below (x ∷ xs) (suc i) h = get_elem?-below xs i (omega arith)

below_length : {A : Type 0} (xs : List A) (i : ℕ) (x : A) → get_elem? xs i ≡ some x → i < length xs
below_length [] i x h = absurd (none-ne-some x h)
below_length (y ∷ xs) zero x h = omega arith
below_length (y ∷ xs) (suc i) x h = omega (arith, below_length xs i x h)

-- A turn over `n` indices that starts anywhere comes to each of them.
turn : (n j t : ℕ) → j < n → (i : ℕ) × (i < n) × ((i + t) % n ≡ j)
turn n j t h =
    let m = mod-lt t (below n j h) in
    elim (dec_lt j (t % n)) [
      | yes l ↦ (
        j + n - t % n,
        omega (arith, m, l),
        sym (add-mod-mod (j + n - t % n) t n)
            ∙ ap (λ x. x % n) (back n j (t % n) m)
            ∙ add-mod_right j n
            ∙ mod-eq_of_lt h,
      )
      | no l ↦ (
        j - t % n,
        omega (arith, h),
        sym (add-mod-mod (j - t % n) t n) ∙ ap (λ x. x % n) (here j (t % n) l) ∙ mod-eq_of_lt h,
      )
    ]
  where
    below : (n j : ℕ) → j < n → 0 < n
    below n j h = omega arith

    back : (n j m : ℕ) → m < n → j + n - m + m ≡ j + n
    back n j m h = omega arith

    here : (j m : ℕ) → ¬ (j < m) → j - m + m ≡ j
    here j m h = omega (arith, h)

thread_at_eq : (n i t : ℕ) → i + t < 2 ^ 31 → thread_at n i t ≡ (i + t) % n
thread_at_eq n i t h = ground arith

thread_at-lt : (n i t : ℕ) → 0 < n → i + t < 2 ^ 31 → thread_at n i t < n
thread_at-lt n i t h k = rw (thread_at_eq n i t k) (mod-lt (i + t) h)

module _ (F : Fifo Block) (G : Fifo ℕ) (process : Block → Option Block)
    (forward : List Block → Block → Bool) where
  abbrev Ws : Type 0
  Ws = List (Worker F G process forward)

  abbrev Finds : Option (ℕ × (Worker F G process forward × Block)) → Type 0
  Finds o = (x : ℕ × (Worker F G process forward × Block)) × (o ≡ some x)

  find_front-Finds :
      (k i at : ℕ) (ws : Ws) (t id : ℕ) (w : Worker F G process forward) (bc : Block)
      → i ≤ at
      → at < i + k
      → at + t < 2 ^ 31
      → get_elem? ws (thread_at (length ws) at t) ≡ some w
      → F.front w.output_fifo ≡ some bc
      → bc.header.pipeline_id ≡ id
      → Finds (find_front F G process forward k i ws t id)
  unfolding find_front
  find_front-Finds zero i at ws t id w bc a b in_int g f e = absurd (ground arith)
  find_front-Finds (suc k) i at ws t id w bc a b in_int g f e =
      let some_thread : 0 < length ws =
        omega (arith, below_length ws (thread_at (length ws) at t) w g) in
      let (x, y) =
        get_elem?-below ws (thread_at (length ws) i t)
          (thread_at-lt (length ws) i t some_thread (omega arith)) in
      elim (dec_lt i at) [
        | yes l ↦
            (let rest =
                find_front-Finds k (suc i) at ws t id w bc (omega arith) (omega arith) in_int g f
                  e in
              Option-intro Finds (get_elem? ws (thread_at (length ws) i t))
                (λ o. absurd (none-ne-some x (sym o ∙ y)))
                λ w' o.
                  Option-intro Finds (F.front w'.output_fifo) (λ q. rest)
                    λ bc' q.
                      if-intro Finds (bc'.header.pipeline_id == id) (λ r. (_, refl)) λ r. rest)
        | no l ↦
            (let same : at ≡ i = omega (arith, l) in
              let g' = subst (λ v. get_elem? ws (thread_at (length ws) v t) ≡ some w) same g in
              Option-intro Finds (get_elem? ws (thread_at (length ws) i t))
                (λ o. absurd (none-ne-some w (sym o ∙ g')))
                λ w' o.
                  (let front =
                      ap (λ v. F.front v.output_fifo) (some-injective w' w (sym o ∙ g')) ∙ f in
                    Option-intro Finds (F.front w'.output_fifo)
                      (λ q. absurd (none-ne-some bc (sym q ∙ front)))
                      λ bc' q.
                        (let same_block = some-injective bc' bc (sym q ∙ front) in
                          if-intro Finds (bc'.header.pipeline_id == id) (λ r. (_, refl))
                            λ r. absurd (ground (arith, e, r, same_block)))))
      ]

  -- When the order is kept and the block with the identifier that is next stands at the front of the
  -- output of some thread, one turn of the collector outputs a block with that identifier, as long as
  -- `threadIx`, which grows with each block that is output, and the number of threads are together
  -- at most 2 ^ 31, the limit of an `int`.
  pub collect-progress :
      (p : Processor F G process forward) (id j : ℕ) (w : Worker F G process forward) (bc : Block)
      → p.ensure_page_order ≡ true
      → p.thread_ix + length p.thread_pool ≤ 2 ^ 31
      → G.front p.id_fifo ≡ some id
      → get_elem? p.thread_pool j ≡ some w
      → F.front w.output_fifo ≡ some bc
      → bc.header.pipeline_id ≡ id
      → (b : Block) × ((collect F G process forward p).output ≡ p.output ++ (b ∷ []))
        × (b.header.pipeline_id ≡ id)
  unfolding collect collect_next
  collect-progress p id j w bc o in_int n g f e =
      let ws = p.thread_pool in
      let (i, l, at) = turn (length ws) j p.thread_ix (below_length ws j w g) in
      let found =
        find_front-Finds (length ws) 0 i ws p.thread_ix id w bc (omega arith) (omega arith)
          (omega (arith, l, in_int))
          (ap (get_elem? ws)
              (thread_at_eq (length ws) i p.thread_ix (omega (arith, l, in_int)) ∙ at)
            ∙ g)
          f e in
      let P : Processor F G process forward → Type 0 =
        λ x. (b : Block) × (x.output ≡ p.output ++ (b ∷ [])) × (b.header.pipeline_id ≡ id) in
      if-intro P p.ensure_page_order
        (λ q.
          Option-intro P (G.front p.id_fifo) (λ r. absurd (none-ne-some id (sym r ∙ n)))
            λ id' r.
              (let same = some-injective id' id (sym r ∙ n) in
                Option-intro P (find_front F G process forward (length ws) 0 ws p.thread_ix id')
                  (λ c. absurd (
                    none-ne-some found.0 (
                      sym c
                      ∙ ap (λ v. find_front F G process forward (length ws) 0 ws p.thread_ix v) same
                      ∙ found.1)))
                  λ (ix, (w', b)) c. (
                    b,
                    refl,
                    subst (FoundId F G process forward id') c
                          (find_front-FoundId F G process forward (length ws) 0 ws p.thread_ix id')
                        ∙ same,
                  )))
        λ q. absurd (false≢true (sym q ∙ o))
