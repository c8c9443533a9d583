-- ===== src/Processor/Order.antt =====
-- The order of the output, over any sequence of steps.
use mathlib.Core.Bool.{false≢true}
use mathlib.Core.Option.{none-ne-some, some-injective}
use readout.Prelude.Int.{ℤ}
use readout.Prelude.{
  Bool, List, Option, Option-intro, [], ap, append_assoc, arith, false, get_elem?, if-intro,
  if◌then◌else◌, length, map, none, not, refl, some, subst, suc, sym, true, zero, ℕ, ◌%◌, ◌&&◌, ◌*◌,
  ◌++◌, ◌+◌, ◌==◌, ◌^◌, ◌∙◌, ◌∷◌, ◌≡◌,
}
use readout.Processor.{
  Processor, Worker, collect, collect_next, dispatch, find_front, first_id, new_processor,
  process_one, push_data, tag, thread_at,
}
use readout.Fifo.{Fifo}
use readout.Aggregator.Slicer.{Block}

-- The first identifiers given to blocks.
abbrev pub ids : ℕ → List ℕ
ids zero = []
ids (suc n) = ids n ++ (((first_id + n) % 2 ^ 64) ∷ [])

abbrev pub pipeline_ids : List Block → List ℕ
pipeline_ids l = map (λ b. b.header.pipeline_id) l

pub pipeline_ids-append_one :
    (l : List Block) (b : Block)
    → pipeline_ids (l ++ (b ∷ [])) ≡ pipeline_ids l ++ (b.header.pipeline_id ∷ [])
pipeline_ids-append_one [] b = refl
pipeline_ids-append_one (x ∷ l) b = ap (λ t. x.header.pipeline_id ∷ t) (pipeline_ids-append_one l b)

module _ (F : Fifo Block) (G : Fifo ℕ) (process : Block → Option Block)
    (forward : List Block → Block → Bool) where
  abbrev State : Type 0
  State = Processor F G process forward

  -- A step of the thread that pushes, of a worker, or of the collector.
  pub data Step : State → State → Type 0 where
    pushed : (b : Block) (p : State) → Step p (push_data F G process forward b p).1
    worked : (i : ℕ) (p : State) → Step p (process_one F G process forward i p)
    collected : (p : State) → Step p (collect F G process forward p)

  pub data Reach (p : State) : State → Type 0 where
    start : Reach p p
    step : {q r : State} → Reach p q → Step q r → Reach p r

  -- The identifiers that went out, and then those that are waited for, are all that were given.
  pub record IsOrdered (p : State) : Type 0 where
    pub ordered : p.ensure_page_order ≡ true
    pub next_id : p.current_id ≡ (first_id + p.processed_blocks) % 2 ^ 64
    pub in_order : pipeline_ids p.output ++ G.contents p.id_fifo ≡ ids p.processed_blocks

  new_processor-IsOrdered :
      (threads size : ℕ) (forwards : Bool)
      → IsOrdered (new_processor F G process forward threads size true forwards)
  unfolding new_processor
  new_processor-IsOrdered threads size forwards = record {
    ordered = refl;
    next_id = refl;
    in_order = G.contents-create (threads * size * 2);
  }

  -- The new identifier waits after the others.
  pushed_in_order :
      (p : State)
      → IsOrdered p
      → G.is_full p.id_fifo ≡ false
      → pipeline_ids p.output
          ++ G.contents
              (if p.ensure_page_order then (G.push p.id_fifo p.current_id).1 else p.id_fifo)
        ≡ ids (suc p.processed_blocks)
  pushed_in_order p h room =
      let q = G.contents-push p.id_fifo p.current_id (G.is_full-false p.id_fifo room) in
      rw
        (
          h.ordered,
          q,
          sym (append_assoc (pipeline_ids p.output) (G.contents p.id_fifo) (p.current_id ∷ [])),
          h.in_order,
          h.next_id,
        )
        refl

  push_data-IsOrdered :
      (b : Block) (p : State) → IsOrdered p → IsOrdered (push_data F G process forward b p).1
  unfolding push_data
  push_data-IsOrdered b p h =
      let (ok, (ws, i)) =
        dispatch F G process forward (length p.thread_pool) (tag F G process forward b p)
          p.thread_pool p.thread_index in
      let P : ℤ × State → Type 0 = λ x. IsOrdered x.1 in
      if-intro P (b.data_ptr == 0) (λ e. h)
        λ e.
          if-intro P (p.ensure_page_order && G.is_full p.id_fifo)
            (λ e. record { ordered = h.ordered; next_id = h.next_id; in_order = h.in_order })
            λ e.
              if-intro P (not ok)
                (λ g. record { ordered = h.ordered; next_id = h.next_id; in_order = h.in_order })
                λ g. record {
                  ordered = h.ordered;
                  next_id = omega (arith, h.next_id);
                  in_order = pushed_in_order p h (ground (arith, e, h.ordered));
                }

  process_one-IsOrdered :
      (i : ℕ) (p : State) → IsOrdered p → IsOrdered (process_one F G process forward i p)
  unfolding process_one
  process_one-IsOrdered i p h =
      Option-intro IsOrdered (get_elem? p.thread_pool i) (λ e. h)
        λ w e. record { ordered = h.ordered; next_id = h.next_id; in_order = h.in_order }

  abbrev pub FoundId : ℕ → Option (ℕ × (Worker F G process forward × Block)) → Type 0
  FoundId id none = Unit
  FoundId id (some (ix, (w, bc))) = bc.header.pipeline_id ≡ id

  pub find_front-FoundId :
      (k i : ℕ) (ws : List (Worker F G process forward)) (thread_ix id : ℕ)
      → FoundId id (find_front F G process forward k i ws thread_ix id)
  unfolding find_front
  find_front-FoundId zero i ws thread_ix id = tt
  find_front-FoundId (suc k) i ws thread_ix id =
      let rest = find_front-FoundId k (suc i) ws thread_ix id in
      Option-intro (FoundId id) (get_elem? ws (thread_at (length ws) i thread_ix)) (λ e. tt)
        λ w e.
          Option-intro (FoundId id) (F.front w.output_fifo) (λ g. rest)
            λ bc g.
              if-intro (FoundId id) (bc.header.pipeline_id == id) (λ l. ground (arith, l)) λ l. rest

  -- The front of a queue is the first of what it holds.
  front_some : (q : G.Queue) (id : ℕ) → G.front q ≡ some id → (r : List ℕ) × (G.contents q ≡ id ∷ r)
  front_some q id e = go (G.contents q) refl
    where
      go : (l : List ℕ) → G.contents q ≡ l → (r : List ℕ) × (G.contents q ≡ id ∷ r)
      go [] h = absurd (none-ne-some id (sym (G.front-nil q h) ∙ e))
      go (a ∷ r) h = (r, h ∙ ap (λ x. x ∷ r) (some-injective a id (sym (G.front-cons q a r h) ∙ e)))

  popped_in_order :
      (out : List Block) (bc : Block) (id : ℕ) (r l : List ℕ)
      → bc.header.pipeline_id ≡ id
      → pipeline_ids out ++ (id ∷ r) ≡ l
      → pipeline_ids (out ++ (bc ∷ [])) ++ r ≡ l
  popped_in_order out bc id r l e h =
      rw (pipeline_ids-append_one out bc, e, append_assoc (pipeline_ids out) (id ∷ []) r) h

  collect_next-IsOrdered :
      (p : State) → IsOrdered p → IsOrdered (collect_next F G process forward p)
  unfolding collect_next
  collect_next-IsOrdered p h =
      Option-intro IsOrdered (G.front p.id_fifo) (λ e. h)
        λ id e.
          Option-intro IsOrdered
            (find_front F G process forward (length p.thread_pool) 0 p.thread_pool p.thread_ix id)
            (λ g. h)
            λ (ix, (w, bc)) g.
              (let found : bc.header.pipeline_id ≡ id =
                  subst (FoundId id) g
                    (find_front-FoundId (length p.thread_pool) 0 p.thread_pool p.thread_ix id) in
                let (r, c) = front_some p.id_fifo id e in
                record {
                  ordered = h.ordered;
                  next_id = h.next_id;
                  in_order =
                      rw (G.contents-pop p.id_fifo id r c)
                        (popped_in_order p.output bc id r _ found (rw⁻¹ (c) h.in_order));
                })

  collect-IsOrdered : (p : State) → IsOrdered p → IsOrdered (collect F G process forward p)
  unfolding collect
  collect-IsOrdered p h =
      if-intro IsOrdered p.ensure_page_order (λ e. collect_next-IsOrdered p h)
        λ e. absurd (false≢true (sym e ∙ h.ordered))

  -- With the order kept, each call of pushData being one step, whatever the threads do and in whatever turn, and whatever the library makes
  -- of the blocks, the identifiers of the blocks that were output are the first that were given, in
  -- their order, with none left out and none twice; the others wait in their order.
  pub Reach-IsOrdered :
      (threads size : ℕ) (forwards : Bool) (p : State)
      → Reach (new_processor F G process forward threads size true forwards) p
      → IsOrdered p
  Reach-IsOrdered threads size forwards p r = go p r
    where
      go :
          (q : State)
          → Reach (new_processor F G process forward threads size true forwards) q
          → IsOrdered q
      go q start = new_processor-IsOrdered threads size forwards
      go q (step r (pushed b s)) = push_data-IsOrdered b s (go s r)
      go q (step r (worked i s)) = process_one-IsOrdered i s (go s r)
      go q (step r (collected s)) = collect-IsOrdered s (go s r)
