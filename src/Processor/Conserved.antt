-- ===== src/Processor/Conserved.antt =====
-- No block is lost between the input and the output.
use readout.Processor.Held.{Answers, collect-held, process_one-held, same_number}
use readout.Prelude.Int.{ℤ}
use readout.Processor.Order.{Reach, collected, ids, pushed, start, step, worked}
use readout.Prelude.{
  Bool, List, Option, Option-intro, [], ap, arith, count, count-append, count-singleton, get_elem?,
  if-intro, length, not, refl, suc, sym, true, zero, ℕ, ◌%◌, ◌&&◌, ◌+◌, ◌==◌, ◌^◌, ◌∙◌, ◌∷◌, ◌≡◌,
}
use readout.Processor.{
  Processor, collect, collect_each, collect_next, dispatch, find_front, first_id, new_processor,
  process_one, push_data, tag,
}
use readout.Processor.Pool.{count_id, in_pool, in_pool-dispatch, in_pool-replicate, is_id}
use readout.Fifo.{Fifo}
use readout.Aggregator.Slicer.{Block}

module _ (F : Fifo Block) (G : Fifo ℕ) (process : Block → Option Block)
    (forward : List Block → Block → Bool) where
  -- Each block that was accepted is in a queue of a thread or went out, by its identifier.
  pub record IsConserved (p : Processor F G process forward) : Type 0 where
    pub next_id : p.current_id ≡ (first_id + p.processed_blocks) % 2 ^ 64
    pub all_there :
        (x : ℕ)
        → in_pool F G process forward x p.thread_pool + count_id x p.output
          ≡ count x (ids p.processed_blocks)

  abbrev State : Type 0
  State = Processor F G process forward

  new_processor-IsConserved :
      (threads size : ℕ) (ordered forwards : Bool)
      → IsConserved (new_processor F G process forward threads size ordered forwards)
  unfolding new_processor
  new_processor-IsConserved threads size ordered forwards = record {
    next_id = refl;
    all_there = λ x. rw (in_pool-replicate F G process forward x threads size) (omega arith);
  }

  accepted_there :
      (b : Block) (p : State)
      → IsConserved p
      → (let (ok, (ws, i)) =
            dispatch F G process forward
              (length p.thread_pool)
              (tag F G process forward b p)
              p.thread_pool
              p.thread_index in
          ok ≡ true
          → (x : ℕ)
          → in_pool F G process forward x ws + count_id x p.output
            ≡ count x (ids (suc p.processed_blocks)))
  accepted_there b p h ok x =
      let t = tag F G process forward b p in
      let d =
        in_pool-dispatch F G process forward x (length p.thread_pool) t p.thread_pool
          p.thread_index in
      let last : is_id x t ≡ same_number x ((first_id + p.processed_blocks) % 2 ^ 64) =
        ap (same_number x) h.next_id in
      rw (d, ok) omega
        (
          arith,
          h.all_there x,
          last,
          count-append x (ids p.processed_blocks) (((first_id + p.processed_blocks) % 2 ^ 64) ∷ []),
          count-singleton x ((first_id + p.processed_blocks) % 2 ^ 64),
        )

  push_data-IsConserved :
      (b : Block) (p : State) → IsConserved p → IsConserved (push_data F G process forward b p).1
  unfolding push_data
  push_data-IsConserved b p h =
      let (ok, (ws, i)) =
        dispatch F G process forward (length p.thread_pool) (tag F G process forward b p)
          p.thread_pool p.thread_index in
      let P : ℤ × State → Type 0 = λ v. IsConserved v.1 in
      if-intro P (b.data_ptr == 0) (λ e. h)
        λ e.
          if-intro P (p.ensure_page_order && G.is_full p.id_fifo)
            (λ e. record { next_id = h.next_id; all_there = h.all_there })
            λ e.
              if-intro P (not ok) (λ g. record { next_id = h.next_id; all_there = h.all_there })
                λ g. record {
                  next_id = omega (arith, h.next_id);
                  all_there = accepted_there b p h (ground (arith, g));
                }

  -- The other steps give no identifier.
  abbrev SameGiven : State → State → Type 0
  SameGiven p q = (q.current_id ≡ p.current_id) × (q.processed_blocks ≡ p.processed_blocks)

  process_one-SameGiven : (i : ℕ) (p : State) → SameGiven p (process_one F G process forward i p)
  unfolding process_one
  process_one-SameGiven i p =
      Option-intro (SameGiven p) (get_elem? p.thread_pool i) (λ e. (refl, refl)) λ w e. (refl, refl)

  collect_each-SameGiven :
      (k i : ℕ) (p q : State) → SameGiven p q → SameGiven p (collect_each F G process forward k i q)
  unfolding collect_each
  collect_each-SameGiven zero i p q h = h
  collect_each-SameGiven (suc k) i p q h =
      Option-intro (SameGiven p) (get_elem? q.thread_pool i) (λ e. h)
        λ w e.
          collect_each-SameGiven k (suc i) p _
            (Option-intro (SameGiven p) (F.pop w.output_fifo).0 (λ o. h) λ bc o. h)

  collect-SameGiven : (p : State) → SameGiven p (collect F G process forward p)
  unfolding collect collect_next
  collect-SameGiven p =
      let n = length p.thread_pool in
      if-intro (SameGiven p) p.ensure_page_order
        (λ e.
          Option-intro (SameGiven p) (G.front p.id_fifo) (λ o. (refl, refl))
            λ id o.
              Option-intro (SameGiven p)
                (find_front F G process forward n 0 p.thread_pool p.thread_ix id)
                (λ g. (refl, refl)) λ (ix, (w, bc)) g. (refl, refl))
        λ e. collect_each-SameGiven n 0 p p (refl, refl)

  same-IsConserved :
      (p q : State)
      → IsConserved p
      → SameGiven p q
      → ((x : ℕ)
          → in_pool F G process forward x q.thread_pool + count_id x q.output
            ≡ in_pool F G process forward x p.thread_pool + count_id x p.output)
      → IsConserved q
  same-IsConserved p q h (a, b) k = record {
    next_id = omega (arith, a, b, h.next_id);
    all_there = λ x. k x ∙ h.all_there x ∙ ap (λ n. count x (ids n)) (sym b);
  }

  -- In the runs where each call of pushData is one step, that is where no worker takes a block between
  -- its push and its tag, and otherwise for any order of the turns of the threads, with the order
  -- kept or not: if the library gives a result for each block, with its identifier, then an
  -- identifier stands in the queues of the threads and among the blocks that were output as often,
  -- all in all, as it was given to an accepted block. In the code a worker may take a block before
  -- its tag; nothing is said of such runs.
  pub Reach-IsConserved :
      (threads size : ℕ) (ordered forwards : Bool) (p : State)
      → Answers process
      → Reach F G process forward
          (new_processor F G process forward threads size ordered forwards)
          p
      → IsConserved p
  Reach-IsConserved threads size ordered forwards p answers r = go p r
    where
      go :
          (q : State)
          → Reach F G process forward
              (new_processor F G process forward threads size ordered forwards)
              q
          → IsConserved q
      go q start = new_processor-IsConserved threads size ordered forwards
      go q (step r (pushed b s)) = push_data-IsConserved b s (go s r)
      go q (step r (worked i s)) =
          same-IsConserved s q (go s r) (process_one-SameGiven i s)
            λ x. process_one-held F G process forward x answers i s
      go q (step r (collected s)) =
          same-IsConserved s q (go s r) (collect-SameGiven s)
            λ x. collect-held F G process forward x answers s
