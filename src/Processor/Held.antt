-- ===== src/Processor/Held.antt =====
-- The steps of the threads and of the collector keep the blocks.
use mathlib.Core.Option.{none-ne-some, some-injective}
use readout.Prelude.{
  Bool, List, Option, Option-intro, [], ap, arith, get_elem?, if-intro, if◌then◌else◌, length, none,
  refl, set, some, subst, suc, sym, zero, ℕ, ◌++◌, ◌+◌, ◌==◌, ◌∙◌, ◌∷◌, ◌≡◌,
}
use readout.Processor.{
  Processor, Worker, collect, collect_each, collect_next, find_front, pop_output, process_one,
  push_page, thread_at, work,
}
use readout.Processor.Pool.{
  count_id, count_id-append_one, count_option, front_pop, in_pool, in_pool-set, in_queue,
  in_queue-pop, in_queue-push, in_worker, is_id,
}
use readout.Fifo.{Fifo}
use readout.Aggregator.Slicer.{Block}

abbrev pub same_number : ℕ → ℕ → ℕ
same_number x v = if x == v then 1 else 0

-- The library gives a result for each block, with the identifier of the block.
abbrev pub Answers : (Block → Option Block) → Type 0
Answers process =
    (b : Block) → (r : Block) × (process b ≡ some r) × (r.header.pipeline_id ≡ b.header.pipeline_id)

module _ (F : Fifo Block) (G : Fifo ℕ) (process : Block → Option Block)
    (forward : List Block → Block → Bool) where
  module _ (x : ℕ) (answers : Answers process) where
    -- The blocks in the queues of the threads and those that went out.
    abbrev pub held : Processor F G process forward → ℕ
    held p = in_pool F G process forward x p.thread_pool + count_id x p.output

    work-keeps :
        (w : Worker F G process forward)
        → in_worker F G process forward x (work F G process forward w)
          ≡ in_worker F G process forward x w
    work-keeps w =
        let P : Worker F G process forward → Type 0 =
          λ v. in_worker F G process forward x v ≡ in_worker F G process forward x w in
        let popped = in_queue-pop F x w.input_fifo in
        if-intro P (F.is_full w.output_fifo) (λ e. refl)
          λ room.
            Option-intro P (F.pop w.input_fifo).0
              (λ e.
                (let k =
                    subst
                      (λ o.
                        in_queue F x (F.pop w.input_fifo).1 + count_option x o
                        ≡ in_queue F x w.input_fifo)
                      e popped in
                  omega (arith, k)))
              λ bc e.
                (let k =
                    subst
                      (λ o.
                        in_queue F x (F.pop w.input_fifo).1 + count_option x o
                        ≡ in_queue F x w.input_fifo)
                      e popped in
                  let (r, a, same) = answers bc in
                  Option-intro P (process bc) (λ n. absurd (none-ne-some r (sym n ∙ a)))
                    λ r' s.
                      (let q =
                          in_queue-push F x w.output_fifo r' (F.is_full-false w.output_fifo room) in
                        let id : r'.header.pipeline_id ≡ bc.header.pipeline_id =
                          ap (λ v. v.header.pipeline_id) (some-injective r' r (sym s ∙ a)) ∙ same in
                        let one : is_id x r' ≡ is_id x bc = ap (same_number x) id in
                        omega (arith, k, q, one)))

    pub process_one-held :
        (i : ℕ) (p : Processor F G process forward)
        → held (process_one F G process forward i p) ≡ held p
    unfolding process_one
    process_one-held i p =
        Option-intro (λ v. held v ≡ held p) (get_elem? p.thread_pool i) (λ e. refl)
          λ w e. omega (
            arith,
            in_pool-set F G process forward x p.thread_pool i w (work F G process forward w) e,
            work-keeps w,
          )

    -- A block leaves a thread and goes out.
    popped-held :
        (p : Processor F G process forward) (i : ℕ) (w : Worker F G process forward) (bc : Block)
        → get_elem? p.thread_pool i ≡ some w
        → (F.pop w.output_fifo).0 ≡ some bc
        → in_pool F G process forward x (set p.thread_pool i (pop_output F G process forward w))
            + count_id x (p.output ++ (bc ∷ []))
          ≡ held p
    popped-held p i w bc e o =
        let k =
          subst
            (λ o.
              in_queue F x (F.pop w.output_fifo).1 + count_option x o ≡ in_queue F x w.output_fifo)
            o (in_queue-pop F x w.output_fifo) in
        omega (
          arith,
          k,
          count_id-append_one x p.output bc,
          in_pool-set F G process forward x p.thread_pool i w (pop_output F G process forward w) e,
        )

    abbrev FoundAt :
        List (Worker F G process forward)
        → Option (ℕ × (Worker F G process forward × Block))
        → Type 0
    FoundAt ws none = Unit
    FoundAt ws (some (i, (w, bc))) = (get_elem? ws i ≡ some w) × (F.front w.output_fifo ≡ some bc)

    find_front-FoundAt :
        (k i : ℕ) (ws : List (Worker F G process forward)) (t id : ℕ)
        → FoundAt ws (find_front F G process forward k i ws t id)
    unfolding find_front
    find_front-FoundAt zero i ws t id = tt
    find_front-FoundAt (suc k) i ws t id =
        let rest = find_front-FoundAt k (suc i) ws t id in
        Option-intro (FoundAt ws) (get_elem? ws (thread_at (length ws) i t)) (λ e. tt)
          λ w e.
            Option-intro (FoundAt ws) (F.front w.output_fifo) (λ g. rest)
              λ bc g. if-intro (FoundAt ws) (bc.header.pipeline_id == id) (λ l. (e, g)) λ l. rest

    collect_next-held :
        (p : Processor F G process forward) → held (collect_next F G process forward p) ≡ held p
    unfolding collect_next
    collect_next-held p =
        let n = length p.thread_pool in
        let P : Processor F G process forward → Type 0 = λ v. held v ≡ held p in
        Option-intro P (G.front p.id_fifo) (λ e. refl)
          λ id e.
            Option-intro P (find_front F G process forward n 0 p.thread_pool p.thread_ix id)
              (λ g. refl)
              λ (i, (w, bc)) g.
                (let (a, b) =
                    subst (FoundAt p.thread_pool) g
                      (find_front-FoundAt n 0 p.thread_pool p.thread_ix id) in
                  popped-held p i w bc a (front_pop F w.output_fifo bc b))

    collect_each-held :
        (k i : ℕ) (p : Processor F G process forward)
        → held (collect_each F G process forward k i p) ≡ held p
    unfolding collect_each
    collect_each-held zero i p = refl
    collect_each-held (suc k) i p =
        let P : Processor F G process forward → Type 0 = λ v. held v ≡ held p in
        Option-intro P (get_elem? p.thread_pool i) (λ e. refl)
          λ w e.
            (let p' = record p {
              thread_pool = set p.thread_pool i (pop_output F G process forward w);
            } in
              let next : Processor F G process forward = elim ((F.pop w.output_fifo).0) [
                | none ↦ p'
                | some bc ↦ push_page F G process forward bc p'
              ] in
              let one : held next ≡ held p =
                Option-intro P (F.pop w.output_fifo).0
                  (λ o.
                    (let k =
                        subst
                          (λ o.
                            in_queue F x (F.pop w.output_fifo).1 + count_option x o
                            ≡ in_queue F x w.output_fifo)
                          o (in_queue-pop F x w.output_fifo) in
                      omega (
                        arith,
                        k,
                        in_pool-set F G process forward x p.thread_pool i w
                            (pop_output F G process forward w) e,
                      )))
                  λ bc o. popped-held p i w bc e o in
              collect_each-held k (suc i) next ∙ one)

    pub collect-held :
        (p : Processor F G process forward) → held (collect F G process forward p) ≡ held p
    unfolding collect
    collect-held p =
        if-intro (λ v. held v ≡ held p) p.ensure_page_order (λ e. collect_next-held p)
          λ e. collect_each-held (length p.thread_pool) 0 p
