-- ===== src/Processor.antt =====
-- src/ConsumerDataProcessor.cxx: blocks are given to worker threads, and their results are collected.
-- A step is a call of `pushData`, or one turn of the loop of a worker or of the collector. The
-- function of the processing library and the consumer that the results are forwarded to are
-- parameters. Sleeps, logs and the files of identifiers are left out. `pushData` is one step, so it
-- stands for the runs where no worker takes a block between its push and its tag.
pub mod Order
pub mod Progress
pub mod Pool
pub mod Held
pub mod Conserved
mod Tests
use readout.Prelude.{
  Bool, List, Option, [], add64, false, get_elem?, if◌then◌else◌, length, ltb, none, not, replicate,
  set, some, suc, true, zero, ℕ, ◌%◌, ◌&&◌, ◌*◌, ◌++◌, ◌+◌, ◌==◌, ◌^◌, ◌∷◌,
}
use readout.Prelude.Int.{negsuc, pos, ℤ}
use readout.Fifo.{Fifo}
use readout.Aggregator.Slicer.{Block}

-- `currentId` at the start.
abbrev pub first_id : ℕ
first_id = 1000000000000

-- The `i`-th thread of `n` from `thread_ix` on. The sum is an `int`: where it overflows the code has
-- undefined behaviour, and in the model there is no thread.
abbrev pub thread_at : ℕ → ℕ → ℕ → ℕ
thread_at n i thread_ix = if ltb (i + thread_ix) (2 ^ 31) then (i + thread_ix) % n else n

-- `F` is the type of the queues of blocks, `G` that of the identifiers. `process` is the function of
-- the library: a result, if any. `forward` is whether the next consumer takes a block, after others.
module _ (F : Fifo Block) (G : Fifo ℕ) (process : Block → Option Block)
    (forward : List Block → Block → Bool) where
  pub record Worker : Type 0 where
    pub input_fifo : F.Queue
    pub output_fifo : F.Queue

  -- `output` is the blocks given to `pushPage`, in their order.
  pub record Processor : Type 0 where
    pub thread_pool : List Worker
    pub thread_index : ℕ
    pub drop_bytes : ℕ
    pub drop_blocks : ℕ
    pub processed_bytes : ℕ
    pub processed_blocks : ℕ
    pub processed_bytes_out : ℕ
    pub processed_blocks_out : ℕ
    pub ensure_page_order : Bool
    pub id_fifo : G.Queue
    pub current_id : ℕ
    pub thread_ix : ℕ
    pub has_forward_consumer : Bool
    pub is_error : ℕ
    pub output : List Block

  abbrev pub new_worker : ℕ → Worker
  new_worker size = record { input_fifo = F.create size; output_fifo = F.create size }

  -- The constructor, with the number of threads and the size of their queues. The queue of the
  -- identifiers is there also when the order is not kept, where the code has none and uses none.
  pub new_processor : ℕ → ℕ → Bool → Bool → Processor
  new_processor threads size ordered forwards = record {
    thread_pool = replicate threads (new_worker size);
    thread_index = 0;
    drop_bytes = 0;
    drop_blocks = 0;
    processed_bytes = 0;
    processed_blocks = 0;
    processed_bytes_out = 0;
    processed_blocks_out = 0;
    ensure_page_order = ordered;
    id_fifo = G.create (threads * size * 2);
    current_id = first_id;
    thread_ix = 0;
    has_forward_consumer = forwards;
    is_error = 0;
    output = [];
  }

  -- The search for a free thread, with the number of attempts left: was there one, the threads, and
  -- the index. An index out of range is never used.
  pub dispatch : ℕ → Block → List Worker → ℕ → Bool × (List Worker × ℕ)
  dispatch zero b ws i = (false, (ws, i))
  dispatch (suc k) b ws i =
      let i' = if suc i == length ws then 0 else suc i in
      let rest = dispatch k b ws i' in
      elim (get_elem? ws i') [
        | none ↦ (false, (ws, i'))
        | some w ↦
            let (ok, q) = F.push w.input_fifo b in
            if ok then (true, (set ws i' (record w { input_fifo = q }), i')) else rest
      ]

  abbrev pub drop_block : Block → Processor → Processor
  drop_block b p = record p {
    drop_blocks = suc p.drop_blocks;
    drop_bytes = p.drop_bytes + b.header.data_size;
  }

  -- The block gets the next identifier. The queue of the thread holds the same block by reference, so
  -- after `pushData` it is there with its identifier: the model puts it there with it at once.
  abbrev pub tag : Block → Processor → Block
  tag b p = record b { header = record b.header { pipeline_id = p.current_id } }

  abbrev pub accept : Block → List Worker → ℕ → Processor → Processor
  accept b ws i p = record p {
    thread_pool = ws;
    thread_index = i;
    processed_bytes = p.processed_bytes + b.header.data_size;
    processed_blocks = suc p.processed_blocks;
    current_id = add64 p.current_id 1;
    id_fifo = if p.ensure_page_order then (G.push p.id_fifo p.current_id).1 else p.id_fifo;
  }

  pub push_data : Block → Processor → ℤ × Processor
  push_data b p =
      let (ok, (ws, i)) = dispatch (length p.thread_pool) (tag b p) p.thread_pool p.thread_index in
      if b.data_ptr == 0
      then (negsuc 0, p)
      else if p.ensure_page_order && G.is_full p.id_fifo
      then (negsuc 0, drop_block b p)
      else if not ok
      then (negsuc 0, drop_block b (record p { thread_index = i }))
      else (pos 0, accept b ws i p)

  -- One turn of the loop of a worker. An error of the library is only logged.
  abbrev pub work : Worker → Worker
  work w =
      let (b, q) = F.pop w.input_fifo in
      if F.is_full w.output_fifo then w else elim b [
        | none ↦ record w { input_fifo = q }
        | some bc ↦ elim (process bc) [
          | none ↦ record w { input_fifo = q }
          | some r ↦ record { input_fifo = q; output_fifo = (F.push w.output_fifo r).1 }
        ]
      ]

  pub process_one : ℕ → Processor → Processor
  process_one i p = elim (get_elem? p.thread_pool i) [
    | none ↦ p
    | some w ↦ record p { thread_pool = set p.thread_pool i (work w) }
  ]

  -- The lambda `pushPage`.
  abbrev pub push_page : Block → Processor → Processor
  push_page bc p = record p {
    processed_blocks_out = suc p.processed_blocks_out;
    processed_bytes_out = p.processed_bytes_out + bc.header.data_size;
    is_error =
        if p.has_forward_consumer && not (forward p.output bc) then suc p.is_error else p.is_error;
    output = p.output ++ (bc ∷ []);
  }

  -- The search for the block with an identifier at the front of a queue, from an index on.
  pub find_front : ℕ → ℕ → List Worker → ℕ → ℕ → Option (ℕ × (Worker × Block))
  find_front zero i ws thread_ix id = none
  find_front (suc k) i ws thread_ix id =
      let ix = thread_at (length ws) i thread_ix in
      let rest = find_front k (suc i) ws thread_ix id in
      elim (get_elem? ws ix) [
        | none ↦ none
        | some w ↦ elim (F.front w.output_fifo) [
          | none ↦ rest
          | some bc ↦ if bc.header.pipeline_id == id then some (ix, (w, bc)) else rest
        ]
      ]

  abbrev pub pop_output : Worker → Worker
  pop_output w = record w { output_fifo = (F.pop w.output_fifo).1 }

  -- The collector, when the order is kept: the block with the identifier that is next.
  pub collect_next : Processor → Processor
  collect_next p = elim (G.front p.id_fifo) [
    | none ↦ p
    | some id ↦ elim (find_front (length p.thread_pool) 0 p.thread_pool p.thread_ix id) [
      | none ↦ p
      | some (ix, (w, bc)) ↦ push_page bc (record p {
        id_fifo = (G.pop p.id_fifo).1;
        thread_pool = set p.thread_pool ix (pop_output w);
        thread_ix = suc p.thread_ix;
      })
    ]
  ]

  -- And when it is not: a block of each thread.
  pub collect_each : ℕ → ℕ → Processor → Processor
  collect_each zero i p = p
  collect_each (suc k) i p = elim (get_elem? p.thread_pool i) [
    | none ↦ p
    | some w ↦
        let p' = record p { thread_pool = set p.thread_pool i (pop_output w) } in
        let next : Processor = elim ((F.pop w.output_fifo).0) [
          | none ↦ p'
          | some bc ↦ push_page bc p'
        ] in
        collect_each k (suc i) next
  ]

  -- One turn of `loopOutput`.
  pub collect : Processor → Processor
  collect p =
      if p.ensure_page_order then collect_next p else collect_each (length p.thread_pool) 0 p
