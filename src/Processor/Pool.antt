-- ===== src/Processor/Pool.antt =====
-- How often an identifier stands in the queues of the threads, and how the steps change that.
use mathlib.Core.Bool.{false≢true}
use mathlib.Core.Option.{none-ne-some, some-injective}
use native.Mathlib.Decide.{dec_lt}
use readout.Prelude.{
  Bool, List, Option, Option-intro, [], ap, arith, count, count-append, count-cons, count-nil,
  count-singleton, get_elem?, if-intro, if◌then◌else◌, length, none, refl, replicate, set, some,
  suc, sym, true, zero, ℕ, ◌++◌, ◌+◌, ◌<◌, ◌==◌, ◌∙◌, ◌∷◌, ◌≡◌,
}
use readout.Processor.{Worker, dispatch, new_worker}
use readout.Processor.Order.{pipeline_ids, pipeline_ids-append_one}
use readout.Fifo.{Fifo}
use readout.Aggregator.Slicer.{Block}

abbrev pub count_id : ℕ → List Block → ℕ
count_id x l = count x (pipeline_ids l)

abbrev pub is_id : ℕ → Block → ℕ
is_id x b = if x == b.header.pipeline_id then 1 else 0

abbrev pub count_option : ℕ → Option Block → ℕ
count_option x none = 0
count_option x (some b) = is_id x b

pub count_id-append_one :
    (x : ℕ) (l : List Block) (b : Block) → count_id x (l ++ (b ∷ [])) ≡ count_id x l + is_id x b
count_id-append_one x l b =
    rw
      (
        pipeline_ids-append_one l b,
        count-append x (pipeline_ids l) (b.header.pipeline_id ∷ []),
        count-singleton x b.header.pipeline_id,
      )
      refl

module _ (F : Fifo Block) where
  abbrev pub in_queue : ℕ → F.Queue → ℕ
  in_queue x q = count_id x (F.contents q)

  has_room :
      (q : F.Queue) (b : Block) → (F.push q b).0 ≡ true → length (F.contents q) < F.capacity q
  has_room q b h = elim (dec_lt (length (F.contents q)) (F.capacity q)) [
    | yes l ↦ l
    | no l ↦ absurd (false≢true (sym (ap (λ r. r.0) (F.push-full q b (omega (arith, l)))) ∙ h))
  ]

  pub in_queue-push :
      (x : ℕ) (q : F.Queue) (b : Block)
      → length (F.contents q) < F.capacity q
      → in_queue x (F.push q b).1 ≡ in_queue x q + is_id x b
  in_queue-push x q b h =
      ap (count_id x) (F.contents-push q b h) ∙ count_id-append_one x (F.contents q) b

  pub in_queue-pop :
      (x : ℕ) (q : F.Queue) → in_queue x (F.pop q).1 + count_option x (F.pop q).0 ≡ in_queue x q
  in_queue-pop x q = go (F.contents q) refl
    where
      go :
          (l : List Block)
          → F.contents q ≡ l
          → in_queue x (F.pop q).1 + count_option x (F.pop q).0 ≡ in_queue x q
      go [] h = rw (F.pop-nil q h) omega arith
      go (b ∷ r) h =
          rw
            (
              F.pop-cons q b r h,
              F.contents-pop q b r h,
              h,
              count-cons x b.header.pipeline_id (pipeline_ids r),
            )
            omega arith

  pub front_pop : (q : F.Queue) (b : Block) → F.front q ≡ some b → (F.pop q).0 ≡ some b
  front_pop q b e = go (F.contents q) refl
    where
      go : (l : List Block) → F.contents q ≡ l → (F.pop q).0 ≡ some b
      go [] h = absurd (none-ne-some b (sym (F.front-nil q h) ∙ e))
      go (a ∷ r) h = F.pop-cons q a r h ∙ sym (F.front-cons q a r h) ∙ e

module _ (F : Fifo Block) (G : Fifo ℕ) (process : Block → Option Block)
    (forward : List Block → Block → Bool) (x : ℕ) where
  abbrev Threads : Type 0
  Threads = List (Worker F G process forward)

  abbrev pub in_worker : Worker F G process forward → ℕ
  in_worker w = in_queue F x w.input_fifo + in_queue F x w.output_fifo

  abbrev pub in_pool : Threads → ℕ
  in_pool [] = 0
  in_pool (w ∷ ws) = in_worker w + in_pool ws

  pub in_pool-set :
      (ws : Threads) (i : ℕ) (w w' : Worker F G process forward)
      → get_elem? ws i ≡ some w
      → in_pool (set ws i w') + in_worker w ≡ in_pool ws + in_worker w'
  in_pool-set [] i w w' h = absurd (none-ne-some w h)
  in_pool-set (v ∷ ws) zero w w' h = rw (some-injective v w h) omega arith
  in_pool-set (v ∷ ws) (suc i) w w' h = omega (arith, in_pool-set ws i w w' h)

  pub in_pool-replicate :
      (n size : ℕ) → in_pool (replicate n (new_worker F G process forward size)) ≡ 0
  in_pool-replicate zero size = refl
  in_pool-replicate (suc n) size =
      rw (F.contents-create size, count-nil x, in_pool-replicate n size) omega arith

  -- The block goes to one thread, if there is a free one.
  pub in_pool-dispatch :
      (k : ℕ) (b : Block) (ws : Threads) (i : ℕ)
      → (let (ok, (ws', i')) = dispatch F G process forward k b ws i in
          in_pool ws' ≡ in_pool ws + (if ok then is_id x b else 0))
  unfolding dispatch
  in_pool-dispatch zero b ws i = omega arith
  in_pool-dispatch (suc k) b ws i =
      let i' = if suc i == length ws then 0 else suc i in
      let P : Bool × (Threads × ℕ) → Type 0 =
        λ (ok, (ws', j)). in_pool ws' ≡ in_pool ws + (if ok then is_id x b else 0) in
      Option-intro P (get_elem? ws i') (λ e. omega arith)
        λ w e.
          if-intro P (F.push w.input_fifo b).0
            (λ ok.
              (let w' = record w { input_fifo = (F.push w.input_fifo b).1 } in
                omega (
                  arith,
                  in_pool-set ws i' w w' e,
                  in_queue-push F x w.input_fifo b (has_room F w.input_fifo b ok),
                )))
            λ no. in_pool-dispatch k b ws i'
