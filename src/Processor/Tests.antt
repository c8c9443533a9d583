-- ===== src/Processor/Tests.antt =====
-- Two threads that hand on what they are given.
use readout.Processor.Held.{Answers}
use readout.Processor.Conserved.{IsConserved, Reach-IsConserved}
use readout.Processor.Progress.{collect-progress}
use readout.Prelude.{Bool, List, Option, [], arith, false, refl, some, true, ℕ, ◌++◌, ◌∷◌, ◌≡◌}
use readout.DataBlock.{default_data_block_header}
use readout.Processor.{Processor, Worker, collect, dispatch, new_processor, process_one, push_data}
use readout.Processor.Order.{IsOrdered, Reach-IsOrdered, pushed, start, step, worked}
use readout.Fifo.{Fifo}
use readout.Fifo.Bounded.{bounded}
use readout.Aggregator.Slicer.{Block}

abbrev hand_on : Block → Option Block
hand_on b = some b

abbrev taken : List Block → Block → Bool
taken l b = true

abbrev blocks : Fifo Block
blocks = bounded Block

abbrev numbers : Fifo ℕ
numbers = bounded ℕ

abbrev Pair : Type 0
Pair = Processor blocks numbers hand_on taken

abbrev idle : Pair
idle = new_processor blocks numbers hand_on taken 2 2 true false

abbrev block_one : Block
block_one = record { header = record default_data_block_header { data_size = 64 }; data_ptr = 64 }

-- The first block goes to the thread of index 1.
abbrev pushed_one : Pair
pushed_one = (push_data blocks numbers hand_on taken block_one idle).1

abbrev worked_one : Pair
worked_one = process_one blocks numbers hand_on taken 1 pushed_one

Reach-IsOrdered_example : IsOrdered blocks numbers hand_on taken worked_one
Reach-IsOrdered_example =
    Reach-IsOrdered blocks numbers hand_on taken 2 2 false worked_one
      (step (step start (pushed block_one idle)) (worked 1 pushed_one))

abbrev tagged : Block
tagged = record block_one { header = record block_one.header { pipeline_id = 1000000000000 } }

abbrev done : Worker blocks numbers hand_on taken
done = record {
  input_fifo = record { items = []; cap = 2 };
  output_fifo = record { items = tagged ∷ []; cap = 2 };
}

collect-progress_example :
    (b : Block) × ((collect blocks numbers hand_on taken worked_one).output
      ≡ worked_one.output ++ (b ∷ []))
    × (b.header.pipeline_id ≡ 1000000000000)
unfolding push_data process_one new_processor dispatch
collect-progress_example =
    collect-progress blocks numbers hand_on taken worked_one 1000000000000 1 done tagged refl
      (omega arith) refl refl refl refl

hand_on-Answers : Answers hand_on
hand_on-Answers b = (b, refl, refl)

Reach-IsConserved_example : IsConserved blocks numbers hand_on taken worked_one
Reach-IsConserved_example =
    Reach-IsConserved blocks numbers hand_on taken 2 2 true false worked_one hand_on-Answers
      (step (step start (pushed block_one idle)) (worked 1 pushed_one))
