-- ===== src/Aggregator/Callback/Tests.antt =====
-- An aggregator with one input, which holds one block.
use readout.DataBlock.{default_data_block_header}
use readout.Fifo.Bounded.{bounded}
use readout.Aggregator.Slicer.{Block, DataBlockSlicer, DataSet, reset}
use readout.Aggregator.Slicer.Streams.{reset-IsValid}
use readout.Aggregator.Callback.{DataBlockAggregator, Settings, execute_callback}
use readout.Aggregator.Callback.Calls.{AllGood, execute_callback-AllGood}
use readout.Prelude.Int.{pos}
use readout.Prelude.{[], arith, false, true, ◌∷◌}

abbrev block : Block
block = record {
  header = record default_data_block_header { equipment_id = 1; link_id = 2; timeframe_id = 7 };
  data_ptr = 4096;
}

abbrev any_slicer : DataBlockSlicer
any_slicer = record { slicer_id = pos 0; partial_slices = []; slices = [] }

abbrev settings : Settings
settings = record {
  disable_slicing = false;
  cfg_slice_timeout = 500;
  enable_stf_building = true;
  cfg_stf_timeout = 800;
}

abbrev aggregator : DataBlockAggregator (bounded Block) (bounded DataSet)
aggregator = record {
  channels =
      record { input = record { items = block ∷ []; cap = 4 }; slicer = reset any_slicer } ∷ [];
  output = record { items = []; cap = 4 };
  stfs = record { stf_buffer = []; last_timeframe_id = 3; n_sources = 1 };
  next_index = 0;
  total_blocks_in = 0;
  do_flush = true;
}

execute_callback_example :
    AllGood
      (bounded Block)
      (bounded DataSet)
      3
      (execute_callback (bounded Block) (bounded DataSet) settings 1000 aggregator).1
execute_callback_example =
    execute_callback-AllGood (bounded Block) (bounded DataSet) settings 1000 3 aggregator (record {
      slicers = (reset-IsValid any_slicer, tt);
      in_order = record { ascends = tt; not_before = omega arith };
    })
