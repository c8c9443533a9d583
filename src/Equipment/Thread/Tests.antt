-- ===== src/Equipment/Thread/Tests.antt =====
-- src/ReadoutEquipment.cxx, threadCallback: a device with three blocks, of which the last one starts a
-- timeframe too early for the rate.
use readout.Prelude.{List, [], drop, false, none, refl, true, ℕ, ◌++◌, ◌∷◌, ◌≡◌}
use readout.Fifo.Bounded.{bounded}
use readout.Rdh.{Rdh}
use readout.DataBlock.{default_data_block_header, undefined_link_id}
use readout.Aggregator.Slicer.{Block}
use readout.Equipment.PageCheck.{Settings}
use readout.Equipment.Process.{Equipment}
use readout.RateRegulator.{init}
use readout.Equipment.Thread.{
  Device, EquipmentThread, NextBlock, ThreadSettings, get_block, next_block, next_null, result_idle,
  thread_callback,
}
use readout.Equipment.Thread.Ids.{
  Reach-first_ids, begin, block_ids, called_back, first_ids, got_block, then_step, waiting_block,
}

abbrev empty_rdh : Rdh
empty_rdh = record {
  version = 7;
  header_size = 64;
  fee_id = 0;
  system_id = 0;
  link_id = 0;
  memory_size = 64;
  offset_next_packet = 64;
  packet_counter = 0;
  cru_id = 0;
  dpw_id = 0;
  heartbeat_orbit = 0;
  trigger_orbit = 0;
  trigger_bc = 0;
  trigger_type = 0;
  pages_counter = 0;
  stop_bit = 0;
  detector_field = 0;
}

abbrev some_block : ℕ → Block
some_block tf = record {
  header = record default_data_block_header { data_size = 100; timeframe_id = tf };
  data_ptr = 8;
}

abbrev first_of : List Block → NextBlock
first_of [] = next_null
first_of (b ∷ bs) = next_block b

abbrev test_device : Device
test_device = record {
  State = List Block;
  get_next_block = λ l. (first_of l, drop 1 l);
  prepare_blocks = λ l. (result_idle, l);
  now = λ l. 5;
  rate_blocks = λ l. 0;
  is_clk_timeout = λ l. true;
  is_timeframe_timeout = λ l. false;
  rdh_at = λ p o. empty_rdh;
}

abbrev test_settings : Settings
test_settings = record {
  disable_timeframes = false;
  rdh_check_trigger = false;
  rdh_dump_warning_enabled = false;
  rdh_dump_error_enabled = false;
  timeframe_period_orbits = 32;
}

abbrev test_config : ThreadSettings
test_config = record {
  id = 12;
  using_software_clock = false;
  has_readout_rate = false;
  rdh_use_first_in_page = false;
  rdh_check = false;
  drop_pages_with_error = false;
  disable_timeframes = false;
  auto_timeframe_id = false;
  disable_output = false;
  run_number = 7;
}

abbrev test_equipment : Equipment
test_equipment = record {
  timeframes = record {
    period = 32;
    rdh_check_first_orbit = false;
    is_defined_first = false;
    first_hb_orbit_begin = 0;
    is_fatal_error = 0;
    stats_first_orbit = 0;
  };
  checks = record {
    stats_rdh_check_ok = 0;
    stats_rdh_check_err = 0;
    stats_rdh_check_stream_err = 0;
    is_page_error = false;
    detector = record {
      check_detector_field = false;
      ctp_mode = false;
      last_field = λ link. none;
      ctp_run_bit = none;
      discard_data = 0;
    };
  };
  links = record {
    equipment_links_used = λ link. false;
    bytes_rx = λ link. 0;
    first_orbit = λ link. none;
    first_link_id = undefined_link_id;
    first_link_orbit = 0;
    is_fatal_error = 0;
  };
  current_block_id = 0;
}

abbrev TestThread : Type 0
TestThread = EquipmentThread test_device (bounded Block)

abbrev at_start : TestThread
at_start = record {
  equipment = test_equipment;
  device = some_block 1 ∷ some_block 1 ∷ some_block 2 ∷ [];
  tf_regulator = init 0 1000 1;
  throttle_pending_block = none;
  data_out = record { items = []; cap = 4 };
  current_timeframe = 0;
  last_timeframe = 0;
  auto_latest_from_bc = 0;
  auto_counter = 0;
  is_data_on = true;
  n_loop = 0;
  n_throttle = 0;
  n_output_full = 0;
  n_blocks_out = 0;
  n_bytes_out = 0;
  n_idle = 0;
  n_timeframes = 0;
  n_pages_dropped = 0;
  taken = [];
}

abbrev read : TestThread
read = (thread_callback test_device (bounded Block) test_settings test_config at_start).1

abbrev at_end : TestThread
at_end = (get_block test_device (bounded Block) test_settings test_config read).1

Reach-first_ids_example :
    block_ids
      (at_end.taken ++ (at_end.data_out.items ++ waiting_block at_end.throttle_pending_block))
    ≡ first_ids at_end.equipment.current_block_id
Reach-first_ids_example =
    Reach-first_ids test_device (bounded Block) test_settings test_config at_start at_end refl refl
      refl refl refl (then_step (then_step begin (called_back at_start)) (got_block read))
