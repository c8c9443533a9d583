-- ===== src/DataBlock.antt =====
-- src/DataBlock.h: the header of a data block and its default values.
use readout.Prelude.{ℕ}

abbrev pub undefined_timeframe_id : ℕ
undefined_timeframe_id = 0

abbrev pub undefined_system_id : ℕ
undefined_system_id = 0xff

abbrev pub undefined_fee_id : ℕ
undefined_fee_id = 0xffff

abbrev pub undefined_equipment_id : ℕ
undefined_equipment_id = 0xffff

abbrev pub undefined_link_id : ℕ
undefined_link_id = 0xff

abbrev pub undefined_orbit : ℕ
undefined_orbit = 0

-- The user space and the version and size of the header itself are left out.
pub record DataBlockHeader : Type 0 where
  pub data_size : ℕ
  pub block_id : ℕ
  pub pipeline_id : ℕ
  pub timeframe_id : ℕ
  pub run_number : ℕ
  pub system_id : ℕ
  pub fee_id : ℕ
  pub equipment_id : ℕ
  pub link_id : ℕ
  pub timeframe_orbit_first : ℕ
  pub timeframe_orbit_last : ℕ
  pub flag_end_of_timeframe : ℕ
  pub is_rdh_format : ℕ
  pub orbit_first_in_block : ℕ
  pub orbit_offset : ℕ
  pub memory_size : ℕ

abbrev pub default_data_block_header : DataBlockHeader
default_data_block_header = record {
  data_size = 0;
  block_id = 0;
  pipeline_id = 0;
  timeframe_id = undefined_timeframe_id;
  run_number = 0;
  system_id = undefined_system_id;
  fee_id = undefined_fee_id;
  equipment_id = undefined_equipment_id;
  link_id = undefined_link_id;
  timeframe_orbit_first = undefined_orbit;
  timeframe_orbit_last = undefined_orbit;
  flag_end_of_timeframe = 0;
  is_rdh_format = 1;
  orbit_first_in_block = undefined_orbit;
  orbit_offset = undefined_orbit;
  memory_size = 0;
}
