-- ===== src/FmqChannel.antt =====
-- src/ConsumerFMQchannel.cxx: the output to the data distribution, in messages of one heartbeat
-- frame (HBF) each. Here the pages that come in and those of the channel's own pool.
pub mod Bytes
pub mod Packets
pub mod Copies
pub mod Frames
pub mod Format
pub mod Pipeline
mod Tests
pub mod Checks
use readout.Prelude.{List, length, ℕ, ◌≡◌}
use readout.DataBlock.{DataBlockHeader}

-- A data block in its container: `data_size` of its header says how many of the bytes are used, and
-- `buffer_size` is what `getDataBufferSize` returns.
pub record Page : Type 0 where
  pub header : DataBlockHeader
  pub payload : List ℕ
  pub buffer_size : ℕ

-- src/SubTimeframe.h, its two bit flags as numbers below 2.
pub record SubTimeframe : Type 0 where
  pub version : ℕ
  pub timeframe_id : ℕ
  pub run_number : ℕ
  pub system_id : ℕ
  pub fee_id : ℕ
  pub equipment_id : ℕ
  pub link_id : ℕ
  pub timeframe_orbit_first : ℕ
  pub timeframe_orbit_last : ℕ
  pub last_tf_message : ℕ
  pub is_rdh_format : ℕ

abbrev pub default_sub_timeframe : SubTimeframe
default_sub_timeframe = record {
  version = 2;
  timeframe_id = 0;
  run_number = 0;
  system_id = 0xff;
  fee_id = 0xffff;
  equipment_id = 0xffff;
  link_id = 0xff;
  timeframe_orbit_first = 0;
  timeframe_orbit_last = 0;
  last_tf_message = 0;
  is_rdh_format = 0;
}

-- `sizeof(SubTimeframe)` and `sizeof(DataBlock)`, as the x86-64 ABI lays them out.
abbrev pub sub_timeframe_size : ℕ
sub_timeframe_size = 32

abbrev pub data_block_size : ℕ
data_block_size = 216

-- What `getNewDataBlockContainer` of the pool does: an exception, a null pointer, or a page, whose
-- bytes are whatever was written there before.
pub data NewPage : Type 0 where
  page_throws : NewPage
  page_null : NewPage
  page_new : List ℕ → NewPage

pub record PagePool : Type 1 where
  pub State : Type 0
  pub page_size : ℕ
  pub get_page : State → NewPage × State
  pub length-get_page :
      (q : State) (bytes : List ℕ) → (get_page q).0 ≡ page_new bytes → length bytes ≡ page_size
