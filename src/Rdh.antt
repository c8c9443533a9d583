-- ===== src/Rdh.antt =====
-- src/RdhUtils.h and .cxx, and the fields of src/RAWDataHeader.h that the code reads: the raw data
-- header (RDH) of a packet. A header is taken with its bit fields decoded.
pub mod Orbits
pub mod Tests
use readout.Prelude.{
  Bool, Option, false, if◌then◌else◌, ltb, none, not, some, sub32, suc, true, zero, ℕ, ◌%◌, ◌&&◌,
  ◌+◌, ◌-◌, ◌/◌, ◌==◌, ◌^◌,
}

pub record Rdh : Type 0 where
  pub version : ℕ
  pub header_size : ℕ
  pub fee_id : ℕ
  pub system_id : ℕ
  pub link_id : ℕ
  pub memory_size : ℕ
  pub offset_next_packet : ℕ
  pub packet_counter : ℕ
  pub cru_id : ℕ
  pub dpw_id : ℕ
  pub heartbeat_orbit : ℕ
  pub trigger_orbit : ℕ
  pub trigger_bc : ℕ
  pub trigger_type : ℕ
  pub pages_counter : ℕ
  pub stop_bit : ℕ
  pub detector_field : ℕ

abbrev pub rdh_max_link_id : ℕ
rdh_max_link_id = 31

-- `sizeof(RAWDataHeader)`
abbrev pub rdh_size : ℕ
rdh_size = 64

abbrev pub one_if : Bool → ℕ
one_if b = if b then 1 else 0

-- The number of errors; the text of the errors is left out.
unfoldable pub validate_rdh : Rdh → ℕ
validate_rdh h =
    one_if (not (h.version == 5) && not (h.version == 6) && not (h.version == 7))
    + one_if (not (h.header_size == rdh_size))
    + one_if (ltb rdh_max_link_id h.link_id)
    + one_if (ltb 0 h.offset_next_packet && ltb h.offset_next_packet rdh_size)

-- Bits of the trigger type.
abbrev pub trigger_bit : ℕ → Rdh → Bool
trigger_bit k h = h.trigger_type / 2 ^ k % 2 == 1

-- `1 + (orbit - first) / period`; the difference is one of `uint32_t`.
pub compute_timeframe_id : Rdh → ℕ → ℕ → ℕ
compute_timeframe_id h first_orbit period = 1 + sub32 h.heartbeat_orbit first_orbit / period

-- The packets of a block in memory, from its start: `rdh_at` decodes the header at an offset. The
-- result is 0 or -1 (`false`), with the number of packets looked at; `none` is an exhausted fuel.
pub walk_packets : ℕ → (ℕ → Rdh) → ℕ → ℕ → ℕ → Option (Bool × ℕ)
walk_packets zero rdh_at offset bytes_left n = none
walk_packets (suc fuel) rdh_at offset bytes_left n =
    let next = (rdh_at offset).offset_next_packet in
    let rest = walk_packets fuel rdh_at (offset + next) (bytes_left - next) (n + 1) in
    if ltb bytes_left rdh_size
    then some (false, n)
    else if next == 0
    then some (true, n + 1)
    else if ltb bytes_left next
    then some (false, n + 1)
    else if bytes_left == next
    then some (true, n + 1)
    else rest

pub print_summary : (ℕ → Rdh) → ℕ → Option (Bool × ℕ)
unfolding walk_packets
print_summary rdh_at block_size = walk_packets (suc block_size) rdh_at 0 block_size 0
