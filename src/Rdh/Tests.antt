-- ===== src/Rdh/Tests.antt =====
-- Two packets of one page.
use readout.Rdh.{Rdh}
use readout.Prelude.{if◌then◌else◌, ℕ, ◌==◌}

-- A header whose packet has 128 bytes, or the last one.
abbrev pub packet : ℕ → Rdh
packet next = record {
  version = 7;
  header_size = 64;
  fee_id = 3;
  system_id = 6;
  link_id = 4;
  memory_size = 128;
  offset_next_packet = next;
  packet_counter = 0;
  cru_id = 1;
  dpw_id = 1;
  heartbeat_orbit = 4294967290;
  trigger_orbit = 4294967290;
  trigger_bc = 0;
  trigger_type = 2688;
  pages_counter = 0;
  stop_bit = 0;
  detector_field = 0;
}

-- The first packet of a page of two is at 0, the second at 128.
abbrev pub two_packets : ℕ → Rdh
two_packets offset = if offset == 0 then packet 128 else packet 0
