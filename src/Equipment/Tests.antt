-- ===== src/Equipment/Tests.antt =====
-- A page of two packets at the end of the numbers of the orbits.
use readout.Equipment.Timeframe.Tag.{tag_datablock_from_rdh_lem}
use readout.Rdh.{validate_rdh}
use readout.DataBlock.{DataBlockHeader, default_data_block_header}
use readout.Rdh.Tests.{packet, two_packets}
use readout.Equipment.Timeframe.{
  Timeframes, define_first, get_timeframe_from_orbit, get_timeframe_orbit_range, is_out_of_range,
  set_range, tag_datablock_from_rdh,
}
use readout.Equipment.Timeframe.Range.{IsStarted, get_timeframe_from_orbit_lem, is_between}
use readout.Equipment.Detector.{Detector, check_changes_in_detector_field, set_last}
use readout.Equipment.Detector.Runs.{
  Follows, check_all, check_all-Follows, high_bits_ignored, waiting,
}
use readout.Equipment.PageCheck.{Checks, Settings, check_page}
use readout.Equipment.PageCheck.Packet.{IsGood, errors, packets}
use readout.Equipment.PageCheck.Clean.{Visits, check_page_lem}
use readout.Prelude.{
  [], add32, ap, arith, false, none, refl, some, sub32, subst, sym, true, ℕ, ◌*◌, ◌+◌, ◌<◌, ◌^◌,
  ◌↔◌, ◌∷◌, ◌≡◌, ◌≤◌, ◌⊎◌,
}

-- The first orbit is known, and not far before the last number.
abbrev clock : Timeframes
clock = record {
  period = 32;
  rdh_check_first_orbit = true;
  is_defined_first = true;
  first_hb_orbit_begin = 4294967280;
  is_fatal_error = 0;
  stats_first_orbit = 4294967280;
}

clock-IsStarted : IsStarted clock
clock-IsStarted = record {
  started = refl;
  first_fits = omega arith;
  period_positive = omega arith;
  period_fits = omega arith;
}

abbrev settings : Settings
settings = record {
  disable_timeframes = false;
  rdh_check_trigger = false;
  rdh_dump_warning_enabled = true;
  rdh_dump_error_enabled = true;
  timeframe_period_orbits = 32;
}

-- A detector before its run, where the last field of each link has bit 6 only.
abbrev detector : Detector
detector = record {
  check_detector_field = true;
  ctp_mode = true;
  last_field = λ link. some 64;
  ctp_run_bit = none;
  discard_data = 1;
}

abbrev checks : Checks
checks = record {
  stats_rdh_check_ok = 0;
  stats_rdh_check_err = 0;
  stats_rdh_check_stream_err = 0;
  is_page_error = false;
  detector = record detector { last_field = λ link. some 0 };
}

abbrev page_header : DataBlockHeader
page_header = record default_data_block_header { data_size = 256; memory_size = 8192 }

clock_after-IsStarted : IsStarted (get_timeframe_from_orbit 10 clock).1
unfolding get_timeframe_from_orbit define_first
clock_after-IsStarted = clock-IsStarted

-- The header and the clock after the block is tagged from its first packet.
abbrev tagged_header : DataBlockHeader
tagged_header = (tag_datablock_from_rdh (two_packets 0) page_header clock).1

abbrev tagged_clock : Timeframes
tagged_clock = (tag_datablock_from_rdh (two_packets 0) page_header clock).2

packet-valid : validate_rdh (two_packets 0) ≡ 0
unfolding validate_rdh
packet-valid = refl

tagged_clock-eq : tagged_clock ≡ clock
unfolding tag_datablock_from_rdh validate_rdh get_timeframe_from_orbit define_first
tagged_clock-eq = refl

tagged_clock-IsStarted : IsStarted tagged_clock
tagged_clock-IsStarted = subst IsStarted (sym tagged_clock-eq) clock-IsStarted

tagged_period : tagged_clock.period ≡ 32
tagged_period = ap (λ s. s.period) tagged_clock-eq

-- The packets are of the first timeframe.
tagged_timeframe : tagged_header.timeframe_id ≡ 1
unfolding tag_datablock_from_rdh validate_rdh get_timeframe_from_orbit define_first set_range
tagged_timeframe = refl

tagged_end : tagged_header.timeframe_id * tagged_clock.period ≤ 2 ^ 32
unfolding tag_datablock_from_rdh validate_rdh get_timeframe_from_orbit define_first set_range
tagged_end = omega arith

tag_datablock_from_rdh_example :
    (is_out_of_range tagged_header 15 ≡ false)
    ↔ ((get_timeframe_from_orbit (add32 15 0) tagged_clock).0 ≡ tagged_header.timeframe_id)
tag_datablock_from_rdh_example =
    tag_datablock_from_rdh_lem (two_packets 0) page_header clock 15 packet-valid (omega arith)
      (omega arith) tagged_clock-IsStarted (omega (arith, tagged_period)) tagged_end

abbrev checks_after : Checks
checks_after = record checks {
  stats_rdh_check_ok = 2;
  detector = record detector { last_field = set_last 4 0 (λ link. some 0) };
}

get_timeframe_from_orbit_example :
    (let (tf, s') = get_timeframe_from_orbit 10 clock in
      let (low, high) = get_timeframe_orbit_range tf s' in
      (0 < tf) × (sub32 high low + 1 ≡ 32) × (is_between 10 (low, high) ≡ true))
get_timeframe_from_orbit_example =
    get_timeframe_from_orbit_lem 10 clock (omega arith) clock_after-IsStarted

check_all_example :
    Follows 1
      (check_all (packet 128 ∷ packet 0 ∷ []) detector).ctp_run_bit
      (check_all (packet 128 ∷ packet 0 ∷ []) detector).discard_data
check_all_example = check_all-Follows (packet 128 ∷ packet 0 ∷ []) detector waiting

high_bits_ignored_example :
    (let (changed, s') = check_changes_in_detector_field (packet 128) detector in
      (s'.ctp_run_bit ≡ none) × (s'.discard_data ≡ 1))
high_bits_ignored_example = high_bits_ignored (packet 128) detector 64 refl refl

check_page_example :
    (n : ℕ) × (c' : Checks) × (check_page settings page_header two_packets checks ≡ some (n, c'))
    × (packets c' ≡ 0 + n)
    × (((errors c' ≡ 0)
          × ((other : ℕ)
              → Visits two_packets 256 0 other
              → IsGood settings page_header 4 (two_packets other)))
        ⊎ (errors c' ≡ 1))
check_page_example = check_page_lem settings page_header two_packets checks
