-- ===== src/Equipment/PageCheck.antt =====
-- src/ReadoutEquipment.cxx, processRdh: the check of the packets of a page (`cfgRdhCheckEnabled`).
-- Messages, dumps and the copy of a wrong page to a file are left out.
pub mod Packet
pub mod Clean
use readout.Prelude.{
  Bool, Option, false, if◌then◌else◌, ltb, none, not, some, suc, true, zero, ℕ, ◌%◌, ◌&&◌, ◌+◌,
  ◌==◌, ◌||◌,
}
use readout.Prelude.Int.{negsuc, pos, ℤ}
use readout.DataBlock.{DataBlockHeader, undefined_link_id}
use readout.Rdh.{Rdh, trigger_bit, validate_rdh}
use readout.Equipment.Timeframe.{is_out_of_range}
use readout.Equipment.Detector.{Detector, check_changes_in_detector_field}

-- The configuration; the period is a positive number of orbits.
pub record Settings : Type 0 where
  pub disable_timeframes : Bool
  pub rdh_check_trigger : Bool
  pub rdh_dump_warning_enabled : Bool
  pub rdh_dump_error_enabled : Bool
  pub timeframe_period_orbits : ℕ

pub record Checks : Type 0 where
  pub stats_rdh_check_ok : ℕ
  pub stats_rdh_check_err : ℕ
  pub stats_rdh_check_stream_err : ℕ
  pub is_page_error : Bool
  pub detector : Detector

-- A stream error; it is one of the page if it is to be dumped.
abbrev pub stream_error : Bool → Checks → Checks
stream_error dump c = record c {
  stats_rdh_check_stream_err = suc c.stats_rdh_check_stream_err;
  is_page_error = c.is_page_error || dump;
}

-- Bit TF of the trigger type.
abbrev pub tf_bit : ℕ
tf_bit = 11

abbrev pub is_tf_misaligned : Settings → Rdh → Bool
is_tf_misaligned g h =
    g.rdh_check_trigger
    && (trigger_bit tf_bit h && not (h.heartbeat_orbit % g.timeframe_period_orbits == 0))

abbrev pub is_zero : ℤ → Bool
is_zero (pos zero) = true
is_zero (pos (suc n)) = false
is_zero (negsuc n) = false

abbrev pub is_some : Option ℕ → Bool
is_some none = false
is_some (some a) = true

-- The detector field is compared in all packets but the first one.
unfoldable pub compare_detector_field : ℕ → ℕ → Rdh → Detector → ℤ × Detector
compare_detector_field link offset h d =
    if is_some (d.last_field link) && not (offset == 0)
    then check_changes_in_detector_field h d
    else (pos 0, d)

-- The checks of one packet that has a valid header: whether the loop goes on.
unfoldable pub check_stream : Settings → DataBlockHeader → ℕ → ℕ → Rdh → Checks → Bool × Checks
unfolding compare_detector_field
check_stream g bh link offset h c =
    let (changed, d) = compare_detector_field link offset h c.detector in
    let c' = record c { detector = d } in
    if not (link == h.link_id)
    then (false, stream_error g.rdh_dump_warning_enabled c)
    else if not g.disable_timeframes && is_out_of_range bh h.trigger_orbit
    then (false, stream_error g.rdh_dump_error_enabled c)
    else if not (is_zero changed)
    then (false, stream_error g.rdh_dump_warning_enabled c')
    else if is_tf_misaligned g h
    then (false, stream_error g.rdh_dump_error_enabled c')
    else (not (h.offset_next_packet == 0), c')

unfoldable pub check_packet : Settings → DataBlockHeader → ℕ → ℕ → Rdh → Checks → Bool × Checks
unfolding check_stream
check_packet g bh link offset h c =
    if validate_rdh h == 0
    then check_stream g bh link offset h
        (record c { stats_rdh_check_ok = suc c.stats_rdh_check_ok })
    else (false, record c { stats_rdh_check_err = suc c.stats_rdh_check_err; is_page_error = true })

-- The link of the page is that of its first packet.
abbrev pub page_link : ℕ → ℕ → Rdh → ℕ
page_link link offset h = if offset == 0 then h.link_id else link

module _ (g : Settings) (bh : DataBlockHeader) (rdh_at : ℕ → Rdh) where
  -- The packets from an offset on; `index` is the number of those before it. The result is the
  -- number of packets looked at, and the counters; `none` is an exhausted fuel.
  unfoldable pub check_packets : ℕ → ℕ → ℕ → ℕ → Checks → Option (ℕ × Checks)
  unfolding check_packet
  check_packets zero offset link index c = none
  check_packets (suc fuel) offset link index c =
      let h = rdh_at offset in
      let link' = page_link link offset h in
      let (go, c') = check_packet g bh link' offset h c in
      let rest = check_packets fuel (offset + h.offset_next_packet) link' (index + 1) c' in
      if not (ltb offset bh.data_size)
      then some (index, c)
      else if go
      then rest
      else some (index + 1, c')

  unfoldable pub check_page : Checks → Option (ℕ × Checks)
  unfolding check_packets
  check_page c = check_packets (suc bh.data_size) 0 undefined_link_id 0 c
