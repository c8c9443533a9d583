-- ===== src/FmqChannel/Checks.antt =====
-- src/ConsumerFMQchannel.cxx, DDformatMessage: the checks of its first pass, whether the packets of
-- each heartbeat frame (HBF) are complete. The texts of the warnings are left out.
pub mod Frames
use readout.Prelude.{Bool, List, [], false, if◌then◌else◌, not, suc, true, ℕ, ◌&&◌, ◌+◌, ◌==◌, ◌∷◌}
use readout.Rdh.{Rdh}
use readout.FmqChannel.{Page}
use readout.FmqChannel.Packets.{packet_offsets}

-- The local variables of the pass; `is_first` says that no packet of the current HBF was seen.
pub record HbfChecks : Type 0 where
  pub last_hb_id : ℕ
  pub is_first : Bool
  pub pages_counter_last : ℕ
  pub pages_counter : ℕ
  pub stop : ℕ
  pub stop_last : ℕ
  pub is_ok : Bool
  pub incomplete : ℕ

-- `lastHBid` starts at -1, in an unsigned int.
abbrev pub no_hb_id : ℕ
no_hb_id = 0xffffffff

abbrev pub initial_checks : HbfChecks
initial_checks = record {
  last_hb_id = no_hb_id;
  is_first = true;
  pages_counter_last = 0;
  pages_counter = 0;
  stop = 0;
  stop_last = 0;
  is_ok = true;
  incomplete = 0;
}

module _ (check_incomplete : Bool) where
  -- The verdict on the HBF that ends, and the reset for the next one.
  unfoldable pub check_last_hb : HbfChecks → HbfChecks
  check_last_hb s = if not check_incomplete then s else if s.is_first then s else record s {
    incomplete =
        if (s.stop == 1) && ((s.stop_last == 1) && s.is_ok) then s.incomplete else suc s.incomplete;
    pages_counter = 0;
    stop = 0;
    is_ok = true;
    is_first = true;
  }

  -- A packet whose orbit is not the last one starts an HBF.
  unfoldable pub enter_hb : Rdh → HbfChecks → HbfChecks
  enter_hb h s =
      if h.heartbeat_orbit == s.last_hb_id
      then s
      else record (check_last_hb s) { last_hb_id = h.heartbeat_orbit }

  -- The counters of the HBF, with one packet more.
  unfoldable pub count_packet : Rdh → HbfChecks → HbfChecks
  count_packet h s = if not check_incomplete then s else record s {
    is_first = false;
    is_ok =
        if s.is_first then s.is_ok else s.is_ok && (h.pages_counter == s.pages_counter_last + 1);
    pages_counter = suc s.pages_counter;
    pages_counter_last = h.pages_counter;
    stop = s.stop + h.stop_bit;
    stop_last = h.stop_bit;
  }

  abbrev pub check_hbf_packet : Rdh → HbfChecks → HbfChecks
  check_hbf_packet h s = count_packet h (enter_hb h s)

  -- The body of the loop over the packets of a page, at each of their offsets.
  unfoldable pub check_hbf_packets : (ℕ → Rdh) → List ℕ → HbfChecks → HbfChecks
  check_hbf_packets rdh_at [] s = s
  check_hbf_packets rdh_at (o ∷ os) s = check_hbf_packets rdh_at os (check_hbf_packet (rdh_at o) s)

  -- And the one over the pages, whose headers `rdh_at` decodes from their bytes.
  unfoldable pub check_pages : (List ℕ → ℕ → Rdh) → List Page → HbfChecks → HbfChecks
  check_pages rdh_at [] s = s
  check_pages rdh_at (p ∷ ps) s = check_pages rdh_at ps (
      check_hbf_packets (rdh_at p.payload) (packet_offsets (rdh_at p.payload) p.header.data_size) s)

  -- `HBFincomplete` after the pass.
  unfoldable pub count_incomplete : (List ℕ → ℕ → Rdh) → List Page → ℕ
  count_incomplete rdh_at ps = (check_last_hb (check_pages rdh_at ps initial_checks)).incomplete
