-- ===== src/Equipment/Detector.antt =====
-- src/ReadoutEquipment.cxx, processRdh: changes in the detector field of a link, which start and end
-- the runs of the central trigger processor (CTP). A link is one of 32.
pub mod Runs
use readout.Prelude.{
  Bool, List, Option, [], if◌then◌else◌, ltb, none, not, some, ℕ, ◌%◌, ◌&&◌, ◌/◌, ◌==◌, ◌^◌, ◌∷◌,
}
use readout.Prelude.Int.{negsuc, pos, ℤ}
use readout.Rdh.{Rdh, rdh_max_link_id}

-- `last_field` is the last detector field of a link, if it is defined. `ctp_run_bit` is a bit, or
-- `none` for -1. `discard_data` is 0 if data is kept, 1 before a run and 2 after it.
pub record Detector : Type 0 where
  pub check_detector_field : Bool
  pub ctp_mode : Bool
  pub last_field : ℕ → Option ℕ
  pub ctp_run_bit : Option ℕ
  pub discard_data : ℕ

abbrev pub bit : ℕ → ℕ → Bool
bit k n = n / 2 ^ k % 2 == 1

-- `std::bitset<sizeof(uint32_t)>` has four bits; these are the ones where two words differ.
abbrev pub differ : ℕ → ℕ → ℕ → List ℕ → List ℕ
differ k a b rest =
    if bit k a then (if bit k b then rest else k ∷ rest) else (if bit k b then k ∷ rest else rest)

unfoldable pub bits_changed : ℕ → ℕ → List ℕ
bits_changed a b = differ 0 a b (differ 1 a b (differ 2 a b (differ 3 a b [])))

-- The only bit that has changed starts a run if it is set, and ends its run if it is not. The last
-- arguments and the result are `ctpRunBit` and `discardData`.
unfoldable pub follow_run : List ℕ → ℕ → Option ℕ → ℕ → Option ℕ × ℕ
follow_run [] field run discard = (run, discard)
follow_run (k ∷ j ∷ ks) field run discard = (run, discard)
follow_run (k ∷ []) field none discard =
    if bit k field && discard == 1 then (some k, 0) else (none, discard)
follow_run (k ∷ []) field (some r) discard =
    if not (bit k field) && r == k then (none, 2) else (some r, discard)

abbrev pub set_last : ℕ → ℕ → (ℕ → Option ℕ) → ℕ → Option ℕ
set_last link field last j = if j == link then some field else last j

-- Whether the field has changed, with `ctpRunBit` and `discardData` afterwards.
unfoldable pub compare_field : Bool → Option ℕ → ℕ → Option ℕ → ℕ → ℤ × Option ℕ × ℕ
unfolding bits_changed follow_run
compare_field ctp none field run discard = (pos 0, run, discard)
compare_field ctp (some last) field run discard =
    if field == last
    then (pos 0, run, discard)
    else if not ctp
    then (pos 1, run, discard)
    else let (run', discard') = follow_run (bits_changed field last) field run discard in
      (pos 1, run', discard')

unfoldable pub check_changes_in_detector_field : Rdh → Detector → ℤ × Detector
unfolding compare_field
check_changes_in_detector_field h s =
    let (changed, run, discard) =
      compare_field s.ctp_mode (s.last_field h.link_id) h.detector_field s.ctp_run_bit
        s.discard_data in
    if ltb rdh_max_link_id h.link_id
    then (negsuc 0, s)
    else if not s.check_detector_field
    then (pos 0, s)
    else (
      changed,
      record s {
        last_field = set_last h.link_id h.detector_field s.last_field;
        ctp_run_bit = run;
        discard_data = discard;
      },
    )

-- `initCounters`
abbrev pub init_detector : Detector → Detector
init_detector s = record s {
  last_field = λ link. none;
  ctp_run_bit = none;
  discard_data = if s.ctp_mode then 1 else 0;
}
