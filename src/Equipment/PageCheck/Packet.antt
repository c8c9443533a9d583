-- ===== src/Equipment/PageCheck/Packet.antt =====
-- What the check of one packet counts.
use readout.Prelude.{
  Bool, Bool-cases, arith, false, inl, inr, not, refl, suc, true, ℕ, ◌&&◌, ◌+◌, ◌==◌, ◌≡◌, ◌⊎◌,
}
use readout.DataBlock.{DataBlockHeader}
use readout.Rdh.{Rdh, validate_rdh}
use readout.Equipment.Timeframe.{is_out_of_range}
use readout.Equipment.PageCheck.{
  Checks, Settings, check_packet, check_stream, compare_detector_field, is_tf_misaligned, is_zero,
}

-- A packet that is as it should be, in a page of a link.
pub record IsGood (g : Settings) (bh : DataBlockHeader) (link : ℕ) (h : Rdh) : Type 0 where
  pub valid : validate_rdh h ≡ 0
  pub same_link : h.link_id ≡ link
  pub in_range : g.disable_timeframes ≡ false → is_out_of_range bh h.trigger_orbit ≡ false
  pub aligned : is_tf_misaligned g h ≡ false

abbrev pub errors : Checks → ℕ
errors c = c.stats_rdh_check_err + c.stats_rdh_check_stream_err

abbrev pub packets : Checks → ℕ
packets c = c.stats_rdh_check_ok + c.stats_rdh_check_err

guarded : (a b : Bool) → (not a && b) ≡ false → a ≡ false → b ≡ false
guarded false b e f = e
guarded true b e f = absurd (ground arith)

good :
    (g : Settings) (bh : DataBlockHeader) (link : ℕ) (h : Rdh)
    → (validate_rdh h == 0) ≡ true
    → not (link == h.link_id) ≡ false
    → (not g.disable_timeframes && is_out_of_range bh h.trigger_orbit) ≡ false
    → is_tf_misaligned g h ≡ false
    → IsGood g bh link h
good g bh link h a b d f = record {
  valid = ground arith;
  same_link = ground arith;
  in_range = guarded g.disable_timeframes (is_out_of_range bh h.trigger_orbit) d;
  aligned = f;
}

-- A good packet is counted as such, and the loop goes on to the next packet if there is one; any
-- other is one error, and ends the loop.
pub check_packet_cases :
    (g : Settings) (bh : DataBlockHeader) (link offset : ℕ) (h : Rdh) (c : Checks)
    → (let (go, c') = check_packet g bh link offset h c in
        (packets c' ≡ suc (packets c))
        × ((IsGood g bh link h × (go ≡ not (h.offset_next_packet == 0)) × (errors c' ≡ errors c))
            ⊎ ((go ≡ false) × (errors c' ≡ suc (errors c)))))
unfolding check_packet check_stream
check_packet_cases g bh link offset h c = elim (Bool-cases (validate_rdh h == 0)) [
  | inr a ↦ rw (a) (omega arith, inr (refl, omega arith))
  | inl a ↦ elim (Bool-cases (not (link == h.link_id))) [
    | inl b ↦ rw (a, b) (omega arith, inr (refl, omega arith))
    | inr b ↦ elim (Bool-cases (not g.disable_timeframes && is_out_of_range bh h.trigger_orbit)) [
      | inl d ↦ rw (a, b, d) (omega arith, inr (refl, omega arith))
      | inr d ↦
          elim (Bool-cases (not (is_zero ((compare_detector_field link offset h c.detector).0)))) [
            | inl e ↦ rw (a, b, d, e) (omega arith, inr (refl, omega arith))
            | inr e ↦ elim (Bool-cases (is_tf_misaligned g h)) [
              | inl f ↦ rw (a, b, d, e, f) (omega arith, inr (refl, omega arith))
              | inr f ↦ rw (a, b, d, e, f) (omega arith, inl (good g bh link h a b d f, refl, refl))
            ]
          ]
    ]
  ]
]
