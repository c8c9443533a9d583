-- ===== src/FileRecorder/Push/Ends.antt =====
-- The loop over the packets of a page comes to an end.
use readout.FileRecorder.Push.{
  Scan, Sink, filter_packets, is_empty_hb_stop, write_packet, write_previous,
}
use readout.Rdh.{Rdh, validate_rdh}
use readout.Prelude.{
  Bool, Option, arith, if-intro, if◌then◌else◌, ltb, not, refl, some, suc, zero, ℕ, ◌&&◌, ◌*◌, ◌+◌,
  ◌-◌, ◌<◌, ◌==◌, ◌≡◌,
}

module _ {S : Type 0} (sink : Sink S) (mask : ℕ) (rdh_at : ℕ → Rdh) (base block_size tf : ℕ) where
  abbrev pub Ends : Option (Bool × Scan × S) → Type 0
  Ends o = (r : Bool × Scan × S) × (o ≡ some r)

  abbrev pub steps_left : ℕ → Bool → ℕ
  steps_left offset is_start = 2 * (block_size - offset) + (if is_start then 1 else 0)

  -- The loop comes to an end, for any contents of the page: a length 0 of a packet stops it, and a
  -- dropped HBstop of length 0 is not taken twice.
  pub filter_packets-total :
      (fuel offset : ℕ) (k : Scan) (s : S)
      → steps_left offset k.previous.is_empty_hb_start < fuel
      → Ends (filter_packets sink mask rdh_at base block_size tf fuel offset k s)
  unfolding filter_packets
  filter_packets-total zero offset k s h = absurd (ground arith)
  filter_packets-total (suc fuel) offset k s h =
      let h0 = rdh_at (base + offset) in
      let next = h0.offset_next_packet in
      let (ok, k1, s1) = write_previous sink mask rdh_at base block_size tf k s in
      let (ok', k2, s2) = write_packet sink mask rdh_at base block_size tf offset k1 s1 in
      if-intro Ends (not (ltb offset block_size)) (λ e. (_, refl))
        λ inside.
          if-intro Ends (not (validate_rdh h0 == 0)) (λ e. (_, refl))
            λ e.
              if-intro Ends (not (sink.has_file s)) (λ e. (_, refl))
                λ e.
                  if-intro Ends (k.previous.is_empty_hb_start && is_empty_hb_stop mask h0)
                    (λ e. filter_packets-total fuel (offset + next) _ s (ground arith))
                    λ e.
                      if-intro Ends (not ok) (λ e. (_, refl))
                        λ e.
                          if-intro Ends (not ok') (λ e. (_, refl))
                            λ e.
                              if-intro Ends (next == 0) (λ e. (_, refl))
                                λ e. filter_packets-total fuel (offset + next) k2 s2 (ground arith)
