-- ===== src/FileRecorder/Push/Limits.antt =====
-- A push of a block keeps all files within their limits.
use readout.Prelude.{
  Bool, Option, arith, if-intro, ltb, none, not, some, suc, zero, ℕ, ◌&&◌, ◌+◌, ◌<◌, ◌==◌, ◌^◌,
}
use readout.FileRecorder.Push.{
  Scan, Sink, filter_packets, is_empty_hb_start, is_empty_hb_stop, write_packet, write_previous,
}
use readout.FileRecorder.File.{Chunk}
use readout.Rdh.{Rdh, validate_rdh}

-- The loop keeps what each write of a packet keeps; a packet has at most 65535 bytes.
module _ {S : Type 0} (sink : Sink S) (mask : ℕ) (rdh_at : ℕ → Rdh) (base block_size tf : ℕ)
    (I : S → Type 0) (fits : (a : ℕ) → (rdh_at a).offset_next_packet < 2 ^ 16)
    (put_keeps : (c : Chunk) (t : ℕ) (s : S) → c.size < 2 ^ 16 → I s → I (sink.put c t s).1) where
  abbrev pub After : Bool × Scan × S → Type 0
  After r = (r.1.previous.size < 2 ^ 16) × I r.2

  write_previous-After :
      (k : Scan) (s : S)
      → k.previous.size < 2 ^ 16
      → I s
      → After (write_previous sink mask rdh_at base block_size tf k s)
  write_previous-After k s h i =
      let c : Chunk = record { address = k.previous.address; size = k.previous.size } in
      let next = put_keeps c k.previous.timeframe_id s h i in
      if-intro After (k.previous.address == 0) (λ e. (h, i))
        λ e.
          if-intro After (sink.put c k.previous.timeframe_id s).0 (λ e. (omega arith, next))
            λ e. (h, next)

  write_packet-After :
      (offset : ℕ) (k : Scan) (s : S)
      → k.previous.size < 2 ^ 16
      → I s
      → After (write_packet sink mask rdh_at base block_size tf offset k s)
  write_packet-After offset k s h i =
      let p = rdh_at (base + offset) in
      let c : Chunk = record { address = base + offset; size = p.offset_next_packet } in
      let next = put_keeps c tf s (fits (base + offset)) i in
      if-intro After (is_empty_hb_start mask p) (λ e. (fits (base + offset), i))
        λ e. if-intro After (sink.put c tf s).0 (λ e. (h, next)) λ e. (h, next)

  abbrev pub Afters : Option (Bool × Scan × S) → Type 0
  Afters none = Unit
  Afters (some r) = After r

  pub filter_packets-After :
      (fuel offset : ℕ) (k : Scan) (s : S)
      → k.previous.size < 2 ^ 16
      → I s
      → Afters (filter_packets sink mask rdh_at base block_size tf fuel offset k s)
  unfolding filter_packets
  filter_packets-After zero offset k s h i = tt
  filter_packets-After (suc fuel) offset k s h i =
      let p = rdh_at (base + offset) in
      let next = p.offset_next_packet in
      let r1 = write_previous sink mask rdh_at base block_size tf k s in
      let r2 = write_packet sink mask rdh_at base block_size tf offset r1.1 r1.2 in
      let h1 : After r1 = write_previous-After k s h i in
      let h2 : After r2 = write_packet-After offset r1.1 r1.2 h1.0 h1.1 in
      if-intro Afters (not (ltb offset block_size)) (λ e. (h, i))
        λ e.
          if-intro Afters (not (validate_rdh p == 0)) (λ e. (omega arith, i))
            λ e.
              if-intro Afters (not (sink.has_file s)) (λ e. (h, i))
                λ e.
                  if-intro Afters (k.previous.is_empty_hb_start && is_empty_hb_stop mask p)
                    (λ e. filter_packets-After fuel (offset + next) _ s (omega arith) i)
                    λ e.
                      if-intro Afters (not r1.0) (λ e. h1)
                        λ e.
                          if-intro Afters (not r2.0) (λ e. h2)
                            λ e.
                              if-intro Afters (next == 0) (λ e. h2)
                                λ e. filter_packets-After fuel (offset + next) r2.1 r2.2 h2.0 h2.1
