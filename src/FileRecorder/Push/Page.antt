-- ===== src/FileRecorder/Push/Page.antt =====
-- The loop over the packets of a page of valid packets is the pass that drops the empty pairs.
use readout.FileRecorder.Push.Steps.{
  Gives, IsKept, IsPage, IsTaking, Passed-then, drop_two, dropped_two, item, items, not_both,
  put_all-Good, scan-dropped, scan-taken, write_packet_lem, write_previous_lem,
}
use readout.FileRecorder.Files.{Packet}
use readout.FileRecorder.Push.Filter.{IsKeptStart, Item, drop_pairs, scan, scan-drop_pairs, to_list}
use readout.FileRecorder.Push.{
  Scan, Sink, filter_packets, is_empty_hb_start, is_empty_hb_stop, write_packet, write_previous,
}
use readout.Rdh.{Rdh, validate_rdh}
use readout.Prelude.{
  List, Option, [], arith, if-intro, if◌then◌else◌, ltb, none, not, refl, some, subst, suc, sym,
  true, zero, ℕ, ◌&&◌, ◌++◌, ◌+◌, ◌<◌, ◌==◌, ◌∷◌, ◌≡◌, ◌≤◌,
}

module _ {S : Type 0} (sink : Sink S) (mask : ℕ) (rdh_at : ℕ → Rdh) (base block_size tf : ℕ)
    (Good : S → Type 0) (t : IsTaking sink mask rdh_at base block_size tf Good) where
  filter_packets_lem :
      (n fuel offset : ℕ) (kept : Option Item) (k : Scan) (s : S)
      → Good s
      → 1 ≤ base
      → n < fuel
      → IsPage sink mask rdh_at base block_size tf offset n
      → IsKept sink mask rdh_at base block_size tf k.previous kept
      → Gives sink mask rdh_at base block_size tf Good t k s
          (scan mask kept (items sink mask rdh_at base block_size tf offset n))
          (filter_packets sink mask rdh_at base block_size tf fuel offset k s)
  unfolding filter_packets
  filter_packets_lem n zero offset kept k s g b f p q = absurd (ground arith)
  filter_packets_lem zero (suc fuel) offset kept k s g b f p q =
      if-intro (Gives sink mask rdh_at base block_size tf Good t k s ([], kept, 0))
        (not (ltb offset block_size))
        (λ e. (
          (true, k, s),
          refl,
          record {
            returns = refl;
            written_all = refl;
            keeps = q;
            recorded = omega arith;
            dropped = omega arith;
            no_invalid = refl;
          },
        ))
        λ e. absurd (ground arith)
  filter_packets_lem (suc n) (suc fuel) offset kept k s g b f p q =
      let h = rdh_at (base + offset) in
      let next = h.offset_next_packet in
      let r1 = write_previous sink mask rdh_at base block_size tf k s in
      let r2 = write_packet sink mask rdh_at base block_size tf offset r1.1 r1.2 in
      let P =
        Gives sink mask rdh_at base block_size tf Good t k s
          (scan mask kept (items sink mask rdh_at base block_size tf offset (suc n))) in
      let l1 = write_previous_lem sink mask rdh_at base block_size tf Good t kept k s g q in
      let g1 : Good r1.2 =
        subst Good (sym l1.written_all)
          (put_all-Good sink mask rdh_at base block_size tf Good t (to_list kept) s g) in
      let l2 =
        write_packet_lem sink mask rdh_at base block_size tf Good t offset r1.1 r1.2 g1 b
          l1.keeps in
      let a = item sink mask rdh_at base block_size tf offset in
      let l = items sink mask rdh_at base block_size tf (offset + next) n in
      let written : List Item = if is_empty_hb_start mask a.rdh then [] else a ∷ [] in
      let g2 : Good r2.2 =
        subst Good (sym l2.written_all)
          (put_all-Good sink mask rdh_at base block_size tf Good t written r1.2 g1) in
      if-intro P (not (ltb offset block_size)) (λ e. absurd (ground (arith, p.0)))
        λ e.
          if-intro P (not (validate_rdh h == 0)) (λ e. absurd (ground (arith, p.1)))
            λ e.
              if-intro P (not (sink.has_file s)) (λ e. absurd (not_both (t.good_file s g) e))
                λ e.
                  if-intro P (k.previous.is_empty_hb_start && is_empty_hb_stop mask h)
                    (λ e.
                      subst
                        (λ x. Gives sink mask rdh_at base block_size tf Good t k s x (
                          filter_packets sink mask rdh_at base block_size tf fuel (offset + next)
                            (dropped_two k) s))
                        (sym (
                          scan-dropped sink mask rdh_at base block_size tf Good t k.previous kept a
                            l q e))
                        (drop_two sink mask rdh_at base block_size tf Good t k s (scan mask none l)
                          _
                          (filter_packets_lem n fuel (offset + next) none (dropped_two k) s g b
                            (omega arith) p.3 (refl, refl))))
                    λ e.
                      if-intro P (not r1.0) (λ e1. absurd (not_both l1.returns e1))
                        λ e1.
                          if-intro P (not r2.0) (λ e1. absurd (not_both l2.returns e1))
                            λ e1.
                              if-intro P (next == 0) (λ e2. absurd (ground (arith, p.2)))
                                λ e2.
                                  (let (r, o, l3) =
                                      filter_packets_lem n fuel (offset + next)
                                        (if is_empty_hb_start mask a.rdh then some a else none) r2.1
                                        r2.2 g2 b (omega arith) p.3 l2.keeps in
                                    subst
                                      (λ x. Gives sink mask rdh_at base block_size tf Good t k s x (
                                        filter_packets sink mask rdh_at base block_size tf fuel
                                          (offset + next) r2.1 r2.2))
                                      (sym (
                                        scan-taken sink mask rdh_at base block_size tf Good t
                                          k.previous kept a l q e))
                                      (
                                        r,
                                        o,
                                        Passed-then sink mask rdh_at base block_size tf refl l1 (
                                            Passed-then sink mask rdh_at base block_size tf refl l2
                                              l3),
                                      ))

  kept_start :
      (p : Packet) (kept : Option Item)
      → IsKept sink mask rdh_at base block_size tf p kept
      → IsKeptStart mask kept
  kept_start p none h = tt
  kept_start p (some a) h = h.1

  -- On a page of valid packets that each have a length, with files that take every write, the loop
  -- ends. It writes, in order, the packet that was kept aside before and those of the page, but for
  -- the pairs of an empty HBstart and an empty HBstop next to each other, and keeps the last one
  -- aside if it is an empty HBstart. The counters are those of the packets written and dropped.
  pub filter_packets-page :
      (n fuel : ℕ) (kept : Option Item) (k : Scan) (s : S)
      → Good s
      → 1 ≤ base
      → n < fuel
      → IsPage sink mask rdh_at base block_size tf 0 n
      → IsKept sink mask rdh_at base block_size tf k.previous kept
      → (let (w, p, m) = scan mask kept (items sink mask rdh_at base block_size tf 0 n) in
          (w ++ to_list p
            ≡ drop_pairs mask (to_list kept ++ items sink mask rdh_at base block_size tf 0 n))
          × Gives sink mask rdh_at base block_size tf Good t k s
              (w, p, m)
              (filter_packets sink mask rdh_at base block_size tf fuel 0 k s))
  filter_packets-page n fuel kept k s g b f p q = (
    (scan-drop_pairs mask kept (items sink mask rdh_at base block_size tf 0 n)
        (kept_start k.previous kept q)).0,
    filter_packets_lem n fuel 0 kept k s g b f p q,
  )
