-- ===== src/FmqChannel/Format/Payload.antt =====
-- src/ConsumerFMQchannel.cxx, DDformatMessage: no byte of the pages is lost, repeated or moved.
use readout.Prelude.{
  List, [], ap, append-nil, append_assoc, arith, if-intro, inl, inr, leb, map, suc, sym, zero, ℕ,
  ◌++◌, ◌+◌, ◌-◌, ◌==◌, ◌∙◌, ◌∷◌, ◌≡◌, ◌≤◌,
}
use readout.Rdh.{Rdh, rdh_size}
use readout.FmqChannel.{Page}
use readout.FmqChannel.Bytes.{concat, concat-append, slice, slice-append, slice-nil}
use readout.FmqChannel.Packets.{next_or_end, next_or_end-offsets_from, offsets_from, packet_offsets}
use readout.FmqChannel.Checks.{no_hb_id}
use readout.FmqChannel.Frames.Sent.{close_part}
use readout.FmqChannel.Format.Parts.{
  Split, end_of, end_of-next, message_parts, split_from, split_packet, split_packets, split_page,
  split_pages,
}

-- All that was read.
abbrev stream : Split → List ℕ
stream t = concat t.closed ++ t.part

concat-close_part :
    (closed : List (List ℕ)) (part : List ℕ)
    → concat (close_part closed part) ≡ concat closed ++ part
unfolding close_part
concat-close_part closed [] = sym (append-nil (concat closed))
concat-close_part closed (x ∷ part) =
    concat-append closed ((x ∷ part) ∷ []) ∙ ap (λ l. concat closed ++ l) (append-nil (x ∷ part))

stream-split_packet :
    (orbit : ℕ) (bytes : List ℕ) (t : Split)
    → stream (split_packet orbit bytes t) ≡ stream t ++ bytes
unfolding split_packet
stream-split_packet orbit bytes t =
    if-intro (λ (u : Split). stream u ≡ stream t ++ bytes) (orbit == t.orbit)
      (λ e. sym (append_assoc (concat t.closed) t.part bytes))
      (λ e. ap (λ l. l ++ bytes) (concat-close_part t.closed t.part))

-- The payload of a page, as its header tells of it.
unfoldable pub used_bytes : Page → List ℕ
used_bytes b = slice 0 b.header.data_size b.payload

nothing_read :
    (offset : ℕ) (b : Page) (t : Split)
    → stream t ≡ stream t ++ slice offset (offset - offset) b.payload
nothing_read offset b t =
    sym (append-nil (stream t))
    ∙ ap (λ l. stream t ++ l) (sym (slice-nil offset b.payload))
    ∙ ap (λ n. stream t ++ slice offset n b.payload) (omega arith)

slice-join :
    (a b c : ℕ) (xs : List ℕ)
    → a ≤ b
    → b ≤ c
    → slice a (b - a) xs ++ slice b (c - b) xs ≡ slice a (c - a) xs
slice-join a b c xs h k =
    let e : a + (b - a) ≡ b = omega arith in
    let f : (b - a) + (c - b) ≡ c - a = omega arith in
    ap (λ n. slice a (b - a) xs ++ slice n (c - b) xs) (sym e)
    ∙ slice-append a (b - a) (c - b) xs
    ∙ ap (λ n. slice a n xs) f

module _ (rdh_at : List ℕ → ℕ → Rdh) where
  stream-split_packets :
      (fuel : ℕ) (b : Page) (offset : ℕ) (t : Split)
      → offset ≤ b.header.data_size
      → let os = offsets_from fuel (rdh_at b.payload) b.header.data_size offset in
        stream (split_packets rdh_at b os t)
        ≡ stream t ++ slice offset (end_of os offset b.header.data_size - offset) b.payload
  unfolding offsets_from split_packets
  stream-split_packets zero b offset t h = nothing_read offset b t
  stream-split_packets (suc fuel) b offset t h =
      let size = b.header.data_size in
      let next = offset + (rdh_at b.payload offset).offset_next_packet in
      let rest = offsets_from fuel (rdh_at b.payload) size next in
      let P = λ (l : List ℕ).
        stream (split_packets rdh_at b l t)
        ≡ stream t ++ slice offset (end_of l offset size - offset) b.payload in
      let step : (l : List ℕ)
          → offset ≤ next_or_end l size
          → next_or_end l size ≤ size
          → ((u : Split)
              → stream (split_packets rdh_at b l u)
                ≡ stream u ++ slice (next_or_end l size) (size - next_or_end l size) b.payload)
          → P (offset ∷ l) =
        λ l g k f.
          let bytes = slice offset (next_or_end l size - offset) b.payload in
          let orbit = (rdh_at b.payload offset).heartbeat_orbit in
          f (split_packet orbit bytes t)
          ∙ ap (λ m. m ++ slice (next_or_end l size) (size - next_or_end l size) b.payload)
              (stream-split_packet orbit bytes t)
          ∙ append_assoc (stream t) bytes _
          ∙ ap (λ m. stream t ++ m) (slice-join offset (next_or_end l size) size b.payload g k) in
      let last : P (offset ∷ []) = step [] h (omega arith) (λ u. nothing_read size b u) in
      if-intro P (leb (offset + rdh_size) size)
        (λ e.
          if-intro (λ (l : List ℕ). P (offset ∷ l))
            ((rdh_at b.payload offset).offset_next_packet == 0) (λ f. last)
            (λ f. elim (next_or_end-offsets_from fuel (rdh_at b.payload) size next) [
              | inl g ↦ rw (g) last
              | inr (g, m) ↦ step rest (omega (arith, g)) (omega (arith, g, m)) (λ u.
                  stream-split_packets fuel b next u m
                  ∙ ap (λ n. stream u ++ slice next (n - next) b.payload)
                      (end_of-next rest next size g)
                  ∙ ap (λ n. stream u ++ slice n (size - n) b.payload) (sym g))
            ]))
        (λ e. nothing_read offset b t)

  page_stream :
      (b : Page) (t : Split) (os : List ℕ)
      → stream (split_packets rdh_at b os t)
        ≡ stream t ++ slice 0 (end_of os 0 b.header.data_size - 0) b.payload
      → stream (split_from rdh_at b os t) ≡ stream t ++ used_bytes b
  unfolding split_from used_bytes
  page_stream b t [] h =
      sym (append_assoc (concat t.closed) t.part (slice 0 b.header.data_size b.payload))
  page_stream b t (o ∷ os) h = h ∙ ap (λ n. stream t ++ slice 0 n b.payload) (omega arith)

  stream-split_page :
      (b : Page) (t : Split) → stream (split_page rdh_at b t) ≡ stream t ++ used_bytes b
  unfolding split_page
  stream-split_page b t =
      let size = b.header.data_size in
      page_stream b t (packet_offsets (rdh_at b.payload) size)
        (stream-split_packets (suc size) b 0 t (omega arith))

  stream-split_pages :
      (bs : List Page) (t : Split)
      → stream (split_pages rdh_at bs t) ≡ stream t ++ concat (map used_bytes bs)
  unfolding split_pages
  stream-split_pages [] t = sym (append-nil (stream t))
  stream-split_pages (b ∷ bs) t =
      stream-split_pages bs (split_page rdh_at b t)
      ∙ ap (λ l. l ++ concat (map used_bytes bs)) (stream-split_page b t)
      ∙ append_assoc (stream t) (used_bytes b) (concat (map used_bytes bs))

  -- The parts of a message are, one after the other, the header and the payload of the pages.
  pub concat-message_parts :
      (header : List ℕ) (bc : List Page)
      → concat (message_parts rdh_at header bc) ≡ header ++ concat (map used_bytes bc)
  unfolding message_parts
  concat-message_parts header bc =
      let t : Split = record { closed = header ∷ []; part = []; orbit = no_hb_id } in
      let u = split_pages rdh_at bc t in
      concat-close_part u.closed u.part
      ∙ stream-split_pages bc t
      ∙ ap (λ l. l ++ concat (map used_bytes bc)) (append-nil (header ++ []) ∙ append-nil header)
