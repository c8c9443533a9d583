-- ===== src/FmqChannel/Format/Parts.antt =====
-- src/ConsumerFMQchannel.cxx, DDformatMessage: the parts of a message, told from the bytes of the pages.
use readout.FmqChannel.Copies.Allowed.{IsGenerous}
use readout.Prelude.{
  ==_iff, All, All-append, All-append_left, All-append_right, Bool, List, [], ap, append-nil,
  append_assoc, arith, false, if-intro, if-split, if◌then◌else◌, inl, inr, leb, length,
  length-append, ltb, refl, subst, suc, sym, true, zero, ℕ, ◌++◌, ◌+◌, ◌-◌, ◌==◌, ◌∙◌, ◌∷◌, ◌≡◌,
  ◌≤◌,
}
use readout.Rdh.{Rdh, rdh_size}
use readout.FmqChannel.{Page, PagePool, SubTimeframe}
use readout.FmqChannel.Bytes.{slice, slice-append, slice-nil}
use readout.FmqChannel.Packets.{next_or_end, next_or_end-offsets_from, offsets_from, packet_offsets}
use readout.FmqChannel.Checks.{no_hb_id}
use readout.FmqChannel.Frames.{
  Outcome, Sending, pending_frames_append, pending_frames_collect, returned, thrown,
}
use readout.FmqChannel.Frames.Sent.{
  IfReturned, IfReturned-map, IsSent, IsShort, close_part, pending_frames_append-IsSent,
  pending_frames_collect-IsSent,
}
use readout.FmqChannel.Format.{cut_packet, cut_packets, cut_pages, keep_last, map_outcome}

-- The parts that are complete, the one that grows, and the orbit of its packets.
pub record Split : Type 0 where
  pub closed : List (List ℕ)
  pub part : List ℕ
  pub orbit : ℕ

-- A packet with its bytes goes to the part that grows, unless its orbit is another one.
unfoldable pub split_packet : ℕ → List ℕ → Split → Split
split_packet orbit bytes t =
    if orbit == t.orbit
    then record t { part = t.part ++ bytes }
    else record { closed = close_part t.closed t.part; part = bytes; orbit = orbit }

split_packet-same :
    (orbit : ℕ) (bytes : List ℕ) (t : Split)
    → (orbit == t.orbit) ≡ true
    → split_packet orbit bytes t ≡ record t { part = t.part ++ bytes }
unfolding split_packet
split_packet-same orbit bytes t h = ground (arith, h)

split_packet-next :
    (orbit : ℕ) (bytes : List ℕ) (t : Split)
    → (orbit == t.orbit) ≡ false
    → split_packet orbit bytes t
      ≡ record { closed = close_part t.closed t.part; part = bytes; orbit = orbit }
unfolding split_packet
split_packet-next orbit bytes t h = ground (arith, h)

-- Where a walk over packets ends.
abbrev pub end_of : List ℕ → ℕ → ℕ → ℕ
end_of [] offset size = offset
end_of (o ∷ os) offset size = size

pub end_of-next :
    (os : List ℕ) (offset size : ℕ) → next_or_end os size ≡ offset → end_of os offset size ≡ size
end_of-next [] offset size e = sym e
end_of-next (o ∷ os) offset size e = refl

module _ (rdh_at : List ℕ → ℕ → Rdh) where
  -- The packets of a page: each has the bytes up to the next one, the last one those that are left.
  unfoldable pub split_packets : Page → List ℕ → Split → Split
  split_packets b [] t = t
  split_packets b (o ∷ os) t =
      let bytes = slice o (next_or_end os b.header.data_size - o) b.payload in
      split_packets b os (split_packet (rdh_at b.payload o).heartbeat_orbit bytes t)

  -- A page that is too short for a packet goes on with the one before.
  unfoldable pub split_from : Page → List ℕ → Split → Split
  split_from b [] t = record t { part = t.part ++ slice 0 b.header.data_size b.payload }
  split_from b (o ∷ os) t = split_packets b (o ∷ os) t

  unfoldable pub split_page : Page → Split → Split
  split_page b t = split_from b (packet_offsets (rdh_at b.payload) b.header.data_size) t

  unfoldable pub split_pages : List Page → Split → Split
  split_pages [] t = t
  split_pages (b ∷ bs) t = split_pages bs (split_page b t)

  -- The parts: a header, and the payload of the pages, cut before each packet whose orbit is not that
  -- of the packet before.
  unfoldable pub message_parts : List ℕ → List Page → List (List ℕ)
  message_parts header bc =
      let t = split_pages bc (record { closed = header ∷ []; part = []; orbit = no_hb_id }) in
      close_part t.closed t.part

module _ (page_size : ℕ) where
  -- The parts are short enough, with the one that grows.
  AreShort : Split → Type 0
  AreShort t = All (IsShort page_size) (close_part t.closed t.part)

  prefix_fits :
      (closed : List (List ℕ)) (part bytes : List ℕ)
      → All (IsShort page_size) (close_part closed (part ++ bytes))
      → All (IsShort page_size) (close_part closed part)
  unfolding close_part
  prefix_fits closed [] [] h = h
  prefix_fits closed [] (x ∷ bytes) h =
      All-append_left (IsShort page_size) closed ((x ∷ bytes) ∷ []) h
  prefix_fits closed (x ∷ part) bytes h =
      let l = All-append_right (IsShort page_size) closed ((x ∷ (part ++ bytes)) ∷ []) h in
      All-append (IsShort page_size) closed ((x ∷ part) ∷ [])
        (All-append_left (IsShort page_size) closed ((x ∷ (part ++ bytes)) ∷ []) h)
        (omega (arith, l.0, length-append part bytes), tt)

  closed_fits :
      (closed : List (List ℕ)) (part : List ℕ)
      → All (IsShort page_size) (close_part closed part)
      → All (IsShort page_size) closed
  unfolding close_part
  closed_fits closed [] h = h
  closed_fits closed (x ∷ part) h = All-append_left (IsShort page_size) closed ((x ∷ part) ∷ []) h

  AreShort-before :
      (orbit : ℕ) (bytes : List ℕ) (t : Split) → AreShort (split_packet orbit bytes t) → AreShort t
  unfolding AreShort split_packet
  AreShort-before orbit bytes t h = elim (if-split AreShort (orbit == t.orbit) h) [
    | inl (e, k) ↦ prefix_fits t.closed t.part bytes k
    | inr (e, k) ↦ closed_fits (close_part t.closed t.part) bytes k
  ]

  module _ (rdh_at : List ℕ → ℕ → Rdh) where
    AreShort-split_packets :
        (b : Page) (os : List ℕ) (t : Split) → AreShort (split_packets rdh_at b os t) → AreShort t
    unfolding split_packets
    AreShort-split_packets b [] t h = h
    AreShort-split_packets b (o ∷ os) t h = AreShort-before _ _ t (AreShort-split_packets b os _ h)

    AreShort-split_from :
        (b : Page) (os : List ℕ) (t : Split)
        → AreShort (split_from rdh_at b os t)
        → AreShort (split_packets rdh_at b os t)
    unfolding split_from split_packets AreShort
    AreShort-split_from b [] t h = prefix_fits t.closed t.part _ h
    AreShort-split_from b (o ∷ os) t h = h

    AreShort-split_pages :
        (bs : List Page) (t : Split) → AreShort (split_pages rdh_at bs t) → AreShort t
    unfolding split_pages split_page
    AreShort-split_pages [] t h = h
    AreShort-split_pages (b ∷ bs) t h =
        let os = packet_offsets (rdh_at b.payload) b.header.data_size in
        AreShort-split_packets b os t
          (AreShort-split_from b os t (AreShort-split_pages bs (split_page rdh_at b t) h))

-- The bytes of a page are at least those its header tells of.
abbrev pub HasBytes : Page → Type 0
HasBytes b = b.header.data_size ≤ length b.payload

module _ {G : PagePool} (stf_bytes : SubTimeframe → List ℕ) (block_bytes : ℕ → List ℕ)
    (enable_packed_copy : Bool) (rdh_at : List ℕ → ℕ → Rdh) (Good : Type 0)
    (generous : Good → IsGenerous G) where
  -- The code at an offset of a page: the frames that wait, with the bytes from `hb_start` on, are the
  -- part that grows.
  record At (b : Page) (offset : ℕ) (c : (ℕ × ℕ) × Sending G) (t : Split) : Type 0 where
    rest : List ℕ
    sent : IsSent stf_bytes c.1 t.closed rest
    start_le : c.0.0 ≤ offset
    grows : rest ++ slice c.0.0 (offset - c.0.0) b.payload ≡ t.part
    orbit : c.0.1 ≡ t.orbit

  abbrev IfCut : ((ℕ × ℕ) × Sending G → Type 0) → Outcome ((ℕ × ℕ) × Sending G) → Type 0
  IfCut P (returned c) = P c
  IfCut P (thrown c) = Good → ⊥

  IfCut-bind :
      (P Q : (ℕ × ℕ) × Sending G → Type 0) (o : Outcome ((ℕ × ℕ) × Sending G))
      (k : (ℕ × ℕ) × Sending G → Outcome ((ℕ × ℕ) × Sending G))
      → IfCut P o
      → ((c : (ℕ × ℕ) × Sending G) → P c → IfCut Q (k c))
      → IfCut Q (elim o [ thrown d ↦ thrown d | returned d ↦ k d ])
  IfCut-bind P Q (returned c) k h f = f c h
  IfCut-bind P Q (thrown c) k h f = h

  IfCut-map :
      (P : Sending G → Type 0) (Q : (ℕ × ℕ) × Sending G → Type 0) (r : ℕ × ℕ)
      (o : Outcome (Sending G))
      → IfReturned stf_bytes P (Good → ⊥) o
      → ((s : Sending G) → P s → Q (r, s))
      → IfCut Q (map_outcome (λ (s : Sending G). (r, s)) o)
  IfCut-map P Q r (returned s) h f = f s h
  IfCut-map P Q r (thrown s) h f = h

  -- Bytes that are passed over are part of it.
  At-extend :
      (b : Page) (offset next : ℕ) (c : (ℕ × ℕ) × Sending G) (t : Split)
      → offset ≤ next
      → At b offset c t
      → At b next c (record t { part = t.part ++ slice offset (next - offset) b.payload })
  At-extend b offset next c t h w =
      let start = c.0.0 in
      let first = slice start (offset - start) b.payload in
      let second = slice offset (next - offset) b.payload in
      let e : start + (offset - start) ≡ offset = omega (arith, w.start_le) in
      let f : (offset - start) + (next - offset) ≡ next - start = omega (arith, w.start_le) in
      let both : first ++ second ≡ slice start (next - start) b.payload =
        ap (λ n. first ++ slice n (next - offset) b.payload) (sym e)
        ∙ slice-append start (offset - start) (next - offset) b.payload
        ∙ ap (λ n. slice start n b.payload) f in
      record {
        rest = w.rest;
        sent = w.sent;
        start_le = omega (arith, w.start_le);
        grows =
            ap (λ l. w.rest ++ l) (sym both)
            ∙ sym (append_assoc w.rest first second)
            ∙ ap (λ l. l ++ second) w.grows;
        orbit = w.orbit;
      }

  -- All that was read is pending, when the frame that is open is appended.
  append_if :
      (b : Page) (offset : ℕ) (c : (ℕ × ℕ) × Sending G) (t : Split) (id : ℕ)
      → offset ≤ length b.payload
      → At b offset c t
      → IsSent stf_bytes
          (if offset - c.0.0 == 0
            then c.1
            else pending_frames_append G c.0.0 (offset - c.0.0) id b c.1)
          t.closed
          t.part
  append_if b offset c t id k w =
      let len = offset - c.0.0 in
      if-intro (λ (s : Sending G). IsSent stf_bytes s t.closed t.part) (len == 0)
        (λ e.
          let z : w.rest ≡ t.part =
            sym (append-nil w.rest)
            ∙ ap (λ l. w.rest ++ l) (sym (slice-nil c.0.0 b.payload))
            ∙ ap (λ n. w.rest ++ slice c.0.0 n b.payload) (sym ((==_iff len 0).0 e))
            ∙ w.grows in
          subst (IsSent stf_bytes c.1 t.closed) z w.sent)
        (λ e. subst (IsSent stf_bytes _ t.closed) w.grows (
          pending_frames_append-IsSent stf_bytes c.0.0 len id b c.1 t.closed w.rest
            (ground (arith, e)) (omega (arith, w.start_le)) w.sent))

  cut_packet-At :
      (b : Page) (offset next : ℕ) (c : (ℕ × ℕ) × Sending G) (t : Split)
      → offset ≤ next
      → offset ≤ length b.payload
      → At b offset c t
      → (Good
          → AreShort G.page_size (
              split_packet
                (rdh_at b.payload offset).heartbeat_orbit
                (slice offset (next - offset) b.payload)
                t))
      → IfCut
          (λ d. At b next d (
            split_packet
              (rdh_at b.payload offset).heartbeat_orbit
              (slice offset (next - offset) b.payload)
              t))
          (cut_packet G block_bytes enable_packed_copy rdh_at b offset c)
  unfolding cut_packet split_packet close_part AreShort
  cut_packet-At b offset next ((start, last), s) t h k w v =
      let orbit = (rdh_at b.payload offset).heartbeat_orbit in
      let bytes = slice offset (next - offset) b.payload in
      let P = λ (u : Split). IfCut (λ d. At b next d u) in
      let s' =
        if offset - start == 0
        then s
        else pending_frames_append G start (offset - start) last b s in
      let o = pending_frames_collect G block_bytes enable_packed_copy s' in
      if-intro (P (split_packet orbit bytes t)) (orbit == last)
        (λ e.
          subst (λ (u : Split). At b next ((start, last), s) u)
            (sym (split_packet-same orbit bytes t (subst (λ n. (orbit == n) ≡ true) w.orbit e)))
            (At-extend b offset next ((start, last), s) t h w))
        (λ e.
          let eq = split_packet-next orbit bytes t (subst (λ n. (orbit == n) ≡ false) w.orbit e) in
          rw (eq) (
            IfCut-map (λ u. IsSent stf_bytes u (close_part t.closed t.part) []) _ (offset, orbit) o
              (IfReturned-map stf_bytes _ _ (Good → ⊥)
                (λ z x. z (generous x) (AreShort-before G.page_size orbit bytes t (v x))) o
                (pending_frames_collect-IsSent stf_bytes block_bytes enable_packed_copy s' t.closed
                  t.part (append_if b offset ((start, last), s) t last k w)))
              (λ u v. record { rest = []; sent = v; start_le = h; grows = refl; orbit = refl })))

  cut_packets-At :
      (fuel : ℕ) (b : Page) (offset : ℕ) (c : (ℕ × ℕ) × Sending G) (t : Split)
      → offset ≤ b.header.data_size
      → HasBytes b
      → At b offset c t
      → let os = offsets_from fuel (rdh_at b.payload) b.header.data_size offset in
        (Good → AreShort G.page_size (split_packets rdh_at b os t))
        → IfCut
            (λ d. At b (end_of os offset b.header.data_size) d (split_packets rdh_at b os t))
            (cut_packets G block_bytes enable_packed_copy rdh_at b os c)
  unfolding offsets_from cut_packets split_packets
  cut_packets-At zero b offset c t h k w = λ x. w
  cut_packets-At (suc fuel) b offset c t h k w =
      let size = b.header.data_size in
      let next = offset + (rdh_at b.payload offset).offset_next_packet in
      let rest = offsets_from fuel (rdh_at b.payload) size next in
      let P = λ (l : List ℕ).
        (Good → AreShort G.page_size (split_packets rdh_at b l t))
        → IfCut (λ d. At b (end_of l offset size) d (split_packets rdh_at b l t))
            (cut_packets G block_bytes enable_packed_copy rdh_at b l c) in
      let step : (l : List ℕ)
          → offset ≤ next_or_end l size
          → ((d : (ℕ × ℕ) × Sending G) (u : Split)
              → At b (next_or_end l size) d u
              → (Good → AreShort G.page_size (split_packets rdh_at b l u))
              → IfCut (λ d'. At b size d' (split_packets rdh_at b l u))
                  (cut_packets G block_bytes enable_packed_copy rdh_at b l d))
          → P (offset ∷ l) =
        λ l g f x.
          let bytes = slice offset (next_or_end l size - offset) b.payload in
          let u = split_packet (rdh_at b.payload offset).heartbeat_orbit bytes t in
          IfCut-bind (λ d. At b (next_or_end l size) d u) _
            (cut_packet G block_bytes enable_packed_copy rdh_at b offset c) _
            (cut_packet-At b offset (next_or_end l size) c t g (omega (arith, h, k)) w
              (λ y. AreShort-split_packets G.page_size rdh_at b l u (x y)))
            (λ d v. f d u v x) in
      let last : P (offset ∷ []) = step [] h (λ d u v x. v) in
      if-intro P (leb (offset + rdh_size) size)
        (λ e.
          if-intro (λ (l : List ℕ). P (offset ∷ l))
            ((rdh_at b.payload offset).offset_next_packet == 0) (λ f. last)
            (λ f. elim (next_or_end-offsets_from fuel (rdh_at b.payload) size next) [
              | inl g ↦ rw (g) last
              | inr (g, m) ↦ step rest (omega (arith, g)) (λ d u v x.
                  let r = cut_packets-At fuel b next d u m k (subst (λ n. At b n d u) g v) x in
                  subst
                    (λ n.
                      IfCut (λ d'. At b n d' (split_packets rdh_at b rest u))
                        (cut_packets G block_bytes enable_packed_copy rdh_at b rest d))
                    (end_of-next rest next size g) r)
            ]))
        (λ e x. w)

  -- A state between two pages.
  record Between (last : ℕ) (s : Sending G) (t : Split) : Type 0 where
    sent : IsSent stf_bytes s t.closed t.part
    orbit : last ≡ t.orbit

  keep_last-Between :
      (b : Page) (c : (ℕ × ℕ) × Sending G) (t : Split)
      → HasBytes b
      → At b b.header.data_size c t
      → Between (keep_last G b c).0.1 (keep_last G b c).1 t
  unfolding keep_last
  keep_last-Between b ((start, last), s) t h w =
      let size = b.header.data_size in
      if-intro (λ (c : (ℕ × ℕ) × Sending G). Between c.0.1 c.1 t) (ltb start size)
        (λ e. record {
          sent = subst (IsSent stf_bytes _ t.closed) w.grows (
              pending_frames_append-IsSent stf_bytes start (size - start) last b s t.closed w.rest
                (ground (arith, e)) (omega (arith, w.start_le, h)) w.sent);
          orbit = w.orbit;
        })
        (λ e.
          let z : size - start ≡ 0 = ground (arith, e) in
          let f : w.rest ≡ t.part =
            sym (append-nil w.rest)
            ∙ ap (λ l. w.rest ++ l) (sym (slice-nil start b.payload))
            ∙ ap (λ n. w.rest ++ slice start n b.payload) (sym z)
            ∙ w.grows in
          record { sent = subst (IsSent stf_bytes s t.closed) f w.sent; orbit = w.orbit })

  At-start :
      (b : Page) (last : ℕ) (s : Sending G) (t : Split) → Between last s t → At b 0 ((0, last), s) t
  At-start b last s t w = record {
    rest = t.part;
    sent = w.sent;
    start_le = omega arith;
    grows = ap (λ l. t.part ++ l) (slice-nil 0 b.payload) ∙ append-nil t.part;
    orbit = w.orbit;
  }

  page_end :
      (b : Page) (t : Split) (os : List ℕ) (o : Outcome ((ℕ × ℕ) × Sending G))
      → IfCut (λ d. At b (end_of os 0 b.header.data_size) d (split_packets rdh_at b os t)) o
      → IfCut (λ d. At b b.header.data_size d (split_from rdh_at b os t)) o
  unfolding split_packets split_from
  page_end b t [] (returned d) h =
      let size = b.header.data_size in
      subst (λ (n : ℕ). At b size d (record t { part = t.part ++ slice 0 n b.payload }))
        (omega arith) (At-extend b 0 size d t (omega arith) h)
  page_end b t [] (thrown d) h = h
  page_end b t (o ∷ os) r h = h

  cut_page-At :
      (b : Page) (last : ℕ) (s : Sending G) (t : Split)
      → HasBytes b
      → Between last s t
      → (Good → AreShort G.page_size (split_page rdh_at b t))
      → IfCut
          (λ d. At b b.header.data_size d (split_page rdh_at b t))
          (cut_packets G block_bytes enable_packed_copy rdh_at b
            (packet_offsets (rdh_at b.payload) b.header.data_size)
            ((0, last), s))
  unfolding split_page
  cut_page-At b last s t h w x =
      let size = b.header.data_size in
      page_end b t (packet_offsets (rdh_at b.payload) size) _ (
        cut_packets-At (suc size) b 0 ((0, last), s) t (omega arith) h (At-start b last s t w)
          (λ y.
            AreShort-split_from G.page_size rdh_at b (packet_offsets (rdh_at b.payload) size) t
              (x y)))

  IfReturned-bind :
      (P : (ℕ × ℕ) × Sending G → Type 0) (Q : Sending G → Type 0)
      (o : Outcome ((ℕ × ℕ) × Sending G)) (k : (ℕ × ℕ) × Sending G → Outcome (Sending G))
      → IfCut P o
      → ((c : (ℕ × ℕ) × Sending G) → P c → IfReturned stf_bytes Q (Good → ⊥) (k c))
      → IfReturned stf_bytes Q (Good → ⊥) (elim o [ thrown d ↦ thrown d.1 | returned d ↦ k d ])
  IfReturned-bind P Q (returned c) k h f = f c h
  IfReturned-bind P Q (thrown c) k h f = h

  cut_pages-IsSent :
      (bs : List Page) (last : ℕ) (s : Sending G) (t : Split)
      → All HasBytes bs
      → Between last s t
      → let u = split_pages rdh_at bs t in
        (Good → AreShort G.page_size u)
        → IfReturned stf_bytes
            (λ v. IsSent stf_bytes v (close_part u.closed u.part) [])
            (Good → ⊥)
            (cut_pages G block_bytes enable_packed_copy rdh_at bs last s)
  unfolding cut_pages split_pages AreShort
  cut_pages-IsSent [] last s t h w x =
      IfReturned-map stf_bytes (λ v. IsSent stf_bytes v (close_part t.closed t.part) [])
        (IsGenerous G → All (IsShort G.page_size) (close_part t.closed t.part) → ⊥) (Good → ⊥)
        (λ z y. z (generous y) (x y)) (pending_frames_collect G block_bytes enable_packed_copy s)
        (pending_frames_collect-IsSent stf_bytes block_bytes enable_packed_copy s t.closed t.part
          w.sent)
  cut_pages-IsSent (b ∷ bs) last s t (h, hs) w x =
      IfReturned-bind (λ d. At b b.header.data_size d (split_page rdh_at b t)) _
        (cut_packets G block_bytes enable_packed_copy rdh_at b
          (packet_offsets (rdh_at b.payload) b.header.data_size) ((0, last), s))
        _
        (cut_page-At b last s t h w
          (λ y. AreShort-split_pages G.page_size rdh_at bs (split_page rdh_at b t) (x y)))
        (λ d v.
          let z = keep_last-Between b d (split_page rdh_at b t) h v in
          cut_pages-IsSent bs (keep_last G b d).0.1 (keep_last G b d).1 (split_page rdh_at b t) hs z
            x)

  pub cut_pages-parts :
      (bs : List Page) (header : List ℕ) (s : Sending G)
      → All HasBytes bs
      → IsSent stf_bytes s (header ∷ []) []
      → (Good → All (IsShort G.page_size) (message_parts rdh_at header bs))
      → IfReturned stf_bytes
          (λ v. IsSent stf_bytes v (message_parts rdh_at header bs) [])
          (Good → ⊥)
          (cut_pages G block_bytes enable_packed_copy rdh_at bs no_hb_id s)
  unfolding message_parts AreShort
  cut_pages-parts bs header s h w x =
      cut_pages-IsSent bs no_hb_id s (record { closed = header ∷ []; part = []; orbit = no_hb_id })
        h (record { sent = w; orbit = refl }) x
