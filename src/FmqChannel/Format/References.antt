-- ===== src/FmqChannel/Format/References.antt =====
-- src/ConsumerFMQchannel.cxx, DDformatMessage: the references to pages that it creates, and who
-- deletes them.
use readout.FmqChannel.Checks.{count_incomplete, no_hb_id}
use readout.FmqChannel.Copies.Room.{NewPage-intro}
use readout.Prelude.{
  Bool, List, [], ap, arith, false, if-intro, length, ltb, refl, true, ℕ, ◌&&◌, ◌+◌, ◌-◌, ◌==◌, ◌∷◌,
  ◌≡◌,
}
use readout.Rdh.{Rdh}
use readout.FmqChannel.{Page, PagePool, sub_timeframe_size}
use readout.FmqChannel.Packets.{packet_offsets}
use readout.FmqChannel.Frames.{Outcome, Sending, returned, thrown}
use readout.FmqChannel.Frames.Owned.{
  IsOwned, OnBoth, pending_frames_append-IsOwned, pending_frames_collect-IsOwned,
}
use readout.FmqChannel.Format.{
  DdMessage, FmqState, Formatted, Settings, cut_packet, cut_packets, cut_pages, dd_format_message,
  empty_message, finish, format_error, format_pages, keep_counters, keep_last, map_outcome,
  scan_page, scan_pages, start_sending,
}

module _ {G : PagePool} (block_bytes : ℕ → List ℕ) (enable_packed_copy : Bool)
    (rdh_at : List ℕ → ℕ → Rdh) where
  abbrev OnCut : Outcome ((ℕ × ℕ) × Sending G) → Type 0
  OnCut (returned c) = IsOwned c.1
  OnCut (thrown c) = IsOwned c.1

  OnCut-map :
      (r : ℕ × ℕ) (o : Outcome (Sending G))
      → OnBoth o
      → OnCut (map_outcome (λ (s : Sending G). (r, s)) o)
  OnCut-map r (returned s) h = h.0
  OnCut-map r (thrown s) h = h

  OnCut-bind :
      (o : Outcome ((ℕ × ℕ) × Sending G)) (k : (ℕ × ℕ) × Sending G → Outcome ((ℕ × ℕ) × Sending G))
      → OnCut o
      → ((d : (ℕ × ℕ) × Sending G) → IsOwned d.1 → OnCut (k d))
      → OnCut (elim o [ thrown d ↦ thrown d | returned d ↦ k d ])
  OnCut-bind (returned d) k h f = f d h
  OnCut-bind (thrown d) k h f = h

  OnBoth-bind :
      (o : Outcome ((ℕ × ℕ) × Sending G)) (k : (ℕ × ℕ) × Sending G → Outcome (Sending G))
      → OnCut o
      → ((d : (ℕ × ℕ) × Sending G) → IsOwned d.1 → OnBoth (k d))
      → OnBoth (elim o [ thrown d ↦ thrown d.1 | returned d ↦ k d ])
  OnBoth-bind (returned d) k h f = f d h
  OnBoth-bind (thrown d) k h f = h

  cut_packet-OnCut :
      (b : Page) (offset : ℕ) (c : (ℕ × ℕ) × Sending G)
      → IsOwned c.1
      → OnCut (cut_packet G block_bytes enable_packed_copy rdh_at b offset c)
  unfolding cut_packet
  cut_packet-OnCut b offset ((start, last), s) h =
      if-intro OnCut ((rdh_at b.payload offset).heartbeat_orbit == last) (λ e. h)
        (λ e. OnCut-map _ _ (
          pending_frames_collect-IsOwned block_bytes enable_packed_copy _ (
            if-intro (λ (t : Sending G). IsOwned t) (offset - start == 0) (λ f. h)
              (λ f. pending_frames_append-IsOwned start (offset - start) last b s h))))

  cut_packets-OnCut :
      (b : Page) (os : List ℕ) (c : (ℕ × ℕ) × Sending G)
      → IsOwned c.1
      → OnCut (cut_packets G block_bytes enable_packed_copy rdh_at b os c)
  unfolding cut_packets
  cut_packets-OnCut b [] c h = h
  cut_packets-OnCut b (o ∷ os) c h =
      OnCut-bind (cut_packet G block_bytes enable_packed_copy rdh_at b o c) _
        (cut_packet-OnCut b o c h) (λ d k. cut_packets-OnCut b os d k)

  keep_last-IsOwned :
      (b : Page) (c : (ℕ × ℕ) × Sending G) → IsOwned c.1 → IsOwned (keep_last G b c).1
  unfolding keep_last
  keep_last-IsOwned b ((start, last), s) h =
      if-intro (λ (c : (ℕ × ℕ) × Sending G). IsOwned c.1) (ltb start b.header.data_size)
        (λ e. pending_frames_append-IsOwned start (b.header.data_size - start) last b s h) (λ e. h)

  cut_pages-IsOwned :
      (bs : List Page) (last : ℕ) (s : Sending G)
      → IsOwned s
      → OnBoth (cut_pages G block_bytes enable_packed_copy rdh_at bs last s)
  unfolding cut_pages
  cut_pages-IsOwned [] last s h = pending_frames_collect-IsOwned block_bytes enable_packed_copy s h
  cut_pages-IsOwned (b ∷ bs) last s h =
      let os = packet_offsets (rdh_at b.payload) b.header.data_size in
      OnBoth-bind (cut_packets G block_bytes enable_packed_copy rdh_at b os ((0, last), s)) _
        (cut_packets-OnCut b os ((0, last), s) h)
        (λ d k.
          cut_pages-IsOwned bs (keep_last G b d).0.1 (keep_last G b d).1 (keep_last-IsOwned b d k))

scan_pages-messages :
    (is_first : Bool) (bc : List Page) (m : DdMessage)
    → (scan_pages is_first bc m).messages_to_send ≡ m.messages_to_send
unfolding scan_pages scan_page
scan_pages-messages is_first [] m = refl
scan_pages-messages is_first (b ∷ bs) m = scan_pages-messages false bs (scan_page is_first b m)

module _ {G : PagePool} (block_bytes : ℕ → List ℕ) (g : Settings) (rdh_at : List ℕ → ℕ → Rdh) where
  -- The references that are left are those of the messages, and one for a timeframe that is dropped.
  Balanced : FmqState G → Formatted G → Type 0
  Balanced ch r =
      r.references + ch.tf_dropped ≡ length r.message.messages_to_send + r.channel.tf_dropped

  finish-Balanced :
      (m : DdMessage) (ch ch' : FmqState G) (o : Outcome (Sending G))
      → ch.tf_dropped ≡ ch'.tf_dropped
      → OnBoth o
      → Balanced ch (finish G m ch' o)
  unfolding finish keep_counters Balanced
  finish-Balanced m ch ch' (returned s) e (h, p) =
      let n : length s.pending ≡ 0 = ap length p in omega (arith, e, h, n)
  finish-Balanced m ch ch' (thrown s) e h = omega (arith, e, h)

  format_pages-Balanced :
      (bc : List Page) (ch ch0 : FmqState G)
      → ch0.tf_dropped ≡ ch.tf_dropped
      → Balanced ch0 (format_pages G block_bytes g rdh_at bc ch)
  unfolding format_pages Balanced start_sending
  format_pages-Balanced bc ch ch0 h =
      let start = record empty_message { memory_size = G.page_size } in
      let incomplete = count_incomplete g.check_incomplete rdh_at bc in
      if-intro (Balanced ch0) (ltb 0 incomplete && g.drop_incomplete)
        (λ e. omega (arith, h, ap length (scan_pages-messages true bc start)))
        (λ e.
          finish-Balanced _ ch0 _ _ h
            (cut_pages-IsOwned block_bytes g.enable_packed_copy rdh_at bc no_hb_id _ (omega arith)))

  -- Every reference to a page that a call creates is deleted or belongs to a message that the call
  -- hands over, except that each timeframe it drops as incomplete leaves one behind.
  pub dd_format_message-references :
      (bc : List Page) (ch : FmqState G)
      → let r = dd_format_message G block_bytes g rdh_at bc ch in
        r.references + ch.tf_dropped ≡ length r.message.messages_to_send + r.channel.tf_dropped
  unfolding dd_format_message format_error Balanced
  dd_format_message-references bc ch =
      if-intro (Balanced ch) (ltb G.page_size sub_timeframe_size) (λ e. refl)
        (λ e.
          NewPage-intro (Balanced ch) (G.get_page ch.pool).0 (λ f. refl) (λ f. refl)
            (λ bytes f.
              format_pages-Balanced bc (record ch { pool = (G.get_page ch.pool).1 }) ch refl))
