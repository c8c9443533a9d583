-- ===== src/FmqChannel/Format/Result.antt =====
-- src/ConsumerFMQchannel.cxx, DDformatMessage: what a call that succeeds hands over.
use mathlib.Core.Bool.{false≢true}
use mathlib.Core.Option.{none-ne-some}
use readout.FmqChannel.Frames.Sent.{IfReturned, InPlace, IsSent, IsShort, body}
use readout.FmqChannel.Copies.Allowed.{IsGenerous, IsNew}
use readout.FmqChannel.Bytes.{concat, length-slice}
use readout.FmqChannel.Format.Payload.{concat-message_parts, used_bytes}
use readout.FmqChannel.Copies.Room.{NewPage-intro}
use readout.FmqChannel.Checks.{count_incomplete}
use readout.Prelude.{
  All, Bool, List, [], ap, append-nil, arith, false, if-intro, length, length-append, ltb, ltb→lt,
  map, refl, subst, sym, true, ℕ, ◌&&◌, ◌++◌, ◌+◌, ◌∙◌, ◌∷◌, ◌≡◌, ◌≤◌,
}
use readout.Rdh.{Rdh}
use readout.FmqChannel.{Page, PagePool, SubTimeframe, sub_timeframe_size}
use readout.FmqChannel.Frames.{Outcome, Sending, returned, thrown}
use readout.FmqChannel.Format.{
  DdMessage, FmqState, Formatted, Settings, dd_format_message, empty_message, finish, format_error,
  format_pages, scan_page, scan_pages, start_sending,
}
use readout.FmqChannel.Format.Parts.{HasBytes, cut_pages-parts, message_parts}

pub data_sizes : List Page → ℕ
data_sizes [] = 0
data_sizes (b ∷ bs) = b.header.data_size + data_sizes bs

scan_pages-data_size :
    (is_first : Bool) (bc : List Page) (m : DdMessage)
    → (scan_pages is_first bc m).data_size ≡ m.data_size + data_sizes bc
unfolding scan_pages scan_page data_sizes
scan_pages-data_size is_first [] m = omega arith
scan_pages-data_size is_first (b ∷ bs) m =
    omega (arith, scan_pages-data_size false bs (scan_page is_first b m))

length-used_bytes :
    (bc : List Page) → All HasBytes bc → length (concat (map used_bytes bc)) ≡ data_sizes bc
unfolding data_sizes used_bytes
length-used_bytes [] h = refl
length-used_bytes (b ∷ bs) (h, hs) = omega (
  arith,
  length-append (used_bytes b) (concat (map used_bytes bs)),
  length-used_bytes bs hs,
  length-slice 0 b.header.data_size b.payload (omega (arith, h)),
)

module _ {G : PagePool} (stf_bytes : SubTimeframe → List ℕ) (block_bytes : ℕ → List ℕ)
    (g : Settings) (rdh_at : List ℕ → ℕ → Rdh) where
  -- The parts in memory are those that the pages tell, and their sizes are counted.
  record IsMessage (bc : List Page) (r : Formatted G) : Type 0 where
    parts :
        map (body stf_bytes r.message.store) r.message.messages_to_send
        ≡ message_parts rdh_at (stf_bytes r.message.stf_header) bc
    size :
        r.message.fmq_size
        ≡ length (concat (message_parts rdh_at (stf_bytes r.message.stf_header) bc))
    total : r.message.total_size ≡ sub_timeframe_size + data_sizes bc

  abbrev WhenOk : List Page → Formatted G → Type 0
  WhenOk bc r = r.ok ≡ true → IsMessage bc r

  finish-WhenOk :
      (Q : Type 0) (bc : List Page) (m : DdMessage) (ch : FmqState G) (o : Outcome (Sending G))
      → IfReturned stf_bytes
          (λ s. IsSent stf_bytes s (message_parts rdh_at (stf_bytes m.stf_header) bc) [])
          Q
          o
      → m.total_size ≡ sub_timeframe_size + data_sizes bc
      → WhenOk bc (finish G m ch o)
  unfolding finish
  finish-WhenOk Q bc m ch (returned s) h t e = record {
    parts = h.sent;
    size = h.counted;
    total = t;
  }
  finish-WhenOk Q bc m ch (thrown s) h t e = absurd (false≢true e)

  start-IsSent :
      (m : DdMessage) (ch : FmqState G)
      → ((h : SubTimeframe) → length (stf_bytes h) ≡ sub_timeframe_size)
      → IsSent stf_bytes (start_sending G m ch) (stf_bytes m.stf_header ∷ []) []
  unfolding start_sending body InPlace
  start-IsSent m ch k = record {
    sent = refl;
    waits = refl;
    whole = tt;
    in_place = (tt, tt);
    has_buffer = λ j f. absurd (none-ne-some j f);
    counted = omega (arith, k m.stf_header, ap length (append-nil (stf_bytes m.stf_header)));
  }

  format_pages-WhenOk :
      (bc : List Page) (ch : FmqState G)
      → ((h : SubTimeframe) → length (stf_bytes h) ≡ sub_timeframe_size)
      → All HasBytes bc
      → WhenOk bc (format_pages G block_bytes g rdh_at bc ch)
  unfolding format_pages
  format_pages-WhenOk bc ch k h =
      let start = record empty_message { memory_size = G.page_size } in
      let m = scan_pages true bc start in
      let incomplete = count_incomplete g.check_incomplete rdh_at bc in
      if-intro (WhenOk bc) (ltb 0 incomplete && g.drop_incomplete) (λ e f. absurd (false≢true f))
        (λ e.
          finish-WhenOk _ bc _ _ _
            (cut_pages-parts stf_bytes block_bytes g.enable_packed_copy rdh_at ⊥ (λ x. absurd x) bc
              (stf_bytes m.stf_header) _ h (start-IsSent _ _ k) (λ x. absurd x))
            (omega (arith, scan_pages-data_size true bc start)))

  dd_format_message-WhenOk :
      (bc : List Page) (ch : FmqState G)
      → ((h : SubTimeframe) → length (stf_bytes h) ≡ sub_timeframe_size)
      → All HasBytes bc
      → WhenOk bc (dd_format_message G block_bytes g rdh_at bc ch)
  unfolding dd_format_message format_error
  dd_format_message-WhenOk bc ch k h =
      if-intro (WhenOk bc) (ltb G.page_size sub_timeframe_size) (λ e f. absurd (false≢true f))
        (λ e.
          NewPage-intro (WhenOk bc) (G.get_page ch.pool).0 (λ e' f. absurd (false≢true f))
            (λ e' f. absurd (false≢true f))
            (λ bytes e'. format_pages-WhenOk bc (record ch { pool = (G.get_page ch.pool).1 }) k h))

  -- When the call succeeds, and the pages have the bytes that their headers tell of, the parts of the
  -- message are in memory the STF header, and the payload of the pages in order, cut before each packet
  -- whose orbit is not that of the packet before.
  pub dd_format_message-parts :
      (bc : List Page) (ch : FmqState G)
      → ((h : SubTimeframe) → length (stf_bytes h) ≡ sub_timeframe_size)
      → All HasBytes bc
      → (dd_format_message G block_bytes g rdh_at bc ch).ok ≡ true
      → let m = (dd_format_message G block_bytes g rdh_at bc ch).message in
        map (body stf_bytes m.store) m.messages_to_send
        ≡ message_parts rdh_at (stf_bytes m.stf_header) bc
  dd_format_message-parts bc ch k h ok = (dd_format_message-WhenOk bc ch k h ok).parts

  -- Then the parts are, one after the other, the STF header and the payload of the pages, of which no
  -- byte is lost or repeated; and the sizes that are counted for the transport and for the timeframe
  -- agree.
  pub dd_format_message-payload :
      (bc : List Page) (ch : FmqState G)
      → ((h : SubTimeframe) → length (stf_bytes h) ≡ sub_timeframe_size)
      → All HasBytes bc
      → (dd_format_message G block_bytes g rdh_at bc ch).ok ≡ true
      → let m = (dd_format_message G block_bytes g rdh_at bc ch).message in
        (concat (map (body stf_bytes m.store) m.messages_to_send)
          ≡ stf_bytes m.stf_header ++ concat (map used_bytes bc))
        × (m.fmq_size ≡ m.total_size)
        × (m.total_size ≡ sub_timeframe_size + data_sizes bc)
  dd_format_message-payload bc ch k h ok =
      let w = dd_format_message-WhenOk bc ch k h ok in
      let m = (dd_format_message G block_bytes g rdh_at bc ch).message in
      let e = concat-message_parts rdh_at (stf_bytes m.stf_header) bc in
      (
        ap concat w.parts ∙ e,
        omega (
          arith,
          w.size,
          ap length e,
          k m.stf_header,
          w.total,
          length-append (stf_bytes m.stf_header) (concat (map used_bytes bc)),
          length-used_bytes bc h,
        ),
        w.total,
      )

  finish-ok :
      (P : Sending G → Type 0) (Q : Type 0) (m : DdMessage) (ch : FmqState G)
      (o : Outcome (Sending G))
      → IfReturned stf_bytes P (Q → ⊥) o
      → Q
      → (finish G m ch o).ok ≡ true
  unfolding finish
  finish-ok P Q m ch (returned s) h q = refl
  finish-ok P Q m ch (thrown s) h q = absurd (h q)

  format_pages-ok :
      (bc : List Page) (ch : FmqState G)
      → ((h : SubTimeframe) → length (stf_bytes h) ≡ sub_timeframe_size)
      → All HasBytes bc
      → IsGenerous G
      → ((h : SubTimeframe) → All (IsShort G.page_size) (message_parts rdh_at (stf_bytes h) bc))
      → (ltb 0 (count_incomplete g.check_incomplete rdh_at bc) && g.drop_incomplete) ≡ false
      → (format_pages G block_bytes g rdh_at bc ch).ok ≡ true
  unfolding format_pages
  format_pages-ok bc ch k h gen short d =
      let start = record empty_message { memory_size = G.page_size } in
      let m = scan_pages true bc start in
      let incomplete = count_incomplete g.check_incomplete rdh_at bc in
      if-intro (λ (r : Formatted G). r.ok ≡ true) (ltb 0 incomplete && g.drop_incomplete)
        (λ e. absurd (false≢true (sym d ∙ e)))
        (λ e.
          finish-ok _ (IsGenerous G) _ _ _
            (cut_pages-parts stf_bytes block_bytes g.enable_packed_copy rdh_at (IsGenerous G)
              (λ x. x) bc (stf_bytes m.stf_header) _ h (start-IsSent _ _ k)
              (λ x. short m.stf_header))
            gen)

  -- The call succeeds when the pages have the bytes that their headers tell of, the pool always has a
  -- page, each part of the message fits a page of the pool with a DataBlock, and no HBF is incomplete
  -- or such a timeframe is not dropped.
  pub dd_format_message-ok :
      (bc : List Page) (ch : FmqState G)
      → ((h : SubTimeframe) → length (stf_bytes h) ≡ sub_timeframe_size)
      → All HasBytes bc
      → IsGenerous G
      → sub_timeframe_size ≤ G.page_size
      → ((h : SubTimeframe) → All (IsShort G.page_size) (message_parts rdh_at (stf_bytes h) bc))
      → (ltb 0 (count_incomplete g.check_incomplete rdh_at bc) && g.drop_incomplete) ≡ false
      → (dd_format_message G block_bytes g rdh_at bc ch).ok ≡ true
  unfolding dd_format_message format_error
  dd_format_message-ok bc ch k h gen size short d =
      let Ok = λ (r : Formatted G). r.ok ≡ true in
      let q = (G.get_page ch.pool).1 in
      let (bytes, e) = gen ch.pool in
      if-intro Ok (ltb G.page_size sub_timeframe_size)
        (λ f. absurd (omega (arith, ltb→lt _ _ f, size)))
        (λ f.
          NewPage-intro Ok (G.get_page ch.pool).0 (λ f'. absurd (subst IsNew (sym e ∙ f') tt))
            (λ f'. absurd (subst IsNew (sym e ∙ f') tt))
            (λ bytes' f'. format_pages-ok bc (record ch { pool = q }) k h gen short d))
