-- ===== src/FmqChannel/Format.antt =====
-- src/ConsumerFMQchannel.cxx, DDformatMessage: its second pass, which cuts the pages where the orbit
-- changes, and the function as a whole.
pub mod Parts
pub mod Result
pub mod Payload
pub mod References
use readout.FmqChannel.Checks.{count_incomplete, no_hb_id}
use readout.DataBlock.{DataBlockHeader}
use readout.Counter.{CounterStats}
use readout.Prelude.{
  Bool, List, [], false, if◌then◌else◌, length, ltb, none, suc, to_u32, true, ℕ, ◌%◌, ◌&&◌, ◌+◌,
  ◌-◌, ◌==◌, ◌∷◌,
}
use readout.Rdh.{Rdh}
use readout.FmqChannel.{
  Page, PagePool, SubTimeframe, default_sub_timeframe, page_new, page_null, page_throws,
  sub_timeframe_size,
}
use readout.FmqChannel.Packets.{packet_offsets}
use readout.FmqChannel.Frames.{
  Message, Outcome, Sending, pending_frames_append, pending_frames_collect, returned, stf_message,
  thrown,
}

-- `enablePackedCopy`, `checkIncomplete` and `dropIncomplete`.
pub record Settings : Type 0 where
  pub enable_packed_copy : Bool
  pub check_incomplete : Bool
  pub drop_incomplete : Bool

-- The members of the channel that the function changes, with its pool.
pub record FmqState (G : PagePool) : Type 0 where
  pub pool : G.State
  pub pages_used_for_repack : ℕ
  pub n_incomplete_hbf : ℕ
  pub tf_dropped : ℕ
  pub total_push_error : ℕ
  pub dd_hbf_repacked : ℕ
  pub dd_bytes_copied : ℕ
  pub repack_size_stats : CounterStats

-- `DDMessage`, with what the pages of the pool contain, to which its parts may point.
pub record DdMessage : Type 0 where
  pub messages_to_send : List Message
  pub stf_header : SubTimeframe
  pub data_size : ℕ
  pub total_size : ℕ
  pub memory_size : ℕ
  pub fmq_size : ℕ
  pub store : ℕ → List ℕ

-- `references` counts, as in `Sending`, what the call created and did not delete.
pub record Formatted (G : PagePool) : Type 0 where
  pub ok : Bool
  pub message : DdMessage
  pub references : ℕ
  pub channel : FmqState G

abbrev pub empty_message : DdMessage
empty_message = record {
  messages_to_send = [];
  stf_header = default_sub_timeframe;
  data_size = 0;
  total_size = 0;
  memory_size = 0;
  fmq_size = 0;
  store = λ k. [];
}

-- The STF header, from the first page; the flag is set by any page.
unfoldable pub fill_stf_header : DataBlockHeader → SubTimeframe → SubTimeframe
fill_stf_header h stf = record stf {
  timeframe_id = to_u32 h.timeframe_id;
  run_number = to_u32 h.run_number;
  system_id = h.system_id;
  fee_id = h.fee_id;
  equipment_id = h.equipment_id;
  link_id = h.link_id;
  timeframe_orbit_first = h.timeframe_orbit_first;
  timeframe_orbit_last = h.timeframe_orbit_last;
  is_rdh_format = h.is_rdh_format % 2;
}

unfoldable pub scan_page : Bool → Page → DdMessage → DdMessage
scan_page is_first b m =
    let h = b.header in
    let flagged =
      if h.flag_end_of_timeframe == 0
      then m.stf_header
      else record m.stf_header { last_tf_message = 1 } in
    record m {
      stf_header = if is_first then fill_stf_header h flagged else flagged;
      data_size = m.data_size + h.data_size;
      memory_size = m.memory_size + b.buffer_size;
    }

unfoldable pub scan_pages : Bool → List Page → DdMessage → DdMessage
scan_pages is_first [] m = m
scan_pages is_first (b ∷ bs) m = scan_pages false bs (scan_page is_first b m)

abbrev pub map_outcome : {A B : Type 0} → (A → B) → Outcome A → Outcome B
map_outcome f (returned a) = returned (f a)
map_outcome f (thrown a) = thrown (f a)

module _ (G : PagePool) where
  -- What is left of the page stays pending.
  unfoldable pub keep_last : Page → (ℕ × ℕ) × Sending G → (ℕ × ℕ) × Sending G
  keep_last b ((hb_start, last_hb_id), s) =
      if ltb hb_start b.header.data_size
      then (
        (hb_start, last_hb_id),
        pending_frames_append G hb_start (b.header.data_size - hb_start) last_hb_id b s,
      )
      else ((hb_start, last_hb_id), s)

module _ (G : PagePool) (block_bytes : ℕ → List ℕ) (enable_packed_copy : Bool)
    (rdh_at : List ℕ → ℕ → Rdh) where
  -- `HBstart` and `lastHBid`, with the rest.
  abbrev pub Cut : Type 0
  Cut = (ℕ × ℕ) × Sending G

  -- The body of the loop over the packets: a new orbit ends the frame.
  unfoldable pub cut_packet : Page → ℕ → Cut → Outcome Cut
  cut_packet b offset ((hb_start, last_hb_id), s) =
      let orbit = (rdh_at b.payload offset).heartbeat_orbit in
      let hb_length = offset - hb_start in
      let s' =
        if hb_length == 0 then s else pending_frames_append G hb_start hb_length last_hb_id b s in
      let sent =
        map_outcome (λ (t : Sending G). ((offset, orbit), t))
          (pending_frames_collect G block_bytes enable_packed_copy s') in
      if orbit == last_hb_id then returned ((hb_start, last_hb_id), s) else sent

  unfoldable pub cut_packets : Page → List ℕ → Cut → Outcome Cut
  cut_packets b [] c = returned c
  cut_packets b (o ∷ os) c = elim (cut_packet b o c) [
    | thrown d ↦ thrown d
    | returned d ↦ cut_packets b os d
  ]

  unfoldable pub cut_pages : List Page → ℕ → Sending G → Outcome (Sending G)
  cut_pages [] last_hb_id s = pending_frames_collect G block_bytes enable_packed_copy s
  cut_pages (b ∷ bs) last_hb_id s =
      elim (cut_packets b (packet_offsets (rdh_at b.payload) b.header.data_size)
        ((0, last_hb_id), s)) [
          | thrown d ↦ thrown d.1
          | returned d ↦ let d' = keep_last G b d in cut_pages bs d'.0.1 d'.1
        ]

module _ (G : PagePool) where
  unfoldable pub start_sending : DdMessage → FmqState G → Sending G
  start_sending m ch = record {
    messages = stf_message m.stf_header ∷ [];
    pending = [];
    copies = record {
      store = λ k. [];
      n_pages = 0;
      buffer = none;
      buffer_used = 0;
      pages_used = ch.pages_used_for_repack;
      pool = ch.pool;
    };
    references = 1;
    fmq_size = sub_timeframe_size;
    memory_size = m.memory_size;
    hbf_repacked = ch.dd_hbf_repacked;
    bytes_copied = ch.dd_bytes_copied;
    repack_size_stats = ch.repack_size_stats;
  }

  unfoldable pub keep_counters : Sending G → FmqState G → FmqState G
  keep_counters s ch = record ch {
    pool = s.copies.pool;
    pages_used_for_repack = s.copies.pages_used;
    dd_hbf_repacked = s.hbf_repacked;
    dd_bytes_copied = s.bytes_copied;
    repack_size_stats = s.repack_size_stats;
  }

  -- The end of the second pass. After an exception the pending frames and the messages are deleted,
  -- and with each of them its reference.
  unfoldable pub finish : DdMessage → FmqState G → Outcome (Sending G) → Formatted G
  finish m ch (returned s) = record {
    ok = true;
    message = record m {
      messages_to_send = s.messages;
      memory_size = s.memory_size;
      fmq_size = s.fmq_size;
      store = s.copies.store;
    };
    references = s.references;
    channel = keep_counters s ch;
  }
  finish m ch (thrown s) = record {
    ok = false;
    message = record m {
      messages_to_send = [];
      memory_size = s.memory_size;
      fmq_size = s.fmq_size;
      store = s.copies.store;
    };
    references = s.references - length s.pending - length s.messages;
    channel = record (keep_counters s ch) { total_push_error = suc ch.total_push_error };
  }

  unfoldable pub format_error : FmqState G → Formatted G
  format_error ch = record {
    ok = false;
    message = empty_message;
    references = 0;
    channel = record ch { total_push_error = suc ch.total_push_error };
  }

module _ (G : PagePool) (block_bytes : ℕ → List ℕ) (g : Settings) (rdh_at : List ℕ → ℕ → Rdh) where
  -- From the header page on: the checks, which may drop the timeframe, and the second pass.
  unfoldable pub format_pages : List Page → FmqState G → Formatted G
  format_pages bc ch =
      let scanned = scan_pages true bc (record empty_message { memory_size = G.page_size }) in
      let m = record scanned { total_size = sub_timeframe_size + scanned.data_size } in
      let incomplete = count_incomplete g.check_incomplete rdh_at bc in
      let ch' = record ch { n_incomplete_hbf = ch.n_incomplete_hbf + incomplete } in
      if ltb 0 incomplete && g.drop_incomplete
      then record {
        ok = false;
        message = m;
        references = 1;
        channel = record ch' { tf_dropped = suc ch'.tf_dropped };
      }
      else finish G m ch'
          (cut_pages G block_bytes g.enable_packed_copy rdh_at bc no_hb_id (start_sending G m ch'))

  unfoldable pub dd_format_message : List Page → FmqState G → Formatted G
  dd_format_message bc ch =
      let q = (G.get_page ch.pool).1 in
      let got : Formatted G = elim (G.get_page ch.pool).0 [
        | page_throws ↦ format_error G (record ch { pool = q })
        | page_null ↦ format_error G (record ch { pool = q })
        | page_new bytes ↦ format_pages bc (record ch { pool = q })
      ] in
      if ltb G.page_size sub_timeframe_size then format_error G ch else got
