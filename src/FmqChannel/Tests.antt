-- ===== src/FmqChannel/Tests.antt =====
-- src/ConsumerFMQchannel.cxx: two pages of one link, with an HBF that begins in the first one and ends
-- in the second one.
use readout.Fifo.Bounded.{bounded}
use readout.FmqChannel.Pipeline.Rounds.{IsRound}
use readout.FmqChannel.Pipeline.Order.{
  Reach, Reach-order, formatted, held, pushed, start, step, taken_out,
}
use readout.FmqChannel.Pipeline.{
  Item, Pipeline, Timeframe, change_timeframe, format_taken, format_timeframe, last_page,
  new_pipeline, pay, process_for_data_distribution, push_current_timeframe, send_all, sender_turn,
  take_one, w_thread_turn,
}
use readout.FmqChannel.Format.Parts.{
  HasBytes, message_parts, split_from, split_packet, split_packets, split_page, split_pages,
}
use readout.FmqChannel.Checks.Frames.{all_packets, count_incomplete_lem, incomplete_of}
use readout.FmqChannel.Format.Payload.{used_bytes}
use readout.FmqChannel.Format.References.{dd_format_message-references}
use readout.FmqChannel.Format.Result.{
  data_sizes, dd_format_message-ok, dd_format_message-parts, dd_format_message-payload,
}
use readout.FmqChannel.Packets.{offsets_from, offsets_from-more}
use readout.FmqChannel.Bytes.{concat, overwrite, slice}
use readout.FmqChannel.Copies.{add_copy_page, alloc_packed, alloc_page, get_child_block}
use readout.FmqChannel.Checks.{
  check_hbf_packets, check_last_hb, check_pages, count_incomplete, count_packet, enter_hb,
}
use readout.FmqChannel.Frames.Sent.{IsShort, body, close_part}
use readout.FmqChannel.Frames.{
  copy_frames, pending_frames_append, pending_frames_collect, repack, send_copy, send_frame,
  total_length,
}
use readout.Prelude.Int.{pos}
use readout.Counter.{CounterStats, uint64_max}
use readout.Prelude.{
  All, Bool, List, [], ap, arith, false, get_or, length, length-replicate, ltb, map, refl,
  replicate, sym, true, ℕ, ◌&&◌, ◌++◌, ◌+◌, ◌∙◌, ◌∷◌, ◌≡◌,
}
use readout.DataBlock.{default_data_block_header}
use readout.Rdh.{Rdh}
use readout.FmqChannel.{
  NewPage, Page, PagePool, SubTimeframe, page_new, page_null, page_throws, sub_timeframe_size,
}
use readout.FmqChannel.Format.{
  FmqState, Formatted, Settings, cut_packet, cut_packets, cut_pages, dd_format_message,
  fill_stf_header, finish, format_error, format_pages, keep_counters, keep_last, scan_page,
  scan_pages, start_sending,
}

-- A packet of 64 bytes: its orbit, its counter, its stop bit, and what it carries.
abbrev packet_bytes : ℕ → ℕ → ℕ → List ℕ
packet_bytes orbit counter stop = orbit ∷ counter ∷ stop ∷ replicate 61 (orbit + 100)

abbrev test_rdh_at : List ℕ → ℕ → Rdh
test_rdh_at bytes o = record {
  version = 7;
  header_size = 64;
  fee_id = 0;
  system_id = 0;
  link_id = 1;
  memory_size = 64;
  offset_next_packet = 64;
  packet_counter = 0;
  cru_id = 0;
  dpw_id = 0;
  heartbeat_orbit = get_or bytes o 0;
  trigger_orbit = 0;
  trigger_bc = 0;
  trigger_type = 0;
  pages_counter = get_or bytes (o + 1) 0;
  stop_bit = get_or bytes (o + 2) 0;
  detector_field = 0;
}

abbrev test_page : List ℕ → Page
test_page bytes = record {
  header = record default_data_block_header { data_size = 128; timeframe_id = 3; link_id = 1 };
  payload = bytes;
  buffer_size = 128;
}

abbrev test_pages : List Page
test_pages =
    test_page (packet_bytes 5 0 1 ++ packet_bytes 6 0 0)
    ∷ test_page (packet_bytes 6 1 1 ++ packet_bytes 7 0 1)
    ∷ []

-- The last HBF has no stop bit.
abbrev bad_pages : List Page
bad_pages = test_page (packet_bytes 5 0 1 ++ packet_bytes 6 0 0) ∷ []

abbrev new_length : NewPage → ℕ
new_length page_throws = 0
new_length page_null = 0
new_length (page_new bytes) = length bytes

abbrev test_pool : PagePool
test_pool = record {
  State = ℕ;
  page_size = 400;
  get_page = λ n. (page_new (replicate 400 0), n + 1);
  length-get_page = λ q bytes e. sym (ap new_length e) ∙ length-replicate {A = ℕ} 400 0;
}

abbrev test_stf_bytes : SubTimeframe → List ℕ
test_stf_bytes h = replicate 32 (h.timeframe_id)

abbrev test_block_bytes : ℕ → List ℕ
test_block_bytes total = replicate 216 9

abbrev test_settings : Bool → Settings
test_settings packed = record {
  enable_packed_copy = packed;
  check_incomplete = true;
  drop_incomplete = true;
}

abbrev no_stats : CounterStats
no_stats = record {
  value = 0;
  sum = 0;
  n_values = 0;
  min_value = uint64_max;
  max_value = 0;
  histo_nbin = 0;
  histo_vmin = 0;
  histo_vmax = 0;
  histo_counts = [];
  bin = λ v. pos 0;
}

abbrev test_channel : FmqState test_pool
test_channel = record {
  pool = 0;
  pages_used_for_repack = 0;
  n_incomplete_hbf = 0;
  tf_dropped = 0;
  total_push_error = 0;
  dd_hbf_repacked = 0;
  dd_bytes_copied = 0;
  repack_size_stats = no_stats;
}

abbrev sent_message : Bool → List Page → Formatted test_pool
sent_message packed bc =
    dd_format_message test_pool test_block_bytes (test_settings packed) test_rdh_at bc test_channel

-- The header, and an HBF of one packet, one of two packets that were copied, and one of one packet.
sent_lengths :
    (packed : Bool)
    → map length (
        map
          (body test_stf_bytes (sent_message packed test_pages).message.store)
          (sent_message packed test_pages).message.messages_to_send)
      ≡ 32 ∷ 64 ∷ 128 ∷ 64 ∷ []
unfolding dd_format_message format_pages format_error finish start_sending keep_counters cut_pages
    cut_packets cut_packet keep_last scan_pages scan_page fill_stf_header pending_frames_collect
    repack send_copy send_frame pending_frames_append copy_frames total_length alloc_packed
    alloc_page get_child_block add_copy_page overwrite slice body offsets_from count_incomplete
    check_pages check_hbf_packets count_packet enter_hb check_last_hb
sent_lengths true = refl
sent_lengths false = refl

-- A timeframe that is dropped leaves a reference and no message.
dropped_reference : (sent_message true bad_pages).references ≡ 1
unfolding dd_format_message format_pages format_error finish start_sending keep_counters cut_pages
    cut_packets cut_packet keep_last scan_pages scan_page fill_stf_header pending_frames_collect
    repack send_copy send_frame pending_frames_append copy_frames total_length alloc_packed
    alloc_page get_child_block add_copy_page overwrite slice body offsets_from count_incomplete
    check_pages check_hbf_packets count_packet enter_hb check_last_hb
dropped_reference = refl

parts_fit :
    (h : SubTimeframe) → All (IsShort 400) (message_parts test_rdh_at (test_stf_bytes h) test_pages)
unfolding message_parts split_pages split_page split_from split_packets split_packet close_part
    slice offsets_from
parts_fit h = (omega arith, (omega arith, (omega arith, (omega arith, tt))))

no_incomplete : count_incomplete true test_rdh_at test_pages ≡ 0
unfolding count_incomplete check_pages check_hbf_packets count_packet enter_hb check_last_hb
    offsets_from
no_incomplete = refl

whole_pages : All HasBytes test_pages
whole_pages = (omega arith, (omega arith, tt))

stf_size : (h : SubTimeframe) → length (test_stf_bytes h) ≡ 32
stf_size h = length-replicate 32 h.timeframe_id

dd_format_message-ok_example : (sent_message true test_pages).ok ≡ true
dd_format_message-ok_example =
    dd_format_message-ok test_stf_bytes test_block_bytes (test_settings true) test_rdh_at test_pages
      test_channel stf_size whole_pages (λ q. (replicate 400 0, refl)) (omega arith) parts_fit
      (ap (λ n. ltb 0 n && true) no_incomplete)

dd_format_message-parts_example :
    map
      (body test_stf_bytes (sent_message true test_pages).message.store)
      (sent_message true test_pages).message.messages_to_send
    ≡ message_parts test_rdh_at
        (test_stf_bytes (sent_message true test_pages).message.stf_header)
        test_pages
dd_format_message-parts_example =
    dd_format_message-parts test_stf_bytes test_block_bytes (test_settings true) test_rdh_at
      test_pages test_channel stf_size whole_pages dd_format_message-ok_example

dd_format_message-payload_example :
    let m = (sent_message true test_pages).message in
    (concat (map (body test_stf_bytes m.store) m.messages_to_send)
      ≡ test_stf_bytes m.stf_header ++ concat (map used_bytes test_pages))
    × (m.fmq_size ≡ m.total_size)
    × (m.total_size ≡ sub_timeframe_size + data_sizes test_pages)
dd_format_message-payload_example =
    dd_format_message-payload test_stf_bytes test_block_bytes (test_settings true) test_rdh_at
      test_pages test_channel stf_size whole_pages dd_format_message-ok_example

dd_format_message-references_example :
    (sent_message true bad_pages).references + 0
    ≡ length (sent_message true bad_pages).message.messages_to_send
      + (sent_message true bad_pages).channel.tf_dropped
dd_format_message-references_example =
    dd_format_message-references test_block_bytes (test_settings true) test_rdh_at bad_pages
      test_channel

count_incomplete_example :
    count_incomplete true test_rdh_at bad_pages ≡ incomplete_of (all_packets test_rdh_at bad_pages)
count_incomplete_example = count_incomplete_lem test_rdh_at bad_pages

offsets_from_example :
    offsets_from 200 (test_rdh_at []) 128 0 ≡ offsets_from 129 (test_rdh_at []) 128 0
offsets_from_example = offsets_from-more 129 200 (test_rdh_at []) 128 0 (omega arith) (omega arith)

-- Two threads: two timeframes come in, the first one is formatted by the first thread and taken.
abbrev next_pages : List Page
next_pages =
    record (test_page (packet_bytes 7 0 1)) {
      header = record default_data_block_header {
        data_size = 64;
        timeframe_id = 4;
        flag_end_of_timeframe = 1;
      };
    }
    ∷ []

abbrev TestPipeline : Type 0
TestPipeline = Pipeline (bounded Timeframe) (bounded Item) test_pool

abbrev at_start : TestPipeline
at_start = new_pipeline (bounded Timeframe) (bounded Item) test_pool 3 test_channel

abbrev one_in : TestPipeline
one_in =
    (process_for_data_distribution (bounded Timeframe) (bounded Item) test_pool 2 test_pages
      at_start).1

abbrev two_in : TestPipeline
two_in =
    (process_for_data_distribution (bounded Timeframe) (bounded Item) test_pool 2 next_pages
      one_in).1

abbrev worked : TestPipeline
worked =
    w_thread_turn (bounded Timeframe) (bounded Item) test_pool 2 test_block_bytes
      (test_settings true) test_rdh_at 0 two_in

abbrev at_end : TestPipeline
at_end = sender_turn (bounded Timeframe) (bounded Item) test_pool 2 (λ m. true) worked

abbrev TestReach : TestPipeline → TestPipeline → Type 0
TestReach =
    Reach (bounded Timeframe) (bounded Item) test_pool 2 (λ m. true) test_block_bytes
      (test_settings true) test_rdh_at

at_end-reached : TestReach at_start at_end
at_end-reached =
    step
      (step (step (step start (pushed test_pages at_start)) (pushed next_pages one_in))
        (formatted 0 two_in))
      (taken_out worked)

at_end_runs : (at_end.handled ≡ (test_pages ∷ []) ∷ []) × (length at_end.dispatched ≡ 2)
unfolding new_pipeline process_for_data_distribution change_timeframe push_current_timeframe
    last_page w_thread_turn take_one pay format_taken format_timeframe sender_turn send_all
at_end_runs = (refl, refl)

Reach-order_example :
    (waiting : List Timeframe) × (at_end.handled ++ waiting ≡ at_end.dispatched)
    × IsRound 2 at_end.th_ix
        (λ j.
          held
            (bounded Timeframe)
            (bounded Item)
            test_pool
            2
            (λ m. true)
            test_block_bytes
            (test_settings true)
            test_rdh_at
            (at_end.w_threads j))
        waiting
        at_end.w_thread_ix_write
Reach-order_example =
    Reach-order (bounded Timeframe) (bounded Item) test_pool 2 (λ m. true) test_block_bytes
      (test_settings true) test_rdh_at 3 test_channel at_end at_end-reached
