-- ===== src/FileRecorder/Push.antt =====
-- pushData: a block is written to its file, whole, or packet by packet without the empty HBframes.
-- The exceptions of the code are `false`. A failed allocation is left out.
pub mod Filter
pub mod Ends
pub mod Steps
pub mod Page
pub mod Limits
pub mod Invariant
pub mod Outcome
use Prim.Native.Nat.{bit_and}
use readout.FileRecorder.Name.{SourceId, undefined_source_id}
use readout.Aggregator.Slicer.{Block}
use readout.DataBlock.{undefined_equipment_id, undefined_link_id}
use readout.Prelude.Int.{negsuc, pos, ℤ}
use readout.Prelude.{
  Bool, Option, false, if◌then◌else◌, leb, ltb, none, not, some, suc, true, zero, ℕ, ◌&&◌, ◌*◌, ◌+◌,
  ◌==◌,
}
use readout.Rdh.{Rdh, validate_rdh}
use readout.FileRecorder.File.{Chunk}
use readout.FileRecorder.Files.{
  Os, Packet, Recorder, Settings, create_file, get_file, no_packet, write_to_file,
}

-- What the loop over the packets keeps of the recorder: the packet put aside for the link, and the
-- counters.
pub record Scan : Type 0 where
  pub previous : Packet
  pub invalid_rdh : ℕ
  pub empty_packets_dropped : ℕ
  pub packets_recorded : ℕ

-- The files as the loop uses them: is there one, and a write, which fails with an exception.
pub record Sink (S : Type 0) : Type 0 where
  pub has_file : S → Bool
  pub put : Chunk → ℕ → S → Bool × S

-- A packet with a header only and no trigger of the mask.
abbrev pub is_empty_packet : ℕ → Rdh → Bool
is_empty_packet mask h = h.header_size == h.memory_size && bit_and h.trigger_type mask == 0

abbrev pub is_empty_hb_stop : ℕ → Rdh → Bool
is_empty_hb_stop mask h = not (h.stop_bit == 0) && is_empty_packet mask h

abbrev pub is_empty_hb_start : ℕ → Rdh → Bool
is_empty_hb_start mask h = h.pages_counter == 0 && is_empty_packet mask h

-- The packet kept aside; at the end of a page it is copied.
abbrev pub keep_packet : (address next : ℕ) (tf : ℕ) (at_end : Bool) → Packet
keep_packet address next tf at_end = record {
  is_empty_hb_start = true;
  address = address;
  size = next;
  is_copy = at_end;
  timeframe_id = tf;
}

module _ {S : Type 0} (sink : Sink S) (mask : ℕ) (rdh_at : ℕ → Rdh) (base block_size tf : ℕ) where
  -- The packet that was kept is written, if there is one.
  abbrev pub write_previous : Scan → S → Bool × Scan × S
  write_previous k s =
      if k.previous.address == 0
      then (true, k, s)
      else let (ok, s') =
          sink.put (record { address = k.previous.address; size = k.previous.size })
            k.previous.timeframe_id s in
        if ok
        then (
          true,
          record k { packets_recorded = suc k.packets_recorded; previous = no_packet },
          s',
        )
        else (false, k, s')

  -- A packet that is no dropped HBstop: kept aside, or written.
  abbrev pub write_packet : ℕ → Scan → S → Bool × Scan × S
  write_packet offset k s =
      let h = rdh_at (base + offset) in
      let next = h.offset_next_packet in
      if is_empty_hb_start mask h
      then (
        true,
        record k {
          previous = keep_packet (base + offset) next tf (leb block_size (offset + next));
        },
        s,
      )
      else let (ok, s') = sink.put (record { address = base + offset; size = next }) tf s in
        if ok
        then (true, record k { packets_recorded = suc k.packets_recorded }, s')
        else (false, k, s')

  -- The loop, from an offset of the page: whether there was no exception. `none` is an exhausted
  -- fuel.
  pub filter_packets : ℕ → ℕ → Scan → S → Option (Bool × Scan × S)
  filter_packets zero offset k s = none
  filter_packets (suc fuel) offset k s =
      let h = rdh_at (base + offset) in
      let next = h.offset_next_packet in
      let dropped =
        filter_packets fuel (offset + next)
          (record k { previous = no_packet; empty_packets_dropped = k.empty_packets_dropped + 2 })
          s in
      let (ok, k1, s1) = write_previous k s in
      let (ok', k2, s2) = write_packet offset k1 s1 in
      let rest = filter_packets fuel (offset + next) k2 s2 in
      if not (ltb offset block_size)
      then some (true, k, s)
      else if not (validate_rdh h == 0)
      then some (true, record k { invalid_rdh = suc k.invalid_rdh; previous = no_packet }, s)
      else if not (sink.has_file s)
      then some (false, k, s)
      else if k.previous.is_empty_hb_start && is_empty_hb_stop mask h
      then dropped
      else if not ok
      then some (false, k1, s1)
      else if not ok'
      then some (false, k2, s2)
      else if next == 0
      then some (true, k2, s2)
      else rest

abbrev pub is_some {ℓ} : {A : Type ℓ} → Option A → Bool
is_some none = false
is_some (some a) = true

-- What the name of the file depends on.
pub source_for : Recorder → Block → SourceId
source_for r b =
    if r.per_source_recording_file
    then record {
      link_id = if r.use_source_link_id then b.header.link_id else undefined_link_id;
      equipment_id =
          if r.use_source_equipment_id then b.header.equipment_id else undefined_equipment_id;
    }
    else undefined_source_id

-- An exception stops the recording.
abbrev pub fail : Recorder → ℤ × Recorder
fail r = (negsuc 0, record r { recording_enabled = false })

abbrev pub scan_of : ℕ → Recorder → Scan
scan_of link r = record {
  previous = r.per_link_previous_packet link;
  invalid_rdh = r.invalid_rdh;
  empty_packets_dropped = r.empty_packets_dropped;
  packets_recorded = r.packets_recorded;
}

abbrev pub store_scan : ℕ → Scan → Recorder → Recorder
store_scan link k r = record r {
  per_link_previous_packet = λ l. if l == link then k.previous else r.per_link_previous_packet l;
  invalid_rdh = k.invalid_rdh;
  empty_packets_dropped = k.empty_packets_dropped;
  packets_recorded = k.packets_recorded;
}

-- `header_chunk` is the header of a block in memory, and `rdh_at` reads a packet at an address.
module _ (os : Os) (g : Settings) (rdh_at : ℕ → Rdh) (header_chunk : Block → Chunk) where
  -- The files of a source, with the flag for the count of pages.
  abbrev pub recorder_sink : SourceId → Sink (Bool × Recorder)
  recorder_sink source = record {
    has_file = λ (count_page, r). is_some (get_file r source);
    put = λ c tf (count_page, r). write_to_file os g source c tf 0 count_page r;
  }

  -- A file for a new data source is created.
  pub open_source : SourceId → Recorder → Recorder
  open_source source r =
      if r.per_source_recording_file && not (is_some (get_file r source))
      then (create_file os g r source false 1).1
      else r

  pub write_header : SourceId → Block → Recorder → Bool × (Bool × Recorder)
  write_header source b r =
      if g.record_with_data_block_header
      then write_to_file os g source (header_chunk b) b.header.timeframe_id b.header.data_size true
          r
      else (true, (true, r))

  -- The packets of the page are written one by one, but those of the empty HBframes.
  pub write_packets : SourceId → Block → Bool × Recorder → Option (Bool × Recorder)
  write_packets source b s =
      let size = b.header.data_size in
      let scanned =
        filter_packets (recorder_sink source) g.drop_empty_hb_frames_trigger_mask rdh_at b.data_ptr
          size b.header.timeframe_id (2 * size + 2) 0 (scan_of b.header.link_id s.1) s in
      elim scanned [
        | none ↦ none
        | some (ok, k, s') ↦ some (ok, store_scan b.header.link_id k s'.1)
      ]

  pub write_payload : SourceId → Block → Bool × Recorder → Option (Bool × Recorder)
  write_payload source b s =
      if g.drop_empty_hb_frames
      then write_packets source b s
      else let (ok, s') =
          (recorder_sink source).put (record { address = b.data_ptr; size = b.header.data_size })
            b.header.timeframe_id s in
        some (ok, s'.1)

  -- `pushData`: the result, and the recorder.
  pub push_data : Block → Recorder → Option (ℤ × Recorder)
  push_data b r =
      let source = source_for r b in
      let r1 = open_source source r in
      let (ok, s) = write_header source b r1 in
      if not r.recording_enabled
      then some (pos 0, r)
      else if not (is_some (get_file r1 source))
      then some (fail r1)
      else if not ok
      then some (fail s.1)
      else elim (write_payload source b s) [
        | none ↦ none
        | some (ok', r') ↦ some (if ok' then (pos 0, r') else fail r')
      ]
