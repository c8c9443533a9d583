-- ===== src/FileRecorder/Push/Invariant.antt =====
-- The files of a recorder, from its start and over the blocks that it is given.
use readout.FileRecorder.Push.Limits.{Afters, filter_packets-After}
use readout.Prelude.{
  Bool, Option, Option-intro, arith, false, if-intro, inl, inr, none, not, refl, some, subst, suc,
  true, zero, ℕ, ◌&&◌, ◌*◌, ◌+◌, ◌<◌, ◌==◌, ◌^◌, ◌≢◌,
}
use readout.Prelude.Int.{negsuc, pos, ℤ}
use readout.FileRecorder.Push.{
  fail, filter_packets, is_some, open_source, push_data, recorder_sink, scan_of, source_for,
  write_header, write_packets, write_payload,
}
use readout.FileRecorder.Files.{
  Os, Packet, Recorder, Settings, create_file, get_file, reset_counters, start, write_to_file,
}
use readout.FileRecorder.Files.Rotation.{
  AllFiles, IsFileId, IsLimited, create_file-All, write_attempts-All,
}
use readout.FileRecorder.Files.Previous.{create_file-keeps, write_attempts-keeps}
use readout.FileRecorder.File.{Chunk}
use readout.FileRecorder.Name.{SourceId, undefined_source_id}
use readout.Aggregator.Slicer.{Block}
use readout.Rdh.{Rdh}

-- All files are within the limits, and the packets kept aside have at most 65535 bytes.
pub record IsRecorder (g : Settings) (r : Recorder) : Type 0 where
  pub files : AllFiles (IsLimited g) r
  pub packets : (link : ℕ) → (r.per_link_previous_packet link).size < 2 ^ 16

-- The settings: the size of a file leaves room for a block, and files in turn are two at least.
pub record IsSettings (g : Settings) : Type 0 where
  pub size_fits : g.max_file_size + 2 ^ 33 < 2 ^ 64
  pub several : g.files_max ≢ negsuc 0

abbrev Small : (ℕ → Packet) → Type 0
Small previous = (link : ℕ) → (previous link).size < 2 ^ 16

first_id : (n : ℤ) → IsFileId n 1
first_id (pos zero) = (omega arith, inl refl)
first_id (pos (suc n)) = (omega arith, inr (omega arith))
first_id (negsuc n) = (omega arith, inr (omega arith))

module _ (os : Os) (g : Settings) where
  create_file-IsRecorder :
      (r : Recorder) (s : SourceId) (delay : Bool)
      → IsRecorder g r
      → IsRecorder g (create_file os g r s delay 1).1
  create_file-IsRecorder r s delay h = record {
    files = create_file-All os g r s delay 1 (first_id g.files_max) h.files;
    packets = create_file-keeps Small os g r s delay 1 h.packets;
  }

  -- A recorder that starts.
  pub start-IsRecorder : (r : Recorder) → IsRecorder g (start os g r)
  unfolding start reset_counters
  start-IsRecorder r =
      let r0 = reset_counters r in
      let h : IsRecorder g (create_file os g r0 undefined_source_id true 1).1 =
        create_file-IsRecorder r0 undefined_source_id true
          record { files = (tt, tt); packets = λ link. omega arith } in
      if-intro (IsRecorder g) (create_file os g r0 undefined_source_id true 1).0
        (λ e. record { files = h.files; packets = h.packets })
        λ e. record { files = h.files; packets = h.packets }

  write_to_file-IsRecorder :
      (s : SourceId) (c : Chunk) (tf remaining : ℕ) (count_page : Bool) (r : Recorder)
      → IsSettings g
      → c.size + remaining < 2 ^ 33
      → IsRecorder g r
      → IsRecorder g (write_to_file os g s c tf remaining count_page r).1.1
  unfolding write_to_file
  write_to_file-IsRecorder s c tf remaining count_page r i fits h = record {
    files =
        write_attempts-All os g 2 s c tf remaining count_page r i.several
          (omega (arith, i.size_fits, fits)) h.files;
    packets = write_attempts-keeps Small os g 2 s c tf remaining count_page r h.packets;
  }

  module _ (rdh_at : ℕ → Rdh) (header_chunk : Block → Chunk) (i : IsSettings g)
      (packet_fits : (a : ℕ) → (rdh_at a).offset_next_packet < 2 ^ 16)
      (header_fits : (b : Block) → (header_chunk b).size < 2 ^ 16) where
    abbrev IsResult : Option (Bool × Recorder) → Type 0
    IsResult none = Unit
    IsResult (some (ok, r)) = IsRecorder g r

    write_packets-IsRecorder :
        (source : SourceId) (b : Block) (s : Bool × Recorder)
        → IsRecorder g s.1
        → IsResult (write_packets os g rdh_at header_chunk source b s)
    unfolding write_packets
    write_packets-IsRecorder source b s h =
        let I : Bool × Recorder → Type 0 = λ x. IsRecorder g x.1 in
        let link = b.header.link_id in
        let sink = recorder_sink os g rdh_at header_chunk source in
        let mask = g.drop_empty_hb_frames_trigger_mask in
        let size = b.header.data_size in
        let tf = b.header.timeframe_id in
        let fuel = 2 * size + 2 in
        let scanned =
          filter_packets sink mask rdh_at b.data_ptr size tf fuel 0 (scan_of link s.1) s in
        let after =
          filter_packets-After sink mask rdh_at b.data_ptr size tf I packet_fits
            (λ c t s' f j. write_to_file-IsRecorder source c t 0 s'.0 s'.1 i (omega arith) j) fuel 0
            (scan_of link s.1) s (h.packets link) h in
        Option-intro IsResult scanned (λ e. tt)
          λ (ok, k, s') e.
            (let a =
                subst
                  (Afters sink mask rdh_at b.data_ptr size tf I packet_fits (λ c t s' f j.
                    write_to_file-IsRecorder source c t 0 s'.0 s'.1 i (omega arith) j))
                  e after in
              record {
                files = a.1.files;
                packets = λ l.
                    if-intro (λ (p : Packet). p.size < 2 ^ 16) (l == link) (λ e. a.0)
                      λ e. a.1.packets l;
              })

    write_payload-IsRecorder :
        (source : SourceId) (b : Block) (s : Bool × Recorder)
        → b.header.data_size < 2 ^ 32
        → IsRecorder g s.1
        → IsResult (write_payload os g rdh_at header_chunk source b s)
    unfolding write_payload
    write_payload-IsRecorder source b s size h =
        if-intro IsResult g.drop_empty_hb_frames (λ e. write_packets-IsRecorder source b s h)
          λ e.
            write_to_file-IsRecorder source
              (record { address = b.data_ptr; size = b.header.data_size }) b.header.timeframe_id 0
              s.0 s.1 i (omega arith) h

    open_source-IsRecorder :
        (source : SourceId) (r : Recorder)
        → IsRecorder g r
        → IsRecorder g (open_source os g rdh_at header_chunk source r)
    unfolding open_source
    open_source-IsRecorder source r h =
        if-intro (IsRecorder g) (r.per_source_recording_file && not (is_some (get_file r source)))
          (λ e. create_file-IsRecorder r source false h) λ e. h

    write_header-IsRecorder :
        (source : SourceId) (b : Block) (r : Recorder)
        → b.header.data_size < 2 ^ 32
        → IsRecorder g r
        → IsRecorder g (write_header os g rdh_at header_chunk source b r).1.1
    unfolding write_header
    write_header-IsRecorder source b r size h =
        if-intro (λ (x : Bool × (Bool × Recorder)). IsRecorder g x.1.1)
          g.record_with_data_block_header
          (λ e.
            write_to_file-IsRecorder source (header_chunk b) b.header.timeframe_id
              b.header.data_size true r i (omega (arith, header_fits b, size)) h)
          λ e. h

    stopped : (r : Recorder) → IsRecorder g r → IsRecorder g (fail r).1
    stopped r h = record { files = h.files; packets = h.packets }

    abbrev pub IsPushed : Option (ℤ × Recorder) → Type 0
    IsPushed none = Unit
    IsPushed (some (n, r)) = IsRecorder g r

    -- If a push of a block below 4 GB returns, it has kept every file of the recorder within its
    -- limits, whatever the system answers. The counter of bytes is the size of what was written, in
    -- 64 bits, that of pages is the number of writes that were pages, and both are within the
    -- configured limits. The counter of timeframes is the number of changes of the timeframe, and is
    -- within its limit unless the file is full. A full file is closed, and the number of the file is
    -- from 1 to the number of files, if that has a limit. The size of a file and a block fit
    -- 64 bits, the limit on files is not -1, a header is below 64 kB, and so are the packets.
    pub push_data-IsRecorder :
        (b : Block) (r : Recorder)
        → b.header.data_size < 2 ^ 32
        → IsRecorder g r
        → IsPushed (push_data os g rdh_at header_chunk b r)
    unfolding push_data
    push_data-IsRecorder b r size h =
        let source = source_for r b in
        let r1 = open_source os g rdh_at header_chunk source r in
        let h1 = open_source-IsRecorder source r h in
        let (ok, s) = write_header os g rdh_at header_chunk source b r1 in
        let h2 = write_header-IsRecorder source b r1 size h1 in
        let w = write_payload os g rdh_at header_chunk source b s in
        let h3 = write_payload-IsRecorder source b s size h2 in
        if-intro IsPushed (not r.recording_enabled) (λ e. h)
          λ e.
            if-intro IsPushed (not (is_some (get_file r1 source))) (λ e. stopped r1 h1)
              λ e.
                if-intro IsPushed (not ok) (λ e. stopped s.1 h2)
                  λ e.
                    Option-intro IsPushed w (λ e. tt)
                      λ (ok', r') e.
                        (let h4 : IsRecorder g r' = subst IsResult e h3 in
                          if-intro (λ (n, x). IsRecorder g x) ok' (λ e. h4) λ e. stopped r' h4)
