-- ===== src/FileRecorder/Push/Outcome.antt =====
-- The result of a push.
use readout.Prelude.{
  Bool, Option, arith, false, if-intro, if◌then◌else◌, inl, inr, not, refl, some, ℕ, ◌*◌, ◌+◌, ◌-◌,
  ◌<◌, ◌≡◌, ◌⊎◌,
}
use readout.Prelude.Int.{negsuc, pos, ℤ}
use readout.FileRecorder.Push.{
  is_some, open_source, push_data, recorder_sink, scan_of, source_for, write_header, write_packets,
  write_payload,
}
use readout.FileRecorder.Push.Ends.{filter_packets-total}
use readout.FileRecorder.Files.{Os, Recorder, Settings, get_file}
use readout.FileRecorder.File.{Chunk}
use readout.FileRecorder.Name.{SourceId}
use readout.Aggregator.Slicer.{Block}
use readout.Rdh.{Rdh}

steps_left-le : (n : ℕ) (b : Bool) → 2 * (n - 0) + (if b then 1 else 0) < 2 * n + 2
steps_left-le n b = ground arith

module _ (os : Os) (g : Settings) (rdh_at : ℕ → Rdh) (header_chunk : Block → Chunk) where
  abbrev HasResult : Option (Bool × Recorder) → Type 0
  HasResult o = (x : Bool × Recorder) × (o ≡ some x)

  write_payload-total :
      (source : SourceId) (b : Block) (s : Bool × Recorder)
      → HasResult (write_payload os g rdh_at header_chunk source b s)
  unfolding write_payload write_packets
  write_payload-total source b s =
      let size = b.header.data_size in
      let k = scan_of b.header.link_id s.1 in
      if-intro HasResult g.drop_empty_hb_frames
        (λ e.
          (let (r, o) =
              filter_packets-total (recorder_sink os g rdh_at header_chunk source)
                g.drop_empty_hb_frames_trigger_mask rdh_at b.data_ptr size b.header.timeframe_id
                (2 * size + 2) 0 k s (steps_left-le size k.previous.is_empty_hb_start) in
            rw (write_packets, o) (_, refl)))
        λ e. (_, refl)

  abbrev IsOutcome : ℤ × Recorder → Type 0
  IsOutcome (n, r) = (n ≡ pos 0) ⊎ ((n ≡ negsuc 0) × (r.recording_enabled ≡ false))

  abbrev pub Returns : Option (ℤ × Recorder) → Type 0
  Returns o = (x : ℤ × Recorder) × (o ≡ some x) × IsOutcome x

  -- A push of a block returns, for any contents of its memory: the result is 0, or it is -1 and the
  -- recording is disabled.
  pub push_data-total :
      (b : Block) (r : Recorder) → Returns (push_data os g rdh_at header_chunk b r)
  unfolding push_data
  push_data-total b r =
      let source = source_for r b in
      let r1 = open_source os g rdh_at header_chunk source r in
      let (ok, s) = write_header os g rdh_at header_chunk source b r1 in
      let ((ok', r'), o) = write_payload-total source b s in
      if-intro Returns (not r.recording_enabled) (λ e. (_, refl, inl refl))
        λ e.
          if-intro Returns (not (is_some (get_file r1 source))) (λ e. (_, refl, inr (refl, refl)))
            λ e.
              if-intro Returns (not ok) (λ e. (_, refl, inr (refl, refl)))
                λ e. rw (o) (_, refl, if-intro IsOutcome ok' (λ e. inl refl) λ e. inr (refl, refl))
