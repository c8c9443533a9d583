-- ===== src/FileRecorder/Files/Previous.antt =====
-- The writes leave the packets that are kept aside for the links.
use readout.Prelude.Int.{eq_ℤ, leb_ℤ, ltb_ℤ, pos}
use readout.FileRecorder.Files.{
  Os, Packet, Recorder, Settings, create_file, get_file, is_last_file_passed, is_round_done,
  name_file, next_file, put_file, write_attempts,
}
use readout.FileRecorder.File.{Chunk, FileHandle, close, open_file, write}
use readout.FileRecorder.Files.Rotation.{status-intro}
use readout.FileRecorder.Name.{SourceId}
use readout.Prelude.{
  Bool, Option-intro, false, if-intro, if◌then◌else◌, not, suc, true, zero, ℕ, ◌&&◌, ◌||◌,
}

module _ (P : (ℕ → Packet) → Type 0) where
  abbrev Holds : Recorder → Type 0
  Holds r = P r.per_link_previous_packet

  put_file-keeps : (r : Recorder) (s : SourceId) (f : FileHandle) → Holds r → Holds (put_file r s f)
  unfolding put_file
  put_file-keeps r s f h = if-intro Holds r.per_source_recording_file (λ e. h) λ e. h

  module _ (os : Os) (g : Settings) where
    pub create_file-keeps :
        (r : Recorder) (s : SourceId) (delay : Bool) (id : ℕ)
        → Holds r
        → Holds (create_file os g r s delay id).1
    unfolding create_file
    create_file-keeps r s delay id h =
        let Q : Bool × Recorder → Type 0 = λ x. Holds x.1 in
        let ((ok, name), r') = name_file os g r s id in
        let f =
          open_file (os.fopen r'.created name) name g.max_file_size g.max_file_pages
            g.max_file_tf in
        if-intro Q (not ok) (λ e. h)
          λ e.
            if-intro Q (is_last_file_passed os g id) (λ e. h)
              λ e.
                if-intro Q (r'.per_source_recording_file && delay) (λ e. h)
                  λ e.
                    if-intro Q (not f.is_ok) (λ e. h)
                      λ e.
                        put_file-keeps (record r' { created = suc r'.created }) s
                          (record f { file_id = id }) h

    next_file-keeps :
        (r : Recorder) (s : SourceId) (id : ℕ) → Holds r → Holds (next_file os g r s id)
    next_file-keeps r s id h =
        let r' : Recorder = if is_round_done os g id then record r { silence = true } else r in
        let h' : Holds r' = if-intro Holds (is_round_done os g id) (λ e. h) λ e. h in
        let id' : ℕ = if is_round_done os g id then 1 else id in
        if-intro Holds (eq_ℤ g.files_max (pos 1)) (λ e. h)
          λ e.
            if-intro Holds (ltb_ℤ g.files_max (pos 1) || leb_ℤ (pos id') g.files_max)
              (λ l. create_file-keeps r' s false id' h') λ l. h'

    pub write_attempts-keeps :
        (n : ℕ) (s : SourceId) (c : Chunk) (tf remaining : ℕ) (count_page : Bool) (r : Recorder)
        → Holds r
        → Holds (write_attempts os g n s c tf remaining count_page r).1.1
    unfolding write_attempts
    write_attempts-keeps zero s c tf remaining count_page r h =
        let Q : Bool × (Bool × Recorder) → Type 0 = λ x. Holds x.1.1 in
        Option-intro Q (get_file r s) (λ e. h) λ f e. put_file-keeps r s (close f) h
    write_attempts-keeps (suc n) s c tf remaining count_page r h =
        let Q : Bool × (Bool × Recorder) → Type 0 = λ x. Holds x.1.1 in
        Option-intro Q (get_file r s) (λ e. h)
          λ f e.
            (let (st, f') = write (os.fwrite r.created) c tf count_page remaining f in
              let r' = put_file r s f' in
              let h' : Holds r' = put_file-keeps r s f' h in
              status-intro Q st h' (write_attempts-keeps n s c tf remaining count_page r' h') (
                write_attempts-keeps n s c tf remaining count_page
                  (next_file os g r' s (suc f'.file_id))
                  (next_file-keeps r' s (suc f'.file_id) h')))
