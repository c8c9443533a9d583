-- ===== src/FileRecorder/File/Pages.antt =====
-- The limit on the pages of a file, when a page takes two writes.
use readout.FileRecorder.File.Limits.{count_tf-keeps}
use readout.Prelude.{
  Bool, List, [], arith, false, if-intro, not, refl, suc, true, ℕ, ◌++◌, ◌==◌, ◌||◌, ◌∷◌, ◌≡◌,
}
use readout.Prelude.Int.{pos}
use readout.FileRecorder.File.{
  Chunk, FileHandle, Status, close, exceeds_pages, exceeds_size, exceeds_tf, file_limits_reached,
  success, write, write_counted,
}

-- A file that takes data: only the number of pages has a limit, and is below it.
pub record IsOpenFile (f : FileHandle) : Type 0 where
  pub not_full : f.is_full ≡ false
  pub still_open : f.is_open ≡ true
  pub no_size : f.max_file_size ≡ 0
  pub no_tf : f.max_tf ≡ pos 0

abbrev pub HasData : Chunk → Type 0
HasData c = (c.size == 0 || c.address == 0) ≡ false

-- The first write of a page, that takes its data.
record Taken (c : Chunk) (f : FileHandle) (r : Status × FileHandle) : Type 0 where
  returns : r.0 ≡ success
  adds : r.1.written ≡ f.written ++ (c ∷ [])
  counts : r.1.counter_pages ≡ suc f.counter_pages
  not_full : r.1.is_full ≡ false
  same_size : r.1.max_file_size ≡ 0
  same_pages : r.1.max_pages ≡ f.max_pages

module _ (fwrite : List Chunk → Chunk → Bool) where
  -- A write is refused when the number of pages is at its limit.
  write-refused :
      (c : Chunk) (tf : ℕ) (is_page : Bool) (remaining : ℕ) (f : FileHandle)
      → HasData c
      → f.is_full ≡ false
      → f.max_file_size ≡ 0
      → exceeds_pages f ≡ true
      → (let (s, f') = write fwrite c tf is_page remaining f in
          (s ≡ file_limits_reached) × (f'.written ≡ f.written))
  unfolding write close
  write-refused c tf is_page remaining f d e g h = rw (d, e, g, h) (refl, refl)

  write-Taken :
      (c : Chunk) (tf remaining : ℕ) (f : FileHandle)
      → HasData c
      → IsOpenFile f
      → exceeds_pages f ≡ false
      → fwrite f.written c ≡ true
      → Taken c f (write fwrite c tf true remaining f)
  unfolding write
  write-Taken c tf remaining f d o h w =
      let f0 = record f { last_write_bytes = 0 } in
      let P = Taken c f in
      if-intro P f0.is_full (λ e. absurd (ground (arith, o.not_full, e)))
        λ e.
          if-intro P (c.size == 0 || c.address == 0) (λ e. absurd (ground (arith, d, e)))
            λ e.
              if-intro P (exceeds_size c remaining f0) (λ e. absurd (ground (arith, o.no_size, e)))
                λ e.
                  if-intro P (exceeds_pages f0) (λ e. absurd (ground (arith, h, e)))
                    λ e.
                      count_tf-keeps tf f0 (λ x. P (write_counted fwrite c true x))
                        λ last tfs seen.
                          (let g = record f0 {
                            last_tf_id = last;
                            counter_tf = tfs;
                            timeframes = seen;
                          } in
                            if-intro P (exceeds_tf g) (λ e. absurd (ground (arith, o.no_tf, e)))
                              λ e.
                                if-intro P (not g.is_open)
                                  (λ e. absurd (ground (arith, o.still_open, e)))
                                  λ e.
                                    if-intro P (not (fwrite g.written c))
                                      (λ e. absurd (ground (arith, w, e)))
                                      λ e. record {
                                        returns = refl;
                                        adds = refl;
                                        counts = refl;
                                        not_full = o.not_full;
                                        same_size = o.no_size;
                                        same_pages = refl;
                                      })

  -- When a page is written in two parts, as a header and its payload are, and the number of pages
  -- is one below its limit, the only one, the first part is added to an open file that takes it, and
  -- the second one is refused, so that the file ends with half a page.
  pub write-half_page :
      (header payload : Chunk) (tf remaining : ℕ) (f : FileHandle)
      → HasData header
      → HasData payload
      → IsOpenFile f
      → f.max_pages ≡ pos (suc f.counter_pages)
      → fwrite f.written header ≡ true
      → (let (s, f1) = write fwrite header tf true remaining f in
          let (s', f2) = write fwrite payload tf false 0 f1 in
          (s ≡ success)
          × (f1.written ≡ f.written ++ (header ∷ []))
          × (s' ≡ file_limits_reached)
          × (f2.written ≡ f1.written))
  write-half_page h p tf remaining f dh dp o m w =
      let t = write-Taken h tf remaining f dh o (ground (arith, m)) w in
      let f1 = (write fwrite h tf true remaining f).1 in
      let full : exceeds_pages f1 ≡ true = ground (arith, m, t.counts, t.same_pages) in
      let (r, k) = write-refused p tf false 0 f1 dp t.not_full t.same_size full in
      (t.returns, t.adds, r, k)
