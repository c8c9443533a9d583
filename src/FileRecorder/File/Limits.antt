-- ===== src/FileRecorder/File/Limits.antt =====
-- The limits of a file.

use readout.Prelude.{
  Bool, List, [], ap, arith, false, if-intro, if◌then◌else◌, inl, inr, length, not, refl, suc, true,
  ℕ, ◌%◌, ◌&&◌, ◌++◌, ◌+◌, ◌<◌, ◌==◌, ◌^◌, ◌||◌, ◌∷◌, ◌≡◌, ◌≤◌, ◌⊎◌,
}
use readout.Prelude.Int.{pos, pos_part, ℤ}
use readout.DataBlock.{undefined_timeframe_id}
use readout.FileRecorder.File.{
  Chunk, FileHandle, Status, append_chunk, close, close_full, count_tf, exceeds_pages, exceeds_size,
  exceeds_tf, open_file, write, write_counted,
}

abbrev pub sizes : List Chunk → ℕ
sizes [] = 0
sizes (c ∷ cs) = c.size + sizes cs

pub sizes-append : (xs ys : List Chunk) → sizes (xs ++ ys) ≡ sizes xs + sizes ys
sizes-append [] ys = omega arith
sizes-append (x ∷ xs) ys = omega (arith, sizes-append xs ys)

pub length-append_one : (xs : List Chunk) (c : Chunk) → length (xs ++ (c ∷ [])) ≡ suc (length xs)
length-append_one [] c = refl
length-append_one (x ∷ xs) c = ap suc (length-append_one xs c)

-- How often the timeframe changes in a list, to one that is defined, from `last` on.
abbrev pub changes : ℕ → List ℕ → ℕ
changes last [] = 0
changes last (t ∷ ts) =
    if t == undefined_timeframe_id || t == last then changes last ts else suc (changes t ts)

abbrev pub newest : ℕ → List ℕ → ℕ
newest last [] = last
newest last (t ∷ ts) = if t == undefined_timeframe_id then newest last ts else newest t ts

changes-append :
    (last t : ℕ) (ts : List ℕ)
    → changes last (ts ++ (t ∷ [])) ≡ (
        if t == undefined_timeframe_id || t == newest last ts
        then changes last ts
        else suc (changes last ts))
changes-append last t [] = ground arith
changes-append last t (u ∷ ts) = ground (arith, changes-append last t ts, changes-append u t ts)

newest-append :
    (last t : ℕ) (ts : List ℕ)
    → newest last (ts ++ (t ∷ [])) ≡ (if t == undefined_timeframe_id then newest last ts else t)
newest-append last t [] = refl
newest-append last t (u ∷ ts) = ground (arith, newest-append last t ts, newest-append u t ts)

-- The changes of the timeframe are counted.
pub record IsTfCounted (f : FileHandle) : Type 0 where
  pub changes_counted : f.counter_tf ≡ changes undefined_timeframe_id f.timeframes
  pub newest_kept : f.last_tf_id ≡ newest undefined_timeframe_id f.timeframes

count_tf-IsTfCounted : (tf : ℕ) (f : FileHandle) → IsTfCounted f → IsTfCounted (count_tf tf f)
count_tf-IsTfCounted tf f h =
    let c = changes-append undefined_timeframe_id tf f.timeframes in
    let n = newest-append undefined_timeframe_id tf f.timeframes in
    if-intro IsTfCounted (not (tf == undefined_timeframe_id) && not (tf == f.last_tf_id))
      (λ e. record {
        changes_counted = ground (arith, c, h.changes_counted, h.newest_kept, e);
        newest_kept = ground (arith, n, h.newest_kept, e);
      })
      (λ e. record {
        changes_counted = ground (arith, c, h.changes_counted, h.newest_kept, e);
        newest_kept = ground (arith, n, h.newest_kept, e);
      })

-- What a file holds: its size is counted, in 64 bits, and the size and the pages are within their
-- limits.
pub record IsCounted (written paged : List Chunk) (bytes max_size pages : ℕ) (max_pages : ℤ)
    : Type 0 where
  pub bytes_counted : bytes ≡ sizes written % 2 ^ 64
  pub within_size : (max_size ≡ 0) ⊎ (sizes written ≤ max_size)
  pub pages_counted : pages ≡ length paged
  pub within_pages : (max_pages ≡ pos 0) ⊎ (pages ≤ pos_part max_pages)

abbrev Counted : FileHandle → Type 0
Counted f =
    IsCounted f.written f.pages f.counter_bytes_total f.max_file_size f.counter_pages f.max_pages

-- A file that is not full has no more timeframes than its limit, and a full one is not open.
pub record IsWithin (f : FileHandle) : Type 0 where
  pub counted : Counted f
  pub within_tf : (f.max_tf ≡ pos 0) ⊎ (f.is_full ≡ true) ⊎ (f.counter_tf ≤ pos_part f.max_tf)
  pub full_closed : (f.is_full ≡ false) ⊎ (f.is_open ≡ false)
  pub tf_counted : IsTfCounted f

pub open_file-IsWithin :
    (fopen : Bool) (path : List ℕ) (s : ℕ) (p t : ℤ) → IsWithin (open_file fopen path s p t)
unfolding open_file
open_file-IsWithin fopen path s p t = record {
  counted = record {
    bytes_counted = refl;
    within_size = inr (omega arith);
    pages_counted = refl;
    within_pages = inr (omega arith);
  };
  within_tf = inr (inr (omega arith));
  full_closed = inl refl;
  tf_counted = record { changes_counted = refl; newest_kept = refl };
}

pub close-IsWithin : (f : FileHandle) → IsWithin f → IsWithin (close f)
unfolding close
close-IsWithin f h = record {
  counted = h.counted;
  within_tf = h.within_tf;
  full_closed = inr refl;
  tf_counted = record {
    changes_counted = h.tf_counted.changes_counted;
    newest_kept = h.tf_counted.newest_kept;
  };
}

close_full-IsWithin : (f : FileHandle) → Counted f → IsTfCounted f → IsWithin (close_full f)
unfolding close
close_full-IsWithin f h k = record {
  counted = h;
  within_tf = inr (inl refl);
  full_closed = inr refl;
  tf_counted = record { changes_counted = k.changes_counted; newest_kept = k.newest_kept };
}

append_chunk-IsWithin :
    (c : Chunk) (is_page : Bool) (f : FileHandle)
    → IsWithin f
    → f.max_file_size + c.size < 2 ^ 64
    → (f.max_file_size ≡ 0) ⊎ (sizes f.written + c.size ≤ f.max_file_size)
    → (f.max_pages ≡ pos 0) ⊎ (suc f.counter_pages ≤ pos_part f.max_pages)
    → IsWithin (append_chunk c is_page f)
append_chunk-IsWithin c is_page f h fits in_size in_pages = record {
  counted = record {
    bytes_counted = omega (arith, sizes-append f.written (c ∷ []), h.counted.bytes_counted);
    within_size = ground (arith, in_size, sizes-append f.written (c ∷ []));
    pages_counted = ground (arith, length-append_one f.pages c, h.counted.pages_counted);
    within_pages = ground (arith, h.counted.within_pages, in_pages);
  };
  within_tf = h.within_tf;
  full_closed = h.full_closed;
  tf_counted = record {
    changes_counted = h.tf_counted.changes_counted;
    newest_kept = h.tf_counted.newest_kept;
  };
}

-- What is read of a file stays when a timeframe is counted.
pub count_tf-keeps :
    (tf : ℕ) (f : FileHandle) (P : FileHandle → Type 0)
    → ((last tfs : ℕ) (seen : List ℕ)
        → P (record f { last_tf_id = last; counter_tf = tfs; timeframes = seen }))
    → P (count_tf tf f)
count_tf-keeps tf f P h =
    if-intro P _ (λ e. h tf (suc f.counter_tf) (f.timeframes ++ (tf ∷ [])))
      λ e. h f.last_tf_id f.counter_tf (f.timeframes ++ (tf ∷ []))

module _ (fwrite : List Chunk → Chunk → Bool) where
  write_counted-IsWithin :
      (c : Chunk) (is_page : Bool) (f : FileHandle)
      → Counted f
      → IsTfCounted f
      → (f.is_full ≡ false) ⊎ (f.is_open ≡ false)
      → f.max_file_size + c.size < 2 ^ 64
      → (f.max_file_size ≡ 0) ⊎ (sizes f.written + c.size ≤ f.max_file_size)
      → (f.max_pages ≡ pos 0) ⊎ (suc f.counter_pages ≤ pos_part f.max_pages)
      → IsWithin (write_counted fwrite c is_page f).1
  write_counted-IsWithin c is_page f h tfs closed fits in_size in_pages =
      let P : Status × FileHandle → Type 0 = λ r. IsWithin r.1 in
      if-intro P (exceeds_tf f) (λ e. close_full-IsWithin f h tfs)
        λ e.
          (let k : IsWithin f = record {
            counted = h;
            within_tf = ground (arith, e);
            full_closed = closed;
            tf_counted = tfs;
          } in
            if-intro P (not f.is_open) (λ o. k)
              λ o.
                if-intro P (not (fwrite f.written c)) (λ o. k)
                  λ o. append_chunk-IsWithin c is_page f k fits in_size in_pages)

  -- One write keeps a file within its limits.
  pub write-IsWithin :
      (c : Chunk) (tf : ℕ) (is_page : Bool) (remaining : ℕ) (f : FileHandle)
      → IsWithin f
      → f.max_file_size + c.size + remaining < 2 ^ 64
      → IsWithin (write fwrite c tf is_page remaining f).1
  unfolding write
  write-IsWithin c tf is_page remaining f h fits =
      let f0 = record f { last_write_bytes = 0 } in
      let h0 : IsWithin f0 = record {
        counted = h.counted;
        within_tf = h.within_tf;
        full_closed = h.full_closed;
        tf_counted = record {
          changes_counted = h.tf_counted.changes_counted;
          newest_kept = h.tf_counted.newest_kept;
        };
      } in
      let P : Status × FileHandle → Type 0 = λ r. IsWithin r.1 in
      if-intro P f.is_full (λ e. h0)
        λ e.
          if-intro P (c.size == 0 || c.address == 0) (λ g. h0)
            λ g.
              if-intro P (exceeds_size c remaining f0)
                (λ k. close_full-IsWithin f0 h.counted h0.tf_counted)
                λ k.
                  if-intro P (exceeds_pages f0)
                    (λ l. close_full-IsWithin f0 h.counted h0.tf_counted)
                    λ l.
                      count_tf-keeps tf f0
                        (λ g. IsTfCounted g → IsWithin (write_counted fwrite c is_page g).1)
                        (λ last tfs seen k'.
                          write_counted-IsWithin c is_page
                            (record f0 { last_tf_id = last; counter_tf = tfs; timeframes = seen })
                            h.counted k' h.full_closed (omega (arith, fits))
                            (ground (arith, k, fits)) (ground (arith, l)))
                        (count_tf-IsTfCounted tf f0 h0.tf_counted)

  -- The settings of a file do not change.
  pub write-keeps :
      (P : ℕ → ℤ → ℤ → ℕ → Type 0) (c : Chunk) (tf : ℕ) (is_page : Bool) (remaining : ℕ)
      (f : FileHandle)
      → P f.max_file_size f.max_pages f.max_tf f.file_id
      → (let f' = (write fwrite c tf is_page remaining f).1 in
          P f'.max_file_size f'.max_pages f'.max_tf f'.file_id)
  unfolding write close
  write-keeps P c tf is_page remaining f h =
      let f0 = record f { last_write_bytes = 0 } in
      let Q : Status × FileHandle → Type 0 =
        λ (s, f'). P f'.max_file_size f'.max_pages f'.max_tf f'.file_id in
      if-intro Q f.is_full (λ e. h)
        λ e.
          if-intro Q (c.size == 0 || c.address == 0) (λ g. h)
            λ g.
              if-intro Q (exceeds_size c remaining f0) (λ k. h)
                λ k.
                  if-intro Q (exceeds_pages f0) (λ l. h)
                    λ l.
                      count_tf-keeps tf f0 (λ g. Q (write_counted fwrite c is_page g))
                        λ last tfs seen.
                          (let g = record f0 {
                            last_tf_id = last;
                            counter_tf = tfs;
                            timeframes = seen;
                          } in
                            if-intro Q (exceeds_tf g) (λ m. h)
                              λ m.
                                if-intro Q (not g.is_open) (λ m. h)
                                  λ m. if-intro Q (not (fwrite g.written c)) (λ m. h) λ m. h)
