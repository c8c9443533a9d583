-- ===== src/FileRecorder/File.antt =====
-- class FileHandle: a file that is written up to a limit. The result of `fopen` is an argument, and
-- `fwrite` a parameter: whether some data, after what the file holds, is written. Logs and the
-- global statistics are left out.
pub mod Limits
pub mod Pages
use readout.Prelude.{
  Bool, List, [], add64, false, if◌then◌else◌, ltb, not, suc, true, ℕ, ◌&&◌, ◌++◌, ◌==◌, ◌||◌, ◌∷◌,
}
use readout.DataBlock.{undefined_timeframe_id}
use readout.Prelude.Int.{eq_ℤ, leb_ℤ, ltb_ℤ, pos, ℤ}

-- Data in memory, by its address, which is 0 for a null pointer, and its size.
pub record Chunk : Type 0 where
  pub address : ℕ
  pub size : ℕ

pub data Status : Type 0 where
  success : Status
  error : Status
  file_limits_reached : Status

-- `written` is what `fwrite` put in the file, and `is_open` whether `fp` is not null. The last two
-- fields are not in the code: which of the writes counted as a page, and the timeframes of the data
-- for which the limit on timeframes was looked at.
pub record FileHandle : Type 0 where
  pub path : List ℕ
  pub counter_bytes_total : ℕ
  pub max_file_size : ℕ
  pub counter_pages : ℕ
  pub max_pages : ℤ
  pub last_tf_id : ℕ
  pub counter_tf : ℕ
  pub max_tf : ℤ
  pub is_open : Bool
  pub is_full : Bool
  pub is_ok : Bool
  pub last_write_bytes : ℕ
  pub file_id : ℕ
  pub written : List Chunk
  pub pages : List Chunk
  pub timeframes : List ℕ

-- The constructor.
unfoldable pub open_file : Bool → List ℕ → ℕ → ℤ → ℤ → FileHandle
open_file fopen path max_file_size max_pages max_tf = record {
  path = path;
  counter_bytes_total = 0;
  max_file_size = max_file_size;
  counter_pages = 0;
  max_pages = max_pages;
  last_tf_id = undefined_timeframe_id;
  counter_tf = 0;
  max_tf = max_tf;
  is_open = fopen;
  is_full = false;
  is_ok = fopen;
  last_write_bytes = 0;
  file_id = 0;
  written = [];
  pages = [];
  timeframes = [];
}

unfoldable pub close : FileHandle → FileHandle
close f = record f { is_open = false; is_ok = false }

abbrev pub close_full : FileHandle → FileHandle
unfolding close
close_full f = close (record f { is_full = true })

-- A limit of 0 is none.
abbrev pub is_limit : ℤ → Bool
is_limit n = not (eq_ℤ n (pos 0))

-- The timeframes are counted before the limit on them is looked at.
abbrev pub count_tf : ℕ → FileHandle → FileHandle
count_tf tf f =
    if not (tf == undefined_timeframe_id) && not (tf == f.last_tf_id)
    then record f {
      last_tf_id = tf;
      counter_tf = suc f.counter_tf;
      timeframes = f.timeframes ++ (tf ∷ []);
    }
    else record f { timeframes = f.timeframes ++ (tf ∷ []) }

-- The data is added to the file.
abbrev pub append_chunk : Chunk → Bool → FileHandle → FileHandle
append_chunk c is_page f = record f {
  counter_bytes_total = add64 f.counter_bytes_total c.size;
  counter_pages = if is_page then suc f.counter_pages else f.counter_pages;
  last_write_bytes = c.size;
  written = f.written ++ (c ∷ []);
  pages = if is_page then f.pages ++ (c ∷ []) else f.pages;
}

-- The three limits.
abbrev pub exceeds_size : Chunk → ℕ → FileHandle → Bool
exceeds_size c remaining f =
    not (f.max_file_size == 0)
    && ltb f.max_file_size (add64 (add64 f.counter_bytes_total c.size) remaining)

abbrev pub exceeds_pages : FileHandle → Bool
exceeds_pages f = is_limit f.max_pages && leb_ℤ f.max_pages (pos f.counter_pages)

abbrev pub exceeds_tf : FileHandle → Bool
exceeds_tf f = is_limit f.max_tf && ltb_ℤ f.max_tf (pos f.counter_tf)

module _ (fwrite : List Chunk → Chunk → Bool) where
  abbrev pub write_counted : Chunk → Bool → FileHandle → Status × FileHandle
  write_counted c is_page f =
      if exceeds_tf f
      then (file_limits_reached, close_full f)
      else if not f.is_open
      then (error, f)
      else if not (fwrite f.written c)
      then (error, f)
      else (success, append_chunk c is_page f)

  -- `write`, with the timeframe of the data, whether it counts as a page, and the size of what is
  -- to follow it in the same file.
  pub write : Chunk → ℕ → Bool → ℕ → FileHandle → Status × FileHandle
  write c tf is_page remaining f0 =
      let f = record f0 { last_write_bytes = 0 } in
      if f.is_full
      then (success, f)
      else if c.size == 0 || c.address == 0
      then (success, f)
      else if exceeds_size c remaining f
      then (file_limits_reached, close_full f)
      else if exceeds_pages f
      then (file_limits_reached, close_full f)
      else write_counted c is_page (count_tf tf f)
