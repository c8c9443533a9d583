-- ===== src/FileRecorder/Files.antt =====
-- class ConsumerFileRecorder: its state and its files, their creation, and a write to the file of
-- a data source, which goes on to the next file at a limit. What the system answers may change from
-- one file to the next: the parameters are given the number of files created so far. A pointer to
-- a file that is shared with the map of files is the entry of the map.
pub mod Rotation
pub mod Previous
use readout.Prelude.{
  Bool, List, Option, [], false, if◌then◌else◌, ltb, none, not, some, suc, true, zero, ℕ, ◌%◌, ◌&&◌,
  ◌++◌, ◌==◌, ◌||◌, ◌∷◌,
}
use readout.Prelude.Int.{eq_ℤ, leb_ℤ, ltb_ℤ, neg_part, pos, ℤ}
use readout.DataBlock.{undefined_timeframe_id}
use readout.FileRecorder.File.{
  Chunk, FileHandle, close, error, file_limits_reached, open_file, success, write,
}
use readout.FileRecorder.Name.{Env, SourceId, at_text, parse_name, undefined_source_id}

-- The configuration; a character is its code.
pub record Settings : Type 0 where
  pub file_name : List ℕ
  pub record_with_data_block_header : Bool
  pub max_file_size : ℕ
  pub max_file_pages : ℤ
  pub max_file_tf : ℤ
  pub files_max : ℤ
  pub drop_empty_hb_frames : Bool
  pub drop_empty_hb_frames_trigger_mask : ℕ

pub record Os : Type 0 where
  pub env : ℕ → Env
  pub fopen : ℕ → List ℕ → Bool
  pub fwrite : ℕ → List Chunk → Chunk → Bool

-- The packet of a link that is kept aside. A copy has the contents of the original, and stands here
-- under the address of the original.
pub record Packet : Type 0 where
  pub is_empty_hb_start : Bool
  pub address : ℕ
  pub size : ℕ
  pub is_copy : Bool
  pub timeframe_id : ℕ

-- `Packet::clear`
abbrev pub no_packet : Packet
no_packet = record {
  is_empty_hb_start = false;
  address = 0;
  size = 0;
  is_copy = false;
  timeframe_id = undefined_timeframe_id;
}

-- `created` is the number of calls of `fopen`.
pub record Recorder : Type 0 where
  pub default_file : Option FileHandle
  pub file_per_source_map : List (SourceId × FileHandle)
  pub per_source_recording_file : Bool
  pub use_source_equipment_id : Bool
  pub use_source_link_id : Bool
  pub recording_enabled : Bool
  pub silence : Bool
  pub per_link_previous_packet : ℕ → Packet
  pub invalid_rdh : ℕ
  pub empty_packets_dropped : ℕ
  pub packets_recorded : ℕ
  pub is_error : ℕ
  pub created : ℕ

-- `operator<` of `DataSourceId`, and the equality of keys that `std::map` takes from it.
abbrev pub source_id_lt : SourceId → SourceId → Bool
source_id_lt a b =
    ltb a.equipment_id b.equipment_id
    || (a.equipment_id == b.equipment_id && ltb a.link_id b.link_id)

abbrev pub same_source_id : SourceId → SourceId → Bool
same_source_id a b = not (source_id_lt a b) && not (source_id_lt b a)

pub find_file : SourceId → List (SourceId × FileHandle) → Option FileHandle
find_file s [] = none
find_file s ((t, f) ∷ m) = if same_source_id s t then some f else find_file s m

pub set_file : SourceId → FileHandle → List (SourceId × FileHandle) → List (SourceId × FileHandle)
set_file s f [] = (s, f) ∷ []
set_file s f ((t, g) ∷ m) = if same_source_id s t then (t, f) ∷ m else (t, g) ∷ set_file s f m

-- The file that data of a source goes to.
pub get_file : Recorder → SourceId → Option FileHandle
get_file r s =
    if r.per_source_recording_file then find_file s r.file_per_source_map else r.default_file

pub put_file : Recorder → SourceId → FileHandle → Recorder
put_file r s f =
    if r.per_source_recording_file
    then record r { file_per_source_map = set_file s f r.file_per_source_map }
    else record r { default_file = some f }

-- `resetCounters`: all files are closed and released.
unfoldable pub reset_counters : Recorder → Recorder
reset_counters r = record r {
  default_file = none;
  file_per_source_map = [];
  recording_enabled = false;
  per_link_previous_packet = λ link. no_packet;
  invalid_rdh = 0;
  empty_packets_dropped = 0;
  packets_recorded = 0;
  silence = false;
}

module _ (os : Os) (g : Settings) where
  -- The number in the name of a file, if there may be several files.
  abbrev pub file_id_text : Env → ℕ → List ℕ
  file_id_text env file_id =
      if not (eq_ℤ g.files_max (pos 1)) && ltb 0 file_id then env.format_file_id file_id else []

  abbrev pub is_last_file_passed : ℕ → Bool
  is_last_file_passed file_id = ltb_ℤ g.files_max (pos file_id) && leb_ℤ (pos 1) g.files_max

  -- The name is parsed; a flag that it sets stays set when the parse fails.
  abbrev pub name_file : Recorder → SourceId → ℕ → (Bool × List ℕ) × Recorder
  name_file r source file_id =
      let env = os.env r.created in
      let (ok, n) = parse_name env source g.file_name at_text (record {
        new_file_name = [];
        s_file_id = file_id_text env file_id;
        per_source_recording_file = r.per_source_recording_file;
        use_source_equipment_id = r.use_source_equipment_id;
        use_source_link_id = r.use_source_link_id;
      }) in
      (
        (ok, n.new_file_name ++ n.s_file_id),
        record r {
          per_source_recording_file = n.per_source_recording_file;
          use_source_equipment_id = n.use_source_equipment_id;
          use_source_link_id = n.use_source_link_id;
        },
      )

  -- The end of `createFile`: the file is opened, and stored if that succeeds.
  abbrev pub store_file : Recorder → SourceId → List ℕ → ℕ → Bool × Recorder
  store_file r source name file_id =
      let f =
        open_file (os.fopen r.created name) name g.max_file_size g.max_file_pages g.max_file_tf in
      let r' = record r { created = suc r.created } in
      if not f.is_ok
      then (false, r')
      else (true, put_file r' source (record f { file_id = file_id }))

  -- `createFile`: whether the result is 0.
  pub create_file : Recorder → SourceId → Bool → ℕ → Bool × Recorder
  create_file r source delay_if_source_id file_id =
      let ((ok, name), r') = name_file r source file_id in
      if not ok
      then (false, r')
      else if is_last_file_passed file_id
      then (false, r')
      else if r'.per_source_recording_file && delay_if_source_id
      then (true, r')
      else store_file r' source name file_id

  -- `start`
  unfoldable pub start : Recorder → Recorder
  start r =
      let (ok, r') = create_file (reset_counters r) undefined_source_id true 1 in
      if ok
      then record r' { recording_enabled = true }
      else record r' { is_error = suc r'.is_error }

  -- The next file of a source, after one that is full: its number starts again at 1 when the
  -- numbers are used in turn.
  abbrev pub is_round_done : ℕ → Bool
  is_round_done file_id = ltb_ℤ g.files_max (pos 0) && file_id % neg_part g.files_max == 1

  abbrev pub next_file : Recorder → SourceId → ℕ → Recorder
  next_file r source file_id =
      if eq_ℤ g.files_max (pos 1)
      then r
      else let id = if is_round_done file_id then 1 else file_id in
        let r' = if is_round_done file_id then record r { silence = true } else r in
        if ltb_ℤ g.files_max (pos 1) || leb_ℤ (pos id) g.files_max
        then (create_file r' source false id).1
        else r'

  -- `writeToFile`, with the number of attempts left: whether it returns, with the flag for the
  -- count of pages; an exception is `false`.
  pub write_attempts : ℕ → SourceId → Chunk → ℕ → ℕ → Bool → Recorder → Bool × (Bool × Recorder)
  write_attempts zero source c tf remaining count_page r = elim (get_file r source) [
    | none ↦ (false, (count_page, r))
    | some f ↦ (false, (count_page, put_file r source (close f)))
  ]
  write_attempts (suc n) source c tf remaining count_page r = elim (get_file r source) [
    | none ↦ (false, (count_page, r))
    | some f ↦
        let (status, f') = write (os.fwrite r.created) c tf count_page remaining f in
        let r' = put_file r source f' in
        let again = write_attempts n source c tf remaining count_page r' in
        let next =
          write_attempts n source c tf remaining count_page
            (next_file r' source (suc f'.file_id)) in
        elim status [ success ↦ (true, (false, r')) | error ↦ again | file_limits_reached ↦ next ]
  ]

  unfoldable pub write_to_file :
      SourceId → Chunk → ℕ → ℕ → Bool → Recorder → Bool × (Bool × Recorder)
  write_to_file = write_attempts 2
