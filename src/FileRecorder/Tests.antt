-- ===== src/FileRecorder/Tests.antt =====
-- A recorder of files in turn, and a page of three packets.
use readout.FileRecorder.Push.Steps.{Gives, IsPage, IsTaking, items}
use readout.FileRecorder.File.Pages.{IsOpenFile, write-half_page}
use readout.Prelude.{
  List, [], arith, false, if◌then◌else◌, none, refl, true, ℕ, ◌++◌, ◌+◌, ◌<◌, ◌==◌, ◌^◌, ◌↔◌, ◌∷◌,
  ◌≡◌,
}
use readout.Prelude.Int.{negsuc, pos}
use readout.DataBlock.{default_data_block_header}
use readout.FileRecorder.Push.{Sink, filter_packets, push_data, scan_of}
use readout.FileRecorder.Push.Filter.{drop_pairs, scan, to_list}
use readout.FileRecorder.Push.Page.{filter_packets-page}
use readout.FileRecorder.Push.Outcome.{Returns, push_data-total}
use readout.FileRecorder.Push.Invariant.{
  IsPushed, IsSettings, push_data-IsRecorder, start-IsRecorder,
}
use readout.FileRecorder.Files.{Os, Recorder, Settings, no_packet, start}
use readout.FileRecorder.File.{Chunk, FileHandle, file_limits_reached, open_file, success, write}
use readout.FileRecorder.Name.{Env, Naming, at_text, parse_name, undefined_source_id}
use readout.FileRecorder.Name.Templates.{
  IsTemplate, Piece, letter, link, named, number, parse_name-named, parse_name_iff, print_all,
}
use readout.Aggregator.Slicer.{Block}
use readout.Rdh.{Rdh, validate_rdh}
use readout.Rdh.Tests.{packet}

abbrev env : Env
env = record {
  getenv = λ name. none;
  time_text = 48 ∷ [];
  date_text = 49 ∷ [];
  to_string = λ n. (48 + n) ∷ [];
  format_file_id = λ n. 48 ∷ 48 ∷ (48 + n) ∷ [];
}

abbrev os : Os
os = record { env = λ n. env; fopen = λ n path. true; fwrite = λ n written c. true }

-- "a%l": a file for each link.
abbrev settings : Settings
settings = record {
  file_name = 97 ∷ 37 ∷ 108 ∷ [];
  record_with_data_block_header = false;
  max_file_size = 100;
  max_file_pages = pos 0;
  max_file_tf = pos 0;
  files_max = negsuc 1;
  drop_empty_hb_frames = true;
  drop_empty_hb_frames_trigger_mask = 2048;
}

abbrev idle : Recorder
idle = record {
  default_file = none;
  file_per_source_map = [];
  per_source_recording_file = false;
  use_source_equipment_id = false;
  use_source_link_id = false;
  recording_enabled = false;
  silence = false;
  per_link_previous_packet = λ link. no_packet;
  invalid_rdh = 0;
  empty_packets_dropped = 0;
  packets_recorded = 0;
  is_error = 0;
  created = 0;
}

abbrev empty_rdh : ℕ → Rdh
empty_rdh stop = record (packet 64) {
  memory_size = 64;
  trigger_type = 0;
  stop_bit = stop;
  pages_counter = stop;
}

-- An empty HBstart, an empty HBstop, and a packet with data.
abbrev memory : ℕ → Rdh
memory a = if a == 4096 then empty_rdh 0 else if a == 4160 then empty_rdh 1 else packet 64

memory_fits : (a : ℕ) → (memory a).offset_next_packet < 2 ^ 16
memory_fits a = ground arith

abbrev page : Block
page = record {
  header = record default_data_block_header { data_size = 192; link_id = 4; timeframe_id = 1 };
  data_ptr = 4096;
}

abbrev header_of : Block → Chunk
header_of b = record { address = 1; size = 80 }

settings-IsSettings : IsSettings settings
settings-IsSettings = record { size_fits = omega arith; several = λ e. absurd (ground arith) }

push_data-IsRecorder_example :
    IsPushed os settings memory header_of settings-IsSettings memory_fits
      (λ b. omega arith)
      (push_data os settings memory header_of page (start os settings idle))
push_data-IsRecorder_example =
    push_data-IsRecorder os settings memory header_of settings-IsSettings memory_fits
      (λ b. omega arith) page (start os settings idle) (omega arith)
      (start-IsRecorder os settings idle)

push_data-total_example :
    Returns os settings memory header_of
      (push_data os settings memory header_of page (start os settings idle))
push_data-total_example = push_data-total os settings memory header_of page (start os settings idle)

-- A file without limits, as the list of what was written.
abbrev list_sink : Sink (List Chunk)
list_sink = record { has_file = λ s. true; put = λ c t s. (true, s ++ (c ∷ [])) }

list_sink-IsTaking : IsTaking list_sink 2048 memory 4096 192 1 (λ s. Unit)
list_sink-IsTaking = record {
  good_file = λ s g. refl;
  good_put = λ c t s g. refl;
  good_next = λ c t s g. tt;
}

three_packets : IsPage list_sink 2048 memory 4096 192 1 0 3
unfolding validate_rdh
three_packets = (
  omega arith,
  refl,
  omega arith,
  (omega arith, refl, omega arith, (omega arith, refl, omega arith, omega arith)),
)

filter_packets_example :
    let all = items list_sink 2048 memory 4096 192 1 0 3 in
    let (w, p, m) = scan 2048 none all in
    (w ++ to_list p ≡ drop_pairs 2048 all)
    × Gives list_sink 2048 memory 4096 192 1
        (λ s. Unit)
        list_sink-IsTaking
        (scan_of 4 idle)
        []
        (w, p, m)
        (filter_packets list_sink 2048 memory 4096 192 1 386 0 (scan_of 4 idle) [])
filter_packets_example =
    filter_packets-page list_sink 2048 memory 4096 192 1 (λ s. Unit) list_sink-IsTaking 3 386 none
      (scan_of 4 idle) [] tt (omega arith) (omega arith) three_packets (refl, refl)

abbrev no_name : Naming
no_name = record {
  new_file_name = [];
  s_file_id = 48 ∷ [];
  per_source_recording_file = false;
  use_source_equipment_id = false;
  use_source_link_id = false;
}

-- "a%l%f"
abbrev template : List Piece
template = letter 97 ∷ link ∷ number ∷ []

parse_name-named_example :
    parse_name env undefined_source_id (print_all template) at_text no_name
    ≡ (true, named env undefined_source_id template no_name)
parse_name-named_example =
    parse_name-named env undefined_source_id template no_name ((refl, refl), (tt, (tt, tt)))

parse_name_iff_example :
    ((parse_name env undefined_source_id (97 ∷ 37 ∷ []) at_text no_name).0 ≡ true)
    ↔ IsTemplate env undefined_source_id (97 ∷ 37 ∷ [])
parse_name_iff_example = parse_name_iff env undefined_source_id (97 ∷ 37 ∷ []) no_name

-- A file of one page.
abbrev one_page : FileHandle
one_page = open_file true (97 ∷ []) 0 (pos 1) (pos 0)

one_page-IsOpenFile : IsOpenFile one_page
unfolding open_file
one_page-IsOpenFile = record { not_full = refl; still_open = refl; no_size = refl; no_tf = refl }

abbrev a_header : Chunk
a_header = record { address = 1; size = 80 }

abbrev a_payload : Chunk
a_payload = record { address = 4096; size = 192 }

write-half_page_example :
    let (s, f1) = write (λ l c. true) a_header 1 true 192 one_page in
    let (s', f2) = write (λ l c. true) a_payload 1 false 0 f1 in
    (s ≡ success)
    × (f1.written ≡ one_page.written ++ (a_header ∷ []))
    × (s' ≡ file_limits_reached)
    × (f2.written ≡ f1.written)
unfolding open_file
write-half_page_example =
    write-half_page (λ l c. true) a_header a_payload 1 192 one_page refl refl one_page-IsOpenFile
      refl refl
