-- ===== src/FileRecorder/Name.antt =====
-- createFile: the name of a file, from the configured one and its variables. A character is its
-- code. What the code asks of the system and of the C library is in the record `Env`.
pub mod Templates
use readout.Prelude.{
  Bool, List, Option, [], false, if◌then◌else◌, none, some, true, ℕ, ◌++◌, ◌==◌, ◌∷◌,
}
use readout.DataBlock.{undefined_equipment_id, undefined_link_id}

-- `getenv`, the time and the date as texts, and the formats of a number: `std::to_string`, and
-- that of `snprintf` with "%03d" in 11 bytes.
pub record Env : Type 0 where
  pub getenv : List ℕ → Option (List ℕ)
  pub time_text : List ℕ
  pub date_text : List ℕ
  pub to_string : ℕ → List ℕ
  pub format_file_id : ℕ → List ℕ

-- The data source that a file is for.
pub record SourceId : Type 0 where
  pub link_id : ℕ
  pub equipment_id : ℕ

abbrev pub undefined_source_id : SourceId
undefined_source_id = record { link_id = undefined_link_id; equipment_id = undefined_equipment_id }

-- "undefined"
abbrev pub undefined_text : List ℕ
undefined_text = 117 ∷ 110 ∷ 100 ∷ 101 ∷ 102 ∷ 105 ∷ 110 ∷ 101 ∷ 100 ∷ []

-- '$', '{', '}' and '%', and the letters t, T, i, l and f.
abbrev pub dollar_code : ℕ
dollar_code = 36

abbrev pub open_code : ℕ
open_code = 123

abbrev pub close_code : ℕ
close_code = 125

abbrev pub percent_code : ℕ
percent_code = 37

abbrev pub time_code : ℕ
time_code = 116

abbrev pub date_code : ℕ
date_code = 84

abbrev pub equipment_code : ℕ
equipment_code = 105

abbrev pub link_code : ℕ
link_code = 108

abbrev pub file_code : ℕ
file_code = 102

-- The new name so far, the file number not yet written, and the flags of the recorder.
pub record Naming : Type 0 where
  pub new_file_name : List ℕ
  pub s_file_id : List ℕ
  pub per_source_recording_file : Bool
  pub use_source_equipment_id : Bool
  pub use_source_link_id : Bool

-- Where the loop stands: at a character of the name, after '$', in the name of a variable, or
-- after '%'.
pub data Place : Type 0 where
  at_text : Place
  after_dollar : Place
  in_variable : List ℕ → Place
  after_percent : Place

abbrev pub add_text : List ℕ → Naming → Naming
add_text t n = record n { new_file_name = n.new_file_name ++ t }

module _ (env : Env) (source : SourceId) where
  -- A variable that is not set adds nothing.
  abbrev pub add_variable : List ℕ → Naming → Naming
  add_variable name n = elim (env.getenv name) [ none ↦ n | some t ↦ add_text t n ]

  abbrev pub add_equipment : Naming → Naming
  add_equipment n =
      let t =
        if source.equipment_id == undefined_equipment_id
        then undefined_text
        else env.to_string source.equipment_id in
      record n {
        new_file_name = n.new_file_name ++ t;
        per_source_recording_file = true;
        use_source_equipment_id = true;
      }

  abbrev pub add_link : Naming → Naming
  add_link n =
      let t =
        if source.link_id == undefined_link_id
        then undefined_text
        else env.to_string source.link_id in
      record n {
        new_file_name = n.new_file_name ++ t;
        per_source_recording_file = true;
        use_source_link_id = true;
      }

  -- The number is written once only.
  abbrev pub add_file_id : Naming → Naming
  add_file_id n = record n { new_file_name = n.new_file_name ++ n.s_file_id; s_file_id = [] }

  -- The loop over the characters: whether all were parsed, and the name.
  pub parse_name : List ℕ → Place → Naming → Bool × Naming
  parse_name [] at_text n = (true, n)
  parse_name [] after_dollar n = (false, n)
  parse_name [] (in_variable name) n = (false, n)
  parse_name [] after_percent n = (false, n)
  parse_name (c ∷ cs) at_text n =
      if c == dollar_code
      then parse_name cs after_dollar n
      else if c == percent_code
      then parse_name cs after_percent n
      else parse_name cs at_text (add_text (c ∷ []) n)
  parse_name (c ∷ cs) after_dollar n =
      if c == open_code then parse_name cs (in_variable []) n else (false, n)
  parse_name (c ∷ cs) (in_variable name) n =
      if c == close_code
      then parse_name cs at_text (add_variable name n)
      else parse_name cs (in_variable (name ++ (c ∷ []))) n
  parse_name (c ∷ cs) after_percent n =
      if c == time_code
      then parse_name cs at_text (add_text env.time_text n)
      else if c == date_code
      then parse_name cs at_text (add_text env.date_text n)
      else if c == equipment_code
      then parse_name cs at_text (add_equipment n)
      else if c == link_code
      then parse_name cs at_text (add_link n)
      else if c == file_code
      then parse_name cs at_text (add_file_id n)
      else (false, n)
