-- ===== src/FileRecorder/Name/Templates.antt =====
-- The templates of names, their text, and what they stand for.
use mathlib.Core.Bool.{false≢true}
use readout.FileRecorder.Name.{
  Env, Naming, Place, SourceId, add_equipment, add_file_id, add_link, add_text, add_variable,
  after_dollar, after_percent, at_text, close_code, date_code, dollar_code, equipment_code,
  file_code, in_variable, link_code, open_code, parse_name, percent_code, time_code, undefined_text,
}
use readout.DataBlock.{undefined_equipment_id, undefined_link_id}
use readout.Prelude.{
  All, All-append, Bool, List, Option, [], ap, append-nil, append_assoc, arith, false, if-split,
  if◌then◌else◌, inl, inr, none, refl, some, subst, sym, true, ℕ, ◌++◌, ◌==◌, ◌||◌, ◌↔◌, ◌∙◌, ◌∷◌,
  ◌≡◌,
}

abbrev naming : List ℕ → List ℕ → Bool → Bool → Bool → Naming
naming name file_id per_source by_equipment by_link = record {
  new_file_name = name;
  s_file_id = file_id;
  per_source_recording_file = per_source;
  use_source_equipment_id = by_equipment;
  use_source_link_id = by_link;
}

pub data Piece : Type 0 where
  letter : ℕ → Piece
  variable : List ℕ → Piece
  time : Piece
  date : Piece
  equipment : Piece
  link : Piece
  number : Piece

abbrev pub print : Piece → List ℕ
print (letter c) = c ∷ []
print (variable name) = dollar_code ∷ open_code ∷ (name ++ (close_code ∷ []))
print time = percent_code ∷ time_code ∷ []
print date = percent_code ∷ date_code ∷ []
print equipment = percent_code ∷ equipment_code ∷ []
print link = percent_code ∷ link_code ∷ []
print number = percent_code ∷ file_code ∷ []

abbrev pub print_all : List Piece → List ℕ
print_all [] = []
print_all (p ∷ ps) = print p ++ print_all ps

abbrev pub IsOther : ℕ → ℕ → Type 0
IsOther a c = (c == a) ≡ false

-- A letter is no '$' and no '%', and a variable has no '}' in its name.
abbrev pub IsPiece : Piece → Type 0
IsPiece (letter c) = IsOther dollar_code c × IsOther percent_code c
IsPiece (variable name) = All (IsOther close_code) name
IsPiece time = Unit
IsPiece date = Unit
IsPiece equipment = Unit
IsPiece link = Unit
IsPiece number = Unit

module _ (env : Env) (source : SourceId) where
  -- What a piece adds to the name.
  abbrev pub add_piece : Piece → Naming → Naming
  add_piece (letter c) n = add_text (c ∷ []) n
  add_piece (variable name) n = add_variable env source name n
  add_piece time n = add_text env.time_text n
  add_piece date n = add_text env.date_text n
  add_piece equipment n = add_equipment env source n
  add_piece link n = add_link env source n
  add_piece number n = add_file_id env source n

  abbrev pub add_pieces : List Piece → Naming → Naming
  add_pieces [] n = n
  add_pieces (p ∷ ps) n = add_pieces ps (add_piece p n)

  -- What a piece stands for, where `file_id` is the number of the file that is not yet written.
  abbrev pub text_for : List ℕ → Piece → List ℕ
  text_for file_id (letter c) = c ∷ []
  text_for file_id (variable name) = elim (env.getenv name) [ none ↦ [] | some t ↦ t ]
  text_for file_id time = env.time_text
  text_for file_id date = env.date_text
  text_for file_id equipment =
      if source.equipment_id == undefined_equipment_id
      then undefined_text
      else env.to_string source.equipment_id
  text_for file_id link =
      if source.link_id == undefined_link_id then undefined_text else env.to_string source.link_id
  text_for file_id number = file_id

  abbrev pub is_equipment : Piece → Bool
  is_equipment equipment = true
  is_equipment p = false

  abbrev pub is_link : Piece → Bool
  is_link link = true
  is_link p = false

  abbrev pub is_number : Piece → Bool
  is_number number = true
  is_number p = false

  abbrev pub any_piece : (Piece → Bool) → List Piece → Bool
  any_piece f [] = false
  any_piece f (p ∷ ps) = f p || any_piece f ps

  -- The texts of the pieces, where the number of the file is written once.
  abbrev pub texts_for : List ℕ → List Piece → List ℕ
  texts_for file_id [] = []
  texts_for file_id (p ∷ ps) =
      text_for file_id p ++ texts_for (if is_number p then [] else file_id) ps

  -- The name of a template: the texts of its pieces; and there is a file for each source if the
  -- template has an equipment or a link, and it is these that tell the sources apart.
  abbrev pub named : List Piece → Naming → Naming
  named ps n = record {
    new_file_name = n.new_file_name ++ texts_for n.s_file_id ps;
    s_file_id = if any_piece is_number ps then [] else n.s_file_id;
    per_source_recording_file =
        n.per_source_recording_file || (any_piece is_equipment ps || any_piece is_link ps);
    use_source_equipment_id = n.use_source_equipment_id || any_piece is_equipment ps;
    use_source_link_id = n.use_source_link_id || any_piece is_link ps;
  }

  parse_variable :
      (name cs : List ℕ) (before : List ℕ) (n : Naming)
      → All (IsOther close_code) name
      → parse_name env source (name ++ (close_code ∷ cs)) (in_variable before) n
        ≡ parse_name env source cs at_text (add_variable env source (before ++ name) n)
  unfolding parse_name
  parse_variable [] cs before n h = rw (append-nil before) refl
  parse_variable (c ∷ name) cs before n h =
      rw (parse_name, h.0)
        (parse_variable name cs (before ++ (c ∷ [])) n h.1
          ∙ rw (append_assoc before (c ∷ []) name) refl)

  parse_piece :
      (p : Piece) (cs : List ℕ) (n : Naming)
      → IsPiece p
      → parse_name env source (print p ++ cs) at_text n
        ≡ parse_name env source cs at_text (add_piece p n)
  unfolding parse_name
  parse_piece (letter c) cs n h = rw (parse_name, h.0, h.1) refl
  parse_piece (variable name) cs n h =
      rw (append_assoc name (close_code ∷ []) cs) (parse_variable name cs [] n h)
  parse_piece time cs n h = refl
  parse_piece date cs n h = refl
  parse_piece equipment cs n h = refl
  parse_piece link cs n h = refl
  parse_piece number cs n h = refl

  pub parse_name-print_all :
      (ps : List Piece) (n : Naming)
      → All IsPiece ps
      → parse_name env source (print_all ps) at_text n ≡ (true, add_pieces ps n)
  unfolding parse_name
  parse_name-print_all [] n h = refl
  parse_name-print_all (p ∷ ps) n h =
      parse_piece p (print_all ps) n h.0 ∙ parse_name-print_all ps (add_piece p n) h.1

  same_naming :
      {a b : List ℕ} {c d : List ℕ} {e f g h i j : Bool}
      → a ≡ b
      → c ≡ d
      → e ≡ f
      → g ≡ h
      → i ≡ j
      → naming a c e g i ≡ naming b d f h j
  same_naming p q r s t = rw (p, q, r, s, t) refl

  named-variable :
      (o : Option (List ℕ)) (ps : List Piece) (n : Naming)
      → named ps (elim o [ none ↦ n | some t ↦ add_text t n ])
        ≡ naming
            (n.new_file_name ++ ((elim o [ none ↦ [] | some t ↦ t ]) ++ texts_for n.s_file_id ps))
            (if any_piece is_number ps then [] else n.s_file_id)
            (n.per_source_recording_file || (any_piece is_equipment ps || any_piece is_link ps))
            (n.use_source_equipment_id || any_piece is_equipment ps)
            (n.use_source_link_id || any_piece is_link ps)
  named-variable none ps n = refl
  named-variable (some t) ps n = same_naming (append_assoc n.new_file_name t _) refl refl refl refl

  named-cons :
      (p : Piece) (ps : List Piece) (n : Naming) → named ps (add_piece p n) ≡ named (p ∷ ps) n
  named-cons (letter c) ps n = same_naming (append_assoc n.new_file_name _ _) refl refl refl refl
  named-cons (variable name) ps n = named-variable (env.getenv name) ps n
  named-cons time ps n = same_naming (append_assoc n.new_file_name _ _) refl refl refl refl
  named-cons date ps n = same_naming (append_assoc n.new_file_name _ _) refl refl refl refl
  named-cons equipment ps n =
      same_naming (append_assoc n.new_file_name _ _) refl (ground arith) (ground arith) refl
  named-cons link ps n =
      same_naming (append_assoc n.new_file_name _ _) refl (ground arith) refl (ground arith)
  named-cons number ps n =
      same_naming (append_assoc n.new_file_name _ _) (ground arith) refl refl refl

  add_pieces-eq-named : (ps : List Piece) (n : Naming) → add_pieces ps n ≡ named ps n
  add_pieces-eq-named [] n =
      same_naming (sym (append-nil n.new_file_name)) refl (ground arith) (ground arith)
        (ground arith)
  add_pieces-eq-named (p ∷ ps) n = add_pieces-eq-named ps (add_piece p n) ∙ named-cons p ps n

  -- The text of a template is parsed, and the name gets the texts of the pieces, in their order: a
  -- letter, the value of a variable if it is set, the time, the date, the number of the equipment or
  -- of the link or the word for an undefined one, and at its first place only the number of the file.
  -- There is a file for each source, by equipment or by link, if the template has one of these. A
  -- letter of the template is no '$' and no '%', and the name of a variable has no '}'.
  pub parse_name-named :
      (ps : List Piece) (n : Naming)
      → All IsPiece ps
      → parse_name env source (print_all ps) at_text n ≡ (true, named ps n)
  parse_name-named ps n h =
      parse_name-print_all ps n h ∙ ap (λ m. (true, m)) (add_pieces-eq-named ps n)

  -- The text that was read when the loop is in the middle of a piece.
  abbrev text_of : Place → List ℕ
  text_of at_text = []
  text_of after_dollar = dollar_code ∷ []
  text_of (in_variable name) = dollar_code ∷ open_code ∷ name
  text_of after_percent = percent_code ∷ []

  abbrev IsPlace : Place → Type 0
  IsPlace at_text = Unit
  IsPlace after_dollar = Unit
  IsPlace (in_variable name) = All (IsOther close_code) name
  IsPlace after_percent = Unit

  abbrev pub IsTemplate : List ℕ → Type 0
  IsTemplate cs = (ps : List Piece) × (print_all ps ≡ cs) × All IsPiece ps

  piece_before : (p : Piece) (cs : List ℕ) → IsPiece p → IsTemplate cs → IsTemplate (print p ++ cs)
  piece_before p cs h (ps, e, k) = (p ∷ ps, ap (λ t. print p ++ t) e, (h, k))

  letter_code : (a c : ℕ) → (c == a) ≡ true → c ≡ a
  letter_code a c h = ground arith

  abbrev Parsed : Bool × Naming → Type 0
  Parsed r = r.0 ≡ true

  -- '%' and the letter of a piece.
  coded :
      (a c : ℕ) (cs : List ℕ) (p : Piece)
      → (c == a) ≡ true
      → print p ≡ percent_code ∷ a ∷ []
      → IsPiece p
      → IsTemplate cs
      → IsTemplate (percent_code ∷ c ∷ cs)
  coded a c cs p e g h t =
      subst (λ x. IsTemplate (percent_code ∷ x ∷ cs)) (sym (letter_code a c e))
        (subst (λ t. IsTemplate (t ++ cs)) g (piece_before p cs h t))

  parse_name-IsTemplate :
      (cs : List ℕ) (place : Place) (n : Naming)
      → IsPlace place
      → (parse_name env source cs place n).0 ≡ true
      → IsTemplate (text_of place ++ cs)
  unfolding parse_name
  parse_name-IsTemplate [] at_text n h k = ([], refl, tt)
  parse_name-IsTemplate [] after_dollar n h k = absurd (false≢true k)
  parse_name-IsTemplate [] (in_variable name) n h k = absurd (false≢true k)
  parse_name-IsTemplate [] after_percent n h k = absurd (false≢true k)
  parse_name-IsTemplate (c ∷ cs) at_text n h k = elim (if-split Parsed (c == dollar_code) k) [
    | inl (e, l) ↦
        subst (λ x. IsTemplate (x ∷ cs)) (sym (letter_code dollar_code c e))
          (parse_name-IsTemplate cs after_dollar n tt l)
    | inr (e, l) ↦ elim (if-split Parsed (c == percent_code) l) [
      | inl (g, m) ↦
          subst (λ x. IsTemplate (x ∷ cs)) (sym (letter_code percent_code c g))
            (parse_name-IsTemplate cs after_percent n tt m)
      | inr (g, m) ↦
          piece_before (letter c) cs (e, g)
            (parse_name-IsTemplate cs at_text (add_text (c ∷ []) n) tt m)
    ]
  ]
  parse_name-IsTemplate (c ∷ cs) after_dollar n h k = elim (if-split Parsed (c == open_code) k) [
    | inl (e, l) ↦
        subst (λ x. IsTemplate (dollar_code ∷ x ∷ cs)) (sym (letter_code open_code c e))
          (parse_name-IsTemplate cs (in_variable []) n tt l)
    | inr (e, l) ↦ absurd (false≢true l)
  ]
  parse_name-IsTemplate (c ∷ cs) (in_variable name) n h k =
      elim (if-split Parsed (c == close_code) k) [
        | inl (e, l) ↦
            subst (λ x. IsTemplate (dollar_code ∷ open_code ∷ (name ++ (x ∷ cs))))
              (sym (letter_code close_code c e))
              (subst (λ t. IsTemplate (dollar_code ∷ open_code ∷ t))
                (append_assoc name (close_code ∷ []) cs)
                (piece_before (variable name) cs h
                  (parse_name-IsTemplate cs at_text (add_variable env source name n) tt l)))
        | inr (e, l) ↦
            subst (λ t. IsTemplate (dollar_code ∷ open_code ∷ t)) (append_assoc name (c ∷ []) cs)
              (parse_name-IsTemplate cs (in_variable (name ++ (c ∷ []))) n
                (All-append (IsOther close_code) name (c ∷ []) h (e, tt)) l)
      ]
  parse_name-IsTemplate (c ∷ cs) after_percent n h k = elim (if-split Parsed (c == time_code) k) [
    | inl (e, l) ↦ coded time_code c cs time e refl tt (parse_name-IsTemplate cs at_text _ tt l)
    | inr (e, l) ↦ elim (if-split Parsed (c == date_code) l) [
      | inl (e2, l2) ↦
          coded date_code c cs date e2 refl tt (parse_name-IsTemplate cs at_text _ tt l2)
      | inr (e2, l2) ↦ elim (if-split Parsed (c == equipment_code) l2) [
        | inl (e3, l3) ↦
            coded equipment_code c cs equipment e3 refl tt
              (parse_name-IsTemplate cs at_text _ tt l3)
        | inr (e3, l3) ↦ elim (if-split Parsed (c == link_code) l3) [
          | inl (e4, l4) ↦
              coded link_code c cs link e4 refl tt (parse_name-IsTemplate cs at_text _ tt l4)
          | inr (e4, l4) ↦ elim (if-split Parsed (c == file_code) l4) [
            | inl (e5, l5) ↦
                coded file_code c cs number e5 refl tt (parse_name-IsTemplate cs at_text _ tt l5)
            | inr (e5, l5) ↦ absurd (false≢true l5)
          ]
        ]
      ]
    ]
  ]

  -- A text is parsed without an error exactly if it is the text of a template.
  pub parse_name_iff :
      (cs : List ℕ) (n : Naming) → ((parse_name env source cs at_text n).0 ≡ true) ↔ IsTemplate cs
  parse_name_iff cs n = (
    parse_name-IsTemplate cs at_text n tt,
    λ (ps, e, h).
        subst (λ t. (parse_name env source t at_text n).0 ≡ true) e
          (ap (λ r. r.0) (parse_name-print_all ps n h)),
  )
