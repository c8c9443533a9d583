-- ===== src/FileRecorder/Files/Rotation.antt =====
-- All files of a recorder are within their limits, and so are their numbers.
use native.Mathlib.Decide.{dec_lt}
use native.Mathlib.Nat.{add-mod_left, mod-eq_of_lt}
use readout.FileRecorder.Name.{SourceId}
use readout.FileRecorder.Files.{
  Os, Recorder, Settings, create_file, find_file, get_file, is_last_file_passed, is_round_done,
  name_file, next_file, put_file, same_source_id, set_file, write_attempts,
}
use readout.FileRecorder.File.{
  Chunk, FileHandle, Status, close, error, file_limits_reached, open_file, success, write,
}
use readout.FileRecorder.File.Limits.{
  IsWithin, close-IsWithin, open_file-IsWithin, write-IsWithin, write-keeps,
}
use readout.Prelude.{
  All, Bool, List, Option, Option-intro, [], arith, false, if-intro, if◌then◌else◌, inr, none, not,
  refl, some, subst, suc, true, zero, ℕ, ◌%◌, ◌&&◌, ◌+◌, ◌<◌, ◌==◌, ◌^◌, ◌||◌, ◌∷◌, ◌≡◌, ◌≢◌, ◌≤◌,
  ◌⊎◌,
}
use readout.Prelude.Int.{eq_ℤ, leb_ℤ, ltb_ℤ, neg_part, negsuc, pos, pos_part, ℤ}

-- The numbers of the files: up to the limit, whether it is that of all files or of those that are
-- used in turn.
abbrev pub IsFileId : ℤ → ℕ → Type 0
IsFileId files_max id =
    (1 ≤ id) × ((files_max ≡ pos 0) ⊎ (id ≤ pos_part files_max + neg_part files_max))

-- A file of a recorder: made with its limits, and within them.
pub record IsLimited (g : Settings) (f : FileHandle) : Type 0 where
  pub within : IsWithin f
  pub same_size : f.max_file_size ≡ g.max_file_size
  pub same_pages : f.max_pages ≡ g.max_file_pages
  pub same_tf : f.max_tf ≡ g.max_file_tf
  pub id_fits : IsFileId g.files_max f.file_id

abbrev pub OfOption {ℓ κ} : {A : Type ℓ} → (A → Type κ) → Option A → Type κ
OfOption P none = Unit
OfOption P (some a) = P a

abbrev pub AllFiles : (FileHandle → Type 0) → Recorder → Type 0
AllFiles P r = OfOption P r.default_file × All (λ e. P e.1) r.file_per_source_map

module _ (P : FileHandle → Type 0) where
  find_file-All :
      (s : SourceId) (m : List (SourceId × FileHandle))
      → All (λ e. P e.1) m
      → OfOption P (find_file s m)
  unfolding find_file
  find_file-All s [] h = tt
  find_file-All s ((t, f) ∷ m) h =
      if-intro (OfOption P) (same_source_id s t) (λ e. h.0) λ e. find_file-All s m h.1

  set_file-All :
      (s : SourceId) (f : FileHandle) (m : List (SourceId × FileHandle))
      → All (λ e. P e.1) m
      → P f
      → All (λ e. P e.1) (set_file s f m)
  unfolding set_file
  set_file-All s f [] h k = (k, tt)
  set_file-All s f ((t, g) ∷ m) h k =
      if-intro (All (λ e. P e.1)) (same_source_id s t) (λ e. (k, h.1))
        λ e. (h.0, set_file-All s f m h.1 k)

  pub get_file-All : (r : Recorder) (s : SourceId) → AllFiles P r → OfOption P (get_file r s)
  unfolding get_file
  get_file-All r s h =
      if-intro (OfOption P) r.per_source_recording_file
        (λ e. find_file-All s r.file_per_source_map h.1) λ e. h.0

  pub put_file-All :
      (r : Recorder) (s : SourceId) (f : FileHandle)
      → AllFiles P r
      → P f
      → AllFiles P (put_file r s f)
  unfolding put_file
  put_file-All r s f h k =
      if-intro (AllFiles P) r.per_source_recording_file
        (λ e. (h.0, set_file-All s f r.file_per_source_map h.1 k)) λ e. (k, h.1)

negative : (m : ℕ) → ltb_ℤ (negsuc (suc m)) (pos 0) ≡ true
negative m = ground arith

add_one : (m : ℕ) → suc (suc m) ≡ suc m + 1
add_one m = omega arith

suc_fits : (m : ℕ) → 1 ≤ m → 1 < suc m
suc_fits m h = omega arith

pub status-intro :
    {A : Type 0} (P : A → Type 0) (s : Status) {x y z : A}
    → P x
    → P y
    → P z
    → P (elim s [ success ↦ x | error ↦ y | file_limits_reached ↦ z ])
status-intro P success h k l = h
status-intro P error h k l = k
status-intro P file_limits_reached h k l = l

module _ (os : Os) (g : Settings) where
  close-IsLimited : (f : FileHandle) → IsLimited g f → IsLimited g (close f)
  unfolding close
  close-IsLimited f h = record {
    within = close-IsWithin f h.within;
    same_size = h.same_size;
    same_pages = h.same_pages;
    same_tf = h.same_tf;
    id_fits = h.id_fits;
  }

  write-IsLimited :
      (fwrite : List Chunk → Chunk → Bool) (c : Chunk) (tf : ℕ) (is_page : Bool) (remaining : ℕ)
      (f : FileHandle)
      → IsLimited g f
      → g.max_file_size + c.size + remaining < 2 ^ 64
      → IsLimited g (write fwrite c tf is_page remaining f).1
  write-IsLimited fwrite c tf is_page remaining f h fits =
      let (a, b, d, e) =
        write-keeps fwrite
          (λ s p t id.
            (s ≡ g.max_file_size)
            × (p ≡ g.max_file_pages)
            × (t ≡ g.max_file_tf)
            × IsFileId g.files_max id)
          c tf is_page remaining f (h.same_size, h.same_pages, h.same_tf, h.id_fits) in
      record {
        within =
            write-IsWithin fwrite c tf is_page remaining f h.within
              (omega (arith, h.same_size, fits));
        same_size = a;
        same_pages = b;
        same_tf = d;
        id_fits = e;
      }

  new_file-IsLimited :
      (fopen : Bool) (name : List ℕ) (id : ℕ)
      → IsFileId g.files_max id
      → IsLimited g (record (open_file fopen name g.max_file_size g.max_file_pages g.max_file_tf) {
        file_id = id;
      })
  unfolding open_file
  new_file-IsLimited fopen name id h =
      let f = open_file fopen name g.max_file_size g.max_file_pages g.max_file_tf in
      let k = open_file-IsWithin fopen name g.max_file_size g.max_file_pages g.max_file_tf in
      record {
        within = record {
          counted = k.counted;
          within_tf = k.within_tf;
          full_closed = k.full_closed;
          tf_counted = record {
            changes_counted = k.tf_counted.changes_counted;
            newest_kept = k.tf_counted.newest_kept;
          };
        };
        same_size = refl;
        same_pages = refl;
        same_tf = refl;
        id_fits = h;
      }

  pub create_file-All :
      (r : Recorder) (s : SourceId) (delay : Bool) (id : ℕ)
      → IsFileId g.files_max id
      → AllFiles (IsLimited g) r
      → AllFiles (IsLimited g) (create_file os g r s delay id).1
  unfolding create_file
  create_file-All r s delay id k h =
      let P : Bool × Recorder → Type 0 = λ x. AllFiles (IsLimited g) x.1 in
      let ((ok, name), r') = name_file os g r s id in
      if-intro P (not ok) (λ e. h)
        λ e.
          if-intro P (is_last_file_passed os g id) (λ e. h)
            λ e.
              if-intro P (r'.per_source_recording_file && delay) (λ e. h)
                λ e.
                  if-intro P _ (λ e. h)
                    λ e.
                      put_file-All (IsLimited g) (record r' { created = suc r'.created }) s
                        (record (open_file (os.fopen r'.created name) name g.max_file_size
                          g.max_file_pages g.max_file_tf) { file_id = id })
                        h (new_file-IsLimited (os.fopen r'.created name) name id k)

  -- The number that follows one in range is in range, since it is put back to 1 after the last.
  round_fits : (id m : ℕ) → 1 ≤ m → id ≤ suc m → (if suc id % suc m == 1 then 1 else suc id) ≤ suc m
  round_fits id m h k = elim (dec_lt id (suc m)) [
    | yes e ↦ ground arith
    | no e ↦
        let last : id ≡ suc m = omega arith in
        rw (last, add_one m, add-mod_left (suc m) 1, mod-eq_of_lt (suc_fits m h)) (omega arith)
  ]

  next_id-fits :
      (id : ℕ) (n : ℤ)
      → g.files_max ≡ n
      → n ≢ negsuc 0
      → IsFileId n id
      → (let id' = if is_round_done os g (suc id) then 1 else suc id in
          (ltb_ℤ n (pos 1) || leb_ℤ (pos id') n) ≡ true → IsFileId n id')
  next_id-fits id (pos n) e several h k = rw (e) (ground arith)
  next_id-fits id (negsuc zero) e several h k = absurd (several refl)
  next_id-fits id (negsuc (suc m)) e several h k =
      let b : id ≤ suc (suc m) = ground (arith, h.1) in
      let next = round_fits id (suc m) (omega arith) b in
      rw (e, negative m) (ground arith, inr (omega (arith, next)))

  next_file-All :
      (r : Recorder) (s : SourceId) (id : ℕ)
      → g.files_max ≢ negsuc 0
      → IsFileId g.files_max id
      → AllFiles (IsLimited g) r
      → AllFiles (IsLimited g) (next_file os g r s (suc id))
  next_file-All r s id several k h =
      let P = AllFiles (IsLimited g) in
      let r' : Recorder = if is_round_done os g (suc id) then record r { silence = true } else r in
      let h' : P r' = if-intro P (is_round_done os g (suc id)) (λ e. h) λ e. h in
      let id' : ℕ = if is_round_done os g (suc id) then 1 else suc id in
      if-intro P (eq_ℤ g.files_max (pos 1)) (λ e. h)
        λ e.
          if-intro P (ltb_ℤ g.files_max (pos 1) || leb_ℤ (pos id') g.files_max)
            (λ l. create_file-All r' s false id' (next_id-fits id g.files_max refl several k l) h')
            λ l. h'

  -- A write keeps the files of the recorder within their limits.
  pub write_attempts-All :
      (n : ℕ) (s : SourceId) (c : Chunk) (tf remaining : ℕ) (count_page : Bool) (r : Recorder)
      → g.files_max ≢ negsuc 0
      → g.max_file_size + c.size + remaining < 2 ^ 64
      → AllFiles (IsLimited g) r
      → AllFiles (IsLimited g) (write_attempts os g n s c tf remaining count_page r).1.1
  unfolding write_attempts
  write_attempts-All zero s c tf remaining count_page r several fits h =
      let Q : Bool × (Bool × Recorder) → Type 0 = λ x. AllFiles (IsLimited g) x.1.1 in
      Option-intro Q (get_file r s) (λ e. h)
        λ f e.
          put_file-All (IsLimited g) r s (close f) h (
            close-IsLimited f (subst (OfOption (IsLimited g)) e (get_file-All (IsLimited g) r s h)))
  write_attempts-All (suc n) s c tf remaining count_page r several fits h =
      let Q : Bool × (Bool × Recorder) → Type 0 = λ x. AllFiles (IsLimited g) x.1.1 in
      Option-intro Q (get_file r s) (λ e. h)
        λ f e.
          (let (st, f') = write (os.fwrite r.created) c tf count_page remaining f in
            let r' = put_file r s f' in
            let k : IsLimited g f =
              subst (OfOption (IsLimited g)) e (get_file-All (IsLimited g) r s h) in
            let k' : IsLimited g f' =
              write-IsLimited (os.fwrite r.created) c tf count_page remaining f k fits in
            let h' : AllFiles (IsLimited g) r' = put_file-All (IsLimited g) r s f' h k' in
            status-intro Q st h'
              (write_attempts-All n s c tf remaining count_page r' several fits h')
              (write_attempts-All n s c tf remaining count_page
                (next_file os g r' s (suc f'.file_id)) several fits
                (next_file-All r' s f'.file_id several k'.id_fits h')))
