-- ===== src/Equipment/Links.antt =====
-- src/ReadoutEquipment.cxx, processRdh: the statistics of the links, from the first header of each
-- block. Logs are left out, and so is the check of the trigger type, which only logs.
use readout.Prelude.{
  Bool, Bool-cases, List, Option, Option-intro, [], add64, ap, arith, false, if-intro,
  if◌then◌else◌, inl, inr, leb, none, not, refl, some, suc, true, ℕ, ◌%◌, ◌&&◌, ◌+◌, ◌<◌, ◌==◌, ◌^◌,
  ◌∙◌, ◌∷◌, ◌≡◌, ◌≤◌,
}
use readout.DataBlock.{undefined_link_id}
use readout.Rdh.{Rdh, rdh_max_link_id}

-- Vectors of one entry for each link are functions; `first_orbit` is `none` until it is defined.
pub record Links : Type 0 where
  pub equipment_links_used : ℕ → Bool
  pub bytes_rx : ℕ → ℕ
  pub first_orbit : ℕ → Option ℕ
  pub first_link_id : ℕ
  pub first_link_orbit : ℕ
  pub is_fatal_error : ℕ

-- `start`: the first orbit is kept, and set with the first link.
abbrev pub reset_links : Links → Links
reset_links l = record {
  equipment_links_used = λ link. false;
  bytes_rx = λ link. 0;
  first_orbit = λ link. none;
  first_link_id = undefined_link_id;
  first_link_orbit = l.first_link_orbit;
  is_fatal_error = 0;
}

abbrev pub put_at {ℓ} : {A : Type ℓ} → ℕ → A → (ℕ → A) → ℕ → A
put_at i a f j = if j == i then a else f j

abbrev count_bytes : ℕ → ℕ → Links → Links
count_bytes link size l = record l {
  equipment_links_used = put_at link true l.equipment_links_used;
  bytes_rx = put_at link (add64 (l.bytes_rx link) size) l.bytes_rx;
}

-- The first link that sends data gives the orbit that the others are compared to.
abbrev define_first_link : ℕ → ℕ → Links → Links
define_first_link link orbit l =
    if l.first_link_id == undefined_link_id
    then record l { first_link_id = link; first_link_orbit = orbit }
    else l

abbrev define_first_orbit : Bool → ℕ → ℕ → Links → Links
define_first_orbit check link orbit l = elim (l.first_orbit link) [
  | some o ↦ l
  | none ↦ record l {
    is_fatal_error =
        if not (orbit == l.first_link_orbit) && check
        then suc l.is_fatal_error
        else l.is_fatal_error;
    first_orbit = put_at link (some orbit) l.first_orbit;
  }
]

-- The header of a block of some size; `check` is `cfgRdhCheckFirstOrbit`.
pub update_links : Bool → Rdh → ℕ → Links → Links
update_links check h size l =
    if leb h.link_id rdh_max_link_id
    then define_first_orbit check h.link_id h.heartbeat_orbit
        (define_first_link h.link_id h.heartbeat_orbit (count_bytes h.link_id size l))
    else l

abbrev pub update_all : Bool → List (Rdh × ℕ) → Links → Links
update_all check [] l = l
update_all check ((h, size) ∷ bs) l = update_all check bs (update_links check h size l)

-- The bytes of the blocks of a link.
abbrev pub bytes_of : ℕ → List (Rdh × ℕ) → ℕ
bytes_of link [] = 0
bytes_of link ((h, size) ∷ bs) = (if link == h.link_id then size else 0) + bytes_of link bs

counted :
    (at size link : ℕ) (f : ℕ → ℕ)
    → f link < 2 ^ 64
    → put_at at (add64 (f at) size) f link ≡ (f link + (if link == at then size else 0)) % 2 ^ 64
counted at size link f h = elim (Bool-cases (link == at)) [
  | inl e ↦ (let same : link ≡ at = ground (arith, e) in rw (e, ap f same) refl)
  | inr e ↦ rw (e) (omega (arith, h))
]

-- What holds of the counters of bytes and of the orbits holds after the orbits are looked at.
bytes_rx-define :
    (check : Bool) (link orbit : ℕ) (l : Links)
    → (define_first_orbit check link orbit (define_first_link link orbit l)).bytes_rx ≡ l.bytes_rx
bytes_rx-define check link orbit l =
    let P : Links → Type 0 = λ x. x.bytes_rx ≡ l.bytes_rx in
    let l' = define_first_link link orbit l in
    let h : P l' = if-intro P (l.first_link_id == undefined_link_id) (λ e. refl) λ e. refl in
    Option-intro P (l'.first_orbit link) (λ e. h) λ o e. h

bytes_rx-update_links :
    (check : Bool) (h : Rdh) (size link : ℕ) (l : Links)
    → link ≤ rdh_max_link_id
    → l.bytes_rx link < 2 ^ 64
    → (update_links check h size l).bytes_rx link
      ≡ (l.bytes_rx link + (if link == h.link_id then size else 0)) % 2 ^ 64
unfolding update_links
bytes_rx-update_links check h size link l v f =
    let X = (l.bytes_rx link + (if link == h.link_id then size else 0)) % 2 ^ 64 in
    if-intro (λ (x : Links). x.bytes_rx link ≡ X) (leb h.link_id rdh_max_link_id)
      (λ e.
        ap (λ b. b link)
          (bytes_rx-define check h.link_id h.heartbeat_orbit (count_bytes h.link_id size l))
        ∙ counted h.link_id size link l.bytes_rx f)
      λ e. ground arith

-- The counter of a link grows by the bytes of the blocks whose first header is of that link, in 64
-- bits.
pub update_all-bytes :
    (check : Bool) (bs : List (Rdh × ℕ)) (link : ℕ) (l : Links)
    → link ≤ rdh_max_link_id
    → l.bytes_rx link < 2 ^ 64
    → (update_all check bs l).bytes_rx link ≡ (l.bytes_rx link + bytes_of link bs) % 2 ^ 64
update_all-bytes check [] link l v f = omega (arith, f)
update_all-bytes check ((h, size) ∷ bs) link l v f =
    let one = bytes_rx-update_links check h size link l v f in
    let rest =
      update_all-bytes check bs link (update_links check h size l) v (omega (arith, one)) in
    omega (arith, one, rest)
