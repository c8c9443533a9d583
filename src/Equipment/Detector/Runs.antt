-- ===== src/Equipment/Detector/Runs.antt =====
-- The runs that the detector field starts and ends.
use readout.Prelude.{
  All, Bool, Bool-cases, List, Option, [], arith, if◌then◌else◌, inl, inr, ltb, none, not, refl,
  some, ℕ, ◌%◌, ◌&&◌, ◌<◌, ◌==◌, ◌∷◌, ◌≡◌, ◌≤◌,
}
use readout.Rdh.{Rdh, rdh_max_link_id}
use readout.Equipment.Detector.{
  Detector, bit, bits_changed, check_changes_in_detector_field, compare_field, differ, follow_run,
}

-- Before a run, in the run of a bit, and after it; only in a run data is kept.
pub data IsPhase : Option ℕ → ℕ → Type 0 where
  waiting : IsPhase none 1
  running : (r : ℕ) → r < 4 → IsPhase (some r) 0
  over : IsPhase none 2

-- The place of a phase in their order, from the value of `discard_data`.
abbrev pub rank : ℕ → ℕ
rank d = if d == 1 then 0 else if d == 0 then 1 else 2

-- Where a step may lead.
pub record Follows (discard : ℕ) (run : Option ℕ) (discard' : ℕ) : Type 0 where
  pub phase : IsPhase run discard'
  pub order : rank discard ≤ rank discard'

differ-All :
    (k a b : ℕ) (rest : List ℕ)
    → k < 4
    → All (λ j. j < 4) rest
    → All (λ j. j < 4) (differ k a b rest)
differ-All k a b rest h r = elim (Bool-cases (bit k a)) [
  | inl e ↦ elim (Bool-cases (bit k b)) [ inl f ↦ rw (e, f) r | inr f ↦ rw (e, f) (h, r) ]
  | inr e ↦ elim (Bool-cases (bit k b)) [ inl f ↦ rw (e, f) (h, r) | inr f ↦ rw (e, f) r ]
]

bits_changed-All : (a b : ℕ) → All (λ j. j < 4) (bits_changed a b)
unfolding bits_changed
bits_changed-All a b = differ-All 0 a b _ (omega arith) (
    differ-All 1 a b _ (omega arith)
      (differ-All 2 a b _ (omega arith) (differ-All 3 a b _ (omega arith) tt)))

stays : (run : Option ℕ) (discard : ℕ) → IsPhase run discard → Follows discard run discard
stays run discard p = record { phase = p; order = omega arith }

follow_run-Follows :
    (ks : List ℕ) (field : ℕ) {run : Option ℕ} {discard : ℕ}
    → All (λ j. j < 4) ks
    → IsPhase run discard
    → (let (run', discard') = follow_run ks field run discard in Follows discard run' discard')
unfolding follow_run
follow_run-Follows [] field {run} {discard} h p = stays run discard p
follow_run-Follows (k ∷ j ∷ ks) field {run} {discard} h p = stays run discard p
follow_run-Follows (k ∷ []) field h waiting = elim (Bool-cases (bit k field)) [
  | inl e ↦ rw (e) (record { phase = running k h.0; order = omega arith })
  | inr e ↦ rw (e) (stays none 1 waiting)
]
follow_run-Follows (k ∷ []) field h over = elim (Bool-cases (bit k field)) [
  | inl e ↦ rw (e) (stays none 2 over)
  | inr e ↦ rw (e) (stays none 2 over)
]
follow_run-Follows (k ∷ []) field h (running r b) =
    elim (Bool-cases (not (bit k field) && r == k)) [
      | inl e ↦ rw (e) (record { phase = over; order = omega arith })
      | inr e ↦ rw (e) (stays (some r) 0 (running r b))
    ]

compare_field-Follows :
    (ctp : Bool) (last : Option ℕ) (field : ℕ) {run : Option ℕ} {discard : ℕ}
    → IsPhase run discard
    → (let (changed, run', discard') = compare_field ctp last field run discard in
        Follows discard run' discard')
unfolding compare_field
compare_field-Follows ctp none field p = stays _ _ p
compare_field-Follows ctp (some last) field p = elim (Bool-cases (field == last)) [
  | inl e ↦ rw (e) (stays _ _ p)
  | inr e ↦ elim (Bool-cases (not ctp)) [
    | inl f ↦ rw (e, f) (stays _ _ p)
    | inr f ↦
        rw (e, f)
          (follow_run-Follows (bits_changed field last) field (bits_changed-All field last) p)
  ]
]

check-Follows :
    (h : Rdh) (s : Detector)
    → IsPhase s.ctp_run_bit s.discard_data
    → (let (changed, s') = check_changes_in_detector_field h s in
        Follows s.discard_data s'.ctp_run_bit s'.discard_data)
unfolding check_changes_in_detector_field
check-Follows h s p = elim (Bool-cases (ltb rdh_max_link_id h.link_id)) [
  | inl e ↦ rw (e) (stays _ _ p)
  | inr e ↦ elim (Bool-cases (not s.check_detector_field)) [
    | inl f ↦ rw (e, f) (stays _ _ p)
    | inr f ↦
        rw (e, f) (compare_field-Follows s.ctp_mode (s.last_field h.link_id) h.detector_field p)
  ]
]

-- The headers of a sequence, one after the other.
pub check_all : List Rdh → Detector → Detector
check_all [] s = s
check_all (h ∷ hs) s = check_all hs ((check_changes_in_detector_field h s).1)

-- The three phases of CTP runs come in order, whatever the headers: data is discarded before a run,
-- kept in the run of one of the bits 0 to 3, and discarded for good after its end.
pub check_all-Follows :
    (hs : List Rdh) (s : Detector)
    → IsPhase s.ctp_run_bit s.discard_data
    → Follows s.discard_data (check_all hs s).ctp_run_bit (check_all hs s).discard_data
unfolding check_all
check_all-Follows [] s p = stays _ _ p
check_all-Follows (h ∷ hs) s p =
    let f = check-Follows h s p in
    let g = check_all-Follows hs ((check_changes_in_detector_field h s).1) f.phase in
    record { phase = g.phase; order = omega (arith, f.order, g.order) }

same_bits : (a b : ℕ) → a % 16 ≡ b % 16 → bits_changed a b ≡ []
unfolding bits_changed
same_bits a b h =
    let e0 : bit 0 a ≡ bit 0 b = ground arith in
    let e1 : bit 1 a ≡ bit 1 b = ground arith in
    let e2 : bit 2 a ≡ bit 2 b = ground arith in
    let e3 : bit 3 a ≡ bit 3 b = ground arith in ground (arith, e0, e1, e2, e3)

compare_same :
    (ctp : Bool) (last : Option ℕ) (old field : ℕ) (run : Option ℕ) (discard : ℕ)
    → last ≡ some old
    → field % 16 ≡ old % 16
    → (let (changed, run', discard') = compare_field ctp last field run discard in
        (run' ≡ run) × (discard' ≡ discard))
unfolding compare_field follow_run
compare_same ctp last old field run discard e m = elim (Bool-cases (field == old)) [
  | inl a ↦ rw (e, a) (refl, refl)
  | inr a ↦ elim (Bool-cases (not ctp)) [
    | inl f ↦ rw (e, a, f) (refl, refl)
    | inr f ↦ rw (e, a, f, same_bits field old m) (refl, refl)
  ]
]

-- A change of the detector field in the bits from 4 on, however many they are, neither starts nor
-- ends a run.
pub high_bits_ignored :
    (h : Rdh) (s : Detector) (last : ℕ)
    → s.last_field h.link_id ≡ some last
    → h.detector_field % 16 ≡ last % 16
    → (let (changed, s') = check_changes_in_detector_field h s in
        (s'.ctp_run_bit ≡ s.ctp_run_bit) × (s'.discard_data ≡ s.discard_data))
unfolding check_changes_in_detector_field
high_bits_ignored h s last e m = elim (Bool-cases (ltb rdh_max_link_id h.link_id)) [
  | inl a ↦ rw (a) (refl, refl)
  | inr a ↦ elim (Bool-cases (not s.check_detector_field)) [
    | inl f ↦ rw (a, f) (refl, refl)
    | inr f ↦
        rw (a, f)
          (compare_same s.ctp_mode (s.last_field h.link_id) last h.detector_field s.ctp_run_bit
            s.discard_data e m)
  ]
]
