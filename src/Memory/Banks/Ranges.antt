-- ===== src/Memory/Banks/Ranges.antt =====
-- The ranges of a bank: within the bank, aligned, and apart from each other.
use readout.Memory.Banks.{Bank, MemoryRange, align_offset, end_of_ranges, new_range, reserve}
use native.Mathlib.Nat.{div-add-mod', mod-lt, mul-mod_left, add_assoc}
use readout.Prelude.{
  Bool-cases, List, [], add64, ap, arith, if◌then◌else◌, inl, inr, ltb, refl, some, ℕ, ◌%◌, ◌*◌,
  ◌++◌, ◌+◌, ◌-◌, ◌/◌, ◌<◌, ◌==◌, ◌^◌, ◌∙◌, ◌∷◌, ◌≡◌, ◌≤◌,
}

-- Ranges in the order in which they were taken: each starts where the ones before it have ended,
-- and ends within the bank.
abbrev pub Ordered : ℕ → ℕ → List MemoryRange → Type 0
Ordered from limit [] = from ≤ limit
Ordered from limit (r ∷ rs) = (from ≤ r.offset) × Ordered (r.offset + r.size) limit rs

-- The end of the last range.
abbrev pub last_end : ℕ → List MemoryRange → ℕ
last_end from [] = from
last_end from (r ∷ rs) = last_end (r.offset + r.size) rs

pub record IsValid (b : Bank) : Type 0 where
  pub ranges : Ordered 0 b.bank_size b.ranges_in_use
  pub in_memory : b.base_address + b.bank_size < 2 ^ 64

pub last_end-le :
    (from limit : ℕ) (rs : List MemoryRange)
    → Ordered from limit rs
    → (from ≤ last_end from rs) × (last_end from rs ≤ limit)
last_end-le from limit [] h = (omega arith, h)
last_end-le from limit (r ∷ rs) h = omega (arith, last_end-le (r.offset + r.size) limit rs h.1)

pub end_of_ranges-eq-last_end :
    (from limit : ℕ) (rs : List MemoryRange)
    → Ordered from limit rs
    → limit < 2 ^ 64
    → end_of_ranges from rs ≡ last_end from rs
unfolding end_of_ranges
end_of_ranges-eq-last_end from limit [] h k = refl
end_of_ranges-eq-last_end from limit (r ∷ rs) h k =
    let bounds = last_end-le (r.offset + r.size) limit rs h.1 in
    let start : (if ltb from (add64 r.offset r.size) then add64 r.offset r.size else from)
        ≡ r.offset + r.size =
      ground arith in
    rw start (end_of_ranges-eq-last_end (r.offset + r.size) limit rs h.1 k)

Ordered-append :
    (from limit : ℕ) (rs : List MemoryRange) (r : MemoryRange)
    → Ordered from limit rs
    → last_end from rs ≤ r.offset
    → r.offset + r.size ≤ limit
    → Ordered from limit (rs ++ r ∷ [])
Ordered-append from limit [] r h le lim = (le, lim)
Ordered-append from limit (x ∷ rs) r h le lim =
    (h.0, Ordered-append (x.offset + x.size) limit rs r h.1 le lim)

-- The skip leads to the next multiple of the alignment.
pub align_offset_lem :
    (a align : ℕ)
    → 0 < align
    → ((a + align_offset a align) % align ≡ 0) × (align_offset a align < align)
unfolding align_offset
align_offset_lem a align h = elim (Bool-cases (a % align == 0)) [
  | inl e ↦ rw e (ground arith)
  | inr e ↦
      let next : a + (align - a % align) ≡ (a / align + 1) * align =
        omega (arith, div-add-mod' a align, mod-lt a h) in
      rw (e, next) (mul-mod_left (a / align + 1) align, ground arith)
]

-- No word of `getPagedPool` wraps under these conditions.
pub new_range_lem :
    (b : Bank) (page_size page_number align : ℕ)
    → IsValid b
    → 0 < align
    → b.bank_size + page_size * (page_number + 1) + align < 2 ^ 64
    → let skip = align_offset (b.base_address + last_end 0 b.ranges_in_use) align in
      skip ≤ page_size * (page_number + 1)
      → ((new_range b page_size page_number align).offset ≡ last_end 0 b.ranges_in_use + skip)
        × ((new_range b page_size page_number align).size ≡ page_size * (page_number + 1) - skip)
unfolding new_range
new_range_lem b page_size page_number align v pos room gap =
    let bounds = last_end-le 0 b.bank_size b.ranges_in_use v.ranges in
    let end : end_of_ranges 0 b.ranges_in_use ≡ last_end 0 b.ranges_in_use =
      end_of_ranges-eq-last_end 0 b.bank_size b.ranges_in_use v.ranges
        (omega (arith, v.in_memory)) in
    let address : add64 b.base_address (last_end 0 b.ranges_in_use)
        ≡ b.base_address + last_end 0 b.ranges_in_use =
      omega (arith, v.in_memory) in
    let small = (align_offset_lem (b.base_address + last_end 0 b.ranges_in_use) align pos).1 in
    rw (end, address) (omega arith, omega arith)

-- What a success of `reserve` comes to.
pub reserve-some :
    (b : Bank) (page_size page_number align : ℕ) {r : MemoryRange} {b' : Bank}
    → reserve b page_size page_number align ≡ some (r, b')
    → (r ≡ new_range b page_size page_number align)
      × (b' ≡ record b { ranges_in_use = b.ranges_in_use ++ r ∷ [] })
      × (add64 r.offset r.size ≤ b.bank_size)
unfolding reserve
reserve-some b page_size page_number align e = ground arith

-- A pool's range is taken behind all ranges in use, at an aligned address and within the bank, and
-- the bank's ranges stay apart, if the space asked for is at least what is skipped for the
-- alignment and does not exceed the address space.
pub reserve_lem :
    (b : Bank) (page_size page_number align : ℕ) {r : MemoryRange} {b' : Bank}
    → IsValid b
    → 0 < align
    → b.bank_size + page_size * (page_number + 1) + align < 2 ^ 64
    → align_offset (b.base_address + last_end 0 b.ranges_in_use) align
      ≤ page_size * (page_number + 1)
    → reserve b page_size page_number align ≡ some (r, b')
    → (last_end 0 b.ranges_in_use ≤ r.offset)
      × (r.offset + r.size ≡ last_end 0 b.ranges_in_use + page_size * (page_number + 1))
      × (r.offset + r.size ≤ b.bank_size)
      × ((b.base_address + r.offset) % align ≡ 0)
      × (b'.ranges_in_use ≡ b.ranges_in_use ++ r ∷ [])
      × IsValid b'
reserve_lem b page_size page_number align {r} v pos room gap e =
    let (is_new, changed, limit) = reserve-some b page_size page_number align e in
    let bounds = last_end-le 0 b.bank_size b.ranges_in_use v.ranges in
    let (at, len) = new_range_lem b page_size page_number align v pos room gap in
    let end = last_end 0 b.ranges_in_use in
    let (aligned, small) = align_offset_lem (b.base_address + end) align pos in
    let offset = ap (λ t. t.offset) is_new ∙ at in
    let size = ap (λ t. t.size) is_new ∙ len in
    let fits : r.offset + r.size ≤ b.bank_size = omega arith in
    let after : end ≤ r.offset = omega arith in
    let ranges' = Ordered-append 0 b.bank_size b.ranges_in_use r v.ranges after fits in
    (
      after,
      omega arith,
      fits,
      rw (offset, ← add_assoc b.base_address end) aligned,
      ap (λ t. t.ranges_in_use) changed,
      rw changed (record { ranges = ranges'; in_memory = v.in_memory }),
    )
