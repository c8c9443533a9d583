-- ===== src/Memory/Banks/Wrap.antt =====
-- The check of the bank's size, and what it lets through.
use readout.Memory.Banks.{Bank, MemoryRange, align_offset, end_of_ranges, new_range, reserve}
use readout.Memory.Banks.Ranges.{
  IsValid, align_offset_lem, end_of_ranges-eq-last_end, last_end, last_end-le,
}
use readout.Prelude.{
  [], add64, arith, none, some, ℕ, ◌*◌, ◌++◌, ◌+◌, ◌-◌, ◌<◌, ◌^◌, ◌↔◌, ◌∷◌, ◌≡◌, ◌≤◌,
}

-- The check compares the end of the space that was asked for, without the skip, with the bank: the
-- two additions and the subtraction of the skip cancel modulo `2 ^ 64`.
checked_end :
    (b : Bank) (page_size page_number align : ℕ)
    → IsValid b
    → 0 < align
    → b.bank_size + page_size * (page_number + 1) + align < 2 ^ 64
    → let r = new_range b page_size page_number align in
      add64 r.offset r.size ≡ last_end 0 b.ranges_in_use + page_size * (page_number + 1)
unfolding new_range
checked_end b page_size page_number align v pos room =
    let bounds = last_end-le 0 b.bank_size b.ranges_in_use v.ranges in
    let end : end_of_ranges 0 b.ranges_in_use ≡ last_end 0 b.ranges_in_use =
      end_of_ranges-eq-last_end 0 b.bank_size b.ranges_in_use v.ranges
        (omega (arith, v.in_memory)) in
    rw end (
      omega (arith, align_offset_lem (add64 b.base_address (last_end 0 b.ranges_in_use)) align pos))

-- When the ranges of a bank are valid, the alignment is not 0, and the size of the bank, of the pages
-- asked for with a spare one, and the alignment are together below 2 ^ 64 bytes, `getPagedPool`
-- refuses the request for lack of space exactly when the space behind the ranges in use is smaller
-- than those pages. Beyond that limit the products wrap, and nothing is said.
pub reserve-none_iff :
    (b : Bank) (page_size page_number align : ℕ)
    → IsValid b
    → 0 < align
    → b.bank_size + page_size * (page_number + 1) + align < 2 ^ 64
    → (reserve b page_size page_number align ≡ none)
      ↔ (b.bank_size < last_end 0 b.ranges_in_use + page_size * (page_number + 1))
unfolding reserve
reserve-none_iff b page_size page_number align v pos room =
    let end = checked_end b page_size page_number align v pos room in
    (λ h. ground arith, λ h. ground arith)

wrapped_size :
    (b : Bank) (page_size page_number align : ℕ)
    → IsValid b
    → 0 < align
    → b.bank_size + page_size * (page_number + 1) + align < 2 ^ 64
    → let space = page_size * (page_number + 1) in
      let skip = align_offset (b.base_address + last_end 0 b.ranges_in_use) align in
      space < skip → (new_range b page_size page_number align).size ≡ 2 ^ 64 + space - skip
unfolding new_range
wrapped_size b page_size page_number align v pos room small =
    let bounds = last_end-le 0 b.bank_size b.ranges_in_use v.ranges in
    let end : end_of_ranges 0 b.ranges_in_use ≡ last_end 0 b.ranges_in_use =
      end_of_ranges-eq-last_end 0 b.bank_size b.ranges_in_use v.ranges
        (omega (arith, v.in_memory)) in
    let address : add64 b.base_address (last_end 0 b.ranges_in_use)
        ≡ b.base_address + last_end 0 b.ranges_in_use =
      omega (arith, v.in_memory) in
    rw (end, address)
      (omega (arith, align_offset_lem (b.base_address + last_end 0 b.ranges_in_use) align pos))

-- A request that is smaller than what has to be skipped for the alignment, but for which the bank
-- has space, is accepted with a range whose size has wrapped: it is larger than the bank.
pub reserve_wraps :
    (b : Bank) (page_size page_number align : ℕ)
    → IsValid b
    → 0 < align
    → b.bank_size + page_size * (page_number + 1) + align < 2 ^ 64
    → let space = page_size * (page_number + 1) in
      let skip = align_offset (b.base_address + last_end 0 b.ranges_in_use) align in
      space < skip
      → last_end 0 b.ranges_in_use + space ≤ b.bank_size
      → (r : MemoryRange) × (b' : Bank) × (reserve b page_size page_number align ≡ some (r, b'))
        × (r.size ≡ 2 ^ 64 + space - skip)
        × (b.bank_size < r.size)
unfolding reserve
reserve_wraps b page_size page_number align v pos room small space =
    let r = new_range b page_size page_number align in
    let end = checked_end b page_size page_number align v pos room in
    let size = wrapped_size b page_size page_number align v pos room small in
    (
      r,
      record b { ranges_in_use = b.ranges_in_use ++ r ∷ [] },
      ground arith,
      size,
      omega (arith, align_offset_lem (b.base_address + last_end 0 b.ranges_in_use) align pos),
    )
