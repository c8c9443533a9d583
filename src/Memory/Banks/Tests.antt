-- ===== src/Memory/Banks/Tests.antt =====
-- A bank with one range in use.
use readout.Counter.{CounterStats, uint64_max}
use readout.Memory.Pool.{Pool}
use readout.Memory.Banks.{Bank, MemoryRange, align_offset, end_of_ranges, new_range, reserve}
use readout.Memory.Banks.Ranges.{IsValid, reserve_lem}
use readout.Memory.Banks.Wrap.{reserve-none_iff, reserve_wraps}
use readout.Prelude.Int.{pos}
use readout.Prelude.{
  [], arith, none, refl, some, ◌%◌, ◌*◌, ◌++◌, ◌+◌, ◌-◌, ◌<◌, ◌^◌, ◌↔◌, ◌∷◌, ◌≡◌, ◌≤◌,
}

abbrev no_stats : CounterStats
no_stats = record {
  value = 0;
  sum = 0;
  n_values = 0;
  min_value = uint64_max;
  max_value = 0;
  histo_nbin = 0;
  histo_vmin = 0;
  histo_vmax = 0;
  histo_counts = [];
  bin = λ v. pos 0;
}

abbrev first_range : MemoryRange
first_range = record { offset = 0; size = 500 }

abbrev bank : Bank
bank = record {
  name = "bank-0";
  base_address = 4096;
  bank_size = 100000;
  ranges_in_use = first_range ∷ [];
}

bank-IsValid : IsValid bank
bank-IsValid = record { ranges = (omega arith, omega arith); in_memory = omega arith }

-- The range for ten pages of 4000 bytes starts at the next multiple of 4096.
abbrev taken : MemoryRange
taken = record { offset = 4096; size = 40404 }

abbrev bank_after : Bank
bank_after = record bank { ranges_in_use = first_range ∷ taken ∷ [] }

reserve-taken : reserve bank 4000 10 4096 ≡ some (taken, bank_after)
unfolding reserve new_range end_of_ranges align_offset
reserve-taken = refl

skip-taken : align_offset (4096 + 500) 4096 ≡ 3596
unfolding align_offset
skip-taken = refl

reserve_example :
    (500 ≤ taken.offset)
    × (taken.offset + taken.size ≡ 500 + 4000 * (10 + 1))
    × (taken.offset + taken.size ≤ 100000)
    × ((4096 + taken.offset) % 4096 ≡ 0)
    × (bank_after.ranges_in_use ≡ (first_range ∷ []) ++ taken ∷ [])
    × IsValid bank_after
reserve_example =
    reserve_lem bank 4000 10 4096 bank-IsValid (omega arith) (omega arith)
      (omega (arith, skip-taken)) reserve-taken

reserve-none_example : (reserve bank 4000 100 4096 ≡ none) ↔ (100000 < 500 + 4000 * (100 + 1))
reserve-none_example = reserve-none_iff bank 4000 100 4096 bank-IsValid (omega arith) (omega arith)

-- Ten pages of 100 bytes are fewer bytes than what is skipped.
reserve_wraps_example :
    (r : MemoryRange) × (b' : Bank) × (reserve bank 100 10 4096 ≡ some (r, b'))
    × (r.size ≡ 2 ^ 64 + 1100 - align_offset (4096 + 500) 4096)
    × (100000 < r.size)
reserve_wraps_example =
    reserve_wraps bank 100 10 4096 bank-IsValid (omega arith) (omega arith)
      (omega (arith, skip-taken)) (omega arith)
