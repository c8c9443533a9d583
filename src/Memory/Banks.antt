-- ===== src/Memory/Banks.antt =====
-- src/MemoryBankManager.cxx and .h: named banks of memory, from which blocks for pools are taken.
-- Locking, the monitoring thread and the zeroing of the block are left out; `getpagesize()` is the
-- argument `system_page_size`.
pub mod Ranges
pub mod Wrap
pub mod Pools
mod Tests
use text.Mathlib.Text.{◌==◌ as str_eq}
use Prim.Native.String.{String}
use readout.Prelude.{
  Bool, List, Option, [], add64, get_or, if◌then◌else◌, leb, ltb, map, none, set, some, sub64, suc,
  to_u32, ℕ, ◌%◌, ◌*◌, ◌++◌, ◌+◌, ◌-◌, ◌==◌, ◌^◌, ◌||◌, ◌∷◌,
}
use readout.Prelude.Int.{negsuc, pos, ℤ, ◌+ℤ◌}
use readout.Fifo.{Fifo}
use readout.Counter.{CounterStats}
use readout.Memory.Pool.{Pool}
use readout.Memory.Pool.Create.{PoolRequest, create}

pub record MemoryRange : Type 0 where
  pub offset : ℕ
  pub size : ℕ

-- A `bankDescriptor`, with the address and the size of its bank.
pub record Bank : Type 0 where
  pub name : String
  pub base_address : ℕ
  pub bank_size : ℕ
  pub ranges_in_use : List MemoryRange

-- `pools` are the pools that were created, oldest first.
pub record Manager (F : Fifo ℕ) : Type 0 where
  pub banks : List Bank
  pub pool_index : ℤ
  pub pools : List (Pool F)

pub data Result (A : Type 0) : Type 0 where
  done : A → Result A
  null : Result A
  bad_alloc : Result A

-- The end of the last range: what is taken next starts there at the earliest.
pub end_of_ranges : ℕ → List MemoryRange → ℕ
end_of_ranges offset [] = offset
end_of_ranges offset (r ∷ rs) =
    let max_offset = add64 r.offset r.size in
    end_of_ranges (if ltb offset max_offset then max_offset else offset) rs

-- `(int)blockAlign < systemPageSize`
abbrev pub int_below : ℕ → ℕ → Bool
int_below a n = leb (2 ^ 31) (to_u32 a) || ltb (to_u32 a) n

pub block_alignment : ℕ → ℕ → ℕ
block_alignment block_align system_page_size =
    if int_below block_align system_page_size then system_page_size else block_align

-- What is skipped to come to an aligned address.
pub align_offset : ℕ → ℕ → ℕ
align_offset address align =
    let excess = address % align in if excess == 0 then 0 else align - excess

-- The range that a bank has for a pool, if it ends within the bank.
pub new_range : Bank → ℕ → ℕ → ℕ → MemoryRange
new_range b page_size page_number align =
    let offset = end_of_ranges 0 b.ranges_in_use in
    let skip = align_offset (add64 b.base_address offset) align in
    record {
      offset = add64 offset skip;
      size = sub64 (page_size * (page_number + 1) % 2 ^ 64) skip;
    }

pub reserve : Bank → ℕ → ℕ → ℕ → Option (MemoryRange × Bank)
reserve b page_size page_number align =
    let r = new_range b page_size page_number align in
    if ltb b.bank_size (add64 r.offset r.size)
    then none
    else some (r, record b { ranges_in_use = b.ranges_in_use ++ r ∷ [] })

-- The index of the bank with a name; the empty name stands for the first bank.
pub find_named : String → List Bank → Option ℕ
find_named name [] = none
find_named name (b ∷ bs) =
    if str_eq b.name name
    then some 0
    else elim (find_named name bs) [ none ↦ none | some i ↦ some (suc i) ]

pub find_bank : String → List Bank → Option ℕ
unfolding find_named
find_bank name [] = none
find_bank name (b ∷ bs) = if str_eq name "" then some 0 else find_named name (b ∷ bs)

abbrev no_bank : Bank
no_bank = record { name = ""; base_address = 0; bank_size = 0; ranges_in_use = [] }

module _ (F : Fifo ℕ) where
  -- The constructor of the pool; its exceptions are caught, and give a null pool.
  abbrev keep_pool : Manager F → Option (Pool F) → Result (Pool F) × Manager F
  keep_pool m none = (null, m)
  keep_pool m (some p) = (done p, record m { pools = m.pools ++ p ∷ [] })

  abbrev pub pool_request : Bank → MemoryRange → ℕ → ℕ → ℕ → PoolRequest
  pool_request b r page_size page_number first_page_offset = record {
    page_size = page_size;
    number_of_pages = page_number;
    base_address = b.base_address + r.offset;
    base_size = r.size;
    first_page_offset = first_page_offset;
  }

  pub add_bank : Bank → String → Manager F → Manager F
  add_bank b description m = record m {
    banks = m.banks ++ record b { name = if str_eq b.name "" then description else b.name } ∷ [];
  }

  -- In the bank at index `ix`; `uninit`, `now` and `stats` are handed to the pool's constructor.
  pub pool_from_bank :
      Manager F
      → ℕ
      → (page_size page_number first_page_offset align uninit now : ℕ) → CounterStats
      → Result (Pool F) × Manager F
  pool_from_bank m ix page_size page_number first_page_offset align uninit now stats =
      let b = get_or m.banks ix no_bank in
      elim (reserve b page_size page_number align) [
        | none ↦ (bad_alloc, m)
        | some (r, b') ↦
            keep_pool (record m { banks = set m.banks ix b'; pool_index = m.pool_index +ℤ pos 1 })
              (create F (pool_request b r page_size page_number first_page_offset) uninit now stats)
      ]

  pub get_paged_pool :
      Manager F
      → (page_size page_number : ℕ) → String
      → (first_page_offset block_align system_page_size uninit now : ℕ) → CounterStats
      → Result (Pool F) × Manager F
  unfolding pool_from_bank
  get_paged_pool m page_size page_number bank_name first_page_offset block_align system_page_size
        uninit now stats =
      elim (find_bank bank_name m.banks) [
        | none ↦ (null, m)
        | some ix ↦
            pool_from_bank m ix page_size page_number first_page_offset
              (block_alignment block_align system_page_size) uninit now stats
      ]

  pub get_memory_regions : Manager F → List MemoryRange
  get_memory_regions m = map (λ b. record { offset = b.base_address; size = b.bank_size }) m.banks

  pub reset : Manager F → Manager F
  reset m = record { banks = []; pool_index = negsuc 0; pools = [] }
