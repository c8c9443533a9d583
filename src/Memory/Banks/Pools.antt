-- ===== src/Memory/Banks/Pools.antt =====
-- The pool that is made from a range of a bank.
use readout.Fifo.{Fifo}
use readout.Memory.Pool.{Pool}
use readout.Memory.Banks.{Bank, align_offset}
use readout.Memory.Banks.Ranges.{IsValid, last_end}
use readout.Prelude.{ℕ, ◌*◌, ◌+◌, ◌<◌, ◌^◌, ◌≤◌}

-- What a caller of `getPagedPool` asks for, within sensible bounds, of a bank at an address.
pub record IsSensible (b : Bank) (page_size page_number first_page_offset align : ℕ) : Type 0 where
  pub bank_valid : IsValid b
  pub base_pos : 0 < b.base_address
  pub page_pos : 0 < page_size
  pub number_pos : 0 < page_number
  pub number_int : page_number < 2 ^ 31
  pub align_pos : 0 < align
  pub room : b.bank_size + page_size * (page_number + 1) + align < 2 ^ 64
  -- The skip and the offset of the first page take no more than the extra page.
  pub spare :
      first_page_offset + align_offset (b.base_address + last_end 0 b.ranges_in_use) align
      ≤ page_size
