-- ===== src/Memory/Pool.antt =====
-- src/MemoryPagesPool.cxx and .h, class MemoryPagesPool: a pool of pages of one size in one block
-- of memory. Addresses are numbers (`nullptr` is 0), and a call returns the new pool. A usage
-- ratio is an exact fraction of pages, where the source rounds to a double. The timing statistics
-- under `MemoryPagesPoolStatsEnabled`, which is off, are left out.
pub mod Index
pub mod Create
pub mod Usage
pub mod Kept
pub mod Ownership
use readout.Prelude.{
  Bool, List, Option, [], false, get_or, if◌then◌else◌, leb, length, ltb, none, not, set, some,
  sub64, to_u32, true, ℕ, ◌%◌, ◌&&◌, ◌*◌, ◌-◌, ◌/◌, ◌==◌, ◌^◌, ◌||◌, ◌∷◌,
}
use readout.Fifo.{Fifo}
use readout.DataBlock.{DataBlockHeader, default_data_block_header}
use readout.Counter.{CounterStats, set_value}
use readout.Memory.Page.{
  MemoryPage, PageState, Readings, allocated, idle, set_page_state, undefined,
}

pub data BufferState : Type 0 where
  empty high full : BufferState

pub record Fraction : Type 0 where
  pub num : ℕ
  pub den : ℕ

-- `log` holds what was logged, newest first: each message names the state that is entered.
-- `buffer_state_var` is the variable of `setBufferStateVariable`, as used pages over all pages.
pub record Pool (F : Fifo ℕ) : Type 0 where
  pub number_of_pages : ℕ
  pub page_size : ℕ
  pub base_block_address : ℕ
  pub base_block_size : ℕ
  pub first_page_address : ℕ
  pub last_page_address : ℕ
  pub pages : List MemoryPage
  pub pages_available : F.Queue
  pub pool_stats : CounterStats
  pub state : BufferState
  pub has_log_callback : Bool
  pub th_high : Fraction
  pub th_ok : Fraction
  pub log : List BufferState
  pub buffer_state_var : Option Fraction

abbrev pub blank_page : MemoryPage
blank_page = record {
  page_ptr = 0;
  page_size = 0;
  page_id = 0;
  header = default_data_block_header;
  page_state_times = [];
  current_page_state = undefined;
}

abbrev pub is_full_state : BufferState → Bool
is_full_state full = true
is_full_state high = false
is_full_state empty = false

abbrev pub is_empty_state : BufferState → Bool
is_empty_state empty = true
is_empty_state high = false
is_empty_state full = false

abbrev pub next_buffer_state : BufferState → Bool → Bool → Bool → Option BufferState
next_buffer_state s all_used above_high below_ok =
    if all_used && not (is_full_state s)
    then some full
    else if above_high && is_empty_state s
    then some high
    else if below_ok && not (is_empty_state s)
    then some empty
    else none

pub record DataBlockContainer : Type 0 where
  pub header : DataBlockHeader
  pub data_ptr : ℕ
  pub data_buffer_size : ℕ
  -- The page that the release callback gives back.
  pub released_page : ℕ

pub data NewBlock : Type 0 where
  block : DataBlockContainer → NewBlock
  no_page throws : NewBlock

module _ (F : Fifo ℕ) where
  open F use {contents, capacity, push, pop, used_slots}

  pub get_number_of_pages_available : Pool F → ℕ
  get_number_of_pages_available p = used_slots p.pages_available

  -- With no page at all the ratio is not a number, and every comparison with it fails.
  pub update_buffer_state : Pool F → Pool F
  unfolding get_number_of_pages_available
  update_buffer_state p =
      let total = p.number_of_pages in
      let free = get_number_of_pages_available p in
      let used = total - free in
      let next =
        next_buffer_state p.state (ltb 0 total && (free == 0))
          (ltb (p.th_high.num * total) (used * p.th_high.den))
          (ltb (used * p.th_ok.den) (p.th_ok.num * total)) in
      if p.has_log_callback
      then record p {
        state = elim next [ none ↦ p.state | some s ↦ s ];
        log = elim next [ none ↦ p.log | some s ↦ s ∷ p.log ];
        buffer_state_var = elim p.buffer_state_var [
          | none ↦ none
          | some f ↦ some (record { num = used; den = total })
        ];
      }
      else p

  -- The conversion of the quotient to `int` is written out. `none` is -1.
  pub get_page_index_from_page_ptr : Pool F → ℕ → Bool → Option ℕ
  get_page_index_from_page_ptr p ptr check_validity =
      let ix = (sub64 ptr p.first_page_address / p.page_size) % 2 ^ 32 in
      if ptr == 0
      then none
      else if check_validity && (ltb ptr p.first_page_address || ltb p.last_page_address ptr)
      then none
      else if leb (2 ^ 31) ix || leb (length p.pages) ix
      then none
      else if (get_or p.pages ix blank_page).page_ptr == ptr
      then some ix
      else none

  pub is_page_valid : Pool F → ℕ → Bool
  is_page_valid p ptr =
      if ltb ptr p.first_page_address
      then false
      else if ltb p.last_page_address ptr
      then false
      else (ptr - p.first_page_address) % p.page_size == 0

  -- The page at an index goes to a state; with no index, nothing changes and -1 is returned.
  pub set_state_at : Readings → PageState → Pool F → Option ℕ → Bool × Pool F
  set_state_at now s p none = (false, p)
  set_state_at now s p (some ix) = (
    true,
    record p { pages = set p.pages ix (set_page_state now s (get_or p.pages ix blank_page)) },
  )

  pub update_page_state : Readings → ℕ → PageState → Pool F → Bool × Pool F
  unfolding set_state_at
  update_page_state now ptr s p = set_state_at now s p (get_page_index_from_page_ptr p ptr true)

  -- The pointer that `pop` leaves: null if it fails.
  abbrev pub or_null : Option ℕ → ℕ
  or_null none = 0
  or_null (some a) = a

  pub get_page : Readings → Pool F → ℕ × Pool F
  get_page now p =
      let stats = set_value p.pool_stats (get_number_of_pages_available p) in
      let (got, rest) = pop p.pages_available in
      let ptr = or_null got in
      let p' = record p { pool_stats = stats; pages_available = rest } in
      (ptr, update_buffer_state (update_page_state now ptr allocated p').1)

  -- `none` is an exception. The result of the push is not looked at.
  pub release_page : Readings → ℕ → Pool F → Option (Pool F)
  release_page now address p =
      let p' = (update_page_state now address idle p).1 in
      let q = (push p'.pages_available address).1 in
      if is_page_valid p address
      then some (update_buffer_state (record p' { pages_available = q }))
      else none

  -- The header of the page's data block is filled anew; the size fields have 32 bits.
  fill_header : Pool F → ℕ → DataBlockHeader
  fill_header p ptr = record default_data_block_header {
    data_size = to_u32 p.page_size;
    memory_size = to_u32 p.page_size;
  }

  container_at : Pool F → ℕ → Option ℕ → NewBlock × Pool F
  unfolding fill_header
  container_at p page none = (throws, p)
  container_at p page (some ix) =
      let page_meta = get_or p.pages ix blank_page in
      let h = fill_header p page in
      (
        block (record {
          header = h;
          data_ptr = page_meta.page_ptr;
          data_buffer_size = p.page_size;
          released_page = page;
        }),
        record p { pages = set p.pages ix (record page_meta { header = h }) },
      )

  pub get_new_data_block_container : Readings → ℕ → Pool F → NewBlock × Pool F
  unfolding container_at
  get_new_data_block_container now new_page p =
      if new_page == 0
      then (let (page, p') = get_page now p in
          if page == 0
          then (no_page, p')
          else container_at p' page (get_page_index_from_page_ptr p' page true))
      else if is_page_valid p new_page
      then container_at p new_page (get_page_index_from_page_ptr p new_page true)
      else (throws, p)

  pub set_warning_callback : Fraction → Fraction → Pool F → Pool F
  set_warning_callback high_mark ok_mark p = record p {
    th_high = high_mark;
    th_ok = ok_mark;
    has_log_callback = true;
  }

  pub set_buffer_state_variable : Fraction → Pool F → Pool F
  set_buffer_state_variable initial p =
      update_buffer_state (record p { buffer_state_var = some initial })
