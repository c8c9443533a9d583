-- ===== src/Memory/Pool/Index.antt =====
-- Addresses and indices of the pages of a pool.
use readout.Prelude.{
  Bool, ap, arith, false, get_or, length, some, sub64, subst, sym, true, ℕ, ◌%◌, ◌*◌, ◌+◌, ◌-◌, ◌/◌,
  ◌<◌, ◌^◌, ◌↔◌, ◌≡◌, ◌≤◌,
}
use readout.Fifo.{Fifo}
use readout.Memory.Pool.{Pool, blank_page, get_page_index_from_page_ptr, is_page_valid}
use native.Mathlib.Nat.{mul-div_cancel, div-add-mod', mul-mod_left, mod-eq_of_lt}

module _ {F : Fifo ℕ} where
  -- The address of page `i`.
  abbrev pub address : Pool F → ℕ → ℕ
  address p i = p.first_page_address + i * p.page_size

  -- The pages lie one after the other from the first address to the last, below `2 ^ 64`, and the
  -- metadata of page `i` holds its address.
  pub record IsLaidOut (p : Pool F) : Type 0 where
    pub page_size_pos : 0 < p.page_size
    pub first_pos : 0 < p.first_page_address
    pub some_page : 0 < p.number_of_pages
    pub int_range : p.number_of_pages < 2 ^ 31
    pub last_is : p.last_page_address + p.page_size ≡ address p p.number_of_pages
    pub in_range : address p p.number_of_pages ≤ 2 ^ 64
    pub length_pages : length p.pages ≡ p.number_of_pages
    pub ptrs :
        (i : ℕ) → i < p.number_of_pages → (get_or p.pages i blank_page).page_ptr ≡ address p i

  quotient :
      (p : Pool F) (i : ℕ) → IsLaidOut p → i < p.number_of_pages → i * p.page_size / p.page_size ≡ i
  quotient p i w h = mul-div_cancel i w.page_size_pos

  -- Any index up to the number of pages has its address within the limits.
  address-le :
      (p : Pool F) (i : ℕ)
      → IsLaidOut p
      → i < p.number_of_pages
      → (address p i ≤ p.last_page_address) × (p.last_page_address < 2 ^ 64)
  address-le p i w h = grind (arith, w.last_is, w.in_range)

  sub64-address :
      (p : Pool F) (i : ℕ)
      → IsLaidOut p
      → i < p.number_of_pages
      → sub64 (address p i) p.first_page_address ≡ i * p.page_size
  sub64-address p i w h = omega (arith, address-le p i w h)

  pub index-address :
      (p : Pool F) (i : ℕ) (check : Bool)
      → IsLaidOut p
      → i < p.number_of_pages
      → get_page_index_from_page_ptr F p (address p i) check ≡ some i
  unfolding get_page_index_from_page_ptr
  index-address p i check w h =
      rw
        (
          sub64-address p i w h,
          quotient p i w h,
          mod-eq_of_lt {n = i} {m = 2 ^ 32} (omega (arith, w.int_range)),
        )
        (ground (arith, address-le p i w h, w.first_pos, w.length_pages, w.int_range, w.ptrs i h))

  -- A valid address is the address of the page that the quotient names.
  valid_index : (p : Pool F) (a : ℕ) → ℕ
  valid_index p a = (a - p.first_page_address) / p.page_size

  is_page_valid-address :
      (p : Pool F) (i : ℕ)
      → IsLaidOut p
      → i < p.number_of_pages
      → is_page_valid F p (address p i) ≡ true
  unfolding is_page_valid
  is_page_valid-address p i w h = ground (
    arith,
    address-le p i w h,
    mul-mod_left i p.page_size,
    ap (λ (t : ℕ). t % p.page_size) (offset i),
  )
    where
      offset : (i : ℕ) → address p i - p.first_page_address ≡ i * p.page_size
      offset i = omega arith

  valid_facts :
      (p : Pool F) (a : ℕ)
      → is_page_valid F p a ≡ true
      → (p.first_page_address ≤ a)
        × (a ≤ p.last_page_address)
        × ((a - p.first_page_address) % p.page_size ≡ 0)
  unfolding is_page_valid
  valid_facts p a v = ground arith

  address-valid_index :
      (p : Pool F) (a : ℕ)
      → IsLaidOut p
      → is_page_valid F p a ≡ true
      → (valid_index p a < p.number_of_pages) × (address p (valid_index p a) ≡ a)
  unfolding valid_index
  address-valid_index p a w v =
      let (low, up, exact) = valid_facts p a v in
      let split = div-add-mod' (a - p.first_page_address) p.page_size in
      (
        below ((a - p.first_page_address) / p.page_size) p.page_size p.number_of_pages
            (omega (arith, w.last_is, w.page_size_pos)),
        omega arith,
      )
    where
      below : (q s n : ℕ) → q * s < n * s → q < n
      below q s n h = grind arith

  -- `isPageValid` accepts exactly the addresses of the pool's pages, and `getPageIndexFromPagePtr`
  -- then gives the index of that page.
  pub is_page_valid_iff :
      (p : Pool F) (a : ℕ)
      → IsLaidOut p
      → (is_page_valid F p a ≡ true) ↔ (
          (i : ℕ) × (i < p.number_of_pages)
          × (a ≡ address p i)
          × (get_page_index_from_page_ptr F p a true ≡ some i))
  is_page_valid_iff p a w = (to_index, from_index)
    where
      to_index :
          is_page_valid F p a ≡ true
          → (i : ℕ) × (i < p.number_of_pages)
            × (a ≡ address p i)
            × (get_page_index_from_page_ptr F p a true ≡ some i)
      to_index v =
          let (h, e) = address-valid_index p a w v in
          (
            valid_index p a,
            h,
            sym e,
            subst (λ t. get_page_index_from_page_ptr F p t true ≡ some (valid_index p a)) e
                (index-address p (valid_index p a) true w h),
          )

      from_index :
          ((i : ℕ) × (i < p.number_of_pages)
            × (a ≡ address p i)
            × (get_page_index_from_page_ptr F p a true ≡ some i))
          → is_page_valid F p a ≡ true
      from_index (i, h, e, _) = rw e (is_page_valid-address p i w h)

  -- What the lookup gives is in range.
  pub index-lt :
      (p : Pool F) (a i : ℕ) → get_page_index_from_page_ptr F p a true ≡ some i → i < length p.pages
  unfolding get_page_index_from_page_ptr
  index-lt p a i e = ground arith

  -- Without the check of the limits, from what the lookup reads.
  pub index_unchecked :
      (p : Pool F) (a i : ℕ)
      → sub64 a p.first_page_address / p.page_size ≡ i
      → 0 < a
      → i < 2 ^ 31
      → i < length p.pages
      → (get_or p.pages i blank_page).page_ptr ≡ a
      → get_page_index_from_page_ptr F p a false ≡ some i
  unfolding get_page_index_from_page_ptr
  index_unchecked p a i e pos range h same =
      rw (e, mod-eq_of_lt {n = i} {m = 2 ^ 32} (omega arith)) (ground arith)
