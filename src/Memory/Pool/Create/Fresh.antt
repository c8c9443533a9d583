-- ===== src/Memory/Pool/Create/Fresh.antt =====
-- A pool as the constructor returns it.
use mathlib.Core.Bool.{false≢true}
use native.Mathlib.Nat.{div-mul-le_self, mul-div_cancel, lt-div-mul-add}
use native.Mathlib.Decide.{dec_lt}
use readout.Counter.{CounterStats}
use readout.Memory.Pool.Ownership.{IsShared, available}
use readout.Memory.Pool.Kept.{Keeps-IsLaidOut, update_buffer_state-Keeps}
use readout.Memory.Pool.Index.{IsLaidOut, address, index-address, is_page_valid_iff}
use readout.Memory.Pool.Create.{
  Fits, IsFilled, PoolRequest, add_pages-IsFilled, addresses, addresses-suc, addresses-zero, create,
  empty_pool, finish, is_request_valid, length-addresses, page_address, pages_that_fit, size_needed,
}
use readout.Fifo.{Fifo}
use readout.Memory.Pool.{Pool, get_page_index_from_page_ptr, is_page_valid}
use readout.Prelude.{
  All, All-append, Bool-cases, [], ap, arith, count, count-append, count-nil, count-singleton,
  if◌then◌else◌, inl, inr, length, length-replicate, refl, some, subst, suc, sym, true, zero, ℕ,
  ◌*◌, ◌+◌, ◌-◌, ◌/◌, ◌<◌, ◌==◌, ◌^◌, ◌∙◌, ◌∷◌, ◌≡◌, ◌≢◌, ◌≤◌, ◌⊎◌,
}

mul_cancel_right : (i j s : ℕ) → 0 < s → i * s ≡ j * s → i ≡ j
mul_cancel_right i j s h e = sym (mul-div_cancel i h) ∙ ap (λ (t : ℕ). t / s) e ∙ mul-div_cancel j h

page_address-injective :
    (r : PoolRequest) (i j : ℕ) → 0 < r.page_size → i ≢ j → page_address r i ≢ page_address r j
page_address-injective r i j h ne e = ne (mul_cancel_right i j r.page_size h (omega arith))

count-address_out :
    (r : PoolRequest) (n y : ℕ)
    → ((i : ℕ) → i < n → y ≢ page_address r i)
    → count y (addresses r n) ≡ 0
count-address_out r zero y h = rw addresses-zero (count-nil y)
count-address_out r (suc n) y h = rw (addresses-suc r n) (
    ground (
      arith,
      count-append y (addresses r n) (page_address r n ∷ []),
      count-singleton y (page_address r n),
      count-address_out r n y (λ i hi. h i (omega arith)),
      h n (omega arith),
    ))

count-address_in :
    (r : PoolRequest) (n i : ℕ)
    → 0 < r.page_size
    → i < n
    → count (page_address r i) (addresses r n) ≡ 1
count-address_in r zero i p h = absurd (omega arith)
count-address_in r (suc n) i p h = elim (dec_lt i n) [
  | yes lt ↦ rw (addresses-suc r n) (
      ground (
        arith,
        count-append (page_address r i) (addresses r n) (page_address r n ∷ []),
        count-singleton (page_address r i) (page_address r n),
        count-address_in r n i p lt,
        page_address-injective r i n p (omega arith),
      ))
  | no ge ↦
      let same : i ≡ n = omega arith in
      rw (same, addresses-suc r n)
        (ground (
          arith,
          count-append (page_address r n) (addresses r n) (page_address r n ∷ []),
          count-singleton (page_address r n) (page_address r n),
          count-address_out r n (page_address r n)
              (λ j hj. page_address-injective r n j p (omega arith)),
        ))
]

valid_addresses :
    {F : Fifo ℕ} (r : PoolRequest) (n : ℕ) (p : Pool F)
    → ((i : ℕ) → i < n → is_page_valid F p (page_address r i) ≡ true)
    → All (λ a. is_page_valid F p a ≡ true) (addresses r n)
valid_addresses r zero p h = rw addresses-zero tt
valid_addresses {F} r (suc n) p h = rw (addresses-suc r n) (
    All-append (λ a. is_page_valid F p a ≡ true) (addresses r n) (page_address r n ∷ [])
      (valid_addresses r n p (λ i hi. h i (omega arith))) (h n (omega arith), tt))

quotient_below : (a s n : ℕ) → 0 < s → a < s * n → a / s ≤ n
quotient_below a s n h k =
    let less : a / s * s < n * s = omega (arith, div-mul-le_self a s) in
    product_below (a / s) s n less
  where
    product_below : (q s n : ℕ) → q * s < n * s → q ≤ n
    product_below q s n h = grind arith

suc_mul : (q s : ℕ) → (q + 1) * s ≡ q * s + s
suc_mul q s = omega arith

-- The number of pages never exceeds the request, and that many pages end within the block.
pub pages_that_fit_bounds :
    (r : PoolRequest)
    → is_request_valid r ≡ true
    → r.page_size * r.number_of_pages + r.first_page_offset < 2 ^ 64
    → (pages_that_fit r ≤ r.number_of_pages)
      × (r.first_page_offset + pages_that_fit r * r.page_size ≤ r.base_size)
      × (pages_that_fit r ≡ r.number_of_pages
          ⊎ (r.base_size < r.first_page_offset + (pages_that_fit r + 1) * r.page_size))
unfolding pages_that_fit size_needed is_request_valid
pages_that_fit_bounds r v h =
    let size = r.page_size in
    let space = r.base_size - r.first_page_offset in
    ground (
      arith,
      div-mul-le_self space size,
      lt-div-mul-add {a = space} {b = size},
      quotient_below space size r.number_of_pages,
      suc_mul (space / size) size,
    )

pub pages_that_fit_all :
    (r : PoolRequest)
    → 0 < r.base_size
    → r.base_size < 2 ^ 64
    → r.page_size * r.number_of_pages + r.first_page_offset ≤ r.base_size
    → pages_that_fit r ≡ r.number_of_pages
unfolding pages_that_fit size_needed
pages_that_fit_all r pos small h = ground arith

pub request_valid :
    (r : PoolRequest)
    → r.first_page_offset < r.base_size
    → 0 < r.number_of_pages
    → 0 < r.page_size
    → is_request_valid r ≡ true
unfolding is_request_valid
request_valid r offset number size = ground arith

-- What `finish` makes of a filled pool.
finish-IsLaidOut :
    {F : Fifo ℕ} (r : PoolRequest) (n : ℕ) (p : Pool F)
    → Fits r n
    → 0 < n
    → IsFilled r n n p
    → IsLaidOut (finish F r p)
      × (F.contents (finish F r p).pages_available ≡ addresses r n)
      × (F.capacity (finish F r p).pages_available ≡ n)
      × ((finish F r p).number_of_pages ≡ n)
      × ((i : ℕ) → address (finish F r p) i ≡ page_address r i)
unfolding finish
finish-IsLaidOut {F} r n p f pos w =
    let p1 : Pool F = record p {
      last_page_address =
          if p.number_of_pages == 0 then 0 else page_address r (p.number_of_pages - 1);
    } in
    let first = w.first_is pos in
    let laid : IsLaidOut p1 = record {
      page_size_pos = omega (arith, w.size_is, f.page_size_pos);
      first_pos = omega (arith, first, f.base_pos);
      some_page = omega (arith, w.number_is);
      int_range = omega (arith, w.number_is, f.int_range);
      last_is = rw (first, w.size_is, w.number_is) (ground (arith, suc_mul (n - 1) r.page_size));
      in_range = rw (first, w.size_is, w.number_is) (omega (arith, f.in_range));
      length_pages = w.length_is ∙ sym w.number_is;
      ptrs = λ i h. w.ptrs_are i (omega (arith, w.number_is)) ∙ rw (first, w.size_is) (omega arith);
    } in
    let (k, same) = update_buffer_state-Keeps p1 in
    (
      Keeps-IsLaidOut k laid,
      ap F.contents same ∙ w.queue_is,
      ap F.capacity same ∙ w.room_is,
      k.number_kept ∙ w.number_is,
      λ i. rw (k.first_kept, k.size_kept, first, w.size_is) (omega arith),
    )

empty_pool-IsFilled :
    (F : Fifo ℕ) (r : PoolRequest) (uninit now : ℕ) (stats : CounterStats)
    → IsFilled r (pages_that_fit r) 0 (empty_pool F r uninit now stats)
empty_pool-IsFilled F r uninit now stats = record {
  number_is = refl;
  size_is = refl;
  length_is = length-replicate (pages_that_fit r) _;
  room_is = F.capacity-create (pages_that_fit r);
  first_is = λ h. absurd (omega arith);
  ptrs_are = λ j h. absurd (omega arith);
  queue_is = F.contents-create (pages_that_fit r) ∙ sym (addresses-zero r);
}

-- For a valid request with room for at least one page and clear of the ends of the address space,
-- the constructor raises none of its exceptions. The pool has as many pages as fit, one after the
-- other from the offset on, every page is available exactly once, and no other address is a page.
pub create_lem :
    (F : Fifo ℕ) (r : PoolRequest) (uninit now : ℕ) (stats : CounterStats)
    → is_request_valid r ≡ true
    → 0 < pages_that_fit r
    → Fits r (pages_that_fit r)
    → (p : Pool F) × (create F r uninit now stats ≡ some p)
      × IsShared p []
      × (p.number_of_pages ≡ pages_that_fit r)
      × ((i : ℕ) → address p i ≡ r.base_address + r.first_page_offset + i * r.page_size)
      × ((y : ℕ) → count y (available p) ≡ (if is_page_valid F p y then 1 else 0))
unfolding create
create_lem F r uninit now stats v pos f =
    let n = pages_that_fit r in
    let (filled, e, w) =
      add_pages-IsFilled r n n 0 (empty_pool F r uninit now stats) f (omega arith)
        (empty_pool-IsFilled F r uninit now stats) in
    let (laid, queue, room, number, at) = finish-IsLaidOut r n filled f pos w in
    let p = finish F r filled in
    let page_valid = λ (i : ℕ) (h : i < n). (is_page_valid_iff p (page_address r i) laid).1 (
      i,
      omega (arith, number),
      sym (at i),
      subst (λ t. get_page_index_from_page_ptr F p t true ≡ some i) (at i)
          (index-address p i true laid (omega (arith, number))),
    ) in
    (
      p,
      rw (v, e),
      record {
        laid_out = laid;
        valid_available =
            subst (All (λ a. is_page_valid F p a ≡ true)) (sym queue)
              (valid_addresses r n p page_valid);
        valid_held = tt;
        all_room = room ∙ sym number;
        all_pages = omega (arith, ap length queue, length-addresses r n, number);
      },
      number,
      at,
      λ y. elim (Bool-cases (is_page_valid F p y)) [
        | inl valid ↦
            let (i, h, same, _) = (is_page_valid_iff p y laid).0 valid in
            rw (valid, queue, same, at i)
              (count-address_in r n i f.page_size_pos (omega (arith, number)))
        | inr bad ↦
            rw (bad, queue)
              (count-address_out r n y
                (λ i h same. false≢true (sym bad ∙ ap (is_page_valid F p) same ∙ page_valid i h)))
      ],
    )

-- For a valid request with room for at least one page and clear of the ends of the address space,
-- whose size in bytes, with the offset, is below 2 ^ 64, the constructor raises none of its
-- exceptions. All pages end within the block; there are as many as were asked for, or one page more
-- would not end within the block. They stand one after the other from the offset on, every page is
-- available exactly once, and no other address is a page.
pub create-fitted :
    (F : Fifo ℕ) (r : PoolRequest) (uninit now : ℕ) (stats : CounterStats)
    → is_request_valid r ≡ true
    → r.page_size * r.number_of_pages + r.first_page_offset < 2 ^ 64
    → 0 < pages_that_fit r
    → Fits r (pages_that_fit r)
    → (p : Pool F) × (create F r uninit now stats ≡ some p)
      × IsShared p []
      × (p.number_of_pages ≤ r.number_of_pages)
      × (r.first_page_offset + p.number_of_pages * r.page_size ≤ r.base_size)
      × (p.number_of_pages ≡ r.number_of_pages
          ⊎ (r.base_size < r.first_page_offset + (p.number_of_pages + 1) * r.page_size))
      × ((i : ℕ) → address p i ≡ r.base_address + r.first_page_offset + i * r.page_size)
      × ((y : ℕ) → count y (available p) ≡ (if is_page_valid F p y then 1 else 0))
create-fitted F r uninit now stats v small pos f =
    let (p, made, shared, number, at, counts) = create_lem F r uninit now stats v pos f in
    let (most, within, used_up) = pages_that_fit_bounds r v small in
    (p, made, shared, rw number most, rw number within, rw number used_up, at, counts)
