-- ===== src/Memory/Pool/Create.antt =====
-- The constructor of MemoryPagesPool.

pub mod Fresh
mod Tests
use readout.Memory.Pool.Index.{index_unchecked}
use readout.Fifo.{Fifo}
use readout.Counter.{CounterStats}
use readout.Memory.Page.{MemoryPage, idle, reset_page_states, set_page_state}
use readout.Memory.Pool.{Pool, blank_page, empty, get_page_index_from_page_ptr, update_buffer_state}
use mathlib.Core.Option
use native.Mathlib.Nat.{mul-div_cancel}
use readout.Prelude.{
  Bool, List, Option, [], add64, ap, arith, false, get_or, if◌then◌else◌, leb, length,
  length-append, length-set, ltb, none, not, refl, replicate, set, some, sub64, subst, suc, sym,
  zero, ℕ, ◌%◌, ◌*◌, ◌++◌, ◌+◌, ◌-◌, ◌/◌, ◌<◌, ◌==◌, ◌^◌, ◌||◌, ◌∙◌, ◌∷◌, ◌≡◌, ◌≤◌,
}

-- `id` is left out. `uninit` is what the member `firstPageAddress`, which has no initial value,
-- happens to hold, `now` is the time, the same for all pages, and `stats` the statistics as constructed.
pub record PoolRequest : Type 0 where
  pub page_size : ℕ
  pub number_of_pages : ℕ
  pub base_address : ℕ
  pub base_size : ℕ
  pub first_page_offset : ℕ

-- `baseBlockSize` and the possibly reduced number of pages.
abbrev pub block_size : PoolRequest → ℕ
block_size r = if r.base_size == 0 then r.page_size * r.number_of_pages % 2 ^ 64 else r.base_size

pub size_needed : PoolRequest → ℕ
size_needed r = add64 (r.page_size * r.number_of_pages % 2 ^ 64) r.first_page_offset

pub pages_that_fit : PoolRequest → ℕ
unfolding size_needed
pages_that_fit r =
    if ltb (block_size r) (size_needed r)
    then (block_size r - r.first_page_offset) / r.page_size
    else r.number_of_pages

pub is_request_valid : PoolRequest → Bool
is_request_valid r = not (
    leb r.base_size r.first_page_offset
    || r.base_size == 0
    || r.number_of_pages == 0
    || r.page_size == 0
    || block_size r == 0)

-- The address that the source computes for page `i`.
abbrev pub page_address : PoolRequest → ℕ → ℕ
page_address r i = r.base_address + r.first_page_offset + i * r.page_size

abbrev same_index : ℕ → Option ℕ → Bool
same_index i none = false
same_index i (some j) = i == j

module _ (F : Fifo ℕ) where
  -- One round of the loop over the pages; `none` is an exception.
  pub add_page : PoolRequest → ℕ → Pool F → Option (Pool F)
  add_page r i p =
      let ptr = page_address r i in
      let p' : Pool F = record p {
        first_page_address = if i == 0 then ptr else p.first_page_address;
        pages = set p.pages i (record (get_or p.pages i blank_page) {
          page_ptr = ptr;
          page_size = r.page_size;
          page_id = i;
        });
      } in
      if same_index i (get_page_index_from_page_ptr F p' ptr false)
      then some (record p' { pages_available = (F.push p'.pages_available ptr).1 })
      else none

  -- `rounds` are left, and the next page is `i`.
  pub add_pages : PoolRequest → ℕ → ℕ → Pool F → Option (Pool F)
  add_pages r zero i p = some p
  add_pages r (suc rounds) i p = elim (add_page r i p) [
    | none ↦ none
    | some q ↦ add_pages r rounds (i + 1) q
  ]

  abbrev pub empty_pool : PoolRequest → ℕ → ℕ → CounterStats → Pool F
  empty_pool r uninit now stats = record {
    number_of_pages = pages_that_fit r;
    page_size = r.page_size;
    base_block_address = r.base_address;
    base_block_size = block_size r;
    first_page_address = uninit;
    last_page_address = 0;
    pages =
        replicate (pages_that_fit r)
          (set_page_state (now, now) idle (reset_page_states blank_page));
    pages_available = F.create (pages_that_fit r);
    pool_stats = stats;
    state = empty;
    has_log_callback = false;
    th_high = record { num = 9; den = 10 };
    th_ok = record { num = 8; den = 10 };
    log = [];
    buffer_state_var = none;
  }

  -- `lastPageAddress` is the last pointer that the loop computed.
  finish : PoolRequest → Pool F → Pool F
  finish r p = update_buffer_state F (record p {
    last_page_address =
        if p.number_of_pages == 0 then 0 else page_address r (p.number_of_pages - 1);
  })

  pub create : PoolRequest → ℕ → ℕ → CounterStats → Option (Pool F)
  unfolding add_pages finish
  create r uninit now stats =
      if is_request_valid r
      then Option.map (finish r) (add_pages r (pages_that_fit r) 0 (empty_pool r uninit now stats))
      else none

-- The addresses of the first `n` pages, in order.
pub addresses : PoolRequest → ℕ → List ℕ
addresses r zero = []
addresses r (suc n) = addresses r n ++ page_address r n ∷ []

-- The request keeps clear of the ends of the address space and of the range of `int`.
pub record Fits (r : PoolRequest) (n : ℕ) : Type 0 where
  pub page_size_pos : 0 < r.page_size
  pub base_pos : 0 < r.base_address
  pub int_range : n < 2 ^ 31
  pub in_range : page_address r n ≤ 2 ^ 64

-- The pool after `i` rounds of `n`.
pub record IsFilled {F : Fifo ℕ} (r : PoolRequest) (n i : ℕ) (p : Pool F) : Type 0 where
  pub number_is : p.number_of_pages ≡ n
  pub size_is : p.page_size ≡ r.page_size
  pub length_is : length p.pages ≡ n
  pub room_is : F.capacity p.pages_available ≡ n
  pub first_is : 0 < i → p.first_page_address ≡ page_address r 0
  pub ptrs_are : (j : ℕ) → j < i → (get_or p.pages j blank_page).page_ptr ≡ page_address r j
  pub queue_is : F.contents p.pages_available ≡ addresses r i

pub length-addresses : (r : PoolRequest) (n : ℕ) → length (addresses r n) ≡ n
unfolding addresses
length-addresses r zero = refl
length-addresses r (suc n) =
    omega (arith, length-append (addresses r n) (page_address r n ∷ []), length-addresses r n)

pub page_address-lt :
    (r : PoolRequest) (n i : ℕ)
    → Fits r n
    → i < n
    → (page_address r i < 2 ^ 64) × (sub64 (page_address r i) (page_address r 0) ≡ i * r.page_size)
page_address-lt r n i f h =
    let bound : i * r.page_size + r.page_size ≤ n * r.page_size = grind (arith, f.page_size_pos) in
    (omega (arith, f.in_range, f.page_size_pos), omega (arith, f.in_range, f.page_size_pos))

get_or-set :
    (ps : List MemoryPage) (i j : ℕ) (m : MemoryPage)
    → i < length ps
    → get_or (set ps i m) j blank_page ≡ (if j == i then m else get_or ps j blank_page)
get_or-set [] i j m h = absurd (omega arith)
get_or-set (p ∷ ps) zero zero m h = refl
get_or-set (p ∷ ps) zero (suc j) m h = ground arith
get_or-set (p ∷ ps) (suc i) zero m h = ground arith
get_or-set (p ∷ ps) (suc i) (suc j) m h = ground (arith, get_or-set ps i j m (omega arith))

pub addresses-zero : (r : PoolRequest) → addresses r 0 ≡ []
unfolding addresses
addresses-zero r = refl

pub addresses-suc :
    (r : PoolRequest) (n : ℕ) → addresses r (suc n) ≡ addresses r n ++ page_address r n ∷ []
unfolding addresses
addresses-suc r n = refl

add_page-IsFilled :
    {F : Fifo ℕ} (r : PoolRequest) (n i : ℕ) (p : Pool F)
    → Fits r n
    → i < n
    → IsFilled r n i p
    → (q : Pool F) × (add_page F r i p ≡ some q) × IsFilled r n (suc i) q
unfolding add_page
add_page-IsFilled {F} r n i p f h w =
    let ptr = page_address r i in
    let m : MemoryPage = record (get_or p.pages i blank_page) {
      page_ptr = ptr;
      page_size = r.page_size;
      page_id = i;
    } in
    let p' : Pool F = record p {
      first_page_address = if i == 0 then ptr else p.first_page_address;
      pages = set p.pages i m;
    } in
    let q : Pool F = record p' { pages_available = (F.push p'.pages_available ptr).1 } in
    let inside : i < length p.pages = omega (arith, w.length_is) in
    let first : p'.first_page_address ≡ page_address r 0 = ground (arith, w.first_is) in
    let found : get_page_index_from_page_ptr F p' ptr false ≡ some i =
      index_unchecked p' ptr i
        (rw (first, w.size_is, (page_address-lt r n i f h).1) (mul-div_cancel i f.page_size_pos))
        (omega (arith, f.base_pos)) (omega (arith, f.int_range))
        (omega (arith, inside, length-set p.pages i m))
        (ground (arith, get_or-set p.pages i i m inside)) in
    let room : length (F.contents p.pages_available) < F.capacity p.pages_available =
      omega (arith, w.room_is, ap length w.queue_is, length-addresses r i) in
    (
      q,
      rw found (ground arith),
      record {
        number_is = w.number_is;
        size_is = w.size_is;
        length_is = length-set p.pages i m ∙ w.length_is;
        room_is = F.capacity-push p.pages_available ptr ∙ w.room_is;
        first_is = λ _. first;
        ptrs_are = λ j hj. ground (arith, get_or-set p.pages i j m inside, w.ptrs_are j);
        queue_is =
            F.contents-push p.pages_available ptr room
            ∙ ap (λ t. t ++ page_address r i ∷ []) w.queue_is
            ∙ sym (addresses-suc r i);
      },
    )

pub add_pages-IsFilled :
    {F : Fifo ℕ} (r : PoolRequest) (n rounds i : ℕ) (p : Pool F)
    → Fits r n
    → i + rounds ≡ n
    → IsFilled r n i p
    → (q : Pool F) × (add_pages F r rounds i p ≡ some q) × IsFilled r n n q
unfolding add_pages
add_pages-IsFilled r n zero i p f e w = (p, refl, subst (λ k. IsFilled r n k p) (omega arith) w)
add_pages-IsFilled {F} r n (suc rounds) i p f e w =
    let (q, s, w') = add_page-IsFilled r n i p f (omega arith) w in
    let (t, s', w'') =
      add_pages-IsFilled r n rounds (i + 1) q f (omega arith)
        (subst (λ k. IsFilled r n k q) (omega arith) w') in
    (t, rw (s, add_pages) s', w'')
