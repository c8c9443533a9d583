-- ===== src/Memory/Pool/Create/Tests.antt =====
-- A pool of two pages.

use readout.Counter.{CounterStats, uint64_max}
use readout.Fifo.Bounded.{bounded}
use readout.Memory.Pool.{Pool, get_page, get_page_index_from_page_ptr, is_page_valid}
use readout.Memory.Pool.Index.{address, is_page_valid_iff}
use readout.Memory.Pool.Ownership.{
  IsShared, Reach-exclusive, available, copies, get_page_lem, gets, here, next, release_page_lem,
  releases,
}
use readout.Memory.Pool.Create.{
  Fits, PoolRequest, create, empty_pool, is_request_valid, pages_that_fit, size_needed,
}
use readout.Memory.Pool.Create.Fresh.{create-fitted, create_lem}
use readout.Prelude.Int.{pos}
use readout.Prelude.{
  [], ap, arith, count, if◌then◌else◌, inl, inr, length, refl, some, true, ℕ, ◌*◌, ◌+◌, ◌<◌, ◌↔◌,
  ◌∷◌, ◌≡◌, ◌≢◌, ◌≤◌, ◌⊎◌,
}

abbrev no_stats : CounterStats
no_stats = record {
  value = 0;
  sum = 0;
  n_values = 0;
  min_value = uint64_max;
  max_value = 0;
  histo_nbin = 0;
  histo_vmin = 0;
  histo_vmax = 0;
  histo_counts = [];
  bin = λ v. pos 0;
}

-- Two pages of 100 bytes fit in 300 bytes behind an offset of 64, of the three asked for.
abbrev small : PoolRequest
small = record {
  page_size = 100;
  number_of_pages = 3;
  base_address = 4096;
  base_size = 300;
  first_page_offset = 64;
}

small-valid : is_request_valid small ≡ true
unfolding is_request_valid
small-valid = refl

small-fit : pages_that_fit small ≡ 2
unfolding pages_that_fit size_needed
small-fit = refl

small-Fits : Fits small (pages_that_fit small)
small-Fits = record {
  page_size_pos = omega arith;
  base_pos = omega arith;
  int_range = omega (arith, small-fit);
  in_range = omega (arith, small-fit);
}

create_example :
    (p : Pool (bounded ℕ)) × (create (bounded ℕ) small 0 7 no_stats ≡ some p)
    × IsShared p []
    × (p.number_of_pages ≤ small.number_of_pages)
    × (64 + p.number_of_pages * 100 ≤ small.base_size)
    × (p.number_of_pages ≡ small.number_of_pages
        ⊎ (small.base_size < 64 + (p.number_of_pages + 1) * 100))
    × ((i : ℕ) → address p i ≡ 4096 + 64 + i * 100)
    × ((y : ℕ) → count y (available p) ≡ (if is_page_valid (bounded ℕ) p y then 1 else 0))
create_example =
    create-fitted (bounded ℕ) small 0 7 no_stats small-valid (omega arith)
      (omega (arith, small-fit)) small-Fits

abbrev made :
    (p : Pool (bounded ℕ)) × (create (bounded ℕ) small 0 7 no_stats ≡ some p)
    × IsShared p []
    × (p.number_of_pages ≡ pages_that_fit small)
    × ((i : ℕ) → address p i ≡ 4096 + 64 + i * 100)
    × ((y : ℕ) → count y (available p) ≡ (if is_page_valid (bounded ℕ) p y then 1 else 0))
made = create_lem (bounded ℕ) small 0 7 no_stats small-valid (omega (arith, small-fit)) small-Fits

abbrev two_pages : Pool (bounded ℕ)
two_pages = made.0

-- The page that is handed out first, and the pool without it.
abbrev first_page : ℕ
first_page = (get_page (bounded ℕ) (8, 8) two_pages).0

abbrev one_page : Pool (bounded ℕ)
one_page = (get_page (bounded ℕ) (8, 8) two_pages).1

first_page-held : (first_page ≢ 0) × IsShared one_page (first_page ∷ [])
first_page-held = elim (get_page_lem (8, 8) two_pages [] made.2) [
  | inl (e, z, none_left, w) ↦
      absurd (omega (arith, made.2.all_pages, made.3, small-fit, ap length e))
  | inr (e, n, w) ↦ (n, w)
]

-- Both pages are in their places after one was taken and given back.
Reach_example :
    (let q = (release_page_lem (9, 10) first_page one_page [] [] first_page-held.1).0 in
      IsShared q []
      × (copies 4260 (q, []) ≡ (if is_page_valid (bounded ℕ) two_pages 4260 then 1 else 0)))
Reach_example = Reach-exclusive 4260 made.2 made.5 (
    next (next here (gets (8, 8) two_pages [] first_page-held.0)) (
      releases (9, 10) first_page one_page _ [] []
        (release_page_lem (9, 10) first_page one_page [] [] first_page-held.1).1))

is_page_valid_example : (is_page_valid (bounded ℕ) two_pages 4260 ≡ true) ↔ (
    (i : ℕ) × (i < two_pages.number_of_pages)
    × (4260 ≡ address two_pages i)
    × (get_page_index_from_page_ptr (bounded ℕ) two_pages 4260 true ≡ some i))
is_page_valid_example = is_page_valid_iff two_pages 4260 made.2.laid_out

-- A pool that reports the use of its pages, before any page is made.
abbrev reporting : Pool (bounded ℕ)
reporting = record (empty_pool (bounded ℕ) small 0 7 no_stats) { has_log_callback = true }
