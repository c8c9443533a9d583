-- ===== src/Memory/Page/Tests.antt =====
-- A page that is entered and left.
use readout.Memory.Page.{MemoryPage, allocated, idle, no_time, set_page_state}
use readout.Memory.Page.Times.{IsTimed, Moved, set_page_state_accounting}
use readout.DataBlock.{default_data_block_header}
use readout.Prelude.{
  arith, false, get_or, refl, replicate, suc, true, zero, ℕ, ◌<◌, ◌==◌, ◌∷◌, ◌≡◌, ◌≢◌, ◌⊎◌,
}

-- A page that is idle since time 10.
abbrev idle_page : MemoryPage
idle_page = record {
  page_ptr = 4096;
  page_size = 100;
  page_id = 0;
  header = default_data_block_header;
  page_state_times = record { t0_is_valid = true; t0 = 10; duration = 5 } ∷ replicate 8 no_time;
  current_page_state = idle;
}

replicate-no_time : (n i : ℕ) → get_or (replicate n no_time) i no_time ≡ no_time
replicate-no_time zero i = refl
replicate-no_time (suc n) zero = refl
replicate-no_time (suc n) (suc i) = replicate-no_time n i

only_idle : (i : ℕ) → i < 9 → (get_or idle_page.page_state_times i no_time).t0_is_valid ≡ (i == 0)
only_idle zero h = refl
only_idle (suc i) h =
    let e : (suc i == 0) ≡ false = ground arith in rw (replicate-no_time 8 i, e) refl

idle_page-IsTimed : IsTimed 30 idle_page
idle_page-IsTimed = record {
  nine = refl;
  defined = omega arith;
  started = (
    omega arith,
    (
      omega arith,
      (
        omega arith,
        (
          omega arith,
          (omega arith, (omega arith, (omega arith, (omega arith, (omega arith, tt))))),
        ),
      ),
    ),
  );
  running = only_idle;
}

set_page_state_example :
    ((idle ≡ allocated) × (set_page_state (30, 32) allocated idle_page ≡ idle_page))
    ⊎ ((idle ≢ allocated)
        × Moved (30, 32) allocated idle_page (set_page_state (30, 32) allocated idle_page))
set_page_state_example =
    set_page_state_accounting 30 32 allocated idle_page (omega arith) (omega arith)
      idle_page-IsTimed
