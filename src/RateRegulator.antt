-- ===== src/RateRegulator.antt =====
-- src/RateRegulator.h: the limit on the rate of timeframes. Times are whole microseconds; the period,
-- a double there, is a fraction of two numbers here, so its products are exact.
use readout.Prelude.{Bool, false, if◌then◌else◌, leb, ltb, suc, true, ℕ, ◌*◌, ◌+◌, ◌/◌, ◌==◌}

-- The rate is `rate_num / rate_den` items per second.
pub record RateRegulator : Type 0 where
  pub no_limit : Bool
  pub rate_num : ℕ
  pub rate_den : ℕ
  pub t_period : ℕ
  pub full_refresh_interval : ℕ
  pub n_items_accepted : ℕ
  pub t0 : ℕ
  pub t_next : ℕ
  pub t_next_count : ℕ

-- `n * period`, in whole microseconds.
pub periods : ℕ → ℕ → ℕ → ℕ
periods rate_num rate_den n = n * 1_000_000 * rate_den / rate_num

pub reset : ℕ → RateRegulator → RateRegulator
reset now r = record r { n_items_accepted = 0; t0 = now; t_next = now; t_next_count = 1 }

pub init : ℕ → ℕ → ℕ → RateRegulator
init now rate_num rate_den = reset now (record {
  no_limit = rate_num == 0;
  rate_num = rate_num;
  rate_den = rate_den;
  t_period = periods rate_num rate_den 1;
  full_refresh_interval = rate_num / rate_den;
  n_items_accepted = 0;
  t0 = 0;
  t_next = 0;
  t_next_count = 1;
})

pub update_time_next : RateRegulator → RateRegulator
update_time_next r =
    if leb r.full_refresh_interval r.t_next_count
    then record r {
      t_next = r.t0 + periods r.rate_num r.rate_den r.n_items_accepted;
      t_next_count = 1;
    }
    else record r { t_next = r.t_next + r.t_period; t_next_count = suc r.t_next_count }

pub next : ℕ → RateRegulator → Bool × RateRegulator
next now r =
    if r.no_limit
    then (true, r)
    else if ltb now r.t_next
    then (false, r)
    else (true, update_time_next (record r { n_items_accepted = suc r.n_items_accepted }))
