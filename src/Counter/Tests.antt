-- ===== src/Counter/Tests.antt =====
-- Counters at concrete values.
use readout.Counter.{CounterStats, get_maximum, get_minimum, reset, set_all, uint64_max}
use readout.Counter.Summary.{set_all_lem}
use readout.Prelude.Int.{pos}
use readout.Prelude.{[], arith, min, ◌/◌, ◌∷◌, ◌≡◌}

-- Four bins from 0 to 40, and no value yet.
abbrev four_bins : CounterStats
four_bins = record {
  value = 0;
  sum = 0;
  n_values = 0;
  min_value = uint64_max;
  max_value = 0;
  histo_nbin = 4;
  histo_vmin = 0;
  histo_vmax = 40;
  histo_counts = 0 ∷ 0 ∷ 0 ∷ 0 ∷ [];
  bin = λ v. pos (min 3 (v / 10));
}

set_all_example :
    let d = set_all (reset four_bins) (5 ∷ 9 ∷ 2 ∷ []) in
    (d.n_values ≡ 3) × (d.sum ≡ 16) × (get_minimum d ≡ 2) × (get_maximum d ≡ 9) × (d.value ≡ 2)
set_all_example = set_all_lem four_bins 5 (9 ∷ 2 ∷ []) (omega arith) (omega arith) (omega arith)
