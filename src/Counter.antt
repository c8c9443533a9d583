-- ===== src/Counter.antt =====
-- src/CounterStats.cxx and CounterStats.h: a 64-bit counter that keeps the total, the number, the
-- minimum and the maximum of the values it was given, and optionally a histogram of them.
pub mod Summary
pub mod Histogram
mod Tests
use readout.Prelude.{
  List, [], add64, get_or, if◌then◌else◌, leb, ltb, replicate, set, ℕ, ◌-◌, ◌^◌, ◌∷◌,
}
use readout.Prelude.Int.{negsuc, pos, ℤ}

-- `histoNbin` is zero as long as there is no histogram. `bin` stands for the floating-point
-- formula of `CounterStats::set` that gives the bin of a value strictly between the limits.
pub record CounterStats : Type 0 where
  pub value : ℕ
  pub sum : ℕ
  pub n_values : ℕ
  pub min_value : ℕ
  pub max_value : ℕ
  pub histo_nbin : ℕ
  pub histo_vmin : ℕ
  pub histo_vmax : ℕ
  pub histo_counts : List ℕ
  pub bin : ℕ → ℤ

abbrev pub uint64_max : ℕ
uint64_max = 2 ^ 64 - 1

-- The limits and the formula stay as they are; nothing reads them while `histo_nbin` is zero.
pub reset : CounterStats → CounterStats
reset c = record c {
  value = 0;
  sum = 0;
  n_values = 0;
  min_value = uint64_max;
  max_value = 0;
  histo_nbin = 0;
  histo_counts = [];
}

-- `histoCounts[i]++`
bump : List ℕ → ℕ → List ℕ
bump counts i = set counts i (add64 (get_or counts i 0) 1)

bump_bin : List ℕ → ℕ → ℤ → List ℕ
unfolding bump
bump_bin counts nbin (negsuc n) = counts
bump_bin counts nbin (pos n) = if ltb n nbin then bump counts n else counts

pub record_value : CounterStats → ℕ → List ℕ
unfolding bump bump_bin
record_value c v =
    if leb v c.histo_vmin
    then bump c.histo_counts 0
    else if leb c.histo_vmax v
    then bump c.histo_counts (c.histo_nbin - 1)
    else bump_bin c.histo_counts c.histo_nbin (c.bin v)

pub set_value : CounterStats → ℕ → CounterStats
set_value c v = record c {
  value = v;
  sum = add64 c.sum v;
  min_value = if ltb v c.min_value then v else c.min_value;
  max_value = if ltb c.max_value v then v else c.max_value;
  n_values = add64 c.n_values 1;
  histo_counts = if ltb 0 c.histo_nbin then record_value c v else c.histo_counts;
}

pub increment : CounterStats → ℕ → CounterStats
increment c v = record c {
  value = add64 c.value v;
  sum = add64 c.sum v;
  min_value = if ltb v c.min_value then v else c.min_value;
  max_value = if ltb c.max_value v then v else c.max_value;
  n_values = add64 c.n_values 1;
}

pub get_minimum : CounterStats → ℕ
get_minimum c = if ltb 0 c.n_values then c.min_value else 0

pub get_maximum : CounterStats → ℕ
get_maximum c = if ltb 0 c.n_values then c.max_value else 0

-- The last argument is the formula that the limits, the number of bins and the scale determine.
pub enable_histogram : CounterStats → ℕ → ℕ → ℕ → (ℕ → ℤ) → CounterStats
enable_histogram c nbin vmin vmax formula = record c {
  histo_counts = replicate nbin 0;
  histo_vmin = vmin;
  histo_vmax = vmax;
  histo_nbin = nbin;
  bin = formula;
}

pub set_all : CounterStats → List ℕ → CounterStats
set_all c List.[] = c
set_all c (List.◌∷◌ v vs) = set_all (set_value c v) vs
