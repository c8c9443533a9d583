-- ===== src/Counter/Histogram.antt =====
-- The histogram of `CounterStats`.
use readout.Prelude.{
  List, [], arith, length, length-set, suc, zero, ℕ, ◌+◌, ◌-◌, ◌<◌, ◌^◌, ◌∷◌, ◌≡◌,
}
use readout.Prelude.Int.{pos}
use readout.Counter.{CounterStats, bump, bump_bin, record_value, set_value}

abbrev pub entries : List ℕ → ℕ
entries [] = 0
entries (n ∷ ns) = n + entries ns

entries-bump :
    (ns : List ℕ) (i : ℕ)
    → i < length ns
    → entries ns + 1 < 2 ^ 64
    → entries (bump ns i) ≡ entries ns + 1
unfolding bump
entries-bump [] i h b = absurd (omega arith)
entries-bump (n ∷ ns) zero h b = omega arith
entries-bump (n ∷ ns) (suc i) h b = omega (arith, entries-bump ns i (omega arith) (omega arith))

length-bump : (ns : List ℕ) (i : ℕ) → length (bump ns i) ≡ length ns
unfolding bump
length-bump ns i = length-set ns i _

-- A histogram with as many counts as bins, at least one.
pub record IsHistogram (c : CounterStats) : Type 0 where
  pub some_bin : 0 < c.histo_nbin
  pub counts_fit : length c.histo_counts ≡ c.histo_nbin

-- The bin that the formula gives is one of the bins.
abbrev pub BinFits : CounterStats → ℕ → Type 0
BinFits c v = (n : ℕ) × (c.bin v ≡ pos n) × (n < c.histo_nbin)

record_value-entries :
    (c : CounterStats) (v : ℕ)
    → IsHistogram c
    → BinFits c v
    → entries c.histo_counts + 1 < 2 ^ 64
    → (entries (record_value c v) ≡ entries c.histo_counts + 1)
      × (length (record_value c v) ≡ c.histo_nbin)
unfolding record_value bump_bin
record_value-entries c v h (n, e, f) b = ground (
  arith,
  entries-bump c.histo_counts 0,
  entries-bump c.histo_counts (c.histo_nbin - 1),
  entries-bump c.histo_counts n,
  length-bump c.histo_counts 0,
  length-bump c.histo_counts (c.histo_nbin - 1),
  length-bump c.histo_counts n,
)

-- With a histogram whose formula stays within the bins, `set` counts the value in exactly one bin
-- (as long as the counts fit 64 bits), and the histogram keeps its number of bins.
pub entries-set_value :
    (c : CounterStats) (v : ℕ)
    → IsHistogram c
    → BinFits c v
    → entries c.histo_counts + 1 < 2 ^ 64
    → (entries (set_value c v).histo_counts ≡ entries c.histo_counts + 1)
      × IsHistogram (set_value c v)
unfolding set_value
entries-set_value c v h f b = ground (arith, record_value-entries c v h f b)
