-- ===== src/Counter/Summary.antt =====
-- What the accessors of `CounterStats` report after a sequence of values.
use readout.Prelude.{List, [], arith, length, max, min, refl, suc, ℕ, ◌+◌, ◌<◌, ◌^◌, ◌∷◌, ◌≡◌, ◌≤◌}
use readout.Counter.{CounterStats, get_maximum, get_minimum, reset, set_all, set_value, uint64_max}

abbrev pub total : List ℕ → ℕ
total [] = 0
total (v ∷ vs) = v + total vs

-- The least and the greatest of a list that is not empty, and the last one.
abbrev pub least : ℕ → List ℕ → ℕ
least v [] = v
least v (w ∷ vs) = least (min v w) vs

abbrev pub greatest : ℕ → List ℕ → ℕ
greatest v [] = v
greatest v (w ∷ vs) = greatest (max v w) vs

abbrev pub final : ℕ → List ℕ → ℕ
final v [] = v
final v (w ∷ vs) = final w vs

-- The state after the values that a counter has taken so far.
record Holds (c : CounterStats) (number sum low high last : ℕ) : Type 0 where
  number_is : c.n_values ≡ number
  sum_is : c.sum ≡ sum
  low_is : c.min_value ≡ low
  high_is : c.max_value ≡ high
  last_is : c.value ≡ last

set_value-Holds :
    (c : CounterStats) (number sum low high last v : ℕ)
    → Holds c number sum low high last
    → sum + v < 2 ^ 64
    → suc number < 2 ^ 64
    → Holds (set_value c v) (suc number) (sum + v) (min low v) (max high v) v
unfolding set_value
set_value-Holds c number sum low high last v h s n = ground arith

set_all-Holds :
    (c : CounterStats) (number sum low high last : ℕ) (vs : List ℕ)
    → Holds c number sum low high last
    → sum + total vs < 2 ^ 64
    → number + length vs < 2 ^ 64
    → Holds
        (set_all c vs)
        (number + length vs)
        (sum + total vs)
        (least low vs)
        (greatest high vs)
        (final last vs)
unfolding set_all
set_all-Holds c number sum low high last [] h s n = omega (arith, h)
set_all-Holds c number sum low high last (v ∷ vs) h s n = omega (
  arith,
  set_all-Holds (set_value c v) (suc number) (sum + v) (min low v) (max high v) v vs
      (set_value-Holds c number sum low high last v h (omega arith) (omega arith)) (omega arith)
      (omega arith),
)

-- After a reset and a sequence of values `v`, `vs` (each a 64-bit value, with a total and a number
-- that fit 64 bits), the counter reports their number, total, minimum, maximum and the last one.
pub set_all_lem :
    (c : CounterStats) (v : ℕ) (vs : List ℕ)
    → v ≤ uint64_max
    → v + total vs < 2 ^ 64
    → suc (length vs) < 2 ^ 64
    → let d = set_all (reset c) (v ∷ vs) in
      (d.n_values ≡ suc (length vs))
      × (d.sum ≡ v + total vs)
      × (get_minimum d ≡ least v vs)
      × (get_maximum d ≡ greatest v vs)
      × (d.value ≡ final v vs)
unfolding set_all reset get_minimum get_maximum
set_all_lem c v vs b s n =
    let start : Holds (reset c) 0 0 uint64_max 0 0 = record {
      number_is = refl;
      sum_is = refl;
      low_is = refl;
      high_is = refl;
      last_is = refl;
    } in
    let first = set_value-Holds (reset c) 0 0 uint64_max 0 0 v start (omega arith) (omega arith) in
    let h =
      set_all-Holds (set_value (reset c) v) 1 v v v v vs (omega (arith, first)) (omega arith)
        (omega arith) in
    ground (arith, h)
