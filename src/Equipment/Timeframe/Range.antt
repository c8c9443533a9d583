-- ===== src/Equipment/Timeframe/Range.antt =====
-- Orbits and the range of their timeframe.
use native.Mathlib.Nat.{div-mul-le_self, lt-div-mul-add}
use readout.Prelude.{
  Bool, add32, add64, arith, false, leb, sub32, suc, to_u32, true, ℕ, ◌%◌, ◌*◌, ◌+◌, ◌-◌, ◌/◌, ◌<◌,
  ◌==◌, ◌^◌, ◌∙◌, ◌≡◌, ◌≤◌,
}
use readout.DataBlock.{undefined_timeframe_id}
use readout.Equipment.Timeframe.{
  Timeframes, define_first, get_timeframe_from_orbit, get_timeframe_orbit_range,
}

-- A state where the first orbit is known.
pub record IsStarted (s : Timeframes) : Type 0 where
  pub started : s.is_defined_first ≡ true
  pub first_fits : s.first_hb_orbit_begin < 2 ^ 32
  pub period_positive : 0 < s.period
  pub period_fits : s.period < 2 ^ 32

-- The low end of the range, from the distance `q` of a timeframe to the first orbit.
pub low_of :
    (first q : ℕ)
    → first < 2 ^ 32
    → q < 2 ^ 32
    → to_u32 (add64 first (q % 2 ^ 64)) ≡ (first + q) % 2 ^ 32
low_of first q f h = omega arith

-- Distances on the circle of orbits.
sub32_low :
    (first q orbit : ℕ)
    → first < 2 ^ 32
    → orbit < 2 ^ 32
    → q ≤ sub32 orbit first
    → sub32 orbit ((first + q) % 2 ^ 32) ≡ sub32 orbit first - q
sub32_low first q orbit f o h = omega arith

-- The last orbit of a range is `p - 1` further than the first.
pub sub32_high :
    (low p : ℕ) → low < 2 ^ 32 → 0 < p → p < 2 ^ 32 → sub32 (sub32 (add32 low p) 1) low ≡ p - 1
sub32_high low p l h k = omega arith

-- An orbit belongs to a range of orbits, which may go past the last orbit and on from zero.
abbrev pub is_between : ℕ → ℕ × ℕ → Bool
is_between orbit (low, high) = leb (sub32 orbit low) (sub32 high low)

pub range_started :
    (k : ℕ) (s : Timeframes)
    → IsStarted s
    → get_timeframe_orbit_range (1 + k) s ≡ (
        let low = to_u32 (add64 s.first_hb_orbit_begin (k * s.period % 2 ^ 64)) in
        (low, sub32 (add32 low s.period) 1))
unfolding get_timeframe_orbit_range
range_started k s v =
    let e : ((1 + k) == undefined_timeframe_id) ≡ false = ground arith in
    let f : 1 + k - 1 ≡ k = omega arith in rw (e, v.started, f)

-- The distance of an orbit to the first one is within the timeframe computed from it.
quotient_within : (x p : ℕ) → 0 < p → (x / p * p ≤ x) × (x < x / p * p + p)
quotient_within x p h = (div-mul-le_self x p, lt-div-mul-add h)

pub sub32_fits : (a b : ℕ) → sub32 a b < 2 ^ 32
sub32_fits a b = omega arith

lt→leb : (a b : ℕ) → a < suc b → leb a b ≡ true
lt→leb a b h = ground arith

-- The range of the timeframe computed from an orbit, from the quotient `k` of the distance.
around :
    (first orbit k p : ℕ)
    → first < 2 ^ 32
    → orbit < 2 ^ 32
    → 0 < p
    → p < 2 ^ 32
    → k ≤ sub32 orbit first
    → sub32 orbit first < k + p
    → (let low = to_u32 (add64 first (k % 2 ^ 64)) in
        let high = sub32 (add32 low p) 1 in
        (sub32 high low + 1 ≡ p) × (is_between orbit (low, high) ≡ true))
around first orbit k p f o h l a b =
    let fits = sub32_fits orbit first in
    let e : to_u32 (add64 first (k % 2 ^ 64)) ≡ (first + k) % 2 ^ 32 =
      low_of first k f (omega arith) in
    let d = sub32_low first k orbit f o a in
    let m : (first + k) % 2 ^ 32 < 2 ^ 32 = omega arith in
    let hi = sub32_high ((first + k) % 2 ^ 32) p m h l in
    let lo : sub32 orbit ((first + k) % 2 ^ 32)
        < suc (sub32 (sub32 (add32 ((first + k) % 2 ^ 32) p) 1) ((first + k) % 2 ^ 32)) =
      omega (arith, hi, d, b, h) in
    (rw (e) (omega (arith, hi, h)), rw (e) (lt→leb _ _ lo))

pub define_first-period : (orbit : ℕ) (s : Timeframes) → (define_first orbit s).period ≡ s.period
unfolding define_first
define_first-period orbit s = ground arith

-- The timeframe of an orbit is positive, its range has as many orbits as the period, and the
-- orbit belongs to it, also where the numbers of the orbits start again from zero.
pub get_timeframe_from_orbit_lem :
    (orbit : ℕ) (s : Timeframes)
    → orbit < 2 ^ 32
    → IsStarted ((get_timeframe_from_orbit orbit s).1)
    → (let (tf, s') = get_timeframe_from_orbit orbit s in
        let (low, high) = get_timeframe_orbit_range tf s' in
        (0 < tf) × (sub32 high low + 1 ≡ s.period) × (is_between orbit (low, high) ≡ true))
unfolding get_timeframe_from_orbit
get_timeframe_from_orbit_lem orbit s o v =
    let s' = define_first orbit s in
    let d = sub32 orbit s'.first_hb_orbit_begin in
    let (a, b) = quotient_within d s'.period v.period_positive in
    let (hi, lo) =
      around s'.first_hb_orbit_begin orbit (d / s'.period * s'.period) s'.period v.first_fits o
        v.period_positive v.period_fits a b in
    let e = range_started (d / s'.period) s' v in
    rw (e) (omega arith, hi ∙ define_first-period orbit s, lo)
