-- ===== src/Equipment/Timeframe/Tag.antt =====
-- The check of the packets of a block against the timeframe of its first packet.
use native.Mathlib.Nat.{div-eq_of_lt-le, div-mul-le_self, lt-div-mul-add}
use readout.Rdh.{Rdh, validate_rdh}
use readout.Prelude.{
  Bool, add32, arith, false, leb, refl, sub32, subst, true, ℕ, ◌%◌, ◌*◌, ◌+◌, ◌-◌, ◌/◌, ◌<◌, ◌==◌,
  ◌^◌, ◌↔◌, ◌≡◌, ◌≢◌, ◌≤◌,
}
use readout.DataBlock.{DataBlockHeader}
use readout.Equipment.Timeframe.{
  Timeframes, define_first, get_timeframe_from_orbit, get_timeframe_orbit_range, is_out_of_range,
  set_range, tag_datablock_from_rdh,
}
use readout.Equipment.Timeframe.Range.{IsStarted, is_between, low_of, range_started, sub32_high}

-- The check reports an orbit exactly if it is not in the range of the header, also where the range
-- goes past the last number; a range of one orbit is not checked.
pub is_out_of_range_iff :
    (bh : DataBlockHeader) (orbit : ℕ)
    → bh.timeframe_orbit_first < 2 ^ 32
    → bh.timeframe_orbit_last < 2 ^ 32
    → orbit < 2 ^ 32
    → (is_out_of_range bh orbit ≡ true) ↔ (
        (bh.timeframe_orbit_first ≢ bh.timeframe_orbit_last)
        × (is_between orbit (bh.timeframe_orbit_first, bh.timeframe_orbit_last) ≡ false))
unfolding is_out_of_range
is_out_of_range_iff bh orbit f l o = ground arith

-- On the circle of orbits, a distance below the period is that of an orbit of the timeframe `k`,
-- where the timeframe ends before the numbers start again.
same_timeframe :
    (first orbit k p : ℕ)
    → first < 2 ^ 32
    → orbit < 2 ^ 32
    → k + p ≤ 2 ^ 32
    → (sub32 orbit ((first + k) % 2 ^ 32) < p)
      ↔ ((k ≤ sub32 orbit first) × (sub32 orbit first < k + p))
same_timeframe first orbit k p f o h = (λ e. (omega arith, omega arith), λ (a, b). omega arith)

quotient_iff : (x k p : ℕ) → 0 < p → ((k * p ≤ x) × (x < k * p + p)) ↔ (x / p ≡ k)
quotient_iff x k p h = (
  λ (a, b). div-eq_of_lt-le p a (grind arith),
  λ e. subst (λ q. (q * p ≤ x) × (x < q * p + p)) e (div-mul-le_self x p, lt-div-mul-add h),
)

-- A shift of an orbit and of a range by the same offset.
shift_between :
    (orbit offset low high : ℕ)
    → orbit < 2 ^ 32
    → offset < 2 ^ 32
    → low < 2 ^ 32
    → high < 2 ^ 32
    → is_between orbit (sub32 low offset, sub32 high offset)
      ≡ is_between (add32 orbit offset) (low, high)
shift_between orbit offset low high o f l h =
    let a : sub32 orbit (sub32 low offset) ≡ sub32 (add32 orbit offset) low = omega arith in
    let b : sub32 (sub32 high offset) (sub32 low offset) ≡ sub32 high low = omega arith in rw (a, b)

-- What a valid header makes of the range.
tagged_range :
    (h : Rdh) (bh : DataBlockHeader) (s : Timeframes)
    → validate_rdh h ≡ 0
    → (let (wrong, bh', s') = tag_datablock_from_rdh h bh s in
        let (low, high) = get_timeframe_orbit_range bh'.timeframe_id s' in
        (bh'.timeframe_id
          ≡ (get_timeframe_from_orbit (add32 h.heartbeat_orbit bh.orbit_offset) s).0)
        × (s' ≡ (get_timeframe_from_orbit (add32 h.heartbeat_orbit bh.orbit_offset) s).1)
        × (bh'.timeframe_orbit_first ≡ sub32 low bh.orbit_offset)
        × (bh'.timeframe_orbit_last ≡ sub32 high bh.orbit_offset))
unfolding tag_datablock_from_rdh set_range
tagged_range h bh s v =
    let e : (validate_rdh h == 0) ≡ true = ground arith in rw (e) (refl, refl, refl, refl)

leb_iff : (x hi p : ℕ) → hi ≡ p - 1 → 0 < p → (leb x hi ≡ true) ↔ (x < p)
leb_iff x hi p e h = ground arith

-- The range of the timeframe `1 + k` holds the orbits of that timeframe.
between_iff :
    (k orbit : ℕ) (s : Timeframes)
    → IsStarted s
    → orbit < 2 ^ 32
    → (1 + k) * s.period ≤ 2 ^ 32
    → (is_between orbit (get_timeframe_orbit_range (1 + k) s) ≡ true)
      ↔ (sub32 orbit s.first_hb_orbit_begin / s.period ≡ k)
between_iff k orbit s v o h =
    let first = s.first_hb_orbit_begin in
    let p = s.period in
    let q = k * p in
    let b : q + p ≤ 2 ^ 32 = grind arith in
    let e = low_of first q v.first_fits (omega (arith, v.period_positive)) in
    let m : (first + q) % 2 ^ 32 < 2 ^ 32 = omega arith in
    let hi = sub32_high ((first + q) % 2 ^ 32) p m v.period_positive v.period_fits in
    let (i, j) = same_timeframe first orbit q p v.first_fits o b in
    let (i', j') = quotient_iff (sub32 orbit first) k p v.period_positive in
    let (u, w) =
      leb_iff (sub32 orbit ((first + q) % 2 ^ 32))
        (sub32 (sub32 (add32 ((first + q) % 2 ^ 32) p) 1) ((first + q) % 2 ^ 32)) p hi
        v.period_positive in
    rw (range_started k s v, e) (λ t. i' (i (u t)), λ t. w (j (j' t)))

-- The ends of a range of more than one orbit differ, also after a shift.
range_ends :
    (k offset : ℕ) (s : Timeframes)
    → IsStarted s
    → 1 < s.period
    → offset < 2 ^ 32
    → (let (low, high) = get_timeframe_orbit_range (1 + k) s in
        (low < 2 ^ 32) × (high < 2 ^ 32) × (sub32 low offset ≢ sub32 high offset))
range_ends k offset s v p f =
    let a = v.period_fits in rw (range_started k s v) (omega arith, omega arith, λ x. omega arith)

check_from :
    {T : Type 0} (out : Bool) (orbit f l f' l' : ℕ) (between : Bool)
    → f ≡ f'
    → l ≡ l'
    → (out ≡ true) ↔ ((f ≢ l) × (is_between orbit (f, l) ≡ false))
    → f' ≢ l'
    → is_between orbit (f', l') ≡ between
    → (between ≡ true) ↔ T
    → (out ≡ false) ↔ T
check_from out orbit f l f' l' between a b (i, j) n e (u, w) =
    let e' : is_between orbit (f, l) ≡ between = rw (a, b) e in
    let n' : f ≢ l = rw (a, b) n in (λ o. u (ground arith), λ t. let t' = w t in ground arith)

check_iff :
    (k orbit offset : ℕ) (s : Timeframes) (bh : DataBlockHeader)
    → IsStarted s
    → orbit < 2 ^ 32
    → offset < 2 ^ 32
    → 1 < s.period
    → (1 + k) * s.period ≤ 2 ^ 32
    → (let (low, high) = get_timeframe_orbit_range (1 + k) s in
        bh.timeframe_orbit_first ≡ sub32 low offset
        → bh.timeframe_orbit_last ≡ sub32 high offset
        → (is_out_of_range bh orbit ≡ false)
          ↔ (sub32 (add32 orbit offset) s.first_hb_orbit_begin / s.period ≡ k))
check_iff k orbit offset s bh v o f p h a b =
    let (low, high) = get_timeframe_orbit_range (1 + k) s in
    let (l, l', ne) = range_ends k offset s v p f in
    let (i, j) = is_out_of_range_iff bh orbit (omega arith) (omega arith) o in
    let sh = shift_between orbit offset low high o f l l' in
    let (u, w) = between_iff k (add32 orbit offset) s v (omega arith) h in
    check_from (is_out_of_range bh orbit) orbit bh.timeframe_orbit_first bh.timeframe_orbit_last
      (sub32 low offset) (sub32 high offset) (is_between (add32 orbit offset) (low, high)) a b
      (i, j) ne sh (u, w)

define_first-IsStarted : (orbit : ℕ) (s : Timeframes) → IsStarted s → define_first orbit s ≡ s
unfolding define_first
define_first-IsStarted orbit s v = rw (v.started) refl

-- The check of a block that is tagged with the timeframe `1 + k`.
tagged_check :
    (k orbit offset : ℕ) (s : Timeframes) (bh : DataBlockHeader)
    → IsStarted s
    → orbit < 2 ^ 32
    → offset < 2 ^ 32
    → 1 < s.period
    → bh.timeframe_id * s.period ≤ 2 ^ 32
    → bh.timeframe_id ≡ 1 + k
    → (let (low, high) = get_timeframe_orbit_range bh.timeframe_id s in
        bh.timeframe_orbit_first ≡ sub32 low offset
        → bh.timeframe_orbit_last ≡ sub32 high offset
        → (is_out_of_range bh orbit ≡ false)
          ↔ ((get_timeframe_from_orbit (add32 orbit offset) s).0 ≡ bh.timeframe_id))
unfolding get_timeframe_from_orbit
tagged_check k orbit offset s bh v o f p h e a b =
    let c = define_first-IsStarted (add32 orbit offset) s v in
    let h' = subst (λ t. t * s.period ≤ 2 ^ 32) e h in
    let a' =
      subst (λ t. bh.timeframe_orbit_first ≡ sub32 ((get_timeframe_orbit_range t s).0) offset) e
        a in
    let b' =
      subst (λ t. bh.timeframe_orbit_last ≡ sub32 ((get_timeframe_orbit_range t s).1) offset) e b in
    let (i, j) = check_iff k orbit offset s bh v o f p h' a' b' in
    rw (c) (λ x. omega (arith, i x, e), λ t. j (omega (arith, t, e)))

-- A packet passes the check exactly if its orbit belongs to the timeframe of the block, as it is
-- computed from a valid first header, if the timeframe ends before the numbers of the orbits start
-- again from zero and has more than one orbit.
pub tag_datablock_from_rdh_lem :
    (h : Rdh) (bh : DataBlockHeader) (s : Timeframes) (orbit : ℕ)
    → validate_rdh h ≡ 0
    → orbit < 2 ^ 32
    → bh.orbit_offset < 2 ^ 32
    → (let (wrong, bh', s') = tag_datablock_from_rdh h bh s in
        IsStarted s'
        → 1 < s'.period
        → bh'.timeframe_id * s'.period ≤ 2 ^ 32
        → (is_out_of_range bh' orbit ≡ false)
          ↔ ((get_timeframe_from_orbit (add32 orbit bh.orbit_offset) s').0 ≡ bh'.timeframe_id))
unfolding get_timeframe_from_orbit
tag_datablock_from_rdh_lem h bh s orbit e o f v p l =
    let (t, q, a, b) = tagged_range h bh s e in
    tagged_check _ orbit bh.orbit_offset ((tag_datablock_from_rdh h bh s).2)
      ((tag_datablock_from_rdh h bh s).1) v o f p l t a b
