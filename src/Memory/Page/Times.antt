-- ===== src/Memory/Page/Times.antt =====
-- The accounting of the time that a page spends in its states.
use readout.Prelude.{
  All, Bool-cases, List, [], ap, arith, false, get_or, if◌then◌else◌, inl, inr, length, length-set,
  refl, set, suc, sym, true, zero, ℕ, ◌+◌, ◌-◌, ◌<◌, ◌==◌, ◌∙◌, ◌∷◌, ◌≡◌, ◌≢◌, ◌≤◌, ◌⊎◌,
}
use readout.Memory.Page.{
  MemoryPage, PageState, Readings, TimeCounter, allocated, enter, enter_times, idle, in_aggregator,
  in_aggregator_fifo_out, in_consumer, in_equipment, in_equipment_fifo_out, in_fmq, in_roc, leave,
  leave_times, no_time, same_state, set_page_state, state_index, undefined,
}

-- What one state accounts for at `now`: the time added up, and the time since it was entered.
abbrev pub spent : ℕ → TimeCounter → ℕ
spent now c = c.duration + (if c.t0_is_valid then now - c.t0 else 0)

abbrev pub spent_all : ℕ → List TimeCounter → ℕ
spent_all now [] = 0
spent_all now (c ∷ cs) = spent now c + spent_all now cs

-- No counter was started in the future.
abbrev pub Started : ℕ → List TimeCounter → Type 0
Started now = All λ c. c.t0 ≤ now

-- A page that is in a defined state, with only that state's counter running.
pub record IsTimed (now : ℕ) (p : MemoryPage) : Type 0 where
  pub nine : length p.page_state_times ≡ 9
  pub defined : state_index p.current_page_state < 9
  pub started : Started now p.page_state_times
  pub running :
      (i : ℕ)
      → i < 9
      → (get_or p.page_state_times i no_time).t0_is_valid ≡ (i == state_index p.current_page_state)

spent_all-set :
    (now i : ℕ) (c : TimeCounter) (ts : List TimeCounter)
    → i < length ts
    → spent_all now (set ts i c) + spent now (get_or ts i no_time) ≡ spent_all now ts + spent now c
spent_all-set now i c [] h = absurd (omega arith)
spent_all-set now zero c (t ∷ ts) h = omega arith
spent_all-set now (suc i) c (t ∷ ts) h = omega (arith, spent_all-set now i c ts (omega arith))

Started-get_or :
    (now i : ℕ) (ts : List TimeCounter) → Started now ts → (get_or ts i no_time).t0 ≤ now
Started-get_or now i [] h = omega arith
Started-get_or now zero (t ∷ ts) h = h.0
Started-get_or now (suc i) (t ∷ ts) h = Started-get_or now i ts h.1

Started-set :
    (now i : ℕ) (c : TimeCounter) (ts : List TimeCounter)
    → Started now ts
    → c.t0 ≤ now
    → Started now (set ts i c)
Started-set now i c [] h k = tt
Started-set now zero c (t ∷ ts) h k = (k, h.1)
Started-set now (suc i) c (t ∷ ts) h k = (h.0, Started-set now i c ts h.1 k)

get_or-set :
    (i j : ℕ) (c : TimeCounter) (ts : List TimeCounter)
    → i < length ts
    → get_or (set ts i c) j no_time ≡ (if j == i then c else get_or ts j no_time)
get_or-set i j c [] h = absurd (omega arith)
get_or-set zero zero c (t ∷ ts) h = refl
get_or-set zero (suc j) c (t ∷ ts) h = ground arith
get_or-set (suc i) zero c (t ∷ ts) h = ground arith
get_or-set (suc i) (suc j) c (t ∷ ts) h = ground (arith, get_or-set i j c ts (omega arith))

Started-later : (t u : ℕ) (ts : List TimeCounter) → t ≤ u → Started t ts → Started u ts
Started-later t u [] h k = tt
Started-later t u (c ∷ ts) h (a, k) = (omega arith, Started-later t u ts h k)

-- When no counter runs, the time that is accounted for stays.
spent_all-stopped :
    (t u : ℕ) (ts : List TimeCounter)
    → ((k : ℕ) → k < length ts → (get_or ts k no_time).t0_is_valid ≡ false)
    → spent_all u ts ≡ spent_all t ts
spent_all-stopped t u [] h = refl
spent_all-stopped t u (c ∷ ts) h =
    ground (arith, h 0 (omega arith), spent_all-stopped t u ts (λ k l. h (suc k) (omega arith)))

-- The two writes of `setPageState`, from state `i` at `t` to another state `j` at `u`.
left : ℕ → ℕ → List TimeCounter → List TimeCounter
left t i ts = set ts i (leave t (get_or ts i no_time))

moved : ℕ → ℕ → ℕ → ℕ → List TimeCounter → List TimeCounter
moved t u i j ts = set (left t i ts) j (enter u (get_or (left t i ts) j no_time))

module _ (t u i j : ℕ) (ts : List TimeCounter) (nine : length ts ≡ 9) (hi : i < 9) (hj : j < 9)
    (other : i ≢ j) where
  moved-running :
      (k : ℕ)
      → (get_or (moved t u i j ts) k no_time).t0_is_valid
        ≡ (if k == j then true else if k == i then false else (get_or ts k no_time).t0_is_valid)
  unfolding moved left leave enter
  moved-running k = ground (
    arith,
    get_or-set i k (leave t (get_or ts i no_time)) ts,
    get_or-set j k (enter u (get_or (left t i ts) j no_time)) (left t i ts),
    length-set ts i (leave t (get_or ts i no_time)),
  )

  moved-Started : t ≤ u → Started t ts → Started u (moved t u i j ts)
  unfolding moved left leave enter
  moved-Started later s =
      Started-set u j _ (left t i ts)
        (Started-later t u (left t i ts) later (Started-set t i _ ts s (Started-get_or t i ts s)))
        (omega arith)

  length-moved : length (moved t u i j ts) ≡ 9
  unfolding moved left
  length-moved = omega (
    arith,
    length-set ts i (leave t (get_or ts i no_time)),
    length-set (left t i ts) j (enter u (get_or (left t i ts) j no_time)),
  )

  left-stopped :
      ((k : ℕ) → k < 9 → (get_or ts k no_time).t0_is_valid ≡ (k == i))
      → spent_all u (left t i ts) ≡ spent_all t (left t i ts)
  unfolding left leave
  left-stopped running = spent_all-stopped t u (left t i ts) λ k l.
      (let n = length-set ts i (leave t (get_or ts i no_time)) in
        let below : k < 9 = omega (arith, l, n) in
        ground (arith, get_or-set i k (leave t (get_or ts i no_time)) ts, running k below))

  moved-spent :
      ((k : ℕ) → k < 9 → (get_or ts k no_time).t0_is_valid ≡ (k == i))
      → spent_all u (moved t u i j ts) ≡ spent_all t ts
  unfolding moved left leave enter
  moved-spent running = ground (
    arith,
    running i hi,
    running j hj,
    left-stopped running,
    length-set ts i (leave t (get_or ts i no_time)),
    spent_all-set t i (leave t (get_or ts i no_time)) ts,
    spent_all-set u j (enter u (get_or (left t i ts) j no_time)) (left t i ts),
    get_or-set i j (leave t (get_or ts i no_time)) ts,
  )

state_of : ℕ → PageState
state_of n =
    if n == 0
    then idle
    else if n == 1
    then allocated
    else if n == 2
    then in_roc
    else if n == 3
    then in_equipment
    else if n == 4
    then in_equipment_fifo_out
    else if n == 5
    then in_aggregator
    else if n == 6
    then in_aggregator_fifo_out
    else if n == 7
    then in_consumer
    else if n == 8
    then in_fmq
    else undefined

state_of-state_index : (s : PageState) → state_of (state_index s) ≡ s
unfolding state_of
state_of-state_index idle = refl
state_of-state_index allocated = refl
state_of-state_index in_roc = refl
state_of-state_index in_equipment = refl
state_of-state_index in_equipment_fifo_out = refl
state_of-state_index in_aggregator = refl
state_of-state_index in_aggregator_fifo_out = refl
state_of-state_index in_consumer = refl
state_of-state_index in_fmq = refl
state_of-state_index undefined = refl

pub state_index-injective : (s t : PageState) → state_index s ≡ state_index t → s ≡ t
state_index-injective s t e = sym (state_of-state_index s) ∙ ap state_of e ∙ state_of-state_index t

-- `setPageState` to another defined state is the two writes.
times_moved :
    (t u : ℕ) (s : PageState) (p : MemoryPage)
    → state_index s < 9
    → state_index p.current_page_state < 9
    → enter_times u s (leave_times t p.current_page_state p.page_state_times)
      ≡ moved t u (state_index p.current_page_state) (state_index s) p.page_state_times
unfolding enter_times leave_times moved left
times_moved t u s p hs ht = ground arith

-- The page after a change to another state.
abbrev pub Moved : Readings → PageState → MemoryPage → MemoryPage → Type 0
Moved (t, u) s p q =
    IsTimed u q
    × (spent_all u q.page_state_times ≡ spent_all t p.page_state_times)
    × (q.current_page_state ≡ s)

changed :
    (t u : ℕ) (s : PageState) (p : MemoryPage)
    → state_index s < 9
    → t ≤ u
    → IsTimed t p
    → state_index p.current_page_state ≢ state_index s
    → Moved
        (t, u)
        s
        p
        (record p {
          page_state_times =
              enter_times u s (leave_times t p.current_page_state p.page_state_times);
          current_page_state = s;
        })
changed t u s p hs later w other =
    let i = state_index p.current_page_state in
    let j = state_index s in
    let ts = p.page_state_times in
    rw (times_moved t u s p hs w.defined) (
      record {
        nine = length-moved t u i j ts w.nine w.defined hs other;
        defined = hs;
        started = moved-Started t u i j ts w.nine w.defined hs other later w.started;
        running = λ k hk.
            ground (arith, moved-running t u i j ts w.nine w.defined hs other k, w.running k hk);
      },
      moved-spent t u i j ts w.nine w.defined hs other w.running,
      refl,
    )

-- A change to another defined state leaves the old one at one reading of the clock and enters the new
-- one at a later reading, neither of them before any state was entered. At the second reading all
-- states account together for the time that they did at the first, so the time between the two is
-- in no state and no other time is lost; afterwards only the counter of the new state runs. A change
-- to the state that the page is in changes nothing.
pub set_page_state_accounting :
    (t u : ℕ) (s : PageState) (p : MemoryPage)
    → state_index s < 9
    → t ≤ u
    → IsTimed t p
    → ((p.current_page_state ≡ s) × (set_page_state (t, u) s p ≡ p))
      ⊎ ((p.current_page_state ≢ s) × Moved (t, u) s p (set_page_state (t, u) s p))
unfolding set_page_state
set_page_state_accounting t u s p hs later w =
    elim (Bool-cases (same_state s p.current_page_state)) [
      | inl e ↦ rw (e, set_page_state) (inl (sym (state_index-injective _ _ (ground arith)), refl))
      | inr e ↦
          let other : state_index p.current_page_state ≢ state_index s = ground arith in
          rw (e, set_page_state)
            (inr (λ same. other (ap state_index same), changed t u s p hs later w other))
    ]

pub page_ptr-set_page_state :
    (now : Readings) (s : PageState) (p : MemoryPage)
    → (set_page_state now s p).page_ptr ≡ p.page_ptr
unfolding set_page_state
page_ptr-set_page_state now s p = ground arith
