-- ===== src/Memory/Pool/Usage.antt =====
-- The usage of the pool as it is reported: updateBufferState.
use readout.Fifo.{Fifo}
use readout.Memory.Pool.{
  BufferState, Pool, empty, full, get_number_of_pages_available, next_buffer_state,
  update_buffer_state,
}
use readout.Prelude.{
  Bool, Bool-cases, List, [], arith, inl, inr, none, some, true, ℕ, ◌*◌, ◌-◌, ◌<◌, ◌∷◌, ◌≡◌, ◌≢◌,
}

-- No state is reported twice in a row, and the last report is the state.
abbrev pub Differs : BufferState → List BufferState → Type 0
Differs s [] = Unit
Differs s (m ∷ ms) = (s ≢ m) × Differs m ms

abbrev pub Alternates : BufferState → List BufferState → Type 0
Alternates s [] = s ≡ empty
Alternates s (m ∷ ms) = (s ≡ m) × Differs m ms

next-Alternates :
    (s : BufferState) (log : List BufferState) (a b c : Bool)
    → Alternates s log
    → let next = next_buffer_state s a b c in
      Alternates (elim next [ none ↦ s | some t ↦ t ]) (elim next [ none ↦ log | some t ↦ t ∷ log ])
next-Alternates s [] a b c h = ground arith
next-Alternates s (m ∷ ms) a b c h = ground arith

module _ {F : Fifo ℕ} where
  abbrev pub used : Pool F → ℕ
  used p = p.number_of_pages - get_number_of_pages_available F p

  -- With a log callback and at least one page: no free page makes the state full, whatever it was;
  -- usage above the high mark (with a free page) leaves a state that is not empty; usage below the
  -- low mark makes it empty. Between the marks the state stays as it was.
  pub update_buffer_state_lem :
      (p : Pool F)
      → p.has_log_callback ≡ true
      → 0 < p.number_of_pages
      → let free = get_number_of_pages_available F p in
        let s = (update_buffer_state F p).state in
        let above = p.th_high.num * p.number_of_pages < used p * p.th_high.den in
        let below = used p * p.th_ok.den < p.th_ok.num * p.number_of_pages in
        (free ≡ 0 → ¬ below → s ≡ full)
        × (above → ¬ below → s ≢ empty)
        × (¬ (free ≡ 0) → ¬ above → below → s ≡ empty)
        × (¬ (free ≡ 0) → ¬ above → ¬ below → s ≡ p.state)
  unfolding update_buffer_state
  update_buffer_state_lem p cb some_page = ground arith

  -- The log of the buffer state never reports the same state twice in a row, and its last report is
  -- the current state.
  pub update_buffer_state-Alternates :
      (p : Pool F)
      → Alternates p.state p.log
      → let q = update_buffer_state F p in Alternates q.state q.log
  unfolding update_buffer_state
  update_buffer_state-Alternates p h = elim (Bool-cases p.has_log_callback) [
    | inl e ↦ rw (e, update_buffer_state) (next-Alternates p.state p.log _ _ _ h)
    | inr e ↦ rw (e, update_buffer_state) h
  ]
