-- ===== src/FmqChannel/Pipeline/Order.antt =====
-- src/ConsumerFMQchannel.cxx: the order of the timeframes, over any sequence of steps.
use mathlib.Core.Bool.{false≢true}
use readout.Fifo.Steps.{pop_some, push_room}
use readout.FmqChannel.Pipeline.Rounds.{
  ==-ne, IsRound, IsRound-ext, IsRound-head, IsRound-snoc, update_at-eq, update_at-ne,
}
use readout.Prelude.{
  ==_iff, Bool, List, Option, Option-intro, [], ap, append_assoc, arith, if-intro, length, map,
  map-append, none, not, refl, some, subst, sym, ℕ, ◌++◌, ◌<◌, ◌==◌, ◌∙◌, ◌∷◌, ◌≡◌, ◌≤◌,
}
use readout.Rdh.{Rdh}
use readout.Fifo.{Fifo}
use readout.FmqChannel.{Page, PagePool}
use readout.FmqChannel.Format.{DdMessage, FmqState, Settings}
use readout.FmqChannel.Pipeline.{
  Item, Pipeline, Timeframe, WThread, change_timeframe, format_taken, format_timeframe, last_page,
  new_pipeline, next_ix, pay, process_for_data_distribution, push_current_timeframe, sender_turn,
  take_one, update_at, w_thread_turn,
}

-- No element, or a first one.
List-intro {ℓ κ μ} :
    {A : Type ℓ} {B : Type κ} (P : B → Type μ) (l : List A) {x : B} {k : A → List A → B}
    → (l ≡ [] → P x)
    → ((a : A) (r : List A) → l ≡ a ∷ r → P (k a r))
    → P (elim l [ [] ↦ x | a ∷ r ↦ k a r ])
List-intro P [] h m = h refl
List-intro P (a ∷ r) h m = m a r refl

nothing_else : {A : Type 0} (a : A) (r : List A) → length (a ∷ r) ≤ 1 → r ≡ []
nothing_else a [] h = refl
nothing_else a (b ∷ r) h = absurd (omega arith)

none_owed : {A : Type 0} (l : List A) → l ≡ [] → 1 ≤ length l → ⊥
none_owed [] e h = omega arith
none_owed (a ∷ l) e h = ground (arith, e)

module _ (F : Fifo Timeframe) (O : Fifo Item) (G : PagePool) (nw_threads : ℕ)
    (sends : DdMessage → Bool) (block_bytes : ℕ → List ℕ) (g : Settings)
    (rdh_at : List ℕ → ℕ → Rdh) where
  abbrev State : Type 0
  State = Pipeline F O G

  pub data Step : State → State → Type 0 where
    pushed :
        (bc : List Page) (p : State)
        → Step p (process_for_data_distribution F O G nw_threads bc p).1
    formatted :
        (ix : ℕ) (p : State) → Step p (w_thread_turn F O G nw_threads block_bytes g rdh_at ix p)
    taken_out : (p : State) → Step p (sender_turn F O G nw_threads sends p)

  pub data Reach (p : State) : State → Type 0 where
    start : Reach p p
    step : {q r : State} → Reach p q → Step q r → Reach p r

  abbrev pub sources : List Item → List Timeframe
  sources l = map (λ (x : Item). x.source) l

  -- What a thread holds, from what the sender takes first.
  abbrev pub held : WThread F O → List Timeframe
  held w = sources (O.contents w.output) ++ (w.owed ++ F.contents w.input)

  -- A thread owes one item at most, and has room for it.
  record IsSolvent (w : WThread F O) : Type 0 where
    one : length w.owed ≤ 1
    room : 1 ≤ length w.owed → length (O.contents w.output) < O.capacity w.output

  -- What the threads hold, taken in turn from the one that the sender reads next, is what was
  -- dispatched and not handled yet.
  record IsOrdered (p : State) : Type 0 where
    waiting : List Timeframe
    in_turn : IsRound nw_threads p.th_ix (λ j. held (p.w_threads j)) waiting p.w_thread_ix_write
    all : p.handled ++ waiting ≡ p.dispatched
    solvent : (j : ℕ) → IsSolvent (p.w_threads j)

  sources-append : (xs ys : List Item) → sources (xs ++ ys) ≡ sources xs ++ sources ys
  sources-append xs ys = map-append (λ (x : Item). x.source) xs ys

  pay_lem :
      (w : WThread F O)
      → IsSolvent w
      → (held (pay F O G nw_threads block_bytes g rdh_at w) ≡ held w)
        × ((pay F O G nw_threads block_bytes g rdh_at w).owed ≡ [])
  unfolding pay
  pay_lem w h =
      let P = λ (v : WThread F O). (held v ≡ held w) × (v.owed ≡ []) in
      let c = O.contents w.output in
      let inp = F.contents w.input in
      List-intro P w.owed (λ e. (refl, e))
        (λ tf r e.
          let item : Item = record { source = tf; messages = none } in
          let n : r ≡ [] =
            nothing_else tf r (subst (λ (l : List Timeframe). length l ≤ 1) e h.one) in
          let room = h.room (rw (e) (omega arith)) in
          (
            ap (λ l. sources l ++ (r ++ inp)) (O.contents-push w.output item room)
                ∙ ap (λ l. l ++ (r ++ inp)) (sources-append c (item ∷ []))
                ∙ append_assoc (sources c) (tf ∷ []) (r ++ inp)
                ∙ ap (λ l. sources c ++ (l ++ inp)) (sym e),
            n,
          ))

  -- A timeframe that is taken is behind an item, or owed.
  format_taken_lem :
      (tf : Timeframe) (w : WThread F O) (ch : FmqState G)
      → w.owed ≡ []
      → length (O.contents w.output) < O.capacity w.output
      → let w' = (format_taken F O G nw_threads block_bytes g rdh_at tf w ch).0 in
        (held w' ≡ sources (O.contents w.output) ++ (tf ∷ F.contents w.input)) × IsSolvent w'
  unfolding format_taken
  format_taken_lem [] w ch e room = (
    ap (λ l. sources (O.contents w.output) ++ ((l ++ ([] ∷ [])) ++ F.contents w.input)) e,
    record { one = rw (e) (omega arith); room = λ n. room },
  )
  format_taken_lem (bc ∷ bcs) w ch e room =
      let tf = bc ∷ bcs in
      let c = O.contents w.output in
      let inp = F.contents w.input in
      let ms = (format_timeframe F O G nw_threads block_bytes g rdh_at tf ch).0.0 in
      let item : Item = record { source = tf; messages = some ms } in
      if-intro
        (λ (r : WThread F O × FmqState G). (held r.0 ≡ sources c ++ (tf ∷ inp)) × IsSolvent r.0)
        (O.push w.output item).0
        (λ ok. (
          ap (λ l. sources l ++ (w.owed ++ inp)) (O.contents-push w.output item room)
              ∙ ap (λ l. l ++ (w.owed ++ inp)) (sources-append c (item ∷ []))
              ∙ append_assoc (sources c) (tf ∷ []) (w.owed ++ inp)
              ∙ ap (λ l. sources c ++ (tf ∷ (l ++ inp))) e,
          record { one = rw (e) (omega arith); room = λ n. absurd (none_owed w.owed e n) },
        ))
        (λ ok. absurd (false≢true (sym ok ∙ O.push-ok w.output item room)))

  take_one_lem :
      (w : WThread F O) (ch : FmqState G)
      → w.owed ≡ []
      → let w' = (take_one F O G nw_threads block_bytes g rdh_at w ch).0 in
        (held w' ≡ held w) × IsSolvent w'
  unfolding take_one
  take_one_lem w ch e =
      let P = λ (r : WThread F O × FmqState G). (held r.0 ≡ held w) × IsSolvent r.0 in
      let idle : IsSolvent w = record {
        one = rw (e) (omega arith);
        room = λ n. absurd (none_owed w.owed e n);
      } in
      if-intro P (O.is_full w.output) (λ f. (refl, idle))
        (λ f.
          Option-intro P (F.pop w.input).0 (λ k. (refl, idle))
            (λ tf k.
              let (r, c, c') = pop_some F w.input tf k in
              let (x, y) =
                format_taken_lem tf (record w { input = (F.pop w.input).1 }) ch e
                  (O.is_full-false w.output f) in
              (
                x
                    ∙ ap (λ l. sources (O.contents w.output) ++ (tf ∷ l)) c'
                    ∙ ap (λ l. sources (O.contents w.output) ++ l) (sym c)
                    ∙ ap (λ l. sources (O.contents w.output) ++ (l ++ F.contents w.input)) (sym e),
                y,
              )))

  w_thread_turn-IsOrdered :
      (ix : ℕ) (p : State)
      → IsOrdered p
      → IsOrdered (w_thread_turn F O G nw_threads block_bytes g rdh_at ix p)
  unfolding w_thread_turn
  w_thread_turn-IsOrdered ix p h =
      let (a, b) = pay_lem (p.w_threads ix) (h.solvent ix) in
      let w = pay F O G nw_threads block_bytes g rdh_at (p.w_threads ix) in
      let (c, d) = take_one_lem w p.channel b in
      record {
        waiting = h.waiting;
        in_turn =
            IsRound-ext nw_threads _ _ _ _ _
              (λ j.
                if-intro (λ (v : WThread F O). held v ≡ held (p.w_threads j)) (j == ix)
                  (λ e. c ∙ a ∙ ap (λ k. held (p.w_threads k)) (sym ((==_iff j ix).0 e)))
                  (λ e. refl))
              h.in_turn;
        all = h.all;
        solvent = λ j. if-intro IsSolvent (j == ix) (λ e. d) (λ e. h.solvent j);
      }

  -- What does not bear on the order.
  beside :
      (p : State) (ch : FmqState G) (b : Option Timeframe) (n : ℕ) (l : List DdMessage)
      → IsOrdered p
      → IsOrdered (record p {
        channel = ch;
        current_timeframe_buffer = b;
        current_timeframe_id = n;
        sent = l;
      })
  beside p ch b n l h = record {
    waiting = h.waiting;
    in_turn = h.in_turn;
    all = h.all;
    solvent = h.solvent;
  }

  sender_turn-IsOrdered :
      (p : State) → IsOrdered p → IsOrdered (sender_turn F O G nw_threads sends p)
  unfolding sender_turn
  sender_turn-IsOrdered p h =
      let ix = p.th_ix in
      let w = p.w_threads ix in
      Option-intro IsOrdered (O.pop w.output).0 (λ e. h)
        (λ item e.
          let (r, c, c') = pop_some O w.output item e in
          let w' = record w { output = (O.pop w.output).1 } in
          let rest = sources r ++ (w.owed ++ F.contents w.input) in
          let first : held w ≡ item.source ∷ rest =
            ap (λ l. sources l ++ (w.owed ++ F.contents w.input)) c in
          let (ys, f, k) =
            IsRound-head nw_threads ix _ h.waiting p.w_thread_ix_write item.source rest h.in_turn
              first in
          let p' = record p {
            w_threads = update_at p.w_threads ix w';
            th_ix = next_ix nw_threads ix;
            handled = p.handled ++ (item.source ∷ []);
          } in
          let done : IsOrdered p' = record {
            waiting = ys;
            in_turn =
                IsRound-ext nw_threads _ _ _ _ _
                  (λ j.
                    if-intro
                      (λ (v : WThread F O).
                        held v ≡ update_at (λ i. held (p.w_threads i)) ix rest j)
                      (j == ix)
                      (λ t.
                        ap (λ l. sources l ++ (w.owed ++ F.contents w.input)) c'
                        ∙ sym (
                            update_at-eq (λ x. held (p.w_threads x)) ix j rest ((==_iff j ix).0 t)))
                      (λ t.
                        sym (update_at-ne (λ x. held (p.w_threads x)) ix j rest (==-ne j ix t))))
                  k;
            all =
                append_assoc p.handled (item.source ∷ []) ys
                ∙ ap (λ l. p.handled ++ l) (sym f)
                ∙ h.all;
            solvent = λ j.
                if-intro IsSolvent (j == ix)
                  (λ t. record {
                    one = (h.solvent ix).one;
                    room = λ n.
                        rw (c', O.capacity-pop w.output)
                          (omega (arith, (h.solvent ix).room n, ap length c));
                  })
                  (λ t. h.solvent j);
          } in
          Option-intro IsOrdered item.messages (λ m. done)
            (λ ms m. beside p' _ p'.current_timeframe_buffer p'.current_timeframe_id _ done))

  push_current_timeframe-IsOrdered :
      (p : State) → IsOrdered p → IsOrdered (push_current_timeframe F O G nw_threads p)
  unfolding push_current_timeframe
  push_current_timeframe-IsOrdered p h =
      let ix = p.w_thread_ix_write in
      let w = p.w_threads ix in
      Option-intro IsOrdered p.current_timeframe_buffer (λ e. h)
        (λ tf e.
          let front = sources (O.contents w.output) ++ w.owed in
          if-intro IsOrdered (F.push w.input tf).0
            (λ ok.
              let c = F.contents-push w.input tf (push_room F w.input tf ok) in
              let w' = record w { input = (F.push w.input tf).1 } in
              let more : held w' ≡ held w ++ (tf ∷ []) =
                ap (λ l. sources (O.contents w.output) ++ (w.owed ++ l)) c
                ∙ ap (λ l. sources (O.contents w.output) ++ l)
                    (sym (append_assoc w.owed (F.contents w.input) (tf ∷ [])))
                ∙ sym (
                    append_assoc (sources (O.contents w.output)) (w.owed ++ F.contents w.input)
                      (tf ∷ [])) in
              record {
                waiting = h.waiting ++ (tf ∷ []);
                in_turn =
                    IsRound-ext nw_threads _ _ _ _ _
                      (λ j.
                        if-intro
                          (λ (v : WThread F O).
                            held v
                            ≡ update_at (λ i. held (p.w_threads i)) ix (held w ++ (tf ∷ [])) j)
                          (j == ix)
                          (λ t.
                            more
                            ∙ sym (
                                update_at-eq (λ x. held (p.w_threads x)) ix j (held w ++ (tf ∷ []))
                                  ((==_iff j ix).0 t)))
                          (λ t. sym (
                            update_at-ne (λ x. held (p.w_threads x)) ix j (held w ++ (tf ∷ []))
                              (==-ne j ix t))))
                      (IsRound-snoc nw_threads p.th_ix _ h.waiting ix tf h.in_turn);
                all =
                    sym (append_assoc p.handled h.waiting (tf ∷ []))
                    ∙ ap (λ l. l ++ (tf ∷ [])) h.all;
                solvent = λ j.
                    if-intro IsSolvent (j == ix)
                      (λ t. record { one = (h.solvent ix).one; room = (h.solvent ix).room })
                      (λ t. h.solvent j);
              })
            (λ ok. beside p _ p.current_timeframe_buffer p.current_timeframe_id p.sent h))

  pushed-IsOrdered :
      (bc : List Page) (p : State)
      → IsOrdered p
      → IsOrdered (process_for_data_distribution F O G nw_threads bc p).1
  unfolding process_for_data_distribution change_timeframe
  pushed-IsOrdered [] p h = h
  pushed-IsOrdered (b ∷ bs) p h =
      let P = λ (r : Bool × State). IsOrdered r.1 in
      let b2 = last_page b bs in
      let changed : IsOrdered (change_timeframe F O G nw_threads b.header.timeframe_id p) =
        if-intro IsOrdered (b.header.timeframe_id == p.current_timeframe_id) (λ e. h)
          (λ e.
            let q = push_current_timeframe F O G nw_threads p in
            beside q q.channel (some []) b.header.timeframe_id q.sent
              (push_current_timeframe-IsOrdered p h)) in
      let p1 = change_timeframe F O G nw_threads b.header.timeframe_id p in
      if-intro P (not (b.header.timeframe_id == b2.header.timeframe_id))
        (λ e. beside p _ p.current_timeframe_buffer p.current_timeframe_id p.sent h)
        (λ e.
          Option-intro P p1.current_timeframe_buffer
            (λ f. beside p1 _ p1.current_timeframe_buffer p1.current_timeframe_id p1.sent changed)
            (λ tf f.
              let k =
                beside p1 p1.channel (some (tf ++ ((b ∷ bs) ∷ []))) p1.current_timeframe_id p1.sent
                  changed in
              if-intro IsOrdered (b2.header.flag_end_of_timeframe == 0) (λ g'. k)
                (λ g'. push_current_timeframe-IsOrdered _ k)))

  Step-IsOrdered : (p q : State) → Step p q → IsOrdered p → IsOrdered q
  Step-IsOrdered _ _ (pushed bc p) h = pushed-IsOrdered bc p h
  Step-IsOrdered _ _ (formatted ix p) h = w_thread_turn-IsOrdered ix p h
  Step-IsOrdered _ _ (taken_out p) h = sender_turn-IsOrdered p h

  Reach-IsOrdered : (p q : State) → Reach p q → IsOrdered p → IsOrdered q
  Reach-IsOrdered p _ start h = h
  Reach-IsOrdered p _ (step {q} {r} w s) h = Step-IsOrdered q r s (Reach-IsOrdered p q w h)

  new_pipeline-IsOrdered : (size : ℕ) (ch : FmqState G) → IsOrdered (new_pipeline F O G size ch)
  unfolding new_pipeline IsRound
  new_pipeline-IsOrdered size ch = record {
    waiting = [];
    in_turn = (refl, λ j. rw (O.contents-create size, F.contents-create size) refl);
    all = refl;
    solvent = λ j. record { one = omega arith; room = λ n. absurd (omega arith) };
  }

  -- Whatever the turns of the threads are, the timeframes that the sender took are the first of those
  -- that were given to the threads, in their order; the rest wait in the threads. None is lost.
  pub Reach-order :
      (size : ℕ) (ch : FmqState G) (p : State)
      → Reach (new_pipeline F O G size ch) p
      → (waiting : List Timeframe) × (p.handled ++ waiting ≡ p.dispatched)
        × IsRound nw_threads p.th_ix (λ j. held (p.w_threads j)) waiting p.w_thread_ix_write
  Reach-order size ch p w =
      let h = Reach-IsOrdered (new_pipeline F O G size ch) p w (new_pipeline-IsOrdered size ch) in
      (h.waiting, h.all, h.in_turn)
