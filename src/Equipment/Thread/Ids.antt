-- ===== src/Equipment/Thread/Ids.antt =====
-- src/ReadoutEquipment.cxx, threadCallback: the identifiers of the blocks that go out.
use readout.Equipment.Thread.{
  CallbackResult, Device, EquipmentThread, NextBlock, ThreadSettings, Turn, accept_block,
  blocks_allowed, finish_callback, follow_clock, get_block, handle_rdh, is_throttled,
  max_blocks_to_read, next_block, next_null, next_throws, output_block, prepare, push_block,
  read_at_rate, read_blocks, read_one, result_done, result_error, result_idle, result_ok, tag_block,
  tag_timeframe, thread_callback,
}
use readout.DataBlock.{undefined_equipment_id, undefined_timeframe_id}
use readout.Fifo.Steps.{pop_none, pop_some}
use readout.RateRegulator.{next}
use readout.Equipment.Process.{Equipment, SameId, process_rdh, process_rdh-SameId}
use readout.Prelude.{
  Bool, List, Option, Option-intro, [], ap, append-nil, append_assoc, false, if-intro,
  if◌then◌else◌, length, ltb, map, map-append, none, not, refl, some, subst, suc, sym, zero, ℕ,
  ◌&&◌, ◌++◌, ◌<◌, ◌==◌, ◌∙◌, ◌∷◌, ◌≡◌,
}
use readout.Fifo.{Fifo}
use readout.Aggregator.Slicer.{Block}
use readout.Equipment.PageCheck.{Settings}

-- The first identifiers, from 1.
abbrev pub first_ids : ℕ → List ℕ
first_ids zero = []
first_ids (suc n) = first_ids n ++ (suc n ∷ [])

abbrev pub block_ids : List Block → List ℕ
block_ids l = map (λ (b : Block). b.header.block_id) l

abbrev pub waiting_block : Option Block → List Block
waiting_block none = []
waiting_block (some b) = b ∷ []

NextBlock-intro :
    {B : Type 0} (P : B → Type 0) (n : NextBlock) {x y : B} {z : Block → B}
    → (n ≡ next_throws → P x)
    → (n ≡ next_null → P y)
    → ((b : Block) → n ≡ next_block b → P (z b))
    → P (elim n [ next_throws ↦ x | next_null ↦ y | next_block b ↦ z b ])
NextBlock-intro P next_throws h k l = h refl
NextBlock-intro P next_null h k l = k refl
NextBlock-intro P (next_block b) h k l = l b refl

CallbackResult-intro :
    {B : Type 0} (P : B → Type 0) (r : CallbackResult) {x y z w : B}
    → P x
    → P y
    → P z
    → P w
    → P (elim r [ result_ok ↦ x | result_idle ↦ y | result_done ↦ z | result_error ↦ w ])
CallbackResult-intro P result_ok h k l m = h
CallbackResult-intro P result_idle h k l m = k
CallbackResult-intro P result_done h k l m = l
CallbackResult-intro P result_error h k l m = m

module _ (D : Device) (F : Fifo Block) (g : Settings) (c : ThreadSettings) where
  abbrev State : Type 0
  State = EquipmentThread D F

  -- What was taken, what is in the FIFO and the block that waits for the rate have the identifiers
  -- from 1 to the last one that was given, in order.
  IsNumbered : List Block → List Block → Option Block → ℕ → Type 0
  IsNumbered taken out pending n = block_ids (taken ++ (out ++ waiting_block pending)) ≡ first_ids n

  abbrev Good : State → Type 0
  Good s =
      IsNumbered s.taken (F.contents s.data_out) s.throttle_pending_block
        s.equipment.current_block_id

  handle_rdh-current_block_id :
      (b : Block) (e : Equipment)
      → (handle_rdh D F g c b e).1.1.current_block_id ≡ e.current_block_id
  unfolding handle_rdh
  handle_rdh-current_block_id b e =
      let o =
        process_rdh g c.rdh_use_first_in_page c.rdh_check b.data_ptr (D.rdh_at b.data_ptr) b.header
          e in
      Option-intro (λ (r : Bool × (Block × Equipment)). r.1.1.current_block_id ≡ e.current_block_id)
        o (λ f. refl)
        (λ r f. subst (SameId g c.rdh_use_first_in_page c.rdh_check e) f (
          process_rdh-SameId g c.rdh_use_first_in_page c.rdh_check b.data_ptr (D.rdh_at b.data_ptr)
            b.header e))

  -- The state when a block that is given an identifier is on its way out.
  abbrev Leaving : Block → State → Type 0
  Leaving b s =
      IsNumbered s.taken (F.contents s.data_out) (some b) s.equipment.current_block_id
      × (s.throttle_pending_block ≡ none)

  abbrev GoodTurn : Bool × Turn D F → Type 0
  GoodTurn r = Good r.1.thread

  module _ (sends : c.disable_output ≡ false) where
    push_block-Good :
        (b : Block) (t : Turn D F)
        → length (F.contents t.thread.data_out) < F.capacity t.thread.data_out
        → Leaving b t.thread
        → GoodTurn (push_block D F g c b t)
    unfolding push_block IsNumbered
    push_block-Good b t room (h, p) =
        rw
          (
            sends,
            p,
            F.contents-push t.thread.data_out b room,
            append-nil (F.contents t.thread.data_out ++ (b ∷ [])),
          )
          h

    output_block-Good :
        (b : Block) (t : Turn D F)
        → length (F.contents t.thread.data_out) < F.capacity t.thread.data_out
        → Leaving b t.thread
        → GoodTurn (output_block D F g c b t)
    unfolding output_block
    output_block-Good b t room h =
        let s = t.thread in
        let r = next (D.now s.device) s.tf_regulator in
        if-intro GoodTurn (not (ltb s.last_timeframe b.header.timeframe_id))
          (λ e. push_block-Good b t room h)
          (λ e. if-intro GoodTurn r.0 (λ f. push_block-Good b _ room h) (λ f. h.0))

    tag_block-Leaving :
        (b : Block) (s : State)
        → Good s
        → s.throttle_pending_block ≡ none
        → Leaving (tag_block D F g c b s).0 (tag_block D F g c b s).1
    unfolding tag_block tag_timeframe IsNumbered
    tag_block-Leaving b s h p =
        let n = s.equipment.current_block_id in
        let out = F.contents s.data_out in
        let before : block_ids (s.taken ++ out) ≡ first_ids n =
          ap (λ l. block_ids (s.taken ++ l)) (sym (append-nil out))
          ∙ ap (λ o. block_ids (s.taken ++ (out ++ waiting_block o))) (sym p)
          ∙ h in
        let after : (x : Block)
            → x.header.block_id ≡ suc n
            → block_ids (s.taken ++ (out ++ (x ∷ []))) ≡ first_ids (suc n) =
          λ x e.
            ap block_ids (sym (append_assoc s.taken out (x ∷ [])))
            ∙ map-append (λ (y : Block). y.header.block_id) (s.taken ++ out) (x ∷ [])
            ∙ ap (λ l. l ++ (x.header.block_id ∷ [])) before
            ∙ ap (λ i. first_ids n ++ (i ∷ [])) e in
        let P = λ (r : ℕ × State).
          Leaving
            (record b {
              header = record b.header {
                equipment_id =
                    if c.id == undefined_equipment_id then b.header.equipment_id else c.id;
                block_id = suc n;
                timeframe_id = r.0;
                run_number = c.run_number;
              };
            })
            r.1 in
        let tf =
          if b.header.timeframe_id == undefined_timeframe_id
          then s.current_timeframe
          else b.header.timeframe_id in
        if-intro P c.disable_timeframes (λ e. (after _ refl, p))
          (λ e.
            if-intro P (not c.auto_timeframe_id) (λ e. (after _ refl, p))
              (λ e.
                if-intro P (tf == s.auto_latest_from_bc) (λ e. (after _ refl, p))
                  (λ e. (after _ refl, p))))

    tag_block-room :
        (b : Block) (s : State)
        → length (F.contents s.data_out) < F.capacity s.data_out
        → let q = (tag_block D F g c b s).1.data_out in length (F.contents q) < F.capacity q
    unfolding tag_block tag_timeframe
    tag_block-room b s room =
        let P = λ (r : ℕ × State). length (F.contents r.1.data_out) < F.capacity r.1.data_out in
        let tf =
          if b.header.timeframe_id == undefined_timeframe_id
          then s.current_timeframe
          else b.header.timeframe_id in
        if-intro P c.disable_timeframes (λ e. room)
          (λ e.
            if-intro P (not c.auto_timeframe_id) (λ e. room)
              (λ e. if-intro P (tf == s.auto_latest_from_bc) (λ e. room) (λ e. room)))

    accept_block-Good :
        (b : Block) (t : Turn D F)
        → length (F.contents t.thread.data_out) < F.capacity t.thread.data_out
        → t.thread.throttle_pending_block ≡ none
        → Good t.thread
        → GoodTurn (accept_block D F g c b t)
    unfolding accept_block
    accept_block-Good b t room p h =
        let s = t.thread in
        let r =
          if c.rdh_use_first_in_page
          then handle_rdh D F g c b s.equipment
          else (false, (b, s.equipment)) in
        let same : r.1.1.current_block_id ≡ s.equipment.current_block_id =
          if-intro
            (λ (r : Bool × (Block × Equipment)).
              r.1.1.current_block_id ≡ s.equipment.current_block_id)
            c.rdh_use_first_in_page (λ e. handle_rdh-current_block_id b s.equipment) (λ e. refl) in
        let s1 = record s { equipment = r.1.1 } in
        let k : Good s1 =
          subst (IsNumbered s.taken (F.contents s.data_out) s.throttle_pending_block) (sym same)
            h in
        if-intro GoodTurn (r.0 && c.drop_pages_with_error) (λ e. k)
          (λ e.
            if-intro GoodTurn (not (r.1.1.checks.detector.discard_data == 0)) (λ e. k)
              (λ e.
                let v = tag_block-Leaving r.1.0 s1 k p in
                let same_out = tag_block-room r.1.0 s1 room in
                output_block-Good (tag_block D F g c r.1.0 s1).0 _ same_out v))

    read_one-Good : (t : Turn D F) → Good t.thread → GoodTurn (read_one D F g c t)
    unfolding read_one
    read_one-Good t h =
        let s = t.thread in
        if-intro GoodTurn (F.is_full s.data_out) (λ e. h)
          (λ e.
            let room = F.is_full-false s.data_out e in
            let n = s.equipment.current_block_id in
            Option-intro GoodTurn s.throttle_pending_block
              (λ p.
                NextBlock-intro GoodTurn (D.get_next_block s.device).0 (λ f. h) (λ f. h)
                  (λ b f. accept_block-Good b _ room p h))
              (λ b p.
                output_block-Good b _ room
                  (subst (λ o. IsNumbered s.taken (F.contents s.data_out) o n) p h, refl)))

    read_blocks-Good :
        (n : ℕ) (t : Turn D F) → Good t.thread → Good (read_blocks D F g c n t).thread
    unfolding read_blocks
    read_blocks-Good zero t h = h
    read_blocks-Good (suc n) t h =
        let r = read_one D F g c t in
        let k = read_one-Good t h in
        if-intro (λ (u : Turn D F). Good u.thread) r.0 (λ e. read_blocks-Good n r.1 k) (λ e. k)

    finish_callback-Good : (t : Turn D F) → Good t.thread → Good (finish_callback D F g c t).1
    unfolding finish_callback
    finish_callback-Good t h =
        if-intro (λ (r : CallbackResult × State). Good r.1) t.is_active (λ e. h) (λ e. h)

    prepare-Good : (t : Turn D F) → Good t.thread → Good (prepare D F g c t).1
    unfolding prepare
    prepare-Good t h =
        let P = λ (r : CallbackResult × State). Good r.1 in
        if-intro P (not t.thread.is_data_on) (λ e. finish_callback-Good _ h)
          (λ e.
            CallbackResult-intro P (D.prepare_blocks t.thread.device).0 (finish_callback-Good _ h)
              (finish_callback-Good _ h) h h)

    follow_clock-Good : (s : State) → Good s → Good (follow_clock D F g c s)
    unfolding follow_clock
    follow_clock-Good s h =
        if-intro (λ (s : State). Good s) (c.using_software_clock && D.is_timeframe_timeout s.device)
          (λ e. h) (λ e. h)

    read_at_rate-Good : (s : State) → Good s → Good (read_at_rate D F g c s).1
    unfolding read_at_rate
    read_at_rate-Good s h =
        let t : Turn D F = record { thread = s; is_active = false; n_pushed_out = 0 } in
        if-intro (λ (r : CallbackResult × State). Good r.1) (is_throttled D F g c s)
          (λ e.
            finish_callback-Good (record t { thread = record s { n_throttle = suc s.n_throttle } })
              h)
          (λ e.
            let n = if c.has_readout_rate then blocks_allowed D F g c s else max_blocks_to_read in
            prepare-Good (read_blocks D F g c n t) (read_blocks-Good n t h))

    thread_callback-Good : (s : State) → Good s → Good (thread_callback D F g c s).1
    unfolding thread_callback
    thread_callback-Good s h =
        let s1 = follow_clock D F g c s in
        read_at_rate-Good (record s1 { n_loop = suc s1.n_loop }) (follow_clock-Good s h)

    get_block-Good : (s : State) → Good s → Good (get_block D F g c s).1
    unfolding get_block IsNumbered
    get_block-Good s h =
        let n = s.equipment.current_block_id in
        Option-intro (λ (r : Option Block × State). Good r.1) (F.pop s.data_out).0
          (λ e.
            subst (λ l. IsNumbered s.taken l s.throttle_pending_block n)
              (sym (pop_none F s.data_out e)) h)
          (λ b e.
            let (r, f, k) = pop_some F s.data_out b e in
            let rest = r ++ waiting_block s.throttle_pending_block in
            ap block_ids (append_assoc s.taken (b ∷ []) _)
            ∙ ap (λ l. block_ids (s.taken ++ (b ∷ (l ++ waiting_block s.throttle_pending_block)))) k
            ∙ ap (λ l. block_ids (s.taken ++ (l ++ waiting_block s.throttle_pending_block))) (sym f)
            ∙ h)

  -- A step of the thread, or of the aggregator that takes a block.
  pub data Step : State → State → Type 0 where
    called_back : (s : State) → Step s (thread_callback D F g c s).1
    got_block : (s : State) → Step s (get_block D F g c s).1

  pub data Reach (s : State) : State → Type 0 where
    begin : Reach s s
    then_step : {q r : State} → Reach s q → Step q r → Reach s r

  Step-Good : c.disable_output ≡ false → (q r : State) → Step q r → Good q → Good r
  Step-Good o _ _ (called_back s) h = thread_callback-Good o s h
  Step-Good o _ _ (got_block s) h = get_block-Good o s h

  Reach-Good : c.disable_output ≡ false → (s q : State) → Reach s q → Good s → Good q
  Reach-Good o s _ begin h = h
  Reach-Good o s _ (then_step {q} {r} w z) h = Step-Good o q r z (Reach-Good o s q w h)

  -- Whatever the device returns and however the calls of the thread and of the aggregator mix, the
  -- blocks that the aggregator took, then those in the output FIFO, then the one that waits for the
  -- rate of timeframes, have the identifiers from 1 to the last that was given, each once and in
  -- order, when the thread started with none and its output is enabled.
  pub Reach-first_ids :
      (s q : State)
      → c.disable_output ≡ false
      → s.taken ≡ []
      → F.contents s.data_out ≡ []
      → s.throttle_pending_block ≡ none
      → s.equipment.current_block_id ≡ 0
      → Reach s q
      → block_ids (q.taken ++ (F.contents q.data_out ++ waiting_block q.throttle_pending_block))
        ≡ first_ids q.equipment.current_block_id
  unfolding IsNumbered
  Reach-first_ids s q o a b p n w = Reach-Good o s q w (rw (a, b, p, n) refl)
