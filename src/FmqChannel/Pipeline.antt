-- ===== src/FmqChannel/Pipeline.antt =====
-- src/ConsumerFMQchannel.cxx: the timeframes are given in turn to threads that format them, and the
-- sender takes the results in the same turn. A step is a call of processForDataDistribution, or one
-- turn of wThreadLoop or senderThreadLoop while the channel runs. Logs and sleeps are left out.
pub mod Rounds
pub mod Order
use readout.DataBlock.{undefined_timeframe_id}
use readout.Prelude.{
  Bool, List, Option, [], false, if◌then◌else◌, length, none, not, some, suc, true, ℕ, ◌++◌, ◌==◌,
  ◌∷◌,
}
use readout.Rdh.{Rdh}
use readout.Fifo.{Fifo}
use readout.FmqChannel.{Page, PagePool}
use readout.FmqChannel.Format.{DdMessage, FmqState, Settings, dd_format_message}

-- All the data sets of a timeframe.
abbrev pub Timeframe : Type 0
Timeframe = List (List Page)

-- An item of an output FIFO: `messages` is the pointer there, which may be null. `source` is not in
-- the code: it tells which timeframe the item stands for.
pub record Item : Type 0 where
  pub source : Timeframe
  pub messages : Option (List DdMessage)

-- `owed` is the timeframes that `pushCount` counts: those taken without an item pushed for them.
pub record WThread (F : Fifo Timeframe) (O : Fifo Item) : Type 0 where
  pub input : F.Queue
  pub output : O.Queue
  pub owed : List Timeframe

-- `dispatched` and `handled` are not in the code: they tell what was pushed to the threads and what
-- the sender took, in order. `sent` is the messages it sent.
pub record Pipeline (F : Fifo Timeframe) (O : Fifo Item) (G : PagePool) : Type 0 where
  pub w_threads : ℕ → WThread F O
  pub w_thread_ix_write : ℕ
  pub current_timeframe_id : ℕ
  pub current_timeframe_buffer : Option Timeframe
  pub th_ix : ℕ
  pub channel : FmqState G
  pub sent : List DdMessage
  pub dispatched : List Timeframe
  pub handled : List Timeframe

abbrev pub update_at : {A : Type 0} → (ℕ → A) → ℕ → A → ℕ → A
update_at f i a k = if k == i then a else f k

-- `ix++; if (ix == nwThreads) ix = 0;`
abbrev pub next_ix : ℕ → ℕ → ℕ
next_ix n ix = if suc ix == n then 0 else suc ix

-- The state after `start`, with FIFOs of the same size.
unfoldable pub new_pipeline :
    (F : Fifo Timeframe) (O : Fifo Item) (G : PagePool) → ℕ → FmqState G → Pipeline F O G
new_pipeline F O G size ch = record {
  w_threads = λ j. record { input = F.create size; output = O.create size; owed = [] };
  w_thread_ix_write = 0;
  current_timeframe_id = undefined_timeframe_id;
  current_timeframe_buffer = none;
  th_ix = 0;
  channel = ch;
  sent = [];
  dispatched = [];
  handled = [];
}

abbrev pub count_error : {G : PagePool} → FmqState G → FmqState G
count_error ch = record ch { total_push_error = suc ch.total_push_error }

unfoldable pub last_page : Page → List Page → Page
last_page b [] = b
last_page b (c ∷ cs) = last_page c cs

module _ (F : Fifo Timeframe) (O : Fifo Item) (G : PagePool) (nw_threads : ℕ) where
  unfoldable pub push_current_timeframe : Pipeline F O G → Pipeline F O G
  push_current_timeframe p = elim p.current_timeframe_buffer [
    | none ↦ p
    | some tf ↦
        let ix = p.w_thread_ix_write in
        let w = p.w_threads ix in
        let (ok, q) = F.push w.input tf in
        if ok
        then record p {
          w_threads = update_at p.w_threads ix (record w { input = q });
          current_timeframe_buffer = none;
          w_thread_ix_write = next_ix nw_threads ix;
          dispatched = p.dispatched ++ (tf ∷ []);
        }
        else record p { channel = count_error p.channel }
  ]

  -- The change of timeframe: what is there is pushed, and a new buffer starts.
  unfoldable pub change_timeframe : ℕ → Pipeline F O G → Pipeline F O G
  change_timeframe tf_id p =
      if tf_id == p.current_timeframe_id then p else record (push_current_timeframe p) {
        current_timeframe_buffer = some [];
        current_timeframe_id = tf_id;
      }

  unfoldable pub process_for_data_distribution : List Page → Pipeline F O G → Bool × Pipeline F O G
  process_for_data_distribution [] p = (true, p)
  process_for_data_distribution (b1 ∷ bs) p =
      let b2 = last_page b1 bs in
      let p1 = change_timeframe b1.header.timeframe_id p in
      let kept : Bool × Pipeline F O G = elim p1.current_timeframe_buffer [
        | none ↦ (false, record p1 { channel = count_error p1.channel })
        | some tf ↦
            let p2 = record p1 { current_timeframe_buffer = some (tf ++ ((b1 ∷ bs) ∷ [])) } in
            (true, if b2.header.flag_end_of_timeframe == 0 then p2 else push_current_timeframe p2)
      ] in
      if not (b1.header.timeframe_id == b2.header.timeframe_id)
      then (false, record p { channel = count_error p.channel })
      else kept

  -- The sender: what FMQ answers to the messages is a parameter.
  unfoldable pub send_all :
      (DdMessage → Bool) → List DdMessage → FmqState G → List DdMessage × FmqState G
  send_all sends [] ch = ([], ch)
  send_all sends (m ∷ ms) ch =
      let (done, ch') = send_all sends ms ch in if sends m then (m ∷ done, ch') else (done, ch')

  unfoldable pub sender_turn : (DdMessage → Bool) → Pipeline F O G → Pipeline F O G
  sender_turn sends p =
      let ix = p.th_ix in
      let w = p.w_threads ix in
      elim (O.pop w.output).0 [
        | none ↦ p
        | some item ↦
            let p' = record p {
              w_threads = update_at p.w_threads ix (record w { output = (O.pop w.output).1 });
              th_ix = next_ix nw_threads ix;
              handled = p.handled ++ (item.source ∷ []);
            } in
            elim item.messages [
              | none ↦ p'
              | some ms ↦
                  let done = (send_all sends ms p.channel).0 in
                  record p' {
                    sent = p.sent ++ done;
                    channel = if length done == length ms then p.channel else count_error p.channel;
                  }
            ]
      ]

  module _ (block_bytes : ℕ → List ℕ) (g : Settings) (rdh_at : List ℕ → ℕ → Rdh) where
    -- The data sets of a timeframe, each formatted; those with an error are left out.
    unfoldable pub format_timeframe : Timeframe → FmqState G → (List DdMessage × Bool) × FmqState G
    format_timeframe [] ch = (([], false), ch)
    format_timeframe (bc ∷ bcs) ch =
        let r = dd_format_message G block_bytes g rdh_at bc ch in
        let ((ms, err), ch') = format_timeframe bcs r.channel in
        if r.ok then ((r.message ∷ ms, err), ch') else ((ms, true), ch')

    -- An item is owed for each timeframe that was taken: a null one, if there was no other.
    unfoldable pub pay : WThread F O → WThread F O
    pay w = elim w.owed [
      | [] ↦ w
      | tf ∷ r ↦ record w {
        output = (O.push w.output (record { source = tf; messages = none })).1;
        owed = r;
      }
    ]

    -- A timeframe taken from the input of a thread.
    unfoldable pub format_taken : Timeframe → WThread F O → FmqState G → WThread F O × FmqState G
    format_taken [] w ch = (record w { owed = w.owed ++ ([] ∷ []) }, ch)
    format_taken (bc ∷ bcs) w ch =
        let tf = bc ∷ bcs in
        let ((ms, err), ch') = format_timeframe tf ch in
        let (ok, q) = O.push w.output (record { source = tf; messages = some ms }) in
        if ok
        then (record w { output = q }, if err then count_error ch' else ch')
        else (record w { owed = w.owed ++ (tf ∷ []) }, count_error ch')

    -- One turn of a thread that is paid up.
    unfoldable pub take_one : WThread F O → FmqState G → WThread F O × FmqState G
    take_one w ch =
        let taken : WThread F O × FmqState G = elim (F.pop w.input).0 [
          | none ↦ (w, ch)
          | some tf ↦ format_taken tf (record w { input = (F.pop w.input).1 }) ch
        ] in
        if O.is_full w.output then (w, ch) else taken

    unfoldable pub w_thread_turn : ℕ → Pipeline F O G → Pipeline F O G
    w_thread_turn ix p =
        let (w, ch) = take_one (pay (p.w_threads ix)) p.channel in
        record p { w_threads = update_at p.w_threads ix w; channel = ch }
