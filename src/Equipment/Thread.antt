-- ===== src/Equipment/Thread.antt =====
-- src/ReadoutEquipment.cxx, threadCallback and getBlock: blocks come from the device, are tagged, and
-- go to the output FIFO, which the aggregator empties. The device, with the clocks, is a parameter.
-- Logs, the clock of the block rate and the statistics of memory are left out; the identifiers of
-- blocks are taken below 2 ^ 64.
pub mod Ids
mod Tests
use readout.Prelude.Int.{eq_ℤ, pos}
use readout.Prelude.{
  Bool, List, Option, [], false, if◌then◌else◌, ltb, none, not, some, suc, true, zero, ℕ, ◌&&◌,
  ◌++◌, ◌+◌, ◌-◌, ◌==◌, ◌∷◌,
}
use readout.Fifo.{Fifo}
use readout.DataBlock.{DataBlockHeader, undefined_equipment_id, undefined_timeframe_id}
use readout.Rdh.{Rdh}
use readout.Aggregator.Slicer.{Block}
use readout.Equipment.PageCheck.{Settings}
use readout.Equipment.Process.{Equipment, process_rdh}
use readout.RateRegulator.{RateRegulator, next}

-- `getNextBlock`: an exception, a null pointer, or a block.
pub data NextBlock : Type 0 where
  next_throws : NextBlock
  next_null : NextBlock
  next_block : Block → NextBlock

pub data CallbackResult : Type 0 where
  result_ok result_idle result_done result_error : CallbackResult

-- The device of an equipment: what it returns, and the times it is asked for at. `rate_blocks` is
-- `readoutRate * clk0.getTime()`, and `rdh_at` decodes the headers of a block in memory.
pub record Device : Type 1 where
  pub State : Type 0
  pub get_next_block : State → NextBlock × State
  pub prepare_blocks : State → CallbackResult × State
  pub now : State → ℕ
  pub rate_blocks : State → ℕ
  pub is_clk_timeout : State → Bool
  pub is_timeframe_timeout : State → Bool
  pub rdh_at : ℕ → ℕ → Rdh

pub record ThreadSettings : Type 0 where
  pub id : ℕ
  pub using_software_clock : Bool
  pub has_readout_rate : Bool
  pub rdh_use_first_in_page : Bool
  pub rdh_check : Bool
  pub drop_pages_with_error : Bool
  pub disable_timeframes : Bool
  pub auto_timeframe_id : Bool
  pub disable_output : Bool
  pub run_number : ℕ

-- `taken` is not in the code: what getBlock returned, in order.
pub record EquipmentThread (D : Device) (F : Fifo Block) : Type 0 where
  pub equipment : Equipment
  pub device : D.State
  pub tf_regulator : RateRegulator
  pub throttle_pending_block : Option Block
  pub data_out : F.Queue
  pub current_timeframe : ℕ
  pub last_timeframe : ℕ
  pub auto_latest_from_bc : ℕ
  pub auto_counter : ℕ
  pub is_data_on : Bool
  pub n_loop : ℕ
  pub n_throttle : ℕ
  pub n_output_full : ℕ
  pub n_blocks_out : ℕ
  pub n_bytes_out : ℕ
  pub n_idle : ℕ
  pub n_timeframes : ℕ
  pub n_pages_dropped : ℕ
  pub taken : List Block

-- The thread with the locals of the callback.
pub record Turn (D : Device) (F : Fifo Block) : Type 0 where
  pub thread : EquipmentThread D F
  pub is_active : Bool
  pub n_pushed_out : ℕ

abbrev pub max_blocks_to_read : ℕ
max_blocks_to_read = 1024

module _ (D : Device) (F : Fifo Block) (g : Settings) (c : ThreadSettings) where
  -- The statistics of a block that goes out, and the push to the FIFO.
  pub push_block : Block → Turn D F → Bool × Turn D F
  push_block b t =
      let s = t.thread in
      let q = if c.disable_output then s.data_out else (F.push s.data_out b).1 in
      (
        true,
        record {
          thread = record s { n_bytes_out = s.n_bytes_out + b.header.data_size; data_out = q };
          is_active = true;
          n_pushed_out = suc t.n_pushed_out;
        },
      )

  -- A block of a new timeframe waits as long as the rate of timeframes is exceeded.
  pub output_block : Block → Turn D F → Bool × Turn D F
  output_block b t =
      let s = t.thread in
      let tf = b.header.timeframe_id in
      let (ok, r) = next (D.now s.device) s.tf_regulator in
      let s' = record s {
        tf_regulator = r;
        n_timeframes = suc s.n_timeframes;
        last_timeframe = tf;
      } in
      if not (ltb s.last_timeframe tf)
      then push_block b t
      else if ok
      then push_block b (record t { thread = s' })
      else (
        false,
        record t {
          thread = record s { tf_regulator = r; throttle_pending_block = some b };
          is_active = false;
        },
      )

  -- The timeframe of a block: none, or that of the equipment if it has none; and then a counter of
  -- the changes, if so configured.
  pub tag_timeframe : DataBlockHeader → EquipmentThread D F → ℕ × EquipmentThread D F
  tag_timeframe h s =
      let tf =
        if h.timeframe_id == undefined_timeframe_id then s.current_timeframe else h.timeframe_id in
      let s' = record s { auto_latest_from_bc = tf; auto_counter = suc s.auto_counter } in
      if c.disable_timeframes
      then (undefined_timeframe_id, s)
      else if not c.auto_timeframe_id
      then (tf, s)
      else if tf == s.auto_latest_from_bc
      then (s.auto_counter, s)
      else (suc s.auto_counter, s')

  pub tag_block : Block → EquipmentThread D F → Block × EquipmentThread D F
  tag_block b s =
      let e = s.equipment in
      let id = suc e.current_block_id in
      let s1 = record s { equipment = record e { current_block_id = id } } in
      let (tf, s2) = tag_timeframe b.header s1 in
      (
        record b {
          header = record b.header {
            equipment_id = if c.id == undefined_equipment_id then b.header.equipment_id else c.id;
            block_id = id;
            timeframe_id = tf;
            run_number = c.run_number;
          };
        },
        s2,
      )

  -- processRdh on a block: whether it returns an error. A walk that is not ended counts as one.
  pub handle_rdh : Block → Equipment → Bool × (Block × Equipment)
  handle_rdh b e =
      elim (process_rdh g c.rdh_use_first_in_page c.rdh_check b.data_ptr (D.rdh_at b.data_ptr)
        b.header e) [
          | none ↦ (true, (b, e))
          | some (code, r) ↦ (not (eq_ℤ code (pos 0)), (record b { header = r.0 }, r.1))
        ]

  -- A block that the device returned.
  pub accept_block : Block → Turn D F → Bool × Turn D F
  accept_block b t =
      let s = t.thread in
      let (wrong, r) =
        if c.rdh_use_first_in_page then handle_rdh b s.equipment else (false, (b, s.equipment)) in
      let s1 = record s { equipment = r.1 } in
      let (b', s2) = tag_block r.0 s1 in
      if wrong && c.drop_pages_with_error
      then (true, record t { thread = record s1 { n_pages_dropped = suc s.n_pages_dropped } })
      else if not (r.1.checks.detector.discard_data == 0)
      then (true, record t { thread = s1 })
      else output_block b' (record t { thread = s2 })

  -- One round of the loop over the blocks: whether it goes on.
  pub read_one : Turn D F → Bool × Turn D F
  read_one t =
      let s = t.thread in
      let d = (D.get_next_block s.device).1 in
      let t' = record t { thread = record s { device = d } } in
      let got : Bool × Turn D F = elim s.throttle_pending_block [
        | some b ↦ output_block b (record t { thread = record s { throttle_pending_block = none } })
        | none ↦ elim (D.get_next_block s.device).0 [
          | next_throws ↦ (false, t')
          | next_null ↦ (false, t')
          | next_block b ↦ accept_block b t'
        ]
      ] in
      if F.is_full s.data_out
      then (false, record t { thread = record s { n_output_full = suc s.n_output_full } })
      else got

  pub read_blocks : ℕ → Turn D F → Turn D F
  read_blocks zero t = t
  read_blocks (suc n) t =
      let (more, t') = read_one t in let rest = read_blocks n t' in if more then rest else t'

  pub finish_callback : Turn D F → CallbackResult × EquipmentThread D F
  finish_callback t =
      let s = t.thread in
      if t.is_active then (result_ok, s) else (result_idle, record s { n_idle = suc s.n_idle })

  -- After the blocks: the next pages are given to the device.
  pub prepare : Turn D F → CallbackResult × EquipmentThread D F
  prepare t =
      let s = record t.thread { n_blocks_out = t.thread.n_blocks_out + t.n_pushed_out } in
      let s' = record s { device = (D.prepare_blocks s.device).1 } in
      if not s.is_data_on
      then finish_callback (record t { thread = s })
      else elim (D.prepare_blocks s.device).0 [
        | result_ok ↦ finish_callback (record t { thread = s'; is_active = true })
        | result_idle ↦ finish_callback (record t { thread = s' })
        | result_done ↦ (result_done, s')
        | result_error ↦ (result_error, s')
      ]

  -- In software clock mode the timeframe follows the time.
  pub follow_clock : EquipmentThread D F → EquipmentThread D F
  follow_clock s =
      if c.using_software_clock && D.is_timeframe_timeout s.device
      then record s { current_timeframe = suc s.current_timeframe }
      else s

  abbrev pub blocks_allowed : EquipmentThread D F → ℕ
  blocks_allowed s = D.rate_blocks s.device - s.n_blocks_out

  abbrev pub is_throttled : EquipmentThread D F → Bool
  is_throttled s =
      c.has_readout_rate
      && (not (D.is_clk_timeout s.device) && (not (s.n_blocks_out == 0) && blocks_allowed s == 0))

  pub read_at_rate : EquipmentThread D F → CallbackResult × EquipmentThread D F
  read_at_rate s =
      let n = if c.has_readout_rate then blocks_allowed s else max_blocks_to_read in
      let t : Turn D F = record { thread = s; is_active = false; n_pushed_out = 0 } in
      if is_throttled s
      then finish_callback (record t { thread = record s { n_throttle = suc s.n_throttle } })
      else prepare (read_blocks n t)

  pub thread_callback : EquipmentThread D F → CallbackResult × EquipmentThread D F
  thread_callback s0 = let s = follow_clock s0 in read_at_rate (record s { n_loop = suc s.n_loop })

  -- `getBlock`, of the aggregator's side.
  pub get_block : EquipmentThread D F → Option Block × EquipmentThread D F
  get_block s =
      let (o, q) = F.pop s.data_out in
      elim o [
        | none ↦ (none, record s { data_out = q })
        | some b ↦ (some b, record s { data_out = q; taken = s.taken ++ (b ∷ []) })
      ]
