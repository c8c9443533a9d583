-- ===== src/Aggregator/Callback.antt =====
-- src/DataBlockAggregator.cxx, DataBlockAggregator::executeCallback: one round of the aggregator's
-- thread over its inputs. The states of the pages are left out.

pub mod Kept
pub mod Calls
mod Tests
use readout.Prelude.Int.{ltb_ℤ, pos, ◌-ℤ◌}
use readout.DataBlock.{undefined_timeframe_id}
use readout.Fifo.{Fifo}
use readout.Aggregator.Slicer.{
  Block, DataBlockSlicer, DataSet, append_block, complete_slice_on_timeout, get_slice, reset,
}
use readout.Aggregator.Stf.{StfBuffer, StfMap, buffer_slice, push_complete}
use readout.Prelude.{
  Bool, List, Option, [], false, get_or, if◌then◌else◌, length, ltb, none, set, some, suc, true,
  zero, ℕ, ◌%◌, ◌&&◌, ◌*◌, ◌+◌, ◌-◌, ◌==◌, ◌^◌, ◌∷◌,
}

pub data CallbackResult : Type 0 where
  ok idle error : CallbackResult

-- A slice timeout of 0 is none.
pub record Settings : Type 0 where
  pub disable_slicing : Bool
  pub cfg_slice_timeout : ℕ
  pub enable_stf_building : Bool
  pub cfg_stf_timeout : ℕ

-- `maxLoop`
abbrev pub max_loop : ℕ
max_loop = 1024

-- `bcv->at(0)` of a slice, which is never empty.
abbrev pub timeframe_of : DataSet → ℕ
timeframe_of [] = undefined_timeframe_id
timeframe_of (b ∷ d) = b.header.timeframe_id

abbrev pub source_key : DataSet → ℕ
source_key [] = 0
source_key (b ∷ d) = b.header.equipment_id * 2 ^ 32 + b.header.link_id

module _ (I : Fifo Block) (O : Fifo DataSet) where
  pub record Channel : Type 0 where
    pub input : I.Queue
    pub slicer : DataBlockSlicer

  pub record DataBlockAggregator : Type 0 where
    pub channels : List Channel
    pub output : O.Queue
    pub stfs : StfBuffer
    pub next_index : ℕ
    pub total_blocks_in : ℕ
    pub do_flush : Bool

  -- What the round of one input works on, with the counters of the call.
  pub record Round : Type 0 where
    pub channel : Channel
    pub out : O.Queue
    pub buffer : StfBuffer
    pub blocks_in : ℕ
    pub slices_out : ℕ

  abbrev pub with_channel : I.Queue → DataBlockSlicer → Round → Round
  with_channel q s r = record r { channel = record { input = q; slicer = s } }

  -- A block that was taken goes to the slicer; the result is whether the slicer accepts it. A
  -- block is there since the input was not empty.
  pub slice_block : ℕ → Option Block → I.Queue → Round → Bool × Round
  slice_block now none q r = (true, with_channel q r.channel.slicer r)
  slice_block now (some b) q r =
      let (n, s') = append_block b now r.channel.slicer in
      (ltb_ℤ (pos 0) n, record (with_channel q s' r) { blocks_in = suc r.blocks_in })

  -- Some result ends the call.
  pub populate : ℕ → ℕ → Round → Option CallbackResult × Round
  unfolding slice_block
  populate zero now r = (none, r)
  populate (suc j) now r =
      let (b, q) = I.pop r.channel.input in
      let (accepted, r') = slice_block now b q r in
      let rest = populate j now r' in
      if I.is_empty r.channel.input then (none, r) else if accepted then rest else (some error, r')

  -- A slice is buffered or put out.
  pub deliver : Settings → ℕ → DataSet → Round → Round
  deliver g now d r =
      let r' = record r { slices_out = suc r.slices_out } in
      if g.enable_stf_building
      then record r' { buffer = buffer_slice (timeframe_of d) (source_key d) d now r.buffer }
      else record r' { out = (O.push r.out d).1 }

  pub retrieve : Settings → ℕ → ℕ → Bool → Round → Option CallbackResult × Round
  unfolding deliver
  retrieve g zero now flush r = (none, r)
  retrieve g (suc j) now flush r =
      let (o, s') = get_slice (flush && I.is_empty r.channel.input) r.channel.slicer in
      let r' = with_channel r.channel.input s' r in
      if O.is_full r.out
      then (some idle, r)
      else elim o [ none ↦ (none, r') | some d ↦ retrieve g j now flush (deliver g now d r') ]

  -- `now - cfgSliceTimeout` may be negative.
  pub close_on_timeout : Settings → ℕ → Round → Round
  close_on_timeout g now r =
      let s' =
        (complete_slice_on_timeout (pos now -ℤ pos g.cfg_slice_timeout) r.channel.slicer).1 in
      if g.cfg_slice_timeout == 0 then r else with_channel r.channel.input s' r

  abbrev pub retrieve_after :
      Settings → ℕ → Bool → Option CallbackResult × Round → Option CallbackResult × Round
  retrieve_after g now flush (some c, r) = (some c, r)
  retrieve_after g now flush (none, r) = retrieve g max_loop now flush (close_on_timeout g now r)

  abbrev pub pass_block : Option Block → I.Queue → Round → Round
  pass_block none q r = with_channel q r.channel.slicer r
  pass_block (some b) q r = record (with_channel q r.channel.slicer r) {
    out = (O.push r.out (b ∷ [])).1;
    blocks_in = suc r.blocks_in;
    slices_out = suc r.slices_out;
  }

  -- Without slicing, one block is put out as it is.
  pub pass_through : Round → Option CallbackResult × Round
  pass_through r =
      let (b, q) = I.pop r.channel.input in
      if O.is_full r.out
      then (some idle, r)
      else if I.is_empty r.channel.input
      then (none, r)
      else (none, pass_block b q r)

  pub one_input : Settings → ℕ → Bool → Round → Option CallbackResult × Round
  unfolding populate retrieve close_on_timeout pass_through
  one_input g now flush r =
      if g.disable_slicing
      then pass_through r
      else retrieve_after g now flush (populate max_loop now r)

  abbrev pub no_channel : Channel
  no_channel = record {
    input = I.create 0;
    slicer = reset (record { slicer_id = pos 0; partial_slices = []; slices = [] });
  }

  -- The state after the round of input `i`; `totalBlocksIn` is counted for each block.
  abbrev pub store_round : ℕ → ℕ → Round → DataBlockAggregator → DataBlockAggregator
  store_round i before r a = record a {
    channels = set a.channels i r.channel;
    output = r.out;
    stfs = r.buffer;
    total_blocks_in = a.total_blocks_in + (r.blocks_in - before);
  }

  -- The inputs from the `ix`-th on, `left` of them, with the counters of the call.
  pub all_inputs :
      Settings
      → ℕ
      → Bool
      → ℕ
      → ℕ
      → ℕ
      → ℕ
      → DataBlockAggregator
      → Option CallbackResult × ℕ × ℕ × DataBlockAggregator
  unfolding one_input
  all_inputs g now flush zero ix blocks_in slices_out a = (none, blocks_in, slices_out, a)
  all_inputs g now flush (suc left) ix blocks_in slices_out a =
      let i = (ix + a.next_index) % length a.channels in
      let (stop, r) = one_input g now flush (record {
        channel = get_or a.channels i no_channel;
        out = a.output;
        buffer = a.stfs;
        blocks_in = blocks_in;
        slices_out = slices_out;
      }) in
      let a' = store_round i blocks_in r a in
      elim stop [
        | some c ↦ (some c, r.blocks_in, r.slices_out, a')
        | none ↦ all_inputs g now flush left (suc ix) r.blocks_in r.slices_out a'
      ]

  -- The start of the next round, and the timeframes that are complete.
  pub after_inputs : Settings → ℕ → Bool → DataBlockAggregator → DataBlockAggregator
  after_inputs g now flush a =
      let n = length a.channels in
      let a' = record a { next_index = if ltb 1 n then (a.next_index + 1) % n else a.next_index } in
      let (s', q') = push_complete O now g.cfg_stf_timeout flush a.stfs a.output in
      if g.enable_stf_building then record a' { stfs = s'; output = q' } else a'

  abbrev pub is_buffer_empty : StfMap → Bool
  is_buffer_empty [] = true
  is_buffer_empty (e ∷ m) = false

  abbrev pub finish_call :
      Settings
      → ℕ
      → Bool
      → Option CallbackResult × ℕ × ℕ × DataBlockAggregator
      → CallbackResult × DataBlockAggregator
  finish_call g now flush (some c, blocks_in, slices_out, a) = (c, a)
  finish_call g now flush (none, blocks_in, slices_out, a) =
      let a' = after_inputs g now flush a in
      if blocks_in == 0 && slices_out == 0
      then (
        idle,
        if flush && is_buffer_empty a'.stfs.stf_buffer then record a' { do_flush = false } else a',
      )
      else (ok, a')

  pub execute_callback : Settings → ℕ → DataBlockAggregator → CallbackResult × DataBlockAggregator
  unfolding all_inputs after_inputs
  execute_callback g now a =
      if O.is_full a.output
      then (idle, a)
      else finish_call g now a.do_flush (all_inputs g now a.do_flush (length a.channels) 0 0 0 a)
