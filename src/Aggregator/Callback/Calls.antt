-- ===== src/Aggregator/Callback/Calls.antt =====
-- What a call of the aggregator keeps.
use readout.Fifo.{Fifo}
use readout.Aggregator.Slicer.{Block, DataSet}
use readout.Aggregator.Slicer.Streams.{IsValid, reset-IsValid}
use readout.Aggregator.Stf.Kept.{IsOrdered, push_complete-IsOrdered}
use readout.Aggregator.Callback.{
  CallbackResult, DataBlockAggregator, Round, Settings, after_inputs, all_inputs, execute_callback,
  finish_call, is_buffer_empty, no_channel, one_input, store_round,
}
use readout.Aggregator.Callback.Kept.{IsGood, one_input-IsGood}
use readout.Prelude.{
  All, All-get_or, All-set, Bool, Bool-cases, Option, Option-cases, get_or, inl, inr, length, none,
  some, suc, zero, ℕ, ◌%◌, ◌&&◌, ◌+◌, ◌==◌,
}

module _ (I : Fifo Block) (O : Fifo DataSet) where
  -- All slicers and the buffer.
  pub record AllGood (last : ℕ) (a : DataBlockAggregator I O) : Type 0 where
    pub slicers : All (λ c. IsValid c.slicer) a.channels
    pub in_order : IsOrdered last a.stfs

  store_round-AllGood :
      (last i before : ℕ) (r : Round I O) (a : DataBlockAggregator I O)
      → AllGood last a
      → IsGood I O last r
      → AllGood last (store_round I O i before r a)
  store_round-AllGood last i before r a v w = record {
    slicers = All-set (λ c. IsValid c.slicer) a.channels i r.channel v.slicers w.slicer_valid;
    in_order = w.ordered;
  }

  after_inputs-AllGood :
      (last : ℕ) (g : Settings) (now : ℕ) (flush : Bool) (a : DataBlockAggregator I O)
      → AllGood last a
      → AllGood last (after_inputs I O g now flush a)
  unfolding after_inputs
  after_inputs-AllGood last g now flush a v = elim (Bool-cases g.enable_stf_building) [
    | inl e ↦ rw (e) (record {
      slicers = v.slicers;
      in_order =
          push_complete-IsOrdered O last now g.cfg_stf_timeout flush a.stfs a.output v.in_order;
    })
    | inr e ↦ rw (e) (record { slicers = v.slicers; in_order = v.in_order })
  ]

  all_inputs-AllGood :
      (last : ℕ) (g : Settings) (now : ℕ) (flush : Bool) (left ix blocks slices : ℕ)
      → (a : DataBlockAggregator I O) → AllGood last a
      → AllGood last (all_inputs I O g now flush left ix blocks slices a).3
  unfolding all_inputs
  all_inputs-AllGood last g now flush zero ix blocks slices a v = v
  all_inputs-AllGood last g now flush (suc left) ix blocks slices a v =
      let i = (ix + a.next_index) % length a.channels in
      let r : Round I O = record {
        channel = get_or a.channels i (no_channel I O);
        out = a.output;
        buffer = a.stfs;
        blocks_in = blocks;
        slices_out = slices;
      } in
      let good : IsGood I O last r = record {
        slicer_valid =
            All-get_or (λ c. IsValid c.slicer) a.channels i (no_channel I O) v.slicers
              (reset-IsValid _);
        ordered = v.in_order;
      } in
      let r' = (one_input I O g now flush r).1 in
      let w =
        store_round-AllGood last i blocks r' a v (one_input-IsGood I O last g now flush r good) in
      elim (Option-cases ((one_input I O g now flush r).0)) [
        | inl e ↦
            rw (all_inputs, e)
              (all_inputs-AllGood last g now flush left (suc ix) r'.blocks_in r'.slices_out
                (store_round I O i blocks r' a) w)
        | inr (c, e) ↦ rw (all_inputs, e) w
      ]

  finish_call-AllGood :
      (last : ℕ) (g : Settings) (now : ℕ) (flush : Bool) (o : Option CallbackResult)
      → (blocks slices : ℕ) (a : DataBlockAggregator I O) → AllGood last a
      → AllGood last (finish_call I O g now flush (o, blocks, slices, a)).1
  finish_call-AllGood last g now flush (some c) blocks slices a v = v
  finish_call-AllGood last g now flush none blocks slices a v =
      let w = after_inputs-AllGood last g now flush a v in
      let a' = after_inputs I O g now flush a in
      elim (Bool-cases (blocks == 0 && slices == 0)) [
        | inr e ↦ rw (e) w
        | inl e ↦ elim (Bool-cases (flush && is_buffer_empty I O a'.stfs.stf_buffer)) [
          | inl f ↦ rw (e, f) (record { slicers = w.slicers; in_order = w.in_order })
          | inr f ↦ rw (e, f) w
        ]
      ]

-- A call of the aggregator, whatever it returns, keeps the slices of all inputs in their form, one
-- source and one timeframe each, and the buffered timeframes in order after the last one sent,
-- which never goes back.
pub execute_callback-AllGood :
    (I : Fifo Block) (O : Fifo DataSet) (g : Settings) (now last : ℕ) (a : DataBlockAggregator I O)
    → AllGood I O last a
    → AllGood I O last (execute_callback I O g now a).1
unfolding execute_callback
execute_callback-AllGood I O g now last a v = elim (Bool-cases (O.is_full a.output)) [
  | inl e ↦ rw (e) v
  | inr e ↦ rw (e) (
      finish_call-AllGood I O last g now a.do_flush
        ((all_inputs I O g now a.do_flush (length a.channels) 0 0 0 a).0)
        ((all_inputs I O g now a.do_flush (length a.channels) 0 0 0 a).1)
        ((all_inputs I O g now a.do_flush (length a.channels) 0 0 0 a).2)
        ((all_inputs I O g now a.do_flush (length a.channels) 0 0 0 a).3)
        (all_inputs-AllGood I O last g now a.do_flush (length a.channels) 0 0 0 a v))
]
