-- ===== src/Aggregator/Callback/Kept.antt =====
-- What the round of one input keeps.
use readout.Aggregator.Slicer.Timeout.{complete_slice_on_timeout_lem, get_slice_lem}
use readout.Fifo.{Fifo}
use readout.Aggregator.Slicer.{Block, DataBlockSlicer, DataSet, append_block, get_slice}
use readout.Aggregator.Slicer.Streams.{IsValid}
use readout.Aggregator.Slicer.Append.{append_block_lem}
use readout.Aggregator.Callback.{
  CallbackResult, Round, Settings, close_on_timeout, deliver, max_loop, one_input, pass_block,
  pass_through, populate, retrieve, retrieve_after, slice_block, source_key, timeframe_of,
  with_channel,
}
use readout.Aggregator.Stf.Kept.{IsOrdered, buffer_slice-IsOrdered}
use readout.Prelude.{
  Bool, Bool-cases, Option, Option-cases, inl, inr, none, some, subst, suc, sym, zero, ℕ, ◌&&◌,
  ◌==◌,
}

append_block-IsValid :
    (b : Block) (now : ℕ) (s : DataBlockSlicer) → IsValid s → IsValid (append_block b now s).1
append_block-IsValid b now s v = elim (append_block_lem b now s v) [
  | inl (k, n, w, a, o) ↦ w
  | inr (k, n, e) ↦ subst IsValid (sym e) v
]

module _ (I : Fifo Block) (O : Fifo DataSet) where
  -- The slicer of an input and the buffer, in the round of the input.
  pub record IsGood (last : ℕ) (r : Round I O) : Type 0 where
    pub slicer_valid : IsValid r.channel.slicer
    pub ordered : IsOrdered last r.buffer

  slice_block-IsGood :
      (last now : ℕ) (b : Option Block) (q : I.Queue) (r : Round I O)
      → IsGood last r
      → IsGood last (slice_block I O now b q r).1
  unfolding slice_block
  slice_block-IsGood last now none q r v = record {
    slicer_valid = v.slicer_valid;
    ordered = v.ordered;
  }
  slice_block-IsGood last now (some b) q r v = record {
    slicer_valid = append_block-IsValid b now r.channel.slicer v.slicer_valid;
    ordered = v.ordered;
  }

  populate-IsGood :
      (last j now : ℕ) (r : Round I O) → IsGood last r → IsGood last (populate I O j now r).1
  unfolding populate
  populate-IsGood last zero now r v = v
  populate-IsGood last (suc j) now r v =
      let (b, q) = I.pop r.channel.input in
      let w = slice_block-IsGood last now b q r v in
      elim (Bool-cases (I.is_empty r.channel.input)) [
        | inl e ↦ rw (e) v
        | inr e ↦ elim (Bool-cases ((slice_block I O now b q r).0)) [
          | inl f ↦ rw (e, f) (populate-IsGood last j now ((slice_block I O now b q r).1) w)
          | inr f ↦ rw (e, f) w
        ]
      ]

  deliver-IsGood :
      (last : ℕ) (g : Settings) (now : ℕ) (d : DataSet) (r : Round I O)
      → IsGood last r
      → IsGood last (deliver I O g now d r)
  unfolding deliver
  deliver-IsGood last g now d r v = elim (Bool-cases g.enable_stf_building) [
    | inl e ↦ rw (e) (record {
      slicer_valid = v.slicer_valid;
      ordered =
          buffer_slice-IsOrdered last (timeframe_of d) (source_key d) d now r.buffer v.ordered;
    })
    | inr e ↦ rw (e) (record { slicer_valid = v.slicer_valid; ordered = v.ordered })
  ]

  retrieve-IsGood :
      (last : ℕ) (g : Settings) (j now : ℕ) (flush : Bool) (r : Round I O)
      → IsGood last r
      → IsGood last (retrieve I O g j now flush r).1
  unfolding retrieve
  retrieve-IsGood last g zero now flush r v = v
  retrieve-IsGood last g (suc j) now flush r v =
      let inc = flush && I.is_empty r.channel.input in
      let s' = (get_slice inc r.channel.slicer).1 in
      let r' : Round I O = with_channel I O r.channel.input s' r in
      let w : IsGood last r' = record {
        slicer_valid = (get_slice_lem inc r.channel.slicer v.slicer_valid).0.0;
        ordered = v.ordered;
      } in
      elim (Bool-cases (O.is_full r.out)) [
        | inl e ↦ rw (e) v
        | inr e ↦ elim (Option-cases ((get_slice inc r.channel.slicer).0)) [
          | inl f ↦ rw (e, f) w
          | inr (d, f) ↦
              rw (e, f)
                (retrieve-IsGood last g j now flush (deliver I O g now d r')
                  (deliver-IsGood last g now d r' w))
        ]
      ]

  close_on_timeout-IsGood :
      (last : ℕ) (g : Settings) (now : ℕ) (r : Round I O)
      → IsGood last r
      → IsGood last (close_on_timeout I O g now r)
  unfolding close_on_timeout
  close_on_timeout-IsGood last g now r v = elim (Bool-cases (g.cfg_slice_timeout == 0)) [
    | inl e ↦ rw (e) v
    | inr e ↦ rw (e) (record {
      slicer_valid = (complete_slice_on_timeout_lem _ r.channel.slicer v.slicer_valid).0;
      ordered = v.ordered;
    })
  ]

  pass_block-IsGood :
      (last : ℕ) (b : Option Block) (q : I.Queue) (r : Round I O)
      → IsGood last r
      → IsGood last (pass_block I O b q r)
  pass_block-IsGood last none q r v = record { slicer_valid = v.slicer_valid; ordered = v.ordered }
  pass_block-IsGood last (some b) q r v = record {
    slicer_valid = v.slicer_valid;
    ordered = v.ordered;
  }

  pass_through-IsGood :
      (last : ℕ) (r : Round I O) → IsGood last r → IsGood last (pass_through I O r).1
  unfolding pass_through
  pass_through-IsGood last r v =
      let (b, q) = I.pop r.channel.input in
      elim (Bool-cases (O.is_full r.out)) [
        | inl e ↦ rw (e) v
        | inr e ↦ elim (Bool-cases (I.is_empty r.channel.input)) [
          | inl f ↦ rw (e, f) v
          | inr f ↦ rw (e, f) (pass_block-IsGood last b q r v)
        ]
      ]

  retrieve_after-IsGood :
      (last : ℕ) (g : Settings) (now : ℕ) (flush : Bool) (o : Option CallbackResult) (r : Round I O)
      → IsGood last r
      → IsGood last (retrieve_after I O g now flush (o, r)).1
  retrieve_after-IsGood last g now flush (some c) r v = v
  retrieve_after-IsGood last g now flush none r v =
      retrieve-IsGood last g max_loop now flush (close_on_timeout I O g now r)
        (close_on_timeout-IsGood last g now r v)

  pub one_input-IsGood :
      (last : ℕ) (g : Settings) (now : ℕ) (flush : Bool) (r : Round I O)
      → IsGood last r
      → IsGood last (one_input I O g now flush r).1
  unfolding one_input
  one_input-IsGood last g now flush r v = elim (Bool-cases g.disable_slicing) [
    | inl e ↦ rw (e) (pass_through-IsGood last r v)
    | inr e ↦ rw (e) (
        retrieve_after-IsGood last g now flush ((populate I O max_loop now r).0)
          ((populate I O max_loop now r).1) (populate-IsGood last max_loop now r v))
  ]
