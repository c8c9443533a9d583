-- ===== src/Aggregator/Stf/Kept.antt =====
-- The buffer of timeframes stays in order, whatever the output does.
use readout.Fifo.{Fifo}
use readout.Aggregator.Slicer.{DataSet}
use readout.Aggregator.Stf.{
  StfBuffer, StfMap, buffer_slice, is_ready, push_all, push_complete, push_stfs, sent_slices,
}
use readout.Aggregator.Stf.Order.{Ascends, buffer_slice_lem}
use readout.Prelude.{
  Bool, Bool-cases, [], arith, if◌then◌else◌, inl, inr, length, subst, sym, ℕ, ◌==◌, ◌∷◌, ◌≤◌,
}

-- The buffer of timeframes is in order, and has sent timeframe `last` or a later one.
pub record IsOrdered (last : ℕ) (s : StfBuffer) : Type 0 where
  pub ascends : Ascends s.last_timeframe_id s.stf_buffer
  pub not_before : last ≤ s.last_timeframe_id

pub buffer_slice-IsOrdered :
    (last tf source : ℕ) (d : DataSet) (now : ℕ) (s : StfBuffer)
    → IsOrdered last s
    → IsOrdered last (buffer_slice tf source d now s)
buffer_slice-IsOrdered last tf source d now s v =
    elim (buffer_slice_lem tf source d now s v.ascends) [
      | inl (h, e) ↦ subst (IsOrdered last) (sym e) v
      | inr (h, w, e, k) ↦ record { ascends = w; not_before = omega (arith, e, v.not_before) }
    ]

module _ (O : Fifo DataSet) where
  push_stfs-IsOrdered :
      (now timeout : ℕ) (flush : Bool) (m : StfMap) (last n : ℕ) (q : O.Queue)
      → Ascends last m
      → IsOrdered last (push_stfs O now timeout flush m last n q).0
  unfolding push_stfs
  push_stfs-IsOrdered now timeout flush [] last n q v = record {
    ascends = tt;
    not_before = omega arith;
  }
  push_stfs-IsOrdered now timeout flush ((k, stf) ∷ m) last n q (a, b, v) =
      let n' = if stf.tf_id == 1 then length stf.sstf else n in
      let r =
        push_stfs-IsOrdered now timeout flush m stf.tf_id n' (push_all O (sent_slices stf.sstf) q)
          (subst (λ t. Ascends t m) (sym b) v) in
      elim (Bool-cases (is_ready now timeout flush stf)) [
        | inl f ↦
            rw (f) (record { ascends = r.ascends; not_before = omega (arith, r.not_before, a, b) })
        | inr f ↦ rw (f) (record { ascends = (a, b, v); not_before = omega arith })
      ]

  pub push_complete-IsOrdered :
      (last now timeout : ℕ) (flush : Bool) (s : StfBuffer) (q : O.Queue)
      → IsOrdered last s
      → IsOrdered last (push_complete O now timeout flush s q).0
  unfolding push_complete
  push_complete-IsOrdered last now timeout flush s q v =
      let r =
        push_stfs-IsOrdered now timeout flush s.stf_buffer s.last_timeframe_id s.n_sources q
          v.ascends in
      record { ascends = r.ascends; not_before = omega (arith, r.not_before, v.not_before) }
