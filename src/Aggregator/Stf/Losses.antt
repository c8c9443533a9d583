-- ===== src/Aggregator/Stf/Losses.antt =====
-- What a full output does to the timeframes that are sent.
use readout.Prelude.{
  List, [], ap, append-nil, append_assoc, arith, if◌then◌else◌, length, length-append, length-take,
  refl, suc, sym, take, true, zero, ℕ, ◌++◌, ◌+◌, ◌-◌, ◌<◌, ◌==◌, ◌∙◌, ◌∷◌, ◌≡◌, ◌≤◌,
}
use native.Mathlib.Decide.{dec_lt}
use readout.Aggregator.Stf.Order.{
  AreMarked, all_slices, all_slices-AreMarked, length-all_slices, slice_count,
}
use readout.Fifo.{Fifo}
use readout.Aggregator.Slicer.{DataSet}
use readout.Aggregator.Stf.{
  StfBuffer, StfMap, is_ready, push_all, push_complete, push_stfs, sent_slices,
}

take-nil : (n : ℕ) → take {A = DataSet} n [] ≡ []
take-nil zero = refl
take-nil (suc n) = refl

module _ (F : Fifo DataSet) where
  push_all-full :
      (ds : List DataSet) (q : F.Queue) → F.capacity q ≤ length (F.contents q) → push_all F ds q ≡ q
  unfolding push_all
  push_all-full [] q h = refl
  push_all-full (d ∷ ds) q h = rw (F.push-full q d h) (push_all-full ds q h)

  push_all-take :
      (ds : List DataSet) (q : F.Queue)
      → F.contents (push_all F ds q)
        ≡ F.contents q ++ take (F.capacity q - length (F.contents q)) ds
  unfolding push_all
  push_all-take [] q = rw take-nil (sym (append-nil (F.contents q)))
  push_all-take (d ∷ ds) q = elim (dec_lt (length (F.contents q)) (F.capacity q)) [
    | yes room ↦
        let e = F.contents-push q d room in
        let c = F.capacity-push q d in
        let n : F.capacity q - length (F.contents q)
            ≡ suc (F.capacity q - length (F.contents q ++ (d ∷ []))) =
          omega (arith, length-append (F.contents q) (d ∷ [])) in
        rw n (push_all-take ds (F.push q d).1 ∙ rw (e, c) (append_assoc (F.contents q) (d ∷ []) _))
    | no none_free ↦
        let n : F.capacity q - length (F.contents q) ≡ 0 = omega (arith, none_free) in
        let e = push_all-full (d ∷ ds) q (omega (arith, none_free)) in
        rw (n, append-nil (F.contents q)) (ap F.contents e)
  ]

  push_all-append :
      (xs ys : List DataSet) (q : F.Queue)
      → push_all F (xs ++ ys) q ≡ push_all F ys (push_all F xs q)
  unfolding push_all
  push_all-append [] ys q = refl
  push_all-append (x ∷ xs) ys q = push_all-append xs ys (F.push q x).1

  push_stfs-all :
      (now timeout : ℕ) (m : StfMap) (last n : ℕ) (q : F.Queue)
      → (let (s', q') = push_stfs F now timeout true m last n q in
          (s'.stf_buffer ≡ []) × (q' ≡ push_all F (all_slices m) q))
  unfolding push_stfs
  push_stfs-all now timeout [] last n q = (refl, refl)
  push_stfs-all now timeout ((k, stf) ∷ m) last n q =
      let n' = if stf.tf_id == 1 then length stf.sstf else n in
      let e : is_ready now timeout true stf ≡ true = ground arith in
      let q1 = push_all F (sent_slices stf.sstf) q in
      rw (e, push_all-append (sent_slices stf.sstf) (all_slices m) q)
        (push_stfs-all now timeout m stf.tf_id n' q1)

-- A flush with more slices in the buffer than free places in the output, where it has some: the
-- output is filled with the first slices, and the buffer is emptied all the same, so that as many
-- slices are lost as there was no place for.
pub push_complete-overflow :
    (F : Fifo DataSet) (now timeout : ℕ) (s : StfBuffer) (q : F.Queue)
    → length (F.contents q) < F.capacity q
    → F.capacity q < length (F.contents q) + slice_count s.stf_buffer
    → (let (s', q') = push_complete F now timeout true s q in
        (s'.stf_buffer ≡ [])
        × (length (F.contents q') ≡ F.capacity q)
        × (ds : List DataSet) × AreMarked s.stf_buffer ds
        × (F.contents q' ≡ F.contents q ++ take (F.capacity q - length (F.contents q)) ds))
unfolding push_complete
push_complete-overflow F now timeout s q some_room over =
    let m = s.stf_buffer in
    let (gone, e) = push_stfs-all F now timeout m s.last_timeframe_id s.n_sources q in
    let free = F.capacity q - length (F.contents q) in
    let c = ap F.contents e ∙ push_all-take F (all_slices m) q in
    (
      gone,
      ap length c
          ∙ omega (
            arith,
            length-append (F.contents q) (take free (all_slices m)),
            length-take free (all_slices m),
            length-all_slices m,
          ),
      all_slices m,
      all_slices-AreMarked m,
      c,
    )
