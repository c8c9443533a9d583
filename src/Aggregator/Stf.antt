-- ===== src/Aggregator/Stf.antt =====
-- src/DataBlockAggregator.cxx, executeCallback, where `enableStfBuilding` is set: the slices of a
-- timeframe are kept together, and sent when no more of them have come for some time. Times are
-- whole units of the clock.
pub mod Order
pub mod Marks
pub mod Losses
pub mod Kept
mod Tests
use readout.Prelude.{Bool, List, [], if◌then◌else◌, leb, length, ltb, ℕ, ◌++◌, ◌+◌, ◌==◌, ◌||◌, ◌∷◌}
use readout.Fifo.{Fifo}
use readout.Aggregator.Slicer.{Block, DataSet}

-- The data pages of one source in one timeframe.
pub record Sstf : Type 0 where
  pub source_id : ℕ
  pub data_set : DataSet
  pub update_time : ℕ

pub record Stf : Type 0 where
  pub tf_id : ℕ
  pub sstf : List Sstf
  pub update_time : ℕ

-- `std::map`, in the order of its keys.
abbrev pub StfMap : Type 0
StfMap = List (ℕ × Stf)

pub record StfBuffer : Type 0 where
  pub stf_buffer : StfMap
  pub last_timeframe_id : ℕ
  pub n_sources : ℕ

-- `stf` with one more slice at time `now`.
abbrev pub extend_stf : ℕ → Sstf → Stf → Stf
extend_stf tf ss stf = record {
  tf_id = tf;
  sstf = stf.sstf ++ ss ∷ [];
  update_time = ss.update_time;
}

abbrev pub fresh_stf : Stf
fresh_stf = record { tf_id = 0; sstf = []; update_time = 0 }

-- `stfBuffer[tfId]`, made if it is missing, with the slice.
pub add_to_map : ℕ → Sstf → StfMap → StfMap
add_to_map tf ss [] = (tf, extend_stf tf ss fresh_stf) ∷ []
add_to_map tf ss ((k, stf) ∷ m) =
    if ltb tf k
    then (tf, extend_stf tf ss fresh_stf) ∷ (k, stf) ∷ m
    else if ltb k tf
    then (k, stf) ∷ add_to_map tf ss m
    else (k, extend_stf tf ss stf) ∷ m

-- A slice of a timeframe that is already sent is discarded.
pub buffer_slice : ℕ → ℕ → DataSet → ℕ → StfBuffer → StfBuffer
unfolding add_to_map
buffer_slice tf source data_set now s = if leb tf s.last_timeframe_id then s else record s {
  stf_buffer =
      add_to_map tf (record { source_id = source; data_set = data_set; update_time = now })
        s.stf_buffer;
}

abbrev pub set_end : Block → Block
set_end b = record b { header = record b.header { flag_end_of_timeframe = 1 } }

-- The last block of a slice is marked.
pub mark_last : DataSet → DataSet
mark_last [] = []
mark_last (b ∷ []) = set_end b ∷ []
mark_last (b ∷ c ∷ bs) = b ∷ mark_last (c ∷ bs)

-- The slices of a timeframe as they are sent: the last one has its last block marked.
pub sent_slices : List Sstf → List DataSet
unfolding mark_last
sent_slices [] = []
sent_slices (ss ∷ []) = mark_last ss.data_set ∷ []
sent_slices (ss ∷ ss' ∷ sss) = ss.data_set ∷ sent_slices (ss' ∷ sss)

-- `age >= cfgStfTimeout`, or a flush.
abbrev pub is_ready : ℕ → ℕ → Bool → Stf → Bool
is_ready now timeout flush stf = leb (stf.update_time + timeout) now || flush

module _ (F : Fifo DataSet) where
  -- The result of `push` is not looked at.
  pub push_all : List DataSet → F.Queue → F.Queue
  push_all [] q = q
  push_all (d ∷ ds) q = push_all ds (F.push q d).1

  -- The loop over the buffer, which stops at the first timeframe that is not ready.
  pub push_stfs : ℕ → ℕ → Bool → StfMap → ℕ → ℕ → F.Queue → StfBuffer × F.Queue
  unfolding push_all sent_slices
  push_stfs now timeout flush [] last n q =
      (record { stf_buffer = []; last_timeframe_id = last; n_sources = n }, q)
  push_stfs now timeout flush ((k, stf) ∷ m) last n q =
      let n' = if stf.tf_id == 1 then length stf.sstf else n in
      let rest = push_stfs now timeout flush m stf.tf_id n' (push_all (sent_slices stf.sstf) q) in
      if is_ready now timeout flush stf
      then rest
      else (record { stf_buffer = (k, stf) ∷ m; last_timeframe_id = last; n_sources = n }, q)

  pub push_complete : ℕ → ℕ → Bool → StfBuffer → F.Queue → StfBuffer × F.Queue
  unfolding push_stfs
  push_complete now timeout flush s q =
      push_stfs now timeout flush s.stf_buffer s.last_timeframe_id s.n_sources q
