-- ===== src/Aggregator/Stf/Order.antt =====
-- The order in which timeframes are sent.
use readout.Fifo.{Fifo}
use readout.Aggregator.Slicer.{Block, DataSet}
use readout.Aggregator.Stf.{
  Sstf, Stf, StfBuffer, StfMap, add_to_map, buffer_slice, is_ready, mark_last, push_all,
  push_complete, push_stfs, sent_slices,
}
use readout.Prelude.{
  All, Bool, Bool-cases, List, [], ap, append-nil, append_assoc, arith, false, if◌then◌else◌, inl,
  inr, leb, length, length-append, ltb, refl, subst, suc, sym, true, ℕ, ◌++◌, ◌+◌, ◌<◌, ◌==◌, ◌∙◌,
  ◌∷◌, ◌≡◌, ◌≤◌, ◌⊎◌,
}

-- The keys are those of the timeframes, and go up from above `last`.
abbrev pub Ascends : ℕ → StfMap → Type 0
Ascends last [] = Unit
Ascends last ((k, stf) ∷ m) = (last < k) × (stf.tf_id ≡ k) × Ascends k m

abbrev pub IsValid : StfBuffer → Type 0
IsValid s = Ascends s.last_timeframe_id s.stf_buffer

add_to_map-Ascends :
    (tf : ℕ) (ss : Sstf) (last : ℕ) (m : StfMap)
    → last < tf
    → Ascends last m
    → Ascends last (add_to_map tf ss m)
unfolding add_to_map
add_to_map-Ascends tf ss last [] h v = (h, refl, tt)
add_to_map-Ascends tf ss last ((k, stf) ∷ m) h (a, b, c) = elim (Bool-cases (ltb tf k)) [
  | inl e ↦ rw (e) (h, refl, (ground arith, b, c))
  | inr e ↦ elim (Bool-cases (ltb k tf)) [
    | inl f ↦ rw (e, f) (a, b, add_to_map-Ascends tf ss k m (ground arith) c)
    | inr f ↦ rw (e, f) (a, ground arith, c)
  ]
]

-- The number of blocks in a buffer.
abbrev pub blocks_in : List Sstf → ℕ
blocks_in [] = 0
blocks_in (ss ∷ sss) = length ss.data_set + blocks_in sss

abbrev pub blocks_kept : StfMap → ℕ
blocks_kept [] = 0
blocks_kept ((k, stf) ∷ m) = blocks_in stf.sstf + blocks_kept m

blocks_in-append :
    (xs : List Sstf) (ss : Sstf) → blocks_in (xs ++ ss ∷ []) ≡ blocks_in xs + length ss.data_set
blocks_in-append [] ss = omega arith
blocks_in-append (x ∷ xs) ss = omega (arith, blocks_in-append xs ss)

blocks_kept-add :
    (tf : ℕ) (ss : Sstf) (m : StfMap)
    → blocks_kept (add_to_map tf ss m) ≡ blocks_kept m + length ss.data_set
unfolding add_to_map
blocks_kept-add tf ss [] = omega arith
blocks_kept-add tf ss ((k, stf) ∷ m) = elim (Bool-cases (ltb tf k)) [
  | inl e ↦ rw (e) (omega arith)
  | inr e ↦ elim (Bool-cases (ltb k tf)) [
    | inl f ↦ rw (e, f) (omega (arith, blocks_kept-add tf ss m))
    | inr f ↦ rw (e, f) (omega (arith, blocks_in-append stf.sstf ss))
  ]
]

-- The slices of the timeframes of a map, as they are sent.
abbrev pub all_slices : StfMap → List DataSet
all_slices [] = []
all_slices ((k, stf) ∷ m) = sent_slices stf.sstf ++ all_slices m

-- The number of slices in a buffer.
abbrev pub slice_count : StfMap → ℕ
slice_count [] = 0
slice_count ((k, stf) ∷ m) = length stf.sstf + slice_count m

length-sent_slices : (sss : List Sstf) → length (sent_slices sss) ≡ length sss
unfolding sent_slices
length-sent_slices [] = refl
length-sent_slices (ss ∷ []) = refl
length-sent_slices (ss ∷ ss' ∷ sss) = ap suc (length-sent_slices (ss' ∷ sss))

pub length-all_slices : (m : StfMap) → length (all_slices m) ≡ slice_count m
length-all_slices [] = refl
length-all_slices ((k, stf) ∷ m) = omega (
  arith,
  length-append (sent_slices stf.sstf) (all_slices m),
  length-sent_slices stf.sstf,
  length-all_slices m,
)

-- A block, with its mark of the end of a timeframe.
abbrev with_flag : ℕ → Block → Block
with_flag n b = record b { header = record b.header { flag_end_of_timeframe = n } }

-- The data sets `ds` are those of the slices of one timeframe, all of them and in order, and only
-- the last block of the last one, if it has blocks, is changed: it has the mark of the end.
pub data IsMarked : List Sstf → List DataSet → Type 0 where
  no_slice : IsMarked [] []
  last_empty : (ss : Sstf) → ss.data_set ≡ [] → IsMarked (ss ∷ []) ([] ∷ [])
  last_slice :
      (ss : Sstf) (body : List Block) (b : Block)
      → ss.data_set ≡ body ++ (b ∷ [])
      → IsMarked (ss ∷ []) ((body ++ (with_flag 1 b ∷ [])) ∷ [])
  earlier_slice :
      (ss next_ss : Sstf) (sss : List Sstf) {ds : List DataSet}
      → IsMarked (next_ss ∷ sss) ds
      → IsMarked (ss ∷ next_ss ∷ sss) (ss.data_set ∷ ds)

-- The data sets are those of the timeframes of a map, one timeframe after the other.
pub data AreMarked : StfMap → List DataSet → Type 0 where
  no_timeframe : AreMarked [] []
  one_timeframe :
      (k : ℕ) (stf : Stf) {m : StfMap} {ds rest : List DataSet}
      → IsMarked stf.sstf ds
      → AreMarked m rest
      → AreMarked ((k, stf) ∷ m) (ds ++ rest)

-- Where the last block of a data set stands, and what `mark_last` makes of it.
last_of :
    (b : Block) (bs : List Block)
    → (body : List Block) × (c : Block) × (b ∷ bs ≡ body ++ (c ∷ []))
      × (mark_last (b ∷ bs) ≡ body ++ (with_flag 1 c ∷ []))
unfolding mark_last
last_of b [] = ([], b, refl, refl)
last_of b (c ∷ bs) =
    let (body, d, e, f) = last_of c bs in (b ∷ body, d, ap (λ l. b ∷ l) e, ap (λ l. b ∷ l) f)

mark_last-IsMarked :
    (ss : Sstf) (l : DataSet) → ss.data_set ≡ l → IsMarked (ss ∷ []) (mark_last l ∷ [])
unfolding mark_last
mark_last-IsMarked ss [] e = last_empty ss e
mark_last-IsMarked ss (b ∷ bs) e =
    let (body, c, f, g) = last_of b bs in
    subst (λ l. IsMarked (ss ∷ []) (l ∷ [])) (sym g) (last_slice ss body c (e ∙ f))

sent_slices-IsMarked : (sss : List Sstf) → IsMarked sss (sent_slices sss)
unfolding sent_slices
sent_slices-IsMarked [] = no_slice
sent_slices-IsMarked (ss ∷ []) = mark_last-IsMarked ss ss.data_set refl
sent_slices-IsMarked (ss ∷ ss' ∷ sss) = earlier_slice ss ss' sss (sent_slices-IsMarked (ss' ∷ sss))

pub all_slices-AreMarked : (m : StfMap) → AreMarked m (all_slices m)
all_slices-AreMarked [] = no_timeframe
all_slices-AreMarked ((k, stf) ∷ m) =
    one_timeframe k stf (sent_slices-IsMarked stf.sstf) (all_slices-AreMarked m)

-- The greatest key, or `last`.
abbrev pub last_key : ℕ → StfMap → ℕ
last_key last [] = last
last_key last ((k, stf) ∷ m) = last_key k m

-- The first timeframe of a map, if there is one, is not ready.
abbrev pub Waits : ℕ → ℕ → Bool → StfMap → Type 0
Waits now timeout flush [] = Unit
Waits now timeout flush ((k, stf) ∷ m) = is_ready now timeout flush stf ≡ false

module _ (F : Fifo DataSet) where
  push_all-contents :
      (ds : List DataSet) (q : F.Queue)
      → length (F.contents q) + length ds ≤ F.capacity q
      → (F.contents (push_all F ds q) ≡ F.contents q ++ ds)
        × (F.capacity (push_all F ds q) ≡ F.capacity q)
  unfolding push_all
  push_all-contents [] q h = (sym (append-nil (F.contents q)), refl)
  push_all-contents (d ∷ ds) q h =
      let r : length (F.contents q) < F.capacity q = omega arith in
      let e = F.contents-push q d r in
      let c = F.capacity-push q d in
      let (e', c') =
        push_all-contents ds (F.push q d).1
          (rw (e, c) (omega (arith, length-append (F.contents q) (d ∷ [])))) in
      (e' ∙ ap (λ t. t ++ ds) e ∙ append_assoc (F.contents q) (d ∷ []) ds, c' ∙ c)

  -- What the loop has done: it has sent the timeframes at the front of the buffer that are ready.
  pub record Sends (now timeout : ℕ) (flush : Bool) (m : StfMap) (last : ℕ) (q : F.Queue)
      (s' : StfBuffer) (q' : F.Queue) : Type 0 where
    pub sent : StfMap
    pub split : m ≡ sent ++ s'.stf_buffer
    pub all_ready : All (λ e. is_ready now timeout flush e.1 ≡ true) sent
    pub waits : Waits now timeout flush s'.stf_buffer
    pub ascends : Ascends last sent
    pub valid : IsValid s'
    pub newest : s'.last_timeframe_id ≡ last_key last sent
    pub output : F.contents q' ≡ F.contents q ++ all_slices sent

  push_stfs-Sends :
      (now timeout : ℕ) (flush : Bool) (m : StfMap) (last n : ℕ) (q : F.Queue)
      → Ascends last m
      → length (F.contents q) + length (all_slices m) ≤ F.capacity q
      → (let (s', q') = push_stfs F now timeout flush m last n q in
          Sends now timeout flush m last q s' q')
  unfolding push_stfs
  push_stfs-Sends now timeout flush [] last n q v h = record {
    sent = [];
    split = refl;
    all_ready = tt;
    waits = tt;
    ascends = tt;
    valid = tt;
    newest = refl;
    output = sym (append-nil (F.contents q));
  }
  push_stfs-Sends now timeout flush ((k, stf) ∷ m) last n q (a, b, v) h =
      let n' = if stf.tf_id == 1 then length stf.sstf else n in
      let q' = push_all F (sent_slices stf.sstf) q in
      let l = length-append (sent_slices stf.sstf) (all_slices m) in
      let (e, c) = push_all-contents (sent_slices stf.sstf) q (omega arith) in
      let room : length (F.contents q') + length (all_slices m) ≤ F.capacity q' =
        rw (e, c) (omega (arith, length-append (F.contents q) (sent_slices stf.sstf))) in
      let r =
        push_stfs-Sends now timeout flush m stf.tf_id n' q' (subst (λ t. Ascends t m) (sym b) v)
          room in
      elim (Bool-cases (is_ready now timeout flush stf)) [
        | inr f ↦ rw (f) (record {
          sent = [];
          split = refl;
          all_ready = tt;
          waits = f;
          ascends = tt;
          valid = (a, b, v);
          newest = refl;
          output = sym (append-nil (F.contents q));
        })
        | inl f ↦ rw (f) (record {
          sent = (k, stf) ∷ r.sent;
          split = ap (λ t. (k, stf) ∷ t) r.split;
          all_ready = (f, r.all_ready);
          waits = r.waits;
          ascends = (a, b, subst (λ t. Ascends t r.sent) b r.ascends);
          valid = r.valid;
          newest = r.newest ∙ ap (λ t. last_key t r.sent) b;
          output =
              r.output
              ∙ ap (λ t. t ++ all_slices r.sent) e
              ∙ append_assoc (F.contents q) (sent_slices stf.sstf) (all_slices r.sent);
        })
      ]

-- A slice of a timeframe that is not after the last one sent changes nothing; any other is kept,
-- and the timeframes of the buffer stay in order and after the last one sent.
pub buffer_slice_lem :
    (tf source : ℕ) (data_set : DataSet) (now : ℕ) (s : StfBuffer)
    → IsValid s
    → (let s' = buffer_slice tf source data_set now s in
        ((tf ≤ s.last_timeframe_id) × (s' ≡ s))
        ⊎ ((s.last_timeframe_id < tf)
            × IsValid s'
            × (s'.last_timeframe_id ≡ s.last_timeframe_id)
            × (blocks_kept s'.stf_buffer ≡ blocks_kept s.stf_buffer + length data_set)))
unfolding buffer_slice
buffer_slice_lem tf source data_set now s v = elim (Bool-cases (leb tf s.last_timeframe_id)) [
  | inl e ↦ inl (ground arith, rw (e) refl)
  | inr e ↦ rw (e) (
      inr (
        ground arith,
        add_to_map-Ascends tf _ s.last_timeframe_id s.stf_buffer (ground arith) v,
        refl,
        blocks_kept-add tf _ s.stf_buffer,
      ))
]

-- The timeframes that are sent are the ones at the front of the buffer that are ready, in the order
-- of their ids and all after those sent before. The data sets of all their slices go to the end of
-- the output, in order, where only the last block of each timeframe is changed: it has the mark of
-- the end. Nothing else leaves the buffer. The output has room for all slices of the buffer.
pub push_complete_lem :
    (F : Fifo DataSet) (now timeout : ℕ) (flush : Bool) (s : StfBuffer) (q : F.Queue)
    → IsValid s
    → length (F.contents q) + slice_count s.stf_buffer ≤ F.capacity q
    → (let (s', q') = push_complete F now timeout flush s q in
        (r : Sends F now timeout flush s.stf_buffer s.last_timeframe_id q s' q') × (ds : List
          DataSet)
        × AreMarked r.sent ds
        × (F.contents q' ≡ F.contents q ++ ds))
unfolding push_complete
push_complete_lem F now timeout flush s q v h =
    let r =
      push_stfs-Sends F now timeout flush s.stf_buffer s.last_timeframe_id s.n_sources q v
        (omega (arith, h, length-all_slices s.stf_buffer)) in
    (r, all_slices r.sent, all_slices-AreMarked r.sent, r.output)
