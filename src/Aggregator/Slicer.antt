-- ===== src/Aggregator/Slicer.antt =====
-- src/DataBlockAggregator.cxx and .h, class DataBlockSlicer: consecutive blocks of one source with
-- the same timeframe id are put in one slice. A failed allocation is left out.
pub mod Map
pub mod Streams
pub mod Emits
pub mod Append
pub mod Timeout
mod Tests
use readout.DataBlock.{DataBlockHeader, undefined_link_id, undefined_timeframe_id}
use readout.Prelude.Int.{leb_ℤ, negsuc, pos, ℤ}
use readout.Prelude.{
  Bool, List, Option, [], if◌then◌else◌, length, ltb, none, not, some, ℕ, ◌&&◌, ◌++◌, ◌==◌, ◌||◌,
  ◌∷◌,
}

-- A data block: its header, and the address of its payload.
pub record Block : Type 0 where
  pub header : DataBlockHeader
  pub data_ptr : ℕ

abbrev pub DataSet : Type 0
DataSet = List Block

pub record DataSourceId : Type 0 where
  pub equipment_id : ℕ
  pub link_id : ℕ

abbrev pub source_of : Block → DataSourceId
source_of b = record { equipment_id = b.header.equipment_id; link_id = b.header.link_id }

-- `CompareDataSourceId`
abbrev pub source_lt : DataSourceId → DataSourceId → Bool
source_lt a b =
    if a.equipment_id == b.equipment_id
    then ltb a.link_id b.link_id
    else ltb a.equipment_id b.equipment_id

-- Two keys are the same for `std::map` if neither is less than the other.
abbrev pub same_source : DataSourceId → DataSourceId → Bool
same_source a b = not (source_lt a b) && not (source_lt b a)

-- `current_data_set` is a pointer that may be null. Times are whole units of the clock.
pub record PartialSlice : Type 0 where
  pub tf_id : ℕ
  pub last_update_time : ℕ
  pub current_data_set : Option DataSet

-- `std::map`, in the order of its keys.
abbrev pub PartialSliceMap : Type 0
PartialSliceMap = List (DataSourceId × PartialSlice)

-- `slices` is a queue, oldest first.
pub record DataBlockSlicer : Type 0 where
  pub slicer_id : ℤ
  pub partial_slices : PartialSliceMap
  pub slices : List DataSet

-- The value-initialised entry that `operator[]` adds.
abbrev pub fresh_slice : PartialSlice
fresh_slice = record { tf_id = 0; last_update_time = 0; current_data_set = none }

-- `partialSlices[k]`, changed by `f`.
pub update_entry : DataSourceId → (PartialSlice → PartialSlice) → PartialSliceMap → PartialSliceMap
update_entry k f [] = (k, f fresh_slice) ∷ []
update_entry k f ((j, p) ∷ m) =
    if source_lt k j
    then (k, f fresh_slice) ∷ (j, p) ∷ m
    else if source_lt j k
    then (j, p) ∷ update_entry k f m
    else (j, f p) ∷ m

pub find_entry : DataSourceId → PartialSliceMap → PartialSlice
find_entry k [] = fresh_slice
find_entry k ((j, p) ∷ m) =
    if source_lt k j then fresh_slice else if source_lt j k then find_entry k m else p

-- Whether the current slice is complete when a block of timeframe `tf` comes.
abbrev pub closes : ℕ → ℕ → Bool
closes current tf = not (current == tf) || tf == undefined_timeframe_id

-- The slice that is complete, if any.
pub closed_slice : PartialSlice → ℕ → List DataSet
closed_slice p tf = elim p.current_data_set [
  | none ↦ []
  | some d ↦ if closes p.tf_id tf then d ∷ [] else []
]

-- The data set that the block is added to: the current one, or a new one.
pub open_blocks : PartialSlice → ℕ → DataSet
open_blocks p tf = elim p.current_data_set [
  | none ↦ []
  | some d ↦ if closes p.tf_id tf then [] else d
]

pub extend_slice : Block → ℕ → PartialSlice → PartialSlice
unfolding open_blocks
extend_slice b timestamp p = record {
  tf_id = b.header.timeframe_id;
  last_update_time = timestamp;
  current_data_set = some (open_blocks p b.header.timeframe_id ++ b ∷ []);
}

abbrev pub max_links : ℕ
max_links = 32

abbrev pub is_link_ok : ℕ → Bool
is_link_ok link = link == undefined_link_id || ltb link max_links

pub append_block : Block → ℕ → DataBlockSlicer → ℤ × DataBlockSlicer
unfolding closed_slice open_blocks extend_slice
append_block b timestamp s =
    let source = source_of b in
    let tf = b.header.timeframe_id in
    let p = find_entry source s.partial_slices in
    if is_link_ok source.link_id
    then (
      pos (length (open_blocks p tf ++ b ∷ [])),
      record s {
        slices = s.slices ++ closed_slice p tf;
        partial_slices = update_entry source (extend_slice b timestamp) s.partial_slices;
      },
    )
    else (negsuc 0, s)

abbrev pub without_data : PartialSlice → PartialSlice
without_data p = record p { current_data_set = none }

-- The first entry that has data gives it up.
pub take_first : PartialSliceMap → Option DataSet × PartialSliceMap
take_first [] = (none, [])
take_first ((k, p) ∷ m) = elim p.current_data_set [
  | some d ↦ (some d, (k, without_data p) ∷ m)
  | none ↦ let (o, m') = take_first m in (o, (k, p) ∷ m')
]

get_from : Bool → DataBlockSlicer → List DataSet → Option DataSet × DataBlockSlicer
get_from include_incomplete s (d ∷ ds) = (some d, record s { slices = ds })
get_from include_incomplete s [] =
    if include_incomplete
    then (let (o, m) = take_first s.partial_slices in (o, record s { partial_slices = m }))
    else (none, s)

pub get_slice : Bool → DataBlockSlicer → Option DataSet × DataBlockSlicer
unfolding get_from take_first
get_slice include_incomplete s = get_from include_incomplete s s.slices

-- `lastUpdateTime <= timestamp`, for a timestamp that may be negative.
abbrev pub is_old : PartialSlice → ℤ → Bool
is_old p timestamp = leb_ℤ (pos p.last_update_time) timestamp

-- The data sets that are flushed, in the order of the keys, and the entries afterwards.
pub flush_entries : ℤ → PartialSliceMap → List DataSet × PartialSliceMap
flush_entries timestamp [] = ([], [])
flush_entries timestamp ((k, p) ∷ m) =
    let (ds, m') = flush_entries timestamp m in
    elim p.current_data_set [
      | none ↦ (ds, (k, p) ∷ m')
      | some d ↦
          if is_old p timestamp then (d ∷ ds, (k, without_data p) ∷ m') else (ds, (k, p) ∷ m')
    ]

pub complete_slice_on_timeout : ℤ → DataBlockSlicer → ℕ × DataBlockSlicer
complete_slice_on_timeout timestamp s =
    let (ds, m) = flush_entries timestamp s.partial_slices in
    (length ds, record s { slices = s.slices ++ ds; partial_slices = m })

pub reset : DataBlockSlicer → DataBlockSlicer
reset s = record { slicer_id = negsuc 0; partial_slices = []; slices = [] }
