-- ===== src/Consumer.antt =====
-- src/Consumer.cxx and .h: the base class of the consumers. The `pushData` of a block, which each
-- consumer defines, is the parameter `push`, with the state of that consumer; it returns whether
-- the result was 0. A null pointer is 0.

pub mod Filtering
pub mod Counts
mod Tests
use readout.Prelude.{
  Bool, List, [], false, if◌then◌else◌, length, ltb, not, suc, true, ℕ, ◌&&◌, ◌==◌, ◌||◌, ◌∷◌,
}
use readout.Prelude.Int.{eq_ℤ, neg_ℕ, pos, ℤ}
use readout.Aggregator.Slicer.{Block, DataSet}

pub record Filter : Type 0 where
  pub filter_links_enabled : Bool
  pub filter_links_include : List ℤ
  pub filter_links_exclude : List ℤ
  pub filter_equipment_ids_enabled : Bool
  pub filter_equipment_ids_include : List ℤ
  pub filter_equipment_ids_exclude : List ℤ

-- The end of the constructor: a filter is enabled if one of its lists has a value.
pub make_filter :
    (links_include links_exclude equipments_include equipments_exclude : List ℤ) → Filter
make_filter li le ei ee = record {
  filter_links_enabled = ltb 0 (length li) || ltb 0 (length le);
  filter_links_include = li;
  filter_links_exclude = le;
  filter_equipment_ids_enabled = ltb 0 (length ei) || ltb 0 (length ee);
  filter_equipment_ids_include = ei;
  filter_equipment_ids_exclude = ee;
}

-- The loop over a list for an id.
pub contains : ℤ → List ℤ → Bool
contains id [] = false
contains id (i ∷ is) = if eq_ℤ i id then true else contains id is

-- One of the two filters.
pub is_id_ok : Bool → List ℤ → List ℤ → ℤ → Bool
unfolding contains
is_id_ok enabled include exclude id =
    if not enabled
    then true
    else if contains id exclude
    then false
    else if length include == 0
    then true
    else contains id include

pub is_data_block_filter_ok : Filter → Block → Bool
unfolding is_id_ok
is_data_block_filter_ok f b =
    is_id_ok f.filter_links_enabled f.filter_links_include f.filter_links_exclude
      (pos b.header.link_id)
    && is_id_ok f.filter_equipment_ids_enabled f.filter_equipment_ids_include
        f.filter_equipment_ids_exclude (pos b.header.equipment_id)

pub record Totals : Type 0 where
  pub total_push_success : ℕ
  pub total_push_error : ℕ
  pub total_blocks_filtered : ℕ
  pub total_blocks_unfiltered : ℕ

-- `start`
abbrev pub no_totals : Totals
no_totals = record {
  total_push_success = 0;
  total_push_error = 0;
  total_blocks_filtered = 0;
  total_blocks_unfiltered = 0;
}

module _ {S : Type 0} (push : S → Block → Bool × S) (f : Filter) where
  -- The loop over the blocks of a set, with the numbers of successes and of errors.
  pub push_blocks : DataSet → ℕ → ℕ → Totals → S → ℕ × ℕ × Totals × S
  push_blocks [] success error t s = (success, error, t, s)
  push_blocks (b ∷ bs) success error t s =
      let (done, s') = push s b in
      let unfiltered = record t { total_blocks_unfiltered = suc t.total_blocks_unfiltered } in
      elim (b.data_ptr == 0) [
        | true ↦ push_blocks bs success error t s
        | false ↦ elim (is_data_block_filter_ok f b) [
          | false ↦
              push_blocks bs success error
                (record t { total_blocks_filtered = suc t.total_blocks_filtered }) s
          | true ↦ elim done [
            | true ↦ push_blocks bs (suc success) error unfiltered s'
            | false ↦ push_blocks bs success (suc error) unfiltered s'
          ]
        ]
      ]

  -- `pushData` of a set: minus the number of errors, or the number of successes.
  pub push_data : DataSet → Totals → S → ℤ × Totals × S
  unfolding push_blocks
  push_data d t s =
      let (success, error, t', s') = push_blocks d 0 0 t s in
      if ltb 0 error
      then (neg_ℕ error, record t' { total_push_error = suc t'.total_push_error }, s')
      else (pos success, record t' { total_push_success = suc t'.total_push_success }, s')
