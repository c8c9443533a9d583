-- ===== src/Equipment/Timeframe.antt =====
-- src/ReadoutEquipment.cxx, getTimeframeFromOrbit, getTimeframeOrbitRange and tagDatablockFromRdh:
-- the timeframe of a block. The orbits are of `uint32_t`, and the period is a positive number of
-- orbits. `stats_first_orbit` is the counter that all equipments share.
pub mod Range
pub mod Tag
use readout.Prelude.{
  Bool, add32, add64, false, if◌then◌else◌, ltb, not, sub32, suc, to_u16, to_u32, true, ℕ, ◌%◌,
  ◌&&◌, ◌*◌, ◌+◌, ◌-◌, ◌/◌, ◌==◌, ◌^◌, ◌||◌,
}
use readout.Rdh.{Rdh, validate_rdh}
use readout.DataBlock.{
  DataBlockHeader, undefined_equipment_id, undefined_fee_id, undefined_link_id, undefined_orbit,
  undefined_system_id, undefined_timeframe_id,
}

pub record Timeframes : Type 0 where
  pub period : ℕ
  pub rdh_check_first_orbit : Bool
  pub is_defined_first : Bool
  pub first_hb_orbit_begin : ℕ
  pub is_fatal_error : ℕ
  pub stats_first_orbit : ℕ

-- The first orbit is kept, and compared to that of the other equipments.
unfoldable pub define_first : ℕ → Timeframes → Timeframes
define_first orbit s =
    let s' = record s { is_defined_first = true; first_hb_orbit_begin = orbit } in
    if s.is_defined_first
    then s
    else if s.stats_first_orbit == undefined_orbit
    then record s' { stats_first_orbit = orbit }
    else if not (s.stats_first_orbit == orbit) && s.rdh_check_first_orbit
    then record s' { is_fatal_error = suc s.is_fatal_error }
    else s'

unfoldable pub get_timeframe_from_orbit : ℕ → Timeframes → ℕ × Timeframes
unfolding define_first
get_timeframe_from_orbit orbit s =
    let s' = define_first orbit s in (1 + sub32 orbit s'.first_hb_orbit_begin / s'.period, s')

-- The product and the sum are of `uint64_t`, and kept as `uint32_t`.
unfoldable pub get_timeframe_orbit_range : ℕ → Timeframes → ℕ × ℕ
get_timeframe_orbit_range tf s =
    let low = to_u32 (add64 s.first_hb_orbit_begin ((tf - 1) * s.period % 2 ^ 64)) in
    if tf == undefined_timeframe_id
    then (undefined_orbit, undefined_orbit)
    else if not s.is_defined_first
    then (undefined_orbit, undefined_orbit)
    else (low, sub32 (add32 low s.period) 1)

-- The range goes to the header less the offset of its orbits.
unfoldable pub set_range : ℕ × ℕ → DataBlockHeader → DataBlockHeader
set_range (low, high) bh = record bh {
  timeframe_orbit_first = sub32 low bh.orbit_offset;
  timeframe_orbit_last = sub32 high bh.orbit_offset;
}

-- The number of the CRU and its end point, in `uint16_t`; 0 is the default of the CRU.
unfoldable pub equipment_id_of : Rdh → ℕ
equipment_id_of h =
    let e = to_u16 (h.cru_id * 10 + h.dpw_id) in if e == 0 then undefined_equipment_id else e

-- The result is whether the RDH is wrong, with the header and the state afterwards.
unfoldable pub tag_datablock_from_rdh :
    Rdh → DataBlockHeader → Timeframes → Bool × DataBlockHeader × Timeframes
unfolding set_range equipment_id_of get_timeframe_from_orbit get_timeframe_orbit_range
tag_datablock_from_rdh h bh s =
    let orbit = add32 h.heartbeat_orbit bh.orbit_offset in
    let (tf, s') = get_timeframe_from_orbit orbit s in
    if validate_rdh h == 0
    then (
      false,
      set_range (get_timeframe_orbit_range tf s') (record bh {
        timeframe_id = tf;
        system_id = h.system_id;
        fee_id = h.fee_id;
        equipment_id = equipment_id_of h;
        link_id = if bh.link_id == undefined_link_id then h.link_id else bh.link_id;
        orbit_first_in_block = orbit;
      }),
      s',
    )
    else (
      true,
      set_range (get_timeframe_orbit_range undefined_timeframe_id s) (record bh {
        timeframe_id = undefined_timeframe_id;
        system_id = undefined_system_id;
        fee_id = undefined_fee_id;
        equipment_id = undefined_equipment_id;
        link_id = if bh.link_id == undefined_link_id then undefined_link_id else bh.link_id;
        orbit_first_in_block = undefined_orbit;
      }),
      s,
    )

-- The check of `processRdh` that the orbit of a packet is out of the range of its block.
unfoldable pub is_out_of_range : DataBlockHeader → ℕ → Bool
is_out_of_range bh orbit =
    let first = bh.timeframe_orbit_first in
    let last = bh.timeframe_orbit_last in
    (ltb first last && (ltb orbit first || ltb last orbit))
    || (ltb last first && (ltb orbit first && ltb last orbit))
