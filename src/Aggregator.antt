-- ===== src/Aggregator.antt =====
-- src/DataBlockAggregator.cxx and .h: blocks are put in slices, and slices in subtimeframes (STF).
pub mod Slicer
pub mod Stf
pub mod Callback
