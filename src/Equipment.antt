-- ===== src/Equipment.antt =====
-- src/ReadoutEquipment.cxx and .h: how an equipment tags and checks the blocks that it reads.
pub mod Timeframe
pub mod Detector
pub mod PageCheck
pub mod Links
pub mod Process
pub mod Thread
mod Tests
