-- ===== src/Memory.antt =====
-- The memory of the readout process: pages, pools of pages, and the banks that pools are cut from.
pub mod Page
pub mod Pool
pub mod Banks
