-- ===== src/Mitigation.antt =====
-- The auto-mitigation engine (src/control_plane/main.go, startAutoMitigation): how a reading of
-- the machine is graded, how the defence level follows the grade, and what a level imposes.
pub mod Levels
pub mod Hysteresis
pub mod Policy
