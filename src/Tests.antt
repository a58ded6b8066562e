-- ===== src/Tests.antt =====
-- Runs of the definitions on one small database, and the theorems at concrete inputs.
pub mod Shop
pub mod RepairRuns
pub mod AuthRuns
pub mod MachineRuns
pub mod HttpRuns
pub mod ServerRuns
pub mod FirstBootRuns
pub mod BootRuns
pub mod ConfigRuns
