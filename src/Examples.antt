-- ===== src/Examples.antt =====
-- The theorems at concrete states of the kernel, by the part of the program.
pub mod FrameRuns
pub mod HeapRuns
pub mod HeldRuns
pub mod PrintRuns
pub mod MemtestRuns
pub mod SpawnRuns
pub mod PageRuns
pub mod MapRuns
pub mod GrowthRuns
pub mod GrownRuns
pub mod DeviceRuns
pub mod TextRuns
pub mod ConsoleRuns
pub mod ProcessRuns
