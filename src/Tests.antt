-- ===== src/Tests.antt =====
-- Sample data, and the runs of the library's theorems on it.
pub mod Sample
pub mod Placement
pub mod Headless
pub mod SlotSummary
pub mod Reexports
pub mod Boundaries
pub mod TerminalFixture
pub mod PerfGate
pub mod BenchCompare
pub mod Output
pub mod Session
pub mod Vm
pub mod Echo
pub mod EchoPath
pub mod TerminalReport
pub mod Finish
pub mod Cleanup
pub mod Client
