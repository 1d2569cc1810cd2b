-- ===== src/Vm.antt =====
-- tools/vm/vm.py: the virtual machine's life on the host.
pub mod System
pub mod Image
pub mod Process
pub mod Guest
pub mod Waiting
pub mod Stopping
pub mod Trusted
pub mod NotRunning
pub mod Scripts
pub mod Monitor
pub mod Main
