-- ===== src/TerminalReport.antt =====
-- tools/terminal_bench_report.py: the runs that a report is made of.
pub mod Throughput
pub mod Rates
pub mod Tables
pub mod Runs
pub mod Paired
pub mod Fields
pub mod Distinct
pub mod Ordered
pub mod Rounds
pub mod Pairs
