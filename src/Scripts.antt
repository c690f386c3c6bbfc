-- ===== src/Scripts.antt =====
-- src/scripts (at the repository's root): the drivers around the pipeline, for benchmarks and for
-- pull requests.
pub mod Machine
pub mod Select
pub mod Session
pub mod Benchmark
pub mod Detect
pub mod Heal
pub mod Swebench
pub mod Main
