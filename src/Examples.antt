-- ===== src/Examples.antt =====
-- Concrete runs: the theorems of the library applied to small pools.
pub mod Runs
pub mod Parts
pub mod Service
pub mod Crews
pub mod Web
pub mod Waits
pub mod Cleaning
