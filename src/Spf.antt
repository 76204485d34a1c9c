-- ===== src/Spf.antt =====
-- Package spf: the terms of a record, the result of a walk, and the walk itself.
pub mod Terms
pub mod Tree
pub mod Cost
pub mod State
pub mod Walk
pub mod Evaluating
pub mod Written
mod Examples
