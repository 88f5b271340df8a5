-- ===== src/Lists.antt =====
-- The list commands of src/store.rs, lines 2806 to 3496. The head of a list is its index 0.
pub mod Seq
pub mod Laws
pub mod Remove
pub mod View
pub mod Pops
pub mod Ranges
pub mod Commands
pub mod Move
pub mod Transfer
pub mod Polling
