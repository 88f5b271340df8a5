-- ===== src/Tests.antt =====
-- Tests of the model on small inputs, and the theorems at concrete inputs.
mod Inputs
mod Keys
mod Collections
mod Lists
mod Moves
mod PubSub
mod Scores
mod Streams
mod Groups
mod Snapshot
