-- ===== src/Agent/Examples.antt =====
-- Tests of the model of the agent by evaluation, and its theorems at concrete inputs.
pub mod Codec
mod Buffers
mod Polls
mod Runs
mod Watchers
