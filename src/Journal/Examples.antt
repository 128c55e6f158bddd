-- ===== src/Journal/Examples.antt =====
-- The journal at concrete inputs.
pub mod Codec
mod Toy
mod Runs
mod Long
