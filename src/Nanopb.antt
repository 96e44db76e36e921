-- ===== src/Nanopb.antt =====
-- 1. PicksOnMap/Pods/nanopb: protocol buffers for small memory.
pub mod Types
pub mod Varint
pub mod Input
pub mod Output
pub mod RoundTrip
pub mod Iter
pub mod Memory
pub mod Encode
pub mod Decode
mod Runs
