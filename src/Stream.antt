-- ===== src/Stream.antt =====
-- crates/blitz-stream: one epoch of stream processing. Offsets and counts are u64 and stay far below
-- 2 ^ 64, as the length of a `Vec` does.
pub mod Sizer
pub mod Plan
pub mod Epoch
pub mod Until
