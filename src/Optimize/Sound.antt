-- ===== src/Optimize/Sound.antt =====
-- The walk over expressions keeps their meaning.
pub mod Values
pub mod Literals
pub mod Algebra
pub mod Logic
pub mod Shifts
pub mod Keeps
pub mod Walk
pub mod Casts
