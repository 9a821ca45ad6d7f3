-- ===== src/Task.antt =====
-- lib/include/task.hpp
pub mod WhenAll
pub mod Timed
pub mod WhenAny
pub mod Promise
pub mod Chain
pub mod Frames
