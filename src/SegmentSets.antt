-- ===== src/SegmentSets.antt =====
-- class SegmentSet, tsan/thread_sanitizer.cc: the sets of segments that a shadow value keeps for
-- the readers and the writers of a memory location.
pub mod Tuple
pub mod Store
pub mod Recycling
pub mod Singles
pub mod Interned
pub mod Released
pub mod Queue
pub mod Backed
pub mod Flushed
pub mod Extended
