-- ===== src/Caches.antt =====
-- The fixed-size caches: PairCache of tsan/thread_sanitizer.cc, and the classes of
-- tsan/ts_simple_cache.h. A cache is a record with its arrays as lists.
pub mod Pair
pub mod PairLaws
pub mod PairRuns
pub mod BoolCache
