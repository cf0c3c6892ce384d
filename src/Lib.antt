-- ===== src/Lib.antt =====
-- Verification of the core of ThreadSanitizer (tsan/thread_sanitizer.cc and the headers beside it),
-- the offline and run-time data race detector of this repository.
--
-- The detector keeps, for each thread, a current segment: a piece of its execution without
-- synchronisation, with a vector time stamp (happens-before) and the sets of locks held. Each byte
-- of memory has a shadow value of two sets of segments, the last reads and the last writes. An
-- access updates the two sets; two accesses race if neither segment happens before the other and
-- their lock sets have no lock in common.
--
-- Which file models what:
--   Prelude        shared names, Boolean tests, lists indexed by native numbers, signed identifiers
--   Vts            class VTS: an array of (tid, clk) entries as a list. Vts/Order and Vts/Lattice
--                  have the pointwise order, Vts/Tick has CopyAndTick, Vts/Cached
--                  HappensBeforeCached
--   Caches/Pair    template PairCache (PairLaws: what its entries hold; PairRuns: whole histories)
--   Caches/BoolCache  template IntPairToBoolCache of tsan/ts_simple_cache.h
--   Multimap       template DenseMultimap of tsan/dense_multimap.h
--   LockSets       class LockSet: interned sets of locks over Multimap and the two caches.
--                  Contents says what an id means, Intern, Updates, Removes and Intersect
--                  treat ComputeId, Add, Remove and IntersectionIsEmpty
--   Segments       class Segment: the table of segments, Alloc its allocation, Counts its references
--   SegmentSets/Tuple  the tuples of class SegmentSet: the loops of AddSegmentToTupleSS and
--                  RemoveSegmentFromTupleSS (Kept, Forget, Alike, Result, Removal)
--   SegmentSets/Store, Recycling  the ids of class SegmentSet, their map, vector, counts and queues
--                  (Interned: FindExistingOrAlocateAndCopy; Extended: the two tuple operations;
--                  Released, Queue, Backed and Flushed: Unref and FlushRecycleQueue; Singles:
--                  RemoveSegmentFromSS on one segment and its cache)
--   Shadow         class ShadowValue; Shadow/Machine is MemoryStateMachine and, in Race, CheckIfRace;
--                  Shadow/FastPath is MemoryStateMachineSameThread, Agreement compares the two
--   CacheLines     class CacheLine: the granularity of the eight bytes of a word, its splits and joins.
--                  Covers has the granularities that occur and the value of each byte, Splits and
--                  Joins the operations, Accesses HandleAccessGranularityAndExecuteHelper, Ready,
--                  Tiling and Prepared what it does to a word, Ranges GetCacheLinesForRange
--   Locks          class Lock; Locks/Events the parts of TSanThread::HandleLock and HandleUnlock that
--                  change the lock and the lock sets
--   Arcs           the events of TSanThread and of the detector that order threads: SIGNAL and WAIT,
--                  thread creation, start, end and join, cyclic barriers, PCQs. Events is the
--                  handler of all, Stamps, Births, Lives and Kept its invariant, Ordered the states that it
--                  leads to, Signals and Happens a signal and a later wait, Acquires and Handed
--                  what an event hands on from thread to thread
--   History        struct LockHistory: Recent is its queues, Common is Intersect
--   Heap           template HeapMap of tsan/ts_heap_info.h
--   Wildcards      ThreadSanitizerStringMatch of tsan/common_util.cc: Matches says what a wildcard
--                  means, Search follows one round of the loop, Decision and Shortcuts all of it
--   Ignores        tsan/ignore.h and tsan/ignore.cc: Lookup, Reading and Errors treat the lists and
--                  the reader; Clients and Answers are their callers in the detector and in
--                  gcc/plg/relite_ignore.cc
--   Suppressions   tsan/suppressions.cc: the lines; Frames is ParseStackTraceLine (Operators: where it
--                  does not return), Parser the rest of the parser (Written, Accumulated: what is
--                  written is read; Lines, Steps, Rounds and Returns: where it ends), Stacks and
--                  Matching StackTraceSuppressed
--   Witnesses      the theorems at concrete inputs
--
-- Conventions. Stateful code takes its state and returns the new one. A failed CHECK, and a failed
-- DCHECK that guards memory, an id or a reference count, is `none`; other code that only exists
-- with TSAN_DEBUG is left out. A signed identifier (LSID, SSID) is an integer whose negative values
-- -i - 1 name the place i of a vector. Thread ids, clocks and counts are natural numbers, so the
-- overflow of a 32-bit clock or count is not modelled; the hashes of the caches and the ends of
-- heap blocks are, with their wrap-around. The invalid TID is `none`. Calls of the standard library
-- (lower_bound, binary_search, set_intersection, map, deque) are modelled by what they do on the
-- sorted ranges that they get. A string is the list of its bytes.
--
-- Loops are structural recursions where the code allows it. With fuel are: the loop of StringMatch
-- (the rounds are a bound on wildcard and text, enough by string_match-Decides), the loops of the
-- parser of suppressions (one round for each byte; read_from_string-Answers shows that they end), the
-- check for templates in ParseStackTraceLine (enough where it ends at all, see
-- parse_stack_trace_line-Hangs) and the loop of an access over its bytes (prepare-Prepared). Out of
-- fuel, and a read outside a string, is `none` too.
--
-- Not modelled: the direct-mapped cache of lines and its locks, the segments of the blocks of a
-- thread with their dead and fresh ids, the flush of all state when the segments run out, atomic
-- operations, the readers of traces and the front ends; printing, statistics, malloc cost centres,
-- stack traces kept for reports, and the reference counts of time stamps.
pub mod Prelude
pub mod Vts
pub mod Caches
pub mod Multimap
pub mod LockSets
pub mod Segments
pub mod SegmentSets
pub mod Shadow
pub mod Locks
pub mod CacheLines
pub mod Arcs
pub mod Heap
pub mod History
pub mod Wildcards
pub mod Ignores
pub mod Suppressions
pub mod Witnesses
