-- ===== src/Witnesses/Queues.antt =====
-- A store with one tuple, whose last reference goes.
use data_race_test.Prelude.{
  ℤ, if◌then◌else◌, ℕ, zero, suc, ◌*◌, ◌<◌, ◌≡◌, refl, List, [], ◌∷◌, some, length, get_elem?, pos,
  negsuc, arith,
}
use data_race_test.SegmentSets.Store.{SegmentSets, Slot, init_class_members, get_id, ss_params}
use data_race_test.SegmentSets.Interned.{IsValid, IsLiveAt, same_sids_iff}
use data_race_test.SegmentSets.Recycling.{unref, flush_recycle_queue}
use data_race_test.SegmentSets.Queue.{KeepsShort, IsShort, unref-KeepsShort}
use data_race_test.SegmentSets.Backed.{Backed}
use data_race_test.SegmentSets.Flushed.{Popped, flush_recycle_queue-Popped}
use data_race_test.Caches.Pair
use data_race_test.Multimap.{count}
use data_race_test.Segments.{alive}
use data_race_test.Segments.Counts.{IsLive}
use data_race_test.SegmentSets.Tuple.{tid_of, happens_before_or_same_thread}
use data_race_test.SegmentSets.Tuple.Result.{IsTuple}
use data_race_test.SegmentSets.Store.{add_segment_to_tuple_ss, remove_segment_from_tuple_ss}
use data_race_test.SegmentSets.Extended.{
  AllLive, Denotes, Adds, add_segment_to_tuple_ss-Adds, remove_segment_from_tuple_ss_lem,
}
use data_race_test.Witnesses.Tuples.{concurrent, no_order}

abbrev pair : Slot
pair = record { sids = 2 ∷ 4 ∷ []; ref_count = pos 1 }

abbrev one_tuple : SegmentSets
one_tuple = record (init_class_members concurrent 10) {
  map = (2 ∷ 4 ∷ [], negsuc 0) ∷ [];
  vec = pair ∷ [];
}

one_tuple_vec :
    (i : ℕ) (k : List ℕ) → IsLiveAt (pair ∷ []) i k → get_id k one_tuple.map ≡ some (negsuc i)
unfolding get_id
one_tuple_vec zero k (x, n, e, q, c) = ground (arith, same_sids_iff k (2 ∷ 4 ∷ []))
one_tuple_vec (suc i) k (x, n, e, q, c) = absurd (cc)

one_tuple-IsValid : IsValid one_tuple
unfolding get_id
one_tuple-IsValid = record {
  map_vec = λ k id e.
      (0, ground arith, (pair, 1, refl, ground (arith, same_sids_iff k (2 ∷ 4 ∷ [])), refl));
  vec_map = one_tuple_vec;
  once = λ id. ground arith;
  dead = λ id c. absurd (ground arith);
}

-- The same tuple without references, in a queue that is too long.
abbrev idle : Slot
idle = record { sids = 2 ∷ 4 ∷ []; ref_count = pos 0 }

abbrev full_queue : SegmentSets
full_queue = record one_tuple { vec = idle ∷ []; to_recycle = negsuc 0 ∷ []; queue_size = 0 }

full_queue_vec :
    (i : ℕ) (k : List ℕ) → IsLiveAt (idle ∷ []) i k → get_id k full_queue.map ≡ some (negsuc i)
unfolding get_id
full_queue_vec zero k (x, n, e, q, c) = ground (arith, same_sids_iff k (2 ∷ 4 ∷ []))
full_queue_vec (suc i) k (x, n, e, q, c) = absurd (cc)

full_queue-IsValid : IsValid full_queue
unfolding get_id
full_queue-IsValid = record {
  map_vec = λ k id e.
      (0, ground arith, (idle, 0, refl, ground (arith, same_sids_iff k (2 ∷ 4 ∷ [])), refl));
  vec_map = full_queue_vec;
  once = λ id. ground arith;
  dead = λ id c. absurd (ground arith);
}

full_queue-Backed : Backed full_queue.segments full_queue.vec
full_queue-Backed sid = ((λ c. (ground arith, (ground arith, ground arith))), ground arith)

flush_recycle_queue-Popped_example :
    (s' : SegmentSets) × (flush_recycle_queue full_queue ≡ some s')
    × Popped (negsuc 0 ∷ []) full_queue s'
    × (s'.to_recycle ≡ [])
    × (s'.add_cache ≡ Pair.flush ss_params)
    × (s'.remove_cache ≡ Pair.flush ss_params)
flush_recycle_queue-Popped_example =
    flush_recycle_queue-Popped full_queue full_queue-IsValid full_queue-Backed
      ((0, idle, refl, refl), tt)

one_tuple-IsShort : IsShort one_tuple
one_tuple-IsShort = ground arith

unref-KeepsShort_example :
    KeepsShort (unref one_tuple (negsuc 0))
    × ((i n : ℕ) (x : Slot)
        → negsuc 0 ≡ negsuc i
        → get_elem? one_tuple.vec i ≡ some x
        → x.ref_count ≡ pos (suc n)
        → length one_tuple.to_recycle < 2 * one_tuple.queue_size
        → (s' : SegmentSets) × (unref one_tuple (negsuc 0) ≡ some s'))
unref-KeepsShort_example = unref-KeepsShort one_tuple (negsuc 0) one_tuple-IsValid one_tuple-IsShort

pair-AllLive : AllLive concurrent (2 ∷ 4 ∷ [])
unfolding alive
pair-AllLive sid c = ground arith

third-IsLive : IsLive concurrent 3
unfolding alive
third-IsLive = ground arith

pair-IsTuple : IsTuple concurrent (2 ∷ 4 ∷ [])
pair-IsTuple = record {
  bounded = ground arith;
  ordered = unfold tid_of in ground arith;
  unordered = λ x y c d n. no_order x y;
}

add_segment_to_tuple_ss-Adds_example :
    Adds one_tuple (negsuc 0) (2 ∷ 4 ∷ []) 3 (add_segment_to_tuple_ss one_tuple (negsuc 0) 3)
add_segment_to_tuple_ss-Adds_example =
    add_segment_to_tuple_ss-Adds one_tuple 0 (2 ∷ 4 ∷ []) 3 one_tuple-IsValid (ground arith)
      (pair, 1, refl, refl, refl) pair-IsTuple (λ x c. no_order 3 x) pair-AllLive third-IsLive

remove_segment_from_tuple_ss_lem_example :
    (s' : SegmentSets) × (r : ℤ) × (t : List ℕ) × (remove_segment_from_tuple_ss one_tuple
        (negsuc 0)
        4
      ≡ some (s', r))
    × IsValid s'
    × Denotes s' r t
    × IsTuple concurrent t
    × ((x : ℕ)
        → count x t
          ≡ (if happens_before_or_same_thread concurrent x 4 then 0 else count x (2 ∷ 4 ∷ [])))
remove_segment_from_tuple_ss_lem_example =
    remove_segment_from_tuple_ss_lem one_tuple 0 (2 ∷ 4 ∷ []) 4 one_tuple-IsValid (ground arith)
      (pair, 1, refl, refl, refl) (ground arith) pair-IsTuple pair-AllLive
