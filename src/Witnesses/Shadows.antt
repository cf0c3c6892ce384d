-- ===== src/Witnesses/Shadows.antt =====
-- Accesses of two threads to one location.
use data_race_test.Prelude.{
  ℕ, suc, ◌≡◌, ◌≢◌, inr, refl, true, false, List, [], ◌∷◌, some, if◌then◌else◌, ltb, ℤ, pos, negsuc,
  arith,
}
use data_race_test.Caches.Pair.{compute_idx, combine2, to_u32}
use data_race_test.Caches.PairLaws.{flush-IsCoherent}
use data_race_test.Segments.{Segments, set_segment}
use data_race_test.Segments
use data_race_test.SegmentSets.Tuple.{tid_of, happens_before_or_same_thread}
use data_race_test.SegmentSets.Store.{
  SegmentSets, ss_params, init_class_members, get_id, ref_all, remove_segment_from_ss,
  find_existing_or_allocate,
}
use data_race_test.SegmentSets.Singles.{IsFresh, remove_segment_from_ss_stale}
use data_race_test.SegmentSets.Interned
use data_race_test.SegmentSets.Interned.{find_existing_or_allocate-IsInterned}
use data_race_test.Shadow.Machine.{World, sids_of, check_if_race}
use data_race_test.Shadow.Machine.Race.{Finds, Knows, HasRace, check_if_race-Finds}
use data_race_test.Shadow.FastPath.{
  sval, ref_sid, dead_sid, memory_state_machine_same_thread, dispatch, case_11,
}
use data_race_test.Shadow.FastPath.Agreement.{Quiet, same_thread-agrees, same_thread_differs}
use data_race_test.Witnesses.Locks.{known, known-IsValid}
use data_race_test.Witnesses.Tuples.{concurrent}

-- The segments below 4 are of thread 0 and hold the locks 4 and 9, the others of thread 1, with
-- the locks 5 and 9.
abbrev two_threads : Segments
two_threads = record {
  max_sid = 100;
  all = λ sid. record {
    ref_count = 1;
    rd_lsid = if ltb sid 4 then negsuc 0 else negsuc 1;
    wr_lsid = if ltb sid 4 then negsuc 0 else negsuc 1;
    tid = some (if ltb sid 4 then 0 else 1);
    lock_era = 0;
    vts = some (record {
      uniq_id = sid;
      arr = record { tid = if ltb sid 4 then 0 else 1; clk = suc sid } ∷ [];
    });
  };
  n_segments = 9;
  reusable = [];
}

abbrev start : World
start = record { sets = init_class_members two_threads 10; locks = known }

ss_flushed : compute_idx ss_params (pos 0x01010101) 0x01010101 ≢ 0
unfolding compute_idx combine2 to_u32
ss_flushed e = ground arith

start-IsFresh : IsFresh start.sets
start-IsFresh = flush-IsCoherent _ ss_params ss_flushed

write_handled :
    memory_state_machine_same_thread two_threads true (sval (pos 1) (pos 2)) 3
    ≡ some (record {
      value = sval (pos 0) (pos 3);
      effects = dead_sid 2 ∷ dead_sid 1 ∷ ref_sid 3 ∷ [];
    })
unfolding memory_state_machine_same_thread dispatch case_11 tid_of
write_handled = refl

same_thread-agrees_example : Quiet start (sval (pos 1) (pos 2)) 3 true (sval (pos 0) (pos 3))
same_thread-agrees_example =
    same_thread-agrees start (sval (pos 1) (pos 2)) 3 true _ start-IsFresh (ground arith)
      write_handled (inr (λ e. ground arith))

read_handled :
    memory_state_machine_same_thread two_threads false (sval (pos 1) (pos 2)) 2
    ≡ some (record { value = sval (pos 0) (pos 2); effects = dead_sid 1 ∷ [] })
unfolding memory_state_machine_same_thread dispatch case_11 tid_of
read_handled = refl

same_thread_differs_example :
    Quiet start (sval (pos 1) (pos 2)) 2 false (sval (pos 1) (pos 2))
    × (sval (pos 0) (pos 2) ≡ sval (pos 0) (pos 2))
same_thread_differs_example =
    same_thread_differs start (sval (pos 1) (pos 2)) 2 false _ start-IsFresh (ground arith)
      read_handled (λ e. ground arith) (λ e. ground arith) refl

abbrev locks_held : ℕ → List ℕ
locks_held sid = if ltb sid 4 then 4 ∷ 9 ∷ [] else 5 ∷ 9 ∷ []

start-Knows : Knows two_threads known.vec locks_held locks_held
start-Knows = record { writes = λ sid. ground arith; reads = λ sid. ground arith }

check_if_race-Finds_example :
    Finds known
      (HasRace two_threads known.vec locks_held locks_held (5 ∷ []) (1 ∷ []))
      (check_if_race start (pos 1) (pos 5))
check_if_race-Finds_example =
    check_if_race-Finds start (pos 1) (pos 5) (1 ∷ []) (5 ∷ []) locks_held locks_held known-IsValid
      (ground arith) start-Knows (unfold sids_of in refl) (unfold sids_of in refl)

-- A later state, in which the segments are others.
abbrev later : SegmentSets
later = record start.sets { segments = concurrent }

remove_segment_from_ss_stale_example :
    (s' : SegmentSets) × (r : ℤ) × (r
      ≡ (if happens_before_or_same_thread two_threads 1 5 then pos 0 else pos 1))
    × (remove_segment_from_ss start.sets (pos 1) 5 ≡ some (s', r))
    × (remove_segment_from_ss (record later { remove_cache = s'.remove_cache }) (pos 1) 5
        ≡ some (record later { remove_cache = s'.remove_cache }, r))
remove_segment_from_ss_stale_example =
    remove_segment_from_ss_stale start.sets later 0 5 start-IsFresh

abbrev more_refs : Segments
more_refs =
    set_segment (set_segment concurrent 2 (record (concurrent.all 2) { ref_count = 2 })) 4
      (record (concurrent.all 4) { ref_count = 2 })

more_refs_eq : ref_all (2 ∷ 4 ∷ []) (some concurrent) ≡ some more_refs
unfolding ref_all Segments.ref Segments.get_internal
more_refs_eq = refl

no_sets-IsValid : Interned.IsValid (init_class_members concurrent 10)
unfolding get_id
no_sets-IsValid = record {
  map_vec = λ k id e. absurd (ground arith);
  vec_map = λ i k l. absurd (ground (arith, l));
  once = λ id. ground arith;
  dead = λ id c. absurd (ground arith);
}

find_existing_or_allocate-IsInterned_example :
    (s' : SegmentSets) × (id : ℤ) × (find_existing_or_allocate
        (init_class_members concurrent 10)
        (2 ∷ 4 ∷ [])
      ≡ some (s', id))
    × Interned.IsInterned (init_class_members concurrent 10) (2 ∷ 4 ∷ []) s' id
find_existing_or_allocate-IsInterned_example =
    find_existing_or_allocate-IsInterned (init_class_members concurrent 10) (2 ∷ 4 ∷ []) more_refs
      no_sets-IsValid more_refs_eq
