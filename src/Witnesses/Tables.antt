-- ===== src/Witnesses/Tables.antt =====
-- Multimaps, the caches and the table of segments at concrete inputs.
use data_race_test.Prelude.{ℕ, ◌≡◌, ◌≢◌, inr, false, List, [], ◌∷◌, none, some, pos, arith}
use data_race_test.Caches.Pair
use data_race_test.Caches.Pair.{Entry, Params, compute_idx, combine2, to_u32}
use data_race_test.Caches.PairRuns.{run, run-unfilled}
use data_race_test.Segments.{Segments, Stamp, init_class_members, add_new_segment, alive}
use data_race_test.Segments.Alloc
use data_race_test.Segments.Alloc.{IsAdded, new_segment, add_new_segment-IsAdded}

-- A cache of 1009 lines with an array of one, the sizes of the cache of HappensBefore.
abbrev small : Params ℕ
small = record { htable_size = 1009; array_size = 1; zero_value = 0; ones_value = 0x01010101 }

small_flush : compute_idx small (pos 0x01010101) 0x01010101 ≢ 0
unfolding compute_idx combine2 to_u32
small_flush e = ground arith

abbrev one_entry : List (Entry ℕ)
one_entry = record { a = pos 3; b = 5; v = 8 } ∷ []

run-unfilled_example :
    ((run small one_entry).array_filled ≡ false)
    × ((run small one_entry).array_pos ≡ 0
        → Pair.array_lookup small (run small one_entry) (pos 3) 5 ≡ none)
run-unfilled_example = run-unfilled small small_flush one_entry (pos 3) 5

abbrev first_stamp : Stamp
first_stamp = record { uniq_id = 1; arr = record { tid = 0; clk = 1 } ∷ [] }

no_segments-IsValid : Alloc.IsValid (init_class_members 100)
unfolding init_class_members alive
no_segments-IsValid = record {
  first = ground arith;
  within = ground arith;
  once = λ sid. ground arith;
  free = λ sid p. absurd (ground arith);
  dead = λ sid p q d. absurd (ground arith);
}

no_segments_room : Alloc.HasRoom (init_class_members 100)
unfolding init_class_members
no_segments_room = inr (ground arith)

add_new_segment-IsAdded_example :
    (sid : ℕ) × (s' : Segments) × (add_new_segment
        (init_class_members 100)
        0
        first_stamp
        (pos 0)
        (pos 0)
        1
      ≡ some (sid, s'))
    × IsAdded (init_class_members 100) (new_segment 0 first_stamp (pos 0) (pos 0) 1) sid s'
add_new_segment-IsAdded_example =
    add_new_segment-IsAdded (init_class_members 100) 0 first_stamp (pos 0) (pos 0) 1
      no_segments-IsValid no_segments_room
