-- ===== src/Witnesses/Tuples.antt =====
-- Tuples of segments of five concurrent threads.
use data_race_test.Prelude.{ℕ, ◌≡◌, refl, false, List, [], ◌∷◌, arith, pos, some}
use data_race_test.Segments.{Segments}
use data_race_test.Vts
use data_race_test.SegmentSets.Tuple.{
  tid_of, vts_of, happens_before, same_content, add_to_tuple, add_scan, changed, forget_if_full,
  oldest, older, erase_at,
}
use data_race_test.SegmentSets.Tuple.Result.{IsTuple, IsExtended, add_to_tuple-IsExtended}

-- Every segment is of a thread of its own, with a stamp of its own.
abbrev pub concurrent : Segments
concurrent = record {
  max_sid = 100;
  all = λ sid. record {
    ref_count = 1;
    rd_lsid = pos 0;
    wr_lsid = pos 0;
    tid = some sid;
    lock_era = 0;
    vts = some (record { uniq_id = sid; arr = record { tid = sid; clk = 1 } ∷ [] });
  };
  n_segments = 9;
  reusable = [];
}

abbrev four_sids : List ℕ
four_sids = 1 ∷ 2 ∷ 4 ∷ 5 ∷ []

pub no_order : (x y : ℕ) → happens_before concurrent x y ≡ false
unfolding happens_before Vts.happens_before Vts.hb_loop vts_of
no_order x y = ground arith

four_sids-IsTuple : IsTuple concurrent four_sids
four_sids-IsTuple = record {
  bounded = ground arith;
  ordered = unfold tid_of in ground arith;
  unordered = λ x y c d n. no_order x y;
}

-- Segment 3 takes the place between the segments 2 and 4, and segment 1 is forgotten.
fifth_forgets : add_to_tuple concurrent four_sids 3 ≡ changed (2 ∷ 3 ∷ 4 ∷ 5 ∷ [])
unfolding add_to_tuple add_scan forget_if_full oldest older erase_at vts_of tid_of happens_before
    Vts.happens_before Vts.hb_loop same_content
fifth_forgets = refl

add_to_tuple-IsExtended_example : IsExtended concurrent 3 four_sids (2 ∷ 3 ∷ 4 ∷ 5 ∷ [])
add_to_tuple-IsExtended_example =
    add_to_tuple-IsExtended concurrent 3 four_sids (2 ∷ 3 ∷ 4 ∷ 5 ∷ []) four_sids-IsTuple
      (λ x c. no_order 3 x) fifth_forgets
