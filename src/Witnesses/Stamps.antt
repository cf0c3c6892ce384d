-- ===== src/Witnesses/Stamps.antt =====
-- Vector time stamps of two threads, and a third one.
use data_race_test.Prelude.{
  false, refl, ℕ, ◌+◌, ◌<◌, max, ◌≡◌, ◌≢◌, ◌↔◌, true, List, [], ◌∷◌, some, arith,
}
use data_race_test.Caches.BoolCache
use data_race_test.Vts.Cached.{
  happens_before_cached, flush_hb_cache, IsRight, happens_before_cached_lem,
}
use data_race_test.Vts.{hb_loop}
use data_race_test.Vts.{Ts, clk, join, copy_and_tick, happens_before, IsVts}
use data_race_test.Vts.Lattice.{LeClk, happens_before_iff, clk-join}
use data_race_test.Vts.Tick.{copy_and_tick_lem}

abbrev parent_stamp : List Ts
parent_stamp = record { tid = 0; clk = 1 } ∷ record { tid = 2; clk = 3 } ∷ []

abbrev child_stamp : List Ts
child_stamp =
    record { tid = 0; clk = 1 } ∷ record { tid = 1; clk = 1 } ∷ record { tid = 2; clk = 4 } ∷ []

abbrev other_stamp : List Ts
other_stamp = record { tid = 1; clk = 5 } ∷ []

parent_stamp-IsVts : IsVts parent_stamp
parent_stamp-IsVts = ground arith

child_stamp-IsVts : IsVts child_stamp
child_stamp-IsVts = ground arith

other_stamp-IsVts : IsVts other_stamp
other_stamp-IsVts = ground arith

happens_before_iff_example :
    (happens_before parent_stamp child_stamp ≡ true)
    ↔ (LeClk parent_stamp child_stamp × (parent_stamp ≢ child_stamp))
happens_before_iff_example =
    happens_before_iff parent_stamp child_stamp parent_stamp-IsVts child_stamp-IsVts

clk-join_example :
    IsVts (join parent_stamp other_stamp)
    × ((t : ℕ)
        → clk t (join parent_stamp other_stamp) ≡ max (clk t parent_stamp) (clk t other_stamp))
clk-join_example = clk-join parent_stamp other_stamp parent_stamp-IsVts other_stamp-IsVts

parent_clk : 0 < clk 2 parent_stamp
unfolding clk
parent_clk = ground arith

copy_and_tick_lem_example :
    (ys : List Ts) × (copy_and_tick parent_stamp 2 ≡ some ys)
    × IsVts ys
    × (clk 2 ys ≡ clk 2 parent_stamp + 1)
    × ((u : ℕ) → u ≢ 2 → clk u ys ≡ clk u parent_stamp)
    × (happens_before parent_stamp ys ≡ true)
copy_and_tick_lem_example = copy_and_tick_lem parent_stamp 2 parent_stamp-IsVts parent_clk

abbrev own_stamp : ℕ → List Ts
own_stamp t = record { tid = t; clk = 1 } ∷ []

own_stamp-IsVts : (t : ℕ) → IsVts (own_stamp t)
own_stamp-IsVts t = ground arith

no_order : (a b : ℕ) → happens_before (own_stamp a) (own_stamp b) ≡ false
unfolding happens_before hb_loop
no_order a b = ground arith

empty-IsRight : IsRight own_stamp 13 (BoolCache.flush 13)
empty-IsRight = record {
  sized = unfold BoolCache.flush in refl;
  answers = λ a b v e. ground (arith, BoolCache.lookup-flush 13 a b, no_order a b);
}

happens_before_cached_lem_example :
    ((happens_before_cached 13 (BoolCache.flush 13) 4 (own_stamp 4) 6 (own_stamp 6)).1
      ≡ happens_before (own_stamp 4) (own_stamp 6))
    × IsRight own_stamp 13
        (happens_before_cached 13 (BoolCache.flush 13) 4 (own_stamp 4) 6 (own_stamp 6)).0
    × IsRight own_stamp 13 (flush_hb_cache 13)
happens_before_cached_lem_example =
    happens_before_cached_lem own_stamp 13 (ground arith) (BoolCache.flush 13) 4 6 empty-IsRight
      (ground arith) own_stamp-IsVts
