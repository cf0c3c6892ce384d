-- ===== src/Witnesses/Locks.antt =====
-- Lock sets of two locks in the tables of LockSet.
use data_race_test.Prelude.{
  ℕ, suc, ◌<◌, ◌≡◌, ◌≢◌, ◌-◌, ◌≤◌, zero, get_elem?, refl, Bool, true, false, List, [], ◌∷◌, some,
  pos, negsuc, arith, length,
}
use data_race_test.Multimap.{has, less, less_loop, IsSortedFrom}
use data_race_test.Caches.Pair.{compute_idx, combine2, to_u32, flush}
use data_race_test.Caches.PairLaws.{flush-IsCoherent}
use data_race_test.Caches.BoolCache
use data_race_test.LockSets.{
  LockSets, ls_params, int_size, find, same_key, add_lock, remove_lock, intersection_is_empty,
}
use data_race_test.LockSets.Contents.{IsValid, same_key_iff}
use data_race_test.LockSets.Updates.{Adds, add_lock-Adds}
use data_race_test.LockSets.Removes.{Removes, remove_lock_lem}
use data_race_test.LockSets.Intersect.{Decides, intersection_is_empty-Decides}

pub flushed : compute_idx ls_params (pos 0x01010101) 0x01010101 ≢ 0
unfolding compute_idx combine2 to_u32
flushed e = ground arith

flush_answers :
    (i j : ℕ) (v : Bool)
    → BoolCache.lookup int_size (BoolCache.flush int_size) i (suc j) ≡ some v
    → ⊥
flush_answers i j v e =
    let f = BoolCache.lookup-flush int_size i (suc j) (ground arith) in ground arith

-- The tables once the sets {4, 9} and {5, 9} have been interned.
abbrev pub known : LockSets
known = record {
  map = (5 ∷ 9 ∷ [], 2) ∷ (4 ∷ 9 ∷ [], 1) ∷ [];
  vec = (4 ∷ 9 ∷ []) ∷ (5 ∷ 9 ∷ []) ∷ [];
  add_cache = flush ls_params;
  rem_cache = flush ls_params;
  int_cache = BoolCache.flush int_size;
}

known_map :
    (k : List ℕ) (id : ℕ)
    → find k known.map ≡ some id
    → (0 < id) × (get_elem? known.vec (id - 1) ≡ some k)
unfolding find
known_map k id e = ground (arith, same_key_iff k (5 ∷ 9 ∷ []), same_key_iff k (4 ∷ 9 ∷ []))

known_vec :
    (i : ℕ) (k : List ℕ)
    → get_elem? known.vec i ≡ some k
    → (find k known.map ≡ some (suc i)) × IsSortedFrom 1 k × (2 ≤ length k)
unfolding find same_key less less_loop
known_vec zero k e = ground arith
known_vec (suc zero) k e = ground arith
known_vec (suc (suc i)) k e = absurd (ground arith)

pub known-IsValid : IsValid known
known-IsValid = record {
  map_vec = known_map;
  vec_map = known_vec;
  sized = refl;
  sums = flush-IsCoherent _ ls_params flushed;
  differences = flush-IsCoherent _ ls_params flushed;
  int_sized = unfold BoolCache.flush in refl;
  verdicts = λ i j v l m e. absurd (flush_answers (to_u32 (negsuc i)) j v e);
}

add_lock-Adds_example : Adds known (negsuc 0) 7 (4 ∷ 9 ∷ []) (add_lock known (negsuc 0) 7)
add_lock-Adds_example =
    add_lock-Adds known (negsuc 0) 7 (4 ∷ 9 ∷ []) known-IsValid (ground arith) refl

remove_lock_lem_example :
    (has (4 ∷ 9 ∷ []) 4 ≡ true → Removes known 4 (4 ∷ 9 ∷ []) (remove_lock known (negsuc 0) 4))
    × (has (4 ∷ 9 ∷ []) 4 ≡ false → remove_lock known (negsuc 0) 4 ≡ some (known, false, negsuc 0))
remove_lock_lem_example = remove_lock_lem known (negsuc 0) 4 (4 ∷ 9 ∷ []) known-IsValid refl

intersection_is_empty-Decides_example :
    Decides known (4 ∷ 9 ∷ []) (5 ∷ 9 ∷ []) (intersection_is_empty known (negsuc 0) (negsuc 1))
intersection_is_empty-Decides_example =
    intersection_is_empty-Decides known (negsuc 0) (negsuc 1) (4 ∷ 9 ∷ []) (5 ∷ 9 ∷ [])
      known-IsValid (ground arith) refl refl
