-- ===== src/LockSets.antt =====
-- class LockSet, tsan/thread_sanitizer.cc: sets of locks as interned identifiers, with caches.
-- An LSID is an integer: 0 is the empty set, a positive one the lock itself, a negative one the
-- place -raw - 1 of a vector of multimaps.
pub mod Contents
pub mod Intern
pub mod Updates
pub mod Removes
pub mod Intersect
use data_race_test.Prelude.{
  ℕ, zero, suc, ◌+◌, ◌-◌, Bool, true, false, not, ◌&&◌, ◌||◌, List, [], ◌∷◌, ◌++◌, Option, none,
  some, if◌then◌else◌, ◌==◌, ltb, length, get_elem?, compare, Ordering, ℤ, pos, negsuc, eq_ℤ,
}
use data_race_test.Multimap.{less, doubleton, add, remove, has}
use data_race_test.Caches.Pair.{PairCache, Params}
use data_race_test.Caches.Pair
use data_race_test.Caches.BoolCache.{Slot}
use data_race_test.Caches.BoolCache

-- The static members of LockSet. `map` is the std::map from sets to positive numbers.
pub record LockSets : Type 0 where
  pub map : List (List ℕ × ℕ)
  pub vec : List (List ℕ)
  pub add_cache : PairCache ℤ
  pub rem_cache : PairCache ℤ
  pub int_cache : List Slot

-- IntPairToIntCache<kPrimeSizeOfLsCache> with an array of 8.
abbrev pub ls_params : Params ℤ
ls_params = record {
  htable_size = 1021;
  array_size = 8;
  zero_value = pos 0;
  ones_value = pos 0x01010101;
}

abbrev pub int_size : ℕ
int_size = 1021

pub init_class_members : LockSets
init_class_members = record {
  map = [];
  vec = [];
  add_cache = Pair.flush ls_params;
  rem_cache = Pair.flush ls_params;
  int_cache = BoolCache.flush int_size;
}

-- A key of the map: neither array is below the other.
unfoldable pub same_key : List ℕ → List ℕ → Bool
same_key k l = not (less k l) && not (less l k)

unfoldable pub find : List ℕ → List (List ℕ × ℕ) → Option ℕ
find k [] = none
find k ((l, id) ∷ m) = if same_key k l then some id else find k m

-- `Get`: the multimap behind a tuple; `none` is the failed DCHECK.
unfoldable pub get : LockSets → ℤ → Option (List ℕ)
get s (pos n) = none
get s (negsuc i) = get_elem? s.vec i

-- ComputeId for a set of several locks: the id in the map, or a new one, the size of the map with
-- the new key.
unfoldable pub intern : LockSets → List ℕ → Option ℕ → LockSets × ℤ
intern s set (some id) = (s, negsuc (id - 1))
intern s set none =
    let id = length s.map + 1 in
    (record s { map = (set, id) ∷ s.map; vec = s.vec ++ set ∷ [] }, negsuc (id - 1))

unfoldable pub compute_id : LockSets → List ℕ → Option (LockSets × ℤ)
compute_id s [] = none
compute_id s (l ∷ []) = some (s, pos l)
compute_id s (l ∷ l' ∷ ls) = some (intern s (l ∷ l' ∷ ls) (find (l ∷ l' ∷ ls) s.map))

-- The end of Add: the result goes into the cache.
unfoldable pub remember_add : ℤ → ℕ → LockSets × ℤ → LockSets × ℤ
remember_add lsid lid (s, r) =
    (record s { add_cache = Pair.insert ls_params s.add_cache lsid lid r }, r)

unfoldable pub add_uncached : LockSets → ℤ → ℕ → Option (LockSets × ℤ)
add_uncached s (pos l) lid = compute_id s (doubleton l lid)
add_uncached s (negsuc i) lid = elim (get s (negsuc i)) [
  | none ↦ none
  | some m ↦ compute_id s (add m lid)
]

unfoldable pub add_cached : LockSets → ℤ → ℕ → Option ℤ → Option (LockSets × ℤ)
add_cached s lsid lid (some r) = some (s, r)
add_cached s lsid lid none = elim (add_uncached s lsid lid) [
  | none ↦ none
  | some p ↦ some (remember_add lsid lid p)
]

-- LockSet::Add. `none` is a failed CHECK.
unfoldable pub add_lock : LockSets → ℤ → ℕ → Option (LockSets × ℤ)
add_lock s (pos zero) lid = some (s, pos lid)
add_lock s (pos (suc l)) lid =
    add_cached s (pos (suc l)) lid (Pair.lookup ls_params s.add_cache (pos (suc l)) lid)
add_lock s (negsuc i) lid =
    add_cached s (negsuc i) lid (Pair.lookup ls_params s.add_cache (negsuc i) lid)

-- The end of Remove: the smaller set gets its id, which goes into the cache.
unfoldable pub remember_rem : ℤ → ℕ → LockSets × ℤ → LockSets × Bool × ℤ
remember_rem lsid lid (s, r) =
    (record s { rem_cache = Pair.insert ls_params s.rem_cache lsid lid r }, true, r)

unfoldable pub rem_copy : LockSets → ℤ → ℕ → Option (List ℕ) → Option (LockSets × Bool × ℤ)
rem_copy s lsid lid none = none
rem_copy s lsid lid (some set) = elim (compute_id s set) [
  | none ↦ none
  | some p ↦ some (remember_rem lsid lid p)
]

unfoldable pub rem_uncached : LockSets → ℤ → ℕ → Option (List ℕ) → Option (LockSets × Bool × ℤ)
rem_uncached s lsid lid none = none
rem_uncached s lsid lid (some m) =
    if has m lid then rem_copy s lsid lid (remove m lid) else some (s, false, lsid)

unfoldable pub rem_cached : LockSets → ℤ → ℕ → Option ℤ → Option (LockSets × Bool × ℤ)
rem_cached s lsid lid (some r) = some (s, true, r)
rem_cached s lsid lid none = rem_uncached s lsid lid (get s lsid)

-- LockSet::Remove: whether the lock was there, and *new_lsid. `none` is a failed CHECK.
unfoldable pub remove_lock : LockSets → ℤ → ℕ → Option (LockSets × Bool × ℤ)
remove_lock s (pos zero) lid = some (s, false, pos zero)
remove_lock s (pos (suc l)) lid =
    some (if suc l == lid then (s, true, pos 0) else (s, false, pos (suc l)))
remove_lock s (negsuc i) lid =
    rem_cached s (negsuc i) lid (Pair.lookup ls_params s.rem_cache (negsuc i) lid)

-- std::set_intersection of two sorted ranges.
unfoldable pub set_intersection : List ℕ → List ℕ → List ℕ
set_intersection [] ys = []
set_intersection (x ∷ xs) [] = []
set_intersection (x ∷ xs) (y ∷ ys) = elim (compare x y) [
  | Ordering.lt ↦ set_intersection xs (y ∷ ys)
  | Ordering.gt ↦ set_intersection (x ∷ xs) ys
  | Ordering.eq ↦ x ∷ set_intersection xs ys
]

abbrev pub is_nil : List ℕ → Bool
is_nil [] = true
is_nil (x ∷ xs) = false

-- A lookup in a tuple, negated.
unfoldable pub lacks : Option (List ℕ) → ℕ → Option Bool
lacks none l = none
lacks (some m) l = some (not (has m l))

-- The slow path of IntersectionIsEmpty, on the keys of its cache.
unfoldable pub intersect_slow :
    LockSets → ℕ → ℕ → Option (List ℕ) → Option (List ℕ) → Option (LockSets × Bool)
intersect_slow s a b (some m) (some n) =
    let ret = is_nil (set_intersection m n) in
    some (record s { int_cache = BoolCache.insert int_size s.int_cache a b ret }, ret)
intersect_slow s a b (some m) none = none
intersect_slow s a b none n = none

unfoldable pub intersect_cached : LockSets → ℕ → ℕ → Option Bool → Option (LockSets × Bool)
intersect_cached s i j (some ret) = some (s, ret)
intersect_cached s i j none =
    intersect_slow s (Pair.to_u32 (negsuc i)) (suc j) (get s (negsuc i)) (get s (negsuc j))

abbrev pub with_state : LockSets → Option Bool → Option (LockSets × Bool)
with_state s none = none
with_state s (some b) = some (s, b)

-- LockSet::IntersectionIsEmpty; the negated second id is the second key of the cache.
unfoldable pub intersection_is_empty : LockSets → ℤ → ℤ → Option (LockSets × Bool)
intersection_is_empty s (pos zero) b = some (s, true)
intersection_is_empty s (pos (suc l)) (pos zero) = some (s, true)
intersection_is_empty s (pos (suc l)) (pos (suc k)) = some (s, not (suc l == suc k))
intersection_is_empty s (pos (suc l)) (negsuc j) = with_state s (lacks (get s (negsuc j)) (suc l))
intersection_is_empty s (negsuc i) (pos zero) = some (s, true)
intersection_is_empty s (negsuc i) (pos (suc k)) = with_state s (lacks (get s (negsuc i)) (suc k))
intersection_is_empty s (negsuc i) (negsuc j) =
    if i == j
    then some (s, false)
    else intersect_cached s i j
        (BoolCache.lookup int_size s.int_cache (Pair.to_u32 (negsuc i)) (suc j))
