-- ===== src/LockSets/Contents.antt =====
-- What an LSID stands for, and the invariant of the tables behind it.
use data_race_test.Prelude.{
  ℕ, suc, ◌-◌, ◌≤◌, ◌<◌, ◌^◌, ◌≡◌, ◌↔◌, Bool, true, List, [], ◌∷◌, Option, some, if◌then◌else◌,
  ◌==◌, length, get_elem?, arith, ℤ, pos, negsuc,
}
use data_race_test.Multimap.{IsSortedFrom, add, has}
use data_race_test.Multimap.Compare.{less_order}
use data_race_test.Multimap.Counts.{IsRemoval}
use data_race_test.Caches.Pair
use data_race_test.Caches.PairLaws.{IsCoherent}
use data_race_test.Caches.BoolCache
use data_race_test.LockSets.{
  LockSets, ls_params, int_size, same_key, find, is_nil, set_intersection,
}

-- The multiset of locks behind an id.
abbrev pub set_of : List (List ℕ) → ℤ → Option (List ℕ)
set_of vec (pos n) = if n == 0 then some [] else some (n ∷ [])
set_of vec (negsuc i) = get_elem? vec i

abbrev pub contents : LockSets → ℤ → Option (List ℕ)
contents s a = set_of s.vec a

-- What the three caches may answer.
abbrev pub IsSum : LockSets → ℤ → ℕ → ℤ → Type 0
IsSum s a l r = (m : List ℕ) × (contents s a ≡ some m) × (contents s r ≡ some (add m l))

abbrev pub IsDifference : LockSets → ℤ → ℕ → ℤ → Type 0
IsDifference s a l r =
    (m : List ℕ) × (n : List ℕ) × (contents s a ≡ some m)
    × (has m l ≡ true)
    × IsRemoval 0 l m n
    × (contents s r ≡ some n)

abbrev pub IsVerdict : LockSets → ℕ → ℕ → Bool → Type 0
IsVerdict s i j v =
    (m : List ℕ) × (n : List ℕ) × (get_elem? s.vec i ≡ some m)
    × (get_elem? s.vec j ≡ some n)
    × (v ≡ is_nil (set_intersection m n))

-- The map and the vector are inverse to one another, hold sorted sets of two locks or more, and
-- the caches hold results.
pub record IsValid (s : LockSets) : Type 0 where
  pub map_vec :
      (k : List ℕ) (id : ℕ)
      → find k s.map ≡ some id
      → (0 < id) × (get_elem? s.vec (id - 1) ≡ some k)
  pub vec_map :
      (i : ℕ) (k : List ℕ)
      → get_elem? s.vec i ≡ some k
      → (find k s.map ≡ some (suc i)) × IsSortedFrom 1 k × (2 ≤ length k)
  pub sized : length s.map ≡ length s.vec
  pub sums : IsCoherent (IsSum s) ls_params s.add_cache
  pub differences : IsCoherent (IsDifference s) ls_params s.rem_cache
  pub int_sized : length s.int_cache ≡ int_size
  pub verdicts :
      (i j : ℕ) (v : Bool)
      → i < 2 ^ 31
      → suc j < 2 ^ 31
      → BoolCache.lookup int_size s.int_cache (Pair.to_u32 (negsuc i)) (suc j) ≡ some v
      → IsVerdict s i j v

-- A later state of the tables gives every id its old meaning.
abbrev pub Extends : LockSets → LockSets → Type 0
Extends s s' = (a : ℤ) (m : List ℕ) → contents s a ≡ some m → contents s' a ≡ some m

pub same_key_iff : (k l : List ℕ) → (same_key k l ≡ true) ↔ (k ≡ l)
unfolding same_key
same_key_iff k l = (
  λ h. (less_order k l k).2 (ground arith) (ground arith),
  λ e. rw e (ground (arith, (less_order l l l).0)),
)

-- In valid tables two lock set ids with the same meaning are one id.
pub contents_injective :
    (s : LockSets) (a b : ℤ) (m : List ℕ)
    → IsValid s
    → contents s a ≡ some m
    → contents s b ≡ some m
    → a ≡ b
contents_injective s (pos n) (pos k) m v h e = ground arith
contents_injective s (pos n) (negsuc j) m v h e = let w = v.vec_map j m e in absurd (ground arith)
contents_injective s (negsuc i) (pos k) m v h e = let w = v.vec_map i m h in absurd (ground arith)
contents_injective s (negsuc i) (negsuc j) m v h e =
    let w = v.vec_map i m h in let u = v.vec_map j m e in ground arith
