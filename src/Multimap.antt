-- ===== src/Multimap.antt =====
-- template class DenseMultimap, tsan/dense_multimap.h, at the lock ids that LockSet stores. The
-- array is a list; the choice between the built-in and the heap array is not modelled.
pub mod Counts
pub mod Compare
use data_race_test.Prelude.{
  ℕ, zero, suc, ◌+◌, ◌≤◌, ◌<◌, ◌≡◌, Bool, true, false, not, ◌&&◌, List, [], ◌∷◌, ◌++◌, Option, none,
  some, if◌then◌else◌, ◌==◌, ltb, leb, length, take, drop, get_elem?,
}

-- std::lower_bound on a sorted range: the position of the first element that is not below `t`.
unfoldable pub lower_bound : ℕ → List ℕ → ℕ
lower_bound t [] = 0
lower_bound t (x ∷ xs) = if ltb x t then suc (lower_bound t xs) else 0

-- DenseMultimap(t1, t2)
unfoldable pub doubleton : ℕ → ℕ → List ℕ
doubleton t1 t2 = if ltb t1 t2 then t1 ∷ t2 ∷ [] else t2 ∷ t1 ∷ []

-- DenseMultimap(m, t)
unfoldable pub add : List ℕ → ℕ → List ℕ
add m t = let it = lower_bound t m in take it m ++ (t ∷ drop it m)

-- DenseMultimap(m, REMOVE, t); `none` is the failed CHECK(it < m.end()).
unfoldable pub remove : List ℕ → ℕ → Option (List ℕ)
remove m t =
    let it = lower_bound t m in
    if ltb it (length m) then some (take it m ++ drop (suc it) m) else none

-- operator[]; `none` is the failed CHECK.
unfoldable pub at : List ℕ → ℕ → Option ℕ
at m i = if ltb i (length m) then get_elem? m i else none

not_above : ℕ → Option ℕ → Bool
not_above t none = false
not_above t (some x) = not (ltb t x)

-- std::binary_search: the element at the lower bound, if there is one, is not above `t`.
unfoldable pub has : List ℕ → ℕ → Bool
unfolding not_above
has m t = not_above t (get_elem? m (lower_bound t m))

-- The loop of operator<.
unfoldable pub less_loop : List ℕ → List ℕ → Bool
less_loop [] ys = false
less_loop (x ∷ xs) [] = false
less_loop (x ∷ xs) (y ∷ ys) = let rest = less_loop xs ys in if x == y then rest else ltb x y

unfoldable pub less : List ℕ → List ℕ → Bool
less m n = if length m == length n then less_loop m n else ltb (length m) (length n)

-- Validate: neighbours are in order.
unfoldable pub validate : List ℕ → Bool
validate [] = true
validate (x ∷ []) = true
validate (x ∷ y ∷ xs) = leb x y && validate (y ∷ xs)

-- Every element is at least `lo`, and no element is below the one before it.
abbrev pub IsSortedFrom : ℕ → List ℕ → Type 0
IsSortedFrom lo [] = Unit
IsSortedFrom lo (x ∷ xs) = (lo ≤ x) × IsSortedFrom x xs

abbrev pub IsSorted : List ℕ → Type 0
IsSorted = IsSortedFrom 0

-- The multiplicity of an element.
abbrev pub count : ℕ → List ℕ → ℕ
count t [] = 0
count t (x ∷ xs) = (if x == t then 1 else 0) + count t xs
