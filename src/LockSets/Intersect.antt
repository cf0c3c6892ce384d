-- ===== src/LockSets/Intersect.antt =====
-- LockSet::IntersectionIsEmpty against the multisets that the ids stand for.
use data_race_test.Prelude.{
  ℕ, zero, suc, ◌≤◌, ◌<◌, ◌^◌, min, ◌≡◌, ◌↔◌, inl, inr, refl, ap, ◌∙◌, Bool, true, false, not, List,
  [], ◌∷◌, Option, some, ◌==◌, length, get_elem?, arith, ==_iff, Bool-cases, Option-cases, ℤ, pos,
  negsuc, length-set, get_elem?_lt,
}
use data_race_test.Multimap.{IsSortedFrom, has, count}
use data_race_test.Multimap.Counts.{has_from, count_below}
use data_race_test.Caches.Pair
use data_race_test.Caches.BoolCache
use data_race_test.LockSets.{
  LockSets, int_size, get, is_nil, set_intersection, lacks, intersect_slow, intersect_cached,
  intersection_is_empty,
}
use data_race_test.LockSets.Contents.{contents, IsValid}

-- No lock is in both sets.
abbrev pub IsDisjoint : List ℕ → List ℕ → Type 0
IsDisjoint m n = (u : ℕ) → min (count u m) (count u n) ≡ 0

count-set_intersection :
    (u lo hi : ℕ) (xs ys : List ℕ)
    → IsSortedFrom lo xs
    → IsSortedFrom hi ys
    → count u (set_intersection xs ys) ≡ min (count u xs) (count u ys)
unfolding set_intersection
count-set_intersection u lo hi [] ys s r = omega arith
count-set_intersection u lo hi (x ∷ xs) [] s r = omega arith
count-set_intersection u lo hi (x ∷ xs) (y ∷ ys) s r = ground (
  arith,
  count-set_intersection u x hi xs (y ∷ ys),
  count-set_intersection u lo y (x ∷ xs) ys,
  count-set_intersection u x y xs ys,
  count_below u y (y ∷ ys),
  count_below u x (x ∷ xs),
)

nil_of_counts : (xs : List ℕ) → ((u : ℕ) → count u xs ≡ 0) → is_nil xs ≡ true
nil_of_counts [] h = refl
nil_of_counts (x ∷ xs) h = absurd (ground (arith, h x))

counts_of_nil : (u : ℕ) (xs : List ℕ) → is_nil xs ≡ true → count u xs ≡ 0
counts_of_nil u [] h = refl
counts_of_nil u (x ∷ xs) h = absurd (cc)

-- Two ranges are found disjoint exactly when they are.
is_nil-set_intersection :
    (m n : List ℕ)
    → IsSortedFrom 1 m
    → IsSortedFrom 1 n
    → (is_nil (set_intersection m n) ≡ true) ↔ IsDisjoint m n
is_nil-set_intersection m n s r = (
  λ h u.
      omega (arith, counts_of_nil u (set_intersection m n) h, count-set_intersection u 1 1 m n s r),
  λ h.
      nil_of_counts (set_intersection m n)
        (λ u. omega (arith, h u, count-set_intersection u 1 1 m n s r)),
)

IsDisjoint-single_left :
    (l : ℕ) (n : List ℕ) → IsSortedFrom 1 n → (not (has n l) ≡ true) ↔ IsDisjoint (l ∷ []) n
IsDisjoint-single_left l n s =
    let w = has_from 1 l n s in (λ h u. ground (arith, w.1), λ h. ground (arith, h l, w.0))

IsDisjoint-single_right :
    (l : ℕ) (n : List ℕ) → IsSortedFrom 1 n → (not (has n l) ≡ true) ↔ IsDisjoint n (l ∷ [])
IsDisjoint-single_right l n s =
    let w = has_from 1 l n s in (λ h u. ground (arith, w.1), λ h. ground (arith, h l, w.0))

u32_injective :
    (i j : ℕ) → i < 2 ^ 31 → j < 2 ^ 31 → Pair.to_u32 (negsuc i) ≡ Pair.to_u32 (negsuc j) → i ≡ j
unfolding Pair.to_u32
u32_injective i j h k e = omega arith

-- What the test leaves: a verdict that is right, and valid tables.
abbrev pub Decides : LockSets → List ℕ → List ℕ → Option (LockSets × Bool) → Type 0
Decides s m n o =
    (s' : LockSets) × (v : Bool) × (o ≡ some (s', v))
    × IsValid s'
    × (s'.vec ≡ s.vec)
    × ((v ≡ true) ↔ IsDisjoint m n)

verdicts_after :
    (s : LockSets) (i j : ℕ) (m n : List ℕ)
    → IsValid s
    → i < 2 ^ 31
    → suc j < 2 ^ 31
    → get_elem? s.vec i ≡ some m
    → get_elem? s.vec j ≡ some n
    → IsValid (record s {
      int_cache =
          BoolCache.insert int_size s.int_cache
            (Pair.to_u32 (negsuc i))
            (suc j)
            (is_nil (set_intersection m n));
    })
verdicts_after s i j m n v hi hj em en = record {
  map_vec = v.map_vec;
  vec_map = v.vec_map;
  sized = v.sized;
  sums = v.sums;
  differences = v.differences;
  int_sized = unfold BoolCache.insert in rw length-set v.int_sized;
  verdicts = λ i' j' b hi' hj' e.
      elim ((BoolCache.lookup-insert int_size s.int_cache (Pair.to_u32 (negsuc i)) (suc j)
          (is_nil (set_intersection m n)) (Pair.to_u32 (negsuc i')) (suc j') b (omega arith)
          v.int_sized hj).1
        e) [
          | inl (p, q, r) ↦
              let i_eq : i' ≡ i = u32_injective i' i hi' hi p in
              let j_eq : j' ≡ j = omega arith in (m, n, rw i_eq em, rw j_eq en, r)
          | inr old ↦ v.verdicts i' j' b hi' hj' old
        ];
}

-- Both sets are tuples with different ids: the cache answers, or the slow path does.
intersect_cached-Decides :
    (s : LockSets) (i j : ℕ) (m n : List ℕ)
    → IsValid s
    → i < 2 ^ 31
    → suc j < 2 ^ 31
    → get_elem? s.vec i ≡ some m
    → get_elem? s.vec j ≡ some n
    → Decides s m n (
        intersect_cached s i j
          (BoolCache.lookup int_size s.int_cache (Pair.to_u32 (negsuc i)) (suc j)))
unfolding intersect_cached intersect_slow get
intersect_cached-Decides s i j m n v hi hj em en =
    let w = is_nil-set_intersection m n (v.vec_map i m em).1 (v.vec_map j n en).1 in
    elim (Option-cases (BoolCache.lookup int_size s.int_cache (Pair.to_u32 (negsuc i)) (suc j))) [
      | inl e ↦ (
        record s {
          int_cache =
              BoolCache.insert int_size s.int_cache (Pair.to_u32 (negsuc i)) (suc j)
                (is_nil (set_intersection m n));
        },
        is_nil (set_intersection m n),
        rw e (rw (em, intersect_slow) (rw (en, intersect_slow) refl)),
        verdicts_after s i j m n v hi hj em en,
        refl,
        w,
      )
      | inr (b, e) ↦
          let (m', n', em', en', q) = v.verdicts i j b hi hj e in
          let f : m' ≡ m = ground arith in
          let g : n' ≡ n = ground arith in
          let q' : b ≡ is_nil (set_intersection m n) = q ∙ (rw (f, g) refl) in
          (s, b, rw e refl, v, refl, rw q' w)
    ]

IsDisjoint-empty_left : (n : List ℕ) → IsDisjoint [] n
IsDisjoint-empty_left n u = omega arith

IsDisjoint-empty_right : (m : List ℕ) → IsDisjoint m []
IsDisjoint-empty_right m u = omega arith

not_disjoint_self : (m : List ℕ) → 1 ≤ length m → IsDisjoint m m → ⊥
not_disjoint_self [] l h = omega arith
not_disjoint_self (x ∷ m) l h = ground (arith, h x)

-- IntersectionIsEmpty on two known sets, with fewer than 2^31 interned sets, fails no CHECK,
-- answers true exactly when no lock is in both, by shortcut, cache or slow path, keeps the tables
-- valid and interns nothing.
pub intersection_is_empty-Decides :
    (s : LockSets) (a b : ℤ) (m n : List ℕ)
    → IsValid s
    → length s.vec < 2 ^ 31
    → contents s a ≡ some m
    → contents s b ≡ some n
    → Decides s m n (intersection_is_empty s a b)
unfolding intersection_is_empty lacks get
intersection_is_empty-Decides s (pos zero) b m n v l em en =
    let e : m ≡ [] = ground arith in
    (s, true, refl, v, refl, rw e (λ h. IsDisjoint-empty_left n, λ h. refl))
intersection_is_empty-Decides s (pos (suc x)) (pos zero) m n v l em en =
    let e : n ≡ [] = ground arith in
    (s, true, refl, v, refl, rw e (λ h. IsDisjoint-empty_right m, λ h. refl))
intersection_is_empty-Decides s (negsuc i) (pos zero) m n v l em en =
    let e : n ≡ [] = ground arith in
    (s, true, refl, v, refl, rw e (λ h. IsDisjoint-empty_right m, λ h. refl))
intersection_is_empty-Decides s (pos (suc x)) (pos (suc y)) m n v l em en =
    let e : m ≡ suc x ∷ [] = ground arith in
    let f : n ≡ suc y ∷ [] = ground arith in
    (
      s,
      not (suc x == suc y),
      refl,
      v,
      refl,
      rw (e, f) (λ h u. ground arith, λ h. ground (arith, h (suc x))),
    )
intersection_is_empty-Decides s (pos (suc x)) (negsuc j) m n v l em en =
    let e : m ≡ suc x ∷ [] = ground arith in
    (
      s,
      not (has n (suc x)),
      rw (en, lacks) refl,
      v,
      refl,
      rw e (IsDisjoint-single_left (suc x) n (v.vec_map j n en).1),
    )
intersection_is_empty-Decides s (negsuc i) (pos (suc y)) m n v l em en =
    let f : n ≡ suc y ∷ [] = ground arith in
    (
      s,
      not (has m (suc y)),
      rw (em, lacks) refl,
      v,
      refl,
      rw f (IsDisjoint-single_right (suc y) m (v.vec_map i m em).1),
    )
intersection_is_empty-Decides s (negsuc i) (negsuc j) m n v l em en = elim (Bool-cases (i == j)) [
  | inl e ↦
      let q : i ≡ j = (==_iff i j).0 e in
      let f : n ≡ m = ground (arith, ap (get_elem? s.vec) q) in
      let w = (v.vec_map i m em).2 in
      (
        s,
        false,
        rw e refl,
        v,
        refl,
        rw f (λ h. absurd (cc), λ h. absurd (not_disjoint_self m (omega arith) h)),
      )
  | inr e ↦ rw e (
      intersect_cached-Decides s i j m n v (omega (arith, get_elem?_lt s.vec i m em))
        (omega (arith, get_elem?_lt s.vec j n en)) em en)
]
