-- ===== src/LockSets/Intern.antt =====
-- LockSet::ComputeId, tsan/thread_sanitizer.cc: the id of a set.
use data_race_test.Prelude.{
  ℕ, zero, suc, ◌+◌, ◌-◌, ◌≤◌, ◌≡◌, ◌⊎◌, inl, inr, refl, ap, List, [], ◌∷◌, ◌++◌, none, some,
  length, get_elem?, arith, Bool-cases, Option-cases, ℤ, pos, negsuc, length-append,
  get_elem?-append_left, get_elem?-append_last,
}
use data_race_test.Multimap.{IsSortedFrom}
use data_race_test.Caches.PairLaws.{IsCoherent-mono}
use data_race_test.LockSets.{LockSets, ls_params, same_key, find, intern, compute_id}
use data_race_test.LockSets.Contents.{contents, IsSum, IsDifference, IsValid, Extends, same_key_iff}

-- The outcome of an operation that may intern a new set: the id stands for the set `m`, and every
-- old id for what it stood for.
pub record IsInterned (s : LockSets) (m : List ℕ) (s' : LockSets) (r : ℤ) : Type 0 where
  pub valid : IsValid s'
  pub meaning : contents s' r ≡ some m
  pub extends : Extends s s'

-- The vector after a new set.
module _ (s : LockSets) (set : List ℕ) (v : IsValid s) where
  grown : LockSets
  unfolding intern
  grown = (intern s set none).0

  grown-Extends : Extends s grown
  unfolding grown intern
  grown-Extends (pos n) m h = h
  grown-Extends (negsuc i) m h = get_elem?-append_left s.vec (set ∷ []) i m h

  grown_vec :
      (i : ℕ) (k : List ℕ)
      → get_elem? grown.vec i ≡ some k
      → (get_elem? s.vec i ≡ some k) ⊎ ((i ≡ length s.vec) × (k ≡ set))
  unfolding grown intern
  grown_vec i k h = append_cases s.vec set i k h
    where
      append_cases :
          (xs : List (List ℕ)) (x : List ℕ) (i : ℕ) (k : List ℕ)
          → get_elem? (xs ++ x ∷ []) i ≡ some k
          → (get_elem? xs i ≡ some k) ⊎ ((i ≡ length xs) × (k ≡ x))
      append_cases [] x zero k h = inr (refl, ground arith)
      append_cases [] x (suc i) k h = absurd (cc)
      append_cases (y ∷ xs) x zero k h = inl h
      append_cases (y ∷ xs) x (suc i) k h = elim (append_cases xs x i k h) [
        | inl e ↦ inl e
        | inr (e, q) ↦ inr (ap suc e, q)
      ]

  grown-IsValid : find set s.map ≡ none → IsSortedFrom 1 set → 2 ≤ length set → IsValid grown
  unfolding grown intern find
  grown-IsValid n o l = record {
    map_vec = λ k id h. elim (Bool-cases (same_key k set)) [
      | inl e ↦
          let q = (same_key_iff k set).0 e in
          let h' : some (length s.map + 1) ≡ some id = rw e at h in
          let t : id - 1 ≡ length s.vec = ground (arith, v.sized) in
          (ground arith, rw (t, q) (get_elem?-append_last s.vec set))
      | inr e ↦
          let w = v.map_vec k id (rw e at h) in
          (w.0, get_elem?-append_left s.vec (set ∷ []) (id - 1) k w.1)
    ];
    vec_map = λ i k h. elim (grown_vec i k h) [
      | inl e ↦ elim (Bool-cases (same_key k set)) [
        | inl f ↦
            let w : find set s.map ≡ some (suc i) =
              rw ((same_key_iff k set).0 f) at (v.vec_map i k e).0 in
            absurd (cc)
        | inr f ↦ let w = v.vec_map i k e in (rw f w.0, w.1, w.2)
      ]
      | inr (e, q) ↦
          (rw (q, (same_key_iff set set).1 refl) (ap some (omega (arith, v.sized))), rw q o, rw q l)
    ];
    sized = rw length-append (omega (arith, v.sized));
    sums =
        IsCoherent-mono (IsSum s) (IsSum grown) ls_params s.add_cache
          (λ a b r w. (w.0, grown-Extends a w.0 w.1, grown-Extends r _ w.2)) v.sums;
    differences =
        IsCoherent-mono (IsDifference s) (IsDifference grown) ls_params s.rem_cache
          (λ a b r w. (w.0, w.1, grown-Extends a w.0 w.2, w.3, w.4, grown-Extends r w.1 w.5))
          v.differences;
    int_sized = v.int_sized;
    verdicts = λ i j b h k e.
        let w = v.verdicts i j b h k e in
        (w.0, w.1, grown-Extends (negsuc i) w.0 w.2, grown-Extends (negsuc j) w.1 w.3, w.4);
  }

  grown_meaning : contents grown (negsuc (length s.map + 1 - 1)) ≡ some set
  unfolding grown intern
  grown_meaning =
      let t : length s.map + 1 - 1 ≡ length s.vec = omega (arith, v.sized) in
      rw t (get_elem?-append_last s.vec set)

-- ComputeId of a set that is not empty: no CHECK fails, and the id stands for the set.
pub compute_id-IsInterned :
    (s : LockSets) (set : List ℕ)
    → IsValid s
    → IsSortedFrom 1 set
    → 1 ≤ length set
    → (s' : LockSets) × (r : ℤ) × (compute_id s set ≡ some (s', r)) × IsInterned s set s' r
unfolding compute_id intern
compute_id-IsInterned s [] v o l = absurd (omega arith)
compute_id-IsInterned s (x ∷ []) v o l =
    (s, pos x, refl, record { valid = v; meaning = ground arith; extends = λ a m h. h })
compute_id-IsInterned s (x ∷ y ∷ ys) v o l = elim (Option-cases (find (x ∷ y ∷ ys) s.map)) [
  | inl n ↦ (
    grown s (x ∷ y ∷ ys) v,
    negsuc (length s.map + 1 - 1),
    unfold grown in rw n refl,
    record {
      valid = grown-IsValid s _ v n o (omega arith);
      meaning = grown_meaning s _ v;
      extends = grown-Extends s _ v;
    },
  )
  | inr (id, f) ↦ (
    s,
    negsuc (id - 1),
    rw f refl,
    record { valid = v; meaning = (v.map_vec (x ∷ y ∷ ys) id f).1; extends = λ a m h. h },
  )
]
