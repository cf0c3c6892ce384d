-- ===== src/Multimap/Compare.antt =====
-- operator< of DenseMultimap, the order of the keys of LockSet's map, and Validate.
use data_race_test.Prelude.{ℕ, ◌≡◌, ◌↔◌, refl, true, false, List, [], ◌∷◌, length, arith}
use data_race_test.Multimap.{doubleton, less_loop, less, validate, IsSortedFrom, IsSorted}

less_loop_irrefl : (xs : List ℕ) → less_loop xs xs ≡ false
unfolding less_loop
less_loop_irrefl [] = refl
less_loop_irrefl (x ∷ xs) = ground (arith, less_loop_irrefl xs)

less_loop_total :
    (xs ys : List ℕ)
    → length xs ≡ length ys
    → less_loop xs ys ≡ false
    → less_loop ys xs ≡ false
    → xs ≡ ys
unfolding less_loop
less_loop_total [] [] l h k = refl
less_loop_total [] (y ∷ ys) l h k = absurd (omega arith)
less_loop_total (x ∷ xs) [] l h k = absurd (omega arith)
less_loop_total (x ∷ xs) (y ∷ ys) l h k = ground (arith, less_loop_total xs ys)

less_loop_trans :
    (xs ys zs : List ℕ)
    → length xs ≡ length ys
    → less_loop xs ys ≡ true
    → less_loop ys zs ≡ true
    → less_loop xs zs ≡ true
unfolding less_loop
less_loop_trans [] ys zs l h k = absurd (cc)
less_loop_trans (x ∷ xs) [] zs l h k = absurd (cc)
less_loop_trans (x ∷ xs) (y ∷ ys) [] l h k = absurd (cc)
less_loop_trans (x ∷ xs) (y ∷ ys) (z ∷ zs) l h k = ground (arith, less_loop_trans xs ys zs)

-- operator< of DenseMultimap is irreflexive and transitive, and two arrays neither of which is
-- below the other are equal.
pub less_order :
    (xs ys zs : List ℕ)
    → (less xs xs ≡ false)
      × (less xs ys ≡ true → less ys zs ≡ true → less xs zs ≡ true)
      × (less xs ys ≡ false → less ys xs ≡ false → xs ≡ ys)
unfolding less
less_order xs ys zs = (
  ground (arith, less_loop_irrefl xs),
  λ h k. ground (arith, less_loop_trans xs ys zs),
  λ h k. ground (arith, less_loop_total xs ys),
)

validate_from : (lo : ℕ) (xs : List ℕ) → IsSortedFrom lo xs → validate xs ≡ true
unfolding validate
validate_from lo [] s = refl
validate_from lo (x ∷ []) s = refl
validate_from lo (x ∷ y ∷ xs) s = ground (arith, validate_from x (y ∷ xs) s.1)

validate_sound : (x : ℕ) (xs : List ℕ) → validate (x ∷ xs) ≡ true → IsSortedFrom x (x ∷ xs)
unfolding validate
validate_sound x [] h = (omega arith, tt)
validate_sound x (y ∷ xs) h = ground (arith, validate_sound y xs)

validate_any : (xs : List ℕ) → validate xs ≡ true → IsSorted xs
validate_any [] h = tt
validate_any (x ∷ xs) h = let s = validate_sound x xs h in (omega arith, s.1)

-- The CHECK of DenseMultimap::Validate passes exactly on sorted arrays, and the two-element
-- constructor makes one.
validate_iff :
    (xs : List ℕ) (t u : ℕ) → ((validate xs ≡ true) ↔ IsSorted xs) × IsSorted (doubleton t u)
unfolding doubleton
validate_iff xs t u = ((validate_any xs, validate_from 0 xs), ground arith)
