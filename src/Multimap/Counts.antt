-- ===== src/Multimap/Counts.antt =====
-- The operations of DenseMultimap against multiplicities.
use data_race_test.Prelude.{
  ℕ, ◌+◌, ◌≤◌, ◌<◌, ◌≡◌, ◌↔◌, inl, inr, refl, ap, ◌∙◌, true, List, [], ◌∷◌, some, if◌then◌else◌,
  ltb, length, arith, Bool-cases,
}
use data_race_test.Multimap.{lower_bound, add, remove, has, IsSortedFrom, IsSorted, count}

pub IsSortedFrom-mono :
    (lo hi : ℕ) (xs : List ℕ) → lo ≤ hi → IsSortedFrom hi xs → IsSortedFrom lo xs
IsSortedFrom-mono lo hi [] h s = tt
IsSortedFrom-mono lo hi (x ∷ xs) h s = (omega arith, s.1)

pub count_below : (t lo : ℕ) (xs : List ℕ) → t < lo → IsSortedFrom lo xs → count t xs ≡ 0
count_below t lo [] h s = refl
count_below t lo (x ∷ xs) h s = ground (arith, count_below t x xs)

-- The defining equations of insertion in a sorted list.
pub add-nil : (t : ℕ) → add [] t ≡ t ∷ []
unfolding add lower_bound
add-nil t = refl

pub add-cons :
    (x t : ℕ) (xs : List ℕ) → add (x ∷ xs) t ≡ (if ltb x t then x ∷ add xs t else t ∷ x ∷ xs)
unfolding add lower_bound
add-cons x t xs = ground arith

count-add_any : (u t : ℕ) (xs : List ℕ) → count u (add xs t) ≡ count u xs + count u (t ∷ [])
count-add_any u t [] = rw add-nil (omega arith)
count-add_any u t (x ∷ xs) = rw add-cons (ground (arith, count-add_any u t xs))

pub add-IsSortedFrom :
    (lo t : ℕ) (xs : List ℕ) → lo ≤ t → IsSortedFrom lo xs → IsSortedFrom lo (add xs t)
add-IsSortedFrom lo t [] h s = rw add-nil (omega arith, tt)
add-IsSortedFrom lo t (x ∷ xs) h s = rw add-cons (ground (arith, add-IsSortedFrom x t xs))

pub length-add : (t : ℕ) (xs : List ℕ) → length (add xs t) ≡ length xs + 1
length-add t [] = rw add-nil (omega arith)
length-add t (x ∷ xs) = rw add-cons (ground (arith, length-add t xs))

-- The copy of a sorted DenseMultimap with one element more is sorted, one longer, and only that
-- element's multiplicity grows, by one.
pub add_lem :
    (xs : List ℕ) (t : ℕ)
    → IsSorted xs
    → IsSorted (add xs t)
      × (length (add xs t) ≡ length xs + 1)
      × ((u : ℕ) → count u (add xs t) ≡ count u xs + count u (t ∷ []))
add_lem xs t s =
    (add-IsSortedFrom 0 t xs (omega arith) s, length-add t xs, λ u. count-add_any u t xs)

pub has_from : (lo t : ℕ) (xs : List ℕ) → IsSortedFrom lo xs → (has xs t ≡ true) ↔ (0 < count t xs)
unfolding has lower_bound
has_from lo t [] s = (λ h. absurd (ground arith), λ h. absurd (omega arith))
has_from lo t (x ∷ xs) s = ground (arith, has_from x t xs, count_below t x xs)

-- DenseMultimap::has decides membership in a sorted array.
pub has_iff : (xs : List ℕ) (t : ℕ) → IsSorted xs → (has xs t ≡ true) ↔ (0 < count t xs)
has_iff xs t s = has_from 0 t xs s

pub remove_low : (x t : ℕ) (xs : List ℕ) → t ≤ x → remove (x ∷ xs) t ≡ some xs
unfolding remove lower_bound
remove_low x t xs h = ground arith

remove_high :
    (x t : ℕ) (xs ys : List ℕ) → x < t → remove xs t ≡ some ys → remove (x ∷ xs) t ≡ some (x ∷ ys)
unfolding remove lower_bound
remove_high x t xs ys h e = ground arith

-- What `remove` gives for an element that is there, as a relation between the two arrays.
pub record IsRemoval (lo t : ℕ) (xs ys : List ℕ) : Type 0 where
  pub removed : remove xs t ≡ some ys
  pub sorted : IsSortedFrom lo ys
  pub shorter : length xs ≡ length ys + 1
  pub counts : (u : ℕ) → count u xs ≡ count u ys + count u (t ∷ [])

pub remove_from :
    (lo t : ℕ) (xs : List ℕ)
    → IsSortedFrom lo xs
    → 0 < count t xs
    → (ys : List ℕ) × IsRemoval lo t xs ys
remove_from lo t [] s h = absurd (omega arith)
remove_from lo t (x ∷ xs) s h = elim (Bool-cases (ltb x t)) [
  | inl l ↦
      let (ys, r) = remove_from x t xs s.1 (ground arith) in
      (
        x ∷ ys,
        record {
          removed = remove_high x t xs ys (ground arith) r.removed;
          sorted = (s.0, r.sorted);
          shorter = omega (arith, r.shorter);
          counts = λ u. omega (arith, r.counts u);
        },
      )
  | inr l ↦
      let e : x ≡ t = ground (arith, count_below t x xs) in
      (
        xs,
        record {
          removed = remove_low x t xs (omega arith);
          sorted = IsSortedFrom-mono lo x xs s.0 s.1;
          shorter = omega arith;
          counts = λ u. rw e (omega arith);
        },
      )
]

-- The copy of a sorted DenseMultimap without an element that it has passes the CHECK, is sorted and
-- one shorter, and only that element's multiplicity falls, by one.
remove_lem :
    (xs : List ℕ) (t : ℕ) → IsSorted xs → has xs t ≡ true → (ys : List ℕ) × IsRemoval 0 t xs ys
remove_lem xs t s h = remove_from 0 t xs s ((has_iff xs t s).0 h)

-- Two sorted arrays with the same multiplicities are the same array.
pub sorted_ext :
    (lo : ℕ) (xs ys : List ℕ)
    → IsSortedFrom lo xs
    → IsSortedFrom lo ys
    → ((u : ℕ) → count u xs ≡ count u ys)
    → xs ≡ ys
sorted_ext lo [] [] s r h = refl
sorted_ext lo [] (y ∷ ys) s r h = absurd (ground (arith, h y))
sorted_ext lo (x ∷ xs) [] s r h = absurd (ground (arith, h x))
sorted_ext lo (x ∷ xs) (y ∷ ys) s r h =
    let e : x ≡ y = ground (arith, h x, h y, count_below x y ys, count_below y x xs) in
    let rest : xs ≡ ys = sorted_ext x xs ys s.1 (rw e r.1) (λ u. ground (arith, h u)) in cc

-- Insertions into a sorted DenseMultimap commute, and removing an element just inserted gives the
-- old array.
pub add_laws :
    (xs : List ℕ) (t u : ℕ)
    → IsSorted xs
    → (add (add xs t) u ≡ add (add xs u) t) × (remove (add xs t) t ≡ some xs)
add_laws xs t u s =
    let at = add_lem xs t s in
    let au = add_lem xs u s in
    let atu = add_lem (add xs t) u at.0 in
    let aut = add_lem (add xs u) t au.0 in
    let (ys, r) =
      remove_lem (add xs t) t at.0 ((has_iff (add xs t) t at.0).1 (ground (arith, at.2 t))) in
    let e : ys ≡ xs = sorted_ext 0 ys xs r.sorted s (λ w. omega (arith, at.2 w, r.counts w)) in
    (
      sorted_ext 0 _ _ atu.0 aut.0 (λ w. omega (arith, atu.2 w, aut.2 w, at.2 w, au.2 w)),
      r.removed ∙ ap some e,
    )
