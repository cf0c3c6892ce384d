-- ===== src/Wildcards/Shortcuts.antt =====
-- ThreadSanitizerStringMatch, tsan/common_util.cc, with its two short cuts on the last byte.
use data_race_test.Prelude.{
  ℕ, ◌<◌, ◌≡◌, ◌≢◌, ◌⊎◌, ◌↔◌, inl, inr, refl, Bool, true, false, not, ◌&&◌, Option, some, [], ◌∷◌,
  ◌==◌, ==_iff, length, arith, Bool-cases, All,
}
use data_race_test.Wildcards.{
  Text, star, any_char, c_str, run_match, last_char, check_last, match_from_last, string_match,
}
use data_race_test.Wildcards.Matches.{
  Matches, ends, star_ends, star_takes, char, nothing_left, end_inv, star_all,
}
use data_race_test.Wildcards.Decision.{run_match-Decides}

-- A string without the byte 0.
abbrev pub NoZero : Text → Type 0
NoZero s = All (λ c. 0 < c) s

pub c_str-NoZero : (s : Text) → NoZero s → c_str s ≡ s
unfolding c_str
c_str-NoZero [] h = refl
c_str-NoZero (c ∷ s) h = ground (arith, c_str-NoZero s h.1, h.0)

last_some : (c : ℕ) (s : Text) → (a : ℕ) × (last_char (c ∷ s) ≡ some a)
unfolding last_char
last_some c [] = (c, refl)
last_some c (d ∷ s) = last_some d s

-- What matches the empty text is nothing or ends with a star.
last_star : (a : ℕ) (p : Text) → Matches p [] → last_char p ≡ some a → a ≡ star
unfolding last_char
last_star a [] h e = absurd (cc)
last_star a (c ∷ []) h e = cc ((end_inv h).0)
last_star a (c ∷ d ∷ p) h e = last_star a (d ∷ p) (end_inv h).1 e

last_agrees :
    {p t : Text} (a b : ℕ)
    → Matches p t
    → a ≢ star
    → a ≢ any_char
    → last_char p ≡ some a
    → last_char t ≡ some b
    → a ≡ b
unfolding last_char
last_agrees a b ends n m e f = absurd (cc)
last_agrees {p = c ∷ []} a b (star_ends k h) n m e f = absurd (n (cc))
last_agrees {p = c ∷ x ∷ p} a b (star_ends k h) n m e f = last_agrees a b h n m e f
last_agrees {p = p} {t = d ∷ []} a b (star_takes k h) n m e f = absurd (n (last_star a p h e))
last_agrees {p = p} {t = d ∷ x ∷ t} a b (star_takes k h) n m e f = last_agrees a b h n m e f
last_agrees {p = c ∷ []} {t = d ∷ []} a b (char k (inl i) h) n m e f = cc
last_agrees {p = c ∷ []} {t = d ∷ []} a b (char k (inr i) h) n m e f = absurd (m (cc))
last_agrees {p = c ∷ []} {t = d ∷ x ∷ t} a b (char k i h) n m e f = absurd (nothing_left h)
last_agrees {p = c ∷ x ∷ p} {t = d ∷ []} a b (char k i h) n m e f =
    absurd (n (last_star a (x ∷ p) h e))
last_agrees {p = c ∷ x ∷ p} {t = d ∷ y ∷ t} a b (char k i h) n m e f = last_agrees a b h n m e f

-- The calls that read no byte outside the strings.
abbrev pub InRange : Text → Text → Type 0
InRange w t =
    (0 < length w) × ((0 < length t) ⊎ ((last_char w ≡ some star) ⊎ (last_char w ≡ some any_char)))

abbrev Decides : Text → Text → Option Bool → Type 0
Decides w t o = (b : Bool) × (o ≡ some b) × ((b ≡ true) ↔ Matches w t)

run-Decides : (w t : Text) → NoZero w → NoZero t → Decides w t (run_match (c_str w) (c_str t))
run-Decides w t h k = rw (c_str-NoZero w h, c_str-NoZero t k) (run_match-Decides w t)

only_star : (w : Text) → length w ≡ 1 → last_char w ≡ some star → w ≡ star ∷ []
unfolding last_char
only_star [] h e = absurd (cc)
only_star (c ∷ []) h e = cc
only_star (c ∷ d ∷ w) h e = absurd (omega arith)

shortcut-Decides :
    (w t : Text) (a : ℕ)
    → last_char w ≡ some a
    → a ≢ star
    → a ≢ any_char
    → NoZero w
    → NoZero t
    → 0 < length t
    → Decides w t (check_last a (last_char t) (run_match (c_str w) (c_str t)))
unfolding check_last
shortcut-Decides w [] a e n m h k r = absurd (omega arith)
shortcut-Decides w (d ∷ t) a e n m h k r =
    let f = last_some d t in
    elim (Bool-cases (a == f.0)) [
      | inl q ↦ rw (f.1, check_last, q) (run-Decides w (d ∷ t) h k)
      | inr q ↦
          rw (f.1, check_last, q)
            (
              false,
              refl,
              (
                (λ z. absurd (cc)),
                λ z. absurd (cc ((==_iff a f.0).1 (last_agrees a f.0 z n m e f.1))),
              ),
            )
    ]

by_last-Decides :
    (w t : Text) (a : ℕ)
    → last_char w ≡ some a
    → NoZero w
    → NoZero t
    → InRange w t
    → Decides w t (match_from_last (some a) w t)
unfolding match_from_last
by_last-Decides w t a e h k r = elim (Bool-cases ((a == star) && (length w == 1))) [
  | inl q ↦
      let p = only_star w (ground arith) (ground arith) in
      rw (match_from_last, q) (true, refl, ((λ z. rw p (star_all t)), λ z. refl))
  | inr q ↦ elim (Bool-cases (not (a == star) && not (a == any_char))) [
    | inr b ↦ rw (match_from_last, q, b) (run-Decides w t h k)
    | inl b ↦
        let n : a ≢ star = ground arith in
        let m : a ≢ any_char = ground arith in
        rw (match_from_last, q, b) (shortcut-Decides w t a e n m h k (ground arith))
  ]
]

-- ThreadSanitizerStringMatch on strings without the byte 0, a wildcard that is not empty, and a
-- text that is not empty or a wildcard that ends with * or ?, returns, and answers true exactly if
-- the wildcard matches the text.
pub string_match-Decides :
    (w t : Text)
    → NoZero w
    → NoZero t
    → InRange w t
    → (b : Bool) × (string_match w t ≡ some b) × ((b ≡ true) ↔ Matches w t)
unfolding string_match
string_match-Decides [] t h k r = absurd (omega arith)
string_match-Decides (c ∷ s) t h k r =
    let f = last_some c s in rw (string_match, f.1) (by_last-Decides (c ∷ s) t f.0 f.1 h k r)
