-- ===== src/Wildcards/Decision.antt =====
-- The loop of ThreadSanitizerStringMatch, tsan/common_util.cc, from its first round to its last.
use data_race_test.Prelude.{
  ℕ, zero, suc, ◌+◌, ◌*◌, ◌<◌, ◌≤◌, ◌≡◌, ◌↔◌, inl, inr, refl, Bool, true, ◌||◌, Option, none, some,
  [], ◌∷◌, ◌==◌, length, arith, Bool-cases,
}
use data_race_test.Wildcards.{
  Text, star, any_char, Position, Round, result, again, skip_stars, after_stars, roll_back,
  compare_char, round, match_loop, rounds, run_match,
}
use data_race_test.Wildcards.Matches.{Matches}
use data_race_test.Wildcards.Search.{Answers, Answered, round-Answered}

-- How far the loop is from its end: `w` bytes of the wildcard stand after the last star, or in the
-- whole wildcard where there was none, `l` bytes of the text after the last start, `t` from here.
abbrev weight : ℕ → ℕ → ℕ → ℕ → ℕ
weight n w l t = (w * (n * suc n + suc n) + l * suc n) + t

abbrev Kept : ℕ → ℕ → Option (Text × Text) → Type 0
Kept w l none = Unit
Kept w l (some (q, u)) = (length q ≤ w) × (length u ≤ l)

-- A later start is shorter than the text, and the wildcard from here shorter than that after the
-- last star.
record Fits (n w l : ℕ) (t p : Text) (last : Option (Text × Text)) : Type 0 where
  text : length t ≤ n
  wildcard : length p ≤ w
  start : l ≤ n
  kept : Kept w l last

abbrev Fitting : ℕ → ℕ → Round → Type 0
Fitting n f (result b) = Unit
Fitting n f (again s) =
    (w : ℕ) × (l : ℕ) × Fits n w l s.text s.wildcard s.last × (weight n w l (length s.text) < f)

mul_mono : (a b k : ℕ) → suc a ≤ b → a * k + k ≤ b * k
mul_mono a zero k h = omega arith
mul_mono zero (suc b) k h = omega arith
mul_mono (suc a) (suc b) k h = omega (arith, mul_mono a b k (omega arith))

mul_le : (a b k : ℕ) → a ≤ b → a * k ≤ b * k
mul_le zero b k h = omega arith
mul_le (suc a) zero k h = omega arith
mul_le (suc a) (suc b) k h = omega (arith, mul_le a b k (omega arith))

weight_star : (n w v l m t : ℕ) → suc v ≤ w → m ≤ n → weight n v m t < weight n w l t
weight_star n w v l m t h k =
    omega (arith, mul_mono v w (n * suc n + suc n) h, mul_le m n (suc n) k)

weight_back : (n w l m t u : ℕ) → suc m ≤ l → u ≤ n → weight n w m u < weight n w l t
weight_back n w l m t u h k = omega (arith, mul_mono m l (suc n) h)

length-skip_stars : (p : Text) → length (skip_stars p) ≤ length p
unfolding skip_stars
length-skip_stars [] = omega arith
length-skip_stars (c ∷ p) = elim (Bool-cases (c == star)) [
  | inl b ↦ rw (skip_stars, b) (omega (arith, length-skip_stars p))
  | inr b ↦ rw (skip_stars, b) (omega arith)
]

after_stars-Fitting :
    (n w l d : ℕ) (t p : Text)
    → suc (length t) ≤ n
    → suc (length p) ≤ w
    → l ≤ n
    → Fitting n (weight n w l (suc (length t))) (after_stars (d ∷ t) p)
unfolding after_stars
after_stars-Fitting n w l d t [] h k m = tt
after_stars-Fitting n w l d t (c ∷ p) h k m = (
  length (c ∷ p),
  suc (length t),
  record { text = h; wildcard = omega arith; start = h; kept = omega arith },
  weight_star n w (length (c ∷ p)) l (suc (length t)) (suc (length t)) k h,
)

roll_back-Fitting :
    (n w l d : ℕ) (t p : Text) (last : Option (Text × Text))
    → Fits n w l (d ∷ t) p last
    → Fitting n (weight n w l (suc (length t))) (roll_back last)
unfolding roll_back
roll_back-Fitting n w l d t p none h = tt
roll_back-Fitting n w l d t p (some (q, [])) h = (
  w,
  l,
  record {
    text = omega arith;
    wildcard = h.kept.0;
    start = h.start;
    kept = (h.kept.0, omega arith);
  },
  omega arith,
)
roll_back-Fitting n w l d t p (some (q, x ∷ u)) h =
    let f = h.kept in
    (
      w,
      length u,
      record {
        text = omega (arith, h.start, f.1);
        wildcard = f.0;
        start = omega (arith, h.start, f.1);
        kept = (f.0, omega arith);
      },
      weight_back n w l (length u) (suc (length t)) (suc (length u)) f.1
          (omega (arith, h.start, f.1)),
    )

round-Fitting :
    (n w l : ℕ) (t p : Text) (last : Option (Text × Text))
    → Fits n w l t p last
    → Fitting n (weight n w l (length t)) (round t p last)
unfolding round compare_char
round-Fitting n w l [] p last h = tt
round-Fitting n w l (d ∷ t) [] last h = roll_back-Fitting n w l d t [] last h
round-Fitting n w l (d ∷ t) (c ∷ p) last h = elim (Bool-cases (c == star)) [
  | inl b ↦
      rw (compare_char, b)
        (after_stars-Fitting n w l d t (skip_stars p) h.text
          (omega (arith, length-skip_stars p, h.wildcard)) h.start)
  | inr b ↦ elim (Bool-cases ((d == c) || (c == any_char))) [
    | inl a ↦
        rw (compare_char, b, a)
          (
            w,
            l,
            record {
              text = omega (arith, h.text);
              wildcard = omega (arith, h.wildcard);
              start = h.start;
              kept = h.kept;
            },
            omega arith,
          )
    | inr a ↦ rw (compare_char, b, a) (roll_back-Fitting n w l d t (c ∷ p) last h)
  ]
]

match_loop-Decides :
    (Q : Type 0) (f n w l : ℕ) (s : Position)
    → Answers Q s.text s.wildcard s.last
    → Fits n w l s.text s.wildcard s.last
    → weight n w l (length s.text) < f
    → (b : Bool) × (match_loop f s ≡ some b) × ((b ≡ true) ↔ Q)
unfolding match_loop
match_loop-Decides Q zero n w l s a k h = absurd (omega arith)
match_loop-Decides Q (suc f) n w l s a k h =
    next (round s.text s.wildcard s.last) refl (round-Answered Q s.text s.wildcard s.last a)
      (round-Fitting n w l s.text s.wildcard s.last k) (match_loop-Decides Q f n)
  where
    next :
        (r : Round)
        → round s.text s.wildcard s.last ≡ r
        → Answered Q r
        → Fitting n (weight n w l (length s.text)) r
        → ((v m : ℕ) (s' : Position)
            → Answers Q s'.text s'.wildcard s'.last
            → Fits n v m s'.text s'.wildcard s'.last
            → weight n v m (length s'.text) < f
            → (b : Bool) × (match_loop f s' ≡ some b) × ((b ≡ true) ↔ Q))
        → (b : Bool) × (match_loop (suc f) s ≡ some b) × ((b ≡ true) ↔ Q)
    next (result b) e q x rec = (b, rw (match_loop, e) refl, q)
    next (again s') e q x rec =
        let o = rec x.0 x.1 s' q x.2 (omega (arith, x.3)) in (o.0, rw (match_loop, e) o.1, o.2)

pub run_match-Decides :
    (w t : Text) → (b : Bool) × (run_match w t ≡ some b) × ((b ≡ true) ↔ Matches w t)
unfolding run_match rounds
run_match-Decides w t =
    match_loop-Decides (Matches w t) (rounds (length w) (length t)) (length t) (length w) (length t)
      (record { text = t; wildcard = w; last = none })
      (record {
        sound = λ m. elim m [ inl a ↦ a | inr a ↦ absurd a ];
        complete = λ q. inl q;
        covers = tt;
      })
      (record { text = omega arith; wildcard = omega arith; start = omega arith; kept = tt })
      (omega arith)
