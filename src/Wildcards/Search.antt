-- ===== src/Wildcards/Search.antt =====
-- One round of the loop of ThreadSanitizerStringMatch, tsan/common_util.cc, and the question it answers.
use data_race_test.Prelude.{
  ℕ, ◌≡◌, ◌≢◌, ◌⊎◌, ◌↔◌, inl, inr, refl, true, ◌||◌, Option, none, some, [], ◌∷◌, ◌==◌, ==_iff,
  arith, Bool-cases,
}
use data_race_test.Wildcards.{
  Text, star, any_char, Round, result, again, skip_stars, after_stars, tail, roll_back,
  compare_char, round,
}
use data_race_test.Wildcards.Matches.{
  Matches, star_ends, star_takes, char, nothing_left, char_inv, end_inv, star_inv, collapse,
  star-skip_stars, star-unskip_stars, after_char, star_all, ends-skip_stars,
}

-- What is left to try from the last star on.
abbrev pub Later : Option (Text × Text) → Type 0
Later none = ⊥
Later (some (p, t)) = Matches (star ∷ p) t

-- The two pointers answer `Q`, by a match from here or by a later start after the last star; and
-- a later start is also one from a star here.
abbrev pub Covers : Text → Text → Option (Text × Text) → Type 0
Covers t p none = Unit
Covers t p (some (q, u)) = Matches (star ∷ q) u → Matches (star ∷ p) t

pub record Answers (Q : Type 0) (t p : Text) (last : Option (Text × Text)) : Type 0 where
  pub sound : Matches p t ⊎ Later last → Q
  pub complete : Q → Matches p t ⊎ Later last
  pub covers : Covers t p last

-- The outcome of a round that keeps the question `Q`.
abbrev pub Answered : Type 0 → Round → Type 0
Answered Q (result b) = (b ≡ true) ↔ Q
Answered Q (again s) = Answers Q s.text s.wildcard s.last

after_stars-Answered :
    (Q : Type 0) (t p : Text) → Q ↔ Matches (star ∷ p) t → Answered Q (after_stars t p)
unfolding after_stars
after_stars-Answered Q t [] h = ((λ e. h.1 (star_all t)), λ q. refl)
after_stars-Answered Q t (c ∷ p) h = record {
  sound = λ m. elim m [ inl a ↦ h.1 (star_ends refl a) | inr a ↦ h.1 a ];
  complete = λ q. inr (h.0 q);
  covers = λ m. m;
}

-- From the last star on, the match starts here or later.
later_start : (p t : Text) → Matches (star ∷ p) t → Matches p t ⊎ Matches (star ∷ p) (tail t)
later_start p [] h = inl (end_inv h).1
later_start p (d ∷ t) h = star_inv refl h

start_later : (p t : Text) → Matches p t ⊎ Matches (star ∷ p) (tail t) → Matches (star ∷ p) t
start_later p [] (inl h) = star_ends refl h
start_later p [] (inr h) = h
start_later p (d ∷ t) (inl h) = star_ends refl h
start_later p (d ∷ t) (inr h) = star_takes refl h

roll_back-Answered :
    (Q : Type 0) (t p : Text) (last : Option (Text × Text))
    → ¬ Matches p t
    → Answers Q t p last
    → Answered Q (roll_back last)
unfolding roll_back
roll_back-Answered Q t p none n h =
    ((λ e. absurd (cc)), λ q. absurd (elim (h.complete q) [ inl m ↦ n m | inr m ↦ m ]))
roll_back-Answered Q t p (some (q, u)) n h = record {
  sound = λ m. h.sound (inr (start_later q u m));
  complete = λ a. elim (h.complete a) [ inl m ↦ absurd (n m) | inr m ↦ later_start q u m ];
  covers = λ m. start_later q u (inr m);
}

char-Covers :
    (c d : ℕ) (t p : Text) (last : Option (Text × Text))
    → c ≢ star
    → Covers (d ∷ t) (c ∷ p) last
    → Covers t p last
char-Covers c d t p none n h = tt
char-Covers c d t p (some (q, u)) n h = λ m. after_char n (h m)

Later-here :
    (t p : Text) (last : Option (Text × Text)) → Covers t p last → Later last → Matches (star ∷ p) t
Later-here t p none h l = absurd l
Later-here t p (some (q, u)) h l = h l

accepted-or : (c d : ℕ) → ((d == c) || (c == any_char) ≡ true) ↔ ((d ≡ c) ⊎ (c ≡ any_char))
accepted-or c d = ground arith

star-Question :
    (Q : Type 0) (c : ℕ) (t p : Text) (last : Option (Text × Text))
    → c ≡ star
    → Answers Q t (c ∷ p) last
    → Q ↔ Matches (star ∷ skip_stars p) t
star-Question Q c t p last e h = (
  (λ q. star-skip_stars p t (elim (h.complete q) [
    | inl m ↦ rw e at m
    | inr l ↦ rw e at (collapse refl e (Later-here t (c ∷ p) last h.covers l))
  ])),
  λ m. h.sound (inl (rw e (star-unskip_stars p t m))),
)

compare_char-Answered :
    (Q : Type 0) (d : ℕ) (t p : Text) (last : Option (Text × Text))
    → Answers Q (d ∷ t) p last
    → Answered Q (compare_char d t p last)
unfolding compare_char
compare_char-Answered Q d t [] last h = roll_back-Answered Q (d ∷ t) [] last nothing_left h
compare_char-Answered Q d t (c ∷ p) last h = elim (Bool-cases (c == star)) [
  | inl b ↦
      rw (compare_char, b)
        (after_stars-Answered Q (d ∷ t) (skip_stars p)
          (star-Question Q c (d ∷ t) p last ((==_iff c star).0 b) h))
  | inr b ↦
      let n : c ≢ star = λ e. cc ((==_iff c star).1 e) in
      elim (Bool-cases ((d == c) || (c == any_char))) [
        | inl a ↦
            rw (compare_char, b, a)
              (record {
                sound = λ m. elim m [
                  | inl k ↦ h.sound (inl (char n ((accepted-or c d).0 a) k))
                  | inr l ↦ h.sound (inr l)
                ];
                complete =
                    λ q. elim (h.complete q) [ inl k ↦ inl (char_inv n k).1 | inr l ↦ inr l ];
                covers = char-Covers c d t p last n h.covers;
              })
        | inr a ↦
            rw (compare_char, b, a)
              (roll_back-Answered Q (d ∷ t) (c ∷ p) last
                (λ m. cc ((accepted-or c d).1 (char_inv n m).0)) h)
      ]
]

pub round-Answered :
    (Q : Type 0) (t p : Text) (last : Option (Text × Text))
    → Answers Q t p last
    → Answered Q (round t p last)
unfolding round
round-Answered Q [] p last h = (
  (λ e. h.sound (inl ((ends-skip_stars p).0 e))),
  λ q.
      (ends-skip_stars p).1
        (elim (h.complete q) [ inl m ↦ m | inr l ↦ (end_inv (Later-here [] p last h.covers l)).1 ]),
)
round-Answered Q (d ∷ t) p last h = compare_char-Answered Q d t p last h
