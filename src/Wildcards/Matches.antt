-- ===== src/Wildcards/Matches.antt =====
-- What a wildcard means: '*' stands for any bytes, '?' for any one, any other byte for itself.
use data_race_test.Prelude.{
  ℕ, ◌≡◌, ◌≢◌, ◌⊎◌, ◌↔◌, inl, inr, refl, sym, true, [], ◌∷◌, ◌==◌, ==_iff, Bool-cases,
}
use data_race_test.Wildcards.{Text, star, any_char, skip_stars, ends_here}

pub data Matches : Text → Text → Type 0 where
  ends : Matches [] []
  star_ends : {c : ℕ} {p t : Text} → c ≡ star → Matches p t → Matches (c ∷ p) t
  star_takes : {c d : ℕ} {p t : Text} → c ≡ star → Matches (c ∷ p) t → Matches (c ∷ p) (d ∷ t)
  char :
      {c d : ℕ} {p t : Text}
      → c ≢ star
      → (d ≡ c) ⊎ (c ≡ any_char)
      → Matches p t
      → Matches (c ∷ p) (d ∷ t)

pub nothing_left : {d : ℕ} {t : Text} → Matches [] (d ∷ t) → ⊥
nothing_left h = elim h [ ]

pub char_inv :
    {c d : ℕ} {p t : Text}
    → c ≢ star
    → Matches (c ∷ p) (d ∷ t)
    → ((d ≡ c) ⊎ (c ≡ any_char)) × Matches p t
char_inv n (star_ends e h) = absurd (n e)
char_inv n (star_takes e h) = absurd (n e)
char_inv n (char m a h) = (a, h)

pub end_inv : {c : ℕ} {p : Text} → Matches (c ∷ p) [] → (c ≡ star) × Matches p []
end_inv (star_ends e h) = (e, h)

pub star_inv :
    {c d : ℕ} {p t : Text}
    → c ≡ star
    → Matches (c ∷ p) (d ∷ t)
    → Matches p (d ∷ t) ⊎ Matches (c ∷ p) t
star_inv e (star_ends f h) = inl h
star_inv e (star_takes f h) = inr h
star_inv e (char n a h) = absurd (n e)

-- Two stars in a row mean what one means.
pub collapse :
    {c e : ℕ} {p t : Text} → c ≡ star → e ≡ star → Matches (c ∷ e ∷ p) t → Matches (e ∷ p) t
collapse a b (star_ends f h) = h
collapse a b (star_takes f h) = star_takes b (collapse a b h)
collapse a b (char n f h) = absurd (n a)

pub star-skip_stars : (p t : Text) → Matches (star ∷ p) t → Matches (star ∷ skip_stars p) t
unfolding skip_stars
star-skip_stars [] t h = h
star-skip_stars (c ∷ p) t h = elim (Bool-cases (c == star)) [
  | inl b ↦
      let e : c ≡ star = (==_iff c star).0 b in
      rw (skip_stars, b) (star-skip_stars p t (rw (sym e) (collapse refl e h)))
  | inr b ↦ rw (skip_stars, b) h
]

pub star-unskip_stars : (p t : Text) → Matches (star ∷ skip_stars p) t → Matches (star ∷ p) t
unfolding skip_stars
star-unskip_stars [] t h = h
star-unskip_stars (c ∷ p) t h = elim (Bool-cases (c == star)) [
  | inl b ↦
      let e : c ≡ star = (==_iff c star).0 b in
      star_ends refl (rw e (star-unskip_stars p t (rw (skip_stars, b) at h)))
  | inr b ↦ rw (skip_stars, b) at h
]

-- What a byte after a star matches, it matches after more bytes that the star takes.
pub after_char :
    {c d : ℕ} {p t : Text} → c ≢ star → Matches (star ∷ c ∷ p) (d ∷ t) → Matches (star ∷ p) t
after_char n (star_ends f h) = star_ends refl (char_inv n h).1
after_char {t = []} n (star_takes f h) = absurd (n (end_inv (end_inv h).1).0)
after_char {t = d ∷ t} n (star_takes f h) = star_takes refl (after_char n h)
after_char n (char m f h) = absurd (m refl)

-- A star before nothing matches everything.
pub star_all : (t : Text) → Matches (star ∷ []) t
star_all [] = star_ends refl ends
star_all (d ∷ t) = star_takes refl (star_all t)

pub ends-skip_stars : (p : Text) → (ends_here (skip_stars p) ≡ true) ↔ Matches p []
unfolding ends_here skip_stars
ends-skip_stars [] = ((λ h. ends), λ h. refl)
ends-skip_stars (c ∷ p) = elim (Bool-cases (c == star)) [
  | inl b ↦
      rw (skip_stars, b)
        (
          (λ h. star_ends ((==_iff c star).0 b) ((ends-skip_stars p).0 h)),
          λ h. (ends-skip_stars p).1 (end_inv h).1,
        )
  | inr b ↦
      rw (skip_stars, b) ((λ h. absurd (cc)), λ h. absurd (cc ((==_iff c star).1 (end_inv h).0)))
]
