-- ===== src/CacheLines/Splits.antt =====
-- The splits of a word's granularity, tsan/thread_sanitizer.cc, and the shadow values of its bytes.
use data_race_test.Prelude.{
  ℕ, zero, suc, ◌+◌, ◌*◌, ◌/◌, ◌<◌, ◌≡◌, ◌≢◌, ◌⊎◌, inl, inr, refl, sym, ap, ◌∙◌, Bool, true, false,
  List, [], ◌∷◌, ◌++◌, arith, Bool-cases, set, get_or, update, update_self, update_other, ◌==◌,
  ==_iff,
}
use data_race_test.CacheLines.{
  Word, granularity_is_8, granularity_is_4, granularity_is_2, ref, add_new_sval, with_gr, copy_sval,
  split_8_to_4, split_4_to_2, split_2_to_1,
}
use data_race_test.CacheLines.Covers.{
  whole_quarter, bytes, Half, whole_half, quarters, Cover, whole_word, halves, bits, slot, IsWord,
  Keeps, below_8, Same-word, Opens4, Opens2, Opens1,
}

abbrev MovesByte : Cover → ℕ → ℕ → Cover → ℕ → Type 0
MovesByte c from to d off =
    ((slot d off ≡ slot c off) ⊎ ((slot d off ≡ to) × (slot c off ≡ from)))
    × ((slot c off ≡ off → slot d off ≡ off) × (slot c off ≢ to))

-- The place `from` is shared by bytes that the cover `d` gives the place `to` of their own.
record Moves (c : Cover) (from to : ℕ) (d : Cover) : Type 0 where
  own : slot d to ≡ to
  byte : (off : ℕ) → off < 8 → MovesByte c from to d off
  bound : to < 8

copy-Keeps :
    (P : Cover → Type 0) (c d : Cover) (w : Word) (from to : ℕ) (gr : List Bool)
    → IsWord c w
    → gr ≡ bits d
    → Moves c from to d
    → P d
    → Keeps c w 8 P (with_gr gr (copy_sval from to w))
unfolding with_gr copy_sval add_new_sval
copy-Keeps P c d w from to gr h g m o = elim (Bool-cases (w.has to)) [
  | inl n ↦ absurd ((m.byte to m.bound).1.1 (h.only to m.bound n))
  | inr n ↦ elim (Bool-cases (w.has from)) [
    | inl b ↦
        rw (copy_sval, b, add_new_sval, n)
          (
            record {
              gr = gr;
              has = update w.has to true;
              published = update w.published to false;
              vals = update w.vals to (w.vals from);
              counted = w.counted ++ (ref (w.vals from) ∷ []);
            },
            d,
            refl,
            (
              record {
                word = record { bits = g; only = only_copied };
                values = λ off q. elim ((m.byte off q).0) [
                  | inl e ↦
                      rw
                        (
                          e,
                          update_other w.has to (slot c off) true ((m.byte off q).1.1),
                          update_other w.vals to (slot c off) (w.vals from) ((m.byte off q).1.1),
                        )
                        refl
                  | inr (e, f) ↦
                      rw (e, f, update_self w.has to true, update_self w.vals to (w.vals from), b)
                        refl
                ];
                starts = λ off q e z. (m.byte off q).1.0 e;
              },
              o,
            ),
          )
    | inr b ↦
        rw (copy_sval, b)
          (
            record {
              gr = gr;
              has = w.has;
              published = w.published;
              vals = w.vals;
              counted = w.counted;
            },
            d,
            refl,
            (
              record {
                word = record { bits = g; only = λ off q e. (m.byte off q).1.0 (h.only off q e) };
                values = λ off q. elim ((m.byte off q).0) [
                  | inl e ↦ rw e refl
                  | inr (e, f) ↦ rw (e, f, n, b) refl
                ];
                starts = λ off q e z. (m.byte off q).1.0 e;
              },
              o,
            ),
          )
  ]
]
  where
    only_copied : (off : ℕ) → off < 8 → update w.has to true off ≡ true → slot d off ≡ off
    only_copied off q e = elim (Bool-cases (off == to)) [
      | inl b ↦ let x : off ≡ to = (==_iff off to).0 b in rw x m.own
      | inr b ↦
          let x : off ≢ to = λ y. cc ((==_iff off to).1 y) in
          (m.byte off q).1.0 (h.only off q (sym (update_other w.has to off true x) ∙ e))
    ]

pub split_8_to_4-Keeps : (c : Cover) (w : Word) → IsWord c w → Keeps c w 8 Opens4 (split_8_to_4 w)
unfolding split_8_to_4
split_8_to_4-Keeps whole_word w h =
    let b : granularity_is_8 w.gr ≡ true = ap (λ (g : List Bool). granularity_is_8 g) h.bits in
    rw (split_8_to_4, b)
      (copy-Keeps Opens4 whole_word (halves whole_half whole_half) w 0 4 _ h refl
        (record {
          own = refl;
          byte =
              below_8 _ (ground arith) (ground arith) (ground arith) (ground arith) (ground arith)
                (ground arith) (ground arith) (ground arith);
          bound = omega arith;
        })
        refl)
split_8_to_4-Keeps (halves a b) w h =
    let d : granularity_is_8 w.gr ≡ false = ap (λ (g : List Bool). granularity_is_8 g) h.bits in
    rw (split_8_to_4, d) (w, halves a b, refl, (Same-word (halves a b) w 8 h, opens b))
  where
    opens : (b : Half) → slot (halves a b) 4 ≡ 4
    opens whole_half = refl
    opens (quarters whole_quarter y) = refl
    opens (quarters bytes y) = refl

-- The split of a half, or of a quarter, that is whole, or nothing.
half-Keeps :
    (c d : Cover) (half : ℕ) (w : Word)
    → IsWord c w
    → get_or (bits c) (1 + half) false ≡ true
    → set (set (set (bits c) (1 + half) false) (3 + 2 * half) true) (4 + 2 * half) true ≡ bits d
    → Moves c (4 * half) (4 * half + 2) d
    → Opens2 c half d
    → Keeps c w 8 (Opens2 c half) (split_4_to_2 half w)
unfolding split_4_to_2
half-Keeps c d half w h t e m o =
    let b : granularity_is_4 w.gr half ≡ true =
      ap (λ (g : List Bool). granularity_is_4 g half) h.bits ∙ t in
    rw (split_4_to_2, b)
      (copy-Keeps (Opens2 c half) c d w (4 * half) (4 * half + 2) _ h
        (ap
            (λ (g : List Bool).
              set (set (set g (1 + half) false) (3 + 2 * half) true) (4 + 2 * half) true)
            h.bits
          ∙ e)
        m o)

no_half :
    (c : Cover) (half : ℕ) (w : Word)
    → IsWord c w
    → get_or (bits c) (1 + half) false ≡ false
    → Opens2 c half c
    → Keeps c w 8 (Opens2 c half) (split_4_to_2 half w)
unfolding split_4_to_2
no_half c half w h t o =
    let b : granularity_is_4 w.gr half ≡ false =
      ap (λ (g : List Bool). granularity_is_4 g half) h.bits ∙ t in
    rw (split_4_to_2, b) (w, c, refl, (Same-word c w 8 h, o))

quarter-Keeps :
    (c d : Cover) (quarter : ℕ) (w : Word)
    → IsWord c w
    → get_or (bits c) (3 + quarter) false ≡ true
    → set (set (set (bits c) (3 + quarter) false) (7 + 2 * quarter) true) (8 + 2 * quarter) true
      ≡ bits d
    → Moves c (2 * quarter) (2 * quarter + 1) d
    → Opens1 c (quarter / 2) quarter d
    → Keeps c w 8 (Opens1 c (quarter / 2) quarter) (split_2_to_1 quarter w)
unfolding split_2_to_1
quarter-Keeps c d quarter w h t e m o =
    let b : granularity_is_2 w.gr quarter ≡ true =
      ap (λ (g : List Bool). granularity_is_2 g quarter) h.bits ∙ t in
    rw (split_2_to_1, b)
      (copy-Keeps (Opens1 c (quarter / 2) quarter) c d w (2 * quarter) (2 * quarter + 1) _ h
        (ap
            (λ (g : List Bool).
              set (set (set g (3 + quarter) false) (7 + 2 * quarter) true) (8 + 2 * quarter) true)
            h.bits
          ∙ e)
        m o)

no_quarter :
    (c : Cover) (quarter : ℕ) (w : Word)
    → IsWord c w
    → get_or (bits c) (3 + quarter) false ≡ false
    → Opens1 c (quarter / 2) quarter c
    → Keeps c w 8 (Opens1 c (quarter / 2) quarter) (split_2_to_1 quarter w)
unfolding split_2_to_1
no_quarter c quarter w h t o =
    let b : granularity_is_2 w.gr quarter ≡ false =
      ap (λ (g : List Bool). granularity_is_2 g quarter) h.bits ∙ t in
    rw (split_2_to_1, b) (w, c, refl, (Same-word c w 8 h, o))

abbrev in_quarters : Half
in_quarters = quarters whole_quarter whole_quarter

pub split_4_to_2-Keeps :
    (half : ℕ) (c : Cover) (w : Word)
    → half < 2
    → IsWord c w
    → Keeps c w 8 (Opens2 c half) (split_4_to_2 half w)
split_4_to_2-Keeps zero whole_word w q h = no_half whole_word 0 w h refl (λ e. ground arith)
split_4_to_2-Keeps zero (halves (quarters x y) b) w q h =
    no_half (halves (quarters x y) b) 0 w h refl (λ e. ground arith)
split_4_to_2-Keeps zero (halves whole_half b) w q h =
    half-Keeps (halves whole_half b) (halves in_quarters b) 0 w h refl refl
      (record {
        own = refl;
        byte =
            below_8 _ (ground arith) (ground arith) (ground arith) (ground arith) (ground arith)
              (ground arith) (ground arith) (ground arith);
        bound = omega arith;
      })
      (λ e. ground arith)
split_4_to_2-Keeps (suc zero) whole_word w q h = no_half whole_word 1 w h refl (λ e. ground arith)
split_4_to_2-Keeps (suc zero) (halves a (quarters x y)) w q h =
    no_half (halves a (quarters x y)) 1 w h refl (λ e. ground arith)
split_4_to_2-Keeps (suc zero) (halves a whole_half) w q h =
    half-Keeps (halves a whole_half) (halves a in_quarters) 1 w h refl refl
      (record {
        own = refl;
        byte =
            below_8 _ (ground arith) (ground arith) (ground arith) (ground arith) (ground arith)
              (ground arith) (ground arith) (ground arith);
        bound = omega arith;
      })
      (λ e. ground arith)
split_4_to_2-Keeps (suc (suc n)) c w q h = absurd (omega arith)

pub split_2_to_1-Keeps :
    (quarter : ℕ) (c : Cover) (w : Word)
    → quarter < 4
    → IsWord c w
    → Keeps c w 8 (Opens1 c (quarter / 2) quarter) (split_2_to_1 quarter w)
split_2_to_1-Keeps zero whole_word w q h = no_quarter whole_word 0 w h refl (λ e. ground arith)
split_2_to_1-Keeps zero (halves (quarters bytes y) b) w q h =
    no_quarter (halves (quarters bytes y) b) 0 w h refl (λ e. ground arith)
split_2_to_1-Keeps zero (halves whole_half b) w q h =
    no_quarter (halves whole_half b) 0 w h refl (λ e. ground arith)
split_2_to_1-Keeps zero (halves (quarters whole_quarter y) b) w q h =
    quarter-Keeps (halves (quarters whole_quarter y) b) (halves (quarters bytes y) b) 0 w h refl
      refl
      (record {
        own = refl;
        byte =
            below_8 _ (ground arith) (ground arith) (ground arith) (ground arith) (ground arith)
              (ground arith) (ground arith) (ground arith);
        bound = omega arith;
      })
      (λ e. ground arith)
split_2_to_1-Keeps (suc zero) whole_word w q h =
    no_quarter whole_word 1 w h refl (λ e. ground arith)
split_2_to_1-Keeps (suc zero) (halves (quarters x bytes) b) w q h =
    no_quarter (halves (quarters x bytes) b) 1 w h refl (λ e. ground arith)
split_2_to_1-Keeps (suc zero) (halves whole_half b) w q h =
    no_quarter (halves whole_half b) 1 w h refl (λ e. ground arith)
split_2_to_1-Keeps (suc zero) (halves (quarters x whole_quarter) b) w q h =
    quarter-Keeps (halves (quarters x whole_quarter) b) (halves (quarters x bytes) b) 1 w h refl
      refl
      (record {
        own = refl;
        byte =
            below_8 _ (ground arith) (ground arith) (ground arith) (ground arith) (ground arith)
              (ground arith) (ground arith) (ground arith);
        bound = omega arith;
      })
      (λ e. ground arith)
split_2_to_1-Keeps (suc (suc zero)) whole_word w q h =
    no_quarter whole_word 2 w h refl (λ e. ground arith)
split_2_to_1-Keeps (suc (suc zero)) (halves a (quarters bytes y)) w q h =
    no_quarter (halves a (quarters bytes y)) 2 w h refl (λ e. ground arith)
split_2_to_1-Keeps (suc (suc zero)) (halves a whole_half) w q h =
    no_quarter (halves a whole_half) 2 w h refl (λ e. ground arith)
split_2_to_1-Keeps (suc (suc zero)) (halves a (quarters whole_quarter y)) w q h =
    quarter-Keeps (halves a (quarters whole_quarter y)) (halves a (quarters bytes y)) 2 w h refl
      refl
      (record {
        own = refl;
        byte =
            below_8 _ (ground arith) (ground arith) (ground arith) (ground arith) (ground arith)
              (ground arith) (ground arith) (ground arith);
        bound = omega arith;
      })
      (λ e. ground arith)
split_2_to_1-Keeps (suc (suc (suc zero))) whole_word w q h =
    no_quarter whole_word 3 w h refl (λ e. ground arith)
split_2_to_1-Keeps (suc (suc (suc zero))) (halves a (quarters x bytes)) w q h =
    no_quarter (halves a (quarters x bytes)) 3 w h refl (λ e. ground arith)
split_2_to_1-Keeps (suc (suc (suc zero))) (halves a whole_half) w q h =
    no_quarter (halves a whole_half) 3 w h refl (λ e. ground arith)
split_2_to_1-Keeps (suc (suc (suc zero))) (halves a (quarters x whole_quarter)) w q h =
    quarter-Keeps (halves a (quarters x whole_quarter)) (halves a (quarters x bytes)) 3 w h refl
      refl
      (record {
        own = refl;
        byte =
            below_8 _ (ground arith) (ground arith) (ground arith) (ground arith) (ground arith)
              (ground arith) (ground arith) (ground arith);
        bound = omega arith;
      })
      (λ e. ground arith)
split_2_to_1-Keeps (suc (suc (suc (suc n)))) c w q h = absurd (omega arith)
