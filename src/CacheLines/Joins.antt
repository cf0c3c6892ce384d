-- ===== src/CacheLines/Joins.antt =====
-- The joins of a word's granularity, tsan/thread_sanitizer.cc, and the shadow values of its bytes.
use data_race_test.Prelude.{
  ℕ, zero, suc, ◌+◌, ◌*◌, ◌<◌, ◌≡◌, ◌≢◌, ◌⊎◌, inl, inr, refl, sym, ap, ◌∙◌, Bool, true, false, ◌&&◌,
  some, List, [], ◌∷◌, ◌++◌, arith, Bool-cases, set, update, update_self, update_other, ◌==◌,
  ==_iff, eq_ℤ_iff,
}
use data_race_test.Shadow.{ShadowValue, new_value, same_value}
use data_race_test.CacheLines.{
  Word, granularity_is_4, granularity_is_2, granularity_is_1, unref, merge_svals, join_1_to_2,
  join_2_to_4, join_4_to_8,
}
use data_race_test.CacheLines.Covers.{
  whole_quarter, bytes, whole_half, quarters, Cover, whole_word, halves, bits, slot, IsWord, Keeps,
  below_8, Same-word, OpensNone,
}

same_value_eq : (v w : ShadowValue) → same_value v w ≡ true → v ≡ w
unfolding same_value
same_value_eq v w h =
    let r : v.rd_ssid ≡ w.rd_ssid = (eq_ℤ_iff v.rd_ssid w.rd_ssid).0 (ground arith) in
    let s : v.wr_ssid ≡ w.wr_ssid = (eq_ℤ_iff v.wr_ssid w.wr_ssid).0 (ground arith) in
    λ i. record { rd_ssid = r i; wr_ssid = s i }

abbrev MergesByte : Cover → ℕ → ℕ → Cover → ℕ → Type 0
MergesByte c off other d r =
    (((slot d r ≡ slot c r) × (slot c r ≢ other)) ⊎ ((slot d r ≡ off) × (slot c r ≡ other)))
    × (slot c r ≡ r → r ≢ other → slot d r ≡ r)

-- The bytes of the place `other` go to the place `off`.
record Merges (c : Cover) (off other : ℕ) (d : Cover) : Type 0 where
  byte : (r : ℕ) → r < 8 → MergesByte c off other d r
  apart : off ≢ other

merge-Keeps :
    (c d : Cover) (w : Word) (off other : ℕ) (gr : List Bool)
    → IsWord c w
    → gr ≡ bits d
    → Merges c off other d
    → Keeps c w other OpensNone (some (merge_svals gr off other w))
unfolding merge_svals
merge-Keeps c d w off other gr h g m =
    elim (Bool-cases ((w.has off && w.has other) && same_value (w.vals off) (w.vals other))) [
      | inr b ↦ rw (merge_svals, b) (w, c, refl, (Same-word c w other h, tt))
      | inl b ↦
          let x : w.has off ≡ true = ground arith in
          let y : w.has other ≡ true = ground arith in
          let z : w.vals off ≡ w.vals other =
            same_value_eq (w.vals off) (w.vals other) (ground arith) in
          rw (merge_svals, b)
            (
              record {
                gr = gr;
                has = update w.has other false;
                published = w.published;
                vals = update w.vals other new_value;
                counted = w.counted ++ (unref (w.vals other) ∷ []);
              },
              d,
              refl,
              (
                record {
                  word = record { bits = g; only = only_merged };
                  values = λ r q. elim (m.byte r q).0 [
                    | inl (e, n) ↦
                        rw
                          (
                            e,
                            update_other w.has other (slot c r) false n,
                            update_other w.vals other (slot c r) new_value n,
                          )
                          refl
                    | inr (e, f) ↦
                        rw
                          (
                            e,
                            f,
                            update_other w.has other off false m.apart,
                            update_other w.vals other off new_value m.apart,
                            x,
                            y,
                          )
                          (ap some z)
                  ];
                  starts = λ r q e n. (m.byte r q).1 e n;
                },
                tt,
              ),
            )
    ]
  where
    only_merged : (r : ℕ) → r < 8 → update w.has other false r ≡ true → slot d r ≡ r
    only_merged r q e = elim (Bool-cases (r == other)) [
      | inl b ↦
          let x : r ≡ other = (==_iff r other).0 b in
          let y = rw (x, update_self w.has other false) at e in absurd (cc (y))
      | inr b ↦
          let x : r ≢ other = λ y. cc ((==_iff r other).1 y) in
          (m.byte r q).1 (h.only r q (sym (update_other w.has other r false x) ∙ e)) x
    ]

pub join_4_to_8-Keeps : (c : Cover) (w : Word) → IsWord c w → Keeps c w 4 OpensNone (join_4_to_8 w)
unfolding join_4_to_8
join_4_to_8-Keeps c w h = elim (Bool-cases (granularity_is_4 w.gr 0 && granularity_is_4 w.gr 1)) [
  | inr b ↦ rw (join_4_to_8, b) (w, c, refl, (Same-word c w 4 h, tt))
  | inl b ↦
      rw (join_4_to_8, b)
        (wholes c h
          (sym (ap (λ (g : List Bool). granularity_is_4 g 0 && granularity_is_4 g 1) h.bits) ∙ b))
]
  where
    wholes :
        (d : Cover)
        → IsWord d w
        → (granularity_is_4 (bits d) 0 && granularity_is_4 (bits d) 1) ≡ true
        → Keeps d w 4 OpensNone (some (merge_svals (bits whole_word) 0 4 w))
    wholes whole_word k e = absurd (cc)
    wholes (halves (quarters p q) b) k e = absurd (cc)
    wholes (halves whole_half (quarters p q)) k e = absurd (cc)
    wholes (halves whole_half whole_half) k e =
        merge-Keeps (halves whole_half whole_half) whole_word w 0 4 _ k refl (record {
          byte =
              below_8 _ (ground arith) (ground arith) (ground arith) (ground arith) (ground arith)
                (ground arith) (ground arith) (ground arith);
          apart = ground arith;
        })

join-half :
    (half : ℕ) (c d : Cover) (w : Word)
    → IsWord c w
    → (granularity_is_2 (bits c) (2 * half) && granularity_is_2 (bits c) (2 * half + 1)) ≡ true
    → set (set (set (bits c) (3 + 2 * half) false) (4 + 2 * half) false) (1 + half) true ≡ bits d
    → Merges c (4 * half) (4 * half + 2) d
    → Keeps c w (4 * half + 2) OpensNone (join_2_to_4 half w)
unfolding join_2_to_4
join-half half c d w h t e m =
    let b : (granularity_is_2 w.gr (2 * half) && granularity_is_2 w.gr (2 * half + 1)) ≡ true =
      ap (λ (g : List Bool). granularity_is_2 g (2 * half) && granularity_is_2 g (2 * half + 1))
        h.bits
      ∙ t in
    rw (join_2_to_4, b)
      (merge-Keeps c d w (4 * half) (4 * half + 2) _ h
        (ap
            (λ (g : List Bool).
              set (set (set g (3 + 2 * half) false) (4 + 2 * half) false) (1 + half) true)
            h.bits
          ∙ e)
        m)

join-no_half :
    (half : ℕ) (c : Cover) (w : Word)
    → IsWord c w
    → (granularity_is_2 (bits c) (2 * half) && granularity_is_2 (bits c) (2 * half + 1)) ≡ false
    → Keeps c w (4 * half + 2) OpensNone (join_2_to_4 half w)
unfolding join_2_to_4
join-no_half half c w h t =
    let b : (granularity_is_2 w.gr (2 * half) && granularity_is_2 w.gr (2 * half + 1)) ≡ false =
      ap (λ (g : List Bool). granularity_is_2 g (2 * half) && granularity_is_2 g (2 * half + 1))
        h.bits
      ∙ t in
    rw (join_2_to_4, b) (w, c, refl, (Same-word c w (4 * half + 2) h, tt))

join-quarter :
    (quarter : ℕ) (c d : Cover) (w : Word)
    → IsWord c w
    → granularity_is_1 (bits c) (2 * quarter) ≡ true
    → granularity_is_1 (bits c) (2 * quarter + 1) ≡ true
    → set (set (set (bits c) (7 + 2 * quarter) false) (8 + 2 * quarter) false) (3 + quarter) true
      ≡ bits d
    → Merges c (2 * quarter) (2 * quarter + 1) d
    → Keeps c w (2 * quarter + 1) OpensNone (join_1_to_2 quarter w)
unfolding join_1_to_2
join-quarter quarter c d w h t u e m =
    let a : granularity_is_1 w.gr (2 * quarter) ≡ true =
      ap (λ (g : List Bool). granularity_is_1 g (2 * quarter)) h.bits ∙ t in
    let b : granularity_is_1 w.gr (2 * quarter + 1) ≡ true =
      ap (λ (g : List Bool). granularity_is_1 g (2 * quarter + 1)) h.bits ∙ u in
    rw (join_1_to_2, a, b)
      (merge-Keeps c d w (2 * quarter) (2 * quarter + 1) _ h
        (ap
            (λ (g : List Bool).
              set (set (set g (7 + 2 * quarter) false) (8 + 2 * quarter) false) (3 + quarter) true)
            h.bits
          ∙ e)
        m)

join-no_quarter :
    (quarter : ℕ) (c : Cover) (w : Word)
    → IsWord c w
    → granularity_is_1 (bits c) (2 * quarter) ≡ false
    → Keeps c w (2 * quarter + 1) OpensNone (join_1_to_2 quarter w)
unfolding join_1_to_2
join-no_quarter quarter c w h t =
    let a : granularity_is_1 w.gr (2 * quarter) ≡ false =
      ap (λ (g : List Bool). granularity_is_1 g (2 * quarter)) h.bits ∙ t in
    rw (join_1_to_2, a) (w, c, refl, (Same-word c w (2 * quarter + 1) h, tt))

pub join_2_to_4-Keeps :
    (half : ℕ) (c : Cover) (w : Word)
    → half < 2
    → IsWord c w
    → Keeps c w (4 * half + 2) OpensNone (join_2_to_4 half w)
join_2_to_4-Keeps zero whole_word w q h = join-no_half 0 whole_word w h refl
join_2_to_4-Keeps zero (halves whole_half b) w q h = join-no_half 0 (halves whole_half b) w h refl
join_2_to_4-Keeps zero (halves (quarters bytes y) b) w q h =
    join-no_half 0 (halves (quarters bytes y) b) w h refl
join_2_to_4-Keeps zero (halves (quarters whole_quarter bytes) b) w q h =
    join-no_half 0 (halves (quarters whole_quarter bytes) b) w h refl
join_2_to_4-Keeps zero (halves (quarters whole_quarter whole_quarter) b) w q h =
    join-half 0 (halves (quarters whole_quarter whole_quarter) b) (halves whole_half b) w h refl
      refl
      (record {
        byte =
            below_8 _ (ground arith) (ground arith) (ground arith) (ground arith) (ground arith)
              (ground arith) (ground arith) (ground arith);
        apart = ground arith;
      })
join_2_to_4-Keeps (suc zero) whole_word w q h = join-no_half 1 whole_word w h refl
join_2_to_4-Keeps (suc zero) (halves a whole_half) w q h =
    join-no_half 1 (halves a whole_half) w h refl
join_2_to_4-Keeps (suc zero) (halves a (quarters bytes y)) w q h =
    join-no_half 1 (halves a (quarters bytes y)) w h refl
join_2_to_4-Keeps (suc zero) (halves a (quarters whole_quarter bytes)) w q h =
    join-no_half 1 (halves a (quarters whole_quarter bytes)) w h refl
join_2_to_4-Keeps (suc zero) (halves a (quarters whole_quarter whole_quarter)) w q h =
    join-half 1 (halves a (quarters whole_quarter whole_quarter)) (halves a whole_half) w h refl
      refl
      (record {
        byte =
            below_8 _ (ground arith) (ground arith) (ground arith) (ground arith) (ground arith)
              (ground arith) (ground arith) (ground arith);
        apart = ground arith;
      })
join_2_to_4-Keeps (suc (suc n)) c w q h = absurd (omega arith)

pub join_1_to_2-Keeps :
    (quarter : ℕ) (c : Cover) (w : Word)
    → quarter < 4
    → IsWord c w
    → Keeps c w (2 * quarter + 1) OpensNone (join_1_to_2 quarter w)
join_1_to_2-Keeps zero whole_word w q h = join-no_quarter 0 whole_word w h refl
join_1_to_2-Keeps zero (halves whole_half b) w q h =
    join-no_quarter 0 (halves whole_half b) w h refl
join_1_to_2-Keeps zero (halves (quarters whole_quarter y) b) w q h =
    join-no_quarter 0 (halves (quarters whole_quarter y) b) w h refl
join_1_to_2-Keeps zero (halves (quarters bytes y) b) w q h =
    join-quarter 0 (halves (quarters bytes y) b) (halves (quarters whole_quarter y) b) w h refl refl
      refl
      (record {
        byte =
            below_8 _ (ground arith) (ground arith) (ground arith) (ground arith) (ground arith)
              (ground arith) (ground arith) (ground arith);
        apart = ground arith;
      })
join_1_to_2-Keeps (suc zero) whole_word w q h = join-no_quarter 1 whole_word w h refl
join_1_to_2-Keeps (suc zero) (halves whole_half b) w q h =
    join-no_quarter 1 (halves whole_half b) w h refl
join_1_to_2-Keeps (suc zero) (halves (quarters x whole_quarter) b) w q h =
    join-no_quarter 1 (halves (quarters x whole_quarter) b) w h refl
join_1_to_2-Keeps (suc zero) (halves (quarters x bytes) b) w q h =
    join-quarter 1 (halves (quarters x bytes) b) (halves (quarters x whole_quarter) b) w h refl refl
      refl
      (record {
        byte =
            below_8 _ (ground arith) (ground arith) (ground arith) (ground arith) (ground arith)
              (ground arith) (ground arith) (ground arith);
        apart = ground arith;
      })
join_1_to_2-Keeps (suc (suc zero)) whole_word w q h = join-no_quarter 2 whole_word w h refl
join_1_to_2-Keeps (suc (suc zero)) (halves a whole_half) w q h =
    join-no_quarter 2 (halves a whole_half) w h refl
join_1_to_2-Keeps (suc (suc zero)) (halves a (quarters whole_quarter y)) w q h =
    join-no_quarter 2 (halves a (quarters whole_quarter y)) w h refl
join_1_to_2-Keeps (suc (suc zero)) (halves a (quarters bytes y)) w q h =
    join-quarter 2 (halves a (quarters bytes y)) (halves a (quarters whole_quarter y)) w h refl refl
      refl
      (record {
        byte =
            below_8 _ (ground arith) (ground arith) (ground arith) (ground arith) (ground arith)
              (ground arith) (ground arith) (ground arith);
        apart = ground arith;
      })
join_1_to_2-Keeps (suc (suc (suc zero))) whole_word w q h = join-no_quarter 3 whole_word w h refl
join_1_to_2-Keeps (suc (suc (suc zero))) (halves a whole_half) w q h =
    join-no_quarter 3 (halves a whole_half) w h refl
join_1_to_2-Keeps (suc (suc (suc zero))) (halves a (quarters x whole_quarter)) w q h =
    join-no_quarter 3 (halves a (quarters x whole_quarter)) w h refl
join_1_to_2-Keeps (suc (suc (suc zero))) (halves a (quarters x bytes)) w q h =
    join-quarter 3 (halves a (quarters x bytes)) (halves a (quarters x whole_quarter)) w h refl refl
      refl
      (record {
        byte =
            below_8 _ (ground arith) (ground arith) (ground arith) (ground arith) (ground arith)
              (ground arith) (ground arith) (ground arith);
        apart = ground arith;
      })
join_1_to_2-Keeps (suc (suc (suc (suc n)))) c w q h = absurd (omega arith)
