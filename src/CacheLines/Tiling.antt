-- ===== src/CacheLines/Tiling.antt =====
-- tsan/thread_sanitizer.cc: the loop at slow_path and the accesses it makes.
use data_race_test.Prelude.{
  ℕ, zero, suc, ◌+◌, ◌-◌, ◌<◌, ◌≤◌, ◌≡◌, ◌⊎◌, inl, inr, refl, false, some, List, [], ◌∷◌, ltb,
  arith, Bool-cases, ltb→lt,
}
use data_race_test.CacheLines.Covers.{
  whole_quarter, bytes, Half, whole_half, quarters, Cover, whole_word, halves, bits, slot,
}
use data_race_test.CacheLines.Accesses.{step_size, access_loop}

-- A place of its own begins at `x`, or the word ends there.
abbrev pub IsStart : Cover → ℕ → Type 0
IsStart d x = ((x < 8) × (slot d x ≡ x)) ⊎ (x ≡ 8)

-- All bytes of `k` from `x` on have the value at `x`.
abbrev pub OneSlot : Cover → ℕ → ℕ → Type 0
OneSlot d x k = (z : ℕ) → x ≤ z → z < x + k → slot d z ≡ x

-- The accesses go from `x` to `b`.
abbrev pub Tiles : Cover → ℕ → ℕ → List (ℕ × ℕ) → Type 0
Tiles d x b [] = x ≡ b
Tiles d x b ((y, k) ∷ l) = (y ≡ x) × ((0 < k) × (OneSlot d x k × Tiles d (x + k) b l))

abbrev Steps : Cover → ℕ → Type 0
Steps d x =
    slot d x ≡ x
    → (0 < step_size (bits d) x)
      × (OneSlot d x (step_size (bits d) x) × IsStart d (x + step_size (bits d) x))

word-Steps : (x : ℕ) → x < 8 → Steps whole_word x
unfolding step_size
word-Steps x q e = ground arith

first-Steps : (x : ℕ) (a b : Half) → x < 4 → Steps (halves a b) x
unfolding step_size
first-Steps zero whole_half b q e = ground arith
first-Steps zero (quarters whole_quarter y) b q e = ground arith
first-Steps zero (quarters bytes y) b q e = ground arith
first-Steps (suc zero) whole_half b q e = ground arith
first-Steps (suc zero) (quarters whole_quarter y) b q e = ground arith
first-Steps (suc zero) (quarters bytes y) b q e = ground arith
first-Steps (suc (suc zero)) whole_half b q e = ground arith
first-Steps (suc (suc zero)) (quarters x whole_quarter) b q e = ground arith
first-Steps (suc (suc zero)) (quarters x bytes) b q e = ground arith
first-Steps (suc (suc (suc zero))) whole_half b q e = ground arith
first-Steps (suc (suc (suc zero))) (quarters x whole_quarter) b q e = ground arith
first-Steps (suc (suc (suc zero))) (quarters x bytes) b q e = ground arith
first-Steps (suc (suc (suc (suc x)))) a b q e = absurd (omega arith)

second-Steps : (x : ℕ) (a b : Half) → x < 4 → Steps (halves a b) (4 + x)
unfolding step_size
second-Steps zero a whole_half q e = ground arith
second-Steps zero a (quarters whole_quarter y) q e = ground arith
second-Steps zero a (quarters bytes y) q e = ground arith
second-Steps (suc zero) a whole_half q e = ground arith
second-Steps (suc zero) a (quarters whole_quarter y) q e = ground arith
second-Steps (suc zero) a (quarters bytes y) q e = ground arith
second-Steps (suc (suc zero)) a whole_half q e = ground arith
second-Steps (suc (suc zero)) a (quarters x whole_quarter) q e = ground arith
second-Steps (suc (suc zero)) a (quarters x bytes) q e = ground arith
second-Steps (suc (suc (suc zero))) a whole_half q e = ground arith
second-Steps (suc (suc (suc zero))) a (quarters x whole_quarter) q e = ground arith
second-Steps (suc (suc (suc zero))) a (quarters x bytes) q e = ground arith
second-Steps (suc (suc (suc (suc x)))) a b q e = absurd (omega arith)

steps : (d : Cover) (x : ℕ) → x < 8 → Steps d x
steps whole_word x q = word-Steps x q
steps (halves a b) x q = elim (Bool-cases (ltb x 4)) [
  | inl c ↦ first-Steps x a b (ltb→lt x 4 c)
  | inr c ↦
      let e : 4 + (x - 4) ≡ x = ground arith in rw e at (second-Steps (x - 4) a b (omega arith))
]

-- The next start is not beyond one that is not behind.
next_start :
    (d : Cover) (x k b : ℕ) → OneSlot d x k → IsStart d (x + k) → x < b → IsStart d b → x + k ≤ b
next_start d x k b o n l s = elim (Bool-cases (ltb b (x + k))) [
  | inr c ↦ ground arith
  | inl c ↦
      let m = ltb→lt b (x + k) c in
      let e = o b (omega arith) m in
      elim s [
        | inl y ↦ absurd (omega (arith, y.1))
        | inr y ↦ elim n [ inl z ↦ absurd (omega (arith, z.0)) | inr z ↦ absurd (omega arith) ]
      ]
]

pub access_loop-Tiles :
    (f : ℕ) (d : Cover) (x b : ℕ)
    → IsStart d x
    → IsStart d b
    → x ≤ b
    → b ≤ x + f
    → (l : List (ℕ × ℕ)) × (access_loop f (bits d) x b ≡ some l) × Tiles d x b l
unfolding access_loop
access_loop-Tiles zero d x b s t q r =
    let c : ltb x b ≡ false = ground arith in ([], rw (access_loop, c) refl, omega arith)
access_loop-Tiles (suc f) d x b s t q r = elim (Bool-cases (ltb x b)) [
  | inr c ↦ ([], rw (access_loop, c) refl, ground arith)
  | inl c ↦
      let l = ltb→lt x b c in
      let h : (x < 8) × (slot d x ≡ x) = elim s [
        | inl y ↦ y
        | inr y ↦ absurd (elim t [ inl z ↦ omega (arith, z.0) | inr z ↦ omega arith ])
      ] in
      let k = step_size (bits d) x in
      let st = steps d x h.0 h.1 in
      let n = next_start d x k b st.1.0 st.1.1 l t in
      let rest = access_loop-Tiles f d (x + k) b st.1.1 t n (omega (arith, st.0)) in
      ((x, k) ∷ rest.0, rw (access_loop, c, rest.1) refl, (refl, (st.0, (st.1.0, rest.2))))
]
