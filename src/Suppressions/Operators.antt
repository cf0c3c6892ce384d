-- ===== src/Suppressions/Operators.antt =====
-- tsan/suppressions.cc: the loop of ParseStackTraceLine over '<' and '>'.
use data_race_test.Prelude.{
  ℕ, zero, suc, ◌+◌, ◌<◌, ◌≤◌, ◌≡◌, ◌⊎◌, ◌↔◌, inl, inr, refl, true, false, not, ◌||◌, Option, none,
  some, List, [], ◌∷◌, ◌++◌, ◌==◌, length, arith, Bool-cases, Option-cases, get_or, ltb, lt→ltb,
  ltb→lt,
}
use data_race_test.Wildcards.{Text}
use data_race_test.Ignores.{eq_text}
use data_race_test.Suppressions.Frames.{
  index_of, find_angle, operators, after_operator, try_operators, till_or, check_angles, has_paren,
  is_objc, finish_fun, parse_fun, parse_parts, parse_stack_trace_line, fun_word, is_angle,
}

index_of_lt : (c : ℕ) (s : Text) (i : ℕ) → index_of c s ≡ some i → i < length s
unfolding index_of
index_of_lt c [] i h = absurd (cc)
index_of_lt c (d ∷ s) i h = elim (Bool-cases (d == c)) [
  | inl b ↦ let k = rw (index_of, b) at h in ground arith
  | inr b ↦ elim (Option-cases (index_of c s)) [
    | inl e ↦ absurd (cc (rw (index_of, b, e) at h))
    | inr (j, e) ↦ let k = rw (index_of, b, e) at h in let l = index_of_lt c s j e in ground arith
  ]
]

after_operator_gt :
    (s : Text) (at : ℕ) (op : Text) (o : Option ℕ) (till : ℕ)
    → ((i : ℕ) → o ≡ some i → i < length op)
    → after_operator s at op o ≡ some till
    → at < till
unfolding after_operator
after_operator_gt s at op none till h e = absurd (cc)
after_operator_gt s at op (some i) till h e = ground (arith, h i refl)

try_operators_gt :
    (ops : List Text) (s : Text) (at till : ℕ) → try_operators ops s at ≡ some till → at < till
unfolding try_operators
try_operators_gt [] s at till h = absurd (cc)
try_operators_gt (op ∷ ops) s at till h =
    elim (Option-cases (after_operator s at op (index_of (get_or s at 0) op))) [
      | inl e ↦ try_operators_gt ops s at till (rw (try_operators, e) at h)
      | inr (t, e) ↦
          let k = rw (try_operators, e) at h in
          let g = after_operator_gt s at op _ t (λ i q. index_of_lt (get_or s at 0) op i q) e in
          ground arith
    ]

find_angle_ge : (s : Text) (from i at : ℕ) → find_angle s from i ≡ some at → from + i ≤ at
unfolding find_angle
find_angle_ge [] from i at h = absurd (cc)
find_angle_ge (c ∷ s) zero i at h = elim (Bool-cases (is_angle c)) [
  | inl b ↦ let k = rw (find_angle, b) at h in ground arith
  | inr b ↦ omega (arith, find_angle_ge s zero (suc i) at (rw (find_angle, b) at h))
]
find_angle_ge (c ∷ s) (suc from) i at h = omega (arith, find_angle_ge s from (suc i) at h)

-- From `from` on, the next byte '<' or '>' stands at `at`, far enough for an operator's name before it,
-- and no operator stands there.
pub record IsStuck (s : Text) (from at : ℕ) : Type 0 where
  pub within : from < length s
  pub angle : find_angle s from 0 ≡ some at
  pub far : 8 ≤ at
  pub unknown : try_operators operators s at ≡ none

stuck_forever : (f : ℕ) (s : Text) (from at : ℕ) → IsStuck s from at → check_angles f s from ≡ none
unfolding check_angles till_or
stuck_forever zero s from at h = refl
stuck_forever (suc f) s from at h =
    let b = lt→ltb from (length s) h.within in
    let c : ltb at 8 ≡ false = ground (arith, h.far) in
    rw (check_angles, b, h.angle, h.unknown, c) (stuck_forever f s from at h)

-- The check comes to such a byte, past operators.
pub data Hangs (s : Text) : ℕ → Type 0 where
  here : {from : ℕ} (at : ℕ) → IsStuck s from at → Hangs s from
  later :
      {from : ℕ} (at till : ℕ)
      → from < length s
      → find_angle s from 0 ≡ some at
      → 8 ≤ at
      → try_operators operators s at ≡ some till
      → Hangs s till
      → Hangs s from

forever : (f : ℕ) (s : Text) (from : ℕ) → Hangs s from → check_angles f s from ≡ none
unfolding check_angles till_or
forever zero s from h = refl
forever (suc f) s from (here at h) = stuck_forever (suc f) s from at h
forever (suc f) s from (later at till l n k u h) =
    let b = lt→ltb from (length s) l in
    let c : ltb at 8 ≡ false = ground arith in rw (check_angles, b, n, c, u) (forever f s till h)

-- The rounds are enough: what has not returned by then hangs.
enough :
    (f : ℕ) (s : Text) (from : ℕ)
    → length s < f + from
    → 0 < f
    → check_angles f s from ≡ none
    → Hangs s from
unfolding check_angles till_or
enough zero s from h z e = absurd (omega arith)
enough (suc f) s from h z e = elim (Bool-cases (ltb from (length s))) [
  | inr b ↦ absurd (cc (rw (check_angles, b) at e))
  | inl b ↦ elim (Option-cases (find_angle s from 0)) [
    | inl n ↦ absurd (cc (rw (check_angles, b, n) at e))
    | inr (at, n) ↦ elim (Bool-cases (ltb at 8)) [
      | inl c ↦ absurd (cc (rw (check_angles, b, n, c) at e))
      | inr c ↦ elim (Option-cases (try_operators operators s at)) [
        | inl u ↦ here at (record {
          within = ltb→lt from (length s) b;
          angle = n;
          far = ground arith;
          unknown = u;
        })
        | inr (till, u) ↦
            let gt = try_operators_gt operators s at till u in
            let ge = find_angle_ge s from 0 at n in
            let l = ltb→lt from (length s) b in
            later at till l n (ground arith) u
              (enough f s till (omega arith) (omega arith) (rw (check_angles, b, n, c, u) at e))
      ]
    ]
  ]
]

-- The name has no parenthesis, or is one of Objective-C.
abbrev pub ParenthesesFine : Text → Type 0
ParenthesesFine s = (has_paren s ≡ false) ⊎ (is_objc s ≡ true)

parse_fun-Hangs : (s : Text) → (parse_fun s ≡ none) ↔ (ParenthesesFine s × Hangs s 0)
unfolding parse_fun finish_fun
parse_fun-Hangs s = elim (Bool-cases (not (has_paren s) || is_objc s)) [
  | inr b ↦ rw (parse_fun, b) ((λ e. absurd (cc)), λ z. ground (arith, z.0))
  | inl b ↦ elim (Option-cases (check_angles (suc (length s)) s 0)) [
    | inl e ↦
        rw (parse_fun, b, e)
          (
            (λ q. (ground arith, enough (suc (length s)) s 0 (omega arith) (omega arith) e)),
            λ z. refl,
          )
    | inr (true, e) ↦
        rw (parse_fun, b, e)
          ((λ q. absurd (cc)), λ z. absurd (cc (e, forever (suc (length s)) s 0 z.1)))
    | inr (false, e) ↦
        rw (parse_fun, b, e)
          ((λ q. absurd (cc)), λ z. absurd (cc (e, forever (suc (length s)) s 0 z.1)))
  ]
]

parse_line-fun : (s : Text) → parse_stack_trace_line (fun_word ++ (b':' ∷ s)) ≡ parse_fun s
unfolding parse_stack_trace_line parse_parts index_of eq_text
parse_line-fun s = refl

-- ParseStackTraceLine on a line fun:NAME does not return exactly if NAME has no parenthesis or is
-- of Objective-C, and the check for templates comes to a < or > with eight bytes or more before it
-- around which no operator of its list stands; there the loop goes on for any number of rounds.
pub parse_stack_trace_line-Hangs :
    (s : Text)
    → ((parse_stack_trace_line (fun_word ++ (b':' ∷ s)) ≡ none) ↔ (ParenthesesFine s × Hangs s 0))
      × (Hangs s 0 → (f : ℕ) → check_angles f s 0 ≡ none)
parse_stack_trace_line-Hangs s = (rw (parse_line-fun s) (parse_fun-Hangs s), λ h f. forever f s 0 h)
