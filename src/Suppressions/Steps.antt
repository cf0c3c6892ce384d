-- ===== src/Suppressions/Steps.antt =====
-- tsan/suppressions.cc: the lines and frames of a text without '<' and '>', as the parser reads them.
use data_race_test.Prelude.{
  ℕ, zero, suc, ◌+◌, ◌<◌, ◌≡◌, ◌≢◌, ◌⊎◌, inl, inr, refl, Bool, true, false, not, ◌||◌, none, some,
  [], ◌∷◌, if◌then◌else◌, ◌==◌, length, arith, Bool-cases, Option-cases, All, take, drop,
}
use data_race_test.Wildcards.{Text}
use data_race_test.Ignores.{eq_text, is_empty}
use data_race_test.Suppressions.{
  Location, lt_star, lt_obj, lt_fun, no_frame_colon, bad_frame, has_parenthesis, Input, Parsed, ok,
  fail, take_line, next_line, is_blank, strip_left, keep_right, strip_right, content, skip_lines,
  next_line_skip_comments,
}
use data_race_test.Suppressions.Frames.{
  index_of, has_paren, is_objc, finish_fun, parse_fun, parse_parts, parse_stack_trace_line, dots,
  obj_word, fun_word,
}
use data_race_test.Suppressions.Parser.{Step, and_parse, read_line}
use data_race_test.Suppressions.Written.{check_fine}

abbrev pub NoAngles : Text → Type 0
NoAngles s = All (λ c. (c ≢ b'<') × (c ≢ b'>')) s

-- The step returns, and where it sets no error its value and the input that is left have the property.
abbrev pub After {ℓ} : {A : Type ℓ} → (A → Input → Type 0) → Step A → Type 0
After P none = ⊥
After P (some (fail e, j)) = Unit
After P (some (ok a, j)) = P a j

pub and_parse-After {ℓ κ} :
    {A : Type ℓ} {B : Type κ} (P : A → Input → Type 0) (Q : B → Input → Type 0) (o : Step A)
    (next : A → Input → Step B)
    → After P o
    → ((a : A) (j : Input) → P a j → After Q (next a j))
    → After Q (and_parse o next)
unfolding and_parse
and_parse-After P Q none next h k = absurd h
and_parse-After P Q (some (fail e, j)) next h k = tt
and_parse-After P Q (some (ok a, j)) next h k = k a j h

pub if-After {ℓ} :
    {A : Type ℓ} (P : A → Input → Type 0) (b : Bool) (o p : Step A)
    → (b ≡ true → After P o)
    → (b ≡ false → After P p)
    → After P (if b then o else p)
if-After P true o p h k = h refl
if-After P false o p h k = k refl

pub take_line_left : (c : ℕ) (s : Text) → length (take_line (c ∷ s)).1 < length (c ∷ s)
unfolding take_line
take_line_left c [] = ground arith
take_line_left c (d ∷ s) = ground (arith, take_line_left d s)

pub take_line-NoAngles :
    (s : Text) → NoAngles s → NoAngles (take_line s).0 × NoAngles (take_line s).1
unfolding take_line
take_line-NoAngles [] h = (tt, tt)
take_line-NoAngles (c ∷ s) h = elim (Bool-cases (c == b'\n')) [
  | inl b ↦ rw (take_line, b) (tt, h.1)
  | inr b ↦ let r = take_line-NoAngles s h.1 in rw (take_line, b) ((h.0, r.0), r.1)
]

pub strip_left-NoAngles : (s : Text) → NoAngles s → NoAngles (strip_left s)
unfolding strip_left
strip_left-NoAngles [] h = tt
strip_left-NoAngles (c ∷ s) h = elim (Bool-cases (is_blank c)) [
  | inl b ↦ rw (strip_left, b) (strip_left-NoAngles s h.1)
  | inr b ↦ rw (strip_left, b) h
]

pub keep_right-NoAngles :
    (c : ℕ) (s : Text) → (c ≢ b'<') × (c ≢ b'>') → NoAngles s → NoAngles (keep_right c s)
unfolding keep_right
keep_right-NoAngles c [] h k = elim (Bool-cases (is_blank c)) [
  | inl b ↦ rw (keep_right, b) tt
  | inr b ↦ rw (keep_right, b) (h, tt)
]
keep_right-NoAngles c (d ∷ s) h k = (h, k)

pub strip_right-NoAngles : (s : Text) → NoAngles s → NoAngles (strip_right s)
unfolding strip_right
strip_right-NoAngles [] h = tt
strip_right-NoAngles (c ∷ s) h =
    keep_right-NoAngles c (strip_right s) h.0 (strip_right-NoAngles s h.1)

pub content-NoAngles : (s t : Text) → NoAngles s → content s ≡ some t → NoAngles t
unfolding content
content-NoAngles [] t h e = absurd (cc)
content-NoAngles (c ∷ s) t h e = elim (Bool-cases (c == b'#')) [
  | inl b ↦ absurd (cc (rw (content, b) at e))
  | inr b ↦
      let u = strip_right (strip_left (c ∷ s)) in
      elim (Bool-cases (is_empty u)) [
        | inl d ↦ absurd (cc (rw (content, b, d) at e))
        | inr d ↦
            let g : t ≡ u = cc (rw (content, b, d) at e) in
            rw g (strip_right-NoAngles (strip_left (c ∷ s)) (strip_left-NoAngles (c ∷ s) h))
      ]
]

-- A line was taken, or the text is at its end and the line empty.
abbrev pub Shorter : Input → Text → Input → Type 0
Shorter i t j = (length j.next < length i.next) ⊎ ((t ≡ []) × (j.next ≡ []))

abbrev pub LineRead : Input → Text → Input → Type 0
LineRead i t j = NoAngles t × (NoAngles j.next × Shorter i t j)

pub skip_lines-Read :
    (f : ℕ) (s : Text) (n : ℕ)
    → NoAngles s
    → length s < f
    → (t : Text) × (j : Input) × (skip_lines f (record { next = s; line_no = n }) ≡ some (t, j))
      × LineRead (record { next = s; line_no = n }) t j
unfolding skip_lines next_line is_empty
skip_lines-Read zero s n h q = absurd (omega arith)
skip_lines-Read (suc f) [] n h q =
    ([], record { next = []; line_no = n }, refl, (tt, (tt, inr (refl, refl))))
skip_lines-Read (suc f) (c ∷ s) n h q =
    let r = take_line (c ∷ s) in
    let g = take_line-NoAngles (c ∷ s) h in
    let l = take_line_left c s in
    elim (Option-cases (content r.0)) [
      | inr (t, e) ↦ (
        t,
        record { next = r.1; line_no = n + 1 },
        rw e refl,
        (content-NoAngles r.0 t g.0 e, (g.1, inl l)),
      )
      | inl e ↦
          let k = skip_lines-Read f r.1 (n + 1) g.1 (omega arith) in
          (
            k.0,
            k.1,
            rw e k.2,
            (k.3.0, (k.3.1.0, elim k.3.1.1 [ inl x ↦ inl (omega arith) | inr x ↦ inr x ])),
          )
    ]

pub read_line-After : (i : Input) → NoAngles i.next → After (LineRead i) (read_line i)
unfolding read_line next_line_skip_comments
read_line-After i h =
    let r = skip_lines-Read (suc (length i.next)) i.next i.line_no h (omega arith) in
    rw (read_line, next_line_skip_comments, r.2) r.3

pub drop-NoAngles : (n : ℕ) (s : Text) → NoAngles s → NoAngles (drop n s)
drop-NoAngles zero s h = h
drop-NoAngles (suc n) [] h = tt
drop-NoAngles (suc n) (c ∷ s) h = drop-NoAngles n s h.1

pub parts_return : (s t : Text) → NoAngles t → (r : Parsed Location) × (parse_parts s t ≡ some r)
unfolding parse_parts parse_fun finish_fun
parts_return s t k = elim (Bool-cases (eq_text s obj_word)) [
  | inl b ↦ (ok (lt_obj t), rw (parse_parts, b) refl)
  | inr b ↦ elim (Bool-cases (eq_text s fun_word)) [
    | inr c ↦ (fail bad_frame, rw (parse_parts, b, c) refl)
    | inl c ↦ elim (Bool-cases (not (has_paren t) || is_objc t)) [
      | inr d ↦ (fail has_parenthesis, rw (parse_parts, b, c, parse_fun, d) refl)
      | inl d ↦
          let e = check_fine t (length t) k in
          (ok (lt_fun t), rw (parse_parts, b, c, parse_fun, d, e, finish_fun) refl)
    ]
  ]
]

pub parse_line_returns :
    (line : Text) → NoAngles line → (r : Parsed Location) × (parse_stack_trace_line line ≡ some r)
unfolding parse_stack_trace_line parse_parts parse_fun finish_fun
parse_line_returns line h = elim (Bool-cases (eq_text line dots)) [
  | inl b ↦ (ok lt_star, rw (parse_stack_trace_line, b) refl)
  | inr b ↦ elim (Option-cases (index_of b':' line)) [
    | inl e ↦ (fail no_frame_colon, rw (parse_stack_trace_line, b, e) refl)
    | inr (i, e) ↦
        let r = parts_return (take i line) (drop (suc i) line) (drop-NoAngles (suc i) line h) in
        (r.0, rw (parse_stack_trace_line, b, e) r.1)
  ]
]
