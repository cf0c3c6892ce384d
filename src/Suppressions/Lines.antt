-- ===== src/Suppressions/Lines.antt =====
-- tsan/suppressions.cc: the line number of ThreadSanitizerParser, and how many lines of the text are left.
use data_race_test.Prelude.{
  ℕ, zero, suc, ◌+◌, ◌≡◌, inl, inr, refl, sym, ap, ◌∙◌, Bool, true, false, none, some, List, [],
  ◌∷◌, ◌++◌, if◌then◌else◌, ◌==◌, length, arith, Option-cases,
}
use data_race_test.Wildcards.{Text}
use data_race_test.Ignores.{eq_text, is_empty}
use data_race_test.Suppressions.{
  Suppression, StackTraceTemplate, Problem, no_name, no_tools_line, Input, ok, fail, take_line,
  next_line, content, skip_lines, next_line_skip_comments,
}
use data_race_test.Suppressions.Frames.{parse_stack_trace_line}
use data_race_test.Suppressions.Parser.{
  open_brace, close_brace, Step, and_parse, read_line, parse_frame, template_loop, read_template,
  next_stack_trace_template, push_template, templates_loop, check_line, read_body, set_name,
  next_suppression, parse_suppression_tools_line,
}

-- The lines of a text: its ends of line, and one more if something follows the last.
unfoldable pub lines : Text → ℕ
lines [] = 0
lines (c ∷ []) = 1
lines (c ∷ d ∷ s) = let rest = lines (d ∷ s) in if c == b'\n' then rest + 1 else rest

take_line-lines : (c : ℕ) (s : Text) → lines (c ∷ s) ≡ lines (take_line (c ∷ s)).1 + 1
unfolding lines take_line
take_line-lines c [] = ground arith
take_line-lines c (d ∷ s) = ground (arith, take_line-lines d s)

-- From `i` to `j` the line number has gone up by the lines that are no longer left.
abbrev pub SameTotal : Input → Input → Type 0
SameTotal i j = j.line_no + lines j.next ≡ i.line_no + lines i.next

abbrev pub Counts {ℓ} : {A : Type ℓ} → Input → Step A → Type 0
Counts i none = Unit
Counts i (some (r, j)) = SameTotal i j

and_parse-Counts {ℓ κ} :
    {A : Type ℓ} {B : Type κ} (i : Input) (o : Step A) (next : A → Input → Step B)
    → Counts i o
    → ((a : A) (j : Input) → Counts j (next a j))
    → Counts i (and_parse o next)
unfolding and_parse
and_parse-Counts i none next h k = tt
and_parse-Counts i (some (fail e, j)) next h k = h
and_parse-Counts {B = B} i (some (ok a, j)) next h k = more (next a j) (k a j)
  where
    more : (p : Step B) → Counts j p → Counts i p
    more none c = tt
    more (some (r, m)) c = c ∙ h

if-Counts {ℓ} :
    {A : Type ℓ} (i : Input) (b : Bool) (o p : Step A)
    → Counts i o
    → Counts i p
    → Counts i (if b then o else p)
if-Counts i true o p h k = h
if-Counts i false o p h k = k

moved : (r q : Text × Input) → some r ≡ some q → r.1 ≡ q.1
moved r q e = let f : r ≡ q = cc in ap (λ z. z.1) f

skip_lines-Counts :
    (f : ℕ) (s : Text) (n : ℕ) (t : Text) (j : Input)
    → skip_lines f (record { next = s; line_no = n }) ≡ some (t, j)
    → SameTotal (record { next = s; line_no = n }) j
unfolding skip_lines next_line is_empty
skip_lines-Counts zero s n t j e = absurd (cc)
skip_lines-Counts (suc f) [] n t j e = cc
skip_lines-Counts (suc f) (c ∷ s) n t j e =
    let l = take_line-lines c s in
    elim (Option-cases (content (take_line (c ∷ s)).0)) [
      | inr (u, d) ↦
          let i : Input = record { next = (take_line (c ∷ s)).1; line_no = n + 1 } in
          rw (sym (moved (u, i) (t, j) (rw d at e))) (omega (arith, l))
      | inl d ↦
          let q : skip_lines f (record { next = (take_line (c ∷ s)).1; line_no = n + 1 })
              ≡ some (t, j) =
            rw d at e in
          omega (arith, l, skip_lines-Counts f (take_line (c ∷ s)).1 (n + 1) t j q)
    ]

read_line-Counts : (i : Input) → Counts i (read_line i)
unfolding read_line next_line_skip_comments
read_line-Counts i = elim (Option-cases (next_line_skip_comments i)) [
  | inl e ↦ rw (read_line, e) tt
  | inr (r, e) ↦
      rw (read_line, e) (skip_lines-Counts (suc (length i.next)) i.next i.line_no r.0 r.1 e)
]

parse_frame-Counts : (line : Text) (i : Input) → Counts i (parse_frame line i)
unfolding parse_frame
parse_frame-Counts line i = elim (Option-cases (parse_stack_trace_line line)) [
  | inl e ↦ rw (parse_frame, e) tt
  | inr (r, e) ↦ rw (parse_frame, e) refl
]

template_loop-Counts :
    (f : ℕ) (trace : StackTraceTemplate) (line : Text) (i : Input)
    → Counts i (template_loop f trace line i)
unfolding template_loop
template_loop-Counts zero trace line i = tt
template_loop-Counts (suc f) trace line i =
    and_parse-Counts i (parse_frame line i) _ (parse_frame-Counts line i) (λ l j.
      and_parse-Counts j (read_line j) _ (read_line-Counts j) (λ next k.
        if-Counts k (eq_text next close_brace) _ _ refl
          (template_loop-Counts f (trace ++ (l ∷ [])) next k)))

read_template-Counts : (line : Text) (i : Input) → Counts i (read_template line i)
unfolding read_template
read_template-Counts line i = template_loop-Counts (suc (suc (length i.next))) [] line i

next_template-Counts : (i : Input) → Counts i (next_stack_trace_template i)
unfolding next_stack_trace_template
next_template-Counts i = and_parse-Counts i (read_line i) _ (read_line-Counts i) (λ line j.
    if-Counts j (eq_text line close_brace) _ _ refl (
      if-Counts j (eq_text line open_brace) _ _
        (and_parse-Counts j (read_line j) _ (read_line-Counts j) (λ inner k.
          and_parse-Counts k (read_template inner k) _ (read_template-Counts inner k)
            (λ t m. refl)))
        (and_parse-Counts j (read_template line j) _ (read_template-Counts line j) (λ t m. refl))))

templates_loop-Counts :
    (f : ℕ) (ts : List StackTraceTemplate) (i : Input) → Counts i (templates_loop f ts i)
unfolding templates_loop
templates_loop-Counts zero ts i = tt
templates_loop-Counts (suc f) ts i =
    and_parse-Counts i (next_stack_trace_template i) _ (next_template-Counts i)
      (λ r j. if-Counts j r.1 _ _ refl (templates_loop-Counts f (push_template ts r.0) j))

check_line-Counts : (line : Text) (e : Problem) (i : Input) → Counts i (check_line line e i)
unfolding check_line
check_line-Counts line e i = if-Counts i (is_empty line) _ _ refl refl

read_body-Counts : (supp : Suppression) (i : Input) → Counts i (read_body supp i)
unfolding read_body
read_body-Counts supp i = and_parse-Counts i (read_line i) _ (read_line-Counts i) (λ line j.
    and_parse-Counts j (check_line line no_tools_line j) _ (check_line-Counts line no_tools_line j)
      (λ tools k.
        and_parse-Counts k (some (parse_suppression_tools_line supp tools, k)) _ refl (λ s m.
          and_parse-Counts m (templates_loop (suc (suc (length m.next))) s.templates m) _
            (templates_loop-Counts (suc (suc (length m.next))) s.templates m) (λ ts n. refl))))

-- NextSuppression, whether it sets an error or not.
pub next_suppression-Counts : (supp : Suppression) (i : Input) → Counts i (next_suppression supp i)
unfolding next_suppression
next_suppression-Counts supp i = and_parse-Counts i (read_line i) _ (read_line-Counts i) (λ line j.
    if-Counts j (is_empty line) _ _ refl (
      if-Counts j (eq_text line open_brace) _ _
        (and_parse-Counts j (read_line j) _ (read_line-Counts j) (λ name k.
          and_parse-Counts k (check_line name no_name k) _ (check_line-Counts name no_name k)
            (λ n m.
              and_parse-Counts m (read_body (set_name supp n) m) _
                (read_body-Counts (set_name supp n) m) (λ s o. refl))))
        refl))
