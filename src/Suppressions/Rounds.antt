-- ===== src/Suppressions/Rounds.antt =====
-- tsan/suppressions.cc: the loops of NextStackTraceTemplate and NextSuppression, and the text they leave.
use data_race_test.Prelude.{
  ℕ, zero, suc, ◌+◌, ◌<◌, ◌≤◌, ◌≡◌, ◌⊎◌, inl, inr, refl, ap, Bool, true, Option, none, some, List,
  [], ◌∷◌, ◌++◌, length, arith,
}
use data_race_test.Wildcards.{Text}
use data_race_test.Ignores.{eq_text, is_empty}
use data_race_test.Suppressions.{
  Location, StackTraceTemplate, Suppression, Input, Parsed, ok, fail, Problem, no_tools_line,
  no_name,
}
use data_race_test.Suppressions.Frames.{index_of, parse_stack_trace_line}
use data_race_test.Suppressions.Parser.{
  open_brace, close_brace, Step, parse_frame, template_loop, read_template,
  next_stack_trace_template, push_template, templates_loop, check_line, read_body, set_name,
  next_suppression, parse_suppression_tools_line,
}
use data_race_test.Suppressions.Steps.{
  NoAngles, After, and_parse-After, if-After, LineRead, read_line-After, parse_line_returns,
}

-- A line that parses is not empty.
abbrev pub Framed : Input → Text → Location → Input → Type 0
Framed i line l j = (NoAngles j.next × (length j.next ≡ length i.next)) × (0 < length line)

pub parse_frame-After :
    (line : Text) (i : Input)
    → NoAngles line
    → NoAngles i.next
    → After (Framed i line) (parse_frame line i)
unfolding parse_frame parse_stack_trace_line index_of eq_text
parse_frame-After [] i h k = tt
parse_frame-After (c ∷ s) i h k =
    frame (parse_stack_trace_line (c ∷ s)) (parse_line_returns (c ∷ s) h)
  where
    frame :
        (o : Option (Parsed Location))
        → (r : Parsed Location) × (o ≡ some r)
        → After (Framed i (c ∷ s)) (elim o [ none ↦ none | some r ↦ some (r, i) ])
    frame none (r, e) = absurd (cc)
    frame (some (ok l)) (r, e) = ((k, refl), omega arith)
    frame (some (fail p)) (r, e) = tt

abbrev pub Left : Input → Input → Type 0
Left i j = NoAngles j.next × (length j.next ≤ length i.next)

pub After-map {ℓ} :
    {A : Type ℓ} (P Q : A → Input → Type 0) (o : Step A)
    → After P o
    → ((a : A) (j : Input) → P a j → Q a j)
    → After Q o
After-map P Q none h k = h
After-map P Q (some (fail e, j)) h k = tt
After-map P Q (some (ok a, j)) h k = k a j h

pub read_le : (i : Input) (t : Text) (j : Input) → LineRead i t j → length j.next ≤ length i.next
read_le i t j r = elim r.1.1 [
  | inl x ↦ omega arith
  | inr x ↦ omega (arith, ap (λ (s : Text). length s) x.1)
]

pub template_loop-After :
    (f : ℕ) (trace : StackTraceTemplate) (line : Text) (i : Input)
    → NoAngles line
    → NoAngles i.next
    → (length i.next + 1 < f) ⊎ ((line ≡ []) × (0 < f))
    → After (λ t. Left i) (template_loop f trace line i)
unfolding template_loop
template_loop-After zero trace line i h k q =
    absurd (elim q [ inl x ↦ omega arith | inr x ↦ omega (arith, x.1) ])
template_loop-After (suc f) trace line i h k q =
    and_parse-After (Framed i line) (λ t. Left i) _ _ (parse_frame-After line i h k)
      (λ l j p.
        let z : length i.next + 1 < suc f = elim q [
          | inl x ↦ x
          | inr x ↦ absurd (omega (arith, ap (λ (t : Text). length t) x.0, p.1))
        ] in
        and_parse-After (LineRead j) (λ t. Left i) _ _ (read_line-After j p.0.0)
          (λ next m r.
            let le = read_le j next m r in
            if-After (λ t. Left i) (eq_text next close_brace) _ _
              (λ b. (r.1.0, omega (arith, p.0.1)))
              (λ b.
                After-map (λ t. Left m) (λ t. Left i) _
                  (template_loop-After f (trace ++ (l ∷ [])) next m r.0 r.1.0 (elim r.1.1 [
                    | inl x ↦ inl (omega (arith, p.0.1))
                    | inr x ↦ inr (x.0, omega arith)
                  ]))
                  (λ t o y. (y.0, omega (arith, p.0.1, y.1))))))

pub read_template-After :
    (line : Text) (i : Input)
    → NoAngles line
    → NoAngles i.next
    → After (λ t. Left i) (read_template line i)
unfolding read_template
read_template-After line i h k =
    template_loop-After (suc (suc (length i.next))) [] line i h k (inl (omega arith))

-- After a template the text is shorter, unless it was the last.
abbrev pub Passed : Input → Option StackTraceTemplate × Bool → Input → Type 0
Passed i r j =
    NoAngles j.next
    × ((length j.next < length i.next) ⊎ ((r.1 ≡ true) × (length j.next ≤ length i.next)))

pub next_template-After :
    (i : Input) → NoAngles i.next → After (Passed i) (next_stack_trace_template i)
unfolding next_stack_trace_template eq_text
next_template-After i h =
    and_parse-After (LineRead i) (Passed i) _ _ (read_line-After i h) (λ line j r.
      let le = read_le i line j r in
      if-After (Passed i) (eq_text line close_brace) _ _ (λ b. (r.1.0, inr (refl, le)))
        (λ b.
          if-After (Passed i) (eq_text line open_brace) _ _
            (λ c.
              let lt : length j.next < length i.next = elim r.1.1 [
                | inl x ↦ x
                | inr x ↦ absurd (cc (rw (x.0) at c))
              ] in
              and_parse-After (LineRead j) (Passed i) _ _ (read_line-After j r.1.0) (λ inner k s.
                and_parse-After (λ t. Left k) (Passed i) _ _ (read_template-After inner k s.0 s.1.0)
                  (λ t m u. (u.0, inl (omega (arith, read_le j inner k s, u.1))))))
            (λ c.
              and_parse-After (λ t. Left j) (Passed i) _ _ (read_template-After line j r.0 r.1.0)
                (λ t m u. (u.0, inr (refl, omega (arith, u.1)))))))

pub templates_loop-After :
    (f : ℕ) (ts : List StackTraceTemplate) (i : Input)
    → NoAngles i.next
    → length i.next < f
    → After (λ t. Left i) (templates_loop f ts i)
unfolding templates_loop
templates_loop-After zero ts i h q = absurd (omega arith)
templates_loop-After (suc f) ts i h q =
    and_parse-After (Passed i) (λ t. Left i) _ _ (next_template-After i h)
      (λ r j p.
        if-After (λ t. Left i) r.1 _ _ (λ b. (p.0, elim p.1 [ inl x ↦ omega arith | inr x ↦ x.1 ]))
          (λ b.
            let lt : length j.next < length i.next = elim p.1 [
              | inl x ↦ x
              | inr x ↦ absurd (cc (x.0))
            ] in
            After-map (λ t. Left j) (λ t. Left i) _
              (templates_loop-After f (push_template ts r.0) j p.0 (omega arith))
              (λ t m y. (y.0, omega (arith, y.1)))))

pub check_line-After :
    (line : Text) (e : Problem) (i : Input)
    → NoAngles i.next
    → After (λ t. Left i) (check_line line e i)
unfolding check_line
check_line-After line e i h =
    if-After (λ t. Left i) (is_empty line) _ _ (λ b. tt) (λ b. (h, omega arith))

pub tools-After :
    (s : Suppression) (line : Text) (i : Input)
    → NoAngles i.next
    → After (λ (t : Suppression). Left i) (some (parse_suppression_tools_line s line, i))
tools-After s line i h = tools (parse_suppression_tools_line s line)
  where
    tools : (r : Parsed Suppression) → After (λ (t : Suppression). Left i) (some (r, i))
    tools (ok a) = (h, omega arith)
    tools (fail e) = tt

pub read_body-After :
    (supp : Suppression) (i : Input) → NoAngles i.next → After (λ s. Left i) (read_body supp i)
unfolding read_body
read_body-After supp i h =
    and_parse-After (LineRead i) (λ s. Left i) _ _ (read_line-After i h)
      (λ line j r.
        and_parse-After (λ t. Left j) (λ s. Left i) _ _
          (check_line-After line no_tools_line j r.1.0)
          (λ tools k p.
            and_parse-After (λ t. Left k) (λ s. Left i) _ _ (tools-After supp tools k p.0)
              (λ s m y.
                and_parse-After (λ t. Left m) (λ s. Left i) _ _
                  (templates_loop-After (suc (suc (length m.next))) s.templates m y.0 (omega arith))
                  (λ ts n z. (z.0, omega (arith, read_le i line j r, p.1, y.1, z.1))))))

-- After a suppression the text is shorter.
abbrev pub Read : Input → Option Suppression → Input → Type 0
Read i o j = NoAngles j.next × ((o ≡ none) ⊎ (length j.next < length i.next))

pub next_suppression-After :
    (supp : Suppression) (i : Input) → NoAngles i.next → After (Read i) (next_suppression supp i)
unfolding next_suppression is_empty
next_suppression-After supp i h =
    and_parse-After (LineRead i) (Read i) _ _ (read_line-After i h) (λ line j r.
      if-After (Read i) (is_empty line) _ _ (λ b. (r.1.0, inl refl))
        (λ b.
          let lt : length j.next < length i.next = elim r.1.1 [
            | inl x ↦ x
            | inr x ↦ absurd (cc (rw (x.0) at b))
          ] in
          if-After (Read i) (eq_text line open_brace) _ _
            (λ c. and_parse-After (LineRead j) (Read i) _ _ (read_line-After j r.1.0) (λ name k p.
              and_parse-After (λ t. Left k) (Read i) _ _ (check_line-After name no_name k p.1.0)
                (λ n m y.
                  and_parse-After (λ s. Left m) (Read i) _ _
                    (read_body-After (set_name supp n) m y.0)
                    (λ s o z. (z.0, inr (omega (arith, read_le j name k p, y.1, z.1)))))))
            (λ c. tt)))
