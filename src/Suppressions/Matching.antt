-- ===== src/Suppressions/Matching.antt =====
-- tsan/suppressions.cc: which suppression StackTraceSuppressed names.
use data_race_test.Prelude.{
  ℕ, zero, suc, ◌<◌, ◌≡◌, ◌⊎◌, ◌↔◌, inl, inr, refl, Bool, true, false, ◌&&◌, Option, none, some,
  List, [], ◌∷◌, length, arith, Bool-cases, All, get_elem?, drop,
}
use data_race_test.Wildcards.{Text, string_match}
use data_race_test.Wildcards.Matches.{Matches}
use data_race_test.Wildcards.Shortcuts.{string_match-Decides}
use data_race_test.Ignores.{eq_text}
use data_race_test.Ignores.Lookup.{
  eq_text_iff, Found, Found-cons, Decides, or_else-Decides, and_then-Decides, Readable,
}
use data_race_test.Suppressions.{Location, lt_star, lt_obj, lt_fun, StackTraceTemplate, Suppression}
use data_race_test.Suppressions.Stacks.{
  Frame, match_location, try_each, match_stack, any_template, has_tool, named,
  stack_trace_suppressed,
}

-- The template covers the top of the stack: a frame for each location, where "..." stands for any number
-- of frames after which at least one is left.
abbrev pub Covers : StackTraceTemplate → List Frame → Type 0
Covers [] fs = Unit
Covers (l ∷ ls) [] = ⊥
Covers (lt_star ∷ ls) (f ∷ fs) = (k : ℕ) × (k < length (f ∷ fs)) × Covers ls (drop k (f ∷ fs))
Covers (lt_obj name ∷ ls) (f ∷ fs) = Matches name f.object × Covers ls fs
Covers (lt_fun name ∷ ls) (f ∷ fs) =
    (Matches name f.mangled ⊎ Matches name f.demangled) × Covers ls fs

abbrev pub ReadableLocation : Location → Type 0
ReadableLocation lt_star = Unit
ReadableLocation (lt_obj name) = Readable name
ReadableLocation (lt_fun name) = Readable name

-- Every name of the frame is known.
abbrev pub Known : Frame → Type 0
Known f = Readable f.mangled × (Readable f.demangled × Readable f.object)

match-Decides : (p t : Text) → Readable p → Readable t → Decides (Matches p t) (string_match p t)
match-Decides p t r k = string_match-Decides p t r.1 k.1 (r.0, inl k.0)

abbrev Later : (List Frame → Type 0) → List Frame → Type 0
Later P fs = (k : ℕ) × (k < length fs) × P (drop k fs)

Later-cons :
    (P : List Frame → Type 0) (f : Frame) (fs : List Frame)
    → (P (f ∷ fs) ⊎ Later P fs) ↔ Later P (f ∷ fs)
Later-cons P f fs = (to, from)
  where
    to : P (f ∷ fs) ⊎ Later P fs → Later P (f ∷ fs)
    to (inl p) = (0, omega arith, p)
    to (inr (k, h, p)) = (suc k, omega arith, p)

    from : Later P (f ∷ fs) → P (f ∷ fs) ⊎ Later P fs
    from (zero, h, p) = inl p
    from (suc k, h, p) = inr (k, omega arith, p)

try_each-Decides :
    (P : List Frame → Type 0) (rest : List Frame → Option Bool) (fs : List Frame)
    → ((gs : List Frame) → All Known gs → Decides (P gs) (rest gs))
    → All Known fs
    → Decides (Later P fs) (try_each rest fs)
unfolding try_each
try_each-Decides P rest [] h k = (false, refl, ((λ e. absurd (cc)), λ z. absurd (omega arith)))
try_each-Decides P rest (f ∷ fs) h k =
    let d = or_else-Decides _ _ _ _ (h (f ∷ fs) k) (try_each-Decides P rest fs h k.1) in
    let l = Later-cons P f fs in (d.0, d.1, ((λ e. l.0 (d.2.0 e)), λ z. d.2.1 (l.1 z)))

match_stack-Decides :
    (ls : StackTraceTemplate) (fs : List Frame)
    → All ReadableLocation ls
    → All Known fs
    → Decides (Covers ls fs) (match_stack ls fs)
unfolding match_stack match_location
match_stack-Decides [] fs r k = (true, refl, ((λ e. tt), λ z. refl))
match_stack-Decides (l ∷ ls) [] r k = (false, refl, ((λ e. absurd (cc)), λ z. absurd z))
match_stack-Decides (lt_star ∷ ls) (f ∷ fs) r k =
    try_each-Decides (Covers ls) (match_stack ls) (f ∷ fs) (λ gs g. match_stack-Decides ls gs r.1 g)
      k
match_stack-Decides (lt_obj name ∷ ls) (f ∷ fs) r k =
    and_then-Decides _ _ _ _ (match-Decides name f.object r.0 k.0.1.1)
      (match_stack-Decides ls fs r.1 k.1)
match_stack-Decides (lt_fun name ∷ ls) (f ∷ fs) r k =
    and_then-Decides _ _ _ _
      (or_else-Decides _ _ _ _ (match-Decides name f.mangled r.0 k.0.0)
        (match-Decides name f.demangled r.0 k.0.1.0))
      (match_stack-Decides ls fs r.1 k.1)

any_template-Decides :
    (ts : List StackTraceTemplate) (fs : List Frame)
    → All (All ReadableLocation) ts
    → All Known fs
    → Decides (Found (λ t. Covers t fs) ts) (any_template ts fs)
unfolding any_template
any_template-Decides [] fs r k = (false, refl, ((λ e. absurd (cc)), λ f. absurd (cc (f.2))))
any_template-Decides (t ∷ ts) fs r k =
    let d =
      or_else-Decides _ _ _ _ (match_stack-Decides t fs r.0 k) (any_template-Decides ts fs r.1 k) in
    let f = Found-cons (λ u. Covers u fs) t ts in
    (d.0, d.1, ((λ e. f.0 (d.2.0 e)), λ z. d.2.1 (f.1 z)))

has_tool_iff : (tool : Text) (ts : List Text) → (has_tool tool ts ≡ true) ↔ Found (λ t. t ≡ tool) ts
unfolding has_tool
has_tool_iff tool [] = ((λ e. absurd (cc)), λ f. absurd (cc (f.2)))
has_tool_iff tool (t ∷ ts) =
    let f = Found-cons (λ u. u ≡ tool) t ts in
    let h = has_tool_iff tool ts in
    let e = eq_text_iff t tool in
    elim (Bool-cases (eq_text t tool)) [
      | inl b ↦ rw (has_tool, b) ((λ z. f.0 (inl (e.0 b))), λ z. refl)
      | inr b ↦
          rw (has_tool, b)
            (
              (λ z. f.0 (inr (h.0 z))),
              λ z. elim (f.1 z) [ inl q ↦ absurd (cc (e.1 q)) | inr q ↦ h.1 q ],
            )
    ]

-- The suppression is for the tool and the warning, and one of its templates covers the stack.
abbrev pub Applies : Text → Text → List Frame → Suppression → Type 0
Applies tool warning fs s =
    ((s.warning_name ≡ warning) × Found (λ t. t ≡ tool) s.tools)
    × Found (λ t. Covers t fs) s.templates

-- The answer: the name of the first suppression that applies, or that there is none.
abbrev pub Chosen : Text → Text → List Frame → List Suppression → Option Text → Type 0
Chosen tool warning fs ss none =
    (i : ℕ) (s : Suppression) → get_elem? ss i ≡ some s → ¬ Applies tool warning fs s
Chosen tool warning fs ss (some name) =
    (i : ℕ) × (s : Suppression) × (get_elem? ss i ≡ some s)
    × (Applies tool warning fs s × (s.name ≡ name))
    × ((j : ℕ) (t : Suppression) → j < i → get_elem? ss j ≡ some t → ¬ Applies tool warning fs t)

abbrev Chooses : Text → Text → List Frame → List Suppression → Option (Option Text) → Type 0
Chooses tool warning fs ss o = (r : Option Text) × (o ≡ some r) × Chosen tool warning fs ss r

chosen_later :
    (tool warning : Text) (fs : List Frame) (s : Suppression) (ss : List Suppression)
    (o : Option (Option Text))
    → ¬ Applies tool warning fs s
    → Chooses tool warning fs ss o
    → Chooses tool warning fs (s ∷ ss) o
chosen_later tool warning fs s ss o n (none, e, c) = (none, e, all)
  where
    all : (i : ℕ) (t : Suppression) → get_elem? (s ∷ ss) i ≡ some t → ¬ Applies tool warning fs t
    all zero t g = let q : t ≡ s = cc in rw q n
    all (suc i) t g = c i t g
chosen_later tool warning fs s ss o n (some name, e, (i, t, g, a, b)) =
    (some name, e, (suc i, t, g, a, before))
  where
    before :
        (j : ℕ) (u : Suppression)
        → j < suc i
        → get_elem? (s ∷ ss) j ≡ some u
        → ¬ Applies tool warning fs u
    before zero u l h = let q : u ≡ s = cc in rw q n
    before (suc j) u l h = b j u (omega arith) h

-- StackTraceSuppressed, on suppressions with readable patterns and a stack whose names are known,
-- returns; it names the first suppression of the tool and the warning that has a template covering
-- the top of the stack, and none exactly if there is no such suppression.
pub stack_trace_suppressed-Chosen :
    (ss : List Suppression) (tool warning : Text) (fs : List Frame)
    → All (λ s. All (All ReadableLocation) s.templates) ss
    → All Known fs
    → (r : Option Text) × (stack_trace_suppressed ss tool warning fs ≡ some r)
      × Chosen tool warning fs ss r
unfolding stack_trace_suppressed named
stack_trace_suppressed-Chosen [] tool warning fs r k = (none, refl, λ i s e. absurd (cc))
stack_trace_suppressed-Chosen (s ∷ ss) tool warning fs r k =
    let rest = stack_trace_suppressed-Chosen ss tool warning fs r.1 k in
    let w = eq_text_iff s.warning_name warning in
    let h = has_tool_iff tool s.tools in
    let d = any_template-Decides s.templates fs r.0 k in
    elim (Bool-cases (eq_text s.warning_name warning && has_tool tool s.tools)) [
      | inr b ↦
          rw (stack_trace_suppressed, b)
            (chosen_later tool warning fs s ss _ (λ a. ground (arith, w.1 a.0.0, h.1 a.0.1)) rest)
      | inl b ↦ elim (Bool-cases d.0) [
        | inl q ↦
            rw (stack_trace_suppressed, b, d.1, q)
              (
                some s.name,
                refl,
                (
                  0,
                  s,
                  refl,
                  (((w.0 (ground arith), h.0 (ground arith)), d.2.0 q), refl),
                  λ j t l. absurd (omega arith),
                ),
              )
        | inr q ↦
            rw (stack_trace_suppressed, b, d.1, q)
              (chosen_later tool warning fs s ss _ (λ a. cc (d.2.1 a.1)) rest)
      ]
    ]
