-- ===== src/Suppressions/Written.antt =====
-- Suppressions as a file holds them, line by line, and how one line of them is read.
use data_race_test.Prelude.{
  ℕ, zero, suc, ◌+◌, ◌<◌, ◌≤◌, ◌≡◌, ◌≢◌, inl, inr, refl, ap, ◌∙◌, true, false, not, ◌||◌, Option,
  none, some, List, [], ◌∷◌, ◌++◌, ◌==◌, length, arith, All, ltb, take, drop, length-append,
}
use data_race_test.Wildcards.{Text}
use data_race_test.Ignores.{eq_text, is_empty}
use data_race_test.Suppressions.{
  Location, lt_star, lt_obj, lt_fun, Suppression, Input, ok, take_line, next_line, is_blank,
  strip_left, keep_right, strip_right, content, skip_lines, next_line_skip_comments,
}
use data_race_test.Suppressions.Frames.{
  index_of, find_angle, is_angle, check_angles, has_paren, is_objc, finish_fun, parse_fun,
  parse_parts, parse_stack_trace_line, dots, obj_word, fun_word,
}
use data_race_test.Suppressions.Operators.{ParenthesesFine}
use data_race_test.Suppressions.Parser.{
  split_tools, tools_parts, parse_suppression_tools_line, open_brace, close_brace, read_line,
}

abbrev pub FirstPlain : Text → Type 0
FirstPlain [] = ⊥
FirstPlain (c ∷ s) = (c ≢ b'#') × ((c ≢ b' ') × (c ≢ b'\t'))

abbrev pub LastPlain : Text → Type 0
LastPlain [] = ⊥
LastPlain (c ∷ []) = (c ≢ b' ') × (c ≢ b'\t')
LastPlain (c ∷ d ∷ s) = LastPlain (d ∷ s)

-- One line that is no comment, with nothing to strip.
abbrev pub Clean : Text → Type 0
Clean s = All (λ c. c ≢ b'\n') s × (FirstPlain s × LastPlain s)

abbrev pub unlines : List Text → Text
unlines [] = []
unlines (l ∷ ls) = l ++ (b'\n' ∷ unlines ls)

abbrev pub input : List Text → ℕ → Input
input ls n = record { next = unlines ls; line_no = n }

-- A suppression: its tools are the first and the others, each template has a first frame and others.
pub record Written : Type 0 where
  pub name : Text
  pub tool : Text
  pub tools : List Text
  pub warning_name : Text
  pub templates : List (Location × List Location)

abbrev pub frame_line : Location → Text
frame_line lt_star = dots
frame_line (lt_obj p) = obj_word ++ (b':' ∷ p)
frame_line (lt_fun p) = fun_word ++ (b':' ∷ p)

abbrev pub join_tools : Text → List Text → Text
join_tools t [] = t
join_tools t (u ∷ us) = t ++ (b',' ∷ join_tools u us)

abbrev pub tools_line : Written → Text
tools_line w = join_tools w.tool w.tools ++ (b':' ∷ w.warning_name)

-- The lines, before the lines `rest`.
abbrev pub frame_lines : List Location → List Text → List Text
frame_lines [] rest = close_brace ∷ rest
frame_lines (l ∷ ls) rest = frame_line l ∷ frame_lines ls rest

abbrev pub template_lines : List (Location × List Location) → List Text → List Text
template_lines [] rest = close_brace ∷ rest
template_lines ((l, ls) ∷ ts) rest =
    open_brace ∷ frame_line l ∷ frame_lines ls (template_lines ts rest)

abbrev pub written_lines : List Written → List Text
written_lines [] = []
written_lines (w ∷ ws) =
    open_brace ∷ w.name ∷ tools_line w ∷ template_lines w.templates (written_lines ws)

abbrev pub GoodFrame : Location → Type 0
GoodFrame lt_star = Unit
GoodFrame (lt_obj p) = Clean (frame_line (lt_obj p))
GoodFrame (lt_fun p) =
    Clean (frame_line (lt_fun p)) × (All (λ c. (c ≢ b'<') × (c ≢ b'>')) p × ParenthesesFine p)

abbrev pub GoodTool : Text → Type 0
GoodTool t = All (λ c. (c ≢ b',') × (c ≢ b':')) t

abbrev pub GoodTemplate : Location × List Location → Type 0
GoodTemplate (l, ls) = GoodFrame l × All GoodFrame ls

pub record IsGood (w : Written) : Type 0 where
  pub name : Clean w.name
  pub first : 0 < length w.tool
  pub tool : GoodTool w.tool
  pub tools : All GoodTool w.tools
  pub warning : 0 < length w.warning_name
  pub line : Clean (tools_line w)
  pub templates : All GoodTemplate w.templates

take_line_lem : (s t : Text) → All (λ c. c ≢ b'\n') s → take_line (s ++ (b'\n' ∷ t)) ≡ (s, t)
unfolding take_line
take_line_lem [] t h = refl
take_line_lem (c ∷ s) t h =
    let b : (c == b'\n') ≡ false = ground (arith, h.0) in
    rw (take_line, b, take_line_lem s t h.1) refl

strip_right_plain : (s : Text) → LastPlain s → strip_right s ≡ s
unfolding strip_right keep_right is_blank
strip_right_plain [] h = absurd h
strip_right_plain (c ∷ []) h = ground arith
strip_right_plain (c ∷ d ∷ s) h = ap (keep_right c) (strip_right_plain (d ∷ s) h)

content_clean : (s : Text) → Clean s → content s ≡ some s
unfolding content strip_left is_blank is_empty
content_clean [] h = absurd h.1.0
content_clean (c ∷ s) h =
    let b : (c == b'#') ≡ false = ground (arith, h.1.0.0) in
    let d : ((c == b' ') || (c == b'\t')) ≡ false = ground (arith, h.1.0.1.0, h.1.0.1.1) in
    rw (content, b, strip_left, d, strip_right_plain (c ∷ s) h.1.1) refl

next_line_lem :
    (l : Text) (ls : List Text) (n : ℕ)
    → All (λ c. c ≢ b'\n') l
    → next_line (input (l ∷ ls) n) ≡ (l, input ls (n + 1))
unfolding next_line
next_line_lem l ls n h =
    ap (λ (r : Text × Text). (r.0, record { next = r.1; line_no = n + 1 }))
      (take_line_lem l (unlines ls) h)

skip_lines_first :
    (f : ℕ) (l : Text) (ls : List Text) (n : ℕ)
    → Clean l
    → skip_lines (suc f) (input (l ∷ ls) n) ≡ some (l, input ls (n + 1))
unfolding skip_lines is_empty
skip_lines_first f [] ls n h = absurd h.1.0
skip_lines_first f (c ∷ s) ls n h =
    ap
      (λ (r : Text × Input). elim (content r.0) as (λ o. Option (Text × Input)) [
        | some t ↦ some (t, r.1)
        | none ↦ skip_lines f r.1
      ])
      (next_line_lem (c ∷ s) ls n h.0)
    ∙ rw (content_clean (c ∷ s) h) refl

pub next-read_line :
    (l : Text) (ls : List Text) (n : ℕ)
    → Clean l
    → read_line (input (l ∷ ls) n) ≡ some (ok l, input ls (n + 1))
unfolding read_line next_line_skip_comments
next-read_line l ls n h =
    let e = skip_lines_first (length (unlines (l ∷ ls))) l ls n h in
    rw (read_line, next_line_skip_comments, e) refl

pub end-read_line : (n : ℕ) → read_line (input [] n) ≡ some (ok [], input [] n)
unfolding read_line next_line_skip_comments skip_lines next_line is_empty
end-read_line n = refl

pub length-unlines : (ls : List Text) → length ls ≤ length (unlines ls)
length-unlines [] = omega arith
length-unlines (l ∷ ls) = omega (arith, length-append l (b'\n' ∷ unlines ls), length-unlines ls)

index_of_first :
    (c : ℕ) (s t : Text) → All (λ x. x ≢ c) s → index_of c (s ++ (c ∷ t)) ≡ some (length s)
unfolding index_of
index_of_first c [] t h = ground arith
index_of_first c (x ∷ s) t h =
    let b : (x == c) ≡ false = ground (arith, h.0) in
    rw (index_of, b, index_of_first c s t h.1) refl

index_of_absent : (c : ℕ) (s : Text) → All (λ x. x ≢ c) s → index_of c s ≡ none
unfolding index_of
index_of_absent c [] h = refl
index_of_absent c (x ∷ s) h =
    let b : (x == c) ≡ false = ground (arith, h.0) in rw (index_of, b, index_of_absent c s h.1) refl

take_prefix : (s t : Text) → take (length s) (s ++ t) ≡ s
take_prefix [] t = refl
take_prefix (x ∷ s) t = ap (λ r. x ∷ r) (take_prefix s t)

drop_prefix : (c : ℕ) (s t : Text) → drop (suc (length s)) (s ++ (c ∷ t)) ≡ t
drop_prefix c [] t = refl
drop_prefix c (x ∷ s) t = drop_prefix c s t

no_angle : (s : Text) (i : ℕ) → All (λ c. (c ≢ b'<') × (c ≢ b'>')) s → find_angle s 0 i ≡ none
unfolding find_angle
no_angle [] i h = refl
no_angle (c ∷ s) i h =
    let b : is_angle c ≡ false = ground (arith, h.0.0, h.0.1) in
    rw (find_angle, b, no_angle s (suc i) h.1) refl

pub check_fine :
    (s : Text) (f : ℕ) → All (λ c. (c ≢ b'<') × (c ≢ b'>')) s → check_angles (suc f) s 0 ≡ some true
unfolding check_angles
check_fine [] f h = refl
check_fine (c ∷ s) f h =
    let b : ltb 0 (length (c ∷ s)) ≡ true = ground arith in
    rw (check_angles, b, no_angle (c ∷ s) 0 h) refl

pub parse-frame_line :
    (l : Location) → GoodFrame l → parse_stack_trace_line (frame_line l) ≡ some (ok l)
unfolding parse_stack_trace_line parse_parts parse_fun finish_fun eq_text index_of
parse-frame_line lt_star h = refl
parse-frame_line (lt_obj p) h = refl
parse-frame_line (lt_fun p) h =
    let b : (not (has_paren p) || is_objc p) ≡ true = elim h.1.1 [
      | inl e ↦ ground arith
      | inr e ↦ ground arith
    ] in
    rw (parse_fun, b, check_fine p (length p) h.1.0, finish_fun) refl

-- A frame's line is not a closing brace.
pub frame_open : (l : Location) → eq_text (frame_line l) close_brace ≡ false
unfolding eq_text
frame_open lt_star = refl
frame_open (lt_obj p) = refl
frame_open (lt_fun p) = refl

pub frame-Clean : (l : Location) → GoodFrame l → Clean (frame_line l)
frame-Clean lt_star h = ground arith
frame-Clean (lt_obj p) h = h
frame-Clean (lt_fun p) h = h.0

append_tools : (a b c : List Text) → (a ++ b) ++ c ≡ a ++ (b ++ c)
append_tools [] b c = refl
append_tools (x ∷ a) b c = ap (λ r. x ∷ r) (append_tools a b c)

no_comma : (t : Text) → GoodTool t → All (λ x. x ≢ b',') t
no_comma [] h = tt
no_comma (c ∷ t) h = (h.0.0, no_comma t h.1)

no_colon : (t : Text) → GoodTool t → All (λ x. x ≢ b':') t
no_colon [] h = tt
no_colon (c ∷ t) h = (h.0.1, no_colon t h.1)

append-no_colon :
    (s t : Text) → All (λ x. x ≢ b':') s → All (λ x. x ≢ b':') t → All (λ x. x ≢ b':') (s ++ t)
append-no_colon [] t h k = k
append-no_colon (c ∷ s) t h k = (h.0, append-no_colon s t h.1 k)

join-no_colon :
    (t : Text) (us : List Text)
    → GoodTool t
    → All GoodTool us
    → All (λ x. x ≢ b':') (join_tools t us)
join-no_colon t [] h k = no_colon t h
join-no_colon t (u ∷ us) h k =
    append-no_colon t (b',' ∷ join_tools u us) (no_colon t h)
      (omega arith, join-no_colon u us k.0 k.1)

split-join_tools :
    (us : List Text) (t : Text) (f : ℕ) (acc : List Text)
    → GoodTool t
    → All GoodTool us
    → length us < f
    → split_tools f (join_tools t us) acc ≡ acc ++ (t ∷ us)
unfolding split_tools
split-join_tools us t zero acc h k l = absurd (omega arith)
split-join_tools [] t (suc f) acc h k l =
    rw (split_tools, index_of_absent b',' t (no_comma t h)) refl
split-join_tools (u ∷ us) t (suc f) acc h k l =
    rw
      (
        split_tools,
        index_of_first b',' t (join_tools u us) (no_comma t h),
        take_prefix t (b',' ∷ join_tools u us),
        drop_prefix b',' t (join_tools u us),
      )
      (split-join_tools us u f (acc ++ (t ∷ [])) k.0 k.1 (omega arith)
        ∙ append_tools acc (t ∷ []) (u ∷ us))

length-join_tools : (us : List Text) (t : Text) → length us ≤ length (join_tools t us)
length-join_tools [] t = omega arith
length-join_tools (u ∷ us) t =
    omega (arith, length-append t (b',' ∷ join_tools u us), length-join_tools us u)

-- The tools and the warning of a suppression, put into one that may hold others.
abbrev pub with_tools : Suppression → Written → Suppression
with_tools s w = record {
  name = s.name;
  tools = s.tools ++ (w.tool ∷ w.tools);
  warning_name = w.warning_name;
  templates = s.templates;
}

join_nonempty : (t : Text) (us : List Text) → 0 < length t → is_empty (join_tools t us) ≡ false
unfolding is_empty
join_nonempty [] us h = absurd (omega arith)
join_nonempty (c ∷ t) [] h = refl
join_nonempty (c ∷ t) (u ∷ us) h = refl

text_nonempty : (t : Text) → 0 < length t → is_empty t ≡ false
unfolding is_empty
text_nonempty [] h = absurd (omega arith)
text_nonempty (c ∷ t) h = refl

pub parse-tools_line :
    (s : Suppression) (w : Written)
    → IsGood w
    → parse_suppression_tools_line s (tools_line w) ≡ ok (with_tools s w)
unfolding parse_suppression_tools_line tools_parts
parse-tools_line s w g =
    let j = join_tools w.tool w.tools in
    rw
      (
        parse_suppression_tools_line,
        index_of_first b':' j w.warning_name (join-no_colon w.tool w.tools g.tool g.tools),
        take_prefix j (b':' ∷ w.warning_name),
        drop_prefix b':' j w.warning_name,
        tools_parts,
        join_nonempty w.tool w.tools g.first,
        text_nonempty w.warning_name g.warning,
        split-join_tools w.tools w.tool (suc (length j)) s.tools g.tool g.tools
            (omega (arith, length-join_tools w.tools w.tool)),
      )
      refl
