-- ===== src/Suppressions/Parser.antt =====
-- tsan/suppressions.cc: ThreadSanitizerParser from ParseSuppressionToolsLine to NextSuppression, and
-- ReadFromString. None stands for a call that does not return.
use data_race_test.Prelude.{
  ℕ, zero, suc, ◌-◌, Bool, true, false, Option, none, some, List, [], ◌∷◌, ◌++◌, if◌then◌else◌,
  length, take, drop,
}
use data_race_test.Wildcards.{Text}
use data_race_test.Ignores.{eq_text, is_empty}
use data_race_test.Suppressions.{
  Location, StackTraceTemplate, Suppression, Problem, no_open_brace, no_name, no_tools_line,
  no_tools_colon, empty_tools, empty_warning_name, Input, Parsed, ok, fail, next_line_skip_comments,
}
use data_race_test.Suppressions.Frames.{index_of, parse_stack_trace_line}

-- The loop that cuts s1 at each ','; one round for each byte is enough.
unfoldable pub split_tools : ℕ → Text → List Text → List Text
split_tools zero s1 tools = tools
split_tools (suc f) s1 tools = elim (index_of b',' s1) [
  | none ↦ tools ++ (s1 ∷ [])
  | some i ↦ split_tools f (drop (suc i) s1) (tools ++ (take i s1 ∷ []))
]

unfoldable pub tools_parts : Suppression → Text → Text → Parsed Suppression
tools_parts supp s1 s2 =
    if is_empty s1
    then fail empty_tools
    else if is_empty s2
    then fail empty_warning_name
    else ok (record {
      name = supp.name;
      tools = split_tools (suc (length s1)) s1 supp.tools;
      warning_name = s2;
      templates = supp.templates;
    })

unfoldable pub parse_suppression_tools_line : Suppression → Text → Parsed Suppression
parse_suppression_tools_line supp line = elim (index_of b':' line) [
  | none ↦ fail no_tools_colon
  | some i ↦ tools_parts supp (take i line) (drop (suc i) line)
]

abbrev pub open_brace : Text
open_brace = b'{' ∷ []

abbrev pub close_brace : Text
close_brace = b'}' ∷ []

-- A step of the parser with the input that it leaves.
abbrev pub Step {ℓ} : Type ℓ → Type ℓ
Step A = Option (Parsed A × Input)

unfoldable pub and_parse {ℓ κ} : {A : Type ℓ} {B : Type κ} → Step A → (A → Input → Step B) → Step B
and_parse none next = none
and_parse (some (fail e, i)) next = some (fail e, i)
and_parse (some (ok a, i)) next = next a i

unfoldable pub read_line : Input → Step Text
read_line i = elim (next_line_skip_comments i) [ none ↦ none | some r ↦ some (ok r.0, r.1) ]

unfoldable pub parse_frame : Text → Input → Step Location
parse_frame line i = elim (parse_stack_trace_line line) [ none ↦ none | some r ↦ some (r, i) ]

-- The loop of NextStackTraceTemplate, with the locations pushed so far.
unfoldable pub template_loop : ℕ → StackTraceTemplate → Text → Input → Step StackTraceTemplate
template_loop zero trace line i = none
template_loop (suc f) trace line i = and_parse (parse_frame line i) (λ l j.
    and_parse (read_line j) (λ next k.
      let rest = template_loop f (trace ++ (l ∷ [])) next k in
      if eq_text next close_brace then some (ok (trace ++ (l ∷ [])), k) else rest))

-- One round for each line that is left and one for the end of the text.
unfoldable pub read_template : Text → Input → Step StackTraceTemplate
read_template line i = template_loop (suc (suc (length i.next))) [] line i

-- NextStackTraceTemplate: the template, if there is one, and whether it is the last.
unfoldable pub next_stack_trace_template : Input → Step (Option StackTraceTemplate × Bool)
next_stack_trace_template i = and_parse (read_line i) (λ line j.
    if eq_text line close_brace
    then some (ok (none, true), j)
    else if eq_text line open_brace
    then and_parse (read_line j)
        (λ inner k. and_parse (read_template inner k) (λ t m. some (ok (some t, false), m)))
    else and_parse (read_template line j) (λ t m. some (ok (some t, true), m)))

unfoldable pub push_template :
    List StackTraceTemplate → Option StackTraceTemplate → List StackTraceTemplate
push_template ts none = ts
push_template ts (some t) = ts ++ (t ∷ [])

-- The loop over the templates, with those that the suppression has so far.
unfoldable pub templates_loop : ℕ → List StackTraceTemplate → Input → Step (List StackTraceTemplate)
templates_loop zero ts i = none
templates_loop (suc f) ts i = and_parse (next_stack_trace_template i) (λ r j.
    let rest = templates_loop f (push_template ts r.0) j in
    if r.1 then some (ok (push_template ts r.0), j) else rest)

unfoldable pub check_line : Text → Problem → Input → Step Text
check_line line e i = if is_empty line then some (fail e, i) else some (ok line, i)

-- NextSuppression after the name: the tools line and the templates.
unfoldable pub read_body : Suppression → Input → Step Suppression
read_body supp i = and_parse (read_line i) (λ line j.
    and_parse (check_line line no_tools_line j) (λ tools k.
      and_parse (some (parse_suppression_tools_line supp tools, k)) (λ s m.
        and_parse (templates_loop (suc (suc (length m.next))) s.templates m) (λ ts n. some (
          ok (record {
            name = s.name;
            tools = s.tools;
            warning_name = s.warning_name;
            templates = ts;
          }),
          n,
        )))))

unfoldable pub set_name : Suppression → Text → Suppression
set_name supp name = record {
  name = name;
  tools = supp.tools;
  warning_name = supp.warning_name;
  templates = supp.templates;
}

-- NextSuppression, which writes into `supp`: none where it returns false at the end of the text.
unfoldable pub next_suppression : Suppression → Input → Step (Option Suppression)
next_suppression supp i = and_parse (read_line i) (λ line j.
    if is_empty line
    then some (ok none, j)
    else if eq_text line open_brace
    then and_parse (read_line j) (λ name k.
      and_parse (check_line name no_name k)
        (λ n m. and_parse (read_body (set_name supp n) m) (λ s o. some (ok (some s), o))))
    else some (fail no_open_brace, j))

-- The loop of ReadFromString: all suppressions are read into one object and copied from there.
-- The error, where there is one, and the vector of suppressions.
unfoldable pub read_loop :
    ℕ
    → Suppression
    → List Suppression
    → Input
    → Option (Parsed (List Suppression) × (List Suppression × ℕ))
read_loop zero supp all i = none
read_loop (suc f) supp all i = elim (next_suppression supp i) [
  | none ↦ none
  | some (fail e, j) ↦ some (fail e, (all, j.line_no))
  | some (ok none, j) ↦ some (ok all, (all, j.line_no))
  | some (ok (some s), j) ↦ read_loop f s (all ++ (s ∷ [])) j
]

abbrev pub new_suppression : Suppression
new_suppression = record { name = []; tools = []; warning_name = []; templates = [] }

-- SuppressionsRep
pub record SuppressionsRep : Type 0 where
  pub suppressions : List Suppression
  pub error_string : Option Problem
  pub error_line_no : ℕ

-- ReadFromString: the number of new suppressions, none for -1.
unfoldable pub read_from_string : SuppressionsRep → Text → Option (Option ℕ × SuppressionsRep)
read_from_string rep str =
    elim (read_loop (suc (length str)) new_suppression rep.suppressions
      (record { next = str; line_no = 0 })) [
        | none ↦ none
        | some (fail e, r) ↦
            some (none, record { suppressions = r.0; error_string = some e; error_line_no = r.1 })
        | some (ok all, r) ↦ some (
          some (length all - length rep.suppressions),
          record {
            suppressions = all;
            error_string = rep.error_string;
            error_line_no = rep.error_line_no;
          },
        )
      ]
