-- ===== src/Suppressions/Stacks.antt =====
-- tsan/suppressions.cc, MatchStackTraceRecursive and StackTraceSuppressed: whether a stack is
-- covered by a suppression. The three vectors of names have one length, so a stack is a list of
-- frames, and an index into it the list of the frames from there on.
use data_race_test.Prelude.{
  Bool, true, false, ◌&&◌, ◌||◌, Option, none, some, List, [], ◌∷◌, if◌then◌else◌,
}
use data_race_test.Wildcards.{Text, string_match}
use data_race_test.Ignores.{eq_text, or_else, and_then}
use data_race_test.Suppressions.{Location, lt_star, lt_obj, lt_fun, StackTraceTemplate, Suppression}

pub record Frame : Type 0 where
  pub mangled : Text
  pub demangled : Text
  pub object : Text

unfoldable pub match_location : Location → Frame → Option Bool
match_location lt_star f = some true
match_location (lt_obj name) f = string_match name f.object
match_location (lt_fun name) f =
    or_else (string_match name f.mangled) (string_match name f.demangled)

-- The inner while loop at a location "...": the rest of the template is tried at each frame.
unfoldable pub try_each : (List Frame → Option Bool) → List Frame → Option Bool
try_each rest [] = some false
try_each rest (f ∷ fs) = or_else (rest (f ∷ fs)) (try_each rest fs)

unfoldable pub match_stack : StackTraceTemplate → List Frame → Option Bool
match_stack [] fs = some true
match_stack (l ∷ ls) [] = some false
match_stack (lt_star ∷ ls) (f ∷ fs) = try_each (match_stack ls) (f ∷ fs)
match_stack (lt_obj name ∷ ls) (f ∷ fs) =
    and_then (match_location (lt_obj name) f) (match_stack ls fs)
match_stack (lt_fun name ∷ ls) (f ∷ fs) =
    and_then (match_location (lt_fun name) f) (match_stack ls fs)

unfoldable pub any_template : List StackTraceTemplate → List Frame → Option Bool
any_template [] fs = some false
any_template (t ∷ ts) fs = or_else (match_stack t fs) (any_template ts fs)

unfoldable pub has_tool : Text → List Text → Bool
has_tool tool [] = false
has_tool tool (t ∷ ts) = eq_text t tool || has_tool tool ts

-- The name of the suppression in whose templates the stack is found.
unfoldable pub named : Text → Option Bool → Option (Option Text) → Option (Option Text)
named name none rest = none
named name (some true) rest = some (some name)
named name (some false) rest = rest

unfoldable pub stack_trace_suppressed :
    List Suppression → Text → Text → List Frame → Option (Option Text)
stack_trace_suppressed [] tool warning fs = some none
stack_trace_suppressed (s ∷ ss) tool warning fs =
    let rest = stack_trace_suppressed ss tool warning fs in
    if eq_text s.warning_name warning && has_tool tool s.tools
    then named s.name (any_template s.templates fs) rest
    else rest
