-- ===== src/Witnesses/Suppressed.antt =====
-- Suppressions at concrete texts and stacks.
use data_race_test.Prelude.{ℕ, ◌≡◌, ◌↔◌, inl, refl, Option, none, some, [], ◌∷◌, ◌++◌, arith}
use data_race_test.Wildcards.{Text}
use data_race_test.Suppressions.{lt_star, lt_obj, lt_fun, Suppression}
use data_race_test.Suppressions.Stacks.{Frame, stack_trace_suppressed}
use data_race_test.Suppressions.Matching.{Chosen, stack_trace_suppressed-Chosen}
use data_race_test.Suppressions.Frames.{fun_word, check_angles, parse_stack_trace_line, has_paren}
use data_race_test.Suppressions.Operators.{Hangs, ParenthesesFine, parse_stack_trace_line-Hangs}
use data_race_test.Suppressions.Parser.{SuppressionsRep, read_from_string, new_suppression}
use data_race_test.Suppressions.Written.{Written, IsGood, unlines, written_lines}
use data_race_test.Suppressions.Accumulated.{accumulated, read_from_string-accumulated}
use data_race_test.Suppressions.Returns.{Answers, read_from_string-Answers}

-- "ab", "cd" and "T:R"
abbrev ab : Text
ab = b'a' ∷ b'b' ∷ []

abbrev cd : Text
cd = b'c' ∷ b'd' ∷ []

abbrev frame : Frame
frame = record { mangled = ab; demangled = ab; object = cd }

abbrev suppression : Suppression
suppression = record {
  name = ab;
  tools = ab ∷ [];
  warning_name = cd;
  templates = (lt_fun ab ∷ lt_star ∷ lt_obj cd ∷ []) ∷ [];
}

stack_trace_suppressed-Chosen_example :
    (r : Option Text) × (stack_trace_suppressed (suppression ∷ []) ab cd (frame ∷ frame ∷ [])
      ≡ some r)
    × Chosen ab cd (frame ∷ frame ∷ []) (suppression ∷ []) r
stack_trace_suppressed-Chosen_example =
    stack_trace_suppressed-Chosen (suppression ∷ []) ab cd (frame ∷ frame ∷ []) (omega arith)
      (omega arith)

-- "std::pair<int>"
abbrev pair : Text
pair =
    b's' ∷ b't' ∷ b'd' ∷ b':' ∷ b':' ∷ b'p' ∷ b'a' ∷ b'i' ∷ b'r' ∷ b'<' ∷ b'i' ∷ b'n' ∷ b't' ∷ b'>'
    ∷ []

parse_stack_trace_line-Hangs_example :
    ((parse_stack_trace_line (fun_word ++ (b':' ∷ pair)) ≡ none)
      ↔ (ParenthesesFine pair × Hangs pair 0))
    × (Hangs pair 0 → (f : ℕ) → check_angles f pair 0 ≡ none)
parse_stack_trace_line-Hangs_example = parse_stack_trace_line-Hangs pair

abbrev written : Text → Written
written name = record {
  name = name;
  tool = name;
  tools = cd ∷ [];
  warning_name = cd;
  templates = (lt_fun name, lt_star ∷ lt_obj cd ∷ []) ∷ [];
}

ab-IsGood : IsGood (written ab)
unfolding has_paren
ab-IsGood = record {
  name = ground arith;
  first = ground arith;
  tool = ground arith;
  tools = ground arith;
  warning = ground arith;
  line = ground arith;
  templates = ((((ground arith), ((ground arith), inl refl)), ground arith), tt);
}

abbrev empty_rep : SuppressionsRep
empty_rep = record { suppressions = []; error_string = none; error_line_no = 0 }

read_from_string-accumulated_example :
    read_from_string empty_rep (unlines (written_lines (written ab ∷ written ab ∷ [])))
    ≡ some (
      some 2,
      record {
        suppressions = accumulated new_suppression (written ab ∷ written ab ∷ []);
        error_string = none;
        error_line_no = 0;
      },
    )
read_from_string-accumulated_example =
    read_from_string-accumulated (written ab ∷ written ab ∷ []) empty_rep
      (ab-IsGood, (ab-IsGood, tt))

read_from_string-Answers_example :
    Answers empty_rep (ab ++ (b'\n' ∷ cd)) (read_from_string empty_rep (ab ++ (b'\n' ∷ cd)))
read_from_string-Answers_example =
    read_from_string-Answers empty_rep (ab ++ (b'\n' ∷ cd)) (ground arith)
