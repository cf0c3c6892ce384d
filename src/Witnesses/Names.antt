-- ===== src/Witnesses/Names.antt =====
-- Wildcards and ignore lists at concrete names.
use data_race_test.Prelude.{
  ℕ, ◌≡◌, ◌↔◌, ◌⊎◌, inl, Bool, true, false, none, some, List, [], ◌∷◌, ◌++◌, arith,
}
use data_race_test.Wildcards.{Text, string_match}
use data_race_test.Wildcards.Matches.{Matches}
use data_race_test.Wildcards.Shortcuts.{string_match-Decides}
use data_race_test.Ignores.{
  IgnoreTriple, IgnoreLists, anything, triple_vector_match_known, read_ignores_from_string,
  split_lines,
}
use data_race_test.Ignores.Lookup.{Found, TripleMatches, triple_vector_match_known-Decides}
use data_race_test.Ignores.Reading.{
  of_obj, of_fun_r, Line, print_lines, add_rules, read_ignores_from_string-print_lines,
}
use data_race_test.Ignores.Errors.{IsRule, read_ignores_from_string_error}
use data_race_test.Ignores.Clients.{
  Flags, Names, want_to_instrument_sblock, find_pc, ignore_accesses_below_function, Relite,
  relite_ignore_func, no_symbols,
}
use data_race_test.Ignores.Answers.{
  Listed, OnSide, want_to_instrument_sblock-Decides, Below, IsFaithful,
  ignore_accesses_below_function-Below, FuncChoice, relite_ignore_func-FuncChoice,
}

-- "a*b?"
abbrev pattern : Text
pattern = b'a' ∷ b'*' ∷ b'b' ∷ b'?' ∷ []

-- "abbc"
abbrev name : Text
name = b'a' ∷ b'b' ∷ b'b' ∷ b'c' ∷ []

abbrev by_fun : IgnoreTriple
by_fun = record { fun = pattern; obj = anything; file = anything }

abbrev lists : IgnoreLists
lists = record { ignores = by_fun ∷ []; ignores_r = by_fun ∷ []; ignores_hist = [] }

abbrev no_lists : IgnoreLists
no_lists = record { ignores = []; ignores_r = []; ignores_hist = [] }

string_match-Decides_example :
    (b : Bool) × (string_match pattern name ≡ some b) × ((b ≡ true) ↔ Matches pattern name)
string_match-Decides_example =
    string_match-Decides pattern name (omega arith) (omega arith) (omega arith, inl (omega arith))

triple_vector_match_known-Decides_example :
    (b : Bool) × (triple_vector_match_known (by_fun ∷ []) name [] [] ≡ some b)
    × ((b ≡ true) ↔ Found (λ v. TripleMatches v name [] []) (by_fun ∷ []))
triple_vector_match_known-Decides_example =
    triple_vector_match_known-Decides (by_fun ∷ []) name [] [] (omega arith) (omega arith) tt tt

abbrev two_rules : List Line
two_rules =
    record { rule = some (of_fun_r, pattern); comment = some (b'x' ∷ []) }
    ∷ record { rule = none; comment = none }
    ∷ record { rule = some (of_obj, name); comment = none }
    ∷ []

read_ignores_from_string-print_lines_example :
    read_ignores_from_string (print_lines two_rules ++ name) no_lists
    ≡ some (add_rules no_lists two_rules)
read_ignores_from_string-print_lines_example =
    read_ignores_from_string-print_lines two_rules name no_lists (ground arith) (ground arith)

read_ignores_from_string_error_example :
    (read_ignores_from_string (name ++ (b'\n' ∷ [])) no_lists ≡ none)
    ↔ Found (λ line. ¬ IsRule line) (split_lines (name ++ (b'\n' ∷ [])))
read_ignores_from_string_error_example =
    read_ignores_from_string_error (name ++ (b'\n' ∷ [])) no_lists

abbrev flags : Flags
flags = record { ignore_unknown_pcs = true; nacl_untrusted = false; keep_history = 1 }

abbrev strings : ℕ → Names
strings pc = record { img_name = name; rtn_name = name; file_name = name }

want_to_instrument_sblock-Decides_example :
    (b : Bool) × (want_to_instrument_sblock strings flags no_lists lists (0, 0) 16 ≡ some b)
    × ((b ≡ true) ↔ (
        ((no_lists.ignores ≡ []) ⊎ Listed no_lists.ignores (strings 16))
        × ((¬ ((flags.ignore_unknown_pcs ≡ true) × ((strings 16).rtn_name ≡ no_symbols)))
            × ((¬ (Listed lists.ignores (strings 16) ⊎ Listed lists.ignores_r (strings 16)))
                × OnSide flags (0, 0) 16))))
want_to_instrument_sblock-Decides_example =
    want_to_instrument_sblock-Decides strings flags no_lists lists (0, 0) 16 tt (omega arith)
      (omega arith) (omega arith)

no_answers : IsFaithful (λ pc. name) lists []
unfolding find_pc
no_answers pc b h = absurd (cc)

ignore_accesses_below_function-Below_example :
    Below (λ pc. name) lists 16 (ignore_accesses_below_function (λ pc. name) lists [] 16)
ignore_accesses_below_function-Below_example =
    ignore_accesses_below_function-Below (λ pc. name) lists [] 16 no_answers

relite_ignore_func-FuncChoice_example :
    (c : Relite) × (relite_ignore_func (some lists) name ≡ some c) × FuncChoice lists name c
relite_ignore_func-FuncChoice_example =
    relite_ignore_func-FuncChoice lists name (omega arith) (omega arith) tt (omega arith)
      (λ e. absurd (cc))
