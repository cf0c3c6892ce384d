-- ===== src/Ignores.antt =====
-- tsan/ignore.h and tsan/ignore.cc: the triples of wildcards that name what is not instrumented,
-- the reader of ignore files, and the lookup of a function, object and source file in a list.
pub mod Lookup
pub mod Reading
pub mod Errors
pub mod Clients
pub mod Answers
use data_race_test.Prelude.{
  ℕ, zero, suc, ◌+◌, ◌≡◌, Bool, true, false, not, ◌&&◌, ◌||◌, Option, none, some, List, [], ◌∷◌,
  ◌++◌, if◌then◌else◌, ◌==◌, length,
}
use data_race_test.Wildcards.{Text, star, string_match}

pub record IgnoreTriple : Type 0 where
  pub fun : Text
  pub obj : Text
  pub file : Text

pub record IgnoreLists : Type 0 where
  pub ignores : List IgnoreTriple
  pub ignores_r : List IgnoreTriple
  pub ignores_hist : List IgnoreTriple

unfoldable pub eq_text : Text → Text → Bool
eq_text [] [] = true
eq_text [] (d ∷ t) = false
eq_text (c ∷ s) [] = false
eq_text (c ∷ s) (d ∷ t) = (c == d) && eq_text s t

abbrev pub anything : Text
anything = star ∷ []

-- The constructor of IgnoreTriple; none where its CHECK fails. The path separators are converted
-- on Windows only.
unfoldable pub ignore_triple : Text → Text → Text → Option IgnoreTriple
ignore_triple ifun iobj ifile =
    if eq_text ifun anything && (eq_text iobj anything && eq_text ifile anything)
    then none
    else some (record { fun = ifun; obj = iobj; file = ifile })

unfoldable pub ignore_obj : Text → Option IgnoreTriple
ignore_obj obj = ignore_triple anything obj anything

unfoldable pub ignore_fun : Text → Option IgnoreTriple
ignore_fun fun = ignore_triple fun anything anything

unfoldable pub ignore_file : Text → Option IgnoreTriple
ignore_file file = ignore_triple anything anything file

-- The state of SplitStringIntoLinesAndRemoveBlanksAndComments between two bytes.
pub record Split : Type 0 where
  pub cur_line : Text
  pub in_comment : Bool
  pub lines : List Text

unfoldable pub end_line : Split → List Text
end_line s = elim s.cur_line [ [] ↦ s.lines | c ∷ l ↦ s.lines ++ (s.cur_line ∷ []) ]

unfoldable pub split_char : ℕ → Split → Split
split_char ch s =
    if ch == b'\n'
    then record { cur_line = []; in_comment = false; lines = end_line s }
    else if (ch == b' ') || (ch == b'\t')
    then s
    else if ch == b'#'
    then record { cur_line = s.cur_line; in_comment = true; lines = s.lines }
    else if s.in_comment
    then s
    else record { cur_line = s.cur_line ++ (ch ∷ []); in_comment = s.in_comment; lines = s.lines }

unfoldable pub split_chars : Text → Split → Split
split_chars [] s = s
split_chars (ch ∷ str) s = split_chars str (split_char ch s)

unfoldable pub split_lines : Text → List Text
split_lines str =
    let s = split_chars str (record { cur_line = []; in_comment = false; lines = [] }) in s.lines

unfoldable pub cut_prefix : Text → Text → Option Text
cut_prefix input [] = some input
cut_prefix [] (c ∷ p) = none
cut_prefix (d ∷ s) (c ∷ p) = if d == c then cut_prefix s p else none

abbrev pub obj_prefix : Text
obj_prefix = b'o' ∷ b'b' ∷ b'j' ∷ b':' ∷ []

abbrev pub src_prefix : Text
src_prefix = b's' ∷ b'r' ∷ b'c' ∷ b':' ∷ []

abbrev pub fun_prefix : Text
fun_prefix = b'f' ∷ b'u' ∷ b'n' ∷ b':' ∷ []

abbrev pub fun_r_prefix : Text
fun_r_prefix = b'f' ∷ b'u' ∷ b'n' ∷ b'_' ∷ b'r' ∷ b':' ∷ []

abbrev pub fun_hist_prefix : Text
fun_hist_prefix = b'f' ∷ b'u' ∷ b'n' ∷ b'_' ∷ b'h' ∷ b'i' ∷ b's' ∷ b't' ∷ b':' ∷ []

unfoldable pub push_ignore : IgnoreLists → Option IgnoreTriple → Option IgnoreLists
push_ignore l none = none
push_ignore l (some t) = some (record {
  ignores = l.ignores ++ (t ∷ []);
  ignores_r = l.ignores_r;
  ignores_hist = l.ignores_hist;
})

unfoldable pub push_ignore_r : IgnoreLists → Option IgnoreTriple → Option IgnoreLists
push_ignore_r l none = none
push_ignore_r l (some t) = some (record {
  ignores = l.ignores;
  ignores_r = l.ignores_r ++ (t ∷ []);
  ignores_hist = l.ignores_hist;
})

unfoldable pub push_ignore_hist : IgnoreLists → Option IgnoreTriple → Option IgnoreLists
push_ignore_hist l none = none
push_ignore_hist l (some t) = some (record {
  ignores = l.ignores;
  ignores_r = l.ignores_r;
  ignores_hist = l.ignores_hist ++ (t ∷ []);
})

-- The branches of ReadIgnoreLine. It returns false on a line with no known prefix, where its
-- caller fails CHECK(0): that and a failed CHECK of a triple are none.
unfoldable pub first_cut : List (Text × (Text → Option IgnoreLists)) → Text → Option IgnoreLists
first_cut [] line = none
first_cut ((p, push) ∷ rest) line = elim (cut_prefix line p) [
  | some tail ↦ push tail
  | none ↦ first_cut rest line
]

unfoldable pub read_ignore_line : Text → IgnoreLists → Option IgnoreLists
read_ignore_line line l =
    first_cut
      ((obj_prefix, λ tail. push_ignore l (ignore_obj tail))
        ∷ (src_prefix, λ tail. push_ignore l (ignore_file tail))
        ∷ (fun_prefix, λ tail. push_ignore l (ignore_fun tail))
        ∷ (fun_r_prefix, λ tail. push_ignore_r l (ignore_fun tail))
        ∷ (fun_hist_prefix, λ tail. push_ignore_hist l (ignore_fun tail))
        ∷ [])
      line

unfoldable pub read_lines : List Text → Option IgnoreLists → Option IgnoreLists
read_lines lines none = none
read_lines [] (some l) = some l
read_lines (line ∷ lines) (some l) = read_lines lines (read_ignore_line line l)

unfoldable pub read_ignores_from_string : Text → IgnoreLists → Option IgnoreLists
read_ignores_from_string str l = read_lines (split_lines str) (some l)

-- `a && b` and `a || b` of tests that may read out of range; the second is run only where the first does
-- not decide.
unfoldable pub and_then : Option Bool → Option Bool → Option Bool
and_then none b = none
and_then (some false) b = some false
and_then (some true) b = b

unfoldable pub or_else : Option Bool → Option Bool → Option Bool
or_else none b = none
or_else (some true) b = some true
or_else (some false) b = b

unfoldable pub is_empty : Text → Bool
is_empty [] = true
is_empty (c ∷ s) = false

unfoldable pub field_match : Text → Text → Option Bool
field_match pattern name = if is_empty name then some true else string_match pattern name

unfoldable pub all_trivial : IgnoreTriple → Text → Text → Text → Bool
all_trivial v fun obj file =
    (is_empty fun || eq_text v.fun anything)
    && ((is_empty obj || eq_text v.obj anything) && (is_empty file || eq_text v.file anything))

unfoldable pub triple_match : IgnoreTriple → Text → Text → Text → Option Bool
triple_match v fun obj file =
    and_then
      (and_then (field_match v.fun fun)
        (and_then (field_match v.obj obj) (field_match v.file file)))
      (some (not (all_trivial v fun obj file)))

unfoldable pub triple_vector_match_known : List IgnoreTriple → Text → Text → Text → Option Bool
triple_vector_match_known [] fun obj file = some false
triple_vector_match_known (v ∷ vs) fun obj file =
    or_else (triple_match v fun obj file) (triple_vector_match_known vs fun obj file)

unfoldable pub string_vector_match : List Text → Text → Option Bool
string_vector_match [] obj = some false
string_vector_match (w ∷ ws) obj = or_else (string_match w obj) (string_vector_match ws obj)
