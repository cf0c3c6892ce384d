-- ===== src/Suppressions/Frames.antt =====
-- tsan/suppressions.cc, ParseStackTraceLine: one line of a stack template. None stands for a call
-- that does not return.
use data_race_test.Prelude.{
  ℕ, zero, suc, ◌+◌, ◌-◌, Bool, true, false, not, ◌&&◌, ◌||◌, Option, none, some, List, [], ◌∷◌,
  if◌then◌else◌, ◌==◌, length, ltb, leb, take, drop, get_or,
}
use data_race_test.Wildcards.{Text}
use data_race_test.Ignores.{eq_text}
use data_race_test.Suppressions.{
  Location, lt_star, lt_obj, lt_fun, no_frame_colon, bad_frame, has_parenthesis, has_angle_bracket,
  Parsed, ok, fail,
}

-- string::find of one byte.
unfoldable pub index_of : ℕ → Text → Option ℕ
index_of c [] = none
index_of c (d ∷ s) =
    if d == c then some 0 else elim (index_of c s) [ none ↦ none | some i ↦ some (suc i) ]

abbrev pub substr : Text → ℕ → ℕ → Text
substr s start n = take n (drop start s)

abbrev pub is_angle : ℕ → Bool
is_angle c = (c == b'<') || (c == b'>')

-- find_first_of("<>", from), where `i` bytes of the text are passed.
unfoldable pub find_angle : Text → ℕ → ℕ → Option ℕ
find_angle [] from i = none
find_angle (c ∷ s) zero i = if is_angle c then some i else find_angle s zero (suc i)
find_angle (c ∷ s) (suc from) i = find_angle s from (suc i)

-- The array OP.
abbrev pub operators : List Text
operators =
    (b'>' ∷ b'>' ∷ b'=' ∷ [])
    ∷ (b'<' ∷ b'<' ∷ b'=' ∷ [])
    ∷ (b'>' ∷ b'>' ∷ [])
    ∷ (b'<' ∷ b'<' ∷ [])
    ∷ (b'>' ∷ b'=' ∷ [])
    ∷ (b'<' ∷ b'=' ∷ [])
    ∷ (b'-' ∷ b'>' ∷ [])
    ∷ (b'-' ∷ b'>' ∷ b'*' ∷ [])
    ∷ (b'<' ∷ [])
    ∷ (b'>' ∷ [])
    ∷ []

-- "operator"
abbrev pub operator_word : Text
operator_word = b'o' ∷ b'p' ∷ b'e' ∷ b'r' ∷ b'a' ∷ b't' ∷ b'o' ∷ b'r' ∷ []

unfoldable pub after_operator : Text → ℕ → Text → Option ℕ → Option ℕ
after_operator s at op none = none
after_operator s at op (some offset) =
    if leb (8 + offset) at
      && (eq_text operator_word (substr s (at - (8 + offset)) 8)
          && eq_text op (substr s (at - offset) (length op)))
    then some (at + (length op - offset))
    else none

-- The for loop: where the check goes on after the first operator that stands around byte `at`.
unfoldable pub try_operators : List Text → Text → ℕ → Option ℕ
try_operators [] s at = none
try_operators (op ∷ ops) s at = elim (after_operator s at op (index_of (get_or s at 0) op)) [
  | some till ↦ some till
  | none ↦ try_operators ops s at
]

unfoldable pub till_or : Option ℕ → ℕ → ℕ
till_or none old = old
till_or (some till) old = till

-- The while loop: some true where no check failed, some false where check_failed is set.
unfoldable pub check_angles : ℕ → Text → ℕ → Option Bool
check_angles zero s checked_till = none
check_angles (suc f) s checked_till =
    if ltb checked_till (length s)
    then elim (find_angle s checked_till 0) [
      | none ↦ some true
      | some at ↦
          let rest = check_angles f s (till_or (try_operators operators s at) checked_till) in
          if ltb at 8 then some false else rest
    ]
    else some true

-- find_first_of("()") finds a byte.
unfoldable pub has_paren : Text → Bool
has_paren [] = false
has_paren (c ∷ s) = ((c == b'(') || (c == b')')) || has_paren s

-- The first two bytes are those of an Objective-C name; strchr also finds the terminating 0.
unfoldable pub is_objc : Text → Bool
is_objc s =
    let c = get_or s 0 0 in
    (get_or s 1 0 == b'[') && ((c == b'+') || ((c == b'-') || ((c == b'=') || (c == 0))))

unfoldable pub finish_fun : Text → Option Bool → Option (Parsed Location)
finish_fun s none = none
finish_fun s (some true) = some (ok (lt_fun s))
finish_fun s (some false) = some (fail has_angle_bracket)

unfoldable pub parse_fun : Text → Option (Parsed Location)
parse_fun s =
    if not (has_paren s) || is_objc s
    then finish_fun s (check_angles (suc (length s)) s 0)
    else some (fail has_parenthesis)

abbrev pub dots : Text
dots = b'.' ∷ b'.' ∷ b'.' ∷ []

abbrev pub obj_word : Text
obj_word = b'o' ∷ b'b' ∷ b'j' ∷ []

abbrev pub fun_word : Text
fun_word = b'f' ∷ b'u' ∷ b'n' ∷ []

unfoldable pub parse_parts : Text → Text → Option (Parsed Location)
parse_parts s1 s2 =
    if eq_text s1 obj_word
    then some (ok (lt_obj s2))
    else if eq_text s1 fun_word
    then parse_fun s2
    else some (fail bad_frame)

unfoldable pub parse_stack_trace_line : Text → Option (Parsed Location)
parse_stack_trace_line line =
    if eq_text line dots then some (ok lt_star) else elim (index_of b':' line) [
      | none ↦ some (fail no_frame_colon)
      | some i ↦ parse_parts (take i line) (drop (suc i) line)
    ]
