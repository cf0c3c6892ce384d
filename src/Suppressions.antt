-- ===== src/Suppressions.antt =====
-- tsan/suppressions.cc: the data of suppressions, and the lines that the parser reads. Texts are
-- lists of bytes. put_back_stack_ is filled only by code under `if (0)` and is left out.
pub mod Frames
pub mod Parser
pub mod Stacks
pub mod Operators
pub mod Matching
pub mod Written
pub mod Accumulated
pub mod Lines
pub mod Steps
pub mod Rounds
pub mod Returns
use data_race_test.Prelude.{
  ℕ, zero, suc, ◌+◌, ◌-◌, ◌≡◌, Bool, true, false, not, ◌&&◌, ◌||◌, Option, none, some, List, [],
  ◌∷◌, ◌++◌, if◌then◌else◌, ◌==◌, length,
}
use data_race_test.Wildcards.{Text}
use data_race_test.Ignores.{is_empty}

-- Location, with its LocationType.
pub data Location : Type 0 where
  lt_star : Location
  lt_obj : Text → Location
  lt_fun : Text → Location

-- StackTraceTemplate
abbrev pub StackTraceTemplate : Type 0
StackTraceTemplate = List Location

-- `tools` is a set, of which only membership is asked; `extra` is never set.
pub record Suppression : Type 0 where
  pub name : Text
  pub tools : List Text
  pub warning_name : Text
  pub templates : List StackTraceTemplate

-- The texts given to SetError.
pub data Problem : Type 0 where
  no_open_brace : Problem
  no_name : Problem
  no_tools_line : Problem
  no_tools_colon : Problem
  empty_tools : Problem
  empty_warning_name : Problem
  no_frame_colon : Problem
  bad_frame : Problem
  has_parenthesis : Problem
  has_angle_bracket : Problem

-- buffer_ from next_ on, and line_no_.
pub record Input : Type 0 where
  pub next : Text
  pub line_no : ℕ

-- What a parsing function comes to: a value, or an error that it set.
pub data Parsed {ℓ} (A : Type ℓ) : Type ℓ where
  ok : A → Parsed A
  fail : Problem → Parsed A

-- The bytes before the next end of line, and those after it.
unfoldable pub take_line : Text → Text × Text
take_line [] = ([], [])
take_line (c ∷ s) = let rest = take_line s in if c == b'\n' then ([], s) else (c ∷ rest.0, rest.1)

unfoldable pub next_line : Input → Text × Input
next_line i = let r = take_line i.next in (r.0, record { next = r.1; line_no = i.line_no + 1 })

unfoldable pub is_blank : ℕ → Bool
is_blank c = (c == b' ') || (c == b'\t')

unfoldable pub strip_left : Text → Text
strip_left [] = []
strip_left (c ∷ s) = if is_blank c then strip_left s else c ∷ s

unfoldable pub keep_right : ℕ → Text → Text
keep_right c [] = if is_blank c then [] else c ∷ []
keep_right c (d ∷ s) = c ∷ d ∷ s

unfoldable pub strip_right : Text → Text
strip_right [] = []
strip_right (c ∷ s) = keep_right c (strip_right s)

-- An empty line, a comment and a line of blanks are skipped.
unfoldable pub content : Text → Option Text
content [] = none
content (c ∷ s) =
    if c == b'#'
    then none
    else let t = strip_right (strip_left (c ∷ s)) in if is_empty t then none else some t

unfoldable pub skip_lines : ℕ → Input → Option (Text × Input)
skip_lines zero i = none
skip_lines (suc f) i =
    let r = next_line i in
    let rest = skip_lines f r.1 in
    if is_empty i.next
    then some ([], i)
    else elim (content r.0) [ some t ↦ some (t, r.1) | none ↦ rest ]

-- NextLineSkipComments; it reads at most as many lines as there are bytes.
unfoldable pub next_line_skip_comments : Input → Option (Text × Input)
next_line_skip_comments i = skip_lines (suc (length i.next)) i
