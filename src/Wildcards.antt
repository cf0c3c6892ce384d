-- ===== src/Wildcards.antt =====
-- tsan/common_util.cc: ThreadSanitizerStringMatch, the matching of a name against a wildcard with
-- '*' and '?'. A string is the list of its bytes and a pointer into it the list of the bytes from
-- there on; the pointers come from c_str, so that they end at the first byte 0.
pub mod Matches
mod Search
mod Decision
pub mod Shortcuts
use data_race_test.Prelude.{
  ℕ, zero, suc, ◌+◌, ◌*◌, ◌≡◌, Bool, true, false, not, ◌&&◌, ◌||◌, Option, none, some, List, [],
  ◌∷◌, if◌then◌else◌, ◌==◌, length,
}

abbrev pub Text : Type 0
Text = List ℕ

abbrev pub star : ℕ
star = b'*'

abbrev pub any_char : ℕ
any_char = b'?'

-- What string::c_str shows of a string: the bytes before the first 0.
unfoldable pub c_str : Text → Text
c_str [] = []
c_str (c ∷ s) = if c == 0 then [] else c ∷ c_str s

-- The pointers of the loop; `last` is the pair c_wildcard_last, c_text_last, none for NULL. The
-- pointer one past the terminating 0, which is never read, is the empty list too.
pub record Position : Type 0 where
  pub text : Text
  pub wildcard : Text
  pub last : Option (Text × Text)

-- The end of one round of the loop: return, or go round again.
pub data Round : Type 0 where
  result : Bool → Round
  again : Position → Round

unfoldable pub skip_stars : Text → Text
skip_stars [] = []
skip_stars (c ∷ p) = elim (c == star) [ true ↦ skip_stars p | false ↦ c ∷ p ]

unfoldable pub ends_here : Text → Bool
ends_here [] = true
ends_here (c ∷ p) = false

unfoldable pub after_stars : Text → Text → Round
after_stars t [] = result true
after_stars t (c ∷ p) = again (record { text = t; wildcard = c ∷ p; last = some (c ∷ p, t) })

abbrev pub tail : Text → Text
tail [] = []
tail (d ∷ t) = t

unfoldable pub roll_back : Option (Text × Text) → Round
roll_back none = result false
roll_back (some (p, t)) = again (record { text = t; wildcard = p; last = some (p, tail t) })

-- The body of the loop, at a text that begins with `d`.
unfoldable pub compare_char : ℕ → Text → Text → Option (Text × Text) → Round
compare_char d t [] last = roll_back last
compare_char d t (c ∷ p) last =
    if c == star
    then after_stars (d ∷ t) (skip_stars p)
    else if (d == c) || (c == any_char)
    then again (record { text = t; wildcard = p; last = last })
    else roll_back last

unfoldable pub round : Text → Text → Option (Text × Text) → Round
round [] p last = result (ends_here (skip_stars p))
round (d ∷ t) p last = compare_char d t p last

unfoldable pub match_loop : ℕ → Position → Option Bool
match_loop zero s = none
match_loop (suc f) s = elim (round s.text s.wildcard s.last) [
  | result b ↦ some b
  | again s' ↦ match_loop f s'
]

-- Rounds that are enough for a wildcard of `w` bytes and a text of `n`.
unfoldable pub rounds : ℕ → ℕ → ℕ
rounds w n = suc ((w * (n * suc n + suc n) + n * suc n) + n)

unfoldable pub run_match : Text → Text → Option Bool
run_match w t =
    match_loop (rounds (length w) (length t)) (record { text = t; wildcard = w; last = none })

-- s[s.size() - 1]; none where the string is empty and the index out of range.
unfoldable pub last_char : Text → Option ℕ
last_char [] = none
last_char (c ∷ []) = some c
last_char (c ∷ d ∷ s) = last_char (d ∷ s)

unfoldable pub check_last : ℕ → Option ℕ → Option Bool → Option Bool
check_last last none rest = none
check_last last (some c) rest = if last == c then rest else some false

unfoldable pub match_from_last : Option ℕ → Text → Text → Option Bool
match_from_last none wildcard text = none
match_from_last (some last) wildcard text =
    if (last == star) && (length wildcard == 1)
    then some true
    else if not (last == star) && not (last == any_char)
    then check_last last (last_char text) (run_match (c_str wildcard) (c_str text))
    else run_match (c_str wildcard) (c_str text)

unfoldable pub string_match : Text → Text → Option Bool
string_match wildcard text = match_from_last (last_char wildcard) wildcard text
