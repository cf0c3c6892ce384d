-- ===== src/Ignores/Clients.antt =====
-- tsan/thread_sanitizer.cc (ThreadSanitizerWantToInstrumentSblock to
-- ThreadSanitizerIgnoreAccessesBelowFunction) and gcc/plg/relite_ignore.cc: what the front ends
-- ask of the ignore lists.
use data_race_test.Prelude.{
  ℕ, Bool, true, false, not, ◌&&◌, ◌||◌, Option, none, some, List, [], ◌∷◌, if◌then◌else◌, ◌==◌,
  ltb, leb,
}
use data_race_test.Wildcards.{Text}
use data_race_test.Ignores.{IgnoreTriple, IgnoreLists, eq_text, or_else, triple_vector_match_known}

-- G_flags, as far as these functions read it.
pub record Flags : Type 0 where
  pub ignore_unknown_pcs : Bool
  pub nacl_untrusted : Bool
  pub keep_history : ℕ

-- What PcToStrings, a function of the front end, tells of an address.
pub record Names : Type 0 where
  pub img_name : Text
  pub rtn_name : Text
  pub file_name : Text

unfoldable pub addr_is_in_nacl_untrusted_region : ℕ → ℕ → ℕ → Bool
addr_is_in_nacl_untrusted_region mem_start mem_end addr = leb mem_start addr && ltb addr mem_end

unfoldable pub eq_bool : Bool → Bool → Bool
eq_bool true b = b
eq_bool false b = not b

unfoldable pub ignore_for_nacl : Flags → ℕ → ℕ → ℕ → Bool
ignore_for_nacl flags mem_start mem_end addr =
    not (eq_bool flags.nacl_untrusted (addr_is_in_nacl_untrusted_region mem_start mem_end addr))

-- "(no symbols)"
abbrev pub no_symbols : Text
no_symbols = b'(' ∷ b'n' ∷ b'o' ∷ b' ' ∷ b's' ∷ b'y' ∷ b'm' ∷ b'b' ∷ b'o' ∷ b'l' ∷ b's' ∷ b')' ∷ []

unfoldable pub not_ignored : Bool → Option Bool → Option Bool
not_ignored nacl none = none
not_ignored nacl (some ignore) = some (not (ignore || nacl))

unfoldable pub in_white_list : List IgnoreTriple → Names → Option Bool
in_white_list [] s = some true
in_white_list (v ∷ vs) s = triple_vector_match_known (v ∷ vs) s.rtn_name s.img_name s.file_name

unfoldable pub ignored : IgnoreLists → Names → Option Bool
ignored lists s =
    or_else (triple_vector_match_known lists.ignores s.rtn_name s.img_name s.file_name)
      (triple_vector_match_known lists.ignores_r s.rtn_name s.img_name s.file_name)

unfoldable pub after_white_list : Option Bool → Bool → Option Bool → Option Bool
after_white_list none unknown rest = none
after_white_list (some false) unknown rest = some false
after_white_list (some true) unknown rest = if unknown then some false else rest

-- ThreadSanitizerWantToInstrumentSblock; `nacl` is the pair g_nacl_mem_start, g_nacl_mem_end.
unfoldable pub want_to_instrument_sblock :
    (ℕ → Names) → Flags → IgnoreLists → IgnoreLists → ℕ × ℕ → ℕ → Option Bool
want_to_instrument_sblock pc_to_strings flags white_lists ignore_lists nacl pc =
    let s = pc_to_strings pc in
    after_white_list (in_white_list white_lists.ignores s)
      (flags.ignore_unknown_pcs && eq_text s.rtn_name no_symbols)
      (not_ignored (ignore_for_nacl flags nacl.0 nacl.1 pc) (ignored ignore_lists s))

unfoldable pub negate : Option Bool → Option Bool
negate none = none
negate (some b) = some (not b)

unfoldable pub want_to_create_segments : (ℕ → Text) → Flags → IgnoreLists → ℕ → Option Bool
want_to_create_segments pc_to_rtn_name flags lists pc =
    if flags.keep_history == 0
    then some false
    else negate (triple_vector_match_known lists.ignores_hist (pc_to_rtn_name pc) [] [])

-- The static cache of ThreadSanitizerIgnoreAccessesBelowFunction, an unordered_map.
abbrev pub BelowCache : Type 0
BelowCache = List (ℕ × Bool)

unfoldable pub find_pc : ℕ → BelowCache → Option Bool
find_pc pc [] = none
find_pc pc ((k, b) ∷ c) = if pc == k then some b else find_pc pc c

unfoldable pub ignored_below : (ℕ → Text) → IgnoreLists → ℕ → Option Bool
ignored_below pc_to_rtn_name lists pc =
    triple_vector_match_known lists.ignores_r (pc_to_rtn_name pc) [] []

unfoldable pub store_below : ℕ → BelowCache → Option Bool → Option (Bool × BelowCache)
store_below pc cache none = none
store_below pc cache (some b) = some (b, (pc, b) ∷ cache)

-- The answer and the cache afterwards.
unfoldable pub ignore_accesses_below_function :
    (ℕ → Text) → IgnoreLists → BelowCache → ℕ → Option (Bool × BelowCache)
ignore_accesses_below_function pc_to_rtn_name lists cache pc = elim (find_pc pc cache) [
  | some b ↦ some (b, cache)
  | none ↦ store_below pc cache (ignored_below pc_to_rtn_name lists pc)
]

-- relite_ignore_e
pub data Relite : Type 0 where
  ignore_none : Relite
  ignore_mop : Relite
  ignore_rec : Relite
  ignore_hist : Relite

unfoldable pub relite_ignore_file : Option IgnoreLists → Text → Option Bool
relite_ignore_file none file = some false
relite_ignore_file (some l) file = triple_vector_match_known l.ignores [] [] file

unfoldable pub relite_choice : Option Bool → Option Bool → Option Bool → Option Relite
relite_choice none h m = none
relite_choice (some true) h m = some ignore_rec
relite_choice (some false) none m = none
relite_choice (some false) (some true) m = some ignore_hist
relite_choice (some false) (some false) none = none
relite_choice (some false) (some false) (some true) = some ignore_mop
relite_choice (some false) (some false) (some false) = some ignore_none

unfoldable pub relite_ignore_func : Option IgnoreLists → Text → Option Relite
relite_ignore_func none func = some ignore_none
relite_ignore_func (some l) func =
    relite_choice (triple_vector_match_known l.ignores_r func [] [])
      (triple_vector_match_known l.ignores_hist func [] [])
      (triple_vector_match_known l.ignores func [] [])
