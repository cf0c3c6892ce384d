-- ===== src/Shadow/Machine.antt =====
-- MemoryStateMachine and CheckIfRace: the general path of a memory access. The checks of
-- CheckIfRace on hybrid locks, and the sampling of events, are not modelled.
pub mod Race
use data_race_test.Prelude.{
  ℕ, zero, suc, Bool, true, false, not, ◌&&◌, ◌||◌, List, [], ◌∷◌, Option, none, some,
  if◌then◌else◌, ℤ, pos, negsuc, eq_ℤ,
}
use data_race_test.LockSets.{LockSets, intersection_is_empty}
use data_race_test.Segments.{Segments}
use data_race_test.SegmentSets.Tuple.{happens_before_or_same_thread}
use data_race_test.SegmentSets.Store.{
  SegmentSets, get, contains, remove_segment_from_ss, add_segment_to_ss,
}
use data_race_test.Shadow.{ShadowValue, is_new, same_value}

-- The static state that an access reads and changes.
pub record World : Type 0 where
  pub sets : SegmentSets
  pub locks : LockSets

-- Size and GetSID: the segments of a set, from the first to the last.
unfoldable pub sids_of : SegmentSets → ℤ → Option (List ℕ)
sids_of s (pos zero) = some []
sids_of s (pos (suc x)) = some (suc x ∷ [])
sids_of s (negsuc i) = elim (get s (negsuc i)) [ none ↦ none | some p ↦ some p.1.sids ]

-- A test that returns if it finds a race, and else goes on.
unfoldable pub or_else :
    Option (LockSets × Bool) → (LockSets → Option (LockSets × Bool)) → Option (LockSets × Bool)
or_else none rest = none
or_else (some (l, true)) rest = some (l, true)
or_else (some (l, false)) rest = rest l

module _ (g : Segments) where
  -- The loop over w2.
  unfoldable pub write_loop : List ℕ → ℕ → LockSets → Option (LockSets × Bool)
  write_loop [] w1 l = some (l, false)
  write_loop (w2 ∷ ws) w1 l =
      or_else (intersection_is_empty l (g.all w1).wr_lsid (g.all w2).wr_lsid) (write_loop ws w1)

  -- The loop over r.
  unfoldable pub read_loop : List ℕ → ℕ → LockSets → Option (LockSets × Bool)
  read_loop [] w1 l = some (l, false)
  read_loop (r ∷ rs) w1 l =
      if happens_before_or_same_thread g w1 r
      then read_loop rs w1 l
      else or_else (intersection_is_empty l (g.all w1).wr_lsid (g.all r).rd_lsid) (read_loop rs w1)

  -- The loop over w1.
  unfoldable pub race_loop : List ℕ → List ℕ → LockSets → Option (LockSets × Bool)
  race_loop [] rs l = some (l, false)
  race_loop (w1 ∷ ws) rs l =
      or_else (or_else (write_loop ws w1 l) (read_loop rs w1)) (race_loop ws rs)

unfoldable pub race_in : World → Option (List ℕ) → Option (List ℕ) → Option (LockSets × Bool)
race_in w (some rs) (some ws) = race_loop w.sets.segments ws rs w.locks
race_in w (some rs) none = none
race_in w none ws = none

-- CheckIfRace
unfoldable pub check_if_race : World → ℤ → ℤ → Option (LockSets × Bool)
check_if_race w rd wr = race_in w (sids_of w.sets rd) (sids_of w.sets wr)

abbrev pub with_writer : ℤ → Option (SegmentSets × ℤ) → Option (SegmentSets × ShadowValue)
with_writer rd none = none
with_writer rd (some (s, wr)) = some (s, record { rd_ssid = rd; wr_ssid = wr })

abbrev pub then_add : ℤ → ℕ → Option (SegmentSets × ℤ) → Option (SegmentSets × ShadowValue)
then_add wr sid none = none
then_add wr sid (some (s, rd)) = with_writer rd (add_segment_to_ss s wr sid)

abbrev pub with_reader : ℤ → Option (SegmentSets × ℤ) → Option (SegmentSets × ShadowValue)
with_reader wr none = none
with_reader wr (some (s, rd)) = some (s, record { rd_ssid = rd; wr_ssid = wr })

-- The new value of a location that is written.
unfoldable pub after_write : SegmentSets → ShadowValue → ℕ → Option (SegmentSets × ShadowValue)
after_write s v sid = then_add v.wr_ssid sid (remove_segment_from_ss s v.rd_ssid sid)

-- The new value of a location that is read.
unfoldable pub after_read : SegmentSets → ShadowValue → ℕ → Option (SegmentSets × ShadowValue)
after_read s v sid = elim (contains s v.wr_ssid sid) [
  | none ↦ none
  | some true ↦ some (s, v)
  | some false ↦ with_reader v.wr_ssid (add_segment_to_ss s v.rd_ssid sid)
]

abbrev pub with_locks :
    SegmentSets → ShadowValue → Option (LockSets × Bool) → Option (World × ShadowValue × Bool)
with_locks s v none = none
with_locks s v (some (l, race)) = some (record { sets = s; locks = l }, v, race)

abbrev pub is_tuple : ℤ → Bool
is_tuple (pos n) = false
is_tuple (negsuc i) = true

-- The end of MemoryStateMachine: the value has changed, and the sets may race.
unfoldable pub judge :
    LockSets
    → ShadowValue
    → Option (SegmentSets × ShadowValue)
    → Option (World × ShadowValue × Bool)
judge l old none = none
judge l old (some (s, v)) =
    let w : World = record { sets = s; locks = l } in
    if same_value v old
    then some (w, v, false)
    else if is_tuple v.wr_ssid || (not (eq_ℤ v.wr_ssid (pos 0)) && not (eq_ℤ v.rd_ssid (pos 0)))
    then with_locks s v (check_if_race w v.rd_ssid v.wr_ssid)
    else some (w, v, false)

-- MemoryStateMachine: the state, *res and whether it is a race.
unfoldable pub memory_state_machine :
    World → ShadowValue → ℕ → Bool → Option (World × ShadowValue × Bool)
memory_state_machine w old sid is_w =
    if is_new old
    then some (
      w,
      if is_w
          then record { rd_ssid = pos 0; wr_ssid = pos sid }
          else record { rd_ssid = pos sid; wr_ssid = pos 0 },
      false,
    )
    else judge w.locks old (if is_w then after_write w.sets old sid else after_read w.sets old sid)
