-- ===== src/Shadow/FastPath.antt =====
-- MemoryStateMachineSameThread: the path of an access to memory that only the current thread has
-- used. The branch counters are not modelled.
pub mod Agreement
use data_race_test.Prelude.{
  ℕ, zero, suc, ◌+◌, Bool, true, false, not, ◌&&◌, List, [], ◌∷◌, Option, none, some, if◌then◌else◌,
  ◌==◌, ℤ, pos, negsuc, eq_ℤ,
}
use data_race_test.Segments.{Segments}
use data_race_test.Segments
use data_race_test.SegmentSets.Tuple.{tid_of}
use data_race_test.SegmentSets.Store.{SegmentSets}
use data_race_test.SegmentSets.Recycling
use data_race_test.Shadow.{ShadowValue}

-- What a branch does besides the new value: Segment::Ref and AddDeadSid, in the order of the code.
pub data Effect : Type 0 where
  ref_sid : ℕ → Effect
  dead_sid : ℕ → Effect

-- A branch that returns true.
pub record Handled : Type 0 where
  pub value : ShadowValue
  pub effects : List Effect

abbrev pub sval : ℤ → ℤ → ShadowValue
sval rd wr = record { rd_ssid = rd; wr_ssid = wr }

abbrev handled : ℤ → ℤ → List Effect → Option Handled
handled rd wr es = some (record { value = sval rd wr; effects = es })

module _ (is_w : Bool) (cur : ℕ) where
  -- Case 00.
  unfoldable pub case_00 : Option Handled
  case_00 =
      if is_w
      then handled (pos 0) (pos cur) (ref_sid cur ∷ [])
      else handled (pos cur) (pos 0) (ref_sid cur ∷ [])

  -- Case 01; `same` is whether the writer is of the current thread.
  unfoldable pub case_01 : ℕ → Bool → Option Handled
  case_01 wr same =
      if wr == cur
      then handled (pos 0) (pos wr) []
      else if same
      then (if is_w
          then handled (pos 0) (pos cur) (dead_sid wr ∷ ref_sid cur ∷ [])
          else handled (pos cur) (pos wr) (ref_sid cur ∷ []))
      else none

  -- Case 10.
  unfoldable pub case_10 : ℕ → Bool → Option Handled
  case_10 rd same =
      if rd == cur
      then (if is_w then handled (pos 0) (pos cur) [] else handled (pos rd) (pos 0) [])
      else if same
      then (if is_w
          then handled (pos 0) (pos cur) (ref_sid cur ∷ dead_sid rd ∷ [])
          else handled (pos cur) (pos 0) (ref_sid cur ∷ dead_sid rd ∷ []))
      else none

  -- Case 11.
  unfoldable pub case_11 : ℕ → Bool → ℕ → Bool → Option Handled
  case_11 rd same_rd wr same_wr =
      if cur == rd
      then (if same_wr
          then (if is_w
              then handled (pos 0) (pos cur) (dead_sid wr ∷ [])
              else handled (pos rd) (pos wr) [])
          else none)
      else if cur == wr
      then (if same_rd
          then (if is_w
              then handled (pos rd) (pos wr) []
              else handled (pos 0) (pos cur) (dead_sid rd ∷ []))
          else none)
      else if same_rd && same_wr
      then (if is_w
          then handled (pos 0) (pos cur) (dead_sid wr ∷ dead_sid rd ∷ ref_sid cur ∷ [])
          else handled (pos cur) (pos wr) (dead_sid rd ∷ ref_sid cur ∷ []))
      else none

abbrev pub same_thread : Segments → ℕ → ℕ → Bool
same_thread g sid cur = tid_of g cur == tid_of g sid

module _ (g : Segments) (is_w : Bool) (cur : ℕ) where
  unfoldable pub dispatch : ℤ → ℤ → Option Handled
  dispatch (pos zero) (pos zero) = case_00 is_w cur
  dispatch (pos zero) (pos (suc x)) = case_01 is_w cur (suc x) (same_thread g (suc x) cur)
  dispatch (pos zero) (negsuc j) = none
  dispatch (pos (suc x)) (pos zero) = case_10 is_w cur (suc x) (same_thread g (suc x) cur)
  dispatch (pos (suc x)) (pos (suc y)) =
      case_11 is_w cur (suc x) (same_thread g (suc x) cur) (suc y) (same_thread g (suc y) cur)
  dispatch (pos (suc x)) (negsuc j) = none
  dispatch (negsuc i) wr = none

-- MemoryStateMachineSameThread; `none` is the answer false.
unfoldable pub memory_state_machine_same_thread : Segments → Bool → ShadowValue → ℕ → Option Handled
memory_state_machine_same_thread g is_w old cur = dispatch g is_w cur old.rd_ssid old.wr_ssid

-- Segment::Ref, and AddDeadSid where threads are serialized.
unfoldable pub run_effects : List Effect → Option Segments → Option Segments
run_effects es none = none
run_effects [] (some g) = some g
run_effects (ref_sid sid ∷ es) (some g) = run_effects es (Segments.ref g sid)
run_effects (dead_sid sid ∷ es) (some g) = run_effects es (Segments.unref g sid)

abbrev pub ref_if : Bool → ℤ → Option SegmentSets → Option SegmentSets
ref_if b ssid none = none
ref_if b ssid (some s) = if b && not (eq_ℤ ssid (pos 0)) then Recycling.ref s ssid else some s

abbrev pub unref_if : Bool → ℤ → Option SegmentSets → Option SegmentSets
unref_if b ssid none = none
unref_if b ssid (some s) = if b && not (eq_ℤ ssid (pos 0)) then Recycling.unref s ssid else some s

-- RefAndUnrefTwoSegSetPairsIfDifferent, after the general path.
unfoldable pub ref_and_unref_two_seg_set_pairs_if_different :
    SegmentSets → ShadowValue → ShadowValue → Option SegmentSets
ref_and_unref_two_seg_set_pairs_if_different s new old =
    let changed_rd = not (eq_ℤ new.rd_ssid old.rd_ssid) in
    let changed_wr = not (eq_ℤ new.wr_ssid old.wr_ssid) in
    let r1 = ref_if changed_rd new.rd_ssid (some s) in
    let r2 = ref_if changed_wr new.wr_ssid r1 in
    let u1 = unref_if changed_rd old.rd_ssid r2 in unref_if changed_wr old.wr_ssid u1
