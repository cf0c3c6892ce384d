-- ===== src/Segments.antt =====
-- class Segment, tsan/thread_sanitizer.cc: the table of segments, its reference counts and the
-- reuse of ids. A failed CHECK or DCHECK is `none`. The stacks kept for reports, and the reference
-- counts of the time stamps, are not modelled.
pub mod Alloc
pub mod Counts
use data_race_test.Prelude.{
  ℕ, zero, suc, ◌+◌, ◌-◌, ◌≤◌, ◌<◌, Bool, true, false, not, ◌&&◌, List, [], ◌∷◌, ◌++◌, Option, none,
  some, if◌then◌else◌, ◌==◌, ltb, length, update, ℤ, pos, ◌≡◌, ◌≢◌,
}
use data_race_test.Vts.{Ts}
use data_race_test.Vts

-- A VTS object: its id names the object, so equal ids are equal pointers.
pub record Stamp : Type 0 where
  pub uniq_id : ℕ
  pub arr : List Ts

-- `tid` is `none` for the invalid TID, `vts` is `none` for NULL.
pub record Segment : Type 0 where
  pub ref_count : ℕ
  pub rd_lsid : ℤ
  pub wr_lsid : ℤ
  pub tid : Option ℕ
  pub lock_era : ℕ
  pub vts : Option Stamp

-- The static members. The last one of the vector reusable_sids_ is the head of the list.
pub record Segments : Type 0 where
  pub max_sid : ℕ
  pub all : ℕ → Segment
  pub n_segments : ℕ
  pub reusable : List ℕ

abbrev pub blank : Segment
blank = record {
  ref_count = 0;
  rd_lsid = pos 0;
  wr_lsid = pos 0;
  tid = none;
  lock_era = 0;
  vts = none;
}

abbrev pub set_segment : Segments → ℕ → Segment → Segments
set_segment s sid g = record s { all = update s.all sid g }

-- InitClassMembers
unfoldable pub init_class_members : ℕ → Segments
init_class_members max_sid = record {
  max_sid = max_sid;
  all = λ _. blank;
  n_segments = 1;
  reusable = [];
}

-- The DCHECKs of GetInternal.
unfoldable pub get_internal : Segments → ℕ → Option Segment
get_internal s sid =
    if ltb 0 sid && (ltb sid s.max_sid && ltb sid s.n_segments) then some (s.all sid) else none

abbrev pub is_none {ℓ} : {A : Type ℓ} → Option A → Bool
is_none none = true
is_none (some a) = false

-- The checks on an id that is about to be used again.
unfoldable pub is_free : Segments → ℕ → Bool
is_free s sid =
    (ltb 0 sid && ltb sid s.max_sid)
    && (((s.all sid).ref_count == 0) && (is_none (s.all sid).vts && is_none (s.all sid).tid))

abbrev pub prepend : ℕ → Option (List ℕ × Segments) → Option (List ℕ × Segments)
prepend sid none = none
prepend sid (some (sids, s)) = some (sid ∷ sids, s)

-- The first loop of AllocateFreshSegments, over the vector from its end.
unfoldable pub reuse_loop : ℕ → List ℕ → Segments → Option (List ℕ × Segments)
reuse_loop n [] s = some ([], record s { reusable = [] })
reuse_loop zero (sid ∷ rest) s = some ([], record s { reusable = sid ∷ rest })
reuse_loop (suc n) (sid ∷ rest) s =
    let next = prepend sid (reuse_loop n rest s) in if is_free s sid then next else none

-- One round of the second loop: the next id, whose old contents are dropped.
unfoldable pub create_one : Segments → Segments
create_one s = record s {
  all = update s.all s.n_segments (record (s.all s.n_segments) { vts = none; ref_count = 0 });
  n_segments = s.n_segments + 1;
}

unfoldable pub create_loop : ℕ → Segments → Option (List ℕ × Segments)
create_loop zero s = some ([], s)
create_loop (suc n) s =
    let next = prepend s.n_segments (create_loop n (create_one s)) in
    if ltb s.n_segments s.max_sid then next else none

abbrev pub append_fresh : List ℕ → Option (List ℕ × Segments) → Option (List ℕ × Segments)
append_fresh sids none = none
append_fresh sids (some (more, s)) = some (sids ++ more, s)

unfoldable pub allocate_rest : ℕ → Option (List ℕ × Segments) → Option (List ℕ × Segments)
allocate_rest n none = none
allocate_rest n (some (sids, s)) = append_fresh sids (create_loop (n - length sids) s)

-- AllocateFreshSegments
unfoldable pub allocate_fresh_segments : ℕ → Segments → Option (List ℕ × Segments)
allocate_fresh_segments n s = allocate_rest n (reuse_loop n s.reusable s)

-- SetupFreshSid
unfoldable pub setup_fresh_sid : Segments → ℕ → ℕ → Stamp → ℤ → ℤ → ℕ → Option Segments
setup_fresh_sid s sid t v rd wr era = elim (get_internal s sid) [
  | none ↦ none
  | some g ↦
      if g.ref_count == 0
      then some (
          set_segment s sid (record {
            ref_count = 0;
            rd_lsid = rd;
            wr_lsid = wr;
            tid = some t;
            lock_era = era;
            vts = some v;
          }))
      else none
]

abbrev pub with_sid : ℕ → Option Segments → Option (ℕ × Segments)
with_sid sid none = none
with_sid sid (some s) = some (sid, s)

unfoldable pub setup_first :
    Option (List ℕ × Segments) → ℕ → Stamp → ℤ → ℤ → ℕ → Option (ℕ × Segments)
setup_first none t v rd wr era = none
setup_first (some ([], s)) t v rd wr era = none
setup_first (some (sid ∷ sids, s)) t v rd wr era =
    with_sid sid (setup_fresh_sid s sid t v rd wr era)

-- AddNewSegment
unfoldable pub add_new_segment : Segments → ℕ → Stamp → ℤ → ℤ → ℕ → Option (ℕ × Segments)
add_new_segment s t v rd wr era = setup_first (allocate_fresh_segments 1 s) t v rd wr era

-- Alive
unfoldable pub alive : Segments → ℕ → Bool
alive s sid = not (is_none (s.all sid).vts)

-- RecycleOneFreshSid
unfoldable pub recycle_one_fresh_sid : Segments → ℕ → Segments
recycle_one_fresh_sid s sid = record s {
  all = update s.all sid (record (s.all sid) { tid = none; vts = none });
  reusable = sid ∷ s.reusable;
}

-- RecycleOneSid: whether the segment was still alive.
unfoldable pub recycle_one_sid : Segments → ℕ → Option (Segments × Bool)
recycle_one_sid s sid = elim (get_internal s sid) [
  | none ↦ none
  | some g ↦
      if g.ref_count == 0
      then some (if is_none g.vts then (s, false) else (recycle_one_fresh_sid s sid, true))
      else none
]

-- Ref
unfoldable pub ref : Segments → ℕ → Option Segments
ref s sid = elim (get_internal s sid) [
  | none ↦ none
  | some g ↦ some (set_segment s sid (record g { ref_count = g.ref_count + 1 }))
]

-- UnrefNoRecycle: the new count.
unfoldable pub unref_no_recycle : Segments → ℕ → Option (Segments × ℕ)
unref_no_recycle s sid = elim (get_internal s sid) [
  | none ↦ none
  | some g ↦
      if ltb 0 g.ref_count
      then some (set_segment s sid (record g { ref_count = g.ref_count - 1 }), g.ref_count - 1)
      else none
]

abbrev pub state_of : Option (Segments × Bool) → Option Segments
state_of none = none
state_of (some (s, b)) = some s

unfoldable pub recycle_at_zero : ℕ → Option (Segments × ℕ) → Option Segments
recycle_at_zero sid none = none
recycle_at_zero sid (some (s, zero)) = state_of (recycle_one_sid s sid)
recycle_at_zero sid (some (s, suc n)) = some s

-- Unref
unfoldable pub unref : Segments → ℕ → Option Segments
unref s sid = recycle_at_zero sid (unref_no_recycle s sid)

-- ForgetAllState
unfoldable pub forget_all_state : Segments → Segments
forget_all_state s = record s { n_segments = 1; reusable = [] }
