-- ===== src/Shadow/FastPath/Agreement.antt =====
-- The fast path against the general one, on sets of at most one segment.
use data_race_test.Prelude.{
  ℕ, zero, suc, ◌≡◌, ◌≢◌, ◌⊎◌, inl, inr, refl, ap, Bool, true, false, some, if◌then◌else◌, ◌==◌,
  ◌<◌, eq_ℤ, eq_ℤ_iff, ℤ, pos, negsuc, arith, Bool-cases,
}
use data_race_test.Segments.{Segments}
use data_race_test.LockSets.{LockSets}
use data_race_test.SegmentSets.Tuple.{tid_of, happens_before_or_same_thread}
use data_race_test.SegmentSets.Store.{
  SegmentSets, contains, remove_segment_from_ss, add_segment_to_ss,
}
use data_race_test.SegmentSets.Singles.{IsFresh, SameBut, remove_single, remove_empty}
use data_race_test.Shadow.{ShadowValue, is_new, same_value}
use data_race_test.Shadow.Machine.{
  World, sids_of, or_else, write_loop, read_loop, race_loop, race_in, check_if_race, after_write,
  after_read, judge, memory_state_machine,
}
use data_race_test.Shadow.FastPath.{
  Handled, sval, case_00, case_01, case_10, case_11, dispatch, memory_state_machine_same_thread,
}

-- The set is empty, or one segment of the thread of `cur`.
abbrev pub IsOwn : Segments → ℕ → ℤ → Type 0
IsOwn g cur (pos zero) = Unit
IsOwn g cur (pos (suc x)) = tid_of g (suc x) ≡ tid_of g cur
IsOwn g cur (negsuc i) = ⊥

own_ordered :
    (g : Segments) (x cur : ℕ)
    → tid_of g x ≡ tid_of g cur
    → (happens_before_or_same_thread g x cur ≡ true)
unfolding happens_before_or_same_thread
own_ordered g x cur e = ground arith

remove_own :
    (s : SegmentSets) (rd : ℤ) (cur : ℕ)
    → IsFresh s
    → IsOwn s.segments cur rd
    → (s' : SegmentSets) × (remove_segment_from_ss s rd cur ≡ some (s', pos 0)) × SameBut s s'
remove_own s (pos zero) cur h o = remove_empty s cur h
remove_own s (pos (suc x)) cur h o =
    let (s', e, b) = remove_single s x cur h in
    (s', rw (own_ordered s.segments (suc x) cur o) at e, b)
remove_own s (negsuc i) cur h o = absurd o

add_own :
    (s : SegmentSets) (wr : ℤ) (cur : ℕ)
    → IsOwn s.segments cur wr
    → add_segment_to_ss s wr cur ≡ some (s, pos cur)
unfolding add_segment_to_ss
add_own s (pos zero) cur o = refl
add_own s (pos (suc x)) cur o = ground arith
add_own s (negsuc i) cur o = absurd o

-- What the general path answers for a state, a value and an access: the new value and no race.
abbrev pub Quiet : World → ShadowValue → ℕ → Bool → ShadowValue → Type 0
Quiet w old cur is_w v =
    (w' : World) × (memory_state_machine w old cur is_w ≡ some (w', v, false))
    × SameBut w.sets w'.sets

judge_write :
    (l : LockSets) (old : ShadowValue) (s : SegmentSets) (cur : ℕ)
    → judge l old (some (s, sval (pos 0) (pos cur)))
      ≡ some (record { sets = s; locks = l }, sval (pos 0) (pos cur), false)
unfolding judge
judge_write l old s cur = ground arith

Quiet-write :
    (w : World) (old : ShadowValue) (cur : ℕ)
    → IsFresh w.sets
    → IsOwn w.sets.segments cur old.rd_ssid
    → IsOwn w.sets.segments cur old.wr_ssid
    → Quiet w old cur true (sval (pos 0) (pos cur))
unfolding memory_state_machine after_write
Quiet-write w old cur h o p = elim (Bool-cases (is_new old)) [
  | inl n ↦ (w, rw n refl, (h, refl))
  | inr n ↦
      let (s', e, b) = remove_own w.sets old.rd_ssid cur h o in
      let p' : IsOwn s'.segments cur old.wr_ssid = rw b.1 p in
      (
        record { sets = s'; locks = w.locks },
        rw (n, e, add_own s' old.wr_ssid cur p') (judge_write w.locks old s' cur),
        b,
      )
]

-- A read whose segment is of the writer's thread is no race with it.
no_race :
    (w : World) (y cur : ℕ)
    → 0 < cur
    → tid_of w.sets.segments (suc y) ≡ tid_of w.sets.segments cur
    → check_if_race w (pos cur) (pos (suc y)) ≡ some (w.locks, false)
unfolding check_if_race race_in race_loop write_loop read_loop or_else sids_of
no_race w y zero p e = absurd (omega arith)
no_race w y (suc c) p e = rw (own_ordered w.sets.segments (suc y) (suc c) e) refl

judge_read :
    (w : World) (old : ShadowValue) (wr : ℤ) (cur : ℕ)
    → 0 < cur
    → IsOwn w.sets.segments cur wr
    → judge w.locks old (some (w.sets, sval (pos cur) wr)) ≡ some (w, sval (pos cur) wr, false)
unfolding judge
judge_read w old (pos zero) cur p o = ground arith
judge_read w old (pos (suc y)) cur p o =
    elim (Bool-cases (same_value (sval (pos cur) (pos (suc y))) old)) [
      | inl e ↦ rw e refl
      | inr e ↦
          let z : eq_ℤ (pos cur) (pos 0) ≡ false = ground arith in
          rw (e, z, no_race w y cur p o) (ground arith)
    ]
judge_read w old (negsuc i) cur p o = absurd o

contains_no :
    (s : SegmentSets) (wr : ℤ) (cur : ℕ)
    → IsOwn s.segments cur wr
    → wr ≢ pos cur
    → contains s wr cur ≡ some false
unfolding contains
contains_no s (pos zero) cur o n = refl
contains_no s (pos (suc y)) cur o n = ground arith
contains_no s (negsuc i) cur o n = absurd o

Quiet-read :
    (w : World) (old : ShadowValue) (cur : ℕ)
    → IsFresh w.sets
    → 0 < cur
    → IsOwn w.sets.segments cur old.rd_ssid
    → IsOwn w.sets.segments cur old.wr_ssid
    → old.wr_ssid ≢ pos cur
    → Quiet w old cur false (sval (pos cur) old.wr_ssid)
unfolding memory_state_machine after_read is_new
Quiet-read w old cur h c o p n = elim (Bool-cases (is_new old)) [
  | inl e ↦
      let z : old.wr_ssid ≡ pos 0 = ground (arith, eq_ℤ_iff old.wr_ssid (pos 0)) in
      (w, rw (e, z) refl, (h, refl))
  | inr e ↦ (
    w,
    rw (e, after_read, contains_no w.sets old.wr_ssid cur p n, add_own w.sets old.rd_ssid cur o)
        (judge_read w old old.wr_ssid cur c p),
    (h, refl),
  )
]

judge_same :
    (w : World) (old : ShadowValue) → judge w.locks old (some (w.sets, old)) ≡ some (w, old, false)
unfolding judge same_value
judge_same w old =
    ground (arith, eq_ℤ_iff old.rd_ssid old.rd_ssid, eq_ℤ_iff old.wr_ssid old.wr_ssid)

after_read_writer :
    (s : SegmentSets) (rd : ℤ) (y : ℕ)
    → after_read s (sval rd (pos (suc y))) (suc y) ≡ some (s, sval rd (pos (suc y)))
unfolding after_read contains
after_read_writer s rd y = let e : (suc y == suc y) ≡ true = ground arith in rw (after_read, e) refl

writer_not_new : (rd : ℤ) (y : ℕ) → is_new (sval rd (pos (suc y))) ≡ false
unfolding is_new
writer_not_new rd y = ground arith

-- A read by the last writer changes nothing.
Quiet-read_writer :
    (w : World) (rd : ℤ) (cur : ℕ)
    → IsFresh w.sets
    → 0 < cur
    → Quiet w (sval rd (pos cur)) cur false (sval rd (pos cur))
unfolding memory_state_machine
Quiet-read_writer w rd zero h c = absurd (omega arith)
Quiet-read_writer w rd (suc y) h c = (
  w,
  rw (writer_not_new rd y, after_read_writer w.sets rd y) (judge_same w (sval rd (pos (suc y)))),
  (h, refl),
)

-- What a branch of the fast path tells: the sets are of the current thread, and the new value.
abbrev Tells : Segments → Bool → ShadowValue → ℕ → Handled → Type 0
Tells g is_w old cur f =
    IsOwn g cur old.rd_ssid
    × IsOwn g cur old.wr_ssid
    × ((old.rd_ssid ≡ pos 0) ⊎ (old.wr_ssid ≢ pos cur)
        → f.value ≡ (
            if is_w
            then sval (pos 0) (pos cur)
            else if eq_ℤ old.wr_ssid (pos cur)
            then old
            else sval (pos cur) old.wr_ssid))
    × (old.rd_ssid ≢ pos 0
        → old.rd_ssid ≢ pos cur
        → old.wr_ssid ≡ pos cur
        → f.value ≡ (if is_w then old else sval (pos 0) (pos cur)))

tells :
    (g : Segments) (is_w : Bool) (rd wr : ℤ) (cur : ℕ) (f : Handled)
    → 0 < cur
    → dispatch g is_w cur rd wr ≡ some f
    → Tells g is_w (sval rd wr) cur f
unfolding dispatch case_00 case_01 case_10 case_11
tells g is_w (pos zero) (pos zero) cur f p e = ground arith
tells g is_w (pos zero) (pos (suc y)) cur f p e =
    ground (arith, ap (tid_of g) {x = suc y} {y = cur})
tells g is_w (pos zero) (negsuc j) cur f p e = absurd (cc)
tells g is_w (pos (suc x)) (pos zero) cur f p e =
    ground (arith, ap (tid_of g) {x = suc x} {y = cur})
tells g is_w (pos (suc x)) (pos (suc y)) cur f p e =
    ground (arith, ap (tid_of g) {x = suc x} {y = cur}, ap (tid_of g) {x = suc y} {y = cur})
tells g is_w (pos (suc x)) (negsuc j) cur f p e = absurd (cc)
tells g is_w (negsuc i) wr cur f p e = absurd (cc)

Quiet-reader :
    (w : World) (old : ShadowValue) (cur : ℕ)
    → IsFresh w.sets
    → 0 < cur
    → IsOwn w.sets.segments cur old.rd_ssid
    → IsOwn w.sets.segments cur old.wr_ssid
    → Quiet w old cur false (if eq_ℤ old.wr_ssid (pos cur) then old else sval (pos cur) old.wr_ssid)
Quiet-reader w old cur h c o p = elim (Bool-cases (eq_ℤ old.wr_ssid (pos cur))) [
  | inl e ↦
      let q = (eq_ℤ_iff old.wr_ssid (pos cur)).0 e in
      rw e (rw (sval_eta w old cur q) (Quiet-read_writer w old.rd_ssid cur h c))
  | inr e ↦
      rw e (Quiet-read w old cur h c o p (λ q. ground (arith, eq_ℤ_iff old.wr_ssid (pos cur))))
]
  where
    sval_eta :
        (w : World) (old : ShadowValue) (cur : ℕ)
        → old.wr_ssid ≡ pos cur
        → old ≡ sval old.rd_ssid (pos cur)
    sval_eta w old cur q = ground arith

-- The answer of the general path to an access by the thread of all the segments of the value.
Quiet-access :
    (w : World) (old : ShadowValue) (cur : ℕ) (is_w : Bool)
    → IsFresh w.sets
    → 0 < cur
    → IsOwn w.sets.segments cur old.rd_ssid
    → IsOwn w.sets.segments cur old.wr_ssid
    → Quiet w old cur is_w (
        if is_w
        then sval (pos 0) (pos cur)
        else if eq_ℤ old.wr_ssid (pos cur)
        then old
        else sval (pos cur) old.wr_ssid)
Quiet-access w old cur true h c o p = Quiet-write w old cur h o p
Quiet-access w old cur false h c o p = Quiet-reader w old cur h c o p

-- Where MemoryStateMachineSameThread handles an access of a segment with a positive id, and the
-- location has no reader or its last writer is not the current segment, MemoryStateMachine fails no
-- CHECK, gives the same new value and finds no race, in any state whose cache of removals is right
-- for the present segments, and that cache stays right.
pub same_thread-agrees :
    (w : World) (old : ShadowValue) (cur : ℕ) (is_w : Bool) (f : Handled)
    → IsFresh w.sets
    → 0 < cur
    → memory_state_machine_same_thread w.sets.segments is_w old cur ≡ some f
    → (old.rd_ssid ≡ pos 0) ⊎ (old.wr_ssid ≢ pos cur)
    → Quiet w old cur is_w f.value
unfolding memory_state_machine_same_thread
same_thread-agrees w old cur is_w f h c e d =
    let t = tells w.sets.segments is_w old.rd_ssid old.wr_ssid cur f c e in
    rw (t.2 d) (Quiet-access w old cur is_w h c t.0 t.1)

-- Where MemoryStateMachineSameThread handles an access to a location with a last reader other than
-- the current segment, whose last writer is the current segment, it keeps on a write a reader that
-- MemoryStateMachine drops, and drops on a read one that it keeps; the latter finds no race. The
-- cache of removals is right for the present segments.
pub same_thread_differs :
    (w : World) (old : ShadowValue) (cur : ℕ) (is_w : Bool) (f : Handled)
    → IsFresh w.sets
    → 0 < cur
    → memory_state_machine_same_thread w.sets.segments is_w old cur ≡ some f
    → old.rd_ssid ≢ pos 0
    → old.rd_ssid ≢ pos cur
    → old.wr_ssid ≡ pos cur
    → Quiet w old cur is_w (if is_w then sval (pos 0) (pos cur) else old)
      × (f.value ≡ (if is_w then old else sval (pos 0) (pos cur)))
unfolding memory_state_machine_same_thread
same_thread_differs w old cur is_w f h c e n m q =
    let t = tells w.sets.segments is_w old.rd_ssid old.wr_ssid cur f c e in
    let z : eq_ℤ old.wr_ssid (pos cur) ≡ true = (eq_ℤ_iff old.wr_ssid (pos cur)).1 q in
    (rw z at (Quiet-access w old cur is_w h c t.0 t.1), t.3 n m q)
