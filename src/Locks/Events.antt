-- ===== src/Locks/Events.antt =====
-- The parts of HandleLock and HandleUnlock of class TSanThread that change the lock and the two
-- lock sets of the thread, and decide which error is reported. The other parts of the two handlers
-- (signals of pure happens-before locks, lock history, new segment, access sets) are not modelled.
pub mod Balance
use data_race_test.Prelude.{
  ℕ, Bool, true, false, ◌&&◌, List, Option, none, some, if◌then◌else◌, ◌==◌, ltb, ℤ,
}
use data_race_test.LockSets.{LockSets, add_lock, remove_lock}
use data_race_test.Locks.{
  Lock, wr_lock, wr_unlock, rd_lock, rd_unlock, lookup, store, lookup_or_create,
}

-- What a lock event reads and changes: the lock sets, the map of locks, and of the thread its id
-- and its two sets.
pub record State : Type 0 where
  pub sets : LockSets
  pub locks : List Lock
  pub pure : Bool
  pub tid : ℕ
  pub rd_lockset : ℤ
  pub wr_lockset : ℤ

-- How this part of HandleUnlock ends: an error report without any change, a report after the change, or none.
pub data Outcome : Type 0 where
  done : Outcome
  invalid_lock : Outcome
  unlock_nonlocked : Outcome
  unlock_foreign : Outcome

abbrev pub with_lock : State → Option Lock → Option State
with_lock s none = none
with_lock s (some l) = some (record s { locks = store l s.locks })

abbrev pub set_rd : State → Option (LockSets × ℤ) → Option State
set_rd s none = none
set_rd s (some (t, r)) = some (record s { sets = t; rd_lockset = r })

abbrev pub set_wr : State → Option (LockSets × ℤ) → Option State
set_wr s none = none
set_wr s (some (t, r)) = some (record s { sets = t; wr_lockset = r })

-- rd_lockset_ = LockSet::Add(rd_lockset_, lock), and then the lock is taken.
unfoldable pub add_rd : Lock → (Lock → Option Lock) → Option State → Option State
add_rd l take none = none
add_rd l take (some s) = elim (set_rd s (add_lock s.sets s.rd_lockset l.lid)) [
  | none ↦ none
  | some s ↦ with_lock s (take l)
]

unfoldable pub lock_found : State → Bool → Lock → Option State
lock_found s true l =
    add_rd l (λ k. wr_lock k s.tid) (set_wr s (add_lock s.sets s.wr_lockset l.lid))
lock_found s false l = add_rd l rd_lock (some s)

-- The first part of HandleLock.
unfoldable pub take_lock : State → ℕ → Bool → Option State
take_lock s a is_w =
    let p = lookup_or_create s.pure a s.locks in lock_found (record s { locks = p.1 }) is_w p.0

-- LockSet::Remove on one of the two sets; the flag `removed`.
abbrev pub take_rd : State → Option (LockSets × Bool × ℤ) → Option (State × Bool)
take_rd s none = none
take_rd s (some (t, b, r)) = some (record s { sets = t; rd_lockset = r }, b)

abbrev pub take_wr : State → Option (LockSets × Bool × ℤ) → Option (State × Bool)
take_wr s none = none
take_wr s (some (t, b, r)) = some (record s { sets = t; wr_lockset = r }, b)

unfoldable pub remove_rd : ℕ → State → Option (State × Bool)
remove_rd lid s = take_rd s (remove_lock s.sets s.rd_lockset lid)

-- The && of the two removals: the second is not made if the first answers false.
unfoldable pub then_rd : ℕ → Option (State × Bool) → Option (State × Bool)
then_rd lid none = none
then_rd lid (some (s, true)) = remove_rd lid s
then_rd lid (some (s, false)) = some (s, false)

abbrev pub report : Option (State × Bool) → Option (State × Outcome)
report none = none
report (some (s, true)) = some (s, done)
report (some (s, false)) = some (s, unlock_foreign)

unfoldable pub unlock_sets : Bool → ℕ → Option State → Option (State × Outcome)
unlock_sets is_w lid none = none
unlock_sets true lid (some s) =
    report (then_rd lid (take_wr s (remove_lock s.sets s.wr_lockset lid)))
unlock_sets false lid (some s) = report (remove_rd lid s)

unfoldable pub unlock_found : State → Lock → Option (State × Outcome)
unlock_found s l =
    if (l.wr_held == 0) && (l.rd_held == 0)
    then some (s, unlock_nonlocked)
    else if ltb 0 l.wr_held
    then unlock_sets true l.lid (with_lock s (wr_unlock l))
    else unlock_sets false l.lid (with_lock s (rd_unlock l))

-- HandleUnlock up to the report of an unlock by another thread.
unfoldable pub release_lock : State → ℕ → Option (State × Outcome)
release_lock s a = elim (lookup a s.locks) [
  | none ↦ some (s, invalid_lock)
  | some l ↦ unlock_found s l
]
