-- ===== src/Locks.antt =====
-- class Lock and the lock events of class TSanThread, tsan/thread_sanitizer.cc. The lock site kept
-- for reports and the name are not modelled.
pub mod Events
use data_race_test.Prelude.{
  ℕ, zero, suc, ◌+◌, ◌-◌, Bool, true, false, not, ◌&&◌, ◌||◌, List, [], ◌∷◌, ◌++◌, Option, none,
  some, if◌then◌else◌, ◌==◌, ltb, length,
}

-- A lock; `holder` is thread_holding_me_in_write_mode_.
pub record Lock : Type 0 where
  pub lock_addr : ℕ
  pub lid : ℕ
  pub rd_held : ℕ
  pub wr_held : ℕ
  pub is_pure_happens_before : Bool
  pub holder : ℕ

abbrev pub set_held : Lock → ℕ → ℕ → Lock
set_held l rd wr = record l { rd_held = rd; wr_held = wr }

-- WrLock; `none` is a failed CHECK.
unfoldable pub wr_lock : Lock → ℕ → Option Lock
wr_lock l tid =
    if l.rd_held == 0
    then (if l.wr_held == 0
        then some (record l { wr_held = 1; holder = tid })
        else if l.holder == tid
        then some (record l { wr_held = l.wr_held + 1 })
        else none)
    else none

-- WrUnlock
unfoldable pub wr_unlock : Lock → Option Lock
wr_unlock l =
    if (l.rd_held == 0) && ltb 0 l.wr_held
    then some (record l { wr_held = l.wr_held - 1 })
    else none

-- RdLock
unfoldable pub rd_lock : Lock → Option Lock
rd_lock l = if l.wr_held == 0 then some (record l { rd_held = l.rd_held + 1 }) else none

-- RdUnlock
unfoldable pub rd_unlock : Lock → Option Lock
rd_unlock l =
    if (l.wr_held == 0) && ltb 0 l.rd_held
    then some (record l { rd_held = l.rd_held - 1 })
    else none

-- The map of locks, by address, the one made last first. The code never removes a lock.
unfoldable pub lookup : ℕ → List Lock → Option Lock
lookup a [] = none
lookup a (l ∷ ls) = let rest = lookup a ls in if l.lock_addr == a then some l else rest

-- The object behind a pointer is written.
unfoldable pub store : Lock → List Lock → List Lock
store x [] = []
store x (l ∷ ls) = if l.lock_addr == x.lock_addr then x ∷ ls else l ∷ store x ls

-- LookupOrCreate: the lock, and the map. The id of a new lock is the size of the map with it.
unfoldable pub lookup_or_create : Bool → ℕ → List Lock → Lock × List Lock
lookup_or_create pure a ls = elim (lookup a ls) [
  | some l ↦ (l, ls)
  | none ↦
      let l : Lock = record {
        lock_addr = a;
        lid = length ls + 1;
        rd_held = 0;
        wr_held = 0;
        is_pure_happens_before = pure;
        holder = 0;
      } in
      (l, l ∷ ls)
]

abbrev reset : Bool → Lock × List Lock → Lock × List Lock
reset pure p =
    let l : Lock = record (p.0) { rd_held = 0; wr_held = 0; is_pure_happens_before = pure } in
    (l, store l p.1)

-- Create
unfoldable pub create : Bool → ℕ → List Lock → Lock × List Lock
create pure a ls = reset pure (lookup_or_create pure a ls)

abbrev pub wr_signal_addr : Lock → ℕ
wr_signal_addr l = l.lock_addr

abbrev pub rd_signal_addr : Lock → ℕ
rd_signal_addr l = l.lock_addr + 1
