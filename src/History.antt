-- ===== src/History.antt =====
-- struct LockHistory, tsan/thread_sanitizer.cc: the latest locks and unlocks of a thread, with the
-- global lock era. Printing is not modelled; a set of lock ids is a list without an order.
pub mod Recent
pub mod Common
use data_race_test.Prelude.{
  ℕ, suc, ◌+◌, Bool, true, false, not, ◌&&◌, ◌||◌, List, [], ◌∷◌, ◌++◌, Option, none, some,
  if◌then◌else◌, ◌==◌, ltb, leb, length, drop,
}

-- LockHistoryElement
pub record Element : Type 0 where
  pub lid : ℕ
  pub lock_era : ℕ

-- The front of a queue is the head of its list.
pub record LockHistory : Type 0 where
  pub locks : List Element
  pub unlocks : List Element
  pub size : ℕ

-- Push; `none` is the failed CHECK, and the front of an empty queue that is taken away.
unfoldable pub push : ℕ → Element → List Element → Option (List Element)
push size e q =
    if leb (length q) size
    then (if length q == size
        then (if size == 0 then none else some (drop 1 q ++ e ∷ []))
        else some (q ++ e ∷ []))
    else none

abbrev pub with_locks : ℕ → LockHistory → Option (List Element) → Option (ℕ × LockHistory)
with_locks era h none = none
with_locks era h (some q) = some (era, record h { locks = q })

abbrev pub with_unlocks : ℕ → LockHistory → Option (List Element) → Option (ℕ × LockHistory)
with_unlocks era h none = none
with_unlocks era h (some q) = some (era, record h { unlocks = q })

-- OnLock; the first component is g_lock_era.
unfoldable pub on_lock : ℕ → LockHistory → ℕ → Option (ℕ × LockHistory)
on_lock era h lid =
    with_locks (era + 1) h (push h.size (record { lid = lid; lock_era = era + 1 }) h.locks)

-- OnUnlock
unfoldable pub on_unlock : ℕ → LockHistory → ℕ → Option (ℕ × LockHistory)
on_unlock era h lid =
    with_unlocks (era + 1) h (push h.size (record { lid = lid; lock_era = era + 1 }) h.unlocks)

unfoldable pub mem : ℕ → List ℕ → Bool
mem x [] = false
mem x (y ∷ ys) = (y == x) || mem x ys

-- set::insert
unfoldable pub insert : ℕ → List ℕ → List ℕ
insert x s = if mem x s then s else x ∷ s

-- The loop over the unlocks.
unfoldable pub unlock_loop : ℕ → ℕ → ℕ → List Element → List ℕ → List ℕ
unlock_loop min lid l_era [] s = s
unlock_loop min lid l_era (u ∷ us) s =
    unlock_loop min lid l_era us
      (if (lid == u.lid) && (leb min u.lock_era && leb u.lock_era l_era) then insert lid s else s)

-- The loop over the locks; `pure` tells the pure happens-before locks.
unfoldable pub lock_loop : (ℕ → Bool) → ℕ → List Element → List Element → List ℕ → List ℕ
lock_loop pure min [] us s = s
lock_loop pure min (l ∷ ls) us s =
    lock_loop pure min ls us
      (if ltb l.lock_era min || pure l.lid then s else unlock_loop min l.lid l.lock_era us s)

abbrev pub is_empty : List ℕ → Bool
is_empty [] = true
is_empty (x ∷ xs) = false

-- Intersect: *locks and the answer.
unfoldable pub intersect : (ℕ → Bool) → LockHistory → LockHistory → ℕ → List ℕ → List ℕ × Bool
intersect pure l u min s = let r = lock_loop pure min l.locks u.unlocks s in (r, not (is_empty r))
