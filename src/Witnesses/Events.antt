-- ===== src/Witnesses/Events.antt =====
-- A thread that takes a lock and releases it.
use data_race_test.Prelude.{◌≡◌, inl, refl, true, false, [], ◌∷◌, some, negsuc, arith}
use data_race_test.Multimap.{add}
use data_race_test.LockSets.Contents
use data_race_test.LockSets.Contents.{contents}
use data_race_test.Locks.{Lock, lookup, store}
use data_race_test.Locks.Events.{State, done, take_lock, release_lock}
use data_race_test.Locks.Events.Balance.{release_lock-take_lock}
use data_race_test.Witnesses.Locks.{known, known-IsValid}

abbrev mutex : Lock
mutex = record {
  lock_addr = 1000;
  lid = 3;
  rd_held = 0;
  wr_held = 0;
  is_pure_happens_before = false;
  holder = 0;
}

-- The thread holds the locks 4 and 9 for writing, and 5 and 9 for reading.
abbrev holding : State
holding = record {
  sets = known;
  locks = mutex ∷ [];
  pure = false;
  tid = 2;
  rd_lockset = negsuc 1;
  wr_lockset = negsuc 0;
}

mutex_found : lookup 1000 (mutex ∷ []) ≡ some mutex
unfolding lookup
mutex_found = refl

release_lock-take_lock_example :
    (s1 : State) × (s2 : State) × (take_lock holding 1000 true ≡ some s1)
    × (contents s1.sets s1.wr_lockset ≡ some (add (4 ∷ 9 ∷ []) 3))
    × (contents s1.sets s1.rd_lockset ≡ some (add (5 ∷ 9 ∷ []) 3))
    × (release_lock s1 1000 ≡ some (s2, done))
    × (s2.wr_lockset ≡ negsuc 0)
    × (s2.rd_lockset ≡ negsuc 1)
    × (s2.locks ≡ store (record mutex { holder = 2 }) (mutex ∷ []))
    × Contents.IsValid s2.sets
release_lock-take_lock_example =
    release_lock-take_lock holding 1000 mutex mutex_found (4 ∷ 9 ∷ []) (5 ∷ 9 ∷ []) known-IsValid
      (ground arith) refl (inl refl) refl refl
