-- ===== src/Locks/Events/Balance.antt =====
-- HandleLock followed by HandleUnlock of the same lock: the lock and the lock sets.
use data_race_test.Prelude.{
  ℕ, zero, suc, ◌+◌, ◌<◌, ◌≡◌, ◌⊎◌, refl, ap, ◌∙◌, Bool, true, false, List, [], ◌∷◌, Option, some,
  ◌==◌, ltb, ℤ, pos, negsuc, arith,
}
use data_race_test.Multimap.{add, IsSorted}
use data_race_test.Multimap.Counts.{IsSortedFrom-mono, add_lem, add_laws, has_iff}
use data_race_test.LockSets.{LockSets, add_lock, remove_lock}
use data_race_test.LockSets.Contents.{contents, contents_injective}
use data_race_test.LockSets.Contents
use data_race_test.LockSets.Intern.{IsInterned}
use data_race_test.LockSets.Updates.{add_lock-Adds}
use data_race_test.LockSets.Removes.{remove_lock_lem}
use data_race_test.Locks.{Lock, wr_lock, wr_unlock, lookup, store, lookup_or_create}
use data_race_test.Locks.Events.{
  State, done, add_rd, lock_found, take_lock, remove_rd, then_rd, unlock_sets, unlock_found,
  release_lock,
}

lookup-store :
    (a : ℕ) (l x : Lock) (ls : List Lock)
    → lookup a ls ≡ some l
    → x.lock_addr ≡ a
    → lookup a (store x ls) ≡ some x
unfolding lookup store
lookup-store a l x [] h e = absurd (cc)
lookup-store a l x (y ∷ ls) h e = ground (arith, lookup-store a l x ls)

lookup_addr : (a : ℕ) (l : Lock) (ls : List Lock) → lookup a ls ≡ some l → l.lock_addr ≡ a
unfolding lookup
lookup_addr a l [] h = absurd (cc)
lookup_addr a l (y ∷ ls) h = ground (arith, lookup_addr a l ls)

store-store :
    (x y : Lock) (ls : List Lock) → x.lock_addr ≡ y.lock_addr → store y (store x ls) ≡ store y ls
unfolding store
store-store x y [] e = refl
store-store x y (l ∷ ls) e = ground (arith, store-store x y ls e)

contents-IsSorted :
    (s : LockSets) (a : ℤ) (m : List ℕ) → Contents.IsValid s → contents s a ≡ some m → IsSorted m
contents-IsSorted s (pos zero) m v h = ground arith
contents-IsSorted s (pos (suc n)) m v h = ground arith
contents-IsSorted s (negsuc i) m v h =
    let w = v.vec_map i m h in IsSortedFrom-mono 0 1 m (omega arith) (w.1)

-- A lock once more and then once less.
abbrev Restores : LockSets → ℕ → List ℕ → Option (LockSets × Bool × ℤ) → Type 0
Restores s lid m o = (s' : LockSets) × (r : ℤ) × (o ≡ some (s', true, r)) × IsInterned s m s' r

remove_added :
    (s : LockSets) (a : ℤ) (lid : ℕ) (m : List ℕ)
    → Contents.IsValid s
    → IsSorted m
    → contents s a ≡ some (add m lid)
    → Restores s lid m (remove_lock s a lid)
remove_added s a lid m v o h =
    let p = add_lem m lid o in
    let q = (has_iff (add m lid) lid p.0).1 (ground (arith, p.2 lid)) in
    let (n, s', r, e, w, i) = (remove_lock_lem s a lid (add m lid) v h).0 q in
    let c : n ≡ m = ground (arith, (add_laws m lid lid o).1, w.removed) in (s', r, e, rw (← c) i)

abbrev wr_locked : Lock → ℕ → Lock
wr_locked l tid = record l { wr_held = l.wr_held + 1; holder = tid }

wr_lock_eq :
    (l : Lock) (tid : ℕ)
    → l.rd_held ≡ 0
    → (l.wr_held ≡ 0) ⊎ (l.holder ≡ tid)
    → wr_lock l tid ≡ some (wr_locked l tid)
unfolding wr_lock
wr_lock_eq l tid r h = ground arith

wr_unlock_eq :
    (l : Lock) (tid : ℕ)
    → l.rd_held ≡ 0
    → wr_unlock (wr_locked l tid) ≡ some (record l { holder = tid })
unfolding wr_unlock
wr_unlock_eq l tid r = ground arith

module _ (s : State) (a : ℕ) (l : Lock) (found : lookup a s.locks ≡ some l) where
  found_eq : lookup_or_create s.pure a s.locks ≡ (l, s.locks)
  unfolding lookup_or_create
  found_eq = rw (lookup_or_create, found) refl

  locked_eq :
      (t1 t2 : LockSets) (r1 r2 : ℤ) (k : Lock)
      → add_lock s.sets s.wr_lockset l.lid ≡ some (t1, r1)
      → add_lock t1 s.rd_lockset l.lid ≡ some (t2, r2)
      → wr_lock l s.tid ≡ some k
      → take_lock s a true
        ≡ some (record s { sets = t2; locks = store k s.locks; rd_lockset = r2; wr_lockset = r1 })
  unfolding take_lock lock_found add_rd
  locked_eq t1 t2 r1 r2 k e f g =
      ap (λ p. lock_found (record s { locks = p.1 }) true p.0) found_eq
      ∙ rw (lock_found, e, add_rd, f, g) refl

  unlocked_eq :
      (t2 t3 t4 : LockSets) (r1 r2 r3 r4 : ℤ) (k k' : Lock)
      → k.lock_addr ≡ a
      → 0 < k.wr_held
      → wr_unlock k ≡ some k'
      → k'.lock_addr ≡ a
      → remove_lock t2 r1 k.lid ≡ some (t3, true, r3)
      → remove_lock t3 r2 k.lid ≡ some (t4, true, r4)
      → release_lock
          (record s { sets = t2; locks = store k s.locks; rd_lockset = r2; wr_lockset = r1 })
          a
        ≡ some (
          record s {
            sets = t4;
            locks = store k' (store k s.locks);
            rd_lockset = r4;
            wr_lockset = r3;
          },
          done,
        )
  unfolding release_lock unlock_found unlock_sets then_rd remove_rd
  unlocked_eq t2 t3 t4 r1 r2 r3 r4 k k' ka w u ka' e f =
      let z : (k.wr_held == 0) ≡ false = ground arith in
      let p : ltb 0 k.wr_held ≡ true = ground arith in
      rw
        (
          release_lock,
          lookup-store a l k s.locks found ka,
          unlock_found,
          z,
          p,
          u,
          unlock_sets,
          e,
          then_rd,
          remove_rd,
          f,
        )
        refl

  -- What HandleLock for writing (of a lock with a positive id that no reader holds, and that is
  -- free or held by the thread itself) and then HandleUnlock of it do to the lock and the lock
  -- sets, in valid tables: no CHECK fails, in between both sets of the thread have the lock once
  -- more, afterwards both are the old ids, no report is made, the lock is held as often as before
  -- and the tables are valid.
  pub release_lock-take_lock :
      (m n : List ℕ)
      → Contents.IsValid s.sets
      → 0 < l.lid
      → l.rd_held ≡ 0
      → (l.wr_held ≡ 0) ⊎ (l.holder ≡ s.tid)
      → contents s.sets s.wr_lockset ≡ some m
      → contents s.sets s.rd_lockset ≡ some n
      → (s1 : State) × (s2 : State) × (take_lock s a true ≡ some s1)
        × (contents s1.sets s1.wr_lockset ≡ some (add m l.lid))
        × (contents s1.sets s1.rd_lockset ≡ some (add n l.lid))
        × (release_lock s1 a ≡ some (s2, done))
        × (s2.wr_lockset ≡ s.wr_lockset)
        × (s2.rd_lockset ≡ s.rd_lockset)
        × (s2.locks ≡ store (record l { holder = s.tid }) s.locks)
        × Contents.IsValid s2.sets
  release_lock-take_lock m n v p r h cm cn =
      let k = wr_locked l s.tid in
      let k' : Lock = record l { holder = s.tid } in
      let ka = lookup_addr a l s.locks found in
      let (t1, r1, e1, i1) = add_lock-Adds s.sets s.wr_lockset l.lid m v p cm in
      let (t2, r2, e2, i2) =
        add_lock-Adds t1 s.rd_lockset l.lid n i1.valid p (i1.extends s.rd_lockset n cn) in
      let (t3, r3, e3, i3) =
        remove_added t2 r1 l.lid m i2.valid (contents-IsSorted s.sets s.wr_lockset m v cm)
          (i2.extends r1 (add m l.lid) i1.meaning) in
      let (t4, r4, e4, i4) =
        remove_added t3 r2 l.lid n i3.valid (contents-IsSorted s.sets s.rd_lockset n v cn)
          (i3.extends r2 (add n l.lid) i2.meaning) in
      let cm4 =
        i4.extends s.wr_lockset m
          (i3.extends s.wr_lockset m (i2.extends s.wr_lockset m (i1.extends s.wr_lockset m cm))) in
      let cn4 =
        i4.extends s.rd_lockset n
          (i3.extends s.rd_lockset n (i2.extends s.rd_lockset n (i1.extends s.rd_lockset n cn))) in
      (
        record s { sets = t2; locks = store k s.locks; rd_lockset = r2; wr_lockset = r1 },
        record s {
          sets = t4;
          locks = store k' (store k s.locks);
          rd_lockset = r4;
          wr_lockset = r3;
        },
        locked_eq t1 t2 r1 r2 k e1 e2 (wr_lock_eq l s.tid r h),
        i2.extends r1 (add m l.lid) i1.meaning,
        i2.meaning,
        unlocked_eq t2 t3 t4 r1 r2 r3 r4 k k' ka (omega arith) (wr_unlock_eq l s.tid r) ka e3 e4,
        contents_injective t4 r3 s.wr_lockset m i4.valid (i4.extends r3 m i3.meaning) cm4,
        contents_injective t4 r4 s.rd_lockset n i4.valid i4.meaning cn4,
        store-store k k' s.locks refl,
        i4.valid,
      )
