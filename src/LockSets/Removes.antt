-- ===== src/LockSets/Removes.antt =====
-- LockSet::Remove against the multisets that the ids stand for.
use data_race_test.Prelude.{
  ℕ, zero, suc, ◌≡◌, ◌↔◌, inl, inr, refl, ap, Bool, true, false, List, [], ◌∷◌, Option, some, arith,
  ==_iff, Option-cases, ℤ, pos, negsuc,
}
use data_race_test.Multimap.{remove, has, count}
use data_race_test.Multimap.Counts.{IsRemoval, remove_from, has_from, remove_low, IsSortedFrom-mono}
use data_race_test.Caches.Pair
use data_race_test.Caches.PairLaws.{lookup_sound, insert-IsCoherent}
use data_race_test.LockSets.{
  LockSets, ls_params, get, compute_id, remove_lock, rem_cached, rem_uncached, rem_copy,
  remember_rem,
}
use data_race_test.LockSets.Contents.{contents, IsDifference, IsValid}
use data_race_test.LockSets.Intern.{IsInterned, compute_id-IsInterned}

-- What Remove leaves when the lock is there: true, and an id for the set with the lock once less.
abbrev pub Removes : LockSets → ℕ → List ℕ → Option (LockSets × Bool × ℤ) → Type 0
Removes s lid m o =
    (n : List ℕ) × (s' : LockSets) × (r : ℤ) × (o ≡ some (s', true, r))
    × IsRemoval 0 lid m n
    × IsInterned s n s' r

has_single : (l lid : ℕ) → (has (l ∷ []) lid ≡ true) ↔ (l ≡ lid)
has_single l lid =
    let w = has_from 0 lid (l ∷ []) (omega arith, tt) in
    (λ h. ground (arith, w.0 h), λ e. w.1 (ground arith))

remove_single : (l lid : ℕ) → l ≡ lid → IsRemoval 0 lid (l ∷ []) []
remove_single l lid e = record {
  removed = remove_low l lid [] (omega arith);
  sorted = tt;
  shorter = omega arith;
  counts = λ u. rw e (omega arith);
}

IsRemoval-mono : (lid : ℕ) (m n : List ℕ) → IsRemoval 1 lid m n → IsRemoval 0 lid m n
IsRemoval-mono lid m n r = record {
  removed = r.removed;
  sorted = IsSortedFrom-mono 0 1 n (omega arith) r.sorted;
  shorter = r.shorter;
  counts = r.counts;
}

remember_rem-IsInterned :
    (s s' : LockSets) (a r : ℤ) (lid : ℕ) (m n : List ℕ)
    → contents s a ≡ some m
    → has m lid ≡ true
    → IsRemoval 0 lid m n
    → IsInterned s n s' r
    → IsInterned s n (remember_rem a lid (s', r)).0 r
unfolding remember_rem
remember_rem-IsInterned s s' a r lid m n h t d o = record {
  valid = record {
    map_vec = o.valid.map_vec;
    vec_map = o.valid.vec_map;
    sized = o.valid.sized;
    sums = o.valid.sums;
    differences =
        insert-IsCoherent (IsDifference s') ls_params s'.rem_cache a lid r
          (m, n, o.extends a m h, t, d, o.meaning) o.valid.differences;
    int_sized = o.valid.int_sized;
    verdicts = o.valid.verdicts;
  };
  meaning = o.meaning;
  extends = o.extends;
}

-- The new set is interned, and the result remembered.
rem_copy-Removes :
    (s : LockSets) (a : ℤ) (lid : ℕ) (m n : List ℕ)
    → contents s a ≡ some m
    → has m lid ≡ true
    → IsRemoval 1 lid m n
    → (s' : LockSets) × (r : ℤ) × (compute_id s n ≡ some (s', r)) × IsInterned s n s' r
    → Removes s lid m (rem_copy s a lid (remove m lid))
unfolding rem_copy
rem_copy-Removes s a lid m n h t d (s', r, q, o) = (
  n,
  (remember_rem a lid (s', r)).0,
  r,
  rw d.removed (rw (q, rem_copy) (unfold remember_rem in refl)),
  IsRemoval-mono lid m n d,
  remember_rem-IsInterned s s' a r lid m n h t (IsRemoval-mono lid m n d) o,
)

rem_uncached-Removes :
    (s : LockSets) (i lid : ℕ) (m : List ℕ)
    → IsValid s
    → contents s (negsuc i) ≡ some m
    → has m lid ≡ true
    → Removes s lid m (rem_uncached s (negsuc i) lid (get s (negsuc i)))
unfolding rem_uncached get
rem_uncached-Removes s i lid m v h t =
    let w = v.vec_map i m h in
    let (n, d) = remove_from 1 lid m w.1 ((has_from 1 lid m w.1).0 t) in
    rw (h, rem_uncached)
      (rw t (
        rem_copy-Removes s (negsuc i) lid m n h t d
          (compute_id-IsInterned s n v d.sorted (omega (arith, d.shorter)))))

rem_cached-Removes :
    (s : LockSets) (i lid : ℕ) (m : List ℕ)
    → IsValid s
    → contents s (negsuc i) ≡ some m
    → has m lid ≡ true
    → Removes s lid m (remove_lock s (negsuc i) lid)
unfolding remove_lock rem_cached
rem_cached-Removes s i lid m v h t =
    elim (Option-cases (Pair.lookup ls_params s.rem_cache (negsuc i) lid)) [
      | inl e ↦ rw e (rem_uncached-Removes s i lid m v h t)
      | inr (r, e) ↦
          let (m', n, c, _, d, g) =
            lookup_sound (IsDifference s) ls_params s.rem_cache (negsuc i) lid r v.differences e in
          let f : m' ≡ m = ground arith in
          (n, s, r, rw e refl, rw f at d, record { valid = v; meaning = g; extends = λ b k q. q })
    ]

-- LockSet::Remove on a known set fails no CHECK; if the lock is there it answers true and an id of
-- the set with the lock once less, with valid tables and no id changed in meaning; if not, it
-- answers false and changes nothing.
pub remove_lock_lem :
    (s : LockSets) (a : ℤ) (lid : ℕ) (m : List ℕ)
    → IsValid s
    → contents s a ≡ some m
    → (has m lid ≡ true → Removes s lid m (remove_lock s a lid))
      × (has m lid ≡ false → remove_lock s a lid ≡ some (s, false, a))
unfolding remove_lock
remove_lock_lem s (pos zero) lid m v h =
    let e : m ≡ [] = ground arith in
    (λ t. absurd (omega (arith, (has_from 0 lid m (rw e tt)).0 t, ap (count lid) e)), λ t. refl)
remove_lock_lem s (pos (suc l)) lid m v h =
    let e : m ≡ suc l ∷ [] = ground arith in
    let w = has_single (suc l) lid in
    (
      λ t.
          let q : suc l ≡ lid = w.0 (rw e at t) in
          (
            [],
            s,
            pos 0,
            rw ((==_iff (suc l) lid).1 q) refl,
            rw e (remove_single (suc l) lid q),
            record { valid = v; meaning = refl; extends = λ b k g. g },
          ),
      λ t. let u : has (suc l ∷ []) lid ≡ false = rw e at t in ground arith,
    )
remove_lock_lem s (negsuc i) lid m v h = (
  rem_cached-Removes s i lid m v h,
  λ t. elim (Option-cases (Pair.lookup ls_params s.rem_cache (negsuc i) lid)) [
    | inl e ↦ unfold rem_cached rem_uncached get in rw e (rw (h, rem_uncached) (rw t refl))
    | inr (r, e) ↦
        let (m', n, c, u, d, g) =
          lookup_sound (IsDifference s) ls_params s.rem_cache (negsuc i) lid r v.differences e in
        let f : m' ≡ m = ground arith in let u' : has m lid ≡ true = rw f at u in absurd (cc)
  ],
)
