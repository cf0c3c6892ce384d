-- ===== src/LockSets/Updates.antt =====
-- LockSet::Add and LockSet::Remove against the multisets that the ids stand for.
use data_race_test.Prelude.{
  ℕ, zero, suc, ◌<◌, ◌≡◌, ◌≢◌, inl, inr, refl, List, [], ◌∷◌, Option, some, arith, Option-cases, ℤ,
  pos, negsuc,
}
use data_race_test.Multimap.{add, doubleton}
use data_race_test.Multimap.Counts.{add-IsSortedFrom, length-add, add-cons, add-nil}
use data_race_test.Caches.Pair
use data_race_test.Caches.PairLaws.{lookup_sound, insert-IsCoherent}
use data_race_test.LockSets.{
  LockSets, ls_params, get, add_lock, add_cached, add_uncached, remember_add,
}
use data_race_test.LockSets.Contents.{contents, IsSum, IsValid}
use data_race_test.LockSets.Intern.{IsInterned, compute_id-IsInterned}

doubleton-add : (l lid : ℕ) → doubleton l lid ≡ add (l ∷ []) lid
unfolding doubleton
doubleton-add l lid = rw (add-cons, add-nil) (ground arith)

-- The set that the slow path of Add interns.
add_uncached-IsInterned :
    (s : LockSets) (a : ℤ) (lid : ℕ) (m : List ℕ)
    → IsValid s
    → 0 < lid
    → a ≢ pos 0
    → contents s a ≡ some m
    → (s' : LockSets) × (r : ℤ) × (add_uncached s a lid ≡ some (s', r))
      × IsInterned s (add m lid) s' r
unfolding add_uncached get
add_uncached-IsInterned s (pos l) lid m v p n h =
    let e : m ≡ l ∷ [] = ground arith in
    rw (doubleton-add, e)
      (compute_id-IsInterned s (add (l ∷ []) lid) v
        (add-IsSortedFrom 1 lid (l ∷ []) p (ground arith, tt))
        (omega (arith, length-add lid (l ∷ []))))
add_uncached-IsInterned s (negsuc i) lid m v p n h =
    let w = v.vec_map i m h in
    rw (h, add_uncached)
      (compute_id-IsInterned s (add m lid) v (add-IsSortedFrom 1 lid m p w.1)
        (omega (arith, length-add lid m)))

-- The cache may keep the result.
remember_add-IsInterned :
    (s s' : LockSets) (a r : ℤ) (lid : ℕ) (m : List ℕ)
    → contents s a ≡ some m
    → IsInterned s (add m lid) s' r
    → IsInterned s (add m lid) (remember_add a lid (s', r)).0 r
unfolding remember_add
remember_add-IsInterned s s' a r lid m h o = record {
  valid = record {
    map_vec = o.valid.map_vec;
    vec_map = o.valid.vec_map;
    sized = o.valid.sized;
    sums =
        insert-IsCoherent (IsSum s') ls_params s'.add_cache a lid r (m, o.extends a m h, o.meaning)
          o.valid.sums;
    differences = o.valid.differences;
    int_sized = o.valid.int_sized;
    verdicts = o.valid.verdicts;
  };
  meaning = o.meaning;
  extends = o.extends;
}

-- What Add leaves: a state and an id for the set with the lock once more.
abbrev pub Adds : LockSets → ℤ → ℕ → List ℕ → Option (LockSets × ℤ) → Type 0
Adds s a lid m o = (s' : LockSets) × (r : ℤ) × (o ≡ some (s', r)) × IsInterned s (add m lid) s' r

add_cached-Adds :
    (s : LockSets) (a : ℤ) (lid : ℕ) (m : List ℕ)
    → IsValid s
    → 0 < lid
    → a ≢ pos 0
    → contents s a ≡ some m
    → Adds s a lid m (add_cached s a lid (Pair.lookup ls_params s.add_cache a lid))
unfolding add_cached
add_cached-Adds s a lid m v p n h = elim (Option-cases (Pair.lookup ls_params s.add_cache a lid)) [
  | inl e ↦
      let (s', r, q, o) = add_uncached-IsInterned s a lid m v p n h in
      (
        (remember_add a lid (s', r)).0,
        r,
        rw (e, q, add_cached) (unfold remember_add in refl),
        remember_add-IsInterned s s' a r lid m h o,
      )
  | inr (r, e) ↦
      let (m', c, d) = lookup_sound (IsSum s) ls_params s.add_cache a lid r v.sums e in
      let f : m' ≡ m = ground arith in
      (s, r, rw e refl, record { valid = v; meaning = rw f at d; extends = λ b k g. g })
]

-- LockSet::Add of a positive lock id to a known set fails no CHECK and answers an id of the set
-- with the lock once more, from the caches, the map or a new entry; the tables stay valid and no id
-- changes its meaning.
pub add_lock-Adds :
    (s : LockSets) (a : ℤ) (lid : ℕ) (m : List ℕ)
    → IsValid s
    → 0 < lid
    → contents s a ≡ some m
    → Adds s a lid m (add_lock s a lid)
unfolding add_lock
add_lock-Adds s (pos zero) lid m v p h =
    let e : m ≡ [] = ground arith in
    (
      s,
      pos lid,
      refl,
      record { valid = v; meaning = rw (e, add-nil) (ground arith); extends = λ b k g. g },
    )
add_lock-Adds s (pos (suc l)) lid m v p h =
    add_cached-Adds s (pos (suc l)) lid m v p (λ e. ground arith) h
add_lock-Adds s (negsuc i) lid m v p h =
    add_cached-Adds s (negsuc i) lid m v p (λ e. ground arith) h
