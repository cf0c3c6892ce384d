-- ===== src/SegmentSets/Interned.antt =====
-- FindExistingOrAlocateAndCopy, tsan/thread_sanitizer.cc: the ids of tuples, with reuse of those of recycled ones.
use data_race_test.Prelude.{
  ℕ, zero, suc, ◌+◌, ◌≤◌, ◌<◌, ◌≡◌, ◌≢◌, ◌↔◌, ◌⊎◌, inl, inr, refl, sym, ap, ◌∙◌, true, List, [],
  ◌∷◌, ◌++◌, none, some, if◌then◌else◌, ◌==◌, length, get_elem?, set, arith, ==_iff, Bool-cases,
  Option-cases, ℤ, pos, negsuc, eq_ℤ, eq_ℤ_iff, get_elem?_lt,
}
use data_race_test.Segments.{Segments}
use data_race_test.SegmentSets.Store.{
  Slot, SegmentSets, same_sids, get_id, get, ref_all, copy_to, copy_into, reuse_or_create,
  allocate_and_copy, find_existing_or_allocate,
}

abbrev pub count_id : ℤ → List ℤ → ℕ
count_id id [] = 0
count_id id (x ∷ xs) = (if eq_ℤ x id then 1 else 0) + count_id id xs

-- A tuple that is in use: its place, and its object, whose count is not -1.
abbrev pub IsLiveAt : List Slot → ℕ → List ℕ → Type 0
IsLiveAt vec i sids =
    (x : Slot) × (n : ℕ) × (get_elem? vec i ≡ some x) × (x.sids ≡ sids) × (x.ref_count ≡ pos n)

-- The map and the vector are inverse to one another on the tuples in use, and the ids that wait
-- for reuse are of recycled ones, each once.
pub record IsValid (s : SegmentSets) : Type 0 where
  pub map_vec :
      (k : List ℕ) (id : ℤ)
      → get_id k s.map ≡ some id
      → (i : ℕ) × (id ≡ negsuc i) × IsLiveAt s.vec i k
  pub vec_map : (i : ℕ) (k : List ℕ) → IsLiveAt s.vec i k → get_id k s.map ≡ some (negsuc i)
  pub once : (id : ℤ) → count_id id s.to_reuse ≤ 1
  pub dead :
      (id : ℤ)
      → 0 < count_id id s.to_reuse
      → (i : ℕ) × (x : Slot) × (id ≡ negsuc i)
        × (get_elem? s.vec i ≡ some x)
        × (x.ref_count ≡ negsuc 0)

pub same_sids_iff : (xs ys : List ℕ) → (same_sids xs ys ≡ true) ↔ (xs ≡ ys)
unfolding same_sids
same_sids_iff [] [] = (λ e. refl, λ e. refl)
same_sids_iff [] (y ∷ ys) = (λ e. absurd (ground arith), λ e. absurd (ground arith))
same_sids_iff (x ∷ xs) [] = (λ e. absurd (ground arith), λ e. absurd (ground arith))
same_sids_iff (x ∷ xs) (y ∷ ys) = ground (arith, same_sids_iff xs ys)

pub get_elem?-set_self :
    (xs : List Slot) (i : ℕ) (v : Slot) → i < length xs → get_elem? (set xs i v) i ≡ some v
get_elem?-set_self [] i v h = absurd (omega arith)
get_elem?-set_self (x ∷ xs) zero v h = refl
get_elem?-set_self (x ∷ xs) (suc i) v h = get_elem?-set_self xs i v (omega arith)

pub get_elem?-set_ne :
    (xs : List Slot) (i j : ℕ) (v : Slot) → i ≢ j → get_elem? (set xs i v) j ≡ get_elem? xs j
get_elem?-set_ne [] i j v h = refl
get_elem?-set_ne (x ∷ xs) zero zero v h = absurd (h refl)
get_elem?-set_ne (x ∷ xs) zero (suc j) v h = refl
get_elem?-set_ne (x ∷ xs) (suc i) zero v h = refl
get_elem?-set_ne (x ∷ xs) (suc i) (suc j) v h = get_elem?-set_ne xs i j v (λ e. h (ap suc e))

-- Adding at the end and writing there: the new object, and the old ones.
get_elem?-push_self :
    (xs : List Slot) (v w : Slot)
    → get_elem? (set (xs ++ v ∷ []) (length xs) w) (length xs) ≡ some w
get_elem?-push_self [] v w = refl
get_elem?-push_self (x ∷ xs) v w = get_elem?-push_self xs v w

get_elem?-push_ne :
    (xs : List Slot) (v w : Slot) (j : ℕ)
    → length xs ≢ j
    → get_elem? (set (xs ++ v ∷ []) (length xs) w) j ≡ get_elem? xs j
get_elem?-push_ne [] v w zero h = absurd (h refl)
get_elem?-push_ne [] v w (suc j) h = refl
get_elem?-push_ne (x ∷ xs) v w zero h = refl
get_elem?-push_ne (x ∷ xs) v w (suc j) h = get_elem?-push_ne xs v w j (λ e. h (ap suc e))

abbrev fresh_slot : List ℕ → Slot
fresh_slot sids = record { sids = sids; ref_count = pos 0 }

-- What FindExistingOrAlocateAndCopy leaves: an id in use for the tuple, and every id in use as
-- before.
pub record IsInterned (s : SegmentSets) (sids : List ℕ) (s' : SegmentSets) (id : ℤ) : Type 0 where
  pub valid : IsValid s'
  pub meaning : (i : ℕ) × (id ≡ negsuc i) × IsLiveAt s'.vec i sids
  pub kept : (i : ℕ) (k : List ℕ) → IsLiveAt s.vec i k → get_elem? s'.vec i ≡ get_elem? s.vec i

-- A vector that has the tuple at a place where no tuple in use was.
module _ (s : SegmentSets) (sids : List ℕ) (g : Segments) (i : ℕ) (vec : List Slot) (reuse : List ℤ)
    (h : IsValid s) (new : get_id sids s.map ≡ none)
    (here : get_elem? vec i ≡ some (fresh_slot sids))
    (others : (j : ℕ) → i ≢ j → get_elem? vec j ≡ get_elem? s.vec j)
    (unused : (k : List ℕ) → IsLiveAt s.vec i k → ⊥)
    (fewer : (id : ℤ) → count_id id reuse ≤ count_id id s.to_reuse)
    (gone : count_id (negsuc i) reuse ≡ 0) where
  abbrev copied : SegmentSets
  copied = record s { segments = g; vec = vec; map = (sids, negsuc i) ∷ s.map; to_reuse = reuse }

  live_old : (j : ℕ) (k : List ℕ) → i ≢ j → IsLiveAt vec j k → IsLiveAt s.vec j k
  live_old j k n (x, m, e, q, c) = (x, m, sym (others j n) ∙ e, q, c)

  live_kept : (j : ℕ) (k : List ℕ) → i ≢ j → IsLiveAt s.vec j k → IsLiveAt vec j k
  live_kept j k n (x, m, e, q, c) = (x, m, others j n ∙ e, q, c)

  live_here : (k : List ℕ) → IsLiveAt vec i k → k ≡ sids
  live_here k (x, m, e, q, c) = ground arith

  live_elsewhere : (j : ℕ) (k : List ℕ) → IsLiveAt s.vec j k → i ≢ j
  live_elsewhere j k l e = unused k (rw e l)

  copied_map :
      (k : List ℕ) (id : ℤ)
      → get_id k copied.map ≡ some id
      → (j : ℕ) × (id ≡ negsuc j) × IsLiveAt vec j k
  unfolding get_id
  copied_map k id e = elim (Bool-cases (same_sids k sids)) [
    | inl b ↦
        let q = (same_sids_iff k sids).0 b in
        (i, ground arith, (fresh_slot sids, 0, here, sym q, refl))
    | inr b ↦
        let (j, p, l) = h.map_vec k id (ground arith) in
        (j, p, live_kept j k (live_elsewhere j k l) l)
  ]

  copied_vec : (j : ℕ) (k : List ℕ) → IsLiveAt vec j k → get_id k copied.map ≡ some (negsuc j)
  unfolding get_id
  copied_vec j k l = elim (Bool-cases (i == j)) [
    | inl b ↦
        let q = (==_iff i j).0 b in
        let p = live_here k (rw q l) in let t = (same_sids_iff k sids).1 p in ground arith
    | inr b ↦
        let m = h.vec_map j k (live_old j k (λ q. ground arith) l) in
        ground (arith, same_sids_iff k sids)
  ]

  copied_dead :
      (id : ℤ)
      → 0 < count_id id reuse
      → (j : ℕ) × (x : Slot) × (id ≡ negsuc j)
        × (get_elem? vec j ≡ some x)
        × (x.ref_count ≡ negsuc 0)
  copied_dead id c =
      let (j, x, p, e, d) = h.dead id (omega (arith, fewer id)) in
      let n : i ≢ j =
        λ q. absurd (omega (arith, gone, ap (λ t. count_id t reuse) (p ∙ ap negsuc (sym q)))) in
      (j, x, p, others j n ∙ e, d)

  copied-IsInterned : IsInterned s sids copied (negsuc i)
  copied-IsInterned = record {
    valid = record {
      map_vec = copied_map;
      vec_map = copied_vec;
      once = λ id. omega (arith, h.once id, fewer id);
      dead = copied_dead;
    };
    meaning = (i, refl, (fresh_slot sids, 0, here, refl, refl));
    kept = λ j k l. others j (live_elsewhere j k l);
  }

Reuse-cases : (q : List ℤ) → (q ≡ []) ⊎ ((id : ℤ) × (rest : List ℤ) × (q ≡ id ∷ rest))
Reuse-cases [] = inl refl
Reuse-cases (id ∷ rest) = inr (id, rest, refl)

module _ (s : SegmentSets) (sids : List ℕ) (g : Segments) (h : IsValid s)
    (new : get_id sids s.map ≡ none) (live : ref_all sids (some s.segments) ≡ some g) where
  created-IsInterned :
      s.to_reuse ≡ []
      → (s' : SegmentSets) × (id : ℤ) × (allocate_and_copy s sids ≡ some (s', id))
        × IsInterned s sids s' id
  unfolding allocate_and_copy reuse_or_create copy_to
  created-IsInterned e =
      let i = length s.vec in
      let vec = set (s.vec ++ record { sids = []; ref_count = pos 0 } ∷ []) i (fresh_slot sids) in
      let z : (id : ℤ) → count_id id s.to_reuse ≡ 0 = λ id. ap (count_id id) e in
      (
        copied s sids g i vec s.to_reuse h new (get_elem?-push_self s.vec _ _)
            (λ j n. get_elem?-push_ne s.vec _ _ j n) (λ k l. out_of_range k l) (λ id. omega arith)
            (z (negsuc i)),
        negsuc i,
        ap (λ q. copy_into sids (reuse_or_create s q)) e ∙ rw (live, copy_to) refl,
        copied-IsInterned s sids g i vec s.to_reuse h new (get_elem?-push_self s.vec _ _)
            (λ j n. get_elem?-push_ne s.vec _ _ j n) (λ k l. out_of_range k l) (λ id. omega arith)
            (z (negsuc i)),
      )
    where
      out_of_range : (k : List ℕ) → IsLiveAt s.vec (length s.vec) k → ⊥
      out_of_range k (x, n, e, q, c) = absurd (omega (arith, get_elem?_lt s.vec (length s.vec) x e))

  reused_eq :
      (i : ℕ) (x : Slot) (rest : List ℤ)
      → get_elem? s.vec i ≡ some x
      → x.ref_count ≡ negsuc 0
      → copy_into sids (reuse_or_create s (negsuc i ∷ rest))
        ≡ some (
          record s {
            segments = g;
            vec = set s.vec i (fresh_slot sids);
            map = (sids, negsuc i) ∷ s.map;
            to_reuse = rest;
          },
          negsuc i,
        )
  unfolding reuse_or_create copy_to get
  reused_eq i x rest f d =
      let r : eq_ℤ x.ref_count (negsuc 0) ≡ true = (eq_ℤ_iff x.ref_count (negsuc 0)).1 d in
      rw (reuse_or_create, get, f, r, live, copy_to) refl

  reused-IsInterned :
      (id : ℤ) (rest : List ℤ)
      → s.to_reuse ≡ id ∷ rest
      → (s' : SegmentSets) × (id' : ℤ) × (allocate_and_copy s sids ≡ some (s', id'))
        × IsInterned s sids s' id'
  unfolding allocate_and_copy
  reused-IsInterned id rest e =
      let c : (u : ℤ) → count_id u s.to_reuse ≡ count_id u (id ∷ rest) = λ u. ap (count_id u) e in
      let t : eq_ℤ id id ≡ true = (eq_ℤ_iff id id).1 refl in
      let (i, x, p, f, d) = h.dead id (ground (arith, c id)) in
      let o = h.once id in
      let gone : count_id (negsuc i) rest ≡ 0 = rw (← p) (ground (arith, c id)) in
      let vec = set s.vec i (fresh_slot sids) in
      let w =
        copied-IsInterned s sids g i vec rest h new
          (get_elem?-set_self s.vec i _ (get_elem?_lt s.vec i x f))
          (λ j n. get_elem?-set_ne s.vec i j _ n) (λ k l. not_live i x k f d l)
          (λ u. omega (arith, c u)) gone in
      (
        _,
        negsuc i,
        ap (λ q. copy_into sids (reuse_or_create s q)) (e ∙ ap (λ u. u ∷ rest) p)
            ∙ reused_eq i x rest f d,
        w,
      )
    where
      not_live :
          (i : ℕ) (x : Slot) (k : List ℕ)
          → get_elem? s.vec i ≡ some x
          → x.ref_count ≡ negsuc 0
          → IsLiveAt s.vec i k
          → ⊥
      not_live i x k f d (y, n, e, q, c) = absurd (ground arith)

-- FindExistingOrAlocateAndCopy in a valid store, on a tuple whose segments can be referenced, fails
-- no CHECK, answers an id in use for the tuple (old, reused or new), leaves every id that was in
-- use its object, and keeps the map and the vector inverse to one another.
pub find_existing_or_allocate-IsInterned :
    (s : SegmentSets) (sids : List ℕ) (g : Segments)
    → IsValid s
    → ref_all sids (some s.segments) ≡ some g
    → (s' : SegmentSets) × (id : ℤ) × (find_existing_or_allocate s sids ≡ some (s', id))
      × IsInterned s sids s' id
unfolding find_existing_or_allocate
find_existing_or_allocate-IsInterned s sids g h live = elim (Option-cases (get_id sids s.map)) [
  | inl new ↦ elim (Reuse-cases s.to_reuse) [
    | inl e ↦
        let (s', id, a, w) = created-IsInterned s sids g h new live e in
        (s', id, rw (find_existing_or_allocate, new) a, w)
    | inr (u, rest, e) ↦
        let (s', id, a, w) = reused-IsInterned s sids g h new live u rest e in
        (s', id, rw (find_existing_or_allocate, new) a, w)
  ]
  | inr (id, e) ↦ (
    s,
    id,
    rw (find_existing_or_allocate, e) refl,
    record { valid = h; meaning = h.map_vec sids id e; kept = λ i k l. refl },
  )
]
