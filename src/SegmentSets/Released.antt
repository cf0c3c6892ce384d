-- ===== src/SegmentSets/Released.antt =====
-- The store of segment sets, tsan/thread_sanitizer.cc, when the count of a tuple changes and when one is recycled.
use data_race_test.Prelude.{
  ℕ, ◌+◌, ◌<◌, ◌≡◌, ◌≢◌, inl, inr, refl, sym, ap, ◌∙◌, false, List, [], ◌∷◌, ◌++◌, none, some,
  if◌then◌else◌, ◌==◌, get_elem?, set, arith, ==_iff, Bool-cases, ℤ, pos, negsuc, eq_ℤ, eq_ℤ_iff,
  get_elem?_lt,
}
use data_race_test.Segments.{Segments}
use data_race_test.SegmentSets.Store.{Slot, SegmentSets, same_sids, get_id, erase}
use data_race_test.SegmentSets.Interned.{
  IsValid, IsLiveAt, count_id, same_sids_iff, get_elem?-set_self, get_elem?-set_ne,
}

get_id-erase :
    (k l : List ℕ) (m : List (List ℕ × ℤ))
    → get_id k (erase l m) ≡ (if same_sids k l then none else get_id k m)
unfolding get_id erase
get_id-erase k l [] = ground arith
get_id-erase k l ((x, id) ∷ m) =
    ground (arith, get_id-erase k l m, same_sids_iff k l, same_sids_iff l x, same_sids_iff k x)

module _ (s : SegmentSets) (h : IsValid s) (i : ℕ) (x : Slot)
    (here : get_elem? s.vec i ≡ some x) where
  self : (y : Slot) → get_elem? (set s.vec i y) i ≡ some y
  self y = get_elem?-set_self s.vec i y (get_elem?_lt s.vec i x here)

  other : (y : Slot) (j : ℕ) → i ≢ j → get_elem? (set s.vec i y) j ≡ get_elem? s.vec j
  other y j n = get_elem?-set_ne s.vec i j y n

  -- A tuple in use with another count.
  module _ (n n' : ℕ) (used : x.ref_count ≡ pos n) where
    abbrev counted : List Slot
    counted = set s.vec i (record { sids = x.sids; ref_count = pos n' })

    counted_old : (j : ℕ) (k : List ℕ) → IsLiveAt counted j k → IsLiveAt s.vec j k
    counted_old j k (y, m, e, q, c) = elim (Bool-cases (i == j)) [
      | inl b ↦
          let p = (==_iff i j).0 b in
          let e' : get_elem? counted i ≡ some y = ap (get_elem? counted) p ∙ e in
          (
            x,
            n,
            rw (← p) here,
            ground (arith, self (record { sids = x.sids; ref_count = pos n' })),
            used,
          )
      | inr b ↦ (y, m, sym (other _ j (λ p. ground arith)) ∙ e, q, c)
    ]

    counted_new : (j : ℕ) (k : List ℕ) → IsLiveAt s.vec j k → IsLiveAt counted j k
    counted_new j k (y, m, e, q, c) = elim (Bool-cases (i == j)) [
      | inl b ↦
          let p = (==_iff i j).0 b in
          (
            record { sids = x.sids; ref_count = pos n' },
            n',
            rw (← p) (self _),
            same_object j k y p e q,
            refl,
          )
      | inr b ↦ (y, m, other _ j (λ p. ground arith) ∙ e, q, c)
    ]
      where
        same_object :
            (j : ℕ) (k : List ℕ) (y : Slot)
            → i ≡ j
            → get_elem? s.vec j ≡ some y
            → y.sids ≡ k
            → x.sids ≡ k
        same_object j k y p e q = let e' : get_elem? s.vec i ≡ some y = rw p e in ground arith

    counted_dead :
        (id : ℤ)
        → 0 < count_id id s.to_reuse
        → (j : ℕ) × (y : Slot) × (id ≡ negsuc j)
          × (get_elem? counted j ≡ some y)
          × (y.ref_count ≡ negsuc 0)
    counted_dead id c =
        let (j, y, p, e, d) = h.dead id c in
        let n : i ≢ j = λ q. not_used j y q e d in (j, y, p, other _ j n ∙ e, d)
      where
        not_used :
            (j : ℕ) (y : Slot) → i ≡ j → get_elem? s.vec j ≡ some y → y.ref_count ≡ negsuc 0 → ⊥
        not_used j y p e d = let e' : get_elem? s.vec i ≡ some y = rw p e in absurd (ground arith)

    pub counted-IsValid : IsValid (record s { vec = counted })
    counted-IsValid = record {
      map_vec = λ k id e. let (j, p, l) = h.map_vec k id e in (j, p, counted_new j k l);
      vec_map = λ j k l. h.vec_map j k (counted_old j k l);
      once = h.once;
      dead = counted_dead;
    }

  -- A tuple without references is recycled.
  module _ (g : Segments) (used : x.ref_count ≡ pos 0) where
    abbrev emptied : List Slot
    emptied = set s.vec i (record { sids = x.sids; ref_count = negsuc 0 })

    abbrev recycled : SegmentSets
    recycled = record s {
      segments = g;
      vec = emptied;
      map = erase x.sids s.map;
      to_reuse = s.to_reuse ++ negsuc i ∷ [];
    }

    in_map : get_id x.sids s.map ≡ some (negsuc i)
    in_map = h.vec_map i x.sids (x, 0, here, refl, used)

    emptied_old : (j : ℕ) (k : List ℕ) → IsLiveAt emptied j k → (i ≢ j) × IsLiveAt s.vec j k
    emptied_old j k (y, m, e, q, c) = elim (Bool-cases (i == j)) [
      | inl b ↦
          let p = (==_iff i j).0 b in
          let e' : get_elem? emptied i ≡ some y = ap (get_elem? emptied) p ∙ e in
          absurd (ground (arith, self (record { sids = x.sids; ref_count = negsuc 0 })))
      | inr b ↦ let n : i ≢ j = λ p. ground arith in (n, (y, m, sym (other _ j n) ∙ e, q, c))
    ]

    other_sids : (j : ℕ) (k : List ℕ) → i ≢ j → IsLiveAt s.vec j k → same_sids k x.sids ≡ false
    other_sids j k n l =
        let e = h.vec_map j k l in
        ground
          (arith, same_sids_iff k x.sids, in_map, ap (λ t. get_id t s.map) {x = k} {y = x.sids})

    recycled_map :
        (k : List ℕ) (id : ℤ)
        → get_id k (erase x.sids s.map) ≡ some id
        → (j : ℕ) × (id ≡ negsuc j) × IsLiveAt emptied j k
    recycled_map k id e =
        let b : same_sids k x.sids ≡ false = ground (arith, get_id-erase k x.sids s.map) in
        let e' : get_id k s.map ≡ some id = ground (arith, get_id-erase k x.sids s.map) in
        let (j, p, (y, m, f, q, c)) = h.map_vec k id e' in
        let n : i ≢ j = λ t. not_here j k y b t f q in (j, p, (y, m, other _ j n ∙ f, q, c))
      where
        not_here :
            (j : ℕ) (k : List ℕ) (y : Slot)
            → same_sids k x.sids ≡ false
            → i ≡ j
            → get_elem? s.vec j ≡ some y
            → y.sids ≡ k
            → ⊥
        not_here j k y b t f q =
            let f' : get_elem? s.vec i ≡ some y = ap (get_elem? s.vec) t ∙ f in
            absurd (ground (arith, same_sids_iff k x.sids))

    recycled_vec :
        (j : ℕ) (k : List ℕ)
        → IsLiveAt emptied j k
        → get_id k (erase x.sids s.map) ≡ some (negsuc j)
    recycled_vec j k l =
        let (n, l') = emptied_old j k l in
        let b = other_sids j k n l' in
        let e = h.vec_map j k l' in ground (arith, get_id-erase k x.sids s.map)

    count_id-append :
        (id : ℤ) (xs : List ℤ) (y : ℤ)
        → count_id id (xs ++ y ∷ []) ≡ count_id id xs + (if eq_ℤ y id then 1 else 0)
    count_id-append id [] y = omega arith
    count_id-append id (z ∷ xs) y = omega (arith, count_id-append id xs y)

    not_waiting : count_id (negsuc i) s.to_reuse ≡ 0
    not_waiting = elim (Bool-cases (count_id (negsuc i) s.to_reuse == 0)) [
      | inl b ↦ (==_iff _ 0).0 b
      | inr b ↦ let (j, y, p, e, d) = h.dead (negsuc i) (ground arith) in absurd (clash j y p e d)
    ]
      where
        clash :
            (j : ℕ) (y : Slot)
            → negsuc i ≡ negsuc j
            → get_elem? s.vec j ≡ some y
            → y.ref_count ≡ negsuc 0
            → ⊥
        clash j y p e d = absurd (ground arith)

    recycled_dead :
        (id : ℤ)
        → 0 < count_id id (s.to_reuse ++ negsuc i ∷ [])
        → (j : ℕ) × (y : Slot) × (id ≡ negsuc j)
          × (get_elem? emptied j ≡ some y)
          × (y.ref_count ≡ negsuc 0)
    recycled_dead id c = elim (Bool-cases (eq_ℤ (negsuc i) id)) [
      | inl b ↦ (i, _, sym ((eq_ℤ_iff (negsuc i) id).0 b), self _, refl)
      | inr b ↦
          let (j, y, p, e, d) =
            h.dead id (ground (arith, count_id-append id s.to_reuse (negsuc i))) in
          let n : i ≢ j = λ q. ground (arith, eq_ℤ_iff (negsuc i) id) in
          (j, y, p, other _ j n ∙ e, d)
    ]

    pub recycled-IsValid : IsValid recycled
    recycled-IsValid = record {
      map_vec = recycled_map;
      vec_map = recycled_vec;
      once = λ id. ground (
        arith,
        h.once id,
        count_id-append id s.to_reuse (negsuc i),
        not_waiting,
        eq_ℤ_iff (negsuc i) id,
        ap (λ t. count_id t s.to_reuse) {x = negsuc i} {y = id},
      );
      dead = recycled_dead;
    }
