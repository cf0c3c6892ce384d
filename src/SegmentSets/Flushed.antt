-- ===== src/SegmentSets/Flushed.antt =====
-- FlushRecycleQueue of class SegmentSet, tsan/thread_sanitizer.cc, on a queue of tuples: which ids leave the
-- queue, which of them are recycled, and what becomes of the references to segments.
use data_race_test.Prelude.{
  ℕ, suc, ◌+◌, ◌-◌, ◌≡◌, inl, inr, refl, sym, ap, ◌∙◌, Bool, true, false, ◌||◌, ◌&&◌, List, [], ◌∷◌,
  ◌++◌, some, if◌then◌else◌, ltb, ◌==◌, ==_iff, length, take, drop, get_elem?, get_elem?_lt, set,
  All, arith, Bool-cases, ℤ, pos, negsuc, eq_ℤ, eq_ℤ_iff,
}
use data_race_test.Caches.Pair
use data_race_test.SegmentSets.Store.{Slot, SegmentSets, ss_params, get, erase, flush_caches}
use data_race_test.SegmentSets.Interned.{IsValid, count_id, get_elem?-set_self, get_elem?-set_ne}
use data_race_test.SegmentSets.Recycling.{recycle_if_unused, recycle_loop, flush_recycle_queue}
use data_race_test.SegmentSets.Released.{recycled-IsValid}
use data_race_test.SegmentSets.Queue.{same_sets}
use data_race_test.SegmentSets.Backed.{refs, Backed, dead_slot, recycle-Backed}

-- The ids of the queue are of tuples in the vector.
abbrev pub InVec : List Slot → ℤ → Type 0
InVec vec ssid = (i : ℕ) × (x : Slot) × (ssid ≡ negsuc i) × (get_elem? vec i ≡ some x)

abbrev pub holds : List ℤ → ℕ → Bool
holds [] i = false
holds (ssid ∷ queue) i = eq_ℤ ssid (negsuc i) || holds queue i

-- A slot after the ids `popped` have left the queue
abbrev pub after_pop : List ℤ → ℕ → Slot → Slot
after_pop popped i x = if holds popped i && eq_ℤ x.ref_count (pos 0) then dead_slot x else x

-- How often its id is added to those that wait for reuse
abbrev pub freed : List ℤ → ℕ → Slot → ℕ
freed popped i x = if holds popped i && eq_ℤ x.ref_count (pos 0) then 1 else 0

count_id-append :
    (id : ℤ) (xs : List ℤ) (y : ℤ)
    → count_id id (xs ++ y ∷ []) ≡ count_id id xs + (if eq_ℤ y id then 1 else 0)
count_id-append id [] y = omega arith
count_id-append id (z ∷ xs) y = omega (arith, count_id-append id xs y)

-- What the ids `popped` leave of a store: the tuples without references among them are recycled, all
-- others are as they were, and the recycled ones wait for reuse and have given back their references
-- to segments.
abbrev pub Popped : List ℤ → SegmentSets → SegmentSets → Type 0
Popped popped s s' =
    IsValid s'
    × Backed s'.segments s'.vec
    × (s'.queue_size ≡ s.queue_size)
    × ((i : ℕ) (x : Slot)
        → get_elem? s.vec i ≡ some x
        → get_elem? s'.vec i ≡ some (after_pop popped i x))
    × ((i : ℕ) (x : Slot)
        → get_elem? s.vec i ≡ some x
        → count_id (negsuc i) s'.to_reuse ≡ count_id (negsuc i) s.to_reuse + freed popped i x)
    × ((sid : ℕ)
        → (s'.segments.all sid).ref_count + refs s.vec sid
          ≡ (s.segments.all sid).ref_count + refs s'.vec sid)

-- One id
pop_one :
    (s : SegmentSets) (ssid : ℤ)
    → IsValid s
    → Backed s.segments s.vec
    → InVec s.vec ssid
    → (s' : SegmentSets) × (recycle_if_unused s ssid (get s ssid) ≡ some s')
      × Popped (ssid ∷ []) s s'
unfolding recycle_if_unused get
pop_one s ssid h b (i, x, p, e) = rw p (elim (Bool-cases (eq_ℤ x.ref_count (pos 0))) [
  | inr z ↦ (
    s,
    rw (get, e, recycle_if_unused, z) refl,
    (h, b, refl, (λ j y f. kept j y f z), (λ j y f. unfreed j y f z), λ sid. refl),
  )
  | inl z ↦
      let u = (eq_ℤ_iff x.ref_count (pos 0)).0 z in
      let m = h.vec_map i x.sids (x, 0, e, refl, u) in
      let r = recycle-Backed s.segments s.vec i x b e u in
      let v : SegmentSets = record s {
        segments = r.0;
        vec = set s.vec i (dead_slot x);
        map = erase x.sids s.map;
        to_reuse = s.to_reuse ++ negsuc i ∷ [];
      } in
      (
        v,
        rw (get, e, recycle_if_unused, z, m, r.1) refl,
        (
          recycled-IsValid s h i x e r.0 u,
          r.2,
          refl,
          (λ j y f. slot j y f z),
          (λ j y f. once_more j y f z),
          r.3,
        ),
      )
])
  where
    same_slot : (j : ℕ) (y : Slot) → get_elem? s.vec j ≡ some y → i ≡ j → x ≡ y
    same_slot j y f q = let g : get_elem? s.vec i ≡ some y = ap (get_elem? s.vec) q ∙ f in cc

    kept :
        (j : ℕ) (y : Slot)
        → get_elem? s.vec j ≡ some y
        → eq_ℤ x.ref_count (pos 0) ≡ false
        → get_elem? s.vec j ≡ some (after_pop (negsuc i ∷ []) j y)
    kept j y f z = elim (Bool-cases (i == j)) [
      | inl q ↦
          let g = same_slot j y f ((==_iff i j).0 q) in
          let w : eq_ℤ y.ref_count (pos 0) ≡ false =
            sym (ap (λ (t : Slot). eq_ℤ t.ref_count (pos 0)) g) ∙ z in
          rw (q, w) f
      | inr q ↦ rw q f
    ]

    unfreed :
        (j : ℕ) (y : Slot)
        → get_elem? s.vec j ≡ some y
        → eq_ℤ x.ref_count (pos 0) ≡ false
        → count_id (negsuc j) s.to_reuse
          ≡ count_id (negsuc j) s.to_reuse + freed (negsuc i ∷ []) j y
    unfreed j y f z = elim (Bool-cases (i == j)) [
      | inl q ↦
          let g = same_slot j y f ((==_iff i j).0 q) in
          let w : eq_ℤ y.ref_count (pos 0) ≡ false =
            sym (ap (λ (t : Slot). eq_ℤ t.ref_count (pos 0)) g) ∙ z in
          rw (q, w) (omega arith)
      | inr q ↦ rw q (omega arith)
    ]

    once_more :
        (j : ℕ) (y : Slot)
        → get_elem? s.vec j ≡ some y
        → eq_ℤ x.ref_count (pos 0) ≡ true
        → count_id (negsuc j) (s.to_reuse ++ negsuc i ∷ [])
          ≡ count_id (negsuc j) s.to_reuse + freed (negsuc i ∷ []) j y
    once_more j y f z =
        let c = count_id-append (negsuc j) s.to_reuse (negsuc i) in
        elim (Bool-cases (i == j)) [
          | inl q ↦
              let g = same_slot j y f ((==_iff i j).0 q) in
              let w : eq_ℤ y.ref_count (pos 0) ≡ true =
                sym (ap (λ (t : Slot). eq_ℤ t.ref_count (pos 0)) g) ∙ z in
              rw (q, w) (rw q at c)
          | inr q ↦ rw q (rw q at c)
        ]

    slot :
        (j : ℕ) (y : Slot)
        → get_elem? s.vec j ≡ some y
        → eq_ℤ x.ref_count (pos 0) ≡ true
        → get_elem? (set s.vec i (dead_slot x)) j ≡ some (after_pop (negsuc i ∷ []) j y)
    slot j y f z = elim (Bool-cases (i == j)) [
      | inl q ↦
          let g = same_slot j y f ((==_iff i j).0 q) in
          let w : eq_ℤ y.ref_count (pos 0) ≡ true =
            sym (ap (λ (t : Slot). eq_ℤ t.ref_count (pos 0)) g) ∙ z in
          rw (q, w)
            (ap (get_elem? (set s.vec i (dead_slot x))) (sym ((==_iff i j).0 q))
              ∙ get_elem?-set_self s.vec i (dead_slot x) (get_elem?_lt s.vec i x e)
              ∙ ap (λ t. some (dead_slot t)) g)
      | inr q ↦ rw q (get_elem?-set_ne s.vec i j (dead_slot x) (λ t. cc ((==_iff i j).1 t)) ∙ f)
    ]

after_pop-twice :
    (ssid : ℤ) (queue : List ℤ) (i : ℕ) (x : Slot)
    → after_pop queue i (after_pop (ssid ∷ []) i x) ≡ after_pop (ssid ∷ queue) i x
after_pop-twice ssid queue i x = ground arith

freed-twice :
    (ssid : ℤ) (queue : List ℤ) (i : ℕ) (x : Slot)
    → freed (ssid ∷ []) i x + freed queue i (after_pop (ssid ∷ []) i x) ≡ freed (ssid ∷ queue) i x
freed-twice ssid queue i x = ground arith

InVec-after :
    (vec vec' : List Slot) (popped queue : List ℤ)
    → ((i : ℕ) (x : Slot)
        → get_elem? vec i ≡ some x
        → get_elem? vec' i ≡ some (after_pop popped i x))
    → All (InVec vec) queue
    → All (InVec vec') queue
InVec-after vec vec' popped [] f a = tt
InVec-after vec vec' popped (ssid ∷ queue) f ((i, x, p, e), a) =
    ((i, after_pop popped i x, p, f i x e), InVec-after vec vec' popped queue f a)

Popped-more :
    (ssid : ℤ) (popped : List ℤ) (s t v : SegmentSets)
    → Popped (ssid ∷ []) s t
    → Popped popped t v
    → Popped (ssid ∷ popped) s v
Popped-more ssid popped s t v h k = (
  k.0,
  k.1,
  k.2 ∙ h.2,
  (λ i x e.
      k.3 i (after_pop (ssid ∷ []) i x) (h.3 i x e) ∙ ap some (after_pop-twice ssid popped i x)),
  (λ i x e. omega (
    arith,
    h.4 i x e,
    k.4 i (after_pop (ssid ∷ []) i x) (h.3 i x e),
    freed-twice ssid popped i x,
  )),
  λ sid. omega (arith, h.5 sid, k.5 sid),
)

-- The loop: the ids that are too many leave the queue.
loop_lem :
    (queue : List ℤ) (s : SegmentSets)
    → IsValid s
    → Backed s.segments s.vec
    → All (InVec s.vec) queue
    → (s' : SegmentSets) × (recycle_loop queue (some s) ≡ some s')
      × Popped (take (length queue - s.queue_size) queue) s s'
      × (s'.to_recycle ≡ drop (length queue - s.queue_size) queue)
unfolding recycle_loop
loop_lem [] s h b a =
    let n : 0 - s.queue_size ≡ 0 = omega arith in
    rw n (
      record s { to_recycle = [] },
      refl,
      (same_sets s _ refl refl refl h, b, refl, (λ i x e. e), (λ i x e. omega arith), λ sid. refl),
      refl,
    )
loop_lem (ssid ∷ queue) s h b a = elim (Bool-cases (ltb s.queue_size (length (ssid ∷ queue)))) [
  | inr z ↦
      let n : length (ssid ∷ queue) - s.queue_size ≡ 0 = ground (arith, z) in
      rw (recycle_loop, z, n)
        (
          record s { to_recycle = ssid ∷ queue },
          refl,
          (
            same_sets s _ refl refl refl h,
            b,
            refl,
            (λ i x e. e),
            (λ i x e. omega arith),
            λ sid. refl,
          ),
          refl,
        )
  | inl z ↦
      let o = pop_one s ssid h b a.0 in
      let r =
        loop_lem queue o.0 o.2.0 o.2.1 (InVec-after s.vec o.0.vec (ssid ∷ []) queue o.2.3 a.1) in
      let n : length (ssid ∷ queue) - s.queue_size ≡ suc (length queue - s.queue_size) =
        ground (arith, z) in
      let m : length queue - o.0.queue_size ≡ length queue - s.queue_size = omega (arith, o.2.2) in
      let k : Popped (take (length queue - s.queue_size) queue) o.0 r.0 = rw m at r.2 in
      let d : r.0.to_recycle ≡ drop (length queue - s.queue_size) queue = rw m at r.3 in
      (
        r.0,
        rw (recycle_loop, z, o.1) r.1,
        rw n (Popped-more ssid (take (length queue - s.queue_size) queue) s o.0 r.0 o.2 k),
        rw n d,
      )
]

-- FlushRecycleQueue on a valid store whose tuples have their references to segments, with a queue
-- of ids in the vector, fails no CHECK; the ids that are too many leave the front of the queue,
-- exactly the tuples without references among them are recycled and wait for reuse once more, each
-- giving its references to segments back, all other tuples stay, both caches are flushed, and the
-- store is valid with its references.
pub flush_recycle_queue-Popped :
    (s : SegmentSets)
    → IsValid s
    → Backed s.segments s.vec
    → All (InVec s.vec) s.to_recycle
    → (s' : SegmentSets) × (flush_recycle_queue s ≡ some s')
      × Popped (take (length s.to_recycle - s.queue_size) s.to_recycle) s s'
      × (s'.to_recycle ≡ drop (length s.to_recycle - s.queue_size) s.to_recycle)
      × (s'.add_cache ≡ Pair.flush ss_params)
      × (s'.remove_cache ≡ Pair.flush ss_params)
unfolding flush_recycle_queue flush_caches
flush_recycle_queue-Popped s h b a =
    let r = loop_lem s.to_recycle s h b a in
    (
      flush_caches r.0,
      rw (flush_recycle_queue, r.1) refl,
      (same_sets r.0 _ refl refl refl r.2.0, r.2.1, r.2.2, r.2.3, r.2.4, r.2.5),
      r.3,
      refl,
      refl,
    )
