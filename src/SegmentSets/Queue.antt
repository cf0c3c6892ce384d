-- ===== src/SegmentSets/Queue.antt =====
-- Unref and FlushRecycleQueue of class SegmentSet, tsan/thread_sanitizer.cc: the store and its queue.
use data_race_test.Prelude.{
  ℕ, zero, suc, ◌+◌, ◌*◌, ◌≤◌, ◌<◌, ◌≡◌, ◌⊎◌, inl, inr, refl, ◌∙◌, false, List, [], ◌∷◌, ◌++◌,
  Option, none, some, ltb, length, get_elem?, set, arith, Bool-cases, Option-cases, ℤ, pos, negsuc,
  eq_ℤ, eq_ℤ_iff, length-append,
}
use data_race_test.Segments.{Segments}
use data_race_test.SegmentSets.Store.{Slot, SegmentSets, get, put_slot, flush_caches, unref_all}
use data_race_test.SegmentSets.Interned.{IsValid}
use data_race_test.SegmentSets.Recycling.{
  with_segments, flush_after, recycle_if_unused, after_recycle, recycle_loop, flush_recycle_queue,
  enqueue, unref_slot, unref,
}
use data_race_test.SegmentSets.Released.{counted-IsValid, recycled-IsValid}

pub same_sets :
    (s s' : SegmentSets)
    → s'.map ≡ s.map
    → s'.vec ≡ s.vec
    → s'.to_reuse ≡ s.to_reuse
    → IsValid s
    → IsValid s'
same_sets s s' m v r h = record {
  map_vec = rw (m, v) h.map_vec;
  vec_map = rw (m, v) h.vec_map;
  once = rw r h.once;
  dead = rw (r, v) h.dead;
}

get-some :
    (s : SegmentSets) (i : ℕ)
    → (get s (negsuc i) ≡ none)
      ⊎ ((x : Slot) × (get_elem? s.vec i ≡ some x) × (get s (negsuc i) ≡ some (i, x)))
unfolding get
get-some s i = elim (Option-cases (get_elem? s.vec i)) [
  | inl e ↦ inl (rw (get, e) refl)
  | inr (x, e) ↦ inr (x, e, rw (get, e) refl)
]

-- The outcome of an operation that may fail a CHECK: it fails, or leaves a valid store with the
-- same queue size, whose queue has at most `n` ids more than before or is within the size.
abbrev pub Keeps : SegmentSets → ℕ → Option SegmentSets → Type 0
Keeps s n none = Unit
Keeps s n (some s') =
    IsValid s'
    × (s'.queue_size ≡ s.queue_size)
    × ((length s'.to_recycle ≤ length s.to_recycle + n) ⊎ (length s'.to_recycle ≤ s.queue_size))

Count-cases :
    (a : ℤ)
    → (a ≡ pos 0)
      ⊎ ((a ≡ pos 1) ⊎ (((n : ℕ) × (a ≡ pos (suc (suc n)))) ⊎ ((n : ℕ) × (a ≡ negsuc n))))
Count-cases (pos zero) = inl refl
Count-cases (pos (suc zero)) = inr (inl refl)
Count-cases (pos (suc (suc n))) = inr (inr (inl (n, refl)))
Count-cases (negsuc n) = inr (inr (inr (n, refl)))

recycle-Keeps :
    (s : SegmentSets) (ssid : ℤ) (i : ℕ)
    → IsValid s
    → ssid ≡ negsuc i
    → Keeps s 0 (recycle_if_unused s ssid (get s ssid))
unfolding recycle_if_unused
recycle-Keeps s ssid i h p = rw p (elim (get-some s i) [
  | inl e ↦ rw (e, recycle_if_unused) tt
  | inr (x, e, f) ↦ elim (Bool-cases (eq_ℤ x.ref_count (pos 0))) [
    | inr b ↦ rw (f, recycle_if_unused, b) (h, refl, inl (omega arith))
    | inl b ↦
        let u = (eq_ℤ_iff x.ref_count (pos 0)).0 b in
        let m = h.vec_map i x.sids (x, 0, e, refl, u) in
        rw (f, recycle_if_unused, b, m) (after x e u (unref_all x.sids (some s.segments)))
  ]
])
  where
    after :
        (x : Slot)
        → get_elem? s.vec i ≡ some x
        → x.ref_count ≡ pos 0
        → (o : Option Segments) → Keeps s 0 (after_recycle s (negsuc i) i x.sids o)
    after x e u none = tt
    after x e u (some g) =
        (same_sets _ _ refl refl refl (recycled-IsValid s h i x e g u), refl, inl (omega arith))

recycle_any-Keeps :
    (s : SegmentSets) (ssid : ℤ) → IsValid s → Keeps s 0 (recycle_if_unused s ssid (get s ssid))
unfolding recycle_if_unused get
recycle_any-Keeps s (pos n) h = tt
recycle_any-Keeps s (negsuc i) h = recycle-Keeps s (negsuc i) i h refl

-- The same, with a queue that is within its size in any case.
abbrev pub Shortens : SegmentSets → Option SegmentSets → Type 0
Shortens s none = Unit
Shortens s (some s') =
    IsValid s' × (s'.queue_size ≡ s.queue_size) × (length s'.to_recycle ≤ s.queue_size)

Shortens-from :
    (s t : SegmentSets) (o : Option SegmentSets)
    → t.queue_size ≡ s.queue_size
    → Shortens t o
    → Shortens s o
Shortens-from s t none e h = tt
Shortens-from s t (some s') e h = (h.0, h.1 ∙ e, omega (arith, h.2, e))

recycle_loop-none : (queue : List ℤ) → recycle_loop queue none ≡ none
unfolding recycle_loop
recycle_loop-none [] = refl
recycle_loop-none (ssid ∷ queue) = refl

-- One round of the loop, and then the rest.
loop_after :
    (s : SegmentSets) (queue : List ℤ) (o : Option SegmentSets)
    → Keeps s 0 o
    → ((t : SegmentSets) → IsValid t → Shortens t (recycle_loop queue (some t)))
    → Shortens s (recycle_loop queue o)
loop_after s queue none k f = rw (recycle_loop-none queue) tt
loop_after s queue (some t) k f = Shortens-from s t (recycle_loop queue (some t)) k.1 (f t k.0)

recycle_loop-Shortens :
    (queue : List ℤ) (s : SegmentSets) → IsValid s → Shortens s (recycle_loop queue (some s))
unfolding recycle_loop
recycle_loop-Shortens [] s h = (same_sets s _ refl refl refl h, refl, omega arith)
recycle_loop-Shortens (ssid ∷ queue) s h =
    elim (Bool-cases (ltb s.queue_size (length (ssid ∷ queue)))) [
      | inl b ↦
          rw (recycle_loop, b)
            (loop_after s queue (recycle_if_unused s ssid (get s ssid)) (recycle_any-Keeps s ssid h)
              (λ t k. recycle_loop-Shortens queue t k))
      | inr b ↦ rw (recycle_loop, b) (same_sets s _ refl refl refl h, refl, ground arith)
    ]

flush_after-Shortens :
    (s : SegmentSets) (o : Option SegmentSets) → Shortens s o → Shortens s (flush_after o)
unfolding flush_caches
flush_after-Shortens s none k = tt
flush_after-Shortens s (some t) k = (same_sets t _ refl refl refl k.0, k.1, k.2)

-- FlushRecycleQueue on a valid store, where no CHECK fails, keeps the store valid and leaves a
-- queue within its size.
pub flush_recycle_queue-Shortens :
    (s : SegmentSets) → IsValid s → Shortens s (flush_recycle_queue s)
unfolding flush_recycle_queue
flush_recycle_queue-Shortens s h =
    flush_after-Shortens s (recycle_loop s.to_recycle (some s))
      (recycle_loop-Shortens s.to_recycle s h)

-- A queue of at most twice its size.
abbrev pub IsShort : SegmentSets → Type 0
IsShort s = length s.to_recycle ≤ 2 * s.queue_size

-- What Ref and Unref leave, where no CHECK fails.
abbrev pub KeepsShort : Option SegmentSets → Type 0
KeepsShort none = Unit
KeepsShort (some s) = IsValid s × IsShort s

short_flush : (s : SegmentSets) (o : Option SegmentSets) → Shortens s o → KeepsShort o
short_flush s none k = tt
short_flush s (some t) k = (k.0, omega (arith, k.1, k.2))

enqueue-KeepsShort : (s : SegmentSets) (ssid : ℤ) → IsValid s → KeepsShort (enqueue s ssid)
unfolding enqueue
enqueue-KeepsShort s ssid h =
    let next : SegmentSets = record s { to_recycle = s.to_recycle ++ ssid ∷ [] } in
    let v : IsValid next = same_sets s _ refl refl refl h in
    elim (Bool-cases (ltb (2 * s.queue_size) (length (s.to_recycle ++ ssid ∷ [])))) [
      | inl b ↦
          rw (enqueue, b)
            (short_flush next (flush_recycle_queue next) (flush_recycle_queue-Shortens next v))
      | inr b ↦ rw (enqueue, b) (v, ground arith)
    ]

with_segments-KeepsShort :
    (s : SegmentSets) (o : Option Segments) → IsValid s → IsShort s → KeepsShort (with_segments s o)
with_segments-KeepsShort s none h q = tt
with_segments-KeepsShort s (some g) h q = (same_sets s _ refl refl refl h, q)

put_slot-KeepsShort :
    (s : SegmentSets) (i n m : ℕ) (x : Slot)
    → IsValid s
    → get_elem? s.vec i ≡ some x
    → x.ref_count ≡ pos n
    → IsValid (put_slot s i (record { sids = x.sids; ref_count = pos m }))
put_slot-KeepsShort s i n m x h e u = same_sets _ _ refl refl refl (counted-IsValid s h i x e n m u)

unref_slot-KeepsShort :
    (s : SegmentSets) (ssid : ℤ) (i : ℕ) (x : Slot)
    → IsValid s
    → IsShort s
    → get_elem? s.vec i ≡ some x
    → KeepsShort (unref_slot s ssid (some (i, x)))
unfolding unref_slot
unref_slot-KeepsShort s ssid i x h q e = elim (Count-cases x.ref_count) [
  | inl u ↦ rw (unref_slot, u) tt
  | inr u ↦ elim u [
    | inl u ↦ rw (unref_slot, u) (enqueue-KeepsShort _ ssid (put_slot-KeepsShort s i 1 0 x h e u))
    | inr u ↦ elim u [
      | inl (n, u) ↦ rw (unref_slot, u) (put_slot-KeepsShort s i (suc (suc n)) (suc n) x h e u, q)
      | inr (n, u) ↦ rw (unref_slot, u) tt
    ]
  ]
]

-- The same for Unref of a tuple, which returns while the queue has room.
unref_returns :
    (s : SegmentSets) (i n : ℕ) (x : Slot)
    → get_elem? s.vec i ≡ some x
    → x.ref_count ≡ pos (suc n)
    → length s.to_recycle < 2 * s.queue_size
    → (s' : SegmentSets) × (unref s (negsuc i) ≡ some s')
unfolding unref get unref_slot enqueue
unref_returns s i zero x e u l =
    let b : ltb (2 * s.queue_size) (length (s.to_recycle ++ negsuc i ∷ [])) ≡ false =
      ground (arith, length-append s.to_recycle (negsuc i ∷ [])) in
    (
      record s {
        vec = set s.vec i (record x { ref_count = pos 0 });
        to_recycle = s.to_recycle ++ negsuc i ∷ [];
      },
      rw (unref, get, e, unref_slot, u, enqueue, b) refl,
    )
unref_returns s i (suc n) x e u l = (
  record s { vec = set s.vec i (record x { ref_count = pos (suc n) }) },
  rw (unref, get, e, unref_slot, u) refl,
)

-- SegmentSet::Unref on a valid store with a recycle queue of at most twice the size either fails a
-- CHECK or leaves a valid store with such a queue; it fails none for a tuple that has a reference
-- while the queue is shorter than that.
pub unref-KeepsShort :
    (s : SegmentSets) (ssid : ℤ)
    → IsValid s
    → IsShort s
    → KeepsShort (unref s ssid)
      × ((i n : ℕ) (x : Slot)
          → ssid ≡ negsuc i
          → get_elem? s.vec i ≡ some x
          → x.ref_count ≡ pos (suc n)
          → length s.to_recycle < 2 * s.queue_size
          → (s' : SegmentSets) × (unref s ssid ≡ some s'))
unfolding unref unref_slot
unref-KeepsShort s (pos sid) h q = (with_segments-KeepsShort s _ h q, λ i n x p e u l. absurd (cc))
unref-KeepsShort s (negsuc i) h q = (
  elim (get-some s i) [
    | inl e ↦ rw (unref, e, unref_slot) tt
    | inr (x, e, f) ↦ rw (unref, f) (unref_slot-KeepsShort s (negsuc i) i x h q e)
  ],
  λ j n x p e u l. rw p (unref_returns s j n x e u l),
)
