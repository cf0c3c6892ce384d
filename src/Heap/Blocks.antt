-- ===== src/Heap/Blocks.antt =====
-- HeapMap as a set of disjoint blocks.
use data_race_test.Prelude.{
  ℕ, suc, ◌+◌, ◌%◌, ◌^◌, ◌≤◌, ◌<◌, ◌≡◌, ◌⊎◌, inl, inr, refl, sym, ap, ◌∙◌, max, true, false, List,
  [], ◌∷◌, Option, none, some, ◌==◌, ltb, arith, Bool-cases, ==_iff,
}
use native.Mathlib.Nat.{mod-eq_of_lt}
use data_race_test.Heap.{
  HeapInfo, Entry, top, is_valid_ptr, assign, insert_info, within, get_from, get_info,
}

-- Blocks in the order of their addresses from `lo` on, none reaching into the next one, and the
-- sentinel at the end.
abbrev pub IsHeapFrom : ℕ → ℕ → List Entry → Type 0
IsHeapFrom t lo [] = ⊥
IsHeapFrom t lo (e ∷ []) = (e.key ≡ t) × (e.info.ptr ≡ t) × (e.info.size ≡ 0) × (lo ≤ t)
IsHeapFrom t lo (e ∷ e' ∷ es) =
    (lo ≤ e.key)
    × (e.info.ptr ≡ e.key)
    × (e.key + e.info.size ≤ t)
    × IsHeapFrom t (max (suc e.key) (e.key + e.info.size)) (e' ∷ es)

-- The address is in the block, or is its beginning.
abbrev pub Covers : HeapInfo → ℕ → Type 0
Covers i a = (i.ptr ≡ a) ⊎ ((i.ptr < a) × (a < i.ptr + i.size))

abbrev pub Has : HeapInfo → List Entry → Type 0
Has i [] = ⊥
Has i (e ∷ es) = (e.info ≡ i) ⊎ Has i es

-- The answer for an address: a block that covers it, or that none does.
abbrev pub IsAnswer : ℕ → (HeapInfo → Type 0) → Option HeapInfo → Type 0
IsAnswer a P none = (i : HeapInfo) → P i → Covers i a → ⊥
IsAnswer a P (some i) = P i × Covers i a

Has-ptr : (t lo : ℕ) (es : List Entry) (i : HeapInfo) → IsHeapFrom t lo es → Has i es → lo ≤ i.ptr
Has-ptr t lo [] i v h = elim v [ ]
Has-ptr t lo (e ∷ []) i v (inl q) = let p = ap (λ k. k.ptr) q in omega (arith, v)
Has-ptr t lo (e ∷ []) i v (inr b) = absurd b
Has-ptr t lo (e ∷ e' ∷ es) i v (inl q) = let p = ap (λ k. k.ptr) q in omega (arith, v)
Has-ptr t lo (e ∷ e' ∷ es) i v (inr b) =
    omega (arith, Has-ptr t (max (suc e.key) (e.key + e.info.size)) (e' ∷ es) i v.3 b)

Covers-ptr : (i : HeapInfo) (a : ℕ) → Covers i a → i.ptr ≤ a
Covers-ptr i a c = omega (arith, c)

-- A block that ends at or before `lo` does not cover an address from `lo` on, other than its own.
ended : (i : HeapInfo) (a lo : ℕ) → i.ptr < a → i.ptr + i.size ≤ lo → lo ≤ a → Covers i a → ⊥
ended i a lo p q r c = absurd (omega (arith, c))

module _ (w a : ℕ) (small : a < top w) where
  within-IsAnswer :
      (prev : HeapInfo) (lo : ℕ) (es : List Entry)
      → IsHeapFrom (top w) lo es
      → a < lo
      → lo ≤ top w
      → prev.ptr < a
      → prev.ptr + prev.size ≤ lo
      → (o : Option HeapInfo) × (within w a (some prev) ≡ some o)
        × IsAnswer a (λ i. (i ≡ prev) ⊎ Has i es) o
  unfolding within
  within-IsAnswer prev lo es v l m p q =
      let z : (prev.ptr + prev.size) % 2 ^ w ≡ prev.ptr + prev.size =
        mod-eq_of_lt (omega (arith, small)) in
      let y : ltb prev.ptr a ≡ true = ground arith in
      elim (Bool-cases (ltb a (prev.ptr + prev.size))) [
        | inl b ↦ (some prev, rw (within, y, z, b) refl, (inl refl, inr (p, ground arith)))
        | inr b ↦ (
          none,
          rw (within, y, z, b) refl,
          λ i h c. elim h [
            | inl e ↦ absurd (not_covered i e b c)
            | inr h ↦ absurd (omega (arith, Has-ptr (top w) lo es i v h, Covers-ptr i a c))
          ],
        )
      ]
    where
      not_covered :
          (i : HeapInfo) → i ≡ prev → ltb a (prev.ptr + prev.size) ≡ false → Covers i a → ⊥
      not_covered i e b c = ground arith

  -- One entry below the address: the block before it is out of the question.
  step-IsAnswer :
      (prev : HeapInfo) (e : Entry) (es : List Entry) (r : Option (Option HeapInfo))
      → (Covers prev a → ⊥)
      → (o : Option HeapInfo) × (r ≡ some o) × IsAnswer a (λ i. (i ≡ e.info) ⊎ Has i es) o
      → (o : Option HeapInfo) × (r ≡ some o) × IsAnswer a (λ i. (i ≡ prev) ⊎ Has i (e ∷ es)) o
  step-IsAnswer prev e es r n (none, q, f) = (
    none,
    q,
    λ i h c. elim h [
      | inl g ↦ n (rw g at c)
      | inr h ↦ elim h [ inl g ↦ f i (inl (sym g)) c | inr g ↦ f i (inr g) c ]
    ],
  )
  step-IsAnswer prev e es r n (some i, q, (h, c)) =
      (some i, q, (elim h [ inl g ↦ inr (inl (sym g)) | inr g ↦ inr (inr g) ], c))

  get_from-IsAnswer :
      (prev : HeapInfo) (lo : ℕ) (es : List Entry)
      → IsHeapFrom (top w) lo es
      → lo ≤ top w
      → prev.ptr < a
      → prev.ptr + prev.size ≤ lo
      → (o : Option HeapInfo) × (get_from w a (some prev) es ≡ some o)
        × IsAnswer a (λ i. (i ≡ prev) ⊎ Has i es) o
  unfolding get_from
  get_from-IsAnswer prev lo [] v m p q = elim v [ ]
  get_from-IsAnswer prev lo (e ∷ []) v m p q =
      let z : ltb e.key a ≡ false = ground arith in
      let y : (e.info.ptr == a) ≡ false = ground arith in
      let x : ltb a e.info.ptr ≡ true = ground arith in
      rw (get_from, z, y, x)
        (within-IsAnswer prev (top w) (e ∷ []) (v.0, v.1, v.2, omega arith) small (omega arith) p
          (omega arith))
  get_from-IsAnswer prev lo (e ∷ e' ∷ es) v m p q = elim (Bool-cases (ltb e.key a)) [
    | inl z ↦
        rw (get_from, z)
          (step-IsAnswer prev e (e' ∷ es) _ (λ c. ended prev a lo p q (ground arith) c)
            (get_from-IsAnswer e.info (max (suc e.key) (e.key + e.info.size)) (e' ∷ es) v.3
              (ground arith) (ground arith) (omega (arith, v.1))))
    | inr z ↦ elim (Bool-cases (e.info.ptr == a)) [
      | inl y ↦
          (some e.info, rw (get_from, z, y) refl, (inr (inl refl), inl ((==_iff e.info.ptr a).0 y)))
      | inr y ↦
          let x : ltb a e.info.ptr ≡ true = ground (arith, v.1) in
          rw (get_from, z, y, x)
            (within-IsAnswer prev e.key (e ∷ e' ∷ es) (omega arith, v.1, v.2, v.3) (ground arith)
              (omega (arith, v.2)) p (omega (arith, v.0)))
    ]
  ]

-- A whole map: the sentinel at 0, then blocks and the sentinel at the top.
abbrev pub IsHeap : ℕ → List Entry → Type 0
IsHeap w [] = ⊥
IsHeap w (e ∷ es) = (e.key ≡ 0) × (e.info.ptr ≡ 0) × (e.info.size ≡ 0) × IsHeapFrom (top w) 1 es

flip-IsAnswer :
    (a : ℕ) (e : Entry) (es : List Entry) (o : Option HeapInfo)
    → IsAnswer a (λ i. (i ≡ e.info) ⊎ Has i es) o
    → IsAnswer a (λ i. Has i (e ∷ es)) o
flip-IsAnswer a e es none f = λ i b c. f i (elim b [ inl g ↦ inl (sym g) | inr g ↦ inr g ]) c
flip-IsAnswer a e es (some i) (b, c) = (elim b [ inl g ↦ inl (sym g) | inr g ↦ inr g ], c)

-- HeapMap::GetInfo, on a map of disjoint blocks between the sentinels and an address other than 0
-- and the top, fails no CHECK, gives a block of the map that the address is in or begins, and NULL
-- only if there is none.
pub get_info-IsAnswer :
    (w a : ℕ) (es : List Entry)
    → IsHeap w es
    → 0 < a
    → a < top w
    → (o : Option HeapInfo) × (get_info w a es ≡ some o) × IsAnswer a (λ i. Has i es) o
unfolding get_info get_from is_valid_ptr
get_info-IsAnswer w a [] h p l = elim h [ ]
get_info-IsAnswer w a (e ∷ es) h p l =
    let (o, q, r) =
      get_from-IsAnswer w a l e.info 1 es h.3 (omega arith) (omega (arith, h.1))
        (omega (arith, h.1, h.2)) in
    let z : (a == 0) ≡ false = ground arith in
    let y : (a == top w) ≡ false = ground arith in
    let x : ltb e.key a ≡ true = ground (arith, h.0) in
    (o, rw (get_info, is_valid_ptr, z, y, get_from, x) q, flip-IsAnswer a e es o r)

-- The block [ptr, ptr + size) does not meet the other one, nor is either empty inside the other.
abbrev pub Apart : HeapInfo → HeapInfo → Type 0
Apart i j =
    ((i.ptr < j.ptr) × (i.ptr + i.size ≤ j.ptr)) ⊎ ((j.ptr < i.ptr) × (j.ptr + j.size ≤ i.ptr))

cons_heap :
    (t lo : ℕ) (e : Entry) (es : List Entry)
    → lo ≤ e.key
    → e.info.ptr ≡ e.key
    → e.key + e.info.size ≤ t
    → IsHeapFrom t (max (suc e.key) (e.key + e.info.size)) es
    → IsHeapFrom t lo (e ∷ es)
cons_heap t lo e [] l p n v = elim v [ ]
cons_heap t lo e (e' ∷ es) l p n v = (l, p, n, v)

assign-IsHeapFrom :
    (w lo : ℕ) (i : HeapInfo) (es : List Entry)
    → IsHeapFrom (top w) lo es
    → lo ≤ i.ptr
    → i.ptr < top w
    → i.ptr + i.size ≤ top w
    → ((j : HeapInfo) → Has j es → Apart i j)
    → IsHeapFrom (top w) lo (assign w i.ptr i es)
unfolding assign
assign-IsHeapFrom w lo i [] v l m n f = elim v [ ]
assign-IsHeapFrom w lo i (e ∷ []) v l m n f =
    let z : ltb e.key i.ptr ≡ false = ground arith in
    let y : (e.key == i.ptr) ≡ false = ground arith in
    rw (assign, z, y) (l, refl, n, (v.0, v.1, v.2, omega (arith, v.0)))
assign-IsHeapFrom w lo i (e ∷ e' ∷ es) v l m n f =
    let d = f e.info (inl refl) in
    elim (Bool-cases (ltb e.key i.ptr)) [
      | inl z ↦
          rw (assign, z)
            (cons_heap (top w) lo e _ v.0 v.1 v.2 (
              assign-IsHeapFrom w (max (suc e.key) (e.key + e.info.size)) i (e' ∷ es) v.3
                (ground (arith, v.1)) m n (λ j b. f j (inr b))))
      | inr z ↦
          let y : (e.key == i.ptr) ≡ false = ground (arith, v.1) in
          rw (assign, z, y) (l, refl, n, (ground (arith, v.1), v.1, v.2, v.3))
    ]

Has-assign_self : (w : ℕ) (i : HeapInfo) (es : List Entry) → Has i (assign w i.ptr i es)
unfolding assign
Has-assign_self w i [] = inl refl
Has-assign_self w i (e ∷ es) = elim (Bool-cases (ltb e.key i.ptr)) [
  | inl z ↦ rw (assign, z) (inr (Has-assign_self w i es))
  | inr z ↦ elim (Bool-cases (e.key == i.ptr)) [
    | inl y ↦ rw (assign, z, y) (inl refl)
    | inr y ↦ rw (assign, z, y) (inl refl)
  ]
]

Has-assign_old :
    (w : ℕ) (i j : HeapInfo) (es : List Entry) → Has j (assign w i.ptr i es) → (i ≡ j) ⊎ Has j es
unfolding assign
Has-assign_old w i j [] (inl q) = inl q
Has-assign_old w i j [] (inr b) = absurd b
Has-assign_old w i j (e ∷ es) h = elim (Bool-cases (ltb e.key i.ptr)) [
  | inl z ↦
      let h' : (e.info ≡ j) ⊎ Has j (assign w i.ptr i es) = rw (assign, z) at h in
      elim h' [
        | inl q ↦ inr (inl q)
        | inr b ↦ elim (Has-assign_old w i j es b) [ inl q ↦ inl q | inr c ↦ inr (inr c) ]
      ]
  | inr z ↦ elim (Bool-cases (e.key == i.ptr)) [
    | inl y ↦
        let h' : (i ≡ j) ⊎ Has j es = rw (assign, z, y) at h in
        elim h' [ inl q ↦ inl q | inr b ↦ inr (inr b) ]
    | inr y ↦ rw (assign, z, y) at h
  ]
]

Apart-Covers : (i j : HeapInfo) (a : ℕ) → Apart i j → Covers i a → Covers j a → ⊥
Apart-Covers i j a p c d = absurd (omega (arith, p, c, d))

insert-IsHeap :
    (w : ℕ) (i : HeapInfo) (es : List Entry)
    → IsHeap w es
    → 0 < i.ptr
    → i.ptr < top w
    → i.ptr + i.size ≤ top w
    → ((j : HeapInfo) → Has j es → Apart i j)
    → IsHeap w (assign w i.ptr i es)
unfolding assign
insert-IsHeap w i [] h p m n f = elim h [ ]
insert-IsHeap w i (e ∷ es) h p m n f =
    let z : ltb e.key i.ptr ≡ true = ground (arith, h.0) in
    rw (assign, z)
      (h.0, h.1, h.2, assign-IsHeapFrom w 1 i es h.3 (omega arith) m n (λ j b. f j (inr b)))

found_block :
    (a : ℕ) (i : HeapInfo) (P : HeapInfo → Type 0) (o : Option HeapInfo)
    → P i
    → Covers i a
    → ((j : HeapInfo) → P j → Covers j a → i ≡ j)
    → IsAnswer a P o
    → o ≡ some i
found_block a i P none p c f n = absurd (n i p c)
found_block a i P (some j) p c f (q, d) = ap some (sym (f j q d))

-- HeapMap::InsertInfo of a block between the sentinels and apart from all others passes its CHECKs
-- and keeps the map one of disjoint blocks; GetInfo of every address in the block, and of its
-- beginning, then gives that block.
pub get_info-insert_info :
    (w : ℕ) (i : HeapInfo) (es : List Entry)
    → IsHeap w es
    → 0 < i.ptr
    → i.ptr < top w
    → i.ptr + i.size ≤ top w
    → ((j : HeapInfo) → Has j es → Apart i j)
    → (es' : List Entry) × (insert_info w i.ptr i es ≡ some es')
      × IsHeap w es'
      × ((a : ℕ) → Covers i a → get_info w a es' ≡ some (some i))
unfolding insert_info is_valid_ptr
get_info-insert_info w i es h p m n f =
    let z : (i.ptr == 0) ≡ false = ground arith in
    let y : (i.ptr == top w) ≡ false = ground arith in
    let x : (i.ptr == i.ptr) ≡ true = ground arith in
    let k = insert-IsHeap w i es h p m n f in
    (
      assign w i.ptr i es,
      rw (insert_info, is_valid_ptr, z, y, x) refl,
      k,
      λ a c.
          let (o, q, r) =
            get_info-IsAnswer w a (assign w i.ptr i es) k (omega (arith, c)) (omega (arith, c)) in
          let e =
            found_block a i (λ j. Has j (assign w i.ptr i es)) o (Has-assign_self w i es) c
              (λ j b d. elim (Has-assign_old w i j es b) [
                | inl g ↦ g
                | inr b ↦ absurd (Apart-Covers i j a (f j b) c d)
              ])
              r in
          q ∙ ap some e,
    )
