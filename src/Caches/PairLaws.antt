-- ===== src/Caches/PairLaws.antt =====
-- What the entries of a PairCache hold, tsan/thread_sanitizer.cc.
use native.Mathlib.Nat.{mod-eq_of_lt}
use data_race_test.Prelude.{
  ℕ, zero, suc, ◌+◌, ◌%◌, ◌<◌, ◌≡◌, ◌≢◌, ◌⊎◌, inl, inr, refl, sym, ◌∙◌, true, false, List, [], ◌∷◌,
  some, ◌==◌, ltb, get_or, set, replicate, ℤ, pos, length, arith, length-set, length-replicate,
  get_or-replicate, get_or-set_self, get_or-set_ne, get_or-set_cases, ap, Bool-cases, Option-cases,
  eq_ℤ_iff, ==_iff,
}
use data_race_test.Caches.Pair.{
  Entry, PairCache, Params, combine2, matches, zero_entry, ones_entry, compute_idx, flush, scan,
  array_lookup, htable_lookup, lookup, insert_htable, insert_array, insert,
}

module _ {ℓ κ} {V : Type ℓ} (R : ℤ → ℕ → V → Type κ) (p : Params V) where
  -- Every entry that a lookup can reach holds a triple of `R`, and the arrays have their sizes.
  pub record IsCoherent (c : PairCache V) : Type (ℓ ⊔ κ) where
    pub sized : length c.htable ≡ p.htable_size
    pub array_sized : length c.array ≡ p.array_size
    pub in_range : (c.array_pos < p.array_size) ⊎ (p.array_size ≡ 0)
    pub unfilled : c.array_filled ≡ false
    pub in_array :
        (i : ℕ) (e : Entry V)
        → i < c.array_pos
        → i < p.array_size
        → get_or c.array i (zero_entry p) ≡ e
        → R e.a e.b e.v
    pub in_htable :
        (a : ℤ) (b : ℕ) (e : Entry V)
        → 0 < p.htable_size
        → get_or c.htable (compute_idx p a b) (zero_entry p) ≡ e
        → matches e a b ≡ true
        → R a b e.v

module _ {ℓ} {V : Type ℓ} where
  pub compute_idx_lt :
      (p : Params V) (a : ℤ) (b : ℕ) → 0 < p.htable_size → compute_idx p a b < p.htable_size
  unfolding compute_idx
  compute_idx_lt p a b h = ground arith

  matches→eq : (e : Entry V) (a : ℤ) (b : ℕ) → matches e a b ≡ true → (e.a ≡ a) × (e.b ≡ b)
  matches→eq e a b h = ground (arith, eq_ℤ_iff e.a a)

  pub matches_self : (a : ℤ) (b : ℕ) (v : V) → matches (record { a = a; b = b; v = v }) a b ≡ true
  matches_self a b v = ground (arith, eq_ℤ_iff a a)

  scan_found :
      (n : ℕ) (es : List (Entry V)) (a : ℤ) (b : ℕ) (v : V) (d : Entry V)
      → scan n es a b ≡ some v
      → (i : ℕ) × (i < n)
        × (i < length es)
        × (matches (get_or es i d) a b ≡ true)
        × ((get_or es i d).v ≡ v)
  unfolding scan
  scan_found zero es a b v d h = absurd (cc)
  scan_found (suc n) [] a b v d h = absurd (cc)
  scan_found (suc n) (e ∷ es) a b v d h = elim (Bool-cases (matches e a b)) [
    | inl m ↦ (0, omega arith, omega arith, m, ground arith)
    | inr m ↦
        let (i, l, k, q, r) = scan_found n es a b v d (rw m at h) in
        (suc i, omega arith, omega arith, q, r)
  ]

below_pos : (k n i : ℕ) → k < n → i < (k + 1) % n → k % n ≢ i → i < k
below_pos k n i h l q = elim (Bool-cases (ltb (k + 1) n)) [
  | inl e ↦ grind (arith, mod-eq_of_lt)
  | inr e ↦ let m : k + 1 ≡ n = ground arith in let z : n ≡ k + 1 = sym m in absurd (grind arith)
]

module _ {ℓ} {V : Type ℓ} (p : Params V) where
  compute_idx-zero : compute_idx p (pos zero) 0 ≡ 0
  unfolding compute_idx combine2
  compute_idx-zero = ground arith

  length-flush_htable : length (flush p).htable ≡ p.htable_size
  unfolding flush
  length-flush_htable = elim (Bool-cases (p.htable_size == 0)) [
    | inl e ↦ rw e (ground arith)
    | inr e ↦ rw (e, length-set, length-replicate)
  ]

  flush_first : 0 < p.htable_size → get_or (flush p).htable 0 (zero_entry p) ≡ ones_entry p
  unfolding flush
  flush_first h =
      let e : (p.htable_size == 0) ≡ false = ground arith in
      rw e (
        get_or-set_self (replicate p.htable_size (zero_entry p)) 0 (ones_entry p) _
          (rw length-replicate h))

  flush_other :
      (i : ℕ) → 0 < p.htable_size → i ≢ 0 → get_or (flush p).htable i (zero_entry p) ≡ zero_entry p
  unfolding flush
  flush_other i h n =
      let e : (p.htable_size == 0) ≡ false = ground arith in
      rw e (
        get_or-set_ne (replicate p.htable_size (zero_entry p)) 0 i (ones_entry p) _ (λ q. n (sym q))
        ∙ get_or-replicate p.htable_size i _)

  flush_unmatched :
      compute_idx p (pos 0x01010101) 0x01010101 ≢ 0
      → (a : ℤ) (b : ℕ) → 0 < p.htable_size
      → ¬ (matches (get_or (flush p).htable (compute_idx p a b) (zero_entry p)) a b ≡ true)
  flush_unmatched o a b h m = elim (Bool-cases (compute_idx p a b == 0)) [
    | inl e ↦
        let z = (==_iff (compute_idx p a b) 0).0 e in
        let w = matches→eq (ones_entry p) a b (rw (z, flush_first h) at m) in o (rw (w.0, w.1) z)
    | inr e ↦
        let z : compute_idx p a b ≢ 0 = λ q. ground arith in
        let w = matches→eq (zero_entry p) a b (rw (flush_other (compute_idx p a b) h z) at m) in
        z (rw (← w.0, ← w.1) compute_idx-zero)
  ]

module _ {ℓ κ} {V : Type ℓ} (R : ℤ → ℕ → V → Type κ) (p : Params V) where
  transport_R :
      (e : Entry V) (a : ℤ) (b : ℕ) (v : V) → e.a ≡ a → e.b ≡ b → e.v ≡ v → R e.a e.b e.v → R a b v
  transport_R e a b v h k q r = rw (← h, ← k, ← q) r

  array_sound :
      (c : PairCache V) (a : ℤ) (b : ℕ) (v : V)
      → IsCoherent R p c
      → array_lookup p c a b ≡ some v
      → R a b v
  unfolding array_lookup
  array_sound c a b v h e =
      let s : scan c.array_pos c.array a b ≡ some v = rw h.unfilled at e in
      let (i, l, k, m, q) = scan_found c.array_pos c.array a b v (zero_entry p) s in
      let f = get_or c.array i (zero_entry p) in
      let w = matches→eq f a b m in
      transport_R f a b v w.0 w.1 q (h.in_array i f l (omega (arith, h.array_sized)) refl)

  htable_sound :
      (c : PairCache V) (a : ℤ) (b : ℕ) (v : V)
      → IsCoherent R p c
      → htable_lookup p c a b ≡ some v
      → R a b v
  unfolding htable_lookup
  htable_sound c a b v h e = elim (Bool-cases (matches f a b)) [
    | inl m ↦
        transport_R (record { a = a; b = b; v = f.v }) a b v refl refl (ground arith)
          (h.in_htable a b f (ground arith) refl m)
    | inr m ↦ absurd (ground arith)
  ]
    where
      f : Entry V
      f = get_or c.htable (compute_idx p a b) (zero_entry p)

  -- A lookup answers only with what an insertion put there.
  pub lookup_sound :
      (c : PairCache V) (a : ℤ) (b : ℕ) (v : V)
      → IsCoherent R p c
      → lookup p c a b ≡ some v
      → R a b v
  unfolding lookup
  lookup_sound c a b v h e = elim (Bool-cases (p.array_size == 0)) [
    | inl z ↦ htable_sound c a b v h (ground arith)
    | inr z ↦ elim (Option-cases (array_lookup p c a b)) [
      | inl n ↦ htable_sound c a b v h (ground arith)
      | inr (w, s) ↦ array_sound c a b v h (ground arith)
    ]
  ]

  pub insert_htable-IsCoherent :
      (c : PairCache V) (a : ℤ) (b : ℕ) (v : V)
      → R a b v
      → IsCoherent R p c
      → IsCoherent R p (insert_htable p c a b v)
  unfolding insert_htable
  insert_htable-IsCoherent c a b v r h = elim (Bool-cases (p.htable_size == 0)) [
    | inl e ↦ rw e h
    | inr e ↦ rw e (record {
      sized = rw length-set h.sized;
      array_sized = h.array_sized;
      in_range = h.in_range;
      unfilled = h.unfilled;
      in_array = h.in_array;
      in_htable = λ a' b' f z g m.
          elim (get_or-set_cases c.htable (compute_idx p a b) (compute_idx p a' b') _ _ f g) [
            | inl (_, q) ↦
                let w = matches→eq f a' b' m in
                transport_R (record { a = a; b = b; v = v }) a' b' f.v
                  (ap (λ (x : Entry V). x.a) q ∙ w.0) (ap (λ (x : Entry V). x.b) q ∙ w.1)
                  (ap (λ (x : Entry V). x.v) q) r
            | inr q ↦ h.in_htable a' b' f z q m
          ];
    })
  ]

  insert_array-IsCoherent :
      (c : PairCache V) (a : ℤ) (b : ℕ) (v : V)
      → R a b v
      → 0 < p.array_size
      → IsCoherent R p c
      → IsCoherent R p (insert_array p c a b v)
  unfolding insert_array
  insert_array-IsCoherent c a b v r z h = record {
    sized = h.sized;
    array_sized = rw length-set h.array_sized;
    in_range = ground arith;
    unfilled = ground (arith, h.unfilled);
    in_array = λ i f l k g. elim (Bool-cases (at == i)) [
      | inl q ↦
          let q' : at ≡ i = (==_iff at i).0 q in
          let at_i : get_or (set c.array at e) at (zero_entry p) ≡ f =
            ap (λ t. get_or (set c.array at e) t (zero_entry p)) q' ∙ g in
          let f' : e ≡ f =
            sym (get_or-set_self c.array at e (zero_entry p) (omega (arith, h.array_sized)))
            ∙ at_i in
          transport_R e f.a f.b f.v (ap (λ (x : Entry V). x.a) f') (ap (λ (x : Entry V). x.b) f')
            (ap (λ (x : Entry V). x.v) f') r
      | inr q ↦
          h.in_array i f
            (elim h.in_range [
              | inl w ↦ below_pos c.array_pos p.array_size i w l (λ q'. ground arith)
              | inr w ↦ absurd (omega arith)
            ])
            k (sym (get_or-set_ne c.array at i e (zero_entry p) (λ q'. ground arith)) ∙ g)
    ];
    in_htable = h.in_htable;
  }
    where
      at : ℕ
      at = c.array_pos % p.array_size

      e : Entry V
      e = record { a = a; b = b; v = v }

  -- Insert keeps every reachable entry in `R`, if the new triple is.
  pub insert-IsCoherent :
      (c : PairCache V) (a : ℤ) (b : ℕ) (v : V)
      → R a b v
      → IsCoherent R p c
      → IsCoherent R p (insert p c a b v)
  unfolding insert
  insert-IsCoherent c a b v r h = elim (Bool-cases (p.array_size == 0)) [
    | inl z ↦ rw z k
    | inr z ↦ elim (Option-cases (array_lookup p (insert_htable p c a b v) a b)) [
      | inl n ↦ rw (z, n, insert) (insert_array-IsCoherent _ a b v r (ground arith) k)
      | inr (w, s) ↦ rw (z, s, insert) k
    ]
  ]
    where
      k : IsCoherent R p (insert_htable p c a b v)
      k = insert_htable-IsCoherent c a b v r h

  -- Flush leaves no reachable entry, if the entry of one-bytes is not in its own place.
  pub flush-IsCoherent : compute_idx p (pos 0x01010101) 0x01010101 ≢ 0 → IsCoherent R p (flush p)
  flush-IsCoherent o = record {
    sized = length-flush_htable p;
    array_sized = unfold flush in length-replicate p.array_size _;
    in_range = unfold flush in ground arith;
    unfilled = unfold flush in refl;
    in_array = λ i f l k g. absurd (unfold flush in omega arith);
    in_htable = λ a b f n g m. absurd (flush_unmatched p o a b n (rw g m));
  }

-- A cache of results of `R` is one of results of every weaker relation.
pub IsCoherent-mono {ℓ κ ρ} :
    {V : Type ℓ} (R : ℤ → ℕ → V → Type κ) (S : ℤ → ℕ → V → Type ρ) (p : Params V) (c : PairCache V)
    → ((a : ℤ) (b : ℕ) (v : V) → R a b v → S a b v)
    → IsCoherent R p c
    → IsCoherent S p c
IsCoherent-mono R S p c f h = record {
  sized = h.sized;
  array_sized = h.array_sized;
  in_range = h.in_range;
  unfilled = h.unfilled;
  in_array = λ i e l k g. f e.a e.b e.v (h.in_array i e l k g);
  in_htable = λ a b e z g m. f a b e.v (h.in_htable a b e z g m);
}
