-- ===== src/Caches/PairRuns.antt =====
-- PairCache over a whole history of insertions.
use native.Mathlib.Nat.{mod-eq_of_lt}
use native.Mathlib.Numerals.{add-one}
use data_race_test.Prelude.{
  ℕ, zero, suc, ◌+◌, ◌%◌, ◌<◌, ◌≡◌, ◌≢◌, ◌⊎◌, inl, inr, refl, true, false, List, [], ◌∷◌, none,
  some, ◌==◌, ltb, ltb→lt, set, ℤ, pos, length, arith, get_or-set_self, Bool-cases,
}
use data_race_test.Caches.Pair.{
  Entry, PairCache, Params, matches, zero_entry, compute_idx, flush, scan, array_lookup,
  htable_lookup, lookup, insert_htable, insert_array, insert,
}
use data_race_test.Caches.PairLaws.{
  IsCoherent, IsCoherent-mono, lookup_sound, insert-IsCoherent, insert_htable-IsCoherent,
  flush-IsCoherent, compute_idx_lt, matches_self,
}

-- The triple is among the insertions.
pub data Inserted {ℓ} {V : Type ℓ} (a : ℤ) (b : ℕ) (v : V) : List (Entry V) → Type ℓ where
  here : {e : Entry V} {es : List (Entry V)} → e.a ≡ a → e.b ≡ b → e.v ≡ v → Inserted a b v (e ∷ es)
  there : {e : Entry V} {es : List (Entry V)} → Inserted a b v es → Inserted a b v (e ∷ es)

module _ {ℓ} {V : Type ℓ} (p : Params V) where
  -- The insertions in order, the latest one first in the list.
  unfoldable pub run : List (Entry V) → PairCache V
  run [] = flush p
  run (e ∷ es) = insert p (run es) e.a e.b e.v

  run-IsCoherent :
      compute_idx p (pos 0x01010101) 0x01010101 ≢ 0
      → (es : List (Entry V)) → IsCoherent (λ a b v. Inserted a b v es) p (run es)
  unfolding run
  run-IsCoherent o [] = flush-IsCoherent _ p o
  run-IsCoherent o (e ∷ es) =
      insert-IsCoherent _ p (run es) e.a e.b e.v (here refl refl refl)
        (IsCoherent-mono _ _ p (run es) (λ a b v i. there i) (run-IsCoherent o es))

  -- PairCache, after a flush and any insertions, answers for a pair only with a value that was
  -- inserted for that very pair, if the entry of one-bytes is not in its own place.
  pub lookup-run :
      compute_idx p (pos 0x01010101) 0x01010101 ≢ 0
      → (es : List (Entry V)) (a : ℤ) (b : ℕ) (v : V) → lookup p (run es) a b ≡ some v
      → Inserted a b v es
  lookup-run o es a b v h = lookup_sound _ p (run es) a b v (run-IsCoherent o es) h

  scan-set :
      (n : ℕ) (es : List (Entry V)) (e : Entry V) (a : ℤ) (b : ℕ)
      → scan n es a b ≡ none
      → n < length es
      → matches e a b ≡ true
      → scan (suc n) (set es n e) a b ≡ some e.v
  unfolding scan
  scan-set zero [] e a b s l m = absurd (omega arith)
  scan-set zero (x ∷ es) e a b s l m = rw m
  scan-set (suc n) [] e a b s l m = absurd (omega arith)
  scan-set (suc n) (x ∷ es) e a b s l m = ground (arith, scan-set n es e a b)

  -- PairCache never marks its array as filled, whatever is inserted, so with the position back at 0
  -- the array answers for no pair, if the entry of one-bytes is not in its own place.
  pub run-unfilled :
      compute_idx p (pos 0x01010101) 0x01010101 ≢ 0
      → (es : List (Entry V)) (a : ℤ) (b : ℕ)
      → ((run es).array_filled ≡ false)
        × ((run es).array_pos ≡ 0 → array_lookup p (run es) a b ≡ none)
  unfolding array_lookup scan
  run-unfilled o es a b = let h = (run-IsCoherent o es).unfilled in (h, λ z. rw (h, z))

  htable_lookup-insert :
      (c : PairCache V) (a : ℤ) (b : ℕ) (v : V)
      → 0 < p.htable_size
      → length c.htable ≡ p.htable_size
      → htable_lookup p (insert_htable p c a b v) a b ≡ some v
  unfolding htable_lookup insert_htable
  htable_lookup-insert c a b v h l =
      let e : Entry V = record { a = a; b = b; v = v } in
      let z : (p.htable_size == 0) ≡ false = ground arith in
      let g =
        get_or-set_self c.htable (compute_idx p a b) e (zero_entry p)
          (rw l (compute_idx_lt p a b h)) in
      rw z (rw g (rw (matches_self a b v)))

  mod_wrap : (k n : ℕ) → k + 1 ≡ n → (k + 1) % n ≡ 0
  mod_wrap k n h = rw h (grind arith)

  array_lookup-insert_htable :
      (c : PairCache V) (a a' : ℤ) (b b' : ℕ) (v : V)
      → array_lookup p (insert_htable p c a b v) a' b' ≡ array_lookup p c a' b'
  unfolding array_lookup insert_htable
  array_lookup-insert_htable c a a' b b' v = ground arith

  htable_lookup-insert_array :
      (c : PairCache V) (a a' : ℤ) (b b' : ℕ) (v : V)
      → htable_lookup p (insert_array p c a b v) a' b' ≡ htable_lookup p c a' b'
  unfolding htable_lookup insert_array
  htable_lookup-insert_array c a a' b b' v = refl

  -- After the write the array holds the new triple, unless it wrapped round and is not looked at.
  array_lookup-insert_array :
      (c : PairCache V) (a : ℤ) (b : ℕ) (v : V)
      → c.array_pos < p.array_size
      → length c.array ≡ p.array_size
      → c.array_filled ≡ false
      → array_lookup p c a b ≡ none
      → (array_lookup p (insert_array p c a b v) a b ≡ some v)
        ⊎ (array_lookup p (insert_array p c a b v) a b ≡ none)
  unfolding array_lookup insert_array scan
  array_lookup-insert_array c a b v r l u n =
      elim (Bool-cases (ltb (c.array_pos + 1) p.array_size)) [
        | inl e ↦
            let m = mod-eq_of_lt (ltb→lt _ _ e) in
            let k = mod-eq_of_lt r in
            let f : ltb p.array_size (c.array_pos + 1) ≡ false = ground arith in
            let g =
              scan-set c.array_pos c.array (record { a = a; b = b; v = v }) a b (rw u at n) (rw l r)
                (matches_self a b v) in
            inl (rw (m, f, u, k, add-one) g)
        | inr e ↦
            let m : (c.array_pos + 1) % p.array_size ≡ 0 =
              mod_wrap c.array_pos p.array_size (ground arith) in
            let f : ltb p.array_size 0 ≡ false = ground arith in inr (rw (m, f, u) refl)
      ]

  pub insert_hit :
      (c : PairCache V) (a : ℤ) (b : ℕ) (v : V)
      → IsCoherent (λ _ _ _. Unit {0}) p c
      → 0 < p.htable_size
      → lookup p c a b ≡ none
      → lookup p (insert p c a b v) a b ≡ some v
  unfolding lookup insert
  insert_hit c a b v o h n =
      let k = insert_htable-IsCoherent (λ _ _ _. Unit {0}) p c a b v tt o in
      let d = insert_htable p c a b v in
      elim (Bool-cases (p.array_size == 0)) [
        | inl z ↦ ground (arith, htable_lookup-insert c a b v h o.sized)
        | inr z ↦
            let r : d.array_pos < p.array_size = ground (arith, k.in_range) in
            ground (
              arith,
              htable_lookup-insert c a b v h o.sized,
              array_lookup-insert_htable c a a b b v,
              htable_lookup-insert_array d a a b b v,
              array_lookup-insert_array d a b v r k.array_sized k.unfilled,
            )
      ]

  -- PairCache with a hash table, after a flush and any insertions: an insertion after a miss is
  -- found by the next lookup of the pair, if the entry of one-bytes is not in its own place.
  lookup-insert_miss :
      compute_idx p (pos 0x01010101) 0x01010101 ≢ 0
      → 0 < p.htable_size
      → (es : List (Entry V)) (a : ℤ) (b : ℕ) (v : V) → lookup p (run es) a b ≡ none
      → lookup p (insert p (run es) a b v) a b ≡ some v
  lookup-insert_miss o h es a b v n =
      insert_hit (run es) a b v
        (IsCoherent-mono _ _ p (run es) (λ a b v i. tt) (run-IsCoherent o es)) h n
