-- ===== src/Caches/Pair.antt =====
-- template class PairCache, tsan/thread_sanitizer.cc, at integer keys. The first key is a signed
-- 32-bit identifier, the second one a non-negative one.
use Prim.Native.Nat.{bit_xor}
use data_race_test.Prelude.{
  ℕ, zero, suc, ◌+◌, ◌*◌, ◌%◌, ◌-◌, ◌^◌, Bool, true, false, ◌&&◌, List, [], ◌∷◌, Option, none, some,
  if◌then◌else◌, ◌==◌, ltb, get_or, set, replicate, ℤ, pos, negsuc, eq_ℤ,
}

pub record Entry {ℓ} (V : Type ℓ) : Type ℓ where
  pub a : ℤ
  pub b : ℕ
  pub v : V

pub record PairCache {ℓ} (V : Type ℓ) : Type ℓ where
  pub htable : List (Entry V)
  pub array : List (Entry V)
  pub array_pos : ℕ
  pub array_filled : Bool

-- The sizes of the two arrays, kHtableSize and kArraySize, and the values that are all zero bytes
-- and all one bytes.
pub record Params {ℓ} (V : Type ℓ) : Type ℓ where
  pub htable_size : ℕ
  pub array_size : ℕ
  pub zero_value : V
  pub ones_value : V

-- The conversion of an int to uint32_t.
unfoldable pub to_u32 : ℤ → ℕ
to_u32 (pos n) = n % 2 ^ 32
to_u32 (negsuc n) = 2 ^ 32 - 1 - n % 2 ^ 32

-- (a << 16) ^ b
unfoldable pub combine2 : ℤ → ℕ → ℕ
unfolding to_u32
combine2 a b = bit_xor (to_u32 a * 2 ^ 16 % 2 ^ 32) (b % 2 ^ 32)

module _ {ℓ} {V : Type ℓ} where
  -- Entry::Match
  abbrev pub matches : Entry V → ℤ → ℕ → Bool
  matches e a b = eq_ℤ e.a a && (e.b == b)

  abbrev pub zero_entry : Params V → Entry V
  zero_entry p = record { a = pos zero; b = 0; v = p.zero_value }

  -- memset(&htable_[0], 1, sizeof(Entry))
  abbrev pub ones_entry : Params V → Entry V
  ones_entry p = record { a = pos 0x01010101; b = 0x01010101; v = p.ones_value }

  unfoldable pub compute_idx : Params V → ℤ → ℕ → ℕ
  compute_idx p a b = if p.htable_size == 0 then 0 else combine2 a b % p.htable_size

  unfoldable pub flush : Params V → PairCache V
  flush p = record {
    htable =
        if p.htable_size == 0
        then []
        else set (replicate p.htable_size (zero_entry p)) 0 (ones_entry p);
    array = replicate p.array_size (zero_entry p);
    array_pos = 0;
    array_filled = false;
  }

  -- The loop of ArrayLookup over the first `n` entries.
  unfoldable pub scan : ℕ → List (Entry V) → ℤ → ℕ → Option V
  scan zero es a b = none
  scan (suc n) [] a b = none
  scan (suc n) (e ∷ es) a b = let rest = scan n es a b in if matches e a b then some e.v else rest

  unfoldable pub array_lookup : Params V → PairCache V → ℤ → ℕ → Option V
  array_lookup p c a b = scan (if c.array_filled then p.array_size else c.array_pos) c.array a b

  -- The hash-table part of Lookup.
  unfoldable pub htable_lookup : Params V → PairCache V → ℤ → ℕ → Option V
  htable_lookup p c a b =
      let e = get_or c.htable (compute_idx p a b) (zero_entry p) in
      if p.htable_size == 0 then none else if matches e a b then some e.v else none

  unfoldable pub lookup : Params V → PairCache V → ℤ → ℕ → Option V
  lookup p c a b = elim (if p.array_size == 0 then none else array_lookup p c a b) [
    | some v ↦ some v
    | none ↦ htable_lookup p c a b
  ]

  -- The part of Insert that fills the hash table.
  unfoldable pub insert_htable : Params V → PairCache V → ℤ → ℕ → V → PairCache V
  insert_htable p c a b v =
      if p.htable_size == 0
      then c
      else record c { htable = set c.htable (compute_idx p a b) (record { a = a; b = b; v = v }) }

  -- The part that fills the array, after the test that the pair is not there.
  unfoldable pub insert_array : Params V → PairCache V → ℤ → ℕ → V → PairCache V
  insert_array p c a b v =
      let next = (c.array_pos + 1) % p.array_size in
      record c {
        array = set c.array (c.array_pos % p.array_size) (record { a = a; b = b; v = v });
        array_pos = next;
        array_filled = if ltb p.array_size next then true else c.array_filled;
      }

  unfoldable pub insert : Params V → PairCache V → ℤ → ℕ → V → PairCache V
  insert p c a b v =
      let h = insert_htable p c a b v in
      if p.array_size == 0
      then h
      else elim (array_lookup p h a b) [ some _ ↦ h | none ↦ insert_array p h a b v ]
