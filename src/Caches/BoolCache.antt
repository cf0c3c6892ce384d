-- ===== src/Caches/BoolCache.antt =====
-- template class IntPairToBoolCache, tsan/ts_simple_cache.h. A slot is the two neighbouring words
-- of the array; the flag is bit 31 of the second one.
use Prim.Native.Nat.{bit_xor, bit_or}
use data_race_test.Prelude.{
  ℕ, ◌+◌, ◌*◌, ◌%◌, ◌/◌, ◌^◌, ◌<◌, ◌≡◌, ◌⊎◌, inl, inr, sym, Bool, false, ◌&&◌, List, Option, none,
  some, if◌then◌else◌, ◌==◌, leb, get_or, set, replicate, length, arith, get_or-replicate,
  get_or-set_self, get_or-set_ne, Bool-cases, ==_iff,
}

pub record Slot : Type 0 where
  pub first : ℕ
  pub second : ℕ

abbrev zero_slot : Slot
zero_slot = record { first = 0; second = 0 }

-- (a ^ ((b >> 16) | (b << 16))) % kSize
unfoldable pub idx : ℕ → ℕ → ℕ → ℕ
idx size a b = bit_xor a (bit_or (b / 2 ^ 16) (b * 2 ^ 16 % 2 ^ 32)) % size

unfoldable pub flush : ℕ → List Slot
flush size = replicate size zero_slot

unfoldable pub insert : ℕ → List Slot → ℕ → ℕ → Bool → List Slot
insert size arr a b val =
    set arr (idx size a b) (record { first = a; second = if val then b % 2 ^ 31 + 2 ^ 31 else b })

unfoldable pub lookup : ℕ → List Slot → ℕ → ℕ → Option Bool
lookup size arr a b =
    let s = get_or arr (idx size a b) zero_slot in
    if s.first == a
    then if b == s.second % 2 ^ 31 then some (leb (2 ^ 31) s.second) else none
    else none

idx_lt : (size a b : ℕ) → 0 < size → idx size a b < size
unfolding idx
idx_lt size a b h = ground arith

-- A flushed IntPairToBoolCache answers for no pair but (0, 0), for which it answers false.
pub lookup-flush :
    (size a b : ℕ)
    → 0 < size
    → lookup size (flush size) a b ≡ (if (a == 0) && (b == 0) then some false else none)
unfolding lookup flush
lookup-flush size a b h = rw (get_or-replicate size (idx size a b) zero_slot) (ground arith)

lookup-insert_self :
    (size : ℕ) (arr : List Slot) (a b : ℕ) (v : Bool)
    → 0 < size
    → length arr ≡ size
    → b < 2 ^ 31
    → lookup size (insert size arr a b v) a b ≡ some v
unfolding lookup insert
lookup-insert_self size arr a b v h l k =
    rw
      (get_or-set_self arr (idx size a b)
        (record { first = a; second = if v then b % 2 ^ 31 + 2 ^ 31 else b }) zero_slot
        (rw l (idx_lt size a b h)))
      (ground arith)

insert_other :
    (size : ℕ) (arr : List Slot) (a b : ℕ) (v : Bool) (a' b' : ℕ) (w : Bool)
    → 0 < size
    → length arr ≡ size
    → b < 2 ^ 31
    → lookup size (insert size arr a b v) a' b' ≡ some w
    → ((a' ≡ a) × (b' ≡ b) × (w ≡ v)) ⊎ (lookup size arr a' b' ≡ some w)
unfolding lookup insert
insert_other size arr a b v a' b' w h l k e = elim (Bool-cases (idx size a b == idx size a' b')) [
  | inl q ↦
      let q' = (==_iff (idx size a b) (idx size a' b')).0 q in
      let g = get_or-set_self arr (idx size a b) slot zero_slot (rw l (idx_lt size a b h)) in
      let g' : get_or (set arr (idx size a b) slot) (idx size a' b') zero_slot ≡ slot =
        rw (← q') g in
      ground arith
  | inr q ↦
      let g =
        get_or-set_ne arr (idx size a b) (idx size a' b') slot zero_slot (λ q'. ground arith) in
      inr (rw (sym g) e)
]
  where
    slot : Slot
    slot = record { first = a; second = if v then b % 2 ^ 31 + 2 ^ 31 else b }

-- IntPairToBoolCache with all its slots: for a second key below 2^31, the pair just inserted is
-- found with its value, and every other answer is one that the cache gave before.
pub lookup-insert :
    (size : ℕ) (arr : List Slot) (a b : ℕ) (v : Bool) (a' b' : ℕ) (w : Bool)
    → 0 < size
    → length arr ≡ size
    → b < 2 ^ 31
    → (lookup size (insert size arr a b v) a b ≡ some v)
      × (lookup size (insert size arr a b v) a' b' ≡ some w
          → ((a' ≡ a) × (b' ≡ b) × (w ≡ v)) ⊎ (lookup size arr a' b' ≡ some w))
lookup-insert size arr a b v a' b' w h l k =
    (lookup-insert_self size arr a b v h l k, insert_other size arr a b v a' b' w h l k)
