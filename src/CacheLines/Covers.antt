-- ===== src/CacheLines/Covers.antt =====
-- The granularities of a word that occur: the word, or its halves, each whole or in quarters, each of
-- these whole or in bytes. Every byte has one place in vals_ where its shadow value is.
use data_race_test.Prelude.{
  ℕ, zero, suc, ◌+◌, ◌*◌, ◌<◌, ◌≢◌, ◌≡◌, refl, Bool, true, false, not, Option, none, some, List, [],
  ◌∷◌, if◌then◌else◌, ltb, arith,
}
use data_race_test.Shadow.{ShadowValue}
use data_race_test.CacheLines.{Word}

pub data Quarter : Type 0 where
  whole_quarter : Quarter
  bytes : Quarter

pub data Half : Type 0 where
  whole_half : Half
  quarters : Quarter → Quarter → Half

pub data Cover : Type 0 where
  whole_word : Cover
  halves : Half → Half → Cover

abbrev pub is_quarter : Quarter → Bool
is_quarter whole_quarter = true
is_quarter bytes = false

abbrev pub is_half : Half → Bool
is_half whole_half = true
is_half (quarters p q) = false

abbrev pub first : Half → Bool
first whole_half = false
first (quarters p q) = is_quarter p

abbrev pub second : Half → Bool
second whole_half = false
second (quarters p q) = is_quarter q

abbrev pub first_bytes : Half → Bool
first_bytes whole_half = false
first_bytes (quarters p q) = not (is_quarter p)

abbrev pub second_bytes : Half → Bool
second_bytes whole_half = false
second_bytes (quarters p q) = not (is_quarter q)

abbrev pub bits : Cover → List Bool
bits whole_word =
    true ∷ false ∷ false ∷ false ∷ false ∷ false ∷ false ∷ false ∷ false ∷ false ∷ false ∷ false
    ∷ false ∷ false ∷ false ∷ []
bits (halves a b) =
    false
    ∷ is_half a
    ∷ is_half b
    ∷ first a
    ∷ second a
    ∷ first b
    ∷ second b
    ∷ first_bytes a
    ∷ first_bytes a
    ∷ second_bytes a
    ∷ second_bytes a
    ∷ first_bytes b
    ∷ first_bytes b
    ∷ second_bytes b
    ∷ second_bytes b
    ∷ []

abbrev pub slot_in_quarter : Quarter → ℕ → ℕ → ℕ
slot_in_quarter whole_quarter base off = base
slot_in_quarter bytes base off = off

abbrev pub slot_in_half : Half → ℕ → ℕ → ℕ
slot_in_half whole_half base off = base
slot_in_half (quarters p q) base off =
    if ltb off (base + 2) then slot_in_quarter p base off else slot_in_quarter q (base + 2) off

-- Where the shadow value of byte `off` is.
abbrev pub slot : Cover → ℕ → ℕ
slot whole_word off = 0
slot (halves a b) off = if ltb off 4 then slot_in_half a 0 off else slot_in_half b 4 off

-- The shadow value of a byte, if it has one.
abbrev pub view : Cover → Word → ℕ → Option ShadowValue
view c w off = if w.has (slot c off) then some (w.vals (slot c off)) else none

-- The word has the granularity of the cover, and values only where a byte's value can be.
pub record IsWord (c : Cover) (w : Word) : Type 0 where
  pub bits : w.gr ≡ bits c
  pub only : (off : ℕ) → off < 8 → w.has off ≡ true → slot c off ≡ off

-- The word is well formed at the new cover, every byte has the value it had, and where a place of
-- its own began one begins still, but for `lost`.
pub record Same (c : Cover) (w : Word) (lost : ℕ) (d : Cover) (v : Word) : Type 0 where
  pub word : IsWord d v
  pub values : (off : ℕ) → off < 8 → view d v off ≡ view c w off
  pub starts : (off : ℕ) → off < 8 → slot c off ≡ off → off ≢ lost → slot d off ≡ off

-- The operation fails no CHECK, changes no byte's value and comes to a cover with the property.
abbrev pub Keeps : Cover → Word → ℕ → (Cover → Type 0) → Option Word → Type 0
Keeps c w lost P o = (v : Word) × (d : Cover) × (o ≡ some v) × (Same c w lost d v × P d)

-- What a split opens: the second half, the second quarter of a half, the second byte of a quarter.
abbrev pub Opens4 : Cover → Type 0
Opens4 d = slot d 4 ≡ 4

abbrev pub Opens2 : Cover → ℕ → Cover → Type 0
Opens2 c half d = slot c 4 ≡ 4 → slot d (4 * half + 2) ≡ 4 * half + 2

abbrev pub Opens1 : Cover → ℕ → ℕ → Cover → Type 0
Opens1 c half quarter d =
    slot c (4 * half + 2) ≡ 4 * half + 2 → slot d (2 * quarter + 1) ≡ 2 * quarter + 1

abbrev pub OpensNone : Cover → Type 0
OpensNone d = Unit

pub below_8 {ℓ} :
    (P : ℕ → Type ℓ) → P 0 → P 1 → P 2 → P 3 → P 4 → P 5 → P 6 → P 7 → (n : ℕ) → n < 8 → P n
below_8 P a b c d e f g h zero q = a
below_8 P a b c d e f g h (suc zero) q = b
below_8 P a b c d e f g h (suc (suc zero)) q = c
below_8 P a b c d e f g h (suc (suc (suc zero))) q = d
below_8 P a b c d e f g h (suc (suc (suc (suc zero)))) q = e
below_8 P a b c d e f g h (suc (suc (suc (suc (suc zero))))) q = f
below_8 P a b c d e f g h (suc (suc (suc (suc (suc (suc zero)))))) q = g
below_8 P a b c d e f g h (suc (suc (suc (suc (suc (suc (suc zero))))))) q = h
below_8 P a b c d e f g h (suc (suc (suc (suc (suc (suc (suc (suc n)))))))) q = absurd (omega arith)

pub Same-word : (c : Cover) (w : Word) (lost : ℕ) → IsWord c w → Same c w lost c w
Same-word c w lost h = record { word = h; values = λ off q. refl; starts = λ off q e n. e }
