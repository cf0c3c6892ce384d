-- ===== src/CacheLines/Accesses.antt =====
-- tsan/thread_sanitizer.cc, HandleAccessGranularityAndExecuteHelper: the granularity that an access
-- asks for, and the calls of HandleMemoryAccessHelper that it is made of. Offsets are within the word,
-- which an aligned access of 1, 2, 4 or 8 bytes does not leave; fast_path_only is false.
use data_race_test.Prelude.{
  ℕ, zero, suc, ◌+◌, ◌*◌, ◌/◌, ◌%◌, Bool, true, false, not, ◌&&◌, Option, none, some, List, [], ◌∷◌,
  if◌then◌else◌, ◌==◌, ltb,
}
use data_race_test.CacheLines.{
  Word, granularity_is_8, granularity_is_4, granularity_is_2, granularity_is_1, split_8_to_4,
  split_4_to_2, split_2_to_1, join_1_to_2, join_2_to_4, join_4_to_8,
}

unfoldable pub no_bits : List Bool → Bool
no_bits [] = true
no_bits (b ∷ gr) = not b && no_bits gr

-- The granularities 1, 3 << 1, 15 << 3 and 255 << 7.
abbrev pub all_8 : List Bool
all_8 =
    true ∷ false ∷ false ∷ false ∷ false ∷ false ∷ false ∷ false ∷ false ∷ false ∷ false ∷ false
    ∷ false ∷ false ∷ false ∷ []

abbrev pub all_4 : List Bool
all_4 =
    false ∷ true ∷ true ∷ false ∷ false ∷ false ∷ false ∷ false ∷ false ∷ false ∷ false ∷ false
    ∷ false ∷ false ∷ false ∷ []

abbrev pub all_2 : List Bool
all_2 =
    false ∷ false ∷ false ∷ true ∷ true ∷ true ∷ true ∷ false ∷ false ∷ false ∷ false ∷ false
    ∷ false ∷ false ∷ false ∷ []

abbrev pub all_1 : List Bool
all_1 =
    false ∷ false ∷ false ∷ false ∷ false ∷ false ∷ false ∷ true ∷ true ∷ true ∷ true ∷ true ∷ true
    ∷ true ∷ true ∷ []

-- A word with no granularity yet gets this one.
unfoldable pub start_gr : List Bool → Word → Word
start_gr gr w =
    if no_bits w.gr
    then record {
      gr = gr;
      has = w.has;
      published = w.published;
      vals = w.vals;
      counted = w.counted;
    }
    else w

unfoldable pub and_do : Option Word → (Word → Option Word) → Option Word
and_do none f = none
and_do (some w) f = f w

-- How the access goes on: by one call, or by the loop at slow_path.
pub data Route : Type 0 where
  one_call : Word → Route
  slow_path : Word → Route

-- CHECK(gr) at slow_path.
unfoldable pub slow : Option Word → Option Route
slow none = none
slow (some w) = if no_bits w.gr then none else some (slow_path w)

unfoldable pub prepare_8 : Word → Option Route
prepare_8 w =
    let v = start_gr all_8 w in
    if granularity_is_8 v.gr
    then some (one_call v)
    else slow (
        and_do
          (and_do
            (and_do
              (and_do (and_do (and_do (join_1_to_2 0 v) (join_1_to_2 1)) (join_1_to_2 2))
                (join_1_to_2 3))
              (join_2_to_4 0))
            (join_2_to_4 1))
          join_4_to_8)

unfoldable pub prepare_4 : ℕ → Word → Option Route
prepare_4 half w =
    let v = start_gr all_4 w in
    if granularity_is_4 v.gr half
    then some (one_call v)
    else slow (
        and_do
          (and_do (and_do (split_8_to_4 v) (join_1_to_2 (2 * half))) (join_1_to_2 (2 * half + 1)))
          (join_2_to_4 half))

unfoldable pub prepare_2 : ℕ → Word → Option Route
prepare_2 quarter w =
    let v = start_gr all_2 w in
    if granularity_is_2 v.gr quarter
    then some (one_call v)
    else slow (and_do (and_do (split_8_to_4 v) (split_4_to_2 (quarter / 2))) (join_1_to_2 quarter))

unfoldable pub prepare_1 : ℕ → Word → Option Route
prepare_1 off w =
    let v = start_gr all_1 w in
    if granularity_is_1 v.gr off
    then some (one_call v)
    else slow (and_do (and_do (split_8_to_4 v) (split_4_to_2 (off / 4))) (split_2_to_1 (off / 2)))

-- The choice by size and alignment; none for the accesses that are made byte by byte.
unfoldable pub prepare : ℕ → ℕ → Word → Option Route
prepare size off w =
    if (size == 8) && (off % 8 == 0)
    then prepare_8 w
    else if (size == 4) && (off % 4 == 0)
    then prepare_4 (off / 4) w
    else if (size == 2) && (off % 2 == 0)
    then prepare_2 (off / 2) w
    else if size == 1
    then prepare_1 off w
    else none

-- How many bytes the loop at slow_path accesses at `off`.
unfoldable pub step_size : List Bool → ℕ → ℕ
step_size gr off =
    if granularity_is_8 gr
    then 8
    else if granularity_is_4 gr (off / 4)
    then 4
    else if granularity_is_2 gr (off / 2)
    then 2
    else 1

-- The accesses of the loop, from `x` on up to `b`; one round for each byte is enough.
unfoldable pub access_loop : ℕ → List Bool → ℕ → ℕ → Option (List (ℕ × ℕ))
access_loop zero gr x b = if ltb x b then none else some []
access_loop (suc f) gr x b =
    let rest = access_loop f gr (x + step_size gr x) b in
    if ltb x b then elim rest [ none ↦ none | some l ↦ some ((x, step_size gr x) ∷ l) ] else some []

-- The accesses of `size` bytes at `off`.
unfoldable pub accesses : Route → ℕ → ℕ → Option (List (ℕ × ℕ))
accesses (one_call w) off size = some ((off, size) ∷ [])
accesses (slow_path w) off size = access_loop size w.gr off (off + size)

-- A byte of an access of another size or alignment.
unfoldable pub prepare_byte : ℕ → Word → Option Word
prepare_byte off w =
    and_do (and_do (split_8_to_4 (start_gr all_8 w)) (split_4_to_2 (off / 4)))
      (split_2_to_1 (off / 2))
