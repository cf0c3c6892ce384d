-- ===== src/CacheLines.antt =====
-- class CacheLine, tsan/thread_sanitizer.cc: the shadow values of eight bytes and their granularity.
-- The masks, granularity_ and vals_ are kept word by word: a word has the part of each that is about
-- eight bytes, and an offset is the one within the word. A 16-bit granularity is the list of its bits
-- 0 to 14; bit 15 is never set.
pub mod Covers
pub mod Splits
pub mod Joins
pub mod Accesses
pub mod Tiling
pub mod Ready
pub mod Prepared
pub mod Ranges
use data_race_test.Prelude.{
  ℕ, zero, suc, ◌+◌, ◌*◌, ◌/◌, ◌%◌, Bool, true, false, not, ◌&&◌, ◌||◌, Option, none, some, List,
  [], ◌∷◌, ◌++◌, if◌then◌else◌, get_or, set, update, ltb,
}
use data_race_test.Shadow.{ShadowValue, new_value, same_value}

-- What Ref and Unref of a shadow value are called on; they count references to its segment sets.
pub data Counting : Type 0 where
  ref : ShadowValue → Counting
  unref : ShadowValue → Counting

pub record Word : Type 0 where
  pub gr : List Bool
  pub has : ℕ → Bool
  pub published : ℕ → Bool
  pub vals : ℕ → ShadowValue
  pub counted : List Counting

abbrev pub granularity_is_8 : List Bool → Bool
granularity_is_8 gr = get_or gr 0 false

-- GranularityIs4, GranularityIs2 and GranularityIs1 at the half, the quarter and the byte of the offset.
abbrev pub granularity_is_4 : List Bool → ℕ → Bool
granularity_is_4 gr half = get_or gr (1 + half) false

abbrev pub granularity_is_2 : List Bool → ℕ → Bool
granularity_is_2 gr quarter = get_or gr (3 + quarter) false

abbrev pub granularity_is_1 : List Bool → ℕ → Bool
granularity_is_1 gr off = get_or gr (7 + off) false

-- AddNewSvalAtOffset and the assignment to the value it returns; none where its CHECK fails.
unfoldable pub add_new_sval : ℕ → ShadowValue → Word → Option Word
add_new_sval off sval w =
    if w.has off
    then none
    else some (record {
      gr = w.gr;
      has = update w.has off true;
      published = update w.published off false;
      vals = update w.vals off sval;
      counted = w.counted;
    })

unfoldable pub with_gr : List Bool → Option Word → Option Word
with_gr gr none = none
with_gr gr (some w) =
    some
      (record { gr = gr; has = w.has; published = w.published; vals = w.vals; counted = w.counted })

-- The value at `from`, if there is one, is counted once more and copied to `to`.
unfoldable pub copy_sval : ℕ → ℕ → Word → Option Word
copy_sval from to w =
    if w.has from
    then add_new_sval to (w.vals from) (record {
      gr = w.gr;
      has = w.has;
      published = w.published;
      vals = w.vals;
      counted = w.counted ++ (ref (w.vals from) ∷ []);
    })
    else some w

unfoldable pub split_8_to_4 : Word → Option Word
split_8_to_4 w =
    if granularity_is_8 w.gr
    then with_gr
        (false ∷ true ∷ true ∷ false ∷ false ∷ false ∷ false ∷ false ∷ false ∷ false ∷ false ∷ false
          ∷ false ∷ false ∷ false ∷ [])
        (copy_sval 0 4 w)
    else some w

-- `half` is (off >> 2) & 1.
unfoldable pub split_4_to_2 : ℕ → Word → Option Word
split_4_to_2 half w =
    if granularity_is_4 w.gr half
    then with_gr (set (set (set w.gr (1 + half) false) (3 + 2 * half) true) (4 + 2 * half) true)
        (copy_sval (4 * half) (4 * half + 2) w)
    else some w

-- `quarter` is (off >> 1) & 3.
unfoldable pub split_2_to_1 : ℕ → Word → Option Word
split_2_to_1 quarter w =
    if granularity_is_2 w.gr quarter
    then with_gr
        (set (set (set w.gr (3 + quarter) false) (7 + 2 * quarter) true) (8 + 2 * quarter) true)
        (copy_sval (2 * quarter) (2 * quarter + 1) w)
    else some w

-- The value at `off` and its equal at `other`: the second is given up.
unfoldable pub merge_svals : List Bool → ℕ → ℕ → Word → Word
merge_svals gr off other w =
    if (w.has off && w.has other) && same_value (w.vals off) (w.vals other)
    then record {
      gr = gr;
      has = update w.has other false;
      published = w.published;
      vals = update w.vals other new_value;
      counted = w.counted ++ (unref (w.vals other) ∷ []);
    }
    else w

unfoldable pub join_1_to_2 : ℕ → Word → Option Word
join_1_to_2 quarter w =
    if granularity_is_1 w.gr (2 * quarter)
    then if granularity_is_1 w.gr (2 * quarter + 1)
      then some (
          merge_svals
            (set (set (set w.gr (7 + 2 * quarter) false) (8 + 2 * quarter) false) (3 + quarter)
              true)
            (2 * quarter) (2 * quarter + 1) w)
      else none
    else some w

unfoldable pub join_2_to_4 : ℕ → Word → Option Word
join_2_to_4 half w = some (
    if granularity_is_2 w.gr (2 * half) && granularity_is_2 w.gr (2 * half + 1)
    then merge_svals
        (set (set (set w.gr (3 + 2 * half) false) (4 + 2 * half) false) (1 + half) true) (4 * half)
        (4 * half + 2) w
    else w)

unfoldable pub join_4_to_8 : Word → Option Word
join_4_to_8 w = some (
    if granularity_is_4 w.gr 0 && granularity_is_4 w.gr 1
    then merge_svals
        (true ∷ false ∷ false ∷ false ∷ false ∷ false ∷ false ∷ false ∷ false ∷ false ∷ false
          ∷ false ∷ false ∷ false ∷ false ∷ [])
        0 4 w
    else w)
