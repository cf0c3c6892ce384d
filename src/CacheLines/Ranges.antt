-- ===== src/CacheLines/Ranges.antt =====
-- tsan/thread_sanitizer.cc, ComputeOffset, ComputeTag, ComputeNextTag and GetCacheLinesForRange on
-- 64-bit addresses: a line is 64 bytes.
use data_race_test.Prelude.{
  ℕ, ◌+◌, ◌-◌, ◌%◌, ◌<◌, ◌≤◌, ◌≡◌, refl, inl, inr, Option, none, some, if◌then◌else◌, ltb, arith,
  Bool-cases,
}

abbrev pub word_size : ℕ
word_size = 18446744073709551616

unfoldable pub compute_offset : ℕ → ℕ
compute_offset a = a % 64

-- a & ~63
unfoldable pub compute_tag : ℕ → ℕ
compute_tag a = a - a % 64

unfoldable pub compute_next_tag : ℕ → ℕ
compute_next_tag a = (compute_tag a + 64) % word_size

-- The tag of the one line, or 0 and the two tags at which the range is broken.
unfoldable pub get_cache_lines_for_range : ℕ → ℕ → ℕ × Option (ℕ × ℕ)
get_cache_lines_for_range a b =
    if ltb b (compute_next_tag a)
    then (compute_tag a, none)
    else (0, some (compute_next_tag a, compute_tag b))

-- The range lies in the line of the tag, or in an end of the first line, whole lines and a beginning of
-- the last line.
abbrev pub Broken : ℕ → ℕ → ℕ × Option (ℕ × ℕ) → Type 0
Broken a b (tag, none) = (tag ≡ compute_tag a) × ((tag % 64 ≡ 0) × ((tag ≤ a) × (b < tag + 64)))
Broken a b (tag, some (line1, line2)) =
    ((tag ≡ 0) × ((line1 ≡ compute_tag a + 64) × (line2 ≡ compute_tag b)))
    × ((line1 % 64 ≡ 0) × (line2 % 64 ≡ 0))
    × (((a < line1) × (line1 ≤ a + 64)) × ((line1 ≤ line2) × ((line2 ≤ b) × (b < line2 + 64))))

-- GetCacheLinesForRange, on a range whose begin is more than a line below the end of the address
-- space, answers the tag of the first line if the end of the range is before the end of that line,
-- and else, also where the range ends just with the line, 0 and the two multiples of the line size
-- that break it into at most a line, whole lines and less than a line: the end of the first line
-- and the beginning of the line of the end.
pub get_cache_lines_for_range-Broken :
    (a b : ℕ) → a ≤ b → a + 64 < word_size → Broken a b (get_cache_lines_for_range a b)
unfolding get_cache_lines_for_range compute_next_tag compute_tag
get_cache_lines_for_range-Broken a b h k = elim (Bool-cases (ltb b (compute_next_tag a))) [
  | inl c ↦ rw (get_cache_lines_for_range, c) (refl, (omega arith, (omega arith, ground arith)))
  | inr c ↦
      rw (get_cache_lines_for_range, c)
        (
          (refl, (ground arith, refl)),
          (ground arith, ground arith),
          ((ground arith, ground arith), (ground arith, (ground arith, ground arith))),
        )
]
