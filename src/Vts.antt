-- ===== src/Vts.antt =====
-- Vector time stamps: class VTS of tsan/thread_sanitizer.cc. The array of a VTS is a list of
-- (tid, clk) entries; reference counts and the unique id are modelled by the callers.
pub mod Order
pub mod Lattice
pub mod Tick
pub mod Cached
use data_race_test.Prelude.{
  ℕ, suc, ◌+◌, ◌≤◌, ◌<◌, compare, Ordering, Bool, true, false, ◌||◌, List, [], ◌∷◌, Option, none,
  some, if◌then◌else◌, ◌==◌, ltb, leb,
}

pub record Ts : Type 0 where
  pub tid : ℕ
  pub clk : ℕ

unfoldable pub create_singleton : ℕ → ℕ → List Ts
create_singleton t c = record { tid = t; clk = c } ∷ []

-- The loop of `clk`: the first entry of the thread, or 0.
unfoldable pub clk : ℕ → List Ts → ℕ
clk t [] = 0
clk t (x ∷ xs) = if x.tid == t then x.clk else clk t xs

-- The loop of `CopyAndTick`: every entry of the thread is incremented.
unfoldable pub tick_all : ℕ → List Ts → List Ts
tick_all t [] = []
tick_all t (x ∷ xs) = (if x.tid == t then record x { clk = x.clk + 1 } else x) ∷ tick_all t xs

-- The local `found` of `CopyAndTick`.
unfoldable pub found : ℕ → List Ts → Bool
found t [] = false
found t (x ∷ xs) = (x.tid == t) || found t xs

-- `none` is the failed CHECK(found).
unfoldable pub copy_and_tick : List Ts → ℕ → Option (List Ts)
copy_and_tick xs t = if found t xs then some (tick_all t xs) else none

-- The three loops of `Join`.
unfoldable pub join : List Ts → List Ts → List Ts
join [] ys = ys
join (x ∷ xs) [] = x ∷ xs
join (x ∷ xs) (y ∷ ys) = elim (compare x.tid y.tid) [
  | Ordering.lt ↦ x ∷ join xs (y ∷ ys)
  | Ordering.gt ↦ y ∷ join (x ∷ xs) ys
  | Ordering.eq ↦ (if leb y.clk x.clk then x else y) ∷ join xs ys
]

-- The loop of `HappensBefore`; `less` is its flag a_less_than_b.
unfoldable pub hb_loop : Bool → List Ts → List Ts → Bool
hb_loop less [] [] = less
hb_loop less [] (y ∷ ys) = true
hb_loop less (x ∷ xs) [] = false
hb_loop less (x ∷ xs) (y ∷ ys) = elim (compare x.tid y.tid) [
  | Ordering.lt ↦ false
  | Ordering.gt ↦ hb_loop true (x ∷ xs) ys
  | Ordering.eq ↦ elim (ltb y.clk x.clk) [
    | true ↦ false
    | false ↦ hb_loop (less || ltb x.clk y.clk) xs ys
  ]
]

unfoldable pub happens_before : List Ts → List Ts → Bool
happens_before = hb_loop false

-- Entries in increasing order of thread, from `lo` on, with clocks of at least 1.
abbrev pub IsVtsFrom : ℕ → List Ts → Type 0
IsVtsFrom lo [] = Unit
IsVtsFrom lo (x ∷ xs) = (lo ≤ x.tid) × (0 < x.clk) × IsVtsFrom (suc x.tid) xs

abbrev pub IsVts : List Ts → Type 0
IsVts = IsVtsFrom 0
