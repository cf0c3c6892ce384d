-- ===== src/Heap.antt =====
-- template class HeapMap, tsan/ts_heap_info.h: the blocks of the heap by address, between two
-- sentinels. The std::map is the list of its entries in the order of their keys; addresses have
-- `w` bits. A failed CHECK is `none`.
pub mod Blocks
use data_race_test.Prelude.{
  ℕ, suc, ◌+◌, ◌-◌, ◌%◌, ◌^◌, ◌≤◌, ◌<◌, ◌≡◌, max, Bool, true, false, not, ◌&&◌, List, [], ◌∷◌,
  Option, none, some, if◌then◌else◌, ◌==◌, ltb,
}

-- A HeapInfo; its other fields are not used here.
pub record HeapInfo : Type 0 where
  pub ptr : ℕ
  pub size : ℕ

pub record Entry : Type 0 where
  pub key : ℕ
  pub info : HeapInfo

module _ (w : ℕ) where
  abbrev pub top : ℕ
  top = 2 ^ w - 1

  -- IsValidPtr
  unfoldable pub is_valid_ptr : ℕ → Bool
  is_valid_ptr a = not (a == 0) && not (a == top)

  -- Reset
  abbrev pub reset : List Entry
  reset =
      record { key = 0; info = record { ptr = 0; size = 0 } }
      ∷ record { key = top; info = record { ptr = top; size = 0 } }
      ∷ []

  -- map_[a] = info
  unfoldable pub assign : ℕ → HeapInfo → List Entry → List Entry
  assign a i [] = record { key = a; info = i } ∷ []
  assign a i (e ∷ es) =
      let rest = assign a i es in
      if ltb e.key a
      then e ∷ rest
      else if e.key == a
      then record { key = a; info = i } ∷ es
      else record { key = a; info = i } ∷ e ∷ es

  -- InsertInfo
  unfoldable pub insert_info : ℕ → HeapInfo → List Entry → Option (List Entry)
  insert_info a i es = if is_valid_ptr a && (i.ptr == a) then some (assign a i es) else none

  -- map_.erase(a)
  unfoldable pub erase : ℕ → List Entry → List Entry
  erase a [] = []
  erase a (e ∷ es) = let rest = erase a es in if e.key == a then es else e ∷ rest

  -- EraseInfo
  unfoldable pub erase_info : ℕ → List Entry → Option (List Entry)
  erase_info a es = if is_valid_ptr a then some (erase a es) else none

  -- EraseRange
  unfoldable pub erase_range : ℕ → ℕ → List Entry → Option (List Entry)
  erase_range start end es =
      if is_valid_ptr start && is_valid_ptr end then erase_info start es else none

  -- The test of GetInfo on the entry before the lower bound.
  unfoldable pub within : ℕ → Option HeapInfo → Option (Option HeapInfo)
  within a none = none
  within a (some i) =
      if ltb i.ptr a then some (if ltb a ((i.ptr + i.size) % 2 ^ w) then some i else none) else none

  -- GetInfo from an entry on, with the one before it: the loop of the lower bound, and its tests.
  unfoldable pub get_from : ℕ → Option HeapInfo → List Entry → Option (Option HeapInfo)
  get_from a prev [] = none
  get_from a prev (e ∷ es) =
      let rest = get_from a (some e.info) es in
      if ltb e.key a
      then rest
      else if e.info.ptr == a
      then some (some e.info)
      else if ltb a e.info.ptr
      then within a prev
      else none

  -- GetInfo; an inner `none` is NULL.
  unfoldable pub get_info : ℕ → List Entry → Option (Option HeapInfo)
  get_info a es = if is_valid_ptr a then get_from a none es else none
