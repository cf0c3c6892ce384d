-- ===== src/Witnesses/Memory.antt =====
-- Blocks of the heap, and the history of the locks of two threads.
use data_race_test.Prelude.{ℕ, ◌≡◌, ◌↔◌, ◌⊎◌, true, false, List, [], ◌∷◌, Option, some, arith}
use data_race_test.Heap.{HeapInfo, Entry, insert_info, get_info}
use data_race_test.Heap.Blocks.{
  IsHeap, IsAnswer, Has, Apart, Covers, get_info-IsAnswer, get_info-insert_info,
}
use data_race_test.History.{Element, LockHistory, mem, intersect}
use data_race_test.History.Common.{IsCommon, intersect_lem}

abbrev one_block : List Entry
one_block =
    record { key = 0; info = record { ptr = 0; size = 0 } }
    ∷ record { key = 100; info = record { ptr = 100; size = 50 } }
    ∷ record { key = 65535; info = record { ptr = 65535; size = 0 } }
    ∷ []

one_block-IsHeap : IsHeap 16 one_block
one_block-IsHeap = ground arith

get_info-IsAnswer_example :
    (o : Option HeapInfo) × (get_info 16 120 one_block ≡ some o)
    × IsAnswer 120 (λ i. Has i one_block) o
get_info-IsAnswer_example =
    get_info-IsAnswer 16 120 one_block one_block-IsHeap (ground arith) (ground arith)

abbrev next_block : HeapInfo
next_block = record { ptr = 150; size = 10 }

next_block-Apart : (j : HeapInfo) → Has j one_block → Apart next_block j
next_block-Apart j h = ground arith

get_info-insert_info_example :
    (es : List Entry) × (insert_info 16 150 next_block one_block ≡ some es)
    × IsHeap 16 es
    × ((a : ℕ) → Covers next_block a → get_info 16 a es ≡ some (some next_block))
get_info-insert_info_example =
    get_info-insert_info 16 next_block one_block one_block-IsHeap (ground arith) (ground arith)
      (ground arith) next_block-Apart

abbrev three_events : List Element
three_events =
    record { lid = 4; lock_era = 3 }
    ∷ record { lid = 9; lock_era = 2 }
    ∷ record { lid = 4; lock_era = 1 }
    ∷ []

abbrev history : LockHistory
history = record { locks = three_events; unlocks = three_events; size = 3 }

intersect_lem_example :
    ((x : ℕ)
      → (mem x (intersect (λ _. false) history history 2 []).0 ≡ true)
        ↔ (IsCommon (λ _. false) 2 x three_events three_events ⊎ (mem x [] ≡ true)))
    × (((intersect (λ _. false) history history 2 []).1 ≡ true)
        ↔ ((x : ℕ) × (mem x (intersect (λ _. false) history history 2 []).0 ≡ true)))
intersect_lem_example = intersect_lem (λ _. false) history history 2 []
