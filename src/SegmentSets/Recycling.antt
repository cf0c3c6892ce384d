-- ===== src/SegmentSets/Recycling.antt =====
-- Ref, Unref and the recycling of segment sets: class SegmentSet, tsan/thread_sanitizer.cc.
use data_race_test.Prelude.{
  ℕ, zero, suc, ◌*◌, List, [], ◌∷◌, ◌++◌, Option, none, some, if◌then◌else◌, ltb, length, ℤ, pos,
  negsuc, eq_ℤ,
}
use data_race_test.Segments.{Segments}
use data_race_test.Segments
use data_race_test.SegmentSets.Store.{
  SegmentSets, Slot, get, put_slot, get_id, unref_all, erase, flush_caches,
}

abbrev pub with_segments : SegmentSets → Option Segments → Option SegmentSets
with_segments s none = none
with_segments s (some g) = some (record s { segments = g })

unfoldable pub ref_slot : SegmentSets → Option (ℕ × Slot) → Option SegmentSets
ref_slot s none = none
ref_slot s (some (i, x)) = elim x.ref_count [
  | pos n ↦ some (put_slot s i (record x { ref_count = pos (suc n) }))
  | negsuc n ↦ none
]

-- Ref
unfoldable pub ref : SegmentSets → ℤ → Option SegmentSets
ref s (pos sid) = with_segments s (Segments.ref s.segments sid)
ref s (negsuc i) = ref_slot s (get s (negsuc i))

abbrev pub after_recycle : SegmentSets → ℤ → ℕ → List ℕ → Option Segments → Option SegmentSets
after_recycle s ssid i sids none = none
after_recycle s ssid i sids (some g) =
    some (record (put_slot s i (record { sids = sids; ref_count = negsuc 0 })) {
      segments = g;
      map = erase sids s.map;
      to_reuse = s.to_reuse ++ ssid ∷ [];
    })

-- RecycleOneSegmentSet, if the set has no reference; its last CHECK is that the map has the set.
unfoldable pub recycle_if_unused : SegmentSets → ℤ → Option (ℕ × Slot) → Option SegmentSets
recycle_if_unused s ssid none = none
recycle_if_unused s ssid (some (i, x)) =
    if eq_ℤ x.ref_count (pos 0)
    then elim (get_id x.sids s.map) [
      | none ↦ none
      | some _ ↦ after_recycle s ssid i x.sids (unref_all x.sids (some s.segments))
    ]
    else some s

-- The loop of FlushRecycleQueue.
unfoldable pub recycle_loop : List ℤ → Option SegmentSets → Option SegmentSets
recycle_loop queue none = none
recycle_loop [] (some s) = some (record s { to_recycle = [] })
recycle_loop (ssid ∷ queue) (some s) =
    if ltb s.queue_size (length (ssid ∷ queue))
    then recycle_loop queue (recycle_if_unused s ssid (get s ssid))
    else some (record s { to_recycle = ssid ∷ queue })

abbrev pub flush_after : Option SegmentSets → Option SegmentSets
flush_after none = none
flush_after (some s) = some (flush_caches s)

-- FlushRecycleQueue
unfoldable pub flush_recycle_queue : SegmentSets → Option SegmentSets
flush_recycle_queue s = flush_after (recycle_loop s.to_recycle (some s))

-- The end of Unref, when the last reference is gone.
unfoldable pub enqueue : SegmentSets → ℤ → Option SegmentSets
enqueue s ssid =
    let queue = s.to_recycle ++ ssid ∷ [] in
    let next = record s { to_recycle = queue } in
    if ltb (2 * s.queue_size) (length queue) then flush_recycle_queue next else some next

unfoldable pub unref_slot : SegmentSets → ℤ → Option (ℕ × Slot) → Option SegmentSets
unref_slot s ssid none = none
unref_slot s ssid (some (i, x)) = elim x.ref_count [
  | pos zero ↦ none
  | pos (suc zero) ↦ enqueue (put_slot s i (record x { ref_count = pos 0 })) ssid
  | pos (suc (suc n)) ↦ some (put_slot s i (record x { ref_count = pos (suc n) }))
  | negsuc n ↦ none
]

-- Unref
unfoldable pub unref : SegmentSets → ℤ → Option SegmentSets
unref s (pos sid) = with_segments s (Segments.unref s.segments sid)
unref s (negsuc i) = unref_slot s (negsuc i) (get s (negsuc i))
