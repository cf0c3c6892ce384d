-- ===== src/SegmentSets/Store.antt =====
-- class SegmentSet, tsan/thread_sanitizer.cc: the ids of segment sets, their reference counts and
-- the two queues of ids. An SSID is an integer: 0 is the empty set, a positive one the segment
-- itself, a negative one the place -raw - 1 of the vector. A failed CHECK or DCHECK is `none`.
use data_race_test.Prelude.{
  ℕ, zero, suc, Bool, true, false, ◌&&◌, ◌||◌, List, [], ◌∷◌, ◌++◌, Option, none, some,
  if◌then◌else◌, ◌==◌, ltb, length, get_elem?, get_or, leb, set, ℤ, pos, negsuc, eq_ℤ,
}
use data_race_test.Caches.Pair.{PairCache, Params}
use data_race_test.Caches.Pair
use data_race_test.Segments.{Segments}
use data_race_test.Segments
use data_race_test.SegmentSets.Tuple.{
  Scan, unchanged, changed, max_segment_set_size, add_to_tuple, remove_scan, happens_before,
  happens_before_or_same_thread, tid_of,
}

-- A SegmentSet object; the count of a recycled one is -1.
pub record Slot : Type 0 where
  pub sids : List ℕ
  pub ref_count : ℤ

-- The static members, with the table of segments that they refer to. `queue_size` is the flag
-- segment_set_recycle_queue_size. The front of a queue is the head of its list.
pub record SegmentSets : Type 0 where
  pub segments : Segments
  pub map : List (List ℕ × ℤ)
  pub vec : List Slot
  pub to_reuse : List ℤ
  pub to_recycle : List ℤ
  pub add_cache : PairCache ℤ
  pub remove_cache : PairCache ℤ
  pub queue_size : ℕ

-- SsidSidToSidCache
abbrev pub ss_params : Params ℤ
ss_params = record {
  htable_size = 1009;
  array_size = 1;
  zero_value = pos 0;
  ones_value = pos 0x01010101;
}

-- InitClassMembers
abbrev pub init_class_members : Segments → ℕ → SegmentSets
init_class_members g queue_size = record {
  segments = g;
  map = [];
  vec = [];
  to_reuse = [];
  to_recycle = [];
  add_cache = Pair.flush ss_params;
  remove_cache = Pair.flush ss_params;
  queue_size = queue_size;
}

-- FlushCaches
unfoldable pub flush_caches : SegmentSets → SegmentSets
flush_caches s = record s { add_cache = Pair.flush ss_params; remove_cache = Pair.flush ss_params }

-- ForgetAllState
unfoldable pub forget_all_state : SegmentSets → SegmentSets
forget_all_state s = flush_caches (record s { map = []; vec = []; to_reuse = []; to_recycle = [] })

-- SSEq
unfoldable pub same_sids : List ℕ → List ℕ → Bool
same_sids [] [] = true
same_sids [] (y ∷ ys) = false
same_sids (x ∷ xs) [] = false
same_sids (x ∷ xs) (y ∷ ys) = (x == y) && same_sids xs ys

-- GetIdOrZero; `none` is the zero.
unfoldable pub get_id : List ℕ → List (List ℕ × ℤ) → Option ℤ
get_id k [] = none
get_id k ((l, id) ∷ m) = if same_sids k l then some id else get_id k m

-- Map::Erase, without its CHECK.
unfoldable pub erase : List ℕ → List (List ℕ × ℤ) → List (List ℕ × ℤ)
erase k [] = []
erase k ((l, id) ∷ m) = let rest = erase k m in if same_sids k l then rest else (l, id) ∷ rest

-- Get: the place of the tuple and the object there.
unfoldable pub get : SegmentSets → ℤ → Option (ℕ × Slot)
get s (pos n) = none
get s (negsuc i) = elim (get_elem? s.vec i) [ none ↦ none | some x ↦ some (i, x) ]

abbrev pub put_slot : SegmentSets → ℕ → Slot → SegmentSets
put_slot s i x = record s { vec = set s.vec i x }

-- The loops over the segments of a tuple that change their counts.
unfoldable pub ref_all : List ℕ → Option Segments → Option Segments
ref_all sids none = none
ref_all [] (some g) = some g
ref_all (sid ∷ sids) (some g) = ref_all sids (Segments.ref g sid)

unfoldable pub unref_all : List ℕ → Option Segments → Option Segments
unref_all sids none = none
unref_all [] (some g) = some g
unref_all (sid ∷ sids) (some g) = unref_all sids (Segments.unref g sid)

-- The end of AllocateAndCopy: the object at place `i` holds the set.
unfoldable pub copy_to : SegmentSets → ℕ → List ℕ → Option Segments → Option (SegmentSets × ℤ)
copy_to s i sids none = none
copy_to s i sids (some g) = some (
  record s {
    segments = g;
    vec = set s.vec i (record { sids = sids; ref_count = pos 0 });
    map = (sids, negsuc i) ∷ s.map;
  },
  negsuc i,
)

-- The object for the new set: an id that waits for reuse, if there is one.
unfoldable pub reuse_or_create : SegmentSets → List ℤ → Option (SegmentSets × ℕ)
reuse_or_create s [] =
    some (record s { vec = s.vec ++ record { sids = []; ref_count = pos 0 } ∷ [] }, length s.vec)
reuse_or_create s (id ∷ rest) = elim (get s id) [
  | none ↦ none
  | some p ↦
      if eq_ℤ p.1.ref_count (negsuc 0) then some (record s { to_reuse = rest }, p.0) else none
]

abbrev pub copy_into : List ℕ → Option (SegmentSets × ℕ) → Option (SegmentSets × ℤ)
copy_into sids none = none
copy_into sids (some (s, i)) = copy_to s i sids (ref_all sids (some s.segments))

-- AllocateAndCopy
unfoldable pub allocate_and_copy : SegmentSets → List ℕ → Option (SegmentSets × ℤ)
allocate_and_copy s sids = copy_into sids (reuse_or_create s s.to_reuse)

-- FindExistingOrAlocateAndCopy
unfoldable pub find_existing_or_allocate : SegmentSets → List ℕ → Option (SegmentSets × ℤ)
find_existing_or_allocate s sids = elim (get_id sids s.map) [
  | some id ↦ some (s, id)
  | none ↦ allocate_and_copy s sids
]

-- DoubletonSSID
abbrev pub doubleton_ssid : SegmentSets → ℕ → ℕ → Option (SegmentSets × ℤ)
doubleton_ssid s sid1 sid2 = find_existing_or_allocate s (sid1 ∷ sid2 ∷ [])

-- The end of AddSegmentToTupleSS.
unfoldable pub intern_scan : SegmentSets → ℤ → ℕ → Scan → Option (SegmentSets × ℤ)
intern_scan s ssid new_sid unchanged = some (s, ssid)
intern_scan s ssid new_sid (changed []) = none
intern_scan s ssid new_sid (changed (sid ∷ [])) = some (s, pos new_sid)
intern_scan s ssid new_sid (changed (sid ∷ sid' ∷ sids)) =
    find_existing_or_allocate s (sid ∷ sid' ∷ sids)

-- AddSegmentToTupleSS
unfoldable pub add_segment_to_tuple_ss : SegmentSets → ℤ → ℕ → Option (SegmentSets × ℤ)
add_segment_to_tuple_ss s ssid new_sid = elim (get s ssid) [
  | none ↦ none
  | some p ↦ intern_scan s ssid new_sid (add_to_tuple s.segments p.1.sids new_sid)
]

-- The end of RemoveSegmentFromTupleSS.
unfoldable pub intern_rest : SegmentSets → ℤ → List ℕ → List ℕ → Option (SegmentSets × ℤ)
intern_rest s ssid old [] = some (s, if length old == 0 then ssid else pos 0)
intern_rest s ssid old (sid ∷ []) = some (s, if length old == 1 then ssid else pos sid)
intern_rest s ssid old (sid ∷ sid' ∷ sids) =
    if length (sid ∷ sid' ∷ sids) == length old
    then some (s, ssid)
    else find_existing_or_allocate s (sid ∷ sid' ∷ sids)

-- RemoveSegmentFromTupleSS
unfoldable pub remove_segment_from_tuple_ss : SegmentSets → ℤ → ℕ → Option (SegmentSets × ℤ)
remove_segment_from_tuple_ss s ssid sid = elim (get s ssid) [
  | none ↦ none
  | some p ↦ intern_rest s ssid p.1.sids (remove_scan s.segments sid p.1.sids)
]

abbrev pub remember_removed : ℤ → ℕ → Option (SegmentSets × ℤ) → Option (SegmentSets × ℤ)
remember_removed ssid sid none = none
remember_removed ssid sid (some (s, r)) =
    some (record s { remove_cache = Pair.insert ss_params s.remove_cache ssid sid r }, r)

unfoldable pub remove_uncached : SegmentSets → ℤ → ℕ → Option (SegmentSets × ℤ)
remove_uncached s (pos zero) sid = some (s, pos 0)
remove_uncached s (pos (suc x)) sid =
    some (s, if happens_before_or_same_thread s.segments (suc x) sid then pos 0 else pos (suc x))
remove_uncached s (negsuc i) sid = remove_segment_from_tuple_ss s (negsuc i) sid

-- RemoveSegmentFromSS
unfoldable pub remove_segment_from_ss : SegmentSets → ℤ → ℕ → Option (SegmentSets × ℤ)
remove_segment_from_ss s ssid sid = elim (Pair.lookup ss_params s.remove_cache ssid sid) [
  | some r ↦ some (s, r)
  | none ↦ remember_removed ssid sid (remove_uncached s ssid sid)
]

abbrev pub remember_added : ℤ → ℕ → Option (SegmentSets × ℤ) → Option (SegmentSets × ℤ)
remember_added ssid sid none = none
remember_added ssid sid (some (s, r)) =
    some (record s { add_cache = Pair.insert ss_params s.add_cache ssid sid r }, r)

-- The part of AddSegmentToSS after its early returns.
unfoldable pub add_uncached : SegmentSets → ℤ → ℕ → Option (SegmentSets × ℤ)
add_uncached s (pos old_sid) new_sid =
    if ltb (tid_of s.segments old_sid) (tid_of s.segments new_sid)
    then doubleton_ssid s old_sid new_sid
    else doubleton_ssid s new_sid old_sid
add_uncached s (negsuc i) new_sid = add_segment_to_tuple_ss s (negsuc i) new_sid

unfoldable pub add_cached : SegmentSets → ℤ → ℕ → Option (SegmentSets × ℤ)
add_cached s ssid sid = elim (Pair.lookup ss_params s.add_cache ssid sid) [
  | some r ↦ some (s, r)
  | none ↦ remember_added ssid sid (add_uncached s ssid sid)
]

-- AddSegmentToSS
unfoldable pub add_segment_to_ss : SegmentSets → ℤ → ℕ → Option (SegmentSets × ℤ)
add_segment_to_ss s (pos zero) new_sid = some (s, pos new_sid)
add_segment_to_ss s (pos (suc x)) new_sid =
    let replaced =
      (suc x == new_sid)
      || ((tid_of s.segments (suc x) == tid_of s.segments new_sid)
          || happens_before s.segments (suc x) new_sid) in
    if replaced then some (s, pos new_sid) else add_cached s (pos (suc x)) new_sid
add_segment_to_ss s (negsuc i) new_sid = add_cached s (negsuc i) new_sid

-- Size
unfoldable pub size : SegmentSets → ℤ → Option ℕ
size s (pos zero) = some 0
size s (pos (suc x)) = some 1
size s (negsuc i) = elim (get s (negsuc i)) [ none ↦ none | some p ↦ some (length p.1.sids) ]

-- The static GetSID; a tuple has zeros after its segments.
unfoldable pub get_sid : SegmentSets → ℤ → ℕ → Option ℕ
get_sid s (pos x) i = if i == 0 then some x else none
get_sid s (negsuc j) i = elim (get s (negsuc j)) [
  | none ↦ none
  | some p ↦
      if ltb i max_segment_set_size && leb i (length p.1.sids)
      then some (get_or p.1.sids i 0)
      else none
]

unfoldable pub has_sid : ℕ → List ℕ → Bool
has_sid sid [] = false
has_sid sid (x ∷ xs) = (x == sid) || has_sid sid xs

-- Contains
unfoldable pub contains : SegmentSets → ℤ → ℕ → Option Bool
contains s (pos zero) sid = some false
contains s (pos (suc x)) sid = some (suc x == sid)
contains s (negsuc i) sid = elim (get s (negsuc i)) [
  | none ↦ none
  | some p ↦ some (has_sid sid p.1.sids)
]
