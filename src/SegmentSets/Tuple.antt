-- ===== src/SegmentSets/Tuple.antt =====
-- The two loops that compute a new tuple: AddSegmentToTupleSS and RemoveSegmentFromTupleSS of
-- tsan/thread_sanitizer.cc, with the order of segments that they use. A tuple is the list of its
-- ids, without the zeros at the end.
pub mod Kept
pub mod Alike
pub mod Forget
pub mod Result
pub mod Removal
use data_race_test.Prelude.{
  ℕ, suc, ◌+◌, ◌≤◌, Bool, true, false, not, ◌&&◌, ◌||◌, List, [], ◌∷◌, ◌++◌, Option, none, some,
  if◌then◌else◌, ◌==◌, ltb, leb, length, take, drop, eq_ℤ, ◌≡◌, ◌<◌, ◌⊎◌, inl, inr, refl,
}
use data_race_test.Multimap.{count}
use data_race_test.Segments.{Segments, Segment, Stamp}
use data_race_test.Vts

abbrev pub max_segment_set_size : ℕ
max_segment_set_size = 4

-- The stamp of a segment. The code asserts that the segment is alive; a dead one gets an empty
-- stamp here.
abbrev pub stamp_or_empty : Option Stamp → Stamp
stamp_or_empty none = record { uniq_id = 0; arr = [] }
stamp_or_empty (some v) = v

-- The raw TID of a segment, plus one, so that the invalid TID -1 is 0.
abbrev pub tid_key : Option ℕ → ℕ
tid_key none = 0
tid_key (some t) = suc t

module _ (s : Segments) where
  unfoldable pub vts_of : ℕ → Stamp
  vts_of sid = stamp_or_empty (s.all sid).vts

  unfoldable pub tid_of : ℕ → ℕ
  tid_of sid = tid_key (s.all sid).tid

  -- Segment::HappensBefore
  unfoldable pub happens_before : ℕ → ℕ → Bool
  happens_before a b = Vts.happens_before (vts_of a).arr (vts_of b).arr

  -- Segment::HappensBeforeOrSameThread
  unfoldable pub happens_before_or_same_thread : ℕ → ℕ → Bool
  happens_before_or_same_thread a b = a == b || (tid_of a == tid_of b || happens_before a b)

  -- The same stamp object and the same lock sets.
  unfoldable pub same_content : ℕ → ℕ → Bool
  same_content a b =
      ((vts_of a).uniq_id == (vts_of b).uniq_id)
      && (eq_ℤ (s.all a).wr_lsid (s.all b).wr_lsid && eq_ℤ (s.all a).rd_lsid (s.all b).rd_lsid)

-- The outcome of the loop: the early return of the old set, or the local tmp_sids.
pub data Scan : Type 0 where
  unchanged : Scan
  changed : List ℕ → Scan

pub Scan-cases : (r : Scan) → (r ≡ unchanged) ⊎ ((sids : List ℕ) × (r ≡ changed sids))
Scan-cases unchanged = inl refl
Scan-cases (changed sids) = inr (sids, refl)

abbrev pub put : List ℕ → Scan → Scan
put sids unchanged = unchanged
put sids (changed rest) = changed (sids ++ rest)

-- The older one of the segment at place `i` and the oldest one so far.
unfoldable pub older : ℕ → ℕ → Option (ℕ × ℕ) → Option (ℕ × ℕ)
older u i none = some (u, i)
older u i (some (v, j)) = if ltb u v then some (u, i) else some (v, j)

module _ (s : Segments) (new_sid : ℕ) where
  -- The loop over the old ids; `ins` is the flag inserted_new_sid.
  unfoldable pub add_scan : Bool → List ℕ → Scan
  add_scan ins [] = changed (if ins then [] else new_sid ∷ [])
  add_scan ins (sid ∷ sids) =
      let rest = add_scan (ins || leb (tid_of s new_sid) (tid_of s sid)) sids in
      let before = if ltb (tid_of s new_sid) (tid_of s sid) && not ins then new_sid ∷ [] else [] in
      let kept = if happens_before s sid new_sid then [] else sid ∷ [] in
      if sid == new_sid
      then unchanged
      else if tid_of s sid == tid_of s new_sid
      then (if same_content s sid new_sid then unchanged else put (new_sid ∷ []) rest)
      else put (before ++ kept) rest

  -- The loop that looks for the oldest segment: `best` is its stamp id and its place.
  unfoldable pub oldest : ℕ → Option (ℕ × ℕ) → List ℕ → Option (ℕ × ℕ)
  unfolding older
  oldest i best [] = best
  oldest i best (sid ∷ sids) =
      oldest (i + 1) (if sid == new_sid then best else older (vts_of s sid).uniq_id i best) sids

abbrev pub place : Option (ℕ × ℕ) → ℕ
place none = 0
place (some (u, i)) = i

-- The loop that closes the gap at the forgotten segment.
unfoldable pub erase_at : ℕ → List ℕ → List ℕ
erase_at i sids = take i sids ++ drop (suc i) sids

unfoldable pub forget_if_full : Segments → ℕ → List ℕ → List ℕ
forget_if_full s new_sid sids =
    if ltb max_segment_set_size (length sids)
    then erase_at (place (oldest s new_sid 0 none sids)) sids
    else sids

abbrev pub scan_map : (List ℕ → List ℕ) → Scan → Scan
scan_map f unchanged = unchanged
scan_map f (changed sids) = changed (f sids)

-- The ids of the new tuple of AddSegmentToTupleSS, before it is interned.
unfoldable pub add_to_tuple : Segments → List ℕ → ℕ → Scan
add_to_tuple s sids new_sid = scan_map (forget_if_full s new_sid) (add_scan s new_sid false sids)

-- The ids that RemoveSegmentFromTupleSS keeps.
unfoldable pub remove_scan : Segments → ℕ → List ℕ → List ℕ
remove_scan s sid_to_remove [] = []
remove_scan s sid_to_remove (sid ∷ sids) =
    let rest = remove_scan s sid_to_remove sids in
    if happens_before_or_same_thread s sid sid_to_remove then rest else sid ∷ rest
