-- ===== src/SegmentSets/Extended.antt =====
-- AddSegmentToTupleSS and RemoveSegmentFromTupleSS as a whole: the new tuple and its id.
use data_race_test.Prelude.{
  ℕ, zero, suc, ◌+◌, ◌≤◌, ◌<◌, ◌≡◌, ◌⊎◌, inl, inr, refl, false, List, [], ◌∷◌, Option, some,
  if◌then◌else◌, ◌==◌, length, arith, ==_iff, Bool-cases, ℤ, pos, negsuc,
}
use data_race_test.Multimap.{count}
use data_race_test.Segments.{Segments, set_segment, alive, get_internal}
use data_race_test.Segments
use data_race_test.Segments.Counts.{IsLive}
use data_race_test.SegmentSets.Tuple.{
  Scan-cases, unchanged, changed, add_to_tuple, happens_before, happens_before_or_same_thread,
  remove_scan,
}
use data_race_test.SegmentSets.Tuple.Result.{IsTuple, IsExtended, add_to_tuple-IsExtended}
use data_race_test.SegmentSets.Tuple.Removal.{remove_scan-IsTuple}
use data_race_test.SegmentSets.Store.{
  SegmentSets, get, ref_all, intern_scan, add_segment_to_tuple_ss, intern_rest,
  remove_segment_from_tuple_ss,
}
use data_race_test.SegmentSets.Interned.{IsValid, IsLiveAt, find_existing_or_allocate-IsInterned}
use data_race_test.SegmentSets.Tuple.Alike.{Knows, ScanKnows, add_to_tuple-Knows}

abbrev pub AllLive : Segments → List ℕ → Type 0
AllLive g sids = (sid : ℕ) → 0 < count sid sids → IsLive g sid

module _ (g : Segments) (sid : ℕ) (h : g.n_segments ≤ g.max_sid) (l : IsLive g sid) where
  abbrev counted_up : Segments
  counted_up = set_segment g sid (record (g.all sid) { ref_count = (g.all sid).ref_count + 1 })

  ref_eq : Segments.ref g sid ≡ some counted_up
  unfolding Segments.ref get_internal
  ref_eq = ground (arith, h)

  still-IsLive : (j : ℕ) → IsLive g j → IsLive counted_up j
  unfolding alive
  still-IsLive j k = ground arith

-- Live segments can be referenced, one after the other.
ref_all-live :
    (sids : List ℕ) (g : Segments)
    → g.n_segments ≤ g.max_sid
    → AllLive g sids
    → (g' : Segments) × (ref_all sids (some g) ≡ some g')
unfolding ref_all
ref_all-live [] g h l = (g, refl)
ref_all-live (sid ∷ sids) g h l =
    let k = l sid (ground arith) in
    let (g', e) =
      ref_all-live sids (counted_up g sid h k) h
        (λ j c. still-IsLive g sid h k j (l j (ground arith))) in
    (g', rw (ref_all, ref_eq g sid h k) e)

-- What an id stands for: nothing, a segment, or a tuple in use.
abbrev pub Denotes : SegmentSets → ℤ → List ℕ → Type 0
Denotes s (pos zero) t = t ≡ []
Denotes s (pos (suc x)) t = t ≡ suc x ∷ []
Denotes s (negsuc i) t = IsLiveAt s.vec i t

Denotes-single : (s : SegmentSets) (x : ℕ) → 0 < x → Denotes s (pos x) (x ∷ [])
Denotes-single s zero p = absurd (omega arith)
Denotes-single s (suc x) p = refl

intern_many :
    (s : SegmentSets) (x y new_sid : ℕ) (ys : List ℕ) (ssid : ℤ)
    → IsValid s
    → s.segments.n_segments ≤ s.segments.max_sid
    → AllLive s.segments (x ∷ y ∷ ys)
    → (s' : SegmentSets) × (r : ℤ) × (intern_scan s ssid new_sid (changed (x ∷ y ∷ ys))
        ≡ some (s', r))
      × IsValid s'
      × Denotes s' r (x ∷ y ∷ ys)
unfolding intern_scan
intern_many s x y new_sid ys ssid h b l =
    let (g, e) = ref_all-live (x ∷ y ∷ ys) s.segments b l in
    let (s', r, f, w) = find_existing_or_allocate-IsInterned s (x ∷ y ∷ ys) g h e in
    let (i, p, v) = w.meaning in (s', negsuc i, rw (← p) f, w.valid, v)

-- The result of the loop gets an id.
intern_scan_lem :
    (s : SegmentSets) (new_sid : ℕ) (t : List ℕ) (ssid : ℤ)
    → IsValid s
    → s.segments.n_segments ≤ s.segments.max_sid
    → AllLive s.segments t
    → count new_sid t ≡ 1
    → (s' : SegmentSets) × (r : ℤ) × (intern_scan s ssid new_sid (changed t) ≡ some (s', r))
      × IsValid s'
      × Denotes s' r t
unfolding intern_scan
intern_scan_lem s new_sid [] ssid h b l c = absurd (ground arith)
intern_scan_lem s new_sid (x ∷ []) ssid h b l c =
    let e : x ≡ new_sid = ground arith in
    (s, pos new_sid, refl, h, rw e (Denotes-single s new_sid (rw (← e) (l x (ground arith)).0)))
intern_scan_lem s new_sid (x ∷ y ∷ ys) ssid h b l c = intern_many s x y new_sid ys ssid h b l

-- The outcome of AddSegmentToTupleSS: the old id in the old store, or an id for the new tuple.
abbrev pub Adds : SegmentSets → ℤ → List ℕ → ℕ → Option (SegmentSets × ℤ) → Type 0
Adds s ssid sids new_sid o =
    (s' : SegmentSets) × (r : ℤ) × (o ≡ some (s', r))
    × IsValid s'
    × ((Knows s.segments new_sid sids × ((r ≡ ssid) × (s' ≡ s)))
        ⊎ ((Knows s.segments new_sid sids → ⊥)
            × ((t : List ℕ) × Denotes s' r t × IsExtended s.segments new_sid sids t)))

module _ (s : SegmentSets) (i : ℕ) (sids : List ℕ) (new_sid : ℕ) (h : IsValid s)
    (b : s.segments.n_segments ≤ s.segments.max_sid) (here : IsLiveAt s.vec i sids)
    (tuple : IsTuple s.segments sids)
    (later : (x : ℕ) → 0 < count x sids → happens_before s.segments new_sid x ≡ false)
    (live : AllLive s.segments sids) (new_live : IsLive s.segments new_sid) where
  live_after : (t : List ℕ) → IsExtended s.segments new_sid sids t → AllLive s.segments t
  live_after t w x c = elim (Bool-cases (x == new_sid)) [
    | inl e ↦ rw ((==_iff x new_sid).0 e) new_live
    | inr e ↦ live x (w.only x c (λ q. ground arith)).0
  ]

  added :
      Adds s
        (negsuc i)
        sids
        new_sid
        (intern_scan s (negsuc i) new_sid (add_to_tuple s.segments sids new_sid))
  unfolding intern_scan
  added = elim (Scan-cases (add_to_tuple s.segments sids new_sid)) [
    | inl e ↦
        let k : ScanKnows s.segments new_sid sids unchanged =
          rw e at (add_to_tuple-Knows s.segments new_sid sids) in
        rw e (s, negsuc i, refl, h, inl (k, (refl, refl)))
    | inr (t, e) ↦
        let w = add_to_tuple-IsExtended s.segments new_sid sids t tuple later e in
        let (s', r, f, v, d) =
          intern_scan_lem s new_sid t (negsuc i) h b (live_after t w) w.new_in in
        let k : ScanKnows s.segments new_sid sids (changed t) =
          rw e at (add_to_tuple-Knows s.segments new_sid sids) in
        rw e (s', r, f, v, inr ((λ z. k z.0 z.1 z.2), (t, d, w)))
  ]

  -- AddSegmentToTupleSS on a valid store, of a live segment to a well-formed tuple of live segments
  -- that is in use and none of whose segments the new one happens before, with no more segments
  -- than the table holds, fails no CHECK and leaves a valid store; if the tuple has the segment, or
  -- one of its thread with the same stamp object and the same two lock sets, it answers the old id
  -- in the old store, and else an id that stands for a well-formed tuple that extends the old one
  -- by the new segment.
  pub add_segment_to_tuple_ss-Adds :
      Adds s (negsuc i) sids new_sid (add_segment_to_tuple_ss s (negsuc i) new_sid)
  unfolding add_segment_to_tuple_ss get
  add_segment_to_tuple_ss-Adds =
      let (x, n, e, q, c) = here in rw (add_segment_to_tuple_ss, get, e, q) added

-- A tuple that the loop of RemoveSegmentFromTupleSS leaves as long as it was is the old one.
length-remove_scan_le :
    (g : Segments) (r : ℕ) (sids : List ℕ) → length (remove_scan g r sids) ≤ length sids
unfolding remove_scan
length-remove_scan_le g r [] = ground arith
length-remove_scan_le g r (sid ∷ sids) = ground (arith, length-remove_scan_le g r sids)

remove_scan_same :
    (g : Segments) (r : ℕ) (sids : List ℕ)
    → length (remove_scan g r sids) ≡ length sids
    → remove_scan g r sids ≡ sids
unfolding remove_scan
remove_scan_same g r [] e = refl
remove_scan_same g r (sid ∷ sids) e =
    ground (arith, remove_scan_same g r sids, length-remove_scan_le g r sids)

-- The result of the other loop gets an id.
intern_rest_lem :
    (s : SegmentSets) (i : ℕ) (old t : List ℕ)
    → IsValid s
    → s.segments.n_segments ≤ s.segments.max_sid
    → IsLiveAt s.vec i old
    → 2 ≤ length old
    → AllLive s.segments t
    → (length t ≡ length old → t ≡ old)
    → (s' : SegmentSets) × (r : ℤ) × (intern_rest s (negsuc i) old t ≡ some (s', r))
      × IsValid s'
      × Denotes s' r t
unfolding intern_rest
intern_rest_lem s i old [] h b k n l f =
    let z : (length old == 0) ≡ false = ground arith in
    (s, pos 0, rw (intern_rest, z) refl, h, refl)
intern_rest_lem s i old (x ∷ []) h b k n l f =
    let z : (length old == 1) ≡ false = ground arith in
    (s, pos x, rw (intern_rest, z) refl, h, Denotes-single s x (l x (ground arith)).0)
intern_rest_lem s i old (x ∷ y ∷ ys) h b k n l f =
    elim (Bool-cases (length (x ∷ y ∷ ys) == length old)) [
      | inl e ↦
          let q = f ((==_iff (length (x ∷ y ∷ ys)) (length old)).0 e) in
          (s, negsuc i, rw (intern_rest, e) refl, h, rw q k)
      | inr e ↦
          let (g, a) = ref_all-live (x ∷ y ∷ ys) s.segments b l in
          let (s', r, o, w) = find_existing_or_allocate-IsInterned s (x ∷ y ∷ ys) g h a in
          let (j, p, v) = w.meaning in (s', negsuc j, rw (intern_rest, e) (rw (← p) o), w.valid, v)
    ]

module _ (s : SegmentSets) (i : ℕ) (sids : List ℕ) (sid : ℕ) (h : IsValid s)
    (b : s.segments.n_segments ≤ s.segments.max_sid) (here : IsLiveAt s.vec i sids)
    (many : 2 ≤ length sids) (tuple : IsTuple s.segments sids)
    (live : AllLive s.segments sids) where
  -- RemoveSegmentFromTupleSS on a valid store, for a well-formed tuple in use of two live segments
  -- or more, with no more segments than the table holds, fails no CHECK, leaves a valid store, and
  -- answers an id that stands for the well-formed set of exactly the segments that are not of the
  -- removed one's thread and do not happen before it.
  pub remove_segment_from_tuple_ss_lem :
      (s' : SegmentSets) × (r : ℤ) × (t : List ℕ) × (remove_segment_from_tuple_ss s (negsuc i) sid
        ≡ some (s', r))
      × IsValid s'
      × Denotes s' r t
      × IsTuple s.segments t
      × ((x : ℕ)
          → count x t
            ≡ (if happens_before_or_same_thread s.segments x sid then 0 else count x sids))
  unfolding remove_segment_from_tuple_ss get
  remove_segment_from_tuple_ss_lem =
      let (x, n, e, q, c) = here in
      let t = remove_scan s.segments sid sids in
      let w = remove_scan-IsTuple s.segments sid sids tuple in
      let (s', r, f, v, d) =
        intern_rest_lem s i sids t h b here many (λ y k. live y (ground (arith, w.1 y)))
          (remove_scan_same s.segments sid sids) in
      (s', r, t, rw (remove_segment_from_tuple_ss, get, e, q) f, v, d, w.0, w.1)
