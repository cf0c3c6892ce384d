-- ===== src/SegmentSets/Tuple/Result.antt =====
-- AddSegmentToTupleSS and RemoveSegmentFromTupleSS, tsan/thread_sanitizer.cc, and the form of a tuple.
use data_race_test.Prelude.{
  ℕ, ◌+◌, ◌≤◌, ◌<◌, ◌≡◌, ◌≢◌, ◌⊎◌, inl, inr, sym, ap, ◌∙◌, Bool, true, false, ◌||◌, List, [], ◌∷◌,
  if◌then◌else◌, ◌==◌, leb, length, arith, ==_iff, Bool-cases,
}
use data_race_test.Multimap.{count}
use data_race_test.Segments.{Segments}
use data_race_test.SegmentSets.Tuple.{
  tid_of, happens_before, same_content, Scan-cases, unchanged, changed, add_scan, add_to_tuple,
  forget_if_full, max_segment_set_size,
}
use data_race_test.SegmentSets.Tuple.Kept.{TidsFrom, kept_count, count-add_scan, add_scan-TidsFrom}
use data_race_test.SegmentSets.Tuple.Forget.{
  age, IsForgotten, forget_full-IsForgotten, forget_small, forget-TidsFrom,
}

-- What Validate asserts: at most four segments, in the order of their threads, and none happens
-- before another.
pub record IsTuple (s : Segments) (sids : List ℕ) : Type 0 where
  pub bounded : length sids ≤ max_segment_set_size
  pub ordered : TidsFrom s 0 sids
  pub unordered :
      (x y : ℕ)
      → 0 < count x sids
      → 0 < count y sids
      → tid_of s x ≢ tid_of s y
      → happens_before s x y ≡ false

-- What a new segment leaves of a tuple.
pub record IsExtended (s : Segments) (new_sid : ℕ) (sids r : List ℕ) : Type 0 where
  pub tuple : IsTuple s r
  pub new_in : count new_sid r ≡ 1
  pub only :
      (x : ℕ)
      → 0 < count x r
      → x ≢ new_sid
      → (0 < count x sids) × (happens_before s x new_sid ≡ false) × (tid_of s x ≢ tid_of s new_sid)
  pub all_but_oldest :
      (x : ℕ)
      → 0 < kept_count s new_sid x sids
      → (0 < count x r) ⊎ ((y : ℕ) → 0 < count y r → y ≢ new_sid → age s x ≤ age s y)

module _ (s : Segments) (new_sid : ℕ) where
  length-add_scan :
      (ins : Bool) (sids r : List ℕ)
      → add_scan s new_sid ins sids ≡ changed r
      → length r ≤ length sids + (if ins then 0 else 1)
  unfolding add_scan
  length-add_scan ins [] r e = ground arith
  length-add_scan ins (sid ∷ sids) r e =
      let ins' = ins || leb (tid_of s new_sid) (tid_of s sid) in
      elim (Scan-cases (add_scan s new_sid ins' sids)) [
        | inl u ↦ absurd (ground arith)
        | inr (r', u) ↦ ground (arith, length-add_scan ins' sids r' u)
      ]

  module _ (sids r : List ℕ) (v : IsTuple s sids)
      (later : (x : ℕ) → 0 < count x sids → happens_before s new_sid x ≡ false)
      (e : add_scan s new_sid false sids ≡ changed r) where
    scanned : (x : ℕ) → count x r ≡ (if new_sid == x then 1 else 0) + kept_count s new_sid x sids
    scanned x = count-add_scan s new_sid x 0 sids r v.ordered e

    scanned_new : count new_sid r ≡ 1
    scanned_new = ground (arith, scanned new_sid)

    scanned_only :
        (x : ℕ)
        → 0 < count x r
        → x ≢ new_sid
        → (0 < count x sids)
          × (happens_before s x new_sid ≡ false)
          × (tid_of s x ≢ tid_of s new_sid)
    scanned_only x c n = ground (arith, scanned x)

    -- No segment of the scanned set happens before another.
    scanned_unordered :
        (x y : ℕ)
        → 0 < count x r
        → 0 < count y r
        → tid_of s x ≢ tid_of s y
        → happens_before s x y ≡ false
    scanned_unordered x y c d n = elim (Bool-cases (x == new_sid)) [
      | inl a ↦
          let p = (==_iff x new_sid).0 a in
          let m : y ≢ new_sid = λ q. n (ap (tid_of s) (p ∙ sym q)) in
          rw p (later y (scanned_only y d m).0)
      | inr a ↦ elim (Bool-cases (y == new_sid)) [
        | inl b ↦ rw ((==_iff y new_sid).0 b) ((scanned_only x c (λ q. ground arith)).1)
        | inr b ↦
            v.unordered x y (scanned_only x c (λ q. ground arith)).0
              (scanned_only y d (λ q. ground arith)).0 n
      ]
    ]

    -- The set after forgetting, if it was too large.
    forgotten-IsExtended :
        (f : ℕ) (t : List ℕ)
        → length r ≤ max_segment_set_size + 1
        → TidsFrom s 0 t
        → IsForgotten s new_sid r t f
        → IsExtended s new_sid sids t
    forgotten-IsExtended f t l o w =
        let less : (x : ℕ) → count x t ≤ count x r = λ x. omega (arith, w.counts x) in
        record {
          tuple = record {
            bounded = omega (arith, w.shorter);
            ordered = o;
            unordered = λ x y c d n.
                scanned_unordered x y (omega (arith, less x)) (omega (arith, less y)) n;
          };
          new_in = ground (arith, w.counts new_sid, scanned_new, w.old);
          only = λ x c n. scanned_only x (omega (arith, less x)) n;
          all_but_oldest = λ x k. elim (Bool-cases (f == x)) [
            | inl a ↦ inr (λ y c n.
                let p = ap (age s) ((==_iff f x).0 a) in
                let q = w.oldest_gone y (omega (arith, less y)) n in omega arith)
            | inr a ↦ inl (ground (arith, w.counts x, scanned x))
          ];
        }

    small-IsExtended : length r ≤ max_segment_set_size → IsExtended s new_sid sids r
    small-IsExtended l = record {
      tuple = record {
        bounded = l;
        ordered = add_scan-TidsFrom s new_sid 0 sids r v.ordered (omega arith) e;
        unordered = scanned_unordered;
      };
      new_in = scanned_new;
      only = scanned_only;
      all_but_oldest = λ x k. inl (omega (arith, scanned x));
    }

    forget-IsExtended : IsExtended s new_sid sids (forget_if_full s new_sid r)
    forget-IsExtended = elim (Bool-cases (leb (length r) max_segment_set_size)) [
      | inl l ↦ rw (forget_small s new_sid r (ground arith)) (small-IsExtended (ground arith))
      | inr l ↦
          let (f, w) =
            forget_full-IsForgotten s new_sid r (ground arith) (omega (arith, scanned_new)) in
          forgotten-IsExtended f (forget_if_full s new_sid r)
            (omega (arith, length-add_scan false sids r e, v.bounded))
            (forget-TidsFrom s new_sid 0 r
              (add_scan-TidsFrom s new_sid 0 sids r v.ordered (omega arith) e))
            w
    ]

  -- AddSegmentToTupleSS, when it changes a well-formed tuple none of whose segments the new segment
  -- happens before, gives a well-formed tuple (at most four segments, in thread order, pairwise
  -- unordered) with the new segment once, otherwise only old segments of other threads that do not
  -- happen before it, and all of those except that one is left out than which no other old one is
  -- older.
  pub add_to_tuple-IsExtended :
      (sids r : List ℕ)
      → IsTuple s sids
      → ((x : ℕ) → 0 < count x sids → happens_before s new_sid x ≡ false)
      → add_to_tuple s sids new_sid ≡ changed r
      → IsExtended s new_sid sids r
  unfolding add_to_tuple
  add_to_tuple-IsExtended sids r v later e = elim (Scan-cases (add_scan s new_sid false sids)) [
    | inl u ↦ absurd (ground arith)
    | inr (t, u) ↦
        let q : forget_if_full s new_sid t ≡ r = ground arith in
        rw (← q) (forget-IsExtended sids t v later u)
  ]

  -- The loop of AddSegmentToTupleSS returns the old tuple only if the tuple has the new segment, or
  -- one of its thread with the same stamp object and lock sets.
  add_scan_unchanged :
      (ins : Bool) (sids : List ℕ)
      → add_scan s new_sid ins sids ≡ unchanged
      → (x : ℕ) × (0 < count x sids)
        × ((x ≡ new_sid) ⊎ ((tid_of s x ≡ tid_of s new_sid) × (same_content s x new_sid ≡ true)))
  unfolding add_scan
  add_scan_unchanged ins [] e = absurd (cc)
  add_scan_unchanged ins (sid ∷ sids) e =
      let ins' = ins || leb (tid_of s new_sid) (tid_of s sid) in
      elim (Scan-cases (add_scan s new_sid ins' sids)) [
        | inl u ↦ deeper sid sids (add_scan_unchanged ins' sids u)
        | inr (r, u) ↦ (sid, ground arith, ground arith)
      ]
    where
      deeper :
          (sid : ℕ) (sids : List ℕ)
          → ((x : ℕ) × (0 < count x sids)
              × ((x ≡ new_sid)
                  ⊎ ((tid_of s x ≡ tid_of s new_sid) × (same_content s x new_sid ≡ true))))
          → (x : ℕ) × (0 < count x (sid ∷ sids))
            × ((x ≡ new_sid)
                ⊎ ((tid_of s x ≡ tid_of s new_sid) × (same_content s x new_sid ≡ true)))
      deeper sid sids (x, c, w) = (x, omega arith, w)
