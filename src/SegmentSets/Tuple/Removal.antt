-- ===== src/SegmentSets/Tuple/Removal.antt =====
-- RemoveSegmentFromTupleSS: which segments the loop keeps.
use data_race_test.Prelude.{
  ℕ, suc, ◌≤◌, ◌<◌, ◌≡◌, inl, inr, ap, List, [], ◌∷◌, if◌then◌else◌, ◌==◌, arith, ==_iff,
  Bool-cases, length,
}
use data_race_test.Multimap.{count}
use data_race_test.Segments.{Segments}
use data_race_test.SegmentSets.Tuple.{tid_of, happens_before_or_same_thread, remove_scan}
use data_race_test.SegmentSets.Tuple.Kept.{TidsFrom, TidsFrom-mono}
use data_race_test.SegmentSets.Tuple.Result.{IsTuple}

module _ (s : Segments) (r : ℕ) where
  count-remove_scan :
      (x : ℕ) (sids : List ℕ)
      → count x (remove_scan s r sids)
        ≡ (if happens_before_or_same_thread s x r then 0 else count x sids)
  unfolding remove_scan
  count-remove_scan x [] = ground arith
  count-remove_scan x (sid ∷ sids) = elim (Bool-cases (sid == x)) [
    | inl e ↦
        let q = (==_iff sid x).0 e in
        ground (arith, count-remove_scan x sids, ap (λ i. happens_before_or_same_thread s i r) q)
    | inr e ↦ ground (arith, count-remove_scan x sids)
  ]

  length-remove_scan : (sids : List ℕ) → length (remove_scan s r sids) ≤ length sids
  unfolding remove_scan
  length-remove_scan [] = ground arith
  length-remove_scan (sid ∷ sids) = ground (arith, length-remove_scan sids)

  remove_scan-TidsFrom :
      (lo : ℕ) (sids : List ℕ) → TidsFrom s lo sids → TidsFrom s lo (remove_scan s r sids)
  unfolding remove_scan
  remove_scan-TidsFrom lo [] v = tt
  remove_scan-TidsFrom lo (sid ∷ sids) v =
      elim (Bool-cases (happens_before_or_same_thread s sid r)) [
        | inl e ↦
            let t = remove_scan-TidsFrom (suc (tid_of s sid)) sids v.1 in
            rw e (TidsFrom-mono s r lo (suc (tid_of s sid)) (remove_scan s r sids) (omega arith) t)
        | inr e ↦ rw e (v.0, remove_scan-TidsFrom (suc (tid_of s sid)) sids v.1)
      ]

  -- The loop of RemoveSegmentFromTupleSS keeps exactly the segments that are not of the removed
  -- segment's thread and do not happen before it, and keeps a well-formed tuple well formed.
  pub remove_scan-IsTuple :
      (sids : List ℕ)
      → IsTuple s sids
      → IsTuple s (remove_scan s r sids)
        × ((x : ℕ)
            → count x (remove_scan s r sids)
              ≡ (if happens_before_or_same_thread s x r then 0 else count x sids))
  remove_scan-IsTuple sids v =
      let kept : (x : ℕ) → 0 < count x (remove_scan s r sids) → 0 < count x sids =
        λ x c. ground (arith, count-remove_scan x sids) in
      (
        record {
          bounded = omega (arith, length-remove_scan sids, v.bounded);
          ordered = remove_scan-TidsFrom 0 sids v.ordered;
          unordered = λ x y c d n. v.unordered x y (kept x c) (kept y d) n;
        },
        λ x. count-remove_scan x sids,
      )
