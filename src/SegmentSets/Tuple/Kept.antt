-- ===== src/SegmentSets/Tuple/Kept.antt =====
-- What the loop of AddSegmentToTupleSS keeps.
use data_race_test.Prelude.{
  ℕ, suc, ◌+◌, ◌≤◌, ◌<◌, ◌≡◌, inl, inr, refl, ap, true, false, ◌||◌, List, [], ◌∷◌, if◌then◌else◌,
  ◌==◌, leb, arith, ==_iff, Bool-cases,
}
use data_race_test.Multimap.{count}
use data_race_test.Segments.{Segments}
use data_race_test.SegmentSets.Tuple.{tid_of, happens_before, Scan-cases, changed, add_scan}

-- The threads of the segments, in increasing order from `lo` on.
abbrev pub TidsFrom : Segments → ℕ → List ℕ → Type 0
TidsFrom s lo [] = Unit
TidsFrom s lo (sid ∷ sids) = (lo ≤ tid_of s sid) × TidsFrom s (suc (tid_of s sid)) sids

-- How often an id of the old set stays: not at all, if it is of the new segment's thread or
-- happens before the new segment.
abbrev pub kept_count : Segments → ℕ → ℕ → List ℕ → ℕ
kept_count s new_sid x sids =
    if (tid_of s x == tid_of s new_sid) || happens_before s x new_sid then 0 else count x sids

module _ (s : Segments) (new_sid : ℕ) where
  count_low : (x lo : ℕ) (sids : List ℕ) → tid_of s x < lo → TidsFrom s lo sids → count x sids ≡ 0
  count_low x lo [] h v = refl
  count_low x lo (sid ∷ sids) h v = elim (Bool-cases (sid == x)) [
    | inl e ↦ let q = ap (tid_of s) ((==_iff sid x).0 e) in absurd (omega arith)
    | inr e ↦ rw e (omega (arith, count_low x (suc (tid_of s sid)) sids (omega arith) v.1))
  ]

  same_tid :
      (x sid : ℕ)
      → sid ≡ x
      → (tid_of s sid ≡ tid_of s x) × (happens_before s sid new_sid ≡ happens_before s x new_sid)
  same_tid x sid e = (ap (tid_of s) e, ap (λ i. happens_before s i new_sid) e)

  -- Once the new segment is in, only old ones follow.
  count-add_scan_inserted :
      (x lo : ℕ) (sids r : List ℕ)
      → TidsFrom s lo sids
      → tid_of s new_sid < lo
      → add_scan s new_sid true sids ≡ changed r
      → count x r ≡ kept_count s new_sid x sids
  unfolding add_scan
  count-add_scan_inserted x lo [] r v l e = ground arith
  count-add_scan_inserted x lo (sid ∷ sids) r v l e =
      elim (Scan-cases (add_scan s new_sid true sids)) [
        | inl u ↦ absurd (ground arith)
        | inr (r', u) ↦ ground (
          arith,
          count-add_scan_inserted x (suc (tid_of s sid)) sids r' v.1 (omega arith) u,
          same_tid x sid,
          count_low x (suc (tid_of s sid)) sids,
          ap (tid_of s) {x = sid} {y = new_sid},
        )
      ]

  -- The result has the new segment once, and of the old ones those that it keeps.
  pub count-add_scan :
      (x lo : ℕ) (sids r : List ℕ)
      → TidsFrom s lo sids
      → add_scan s new_sid false sids ≡ changed r
      → count x r ≡ (if new_sid == x then 1 else 0) + kept_count s new_sid x sids
  unfolding add_scan
  count-add_scan x lo [] r v e = ground (arith, same_tid x new_sid)
  count-add_scan x lo (sid ∷ sids) r v e =
      let ins = leb (tid_of s new_sid) (tid_of s sid) in
      elim (Scan-cases (add_scan s new_sid ins sids)) [
        | inl u ↦ absurd (ground arith)
        | inr (r', u) ↦ elim (Bool-cases ins) [
          | inl b ↦
              let u' : add_scan s new_sid true sids ≡ changed r' = rw b at u in
              ground (
                arith,
                count-add_scan_inserted x (suc (tid_of s sid)) sids r' v.1 (ground arith) u',
                same_tid x sid,
                same_tid x new_sid,
                count_low x (suc (tid_of s sid)) sids,
                ap (tid_of s) {x = sid} {y = new_sid},
              )
          | inr b ↦
              let u' : add_scan s new_sid false sids ≡ changed r' = rw b at u in
              ground (
                arith,
                count-add_scan x (suc (tid_of s sid)) sids r' v.1 u',
                same_tid x sid,
                count_low x (suc (tid_of s sid)) sids,
              )
        ]
      ]

  pub TidsFrom-mono :
      (lo hi : ℕ) (sids : List ℕ) → lo ≤ hi → TidsFrom s hi sids → TidsFrom s lo sids
  TidsFrom-mono lo hi [] h v = tt
  TidsFrom-mono lo hi (sid ∷ sids) h v = (omega arith, v.1)

  add_scan-TidsFrom_inserted :
      (lo : ℕ) (sids r : List ℕ)
      → TidsFrom s lo sids
      → tid_of s new_sid < lo
      → add_scan s new_sid true sids ≡ changed r
      → TidsFrom s lo r
  unfolding add_scan
  add_scan-TidsFrom_inserted lo [] r v l e = ground arith
  add_scan-TidsFrom_inserted lo (sid ∷ sids) r v l e =
      elim (Scan-cases (add_scan s new_sid true sids)) [
        | inl u ↦ absurd (ground arith)
        | inr (r', u) ↦
            let t = add_scan-TidsFrom_inserted (suc (tid_of s sid)) sids r' v.1 (omega arith) u in
            ground (
              arith,
              TidsFrom-mono lo (suc (tid_of s sid)) r',
              ap (tid_of s) {x = sid} {y = new_sid},
            )
      ]

  -- The threads stay in order.
  pub add_scan-TidsFrom :
      (lo : ℕ) (sids r : List ℕ)
      → TidsFrom s lo sids
      → lo ≤ tid_of s new_sid
      → add_scan s new_sid false sids ≡ changed r
      → TidsFrom s lo r
  unfolding add_scan
  add_scan-TidsFrom lo [] r v l e = ground arith
  add_scan-TidsFrom lo (sid ∷ sids) r v l e =
      let ins = leb (tid_of s new_sid) (tid_of s sid) in
      elim (Scan-cases (add_scan s new_sid ins sids)) [
        | inl u ↦ absurd (ground arith)
        | inr (r', u) ↦ elim (Bool-cases ins) [
          | inl b ↦
              let u' : add_scan s new_sid true sids ≡ changed r' = rw b at u in
              let t =
                add_scan-TidsFrom_inserted (suc (tid_of s sid)) sids r' v.1 (ground arith) u' in
              ground (arith, TidsFrom-mono (suc (tid_of s new_sid)) (suc (tid_of s sid)) r')
          | inr b ↦
              let u' : add_scan s new_sid false sids ≡ changed r' = rw b at u in
              let t = add_scan-TidsFrom (suc (tid_of s sid)) sids r' v.1 (ground arith) u' in
              ground (arith, TidsFrom-mono lo (suc (tid_of s sid)) r')
        ]
      ]
