-- ===== src/SegmentSets/Tuple/Alike.antt =====
-- The early returns of AddSegmentToTupleSS, tsan/thread_sanitizer.cc: the tuple has the segment, or one like it.
use data_race_test.Prelude.{
  ℕ, ◌<◌, ◌≡◌, ◌⊎◌, inl, inr, false, List, [], ◌∷◌, if◌then◌else◌, ◌==◌, ◌↔◌, ◌||◌, ◌&&◌, ◌++◌,
  Bool, true, not, leb, ltb, eq_ℤ_iff, arith, ==_iff, Bool-cases,
}
use data_race_test.Multimap.{count}
use data_race_test.Segments.{Segments}
use data_race_test.SegmentSets.Tuple.{
  Scan, unchanged, changed, put, scan_map, forget_if_full, add_scan, same_content, tid_of, vts_of,
  add_to_tuple, happens_before,
}

-- The tuple has the segment, or one of its thread with the same stamp object and lock sets.
abbrev pub Alike : Segments → ℕ → ℕ → Type 0
Alike g new_sid x =
    (x ≡ new_sid)
    ⊎ ((tid_of g x ≡ tid_of g new_sid)
        × (((vts_of g x).uniq_id ≡ (vts_of g new_sid).uniq_id)
            × (((g.all x).wr_lsid ≡ (g.all new_sid).wr_lsid)
                × ((g.all x).rd_lsid ≡ (g.all new_sid).rd_lsid))))

abbrev pub Knows : Segments → ℕ → List ℕ → Type 0
Knows g new_sid sids = (x : ℕ) × (0 < count x sids) × Alike g new_sid x

abbrev pub ScanKnows : Segments → ℕ → List ℕ → Scan → Type 0
ScanKnows g new_sid sids unchanged = Knows g new_sid sids
ScanKnows g new_sid sids (changed t) = (x : ℕ) → 0 < count x sids → Alike g new_sid x → ⊥

scan_one :
    (g : Segments) (n x : ℕ) (sids : List ℕ) (before : List ℕ) (r : Scan)
    → (Alike g n x → ⊥)
    → ScanKnows g n sids r
    → ScanKnows g n (x ∷ sids) (put before r)
scan_one g n x sids before unchanged a k = (k.0, ground (arith, k.1), k.2)
scan_one g n x sids before (changed t) a k = λ y c h. elim (Bool-cases (y == x)) [
  | inl e ↦ let q : y ≡ x = (==_iff y x).0 e in a (rw q at h)
  | inr e ↦ k y (ground (arith, c)) h
]

same_content_iff :
    (g : Segments) (x n : ℕ)
    → (same_content g x n ≡ true) ↔ (
        ((vts_of g x).uniq_id ≡ (vts_of g n).uniq_id)
        × (((g.all x).wr_lsid ≡ (g.all n).wr_lsid) × ((g.all x).rd_lsid ≡ (g.all n).rd_lsid)))
unfolding same_content
same_content_iff g x n = ground (
  arith,
  eq_ℤ_iff (g.all x).wr_lsid (g.all n).wr_lsid,
  eq_ℤ_iff (g.all x).rd_lsid (g.all n).rd_lsid,
)

-- The early returns of the loop
add_scan-Knows :
    (g : Segments) (n : ℕ) (ins : Bool) (sids : List ℕ) → ScanKnows g n sids (add_scan g n ins sids)
unfolding add_scan
add_scan-Knows g n ins [] = λ x c h. absurd (ground (arith, c))
add_scan-Knows g n ins (x ∷ sids) =
    let k = add_scan-Knows g n (ins || leb (tid_of g n) (tid_of g x)) sids in
    elim (Bool-cases (x == n)) [
      | inl e ↦ rw (add_scan, e) (x, ground arith, inl ((==_iff x n).0 e))
      | inr e ↦ elim (Bool-cases (tid_of g x == tid_of g n)) [
        | inl t ↦ elim (Bool-cases (same_content g x n)) [
          | inl c ↦
              rw (add_scan, e, t, c)
                (x, ground arith, inr ((==_iff _ _).0 t, (same_content_iff g x n).0 c))
          | inr c ↦
              rw (add_scan, e, t, c)
                (scan_one g n x sids (n ∷ [])
                  (add_scan g n (ins || leb (tid_of g n) (tid_of g x)) sids)
                  (λ a. elim a [
                    | inl q ↦ absurd (cc ((==_iff x n).1 q))
                    | inr q ↦ absurd (cc ((same_content_iff g x n).1 q.1))
                  ])
                  k)
        ]
        | inr t ↦
            rw (add_scan, e, t)
              (scan_one g n x sids
                ((if ltb (tid_of g n) (tid_of g x) && not ins then n ∷ [] else [])
                  ++ (if happens_before g x n then [] else x ∷ []))
                (add_scan g n (ins || leb (tid_of g n) (tid_of g x)) sids)
                (λ a. elim a [
                  | inl q ↦ absurd (cc ((==_iff x n).1 q))
                  | inr q ↦ absurd (cc ((==_iff _ _).1 q.0))
                ])
                k)
      ]
    ]

pub add_to_tuple-Knows :
    (g : Segments) (n : ℕ) (sids : List ℕ) → ScanKnows g n sids (add_to_tuple g sids n)
unfolding add_to_tuple
add_to_tuple-Knows g n sids = mapped (add_scan g n false sids) (add_scan-Knows g n false sids)
  where
    mapped :
        (r : Scan) → ScanKnows g n sids r → ScanKnows g n sids (scan_map (forget_if_full g n) r)
    mapped unchanged k = k
    mapped (changed t) k = k
