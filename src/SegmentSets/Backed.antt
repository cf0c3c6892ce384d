-- ===== src/SegmentSets/Backed.antt =====
-- The references of class SegmentSet, tsan/thread_sanitizer.cc, to segments: each tuple that is not recycled
-- has one to each of its segments.
use data_race_test.Prelude.{
  ℕ, zero, suc, ◌+◌, ◌-◌, ◌<◌, ◌≤◌, ◌≡◌, ◌⊎◌, inl, inr, refl, ◌∙◌, List, [], ◌∷◌, some,
  if◌then◌else◌, ◌==◌, get_elem?, set, arith, Bool-cases, pos, negsuc,
}
use data_race_test.Multimap.{count}
use data_race_test.Segments.{
  Segments, get_internal, set_segment, unref, unref_no_recycle, recycle_at_zero, recycle_one_sid,
  recycle_one_fresh_sid, is_none,
}
use data_race_test.SegmentSets.Store.{Slot, unref_all}

-- The references of a slot, and of all of them, to the segment
abbrev pub slot_refs : Slot → ℕ → ℕ
slot_refs x sid = elim x.ref_count [ pos n ↦ count sid x.sids | negsuc n ↦ 0 ]

abbrev pub refs : List Slot → ℕ → ℕ
refs [] sid = 0
refs (x ∷ vec) sid = slot_refs x sid + refs vec sid

abbrev pub InTable : Segments → ℕ → Type 0
InTable g sid = (0 < sid) × ((sid < g.max_sid) × (sid < g.n_segments))

-- The segments of the tuples are in the table and have a reference from each.
abbrev pub Backed : Segments → List Slot → Type 0
Backed g vec =
    (sid : ℕ) → (0 < refs vec sid → InTable g sid) × (refs vec sid ≤ (g.all sid).ref_count)

-- The same table, with other counts
abbrev pub SameTable : Segments → Segments → Type 0
SameTable g g' = (g'.max_sid ≡ g.max_sid) × (g'.n_segments ≡ g.n_segments)

count_cases : (n : ℕ) → 0 < n → (n ≡ 1) ⊎ ((m : ℕ) × (n ≡ suc (suc m)))
count_cases zero p = absurd (omega arith)
count_cases (suc zero) p = inl refl
count_cases (suc (suc m)) p = inr (m, refl)

unref_one :
    (g : Segments) (sid : ℕ)
    → InTable g sid
    → 0 < (g.all sid).ref_count
    → (g' : Segments) × (unref g sid ≡ some g')
      × SameTable g g'
      × ((j : ℕ) → (g'.all j).ref_count + (if j == sid then 1 else 0) ≡ (g.all j).ref_count)
unfolding unref unref_no_recycle recycle_at_zero get_internal recycle_one_sid recycle_one_fresh_sid
unref_one g sid t p =
    let down : Segments =
      set_segment g sid (record (g.all sid) { ref_count = (g.all sid).ref_count - 1 }) in
    elim (count_cases (g.all sid).ref_count p) [
      | inr (m, e) ↦ (down, ground (arith, t), (refl, refl), λ j. ground (arith, e))
      | inl e ↦ elim (Bool-cases (is_none (g.all sid).vts)) [
        | inl b ↦ (down, ground (arith, t, b, e), (refl, refl), λ j. ground (arith, e))
        | inr b ↦ (
          recycle_one_fresh_sid down sid,
          ground (arith, t, b, e),
          (refl, refl),
          λ j. ground (arith, e),
        )
      ]
    ]

pub unref_all_lem :
    (sids : List ℕ) (g : Segments)
    → ((j : ℕ) → (0 < count j sids → InTable g j) × (count j sids ≤ (g.all j).ref_count))
    → (g' : Segments) × (unref_all sids (some g) ≡ some g')
      × SameTable g g'
      × ((j : ℕ) → (g'.all j).ref_count + count j sids ≡ (g.all j).ref_count)
unfolding unref_all
unref_all_lem [] g h = (g, refl, (refl, refl), λ j. omega arith)
unref_all_lem (sid ∷ sids) g h =
    let o = unref_one g sid ((h sid).0 (ground arith)) (ground (arith, (h sid).1)) in
    let r = unref_all_lem sids o.0 (λ j. (
      (λ c.
          let t = (h j).0 (ground (arith, c)) in
          (t.0, (omega (arith, t.1.0, o.2.0), omega (arith, t.1.1, o.2.1)))),
      ground (arith, (h j).1, o.3 j),
    )) in
    (
      r.0,
      rw (unref_all, o.1) r.1,
      (r.2.0 ∙ o.2.0, r.2.1 ∙ o.2.1),
      λ j. ground (arith, r.3 j, o.3 j),
    )

-- A slot that gets other references
refs-set :
    (vec : List Slot) (i : ℕ) (x y : Slot) (sid : ℕ)
    → get_elem? vec i ≡ some x
    → refs (set vec i y) sid + slot_refs x sid ≡ refs vec sid + slot_refs y sid
refs-set [] i x y sid e = absurd (cc)
refs-set (z ∷ vec) zero x y sid e = let q : z ≡ x = cc in rw q (omega arith)
refs-set (z ∷ vec) (suc i) x y sid e = omega (arith, refs-set vec i x y sid e)

abbrev pub dead_slot : Slot → Slot
dead_slot x = record { sids = x.sids; ref_count = negsuc 0 }

-- A tuple without references that gives up its segments
pub recycle-Backed :
    (g : Segments) (vec : List Slot) (i : ℕ) (x : Slot)
    → Backed g vec
    → get_elem? vec i ≡ some x
    → x.ref_count ≡ pos 0
    → (g' : Segments) × (unref_all x.sids (some g) ≡ some g')
      × Backed g' (set vec i (dead_slot x))
      × ((j : ℕ)
          → (g'.all j).ref_count + refs vec j
            ≡ (g.all j).ref_count + refs (set vec i (dead_slot x)) j)
recycle-Backed g vec i x h e z =
    let same : (j : ℕ) → refs (set vec i (dead_slot x)) j + count j x.sids ≡ refs vec j =
      λ j. let r = refs-set vec i x (dead_slot x) j e in (rw z at r) ∙ (omega arith) in
    let r =
      unref_all_lem x.sids g
        (λ j. ((λ c. (h j).0 (omega (arith, same j))), omega (arith, same j, (h j).1))) in
    (
      r.0,
      r.1,
      λ j. (
        (λ c.
            let t = (h j).0 (omega (arith, same j)) in
            (t.0, (omega (arith, t.1.0, r.2.0), omega (arith, t.1.1, r.2.1)))),
        omega (arith, same j, (h j).1, r.3 j),
      ),
      λ j. omega (arith, same j, r.3 j),
    )
