-- ===== src/Segments/Counts.antt =====
-- Ref and Unref of class Segment, tsan/thread_sanitizer.cc: reference counts and the last reference.
use data_race_test.Prelude.{
  ℕ, suc, ◌+◌, ◌<◌, ◌≡◌, ◌≢◌, refl, true, false, ◌∷◌, none, some, arith, update,
}
use data_race_test.Multimap.{count}
use data_race_test.Segments.{
  Segments, get_internal, is_free, set_segment, alive, ref, unref, unref_no_recycle,
  recycle_at_zero, recycle_one_sid, recycle_one_fresh_sid,
}
use data_race_test.Segments.Alloc.{IsValid}

-- A live id of the table.
abbrev pub IsLive : Segments → ℕ → Type 0
IsLive s sid = (0 < sid) × (sid < s.n_segments) × (alive s sid ≡ true)

module _ (s : Segments) (sid : ℕ) (h : IsValid s) (l : IsLive s sid) where
  set_count-IsValid : (n : ℕ) → IsValid (set_segment s sid (record (s.all sid) { ref_count = n }))
  unfolding alive is_free
  set_count-IsValid n = record {
    first = h.first;
    within = h.within;
    once = h.once;
    free = λ i p. ground (arith, h.free i, l.2);
    dead = λ i p q d. ground (arith, h.dead i);
  }

  -- Segment::Ref of a live segment of a valid table adds one reference, changes no other segment
  -- and keeps the table valid and the segment live.
  ref_lem :
      (s' : Segments) × (ref s sid ≡ some s')
      × IsValid s'
      × IsLive s' sid
      × ((s'.all sid).ref_count ≡ (s.all sid).ref_count + 1)
      × ((i : ℕ) → i ≢ sid → s'.all i ≡ s.all i)
  unfolding ref get_internal alive
  ref_lem = (
    set_segment s sid (record (s.all sid) { ref_count = (s.all sid).ref_count + 1 }),
    ground (arith, h.within),
    set_count-IsValid _,
    ground arith,
    ground arith,
    λ i n. ground arith,
  )

  -- Segment::Unref of a live segment with two references or more takes one away, changes no other
  -- segment and keeps the table valid and the segment live.
  unref_many :
      (n : ℕ)
      → (s.all sid).ref_count ≡ suc (suc n)
      → (s' : Segments) × (unref s sid ≡ some s')
        × IsValid s'
        × IsLive s' sid
        × ((s'.all sid).ref_count ≡ suc n)
        × ((i : ℕ) → i ≢ sid → s'.all i ≡ s.all i)
  unfolding unref unref_no_recycle recycle_at_zero get_internal alive
  unref_many n e = (
    set_segment s sid (record (s.all sid) { ref_count = suc n }),
    ground (arith, h.within),
    set_count-IsValid _,
    ground arith,
    ground arith,
    λ i n. ground arith,
  )

  -- The table after the last reference is gone.
  recycled : Segments
  recycled = record s {
    all =
        update (update s.all sid (record (s.all sid) { ref_count = 0 })) sid
          (record (s.all sid) { ref_count = 0; tid = none; vts = none });
    reusable = sid ∷ s.reusable;
  }

  unref_last_eq : (s.all sid).ref_count ≡ 1 → unref s sid ≡ some recycled
  unfolding unref unref_no_recycle recycle_at_zero get_internal alive recycle_one_sid
      recycle_one_fresh_sid recycled
  unref_last_eq e = ground (arith, h.within)

  not_waiting : count sid s.reusable ≡ 0
  unfolding alive is_free
  not_waiting = ground (arith, h.free sid, l.2)

  recycled-IsValid : IsValid recycled
  unfolding recycled alive is_free
  recycled-IsValid = record {
    first = h.first;
    within = h.within;
    once = λ i. ground (arith, h.once i, not_waiting);
    free = λ i p. ground (arith, h.free i, h.within);
    dead = λ i p q d. ground (arith, h.dead i);
  }

  -- Segment::Unref of the last reference of a live segment kills it and appends its id to the ids
  -- for reuse; the table stays valid and every other segment is as before.
  pub unref_last :
      (s.all sid).ref_count ≡ 1
      → (s' : Segments) × (unref s sid ≡ some s')
        × IsValid s'
        × (alive s' sid ≡ false)
        × (s'.reusable ≡ sid ∷ s.reusable)
        × ((i : ℕ) → i ≢ sid → s'.all i ≡ s.all i)
  unref_last e = (
    recycled,
    unref_last_eq e,
    recycled-IsValid,
    unfold recycled alive in ground arith,
    unfold recycled in refl,
    λ i n. unfold recycled in ground arith,
  )
