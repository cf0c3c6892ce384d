-- ===== src/SegmentSets/Singles.antt =====
-- RemoveSegmentFromSS on sets of at most one segment, and its cache.
use data_race_test.Prelude.{
  ℕ, zero, suc, ◌≡◌, inl, inr, refl, some, if◌then◌else◌, ℤ, pos, negsuc, arith, Option-cases,
}
use data_race_test.Caches.Pair
use data_race_test.Caches.PairLaws.{IsCoherent, IsCoherent-mono, lookup_sound, insert-IsCoherent}
use data_race_test.Caches.PairRuns.{insert_hit}
use data_race_test.Segments.{Segments}
use data_race_test.SegmentSets.Tuple.{happens_before_or_same_thread}
use data_race_test.SegmentSets.Store.{
  SegmentSets, ss_params, remove_segment_from_ss, remove_uncached,
}

-- What remove_segment_cache_ may hold for sets of at most one segment.
abbrev pub IsRest : Segments → ℤ → ℕ → ℤ → Type 0
IsRest g (pos zero) sid r = r ≡ pos 0
IsRest g (pos (suc x)) sid r =
    r ≡ (if happens_before_or_same_thread g (suc x) sid then pos 0 else pos (suc x))
IsRest g (negsuc i) sid r = Unit

-- The cache of removals holds what removals from the present segments give.
abbrev pub IsFresh : SegmentSets → Type 0
IsFresh s = IsCoherent (IsRest s.segments) ss_params s.remove_cache

-- A state that differs only in that cache, which still is right.
abbrev pub SameBut : SegmentSets → SegmentSets → Type 0
SameBut s s' = IsFresh s' × (s'.segments ≡ s.segments)

-- RemoveSegmentFromSS on at most one segment, from the cache or not.
pub remove_single :
    (s : SegmentSets) (x sid : ℕ)
    → IsFresh s
    → (s' : SegmentSets) × (remove_segment_from_ss s (pos (suc x)) sid
        ≡ some (
          s',
          if happens_before_or_same_thread s.segments (suc x) sid then pos 0 else pos (suc x),
        ))
      × SameBut s s'
unfolding remove_segment_from_ss remove_uncached
remove_single s x sid h =
    elim (Option-cases (Pair.lookup ss_params s.remove_cache (pos (suc x)) sid)) [
      | inl e ↦ (
        record s { remove_cache = Pair.insert ss_params s.remove_cache (pos (suc x)) sid _ },
        rw (e, remove_segment_from_ss) refl,
        (
          insert-IsCoherent (IsRest s.segments) ss_params s.remove_cache (pos (suc x)) sid _ refl h,
          refl,
        ),
      )
      | inr (r, e) ↦
          let q =
            lookup_sound (IsRest s.segments) ss_params s.remove_cache (pos (suc x)) sid r h e in
          (s, rw (e, remove_segment_from_ss) (rw q refl), (h, refl))
    ]

pub remove_empty :
    (s : SegmentSets) (sid : ℕ)
    → IsFresh s
    → (s' : SegmentSets) × (remove_segment_from_ss s (pos zero) sid ≡ some (s', pos 0))
      × SameBut s s'
unfolding remove_segment_from_ss remove_uncached
remove_empty s sid h = elim (Option-cases (Pair.lookup ss_params s.remove_cache (pos zero) sid)) [
  | inl e ↦ (
    record s { remove_cache = Pair.insert ss_params s.remove_cache (pos zero) sid (pos 0) },
    rw (e, remove_segment_from_ss) refl,
    (
      insert-IsCoherent (IsRest s.segments) ss_params s.remove_cache (pos zero) sid (pos 0) refl h,
      refl,
    ),
  )
  | inr (r, e) ↦
      let q = lookup_sound (IsRest s.segments) ss_params s.remove_cache (pos zero) sid r h e in
      (s, rw (e, remove_segment_from_ss) (rw q refl), (h, refl))
]

-- The answer of the cache, if it has one, does not depend on the segments.
remove_known :
    (s : SegmentSets) (ssid r : ℤ) (sid : ℕ)
    → Pair.lookup ss_params s.remove_cache ssid sid ≡ some r
    → remove_segment_from_ss s ssid sid ≡ some (s, r)
unfolding remove_segment_from_ss
remove_known s ssid r sid e = rw (remove_segment_from_ss, e) refl

-- RemoveSegmentFromSS of a set of one segment, with a right cache, answers the empty set if the
-- segment is of the removed one's thread or happens before it, and else the old set; the call gives
-- that same answer in every state with the cache that it has left, whatever the segments and the
-- store are there.
pub remove_segment_from_ss_stale :
    (s v : SegmentSets) (x sid : ℕ)
    → IsFresh s
    → (s' : SegmentSets) × (r : ℤ) × (r
        ≡ (if happens_before_or_same_thread s.segments (suc x) sid then pos 0 else pos (suc x)))
      × (remove_segment_from_ss s (pos (suc x)) sid ≡ some (s', r))
      × (remove_segment_from_ss (record v { remove_cache = s'.remove_cache }) (pos (suc x)) sid
          ≡ some (record v { remove_cache = s'.remove_cache }, r))
unfolding remove_segment_from_ss remove_uncached
remove_segment_from_ss_stale s v x sid h =
    elim (Option-cases (Pair.lookup ss_params s.remove_cache a sid)) [
      | inl e ↦
          let k = IsCoherent-mono _ _ ss_params s.remove_cache (λ a b v i. tt) h in
          let f = insert_hit ss_params s.remove_cache a sid r k (ground arith) e in
          (
            next,
            r,
            refl,
            rw (remove_segment_from_ss, e) refl,
            remove_known (record v { remove_cache = next.remove_cache }) a r sid f,
          )
      | inr (o, e) ↦
          let q = lookup_sound (IsRest s.segments) ss_params s.remove_cache a sid o h e in
          (
            s,
            o,
            q,
            remove_known s a o sid e,
            remove_known (record v { remove_cache = s.remove_cache }) a o sid e,
          )
    ]
  where
    a : ℤ
    a = pos (suc x)

    r : ℤ
    r = if happens_before_or_same_thread s.segments (suc x) sid then pos 0 else pos (suc x)

    next : SegmentSets
    next = record s { remove_cache = Pair.insert ss_params s.remove_cache a sid r }
