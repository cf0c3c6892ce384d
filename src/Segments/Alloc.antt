-- ===== src/Segments/Alloc.antt =====
-- AddNewSegment of class Segment, tsan/thread_sanitizer.cc: the id it gives and the table it leaves.
use data_race_test.Prelude.{
  ℕ, ◌≤◌, ◌<◌, ◌≡◌, ◌≢◌, ◌⊎◌, inl, inr, refl, ap, true, false, List, [], ◌∷◌, none, some, length,
  arith, ℤ,
}
use data_race_test.Multimap.{count}
use data_race_test.Segments.{
  set_segment, Stamp, Segment, Segments, get_internal, is_free, reuse_loop, create_one, create_loop,
  allocate_rest, allocate_fresh_segments, setup_fresh_sid, setup_first, add_new_segment, alive,
}

-- The table of segments: the ids that wait for reuse are the dead ones, each once.
pub record IsValid (s : Segments) : Type 0 where
  pub first : 0 < s.n_segments
  pub within : s.n_segments ≤ s.max_sid
  pub once : (sid : ℕ) → count sid s.reusable ≤ 1
  pub free : (sid : ℕ) → 0 < count sid s.reusable → (is_free s sid ≡ true) × (sid < s.n_segments)
  pub dead :
      (sid : ℕ) → 0 < sid → sid < s.n_segments → alive s sid ≡ false → 0 < count sid s.reusable

-- What AddNewSegment leaves.
pub record IsAdded (s : Segments) (g : Segment) (sid : ℕ) (s' : Segments) : Type 0 where
  pub valid : IsValid s'
  pub fresh : (alive s sid ≡ false) ⊎ (sid ≡ s.n_segments)
  pub positive : 0 < sid
  pub stored : s'.all sid ≡ g
  pub others : (i : ℕ) → i ≢ sid → s'.all i ≡ s.all i

abbrev pub HasRoom : Segments → Type 0
HasRoom s = (0 < length s.reusable) ⊎ (s.n_segments < s.max_sid)

abbrev pub new_segment : ℕ → Stamp → ℤ → ℤ → ℕ → Segment
new_segment t v rd wr era = record {
  ref_count = 0;
  rd_lsid = rd;
  wr_lsid = wr;
  tid = some t;
  lock_era = era;
  vts = some v;
}

is_free_parts :
    (s : Segments) (sid : ℕ)
    → is_free s sid ≡ true
    → (0 < sid)
      × (sid < s.max_sid)
      × ((s.all sid).ref_count ≡ 0)
      × ((s.all sid).vts ≡ none)
      × ((s.all sid).tid ≡ none)
unfolding is_free
is_free_parts s sid h = ground arith

-- Allocation of one id: the last one that waits for reuse, or else the next new one.
allocate_reused :
    (s : Segments) (sid : ℕ) (rest : List ℕ)
    → s.reusable ≡ sid ∷ rest
    → is_free s sid ≡ true
    → allocate_fresh_segments 1 s ≡ some (sid ∷ [], record s { reusable = rest })
unfolding allocate_fresh_segments allocate_rest reuse_loop create_loop is_free
allocate_reused s sid [] e f = rw (e, allocate_rest) (rw (f, allocate_rest) refl)
allocate_reused s sid (x ∷ rest) e f = rw (e, allocate_rest) (rw (f, allocate_rest) refl)

allocate_created :
    (s : Segments)
    → s.reusable ≡ []
    → s.n_segments < s.max_sid
    → allocate_fresh_segments 1 s ≡ some (s.n_segments ∷ [], create_one s)
unfolding allocate_fresh_segments allocate_rest reuse_loop create_loop create_one
allocate_created s e f = ground arith

allocate_full :
    (s : Segments) → s.reusable ≡ [] → s.max_sid ≤ s.n_segments → allocate_fresh_segments 1 s ≡ none
unfolding allocate_fresh_segments allocate_rest reuse_loop create_loop
allocate_full s e f = ground arith

not_again : (sid i : ℕ) (rest : List ℕ) → count sid (sid ∷ rest) ≤ 1 → 0 < count i rest → sid ≢ i
not_again sid i rest o p e =
    let c : count sid rest ≡ count i rest = ap (λ k. count k rest) e in ground arith

module _ (s : Segments) (t : ℕ) (v : Stamp) (rd wr : ℤ) (era : ℕ) where
  abbrev after_reuse : ℕ → List ℕ → Segments
  after_reuse sid rest = set_segment (record s { reusable = rest }) sid (new_segment t v rd wr era)

  abbrev after_create : Segments
  after_create = set_segment (create_one s) s.n_segments (new_segment t v rd wr era)

  add_reused :
      (sid : ℕ) (rest : List ℕ)
      → s.reusable ≡ sid ∷ rest
      → is_free s sid ≡ true
      → sid < s.n_segments
      → add_new_segment s t v rd wr era ≡ some (sid, after_reuse sid rest)
  unfolding add_new_segment setup_first setup_fresh_sid get_internal
  add_reused sid rest e f l =
      let w = is_free_parts s sid f in rw (allocate_reused s sid rest e f) (ground arith)

  add_created :
      IsValid s
      → s.reusable ≡ []
      → s.n_segments < s.max_sid
      → add_new_segment s t v rd wr era ≡ some (s.n_segments, after_create)
  unfolding add_new_segment setup_first setup_fresh_sid get_internal create_one
  add_created h e l = rw (allocate_created s e l) (ground (arith, h.first))

  reused-IsAdded :
      (sid : ℕ) (rest : List ℕ)
      → IsValid s
      → s.reusable ≡ sid ∷ rest
      → IsAdded s (new_segment t v rd wr era) sid (after_reuse sid rest)
  unfolding alive is_free
  reused-IsAdded sid rest h e =
      let c : (i : ℕ) → count i s.reusable ≡ count i (sid ∷ rest) = λ i. ap (count i) e in
      let f = h.free sid (ground (arith, c sid)) in
      let w = is_free_parts s sid f.0 in
      record {
        valid = record {
          first = h.first;
          within = h.within;
          once = λ i. ground (arith, h.once i, c i);
          free = λ i p.
              let n = not_again sid i rest (omega (arith, h.once sid, c sid)) p in
              ground (arith, h.free i, c i);
          dead = λ i p q d. ground (arith, h.dead i, c i);
        };
        fresh = inl (ground arith);
        positive = w.0;
        stored = ground arith;
        others = λ i n. ground arith;
      }

  created-IsAdded :
      IsValid s
      → s.reusable ≡ []
      → s.n_segments < s.max_sid
      → IsAdded s (new_segment t v rd wr era) s.n_segments after_create
  unfolding alive is_free create_one
  created-IsAdded h e l =
      let c : (i : ℕ) → count i s.reusable ≡ 0 = λ i. ap (count i) e in
      record {
        valid = record {
          first = omega arith;
          within = omega arith;
          once = λ i. ground (arith, h.once i);
          free = λ i p. absurd (omega (arith, c i));
          dead = λ i p q d. absurd (ground (arith, h.dead i, c i));
        };
        fresh = inr refl;
        positive = h.first;
        stored = ground arith;
        others = λ i n. ground arith;
      }

Room-cases : (xs : List ℕ) → (xs ≡ []) ⊎ ((sid : ℕ) × (rest : List ℕ) × (xs ≡ sid ∷ rest))
Room-cases [] = inl refl
Room-cases (sid ∷ rest) = inr (sid, rest, refl)

module _ (s : Segments) (t : ℕ) (v : Stamp) (rd wr : ℤ) (era : ℕ) (h : IsValid s) where
  -- AddNewSegment on a valid table with an id to reuse or room passes its checks, gives an id that
  -- was dead or is new, stores the given thread, stamp and lock sets with no reference, changes no
  -- other segment and keeps the table valid.
  pub add_new_segment-IsAdded :
      HasRoom s
      → (sid : ℕ) × (s' : Segments) × (add_new_segment s t v rd wr era ≡ some (sid, s'))
        × IsAdded s (new_segment t v rd wr era) sid s'
  add_new_segment-IsAdded r = elim (Room-cases s.reusable) [
    | inl e ↦
        let l : s.n_segments < s.max_sid = ground arith in
        (
          s.n_segments,
          after_create s t v rd wr era,
          add_created s t v rd wr era h e l,
          created-IsAdded s t v rd wr era h e l,
        )
    | inr (sid, rest, e) ↦
        let f = h.free sid (ground (arith, ap (count sid) e)) in
        (
          sid,
          after_reuse s t v rd wr era sid rest,
          add_reused s t v rd wr era sid rest e f.0 f.1,
          reused-IsAdded s t v rd wr era sid rest h e,
        )
  ]

  -- With no id to reuse and a full table the CHECK fails.
  pub add_new_segment_full :
      s.reusable ≡ [] → s.n_segments ≡ s.max_sid → add_new_segment s t v rd wr era ≡ none
  unfolding add_new_segment setup_first
  add_new_segment_full e l = rw (allocate_full s e (omega arith)) refl
