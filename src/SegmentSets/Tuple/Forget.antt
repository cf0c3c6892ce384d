-- ===== src/SegmentSets/Tuple/Forget.antt =====
-- The segment that a full tuple forgets in AddSegmentToTupleSS, tsan/thread_sanitizer.cc.
use data_race_test.Prelude.{
  ℕ, zero, suc, ◌+◌, ◌≤◌, ◌<◌, ◌≡◌, ◌≢◌, ◌⊎◌, inl, inr, refl, sym, ap, ◌∙◌, true, false, List, [],
  ◌∷◌, Option, none, some, if◌then◌else◌, ◌==◌, ltb, length, get_elem?, arith, ==_iff, Bool-cases,
}
use data_race_test.Multimap.{count}
use data_race_test.Segments.{Segments}
use data_race_test.SegmentSets.Tuple.{
  vts_of, tid_of, oldest, older, place, erase_at, forget_if_full, max_segment_set_size,
}
use data_race_test.SegmentSets.Tuple.Kept.{TidsFrom, TidsFrom-mono}

abbrev pub age : Segments → ℕ → ℕ
age s sid = (vts_of s sid).uniq_id

module _ (s : Segments) (new_sid : ℕ) where
  -- The answer (u, j) of the loop from place `i`: nothing seen is older than `u`, and `u` is the
  -- age of the best so far or of the segment at place `j`, which is not the new one.
  pub record IsOldest (i : ℕ) (best : Option (ℕ × ℕ)) (sids : List ℕ) (u j : ℕ) : Type 0 where
    pub le_best : (v k : ℕ) → best ≡ some (v, k) → u ≤ v
    pub le_all : (y : ℕ) → 0 < count y sids → y ≢ new_sid → u ≤ age s y
    pub found :
        (best ≡ some (u, j))
        ⊎ ((k : ℕ) × (sid : ℕ) × (j ≡ i + k)
            × (get_elem? sids k ≡ some sid)
            × (sid ≢ new_sid)
            × (age s sid ≡ u))

  abbrev Later : ℕ → Option (ℕ × ℕ) → List ℕ → ℕ → ℕ → Type 0
  Later i best sids u j =
      (k : ℕ) × (sid : ℕ) × (j ≡ i + k)
      × (get_elem? sids k ≡ some sid)
      × (sid ≢ new_sid)
      × (age s sid ≡ u)

  Later-cons :
      (i sid u j : ℕ) (best : Option (ℕ × ℕ)) (sids : List ℕ)
      → Later (i + 1) best sids u j
      → Later i best (sid ∷ sids) u j
  Later-cons i sid u j best sids (k, x, e, g, n, a) = (suc k, x, omega arith, g, n, a)

  extend_keep :
      (i sid u j : ℕ) (best : Option (ℕ × ℕ)) (sids : List ℕ)
      → (sid ≢ new_sid → u ≤ age s sid)
      → IsOldest (i + 1) best sids u j
      → IsOldest i best (sid ∷ sids) u j
  extend_keep i sid u j best sids w o = record {
    le_best = o.le_best;
    le_all = λ y c n. elim (Bool-cases (sid == y)) [
      | inl e ↦
          let q = (==_iff sid y).0 e in
          let a : age s sid ≡ age s y = ap (age s) q in
          let b = w (λ t. n (sym q ∙ t)) in omega arith
      | inr e ↦ o.le_all y (ground arith) n
    ];
    found = elim o.found [ inl b ↦ inl b | inr l ↦ inr (Later-cons i sid u j best sids l) ];
  }

  extend_new :
      (i sid u j : ℕ) (best : Option (ℕ × ℕ)) (sids : List ℕ)
      → sid ≢ new_sid
      → ((v k : ℕ) → best ≡ some (v, k) → age s sid ≤ v)
      → IsOldest (i + 1) (some (age s sid, i)) sids u j
      → IsOldest i best (sid ∷ sids) u j
  extend_new i sid u j best sids n w o =
      let a = o.le_best (age s sid) i refl in
      let k = extend_keep i sid u j (some (age s sid, i)) sids (λ _. a) o in
      record {
        le_best = λ v b e. omega (arith, w v b e, a);
        le_all = k.le_all;
        found = elim o.found [
          | inl b ↦ inr (0, sid, ground arith, refl, n, ground arith)
          | inr l ↦ inr (Later-cons i sid u j best sids l)
        ];
      }

  abbrev Answers : ℕ → Option (ℕ × ℕ) → Option (ℕ × ℕ) → List ℕ → Type 0
  Answers i r best sids = (u : ℕ) × (j : ℕ) × (r ≡ some (u, j)) × IsOldest i best sids u j

  Answers-keep :
      (i sid v k : ℕ) (r : Option (ℕ × ℕ)) (sids : List ℕ)
      → (sid ≡ new_sid) ⊎ (v ≤ age s sid)
      → Answers (i + 1) r (some (v, k)) sids
      → Answers i r (some (v, k)) (sid ∷ sids)
  Answers-keep i sid v k r sids w (u, j, q, o) =
      let b = o.le_best v k refl in
      (
        u,
        j,
        q,
        extend_keep i sid u j (some (v, k)) sids
            (λ n. elim w [ inl e ↦ absurd (n e) | inr l ↦ omega arith ]) o,
      )

  Answers-new :
      (i sid : ℕ) (r best : Option (ℕ × ℕ)) (sids : List ℕ)
      → sid ≢ new_sid
      → ((v k : ℕ) → best ≡ some (v, k) → age s sid ≤ v)
      → Answers (i + 1) r (some (age s sid, i)) sids
      → Answers i r best (sid ∷ sids)
  Answers-new i sid r best sids n w (u, j, q, o) = (u, j, q, extend_new i sid u j best sids n w o)

  Answers-skip :
      (i sid : ℕ) (r : Option (ℕ × ℕ)) (sids : List ℕ)
      → sid ≡ new_sid
      → Answers (i + 1) r none sids
      → Answers i r none (sid ∷ sids)
  Answers-skip i sid r sids e (u, j, q, o) =
      (u, j, q, extend_keep i sid u j none sids (λ n. absurd (n e)) o)

  oldest-some :
      (i v k : ℕ) (sids : List ℕ)
      → Answers i (oldest s new_sid i (some (v, k)) sids) (some (v, k)) sids
  unfolding oldest
  oldest-some i v k [] = (
    v,
    k,
    refl,
    record {
      le_best = λ w l e. ground arith;
      le_all = λ y c n. absurd (omega arith);
      found = inl refl;
    },
  )
  oldest-some i v k (sid ∷ sids) = elim (Bool-cases (sid == new_sid)) [
    | inl e ↦ rw e (
        Answers-keep i sid v k _ sids (inl ((==_iff sid new_sid).0 e))
          (oldest-some (i + 1) v k sids))
    | inr e ↦ elim (Bool-cases (ltb (age s sid) v)) [
      | inl l ↦
          rw (e, l, older)
            (Answers-new i sid _ (some (v, k)) sids (λ q. ground arith) (λ w b q. ground arith)
              (oldest-some (i + 1) (age s sid) i sids))
      | inr l ↦
          rw (e, l, older)
            (Answers-keep i sid v k _ sids (inr (ground arith)) (oldest-some (i + 1) v k sids))
    ]
  ]

  -- With a segment other than the new one there, the loop finds the oldest such segment.
  oldest-none :
      (i : ℕ) (sids : List ℕ)
      → count new_sid sids < length sids
      → Answers i (oldest s new_sid i none sids) none sids
  unfolding oldest
  oldest-none i [] h = absurd (omega arith)
  oldest-none i (sid ∷ sids) h = elim (Bool-cases (sid == new_sid)) [
    | inl e ↦ rw e (
        Answers-skip i sid _ sids ((==_iff sid new_sid).0 e)
          (oldest-none (i + 1) sids (ground arith)))
    | inr e ↦
        rw (e, older)
          (Answers-new i sid _ none sids (λ q. ground arith) (λ w b q. absurd (cc))
            (oldest-some (i + 1) (age s sid) i sids))
  ]

count-erase_at :
    (x k sid : ℕ) (sids : List ℕ)
    → get_elem? sids k ≡ some sid
    → count x sids ≡ count x (erase_at k sids) + (if sid == x then 1 else 0)
unfolding erase_at
count-erase_at x k sid [] h = absurd (cc)
count-erase_at x zero sid (y ∷ sids) h = ground arith
count-erase_at x (suc k) sid (y ∷ sids) h = ground (arith, count-erase_at x k sid sids h)

length-erase_at :
    (k sid : ℕ) (sids : List ℕ)
    → get_elem? sids k ≡ some sid
    → length sids ≡ length (erase_at k sids) + 1
unfolding erase_at
length-erase_at k sid [] h = absurd (cc)
length-erase_at zero sid (y ∷ sids) h = omega arith
length-erase_at (suc k) sid (y ∷ sids) h = omega (arith, length-erase_at k sid sids h)

erase_at-TidsFrom :
    (s : Segments) (lo k : ℕ) (sids : List ℕ) → TidsFrom s lo sids → TidsFrom s lo (erase_at k sids)
unfolding erase_at
erase_at-TidsFrom s lo zero [] v = tt
erase_at-TidsFrom s lo (suc k) [] v = tt
erase_at-TidsFrom s lo zero (y ∷ sids) v =
    TidsFrom-mono s 0 lo (suc (tid_of s y)) sids (omega arith) v.1
erase_at-TidsFrom s lo (suc k) (y ∷ sids) v =
    (v.0, erase_at-TidsFrom s (suc (tid_of s y)) k sids v.1)

-- What forgetting leaves of a set that is too large: all but one segment, which is not the new
-- one, and than which no other old segment is older.
pub record IsForgotten (s : Segments) (new_sid : ℕ) (sids r : List ℕ) (sid : ℕ) : Type 0 where
  pub old : sid ≢ new_sid
  pub counts : (x : ℕ) → count x sids ≡ count x r + (if sid == x then 1 else 0)
  pub shorter : length sids ≡ length r + 1
  pub oldest_gone : (y : ℕ) → 0 < count y sids → y ≢ new_sid → age s sid ≤ age s y

erase_oldest-IsForgotten :
    (s : Segments) (new_sid : ℕ) (o : Option (ℕ × ℕ)) (sids : List ℕ)
    → Answers s new_sid 0 o none sids
    → (sid : ℕ) × IsForgotten s new_sid sids (erase_at (place o) sids) sid
erase_oldest-IsForgotten s new_sid o sids (u, j, q, a) = elim a.found [
  | inl b ↦ absurd (cc)
  | inr (k, sid, e, g, n, w) ↦
      let p : place o ≡ k = ap place q ∙ (omega arith) in
      (
        sid,
        rw p (record {
          old = n;
          counts = λ x. count-erase_at x k sid sids g;
          shorter = length-erase_at k sid sids g;
          oldest_gone = λ y c m. omega (arith, a.le_all y c m);
        }),
      )
]

pub forget_full-IsForgotten :
    (s : Segments) (new_sid : ℕ) (sids : List ℕ)
    → max_segment_set_size < length sids
    → count new_sid sids ≤ 1
    → (sid : ℕ) × IsForgotten s new_sid sids (forget_if_full s new_sid sids) sid
unfolding forget_if_full
forget_full-IsForgotten s new_sid sids l c =
    let e : ltb max_segment_set_size (length sids) ≡ true = ground arith in
    rw e (erase_oldest-IsForgotten s new_sid _ sids (oldest-none s new_sid 0 sids (omega arith)))

-- A set that is not too large stays.
pub forget_small :
    (s : Segments) (new_sid : ℕ) (sids : List ℕ)
    → length sids ≤ max_segment_set_size
    → forget_if_full s new_sid sids ≡ sids
unfolding forget_if_full
forget_small s new_sid sids l =
    let e : ltb max_segment_set_size (length sids) ≡ false = ground arith in rw e refl

pub forget-TidsFrom :
    (s : Segments) (new_sid lo : ℕ) (sids : List ℕ)
    → TidsFrom s lo sids
    → TidsFrom s lo (forget_if_full s new_sid sids)
unfolding forget_if_full
forget-TidsFrom s new_sid lo sids v = elim (Bool-cases (ltb max_segment_set_size (length sids))) [
  | inl e ↦ rw e (erase_at-TidsFrom s lo _ sids v)
  | inr e ↦ rw e v
]
