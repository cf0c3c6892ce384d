-- ===== src/CacheLines/Prepared.antt =====
-- A word of a cache line, tsan/thread_sanitizer.cc, that stands for the shadow values of its eight bytes, and
-- what is made of it before an access.
use data_race_test.Prelude.{
  ℕ, ◌+◌, ◌*◌, ◌/◌, ◌%◌, ◌<◌, ◌≤◌, ◌≡◌, ◌⊎◌, inl, inr, refl, sym, ap, ◌∙◌, Bool, true, false,
  Option, none, some, List, ltb, ltb→lt, arith, Bool-cases, ◌==◌,
}
use data_race_test.Shadow.{ShadowValue}
use data_race_test.CacheLines.{Word}
use data_race_test.CacheLines.Covers.{
  whole_quarter, bytes, Half, whole_half, quarters, Cover, whole_word, halves, bits, slot, view,
  IsWord, slot_in_half,
}
use data_race_test.CacheLines.Accesses.{
  no_bits, all_8, all_4, all_2, all_1, start_gr, Route, prepare_8, prepare_4, prepare_2, prepare_1,
  prepare, accesses, prepare_byte,
}
use data_race_test.CacheLines.Tiling.{IsStart, Tiles}
use data_race_test.CacheLines.Ready.{
  Ready, word_of, start_known, bits_some, Chain, bytes-Chain, prepare_8-Ready, prepare_4-Ready,
  prepare_2-Ready, prepare_1-Ready,
}

-- The word has no granularity and no values yet, or a cover at which it is well formed.
abbrev pub IsUnused : Word → Type 0
IsUnused w = (no_bits w.gr ≡ true) × ((r : ℕ) → r < 8 → w.has r ≡ false)

-- The values of the bytes that the word stands for.
abbrev pub Stands : Word → (ℕ → Option ShadowValue) → Type 0
Stands w f =
    (IsUnused w × ((r : ℕ) → r < 8 → f r ≡ none))
    ⊎ ((c : Cover) × IsWord c w × ((r : ℕ) → r < 8 → view c w r ≡ f r))

-- The access can be made: it comes to calls that follow one another over exactly its bytes, each at the
-- place of one value, in a word that stands for the same values.
abbrev pub Prepared : (ℕ → Option ShadowValue) → ℕ → ℕ → Option Route → Type 0
Prepared f off size o =
    (p : Route) × (d : Cover) × (o ≡ some p)
    × (IsWord d (word_of p) × ((r : ℕ) → r < 8 → view d (word_of p) r ≡ f r))
    × ((l : List (ℕ × ℕ)) × (accesses p off size ≡ some l) × Tiles d off (off + size) l)

started-IsWord : (c : Cover) (w : Word) → IsUnused w → IsWord c (start_gr (bits c) w)
unfolding start_gr
started-IsWord c w (e, n) =
    rw (start_gr, e) (record { bits = refl; only = λ r q h. absurd (cc (n r q)) })

started-view :
    (c : Cover) (w : Word) (r : ℕ)
    → IsUnused w
    → slot c r < 8
    → view c (start_gr (bits c) w) r ≡ none
unfolding start_gr
started-view c w r (e, n) q = let b = n (slot c r) q in rw (start_gr, e, b) refl

half_slot_lt :
    (a : Half) (base off : ℕ) → base ≤ off → off < base + 4 → slot_in_half a base off < base + 4
half_slot_lt whole_half base off h k = omega arith
half_slot_lt (quarters whole_quarter whole_quarter) base off h k = ground arith
half_slot_lt (quarters whole_quarter bytes) base off h k = ground arith
half_slot_lt (quarters bytes whole_quarter) base off h k = ground arith
half_slot_lt (quarters bytes bytes) base off h k = ground arith

slot_lt : (c : Cover) (r : ℕ) → r < 8 → slot c r < 8
slot_lt whole_word r q = omega arith
slot_lt (halves a b) r q = elim (Bool-cases (ltb r 4)) [
  | inl e ↦ rw e (omega (arith, half_slot_lt a 0 r (omega arith) (ltb→lt r 4 e)))
  | inr e ↦ rw e (half_slot_lt b 4 r (ground arith) q)
]

prepared :
    (c : Cover) (g : Word → Option Route) (off size : ℕ) (w : Word) (f : ℕ → Option ShadowValue)
    → ((d : Cover) (v : Word) → IsWord d v → Ready d v off size (g v))
    → g w ≡ g (start_gr (bits c) w) ⊎ (¬ IsUnused w)
    → Stands w f
    → Prepared f off size (g w)
prepared c g off size w f h s (inr (d, k, v)) =
    let r = h d w k in (r.0, r.1, r.2, (r.3.0, λ n q. r.3.1 n q ∙ v n q), r.4)
prepared c g off size w f h (inr n) (inl (u, z)) = absurd (n u)
prepared c g off size w f h (inl e) (inl (u, z)) =
    let v = start_gr (bits c) w in
    let r = h c v (started-IsWord c w u) in
    (
      r.0,
      r.1,
      e ∙ r.2,
      (r.3.0, λ n q. r.3.1 n q ∙ (started-view c w n u (slot_lt c n q) ∙ sym (z n q))),
      r.4,
    )

-- An unused word is started once: starting it again changes nothing.
started_once :
    (c : Cover) (gr : List Bool) (w : Word)
    → IsUnused w
    → start_gr gr (start_gr (bits c) w) ≡ start_gr (bits c) w
started_once c gr w u = start_known c (start_gr (bits c) w) gr (started-IsWord c w u)

used : (w : Word) (f : ℕ → Option ShadowValue) → Stands w f → IsUnused w ⊎ (¬ IsUnused w)
used w f (inl (u, z)) = inl u
used w f (inr (c, h, v)) = inr (λ u. absurd (cc ((sym (u.0) ∙ (ap no_bits h.bits ∙ bits_some c)))))

by_quarters : Half
by_quarters = quarters whole_quarter whole_quarter

prepare_8-Prepared :
    (w : Word) (f : ℕ → Option ShadowValue) → Stands w f → Prepared f 0 8 (prepare_8 w)
unfolding prepare_8
prepare_8-Prepared w f s =
    prepared whole_word prepare_8 0 8 w f (λ d v h. prepare_8-Ready d v h)
      (elim (used w f s) [
        | inl u ↦ inl (rw (prepare_8, started_once whole_word all_8 w u) refl)
        | inr n ↦ inr n
      ])
      s

prepare_4-Prepared :
    (half : ℕ) (w : Word) (f : ℕ → Option ShadowValue)
    → half < 2
    → Stands w f
    → Prepared f (4 * half) 4 (prepare_4 half w)
unfolding prepare_4
prepare_4-Prepared half w f q s =
    prepared (halves whole_half whole_half) (prepare_4 half) (4 * half) 4 w f
      (λ d v h. prepare_4-Ready half d v q h)
      (elim (used w f s) [
        | inl u ↦ inl (rw (prepare_4, started_once (halves whole_half whole_half) all_4 w u) refl)
        | inr n ↦ inr n
      ])
      s

abbrev in_quarters : Cover
in_quarters = halves (quarters whole_quarter whole_quarter) (quarters whole_quarter whole_quarter)

abbrev in_bytes : Cover
in_bytes = halves (quarters bytes bytes) (quarters bytes bytes)

prepare_2-Prepared :
    (quarter : ℕ) (w : Word) (f : ℕ → Option ShadowValue)
    → quarter < 4
    → Stands w f
    → Prepared f (2 * quarter) 2 (prepare_2 quarter w)
unfolding prepare_2
prepare_2-Prepared quarter w f q s =
    prepared in_quarters (prepare_2 quarter) (2 * quarter) 2 w f
      (λ d v h. prepare_2-Ready quarter d v q h)
      (elim (used w f s) [
        | inl u ↦ inl (rw (prepare_2, started_once in_quarters all_2 w u) refl)
        | inr n ↦ inr n
      ])
      s

prepare_1-Prepared :
    (off : ℕ) (w : Word) (f : ℕ → Option ShadowValue)
    → off < 8
    → Stands w f
    → Prepared f off 1 (prepare_1 off w)
unfolding prepare_1
prepare_1-Prepared off w f q s =
    prepared in_bytes (prepare_1 off) off 1 w f (λ d v h. prepare_1-Ready off d v q h)
      (elim (used w f s) [
        | inl u ↦ inl (rw (prepare_1, started_once in_bytes all_1 w u) refl)
        | inr n ↦ inr n
      ])
      s

-- An access of 1, 2, 4 or 8 bytes at an offset that its size divides.
abbrev pub Aligned : ℕ → ℕ → Type 0
Aligned size off =
    ((size ≡ 8) × (off ≡ 0))
    ⊎ (((size ≡ 4) × ((off < 8) × (off % 4 ≡ 0)))
        ⊎ (((size ≡ 2) × ((off < 8) × (off % 2 ≡ 0))) ⊎ ((size ≡ 1) × (off < 8))))

-- For an aligned access of 1, 2, 4 or 8 bytes to a word that stands for some shadow values of its
-- bytes, the splits and joins of HandleAccessGranularityAndExecuteHelper fail no CHECK and leave a
-- well-formed word that stands for the same values; the loop of the access ends, and its calls
-- follow one another over exactly the bytes of the access, each at the place of one value.
pub prepare-Prepared :
    (size off : ℕ) (w : Word) (f : ℕ → Option ShadowValue)
    → Aligned size off
    → Stands w f
    → Prepared f off size (prepare size off w)
unfolding prepare
prepare-Prepared size off w f (inl (e, z)) s = rw (e, z) (prepare_8-Prepared w f s)
prepare-Prepared size off w f (inr (inl (e, (l, z)))) s =
    let q : 4 * (off / 4) ≡ off = omega arith in
    let b : (off % 4 == 0) ≡ true = ground arith in
    let p = prepare_4-Prepared (off / 4) w f (omega arith) s in rw (e, prepare, b) (rw q at p)
prepare-Prepared size off w f (inr (inr (inl (e, (l, z))))) s =
    let q : 2 * (off / 2) ≡ off = omega arith in
    let b : (off % 2 == 0) ≡ true = ground arith in
    let p = prepare_2-Prepared (off / 2) w f (omega arith) s in rw (e, prepare, b) (rw q at p)
prepare-Prepared size off w f (inr (inr (inr (e, l)))) s = rw e (prepare_1-Prepared off w f l s)

-- A byte of an access that is made byte by byte gets a place of its own, and every byte keeps its value.
pub prepare_byte-Stands :
    (c : Cover) (w : Word) (off : ℕ)
    → off < 8
    → IsWord c w
    → Chain c w (λ d. IsStart d off × IsStart d (off + 1)) (prepare_byte off w)
unfolding prepare_byte
prepare_byte-Stands c w off q h =
    rw (prepare_byte, start_known c w all_8 h) (bytes-Chain off c w q h)
