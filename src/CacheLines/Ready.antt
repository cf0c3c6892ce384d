-- ===== src/CacheLines/Ready.antt =====
-- What HandleAccessGranularityAndExecuteHelper does with the granularity of a word before an aligned
-- access of 1, 2, 4 or 8 bytes, and which calls the access comes to.
use data_race_test.Prelude.{
  ℕ, zero, suc, ◌+◌, ◌*◌, ◌/◌, ◌<◌, ◌≡◌, ◌≢◌, inl, inr, refl, sym, ap, ◌∙◌, Bool, true, false,
  Option, some, List, [], ◌∷◌, arith, Bool-cases,
}
use data_race_test.CacheLines.{
  Word, granularity_is_8, granularity_is_4, granularity_is_2, granularity_is_1, split_8_to_4,
  split_4_to_2, split_2_to_1,
}
use data_race_test.CacheLines.Covers.{
  whole_quarter, bytes, whole_half, quarters, Cover, whole_word, halves, bits, slot, view, IsWord,
  Keeps, below_8, Opens4, Opens2, Opens1, OpensNone,
}
use data_race_test.CacheLines.Splits.{split_8_to_4-Keeps, split_4_to_2-Keeps, split_2_to_1-Keeps}
use data_race_test.CacheLines.Joins.{join_4_to_8-Keeps, join_2_to_4-Keeps, join_1_to_2-Keeps}
use data_race_test.CacheLines.Accesses.{
  no_bits, all_8, all_4, all_2, all_1, start_gr, and_do, Route, one_call, slow_path, slow,
  prepare_8, prepare_4, prepare_2, prepare_1, accesses,
}
use data_race_test.CacheLines.Tiling.{IsStart, OneSlot, Tiles, access_loop-Tiles}

abbrev pub word_of : Route → Word
word_of (one_call w) = w
word_of (slow_path w) = w

-- The access fails no CHECK and leaves a well-formed word in which every byte has the value it had; its
-- calls follow one another over exactly its bytes, each at the place of one value.
abbrev pub Ready : Cover → Word → ℕ → ℕ → Option Route → Type 0
Ready c w off size o =
    (p : Route) × (d : Cover) × (o ≡ some p)
    × (IsWord d (word_of p) × ((r : ℕ) → r < 8 → view d (word_of p) r ≡ view c w r))
    × ((l : List (ℕ × ℕ)) × (accesses p off size ≡ some l) × Tiles d off (off + size) l)

-- Some operations, none of which fails or changes a byte's value.
abbrev pub Chain : Cover → Word → (Cover → Type 0) → Option Word → Type 0
Chain c w Q o =
    (v : Word) × (d : Cover) × (o ≡ some v)
    × ((IsWord d v × Q d) × ((r : ℕ) → r < 8 → view d v r ≡ view c w r))

Keeps-Chain :
    (c : Cover) (w : Word) (lost : ℕ) (P Q : Cover → Type 0) (o : Option Word)
    → Keeps c w lost P o
    → ((d : Cover)
        → ((off : ℕ) → off < 8 → slot c off ≡ off → off ≢ lost → slot d off ≡ off)
        → P d
        → Q d)
    → Chain c w Q o
Keeps-Chain c w lost P Q o (v, d, e, (s, p)) q = (v, d, e, ((s.word, q d s.starts p), s.values))

and_do-Chain :
    (c : Cover) (w : Word) (Q R : Cover → Type 0) (o : Option Word) (f : Word → Option Word)
    → Chain c w Q o
    → ((v : Word) (d : Cover) → IsWord d v → Q d → Chain d v R (f v))
    → Chain c w R (and_do o f)
unfolding and_do
and_do-Chain c w Q R o f (v, d, e, ((h, q), s)) k =
    let n = k v d h q in (n.0, n.1, rw (e, and_do) n.2, (n.3.0, λ r b. n.3.1 r b ∙ s r b))

pub bits_some : (c : Cover) → no_bits (bits c) ≡ false
unfolding no_bits
bits_some whole_word = refl
bits_some (halves whole_half b) = refl
bits_some (halves (quarters x y) whole_half) = refl
bits_some (halves (quarters whole_quarter y) (quarters z u)) = refl
bits_some (halves (quarters bytes whole_quarter) (quarters z u)) = refl
bits_some (halves (quarters bytes bytes) (quarters whole_quarter u)) = refl
bits_some (halves (quarters bytes bytes) (quarters bytes whole_quarter)) = refl
bits_some (halves (quarters bytes bytes) (quarters bytes bytes)) = refl

pub start_known : (c : Cover) (w : Word) (gr : List Bool) → IsWord c w → start_gr gr w ≡ w
unfolding start_gr
start_known c w gr h =
    let b : no_bits w.gr ≡ false = ap no_bits h.bits ∙ bits_some c in rw (start_gr, b) refl

slow-Ready :
    (c : Cover) (w : Word) (off size : ℕ) (o : Option Word)
    → Chain c w (λ d. IsStart d off × IsStart d (off + size)) o
    → Ready c w off size (slow o)
unfolding slow accesses
slow-Ready c w off size o (v, d, e, ((h, q), s)) =
    let b : no_bits v.gr ≡ false = ap no_bits h.bits ∙ bits_some d in
    let t = access_loop-Tiles size d off (off + size) q.0 q.1 (omega arith) (omega arith) in
    (slow_path v, d, rw (e, slow, b) refl, (h, s), (t.0, rw (h.bits) t.1, t.2))

one_call-Ready :
    (c : Cover) (w : Word) (off size : ℕ)
    → IsWord c w
    → 0 < size
    → OneSlot c off size
    → Ready c w off size (some (one_call w))
unfolding accesses
one_call-Ready c w off size h z o =
    (one_call w, c, refl, (h, λ r q. refl), ((off, size) ∷ [], refl, (refl, (z, (o, refl)))))

slot_zero : (d : Cover) → slot d 0 ≡ 0
slot_zero whole_word = refl
slot_zero (halves whole_half b) = refl
slot_zero (halves (quarters whole_quarter y) b) = refl
slot_zero (halves (quarters bytes y) b) = refl

OneSlot-8 : (c : Cover) → granularity_is_8 (bits c) ≡ true → OneSlot c 0 8
OneSlot-8 whole_word e z l m = refl
OneSlot-8 (halves a b) e z l m = absurd (cc)

OneSlot-4 :
    (half : ℕ) (c : Cover)
    → half < 2
    → granularity_is_4 (bits c) half ≡ true
    → OneSlot c (4 * half) 4
OneSlot-4 zero whole_word q e z l m = absurd (cc)
OneSlot-4 zero (halves whole_half b) q e z l m = ground arith
OneSlot-4 zero (halves (quarters x y) b) q e z l m = absurd (cc)
OneSlot-4 (suc zero) whole_word q e z l m = absurd (cc)
OneSlot-4 (suc zero) (halves a whole_half) q e z l m = ground arith
OneSlot-4 (suc zero) (halves a (quarters x y)) q e z l m = absurd (cc)
OneSlot-4 (suc (suc n)) c q e z l m = absurd (omega arith)

OneSlot-2 :
    (quarter : ℕ) (c : Cover)
    → quarter < 4
    → granularity_is_2 (bits c) quarter ≡ true
    → OneSlot c (2 * quarter) 2
OneSlot-2 zero whole_word q e z l m = absurd (cc)
OneSlot-2 zero (halves whole_half b) q e z l m = absurd (cc)
OneSlot-2 zero (halves (quarters whole_quarter y) b) q e z l m = ground arith
OneSlot-2 zero (halves (quarters bytes y) b) q e z l m = absurd (cc)
OneSlot-2 (suc zero) whole_word q e z l m = absurd (cc)
OneSlot-2 (suc zero) (halves whole_half b) q e z l m = absurd (cc)
OneSlot-2 (suc zero) (halves (quarters x whole_quarter) b) q e z l m = ground arith
OneSlot-2 (suc zero) (halves (quarters x bytes) b) q e z l m = absurd (cc)
OneSlot-2 (suc (suc zero)) whole_word q e z l m = absurd (cc)
OneSlot-2 (suc (suc zero)) (halves a whole_half) q e z l m = absurd (cc)
OneSlot-2 (suc (suc zero)) (halves a (quarters whole_quarter y)) q e z l m = ground arith
OneSlot-2 (suc (suc zero)) (halves a (quarters bytes y)) q e z l m = absurd (cc)
OneSlot-2 (suc (suc (suc zero))) whole_word q e z l m = absurd (cc)
OneSlot-2 (suc (suc (suc zero))) (halves a whole_half) q e z l m = absurd (cc)
OneSlot-2 (suc (suc (suc zero))) (halves a (quarters x whole_quarter)) q e z l m = ground arith
OneSlot-2 (suc (suc (suc zero))) (halves a (quarters x bytes)) q e z l m = absurd (cc)
OneSlot-2 (suc (suc (suc (suc n)))) c q e z l m = absurd (omega arith)

OneSlot-1 : (off : ℕ) (c : Cover) → off < 8 → granularity_is_1 (bits c) off ≡ true → OneSlot c off 1
OneSlot-1 zero whole_word q e z l m = absurd (cc)
OneSlot-1 zero (halves whole_half b) q e z l m = absurd (cc)
OneSlot-1 zero (halves (quarters whole_quarter y) b) q e z l m = absurd (cc)
OneSlot-1 zero (halves (quarters bytes y) b) q e z l m = ground arith
OneSlot-1 (suc zero) whole_word q e z l m = absurd (cc)
OneSlot-1 (suc zero) (halves whole_half b) q e z l m = absurd (cc)
OneSlot-1 (suc zero) (halves (quarters whole_quarter y) b) q e z l m = absurd (cc)
OneSlot-1 (suc zero) (halves (quarters bytes y) b) q e z l m = ground arith
OneSlot-1 (suc (suc zero)) whole_word q e z l m = absurd (cc)
OneSlot-1 (suc (suc zero)) (halves whole_half b) q e z l m = absurd (cc)
OneSlot-1 (suc (suc zero)) (halves (quarters x whole_quarter) b) q e z l m = absurd (cc)
OneSlot-1 (suc (suc zero)) (halves (quarters x bytes) b) q e z l m = ground arith
OneSlot-1 (suc (suc (suc zero))) whole_word q e z l m = absurd (cc)
OneSlot-1 (suc (suc (suc zero))) (halves whole_half b) q e z l m = absurd (cc)
OneSlot-1 (suc (suc (suc zero))) (halves (quarters x whole_quarter) b) q e z l m = absurd (cc)
OneSlot-1 (suc (suc (suc zero))) (halves (quarters x bytes) b) q e z l m = ground arith
OneSlot-1 (suc (suc (suc (suc zero)))) whole_word q e z l m = absurd (cc)
OneSlot-1 (suc (suc (suc (suc zero)))) (halves a whole_half) q e z l m = absurd (cc)
OneSlot-1 (suc (suc (suc (suc zero)))) (halves a (quarters whole_quarter y)) q e z l m = absurd (cc)
OneSlot-1 (suc (suc (suc (suc zero)))) (halves a (quarters bytes y)) q e z l m = ground arith
OneSlot-1 (suc (suc (suc (suc (suc zero))))) whole_word q e z l m = absurd (cc)
OneSlot-1 (suc (suc (suc (suc (suc zero))))) (halves a whole_half) q e z l m = absurd (cc)
OneSlot-1 (suc (suc (suc (suc (suc zero))))) (halves a (quarters whole_quarter y)) q e z l m =
    absurd (cc)
OneSlot-1 (suc (suc (suc (suc (suc zero))))) (halves a (quarters bytes y)) q e z l m = ground arith
OneSlot-1 (suc (suc (suc (suc (suc (suc zero)))))) whole_word q e z l m = absurd (cc)
OneSlot-1 (suc (suc (suc (suc (suc (suc zero)))))) (halves a whole_half) q e z l m = absurd (cc)
OneSlot-1 (suc (suc (suc (suc (suc (suc zero)))))) (halves a (quarters x whole_quarter)) q e z l m =
    absurd (cc)
OneSlot-1 (suc (suc (suc (suc (suc (suc zero)))))) (halves a (quarters x bytes)) q e z l m =
    ground arith
OneSlot-1 (suc (suc (suc (suc (suc (suc (suc zero))))))) whole_word q e z l m = absurd (cc)
OneSlot-1 (suc (suc (suc (suc (suc (suc (suc zero))))))) (halves a whole_half) q e z l m =
    absurd (cc)
OneSlot-1 (suc (suc (suc (suc (suc (suc (suc zero))))))) (halves a (quarters x whole_quarter)) q e z
      l m =
    absurd (cc)
OneSlot-1 (suc (suc (suc (suc (suc (suc (suc zero))))))) (halves a (quarters x bytes)) q e z l m =
    ground arith
OneSlot-1 (suc (suc (suc (suc (suc (suc (suc (suc n)))))))) c q e z l m = absurd (omega arith)

plain :
    (d : Cover) (v : Word) (lost : ℕ) (o : Option Word)
    → Keeps d v lost OpensNone o
    → Chain d v OpensNone o
plain d v lost o k = Keeps-Chain d v lost OpensNone OpensNone o k (λ e s p. tt)

pub prepare_8-Ready : (c : Cover) (w : Word) → IsWord c w → Ready c w 0 8 (prepare_8 w)
unfolding prepare_8
prepare_8-Ready c w h =
    rw (prepare_8, start_known c w all_8 h)
      (elim (Bool-cases (granularity_is_8 w.gr)) [
        | inl b ↦ rw b (
            one_call-Ready c w 0 8 h (omega arith)
              (OneSlot-8 c (sym (ap (λ (g : List Bool). granularity_is_8 g) h.bits) ∙ b)))
        | inr b ↦ rw b (
            slow-Ready c w 0 8 _ (
              and_do-Chain c w OpensNone _ _ _
                (and_do-Chain c w OpensNone OpensNone _ _
                  (and_do-Chain c w OpensNone OpensNone _ _
                    (and_do-Chain c w OpensNone OpensNone _ _
                      (and_do-Chain c w OpensNone OpensNone _ _
                        (and_do-Chain c w OpensNone OpensNone _ _
                          (plain c w _ _ (join_1_to_2-Keeps 0 c w (omega arith) h))
                          (λ v d k q. plain d v _ _ (join_1_to_2-Keeps 1 d v (omega arith) k)))
                        (λ v d k q. plain d v _ _ (join_1_to_2-Keeps 2 d v (omega arith) k)))
                      (λ v d k q. plain d v _ _ (join_1_to_2-Keeps 3 d v (omega arith) k)))
                    (λ v d k q. plain d v _ _ (join_2_to_4-Keeps 0 d v (omega arith) k)))
                  (λ v d k q. plain d v _ _ (join_2_to_4-Keeps 1 d v (omega arith) k)))
                (λ v d k q.
                  Keeps-Chain d v 4 OpensNone _ _ (join_4_to_8-Keeps d v k)
                    (λ e s p. (inl (omega arith, slot_zero e), inr refl)))))
      ])

-- The second half, and the second quarter of a half, have places of their own.
abbrev Opened : ℕ → Cover → Type 0
Opened half d = (slot d 4 ≡ 4) × (slot d (4 * half + 2) ≡ 4 * half + 2)

abbrev OpenedByte : ℕ → ℕ → Cover → Type 0
OpenedByte half quarter d = Opened half d × (slot d (2 * quarter + 1) ≡ 2 * quarter + 1)

-- Splitting a half keeps the second half's place and opens its second quarter.
opened :
    (half : ℕ) (c : Cover) (w : Word)
    → half < 2
    → IsWord c w
    → Opens4 c
    → Chain c w (Opened half) (split_4_to_2 half w)
opened half c w q h o =
    Keeps-Chain c w 8 (Opens2 c half) (Opened half) _ (split_4_to_2-Keeps half c w q h)
      (λ d s p. (s 4 (omega arith) o (ground arith), p o))

halves-IsStart :
    (half : ℕ) (d : Cover)
    → half < 2
    → slot d 4 ≡ 4
    → IsStart d (4 * half) × IsStart d (4 * half + 4)
halves-IsStart zero d q e = (inl (omega arith, slot_zero d), inl (omega arith, e))
halves-IsStart (suc zero) d q e = (inl (omega arith, e), inr refl)
halves-IsStart (suc (suc n)) d q e = absurd (omega arith)

quarters-IsStart :
    (quarter : ℕ) (d : Cover)
    → quarter < 4
    → Opened (quarter / 2) d
    → IsStart d (2 * quarter) × IsStart d (2 * quarter + 2)
quarters-IsStart zero d q e = (inl (omega arith, slot_zero d), inl (omega arith, e.1))
quarters-IsStart (suc zero) d q e = (inl (omega arith, e.1), inl (omega arith, e.0))
quarters-IsStart (suc (suc zero)) d q e = (inl (omega arith, e.0), inl (omega arith, e.1))
quarters-IsStart (suc (suc (suc zero))) d q e = (inl (omega arith, e.1), inr refl)
quarters-IsStart (suc (suc (suc (suc n)))) d q e = absurd (omega arith)

bytes-IsStart :
    (off : ℕ) (d : Cover)
    → off < 8
    → OpenedByte (off / 4) (off / 2) d
    → IsStart d off × IsStart d (off + 1)
bytes-IsStart off d q =
    below_8 (λ n. OpenedByte (n / 4) (n / 2) d → IsStart d n × IsStart d (n + 1))
      (λ e. (inl (omega arith, slot_zero d), inl (omega arith, e.1)))
      (λ e. (inl (omega arith, e.1), inl (omega arith, e.0.1)))
      (λ e. (inl (omega arith, e.0.1), inl (omega arith, e.1)))
      (λ e. (inl (omega arith, e.1), inl (omega arith, e.0.0)))
      (λ e. (inl (omega arith, e.0.0), inl (omega arith, e.1)))
      (λ e. (inl (omega arith, e.1), inl (omega arith, e.0.1)))
      (λ e. (inl (omega arith, e.0.1), inl (omega arith, e.1)))
      (λ e. (inl (omega arith, e.1), inr refl)) off q

pub prepare_4-Ready :
    (half : ℕ) (c : Cover) (w : Word)
    → half < 2
    → IsWord c w
    → Ready c w (4 * half) 4 (prepare_4 half w)
unfolding prepare_4
prepare_4-Ready half c w q h =
    rw (prepare_4, start_known c w all_4 h)
      (elim (Bool-cases (granularity_is_4 w.gr half)) [
        | inl b ↦ rw b (
            one_call-Ready c w (4 * half) 4 h (omega arith) (
              OneSlot-4 half c q
                (sym (ap (λ (g : List Bool). granularity_is_4 g half) h.bits) ∙ b)))
        | inr b ↦ rw b (
            slow-Ready c w (4 * half) 4 _ (
              and_do-Chain c w Opens4 _ _ _
                (and_do-Chain c w Opens4 Opens4 _ _
                  (and_do-Chain c w Opens4 Opens4 _ _
                    (Keeps-Chain c w 8 Opens4 Opens4 _ (split_8_to_4-Keeps c w h) (λ d s p. p))
                    (λ v d k o.
                      Keeps-Chain d v _ OpensNone Opens4 _
                        (join_1_to_2-Keeps (2 * half) d v (omega arith) k)
                        (λ e s p. s 4 (omega arith) o (λ x. absurd (omega arith)))))
                  (λ v d k o.
                    Keeps-Chain d v _ OpensNone Opens4 _
                      (join_1_to_2-Keeps (2 * half + 1) d v (omega arith) k)
                      (λ e s p. s 4 (omega arith) o (λ x. absurd (omega arith)))))
                (λ v d k o.
                  Keeps-Chain d v _ OpensNone _ _ (join_2_to_4-Keeps half d v q k) (λ e s p.
                    halves-IsStart half e q (s 4 (omega arith) o (λ x. absurd (omega arith)))))))
      ])

pub prepare_2-Ready :
    (quarter : ℕ) (c : Cover) (w : Word)
    → quarter < 4
    → IsWord c w
    → Ready c w (2 * quarter) 2 (prepare_2 quarter w)
unfolding prepare_2
prepare_2-Ready quarter c w q h =
    rw (prepare_2, start_known c w all_2 h)
      (elim (Bool-cases (granularity_is_2 w.gr quarter)) [
        | inl b ↦ rw b (
            one_call-Ready c w (2 * quarter) 2 h (omega arith) (
              OneSlot-2 quarter c q
                (sym (ap (λ (g : List Bool). granularity_is_2 g quarter) h.bits) ∙ b)))
        | inr b ↦ rw b (
            slow-Ready c w (2 * quarter) 2 _ (
              and_do-Chain c w (Opened (quarter / 2)) _ _ _
                (and_do-Chain c w Opens4 (Opened (quarter / 2)) _ _
                  (Keeps-Chain c w 8 Opens4 Opens4 _ (split_8_to_4-Keeps c w h) (λ d s p. p))
                  (λ v d k o. opened (quarter / 2) d v (omega arith) k o))
                (λ v d k o.
                  Keeps-Chain d v _ OpensNone _ _ (join_1_to_2-Keeps quarter d v q k) (λ e s p.
                    quarters-IsStart quarter e q (
                      s 4 (omega arith) o.0 (λ x. absurd (omega arith)),
                      s (4 * (quarter / 2) + 2) (omega arith) o.1 (λ x. absurd (omega arith)),
                    )))))
      ])

-- The splits down to the byte `off`.
pub bytes-Chain :
    (off : ℕ) (c : Cover) (w : Word)
    → off < 8
    → IsWord c w
    → Chain c w
        (λ d. IsStart d off × IsStart d (off + 1))
        (and_do (and_do (split_8_to_4 w) (split_4_to_2 (off / 4))) (split_2_to_1 (off / 2)))
bytes-Chain off c w q h =
    and_do-Chain c w (Opened (off / 4)) _ _ _
      (and_do-Chain c w Opens4 (Opened (off / 4)) _ _
        (Keeps-Chain c w 8 Opens4 Opens4 _ (split_8_to_4-Keeps c w h) (λ d s p. p))
        (λ v d k o. opened (off / 4) d v (omega arith) k o))
      (λ v d k o.
        Keeps-Chain d v 8 (Opens1 d ((off / 2) / 2) (off / 2)) _ _
          (split_2_to_1-Keeps (off / 2) d v (omega arith) k)
          (λ e s p. bytes-IsStart off e q (
            (
              s 4 (omega arith) o.0 (λ x. absurd (omega arith)),
              s (4 * (off / 4) + 2) (omega arith) o.1 (λ x. absurd (omega arith)),
            ),
            p (let f : (off / 2) / 2 ≡ off / 4 = omega arith in rw f o.1),
          )))

pub prepare_1-Ready :
    (off : ℕ) (c : Cover) (w : Word) → off < 8 → IsWord c w → Ready c w off 1 (prepare_1 off w)
unfolding prepare_1
prepare_1-Ready off c w q h =
    rw (prepare_1, start_known c w all_1 h)
      (elim (Bool-cases (granularity_is_1 w.gr off)) [
        | inl b ↦ rw b (
            one_call-Ready c w off 1 h (omega arith)
              (OneSlot-1 off c q (sym (ap (λ (g : List Bool). granularity_is_1 g off) h.bits) ∙ b)))
        | inr b ↦ rw b (slow-Ready c w off 1 _ (bytes-Chain off c w q h))
      ])
