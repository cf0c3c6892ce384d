-- ===== src/Shadow/Machine/Race.antt =====
-- CheckIfRace against its description: a pair of accesses with no lock in common, of which none
-- happens before the other.
use data_race_test.Prelude.{
  ℕ, ◌<◌, ◌^◌, ◌≡◌, ◌↔◌, ◌⊎◌, inl, inr, refl, ◌∙◌, Bool, true, false, List, [], ◌∷◌, Option, some,
  length, arith, Bool-cases, ℤ,
}
use data_race_test.LockSets.{LockSets, intersection_is_empty}
use data_race_test.LockSets.Contents.{set_of, contents}
use data_race_test.LockSets.Contents
use data_race_test.LockSets.Intersect.{IsDisjoint, intersection_is_empty-Decides}
use data_race_test.Segments.{Segments}
use data_race_test.SegmentSets.Tuple.{happens_before_or_same_thread}
use data_race_test.Shadow.Machine.{
  World, sids_of, or_else, write_loop, read_loop, race_loop, race_in, check_if_race,
}

-- What a search of the code leaves: the lock set tables are valid and mean the same, and the
-- answer is whether `P` holds.
abbrev pub Finds : LockSets → Type 0 → Option (LockSets × Bool) → Type 0
Finds l P o =
    (l' : LockSets) × (v : Bool) × (o ≡ some (l', v))
    × Contents.IsValid l'
    × (l'.vec ≡ l.vec)
    × ((v ≡ true) ↔ P)

or_else-Finds :
    (l : LockSets) (P Q : Type 0) (o : Option (LockSets × Bool))
    (k : LockSets → Option (LockSets × Bool))
    → Finds l P o
    → ((l' : LockSets) → Contents.IsValid l' → l'.vec ≡ l.vec → Finds l' Q (k l'))
    → Finds l (P ⊎ Q) (or_else o k)
unfolding or_else
or_else-Finds l P Q o k (l', true, e, v, m, p) f =
    (l', true, rw (e, or_else) refl, v, m, (λ h. inl (p.0 h), λ h. refl))
or_else-Finds l P Q o k (l', false, e, v, m, p) f =
    let (l'', b, e', v', m', q) = f l' v m in
    (
      l'',
      b,
      rw (e, or_else) e',
      v',
      m' ∙ m,
      (λ h. inr (q.0 h), λ h. elim h [ inl x ↦ absurd (false_ne (p.1 x)) | inr x ↦ q.1 x ]),
    )
  where
    false_ne : false ≡ true → ⊥
    false_ne e = ground arith

module _ (g : Segments) (vec : List (List ℕ)) (W R : ℕ → List ℕ) where
  -- The locks that each segment held for writing and for reading.
  pub record Knows : Type 0 where
    pub writes : (sid : ℕ) → set_of vec (g.all sid).wr_lsid ≡ some (W sid)
    pub reads : (sid : ℕ) → set_of vec (g.all sid).rd_lsid ≡ some (R sid)

  -- Another writer in the list holds no lock of the writer.
  abbrev pub RacesWithWrite : ℕ → List ℕ → Type 0
  RacesWithWrite w1 [] = ⊥
  RacesWithWrite w1 (w2 ∷ ws) = IsDisjoint (W w1) (W w2) ⊎ RacesWithWrite w1 ws

  -- A reader in the list after which the writer is not ordered holds no lock of the writer.
  abbrev pub RacesWithRead : ℕ → List ℕ → Type 0
  RacesWithRead w1 [] = ⊥
  RacesWithRead w1 (r ∷ rs) =
      ((happens_before_or_same_thread g w1 r ≡ false) × IsDisjoint (W w1) (R r))
      ⊎ RacesWithRead w1 rs

  -- Two of the writers race, or a writer and a reader.
  abbrev pub HasRace : List ℕ → List ℕ → Type 0
  HasRace [] rs = ⊥
  HasRace (w1 ∷ ws) rs = (RacesWithWrite w1 ws ⊎ RacesWithRead w1 rs) ⊎ HasRace ws rs

  module _ (small : length vec < 2 ^ 31) (k : Knows) where
    nothing-Finds : (l : LockSets) → Contents.IsValid l → Finds l ⊥ (some (l, false))
    nothing-Finds l v = (l, false, refl, v, refl, (λ h. ground arith, λ h. absurd h))

    decide-Finds :
        (l : LockSets) (a b : ℤ) (m n : List ℕ)
        → Contents.IsValid l
        → l.vec ≡ vec
        → set_of vec a ≡ some m
        → set_of vec b ≡ some n
        → Finds l (IsDisjoint m n) (intersection_is_empty l a b)
    decide-Finds l a b m n v e h h' =
        intersection_is_empty-Decides l a b m n v (rw e small) (rw e h) (rw e h')

    write_loop-Finds :
        (ws : List ℕ) (w1 : ℕ) (l : LockSets)
        → Contents.IsValid l
        → l.vec ≡ vec
        → Finds l (RacesWithWrite w1 ws) (write_loop g ws w1 l)
    unfolding write_loop
    write_loop-Finds [] w1 l v e = nothing-Finds l v
    write_loop-Finds (w2 ∷ ws) w1 l v e =
        or_else-Finds l _ _ _ (write_loop g ws w1)
          (decide-Finds l _ _ (W w1) (W w2) v e (k.writes w1) (k.writes w2))
          (λ l' v' m. write_loop-Finds ws w1 l' v' (m ∙ e))

    skip-Finds :
        (l : LockSets) (P Q : Type 0) (o : Option (LockSets × Bool))
        → (P → ⊥)
        → Finds l Q o
        → Finds l (P ⊎ Q) o
    skip-Finds l P Q o n (l', b, e, v, m, q) =
        (l', b, e, v, m, (λ h. inr (q.0 h), λ h. elim h [ inl p ↦ absurd (n p) | inr x ↦ q.1 x ]))

    also-Finds :
        (l : LockSets) (P Q : Type 0) (o : Option (LockSets × Bool))
        → P
        → Finds l Q o
        → Finds l (P × Q) o
    also-Finds l P Q o p (l', b, e, v, m, q) = (l', b, e, v, m, (λ h. (p, q.0 h), λ h. q.1 h.1))

    read_loop-Finds :
        (rs : List ℕ) (w1 : ℕ) (l : LockSets)
        → Contents.IsValid l
        → l.vec ≡ vec
        → Finds l (RacesWithRead w1 rs) (read_loop g rs w1 l)
    unfolding read_loop
    read_loop-Finds [] w1 l v e = nothing-Finds l v
    read_loop-Finds (r ∷ rs) w1 l v e = elim (Bool-cases (happens_before_or_same_thread g w1 r)) [
      | inl b ↦
          rw (read_loop, b) (skip-Finds l _ _ _ (λ p. ground arith) (read_loop-Finds rs w1 l v e))
      | inr b ↦
          rw (read_loop, b)
            (or_else-Finds l _ _ _ (read_loop g rs w1)
              (also-Finds l _ _ _ refl
                (decide-Finds l _ _ (W w1) (R r) v e (k.writes w1) (k.reads r)))
              (λ l' v' m. read_loop-Finds rs w1 l' v' (m ∙ e)))
    ]

    race_loop-Finds :
        (ws rs : List ℕ) (l : LockSets)
        → Contents.IsValid l
        → l.vec ≡ vec
        → Finds l (HasRace ws rs) (race_loop g ws rs l)
    unfolding race_loop
    race_loop-Finds [] rs l v e = nothing-Finds l v
    race_loop-Finds (w1 ∷ ws) rs l v e =
        or_else-Finds l _ _ _ (race_loop g ws rs)
          (or_else-Finds l _ _ _ (read_loop g rs w1) (write_loop-Finds ws w1 l v e)
            (λ l' v' m. read_loop-Finds rs w1 l' v' (m ∙ e)))
          (λ l' v' m. race_loop-Finds ws rs l' v' (m ∙ e))

-- CheckIfRace on known sets of segments with known lock sets fails no CHECK and answers true
-- exactly if two of the writers hold no common lock, or a writer and a reader hold none and the
-- writer neither is of the reader's thread nor happens before the reader; the lock set tables stay
-- valid and intern nothing.
pub check_if_race-Finds :
    (w : World) (rd wr : ℤ) (rs ws : List ℕ) (W R : ℕ → List ℕ)
    → Contents.IsValid w.locks
    → length w.locks.vec < 2 ^ 31
    → Knows w.sets.segments w.locks.vec W R
    → sids_of w.sets rd ≡ some rs
    → sids_of w.sets wr ≡ some ws
    → Finds w.locks (HasRace w.sets.segments w.locks.vec W R ws rs) (check_if_race w rd wr)
unfolding check_if_race race_in
check_if_race-Finds w rd wr rs ws W R v small k e f =
    rw (check_if_race, e, f, race_in)
      (race_loop-Finds w.sets.segments w.locks.vec W R small k ws rs w.locks v refl)
