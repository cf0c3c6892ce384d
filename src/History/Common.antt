-- ===== src/History/Common.antt =====
-- What LockHistory::Intersect collects.
use data_race_test.Prelude.{
  ℕ, ◌≤◌, ◌≡◌, ◌↔◌, ◌⊎◌, inl, inr, refl, sym, ap, ◌∙◌, Bool, true, false, not, ◌||◌, List, [], ◌∷◌,
  ltb, arith, Bool-cases,
}
use data_race_test.History.{
  Element, LockHistory, mem, insert, unlock_loop, lock_loop, is_empty, intersect,
}

-- An unlock of the lock in the era of the lock or before, and not before the least era.
abbrev pub HasUnlock : ℕ → ℕ → ℕ → List Element → Type 0
HasUnlock min lid l_era [] = ⊥
HasUnlock min lid l_era (u ∷ us) =
    ((u.lid ≡ lid) × (min ≤ u.lock_era) × (u.lock_era ≤ l_era)) ⊎ HasUnlock min lid l_era us

-- A lock that is not pure happens-before, not before the least era, with such an unlock.
abbrev pub IsCommon : (ℕ → Bool) → ℕ → ℕ → List Element → List Element → Type 0
IsCommon pure min lid [] us = ⊥
IsCommon pure min lid (l ∷ ls) us =
    ((l.lid ≡ lid) × (min ≤ l.lock_era) × (pure lid ≡ false) × HasUnlock min lid l.lock_era us)
    ⊎ IsCommon pure min lid ls us

mem-insert : (x y : ℕ) (s : List ℕ) → (mem x (insert y s) ≡ true) ↔ ((x ≡ y) ⊎ (mem x s ≡ true))
unfolding insert mem
mem-insert x y s = elim (Bool-cases (mem y s)) [
  | inl b ↦ (
    λ h. inr (rw (insert, b) at h),
    λ h. elim h [ inl e ↦ rw (insert, b) (rw (← e) at b) | inr g ↦ rw (insert, b) g ],
  )
  | inr b ↦ rw (insert, b) (ground arith)
]

mem-unlock_loop :
    (min lid l_era x : ℕ) (us : List Element) (s : List ℕ)
    → (mem x (unlock_loop min lid l_era us s) ≡ true)
      ↔ (((x ≡ lid) × HasUnlock min lid l_era us) ⊎ (mem x s ≡ true))
unfolding unlock_loop
mem-unlock_loop min lid l_era x [] s = ground arith
mem-unlock_loop min lid l_era x (u ∷ us) s = ground (
  arith,
  mem-unlock_loop min lid l_era x us s,
  mem-unlock_loop min lid l_era x us (insert lid s),
  mem-insert x lid s,
)

move_unlock :
    (min l_era x lid : ℕ) (us : List Element)
    → x ≡ lid
    → HasUnlock min lid l_era us
    → HasUnlock min x l_era us
move_unlock min l_era x lid us e h = rw e h

mem-lock_loop :
    (pure : ℕ → Bool) (min x : ℕ) (ls us : List Element) (s : List ℕ)
    → (mem x (lock_loop pure min ls us s) ≡ true) ↔ (IsCommon pure min x ls us ⊎ (mem x s ≡ true))
unfolding lock_loop
mem-lock_loop pure min x [] us s = ground arith
mem-lock_loop pure min x (l ∷ ls) us s = elim (Bool-cases (ltb l.lock_era min || pure l.lid)) [
  | inl b ↦
      let k = mem-lock_loop pure min x ls us s in
      rw (lock_loop, b)
        (
          λ h. elim (k.0 h) [ inl c ↦ inl (inr c) | inr m ↦ inr m ],
          λ h. elim h [
            | inl c ↦ elim c [ inl d ↦ absurd (skipped d.0 d.1 d.2 b) | inr d ↦ k.1 (inl d) ]
            | inr m ↦ k.1 (inr m)
          ],
        )
  | inr b ↦
      let k = mem-lock_loop pure min x ls us (unlock_loop min l.lid l.lock_era us s) in
      let u = mem-unlock_loop min l.lid l.lock_era x us s in
      let c : (min ≤ l.lock_era) × (pure l.lid ≡ false) = ground arith in
      rw (lock_loop, b)
        (
          λ h. elim (k.0 h) [
            | inl d ↦ inl (inr d)
            | inr m ↦ elim (u.0 m) [
              | inl d ↦ inl (
                  inl (
                    sym d.0,
                    c.0,
                    ap pure d.0 ∙ c.1,
                    move_unlock min l.lock_era x l.lid us d.0 d.1,
                  ))
              | inr m ↦ inr m
            ]
          ],
          λ h. elim h [
            | inl d ↦ elim d [
              | inl d ↦
                  k.1 (inr (u.1 (inl (sym d.0, move_unlock min l.lock_era l.lid x us d.0 d.3))))
              | inr d ↦ k.1 (inl d)
            ]
            | inr m ↦ k.1 (inr (u.1 (inr m)))
          ],
        )
]
  where
    skipped :
        l.lid ≡ x
        → min ≤ l.lock_era
        → pure x ≡ false
        → (ltb l.lock_era min || pure l.lid) ≡ true
        → ⊥
    skipped e m p b = ground (arith, ap pure e)

not_empty : (s : List ℕ) → (not (is_empty s) ≡ true) ↔ ((x : ℕ) × (mem x s ≡ true))
unfolding mem
not_empty [] = (λ h. absurd (ground arith), λ h. absurd (no_member h))
  where
    no_member : ((x : ℕ) × (false ≡ true)) → ⊥
    no_member h = let e = h.1 in ground arith
not_empty (y ∷ s) = (λ h. (y, ground arith), λ h. refl)

-- LockHistory::Intersect adds to the set exactly the locks that are not pure happens-before, that
-- the first history took in the least era or later, and that the second one released in that era or
-- before but not before the least era; its answer is whether the set then has a lock.
pub intersect_lem :
    (pure : ℕ → Bool) (l u : LockHistory) (min : ℕ) (s : List ℕ)
    → ((x : ℕ)
        → (mem x (intersect pure l u min s).0 ≡ true)
          ↔ (IsCommon pure min x l.locks u.unlocks ⊎ (mem x s ≡ true)))
      × (((intersect pure l u min s).1 ≡ true)
          ↔ ((x : ℕ) × (mem x (intersect pure l u min s).0 ≡ true)))
unfolding intersect
intersect_lem pure l u min s = (
  λ x. mem-lock_loop pure min x l.locks u.unlocks s,
  not_empty (lock_loop pure min l.locks u.unlocks s),
)
