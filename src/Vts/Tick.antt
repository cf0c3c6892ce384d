-- ===== src/Vts/Tick.antt =====
-- VTS::CopyAndTick, and the order it makes with HappensBefore and Join.
use data_race_test.Prelude.{
  ℕ, suc, ◌+◌, ◌<◌, ◌≡◌, ◌≢◌, ◌↔◌, inl, inr, refl, ap, List, [], ◌∷◌, arith, ◌==◌, true, some,
  Bool-cases, none, ==_iff,
}
use data_race_test.Vts.{
  Ts, clk, join, tick_all, found, copy_and_tick, happens_before, IsVtsFrom, IsVts,
}
use data_race_test.Vts.Lattice.{LeClk-antisym, happens_before_iff, clk-join}

tick_all-IsVtsFrom : (lo t : ℕ) (xs : List Ts) → IsVtsFrom lo xs → IsVtsFrom lo (tick_all t xs)
unfolding tick_all
tick_all-IsVtsFrom lo t [] v = tt
tick_all-IsVtsFrom lo t (x ∷ xs) v = ground (arith, tick_all-IsVtsFrom (suc x.tid) t xs)

clk-tick_all_self :
    (t : ℕ) (xs : List Ts) → found t xs ≡ true → clk t (tick_all t xs) ≡ clk t xs + 1
unfolding clk tick_all found
clk-tick_all_self t [] h = cc
clk-tick_all_self t (x ∷ xs) h = ground (arith, clk-tick_all_self t xs)

clk-tick_all_ne : (t u : ℕ) (xs : List Ts) → u ≢ t → clk u (tick_all t xs) ≡ clk u xs
unfolding clk tick_all
clk-tick_all_ne t u [] h = refl
clk-tick_all_ne t u (x ∷ xs) h = ground (arith, clk-tick_all_ne t u xs)

found_iff : (lo t : ℕ) (xs : List Ts) → IsVtsFrom lo xs → (found t xs ≡ true) ↔ (0 < clk t xs)
unfolding found clk
found_iff lo t [] v = (λ h. cc, λ h. absurd (omega arith))
found_iff lo t (x ∷ xs) v = ground (arith, found_iff (suc x.tid) t xs)

-- VTS::CopyAndTick of a well-formed stamp with a clock for the thread passes its CHECK and gives a
-- well-formed stamp one more in that thread and equal in the others, which the original happens
-- before.
pub copy_and_tick_lem :
    (xs : List Ts) (t : ℕ)
    → IsVts xs
    → 0 < clk t xs
    → (ys : List Ts) × (copy_and_tick xs t ≡ some ys)
      × IsVts ys
      × (clk t ys ≡ clk t xs + 1)
      × ((u : ℕ) → u ≢ t → clk u ys ≡ clk u xs)
      × (happens_before xs ys ≡ true)
unfolding copy_and_tick
copy_and_tick_lem xs t v p =
    let f = (found_iff 0 t xs v).1 p in
    let self = clk-tick_all_self t xs f in
    (
      tick_all t xs,
      rw f,
      tick_all-IsVtsFrom 0 t xs v,
      self,
      λ u h. clk-tick_all_ne t u xs h,
      (happens_before_iff xs (tick_all t xs) v (tick_all-IsVtsFrom 0 t xs v)).1 (
        λ u. elim (Bool-cases (u == t)) [
          | inl e ↦ let e' = (==_iff u t).0 e in rw e' (omega (arith, self))
          | inr e ↦ omega (arith, clk-tick_all_ne t u xs (λ q. ground arith))
        ],
        λ e. absurd (omega (arith, self, ap (clk t) e)),
      ),
    )

pub copy_and_tick_fails :
    (xs : List Ts) (t : ℕ) → IsVts xs → clk t xs ≡ 0 → copy_and_tick xs t ≡ none
unfolding copy_and_tick
copy_and_tick_fails xs t v p = ground (arith, found_iff 0 t xs v)

-- On well-formed stamps HappensBefore is irreflexive and transitive, and a stamp that happens
-- before another happens before its join with any third.
pub happens_before_order :
    (xs ys zs : List Ts)
    → IsVts xs
    → IsVts ys
    → IsVts zs
    → (happens_before xs xs ≢ true)
      × (happens_before xs ys ≡ true → happens_before ys zs ≡ true → happens_before xs zs ≡ true)
      × (happens_before xs ys ≡ true → happens_before xs (join ys zs) ≡ true)
happens_before_order xs ys zs v w u = (
  λ h. ((happens_before_iff xs xs v v).0 h).1 refl,
  λ h k.
      let a = (happens_before_iff xs ys v w).0 h in
      let b = (happens_before_iff ys zs w u).0 k in
      (happens_before_iff xs zs v u).1 (
        λ t. omega (arith, a.0 t, b.0 t),
        λ e. a.1 (LeClk-antisym 0 xs ys v w a.0 (λ t. rw e (b.0 t))),
      ),
  λ h.
      let a = (happens_before_iff xs ys v w).0 h in
      let j = clk-join ys zs w u in
      (happens_before_iff xs (join ys zs) v j.0).1 (
        λ t. omega (arith, a.0 t, j.1 t),
        λ e. a.1 (LeClk-antisym 0 xs ys v w a.0 (λ t. rw e (omega (arith, j.1 t)))),
      ),
)
