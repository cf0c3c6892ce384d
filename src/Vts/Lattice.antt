-- ===== src/Vts/Lattice.antt =====
-- HappensBefore and Join of class VTS, tsan/thread_sanitizer.cc, and the pointwise order of clocks.
use data_race_test.Prelude.{
  ℕ, suc, ◌≤◌, ◌<◌, max, ◌≡◌, ◌≢◌, ◌↔◌, ◌⊎◌, inl, inr, refl, sym, List, [], ◌∷◌, arith, Bool, true,
  false, ◌||◌, ltb,
}
use data_race_test.Vts.{Ts, clk, join, happens_before, hb_loop, IsVtsFrom, IsVts}
use data_race_test.Vts.Order.{clk_below, clk-join_from, join-IsVtsFrom}

-- The order that HappensBefore decides, before the strictness is added.
abbrev pub LeClk : List Ts → List Ts → Type 0
LeClk xs ys = (t : ℕ) → clk t xs ≤ clk t ys

clk_head : (x : Ts) (xs : List Ts) → clk x.tid (x ∷ xs) ≡ x.clk
unfolding clk
clk_head x xs = ground arith

clk_rest : (t : ℕ) (x : Ts) (xs : List Ts) → x.tid ≢ t → clk t (x ∷ xs) ≡ clk t xs
unfolding clk
clk_rest t x xs h = ground arith

module _ (lo : ℕ) (x y : Ts) (xs ys : List Ts) where
  head_tid_le : IsVtsFrom lo (y ∷ ys) → 0 < x.clk → LeClk (x ∷ xs) (y ∷ ys) → y.tid ≤ x.tid
  unfolding clk
  head_tid_le w p h = ground (arith, h x.tid, clk_below x.tid (suc y.tid) ys)

  head_clk_le : x.tid ≡ y.tid → LeClk (x ∷ xs) (y ∷ ys) → x.clk ≤ y.clk
  unfolding clk
  head_clk_le e h = ground (arith, h x.tid)

  tails_le : x.tid ≡ y.tid → IsVtsFrom (suc x.tid) xs → LeClk (x ∷ xs) (y ∷ ys) → LeClk xs ys
  unfolding clk
  tails_le e v h t = ground (arith, h t, clk_below t (suc x.tid) xs)

  skip_le : y.tid < x.tid → IsVtsFrom lo (x ∷ xs) → LeClk (x ∷ xs) (y ∷ ys) → LeClk (x ∷ xs) ys
  unfolding clk
  skip_le e v h t = ground (arith, h t, clk_below t (suc x.tid) xs)

not_le_nil : (lo : ℕ) (x : Ts) (xs : List Ts) → 0 < x.clk → LeClk (x ∷ xs) [] → ⊥
unfolding clk
not_le_nil lo x xs p h = ground (arith, h x.tid)

-- The pointwise order is antisymmetric on well-formed stamps, as lists.
pub LeClk-antisym :
    (lo : ℕ) (xs ys : List Ts)
    → IsVtsFrom lo xs
    → IsVtsFrom lo ys
    → LeClk xs ys
    → LeClk ys xs
    → xs ≡ ys
LeClk-antisym lo [] [] v w h k = refl
LeClk-antisym lo [] (y ∷ ys) v w h k = absurd (not_le_nil lo y ys w.1 k)
LeClk-antisym lo (x ∷ xs) [] v w h k = absurd (not_le_nil lo x xs v.1 h)
LeClk-antisym lo (x ∷ xs) (y ∷ ys) v w h k =
    let a = head_tid_le lo x y xs ys w v.1 h in
    let b = head_tid_le lo y x ys xs v w.1 k in
    let e : x.tid ≡ y.tid = omega arith in
    let e' : y.tid ≡ x.tid = omega arith in
    let c = head_clk_le lo x y xs ys e h in
    let d = head_clk_le lo y x ys xs e' k in
    let rest : xs ≡ ys =
      LeClk-antisym (suc x.tid) xs ys v.2 (rw e w.2) (tails_le lo x y xs ys e v.2 h)
        (tails_le lo y x ys xs e' w.2 k) in
    ground arith

pub clk_ext : (xs ys : List Ts) → IsVts xs → IsVts ys → ((t : ℕ) → clk t xs ≡ clk t ys) → xs ≡ ys
clk_ext xs ys v w h = LeClk-antisym 0 xs ys v w (λ t. omega (arith, h t)) (λ t. omega (arith, h t))

hb_loop_sound :
    (less : Bool) (lo t : ℕ) (xs ys : List Ts)
    → IsVtsFrom lo xs
    → IsVtsFrom lo ys
    → hb_loop less xs ys ≡ true
    → clk t xs ≤ clk t ys
unfolding hb_loop clk
hb_loop_sound less lo t [] ys v w h = omega arith
hb_loop_sound less lo t (x ∷ xs) [] v w h = cc
hb_loop_sound less lo t (x ∷ xs) (y ∷ ys) v w h = ground (
  arith,
  hb_loop_sound true (suc y.tid) t (x ∷ xs) ys,
  hb_loop_sound (less || ltb x.clk y.clk) (suc x.tid) t xs ys,
  clk_below t (suc y.tid) (x ∷ xs),
)

hb_loop_irrefl : (xs : List Ts) → hb_loop false xs xs ≡ false
unfolding hb_loop
hb_loop_irrefl [] = refl
hb_loop_irrefl (x ∷ xs) = ground (arith, hb_loop_irrefl xs)

eq_or_lt : (a b : ℕ) → a ≤ b → (a ≡ b) ⊎ (a < b)
eq_or_lt a b h = ground arith

strict_tail :
    (less : Bool) (x y : Ts) (xs ys : List Ts)
    → x.tid ≡ y.tid
    → x.clk ≤ y.clk
    → (less ≡ true) ⊎ (◌≢◌ {A = List Ts} (x ∷ xs) (y ∷ ys))
    → ((less || ltb x.clk y.clk) ≡ true) ⊎ (xs ≢ ys)
strict_tail less x y xs ys e c (inl s) = inl (rw s)
strict_tail less x y xs ys e c (inr s) = elim (eq_or_lt _ _ c) [
  | inl d ↦ inr (λ r. s (ground arith))
  | inr d ↦ inl (ground arith)
]

hb_loop_complete :
    (less : Bool) (lo : ℕ) (xs ys : List Ts)
    → IsVtsFrom lo xs
    → IsVtsFrom lo ys
    → LeClk xs ys
    → (less ≡ true) ⊎ (xs ≢ ys)
    → hb_loop less xs ys ≡ true
unfolding hb_loop
hb_loop_complete less lo [] [] v w h (inl s) = s
hb_loop_complete less lo [] [] v w h (inr s) = absurd (s refl)
hb_loop_complete less lo [] (y ∷ ys) v w h s = refl
hb_loop_complete less lo (x ∷ xs) [] v w h s = absurd (not_le_nil lo x xs v.1 h)
hb_loop_complete less lo (x ∷ xs) (y ∷ ys) v w h s =
    elim (eq_or_lt _ _ (head_tid_le lo x y xs ys w v.1 h)) [
      | inl e ↦
          let e' : x.tid ≡ y.tid = sym e in
          let c = head_clk_le lo x y xs ys e' h in
          let rest =
            hb_loop_complete (less || ltb x.clk y.clk) (suc x.tid) xs ys v.2 (rw e' w.2)
              (tails_le lo x y xs ys e' v.2 h) (strict_tail less x y xs ys e' c s) in
          ground arith
      | inr e ↦
          let rest =
            hb_loop_complete true (suc y.tid) (x ∷ xs) ys (e, v.1, v.2) w.2
              (skip_le lo x y xs ys e v h) (inl refl) in
          ground arith
    ]

-- VTS::HappensBefore on well-formed stamps answers true exactly when no clock of the first exceeds
-- that of the second and the two differ.
pub happens_before_iff :
    (xs ys : List Ts)
    → IsVts xs
    → IsVts ys
    → (happens_before xs ys ≡ true) ↔ (LeClk xs ys × (xs ≢ ys))
unfolding happens_before
happens_before_iff xs ys v w = (
  λ h. (
    λ t. hb_loop_sound false 0 t xs ys v w h,
    λ e. let i = hb_loop_irrefl ys in let j : hb_loop false ys ys ≡ true = rw e at h in cc,
  ),
  λ p. hb_loop_complete false 0 xs ys v w p.0 (inr p.1),
)

-- VTS::Join of well-formed stamps is well formed and has, for every thread, the larger of the two
-- clocks.
pub clk-join :
    (xs ys : List Ts)
    → IsVts xs
    → IsVts ys
    → IsVts (join xs ys) × ((t : ℕ) → clk t (join xs ys) ≡ max (clk t xs) (clk t ys))
clk-join xs ys v w = (join-IsVtsFrom 0 xs ys v w, λ t. clk-join_from t 0 xs ys v w)

-- VTS::Join is commutative, associative and idempotent on well-formed stamps, as arrays.
join_laws :
    (xs ys zs : List Ts)
    → IsVts xs
    → IsVts ys
    → IsVts zs
    → (join xs ys ≡ join ys xs) × (join (join xs ys) zs ≡ join xs (join ys zs)) × (join xs xs ≡ xs)
join_laws xs ys zs v w u =
    let xy = clk-join xs ys v w in
    let yz = clk-join ys zs w u in
    let yx = clk-join ys xs w v in
    let xx = clk-join xs xs v v in
    let l = clk-join (join xs ys) zs xy.0 u in
    let r = clk-join xs (join ys zs) v yz.0 in
    (
      clk_ext _ _ xy.0 yx.0 (λ t. omega (arith, xy.1 t, yx.1 t)),
      clk_ext _ _ l.0 r.0 (λ t. omega (arith, l.1 t, r.1 t, xy.1 t, yz.1 t)),
      clk_ext _ _ xx.0 v (λ t. omega (arith, xx.1 t)),
    )
