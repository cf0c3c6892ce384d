-- ===== src/Vts/Order.antt =====
-- The clocks of join and tick.
use data_race_test.Prelude.{ℕ, suc, ◌<◌, max, ◌≡◌, refl, List, [], ◌∷◌, arith}
use data_race_test.Vts.{Ts, clk, join, IsVtsFrom}

-- A thread below the first entry has no entry.
pub clk_below : (t lo : ℕ) (xs : List Ts) → t < lo → IsVtsFrom lo xs → clk t xs ≡ 0
unfolding clk
clk_below t lo [] h v = refl
clk_below t lo (x ∷ xs) h v = ground (arith, clk_below t (suc x.tid) xs)

pub clk-join_from :
    (t lo : ℕ) (xs ys : List Ts)
    → IsVtsFrom lo xs
    → IsVtsFrom lo ys
    → clk t (join xs ys) ≡ max (clk t xs) (clk t ys)
unfolding clk join
clk-join_from t lo [] ys v w = omega arith
clk-join_from t lo (x ∷ xs) [] v w = omega arith
clk-join_from t lo (x ∷ xs) (y ∷ ys) v w = ground (
  arith,
  clk-join_from t (suc x.tid) xs (y ∷ ys),
  clk-join_from t (suc y.tid) (x ∷ xs) ys,
  clk-join_from t (suc x.tid) xs ys,
  clk_below t (suc x.tid) xs,
  clk_below t (suc y.tid) ys,
)

pub join-IsVtsFrom :
    (lo : ℕ) (xs ys : List Ts) → IsVtsFrom lo xs → IsVtsFrom lo ys → IsVtsFrom lo (join xs ys)
unfolding join
join-IsVtsFrom lo [] ys v w = w
join-IsVtsFrom lo (x ∷ xs) [] v w = v
join-IsVtsFrom lo (x ∷ xs) (y ∷ ys) v w = ground (
  arith,
  join-IsVtsFrom (suc x.tid) xs (y ∷ ys),
  join-IsVtsFrom (suc y.tid) (x ∷ xs) ys,
  join-IsVtsFrom (suc x.tid) xs ys,
)
