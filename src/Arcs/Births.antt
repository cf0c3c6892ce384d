-- ===== src/Arcs/Births.antt =====
-- The stamp of a new thread, tsan/thread_sanitizer.cc: what it may be, and that adding the thread keeps the
-- invariant of the stamps.
use data_race_test.Prelude.{
  ℕ, ◌<◌, ◌≡◌, ◌≢◌, inl, inr, refl, sym, ◌∙◌, true, false, List, ◌==◌, ==_iff, update, update_self,
  update_other, arith, Bool-cases,
}
use data_race_test.Vts.{Ts, clk, create_singleton, join, IsVts}
use data_race_test.Vts.Lattice.{clk-join}
use data_race_test.Arcs.{Sync}
use data_race_test.Arcs.Stamps.{Behind, Below, IsValid, All-map}

singleton-clk : (t u : ℕ) → t ≢ u → clk u (create_singleton t 1) ≡ 0
unfolding clk create_singleton
singleton-clk t u n = ground (arith, n)

singleton_own : (t : ℕ) → clk t (create_singleton t 1) ≡ 1
unfolding clk create_singleton
singleton_own t = ground arith

pub singleton-IsVts : (t : ℕ) → IsVts (create_singleton t 1)
unfolding create_singleton
singleton-IsVts t = omega arith

-- A stamp for a new thread: it has a clock of its own, and of the others what it may.
pub record Born (s : Sync) (t : ℕ) (y : List Ts) : Type 0 where
  pub stamp : IsVts y
  pub own : 0 < clk t y
  pub apart : (u : ℕ) → t ≢ u → Behind s y u

pub singleton-Born : (s : Sync) (t : ℕ) → IsValid s → Born s t (create_singleton t 1)
singleton-Born s t h = record {
  stamp = singleton-IsVts t;
  own = omega (arith, singleton_own t);
  apart =
      λ u n. let e = singleton-clk t u n in ((λ r. omega (arith, h.own u (h.known u r))), λ r. e);
}

pub join-Born :
    (s : Sync) (t : ℕ) (x : List Ts)
    → IsValid s
    → Below s x
    → Born s t (join (create_singleton t 1) x)
join-Born s t x h b =
    let c = singleton-Born s t h in
    let j = clk-join (create_singleton t 1) x c.stamp b.0 in
    record {
      stamp = j.0;
      own = omega (arith, j.1 t, c.own);
      apart = λ u n.
          let e = j.1 u in
          let d = c.apart u n in
          ((λ r. omega (arith, d.0 r, (b.1 u).0 r)), λ r. omega (arith, d.1 r, (b.1 u).1 r));
    }

abbrev pub with_thread : Sync → ℕ → List Ts → Sync
with_thread s t y = record s {
  exists = update s.exists t true;
  running = update s.running t true;
  vts = update s.vts t y;
}

-- Nobody knows of a thread that does not exist, so what is below the threads stays so.
born-Behind :
    (s : Sync) (t : ℕ) (y x : List Ts) (u : ℕ)
    → s.exists t ≡ false
    → 0 < clk t y
    → Behind s x u
    → Behind (with_thread s t y) x u
born-Behind s t y x u k o b = elim (Bool-cases (u == t)) [
  | inl e ↦
      let q : u ≡ t = (==_iff u t).0 e in
      let c : Behind s x t = rw q at b in
      rw (q, update_self s.vts t y, update_self s.running t true, update_self s.exists t true)
        ((λ r. omega (arith, c.1 k, o)), λ r. absurd (cc))
  | inr e ↦
      let q : u ≢ t = λ z. cc ((==_iff u t).1 z) in
      rw
        (
          update_other s.vts t u y q,
          update_other s.running t u true q,
          update_other s.exists t u true q,
        )
        b
]

pub thread-IsValid :
    (s : Sync) (t : ℕ) (y : List Ts)
    → IsValid s
    → s.exists t ≡ false
    → Born s t y
    → IsValid (with_thread s t y)
thread-IsValid s t y h k b = record {
  known = λ u r. elim (Bool-cases (u == t)) [
    | inl e ↦ let q : u ≡ t = (==_iff u t).0 e in rw (q, update_self s.exists t true) refl
    | inr e ↦
        let q : u ≢ t = λ z. cc ((==_iff u t).1 z) in
        rw (update_other s.exists t u true q)
          (h.known u (sym (update_other s.running t u true q) ∙ r))
  ];
  stamp = λ u. elim (Bool-cases (u == t)) [
    | inl e ↦ let q : u ≡ t = (==_iff u t).0 e in rw (q, update_self s.vts t y) b.stamp
    | inr e ↦
        let q : u ≢ t = λ z. cc ((==_iff u t).1 z) in rw (update_other s.vts t u y q) (h.stamp u)
  ];
  own = λ u r. elim (Bool-cases (u == t)) [
    | inl e ↦ let q : u ≡ t = (==_iff u t).0 e in rw (q, update_self s.vts t y) b.own
    | inr e ↦
        let q : u ≢ t = λ z. cc ((==_iff u t).1 z) in
        rw (update_other s.vts t u y q) (h.own u (sym (update_other s.exists t u true q) ∙ r))
  ];
  apart = apart;
  exits = λ u x e. below x (h.exits u x e);
  signals = λ u x e. below x (h.signals u x e);
  infos = λ p u x e. below x (h.infos p u x e);
  queues = λ a q e. All-map s (with_thread s t y) q below (h.queues a q e);
}
  where
    below : (x : List Ts) → Below s x → Below (with_thread s t y) x
    below x c = (c.0, λ u. born-Behind s t y x u k b.own (c.1 u))

    apart : (v u : ℕ) → v ≢ u → Behind (with_thread s t y) (update s.vts t y v) u
    apart v u n = elim (Bool-cases (v == t)) [
      | inl e ↦
          let q : v ≡ t = (==_iff v t).0 e in
          let m : t ≢ u = rw q at n in
          rw (q, update_self s.vts t y) (born-Behind s t y y u k b.own (b.apart u m))
      | inr e ↦
          let q : v ≢ t = λ z. cc ((==_iff v t).1 z) in
          rw (update_other s.vts t v y q) (born-Behind s t y (s.vts v) u k b.own (h.apart v u n))
    ]
