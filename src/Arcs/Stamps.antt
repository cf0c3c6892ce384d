-- ===== src/Arcs/Stamps.antt =====
-- The invariant of the time stamps: no thread, and no stamp that waits for one, knows as much of a running
-- thread as the thread itself; and what changes one stamp keeps it.
use data_race_test.Prelude.{
  ℕ, ◌+◌, ◌<◌, ◌≤◌, ◌≡◌, ◌≢◌, inl, inr, sym, ap, ◌∙◌, true, false, Option, some, List, [], ◌∷◌,
  ◌==◌, ==_iff, update, update_self, update_other, update_cases, All, arith, Bool-cases,
}
use data_race_test.Vts.{Ts, clk, copy_and_tick, join, happens_before, IsVts}
use data_race_test.Vts.Lattice.{clk-join}
use data_race_test.Vts.Tick.{copy_and_tick_lem}
use data_race_test.Arcs.{Sync, CyclicBarrierInfo, set_vts, new_segment_for_wait}

-- What thread `t` may know of thread `u` by a stamp: less than `u` itself while `u` runs, nothing before.
abbrev pub Behind : Sync → List Ts → ℕ → Type 0
Behind s x u = (s.running u ≡ true → clk u x < clk u (s.vts u)) × (s.exists u ≡ false → clk u x ≡ 0)

abbrev pub Below : Sync → List Ts → Type 0
Below s x = IsVts x × ((u : ℕ) → Behind s x u)

pub record IsValid (s : Sync) : Type 0 where
  pub known : (t : ℕ) → s.running t ≡ true → s.exists t ≡ true
  pub stamp : (t : ℕ) → IsVts (s.vts t)
  pub own : (t : ℕ) → s.exists t ≡ true → 0 < clk t (s.vts t)
  pub apart : (t u : ℕ) → t ≢ u → Behind s (s.vts t) u
  pub exits : (t : ℕ) (x : List Ts) → s.vts_at_exit t ≡ some x → Below s x
  pub signals : (cv : ℕ) (x : List Ts) → s.signallers cv ≡ some x → Below s x
  pub infos : (p t : ℕ) (x : List Ts) → s.create_info p t ≡ some x → Below s x
  pub queues : (a : ℕ) (q : List (List Ts)) → s.pcqs a ≡ some q → All (Below s) q

-- The thread `t` may get the stamp `y`: it knows no less of itself, and of the others what it may.
pub record Rises (s : Sync) (t : ℕ) (y : List Ts) : Type 0 where
  pub stamp : IsVts y
  pub more : clk t (s.vts t) ≤ clk t y
  pub apart : (u : ℕ) → t ≢ u → Behind s y u

set_vts-Behind :
    (s : Sync) (t : ℕ) (y x : List Ts) (u : ℕ)
    → clk t (s.vts t) ≤ clk t y
    → Behind s x u
    → Behind (set_vts s t y) x u
set_vts-Behind s t y x u h b = elim (Bool-cases (u == t)) [
  | inl e ↦
      let q : u ≡ t = (==_iff u t).0 e in
      let c : Behind s x t = rw q at b in
      rw (q, update_self s.vts t y) ((λ r. omega (arith, c.0 r, h)), c.1)
  | inr e ↦ let q : u ≢ t = λ z. cc ((==_iff u t).1 z) in rw (update_other s.vts t u y q) b
]

pub set_vts-Below :
    (s : Sync) (t : ℕ) (y x : List Ts)
    → clk t (s.vts t) ≤ clk t y
    → Below s x
    → Below (set_vts s t y) x
set_vts-Below s t y x h b = (b.0, λ u. set_vts-Behind s t y x u h (b.1 u))

pub All-map :
    (s v : Sync) (q : List (List Ts))
    → ((x : List Ts) → Below s x → Below v x)
    → All (Below s) q
    → All (Below v) q
All-map s v [] f h = tt
All-map s v (x ∷ q) f h = (f x h.0, All-map s v q f h.1)

pub set_vts-IsValid :
    (s : Sync) (t : ℕ) (y : List Ts) → IsValid s → Rises s t y → IsValid (set_vts s t y)
set_vts-IsValid s t y h r = record {
  known = h.known;
  stamp = λ u. elim (Bool-cases (u == t)) [
    | inl e ↦ let q : u ≡ t = (==_iff u t).0 e in rw (q, update_self s.vts t y) r.stamp
    | inr e ↦
        let q : u ≢ t = λ z. cc ((==_iff u t).1 z) in rw (update_other s.vts t u y q) (h.stamp u)
  ];
  own = λ u k. elim (Bool-cases (u == t)) [
    | inl e ↦
        let q : u ≡ t = (==_iff u t).0 e in
        let o = h.own t (rw q at k) in rw (q, update_self s.vts t y) (omega (arith, o, r.more))
    | inr e ↦
        let q : u ≢ t = λ z. cc ((==_iff u t).1 z) in rw (update_other s.vts t u y q) (h.own u k)
  ];
  apart = apart;
  exits = λ u x e. set_vts-Below s t y x r.more (h.exits u x e);
  signals = λ u x e. set_vts-Below s t y x r.more (h.signals u x e);
  infos = λ p u x e. set_vts-Below s t y x r.more (h.infos p u x e);
  queues =
      λ a q e. All-map s (set_vts s t y) q (λ x b. set_vts-Below s t y x r.more b) (h.queues a q e);
}
  where
    apart : (v u : ℕ) → v ≢ u → Behind (set_vts s t y) (update s.vts t y v) u
    apart v u n = elim (Bool-cases (v == t)) [
      | inl e ↦
          let q : v ≡ t = (==_iff v t).0 e in
          let m : t ≢ u = rw q at n in
          rw (q, update_self s.vts t y, update_other s.vts t u y (λ z. m (sym z))) (r.apart u m)
      | inr e ↦
          let q : v ≢ t = λ z. cc ((==_iff v t).1 z) in
          rw (update_other s.vts t v y q) (set_vts-Behind s t y (s.vts v) u r.more (h.apart v u n))
    ]

tick-Rises :
    (s : Sync) (t : ℕ) (y : List Ts)
    → IsValid s
    → IsVts y
    → clk t y ≡ clk t (s.vts t) + 1
    → ((u : ℕ) → u ≢ t → clk u y ≡ clk u (s.vts t))
    → Rises s t y
tick-Rises s t y h v e o = record {
  stamp = v;
  more = omega arith;
  apart = λ u n.
      let q = o u (λ z. n (sym z)) in
      let b = h.apart t u n in ((λ r. omega (arith, b.0 r)), λ r. omega (arith, b.1 r));
}

-- The old stamp of a thread that ticked is one that all may have.
tick-Below :
    (s : Sync) (t : ℕ) (y : List Ts)
    → IsValid s
    → s.exists t ≡ true
    → clk t y ≡ clk t (s.vts t) + 1
    → Below (set_vts s t y) (s.vts t)
tick-Below s t y h k e = (h.stamp t, behind)
  where
    behind : (u : ℕ) → Behind (set_vts s t y) (s.vts t) u
    behind u = elim (Bool-cases (t == u)) [
      | inl b ↦
          let q : t ≡ u = (==_iff t u).0 b in
          rw (sym q) (rw (update_self s.vts t y) ((λ r. omega arith), λ r. absurd (cc)))
      | inr b ↦
          let q : t ≢ u = λ z. cc ((==_iff t u).1 z) in
          set_vts-Behind s t y (s.vts t) u (omega arith) (h.apart t u q)
    ]

pub join-Below : (s : Sync) (x y : List Ts) → Below s x → Below s y → Below s (join x y)
join-Below s x y b c =
    let j = clk-join x y b.0 c.0 in
    (
      j.0,
      λ u.
          let e = j.1 u in
          (
            (λ r. omega (arith, (b.1 u).0 r, (c.1 u).0 r)),
            λ r. omega (arith, (b.1 u).1 r, (c.1 u).1 r),
          ),
    )

pub wait-IsValid :
    (s : Sync) (t : ℕ) (x : List Ts) → IsValid s → Below s x → IsValid (new_segment_for_wait t x s)
unfolding new_segment_for_wait
wait-IsValid s t x h b = elim (Bool-cases (happens_before x (s.vts t))) [
  | inl e ↦ rw (new_segment_for_wait, e) h
  | inr e ↦
      let j = clk-join (s.vts t) x (h.stamp t) b.0 in
      rw (new_segment_for_wait, e)
        (set_vts-IsValid s t (join (s.vts t) x) h (record {
          stamp = j.0;
          more = omega (arith, j.1 t);
          apart = λ u n.
              let e = j.1 u in
              let a = h.apart t u n in
              ((λ r. omega (arith, a.0 r, (b.1 u).0 r)), λ r. omega (arith, a.1 r, (b.1 u).1 r));
        }))
]

-- The maps may hold what is below the threads.
pub maps-IsValid :
    (s : Sync) (signallers : ℕ → Option (List Ts)) (create_info : ℕ → ℕ → Option (List Ts))
    (barriers : ℕ → CyclicBarrierInfo) (pcqs : ℕ → Option (List (List Ts)))
    → IsValid s
    → ((cv : ℕ) (x : List Ts) → signallers cv ≡ some x → Below s x)
    → ((p t : ℕ) (x : List Ts) → create_info p t ≡ some x → Below s x)
    → ((a : ℕ) (q : List (List Ts)) → pcqs a ≡ some q → All (Below s) q)
    → IsValid (record s {
      signallers = signallers;
      create_info = create_info;
      barriers = barriers;
      pcqs = pcqs;
    })
maps-IsValid s g i b p h x y z = record {
  known = h.known;
  stamp = h.stamp;
  own = h.own;
  apart = h.apart;
  exits = h.exits;
  signals = x;
  infos = y;
  queues = z;
}

-- An entry that is written has the property, if the new one has it and the others had it.
pub update-all {ℓ} :
    {A : Type ℓ} (P : A → Type 0) (f : ℕ → Option A) (i : ℕ) (o : Option A)
    → ((a : A) → o ≡ some a → P a)
    → ((j : ℕ) (a : A) → f j ≡ some a → P a)
    → (j : ℕ) (a : A) → update f i o j ≡ some a
    → P a
update-all P f i o h k j a e = elim (update_cases f i j o (some a) e) [
  | inl (q, g) ↦ h a g
  | inr (q, g) ↦ k j a g
]

-- An entry of the map of one thread
pub row-all {ℓ} :
    {A : Type ℓ} (P : A → Type 0) (f : ℕ → ℕ → Option A) (p i : ℕ) (o : Option A)
    → ((a : A) → o ≡ some a → P a)
    → ((r j : ℕ) (a : A) → f r j ≡ some a → P a)
    → (r j : ℕ) (a : A) → update f p (update (f p) i o) r j ≡ some a
    → P a
row-all P f p i o h k r j a e = elim (Bool-cases (r == p)) [
  | inl b ↦
      let q : r ≡ p = (==_iff r p).0 b in
      let g =
        ap (λ m. m j) (ap (update f p (update (f p) i o)) q ∙ update_self f p (update (f p) i o)) in
      update-all P (f p) i o h (k p) j a (sym g ∙ e)
  | inr b ↦
      let g = ap (λ m. m j) (update_other f p r (update (f p) i o) (λ q. cc ((==_iff r p).1 q))) in
      k r j a (sym g ∙ e)
]

-- A tick: it fails, or the thread has a stamp with one more for itself.
abbrev pub Ticked : Sync → ℕ → Type 0
Ticked s t =
    (y : List Ts) × (copy_and_tick (s.vts t) t ≡ some y)
    × (Rises s t y × Below (set_vts s t y) (s.vts t))

pub tick-Ticked : (s : Sync) (t : ℕ) → IsValid s → s.exists t ≡ true → Ticked s t
tick-Ticked s t h k =
    let c = copy_and_tick_lem (s.vts t) t (h.stamp t) (h.own t k) in
    (c.0, c.1, (tick-Rises s t c.0 h c.2 c.3 c.4, tick-Below s t c.0 h k c.3))
