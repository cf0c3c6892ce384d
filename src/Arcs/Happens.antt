-- ===== src/Arcs/Happens.antt =====
-- What a WAIT knows of the SIGNALs before it, tsan/thread_sanitizer.cc.
use data_race_test.Prelude.{
  ℕ, ◌≡◌, inl, inr, refl, sym, ap, ◌∙◌, true, Option, none, some, List, update_self, ◌==◌, ==_iff,
  arith, Bool-cases, Option-cases,
}
use data_race_test.Vts.{Ts, clk, join, happens_before, copy_and_tick, IsVts}
use data_race_test.Vts.Lattice.{LeClk, clk-join, happens_before_iff}
use data_race_test.Vts.Tick.{copy_and_tick_lem}
use data_race_test.Arcs.{
  Sync, set_vts, ticked, new_segment_for_signal, new_segment_for_wait, handle_wait, joined,
  set_signaller, handle_signal,
}
use data_race_test.Arcs.Stamps.{IsValid, Below}
use data_race_test.Arcs.Events.{Event, handle, Allowed, signal-Keeps, Keeps}
use data_race_test.Arcs.Ordered.{Reached, Reached-IsValid, next-IsValid}
use data_race_test.Arcs.Signals.{Joined, Grows, Clears, handle-Grows}

-- After any events, each of a thread that exists and joins only of ended threads,
-- NewSegmentForSignal of a thread that exists fails no CHECK, and its new stamp is after its old
-- one.
pub new_segment_for_signal-Reached :
    (s : Sync) (t : ℕ)
    → Reached s
    → s.exists t ≡ true
    → (v : Sync) × ((new_segment_for_signal t s ≡ some v)
        × (happens_before (s.vts t) (v.vts t) ≡ true))
unfolding new_segment_for_signal ticked
new_segment_for_signal-Reached s t r k =
    let h = Reached-IsValid s r in
    let c = copy_and_tick_lem (s.vts t) t (h.stamp t) (h.own t k) in
    let y = c.0 in
    let b : happens_before (s.vts t) y ≡ true = (happens_before_iff (s.vts t) y (h.stamp t) c.2).1 (
      (λ u. elim (Bool-cases (u == t)) [
        | inl e ↦ let q : u ≡ t = (==_iff u t).0 e in rw q (omega (arith, c.3))
        | inr e ↦ omega (arith, c.4 u (λ z. cc ((==_iff u t).1 z)))
      ]),
      λ f. let g : clk t (s.vts t) ≡ clk t y = ap (clk t) f in absurd (omega (arith, g, c.3)),
    ) in
    (set_vts s t y, (rw (new_segment_for_signal, c.1) refl, rw (update_self s.vts t y) b))

-- Events of which none takes the stamp from `cv`
pub data Between (cv : ℕ) (s : Sync) : Sync → Type 0 where
  no_events : Between cv s s
  one_more :
      (v w : Sync) (e : Event)
      → Between cv s v
      → Allowed v e
      → (Clears v cv e → ⊥)
      → handle e v ≡ some w
      → Between cv s w

-- The entry of `cv` has at least the stamp `x`.
abbrev Holds : Sync → ℕ → List Ts → Type 0
Holds s cv x = (y : List Ts) × (s.signallers cv ≡ some y) × IsVts y × LeClk x y

Joined-Holds :
    (s v : Sync) (cv : ℕ) (x : List Ts)
    → Holds s cv x
    → Joined (s.signallers cv) (v.signallers cv)
    → Holds v cv x
Joined-Holds s v cv x o (inl q) = (o.0, q ∙ o.1, o.2, o.3)
Joined-Holds s v cv x o (inr p) =
    let j = clk-join o.0 p.0 o.2 p.2 in
    (join o.0 p.0, p.1 ∙ ap (λ z. some (joined z p.0)) o.1, j.0, λ u. omega (arith, o.3 u, j.1 u))

next-Holds :
    (s v : Sync) (e : Event) (cv : ℕ) (x : List Ts)
    → IsValid s
    → Holds s cv x
    → (Clears s cv e → ⊥)
    → handle e s ≡ some v
    → Holds v cv x
unfolding Grows
next-Holds s v e cv x h o k q =
    let g : Grows s cv (handle e s) = handle-Grows e s cv h k in
    let j : Joined (s.signallers cv) (v.signallers cv) = rw q at g in Joined-Holds s v cv x o j

Between-Holds :
    (cv : ℕ) (s v : Sync) (x : List Ts)
    → IsValid s
    → Holds s cv x
    → Between cv s v
    → IsValid v × Holds v cv x
Between-Holds cv s v x h o no_events = (h, o)
Between-Holds cv s w x h o (one_more v _ e b a k q) =
    let i = Between-Holds cv s v x h o b in
    (next-IsValid v w e i.0 a q, next-Holds v w e cv x i.0 i.1 k q)

joined-Stamp :
    (o : Option (List Ts)) (x : List Ts)
    → ((y : List Ts) → o ≡ some y → IsVts y)
    → IsVts x
    → IsVts (joined o x) × LeClk x (joined o x)
joined-Stamp none x f w = (w, λ u. omega arith)
joined-Stamp (some y) x f w = let j = clk-join y x (f y refl) w in (j.0, λ u. omega (arith, j.1 u))

signal-Holds :
    (s v : Sync) (t cv : ℕ) → IsValid s → handle_signal t cv s ≡ some v → Holds v cv (s.vts t)
unfolding handle_signal new_segment_for_signal ticked
signal-Holds s v t cv h q =
    let z = joined (s.signallers cv) (s.vts t) in
    let j = joined-Stamp (s.signallers cv) (s.vts t) (λ y e. (h.signals cv y e).0) (h.stamp t) in
    let n = set_signaller s cv (some z) in
    elim (Option-cases (copy_and_tick (s.vts t) t)) [
      | inl e ↦
          let b : none ≡ some v = rw (handle_signal, new_segment_for_signal, e) at q in absurd (cc)
      | inr (y, e) ↦
          let b : some (set_vts n t y) ≡ some v =
            rw (handle_signal, new_segment_for_signal, e) at q in
          let d : set_vts n t y ≡ v = cc in
          (z, ap (λ g. g.signallers cv) (sym d) ∙ update_self s.signallers cv (some z), j.0, j.1)
    ]

-- After a wait a thread knows what the signaller knew, and no less of itself.
wait-LeClk :
    (s : Sync) (u : ℕ) (y : List Ts)
    → IsVts (s.vts u)
    → IsVts y
    → let z = (new_segment_for_wait u y s).vts u in IsVts z × LeClk y z × LeClk (s.vts u) z
unfolding new_segment_for_wait
wait-LeClk s u y v w = elim (Bool-cases (happens_before y (s.vts u))) [
  | inl e ↦
      rw (new_segment_for_wait, e)
        (v, ((happens_before_iff y (s.vts u) w v).0 e).0, λ t. omega arith)
  | inr e ↦
      let j = clk-join (s.vts u) y v w in
      rw (new_segment_for_wait, e, update_self s.vts u (join (s.vts u) y))
        (j.0, (λ t. omega (arith, j.1 t)), λ t. omega (arith, j.1 t))
]

-- A running thread that waits for a stamp that it may have is after it, by its own clock.
pub wait-Before :
    (s : Sync) (u : ℕ) (x y : List Ts)
    → IsValid s
    → s.running u ≡ true
    → IsVts x
    → LeClk x y
    → Below s y
    → happens_before x ((new_segment_for_wait u y s).vts u) ≡ true
wait-Before s u x y h a w l b =
    let m = wait-LeClk s u y (h.stamp u) b.0 in
    let z = (new_segment_for_wait u y s).vts u in
    let o = (b.1 u).0 a in
    (happens_before_iff x z w m.0).1 (
      (λ n. omega (arith, l n, m.1 n)),
      λ f. let g : clk u x ≡ clk u z = ap (clk u) f in absurd (omega (arith, g, l u, o, m.2 u)),
    )

-- After any events, each of a thread that exists and joins only of ended threads: if a thread that
-- exists signals, and no such event after it takes the stamp from the signaller, what it did before
-- the signal happens before what a running thread does after a wait.
pub handle_wait-handle_signal :
    (s v w : Sync) (t u cv : ℕ)
    → Reached s
    → s.exists t ≡ true
    → handle_signal t cv s ≡ some v
    → Between cv v w
    → w.running u ≡ true
    → happens_before (s.vts t) ((handle_wait u cv w).vts u) ≡ true
unfolding handle_wait Keeps
handle_wait-handle_signal s v w t u cv r k q b a =
    let h = Reached-IsValid s r in
    let d : Keeps (handle_signal t cv s) = signal-Keeps s t cv h k in
    let i = Between-Holds cv v w (s.vts t) (rw q at d) (signal-Holds s v t cv h q) b in
    let y = (i.1).0 in
    let e : w.signallers cv ≡ some y = (i.1).1 in
    rw (handle_wait, e)
      (wait-Before w u (s.vts t) y i.0 a (h.stamp t) (i.1).3 ((i.0).signals cv y e))
