-- ===== src/Arcs/Acquires.antt =====
-- The events of tsan/thread_sanitizer.cc that give a thread what another one knows: WAIT, THR_JOIN_AFTER,
-- CYCLIC_BARRIER_WAIT_AFTER, PCQ_GET and the start of a child.
use data_race_test.Prelude.{
  ℕ, ◌+◌, ◌/◌, ◌%◌, ◌<◌, ◌≡◌, inl, inr, sym, ap, ◌∙◌, true, false, not, ◌&&◌, ◌||◌, Option, none,
  some, List, [], ◌∷◌, if◌then◌else◌, ◌==◌, ltb, update_self, arith, Bool-cases, Option-cases,
}
use data_race_test.Vts.{Ts, clk, join, happens_before, create_singleton}
use data_race_test.Vts.Lattice.{clk-join, happens_before_iff}
use data_race_test.Arcs.{
  Sync, CyclicBarrierInfo, set_vts, ticked, new_segment_for_signal, new_segment_for_wait,
  handle_wait, set_info, add_thread, start_from, handle_child_thread_start, exit_vts,
  handle_thread_join_after, bad_barrier, handle_barrier_wait_after, set_pcq, get_putter,
  handle_pcq_get,
}
use data_race_test.Arcs.Stamps.{IsValid, Below, tick-Ticked, set_vts-IsValid}
use data_race_test.Arcs.Births.{join-Born, singleton-IsVts}
use data_race_test.Arcs.Events.{
  Event, wait, signal, forget_signaller, thr_create_before, thr_create_after, thr_start, thr_end,
  thr_join_after, cyclic_barrier_init, cyclic_barrier_wait_before, cyclic_barrier_wait_after,
  create_pcq, destroy_pcq, put_pcq, get_pcq, none-Below, info-IsValid, barriers-IsValid,
}
use data_race_test.Arcs.Kept.{pcq-IsValid, some-All}
use data_race_test.Arcs.Happens.{wait-Before}

-- The stamp of the first putter
abbrev pub front : Option (List (List Ts)) → Option (List Ts)
front none = none
front (some []) = none
front (some (x ∷ q)) = some x

-- What the parent of a child knew when it created it
unfoldable pub created : Sync → ℕ → ℕ → List Ts
created s t u = elim (s.create_info t u) [
  | some x ↦ x
  | none ↦ elim (s.create_info t 0) [ some x ↦ x | none ↦ s.vts t ]
]

abbrev pub handed_on : Option (List Ts) → ℕ → Option (List Ts × ℕ)
handed_on none t = none
handed_on (some x) t = some (x, t)

-- The stamp that an event is to hand on, and the thread that gets it
unfoldable pub source : Event → Sync → Option (List Ts × ℕ)
source (wait t cv) s = handed_on (s.signallers cv) t
source (thr_join_after t u) s = handed_on (exit_vts u s) t
source (cyclic_barrier_wait_after t b) s =
    let info : CyclicBarrierInfo = s.barriers b in
    handed_on (s.signallers (b + (info.n_wait_after / info.barrier_count) % 4)) t
source (get_pcq t a) s = handed_on (front (s.pcqs a)) t
source (thr_start none u) s = none
source (thr_start (some t) u) s = if u == 0 then none else some (created s t u, u)
source (signal t cv) s = none
source (forget_signaller cv) s = none
source (thr_create_before t) s = none
source (thr_create_after t u) s = none
source (thr_end t) s = none
source (cyclic_barrier_init b n) s = none
source (cyclic_barrier_wait_before t b) s = none
source (create_pcq a) s = none
source (destroy_pcq a) s = none
source (put_pcq t a) s = none

-- If the event succeeds and `u` runs, `x` happens before the new stamp of `u`.
unfoldable pub After : List Ts → ℕ → Option Sync → Type 0
After x u none = Unit
After x u (some v) = v.running u ≡ true → happens_before x (v.vts u) ≡ true

valid_wait :
    (s : Sync) (u : ℕ) (x : List Ts)
    → IsValid s
    → s.running u ≡ true
    → Below s x
    → happens_before x ((new_segment_for_wait u x s).vts u) ≡ true
valid_wait s u x h a b = wait-Before s u x x h a b.0 (λ t. omega arith) b

pub start-After :
    (s : Sync) (u : ℕ) (x : List Ts) → IsValid s → Below s x → After x u (start_from u x (some s))
unfolding start_from add_thread After
start-After s u x h b =
    let y = join (create_singleton u 1) x in
    let c = join-Born s u x h b in
    let j = clk-join (create_singleton u 1) x (singleton-IsVts u) b.0 in
    elim (Bool-cases (not (ltb u s.max_n_threads) || s.exists u)) [
      | inl e ↦ rw (start_from, add_thread, e) tt
      | inr e ↦
          let n : s.exists u ≡ false = ground (arith, e) in
          let o : 0 < clk u y = c.own in
          rw (start_from, add_thread, e, update_self s.vts u y)
            (λ r. (happens_before_iff x y b.0 c.stamp).1 (
              (λ t. omega (arith, j.1 t)),
              λ f.
                  let g : clk u x ≡ clk u y = ap (clk u) f in
                  absurd (omega (arith, g, o, (b.1 u).1 n)),
            ))
    ]

wait_running : (s : Sync) (t : ℕ) (x : List Ts) → (new_segment_for_wait t x s).running ≡ s.running
unfolding new_segment_for_wait
wait_running s t x = ground arith

pub wait-After :
    (s : Sync) (u : ℕ) (x : List Ts)
    → IsValid s
    → Below s x
    → After x u (some (new_segment_for_wait u x s))
unfolding After
wait-After s u x h b r = valid_wait s u x h (sym (ap (λ f. f u) (wait_running s u x)) ∙ r) b

pub child_start-After :
    (s : Sync) (t u : ℕ)
    → IsValid s
    → s.exists t ≡ true
    → After (created s t u) u (handle_child_thread_start t u s)
unfolding handle_child_thread_start new_segment_for_signal ticked created
child_start-After s t u h k = elim (Option-cases (s.create_info t u)) [
  | inr (x, e) ↦
      rw (created, handle_child_thread_start, e)
        (start-After (set_info s t u none) u x (info-IsValid s t u none h (none-Below s))
          (h.infos t u x e))
  | inl e ↦ elim (Option-cases (s.create_info t 0)) [
    | inr (x, d) ↦
        rw (created, handle_child_thread_start, e, d)
          (start-After (set_info s t 0 none) u x (info-IsValid s t 0 none h (none-Below s))
            (h.infos t 0 x d))
    | inl d ↦
        let c = tick-Ticked s t h k in
        rw (created, handle_child_thread_start, e, d, new_segment_for_signal, c.1)
          (start-After (set_vts s t c.0) u (s.vts t) (set_vts-IsValid s t c.0 h (c.2).0) (c.2).1)
  ]
]

pub join-After :
    (s : Sync) (t u : ℕ) (x : List Ts)
    → IsValid s
    → s.running u ≡ false
    → exit_vts u s ≡ some x
    → After x t (handle_thread_join_after t u s)
unfolding handle_thread_join_after exit_vts After
join-After s t u x h r e = elim (Bool-cases (ltb 0 u && s.exists u)) [
  | inr d ↦ rw (handle_thread_join_after, d) tt
  | inl d ↦
      let q : s.vts_at_exit u ≡ some x = rw (exit_vts, r) at e in
      rw (handle_thread_join_after, d, e) (wait-After s t x h (h.exits u x q))
]

putter-After :
    (s : Sync) (t a : ℕ) (q : List (List Ts)) (x : List Ts)
    → IsValid s
    → s.pcqs a ≡ some q
    → front (some q) ≡ some x
    → After x t (get_putter t a q s)
unfolding get_putter After
putter-After s t a [] x h e f = tt
putter-After s t a (y ∷ q) x h e f =
    let b = h.queues a (y ∷ q) e in
    let d : y ≡ x = cc in
    rw (sym d)
      (wait-After (set_pcq s a (some q)) t y (pcq-IsValid s a (some q) h (some-All s q b.1)) b.0)

pub get-After :
    (s : Sync) (t a : ℕ) (x : List Ts)
    → IsValid s
    → front (s.pcqs a) ≡ some x
    → After x t (handle_pcq_get t a s)
unfolding handle_pcq_get After
get-After s t a x h f = elim (Option-cases (s.pcqs a)) [
  | inl e ↦ rw (handle_pcq_get, e) tt
  | inr (q, e) ↦ rw (handle_pcq_get, e) (putter-After s t a q x h e (rw e at f))
]

pub barrier-After :
    (s : Sync) (t b : ℕ) (x : List Ts)
    → IsValid s
    → let info : CyclicBarrierInfo = s.barriers b in
      s.signallers (b + (info.n_wait_after / info.barrier_count) % 4) ≡ some x
      → After x t (handle_barrier_wait_after t b s)
unfolding handle_barrier_wait_after handle_wait After
barrier-After s t b x h f =
    let info : CyclicBarrierInfo = s.barriers b in
    elim (Bool-cases (bad_barrier info info.n_wait_after)) [
      | inl e ↦ rw (handle_barrier_wait_after, e) tt
      | inr e ↦
          rw (handle_barrier_wait_after, e, handle_wait, f)
            (wait-After _ t x (barriers-IsValid s _ h) (h.signals _ x f))
    ]

-- A source that a test gives
pub handed :
    (o : Option (List Ts)) (t u : ℕ) (x : List Ts)
    → handed_on o t ≡ some (x, u)
    → (o ≡ some x) × (t ≡ u)
handed none t u x e = absurd (cc)
handed (some y) t u x e = (cc, cc)
