-- ===== src/Arcs/Signals.antt =====
-- The arc from a SIGNAL to a WAIT, tsan/thread_sanitizer.cc, with other events between them.
use data_race_test.Prelude.{
  ℕ, ◌+◌, ◌/◌, ◌%◌, ◌≡◌, ◌⊎◌, inl, inr, refl, sym, ap, ◌∙◌, not, ◌||◌, Option, none, some, List,
  ◌==◌, ==_iff, ltb, update, update_self, update_other, arith, Bool-cases, Option-cases,
}
use data_race_test.Vts.{Ts, join, copy_and_tick, create_singleton, IsVts}
use data_race_test.Arcs.{
  end_thread, Sync, CyclicBarrierInfo, set_vts, ticked, new_segment_for_signal,
  new_segment_for_wait, handle_wait, joined, set_signaller, handle_signal, handle_forget_signaller,
  set_info, handle_thread_create_before, handle_thread_create_after, add_thread, start_from,
  handle_child_thread_start, handle_thread_start, handle_thread_end, handle_thread_join_after,
  handle_barrier_init, bad_barrier, handle_barrier_wait_before, handle_barrier_wait_after,
  handle_pcq_create, handle_pcq_destroy, handle_pcq_put, get_putter, handle_pcq_get,
}
use data_race_test.Arcs.Stamps.{IsValid}
use data_race_test.Arcs.Events.{
  Event, wait, signal, forget_signaller, thr_create_before, thr_create_after, thr_start, thr_end,
  thr_join_after, cyclic_barrier_init, cyclic_barrier_wait_before, cyclic_barrier_wait_after,
  create_pcq, destroy_pcq, put_pcq, get_pcq, handle,
}

-- The entry of a signaller is as before, or joined with one more stamp.
abbrev pub Joined : Option (List Ts) → Option (List Ts) → Type 0
Joined o p = (p ≡ o) ⊎ ((z : List Ts) × (p ≡ some (joined o z)) × IsVts z)

-- An event that fails, or leaves the entry of `cv` or joins it
unfoldable pub Grows : Sync → ℕ → Option Sync → Type 0
Grows s cv none = Unit
Grows s cv (some v) = Joined (s.signallers cv) (v.signallers cv)

-- The event takes the stamp from `cv`.
unfoldable pub Clears : Sync → ℕ → Event → Type 0
Clears s cv (forget_signaller c) = c ≡ cv
Clears s cv (cyclic_barrier_wait_before t b) =
    let info : CyclicBarrierInfo = s.barriers b in
    (info.calls_before_reset ≡ 0) × (b + (info.n_wait_before / info.barrier_count) % 4 ≡ cv)
Clears s cv (wait t c) = ⊥
Clears s cv (signal t c) = ⊥
Clears s cv (thr_create_before t) = ⊥
Clears s cv (thr_create_after t u) = ⊥
Clears s cv (thr_start p u) = ⊥
Clears s cv (thr_end t) = ⊥
Clears s cv (thr_join_after t u) = ⊥
Clears s cv (cyclic_barrier_init b n) = ⊥
Clears s cv (cyclic_barrier_wait_after t b) = ⊥
Clears s cv (create_pcq a) = ⊥
Clears s cv (destroy_pcq a) = ⊥
Clears s cv (put_pcq t a) = ⊥
Clears s cv (get_pcq t a) = ⊥

wait_signallers :
    (s : Sync) (t : ℕ) (x : List Ts) → (new_segment_for_wait t x s).signallers ≡ s.signallers
unfolding new_segment_for_wait
wait_signallers s t x = ground (arith)

tick-Grows :
    (s v : Sync) (cv t : ℕ)
    → Joined (s.signallers cv) (v.signallers cv)
    → Grows s cv (new_segment_for_signal t v)
unfolding new_segment_for_signal ticked Grows
tick-Grows s v cv t j = elim (Option-cases (copy_and_tick (v.vts t) t)) [
  | inl e ↦ rw (new_segment_for_signal, e) tt
  | inr (y, e) ↦ rw (new_segment_for_signal, e) j
]

pub signal-Grows :
    (s v : Sync) (cv c t : ℕ)
    → IsVts (v.vts t)
    → v.signallers cv ≡ s.signallers cv
    → Grows s cv (handle_signal t c v)
unfolding handle_signal
signal-Grows s v cv c t w q =
    let z = some (joined (v.signallers c) (v.vts t)) in
    tick-Grows s (set_signaller v c z) cv t (elim (Bool-cases (cv == c)) [
      | inl e ↦
          let d : cv ≡ c = (==_iff cv c).0 e in
          let f : v.signallers c ≡ s.signallers cv = ap v.signallers (sym d) ∙ q in
          inr (
            v.vts t,
            ap (update v.signallers c z) d
                ∙ update_self v.signallers c z
                ∙ ap (λ o. some (joined o (v.vts t))) f,
            w,
          )
      | inr e ↦ inl (update_other v.signallers c cv z (λ d. cc ((==_iff cv c).1 d)) ∙ q)
    ])

handle_wait-Grows :
    (s v : Sync) (cv t c : ℕ)
    → v.signallers cv ≡ s.signallers cv
    → Grows s cv (some (handle_wait t c v))
unfolding handle_wait Grows
handle_wait-Grows s v cv t c q = elim (Option-cases (v.signallers c)) [
  | inl e ↦ rw (handle_wait, e) (inl q)
  | inr (x, e) ↦ rw (handle_wait, e) (inl (ap (λ f. f cv) (wait_signallers v t x) ∙ q))
]

add_thread-Grows :
    (s v : Sync) (cv u : ℕ) (x : List Ts)
    → v.signallers cv ≡ s.signallers cv
    → Grows s cv (add_thread u x v)
unfolding add_thread Grows
add_thread-Grows s v cv u x q = elim (Bool-cases (not (ltb u v.max_n_threads) || v.exists u)) [
  | inl e ↦ rw (add_thread, e) tt
  | inr e ↦ rw (add_thread, e) (inl q)
]

start-Grows :
    (s v : Sync) (cv u : ℕ) (x : List Ts)
    → v.signallers cv ≡ s.signallers cv
    → Grows s cv (start_from u x (some v))
unfolding start_from
start-Grows s v cv u x q = add_thread-Grows s v cv u (join (create_singleton u 1) x) q

child_start-Grows : (s : Sync) (cv t u : ℕ) → Grows s cv (handle_child_thread_start t u s)
unfolding handle_child_thread_start new_segment_for_signal ticked start_from Grows
child_start-Grows s cv t u = elim (Option-cases (s.create_info t u)) [
  | inr (x, e) ↦ rw (handle_child_thread_start, e) (start-Grows s (set_info s t u none) cv u x refl)
  | inl e ↦ elim (Option-cases (s.create_info t 0)) [
    | inr (x, d) ↦
        rw (handle_child_thread_start, e, d) (start-Grows s (set_info s t 0 none) cv u x refl)
    | inl d ↦ elim (Option-cases (copy_and_tick (s.vts t) t)) [
      | inl c ↦ rw (handle_child_thread_start, e, d, new_segment_for_signal, c) tt
      | inr (y, c) ↦
          rw (handle_child_thread_start, e, d, new_segment_for_signal, c)
            (start-Grows s (set_vts s t y) cv u (s.vts t) refl)
    ]
  ]
]

thread_start-Grows :
    (s : Sync) (cv : ℕ) (p : Option ℕ) (u : ℕ) → Grows s cv (handle_thread_start p u s)
unfolding handle_thread_start Grows
thread_start-Grows s cv none u = add_thread-Grows s s cv u (create_singleton u 1) refl
thread_start-Grows s cv (some t) u = elim (Bool-cases (u == 0)) [
  | inl e ↦ rw (handle_thread_start, e) (add_thread-Grows s s cv u (create_singleton u 1) refl)
  | inr e ↦ elim (Bool-cases (s.exists t)) [
    | inl k ↦ rw (handle_thread_start, e, k) (child_start-Grows s cv t u)
    | inr k ↦ rw (handle_thread_start, e, k) tt
  ]
]

barrier_before-Grows :
    (s : Sync) (cv t b : ℕ)
    → IsVts (s.vts t)
    → (Clears s cv (cyclic_barrier_wait_before t b) → ⊥)
    → Grows s cv (handle_barrier_wait_before t b s)
unfolding handle_barrier_wait_before Grows Clears
barrier_before-Grows s cv t b w k =
    let info : CyclicBarrierInfo = s.barriers b in
    let c = b + (info.n_wait_before / info.barrier_count) % 4 in
    elim (Bool-cases (bad_barrier info info.n_wait_before)) [
      | inl e ↦ rw (handle_barrier_wait_before, e) tt
      | inr e ↦ elim (Bool-cases (info.calls_before_reset == 0)) [
        | inl d ↦
            let z : info.calls_before_reset ≡ 0 = (==_iff info.calls_before_reset 0).0 d in
            rw (handle_barrier_wait_before, e, d)
              (signal-Grows s _ cv c t w (update_other s.signallers c cv none (λ q. k (z, sym q))))
        | inr d ↦ rw (handle_barrier_wait_before, e, d) (signal-Grows s _ cv c t w refl)
      ]
    ]

pub handle-Grows :
    (e : Event) (s : Sync) (cv : ℕ) → IsValid s → (Clears s cv e → ⊥) → Grows s cv (handle e s)
unfolding handle Clears Grows handle_forget_signaller handle_thread_create_before
    handle_thread_create_after end_thread handle_thread_end handle_thread_join_after
    handle_barrier_init handle_barrier_wait_after handle_pcq_create handle_pcq_destroy
    handle_pcq_put get_putter handle_pcq_get new_segment_for_wait
handle-Grows (wait t c) s cv h k = handle_wait-Grows s s cv t c refl
handle-Grows (signal t c) s cv h k = signal-Grows s s cv c t (h.stamp t) refl
handle-Grows (forget_signaller c) s cv h k =
    inl (update_other s.signallers c cv none (λ q. k (sym q)))
handle-Grows (thr_create_before t) s cv h k = tick-Grows s _ cv t (inl refl)
handle-Grows (thr_create_after t u) s cv h k = ground arith
handle-Grows (thr_start p u) s cv h k = thread_start-Grows s cv p u
handle-Grows (thr_end t) s cv h k = ground arith
handle-Grows (thr_join_after t u) s cv h k = ground arith
handle-Grows (cyclic_barrier_init b n) s cv h k = ground arith
handle-Grows (cyclic_barrier_wait_before t b) s cv h k = barrier_before-Grows s cv t b (h.stamp t) k
handle-Grows (cyclic_barrier_wait_after t b) s cv h k =
    elim (Bool-cases (bad_barrier (s.barriers b) (s.barriers b).n_wait_after)) [
      | inl e ↦ rw (handle_barrier_wait_after, e) tt
      | inr e ↦ rw (handle_barrier_wait_after, e) (handle_wait-Grows s _ cv t _ refl)
    ]
handle-Grows (create_pcq a) s cv h k = ground arith
handle-Grows (destroy_pcq a) s cv h k = ground arith
handle-Grows (put_pcq t a) s cv h k = elim (Option-cases (s.pcqs a)) [
  | inl e ↦ rw (handle_pcq_put, e) tt
  | inr (q, e) ↦ rw (handle_pcq_put, e) (tick-Grows s _ cv t (inl refl))
]
handle-Grows (get_pcq t a) s cv h k = ground arith
