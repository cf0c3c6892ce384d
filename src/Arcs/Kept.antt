-- ===== src/Arcs/Kept.antt =====
-- The events of the arcs, tsan/thread_sanitizer.cc, and the invariant of the time stamps.
use data_race_test.Prelude.{
  ℕ, ◌+◌, ◌/◌, ◌%◌, ◌≡◌, inl, inr, sym, true, false, ◌&&◌, Option, none, some, List, [], ◌∷◌, ◌++◌,
  ◌==◌, ltb, update, All, Bool-cases, Option-cases,
}
use data_race_test.Vts.{Ts}
use data_race_test.Arcs.{
  Sync, CyclicBarrierInfo, set_vts, handle_forget_signaller, exit_vts, handle_thread_join_after,
  handle_barrier_init, bad_barrier, handle_barrier_wait_before, handle_barrier_wait_after, set_pcq,
  handle_pcq_create, handle_pcq_destroy, handle_pcq_put, get_putter, handle_pcq_get,
}
use data_race_test.Arcs.Stamps.{Below, IsValid, wait-IsValid, maps-IsValid, update-all}
use data_race_test.Arcs.Events.{
  Event, wait, signal, forget_signaller, thr_create_before, thr_create_after, thr_start, thr_end,
  thr_join_after, cyclic_barrier_init, cyclic_barrier_wait_before, cyclic_barrier_wait_after,
  create_pcq, destroy_pcq, put_pcq, get_pcq, handle, Allowed, Keeps, tick-Keeps, signal-Keeps,
  forget-IsValid, barriers-IsValid,
}
use data_race_test.Arcs.Lives.{
  wait-Keeps, create_before-Keeps, create_after-Keeps, thread_start-Keeps, end_thread-Keeps,
}

join_after-Keeps :
    (s : Sync) (t u : ℕ) → IsValid s → s.running u ≡ false → Keeps (handle_thread_join_after t u s)
unfolding handle_thread_join_after exit_vts Keeps
join_after-Keeps s t u h r = elim (Bool-cases (ltb 0 u && s.exists u)) [
  | inr e ↦ rw (handle_thread_join_after, e) tt
  | inl e ↦ elim (Option-cases (s.vts_at_exit u)) [
    | inl d ↦ rw (handle_thread_join_after, e, exit_vts, r, d) tt
    | inr (x, d) ↦
        rw (handle_thread_join_after, e, exit_vts, r, d) (wait-IsValid s t x h (h.exits u x d))
  ]
]

barrier_init-Keeps : (s : Sync) (b n : ℕ) → IsValid s → Keeps (handle_barrier_init b n s)
unfolding handle_barrier_init Keeps
barrier_init-Keeps s b n h = elim (Bool-cases (n == 0)) [
  | inl e ↦ rw (handle_barrier_init, e) tt
  | inr e ↦ rw (handle_barrier_init, e) (barriers-IsValid s _ h)
]

barrier_before-Keeps :
    (s : Sync) (t b : ℕ) → IsValid s → s.exists t ≡ true → Keeps (handle_barrier_wait_before t b s)
unfolding handle_barrier_wait_before Keeps
barrier_before-Keeps s t b h k =
    let info : CyclicBarrierInfo = s.barriers b in
    let cv = b + (info.n_wait_before / info.barrier_count) % 4 in
    elim (Bool-cases (bad_barrier info info.n_wait_before)) [
      | inl e ↦ rw (handle_barrier_wait_before, e) tt
      | inr e ↦ elim (Bool-cases (info.calls_before_reset == 0)) [
        | inl d ↦
            rw (handle_barrier_wait_before, e, d) (signal-Keeps _ t cv (forget-IsValid s cv _ h) k)
        | inr d ↦
            rw (handle_barrier_wait_before, e, d) (signal-Keeps _ t cv (barriers-IsValid s _ h) k)
      ]
    ]

barrier_after-Keeps : (s : Sync) (t b : ℕ) → IsValid s → Keeps (handle_barrier_wait_after t b s)
unfolding handle_barrier_wait_after Keeps
barrier_after-Keeps s t b h =
    let info : CyclicBarrierInfo = s.barriers b in
    elim (Bool-cases (bad_barrier info info.n_wait_after)) [
      | inl e ↦ rw (handle_barrier_wait_after, e) tt
      | inr e ↦ rw (handle_barrier_wait_after, e) (wait-Keeps _ t _ (barriers-IsValid s _ h))
    ]

pub pcq-IsValid :
    (s : Sync) (a : ℕ) (o : Option (List (List Ts)))
    → IsValid s
    → ((q : List (List Ts)) → o ≡ some q → All (Below s) q)
    → IsValid (set_pcq s a o)
pcq-IsValid s a o h f =
    maps-IsValid s s.signallers s.create_info s.barriers (update s.pcqs a o) h h.signals h.infos
      (update-all (All (Below s)) s.pcqs a o f h.queues)

pub some-All :
    (s : Sync) (p : List (List Ts))
    → All (Below s) p
    → (q : List (List Ts)) → some p ≡ some q
    → All (Below s) q
some-All s p h q e = let d : p ≡ q = cc in rw (sym d) h

pcq_create-Keeps : (s : Sync) (a : ℕ) → IsValid s → Keeps (handle_pcq_create a s)
unfolding handle_pcq_create Keeps
pcq_create-Keeps s a h = elim (Option-cases (s.pcqs a)) [
  | inl e ↦ rw (handle_pcq_create, e) (pcq-IsValid s a (some []) h (some-All s [] tt))
  | inr (q, e) ↦ rw (handle_pcq_create, e) tt
]

pcq_destroy-Keeps : (s : Sync) (a : ℕ) → IsValid s → Keeps (handle_pcq_destroy a s)
unfolding handle_pcq_destroy Keeps
pcq_destroy-Keeps s a h = elim (Option-cases (s.pcqs a)) [
  | inl e ↦ rw (handle_pcq_destroy, e) tt
  | inr (q, e) ↦ rw (handle_pcq_destroy, e) (pcq-IsValid s a none h (λ p d. absurd (cc)))
]

All-append :
    (s : Sync) (q : List (List Ts)) (x : List Ts)
    → All (Below s) q
    → Below s x
    → All (Below s) (q ++ (x ∷ []))
All-append s [] x h b = (b, tt)
All-append s (y ∷ q) x h b = (h.0, All-append s q x h.1 b)

pcq_put-Keeps : (s : Sync) (t a : ℕ) → IsValid s → s.exists t ≡ true → Keeps (handle_pcq_put t a s)
unfolding handle_pcq_put Keeps
pcq_put-Keeps s t a h k = elim (Option-cases (s.pcqs a)) [
  | inl e ↦ rw (handle_pcq_put, e) tt
  | inr (q, e) ↦
      let p = q ++ (s.vts t ∷ []) in
      rw (handle_pcq_put, e)
        (tick-Keeps s t s.signallers s.create_info s.barriers (update s.pcqs a (some p)) h k
          (λ y v b. (
            v.signals,
            (
              v.infos,
              update-all (All (Below (set_vts s t y))) s.pcqs a (some p)
                  (some-All (set_vts s t y) p
                    (All-append (set_vts s t y) q (s.vts t) (v.queues a q e) b))
                  v.queues,
            ),
          )))
]

putter-Keeps :
    (s : Sync) (t a : ℕ) (q : List (List Ts))
    → IsValid s
    → All (Below s) q
    → Keeps (get_putter t a q s)
unfolding get_putter Keeps
putter-Keeps s t a [] h b = tt
putter-Keeps s t a (x ∷ q) h b =
    wait-IsValid (set_pcq s a (some q)) t x (pcq-IsValid s a (some q) h (some-All s q b.1)) b.0

pcq_get-Keeps : (s : Sync) (t a : ℕ) → IsValid s → Keeps (handle_pcq_get t a s)
unfolding handle_pcq_get Keeps
pcq_get-Keeps s t a h = elim (Option-cases (s.pcqs a)) [
  | inl e ↦ rw (handle_pcq_get, e) tt
  | inr (q, e) ↦ rw (handle_pcq_get, e) (putter-Keeps s t a q h (h.queues a q e))
]

-- An event that the detector handles keeps the invariant of the time stamps.
pub handle-Keeps : (e : Event) (s : Sync) → IsValid s → Allowed s e → Keeps (handle e s)
unfolding handle Allowed Keeps handle_forget_signaller
handle-Keeps (wait t cv) s h k = wait-Keeps s t cv h
handle-Keeps (signal t cv) s h k = signal-Keeps s t cv h k
handle-Keeps (forget_signaller cv) s h k = forget-IsValid s cv s.barriers h
handle-Keeps (thr_create_before t) s h k = create_before-Keeps s t h k
handle-Keeps (thr_create_after t u) s h k = create_after-Keeps s t u h
handle-Keeps (thr_start p u) s h k = thread_start-Keeps s p u h
handle-Keeps (thr_end t) s h k = end_thread-Keeps s t h k
handle-Keeps (thr_join_after t u) s h k = join_after-Keeps s t u h k.1
handle-Keeps (cyclic_barrier_init b n) s h k = barrier_init-Keeps s b n h
handle-Keeps (cyclic_barrier_wait_before t b) s h k = barrier_before-Keeps s t b h k
handle-Keeps (cyclic_barrier_wait_after t b) s h k = barrier_after-Keeps s t b h
handle-Keeps (create_pcq a) s h k = pcq_create-Keeps s a h
handle-Keeps (destroy_pcq a) s h k = pcq_destroy-Keeps s a h
handle-Keeps (put_pcq t a) s h k = pcq_put-Keeps s t a h k
handle-Keeps (get_pcq t a) s h k = pcq_get-Keeps s t a h
