-- ===== src/Arcs/Lives.antt =====
-- Waits and the creation, start and end of threads, tsan/thread_sanitizer.cc, and the invariant of the stamps.
use data_race_test.Prelude.{
  ℕ, ◌≡◌, ◌≢◌, inl, inr, sym, ◌∙◌, true, false, not, ◌||◌, Option, none, some, List, ◌==◌, ==_iff,
  ltb, update, update_self, update_other, arith, Bool-cases, Option-cases,
}
use data_race_test.Vts.{Ts, create_singleton, join}
use data_race_test.Arcs.{
  end_thread, Sync, set_vts, ticked, new_segment_for_signal, handle_wait, set_info,
  handle_thread_create_before, handle_thread_create_after, add_thread, start_from,
  handle_child_thread_start, handle_thread_start, handle_thread_end,
}
use data_race_test.Arcs.Stamps.{
  Behind, Below, IsValid, set_vts-IsValid, wait-IsValid, update-all, row-all, tick-Ticked, All-map,
}
use data_race_test.Arcs.Births.{Born, singleton-Born, join-Born, thread-IsValid}
use data_race_test.Arcs.Events.{Keeps, tick-Keeps, some-Below, none-Below, info-IsValid}

pub wait-Keeps : (s : Sync) (t cv : ℕ) → IsValid s → IsValid (handle_wait t cv s)
unfolding handle_wait
wait-Keeps s t cv h = elim (Option-cases (s.signallers cv)) [
  | inl e ↦ rw (handle_wait, e) h
  | inr (x, e) ↦ rw (handle_wait, e) (wait-IsValid s t x h (h.signals cv x e))
]

pub create_before-Keeps :
    (s : Sync) (t : ℕ) → IsValid s → s.exists t ≡ true → Keeps (handle_thread_create_before t s)
unfolding handle_thread_create_before
create_before-Keeps s t h k =
    tick-Keeps s t s.signallers
      (update s.create_info t (update (s.create_info t) 0 (some (s.vts t)))) s.barriers s.pcqs h k
      (λ y v b. (
        v.signals,
        (
          row-all (Below (set_vts s t y)) s.create_info t 0 (some (s.vts t))
              (some-Below (set_vts s t y) (s.vts t) b) v.infos,
          v.queues,
        ),
      ))

pub create_after-Keeps :
    (s : Sync) (t u : ℕ) → IsValid s → IsValid (handle_thread_create_after t u s)
unfolding handle_thread_create_after
create_after-Keeps s t u h = elim (Option-cases (s.create_info t 0)) [
  | inl e ↦ rw (handle_thread_create_after, e) h
  | inr (x, e) ↦
      let b = some-Below s x (h.infos t 0 x e) in
      let v = info-IsValid s t u (some x) h b in
      rw (handle_thread_create_after, e)
        (info-IsValid (set_info s t u (some x)) t 0 none v (none-Below (set_info s t u (some x))))
]

add_thread-Keeps :
    (s : Sync) (u : ℕ) (y : List Ts) → IsValid s → Born s u y → Keeps (add_thread u y s)
unfolding add_thread Keeps
add_thread-Keeps s u y h b = elim (Bool-cases (not (ltb u s.max_n_threads) || s.exists u)) [
  | inl e ↦ rw (add_thread, e) tt
  | inr e ↦ rw (add_thread, e) (thread-IsValid s u y h (ground (arith, e)) b)
]

start-Keeps :
    (s : Sync) (u : ℕ) (x : List Ts) → IsValid s → Below s x → Keeps (start_from u x (some s))
unfolding start_from
start-Keeps s u x h b = add_thread-Keeps s u (join (create_singleton u 1) x) h (join-Born s u x h b)

info_start-Keeps :
    (s : Sync) (t u i : ℕ) (x : List Ts)
    → IsValid s
    → s.create_info t i ≡ some x
    → Keeps (start_from u x (some (set_info s t i none)))
info_start-Keeps s t u i x h e =
    start-Keeps (set_info s t i none) u x (info-IsValid s t i none h (none-Below s))
      (h.infos t i x e)

child_start-Keeps :
    (s : Sync) (t u : ℕ) → IsValid s → s.exists t ≡ true → Keeps (handle_child_thread_start t u s)
unfolding handle_child_thread_start new_segment_for_signal ticked
child_start-Keeps s t u h k = elim (Option-cases (s.create_info t u)) [
  | inr (x, e) ↦ rw (handle_child_thread_start, e) (info_start-Keeps s t u u x h e)
  | inl e ↦ elim (Option-cases (s.create_info t 0)) [
    | inr (x, d) ↦ rw (handle_child_thread_start, e, d) (info_start-Keeps s t u 0 x h d)
    | inl d ↦
        let c = tick-Ticked s t h k in
        rw (handle_child_thread_start, e, d, new_segment_for_signal, c.1)
          (start-Keeps (set_vts s t c.0) u (s.vts t) (set_vts-IsValid s t c.0 h (c.2).0) (c.2).1)
  ]
]

pub thread_start-Keeps :
    (s : Sync) (p : Option ℕ) (u : ℕ) → IsValid s → Keeps (handle_thread_start p u s)
unfolding handle_thread_start Keeps
thread_start-Keeps s none u h = add_thread-Keeps s u (create_singleton u 1) h (singleton-Born s u h)
thread_start-Keeps s (some t) u h = elim (Bool-cases (u == 0)) [
  | inl e ↦
      rw (handle_thread_start, e)
        (add_thread-Keeps s u (create_singleton u 1) h (singleton-Born s u h))
  | inr e ↦ elim (Bool-cases (s.exists t)) [
    | inl k ↦ rw (handle_thread_start, e, k) (child_start-Keeps s t u h k)
    | inr k ↦ rw (handle_thread_start, e, k) tt
  ]
]

abbrev ended : Sync → ℕ → Sync
ended s t = record s {
  running = update s.running t false;
  vts_at_exit = update s.vts_at_exit t (some (s.vts t));
}

ended-Behind : (s : Sync) (t u : ℕ) (x : List Ts) → Behind s x u → Behind (ended s t) x u
ended-Behind s t u x b = elim (Bool-cases (u == t)) [
  | inl e ↦
      let q : u ≡ t = (==_iff u t).0 e in
      let c : Behind s x t = rw q at b in
      rw (q, update_self s.running t false) ((λ r. absurd (cc)), c.1)
  | inr e ↦ let q : u ≢ t = λ z. cc ((==_iff u t).1 z) in rw (update_other s.running t u false q) b
]

ended-Below : (s : Sync) (t : ℕ) (x : List Ts) → Below s x → Below (ended s t) x
ended-Below s t x b = (b.0, λ u. ended-Behind s t u x (b.1 u))

own-Below : (s : Sync) (t : ℕ) → IsValid s → s.exists t ≡ true → Below (ended s t) (s.vts t)
own-Below s t h k = (
  h.stamp t,
  λ u. elim (Bool-cases (t == u)) [
    | inl b ↦
        let q : t ≡ u = (==_iff t u).0 b in
        rw (sym q, update_self s.running t false) ((λ r. absurd (cc)), λ r. absurd (cc))
    | inr b ↦
        let q : t ≢ u = λ z. cc ((==_iff t u).1 z) in ended-Behind s t u (s.vts t) (h.apart t u q)
  ],
)

ended-IsValid : (s : Sync) (t : ℕ) → IsValid s → s.exists t ≡ true → IsValid (ended s t)
ended-IsValid s t h k = record {
  known = λ u r. elim (Bool-cases (u == t)) [
    | inl e ↦ let q : u ≡ t = (==_iff u t).0 e in rw q k
    | inr e ↦
        let q : u ≢ t = λ z. cc ((==_iff u t).1 z) in
        h.known u (sym (update_other s.running t u false q) ∙ r)
  ];
  stamp = h.stamp;
  own = h.own;
  apart = λ v u n. ended-Behind s t u (s.vts v) (h.apart v u n);
  exits =
      update-all (Below (ended s t)) s.vts_at_exit t (some (s.vts t))
        (some-Below (ended s t) (s.vts t) (own-Below s t h k))
        (λ u x e. ended-Below s t x (h.exits u x e));
  signals = λ u x e. ended-Below s t x (h.signals u x e);
  infos = λ p u x e. ended-Below s t x (h.infos p u x e);
  queues = λ a q e. All-map s (ended s t) q (λ x b. ended-Below s t x b) (h.queues a q e);
}

thread_end-Keeps :
    (s : Sync) (t : ℕ) → IsValid s → s.exists t ≡ true → Keeps (handle_thread_end t s)
unfolding handle_thread_end Keeps
thread_end-Keeps s t h k = elim (Bool-cases (s.running t)) [
  | inr e ↦ rw (handle_thread_end, e) tt
  | inl e ↦ elim (Option-cases (s.vts_at_exit t)) [
    | inr (x, d) ↦ rw (handle_thread_end, e, d) tt
    | inl d ↦ rw (handle_thread_end, e, d) (ended-IsValid s t h k)
  ]
]

pub end_thread-Keeps : (s : Sync) (t : ℕ) → IsValid s → s.exists t ≡ true → Keeps (end_thread t s)
unfolding end_thread Keeps
end_thread-Keeps s t h k = elim (Bool-cases (t == 0)) [
  | inl e ↦ rw (end_thread, e) h
  | inr e ↦ rw (end_thread, e) (thread_end-Keeps s t h k)
]
