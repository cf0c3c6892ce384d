-- ===== src/Arcs/Handed.antt =====
-- All the events of tsan/thread_sanitizer.cc that hand a stamp on, taken together.
use data_race_test.Prelude.{ℕ, ◌≡◌, inl, inr, sym, true, Option, none, some, List, ◌==◌, Bool-cases}
use data_race_test.Vts.{Ts, happens_before}
use data_race_test.Arcs.{Sync, handle_wait, handle_thread_start, exit_vts}
use data_race_test.Arcs.Stamps.{IsValid}
use data_race_test.Arcs.Events.{
  Event, wait, signal, forget_signaller, thr_create_before, thr_create_after, thr_start, thr_end,
  thr_join_after, cyclic_barrier_init, cyclic_barrier_wait_before, cyclic_barrier_wait_after,
  create_pcq, destroy_pcq, put_pcq, get_pcq, handle, Allowed,
}
use data_race_test.Arcs.Ordered.{Reached, Reached-IsValid}
use data_race_test.Arcs.Acquires.{
  front, created, handed_on, source, After, handed, wait-After, child_start-After, join-After,
  get-After, barrier-After,
}

signal_wait-After :
    (s : Sync) (t cv : ℕ) (x : List Ts)
    → IsValid s
    → s.signallers cv ≡ some x
    → After x t (some (handle_wait t cv s))
unfolding handle_wait
signal_wait-After s t cv x h e = rw (handle_wait, e) (wait-After s t x h (h.signals cv x e))

thread_start-After :
    (s : Sync) (p : Option ℕ) (c : ℕ) (x : List Ts) (u : ℕ)
    → IsValid s
    → source (thr_start p c) s ≡ some (x, u)
    → After x u (handle_thread_start p c s)
unfolding handle_thread_start source After
thread_start-After s none c x u h q = absurd (cc)
thread_start-After s (some t) c x u h q = elim (Bool-cases (c == 0)) [
  | inl e ↦
      let d : handed_on none c ≡ some (x, u) = rw (source, e) at q in
      let f = handed none c u x d in absurd (cc)
  | inr e ↦
      let d : handed_on (some (created s t c)) c ≡ some (x, u) = rw (source, e) at q in
      let f = handed (some (created s t c)) c u x d in
      let y : created s t c ≡ x = cc in
      let z : c ≡ u = f.1 in
      elim (Bool-cases (s.exists t)) [
        | inl k ↦ rw (sym y, sym z) (rw (handle_thread_start, e, k) (child_start-After s t c h k))
        | inr k ↦ rw (handle_thread_start, e, k) tt
      ]
]

source-After :
    (e : Event) (s : Sync) (x : List Ts) (u : ℕ)
    → IsValid s
    → Allowed s e
    → source e s ≡ some (x, u)
    → After x u (handle e s)
unfolding handle source Allowed
source-After (wait t cv) s x u h k q =
    let d = handed (s.signallers cv) t u x q in rw (sym d.1) (signal_wait-After s t cv x h d.0)
source-After (thr_join_after t c) s x u h k q =
    let d = handed (exit_vts c s) t u x q in rw (sym d.1) (join-After s t c x h k.1 d.0)
source-After (cyclic_barrier_wait_after t b) s x u h k q =
    let d = handed _ t u x q in rw (sym d.1) (barrier-After s t b x h d.0)
source-After (get_pcq t a) s x u h k q =
    let d = handed (front (s.pcqs a)) t u x q in rw (sym d.1) (get-After s t a x h d.0)
source-After (thr_start p c) s x u h k q = thread_start-After s p c x u h q
source-After (signal t cv) s x u h k q = absurd (cc)
source-After (forget_signaller cv) s x u h k q = absurd (cc)
source-After (thr_create_before t) s x u h k q = absurd (cc)
source-After (thr_create_after t c) s x u h k q = absurd (cc)
source-After (thr_end t) s x u h k q = absurd (cc)
source-After (cyclic_barrier_init b n) s x u h k q = absurd (cc)
source-After (cyclic_barrier_wait_before t b) s x u h k q = absurd (cc)
source-After (create_pcq a) s x u h k q = absurd (cc)
source-After (destroy_pcq a) s x u h k q = absurd (cc)
source-After (put_pcq t a) s x u h k q = absurd (cc)

-- A WAIT, a join of a thread that has ended, a CYCLIC_BARRIER_WAIT_AFTER, a PCQ_GET and the start
-- of a child, when they succeed after any events, each of a thread that exists and joins only of
-- ended threads, and the thread runs then, give it a stamp after the one that the signaller, the
-- ended thread, the first putter or the parent left for it.
pub handle-After :
    (e : Event) (s v : Sync) (x : List Ts) (u : ℕ)
    → Reached s
    → Allowed s e
    → source e s ≡ some (x, u)
    → handle e s ≡ some v
    → v.running u ≡ true
    → happens_before x (v.vts u) ≡ true
unfolding After
handle-After e s v x u r k q c a =
    let g : After x u (handle e s) = source-After e s x u (Reached-IsValid s r) k q in
    let f : v.running u ≡ true → happens_before x (v.vts u) ≡ true = rw c at g in f a
