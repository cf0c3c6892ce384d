-- ===== src/Arcs/Events.antt =====
-- The events of tsan/thread_sanitizer.cc that make the arcs, one step of the detector for each, and what
-- a step keeps. A thread that does not exist is a NULL pointer in its events.
use data_race_test.Prelude.{ℕ, ◌≡◌, refl, sym, true, false, Option, none, some, List, update, All}
use data_race_test.Vts.{Ts}
use data_race_test.Arcs.{
  Sync, CyclicBarrierInfo, set_vts, ticked, new_segment_for_signal, handle_wait, joined,
  set_signaller, handle_signal, handle_forget_signaller, set_info, handle_thread_create_before,
  handle_thread_create_after, handle_thread_start, end_thread, handle_thread_join_after,
  handle_barrier_init, handle_barrier_wait_before, handle_barrier_wait_after, handle_pcq_create,
  handle_pcq_destroy, handle_pcq_put, handle_pcq_get,
}
use data_race_test.Arcs.Stamps.{
  Below, IsValid, set_vts-IsValid, maps-IsValid, update-all, row-all, tick-Ticked, join-Below,
}

pub data Event : Type 0 where
  wait : ℕ → ℕ → Event
  signal : ℕ → ℕ → Event
  forget_signaller : ℕ → Event
  thr_create_before : ℕ → Event
  thr_create_after : ℕ → ℕ → Event
  thr_start : Option ℕ → ℕ → Event
  thr_end : ℕ → Event
  thr_join_after : ℕ → ℕ → Event
  cyclic_barrier_init : ℕ → ℕ → Event
  cyclic_barrier_wait_before : ℕ → ℕ → Event
  cyclic_barrier_wait_after : ℕ → ℕ → Event
  create_pcq : ℕ → Event
  destroy_pcq : ℕ → Event
  put_pcq : ℕ → ℕ → Event
  get_pcq : ℕ → ℕ → Event

-- HandleOneEvent, for the events of the threads that have no other event inside
unfoldable pub handle : Event → Sync → Option Sync
handle (wait t cv) s = some (handle_wait t cv s)
handle (signal t cv) s = handle_signal t cv s
handle (forget_signaller cv) s = some (handle_forget_signaller cv s)
handle (thr_create_before t) s = handle_thread_create_before t s
handle (thr_create_after t u) s = some (handle_thread_create_after t u s)
handle (thr_start p u) s = handle_thread_start p u s
handle (thr_end t) s = end_thread t s
handle (thr_join_after t u) s = handle_thread_join_after t u s
handle (cyclic_barrier_init b n) s = handle_barrier_init b n s
handle (cyclic_barrier_wait_before t b) s = handle_barrier_wait_before t b s
handle (cyclic_barrier_wait_after t b) s = handle_barrier_wait_after t b s
handle (create_pcq a) s = handle_pcq_create a s
handle (destroy_pcq a) s = handle_pcq_destroy a s
handle (put_pcq t a) s = handle_pcq_put t a s
handle (get_pcq t a) s = handle_pcq_get t a s

-- An event is of a thread that exists, and a thread that is joined has ended.
unfoldable pub Allowed : Sync → Event → Type 0
Allowed s (wait t cv) = s.exists t ≡ true
Allowed s (signal t cv) = s.exists t ≡ true
Allowed s (thr_create_before t) = s.exists t ≡ true
Allowed s (thr_end t) = s.exists t ≡ true
Allowed s (thr_join_after t u) = (s.exists t ≡ true) × (s.running u ≡ false)
Allowed s (cyclic_barrier_wait_before t b) = s.exists t ≡ true
Allowed s (cyclic_barrier_wait_after t b) = s.exists t ≡ true
Allowed s (put_pcq t a) = s.exists t ≡ true
Allowed s (get_pcq t a) = s.exists t ≡ true
Allowed s (forget_signaller cv) = Unit
Allowed s (thr_create_after t u) = s.exists t ≡ true
Allowed s (thr_start p u) = Unit
Allowed s (cyclic_barrier_init b n) = Unit
Allowed s (create_pcq a) = Unit
Allowed s (destroy_pcq a) = Unit

unfoldable pub Keeps : Option Sync → Type 0
Keeps none = Unit
Keeps (some s) = IsValid s

abbrev pub MapsBelow :
    Sync
    → (ℕ → Option (List Ts))
    → (ℕ → ℕ → Option (List Ts))
    → (ℕ → Option (List (List Ts)))
    → Type 0
MapsBelow s g i p =
    ((cv : ℕ) (x : List Ts) → g cv ≡ some x → Below s x)
    × (((p t : ℕ) (x : List Ts) → i p t ≡ some x → Below s x)
        × ((a : ℕ) (q : List (List Ts)) → p a ≡ some q → All (Below s) q))

pub tick-Keeps :
    (s : Sync) (t : ℕ) (g : ℕ → Option (List Ts)) (i : ℕ → ℕ → Option (List Ts))
    (b : ℕ → CyclicBarrierInfo) (p : ℕ → Option (List (List Ts)))
    → IsValid s
    → s.exists t ≡ true
    → ((y : List Ts)
        → IsValid (set_vts s t y)
        → Below (set_vts s t y) (s.vts t)
        → MapsBelow (set_vts s t y) g i p)
    → Keeps (
        new_segment_for_signal t
          (record s { signallers = g; create_info = i; barriers = b; pcqs = p }))
unfolding new_segment_for_signal ticked Keeps
tick-Keeps s t g i b p h k f =
    let c = tick-Ticked s t h k in
    let v = set_vts-IsValid s t c.0 h (c.2).0 in
    let m = f c.0 v (c.2).1 in
    rw (new_segment_for_signal, c.1) (maps-IsValid (set_vts s t c.0) g i b p v m.0 (m.1).0 (m.1).1)

joined-Below :
    (s : Sync) (o : Option (List Ts)) (x : List Ts)
    → ((y : List Ts) → o ≡ some y → Below s y)
    → Below s x
    → Below s (joined o x)
joined-Below s none x f b = b
joined-Below s (some y) x f b = join-Below s y x (f y refl) b

pub some-Below : (s : Sync) (x : List Ts) → Below s x → (y : List Ts) → some x ≡ some y → Below s y
some-Below s x b y e = let q : x ≡ y = cc in rw (sym q) b

pub none-Below : (s : Sync) (y : List Ts) → none ≡ some y → Below s y
none-Below s y e = absurd (cc)

pub signal-Keeps :
    (s : Sync) (t cv : ℕ) → IsValid s → s.exists t ≡ true → Keeps (handle_signal t cv s)
unfolding handle_signal
signal-Keeps s t cv h k =
    tick-Keeps s t (update s.signallers cv (some (joined (s.signallers cv) (s.vts t))))
      s.create_info s.barriers s.pcqs h k
      (λ y v b. (
        update-all (Below (set_vts s t y)) s.signallers cv
            (some (joined (s.signallers cv) (s.vts t)))
            (some-Below (set_vts s t y) (joined (s.signallers cv) (s.vts t))
              (joined-Below (set_vts s t y) (s.signallers cv) (s.vts t) (v.signals cv) b))
            v.signals,
        (v.infos, v.queues),
      ))

pub forget-IsValid :
    (s : Sync) (cv : ℕ) (b : ℕ → CyclicBarrierInfo)
    → IsValid s
    → IsValid (set_signaller (record s { barriers = b }) cv none)
forget-IsValid s cv b h =
    maps-IsValid s (update s.signallers cv none) s.create_info b s.pcqs h
      (update-all (Below s) s.signallers cv none (none-Below s) h.signals) h.infos h.queues

pub barriers-IsValid :
    (s : Sync) (b : ℕ → CyclicBarrierInfo) → IsValid s → IsValid (record s { barriers = b })
barriers-IsValid s b h =
    maps-IsValid s s.signallers s.create_info b s.pcqs h h.signals h.infos h.queues

pub info-IsValid :
    (s : Sync) (p t : ℕ) (o : Option (List Ts))
    → IsValid s
    → ((x : List Ts) → o ≡ some x → Below s x)
    → IsValid (set_info s p t o)
info-IsValid s p t o h b =
    maps-IsValid s s.signallers (update s.create_info p (update (s.create_info p) t o)) s.barriers
      s.pcqs h h.signals (row-all (Below s) s.create_info p t o b h.infos) h.queues
