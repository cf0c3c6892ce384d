-- ===== src/Arcs.antt =====
-- The happens-before arcs between threads, tsan/thread_sanitizer.cc: SIGNAL and WAIT, thread creation
-- and join, cyclic barriers and PCQs. A thread has the time stamp of its current segment; NewSegment
-- stands here for the new stamp that it gives the thread. A failed CHECK is none.
pub mod Stamps
pub mod Births
pub mod Events
pub mod Lives
pub mod Kept
pub mod Ordered
pub mod Signals
pub mod Happens
pub mod Acquires
pub mod Handed
use data_race_test.Prelude.{
  ℕ, zero, suc, ◌+◌, ◌-◌, ◌/◌, ◌%◌, Bool, true, false, not, ◌&&◌, ◌||◌, Option, none, some, List,
  [], ◌∷◌, ◌++◌, if◌then◌else◌, ◌==◌, ltb, update,
}
use data_race_test.Vts.{Ts, create_singleton, copy_and_tick, join, happens_before}

-- CyclicBarrierInfo
pub record CyclicBarrierInfo : Type 0 where
  pub barrier_count : ℕ
  pub calls_before_reset : ℕ
  pub n_wait_before : ℕ
  pub n_wait_after : ℕ

-- The threads by their ids, with what each knows of the children it creates, and the maps. A signaller with a NULL stamp, which exists only within an
-- event, is none, as a missing one.
pub record Sync : Type 0 where
  pub max_n_threads : ℕ
  pub exists : ℕ → Bool
  pub running : ℕ → Bool
  pub vts : ℕ → List Ts
  pub vts_at_exit : ℕ → Option (List Ts)
  pub signallers : ℕ → Option (List Ts)
  pub create_info : ℕ → ℕ → Option (List Ts)
  pub barriers : ℕ → CyclicBarrierInfo
  pub pcqs : ℕ → Option (List (List Ts))

abbrev pub set_vts : Sync → ℕ → List Ts → Sync
set_vts s tid vts = record s { vts = update s.vts tid vts }

unfoldable pub ticked : Sync → ℕ → Option (List Ts) → Option Sync
ticked s tid none = none
ticked s tid (some vts) = some (set_vts s tid vts)

unfoldable pub new_segment_for_signal : ℕ → Sync → Option Sync
new_segment_for_signal tid s = ticked s tid (copy_and_tick (s.vts tid) tid)

-- HappensBeforeCached answers as HappensBefore does.
unfoldable pub new_segment_for_wait : ℕ → List Ts → Sync → Sync
new_segment_for_wait tid signaller_vts s =
    if happens_before signaller_vts (s.vts tid)
    then s
    else set_vts s tid (join (s.vts tid) signaller_vts)

unfoldable pub handle_wait : ℕ → ℕ → Sync → Sync
handle_wait tid cv s = elim (s.signallers cv) [
  | none ↦ s
  | some vts ↦ new_segment_for_wait tid vts s
]

abbrev pub joined : Option (List Ts) → List Ts → List Ts
joined none vts = vts
joined (some old) vts = join old vts

abbrev pub set_signaller : Sync → ℕ → Option (List Ts) → Sync
set_signaller s cv vts = record s { signallers = update s.signallers cv vts }

unfoldable pub handle_signal : ℕ → ℕ → Sync → Option Sync
handle_signal tid cv s =
    new_segment_for_signal tid (set_signaller s cv (some (joined (s.signallers cv) (s.vts tid))))

unfoldable pub handle_forget_signaller : ℕ → Sync → Sync
handle_forget_signaller cv s = set_signaller s cv none

abbrev pub set_info : Sync → ℕ → ℕ → Option (List Ts) → Sync
set_info s parent tid vts = record s {
  create_info = update s.create_info parent (update (s.create_info parent) tid vts);
}

unfoldable pub handle_thread_create_before : ℕ → Sync → Option Sync
handle_thread_create_before parent s =
    new_segment_for_signal parent (set_info s parent 0 (some (s.vts parent)))

unfoldable pub handle_thread_create_after : ℕ → ℕ → Sync → Sync
handle_thread_create_after parent child s = elim (s.create_info parent 0) [
  | none ↦ s
  | some vts ↦ set_info (set_info s parent child (some vts)) parent 0 none
]

-- The constructor of TSanThread, with its CHECKs that the id is below the flag and has no thread yet.
unfoldable pub add_thread : ℕ → List Ts → Sync → Option Sync
add_thread child vts s =
    if not (ltb child s.max_n_threads) || s.exists child
    then none
    else some (record s {
      exists = update s.exists child true;
      running = update s.running child true;
      vts = update s.vts child vts;
    })

unfoldable pub start_from : ℕ → List Ts → Option Sync → Option Sync
start_from child info none = none
start_from child info (some s) = add_thread child (join (create_singleton child 1) info) s

-- HandleChildThreadStart
unfoldable pub handle_child_thread_start : ℕ → ℕ → Sync → Option Sync
handle_child_thread_start parent child s = elim (s.create_info parent child) [
  | some info ↦ start_from child info (some (set_info s parent child none))
  | none ↦ elim (s.create_info parent 0) [
    | some info ↦ start_from child info (some (set_info s parent 0 none))
    | none ↦ start_from child (s.vts parent) (new_segment_for_signal parent s)
  ]
]

unfoldable pub handle_thread_start : Option ℕ → ℕ → Sync → Option Sync
handle_thread_start none child s = add_thread child (create_singleton child 1) s
handle_thread_start (some parent) child s =
    let start = handle_child_thread_start parent child s in
    if child == 0
    then add_thread child (create_singleton child 1) s
    else if s.exists parent
    then start
    else none

unfoldable pub handle_thread_end : ℕ → Sync → Option Sync
handle_thread_end tid s =
    if s.running tid
    then elim (s.vts_at_exit tid) [
      | some vts ↦ none
      | none ↦ some (record s {
        running = update s.running tid false;
        vts_at_exit = update s.vts_at_exit tid (some (s.vts tid));
      })
    ]
    else none

-- HandleThreadEnd of class Detector: the main thread only ends the program.
unfoldable pub end_thread : ℕ → Sync → Option Sync
end_thread tid s = if tid == 0 then some s else handle_thread_end tid s

unfoldable pub exit_vts : ℕ → Sync → Option (List Ts)
exit_vts tid s = if s.running tid then some (s.vts tid) else s.vts_at_exit tid

unfoldable pub handle_thread_join_after : ℕ → ℕ → Sync → Option Sync
handle_thread_join_after parent tid s =
    if ltb 0 tid && s.exists tid
    then elim (exit_vts tid s) [ none ↦ none | some vts ↦ some (new_segment_for_wait parent vts s) ]
    else none

unfoldable pub handle_barrier_init : ℕ → ℕ → Sync → Option Sync
handle_barrier_init barrier n s =
    if n == 0
    then none
    else some (record s {
      barriers = update s.barriers barrier (record {
        barrier_count = n;
        calls_before_reset = 0;
        n_wait_before = 0;
        n_wait_after = 0;
      });
    })

abbrev pub set_barrier : Sync → ℕ → CyclicBarrierInfo → Sync
set_barrier s barrier info = record s { barriers = update s.barriers barrier info }

-- A barrier that was not initialised has no count, by which the division fails; a count of 2 ^ 31 is
-- no int32, and a counter that gets there overflows.
unfoldable pub bad_barrier : CyclicBarrierInfo → ℕ → Bool
bad_barrier info n =
    info.barrier_count == 0
    || not (ltb info.barrier_count 2147483648)
    || not (ltb (n + 1) 2147483648)

unfoldable pub handle_barrier_wait_before : ℕ → ℕ → Sync → Option Sync
handle_barrier_wait_before tid barrier s =
    let info : CyclicBarrierInfo = s.barriers barrier in
    let cv = barrier + (info.n_wait_before / info.barrier_count) % 4 in
    let first =
      set_signaller
        (set_barrier s barrier (record info {
          n_wait_before = info.n_wait_before + 1;
          calls_before_reset = info.barrier_count - 1;
        }))
        cv none in
    let next = set_barrier s barrier (record info {
      n_wait_before = info.n_wait_before + 1;
      calls_before_reset = info.calls_before_reset - 1;
    }) in
    if bad_barrier info info.n_wait_before
    then none
    else handle_signal tid cv (if info.calls_before_reset == 0 then first else next)

unfoldable pub handle_barrier_wait_after : ℕ → ℕ → Sync → Option Sync
handle_barrier_wait_after tid barrier s =
    let info : CyclicBarrierInfo = s.barriers barrier in
    if bad_barrier info info.n_wait_after
    then none
    else some (
        handle_wait tid (barrier + (info.n_wait_after / info.barrier_count) % 4)
          (set_barrier s barrier (record info { n_wait_after = info.n_wait_after + 1 })))

abbrev pub set_pcq : Sync → ℕ → Option (List (List Ts)) → Sync
set_pcq s addr putters = record s { pcqs = update s.pcqs addr putters }

unfoldable pub handle_pcq_create : ℕ → Sync → Option Sync
handle_pcq_create addr s = elim (s.pcqs addr) [
  | none ↦ some (set_pcq s addr (some []))
  | some q ↦ none
]

unfoldable pub handle_pcq_destroy : ℕ → Sync → Option Sync
handle_pcq_destroy addr s = elim (s.pcqs addr) [ none ↦ none | some q ↦ some (set_pcq s addr none) ]

unfoldable pub handle_pcq_put : ℕ → ℕ → Sync → Option Sync
handle_pcq_put tid addr s = elim (s.pcqs addr) [
  | none ↦ none
  | some q ↦ new_segment_for_signal tid (set_pcq s addr (some (q ++ (s.vts tid ∷ []))))
]

unfoldable pub get_putter : ℕ → ℕ → List (List Ts) → Sync → Option Sync
get_putter tid addr [] s = none
get_putter tid addr (putter ∷ q) s =
    some (new_segment_for_wait tid putter (set_pcq s addr (some q)))

unfoldable pub handle_pcq_get : ℕ → ℕ → Sync → Option Sync
handle_pcq_get tid addr s = elim (s.pcqs addr) [ none ↦ none | some q ↦ get_putter tid addr q s ]
