-- ===== src/Witnesses/Threads.antt =====
-- A thread that creates another one, signals and is waited for.
use data_race_test.Prelude.{◌≡◌, refl, true, false, Option, none, some, arith}
use data_race_test.Vts.{create_singleton, copy_and_tick, found, tick_all, join, happens_before}
use data_race_test.Arcs.{
  Sync, ticked, new_segment_for_signal, handle_wait, handle_signal, handle_thread_create_before,
  add_thread, start_from, handle_child_thread_start, handle_thread_start,
}
use data_race_test.Arcs.Events.{Event, signal, thr_create_before, thr_start, handle, Allowed}
use data_race_test.Arcs.Ordered.{
  no_threads, Reached, reached_first, reached_next, happens_before-Reached,
}
use data_race_test.Arcs.Signals.{Clears}
use data_race_test.Arcs.Happens.{
  Between, no_events, one_more, new_segment_for_signal-Reached, handle_wait-handle_signal,
}
use data_race_test.Arcs.Acquires.{source, created}
use data_race_test.Arcs.Handed.{handle-After}

abbrev reached_by : Sync → Option Sync → Sync
reached_by s none = s
reached_by s (some v) = v

abbrev next : Event → Sync → Sync
next e s = reached_by s (handle e s)

abbrev only_main : Sync
only_main = next (thr_start none 0) (no_threads 4)

abbrev creating : Sync
creating = next (thr_create_before 0) only_main

abbrev both : Sync
both = next (thr_start (some 0) 1) creating

only_main-Reached : Reached only_main
unfolding handle handle_thread_start add_thread Allowed create_singleton
only_main-Reached =
    reached_next (no_threads 4) only_main (thr_start none 0) (reached_first 4) tt refl

creating-Reached : Reached creating
unfolding handle handle_thread_start add_thread Allowed create_singleton handle_thread_create_before
    new_segment_for_signal ticked copy_and_tick found
creating-Reached = reached_next only_main creating (thr_create_before 0) only_main-Reached refl refl

both-Reached : Reached both
unfolding handle handle_thread_start add_thread Allowed create_singleton handle_thread_create_before
    new_segment_for_signal ticked copy_and_tick handle_child_thread_start start_from join found
both-Reached = reached_next creating both (thr_start (some 0) 1) creating-Reached tt refl

happens_before-Reached_example : happens_before (both.vts 1) (both.vts 0) ≡ false
unfolding handle handle_thread_start add_thread Allowed create_singleton handle_thread_create_before
    new_segment_for_signal ticked copy_and_tick handle_child_thread_start start_from join found
    tick_all handle_signal handle_wait
happens_before-Reached_example =
    happens_before-Reached both 1 0 both-Reached (λ q. omega (arith, q)) refl refl

new_segment_for_signal-Reached_example :
    (v : Sync) × ((new_segment_for_signal 0 both ≡ some v)
      × (happens_before (both.vts 0) (v.vts 0) ≡ true))
unfolding handle handle_thread_start add_thread Allowed create_singleton handle_thread_create_before
    new_segment_for_signal ticked copy_and_tick handle_child_thread_start start_from join found
    tick_all handle_signal handle_wait
new_segment_for_signal-Reached_example = new_segment_for_signal-Reached both 0 both-Reached refl

-- Both signal to 7.
abbrev signalled : Sync
signalled = reached_by both (handle_signal 0 7 both)

abbrev signalled_twice : Sync
signalled_twice = next (signal 1 7) signalled

between : Between 7 signalled signalled_twice
unfolding handle handle_thread_start add_thread Allowed create_singleton handle_thread_create_before
    new_segment_for_signal ticked copy_and_tick handle_child_thread_start start_from join found
    tick_all handle_signal handle_wait Clears
between = one_more signalled signalled_twice (signal 1 7) no_events refl (λ z. z) refl

handle_wait-handle_signal_example :
    happens_before (both.vts 0) ((handle_wait 1 7 signalled_twice).vts 1) ≡ true
unfolding handle handle_thread_start add_thread Allowed create_singleton handle_thread_create_before
    new_segment_for_signal ticked copy_and_tick handle_child_thread_start start_from join found
    tick_all handle_signal handle_wait
handle_wait-handle_signal_example =
    handle_wait-handle_signal both signalled signalled_twice 0 1 7 both-Reached refl refl between
      refl

handle-After_example : happens_before (only_main.vts 0) (both.vts 1) ≡ true
unfolding handle handle_thread_start add_thread Allowed create_singleton handle_thread_create_before
    new_segment_for_signal ticked copy_and_tick handle_child_thread_start start_from join found
    tick_all handle_signal handle_wait source created
handle-After_example =
    handle-After (thr_start (some 0) 1) creating both (only_main.vts 0) 1 creating-Reached tt refl
      refl refl
