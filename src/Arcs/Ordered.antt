-- ===== src/Arcs/Ordered.antt =====
-- The states that the events of the arcs, tsan/thread_sanitizer.cc, lead to: what is concurrent in them.
use data_race_test.Prelude.{
  ℕ, ◌≡◌, ◌≢◌, inl, inr, refl, sym, true, false, none, some, [], arith, Bool-cases,
}
use data_race_test.Vts.{clk, happens_before}
use data_race_test.Vts.Lattice.{happens_before_iff}
use data_race_test.Arcs.{Sync}
use data_race_test.Arcs.Stamps.{IsValid}
use data_race_test.Arcs.Events.{Event, handle, Allowed, Keeps}
use data_race_test.Arcs.Kept.{handle-Keeps}

-- Before the first thread
abbrev pub no_threads : ℕ → Sync
no_threads n = record {
  max_n_threads = n;
  exists = λ t. false;
  running = λ t. false;
  vts = λ t. [];
  vts_at_exit = λ t. none;
  signallers = λ cv. none;
  create_info = λ p t. none;
  barriers = λ b. record {
    barrier_count = 0;
    calls_before_reset = 0;
    n_wait_before = 0;
    n_wait_after = 0;
  };
  pcqs = λ a. none;
}

pub data Reached : Sync → Type 0 where
  reached_first : (n : ℕ) → Reached (no_threads n)
  reached_next :
      (s v : Sync) (e : Event) → Reached s → Allowed s e → handle e s ≡ some v → Reached v

no_threads-IsValid : (n : ℕ) → IsValid (no_threads n)
unfolding clk
no_threads-IsValid n = record {
  known = λ t r. absurd (cc);
  stamp = λ t. tt;
  own = λ t r. absurd (cc);
  apart = λ t u n. ((λ r. absurd (cc)), λ r. refl);
  exits = λ t x e. absurd (cc);
  signals = λ t x e. absurd (cc);
  infos = λ p t x e. absurd (cc);
  queues = λ a q e. absurd (cc);
}

pub next-IsValid :
    (s v : Sync) (e : Event) → IsValid s → Allowed s e → handle e s ≡ some v → IsValid v
unfolding Keeps
next-IsValid s v e h a q = let k : Keeps (handle e s) = handle-Keeps e s h a in rw q at k

-- The states that the events lead to have the invariant.
pub Reached-IsValid : (s : Sync) → Reached s → IsValid s
Reached-IsValid s (reached_first n) = no_threads-IsValid n
Reached-IsValid s (reached_next p v e r a q) = next-IsValid p v e (Reached-IsValid p r) a q

-- After any events, each of a thread that exists and joins only of ended threads, no stamp of a
-- running thread happens before that of another running thread.
pub happens_before-Reached :
    (s : Sync) (t u : ℕ)
    → Reached s
    → t ≢ u
    → s.running t ≡ true
    → s.running u ≡ true
    → happens_before (s.vts t) (s.vts u) ≡ false
happens_before-Reached s t u r n a b =
    let h = Reached-IsValid s r in
    elim (Bool-cases (happens_before (s.vts t) (s.vts u))) [
      | inr e ↦ e
      | inl e ↦
          let o = ((happens_before_iff (s.vts t) (s.vts u) (h.stamp t) (h.stamp u)).0 e).0 t in
          absurd (omega (arith, o, (h.apart u t (λ z. n (sym z))).0 a))
    ]
