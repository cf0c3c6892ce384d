-- ===== src/Vts/Cached.antt =====
-- VTS::HappensBeforeCached and FlushHBCache, tsan/thread_sanitizer.cc. The cache is static; a time
-- stamp is its unique id and its array.
use data_race_test.Prelude.{
  ℕ, ◌<◌, ◌^◌, ◌≡◌, inl, inr, refl, ap, ◌∙◌, Bool, false, List, none, some, length, arith,
  Option-cases, length-set, length-replicate,
}
use data_race_test.Vts.{Ts, happens_before, IsVts}
use data_race_test.Vts.Tick.{happens_before_order}
use data_race_test.Caches.BoolCache.{Slot}
use data_race_test.Caches.BoolCache

-- The static member hb_cache_ holds `size` pairs; the answer and the new cache.
unfoldable pub happens_before_cached : ℕ → List Slot → ℕ → List Ts → ℕ → List Ts → List Slot × Bool
happens_before_cached size cache a xs b ys = elim (BoolCache.lookup size cache a b) [
  | some res ↦ (cache, res)
  | none ↦ let res = happens_before xs ys in (BoolCache.insert size cache a b res, res)
]

-- FlushHBCache
unfoldable pub flush_hb_cache : ℕ → List Slot
flush_hb_cache size = BoolCache.flush size

-- The cache answers for two ids what HappensBefore says of the stamps that they name.
pub record IsRight (stamp : ℕ → List Ts) (size : ℕ) (cache : List Slot) : Type 0 where
  pub sized : length cache ≡ size
  pub answers :
      (a b : ℕ) (v : Bool)
      → BoolCache.lookup size cache a b ≡ some v
      → v ≡ happens_before (stamp a) (stamp b)

module _ (stamp : ℕ → List Ts) (size : ℕ) (p : 0 < size) where
  insert-IsRight :
      (cache : List Slot) (a b : ℕ)
      → IsRight stamp size cache
      → b < 2 ^ 31
      → IsRight stamp size (BoolCache.insert size cache a b (happens_before (stamp a) (stamp b)))
  insert-IsRight cache a b h k = record {
    sized = unfold BoolCache.insert in (length-set cache _ _ ∙ h.sized);
    answers = λ c d v e. elim ((BoolCache.lookup-insert size cache a b _ c d v p h.sized k).1 e) [
      | inl (q, r, t) ↦ rw (q, r) t
      | inr o ↦ h.answers c d v o
    ];
  }

  -- VTS::HappensBeforeCached on the stamps that two ids name, the second id below 2^31, with a
  -- cache that is right for them, answers what HappensBefore answers and leaves such a cache; after
  -- FlushHBCache the cache is right for any well-formed stamps.
  pub happens_before_cached_lem :
      (cache : List Slot) (a b : ℕ)
      → IsRight stamp size cache
      → b < 2 ^ 31
      → ((t : ℕ) → IsVts (stamp t))
      → ((happens_before_cached size cache a (stamp a) b (stamp b)).1
          ≡ happens_before (stamp a) (stamp b))
        × IsRight stamp size (happens_before_cached size cache a (stamp a) b (stamp b)).0
        × IsRight stamp size (flush_hb_cache size)
  unfolding happens_before_cached flush_hb_cache
  happens_before_cached_lem cache a b h k w =
      elim (Option-cases (BoolCache.lookup size cache a b)) [
        | inl e ↦ rw (happens_before_cached, e) (refl, insert-IsRight cache a b h k, flushed)
        | inr (v, e) ↦ rw (happens_before_cached, e) (h.answers a b v e, h, flushed)
      ]
    where
      first_only :
          (a b : ℕ) (v : Bool)
          → BoolCache.lookup size (BoolCache.flush size) a b ≡ some v
          → (a ≡ b) × (v ≡ false)
      first_only a b v e = ground (arith, BoolCache.lookup-flush size a b p)

      irreflexive : (a b : ℕ) → a ≡ b → false ≡ happens_before (stamp a) (stamp b)
      irreflexive a b q = ground (
        arith,
        (happens_before_order (stamp b) (stamp b) (stamp b) (w b) (w b) (w b)).0,
        ap stamp q,
      )

      flushed : IsRight stamp size (BoolCache.flush size)
      flushed = record {
        sized = unfold BoolCache.flush in length-replicate size _;
        answers = λ a b v e. let f = first_only a b v e in f.1 ∙ irreflexive a b f.0;
      }
