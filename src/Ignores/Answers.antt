-- ===== src/Ignores/Answers.antt =====
-- What the front ends get from the ignore lists, tsan/thread_sanitizer.cc and gcc/plg/relite_ignore.cc.
use data_race_test.Prelude.{
  ℕ, ◌<◌, ◌≤◌, ◌≡◌, ◌≢◌, ◌⊎◌, ◌↔◌, inl, inr, refl, Bool, true, false, not, ◌&&◌, ◌||◌, Option, none,
  some, List, [], ◌∷◌, ◌==◌, ==_iff, arith, Bool-cases, Option-cases, All,
}
use data_race_test.Wildcards.{Text}
use data_race_test.Wildcards.Matches.{Matches}
use data_race_test.Wildcards.Shortcuts.{NoZero}
use data_race_test.Ignores.{IgnoreTriple, IgnoreLists, eq_text, triple_vector_match_known, anything}
use data_race_test.Ignores.Lookup.{
  eq_text_iff, Found, Decides, or_else-Decides, IsReadable, TripleMatches,
  triple_vector_match_known-Decides,
}
use data_race_test.Ignores.Clients.{
  Flags, Names, addr_is_in_nacl_untrusted_region, eq_bool, ignore_for_nacl, no_symbols, not_ignored,
  in_white_list, ignored, after_white_list, want_to_instrument_sblock, BelowCache, find_pc,
  ignored_below, store_below, ignore_accesses_below_function, Relite, ignore_none, ignore_mop,
  ignore_rec, ignore_hist, relite_choice, relite_ignore_func,
}

abbrev pub Listed : List IgnoreTriple → Names → Type 0
Listed vs s = Found (λ v. TripleMatches v s.rtn_name s.img_name s.file_name) vs

abbrev pub NoZeros : Names → Type 0
NoZeros s = NoZero s.rtn_name × (NoZero s.img_name × NoZero s.file_name)

-- The address is on the side of the region that is traced.
abbrev pub OnSide : Flags → ℕ × ℕ → ℕ → Type 0
OnSide flags nacl pc = (flags.nacl_untrusted ≡ true) ↔ ((nacl.0 ≤ pc) × (pc < nacl.1))

list-Decides :
    (vs : List IgnoreTriple) (s : Names)
    → All IsReadable vs
    → NoZeros s
    → Decides (Listed vs s) (triple_vector_match_known vs s.rtn_name s.img_name s.file_name)
list-Decides vs s r n =
    triple_vector_match_known-Decides vs s.rtn_name s.img_name s.file_name r n.0 n.1.0 n.1.1

in_white_list-Decides :
    (vs : List IgnoreTriple) (s : Names)
    → All IsReadable vs
    → NoZeros s
    → Decides ((vs ≡ []) ⊎ Listed vs s) (in_white_list vs s)
unfolding in_white_list
in_white_list-Decides [] s r n = (true, refl, ((λ e. inl refl), λ e. refl))
in_white_list-Decides (v ∷ vs) s r n =
    let d = list-Decides (v ∷ vs) s r n in
    (d.0, d.1, ((λ e. inr (d.2.0 e)), λ z. elim z [ inl e ↦ absurd (cc) | inr l ↦ d.2.1 l ]))

nacl_iff :
    (flags : Flags) (nacl : ℕ × ℕ) (pc : ℕ)
    → (ignore_for_nacl flags nacl.0 nacl.1 pc ≡ false) ↔ OnSide flags nacl pc
unfolding ignore_for_nacl eq_bool addr_is_in_nacl_untrusted_region
nacl_iff flags nacl pc = ground arith

not_ignored-Decides :
    (P Q : Type 0) (b : Bool) (o : Option Bool)
    → (b ≡ false) ↔ Q
    → Decides P o
    → Decides ((¬ P) × Q) (not_ignored b o)
unfolding not_ignored
not_ignored-Decides P Q b o h (a, e, k) = (
  not (a || b),
  rw (e, not_ignored) refl,
  (
    (λ z. ((λ p. ground (arith, k.1 p)), h.0 (ground arith))),
    λ z. elim (Bool-cases a) [
      | inl t ↦ absurd (z.0 (k.0 t))
      | inr t ↦ let q = h.1 z.1 in ground arith
    ],
  ),
)

after_white_list-Decides :
    (P Q : Type 0) (u : Bool) (o r : Option Bool)
    → Decides P o
    → Decides Q r
    → Decides (P × ((u ≡ false) × Q)) (after_white_list o u r)
unfolding after_white_list
after_white_list-Decides P Q u o r (false, e, h) k =
    (false, rw (e, after_white_list) refl, ((λ z. absurd (cc)), λ z. h.1 z.0))
after_white_list-Decides P Q true o r (true, e, h) k =
    (false, rw (e, after_white_list) refl, ((λ z. absurd (cc)), λ z. absurd (cc (z.1.0))))
after_white_list-Decides P Q false o r (true, e, h) (b, f, k) =
    (b, rw (e, after_white_list) f, ((λ z. (h.0 refl, (refl, k.0 z))), λ z. k.1 z.1.1))

unknown_iff :
    (flags : Flags) (s : Names)
    → ((flags.ignore_unknown_pcs && eq_text s.rtn_name no_symbols) ≡ false)
      ↔ (¬ ((flags.ignore_unknown_pcs ≡ true) × (s.rtn_name ≡ no_symbols)))
unknown_iff flags s = ground (arith, eq_text_iff s.rtn_name no_symbols)

-- ThreadSanitizerWantToInstrumentSblock, with readable patterns and names without the byte 0,
-- returns, and answers true exactly if the white list is empty or names the block, its function is
-- not the unknown one that is to be ignored, neither list of ignores names it, and its address is
-- on the side of the NaCl region that is traced.
pub want_to_instrument_sblock-Decides :
    (pc_to_strings : ℕ → Names) (flags : Flags) (white_lists ignore_lists : IgnoreLists)
    (nacl : ℕ × ℕ) (pc : ℕ)
    → All IsReadable white_lists.ignores
    → All IsReadable ignore_lists.ignores
    → All IsReadable ignore_lists.ignores_r
    → NoZeros (pc_to_strings pc)
    → (b : Bool) × (want_to_instrument_sblock pc_to_strings flags white_lists ignore_lists nacl pc
        ≡ some b)
      × ((b ≡ true) ↔ (
          ((white_lists.ignores ≡ []) ⊎ Listed white_lists.ignores (pc_to_strings pc))
          × ((¬ ((flags.ignore_unknown_pcs ≡ true) × ((pc_to_strings pc).rtn_name ≡ no_symbols)))
              × ((¬ (
                    Listed ignore_lists.ignores (pc_to_strings pc)
                    ⊎ Listed ignore_lists.ignores_r (pc_to_strings pc)))
                  × OnSide flags nacl pc))))
unfolding want_to_instrument_sblock ignored
want_to_instrument_sblock-Decides pc_to_strings flags white lists nacl pc w i r n =
    let s = pc_to_strings pc in
    let u = unknown_iff flags s in
    let d =
      after_white_list-Decides _ _ (flags.ignore_unknown_pcs && eq_text s.rtn_name no_symbols) _ _
        (in_white_list-Decides white.ignores s w n)
        (not_ignored-Decides _ _ _ _ (nacl_iff flags nacl pc) (
          or_else-Decides _ _ _ _ (list-Decides lists.ignores s i n)
            (list-Decides lists.ignores_r s r n))) in
    (
      d.0,
      d.1,
      ((λ z. let a = d.2.0 z in (a.0, (u.0 a.1.0, a.1.1))), λ z. d.2.1 (z.0, (u.1 z.1.0, z.1.1))),
    )

-- Every answer that the cache keeps is the one that the list gives.
abbrev pub IsFaithful : (ℕ → Text) → IgnoreLists → BelowCache → Type 0
IsFaithful names lists cache =
    (pc : ℕ) (b : Bool) → find_pc pc cache ≡ some b → ignored_below names lists pc ≡ some b

store-IsFaithful :
    (names : ℕ → Text) (lists : IgnoreLists) (cache : BelowCache) (pc : ℕ) (b : Bool)
    → IsFaithful names lists cache
    → ignored_below names lists pc ≡ some b
    → IsFaithful names lists ((pc, b) ∷ cache)
unfolding find_pc
store-IsFaithful names lists cache pc b h e q c f = elim (Bool-cases (q == pc)) [
  | inl t ↦ let g : q ≡ pc = (==_iff q pc).0 t in let k = rw (find_pc, t) at f in rw g (cc)
  | inr t ↦ h q c (rw (find_pc, t) at f)
]

-- The caller's whole answer.
abbrev pub Below : (ℕ → Text) → IgnoreLists → ℕ → Option (Bool × BelowCache) → Type 0
Below names lists pc none = ignored_below names lists pc ≡ none
Below names lists pc (some (b, cache)) =
    (ignored_below names lists pc ≡ some b)
    × ((find_pc pc cache ≡ some b) × IsFaithful names lists cache)

-- With a cache whose answers are those of the list, ThreadSanitizerIgnoreAccessesBelowFunction
-- fails only where the lookup in the list fails; else it answers what the list gives, the cache has
-- that answer, and all its answers are still those of the list.
pub ignore_accesses_below_function-Below :
    (names : ℕ → Text) (lists : IgnoreLists) (cache : BelowCache) (pc : ℕ)
    → IsFaithful names lists cache
    → Below names lists pc (ignore_accesses_below_function names lists cache pc)
unfolding ignore_accesses_below_function store_below find_pc
ignore_accesses_below_function-Below names lists cache pc h =
    elim (Option-cases (find_pc pc cache)) [
      | inr (b, e) ↦ rw (ignore_accesses_below_function, e) (h pc b e, (e, h))
      | inl e ↦ elim (Option-cases (ignored_below names lists pc)) [
        | inl f ↦ rw (ignore_accesses_below_function, e, f, store_below) f
        | inr (b, f) ↦
            rw (ignore_accesses_below_function, e, f, store_below)
              (f, (ground arith, store-IsFaithful names lists cache pc b h f))
      ]
    ]

-- A function that the list names by a pattern other than "*".
abbrev pub FunListed : List IgnoreTriple → Text → Type 0
FunListed vs func = Found (λ v. Matches v.fun func × (v.fun ≢ anything)) vs

fun-Decides :
    (vs : List IgnoreTriple) (func : Text)
    → All IsReadable vs
    → NoZero func
    → func ≢ []
    → Decides (FunListed vs func) (triple_vector_match_known vs func [] [])
fun-Decides vs func r n m =
    let d = triple_vector_match_known-Decides vs func [] [] r n tt tt in
    (
      d.0,
      d.1,
      (
        (λ z.
            let (i, v, e, t) = d.2.0 z in
            (i, v, e, (ground (arith, t.0.0, m), λ q. t.1 (inr q, (inl refl, inl refl))))),
        λ z.
            let (i, v, e, t) = z in
            d.2.1 (
              i,
              v,
              e,
              ((inr t.0, (inl refl, inl refl)), λ q. elim q.0 [ inl x ↦ m x | inr y ↦ t.1 y ]),
            ),
      ),
    )

abbrev pub Choice : Type 0 → Type 0 → Type 0 → Relite → Type 0
Choice R H M ignore_rec = R
Choice R H M ignore_hist = (¬ R) × H
Choice R H M ignore_mop = (¬ R) × ((¬ H) × M)
Choice R H M ignore_none = (¬ R) × ((¬ H) × (¬ M))

denied : (P : Type 0) → (false ≡ true) ↔ P → ¬ P
denied P h p = absurd (cc (h.1 p))

relite_choice-Choice :
    (R H M : Type 0) (r h m : Option Bool)
    → Decides R r
    → Decides H h
    → Decides M m
    → (c : Relite) × (relite_choice r h m ≡ some c) × Choice R H M c
unfolding relite_choice
relite_choice-Choice R H M r h m (true, e, k) x y = (ignore_rec, rw e refl, k.0 refl)
relite_choice-Choice R H M r h m (false, e, k) (true, f, l) y =
    (ignore_hist, rw (e, f) refl, (denied R k, l.0 refl))
relite_choice-Choice R H M r h m (false, e, k) (false, f, l) (true, g, n) =
    (ignore_mop, rw (e, f, g) refl, (denied R k, (denied H l, n.0 refl)))
relite_choice-Choice R H M r h m (false, e, k) (false, f, l) (false, g, n) =
    (ignore_none, rw (e, f, g) refl, (denied R k, (denied H l, denied M n)))

-- What the plug-in is told of a function: the first of the three lists that names it.
abbrev pub FuncChoice : IgnoreLists → Text → Relite → Type 0
FuncChoice l func c =
    Choice (FunListed l.ignores_r func) (FunListed l.ignores_hist func) (FunListed l.ignores func) c

-- relite_ignore_func, with readable patterns and a name that is not empty and has no byte 0,
-- returns, and answers by the first of the lists fun_r, fun_hist and fun that names the function by
-- a pattern other than *, or that none does.
pub relite_ignore_func-FuncChoice :
    (l : IgnoreLists) (func : Text)
    → All IsReadable l.ignores
    → All IsReadable l.ignores_r
    → All IsReadable l.ignores_hist
    → NoZero func
    → func ≢ []
    → (c : Relite) × (relite_ignore_func (some l) func ≡ some c) × FuncChoice l func c
unfolding relite_ignore_func
relite_ignore_func-FuncChoice l func a b c n m =
    relite_choice-Choice _ _ _ _ _ _ (fun-Decides l.ignores_r func b n m)
      (fun-Decides l.ignores_hist func c n m) (fun-Decides l.ignores func a n m)
