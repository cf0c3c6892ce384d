-- ===== src/Ignores/Lookup.antt =====
-- The lookup of names in lists of patterns: TripleVectorMatchKnown and StringVectorMatch of
-- tsan/ignore.cc.
use data_race_test.Prelude.{
  ℕ, zero, suc, ◌<◌, ◌≡◌, ◌⊎◌, ◌↔◌, inl, inr, refl, Bool, true, false, not, ◌||◌, Option, some,
  List, [], ◌∷◌, length, arith, All, get_elem?,
}
use data_race_test.Wildcards.{Text, string_match}
use data_race_test.Wildcards.Matches.{Matches}
use data_race_test.Wildcards.Shortcuts.{NoZero, string_match-Decides}
use data_race_test.Ignores.{
  IgnoreTriple, eq_text, anything, and_then, or_else, is_empty, field_match, all_trivial,
  triple_match, triple_vector_match_known, string_vector_match,
}

pub eq_text_iff : (s t : Text) → (eq_text s t ≡ true) ↔ (s ≡ t)
unfolding eq_text
eq_text_iff [] [] = ground arith
eq_text_iff [] (d ∷ t) = ground arith
eq_text_iff (c ∷ s) [] = ground arith
eq_text_iff (c ∷ s) (d ∷ t) = ground (arith, eq_text_iff s t)

is_empty_iff : (s : Text) → (is_empty s ≡ true) ↔ (s ≡ [])
unfolding is_empty
is_empty_iff [] = ground arith
is_empty_iff (c ∷ s) = ground arith

-- A test that returns, with the answer to the question `P`.
abbrev pub Decides : Type 0 → Option Bool → Type 0
Decides P o = (b : Bool) × (o ≡ some b) × ((b ≡ true) ↔ P)

pub and_then-Decides :
    (P Q : Type 0) (o p : Option Bool) → Decides P o → Decides Q p → Decides (P × Q) (and_then o p)
unfolding and_then
and_then-Decides P Q o p (true, e, h) (b, f, k) =
    (b, rw (e, and_then) f, ((λ z. (h.0 refl, k.0 z)), λ z. k.1 z.1))
and_then-Decides P Q o p (false, e, h) k =
    (false, rw (e, and_then) refl, ((λ z. absurd (cc)), λ z. h.1 z.0))

pub or_else-Decides :
    (P Q : Type 0) (o p : Option Bool) → Decides P o → Decides Q p → Decides (P ⊎ Q) (or_else o p)
unfolding or_else
or_else-Decides P Q o p (true, e, h) k =
    (true, rw (e, or_else) refl, ((λ z. inl (h.0 refl)), λ z. refl))
or_else-Decides P Q o p (false, e, h) (b, f, k) = (
  b,
  rw (e, or_else) f,
  ((λ z. inr (k.0 z)), λ z. elim z [ inl x ↦ absurd (cc (h.1 x)) | inr y ↦ k.1 y ]),
)

-- A pattern that can be matched against any name that is not empty.
abbrev pub Readable : Text → Type 0
Readable p = (0 < length p) × NoZero p

-- The name is not known, or the pattern matches it.
abbrev pub FieldMatches : Text → Text → Type 0
FieldMatches p name = (name ≡ []) ⊎ Matches p name

field_match-Decides :
    (p name : Text) → Readable p → NoZero name → Decides (FieldMatches p name) (field_match p name)
unfolding field_match is_empty
field_match-Decides p [] r n = (true, refl, ((λ z. inl refl), λ z. refl))
field_match-Decides p (c ∷ s) r n =
    let d = string_match-Decides p (c ∷ s) r.1 n (r.0, inl (omega arith)) in
    (d.0, d.1, ((λ z. inr (d.2.0 z)), λ z. elim z [ inl e ↦ absurd (cc) | inr m ↦ d.2.1 m ]))

-- The name is not known, or the pattern is "*".
abbrev pub Trivial : Text → Text → Type 0
Trivial p name = (name ≡ []) ⊎ (p ≡ anything)

-- Every name that is known is matched, one of them by a pattern other than "*".
abbrev pub TripleMatches : IgnoreTriple → Text → Text → Text → Type 0
TripleMatches v fun obj file =
    (FieldMatches v.fun fun × (FieldMatches v.obj obj × FieldMatches v.file file))
    × (¬ (Trivial v.fun fun × (Trivial v.obj obj × Trivial v.file file)))

abbrev pub IsReadable : IgnoreTriple → Type 0
IsReadable v = Readable v.fun × (Readable v.obj × Readable v.file)

Trivial-iff : (p name : Text) → ((is_empty name || eq_text p anything) ≡ true) ↔ Trivial p name
Trivial-iff p name = ground (arith, is_empty_iff name, eq_text_iff p anything)

all_trivial-Decides :
    (v : IgnoreTriple) (fun obj file : Text)
    → Decides
        (¬ (Trivial v.fun fun × (Trivial v.obj obj × Trivial v.file file)))
        (some (not (all_trivial v fun obj file)))
unfolding all_trivial
all_trivial-Decides v fun obj file = (
  not (all_trivial v fun obj file),
  refl,
  ground (arith, Trivial-iff v.fun fun, Trivial-iff v.obj obj, Trivial-iff v.file file),
)

triple_match-Decides :
    (v : IgnoreTriple) (fun obj file : Text)
    → IsReadable v
    → NoZero fun
    → NoZero obj
    → NoZero file
    → Decides (TripleMatches v fun obj file) (triple_match v fun obj file)
unfolding triple_match
triple_match-Decides v fun obj file r a b c =
    and_then-Decides _ _ _ _
      (and_then-Decides _ _ _ _ (field_match-Decides v.fun fun r.0 a) (
        and_then-Decides _ _ _ _ (field_match-Decides v.obj obj r.1.0 b)
          (field_match-Decides v.file file r.1.1 c)))
      (all_trivial-Decides v fun obj file)

-- One of the elements of the list has the property.
abbrev pub Found {ℓ} : {A : Type ℓ} → (A → Type 0) → List A → Type ℓ
Found {A} P xs = (i : ℕ) × (x : A) × (get_elem? xs i ≡ some x) × P x

pub Found-cons {ℓ} :
    {A : Type ℓ} (P : A → Type 0) (x : A) (xs : List A) → (P x ⊎ Found P xs) ↔ Found P (x ∷ xs)
Found-cons P x xs = (to, from)
  where
    to : P x ⊎ Found P xs → Found P (x ∷ xs)
    to (inl p) = (0, x, refl, p)
    to (inr (i, y, e, p)) = (suc i, y, e, p)

    from : Found P (x ∷ xs) → P x ⊎ Found P xs
    from (zero, y, e, p) = let q : y ≡ x = cc in inl (rw q at p)
    from (suc i, y, e, p) = inr (i, y, e, p)

-- TripleVectorMatchKnown, on readable patterns and names without the byte 0, returns, and answers
-- true exactly if some triple matches every name that is known, one of them by a pattern other than
-- *.
pub triple_vector_match_known-Decides :
    (vs : List IgnoreTriple) (fun obj file : Text)
    → All IsReadable vs
    → NoZero fun
    → NoZero obj
    → NoZero file
    → (b : Bool) × (triple_vector_match_known vs fun obj file ≡ some b)
      × ((b ≡ true) ↔ Found (λ v. TripleMatches v fun obj file) vs)
unfolding triple_vector_match_known
triple_vector_match_known-Decides [] fun obj file r a b c =
    (false, refl, ((λ e. absurd (cc)), λ f. absurd (cc (f.2))))
triple_vector_match_known-Decides (v ∷ vs) fun obj file r a b c =
    let d =
      or_else-Decides _ _ _ _ (triple_match-Decides v fun obj file r.0 a b c)
        (triple_vector_match_known-Decides vs fun obj file r.1 a b c) in
    let f = Found-cons (λ w. TripleMatches w fun obj file) v vs in
    (d.0, d.1, ((λ e. f.0 (d.2.0 e)), λ z. d.2.1 (f.1 z)))

-- StringVectorMatch
pub string_vector_match-Decides :
    (ws : List Text) (obj : Text)
    → All Readable ws
    → NoZero obj
    → 0 < length obj
    → (b : Bool) × (string_vector_match ws obj ≡ some b)
      × ((b ≡ true) ↔ Found (λ w. Matches w obj) ws)
unfolding string_vector_match
string_vector_match-Decides [] obj r n l =
    (false, refl, ((λ e. absurd (cc)), λ f. absurd (cc (f.2))))
string_vector_match-Decides (w ∷ ws) obj r n l =
    let d =
      or_else-Decides (Matches w obj) (Found (λ w. Matches w obj) ws) (string_match w obj)
        (string_vector_match ws obj) (string_match-Decides w obj r.0.1 n (r.0.0, inl l))
        (string_vector_match-Decides ws obj r.1 n l) in
    let f = Found-cons (λ w. Matches w obj) w ws in
    (d.0, d.1, ((λ z. f.0 (d.2.0 z)), λ z. d.2.1 (f.1 z)))
