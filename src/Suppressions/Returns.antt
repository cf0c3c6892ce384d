-- ===== src/Suppressions/Returns.antt =====
-- tsan/suppressions.cc: ReadFromString on a text without '<' and '>', and where it stops.
use data_race_test.Prelude.{
  ℕ, zero, suc, ◌+◌, ◌-◌, ◌<◌, ◌≡◌, ◌⊎◌, inl, inr, refl, ◌∙◌, Option, none, some, List, [], ◌∷◌,
  ◌++◌, length, arith, length-append,
}
use mathlib.Core.List.{append_assoc, append-nil}
use data_race_test.Wildcards.{Text}
use data_race_test.Suppressions.{Suppression, Input, Parsed, ok, fail, Problem}
use data_race_test.Suppressions.Parser.{
  Step, next_suppression, read_loop, new_suppression, SuppressionsRep, read_from_string,
}
use data_race_test.Suppressions.Lines.{lines, SameTotal, Counts, next_suppression-Counts}
use data_race_test.Suppressions.Steps.{NoAngles, After}
use data_race_test.Suppressions.Rounds.{Read, next_suppression-After}

-- Suppressions that NextSuppression reads one after the other, each into the object of the last one.
pub data Reads : Suppression → Input → List Suppression → Suppression → Input → Type 0 where
  no_more : (supp : Suppression) (i : Input) → Reads supp i [] supp i
  reads_next :
      (supp s last : Suppression) (i j k : Input) (new : List Suppression)
      → next_suppression supp i ≡ some (ok (some s), j)
      → Reads s j new last k
      → Reads supp i (s ∷ new) last k

-- What the loop comes to: it has pushed the suppressions that it could read, and NextSuppression then
-- finds the end of the text, or sets an error and leaves the input `j`.
abbrev Ends :
    Suppression
    → Input
    → List Suppression
    → Option (Parsed (List Suppression) × (List Suppression × ℕ))
    → Type 0
Ends supp i all o =
    (new : List Suppression) × (last : Suppression) × (k : Input) × (j : Input) × Reads supp i new
      last k
    × SameTotal i j
    × (((e : Problem) × (next_suppression last k ≡ some (fail e, j))
          × (o ≡ some (fail e, (all ++ new, j.line_no))))
        ⊎ ((next_suppression last k ≡ some (ok none, j))
            × (o ≡ some (ok (all ++ new), (all ++ new, j.line_no)))))

Ends-more :
    (supp s : Suppression) (i j : Input) (all : List Suppression)
    (o : Option (Parsed (List Suppression) × (List Suppression × ℕ)))
    → next_suppression supp i ≡ some (ok (some s), j)
    → SameTotal i j
    → Ends s j (all ++ (s ∷ [])) o
    → Ends supp i all o
Ends-more supp s i j all o e c h = (
  s ∷ h.0,
  h.1,
  h.2,
  h.3,
  reads_next supp s h.1 i j h.2 h.0 e h.4,
  h.5 ∙ c,
  rw (append_assoc all (s ∷ []) h.0) at h.6,
)

read_loop-Ends :
    (f : ℕ) (supp : Suppression) (all : List Suppression) (i : Input)
    → NoAngles i.next
    → length i.next < f
    → Ends supp i all (read_loop f supp all i)
unfolding read_loop
read_loop-Ends zero supp all i h q = absurd (omega arith)
read_loop-Ends (suc f) supp all i h q =
    go (next_suppression supp i) refl (next_suppression-After supp i h)
      (next_suppression-Counts supp i) (read_loop-Ends f)
  where
    go :
        (o : Step (Option Suppression))
        → next_suppression supp i ≡ o
        → After (Read i) o
        → Counts i o
        → ((s : Suppression) (ss : List Suppression) (j : Input)
            → NoAngles j.next
            → length j.next < f
            → Ends s j ss (read_loop f s ss j))
        → Ends supp i all (read_loop (suc f) supp all i)
    go none e a c rec = absurd a
    go (some (fail p, j)) e a c rec =
        ([], supp, i, j, no_more supp i, c, inl (p, e, rw (read_loop, e, append-nil all) refl))
    go (some (ok none, j)) e a c rec =
        ([], supp, i, j, no_more supp i, c, inr (e, rw (read_loop, e, append-nil all) refl))
    go (some (ok (some s), j)) e a c rec =
        let lt : length j.next < length i.next = elim a.1 [ inl x ↦ absurd (cc (x)) | inr x ↦ x ] in
        rw (read_loop, e)
          (Ends-more supp s i j all _ e c (rec s (all ++ (s ∷ [])) j a.0 (omega arith)))

-- The parser at the beginning of a text
abbrev pub start : Text → Input
start str = record { next = str; line_no = 0 }

-- What ReadFromString answers: it has pushed what NextSuppression could read; then NextSuppression set
-- an error, which is there with the number of the line that it had come to, or found the end.
abbrev pub Answers : SuppressionsRep → Text → Option (Option ℕ × SuppressionsRep) → Type 0
Answers rep str o =
    (new : List Suppression) × (last : Suppression) × (k : Input) × (j : Input) × Reads
      new_suppression (start str) new last k
    × (j.line_no + lines j.next ≡ lines str)
    × (((e : Problem) × (next_suppression last k ≡ some (fail e, j))
          × (o
              ≡ some (
                none,
                record {
                  suppressions = rep.suppressions ++ new;
                  error_string = some e;
                  error_line_no = j.line_no;
                },
              )))
        ⊎ ((next_suppression last k ≡ some (ok none, j))
            × (o
                ≡ some (
                  some (length new),
                  record {
                    suppressions = rep.suppressions ++ new;
                    error_string = rep.error_string;
                    error_line_no = rep.error_line_no;
                  },
                ))))

-- ReadFromString returns on every text without < and >, and has pushed what NextSuppression reads
-- one after the other; where NextSuppression then sets an error it answers -1 and has that error,
-- with the number of the lines of the text that are no longer left as its line, and where it finds
-- the end it answers the number of new suppressions and keeps the error.
pub read_from_string-Answers :
    (rep : SuppressionsRep) (str : Text) → NoAngles str → Answers rep str (read_from_string rep str)
unfolding read_from_string
read_from_string-Answers rep str h =
    let r =
      read_loop-Ends (suc (length str)) new_suppression rep.suppressions (start str) h
        (omega arith) in
    (
      r.0,
      r.1,
      r.2,
      r.3,
      r.4,
      omega (arith, r.5),
      elim r.6 [
        | inl (e, f, q) ↦ inl (e, f, rw (read_from_string, q) refl)
        | inr (f, q) ↦
            let c : length (rep.suppressions ++ r.0) - length rep.suppressions ≡ length r.0 =
              omega (arith, length-append rep.suppressions r.0) in
            inr (f, rw (read_from_string, q, c) refl)
      ],
    )
