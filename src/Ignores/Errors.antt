-- ===== src/Ignores/Errors.antt =====
-- tsan/ignore.cc: the texts on which ReadIgnoresFromString fails a CHECK.
use data_race_test.Prelude.{
  ◌≡◌, ◌≢◌, ◌⊎◌, ◌↔◌, inl, inr, refl, ap, ◌∙◌, Option, none, some, List, [], ◌∷◌, ◌++◌, ◌==◌,
  ==_iff, Bool-cases, Option-cases,
}
use data_race_test.Wildcards.{Text}
use data_race_test.Ignores.{
  IgnoreLists, eq_text, anything, ignore_triple, ignore_obj, ignore_fun, ignore_file, split_lines,
  cut_prefix, push_ignore, push_ignore_r, push_ignore_hist, first_cut, read_ignore_line, read_lines,
  read_ignores_from_string,
}
use data_race_test.Ignores.Lookup.{eq_text_iff, Found, Found-cons}
use data_race_test.Ignores.Reading.{
  Kind, of_obj, of_src, of_fun, of_fun_r, of_fun_hist, prefix, add_rule, read_rule,
}

-- The line is a rule: a known prefix, then a pattern other than "*".
abbrev pub IsRule : Text → Type 0
IsRule line = (k : Kind) × (p : Text) × (line ≡ prefix k ++ p) × (p ≢ anything)

cut_prefix-some : (s p t : Text) → cut_prefix s p ≡ some t → s ≡ p ++ t
unfolding cut_prefix
cut_prefix-some s [] t h = cc
cut_prefix-some [] (c ∷ p) t h = absurd (cc)
cut_prefix-some (d ∷ s) (c ∷ p) t h = elim (Bool-cases (d == c)) [
  | inl e ↦
      let f = cut_prefix-some s p t (rw (cut_prefix, e) at h) in
      let g : d ≡ c = (==_iff d c).0 e in rw (g, f) refl
  | inr e ↦ absurd (cc (rw (cut_prefix, e) at h))
]

-- What a branch of the reader gives on the rest of a line.
abbrev Branch : Type 0 → Option IgnoreLists → Type 0
Branch K o = (o ≡ none) ⊎ K

first_cut-Branch :
    (K : Type 0) (p : Text) (f : Text → Option IgnoreLists)
    (rest : List (Text × (Text → Option IgnoreLists))) (line : Text)
    → ((t : Text) → line ≡ p ++ t → Branch K (f t))
    → Branch K (first_cut rest line)
    → Branch K (first_cut ((p, f) ∷ rest) line)
unfolding first_cut
first_cut-Branch K p f rest line h k = elim (Option-cases (cut_prefix line p)) [
  | inl e ↦ rw (first_cut, e) k
  | inr (t, e) ↦ rw (first_cut, e) (h t (cut_prefix-some line p t e))
]

IsRule-Branch :
    (k : Kind) (f : Text → Option IgnoreLists) (rest : List (Text × (Text → Option IgnoreLists)))
    (line : Text)
    → f anything ≡ none
    → Branch (IsRule line) (first_cut rest line)
    → Branch (IsRule line) (first_cut ((prefix k, f) ∷ rest) line)
IsRule-Branch k f rest line h r = first_cut-Branch (IsRule line) (prefix k) f rest line branch r
  where
    branch : (t : Text) → line ≡ prefix k ++ t → Branch (IsRule line) (f t)
    branch t e = elim (Bool-cases (eq_text t anything)) [
      | inl b ↦ let q : t ≡ anything = (eq_text_iff t anything).0 b in inl (ap f q ∙ h)
      | inr b ↦ inr (k, t, e, λ q. cc ((eq_text_iff t anything).1 q))
    ]

first_cut_end : (line : Text) → first_cut [] line ≡ none
unfolding first_cut
first_cut_end line = refl

read_ignore_line-Branch :
    (line : Text) (l : IgnoreLists) → Branch (IsRule line) (read_ignore_line line l)
unfolding read_ignore_line push_ignore push_ignore_r push_ignore_hist ignore_obj ignore_fun
    ignore_file ignore_triple eq_text
read_ignore_line-Branch line l = IsRule-Branch of_obj _ _ line refl (
    IsRule-Branch of_src _ _ line refl (
      IsRule-Branch of_fun _ _ line refl (
        IsRule-Branch of_fun_r _ _ line refl
          (IsRule-Branch of_fun_hist _ _ line refl (inl (first_cut_end line))))))

read_ignore_line_good :
    (line : Text) (l : IgnoreLists)
    → IsRule line
    → (m : IgnoreLists) × (read_ignore_line line l ≡ some m)
read_ignore_line_good line l (k, p, e, n) = (add_rule l (some (k, p)), rw e (read_rule k p l n))

read_lines-none : (ls : List Text) → read_lines ls none ≡ none
unfolding read_lines
read_lines-none [] = refl
read_lines-none (x ∷ ls) = refl

read_lines-error :
    (ls : List Text) (l : IgnoreLists)
    → (read_lines ls (some l) ≡ none) ↔ Found (λ line. ¬ IsRule line) ls
unfolding read_lines
read_lines-error [] l = ((λ e. absurd (cc)), λ f. absurd (cc (f.2)))
read_lines-error (x ∷ ls) l =
    let f = Found-cons (λ line. ¬ IsRule line) x ls in
    elim (read_ignore_line-Branch x l) [
      | inl e ↦
          rw (read_lines, e)
            (
              (λ z. f.0 (inl (λ r. cc (e, (read_ignore_line_good x l r).1)))),
              λ z. read_lines-none ls,
            )
      | inr r ↦
          let g = read_ignore_line_good x l r in
          let h = read_lines-error ls g.0 in
          rw (read_lines, g.1)
            ((λ z. f.0 (inr (h.0 z))), λ z. elim (f.1 z) [ inl n ↦ absurd (n r) | inr k ↦ h.1 k ])
    ]

-- ReadIgnoresFromString fails a CHECK exactly if one of the lines it splits the text into is no
-- rule: a known prefix and a pattern other than *.
pub read_ignores_from_string_error :
    (str : Text) (l : IgnoreLists)
    → (read_ignores_from_string str l ≡ none) ↔ Found (λ line. ¬ IsRule line) (split_lines str)
unfolding read_ignores_from_string
read_ignores_from_string_error str l = read_lines-error (split_lines str) l
