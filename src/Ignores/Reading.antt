-- ===== src/Ignores/Reading.antt =====
-- tsan/ignore.cc: ignore files as they are written, and what is read of them.
use data_race_test.Prelude.{
  ℕ, ◌≡◌, ◌≢◌, refl, ap, ◌∙◌, Bool, true, false, Option, none, some, List, [], ◌∷◌, ◌++◌, arith,
  All,
}
use data_race_test.Wildcards.{Text}
use data_race_test.Ignores.{
  IgnoreLists, eq_text, anything, ignore_triple, ignore_obj, ignore_fun, ignore_file, Split,
  end_line, split_char, split_chars, split_lines, cut_prefix, obj_prefix, src_prefix, fun_prefix,
  fun_r_prefix, fun_hist_prefix, push_ignore, push_ignore_r, push_ignore_hist, first_cut,
  read_ignore_line, read_lines, read_ignores_from_string,
}
use data_race_test.Ignores.Lookup.{eq_text_iff}

pub data Kind : Type 0 where
  of_obj : Kind
  of_src : Kind
  of_fun : Kind
  of_fun_r : Kind
  of_fun_hist : Kind

abbrev pub prefix : Kind → Text
prefix of_obj = obj_prefix
prefix of_src = src_prefix
prefix of_fun = fun_prefix
prefix of_fun_r = fun_r_prefix
prefix of_fun_hist = fun_hist_prefix

-- A line of an ignore file: a rule, or none, then possibly blanks and a comment.
pub record Line : Type 0 where
  pub rule : Option (Kind × Text)
  pub comment : Option Text

abbrev pub print_rule : Option (Kind × Text) → Text
print_rule none = []
print_rule (some (k, pattern)) = prefix k ++ pattern

abbrev pub print_comment : Option Text → Text
print_comment none = []
print_comment (some c) = b' ' ∷ b'#' ∷ c

abbrev pub print_line : Line → Text
print_line l = print_rule l.rule ++ (print_comment l.comment ++ (b'\n' ∷ []))

abbrev pub print_lines : List Line → Text
print_lines [] = []
print_lines (l ∷ ls) = print_line l ++ print_lines ls

-- What the rules add to the lists.
abbrev pub add_rule : IgnoreLists → Option (Kind × Text) → IgnoreLists
add_rule l none = l
add_rule l (some (of_obj, p)) = record {
  ignores = l.ignores ++ (record { fun = anything; obj = p; file = anything } ∷ []);
  ignores_r = l.ignores_r;
  ignores_hist = l.ignores_hist;
}
add_rule l (some (of_src, p)) = record {
  ignores = l.ignores ++ (record { fun = anything; obj = anything; file = p } ∷ []);
  ignores_r = l.ignores_r;
  ignores_hist = l.ignores_hist;
}
add_rule l (some (of_fun, p)) = record {
  ignores = l.ignores ++ (record { fun = p; obj = anything; file = anything } ∷ []);
  ignores_r = l.ignores_r;
  ignores_hist = l.ignores_hist;
}
add_rule l (some (of_fun_r, p)) = record {
  ignores = l.ignores;
  ignores_r = l.ignores_r ++ (record { fun = p; obj = anything; file = anything } ∷ []);
  ignores_hist = l.ignores_hist;
}
add_rule l (some (of_fun_hist, p)) = record {
  ignores = l.ignores;
  ignores_r = l.ignores_r;
  ignores_hist = l.ignores_hist ++ (record { fun = p; obj = anything; file = anything } ∷ []);
}

abbrev pub add_rules : IgnoreLists → List Line → IgnoreLists
add_rules l [] = l
add_rules l (x ∷ xs) = add_rules (add_rule l x.rule) xs

-- A byte that the reader keeps, and one that does not end a comment.
abbrev pub Plain : ℕ → Type 0
Plain c = ((c ≢ b'\n') × (c ≢ b' ')) × ((c ≢ b'\t') × (c ≢ b'#'))

abbrev pub GoodRule : Option (Kind × Text) → Type 0
GoodRule none = Unit
GoodRule (some (k, p)) = All Plain p × (p ≢ anything)

abbrev pub GoodComment : Option Text → Type 0
GoodComment none = Unit
GoodComment (some c) = All (λ x. x ≢ b'\n') c

abbrev pub GoodLine : Line → Type 0
GoodLine l = GoodRule l.rule × GoodComment l.comment

split_chars-append :
    (s t : Text) (x : Split) → split_chars (s ++ t) x ≡ split_chars t (split_chars s x)
unfolding split_chars
split_chars-append [] t x = refl
split_chars-append (c ∷ s) t x = split_chars-append s t (split_char c x)

append_assoc_text : (a b c : Text) → (a ++ b) ++ c ≡ a ++ (b ++ c)
append_assoc_text [] b c = refl
append_assoc_text (x ∷ a) b c = ap (λ t. x ∷ t) (append_assoc_text a b c)

split_char-Plain :
    (c : ℕ) (cur : Text) (ls : List Text)
    → Plain c
    → split_char c (record { cur_line = cur; in_comment = false; lines = ls })
      ≡ record { cur_line = cur ++ (c ∷ []); in_comment = false; lines = ls }
unfolding split_char
split_char-Plain c cur ls h = ground (arith, h.0.0, h.0.1, h.1.0, h.1.1)

split_char_comment :
    (c : ℕ) (cur : Text) (ls : List Text)
    → c ≢ b'\n'
    → split_char c (record { cur_line = cur; in_comment = true; lines = ls })
      ≡ record { cur_line = cur; in_comment = true; lines = ls }
unfolding split_char
split_char_comment c cur ls h = ground (arith, h)

append_nil_text : (a : Text) → a ++ [] ≡ a
append_nil_text [] = refl
append_nil_text (x ∷ a) = ap (λ t. x ∷ t) (append_nil_text a)

split-Plain :
    (s cur : Text) (ls : List Text)
    → All Plain s
    → split_chars s (record { cur_line = cur; in_comment = false; lines = ls })
      ≡ record { cur_line = cur ++ s; in_comment = false; lines = ls }
unfolding split_chars
split-Plain [] cur ls h = rw (append_nil_text cur) refl
split-Plain (c ∷ s) cur ls h =
    ap (split_chars s) (split_char-Plain c cur ls h.0)
    ∙ (split-Plain s (cur ++ (c ∷ [])) ls h.1
        ∙ ap (λ (t : Text). record { cur_line = t; in_comment = false; lines = ls })
            (append_assoc_text cur (c ∷ []) s))

split_comment :
    (s cur : Text) (ls : List Text)
    → All (λ x. x ≢ b'\n') s
    → split_chars s (record { cur_line = cur; in_comment = true; lines = ls })
      ≡ record { cur_line = cur; in_comment = true; lines = ls }
unfolding split_chars
split_comment [] cur ls h = refl
split_comment (c ∷ s) cur ls h =
    ap (split_chars s) (split_char_comment c cur ls h.0) ∙ split_comment s cur ls h.1

prefix-Plain : (k : Kind) → All Plain (prefix k)
prefix-Plain of_obj = ground arith
prefix-Plain of_src = ground arith
prefix-Plain of_fun = ground arith
prefix-Plain of_fun_r = ground arith
prefix-Plain of_fun_hist = ground arith

All-append : (s t : Text) → All Plain s → All Plain t → All Plain (s ++ t)
All-append [] t h k = k
All-append (c ∷ s) t h k = (h.0, All-append s t h.1 k)

print_rule-Plain : (r : Option (Kind × Text)) → GoodRule r → All Plain (print_rule r)
print_rule-Plain none h = tt
print_rule-Plain (some (k, p)) h = All-append (prefix k) p (prefix-Plain k) h.0

-- The line that a text without blanks and comments leaves, unless it is empty.
abbrev kept_line : Text → List Text → List Text
kept_line [] ls = ls
kept_line (c ∷ s) ls = ls ++ ((c ∷ s) ∷ [])

split_newline :
    (s : Text) (b : Bool) (ls : List Text)
    → split_chars (b'\n' ∷ []) (record { cur_line = s; in_comment = b; lines = ls })
      ≡ record { cur_line = []; in_comment = false; lines = kept_line s ls }
unfolding split_chars split_char end_line
split_newline [] b ls = refl
split_newline (c ∷ s) b ls = refl

split_tail :
    (s : Text) (c : Option Text) (ls : List Text)
    → GoodComment c
    → split_chars
        (print_comment c ++ (b'\n' ∷ []))
        (record { cur_line = s; in_comment = false; lines = ls })
      ≡ record { cur_line = []; in_comment = false; lines = kept_line s ls }
unfolding split_chars split_char
split_tail s none ls h = split_newline s false ls
split_tail s (some c) ls h =
    split_chars-append c (b'\n' ∷ []) (record { cur_line = s; in_comment = true; lines = ls })
    ∙ (ap (split_chars (b'\n' ∷ [])) (split_comment c s ls h) ∙ split_newline s true ls)

split-print_line :
    (l : Line) (ls : List Text)
    → GoodLine l
    → split_chars (print_line l) (record { cur_line = []; in_comment = false; lines = ls })
      ≡ record { cur_line = []; in_comment = false; lines = kept_line (print_rule l.rule) ls }
split-print_line l ls h =
    split_chars-append (print_rule l.rule) _ _
    ∙ (ap (split_chars (print_comment l.comment ++ (b'\n' ∷ [])))
          (split-Plain (print_rule l.rule) [] ls (print_rule-Plain l.rule h.0))
        ∙ split_tail (print_rule l.rule) l.comment ls h.1)

abbrev kept_lines : List Line → List Text → List Text
kept_lines [] ls = ls
kept_lines (l ∷ xs) ls = kept_lines xs (kept_line (print_rule l.rule) ls)

split-print_lines :
    (xs : List Line) (ls : List Text)
    → All GoodLine xs
    → split_chars (print_lines xs) (record { cur_line = []; in_comment = false; lines = ls })
      ≡ record { cur_line = []; in_comment = false; lines = kept_lines xs ls }
unfolding split_chars
split-print_lines [] ls h = refl
split-print_lines (l ∷ xs) ls h =
    split_chars-append (print_line l) (print_lines xs) _
    ∙ (ap (split_chars (print_lines xs)) (split-print_line l ls h.0)
        ∙ split-print_lines xs (kept_line (print_rule l.rule) ls) h.1)

pub read_rule :
    (k : Kind) (p : Text) (l : IgnoreLists)
    → p ≢ anything
    → read_ignore_line (prefix k ++ p) l ≡ some (add_rule l (some (k, p)))
unfolding read_ignore_line first_cut cut_prefix push_ignore push_ignore_r push_ignore_hist
    ignore_obj ignore_fun ignore_file ignore_triple eq_text
read_rule of_obj p l h = ground (arith, eq_text_iff p anything)
read_rule of_src p l h = ground (arith, eq_text_iff p anything)
read_rule of_fun p l h = ground (arith, eq_text_iff p anything)
read_rule of_fun_r p l h = ground (arith, eq_text_iff p anything)
read_rule of_fun_hist p l h = ground (arith, eq_text_iff p anything)

pub read_lines-append :
    (a b : List Text) (o : Option IgnoreLists)
    → read_lines (a ++ b) o ≡ read_lines b (read_lines a o)
unfolding read_lines
read_lines-append [] [] none = refl
read_lines-append [] (y ∷ b) none = refl
read_lines-append [] b (some l) = refl
read_lines-append (x ∷ a) [] none = refl
read_lines-append (x ∷ a) (y ∷ b) none = refl
read_lines-append (x ∷ a) b (some l) = read_lines-append a b (read_ignore_line x l)

read_lines-one : (x : Text) (l : IgnoreLists) → read_lines (x ∷ []) (some l) ≡ read_ignore_line x l
unfolding read_lines
read_lines-one x l = elim (read_ignore_line x l) as (λ o. read_lines [] o ≡ o) [
  | none ↦ refl
  | some m ↦ refl
]

read-kept_line :
    (r : Option (Kind × Text)) (ls : List Text) (l m : IgnoreLists)
    → GoodRule r
    → read_lines ls (some l) ≡ some m
    → read_lines (kept_line (print_rule r) ls) (some l) ≡ some (add_rule m r)
read-kept_line none ls l m h e = e
read-kept_line (some (k, p)) ls l m h e =
    let x = prefix k ++ p in
    let f : read_lines (ls ++ (x ∷ [])) (some l) ≡ some (add_rule m (some (k, p))) =
      read_lines-append ls (x ∷ []) (some l)
      ∙ (ap (read_lines (x ∷ [])) e ∙ (read_lines-one x m ∙ read_rule k p m h.1)) in
    elim k
        as (λ j.
          (read_lines (ls ++ ((prefix j ++ p) ∷ [])) (some l) ≡ some (add_rule m (some (j, p))))
          → read_lines (kept_line (print_rule (some (j, p))) ls) (some l)
            ≡ some (add_rule m (some (j, p)))) [
              | of_obj ↦ λ g. g
              | of_src ↦ λ g. g
              | of_fun ↦ λ g. g
              | of_fun_r ↦ λ g. g
              | of_fun_hist ↦ λ g. g
            ]
      f

read-kept_lines :
    (xs : List Line) (ls : List Text) (l m : IgnoreLists)
    → All GoodLine xs
    → read_lines ls (some l) ≡ some m
    → read_lines (kept_lines xs ls) (some l) ≡ some (add_rules m xs)
read-kept_lines [] ls l m h e = e
read-kept_lines (x ∷ xs) ls l m h e =
    read-kept_lines xs (kept_line (print_rule x.rule) ls) l (add_rule m x.rule) h.1
      (read-kept_line x.rule ls l m h.0.0 e)

-- A text without an end of line leaves the lines read so far as they are.
split_unfinished :
    (s : Text) (x : Split) → All (λ c. c ≢ b'\n') s → (split_chars s x).lines ≡ x.lines
unfolding split_chars split_char
split_unfinished [] x h = refl
split_unfinished (c ∷ s) x h = split_unfinished s (split_char c x) h.1 ∙ ground (arith, h.0)

-- ReadIgnoresFromString reads back what is written as rules, with comments and empty lines between
-- them, and leaves out what follows the last end of line.
pub read_ignores_from_string-print_lines :
    (xs : List Line) (rest : Text) (l : IgnoreLists)
    → All GoodLine xs
    → All (λ c. c ≢ b'\n') rest
    → read_ignores_from_string (print_lines xs ++ rest) l ≡ some (add_rules l xs)
unfolding read_ignores_from_string split_lines read_lines
read_ignores_from_string-print_lines xs rest l h k =
    let start : Split = record { cur_line = []; in_comment = false; lines = [] } in
    ap (λ t. read_lines t (some l))
      (ap (λ (s : Split). s.lines) (split_chars-append (print_lines xs) rest start)
        ∙ (split_unfinished rest (split_chars (print_lines xs) start) k
            ∙ ap (λ (s : Split). s.lines) (split-print_lines xs [] h)))
    ∙ read-kept_lines xs [] l l h refl
