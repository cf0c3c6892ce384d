-- ===== src/Suppressions/Accumulated.antt =====
-- ReadFromString, tsan/suppressions.cc, on a file of suppressions: all are read into one object.
use data_race_test.Prelude.{
  ℕ, zero, suc, ◌+◌, ◌-◌, ◌<◌, ◌≤◌, ◌≡◌, refl, sym, ap, ◌∙◌, true, false, none, some, List, [], ◌∷◌,
  ◌++◌, length, arith, All, length-append,
}
use mathlib.Core.List.{append_assoc, append-nil}
use data_race_test.Wildcards.{Text}
use data_race_test.Ignores.{eq_text, is_empty}
use data_race_test.Suppressions.{Location, StackTraceTemplate, Suppression, ok}
use data_race_test.Suppressions.Parser.{
  open_brace, close_brace, and_parse, parse_frame, template_loop, read_template,
  next_stack_trace_template, push_template, templates_loop, check_line, read_body, set_name,
  next_suppression, read_loop, new_suppression, SuppressionsRep, read_from_string,
}
use data_race_test.Suppressions.Written.{
  Clean, unlines, input, Written, frame_line, tools_line, frame_lines, template_lines,
  written_lines, GoodFrame, GoodTemplate, IsGood, next-read_line, end-read_line, length-unlines,
  parse-frame_line, frame_open, frame-Clean, parse-tools_line,
}

close-Clean : Clean close_brace
close-Clean = ground arith

open-Clean : Clean open_brace
open-Clean = ground arith

template_loop_lem :
    (ls : List Location) (l : Location) (f : ℕ) (trace : StackTraceTemplate) (n : ℕ)
    (rest : List Text)
    → GoodFrame l
    → All GoodFrame ls
    → length ls < f
    → (m : ℕ) × (template_loop f trace (frame_line l) (input (frame_lines ls rest) n)
        ≡ some (ok (trace ++ (l ∷ ls)), input rest m))
unfolding template_loop parse_frame and_parse eq_text
template_loop_lem ls l zero trace n rest h k q = absurd (omega arith)
template_loop_lem [] l (suc f) trace n rest h k q = (
  n + 1,
  rw
      (
        template_loop,
        parse_frame,
        parse-frame_line l h,
        and_parse,
        next-read_line close_brace rest n close-Clean,
      )
      refl,
)
template_loop_lem (x ∷ ls) l (suc f) trace n rest h k q =
    let r = template_loop_lem ls x f (trace ++ (l ∷ [])) (n + 1) rest k.0 k.1 (omega arith) in
    (
      r.0,
      rw
          (
            template_loop,
            parse_frame,
            parse-frame_line l h,
            and_parse,
            next-read_line (frame_line x) (frame_lines ls rest) n (frame-Clean x k.0),
            frame_open x,
          )
          (r.1 ∙ ap (λ t. some (ok t, input rest r.0)) (append_assoc trace (l ∷ []) (x ∷ ls))),
    )

length-frame_lines :
    (ls : List Location) (rest : List Text) → length ls + length rest ≤ length (frame_lines ls rest)
length-frame_lines [] rest = omega arith
length-frame_lines (l ∷ ls) rest = omega (arith, length-frame_lines ls rest)

read_template_lem :
    (l : Location) (ls : List Location) (n : ℕ) (rest : List Text)
    → GoodTemplate (l, ls)
    → (m : ℕ) × (read_template (frame_line l) (input (frame_lines ls rest) n)
        ≡ some (ok (l ∷ ls), input rest m))
unfolding read_template
read_template_lem l ls n rest h =
    template_loop_lem ls l (suc (suc (length (unlines (frame_lines ls rest))))) [] n rest h.0 h.1
      (omega (arith, length-frame_lines ls rest, length-unlines (frame_lines ls rest)))

abbrev frames_of : List (Location × List Location) → List StackTraceTemplate
frames_of [] = []
frames_of ((l, ls) ∷ ts) = (l ∷ ls) ∷ frames_of ts

next_template_lem :
    (l : Location) (ls : List Location) (n : ℕ) (rest : List Text)
    → GoodTemplate (l, ls)
    → (m : ℕ) × (next_stack_trace_template
          (input (open_brace ∷ frame_line l ∷ frame_lines ls rest) n)
        ≡ some (ok (some (l ∷ ls), false), input rest m))
unfolding next_stack_trace_template and_parse eq_text
next_template_lem l ls n rest h =
    let r = read_template_lem l ls ((n + 1) + 1) rest h in
    (
      r.0,
      rw
          (
            next_stack_trace_template,
            next-read_line open_brace (frame_line l ∷ frame_lines ls rest) n open-Clean,
            next-read_line (frame_line l) (frame_lines ls rest) (n + 1) (frame-Clean l h.0),
            and_parse,
            r.1,
          )
          refl,
    )

next_template_end :
    (n : ℕ) (rest : List Text)
    → next_stack_trace_template (input (close_brace ∷ rest) n)
      ≡ some (ok (none, true), input rest (n + 1))
unfolding next_stack_trace_template and_parse eq_text
next_template_end n rest =
    rw (next_stack_trace_template, next-read_line close_brace rest n close-Clean) refl

templates_loop_lem :
    (ts : List (Location × List Location)) (f : ℕ) (acc : List StackTraceTemplate) (n : ℕ)
    (rest : List Text)
    → All GoodTemplate ts
    → length ts < f
    → (m : ℕ) × (templates_loop f acc (input (template_lines ts rest) n)
        ≡ some (ok (acc ++ frames_of ts), input rest m))
unfolding templates_loop and_parse push_template
templates_loop_lem ts zero acc n rest h q = absurd (omega arith)
templates_loop_lem [] (suc f) acc n rest h q = (
  n + 1,
  rw (templates_loop, next_template_end n rest, and_parse)
      (ap (λ t. some (ok t, input rest (n + 1))) (sym (append-nil acc))),
)
templates_loop_lem ((l, ls) ∷ ts) (suc f) acc n rest h q =
    let t = next_template_lem l ls n (template_lines ts rest) h.0 in
    let r = templates_loop_lem ts f (acc ++ ((l ∷ ls) ∷ [])) t.0 rest h.1 (omega arith) in
    (
      r.0,
      rw (templates_loop, t.1, and_parse)
          (r.1
            ∙ ap (λ u. some (ok u, input rest r.0))
                (append_assoc acc ((l ∷ ls) ∷ []) (frames_of ts))),
    )

length-template_lines :
    (ts : List (Location × List Location)) (rest : List Text)
    → length ts + length rest ≤ length (template_lines ts rest)
length-template_lines [] rest = omega arith
length-template_lines ((l, ls) ∷ ts) rest =
    omega (arith, length-frame_lines ls (template_lines ts rest), length-template_lines ts rest)

-- What reading one more suppression makes of the object.
abbrev pub absorb : Suppression → Written → Suppression
absorb s w = record {
  name = w.name;
  tools = s.tools ++ (w.tool ∷ w.tools);
  warning_name = w.warning_name;
  templates = s.templates ++ frames_of w.templates;
}

-- The suppressions that are pushed, the object being `s` at first.
abbrev pub accumulated : Suppression → List Written → List Suppression
accumulated s [] = []
accumulated s (w ∷ ws) = absorb s w ∷ accumulated (absorb s w) ws

clean_nonempty : (t : Text) → Clean t → is_empty t ≡ false
unfolding is_empty
clean_nonempty [] h = absurd h.1.0
clean_nonempty (c ∷ t) h = refl

read_body_lem :
    (s : Suppression) (w : Written) (n : ℕ) (rest : List Text)
    → IsGood w
    → (m : ℕ) × (read_body
          (set_name s w.name)
          (input (tools_line w ∷ template_lines w.templates rest) n)
        ≡ some (ok (absorb s w), input rest m))
unfolding read_body and_parse check_line set_name
read_body_lem s w n rest g =
    let ls = template_lines w.templates rest in
    let r =
      templates_loop_lem w.templates (suc (suc (length (unlines ls)))) s.templates (n + 1) rest
        g.templates (omega (arith, length-template_lines w.templates rest, length-unlines ls)) in
    (
      r.0,
      rw
          (
            read_body,
            next-read_line (tools_line w) ls n g.line,
            and_parse,
            clean_nonempty (tools_line w) g.line,
            parse-tools_line (set_name s w.name) w g,
            r.1,
          )
          refl,
    )

next_suppression_lem :
    (s : Suppression) (w : Written) (n : ℕ) (rest : List Text)
    → IsGood w
    → (m : ℕ) × (next_suppression s
          (input (open_brace ∷ w.name ∷ tools_line w ∷ template_lines w.templates rest) n)
        ≡ some (ok (some (absorb s w)), input rest m))
unfolding next_suppression and_parse check_line eq_text is_empty
next_suppression_lem s w n rest g =
    let ls = tools_line w ∷ template_lines w.templates rest in
    let r = read_body_lem s w ((n + 1) + 1) rest g in
    (
      r.0,
      rw
          (
            next_suppression,
            next-read_line open_brace (w.name ∷ ls) n open-Clean,
            and_parse,
            next-read_line w.name ls (n + 1) g.name,
            clean_nonempty w.name g.name,
            r.1,
          )
          refl,
    )

read_loop_lem :
    (ws : List Written) (f : ℕ) (s : Suppression) (all : List Suppression) (n : ℕ)
    → All IsGood ws
    → length ws < f
    → (m : ℕ) × (read_loop f s all (input (written_lines ws) n)
        ≡ some (ok (all ++ accumulated s ws), (all ++ accumulated s ws, m)))
unfolding read_loop next_suppression and_parse is_empty
read_loop_lem ws zero s all n h q = absurd (omega arith)
read_loop_lem [] (suc f) s all n h q = (
  n,
  rw (read_loop, next_suppression, end-read_line n, and_parse)
      (ap (λ t. some (ok t, (t, n))) (sym (append-nil all))),
)
read_loop_lem (w ∷ ws) (suc f) s all n h q =
    let t = next_suppression_lem s w n (written_lines ws) h.0 in
    let r = read_loop_lem ws f (absorb s w) (all ++ (absorb s w ∷ [])) t.0 h.1 (omega arith) in
    (
      r.0,
      rw (read_loop, t.1)
          (r.1
            ∙ ap (λ u. some (ok u, (u, r.0)))
                (append_assoc all (absorb s w ∷ []) (accumulated (absorb s w) ws))),
    )

length-written_lines : (ws : List Written) → length ws ≤ length (written_lines ws)
length-written_lines [] = omega arith
length-written_lines (w ∷ ws) =
    omega (arith, length-template_lines w.templates (written_lines ws), length-written_lines ws)

length-accumulated : (ws : List Written) (s : Suppression) → length (accumulated s ws) ≡ length ws
length-accumulated [] s = refl
length-accumulated (w ∷ ws) s = ap suc (length-accumulated ws (absorb s w))

-- ReadFromString on a text of well-written suppressions sets no error and answers their number; the
-- suppressions it pushes have the name and the warning of those written, but the tools and the
-- templates of all those written so far.
pub read_from_string-accumulated :
    (ws : List Written) (rep : SuppressionsRep)
    → All IsGood ws
    → read_from_string rep (unlines (written_lines ws))
      ≡ some (
        some (length ws),
        record {
          suppressions = rep.suppressions ++ accumulated new_suppression ws;
          error_string = rep.error_string;
          error_line_no = rep.error_line_no;
        },
      )
unfolding read_from_string
read_from_string-accumulated ws rep h =
    let str = unlines (written_lines ws) in
    let l = accumulated new_suppression ws in
    let r =
      read_loop_lem ws (suc (length str)) new_suppression rep.suppressions 0 h
        (omega (arith, length-written_lines ws, length-unlines (written_lines ws))) in
    let c : length (rep.suppressions ++ l) - length rep.suppressions ≡ length ws =
      omega (arith, length-append rep.suppressions l, length-accumulated ws new_suppression) in
    rw (read_from_string, r.1, c) refl
