-- ===== src/History/Recent.antt =====
-- The queues of struct LockHistory, tsan/thread_sanitizer.cc, and the latest elements of a history.
use data_race_test.Prelude.{
  ℕ, zero, suc, ◌-◌, ◌≤◌, ◌<◌, ◌≡◌, refl, sym, ap, ◌∙◌, inl, inr, List, [], ◌∷◌, ◌++◌, Option, none,
  some, leb, length, drop, arith, Bool-cases, length-append,
}
use data_race_test.History.{Element, push}

abbrev pub then_push : ℕ → Element → Option (List Element) → Option (List Element)
then_push size e none = none
then_push size e (some q) = push size e q

-- All the events of a list, the latest one first, pushed in their order.
unfoldable pub push_all : ℕ → List Element → Option (List Element)
push_all size [] = some []
push_all size (e ∷ es) = then_push size e (push_all size es)

-- The events in their order.
abbrev pub in_order : List Element → List Element
in_order [] = []
in_order (e ∷ es) = in_order es ++ e ∷ []

length-in_order : (es : List Element) → length (in_order es) ≡ length es
length-in_order [] = refl
length-in_order (e ∷ es) = omega (arith, length-append (in_order es) (e ∷ []), length-in_order es)

length-drop : (n : ℕ) (xs : List Element) → length (drop n xs) ≡ length xs - n
length-drop zero xs = omega arith
length-drop (suc n) [] = omega arith
length-drop (suc n) (x ∷ xs) = omega (arith, length-drop n xs)

drop-drop_one : (n : ℕ) (xs : List Element) → drop 1 (drop n xs) ≡ drop (suc n) xs
drop-drop_one zero [] = refl
drop-drop_one zero (x ∷ xs) = refl
drop-drop_one (suc n) [] = refl
drop-drop_one (suc n) (x ∷ xs) = drop-drop_one n xs

drop-append :
    (n : ℕ) (xs : List Element) (e : Element)
    → n ≤ length xs
    → drop n (xs ++ e ∷ []) ≡ drop n xs ++ e ∷ []
drop-append zero xs e h = refl
drop-append (suc n) [] e h = absurd (omega arith)
drop-append (suc n) (x ∷ xs) e h = drop-append n xs e (omega arith)

push_full :
    (size : ℕ) (e : Element) (q : List Element)
    → 0 < size
    → length q ≡ size
    → push size e q ≡ some (drop 1 q ++ e ∷ [])
unfolding push
push_full size e q p h = ground arith

push_room :
    (size : ℕ) (e : Element) (q : List Element)
    → length q < size
    → push size e q ≡ some (q ++ e ∷ [])
unfolding push
push_room size e q h = ground arith

-- LockHistory::Push on a queue for one element or more never fails its CHECK, and after any number
-- of events the queue holds the latest ones, as many as it may, in their order.
push_all_lem :
    (size : ℕ) (es : List Element)
    → 0 < size
    → push_all size es ≡ some (drop (length es - size) (in_order es))
unfolding push_all
push_all_lem size [] p = ground arith
push_all_lem size (e ∷ es) p =
    let rest = push_all_lem size es p in
    let q = drop (length es - size) (in_order es) in
    let l : length q ≡ length es - (length es - size) =
      omega (arith, length-drop (length es - size) (in_order es), length-in_order es) in
    elim (Bool-cases (leb size (length es))) [
      | inl b ↦
          let n : suc (length es) - size ≡ suc (length es - size) = ground arith in
          ap (then_push size e) rest
          ∙ push_full size e q p (ground arith)
          ∙ ap (λ t. some (t ++ e ∷ [])) (drop-drop_one (length es - size) (in_order es))
          ∙ ap some (
              sym (
                drop-append (suc (length es - size)) (in_order es) e
                  (ground (arith, length-in_order es))))
          ∙ ap (λ t. some (drop t (in_order (e ∷ es)))) (sym n)
      | inr b ↦
          let n : suc (length es) - size ≡ 0 = ground arith in
          let m : length es - size ≡ 0 = ground arith in
          ap (then_push size e) rest
          ∙ push_room size e q (ground arith)
          ∙ ap (λ t. some (drop t (in_order es) ++ e ∷ [])) m
          ∙ ap (λ t. some (drop t (in_order (e ∷ es)))) (sym n)
    ]
