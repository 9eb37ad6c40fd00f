-- ===== src/Log/Lines.antt =====
-- `format_multiline` of src/panda/log/PatternFormatter.icc: each line of a message in a template.
use panda_lib.Base.{
  ℕ, zero, suc, ◌+◌, ◌≤◌, ◌<◌, ◌≡◌, refl, sym, ap, ap₂, ◌∙◌, Bool, true, false, Bool-cases, Option,
  none, some, List, [], ◌∷◌, ◌++◌, append_assoc, ◌==◌, ltb, ge→ltb, lt→ltb, length, length-append,
  take, drop, if◌then◌else◌, inl, inr, ◌⊎◌, arith,
}
use panda_lib.Log.Pretty.{find_char}

-- A text, or the `out_of_range` of an insertion behind the end.
pub data Text : Type 0 where
  text : List ℕ → Text
  behind_end : Text
  no_fuel : Text

abbrev pub inserted : ℕ → List ℕ → List ℕ → List ℕ
inserted place line ret = take place ret ++ line ++ drop place ret

-- The end of a round, by the end of the line.
abbrev pub next_line : (List ℕ → Bool → List ℕ → Text) → ℕ → List ℕ → List ℕ → Option ℕ → Text
next_line again ins_pos ret msg none = text (inserted ins_pos msg ret)
next_line again ins_pos ret msg (some epos) =
    again (inserted ins_pos (take epos msg) ret) true (drop (suc epos) msg)

-- The loop, from the place in the message on where the line at hand begins; the flag says that this
-- is not the first line.
unfoldable pub line_loop : ℕ → List ℕ → ℕ → List ℕ → Bool → List ℕ → Text
line_loop zero tmpl tmpl_pos ret later msg = no_fuel
line_loop (suc fuel) tmpl tmpl_pos ret later msg =
    let ret = if later then ret ++ 10 ∷ [] else ret in
    let ins_pos = length ret + tmpl_pos in
    let ret = ret ++ tmpl in
    if ltb (length ret) ins_pos
    then behind_end
    else next_line (line_loop fuel tmpl tmpl_pos) ins_pos ret msg (find_char 10 msg)

unfoldable pub format_multiline : List ℕ → ℕ → List ℕ → Text
unfolding line_loop
format_multiline tmpl tmpl_pos msg = line_loop (suc (length msg)) tmpl tmpl_pos [] false msg

-- The message with each of its lines put into the template, character by character: the line at hand
-- is behind what stands before the place.
abbrev pub in_template : List ℕ → List ℕ → List ℕ → List ℕ
in_template before behind [] = behind
in_template before behind (c ∷ cs) =
    if c == 10
    then behind ++ (10 ∷ (before ++ in_template before behind cs))
    else c ∷ in_template before behind cs

-- A message that is one line, or the first line of a message and the rest.
in_template-cases :
    (before behind msg : List ℕ)
    → ((find_char 10 msg ≡ none) × (in_template before behind msg ≡ msg ++ behind))
      ⊎ ((i : ℕ) × (find_char 10 msg ≡ some i)
          × (in_template before behind msg
              ≡ take i msg
                ++ (behind ++ (10 ∷ (before ++ in_template before behind (drop (suc i) msg)))))
          × (length (drop (suc i) msg) < length msg))
in_template-cases before behind [] = inl (refl, refl)
in_template-cases before behind (c ∷ cs) = elim (Bool-cases (c == 10)) [
  | inl e ↦ inr (0, (rw e refl), (rw e refl), omega arith)
  | inr e ↦ elim (in_template-cases before behind cs) [
    | inl single ↦ inl ((rw (e, single.0) refl), (rw e (ap (λ zs. c ∷ zs) single.1)))
    | inr more ↦
        let (i, found, same, shorter) = more in
        inr (suc i, (rw (e, found) refl), (rw e (ap (λ zs. c ∷ zs) same)), omega (arith, shorter))
  ]
]

take_all : (xs ys : List ℕ) (n : ℕ) → take (length xs + n) (xs ++ ys) ≡ xs ++ take n ys
take_all [] ys n = ap (λ k. take k ys) {y = n} (omega arith)
take_all (x ∷ xs) ys n =
    ap (λ k. take k (x ∷ (xs ++ ys))) {y = suc (length xs + n)} (omega arith)
    ∙ ap (λ zs. x ∷ zs) (take_all xs ys n)

drop_all : (xs ys : List ℕ) (n : ℕ) → drop (length xs + n) (xs ++ ys) ≡ drop n ys
drop_all [] ys n = ap (λ k. drop k ys) {y = n} (omega arith)
drop_all (x ∷ xs) ys n =
    ap (λ k. drop k (x ∷ (xs ++ ys))) {y = suc (length xs + n)} (omega arith) ∙ drop_all xs ys n

-- A line goes into the template that was put behind the text.
inserted_lem :
    (ret tmpl line : List ℕ) (place : ℕ)
    → inserted (length ret + place) line (ret ++ tmpl)
      ≡ ret ++ (take place tmpl ++ (line ++ drop place tmpl))
inserted_lem ret tmpl line place =
    ap₂ (λ a b. a ++ line ++ b) (take_all ret tmpl place) (drop_all ret tmpl place)
    ∙ append_assoc (ret ++ take place tmpl) line (drop place tmpl)
    ∙ append_assoc ret (take place tmpl) (line ++ drop place tmpl)

regrouped :
    (start before line behind rest : List ℕ)
    → (start ++ (before ++ (line ++ behind))) ++ 10 ∷ [] ++ rest
      ≡ start ++ (before ++ (line ++ (behind ++ (10 ∷ rest))))
regrouped start before line behind rest =
    append_assoc (start ++ (before ++ (line ++ behind))) (10 ∷ []) rest
    ∙ append_assoc start (before ++ (line ++ behind)) (10 ∷ rest)
    ∙ ap (λ zs. start ++ zs) (append_assoc before (line ++ behind) (10 ∷ rest))
    ∙ ap (λ zs. start ++ (before ++ zs)) (append_assoc line behind (10 ∷ rest))

module _ (tmpl : List ℕ) (place : ℕ) (inside : place ≤ length tmpl) where
  abbrev before : List ℕ
  before = take place tmpl

  abbrev behind : List ℕ
  behind = drop place tmpl

  fits : (ret : List ℕ) → ltb (length (ret ++ tmpl)) (length ret + place) ≡ false
  fits ret =
      ge→ltb (length (ret ++ tmpl)) (length ret + place) (omega (arith, length-append ret tmpl))

  -- One turn of the loop, with what stands before the line.
  line_loop-lines :
      (fuel : ℕ) (ret msg : List ℕ) (later : Bool)
      → length msg < fuel
      → line_loop fuel tmpl place ret later msg
        ≡ text
            ((if later then ret ++ 10 ∷ [] else ret) ++ (before ++ in_template before behind msg))
  unfolding line_loop
  line_loop-lines zero ret msg later enough = absurd (omega arith)
  line_loop-lines (suc fuel) ret msg later enough =
      let start = if later then ret ++ 10 ∷ [] else ret in
      elim (in_template-cases before behind msg) [
        | inl single ↦
            rw (fits start, single.0)
              (ap text (
                inserted_lem start tmpl msg place
                ∙ ap (λ zs. start ++ (before ++ zs)) (sym single.1)))
        | inr more ↦
            let (i, found, same, shorter) = more in
            rw (fits start, found)
              (ap (λ r. line_loop fuel tmpl place r true (drop (suc i) msg))
                  (inserted_lem start tmpl (take i msg) place)
                ∙ line_loop-lines fuel (start ++ (before ++ (take i msg ++ behind)))
                    (drop (suc i) msg) true (omega (arith, shorter))
                ∙ ap text (
                    regrouped start before (take i msg) behind
                      (before ++ in_template before behind (drop (suc i) msg))
                    ∙ ap (λ zs. start ++ (before ++ zs)) (sym same)))
      ]

-- A message whose place is inside of the template comes out with each of its lines in the template;
-- with the place behind the end of the template the insertion throws.
pub format_multiline-lines :
    (tmpl : List ℕ) (place : ℕ) (msg : List ℕ)
    → (place ≤ length tmpl
        → format_multiline tmpl place msg
          ≡ text (take place tmpl ++ in_template (take place tmpl) (drop place tmpl) msg))
      × (length tmpl < place → format_multiline tmpl place msg ≡ behind_end)
unfolding format_multiline line_loop
format_multiline-lines tmpl place msg = (
  (λ inside. line_loop-lines tmpl place inside (suc (length msg)) [] msg false (omega arith)),
  (λ beyond. rw (lt→ltb (length tmpl) (0 + place) (omega (arith, beyond))) refl),
)
