-- ===== src/Log/Pretty.antt =====
-- `prettify_json` of src/panda/log/log.cc, on the text that it holds.
use panda_lib.Base.{
  ℕ, zero, suc, ◌+◌, ◌-◌, ◌*◌, ◌≤◌, ◌≡◌, refl, sym, ap, ◌∙◌, Bool, true, false, ◌||◌, ◌&&◌,
  Bool-cases, Option, none, some, List, [], ◌∷◌, ◌++◌, ◌==◌, ltb, length, take, drop, replicate,
  inl, inr, if◌then◌else◌, arith,
}

-- The cases of the `switch` of prettify_json.
pub data Kind : Type 0 where
  space opening closing comma other : Kind

unfoldable pub kind_of : ℕ → Kind
kind_of c =
    if c == 32 || c == 9
    then space
    else if c == 123 || c == 91
    then opening
    else if c == 125 || c == 93
    then closing
    else if c == 44
    then comma
    else other

abbrev pub endof : ℕ → ℕ
endof c = if c == 123 then 125 else 93

abbrev pub one_on : Option ℕ → Option ℕ
one_on none = none
one_on (some i) = some (suc i)

abbrev pub find_char : ℕ → List ℕ → Option ℕ
find_char c [] = none
find_char c (x ∷ xs) = if x == c then some 0 else one_on (find_char c xs)

-- Whether an object or an array stays on its line, by the places of the next beginning and of the next
-- end behind the one at hand; `none` is npos.
unfoldable pub folds : ℕ → Option ℕ → Option ℕ → Bool
folds unfold_limit another_begin none = false
folds unfold_limit none (some end) = ltb (end + 1) unfold_limit
folds unfold_limit (some k) (some end) = ltb end k && ltb (end + 1) unfold_limit

abbrev pub place : Option ℕ → ℕ
place none = 0
place (some i) = i

abbrev pub tab : ℕ → Bool → List ℕ
tab depth newline = if newline then 10 ∷ replicate (4 * depth) 32 else []

abbrev pub put_out : List ℕ → Option (List ℕ) → Option (List ℕ)
put_out out none = none
put_out out (some rest) = some (out ++ rest)

-- What a case of the `switch` puts out before the loop goes on, the depth and the flag that it goes on
-- with, and how many characters it has taken besides its own.
abbrev Step : Type 0
Step = List ℕ × ℕ × Bool × ℕ

unfoldable pub step : Kind → ℕ → ℕ → Bool → ℕ → List ℕ → Step
unfolding folds
step space limit depth newline c cs =
    if newline then ([], depth, true, 0) else (c ∷ [], depth, false, 0)
step opening limit depth newline c cs =
    let end = find_char (endof c) cs in
    if folds limit (find_char c cs) end
    then (tab depth newline ++ (c ∷ take (suc (place end)) cs), depth, true, suc (place end))
    else (tab depth newline ++ (c ∷ []), suc depth, true, 0)
step closing limit depth newline c cs = (tab (depth - 1) true ++ (c ∷ []), depth - 1, true, 0)
step comma limit depth newline c cs = (c ∷ [], depth, true, 0)
step other limit depth newline c cs = (tab depth newline ++ (c ∷ []), depth, false, 0)

-- The loop over the characters; `none` is that the fuel has run out.
unfoldable pub pretty : ℕ → ℕ → ℕ → Bool → List ℕ → Option (List ℕ)
unfolding step kind_of
pretty fuel limit depth newline [] = some []
pretty zero limit depth newline (c ∷ cs) = none
pretty (suc fuel) limit depth newline (c ∷ cs) =
    let (out, d, n, skip) = step (kind_of c) limit depth newline c cs in
    put_out out (pretty fuel limit d n (drop skip cs))

unfoldable pub prettify_json : ℕ → List ℕ → Option (List ℕ)
unfolding pretty
prettify_json unfold_limit src = pretty (length src) unfold_limit 0 false src

-- A text without its spaces, tabs and ends of lines.
abbrev pub is_blank : ℕ → Bool
is_blank c = c == 32 || (c == 9 || c == 10)

abbrev pub squeezed : List ℕ → List ℕ
squeezed [] = []
squeezed (c ∷ cs) = if is_blank c then squeezed cs else c ∷ squeezed cs

squeezed-append : (xs ys : List ℕ) → squeezed (xs ++ ys) ≡ squeezed xs ++ squeezed ys
squeezed-append [] ys = refl
squeezed-append (x ∷ xs) ys = elim (Bool-cases (is_blank x)) [
  | inl e ↦ rw e (squeezed-append xs ys)
  | inr e ↦ rw e (ap (λ zs. x ∷ zs) (squeezed-append xs ys))
]

take-drop : (n : ℕ) (xs : List ℕ) → take n xs ++ drop n xs ≡ xs
take-drop zero xs = refl
take-drop (suc n) [] = refl
take-drop (suc n) (x ∷ xs) = ap (λ ys. x ∷ ys) (take-drop n xs)

squeezed-spaces : (n : ℕ) → squeezed (replicate n 32) ≡ []
squeezed-spaces zero = refl
squeezed-spaces (suc n) = squeezed-spaces n

squeezed-tab : (depth : ℕ) (newline : Bool) → squeezed (tab depth newline) ≡ []
squeezed-tab depth true = squeezed-spaces (4 * depth)
squeezed-tab depth false = refl

pub length-drop : (n : ℕ) (xs : List ℕ) → length (drop n xs) ≤ length xs
length-drop zero xs = omega arith
length-drop (suc n) [] = omega arith
length-drop (suc n) (x ∷ xs) = omega (arith, length-drop n xs)

tabbed :
    (depth : ℕ) (newline : Bool) (xs : List ℕ) → squeezed (tab depth newline ++ xs) ≡ squeezed xs
tabbed depth newline xs =
    squeezed-append (tab depth newline) xs
    ∙ ap (λ zs. zs ++ squeezed xs) (squeezed-tab depth newline)

abbrev is_space : Kind → Bool
is_space space = true
is_space _ = false

not_space :
    (a b d : Bool)
    → is_space (if a then opening else if b then closing else if d then comma else other) ≡ false
not_space true b d = refl
not_space false true d = refl
not_space false false true = refl
not_space false false false = refl

space-is_blank : (c : ℕ) → kind_of c ≡ space → is_blank c ≡ true
unfolding kind_of
space-is_blank c e = elim (Bool-cases (c == 32)) [
  | inl p ↦ rw p refl
  | inr p ↦ elim (Bool-cases (c == 9)) [
    | inl q ↦ rw (p, q) refl
    | inr q ↦
        let no : false ≡ true =
          sym (not_space (c == 123 || c == 91) (c == 125 || c == 93) (c == 44))
          ∙ ap is_space (rw (p, q) at e) in
        cc
  ]
]

piece :
    (depth : ℕ) (newline : Bool) (c : ℕ) (xs ys : List ℕ)
    → squeezed (tab depth newline ++ (c ∷ xs)) ++ squeezed ys ≡ squeezed (c ∷ (xs ++ ys))
piece depth newline c xs ys =
    ap (λ zs. zs ++ squeezed ys) (tabbed depth newline (c ∷ xs)) ∙ sym (squeezed-append (c ∷ xs) ys)

-- What a step puts out and what it leaves are together the text at hand, but for blanks.
abbrev Complete : ℕ → List ℕ → Step → Type 0
Complete c cs t = squeezed (t.0) ++ squeezed (drop (t.3) cs) ≡ squeezed (c ∷ cs)

complete :
    (k : Kind) (limit depth : ℕ) (newline : Bool) (c : ℕ) (cs : List ℕ)
    → (k ≡ space → is_blank c ≡ true)
    → Complete c cs (step k limit depth newline c cs)
unfolding step
complete space limit depth true c cs blank = rw (blank refl) refl
complete space limit depth false c cs blank = rw (blank refl) refl
complete opening limit depth newline c cs blank =
    let end = find_char (endof c) cs in
    elim (Bool-cases (folds limit (find_char c cs) end)) [
      | inl e ↦ rw e (
          piece depth newline c (take (suc (place end)) cs) (drop (suc (place end)) cs)
          ∙ ap (λ zs. squeezed (c ∷ zs)) (take-drop (suc (place end)) cs))
      | inr e ↦ rw e (piece depth newline c [] cs)
    ]
complete closing limit depth newline c cs blank = piece (depth - 1) true c [] cs
complete comma limit depth newline c cs blank = piece depth false c [] cs
complete other limit depth newline c cs blank = piece depth newline c [] cs

-- The loop ends with enough fuel, and what it puts out is the text but for blanks.
pretty-squeezed :
    (fuel limit depth : ℕ) (newline : Bool) (cs : List ℕ)
    → length cs ≤ fuel
    → (out : List ℕ) × (pretty fuel limit depth newline cs ≡ some out)
      × (squeezed out ≡ squeezed cs)
unfolding pretty
pretty-squeezed fuel limit depth newline [] enough = ([], refl, refl)
pretty-squeezed zero limit depth newline (c ∷ cs) enough = absurd (omega arith)
pretty-squeezed (suc fuel) limit depth newline (c ∷ cs) enough =
    let t = step (kind_of c) limit depth newline c cs in
    let (out, run, same) =
      pretty-squeezed fuel limit t.1 t.2 (drop t.3 cs) (omega (arith, length-drop t.3 cs)) in
    (
      t.0 ++ out,
      ap (put_out t.0) run,
      squeezed-append t.0 out
          ∙ ap (λ zs. squeezed t.0 ++ zs) same
          ∙ complete (kind_of c) limit depth newline c cs (space-is_blank c),
    )

-- `prettify_json` puts out something for every text, valid or not, and this differs from the text in
-- spaces, tabs and ends of lines alone.
pub prettify_json-squeezed :
    (unfold_limit : ℕ) (src : List ℕ)
    → (out : List ℕ) × (prettify_json unfold_limit src ≡ some out) × (squeezed out ≡ squeezed src)
unfolding prettify_json
prettify_json-squeezed unfold_limit src =
    pretty-squeezed (length src) unfold_limit 0 false src (omega arith)
