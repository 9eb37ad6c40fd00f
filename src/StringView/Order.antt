-- ===== src/StringView/Order.antt =====
-- `compare` and the operators of src/panda/basic_string_view.h order views as their characters.
use panda_lib.Base.{
  ℕ, zero, suc, ◌+◌, ◌-◌, ◌≤◌, ◌≡◌, refl, true, false, not, Option, none, some, List, [], ◌∷◌,
  arith, inl, inr, if◌then◌else◌, Bool-cases, ap, ap₂, ◌∙◌, sym, ltb, slice, take, drop, drop-slice,
  take-slice, take_past, length-slice, slice_ext, ◌↔◌,
}
use panda_lib.StringView.{View, chars, clamp, substr}
use panda_lib.StringView.Traits.{Sign, minus, equal, plus, sign_of, traits_compare}
use panda_lib.StringView.Compare.{
  smaller, or_lengths, compare_parts, compare, compare_with, is_same, is_less, is_at_most,
  is_greater, is_at_least,
}

-- The order of lists of characters.
abbrev pub lexical : List ℕ → List ℕ → Sign
lexical [] [] = equal
lexical [] (y ∷ ys) = minus
lexical (x ∷ xs) [] = plus
lexical (x ∷ xs) (y ∷ ys) = if ltb x y then minus else if ltb y x then plus else lexical xs ys

smaller-zero : (m : ℕ) → smaller 0 m ≡ 0
smaller-zero m = ground arith

smaller-to_zero : (n : ℕ) → smaller n 0 ≡ 0
smaller-to_zero n = ground arith

sign-suc : (n m : ℕ) → sign_of (suc n) (suc m) ≡ sign_of n m
sign-suc n m = ground arith

lengths_suc : (n m : ℕ) (r : Sign) → or_lengths (suc n) (suc m) r ≡ or_lengths n m r
lengths_suc n m minus = refl
lengths_suc n m equal = sign-suc n m
lengths_suc n m plus = refl

sign_zero : (m : ℕ) → sign_of 0 (suc m) ≡ minus
sign_zero m = ground arith

sign_to_zero : (n : ℕ) → sign_of (suc n) 0 ≡ plus
sign_to_zero n = ground arith

smaller-suc : (n m : ℕ) → smaller (suc n) (suc m) ≡ suc (smaller n m)
smaller-suc n m = ground arith

lengths-branch :
    (n m a b : ℕ) (r : Sign)
    → or_lengths (suc n) (suc m) (if ltb a b then minus else if ltb b a then plus else r)
      ≡ (if ltb a b then minus else if ltb b a then plus else or_lengths n m r)
lengths-branch n m a b r = elim (Bool-cases (ltb a b)) [
  | inl e ↦ rw e refl
  | inr e ↦ elim (Bool-cases (ltb b a)) [
    | inl d ↦ rw (e, d) refl
    | inr d ↦ rw (e, d) (lengths_suc n m r)
  ]
]

compare_parts-lexical :
    (f : ℕ → ℕ) (o n : ℕ) (g : ℕ → ℕ) (p m : ℕ)
    → compare_parts f o n g p m ≡ lexical (slice o n f) (slice p m g)
unfolding compare_parts traits_compare
compare_parts-lexical f o zero g p zero = refl
compare_parts-lexical f o zero g p (suc m) =
    ap (λ k. or_lengths 0 (suc m) (traits_compare f o g p k)) (smaller-zero (suc m)) ∙ sign_zero m
compare_parts-lexical f o (suc n) g p zero =
    ap (λ k. or_lengths (suc n) 0 (traits_compare f o g p k)) (smaller-to_zero (suc n))
    ∙ sign_to_zero n
compare_parts-lexical f o (suc n) g p (suc m) =
    ap (λ k. or_lengths (suc n) (suc m) (traits_compare f o g p k)) (smaller-suc n m)
    ∙ lengths-branch n m (f o) (g p) (traits_compare f (suc o) g (suc p) (smaller n m))
    ∙ ap (λ r. if ltb (f o) (g p) then minus else if ltb (g p) (f o) then plus else r)
        (compare_parts-lexical f (suc o) n g (suc p) m)

-- `compare` is the order of the characters.
pub compare-lexical : (v w : View) → compare v w ≡ lexical (chars v) (chars w)
unfolding compare
compare-lexical v w = compare_parts-lexical v.str 0 v.length w.str 0 w.length

drop-chars :
    (f : ℕ → ℕ) (len pos : ℕ) → pos ≤ len → drop pos (slice 0 len f) ≡ slice pos (len - pos) f
drop-chars f len pos h =
    drop-slice pos 0 len f h ∙ ap (λ k. slice k (len - pos) f) {y = pos} (omega arith)

clamp_take :
    (f : ℕ → ℕ) (len pos count : ℕ)
    → pos ≤ len
    → slice pos (if ltb (len - pos) count then len - pos else count) f
      ≡ take count (drop pos (slice 0 len f))
clamp_take f len pos count h = elim (Bool-cases (ltb (len - pos) count)) [
  | inl e ↦
      rw (e, drop-chars f len pos h)
        (sym (
          take_past count (slice pos (len - pos) f)
            (rw (length-slice pos (len - pos) f) (ground arith))))
  | inr e ↦ rw (e, drop-chars f len pos h) (sym (take-slice count pos (len - pos) f (ground arith)))
]

-- `compare(pos1, count1, s, count2)` compares the characters of the part with the text, and throws
-- where `pos1` is behind the end.
pub compare_with-lexical :
    (pos count : ℕ) (s : ℕ → ℕ) (n : ℕ) (v : View)
    → compare_with pos count s n v ≡ (
        if ltb v.length pos
        then none
        else some (lexical (take count (drop pos (chars v))) (slice 0 n s)))
unfolding compare_with clamp
compare_with-lexical pos count s n v = elim (Bool-cases (ltb v.length pos)) [
  | inl e ↦ rw e refl
  | inr e ↦ rw e (
      ap some (
        compare_parts-lexical v.str pos
          (if ltb (v.length - pos) count then v.length - pos else count) s 0 n
        ∙ ap (λ l. lexical l (slice 0 n s)) (clamp_take v.str v.length pos count (ground arith))))
]

abbrev pub map_option : (View → List ℕ) → Option View → Option (List ℕ)
map_option f none = none
map_option f (some v) = some (f v)

-- `substr` is the part of the characters, and throws where `pos` is behind the end.
pub substr-chars :
    (pos count : ℕ) (v : View)
    → map_option chars (substr pos count v)
      ≡ (if ltb v.length pos then none else some (take count (drop pos (chars v))))
unfolding substr clamp
substr-chars pos count v = elim (Bool-cases (ltb v.length pos)) [
  | inl e ↦ rw e refl
  | inr e ↦ rw e (
      ap some (
        slice_ext 0 pos (if ltb (v.length - pos) count then v.length - pos else count)
          (λ i. v.str (pos + i)) v.str (λ i h. ap v.str {y = pos + i} (omega arith))
        ∙ clamp_take v.str v.length pos count (ground arith)))
]

abbrev opposite : Sign → Sign
opposite minus = plus
opposite equal = equal
opposite plus = minus

pick_opposite :
    (x y : ℕ) (r t : Sign)
    → t ≡ opposite r
    → (if ltb y x then minus else if ltb x y then plus else t)
      ≡ opposite (if ltb x y then minus else if ltb y x then plus else r)
pick_opposite x y r t e = elim (Bool-cases (ltb x y)) [
  | inl a ↦ (let b : ltb y x ≡ false = ground arith in rw (a, b) refl)
  | inr a ↦ elim (Bool-cases (ltb y x)) [ inl b ↦ rw (a, b) refl | inr b ↦ rw (a, b) e ]
]

lexical-opposite : (xs ys : List ℕ) → lexical ys xs ≡ opposite (lexical xs ys)
lexical-opposite [] [] = refl
lexical-opposite [] (y ∷ ys) = refl
lexical-opposite (x ∷ xs) [] = refl
lexical-opposite (x ∷ xs) (y ∷ ys) =
    pick_opposite x y (lexical xs ys) (lexical ys xs) (lexical-opposite xs ys)

pick_equal :
    (x y : ℕ) (r : Sign)
    → (if ltb x y then minus else if ltb y x then plus else r) ≡ equal
    → (x ≡ y) × (r ≡ equal)
pick_equal x y r e = elim (Bool-cases (ltb x y)) [
  | inl a ↦ cc (rw a at e)
  | inr a ↦ elim (Bool-cases (ltb y x)) [
    | inl b ↦ cc (rw (a, b) at e)
    | inr b ↦ (ground arith, rw (a, b) at e)
  ]
]

lexical_same : (xs ys : List ℕ) → lexical xs ys ≡ equal → xs ≡ ys
lexical_same [] [] e = refl
lexical_same [] (y ∷ ys) e = cc
lexical_same (x ∷ xs) [] e = cc
lexical_same (x ∷ xs) (y ∷ ys) e =
    let (p, q) = pick_equal x y (lexical xs ys) e in ap₂ ◌∷◌ p (lexical_same xs ys q)

lexical_refl : (xs : List ℕ) → lexical xs xs ≡ equal
lexical_refl [] = refl
lexical_refl (x ∷ xs) = let e : ltb x x ≡ false = ground arith in rw e (lexical_refl xs)

pick_same : (s : Sign) → (elim s [ equal ↦ true | _ ↦ false ]) ≡ true → s ≡ equal
pick_same minus e = cc
pick_same equal e = refl
pick_same plus e = cc

picked : (s : Sign) → s ≡ equal → (elim s [ equal ↦ true | _ ↦ false ]) ≡ true
picked s e = rw e refl

-- `==` says whether the characters are the same.
pub is_same-chars : (v w : View) → (is_same v w ≡ true) ↔ (chars v ≡ chars w)
unfolding is_same
is_same-chars v w = (
  λ e. lexical_same (chars v) (chars w) (sym (compare-lexical v w) ∙ pick_same (compare v w) e),
  λ e.
      picked (compare v w)
        (compare-lexical v w ∙ ap (λ l. lexical l (chars w)) e ∙ lexical_refl (chars w)),
)

agree :
    (s t : Sign)
    → t ≡ opposite s
    → (elim s [ minus ↦ true | _ ↦ false ] ≡ elim t [ plus ↦ true | _ ↦ false ])
      × (elim s [ plus ↦ false | _ ↦ true ] ≡ elim t [ minus ↦ false | _ ↦ true ])
      × (elim s [ plus ↦ false | _ ↦ true ] ≡ not (elim s [ plus ↦ true | _ ↦ false ]))
agree minus t e = rw e (refl, refl, refl)
agree equal t e = rw e (refl, refl, refl)
agree plus t e = rw e (refl, refl, refl)

-- `<` and `>`, and `<=` and `>=`, are each other's converse; `<=` is the negation of `>`.
pub operators_agree :
    (v w : View)
    → (is_less v w ≡ is_greater w v)
      × (is_at_most v w ≡ is_at_least w v)
      × (is_at_most v w ≡ not (is_greater v w))
unfolding is_less is_greater is_at_most is_at_least
operators_agree v w =
    let e : compare w v ≡ opposite (compare v w) =
      compare-lexical w v
      ∙ lexical-opposite (chars v) (chars w)
      ∙ ap opposite (sym (compare-lexical v w)) in
    agree (compare v w) (compare w v) e
