-- ===== src/ErrorCode/Text.antt =====
-- `what` and `contains` of src/panda/error.cc against the list of codes.
use panda_lib.Base.{
  ℕ, ◌+◌, ◌<◌, ◌≡◌, refl, sym, ap, ◌∙◌, Bool, false, ◌&&◌, ◌||◌, Bool-cases, inl, inr, none, Option,
  some, append-nil, List, [], ◌∷◌, ◌++◌, append_assoc, ◌==◌, ne→==, length, if◌then◌else◌, arith,
}
use panda_lib.ErrorCode.{
  Ptr, StdCode, Heap, Texts, arrow, piece, what_loop, what, is_among, among_numbers, contains,
}
use panda_lib.ErrorCode.Holds.{values, categories, Holds}
use panda_lib.VarInt.Stack.{stack_of, AllU32, push_lem, iterate-stack_of}

-- The texts of the codes behind the first, each after an arrow, and of all.
pub following : Texts → List StdCode → List ℕ
following t [] = []
following t (x ∷ xs) = arrow ++ (piece t x.0 x.1 ++ following t xs)

abbrev pub joined : Texts → List StdCode → List ℕ
joined t [] = []
joined t (x ∷ xs) = piece t x.0 x.1 ++ following t xs

module _ (t : Texts) where
  what_loop_step :
      (ret : List ℕ) (i : ℕ) (x : StdCode) (xs : List StdCode)
      → AllU32 (values (x ∷ xs))
      → what_loop t ret i (stack_of (values (x ∷ xs))) (categories (x ∷ xs))
        ≡ what_loop t
            (ret ++ (if i == 0 then [] else arrow) ++ piece t x.0 x.1)
            (i + 1)
            (stack_of (values xs))
            (categories xs)
  unfolding what_loop
  what_loop_step ret i x xs all =
      let (popped, shown, counted) = push_lem x.0 (stack_of (values xs)) all.0 in
      λ j. elim (shown j) as (λ o. Option (List ℕ)) [
        | none ↦ none
        | some val ↦ elim (popped j) as (λ o. Option (List ℕ)) [
          | none ↦ none
          | some rest ↦
              what_loop t (ret ++ (if i == 0 then [] else arrow) ++ piece t val x.1) (i + 1) rest
                (categories xs)
        ]
      ]

  what_loop-following :
      (ret : List ℕ) (i : ℕ) (xs : List StdCode)
      → AllU32 (values xs)
      → what_loop t ret (i + 1) (stack_of (values xs)) (categories xs)
        ≡ some (ret ++ following t xs)
  unfolding following
  what_loop-following ret i [] all = unfold what_loop in ap some (sym (append-nil ret))
  what_loop-following ret i (x ∷ xs) all =
      what_loop_step ret (i + 1) x xs all
      ∙ rw (ne→== (i + 1) 0 (λ z. omega (arith, z))) (
          what_loop-following (ret ++ arrow ++ piece t x.0 x.1) (i + 1) xs all.1
          ∙ ap some (
              append_assoc (ret ++ arrow) (piece t x.0 x.1) (following t xs)
              ∙ append_assoc ret arrow (piece t x.0 x.1 ++ following t xs)))

  -- `what` of an error code that holds these codes is their texts from the outermost on, joined by
  -- arrows, and nothing where it holds none.
  pub what-joined :
      (h : Heap) (e : Ptr) (xs : List StdCode) → Holds h e xs → what t e h ≡ some (joined t xs)
  unfolding what
  what-joined h e [] w = rw w refl
  what-joined h e (x ∷ xs) w =
      rw (ne→== e 0 w.0, w.1.codes, w.1.cats)
        (what_loop_step [] 0 x xs w.1.words
          ∙ what_loop-following (piece t x.0 x.1) 0 xs w.1.words.1)

-- Whether a code is one of them.
pub is_one : StdCode → List StdCode → Bool
is_one c [] = false
is_one c (x ∷ xs) = ((x.0 == c.0) && (x.1 == c.1)) || is_one c xs

is_among-is_one :
    (c : StdCode) (xs : List StdCode) → is_among c (values xs) (categories xs) ≡ some (is_one c xs)
unfolding is_among is_one
is_among-is_one c [] = refl
is_among-is_one c (x ∷ xs) = elim (Bool-cases ((x.0 == c.0) && (x.1 == c.1))) [
  | inl e ↦ rw e refl
  | inr e ↦ rw e (is_among-is_one c xs)
]

-- `contains`, with fuel for the iterators of more than the number of codes, tells whether a code is
-- one of those of an error code that holds some.
pub contains-is_one :
    (fuel : ℕ) (c : StdCode) (h : Heap) (e : Ptr) (x : StdCode) (xs : List StdCode)
    → Holds h e (x ∷ xs)
    → length (values (x ∷ xs)) < fuel
    → contains fuel c e h ≡ some (is_one c (x ∷ xs))
unfolding contains among_numbers
contains-is_one fuel c h e x xs w enough =
    let all_read = iterate-stack_of fuel (values (x ∷ xs)) w.1.words enough in
    rw (ne→== e 0 w.0, w.1.codes, w.1.cats, all_read) (is_among-is_one c (x ∷ xs))
