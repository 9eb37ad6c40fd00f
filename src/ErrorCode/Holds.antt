-- ===== src/ErrorCode/Holds.antt =====
-- An error code of src/panda/error.h as a list of codes, and what making and taking apart do to it.
use panda_lib.Base.{
  ℕ, ◌≡◌, ◌≢◌, refl, sym, ap, subst, Bool-cases, inl, inr, some, List, [], ◌∷◌, map, ◌==◌, ne→==,
  ==_refl, if◌then◌else◌,
}
use panda_lib.ErrorCode.{
  Ptr, StdCode, Data, Heap, write, init, push_code, set_code, set_next, make_next, assign_code,
  code, code_of, next, next_at, next_data, stored_at,
}
use panda_lib.VarInt.{IsU32, push, pop, top}
use panda_lib.VarInt.Stack.{stack_of, AllU32, push_lem}

abbrev pub values : List StdCode → List ℕ
values = map (λ c. c.0)

abbrev pub categories : List StdCode → List ℕ
categories = map (λ c. c.1)

-- The data of these codes, the outermost first.
pub record IsDataOf (d : Data) (xs : List StdCode) : Type 0 where
  pub codes : d.codes ≡ stack_of (values xs)
  pub cats : d.cat ≡ categories xs
  pub words : AllU32 (values xs)

-- An error code without data stands for no error.
abbrev pub Holds : Heap → Ptr → List StdCode → Type 0
Holds h e [] = e ≡ 0
Holds h e (x ∷ xs) = (e ≢ 0) × IsDataOf (h e) (x ∷ xs)

written : (h : Heap) (a : Ptr) (d : Data) → write h a d a ≡ d
written h a d = rw (==_refl a) refl

elsewhere : (h : Heap) (a b : Ptr) (d : Data) → a ≢ b → write h a d b ≡ h b
elsewhere h a b d n = rw (ne→== a b n) refl

-- A code put before others.
pushed :
    (d : Data) (c : StdCode) (xs : List StdCode)
    → IsU32 c.0
    → IsDataOf d xs
    → IsDataOf (record { codes = push c.0 d.codes; cat = c.1 ∷ d.cat }) (c ∷ xs)
pushed d c xs w k = record {
  codes = ap (push c.0) k.codes;
  cats = ap (λ cs. c.1 ∷ cs) k.cats;
  words = (w, k.words);
}

pub code-Holds :
    (h : Heap) (e : Ptr) (x : StdCode) (xs : List StdCode) → Holds h e (x ∷ xs) → code e h ≡ some x
unfolding code code_of
code-Holds h e x xs k =
    let shown : top (stack_of (values (x ∷ xs))) ≡ some x.0 =
      (push_lem x.0 (stack_of (values xs)) k.1.words.0).1 in
    rw (ne→== e 0 k.0, k.1.codes, k.1.cats, shown) refl

-- The data that `make_next` begins with.
start : Heap → Ptr → Data
start h behind = if behind == 0 then record { codes = []; cat = [] } else h behind

module _ (fresh : Ptr) (c : StdCode) (behind : Ptr) (h : Heap) (apart : fresh ≢ behind) where
  abbrev after : Heap
  after = (make_next fresh c behind h).1

  made_data :
      after fresh
      ≡ record { codes = push c.0 (start h behind).codes; cat = c.1 ∷ (start h behind).cat }
  unfolding make_next set_next init push_code start
  made_data = elim (Bool-cases (behind == 0)) [
    | inl e ↦ rw (e, ==_refl fresh) refl
    | inr e ↦ rw (e, ==_refl fresh, ne→== fresh behind apart) refl
  ]

  made_others : (a : Ptr) → fresh ≢ a → after a ≡ h a
  unfolding make_next set_next init push_code
  made_others a n = elim (Bool-cases (behind == 0)) [
    | inl e ↦ rw (e, ne→== fresh a n) refl
    | inr e ↦ rw (e, ne→== fresh a n) refl
  ]

-- What is held at an address that is not written is held still.
kept : (h k : Heap) (e : Ptr) (xs : List StdCode) → k e ≡ h e → Holds h e xs → Holds k e xs
kept h k e [] same w = w
kept h k e (x ∷ xs) same w = (w.0, subst (λ d. IsDataOf d (x ∷ xs)) (sym same) w.1)

start-IsDataOf :
    (h : Heap) (behind : Ptr) (xs : List StdCode) → Holds h behind xs → IsDataOf (start h behind) xs
unfolding start
start-IsDataOf h behind [] w = rw w (record { codes = refl; cats = refl; words = tt })
start-IsDataOf h behind (x ∷ xs) w = rw (ne→== behind 0 w.0) (w.1)

-- An error code made of a code and the error behind it holds the code before those of the error, which
-- keeps its own.
pub make_next-Holds :
    (fresh : Ptr) (c : StdCode) (behind : Ptr) (h : Heap) (xs : List StdCode)
    → fresh ≢ 0
    → fresh ≢ behind
    → IsU32 c.0
    → Holds h behind xs
    → ((make_next fresh c behind h).0 ≡ fresh)
      × Holds (make_next fresh c behind h).1 fresh (c ∷ xs)
      × Holds (make_next fresh c behind h).1 behind xs
make_next-Holds fresh c behind h xs there apart w k = (
  (unfold make_next set_next init in refl),
  (
    there,
    subst (λ d. IsDataOf d (c ∷ xs)) (sym (made_data fresh c behind h apart))
        (pushed (start h behind) c xs w (start-IsDataOf h behind xs k)),
  ),
  kept h (make_next fresh c behind h).1 behind xs (made_others fresh c behind h apart behind apart)
      k,
)

-- `next` gives new data with the codes behind the first, or none; the error code keeps its own.
pub next-Holds :
    (fresh e : Ptr) (h : Heap) (x : StdCode) (xs : List StdCode)
    → fresh ≢ 0
    → fresh ≢ e
    → Holds h e (x ∷ xs)
    → (a : Ptr) × (k : Heap) × (next fresh e h ≡ some (a, k)) × Holds k a xs × Holds k e (x ∷ xs)
unfolding next next_at next_data stored_at
next-Holds fresh e h x [] there apart w = (0, h, rw (ne→== e 0 w.0, w.1.cats) refl, refl, w)
next-Holds fresh e h x (y ∷ ys) there apart w =
    let rest : Data = record { codes = stack_of (values (y ∷ ys)); cat = categories (y ∷ ys) } in
    let back : pop (stack_of (values (x ∷ y ∷ ys))) ≡ some rest.codes =
      (push_lem x.0 (stack_of (values (y ∷ ys))) w.1.words.0).0 in
    (
      fresh,
      write h fresh rest,
      rw (ne→== e 0 w.0, w.1.cats, w.1.codes, back) refl,
      (
        there,
        subst (λ d. IsDataOf d (y ∷ ys)) (sym (written h fresh rest))
            (record { codes = refl; cats = refl; words = w.1.words.1 }),
      ),
      kept h (write h fresh rest) e (x ∷ y ∷ ys) (elsewhere h fresh e rest apart) w,
    )

-- An error code that is made, at a new address, of a code and an error shows the code, and its
-- `next`, at another new address, holds the codes of the error. The value of the code is a 32-bit
-- word.
pub next-make_next :
    (fresh newer : Ptr) (c : StdCode) (behind : Ptr) (h : Heap) (xs : List StdCode)
    → fresh ≢ 0
    → fresh ≢ behind
    → newer ≢ 0
    → newer ≢ fresh
    → IsU32 c.0
    → Holds h behind xs
    → (code fresh (make_next fresh c behind h).1 ≡ some c)
      × ((a : Ptr) × (k : Heap) × (next newer fresh (make_next fresh c behind h).1 ≡ some (a, k))
          × Holds k a xs)
next-make_next fresh newer c behind h xs there apart newer_there newer_apart w k =
    let (place, held, others) = make_next-Holds fresh c behind h xs there apart w k in
    let (a, after, found, left, still) =
      next-Holds newer fresh (make_next fresh c behind h).1 c xs newer_there newer_apart held in
    (code-Holds _ fresh c xs held, (a, after, found, left))

module _ (fresh e : Ptr) (c : StdCode) (h : Heap) (some_code : c.0 ≢ 0) (there : e ≢ 0) where
  assigned_place : (assign_code fresh c e h).0 ≡ e
  unfolding assign_code set_code init
  assigned_place = rw (ne→== c.0 0 some_code, ne→== e 0 there) refl

  assigned_data : (assign_code fresh c e h).1 e ≡ record { codes = push c.0 []; cat = c.1 ∷ [] }
  unfolding assign_code set_code init push_code
  assigned_data = rw (ne→== c.0 0 some_code, ne→== e 0 there, ==_refl e) refl

-- Assignment of a code that is not 0 to an error code that holds some writes into the data that
-- its copies hold too: a copy, which holds the same address, shows the first of the old codes
-- before and holds the new code alone after it. The value of the code is a 32-bit word.
pub assign_code_shared :
    (fresh e copy : Ptr) (c : StdCode) (h : Heap) (x : StdCode) (xs : List StdCode)
    → copy ≡ e
    → c.0 ≢ 0
    → IsU32 c.0
    → Holds h e (x ∷ xs)
    → (code copy h ≡ some x)
      × ((assign_code fresh c e h).0 ≡ e)
      × (code copy (assign_code fresh c e h).1 ≡ some c)
      × Holds (assign_code fresh c e h).1 copy (c ∷ [])
assign_code_shared fresh e copy c h x xs same some_code w k =
    let after : Heap = (assign_code fresh c e h).1 in
    let empty : Data = record { codes = []; cat = [] } in
    let alone : IsDataOf (record { codes = push c.0 []; cat = c.1 ∷ [] }) (c ∷ []) =
      pushed empty c [] w (record { codes = refl; cats = refl; words = tt }) in
    let held : Holds after e (c ∷ []) = (
      k.0,
      subst (λ d. IsDataOf d (c ∷ [])) (sym (assigned_data fresh e c h some_code k.0)) alone,
    ) in
    let place : (assign_code fresh c e h).0 ≡ e = assigned_place fresh e c h some_code k.0 in
    (
      subst (λ a. code a h ≡ some x) (sym same) (code-Holds h e x xs k),
      place,
      subst (λ a. code a after ≡ some c) (sym same) (code-Holds after e c [] held),
      subst (λ a. Holds after a (c ∷ [])) (sym same) held,
    )
