-- ===== src/Excepted/Life.antt =====
-- The life of an excepted of src/panda/excepted.h from the function that has failed to its destructor:
-- an error is looked at or thrown.
use panda_lib.Base.{
  ◌≡◌, refl, ◌∙◌, subst, append-nil, Bool, true, false, inl, inr, some, List, [], ◌∷◌, ◌++◌,
}
use panda_lib.Excepted.{
  Excepted, Outcome, done, raised, construct_err, has_value, value, nevermind, destroy, move_new,
  set_val, set_err, emplace, swap,
}

-- What a program does with an excepted that it has: `has_value()`, `nevermind()`, `value()`, a read by
-- `error()`, a move into a new one, in memory with this mark, of which the old one is destroyed; the
-- assignment of a value and of an error, `emplace` of a value that does not throw, and a swap with
-- another one, which is destroyed then.
pub data Action {ℓ} (T E : Type ℓ) : Type ℓ where
  look : Action T E
  excuse : Action T E
  use_value : Action T E
  read : Action T E
  hand_on : Bool → Action T E
  assign_value : T → Action T E
  assign_error : E → Action T E
  emplace_value : T → Action T E
  swap_with : Excepted T E → Action T E

module _ {ℓ} {T E : Type ℓ} (spent_val : T → T) (spent_err : E → E) where
  -- The destructors run when an exception leaves the function; a second one on the way is the first
  -- here, and does not happen by the theorems below.
  then_left :
      {A : Type ℓ} → Outcome E A → Outcome E (Unit {ℓ}) → Excepted T E → Outcome E (Excepted T E)
  then_left (raised e) end x = raised e
  then_left (done a) (raised e) x = raised e
  then_left (done a) (done u) x = done x

  unfoldable pub act : Action T E → Excepted T E → Outcome E (Excepted T E)
  unfolding then_left has_value nevermind value move_new destroy set_val set_err emplace swap
  act look x = done (has_value x).1
  act excuse x = done (nevermind x)
  act use_value x = then_left (value x).0 (done tt) (value x).1
  act read x = done x
  act (hand_on was) x =
      let (new, old) = move_new spent_val spent_err was x in then_left (done tt) (destroy old) new
  act (assign_value v) x = done (set_val v x)
  act (assign_error e) x = done (set_err e x)
  act (emplace_value v) x = done (emplace (some v) x).1
  act (swap_with y) x = let (this, other) = swap x y in then_left (done tt) (destroy other) this

  unfoldable pub life : List (Action T E) → Excepted T E → Outcome E (Unit {ℓ})
  unfolding destroy act
  life [] x = destroy x
  life (a ∷ rest) x = elim (act a x) [ raised e ↦ raised e | done y ↦ life rest y ]

module _ {ℓ} {T E : Type ℓ} where
  -- Actions that neither look nor take the error away, and actions that do neither ask for the value
  -- nor bring another error.
  abbrev pub Unlooked : List (Action T E) → Type 0
  Unlooked [] = Unit {0}
  Unlooked (read ∷ rest) = Unlooked rest
  Unlooked (hand_on was ∷ rest) = Unlooked rest
  Unlooked (look ∷ rest) = ⊥
  Unlooked (excuse ∷ rest) = ⊥
  Unlooked (use_value ∷ rest) = ⊥
  Unlooked (assign_value v ∷ rest) = ⊥
  Unlooked (assign_error e ∷ rest) = ⊥
  Unlooked (emplace_value v ∷ rest) = ⊥
  Unlooked (swap_with y ∷ rest) = ⊥

  abbrev pub Unused : List (Action T E) → Type 0
  Unused [] = Unit {0}
  Unused (look ∷ rest) = Unused rest
  Unused (excuse ∷ rest) = Unused rest
  Unused (read ∷ rest) = Unused rest
  Unused (hand_on was ∷ rest) = Unused rest
  Unused (use_value ∷ rest) = ⊥
  Unused (assign_value v ∷ rest) = ⊥
  Unused (assign_error e ∷ rest) = ⊥
  Unused (emplace_value v ∷ rest) = ⊥
  Unused (swap_with y ∷ rest) = ⊥

module _ {ℓ} {T E : Type ℓ} (spent_val : T → T) (spent_err : E → E) where
  abbrev held_error : E → Bool → Excepted T E
  held_error e b = record { held = inr e; checked = b }

  -- Until it is looked at, nothing becomes of an error, and what comes then is its fate.
  passes_on :
      (first rest : List (Action T E)) (e : E)
      → Unlooked first
      → life spent_val spent_err (first ++ rest) (held_error e false)
        ≡ life spent_val spent_err rest (held_error e false)
  unfolding life
  passes_on [] rest e u = refl
  passes_on (read ∷ first) rest e u = passes_on first rest e u
  passes_on (hand_on was ∷ first) rest e u = passes_on first rest e u
  passes_on (look ∷ first) rest e u = absurd u
  passes_on (excuse ∷ first) rest e u = absurd u
  passes_on (use_value ∷ first) rest e u = absurd u
  passes_on (assign_value v ∷ first) rest e u = absurd u
  passes_on (assign_error f ∷ first) rest e u = absurd u
  passes_on (emplace_value v ∷ first) rest e u = absurd u
  passes_on (swap_with y ∷ first) rest e u = absurd u

  silent_rest :
      (rest : List (Action T E)) (e : E)
      → Unused rest
      → life spent_val spent_err rest (held_error e true) ≡ done tt
  unfolding life
  silent_rest [] e u = refl
  silent_rest (read ∷ rest) e u = silent_rest rest e u
  silent_rest (look ∷ rest) e u = silent_rest rest e u
  silent_rest (excuse ∷ rest) e u = silent_rest rest e u
  silent_rest (hand_on was ∷ rest) e u = silent_rest rest e u
  silent_rest (use_value ∷ rest) e u = absurd u
  silent_rest (assign_value v ∷ rest) e u = absurd u
  silent_rest (assign_error f ∷ rest) e u = absurd u
  silent_rest (emplace_value v ∷ rest) e u = absurd u
  silent_rest (swap_with y ∷ rest) e u = absurd u

  held_value : T → Bool → Excepted T E
  held_value v b = record { held = inl v; checked = b }

  silent_value :
      (rest : List (Action T E)) (v : T) (b : Bool)
      → Unused rest
      → life spent_val spent_err rest (held_value v b) ≡ done tt
  unfolding life held_value
  silent_value [] v b u = refl
  silent_value (read ∷ rest) v b u = silent_value rest v b u
  silent_value (look ∷ rest) v b u = silent_value rest v true u
  silent_value (excuse ∷ rest) v b u = silent_value rest v true u
  silent_value (hand_on was ∷ rest) v b u = silent_value rest v was u
  silent_value (use_value ∷ rest) v b u = absurd u
  silent_value (assign_value w ∷ rest) v b u = absurd u
  silent_value (assign_error f ∷ rest) v b u = absurd u
  silent_value (emplace_value w ∷ rest) v b u = absurd u
  silent_value (swap_with y ∷ rest) v b u = absurd u

  -- The life of a new excepted with an error. After reads by `error()` and moves into new ones, which
  -- are destroyed in turn, the error is thrown by the destructor, and by `value()` if this comes
  -- then, and by the destructor of the other one if a swap with a value comes then. It is not
  -- thrown where `has_value()` comes after them, and also where an assignment of a value, `emplace`,
  -- or an assignment of another error that is looked at does, or a swap with an error that was
  -- looked at, if the one that comes is looked at too; provided that nothing after that asks for the
  -- value, replaces it or swaps it.
  pub life_lem :
      (first rest : List (Action T E)) (e f : E) (v : T) (b : Bool)
      → Unlooked first
      → Unused rest
      → (life spent_val spent_err first (construct_err e) ≡ raised e)
        × (life spent_val spent_err (first ++ use_value ∷ rest) (construct_err e) ≡ raised e)
        × (life spent_val spent_err
              (first ++ swap_with (record { held = inl v; checked = b }) ∷ rest)
              (construct_err e)
            ≡ raised e)
        × (life spent_val spent_err (first ++ look ∷ rest) (construct_err e) ≡ done tt)
        × (life spent_val spent_err (first ++ assign_value v ∷ rest) (construct_err e) ≡ done tt)
        × (life spent_val spent_err (first ++ emplace_value v ∷ rest) (construct_err e) ≡ done tt)
        × (life spent_val spent_err (first ++ assign_error f ∷ look ∷ rest) (construct_err e)
            ≡ done tt)
        × (life spent_val spent_err
              (first ++ swap_with (record { held = inr f; checked = true }) ∷ look ∷ rest)
              (construct_err e)
            ≡ done tt)
  unfolding construct_err
  life_lem first rest e f v b u used = (
    subst (λ l. life spent_val spent_err l (held_error e false) ≡ raised e) (append-nil first)
        (passes_on first [] e u ∙ (unfold life in refl)),
    passes_on first (use_value ∷ rest) e u ∙ (unfold life in refl),
    passes_on first (swap_with (record { held = inl v; checked = b }) ∷ rest) e u
        ∙ (unfold life in refl),
    passes_on first (look ∷ rest) e u ∙ (unfold life in silent_rest rest e used),
    passes_on first (assign_value v ∷ rest) e u
        ∙ (unfold life held_value in silent_value rest v false used),
    passes_on first (emplace_value v ∷ rest) e u
        ∙ (unfold life held_value in silent_value rest v false used),
    passes_on first (assign_error f ∷ look ∷ rest) e u ∙ (unfold life in silent_rest rest f used),
    passes_on first (swap_with (record { held = inr f; checked = true }) ∷ look ∷ rest) e u
        ∙ (unfold life in silent_rest rest f used),
  )
