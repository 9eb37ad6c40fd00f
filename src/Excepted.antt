-- ===== src/Excepted.antt =====
-- src/panda/excepted.h: a value or an error that must not be left unlooked at. The union with its flag
-- `_has_val` is a sum, `inr` of an error; the constructors and assignments of the two members do not
-- throw, except in `emplace`. `spent_val` and `spent_err` are what a move leaves of a value and an
-- error. An excepted with a value keeps whatever `_checked` was before, `was` in new memory.
pub mod Pending
pub mod Life
pub mod Chain
pub mod VoidForm
mod Examples
use panda_lib.Base.{Bool, true, false, not, ◌&&◌, Option, none, some, ◌⊎◌, inl, inr, if◌then◌else◌}

pub record Excepted {ℓ} (T E : Type ℓ) : Type ℓ where
  pub held : T ⊎ E
  pub checked : Bool

-- What an operation gives, or the exception that `exthrow` makes of an error.
pub data Outcome {ℓ} (E A : Type ℓ) : Type ℓ where
  done : A → Outcome E A
  raised : E → Outcome E A

module _ {ℓ} {T E : Type ℓ} where
  unfoldable pub construct_val : Bool → T → Excepted T E
  construct_val was v = record { held = inl v; checked = was }

  unfoldable pub construct_err : E → Excepted T E
  construct_err e = record { held = inr e; checked = false }

  unfoldable pub nevermind : Excepted T E → Excepted T E
  nevermind x = record { held = x.held; checked = true }

  abbrev has_val : T ⊎ E → Bool
  has_val (inl v) = true
  has_val (inr e) = false

  -- `has_value` and `operator bool`
  unfoldable pub has_value : Excepted T E → Bool × Excepted T E
  unfolding nevermind
  has_value x = (has_val x.held, nevermind x)

  get_val : T ⊎ E → Outcome E T
  get_val (inl v) = done v
  get_val (inr e) = raised e

  unfoldable pub value : Excepted T E → Outcome E T × Excepted T E
  unfolding get_val nevermind
  value x = (get_val x.held, nevermind x)

  or_val : T → T ⊎ E → T
  or_val d (inl v) = v
  or_val d (inr e) = d

  unfoldable pub value_or : T → Excepted T E → T × Excepted T E
  unfolding or_val nevermind
  value_or d x = (or_val d x.held, nevermind x)

  -- `~excepted`
  unfoldable pub destroy : Excepted T E → Outcome E (Unit {ℓ})
  destroy x = elim x.held [ inl v ↦ done tt | inr e ↦ if x.checked then done tt else raised e ]

  unfoldable pub set_val : T → Excepted T E → Excepted T E
  set_val v x = record { held = inl v; checked = x.checked }

  unfoldable pub set_err : E → Excepted T E → Excepted T E
  set_err e x = record { held = inr e; checked = false }

  -- The arguments are those of a constructor of the value; `none` is one that throws, after which the
  -- error is put back.
  unfoldable pub emplace : Option T → Excepted T E → Bool × Excepted T E
  emplace none x = (false, x)
  emplace (some v) x = (true, record { held = inl v; checked = x.checked })

  -- `swap`; the result is this one and the other.
  unfoldable pub swap : Excepted T E → Excepted T E → Excepted T E × Excepted T E
  swap x y = elim x.held [
    | inl v ↦ elim y.held [
      | inl w ↦ (
        record { held = inl w; checked = x.checked },
        record { held = inl v; checked = y.checked },
      )
      | inr f ↦ (
        record { held = inr f; checked = y.checked },
        record { held = inl v; checked = y.checked },
      )
    ]
    | inr e ↦ elim y.held [
      | inl w ↦ (
        record { held = inl w; checked = x.checked },
        record { held = inr e; checked = x.checked },
      )
      | inr f ↦ (
        record { held = inr f; checked = x.checked },
        record { held = inr e; checked = y.checked },
      )
    ]
  ]

  module _ (spent_val : T → T) (spent_err : E → E) where
    -- What a move leaves of an excepted.
    unfoldable pub moved_from : Excepted T E → Excepted T E
    moved_from x = elim x.held [
      | inl v ↦ record { held = inl (spent_val v); checked = x.checked }
      | inr e ↦ record { held = inr (spent_err e); checked = true }
    ]

    -- `excepted (excepted&& ex)`: the new one, and what is left of the old one.
    unfoldable pub move_new : Bool → Excepted T E → Excepted T E × Excepted T E
    unfolding construct_val moved_from
    move_new was x = (
      elim x.held [
        | inl v ↦ construct_val was v
        | inr e ↦ record { held = inr e; checked = x.checked }
      ],
      moved_from x,
    )

    take_over : Excepted T E → Excepted T E → Excepted T E
    unfolding set_val
    take_over x y = elim x.held [
      | inl v ↦ set_val v y
      | inr e ↦ record { held = inr e; checked = x.checked }
    ]

    -- `operator= (excepted&&)`: of x to y, another one.
    unfoldable pub assign_move :
        Excepted T E → Excepted T E → Outcome E (Excepted T E × Excepted T E)
    unfolding take_over moved_from
    assign_move x y =
        if not (has_val y.held) && not y.checked
        then elim y.held [ inl v ↦ done (take_over x y, moved_from x) | inr e ↦ raised e ]
        else done (take_over x y, moved_from x)

-- `and_then`, `map` and `map_error` of a function that does not throw.
module _ {ℓ} {T E : Type ℓ} where
  unfoldable pub and_then :
      {U : Type ℓ} → (T → Excepted U E) → Excepted T E → Excepted U E × Excepted T E
  unfolding construct_err nevermind
  and_then f x = (elim x.held [ inl v ↦ f v | inr e ↦ construct_err e ], nevermind x)

  unfoldable pub map_val :
      {U : Type ℓ} → Bool → (T → U) → Excepted T E → Excepted U E × Excepted T E
  unfolding construct_val construct_err nevermind
  map_val was f x =
      (elim x.held [ inl v ↦ construct_val was (f v) | inr e ↦ construct_err e ], nevermind x)

  unfoldable pub map_error :
      {F : Type ℓ} → Bool → (E → F) → Excepted T E → Excepted T F × Excepted T E
  unfolding construct_val construct_err nevermind
  map_error was f x =
      (elim x.held [ inl v ↦ construct_val was v | inr e ↦ construct_err (f e) ], nevermind x)

  -- `operator==`, of two of them, with a value and with an unexpected.
  same_held : (T → T → Bool) → (E → E → Bool) → T ⊎ E → T ⊎ E → Bool
  same_held eq eq_err (inl v) (inl w) = eq v w
  same_held eq eq_err (inl v) (inr f) = false
  same_held eq eq_err (inr e) (inl w) = false
  same_held eq eq_err (inr e) (inr f) = eq_err e f

  unfoldable pub is_equal :
      (T → T → Bool)
      → (E → E → Bool)
      → Excepted T E
      → Excepted T E
      → Bool × Excepted T E × Excepted T E
  unfolding same_held nevermind
  is_equal eq eq_err x y = (same_held eq eq_err x.held y.held, nevermind x, nevermind y)

  unfoldable pub is_value : (T → T → Bool) → T → Excepted T E → Bool × Excepted T E
  unfolding nevermind
  is_value eq w x = (elim x.held [ inl v ↦ eq v w | inr e ↦ false ], nevermind x)

  unfoldable pub is_unexpected : (E → E → Bool) → E → Excepted T E → Bool × Excepted T E
  unfolding nevermind
  is_unexpected eq_err f x = (elim x.held [ inl v ↦ false | inr e ↦ eq_err e f ], nevermind x)
