-- ===== src/Excepted/VoidForm.antt =====
-- The specialisation of src/panda/excepted.h for no value, and that it is the general form at a type of
-- one value.
use panda_lib.Base.{
  ◌≡◌, refl, Bool, true, false, not, ◌⊎◌, inl, inr, Option, none, some, if◌then◌else◌,
}
use panda_lib.Excepted
use panda_lib.Excepted.{Excepted, Outcome, done, raised}

-- `none` of an error is `_has_val`.
pub record VoidExcepted {ℓ} (E : Type ℓ) : Type ℓ where
  pub fault : Option E
  pub checked : Bool

module _ {ℓ} {E : Type ℓ} where
  unfoldable pub construct_err : E → VoidExcepted E
  construct_err e = record { fault = some e; checked = false }

  unfoldable pub nevermind : VoidExcepted E → VoidExcepted E
  nevermind x = record { fault = x.fault; checked = true }

  unfoldable pub destroy : VoidExcepted E → Outcome E (Unit {ℓ})
  destroy x = elim x.fault [ none ↦ done tt | some e ↦ if x.checked then done tt else raised e ]

  unfoldable pub set_val : VoidExcepted E → VoidExcepted E
  set_val x = record { fault = none; checked = x.checked }

  unfoldable pub set_err : E → VoidExcepted E → VoidExcepted E
  set_err e x = record { fault = some e; checked = false }

  -- `swap`; the result is this one and the other.
  unfoldable pub swap : VoidExcepted E → VoidExcepted E → VoidExcepted E × VoidExcepted E
  swap x y = elim x.fault [
    | none ↦ elim y.fault [
      | none ↦ (x, y)
      | some f ↦ (
        record { fault = some f; checked = y.checked },
        record { fault = none; checked = y.checked },
      )
    ]
    | some e ↦ elim y.fault [
      | none ↦ (
        record { fault = none; checked = x.checked },
        record { fault = some e; checked = x.checked },
      )
      | some f ↦ (
        record { fault = some f; checked = x.checked },
        record { fault = some e; checked = y.checked },
      )
    ]
  ]

  module _ (spent_err : E → E) where
    unfoldable pub moved_from : VoidExcepted E → VoidExcepted E
    moved_from x = elim x.fault [
      | none ↦ x
      | some e ↦ record { fault = some (spent_err e); checked = true }
    ]

    unfoldable pub move_new : Bool → VoidExcepted E → VoidExcepted E × VoidExcepted E
    unfolding moved_from
    move_new was x = (
      elim x.fault [
        | none ↦ record { fault = none; checked = was }
        | some e ↦ record { fault = some e; checked = x.checked }
      ],
      moved_from x,
    )

    take_over : VoidExcepted E → VoidExcepted E → VoidExcepted E
    unfolding set_val
    take_over x y = elim x.fault [
      | none ↦ set_val y
      | some e ↦ record { fault = some e; checked = x.checked }
    ]

    unfoldable pub assign_move :
        VoidExcepted E → VoidExcepted E → Outcome E (VoidExcepted E × VoidExcepted E)
    unfolding take_over moved_from
    assign_move x y = elim y.fault [
      | none ↦ done (take_over x y, moved_from x)
      | some e ↦ if not y.checked then raised e else done (take_over x y, moved_from x)
    ]

module _ {ℓ} {E : Type ℓ} where
  unfoldable pub and_then :
      {U : Type ℓ} → Excepted U E → VoidExcepted E → Excepted U E × VoidExcepted E
  unfolding Excepted.construct_err nevermind
  and_then f x = (elim x.fault [ none ↦ f | some e ↦ Excepted.construct_err e ], nevermind x)

  unfoldable pub map_val : {U : Type ℓ} → Bool → U → VoidExcepted E → Excepted U E × VoidExcepted E
  unfolding Excepted.construct_val Excepted.construct_err nevermind
  map_val was u x = (
    elim x.fault [ none ↦ Excepted.construct_val was u | some e ↦ Excepted.construct_err e ],
    nevermind x,
  )

  unfoldable pub map_error :
      {F : Type ℓ} → Bool → (E → F) → VoidExcepted E → VoidExcepted F × VoidExcepted E
  unfolding construct_err nevermind
  map_error was f x = (
    elim x.fault [ none ↦ record { fault = none; checked = was } | some e ↦ construct_err (f e) ],
    nevermind x,
  )

  unfoldable pub is_equal :
      (E → E → Bool) → VoidExcepted E → VoidExcepted E → Bool × VoidExcepted E × VoidExcepted E
  unfolding nevermind
  is_equal eq_err x y = (
    elim x.fault [
      | none ↦ elim y.fault [ none ↦ true | some f ↦ false ]
      | some e ↦ elim y.fault [ none ↦ false | some f ↦ eq_err e f ]
    ],
    nevermind x,
    nevermind y,
  )

module _ {ℓ} {E : Type ℓ} where
  held_of : Option E → Unit {ℓ} ⊎ E
  held_of none = inl tt
  held_of (some e) = inr e

  -- An excepted without a value as one with a value of one kind.
  pub general : VoidExcepted E → Excepted (Unit {ℓ}) E
  unfolding held_of
  general x = record { held = held_of x.fault; checked = x.checked }

  abbrev pub both : VoidExcepted E × VoidExcepted E → Excepted (Unit {ℓ}) E × Excepted (Unit {ℓ}) E
  both (x, y) = (general x, general y)

  abbrev pub outcome :
      Outcome E (VoidExcepted E × VoidExcepted E)
      → Outcome E (Excepted (Unit {ℓ}) E × Excepted (Unit {ℓ}) E)
  outcome (done (x, y)) = done (general x, general y)
  outcome (raised e) = raised e

  abbrev pub compared :
      Bool × VoidExcepted E × VoidExcepted E → Bool × Excepted (Unit {ℓ}) E × Excepted (Unit {ℓ}) E
  compared (b, x, y) = (b, general x, general y)

  abbrev at : Option E → Bool → VoidExcepted E
  at f b = record { fault = f; checked = b }

module _ {ℓ} {E : Type ℓ} where
  destroy-at : (f : Option E) (b : Bool) → destroy (at f b) ≡ Excepted.destroy (general (at f b))
  unfolding general destroy Excepted.destroy
  destroy-at none b = refl
  destroy-at (some e) b = refl

  swap-at :
      (f g : Option E) (b c : Bool)
      → both (swap (at f b) (at g c)) ≡ Excepted.swap (general (at f b)) (general (at g c))
  unfolding general swap Excepted.swap
  swap-at none none b c = refl
  swap-at none (some f) b c = refl
  swap-at (some e) none b c = refl
  swap-at (some e) (some f) b c = refl

  move_new-at :
      (spent_err : E → E) (was : Bool) (f : Option E) (b : Bool)
      → both (move_new spent_err was (at f b))
        ≡ Excepted.move_new (λ u. u) spent_err was (general (at f b))
  unfolding general move_new Excepted.move_new
  move_new-at s was none b = refl
  move_new-at s was (some e) b = refl

  assign_move-at :
      (spent_err : E → E) (f g : Option E) (b c : Bool)
      → outcome (assign_move spent_err (at f b) (at g c))
        ≡ Excepted.assign_move (λ u. u) spent_err (general (at f b)) (general (at g c))
  unfolding general assign_move Excepted.assign_move
  assign_move-at s none none b c = refl
  assign_move-at s (some e) none b c = refl
  assign_move-at s none (some f) b true = refl
  assign_move-at s none (some f) b false = refl
  assign_move-at s (some e) (some f) b true = refl
  assign_move-at s (some e) (some f) b false = refl

  and_then-at :
      {U : Type ℓ} (r : Excepted U E) (f : Option E) (b : Bool)
      → ((and_then r (at f b)).0 ≡ (Excepted.and_then (λ u. r) (general (at f b))).0)
        × (general (and_then r (at f b)).1 ≡ (Excepted.and_then (λ u. r) (general (at f b))).1)
  unfolding general and_then nevermind Excepted.and_then Excepted.nevermind
  and_then-at r none b = (refl, refl)
  and_then-at r (some e) b = (refl, refl)

  map_val-at :
      {U : Type ℓ} (was : Bool) (u : U) (f : Option E) (b : Bool)
      → ((map_val was u (at f b)).0 ≡ (Excepted.map_val was (λ z. u) (general (at f b))).0)
        × (general (map_val was u (at f b)).1
            ≡ (Excepted.map_val was (λ z. u) (general (at f b))).1)
  unfolding general map_val nevermind Excepted.map_val Excepted.nevermind
  map_val-at was u none b = (refl, refl)
  map_val-at was u (some e) b = (refl, refl)

  map_error-at :
      {F : Type ℓ} (was : Bool) (g : E → F) (f : Option E) (b : Bool)
      → (general (map_error was g (at f b)).0 ≡ (Excepted.map_error was g (general (at f b))).0)
        × (general (map_error was g (at f b)).1 ≡ (Excepted.map_error was g (general (at f b))).1)
  unfolding general map_error construct_err nevermind Excepted.map_error Excepted.nevermind
  map_error-at was g none b = (refl, refl)
  map_error-at was g (some e) b = (refl, refl)

  is_equal-at :
      (eq_err : E → E → Bool) (f g : Option E) (b c : Bool)
      → compared (is_equal eq_err (at f b) (at g c))
        ≡ Excepted.is_equal (λ u w. true) eq_err (general (at f b)) (general (at g c))
  unfolding general is_equal nevermind Excepted.is_equal Excepted.nevermind
  is_equal-at eq none none b c = refl
  is_equal-at eq none (some f) b c = refl
  is_equal-at eq (some e) none b c = refl
  is_equal-at eq (some e) (some f) b c = refl

  -- Destruction, the setters of a value and of an error, swap, construction and assignment by move,
  -- `and_then`, `map`, `map_error` and `operator==` of the specialisation are those of the general
  -- form for a type of one value, on the contents, the marks, and what is thrown.
  pub operations_general :
      {U F : Type ℓ} (spent_err : E → E) (was : Bool) (f : Excepted U E) (u : U) (g : E → F) (e : E)
      (eq_err : E → E → Bool) (x y : VoidExcepted E)
      → (destroy x ≡ Excepted.destroy (general x))
        × (general (set_val x) ≡ Excepted.set_val tt (general x))
        × (general (set_err e x) ≡ Excepted.set_err e (general x))
        × (both (swap x y) ≡ Excepted.swap (general x) (general y))
        × (both (move_new spent_err was x) ≡ Excepted.move_new (λ z. z) spent_err was (general x))
        × (outcome (assign_move spent_err x y)
            ≡ Excepted.assign_move (λ z. z) spent_err (general x) (general y))
        × ((and_then f x).0 ≡ (Excepted.and_then (λ z. f) (general x)).0)
        × (general (and_then f x).1 ≡ (Excepted.and_then (λ z. f) (general x)).1)
        × ((map_val was u x).0 ≡ (Excepted.map_val was (λ z. u) (general x)).0)
        × (general (map_val was u x).1 ≡ (Excepted.map_val was (λ z. u) (general x)).1)
        × (general (map_error was g x).0 ≡ (Excepted.map_error was g (general x)).0)
        × (general (map_error was g x).1 ≡ (Excepted.map_error was g (general x)).1)
        × (compared (is_equal eq_err x y)
            ≡ Excepted.is_equal (λ z w. true) eq_err (general x) (general y))
  unfolding general set_val set_err Excepted.set_val Excepted.set_err
  operations_general s was f u g e eq_err x y = (
    destroy-at x.fault x.checked,
    refl,
    refl,
    swap-at x.fault y.fault x.checked y.checked,
    move_new-at s was x.fault x.checked,
    assign_move-at s x.fault y.fault x.checked y.checked,
    (and_then-at f x.fault x.checked).0,
    (and_then-at f x.fault x.checked).1,
    (map_val-at was u x.fault x.checked).0,
    (map_val-at was u x.fault x.checked).1,
    (map_error-at was g x.fault x.checked).0,
    (map_error-at was g x.fault x.checked).1,
    is_equal-at eq_err x.fault y.fault x.checked y.checked,
  )
