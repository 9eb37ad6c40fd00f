-- ===== src/Expected/VoidForm.antt =====
-- The specialisation of src/panda/expected.h for no value, and that it is the general form at a type of
-- one value.
use panda_lib.Base.{◌≡◌, refl, Bool, true, false, Option, none, some, if◌then◌else◌}
use panda_lib.Expected
use panda_lib.Expected.{Slot, value, fault, dead, Expected, After, after}

-- The error where one lives, and the flag.
pub record VoidExpected {ℓ} (E : Type ℓ) : Type ℓ where
  pub error : Option E
  pub has_val : Bool

module _ {ℓ} {E : Type ℓ} where
  abbrev pub void_at : Option E → Bool → VoidExpected E
  void_at e b = record { error = e; has_val = b }

  unfoldable pub set_val : VoidExpected E → VoidExpected E
  set_val x = if x.has_val then x else void_at none true

  -- An error that is made; `none` is a constructor or an assignment that throws.
  made_error : Option E → Option E → VoidExpected E × Bool
  made_error old none = (void_at old false, true)
  made_error old (some e) = (void_at (some e) false, false)

  -- With it whether it has thrown.
  unfoldable pub set_err : Option E → VoidExpected E → VoidExpected E × Bool
  unfolding made_error
  set_err e x = if x.has_val then made_error none e else made_error x.error e

  -- `operator=`, with the copy of an error. No theorem starts from an error that does not live.
  unfoldable pub assign : (E → Option E) → VoidExpected E → VoidExpected E → VoidExpected E × Bool
  unfolding set_val set_err
  assign copy_err y x =
      let kept : VoidExpected E × Bool = elim y.error [
        | none ↦ (x, false)
        | some e ↦ set_err (copy_err e) x
      ] in
      if y.has_val then (set_val x, false) else kept

  -- `swap` of errors whose moves do not throw; the result is this one and the other.
  unfoldable pub swap : VoidExpected E → VoidExpected E → VoidExpected E × VoidExpected E
  swap x y =
      if x.has_val
      then (if y.has_val then (x, y) else (void_at y.error false, void_at none true))
      else if y.has_val
      then (void_at none true, void_at x.error false)
      else (void_at y.error false, void_at x.error false)

  -- What the members of the general form are.
  abbrev slot_of : Option E → Bool → Slot (Unit {ℓ}) E
  slot_of none true = value tt
  slot_of none false = dead
  slot_of (some e) b = fault e

  abbrev pub general : VoidExpected E → Expected (Unit {ℓ}) E
  general x = record { slot = slot_of x.error x.has_val; has_val = x.has_val }

  abbrev pub general_after : VoidExpected E × Bool → After (Unit {ℓ}) E
  general_after (x, t) = record { left = general x; threw = t }

  -- A value or an error.
  abbrev pub void : Option E → VoidExpected E
  void none = void_at none true
  void (some e) = void_at (some e) false

  set_err-general :
      (e h : Option E) → general_after (set_err e (void h)) ≡ Expected.set_err e (general (void h))
  unfolding set_err Expected.set_err
  set_err-general none none = refl
  set_err-general none (some f) = refl
  set_err-general (some e) none = refl
  set_err-general (some e) (some f) = refl

  -- On a value or an error each operation of the specialisation is that of the general form at a type
  -- of one value, also where the constructor of an error throws.
  pub operations_agree :
      (copy_err : E → Option E) (e h g : Option E)
      → (general_after (set_val (void h), false) ≡ Expected.set_val (some tt) (general (void h)))
        × (general_after (set_err e (void h)) ≡ Expected.set_err e (general (void h)))
        × (general_after (assign copy_err (void g) (void h))
            ≡ Expected.assign (λ u. some u) copy_err (general (void g)) (general (void h)))
        × ((general (swap (void h) (void g)).0, general (swap (void h) (void g)).1)
            ≡ Expected.swap (general (void h)) (general (void g)))
  unfolding set_val assign swap Expected.set_val Expected.assign Expected.swap
  operations_agree copy_err e none none = (refl, set_err-general e none, refl, refl)
  operations_agree copy_err e none (some b) =
      (refl, set_err-general e none, set_err-general (copy_err b) none, refl)
  operations_agree copy_err e (some a) none = (refl, set_err-general e (some a), refl, refl)
  operations_agree copy_err e (some a) (some b) =
      (refl, set_err-general e (some a), set_err-general (copy_err b) (some a), refl)
