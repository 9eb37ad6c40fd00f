-- ===== src/Expected/Chain.antt =====
-- Access, construction, the combinators and the comparisons of src/panda/expected.h. `none` is a read
-- of the member of the union that does not live; the functions that are passed in do not throw.
use panda_lib.Base.{◌≡◌, refl, Bool, false, not, Option, none, some, ◌⊎◌, inl, inr, if◌then◌else◌}
use panda_lib.Expected.{Slot, value, fault, dead, Expected, holding}

abbrev on {ℓ μ} : {A : Type ℓ} {B : Type μ} → (A → B) → Option A → Option B
on f none = none
on f (some a) = some (f a)

module _ {ℓ} {T E : Type ℓ} where
  abbrev value_of : Slot T E → Option T
  value_of (value v) = some v
  value_of (fault e) = none
  value_of dead = none

  abbrev fault_of : Slot T E → Option E
  fault_of (value v) = none
  fault_of (fault e) = some e
  fault_of dead = none

  -- `value`: the value, or the exception with the error.
  unfoldable pub get_value : Expected T E → Option (T ⊎ E)
  get_value x = if x.has_val then on inl (value_of x.slot) else on inr (fault_of x.slot)

  unfoldable pub value_or : T → Expected T E → Option T
  value_or v x = if x.has_val then value_of x.slot else some v

  -- The constructor from another one, where the copy of a member may throw, which is the inner
  -- `none`.
  unfoldable pub construct :
      (T → Option T) → (E → Option E) → Expected T E → Option (Option (Expected T E))
  construct copy_val copy_err x =
      if x.has_val
      then on (λ v. on (λ w. holding (inl w)) (copy_val v)) (value_of x.slot)
      else on (λ e. on (λ w. holding (inr w)) (copy_err e)) (fault_of x.slot)

  unfoldable pub or_else : (E → Expected T E) → Expected T E → Option (Expected T E)
  or_else f x = if x.has_val then some x else on f (fault_of x.slot)

  module _ {U : Type ℓ} where
    unfoldable pub and_then : (T → Expected U E) → Expected T E → Option (Expected U E)
    and_then f x =
        if x.has_val then on f (value_of x.slot) else on (λ e. holding (inr e)) (fault_of x.slot)

    unfoldable pub map_val : (T → U) → Expected T E → Option (Expected U E)
    map_val f x =
        if x.has_val
        then on (λ v. holding (inl (f v))) (value_of x.slot)
        else on (λ e. holding (inr e)) (fault_of x.slot)

    unfoldable pub map_error : (E → U) → Expected T E → Option (Expected T U)
    map_error f x =
        if x.has_val
        then on (λ v. holding (inl v)) (value_of x.slot)
        else on (λ e. holding (inr (f e))) (fault_of x.slot)

-- `==` with the tests of the members.
same_members {ℓ} :
    {T E : Type ℓ} → (T → T → Bool) → (E → E → Bool) → Slot T E → Slot T E → Option Bool
same_members same_val same_err (value v) (value w) = some (same_val v w)
same_members same_val same_err (fault e) (fault f) = some (same_err e f)
same_members same_val same_err (value v) (fault f) = none
same_members same_val same_err (fault e) (value w) = none
same_members same_val same_err dead y = none
same_members same_val same_err x dead = none

unfoldable pub is_equal {ℓ} :
    {T E : Type ℓ} → (T → T → Bool) → (E → E → Bool) → Expected T E → Expected T E → Option Bool
unfolding same_members
is_equal same_val same_err x y =
    if (if x.has_val then not y.has_val else y.has_val)
    then some false
    else same_members same_val same_err x.slot y.slot

abbrev pub then_do {ℓ μ} : {A : Type ℓ} {B : Type μ} → (A → Option B) → Option A → Option B
then_do f none = none
then_do f (some a) = f a

-- The results of all these on a value or an error, in which no member is read that does not live.
pub record IsMonad {ℓ} {T U V E : Type ℓ} (h : T ⊎ E) (f : T → U ⊎ E) (g : U → V ⊎ E) : Type ℓ where
  pub start :
      (v : T) → and_then {E = E} (λ w. holding (f w)) (holding (inl v)) ≡ some (holding (f v))
  pub chain :
      then_do (and_then (λ u. holding (g u))) (and_then (λ w. holding (f w)) (holding h))
      ≡ (elim h [
        | inl v ↦ and_then (λ u. holding (g u)) (holding (f v))
        | inr e ↦ some (holding (inr e))
      ])
  pub mapped :
      (k : T → U) → map_val k (holding h) ≡ and_then (λ w. holding {E = E} (inl (k w))) (holding h)
  pub error_side :
      (m : E → T ⊎ E)
      → or_else (λ e. holding (m e)) (holding h)
        ≡ some (holding (elim h [ inl v ↦ inl v | inr e ↦ m e ]))

-- `and_then` is the call on a value and leaves an error, chains of it do not depend on how they are
-- nested, `map` is `and_then` with a value, and `or_else` is the call on an error.
pub and_then-IsMonad {ℓ} :
    {T U V E : Type ℓ} (h : T ⊎ E) (f : T → U ⊎ E) (g : U → V ⊎ E) → IsMonad h f g
and_then-IsMonad (inl v) f g = record {
  start = λ w. (unfold and_then in refl);
  chain = (unfold and_then in refl);
  mapped = λ k. (unfold and_then map_val in refl);
  error_side = λ m. (unfold or_else in refl);
}
and_then-IsMonad (inr e) f g = record {
  start = λ w. (unfold and_then in refl);
  chain = (unfold and_then in refl);
  mapped = λ k. (unfold and_then map_val in refl);
  error_side = λ m. (unfold or_else in refl);
}
