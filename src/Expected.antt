-- ===== src/Expected.antt =====
-- src/panda/expected.h: a value or an error in one place. `Slot` is what lives in the union, and
-- `_has_val` is kept beside it as in the source, so that the two can disagree. A value that is
-- constructed is an `Option`: `none` is a constructor that throws. An assignment that throws leaves
-- the old value.
pub mod Laws
pub mod Chain
pub mod VoidForm
mod Examples
use panda_lib.Base.{Bool, true, false, Option, none, some, if◌then◌else◌, ◌⊎◌, inl, inr}

pub data Slot {ℓ} (T E : Type ℓ) : Type ℓ where
  value : T → Slot T E
  fault : E → Slot T E
  dead : Slot T E

pub record Expected {ℓ} (T E : Type ℓ) : Type ℓ where
  pub slot : Slot T E
  pub has_val : Bool

-- The state after an operation, and whether it has thrown.
pub record After {ℓ} (T E : Type ℓ) : Type ℓ where
  pub left : Expected T E
  pub threw : Bool

module _ {ℓ} {T E : Type ℓ} where
  abbrev pub after : Slot T E → Bool → Bool → After T E
  after s b t = record { left = record { slot = s; has_val = b }; threw = t }

  -- A state in which the flag is true to the union.
  abbrev pub holding : T ⊎ E → Expected T E
  holding (inl v) = record { slot = value v; has_val = true }
  holding (inr e) = record { slot = fault e; has_val = false }

  -- `::new` in the place of a dead member.
  construct_value : Slot T E → Bool → Option T → After T E
  construct_value old b none = after old b true
  construct_value old b (some v) = after (value v) b false

  construct_fault : Slot T E → Bool → Option E → After T E
  construct_fault old b none = after old b true
  construct_fault old b (some e) = after (fault e) b false

  unfoldable pub set_val : Option T → Expected T E → After T E
  unfolding construct_value
  set_val v x = if x.has_val then construct_value x.slot true v else construct_value dead true v

  unfoldable pub set_err : Option E → Expected T E → After T E
  unfolding construct_fault
  set_err e x = if x.has_val then construct_fault dead false e else construct_fault x.slot false e

  -- The handler of `emplace`: the error is put back.
  put_back : Slot T E → Option T → After T E
  put_back tmp none = after tmp false true
  put_back tmp (some v) = after (value v) true false

  unfoldable pub emplace : Option T → Expected T E → After T E
  unfolding construct_value put_back
  emplace v x = if x.has_val then construct_value x.slot true v else put_back x.slot v

  -- `operator=`, with the copy constructors of the members. No theorem starts from a dead member,
  -- which the source would read.
  unfoldable pub assign : (T → Option T) → (E → Option E) → Expected T E → Expected T E → After T E
  unfolding set_val set_err
  assign copy_val copy_err y x = elim y.slot [
    | value v ↦ set_val (copy_val v) x
    | fault e ↦ set_err (copy_err e) x
    | dead ↦ record { left = x; threw = false }
  ]

  -- `swap` of members whose moves do not throw.
  unfoldable pub swap_filled : Expected T E → Expected T E → Expected T E × Expected T E
  swap_filled x y =
      if y.has_val
      then (record { slot = y.slot; has_val = true }, record { slot = x.slot; has_val = true })
      else (record { slot = y.slot; has_val = false }, record { slot = x.slot; has_val = true })

  unfoldable pub swap : Expected T E → Expected T E → Expected T E × Expected T E
  unfolding swap_filled
  swap x y =
      if x.has_val
      then swap_filled x y
      else if y.has_val
      then ((swap_filled y x).1, (swap_filled y x).0)
      else (record { slot = y.slot; has_val = false }, record { slot = x.slot; has_val = false })
