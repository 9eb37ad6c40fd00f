-- ===== src/Optional.antt =====
-- src/panda/optional.h: a value that may be missing. The storage and the pointer to it are one
-- `Option`; the tests and the orders of the values are arguments.
pub mod Laws
mod Examples
use panda_lib.Base.{Bool, true, false, not, Option, none, some, if◌then◌else◌}

module _ {ℓ} {A : Type ℓ} where
  pub has_value : Option A → Bool
  has_value none = false
  has_value (some a) = true

  unfoldable pub value_or : A → Option A → A
  value_or d none = d
  value_or d (some a) = a

  unfoldable pub and_then {μ} : {B : Type μ} → (A → Option B) → Option A → Option B
  and_then f none = none
  and_then f (some a) = f a

  unfoldable pub transform {μ} : {B : Type μ} → (A → B) → Option A → Option B
  transform f none = none
  transform f (some a) = some (f a)

  unfoldable pub or_else : Option A → Option A → Option A
  or_else f none = f
  or_else f (some a) = some a

  -- `(lhs && rhs) ? (*lhs == *rhs) : (lhs || rhs ? false : true)`
  unfoldable pub is_equal : (A → A → Bool) → Option A → Option A → Bool
  is_equal eq none none = true
  is_equal eq none (some b) = false
  is_equal eq (some a) none = false
  is_equal eq (some a) (some b) = eq a b

  unfoldable pub is_unequal : (A → A → Bool) → Option A → Option A → Bool
  unfolding is_equal
  is_unequal eq x y = not (is_equal eq x y)

  -- `(lhs && rhs) ? (*lhs < *rhs) : (rhs ? true : false)`
  unfoldable pub is_less : (A → A → Bool) → Option A → Option A → Bool
  is_less lt (some a) (some b) = lt a b
  is_less lt none (some b) = true
  is_less lt none none = false
  is_less lt (some a) none = false

  -- `(lhs && rhs) ? (*lhs < *rhs) : (lhs ? false : true)`
  unfoldable pub is_at_most : (A → A → Bool) → Option A → Option A → Bool
  is_at_most lt (some a) (some b) = lt a b
  is_at_most lt none (some b) = true
  is_at_most lt none none = true
  is_at_most lt (some a) none = false

  -- `(lhs && rhs) ? (*lhs < *rhs) : (lhs ? true : false)`
  unfoldable pub is_greater : (A → A → Bool) → Option A → Option A → Bool
  is_greater lt (some a) (some b) = lt a b
  is_greater lt none (some b) = false
  is_greater lt none none = false
  is_greater lt (some a) none = true

  -- `(lhs && rhs) ? (*lhs < *rhs) : (rhs ? false : true)`
  unfoldable pub is_at_least : (A → A → Bool) → Option A → Option A → Bool
  is_at_least lt (some a) (some b) = lt a b
  is_at_least lt none (some b) = false
  is_at_least lt none none = true
  is_at_least lt (some a) none = true

  -- The comparisons with a value. `rel` is the same comparison of values.
  unfoldable pub opt_equal : (A → A → Bool) → Option A → A → Bool
  opt_equal rel none v = false
  opt_equal rel (some a) v = rel a v

  unfoldable pub opt_less : (A → A → Bool) → Option A → A → Bool
  opt_less rel none v = true
  opt_less rel (some a) v = rel a v

  unfoldable pub less_opt : (A → A → Bool) → A → Option A → Bool
  less_opt rel v none = false
  less_opt rel v (some a) = rel v a

  unfoldable pub opt_at_most : (A → A → Bool) → Option A → A → Bool
  opt_at_most rel none v = true
  opt_at_most rel (some a) v = rel a v

  unfoldable pub at_most_opt : (A → A → Bool) → A → Option A → Bool
  at_most_opt rel v none = false
  at_most_opt rel v (some a) = rel v a

  unfoldable pub opt_greater : (A → A → Bool) → Option A → A → Bool
  opt_greater rel none v = false
  opt_greater rel (some a) v = rel a v

  unfoldable pub greater_opt : (A → A → Bool) → A → Option A → Bool
  greater_opt rel v none = true
  greater_opt rel v (some a) = rel v a

  unfoldable pub opt_at_least : (A → A → Bool) → Option A → A → Bool
  opt_at_least rel none v = false
  opt_at_least rel (some a) v = rel a v

  unfoldable pub at_least_opt : (A → A → Bool) → A → Option A → Bool
  at_least_opt rel v none = true
  at_least_opt rel v (some a) = rel v a
