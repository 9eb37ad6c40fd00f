-- ===== src/Optional/Laws.antt =====
-- The comparisons of src/panda/optional.h: where they order the values with the missing one before
-- all others, and where they do not.
use panda_lib.Base.{◌≡◌, refl, ap, Bool, true, false, not, Option, none, some}
use panda_lib.Optional.{
  is_equal, is_less, is_at_most, is_greater, is_at_least, opt_less, less_opt, opt_greater,
  greater_opt, opt_at_most, at_most_opt, opt_at_least, at_least_opt,
}

-- A strict order of values, and the test of equality.
pub record IsOrder {ℓ} {A : Type ℓ} (eq lt : A → A → Bool) : Type ℓ where
  pub eq_sound : (a b : A) → eq a b ≡ true → a ≡ b
  pub eq_refl : (a : A) → eq a a ≡ true
  pub irreflexive : (a : A) → lt a a ≡ false
  pub transitive : (a b c : A) → lt a b ≡ true → lt b c ≡ true → lt a c ≡ true
  pub connected : (a b : A) → eq a b ≡ false → lt a b ≡ false → lt b a ≡ true

module _ {ℓ} {A : Type ℓ} (eq lt : A → A → Bool) where
  module _ (o : IsOrder eq lt) where
    sound : (x y : Option A) → is_equal eq x y ≡ true → x ≡ y
    unfolding is_equal
    sound none none e = refl
    sound none (some b) e = cc
    sound (some a) none e = cc
    sound (some a) (some b) e = ap some (o.eq_sound a b e)

    same : (x : Option A) → is_equal eq x x ≡ true
    unfolding is_equal
    same none = refl
    same (some a) = o.eq_refl a

    not_below : (x : Option A) → is_less lt x x ≡ false
    unfolding is_less
    not_below none = refl
    not_below (some a) = o.irreflexive a

    below_below :
        (x y z : Option A) → is_less lt x y ≡ true → is_less lt y z ≡ true → is_less lt x z ≡ true
    unfolding is_less
    below_below none none z e f = f
    below_below none (some b) none e f = cc
    below_below none (some b) (some c) e f = refl
    below_below (some a) none z e f = cc
    below_below (some a) (some b) none e f = cc
    below_below (some a) (some b) (some c) e f = o.transitive a b c e f

    one_below :
        (x y : Option A) → is_equal eq x y ≡ false → is_less lt x y ≡ false → is_less lt y x ≡ true
    unfolding is_equal is_less
    one_below none none e f = cc
    one_below none (some b) e f = cc
    one_below (some a) none e f = refl
    one_below (some a) (some b) e f = o.connected a b e f

  -- `==` and `<` of optionals of ordered values are an equality test and a strict order.
  pub optional-IsOrder : IsOrder eq lt → IsOrder (is_equal eq) (is_less lt)
  optional-IsOrder o = record {
    eq_sound = sound o;
    eq_refl = same o;
    irreflexive = not_below o;
    transitive = below_below o;
    connected = one_below o;
  }

  -- `<=` and `>=` of an optional with itself are false where it has a value, and `>` of two values is
  -- their `<`.
  pub relations_confused :
      (a b : A)
      → IsOrder eq lt
      → (is_at_most lt (some a) (some a) ≡ false)
        × (is_at_least lt (some a) (some a) ≡ false)
        × (is_greater lt (some a) (some b) ≡ is_less lt (some a) (some b))
  unfolding is_at_most is_at_least is_greater is_less
  relations_confused a b o = (o.irreflexive a, o.irreflexive a, refl)

  -- The comparisons of an optional with a value agree with the order of optionals: `<` with `is_less`,
  -- and the other three, given the matching relations of values, with it or its negation.
  pub values_agree :
      (le : A → A → Bool)
      → ((a b : A) → le a b ≡ not (lt b a))
      → (x : Option A) (v : A)
      → (opt_less lt x v ≡ is_less lt x (some v))
        × (less_opt lt v x ≡ is_less lt (some v) x)
        × (opt_greater (λ a b. lt b a) x v ≡ is_less lt (some v) x)
        × (greater_opt (λ a b. lt b a) v x ≡ is_less lt x (some v))
        × (opt_at_most le x v ≡ not (is_less lt (some v) x))
        × (at_most_opt le v x ≡ not (is_less lt x (some v)))
        × (opt_at_least (λ a b. le b a) x v ≡ not (is_less lt x (some v)))
        × (at_least_opt (λ a b. le b a) v x ≡ not (is_less lt (some v) x))
  unfolding opt_less less_opt opt_greater greater_opt opt_at_most at_most_opt opt_at_least
      at_least_opt is_less
  values_agree le e none v = (refl, refl, refl, refl, refl, refl, refl, refl)
  values_agree le e (some a) v = (refl, refl, refl, refl, e a v, e v a, e v a, e a v)
