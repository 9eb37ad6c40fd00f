-- ===== src/Expected/Laws.antt =====
-- Which operations of src/panda/expected.h keep the flag true to what lives in the union.
use panda_lib.Base.{◌≡◌, refl, true, false, Option, none, some, ◌⊎◌, inl, inr}
use panda_lib.Expected.{dead, After, after, holding, emplace, assign, swap}

module _ {ℓ} {T E : Type ℓ} where
  -- What is held after an attempt to store a value or an error.
  abbrev pub stored : T ⊎ E → Option T → After T E
  stored x none = record { left = holding x; threw = true }
  stored x (some v) = record { left = holding (inl v); threw = false }

  -- `emplace` stores the value, and where its constructor throws, the old content is kept.
  pub emplace-stored : (v : Option T) (x : T ⊎ E) → emplace v (holding x) ≡ stored x v
  unfolding emplace
  emplace-stored none (inl w) = refl
  emplace-stored none (inr e) = refl
  emplace-stored (some v) (inl w) = refl
  emplace-stored (some v) (inr e) = refl

  -- `swap` exchanges the contents, whichever of the two each of them holds.
  pub swap-holding : (x y : T ⊎ E) → swap (holding x) (holding y) ≡ (holding y, holding x)
  unfolding swap
  swap-holding (inl v) (inl w) = refl
  swap-holding (inl v) (inr e) = refl
  swap-holding (inr e) (inl v) = refl
  swap-holding (inr e) (inr f) = refl

  copied :
      (y x : T ⊎ E)
      → assign some some (holding y) (holding x) ≡ record { left = holding y; threw = false }
  unfolding assign
  copied (inl v) (inl w) = refl
  copied (inl v) (inr e) = refl
  copied (inr e) (inl v) = refl
  copied (inr e) (inr f) = refl

  -- Assignment takes over the content of the other where the copies do not throw. Where the copy
  -- of a value throws and an error was held, the flag says that there is a value while nothing
  -- lives; where the copy of an error throws and a value was held, it says that there is an error
  -- while nothing lives.
  pub assign_results :
      (y : T ⊎ E) (v : T) (e : E)
      → ((x : T ⊎ E)
          → assign some some (holding y) (holding x) ≡ record { left = holding y; threw = false })
        × (assign (λ w. none) some (holding (inl v)) (holding (inr e)) ≡ after dead true true)
        × (assign some (λ f. none) (holding (inr e)) (holding (inl v)) ≡ after dead false true)
  unfolding assign
  assign_results y v e = (copied y, refl, refl)
