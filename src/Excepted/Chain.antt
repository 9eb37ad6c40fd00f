-- ===== src/Excepted/Chain.antt =====
-- The combinators of src/panda/excepted.h: `and_then` chains computations that fail, and each of them
-- makes an error that must be looked at of the error that it takes.
use panda_lib.Base.{◌≡◌, refl, Bool, none, some, ◌⊎◌, inl, inr}
use panda_lib.Excepted.{
  Excepted, construct_val, construct_err, nevermind, and_then, map_val, map_error,
}
use panda_lib.Excepted.Pending.{pending}

abbrev at {ℓ} : {T E : Type ℓ} → T ⊎ E → Bool → Excepted T E
at h b = record { held = h; checked = b }

map-at {ℓ} :
    {T U E : Type ℓ} (h : T ⊎ E) (b was : Bool) (k : T → U)
    → (map_val was k (at h b)).0 ≡ (and_then (λ v. construct_val was (k v)) (at h b)).0
unfolding and_then map_val
map-at (inl v) b was k = refl
map-at (inr e) b was k = refl

module _ {ℓ} {T U V E : Type ℓ} where
  chain-at :
      (h : T ⊎ E) (b : Bool) (f : T → Excepted U E) (g : U → Excepted V E)
      → (and_then g (and_then f (at h b)).0).0 ≡ (and_then (λ v. (and_then g (f v)).0) (at h b)).0
  unfolding and_then construct_err
  chain-at (inl v) b f g = refl
  chain-at (inr e) b f g = refl

  -- `and_then` of a value is the call, a chain of two does not depend on how it is nested, and `map`
  -- is `and_then` with a value that is constructed.
  pub and_then_chains :
      (x : Excepted T E) (v : T) (was : Bool) (f : T → Excepted U E) (g : U → Excepted V E)
      (k : T → U)
      → ((and_then f (construct_val was v)).0 ≡ f v)
        × ((and_then g (and_then f x).0).0 ≡ (and_then (λ w. (and_then g (f w)).0) x).0)
        × ((map_val was k x).0 ≡ (and_then (λ w. construct_val was (k w)) x).0)
  and_then_chains x v was f g k = (
    (unfold and_then construct_val in refl),
    chain-at x.held x.checked f g,
    map-at x.held x.checked was k,
  )

  -- The combinators mark an error as looked at and result in one that is not, also where it had been
  -- looked at before.
  pub combinators-pending :
      (e : E) (b was : Bool) (f : T → Excepted U E) (k : T → U) (m : E → V)
      → (pending (and_then f (at {T = T} (inr e) b)).0 ≡ some e)
        × (pending (and_then f (at {T = T} (inr e) b)).1 ≡ none)
        × (pending (map_val was k (at {T = T} (inr e) b)).0 ≡ some e)
        × (pending (map_val was k (at {T = T} (inr e) b)).1 ≡ none)
        × (pending (map_error was m (at {T = T} (inr e) b)).0 ≡ some (m e))
        × (pending (map_error was m (at {T = T} (inr e) b)).1 ≡ none)
  unfolding pending and_then map_val map_error nevermind construct_err
  combinators-pending e b was f k m = (refl, refl, refl, refl, refl, refl)
