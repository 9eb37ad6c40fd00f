-- ===== src/CallbackDispatcher.antt =====
-- src/panda/CallbackDispatcher.h: listeners that are called one behind the other as long as each asks
-- for the next one. The list of listeners is that of OwningList, here its sequence of wrappers; a
-- listener is told by a number. No listener adds or removes others while it is called. A call takes
-- fuel of more than the number of listeners.
pub mod Order
mod Examples
use panda_lib.Base.{
  ℕ, zero, suc, Bool, true, false, ◌&&◌, Option, none, some, List, [], ◌∷◌, ◌++◌, ◌==◌,
  if◌then◌else◌,
}

-- What a callback does with its event: it ends with a result, or calls `e.next` with arguments and
-- goes on with what this results in.
pub data Script {ℓ} (A R : Type ℓ) : Type ℓ where
  ends : Option R → Script A R
  asks : A → (Option R → Script A R) → Script A R

-- `Wrapper`: a callback that takes the event, or a simple one.
pub data Wrapper {ℓ} (A R : Type ℓ) : Type ℓ where
  real : ℕ → (A → Script A R) → Wrapper A R
  simple : ℕ → Wrapper A R

-- The result, the listeners from the iterator of the event on, and the calls in their order. `none`
-- is an increment of the iterator at the end, which reads a null pointer.
abbrev pub Called {ℓ} : (A R : Type ℓ) → Type ℓ
Called A R = Option (Option R × List (Wrapper A R) × List (ℕ × A))

module _ {ℓ} {A R : Type ℓ} where
  -- A callback, with what `e.next` does from a place on.
  unfoldable pub run_script :
      (List (Wrapper A R) → A → List (ℕ × A) → Called A R)
      → Script A R
      → List (Wrapper A R)
      → List (ℕ × A)
      → Called A R
  run_script next (ends r) state calls = some (r, state, calls)
  run_script next (asks args go_on) state calls = elim (next state args calls) [
    | none ↦ none
    | some (r, after, more) ↦ run_script next (go_on r) after more
  ]

  -- `Wrapper::operator()`
  unfoldable pub invoke :
      (List (Wrapper A R) → A → List (ℕ × A) → Called A R)
      → Wrapper A R
      → List (Wrapper A R)
      → A
      → List (ℕ × A)
      → Called A R
  unfolding run_script
  invoke next (real n f) state args calls = run_script next (f args) state (calls ++ (n, args) ∷ [])
  invoke next (simple n) state args calls = next state args (calls ++ (n, args) ∷ [])

  -- `next`: the state is the listeners from the iterator on.
  unfoldable pub next : ℕ → List (Wrapper A R) → A → List (ℕ × A) → Called A R
  unfolding invoke
  next fuel [] args calls = none
  next fuel (w ∷ []) args calls = some (none, [], calls)
  next zero (w ∷ v ∷ ws) args calls = none
  next (suc fuel) (w ∷ v ∷ ws) args calls = invoke (next fuel) v (v ∷ ws) args calls

  -- `operator()` of the dispatcher.
  unfoldable pub dispatch : ℕ → List (Wrapper A R) → A → Called A R
  unfolding invoke next
  dispatch fuel [] args = some (none, [], [])
  dispatch fuel (w ∷ ws) args = invoke (next fuel) w (w ∷ ws) args []

  -- `add` and `add_event_listener`; `none` is an empty callback.
  unfoldable pub add : Option (Wrapper A R) → Bool → List (Wrapper A R) → List (Wrapper A R)
  add none back listeners = listeners
  add (some w) back listeners = if back then listeners ++ w ∷ [] else w ∷ listeners

  -- `equal` of a wrapper and a simple callback or one that takes the event.
  unfoldable pub equal : Wrapper A R → Wrapper A R → Bool
  equal (real n f) (real m g) = n == m
  equal (simple n) (simple m) = n == m
  equal (real n f) (simple m) = false
  equal (simple n) (real m g) = false

  -- `remove`, which goes through the list from its end; the flag says that one was taken out.
  unfoldable pub remove_last : Wrapper A R → List (Wrapper A R) → Bool × List (Wrapper A R)
  unfolding equal
  remove_last w [] = (false, [])
  remove_last w (v ∷ vs) =
      let (found, rest) = remove_last w vs in
      if found then (true, v ∷ rest) else if equal v w then (true, rest) else (false, v ∷ rest)

  unfoldable pub remove : Wrapper A R → List (Wrapper A R) → List (Wrapper A R)
  unfolding remove_last
  remove w listeners = (remove_last w listeners).1
