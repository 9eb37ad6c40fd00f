-- ===== src/CallbackDispatcher/Examples.antt =====
-- Listeners on which the theorems of CallbackDispatcher are applied: the arguments and the results are
-- numbers.
use panda_lib.Base.{ℕ, ◌+◌, ◌≡◌, refl, none, some, List, [], ◌∷◌, arith}
use panda_lib.CallbackDispatcher.{Script, ends, asks, Wrapper, real, simple, dispatch}
use panda_lib.CallbackDispatcher.Order.{
  Orderly, dispatch-Orderly, dispatch_twice, arrived, through, asking,
}

-- A listener that asks for the next one with one more, one that ends, and one that asks twice.
abbrev passes_on : Wrapper ℕ ℕ
passes_on = real 1 (λ a. asks (a + 1) (λ r. ends r))

abbrev stops : Wrapper ℕ ℕ
stops = real 3 (λ a. ends (some a))

abbrev greedy : ℕ → Script ℕ ℕ
greedy a = asks a (λ r. asks 7 (λ s. ends s))

abbrev listeners : List (Wrapper ℕ ℕ)
listeners = passes_on ∷ simple 2 ∷ stops ∷ passes_on ∷ []

dispatch_run :
    dispatch 4 listeners 5 ≡ some (some 6, stops ∷ passes_on ∷ [], (1, 5) ∷ (2, 6) ∷ (3, 6) ∷ [])
unfolding dispatch
dispatch_run = refl

dispatch-Orderly_example : Orderly listeners 5 [] (dispatch 4 listeners 5)
dispatch-Orderly_example =
    dispatch-Orderly 4 listeners 5 ((λ a r. tt), (tt, ((λ a. tt), ((λ a r. tt), tt)))) (omega arith)

dispatch_twice_example : dispatch 3 (passes_on ∷ simple 2 ∷ real 4 greedy ∷ []) 5 ≡ none
dispatch_twice_example =
    dispatch_twice 4 greedy 6 6 7 (λ r. asks 7 (λ s. ends s)) (λ s. ends s) refl refl 3
      (passes_on ∷ simple 2 ∷ []) 5
      (asking 1 (λ a. asks (a + 1) (λ r. ends r)) (simple 2 ∷ []) 5 6 6 (λ r. ends r) refl
        (through 2 [] 6 6 (arrived 6)))
