-- ===== src/Expected/Examples.antt =====
-- Expected numbers on which the theorems of Expected are applied.
use panda_lib.Base.{ℕ, ◌≡◌, none, some, ◌⊎◌, inl, inr, true, false}
use panda_lib.Expected
use panda_lib.Expected.VoidForm
use panda_lib.Expected.VoidForm.{general, general_after, void, operations_agree}
use panda_lib.Expected.{after, dead, holding, assign}
use panda_lib.Expected.Laws.{assign_results}

abbrev three : ℕ ⊎ ℕ
three = inl 3

abbrev four : ℕ
four = 4

abbrev five : ℕ
five = 5

assign_results_example :
    ((x : ℕ ⊎ ℕ)
      → assign some some (holding three) (holding x)
        ≡ record { left = holding three; threw = false })
    × (assign (λ w. none) some (holding (inl five)) (holding (inr five)) ≡ after dead true true)
    × (assign some (λ f. none) (holding (inr five)) (holding (inl five)) ≡ after dead false true)
assign_results_example = assign_results three five five

-- An error that a constructor cannot make, on a value and on an error.
operations_agree_example :
    (general_after (VoidForm.set_val (void (some four)), false)
      ≡ Expected.set_val (some tt) (general (void (some four))))
    × (general_after (VoidForm.set_err none (void (some four)))
        ≡ Expected.set_err none (general (void (some four))))
    × (general_after (VoidForm.assign (λ e. none) (void (some five)) (void (some four)))
        ≡ Expected.assign
            (λ u. some u)
            (λ e. none)
            (general (void (some five)))
            (general (void (some four))))
    × ((
      general (VoidForm.swap (void (some four)) (void (some five))).0,
      general (VoidForm.swap (void (some four)) (void (some five))).1,
    )
        ≡ Expected.swap (general (void (some four))) (general (void (some five))))
operations_agree_example = operations_agree (λ e. none) none (some four) (some five)
