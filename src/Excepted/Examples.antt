-- ===== src/Excepted/Examples.antt =====
-- Excepted numbers on which the theorems of Excepted are applied. A move leaves zero of a number.
use panda_lib.Base.{ℕ, suc, ◌==◌, ◌≡◌, true, false, none, some, inl, inr, List, [], ◌∷◌, ◌++◌}
use panda_lib.Excepted.{
  Excepted, done, raised, construct_err, destroy, swap, move_new, assign_move, and_then, set_val,
  set_err, map_val, map_error, is_equal,
}
use panda_lib.Excepted.Life.{
  Action, look, use_value, read, hand_on, assign_value, assign_error, emplace_value, swap_with,
  life, life_lem,
}
use panda_lib.Excepted.VoidForm
use panda_lib.Excepted.VoidForm.{VoidExcepted, general, both, outcome, compared, operations_general}

abbrev spent : ℕ → ℕ
spent n = 0

abbrev five : Excepted ℕ ℕ
five = record { held = inl 5; checked = false }

-- The error 4, which nobody has looked at.
abbrev error_four : Excepted ℕ ℕ
error_four = record { held = inr 4; checked = false }

abbrev old_six : Excepted ℕ ℕ
old_six = record { held = inr 6; checked = true }

abbrev new_six : Excepted ℕ ℕ
new_six = record { held = inr 6; checked = false }

abbrev moved : List (Action ℕ ℕ)
moved = read ∷ hand_on true ∷ []

abbrev seen_six : Excepted ℕ ℕ
seen_six = record { held = inr 6; checked = true }

abbrev fine : Excepted ℕ ℕ
fine = record { held = inl 8; checked = true }

life_lem_example :
    (life spent spent moved (construct_err 4) ≡ raised 4)
    × (life spent spent (moved ++ use_value ∷ read ∷ []) (construct_err 4) ≡ raised 4)
    × (life spent spent (moved ++ swap_with fine ∷ read ∷ []) (construct_err 4) ≡ raised 4)
    × (life spent spent (moved ++ look ∷ read ∷ []) (construct_err 4) ≡ done tt)
    × (life spent spent (moved ++ assign_value 8 ∷ read ∷ []) (construct_err 4) ≡ done tt)
    × (life spent spent (moved ++ emplace_value 8 ∷ read ∷ []) (construct_err 4) ≡ done tt)
    × (life spent spent (moved ++ assign_error 6 ∷ look ∷ read ∷ []) (construct_err 4) ≡ done tt)
    × (life spent spent (moved ++ swap_with seen_six ∷ look ∷ read ∷ []) (construct_err 4)
        ≡ done tt)
life_lem_example = life_lem spent spent moved (read ∷ []) 4 6 8 true tt tt

abbrev three : ℕ
three = 3

abbrev void_error : VoidExcepted ℕ
void_error = record { fault = some 4; checked = false }

abbrev void_fine : VoidExcepted ℕ
void_fine = record { fault = none; checked = true }

operations_general_example :
    (VoidForm.destroy void_error ≡ destroy (general void_error))
    × (general (VoidForm.set_val void_error) ≡ set_val tt (general void_error))
    × (general (VoidForm.set_err 6 void_error) ≡ set_err 6 (general void_error))
    × (both (VoidForm.swap void_error void_fine) ≡ swap (general void_error) (general void_fine))
    × (both (VoidForm.move_new spent true void_error)
        ≡ move_new (λ u. u) spent true (general void_error))
    × (outcome (VoidForm.assign_move spent void_error void_fine)
        ≡ assign_move (λ u. u) spent (general void_error) (general void_fine))
    × ((VoidForm.and_then five void_error).0 ≡ (and_then (λ u. five) (general void_error)).0)
    × (general (VoidForm.and_then five void_error).1
        ≡ (and_then (λ u. five) (general void_error)).1)
    × ((VoidForm.map_val true three void_error).0
        ≡ (map_val true (λ u. three) (general void_error)).0)
    × (general (VoidForm.map_val true three void_error).1
        ≡ (map_val true (λ u. three) (general void_error)).1)
    × (general (VoidForm.map_error true suc void_error).0
        ≡ (map_error true suc (general void_error)).0)
    × (general (VoidForm.map_error true suc void_error).1
        ≡ (map_error true suc (general void_error)).1)
    × (compared (VoidForm.is_equal (λ e f. e == f) void_error void_fine)
        ≡ is_equal (λ u w. true) (λ e f. e == f) (general void_error) (general void_fine))
operations_general_example =
    operations_general spent true five three suc 6 (λ e f. e == f) void_error void_fine
