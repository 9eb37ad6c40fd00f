-- ===== src/Optional/Examples.antt =====
-- Optional numbers on which the theorems of Optional are applied.
use panda_lib.Base.{ℕ, ◌≡◌, false, not, some, ◌==◌, ltb, leb, arith, ==→eq, ==_refl}
use panda_lib.Optional.{is_less, is_at_most, is_greater, is_at_least}
use panda_lib.Optional.Laws.{IsOrder, relations_confused}

numbers-IsOrder : IsOrder ◌==◌ ltb
numbers-IsOrder = record {
  eq_sound = ==→eq;
  eq_refl = ==_refl;
  irreflexive = λ a. ground arith;
  transitive = λ a b c e f. ground arith;
  connected = λ a b e f. ground arith;
}

relations_confused_example :
    (is_at_most ltb (some 3) (some 3) ≡ false)
    × (is_at_least ltb (some 3) (some 3) ≡ false)
    × (is_greater ltb (some 3) (some 7) ≡ is_less ltb (some 3) (some 7))
relations_confused_example = relations_confused ◌==◌ ltb 3 7 numbers-IsOrder

at_most-not_less : (a b : ℕ) → leb a b ≡ not (ltb b a)
at_most-not_less a b = ground arith
