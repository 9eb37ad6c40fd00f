-- ===== src/FromChars/Examples.antt =====
-- Text and numbers on which the theorems of FromChars are applied. The only space is the character 32.
use panda_lib.Base.{ℕ, ◌-◌, ◌^◌, ◌≡◌, refl, Bool, some, List, [], ◌∷◌, ◌++◌, ◌==◌, leb, arith}
use panda_lib.FromChars.{from_chars, from_chars_signed, to_chars_signed}
use panda_lib.FromChars.Parse.{value_of}
use panda_lib.FromChars.Verdict.{verdict, capped, from_chars-verdict}
use panda_lib.FromChars.RoundTrip.{
  IsSpaceTest, IsEnough, written, whole, from_chars_signed-to_chars_signed,
}

abbrev blank : ℕ → Bool
blank c = c == 32

abbrev bits : ℕ → ℕ → ℕ
bits w base = w

blank-IsSpaceTest : IsSpaceTest blank
blank-IsSpaceTest = record { digit = λ c h. ground arith; minus = refl }

bits-IsEnough : IsEnough bits 8 10
bits-IsEnough = record { some_place = omega arith; places = omega arith }

-- "  300x" does not fit into 8 bits.
abbrev digits_300 : List ℕ
digits_300 = 51 ∷ 48 ∷ 48 ∷ []

from_chars-verdict_example :
    from_chars blank 8 10 ((32 ∷ 32 ∷ []) ++ (digits_300 ++ 120 ∷ []))
    ≡ verdict
        ((32 ∷ 32 ∷ []) ++ (digits_300 ++ 120 ∷ []))
        digits_300
        (leb (value_of 10 0 digits_300) (2 ^ 8 - 1))
        (120 ∷ [])
        (capped (2 ^ 8 - 1) (value_of 10 0 digits_300))
from_chars-verdict_example =
    from_chars-verdict blank 8 10 (32 ∷ 32 ∷ []) digits_300 (120 ∷ []) (refl, (refl, tt))
      (omega arith, (omega arith, (omega arith, tt))) (omega arith) refl

-- 128 is the pattern of -128.
from_chars_signed-to_chars_signed_example :
    (cs : List ℕ) × (to_chars_signed bits 8 8 128 10 ≡ some (written 8 cs))
    × (from_chars_signed blank 8 10 (cs ++ 120 ∷ []) ≡ whole (120 ∷ []) 128)
from_chars_signed-to_chars_signed_example =
    from_chars_signed-to_chars_signed blank bits 8 8 10 128 (120 ∷ []) blank-IsSpaceTest
      bits-IsEnough (omega arith) (omega arith) (omega arith)
