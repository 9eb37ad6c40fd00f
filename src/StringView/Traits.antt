-- ===== src/StringView/Traits.antt =====
-- What src/panda/basic_string_view.h uses of `std::char_traits<char>`.
use panda_lib.Base.{ℕ, zero, suc, Bool, true, false, Option, none, some, ◌==◌, ltb, if◌then◌else◌}

-- The sign of a result of `compare`.
pub data Sign : Type 0 where
  minus : Sign
  equal : Sign
  plus : Sign

abbrev pub is_equal : Sign → Bool
is_equal minus = false
is_equal equal = true
is_equal plus = false

abbrev pub sign_of : ℕ → ℕ → Sign
sign_of a b = if ltb a b then minus else if ltb b a then plus else equal

-- `find` of a character among the `n` ones from `o` on.
unfoldable pub traits_find : (ℕ → ℕ) → ℕ → ℕ → ℕ → Option ℕ
traits_find f o zero ch = none
traits_find f o (suc n) ch =
    let rest = traits_find f (suc o) n ch in if f o == ch then some o else rest

-- `compare` of the `n` characters from `o` and from `p` on.
unfoldable pub traits_compare : (ℕ → ℕ) → ℕ → (ℕ → ℕ) → ℕ → ℕ → Sign
traits_compare f o g p zero = equal
traits_compare f o g p (suc n) =
    let rest = traits_compare f (suc o) g (suc p) n in
    if ltb (f o) (g p) then minus else if ltb (g p) (f o) then plus else rest
