-- ===== src/StringView/Compare.antt =====
-- The comparisons of src/panda/basic_string_view.h.
use panda_lib.Base.{ℕ, Bool, true, false, Option, none, some, ltb, if◌then◌else◌}
use panda_lib.StringView.{View, clamp}
use panda_lib.StringView.Traits.{Sign, minus, equal, plus, sign_of, traits_compare}

-- `std::min`.
abbrev pub smaller : ℕ → ℕ → ℕ
smaller a b = if ltb b a then b else a

-- The lengths decide where the common part does not.
abbrev pub or_lengths : ℕ → ℕ → Sign → Sign
or_lengths len1 len2 minus = minus
or_lengths len1 len2 equal = sign_of len1 len2
or_lengths len1 len2 plus = plus

-- `_compare`, from the offsets `o` and `p` on.
unfoldable pub compare_parts : (ℕ → ℕ) → ℕ → ℕ → (ℕ → ℕ) → ℕ → ℕ → Sign
unfolding traits_compare
compare_parts f o len1 g p len2 = or_lengths len1 len2 (traits_compare f o g p (smaller len1 len2))

unfoldable pub compare : View → View → Sign
unfolding compare_parts
compare v w = compare_parts v.str 0 v.length w.str 0 w.length

-- `none` is the exception `out_of_range`.
unfoldable pub compare_with : ℕ → ℕ → (ℕ → ℕ) → ℕ → View → Option Sign
unfolding compare_parts clamp
compare_with pos1 count1 s count2 v =
    if ltb v.length pos1
    then none
    else some (compare_parts v.str pos1 (clamp v.length pos1 count1) s 0 count2)

unfoldable pub is_same : View → View → Bool
unfolding compare
is_same v w = elim (compare v w) [ equal ↦ true | _ ↦ false ]

unfoldable pub is_less : View → View → Bool
unfolding compare
is_less v w = elim (compare v w) [ minus ↦ true | _ ↦ false ]

unfoldable pub is_at_most : View → View → Bool
unfolding compare
is_at_most v w = elim (compare v w) [ plus ↦ false | _ ↦ true ]

unfoldable pub is_greater : View → View → Bool
unfolding compare
is_greater v w = elim (compare v w) [ plus ↦ true | _ ↦ false ]

unfoldable pub is_at_least : View → View → Bool
unfolding compare
is_at_least v w = elim (compare v w) [ minus ↦ false | _ ↦ true ]
