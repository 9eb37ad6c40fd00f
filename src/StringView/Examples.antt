-- ===== src/StringView/Examples.antt =====
-- Views on which the theorems of StringView are applied.
use panda_lib.Base.{ℕ, ◌≡◌, refl, true, arith, ◌==◌, if◌then◌else◌}
use panda_lib.StringView.{View}
use panda_lib.StringView.Traits.{traits_find, traits_compare}
use panda_lib.StringView.Search.{find, rfind}
use panda_lib.StringView.Scans.{IsFirst}
use panda_lib.StringView.Text.{occurs, find-IsFirst, rfind_beyond}

-- The text 1 2 1 2 3, and no more after it.
abbrev text : ℕ → ℕ
text i =
    if i == 0
    then 1
    else if i == 1
    then 2
    else if i == 2
    then 1
    else if i == 3
    then 2
    else if i == 4
    then 3
    else 0

abbrev whole : View
whole = record { str = text; length = 5 }

-- A view of the first character.
abbrev short : View
short = record { str = text; length = 1 }

find_run : find text 1 2 whole ≡ 2
unfolding find traits_find traits_compare
find_run = refl

rfind_run : rfind text 4 2 whole ≡ 2
unfolding rfind traits_compare
rfind_run = refl

find-IsFirst_example : IsFirst (occurs text 2 whole) 1 4 (find text 1 2 whole)
find-IsFirst_example = find-IsFirst text 1 2 whole

text_stands : occurs text 3 short 0 ≡ true
unfolding traits_compare
text_stands = refl

rfind_beyond_example : rfind text 0 3 short ≡ 0
rfind_beyond_example = rfind_beyond text 3 short (omega arith) (omega arith) text_stands
