-- ===== src/StringView/Search.antt =====
-- The searches of src/panda/basic_string_view.h.
use panda_lib.Base.{
  ℕ, zero, suc, ◌+◌, ◌-◌, ◌%◌, ◌^◌, Bool, true, false, not, Option, none, some, ◌==◌, leb, ltb,
  if◌then◌else◌,
}
use panda_lib.StringView.{View, npos}
use panda_lib.StringView.Traits.{traits_find, traits_compare, is_equal}

-- `for (ptr = _str + o; ptr < end; ++ptr) if (test) return ptr - _str; return npos`, with `n`
-- characters before the end. An offset from 2^63 on is one before `_str`.
unfoldable pub scan_up : (ℕ → Bool) → ℕ → ℕ → ℕ
scan_up test o zero = npos
scan_up test o (suc n) = let rest = scan_up test ((o + 1) % 2 ^ 64) n in if test o then o else rest

-- The places from `_str + pos` up to the end.
unfoldable pub places : ℕ → ℕ → ℕ
places pos length = if ltb pos (2 ^ 63) then length - pos else 2 ^ 64 - pos + length

-- `for (; ptr >= _str; --ptr) if (test) return ptr - _str; return npos` over the first `n` places.
unfoldable pub scan_down : (ℕ → Bool) → ℕ → ℕ
scan_down test zero = npos
scan_down test (suc n) = let rest = scan_down test n in if test n then n else rest

-- The places from `_str + start` down: none where the offset has wrapped to one before `_str`.
unfoldable pub rounds : ℕ → ℕ
rounds start = if ltb start (2 ^ 63) then start + 1 else 0

unfoldable pub found : Option ℕ → Bool
found none = false
found (some i) = true

unfoldable pub or_npos : Option ℕ → ℕ
or_npos none = npos
or_npos (some i) = i

-- `traits_type::find(s, count, ch)` as a test.
unfoldable pub one_of : (ℕ → ℕ) → ℕ → ℕ → Bool
unfolding found
one_of s count ch = found (traits_find s 0 count ch)

unfoldable pub find_char : ℕ → ℕ → View → ℕ
unfolding or_npos
find_char ch pos v =
    if leb v.length pos then npos else or_npos (traits_find v.str pos (v.length - pos) ch)

-- The loop of `find`, with `fuel` rounds at most.
unfoldable pub find_loop : ℕ → (ℕ → ℕ) → ℕ → View → Option ℕ → ℕ
find_loop fuel s count v none = npos
find_loop zero s count v (some p) = npos
find_loop (suc fuel) s count v (some p) =
    let rest = find_loop fuel s count v (traits_find v.str (p + 1) (v.length - p - 1) (s 0)) in
    if leb count (v.length - p)
    then if is_equal (traits_compare v.str p s 0 count) then p else rest
    else npos

unfoldable pub find : (ℕ → ℕ) → ℕ → ℕ → View → ℕ
unfolding find_loop
find s pos count v =
    if ltb v.length pos
    then npos
    else if count == 0
    then pos
    else find_loop (v.length + 1) s count v (traits_find v.str pos (v.length - pos) (s 0))

unfoldable pub rfind_char : ℕ → ℕ → View → ℕ
unfolding scan_down
rfind_char ch pos v =
    scan_down (λ i. v.str i == ch) (if leb v.length pos then v.length else pos + 1)

unfoldable pub rfind : (ℕ → ℕ) → ℕ → ℕ → View → ℕ
unfolding scan_down rounds
rfind s pos count v =
    let last = (v.length + 2 ^ 64 - count) % 2 ^ 64 in
    scan_down (λ i. is_equal (traits_compare v.str i s 0 count))
      (rounds (if leb last pos then last else pos))

unfoldable pub find_first_of_char : ℕ → ℕ → View → ℕ
unfolding find_char
find_first_of_char ch pos v = find_char ch pos v

unfoldable pub find_first_of : (ℕ → ℕ) → ℕ → ℕ → View → ℕ
unfolding scan_up places one_of
find_first_of s pos count v =
    if count == 0 then npos else scan_up (λ i. one_of s count (v.str i)) pos (places pos v.length)

unfoldable pub find_last_of_char : ℕ → ℕ → View → ℕ
unfolding rfind_char
find_last_of_char ch pos v = rfind_char ch pos v

-- The last place to look at, `_length - 1` or `pos`.
unfoldable pub last_place : ℕ → View → ℕ
last_place pos v = if leb v.length pos then (v.length + 2 ^ 64 - 1) % 2 ^ 64 else pos

unfoldable pub find_last_of : (ℕ → ℕ) → ℕ → ℕ → View → ℕ
unfolding scan_down one_of rounds last_place
find_last_of s pos count v =
    if count == 0
    then npos
    else scan_down (λ i. one_of s count (v.str i)) (rounds (last_place pos v))

unfoldable pub find_first_not_of_char : ℕ → ℕ → View → ℕ
unfolding scan_up places
find_first_not_of_char ch pos v = scan_up (λ i. not (v.str i == ch)) pos (places pos v.length)

unfoldable pub find_first_not_of : (ℕ → ℕ) → ℕ → ℕ → View → ℕ
unfolding scan_up places one_of
find_first_not_of s pos count v =
    if count == 0
    then if leb v.length pos then npos else pos
    else scan_up (λ i. not (one_of s count (v.str i))) pos (places pos v.length)

unfoldable pub find_last_not_of_char : ℕ → ℕ → View → ℕ
unfolding scan_down rounds last_place
find_last_not_of_char ch pos v = scan_down (λ i. not (v.str i == ch)) (rounds (last_place pos v))

unfoldable pub find_last_not_of : (ℕ → ℕ) → ℕ → ℕ → View → ℕ
unfolding scan_down one_of rounds last_place
find_last_not_of s pos count v =
    if count == 0
    then last_place pos v
    else scan_down (λ i. not (one_of s count (v.str i))) (rounds (last_place pos v))
