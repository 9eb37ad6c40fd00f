-- ===== src/BasicString/Search.antt =====
-- The searches and comparisons of src/panda/basic_string.h, which are written out there again, and
-- where `find` agrees with that of src/panda/basic_string_view.h. Pointers are offsets from `_str` of
-- 64 bits, those from 2^63 on before it.
use panda_lib.Base.{
  ℕ, zero, suc, ◌+◌, ◌-◌, ◌%◌, ◌^◌, ◌<◌, Bool, not, Option, none, some, ◌==◌, leb, ltb,
  if◌then◌else◌, ◌||◌,
}
use panda_lib.BasicString.Memory.{Str, Heap, region, npos}
use panda_lib.StringView.{View, clamp}
use panda_lib.StringView.Search
use panda_lib.StringView.Search.{scan_up, places, scan_down, rounds, or_npos, one_of}
use panda_lib.StringView.Compare.{compare_parts}
use panda_lib.StringView.Traits.{Sign, traits_find, traits_compare, is_equal}

-- The memory from `_str` on.
abbrev pub pointed : Str → Heap → ℕ → ℕ
pointed s h i = region s h (s.str + i)

-- A view of a string.
abbrev pub seen : Str → Heap → View
seen s h = record { str = pointed s h; length = s.length }

pub find_char : ℕ → ℕ → Str → Heap → ℕ
unfolding or_npos
find_char ch pos t h =
    if leb t.length pos then npos else or_npos (traits_find (pointed t h) pos (t.length - pos) ch)

-- `end >= _str + o + count`, where the pointer wraps to one before `_str`.
reaches : ℕ → ℕ → ℕ → Bool
reaches o count length = let last = (o + count) % 2 ^ 64 in leb (2 ^ 63) last || leb last length

-- The loop of `find`, with `fuel` rounds at most.
pub find_loop : ℕ → (ℕ → ℕ) → ℕ → Str → Heap → Option ℕ → ℕ
unfolding reaches
find_loop fuel s count t h none = npos
find_loop zero s count t h (some p) = npos
find_loop (suc fuel) s count t h (some p) =
    let rest =
      find_loop fuel s count t h (traits_find (pointed t h) (p + 1) (t.length - p - 1) (s 0)) in
    if reaches p count t.length
    then if is_equal (traits_compare (pointed t h) p s 0 count) then p else rest
    else npos

pub find : (ℕ → ℕ) → ℕ → ℕ → Str → Heap → ℕ
unfolding find_loop
find s pos count t h =
    if ltb t.length pos
    then npos
    else if count == 0
    then pos
    else find_loop (t.length + 1) s count t h (traits_find (pointed t h) pos (t.length - pos) (s 0))

pub rfind_char : ℕ → ℕ → Str → Heap → ℕ
unfolding scan_down
rfind_char ch pos t h =
    scan_down (λ i. pointed t h i == ch) (if leb t.length pos then t.length else pos + 1)

pub rfind : (ℕ → ℕ) → ℕ → ℕ → Str → Heap → ℕ
unfolding scan_down rounds
rfind s pos count t h =
    let last = (t.length + 2 ^ 64 - count) % 2 ^ 64 in
    scan_down (λ i. is_equal (traits_compare (pointed t h) i s 0 count))
      (rounds (if leb last pos then last else pos))

pub find_first_of_char : ℕ → ℕ → Str → Heap → ℕ
unfolding find_char
find_first_of_char ch pos t h = find_char ch pos t h

pub find_first_of : (ℕ → ℕ) → ℕ → ℕ → Str → Heap → ℕ
unfolding scan_up places one_of
find_first_of s pos count t h =
    if count == 0
    then npos
    else scan_up (λ i. one_of s count (pointed t h i)) pos (places pos t.length)

pub find_last_of_char : ℕ → ℕ → Str → Heap → ℕ
unfolding rfind_char
find_last_of_char ch pos t h = rfind_char ch pos t h

-- The last place to look at, `_length - 1` or `pos`.
last_place : ℕ → Str → Heap → ℕ
last_place pos t h = if leb t.length pos then (t.length + 2 ^ 64 - 1) % 2 ^ 64 else pos

pub find_last_of : (ℕ → ℕ) → ℕ → ℕ → Str → Heap → ℕ
unfolding scan_down one_of rounds last_place
find_last_of s pos count t h =
    if count == 0
    then npos
    else scan_down (λ i. one_of s count (pointed t h i)) (rounds (last_place pos t h))

pub find_first_not_of_char : ℕ → ℕ → Str → Heap → ℕ
unfolding scan_up places
find_first_not_of_char ch pos t h =
    scan_up (λ i. not (pointed t h i == ch)) pos (places pos t.length)

pub find_first_not_of : (ℕ → ℕ) → ℕ → ℕ → Str → Heap → ℕ
unfolding scan_up places one_of
find_first_not_of s pos count t h =
    if count == 0
    then if leb t.length pos then npos else pos
    else scan_up (λ i. not (one_of s count (pointed t h i))) pos (places pos t.length)

pub find_last_not_of_char : ℕ → ℕ → Str → Heap → ℕ
unfolding scan_down rounds last_place
find_last_not_of_char ch pos t h =
    scan_down (λ i. not (pointed t h i == ch)) (rounds (last_place pos t h))

pub find_last_not_of : (ℕ → ℕ) → ℕ → ℕ → Str → Heap → ℕ
unfolding scan_down one_of rounds last_place
find_last_not_of s pos count t h =
    if count == 0
    then last_place pos t h
    else scan_down (λ i. not (one_of s count (pointed t h i))) (rounds (last_place pos t h))

-- `compare`.
pub compare : Str → Heap → Str → Heap → Sign
compare t h u g = compare_parts (pointed t h) 0 t.length (pointed u g) 0 u.length

-- `compare` of two parts; `none` is the exception `out_of_range`.
compare_substrings : ℕ → ℕ → ℕ → ℕ → Str → Heap → Str → Heap → Option Sign
unfolding clamp
compare_substrings pos1 count1 pos2 count2 t h u g =
    if ltb t.length pos1 || ltb u.length pos2
    then none
    else some (
        compare_parts (pointed t h) pos1 (clamp t.length pos1 count1) (pointed u g) pos2
          (clamp u.length pos2 count2))

-- A place found lies inside of the text.
abbrev InText : ℕ → Option ℕ → Type 0
InText n none = Unit {0}
InText n (some p) = p < n
