-- ===== src/FromChars.antt =====
-- src/panda/from_chars.cc: numbers of a base from 2 to 36 as text. Text is a list of bytes, and a
-- pointer into it the list from there on. An integer of w bits is its pattern, a number below 2 ^ w.
-- `is_space` stands for `std::isspace`, and `maxsize` for the size that floating point arithmetic
-- gives for the local array.
pub mod Parse
pub mod Compile
pub mod Verdict
pub mod RoundTrip
mod Examples
use panda_lib.Base.{
  ℕ, zero, suc, ◌+◌, ◌-◌, ◌*◌, ◌/◌, ◌%◌, ◌^◌, Bool, true, false, ◌&&◌, ◌||◌, Option, none, some,
  List, [], ◌∷◌, ◌==◌, ltb, leb, if◌then◌else◌, length,
}

-- The tables `_index` and `_rindex`.
abbrev pub index : ℕ → ℕ
index c =
    if leb 48 c && leb c 57
    then c - 48
    else if leb 97 c && leb c 122
    then c - 87
    else if leb 65 c && leb c 90
    then c - 55
    else 255

abbrev pub rindex : ℕ → ℕ
rindex d = if ltb d 10 then 48 + d else 87 + d

pub data Status : Type 0 where
  no_error : Status
  invalid_argument : Status
  result_out_of_range : Status
  value_too_large : Status

-- The loop at the end of `_parse`, to the end of the number.
unfoldable pub skip_digits : ℕ → List ℕ → List ℕ
skip_digits base [] = []
skip_digits base (c ∷ cs) =
    let rest = skip_digits base cs in if leb base (index c) then c ∷ cs else rest

pub record Parsed : Type 0 where
  pub res : ℕ
  pub overflow : Bool
  pub left : List ℕ

-- The loop of `_parse`, and what comes after an overflow.
unfoldable pub parse_loop : ℕ → ℕ → ℕ → List ℕ → Parsed
unfolding skip_digits
parse_loop base max res [] = record { res = res; overflow = false; left = [] }
parse_loop base max res (c ∷ cs) =
    let rest = parse_loop base max (res * base + index c) cs in
    if leb base (index c)
    then record { res = res; overflow = false; left = c ∷ cs }
    else if ltb (max / base) res || ltb (max - res * base) (index c)
    then record { res = max; overflow = true; left = skip_digits base (c ∷ cs) }
    else rest

unfoldable pub parse : ℕ → ℕ → List ℕ → Parsed
unfolding parse_loop
parse base max text = parse_loop base max 0 text

-- `while (ptr != end && _is_space(*ptr)) ++ptr;`
unfoldable pub skip_spaces : (ℕ → Bool) → List ℕ → List ℕ
skip_spaces is_space [] = []
skip_spaces is_space (c ∷ cs) =
    let rest = skip_spaces is_space cs in if is_space c then rest else c ∷ cs

abbrev pub base_of : ℕ → ℕ
base_of base = if ltb base 2 || ltb 36 base then 10 else base

-- A `from_chars_result` and the value that is written.
pub record FromChars : Type 0 where
  pub ptr : List ℕ
  pub ec : Status
  pub value : ℕ

-- The results of both `_from_chars`: of the text, the text where the number begins, what `_parse` has
-- made of it, and the value.
result : List ℕ → List ℕ → Parsed → ℕ → FromChars
result text start p value =
    if length p.left == length start
    then record { ptr = text; ec = invalid_argument; value = value }
    else record {
      ptr = p.left;
      ec = if p.overflow then result_out_of_range else no_error;
      value = value;
    }

unsigned_at : ℕ → ℕ → List ℕ → List ℕ → FromChars
unfolding result parse
unsigned_at w base text start = let p = parse base (2 ^ w - 1) start in result text start p p.res

-- `_from_chars` of an unsigned type of w bits.
unfoldable pub from_chars : (ℕ → Bool) → ℕ → ℕ → List ℕ → FromChars
unfolding unsigned_at skip_spaces
from_chars is_space w base text = unsigned_at w (base_of base) text (skip_spaces is_space text)

signed_at : ℕ → ℕ → List ℕ → List ℕ → FromChars
unfolding result parse
signed_at w base text [] = result text [] (parse base (2 ^ (w - 1) - 1) []) 0
signed_at w base text (c ∷ cs) =
    let minus = parse base (2 ^ (w - 1)) cs in
    let plus = parse base (2 ^ (w - 1) - 1) (c ∷ cs) in
    if c == 45
    then result text cs minus ((2 ^ w - minus.res) % 2 ^ w)
    else result text (c ∷ cs) plus plus.res

-- `_from_chars` of a signed type of w bits; 45 is the minus sign.
unfoldable pub from_chars_signed : (ℕ → Bool) → ℕ → ℕ → List ℕ → FromChars
unfolding signed_at skip_spaces
from_chars_signed is_space w base text = signed_at w (base_of base) text (skip_spaces is_space text)

-- `_compile`: the places that are left in the array, and the digits behind the pointer. `none` is a
-- write before the array.
unfoldable pub compile : ℕ → ℕ → ℕ → List ℕ → Option (List ℕ)
compile zero base value digits = none
compile (suc room) base value digits =
    let rest = compile room base (value / base) (rindex (value % base) ∷ digits) in
    if value / base == 0 then some (rindex (value % base) ∷ digits) else rest

-- A `to_chars_result` as what is written at the beginning of the buffer.
pub record ToChars : Type 0 where
  pub written : List ℕ
  pub ec : Status

copy_out : ℕ → List ℕ → ToChars
copy_out space digits =
    if ltb space (length digits)
    then record { written = []; ec = value_too_large }
    else record { written = digits; ec = no_error }

copied : ℕ → Option (List ℕ) → Option ToChars
unfolding copy_out
copied space none = none
copied space (some digits) = some (copy_out space digits)

-- `*--begin = '-'` in an array of this size.
put_minus : ℕ → Option (List ℕ) → Option (List ℕ)
put_minus size none = none
put_minus size (some digits) = if ltb (length digits) size then some (45 ∷ digits) else none

-- `_to_chars` of an unsigned type of w bits to a buffer with this space; `maxsize` is of a number of
-- bits and a base.
unfoldable pub to_chars : (ℕ → ℕ → ℕ) → ℕ → ℕ → ℕ → ℕ → Option ToChars
unfolding compile copied
to_chars maxsize space w value base =
    copied space (compile (maxsize w (base_of base)) (base_of base) value [])

-- `_to_chars` of a signed type; its array is one longer.
unfoldable pub to_chars_signed : (ℕ → ℕ → ℕ) → ℕ → ℕ → ℕ → ℕ → Option ToChars
unfolding compile copied put_minus
to_chars_signed maxsize space w value base =
    let size = maxsize w (base_of base) + 1 in
    copied space (
      if ltb value (2 ^ (w - 1))
      then compile size (base_of base) value []
      else put_minus size (compile size (base_of base) (2 ^ w - value) []))
