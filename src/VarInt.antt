-- ===== src/VarInt.antt =====
-- src/panda/varint.h: integers of 32 bits in groups of seven bits, and a stack of them in a string.
-- A byte is a number below 256, and a string is its list of bytes. An `int32_t` is its bit pattern, a
-- number below 2 ^ 32.
pub mod Codec
pub mod Zigzag
pub mod Stack
mod Examples
use Prim.Native.Nat.{bit_and, bit_or, bit_xor}
use panda_lib.Base.{
  ℕ, zero, suc, ◌+◌, ◌-◌, ◌*◌, ◌/◌, ◌%◌, ◌^◌, ◌<◌, Option, none, some, List, [], ◌∷◌, ◌++◌, ◌==◌,
  leb, ltb, if◌then◌else◌, length, take, drop, arith, lt_wf,
}
use mathlib.Core.Logic.{dite}
use mathlib.Core.WellFounded.{Acc}
use native.Mathlib.Decide.{dec_lt}

abbrev pub IsU32 : ℕ → Type 0
IsU32 i = i < 2 ^ 32

shift_shrinks : (i : ℕ) → 127 < i → i / 2 ^ 7 < i
shift_shrinks i h = omega arith

-- `while (i > 127) { res += 0x80 | uint8_t(i & 0x7F); i >>= 7; } res += uint8_t(i);`
encode_loop : List ℕ → (i : ℕ) → Acc ◌<◌ i → List ℕ
encode_loop res i (Acc.intro _ smaller) =
    dite (dec_lt 127 i)
      (λ more.
        encode_loop (res ++ bit_or 0x80 (bit_and i 0x7f % 256) ∷ []) (i / 2 ^ 7)
          (smaller _ (shift_shrinks i more)))
      (λ _. res ++ (i % 256) ∷ [])

unfoldable pub varint_encode : ℕ → List ℕ
unfolding encode_loop shift_shrinks
varint_encode i = encode_loop [] i (lt_wf.apply i)

-- `(*ptr & 0x7f) << 7*i` in a word. C++ leaves a shift past the word undefined; its bits are dropped
-- here.
abbrev pub group : ℕ → ℕ → ℕ
group b i = bit_and b 0x7f * 2 ^ (7 * i) % 2 ^ 32

-- `_varint_decode`: the number and the bytes behind it. `none` is a read past the last byte.
unfoldable pub decode_loop : List ℕ → ℕ → ℕ → Option (ℕ × List ℕ)
decode_loop [] i r = none
decode_loop (b ∷ bs) i r =
    let rest = decode_loop bs (i + 1) (bit_or r (group b i)) in
    if bit_and b 0x80 == 0 then some (bit_or r (group b i), bs) else rest

unfoldable pub decode : List ℕ → Option (ℕ × List ℕ)
unfolding decode_loop
decode bs = decode_loop bs 0 0

number_of : Option (ℕ × List ℕ) → Option ℕ
number_of none = none
number_of (some (v, rest)) = some v

unfoldable pub varint_decode : List ℕ → ℕ → Option ℕ
unfolding decode number_of
varint_decode str start = number_of (decode (drop start str))

-- `i >> 31` of an `int32_t`: all ones where it is negative.
unfoldable pub sign_word : ℕ → ℕ
sign_word i = if leb (2 ^ 31) i then 2 ^ 32 - 1 else 0

unfoldable pub zigzag : ℕ → ℕ
unfolding sign_word
zigzag i = bit_xor (i * 2 % 2 ^ 32) (sign_word i)

-- `(i >> 1) ^ -(i & 1)`
unfoldable pub unzigzag : ℕ → ℕ
unzigzag i = bit_xor (i / 2) ((2 ^ 32 - bit_and i 1) % 2 ^ 32)

unfoldable pub varint_encode_s : ℕ → List ℕ
unfolding varint_encode zigzag
varint_encode_s i = varint_encode (zigzag i)

signed_result : Option (ℕ × List ℕ) → Option (ℕ × List ℕ)
unfolding unzigzag
signed_result none = none
signed_result (some (i, rest)) = some (unzigzag i, rest)

-- `_varint_decode_s`
unfoldable pub decode_s : List ℕ → Option (ℕ × List ℕ)
unfolding decode signed_result
decode_s bs = signed_result (decode bs)

unfoldable pub varint_decode_s : List ℕ → Option ℕ
unfolding decode_s number_of
varint_decode_s str = number_of (decode_s str)

-- The loop of `size_of_first`.
first_stop : List ℕ → ℕ
first_stop [] = 0
first_stop (b ∷ bs) = let rest = first_stop bs in if bit_and b 0x80 == 0 then 0 else suc rest

unfoldable pub size_of_first : List ℕ → ℕ
unfolding first_stop
size_of_first storage = first_stop storage + 1

unfoldable pub push : ℕ → List ℕ → List ℕ
unfolding varint_encode_s
push val storage = varint_encode_s val ++ storage

-- `storage.offset(size_of_first())`; `none` is the exception `out_of_range`.
unfoldable pub pop : List ℕ → Option (List ℕ)
unfolding size_of_first
pop storage =
    if ltb (length storage) (size_of_first storage)
    then none
    else some (drop (size_of_first storage) storage)

unfoldable pub top : List ℕ → Option ℕ
unfolding varint_decode_s size_of_first
top storage = varint_decode_s (take (size_of_first storage) storage)

unfoldable pub clear : List ℕ → List ℕ
clear storage = []

unfoldable pub size : List ℕ → ℕ
size [] = 0
size (c ∷ cs) = (if bit_and c 0x80 == 0 then 1 else 0) + size cs

add_first : ℕ → Option (List ℕ) → Option (List ℕ)
add_first v none = none
add_first v (some vs) = some (v ∷ vs)

-- The numbers from `begin` to `end`, by `operator*` and `operator++`; `none` where the fuel or the
-- bytes run out.
unfoldable pub iterate : ℕ → List ℕ → Option (List ℕ)
unfolding decode_s add_first
iterate zero storage = none
iterate (suc fuel) [] = some []
iterate (suc fuel) (c ∷ cs) = elim (decode_s (c ∷ cs)) [
  | none ↦ none
  | some (v, rest) ↦ add_first v (iterate fuel rest)
]
