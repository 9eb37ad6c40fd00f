-- ===== src/VarInt/Examples.antt =====
-- Words on which the theorems of VarInt are applied.
use panda_lib.Base.{ℕ, ◌^◌, ◌-◌, ◌≡◌, refl, some, [], ◌∷◌, ◌++◌, arith, lt_wf}
use panda_lib.VarInt.{varint_encode, varint_encode_s, decode_s}
use panda_lib.VarInt.Zigzag.{decode_s-varint_encode_s}
use native.Mathlib.Decide.{dec_lt}

-- 300 is 0b10_0101100.
encode_run : varint_encode 300 ≡ 172 ∷ 2 ∷ []
unfolding varint_encode lt_wf dec_lt
encode_run = refl

-- The pattern of -5.
abbrev minus_five : ℕ
minus_five = 2 ^ 32 - 5

decode_s-varint_encode_s_example :
    decode_s (varint_encode_s minus_five ++ 7 ∷ []) ≡ some (minus_five, 7 ∷ [])
decode_s-varint_encode_s_example = decode_s-varint_encode_s minus_five (7 ∷ []) (omega arith)
