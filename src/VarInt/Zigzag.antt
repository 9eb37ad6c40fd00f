-- ===== src/VarInt/Zigzag.antt =====
-- The signed numbers of src/panda/varint.h.
use Prim.Native.Nat.{bit_and}
use panda_lib.Base.{
  ℕ, ◌+◌, ◌-◌, ◌*◌, ◌/◌, ◌%◌, ◌^◌, ◌≤◌, ◌<◌, ◌≡◌, refl, ◌∙◌, ap, Bool-cases, inl, inr, true, false,
  some, List, ◌++◌, leb, leb→le, arith,
}
use panda_lib.Base.Bits.{bit_and-ones, bit_xor-ones, bit_xor-zero}
use panda_lib.VarInt.{IsU32, sign_word, zigzag, unzigzag, varint_encode_s, signed_result, decode_s}
use panda_lib.VarInt.Codec.{decode-varint_encode}

-- Numbers near 0 on both sides have small codes.
pub zigzag-small : (i : ℕ) → i < 2 ^ 31 → zigzag i ≡ i * 2
unfolding zigzag sign_word
zigzag-small i h =
    let e : leb (2 ^ 31) i ≡ false = ground arith in
    let d : i * 2 % 2 ^ 32 ≡ i * 2 = omega arith in rw (e, d) (bit_xor-zero (i * 2))

pub zigzag-negative : (i : ℕ) → 2 ^ 31 ≤ i → IsU32 i → zigzag i ≡ (2 ^ 32 - i) * 2 - 1
unfolding zigzag sign_word
zigzag-negative i h w =
    let e : leb (2 ^ 31) i ≡ true = ground arith in
    rw e (omega (arith, bit_xor-ones 32 (i * 2 % 2 ^ 32) (omega arith)))

gt_of_leb : (i : ℕ) → leb (2 ^ 31) i ≡ false → i < 2 ^ 31
gt_of_leb i e = ground arith

pub zigzag-IsU32 : (i : ℕ) → IsU32 i → IsU32 (zigzag i)
zigzag-IsU32 i w = elim (Bool-cases (leb (2 ^ 31) i)) [
  | inl e ↦ omega (arith, zigzag-negative i (ground arith) w, leb→le (2 ^ 31) i e)
  | inr e ↦ omega (arith, zigzag-small i (ground arith), gt_of_leb i e)
]

unzigzag-even : (n : ℕ) → unzigzag (n * 2) ≡ n
unfolding unzigzag
unzigzag-even n =
    let e : (2 ^ 32 - bit_and (n * 2) 1) % 2 ^ 32 ≡ 0 = omega (arith, bit_and-ones 1 (n * 2)) in
    let h : n * 2 / 2 ≡ n = omega arith in rw (e, h) (bit_xor-zero n)

unzigzag-odd : (n : ℕ) → n < 2 ^ 31 → unzigzag (n * 2 + 1) ≡ 2 ^ 32 - 1 - n
unfolding unzigzag
unzigzag-odd n w =
    let e : (2 ^ 32 - bit_and (n * 2 + 1) 1) % 2 ^ 32 ≡ 2 ^ 32 - 1 =
      omega (arith, bit_and-ones 1 (n * 2 + 1)) in
    let h : (n * 2 + 1) / 2 ≡ n = omega arith in rw (e, h) (bit_xor-ones 32 n (omega arith))

pub unzigzag-zigzag : (i : ℕ) → IsU32 i → unzigzag (zigzag i) ≡ i
unzigzag-zigzag i w = elim (Bool-cases (leb (2 ^ 31) i)) [
  | inr e ↦ ap unzigzag (zigzag-small i (ground arith)) ∙ unzigzag-even i
  | inl e ↦
      (let code : zigzag i ≡ (2 ^ 32 - i - 1) * 2 + 1 =
          omega (arith, zigzag-negative i (ground arith) w) in
        ap unzigzag code ∙ unzigzag-odd (2 ^ 32 - i - 1) (ground arith) ∙ omega arith)
]

-- `_varint_decode_s` reads back the signed 32-bit word that `varint_encode_s` wrote, and leaves
-- what stands behind it.
pub decode_s-varint_encode_s :
    (i : ℕ) (rest : List ℕ) → IsU32 i → decode_s (varint_encode_s i ++ rest) ≡ some (i, rest)
unfolding decode_s varint_encode_s signed_result
decode_s-varint_encode_s i rest w =
    rw (decode-varint_encode (zigzag i) rest (zigzag-IsU32 i w), unzigzag-zigzag i w) refl
