-- ===== src/VarInt/Codec.antt =====
-- What `varint_encode` of src/panda/varint.h writes, and that `_varint_decode` reads it back.
use Prim.Native.Nat.{bit_and, bit_or}
use panda_lib.Base.{
  ℕ, zero, suc, ◌+◌, ◌*◌, ◌/◌, ◌%◌, ◌^◌, ◌≤◌, ◌<◌, ◌≡◌, refl, ap, ◌∙◌, Bool-cases, inl, inr, true,
  false, some, List, [], ◌∷◌, ◌++◌, append_assoc, ◌==◌, ltb, if◌then◌else◌, arith, lt_wf,
}
use panda_lib.Base.Bits.{bit_and-ones, bit_or-shifted, top_bit, top_bit-set}
use mathlib.Core.WellFounded.{Acc}
use native.Mathlib.Nat.{div-add-mod}
use native.Mathlib.Numerals.{towards_suc}
use panda_lib.VarInt.{IsU32, encode_loop, varint_encode, group, decode_loop, decode}

-- The groups of seven bits of a number below 128 ^ (k + 1), lowest first.
unfoldable pub groups : ℕ → ℕ → List ℕ
groups zero i = i ∷ []
groups (suc k) i =
    let rest = groups k (i / 128) in if ltb 127 i then (i % 128 + 128) ∷ rest else i ∷ []

inner_byte : (i : ℕ) → bit_or 0x80 (bit_and i 0x7f % 256) ≡ i % 128 + 128
inner_byte i =
    let e : bit_and i 0x7f % 256 ≡ i % 128 = omega (arith, bit_and-ones 7 i) in
    rw e (top_bit-set (i % 128) (omega arith))

encode_loop-groups :
    (k : ℕ) (res : List ℕ) (i : ℕ) (w : Acc ◌<◌ i)
    → i < 128 ^ suc k
    → encode_loop res i w ≡ res ++ groups k i
unfolding encode_loop groups
encode_loop-groups zero res i (Acc.intro _ smaller) h = ground arith
encode_loop-groups (suc k) res i (Acc.intro _ smaller) h =
    let first : List ℕ = (i % 128 + 128) ∷ [] in
    grind (
      arith,
      inner_byte i,
      λ (w : Acc ◌<◌ (i / 2 ^ 7)). encode_loop-groups k (res ++ first) (i / 2 ^ 7) w (omega arith),
      append_assoc res first (groups k (i / 2 ^ 7)),
    )

-- `varint_encode` writes the groups of a word.
pub varint_encode-groups : (i : ℕ) → IsU32 i → varint_encode i ≡ groups 4 i
unfolding varint_encode
varint_encode-groups i h = encode_loop-groups 4 [] i (lt_wf.apply i) (omega arith)

seven_more : (s : ℕ) → 2 ^ (7 * (s + 1)) ≡ 128 * 2 ^ (7 * s)
seven_more s =
    let e : 7 * (s + 1) ≡ 7 * s + 7 = omega arith in rw e (simp towards_suc (omega arith))

-- The lowest group of a number and the rest, both shifted.
split_group : (v s : ℕ) → v * 2 ^ (7 * s) ≡ v % 128 * 2 ^ (7 * s) + v / 128 * 2 ^ (7 * (s + 1))
split_group v s = omega (
  arith,
  ap (λ (t : ℕ). t * 2 ^ (7 * s)) (div-add-mod v 128),
  ap (λ (t : ℕ). v / 128 * t) (seven_more s),
)

-- A group that fits is added.
add_group :
    (b s r : ℕ)
    → r < 2 ^ (7 * s)
    → IsU32 (r + b % 128 * 2 ^ (7 * s))
    → bit_or r (group b s) ≡ r + b % 128 * 2 ^ (7 * s)
add_group b s r low fits =
    let e : group b s ≡ b % 128 * 2 ^ (7 * s) =
      omega (arith, ap (λ (t : ℕ). t * 2 ^ (7 * s)) (bit_and-ones 7 b)) in
    rw e (bit_or-shifted (7 * s) r (b % 128) low)

last_byte :
    (w s r : ℕ) (rest : List ℕ)
    → w < 128
    → r < 2 ^ (7 * s)
    → IsU32 (r + w * 2 ^ (7 * s))
    → decode_loop (w ∷ rest) s r ≡ some (r + w * 2 ^ (7 * s), rest)
unfolding decode_loop
last_byte w s r rest h low fits =
    let small : w % 128 ≡ w = omega arith in
    let added = add_group w s r low (rw small fits) in
    let stops : (bit_and w 0x80 == 0) ≡ true = ground (arith, top_bit w) in
    rw (stops, added, small) refl

inner_step :
    (g s r : ℕ) (rest : List ℕ)
    → g < 128
    → r < 2 ^ (7 * s)
    → IsU32 (r + g * 2 ^ (7 * s))
    → decode_loop ((g + 128) ∷ rest) s r ≡ decode_loop rest (s + 1) (r + g * 2 ^ (7 * s))
unfolding decode_loop
inner_step g s r rest h low fits =
    let small : (g + 128) % 128 ≡ g = omega arith in
    let added = add_group (g + 128) s r low (rw small fits) in
    let goes_on : (bit_and (g + 128) 0x80 == 0) ≡ false = ground (arith, top_bit (g + 128)) in
    rw (goes_on, added, small) refl

low_end : (g x : ℕ) → g < 128 → g * x ≤ 127 * x
low_end g x h = grind arith

-- `v` is what is still to be read, and counts from group `s` on.
decode_loop-groups :
    (k v s r : ℕ) (rest : List ℕ)
    → v < 128 ^ suc k
    → r < 2 ^ (7 * s)
    → IsU32 (r + v * 2 ^ (7 * s))
    → decode_loop (groups k v ++ rest) s r ≡ some (r + v * 2 ^ (7 * s), rest)
unfolding groups
decode_loop-groups zero v s r rest h low fits = last_byte v s r rest (omega arith) low fits
decode_loop-groups (suc k) v s r rest h low fits = elim (Bool-cases (ltb 127 v)) [
  | inr e ↦ rw e (last_byte v s r rest (ground arith) low fits)
  | inl e ↦
      (let sp = split_group v s in
        let room = low_end (v % 128) (2 ^ (7 * s)) (omega arith) in
        rw e (
          inner_step (v % 128) s r (groups k (v / 128) ++ rest) (omega arith) low
            (omega (arith, sp, fits))
          ∙ decode_loop-groups k (v / 128) (s + 1) (r + v % 128 * 2 ^ (7 * s)) rest (omega arith)
              (omega (arith, room, seven_more s)) (omega (arith, sp, fits))
          ∙ ap (λ (n : ℕ). some (n, rest)) (omega (arith, sp))))
]

-- `_varint_decode` reads back the word that `varint_encode` wrote, and stops behind it.
pub decode-varint_encode :
    (i : ℕ) (rest : List ℕ) → IsU32 i → decode (varint_encode i ++ rest) ≡ some (i, rest)
unfolding decode
decode-varint_encode i rest h = rw (varint_encode-groups i h) (
    decode_loop-groups 4 i 0 0 rest (omega arith) (omega arith) (omega arith)
    ∙ ap (λ (n : ℕ). some (n, rest)) (omega arith))
