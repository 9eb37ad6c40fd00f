-- ===== src/Base/Bits.antt =====
-- Laws of the bit operations of C++ on native numbers: `|` of disjoint bits is `+`, and `^` with all
-- ones is the complement.
use Prim.Native.Nat.{
  ℕ, zero, suc, ◌+◌, ◌-◌, ◌*◌, ◌/◌, ◌%◌, ◌^◌, ◌≤◌, ◌<◌, max, min, differ, bit_and, bit_or, bit_xor,
  digits, bit_and-bitwise, bit_or-bitwise, bit_xor-bitwise,
}
use mathlib.Core.Path.{◌≡◌, refl, ap}
use mathlib.Core.Bool.{Bool, true, false}
use mathlib.Core.Logic.{◌⊎◌, inl, inr, ite}
use native.Mathlib.Decide.{ℕ_discrete}
use native.Mathlib.Nat.{div-add-mod, div-div-eq-div-mul, one-le-pow}
use native.Mathlib.Omega.{arith}

-- The binary digits of a result, by fuel: `z` is the result where the first number has run out, which
-- is one step of its own.
module _ (z : ℕ → ℕ) (f : ℕ → ℕ → ℕ) where
  -- The fuel does not matter from the first number on; `bound` is for the recursion.
  settled : (bound fuel x y : ℕ) → fuel ≤ bound → x ≤ fuel → digits z f fuel x y ≡ digits z f x x y
  settled bound zero zero y low enough = refl
  settled bound (suc fuel) zero y low enough = refl
  settled bound zero (suc x) y low enough = absurd (omega arith)
  settled zero (suc fuel) (suc x) y low enough = absurd (omega arith)
  settled (suc bound) (suc fuel) (suc x) y low enough =
      let here = settled bound fuel (suc x / 2) (y / 2) (omega arith) (omega arith) in
      let there = settled bound x (suc x / 2) (y / 2) (omega arith) (omega arith) in
      omega (arith, here, there)

  module _ (run_out : (y : ℕ) → z y ≡ z (y / 2) * 2 + f 0 (y % 2)) where
    low_digit :
        (x y : ℕ) → digits z f x x y ≡ digits z f (x / 2) (x / 2) (y / 2) * 2 + f (x % 2) (y % 2)
    low_digit zero y = omega (arith, run_out y)
    low_digit (suc x) y =
        let same = settled x x (suc x / 2) (y / 2) (omega arith) (omega arith) in
        omega (arith, same)

differ_none : (b : ℕ) → b ≡ b / 2 * 2 + differ 0 (b % 2)
differ_none b = omega arith

max_none : (b : ℕ) → b ≡ b / 2 * 2 + max 0 (b % 2)
max_none b = omega arith

min_none : (b : ℕ) → 0 ≡ 0 * 2 + min 0 (b % 2)
min_none b = omega arith

-- The lowest bit of each operation.
pub bit_xor_step : (x y : ℕ) → bit_xor x y ≡ bit_xor (x / 2) (y / 2) * 2 + differ (x % 2) (y % 2)
bit_xor_step x y =
    let whole = bit_xor-bitwise x y in
    let half = bit_xor-bitwise (x / 2) (y / 2) in
    omega (arith, whole, half, low_digit (λ v. v) differ differ_none x y)

pub bit_or_step : (x y : ℕ) → bit_or x y ≡ bit_or (x / 2) (y / 2) * 2 + max (x % 2) (y % 2)
bit_or_step x y =
    let whole = bit_or-bitwise x y in
    let half = bit_or-bitwise (x / 2) (y / 2) in
    omega (arith, whole, half, low_digit (λ v. v) max max_none x y)

pub bit_and_step : (x y : ℕ) → bit_and x y ≡ bit_and (x / 2) (y / 2) * 2 + min (x % 2) (y % 2)
bit_and_step x y =
    let whole = bit_and-bitwise x y in
    let half = bit_and-bitwise (x / 2) (y / 2) in
    omega (arith, whole, half, low_digit (λ v. 0) min min_none x y)

zero-bit_or : (b : ℕ) → bit_or 0 b ≡ b
zero-bit_or b = bit_or-bitwise 0 b

pub zero-bit_xor : (b : ℕ) → bit_xor 0 b ≡ b
zero-bit_xor b = bit_xor-bitwise 0 b

bit_cases : (x : ℕ) → (x % 2 ≡ 0) ⊎ (x % 2 ≡ 1)
bit_cases x = go (x % 2) (omega arith)
  where
    go : (n : ℕ) → n < 2 → (n ≡ 0) ⊎ (n ≡ 1)
    go zero h = inl refl
    go (suc zero) h = inr refl
    go (suc (suc n)) h = absurd (omega arith)

halves : (n : ℕ) → 2 * n / 2 ≡ n
halves n = omega arith

half_ones : (n : ℕ) → 0 < n → (2 * n - 1) / 2 ≡ n - 1
half_ones n h = omega arith

last_ones : (n : ℕ) → 0 < n → (2 * n - 1) % 2 ≡ 1
last_ones n h = omega arith

differ_zero : (x : ℕ) → differ (x % 2) 0 ≡ x % 2
differ_zero x = elim (bit_cases x) [ inl e ↦ rw e refl | inr e ↦ rw e refl ]

differ_one : (x : ℕ) → differ (x % 2) 1 ≡ 1 - x % 2
differ_one x = elim (bit_cases x) [ inl e ↦ rw e refl | inr e ↦ rw e refl ]

pow_suc : (s : ℕ) → 2 ^ suc s ≡ 2 * 2 ^ s
pow_suc s = omega arith

shift_suc : (m s : ℕ) → m * 2 ^ suc s ≡ 2 * (m * 2 ^ s)
shift_suc m s = omega (arith, ap (λ (t : ℕ). m * t) (pow_suc s))

min_one : (x : ℕ) → min (x % 2) 1 ≡ x % 2
min_one x = omega arith

low_parts : (n x : ℕ) → 0 < n → x % (2 * n) ≡ x / 2 % n * 2 + x % 2
low_parts n x h = omega (
  arith,
  div-add-mod x (2 * n),
  div-add-mod (x / 2) n,
  ap (λ (t : ℕ). t * (2 * n)) (div-div-eq-div-mul x 2 n),
)

-- `fuel` is for the recursion on half of the number.
and_nothing : (fuel x : ℕ) → x < suc fuel → bit_and x 0 ≡ 0
and_nothing fuel zero h = refl
and_nothing zero (suc x) h = absurd (omega arith)
and_nothing (suc fuel) (suc x) h =
    let half = and_nothing fuel (suc x / 2) (omega arith) in
    omega (arith, half, bit_and_step (suc x) 0)

-- A mask of `k` ones keeps the low bits.
pub bit_and-ones : (k x : ℕ) → bit_and x (2 ^ k - 1) ≡ x % 2 ^ k
bit_and-ones zero x = omega (arith, and_nothing x x (omega arith))
bit_and-ones (suc k) x = rw (pow_suc k) (
    omega (
      arith,
      bit_and_step x (2 * 2 ^ k - 1),
      ap (bit_and (x / 2)) (half_ones (2 ^ k) (one-le-pow k 2 (omega arith))),
      bit_and-ones k (x / 2),
      ap (min (x % 2)) (last_ones (2 ^ k) (one-le-pow k 2 (omega arith))),
      min_one x,
      low_parts (2 ^ k) x (one-le-pow k 2 (omega arith)),
    ))

-- A shifted number has no bit in common with one below the shift.
pub bit_or-shifted : (s r m : ℕ) → r < 2 ^ s → bit_or r (m * 2 ^ s) ≡ r + m * 2 ^ s
bit_or-shifted zero zero m h = omega (arith, zero-bit_or (m * 2 ^ 0))
bit_or-shifted zero (suc r) m h = absurd (omega arith)
bit_or-shifted (suc s) r m h = rw (shift_suc m s) (
    omega (
      arith,
      bit_or_step r (2 * (m * 2 ^ s)),
      halves (m * 2 ^ s),
      ap (bit_or (r / 2)) (halves (m * 2 ^ s)),
      bit_or-shifted s (r / 2) m (omega (arith, pow_suc s)),
    ))

xor_nothing : (fuel x : ℕ) → x < suc fuel → bit_xor x 0 ≡ x
xor_nothing fuel zero h = refl
xor_nothing zero (suc x) h = absurd (omega arith)
xor_nothing (suc fuel) (suc x) h =
    let half = xor_nothing fuel (suc x / 2) (omega arith) in
    omega (arith, half, bit_xor_step (suc x) 0, differ_zero (suc x))

pub bit_xor-zero : (a : ℕ) → bit_xor a 0 ≡ a
bit_xor-zero a = xor_nothing a a (omega arith)

-- All `k` ones.
pub bit_xor-ones : (k x : ℕ) → x < 2 ^ k → bit_xor x (2 ^ k - 1) ≡ 2 ^ k - 1 - x
bit_xor-ones zero zero h = refl
bit_xor-ones zero (suc x) h = absurd (omega arith)
bit_xor-ones (suc k) x h = rw (pow_suc k) (
    omega (
      arith,
      bit_xor_step x (2 * 2 ^ k - 1),
      ap (bit_xor (x / 2)) (half_ones (2 ^ k) (omega arith)),
      bit_xor-ones k (x / 2) (omega (arith, pow_suc k)),
      ap (differ (x % 2)) (last_ones (2 ^ k) (omega arith)),
      differ_one x,
    ))

-- Two functions agree below a bound where a table of their values does.
module _ (f g : ℕ → ℕ) where
  pub same_below : ℕ → Bool
  unfolding ℕ_discrete
  same_below zero = true
  same_below (suc n) = ite (ℕ_discrete (f n) (g n)) (same_below n) false

  pub same_below→eq : (n i : ℕ) → same_below n ≡ true → i < n → f i ≡ g i
  unfolding same_below
  same_below→eq zero i e h = absurd (omega arith)
  same_below→eq (suc n) i e h = ground (arith, same_below→eq n i (ground arith))

-- The top bit of a byte, set and tested.
pub top_bit-set : (b : ℕ) → b < 128 → bit_or 0x80 b ≡ b + 128
unfolding same_below
top_bit-set b = same_below→eq (bit_or 0x80) (λ b. b + 128) 128 b refl

pub top_bit : (b : ℕ) → b < 256 → bit_and b 0x80 ≡ b / 128 * 128
unfolding same_below
top_bit b = same_below→eq (λ b. bit_and b 0x80) (λ b. b / 128 * 128) 256 b refl
