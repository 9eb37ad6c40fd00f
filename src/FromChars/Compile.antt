-- ===== src/FromChars/Compile.antt =====
-- `_compile` of src/panda/from_chars.cc writes the digits of a number.
use panda_lib.Base.{
  ℕ, zero, suc, ◌+◌, ◌*◌, ◌/◌, ◌%◌, ◌^◌, ◌≤◌, ◌<◌, ◌≡◌, refl, sym, ap, ◌∙◌, false, Bool-cases, some,
  List, [], ◌∷◌, ◌++◌, append_assoc, ◌==◌, ==→eq, length, length-append, inl, inr, arith,
}
use panda_lib.FromChars.{index, rindex, compile}
use panda_lib.FromChars.Parse.{value_of, AllDigits}
use native.Mathlib.Nat.{mod-add-div, mod-lt, mul_comm, div-lt_iff_lt-mul, pow-zero, pow-suc}

-- `_rindex` is turned round by `_index`.
index-rindex : (d : ℕ) → d < 36 → index (rindex d) ≡ d
index-rindex d h = ground arith

value_of-append :
    (base res : ℕ) (ds : List ℕ) (c : ℕ)
    → value_of base res (ds ++ c ∷ []) ≡ value_of base res ds * base + index c
unfolding value_of
value_of-append base res [] c = refl
value_of-append base res (d ∷ ds) c = value_of-append base (res * base + index d) ds c

AllDigits-append :
    (base : ℕ) (ds : List ℕ) (c : ℕ)
    → AllDigits base ds
    → index c < base
    → AllDigits base (ds ++ c ∷ [])
AllDigits-append base [] c all h = (h, tt)
AllDigits-append base (d ∷ ds) c all h = (all.0, AllDigits-append base ds c all.1 h)

-- The digits that stand for a number, no more of them than places.
pub record AreDigitsOf (base room value : ℕ) (ds : List ℕ) : Type 0 where
  pub value_is : value_of base 0 ds ≡ value
  pub all : AllDigits base ds
  pub some_digit : 0 < length ds
  pub enough : length ds ≤ room

module _ (base : ℕ) (two : 2 ≤ base) (most : base ≤ 36) where
  last_digit : (value : ℕ) → index (rindex (value % base)) ≡ value % base
  last_digit value =
      index-rindex (value % base) (omega (arith, mod-lt value {m = base} (omega arith)))

  one_digit :
      (room value : ℕ)
      → value / base ≡ 0
      → AreDigitsOf base (suc room) value (rindex (value % base) ∷ [])
  unfolding value_of
  one_digit room value e = record {
    value_is =
        rw (last_digit value) (omega (arith, mod-add-div value base, ap (λ (t : ℕ). base * t) e));
    all = (omega (arith, last_digit value, mod-lt value {m = base} (omega arith)), tt);
    some_digit = omega arith;
    enough = omega arith;
  }

  more_digits :
      (room value : ℕ) (ds : List ℕ)
      → AreDigitsOf base room (value / base) ds
      → AreDigitsOf base (suc room) value (ds ++ rindex (value % base) ∷ [])
  more_digits room value ds d = record {
    value_is =
        value_of-append base 0 ds (rindex (value % base))
        ∙ rw (d.value_is, last_digit value)
            (omega (arith, mod-add-div value base, mul_comm base (value / base)));
    all =
        AllDigits-append base ds (rindex (value % base)) d.all
          (omega (arith, last_digit value, mod-lt value {m = base} (omega arith)));
    some_digit = omega (arith, length-append ds (rindex (value % base) ∷ []));
    enough = omega (arith, d.enough, length-append ds (rindex (value % base) ∷ []));
  }

  shorter : (room value : ℕ) → value < base ^ suc room → value / base < base ^ room
  shorter room value h =
      (div-lt_iff_lt-mul {k = base} {x = value} {y = base ^ room} (omega arith)).1 (rw pow-suc at h)

  places_left : (room q : ℕ) → q < base ^ room → (q == 0) ≡ false → 0 < room
  places_left zero q h e = absurd (ground (arith, pow-zero base))
  places_left (suc room) q h e = omega arith

  -- With places for all digits the loop does not leave the array, and writes the digits of the number
  -- before what is there, no more of them than are needed.
  pub compile-AreDigitsOf :
      (room size value : ℕ) (behind : List ℕ)
      → value < base ^ room
      → 0 < room
      → room ≤ size
      → (ds : List ℕ) × (compile size base value behind ≡ some (ds ++ behind))
        × AreDigitsOf base room value ds
  unfolding compile
  compile-AreDigitsOf zero size value behind h r s = absurd (omega arith)
  compile-AreDigitsOf (suc room) zero value behind h r s = absurd (omega arith)
  compile-AreDigitsOf (suc room) (suc size) value behind h r s =
      elim (Bool-cases (value / base == 0)) [
        | inl e ↦
            (rindex (value % base) ∷ [], rw e refl, one_digit room value (==→eq (value / base) 0 e))
        | inr e ↦
            let next : ℕ = rindex (value % base) in
            let fits : value / base < base ^ room = shorter room value h in
            let (ds, found, digits) =
              compile-AreDigitsOf room size (value / base) (next ∷ behind) fits
                (places_left room (value / base) fits e) (omega arith) in
            (
              ds ++ next ∷ [],
              rw e (found ∙ ap some (sym (append_assoc ds (next ∷ []) behind))),
              more_digits room value ds digits,
            )
      ]
