-- ===== src/FromChars/RoundTrip.antt =====
-- `_from_chars` of src/panda/from_chars.cc reads what `_to_chars` writes.
use panda_lib.Base.{
  ℕ, zero, suc, ◌+◌, ◌-◌, ◌^◌, ◌≤◌, ◌<◌, ◌≡◌, refl, ap, ◌∙◌, Bool, true, false, Bool-cases, some,
  List, [], ◌∷◌, ◌++◌, append-nil, length, ltb, le→leb, ltb→lt, lt→ltb, ltb→ge, if◌then◌else◌, inl,
  inr, arith,
}
use native.Mathlib.Nat.{two-pow-succ, mod-eq_of_lt}
use panda_lib.FromChars.{
  index, base_of, no_error, value_too_large, FromChars, from_chars, from_chars_signed, ToChars,
  to_chars, to_chars_signed, copied, put_minus,
}
use panda_lib.FromChars.Parse.{AllDigits, Ended}
use panda_lib.FromChars.Compile.{AreDigitsOf, compile-AreDigitsOf}
use panda_lib.FromChars.Verdict.{
  base_of-low, base_of-high, Unspaced, from_chars-verdict, from_chars_signed-verdict,
  from_chars_signed-plus,
}

-- What is relied on of `std::isspace`: no digit and no letter is a space, and no minus sign.
pub record IsSpaceTest (is_space : ℕ → Bool) : Type 0 where
  pub digit : (c : ℕ) → index c < 36 → is_space c ≡ false
  pub minus : is_space 45 ≡ false

-- What is relied on of `ceil(w * log(2) / log(base))`: so many places hold each number of w bits.
pub record IsEnough (maxsize : ℕ → ℕ → ℕ) (w base : ℕ) : Type 0 where
  pub some_place : 0 < maxsize w base
  pub places : 2 ^ w ≤ base ^ maxsize w base

-- What is written of these characters to a buffer with this space.
abbrev pub written : ℕ → List ℕ → ToChars
written space cs =
    if ltb space (length cs)
    then record { written = []; ec = value_too_large }
    else record { written = cs; ec = no_error }

abbrev pub whole : List ℕ → ℕ → FromChars
whole rest value = record { ptr = rest; ec = no_error; value = value }

module _ (is_space : ℕ → Bool) (maxsize : ℕ → ℕ → ℕ) (space w base : ℕ) (value : ℕ)
    (rest : List ℕ) where
  module _ (s : IsSpaceTest is_space) (m : IsEnough maxsize w (base_of base))
      (end : Ended (base_of base) rest) where
    unspaced :
        (ds : List ℕ) → AllDigits (base_of base) ds → 0 < length ds → Unspaced is_space (ds ++ rest)
    unspaced [] all h = absurd (omega arith)
    unspaced (d ∷ ds) all h = s.digit d (omega (arith, all.0, base_of-high base))

    read_back :
        (ds : List ℕ)
        → AreDigitsOf (base_of base) (maxsize w (base_of base)) value ds
        → value < 2 ^ w
        → from_chars is_space w base (ds ++ rest) ≡ whole rest value
    read_back [] d h = absurd (ground (arith, d.some_digit))
    read_back (c ∷ cs) d h =
        from_chars-verdict is_space w base [] (c ∷ cs) rest tt d.all end
          (unspaced (c ∷ cs) d.all d.some_digit)
        ∙ rw (d.value_is, le→leb value (2 ^ w - 1) (omega arith)) refl

    -- `to_chars` of an unsigned number of w bits stays inside of its array; it writes the digits
    -- where the buffer has space for them, and `value_too_large` where it has not. `from_chars`
    -- reads the digits back, before a text in which no number goes on. The array has places for
    -- each number of w bits, and no digit, letter or minus sign is a space.
    pub from_chars-to_chars :
        value < 2 ^ w
        → (ds : List ℕ) × (to_chars maxsize space w value base ≡ some (written space ds))
          × (from_chars is_space w base (ds ++ rest) ≡ whole rest value)
    unfolding to_chars
    from_chars-to_chars h =
        let (ds, found, digits) =
          compile-AreDigitsOf (base_of base) (base_of-low base) (base_of-high base)
            (maxsize w (base_of base)) (maxsize w (base_of base)) value [] (omega (arith, m.places))
            m.some_place (omega arith) in
        (ds, ap (copied space) (found ∙ ap some (append-nil ds)), read_back ds digits h)

halves : (w : ℕ) → 0 < w → 2 ^ w ≡ 2 ^ (w - 1) + 2 ^ (w - 1)
halves zero h = absurd (omega arith)
halves (suc k) h = let below : suc k - 1 ≡ k = omega arith in rw below (two-pow-succ k)

module _ (is_space : ℕ → Bool) (maxsize : ℕ → ℕ → ℕ) (space w base : ℕ) (value : ℕ)
    (rest : List ℕ) where
  module _ (s : IsSpaceTest is_space) (m : IsEnough maxsize w (base_of base))
      (end : Ended (base_of base) rest) where
    read_plus :
        (ds : List ℕ)
        → AreDigitsOf (base_of base) (maxsize w (base_of base)) value ds
        → value < 2 ^ (w - 1)
        → from_chars_signed is_space w base (ds ++ rest) ≡ whole rest value
    read_plus [] d h = absurd (ground (arith, d.some_digit))
    read_plus (c ∷ cs) d h =
        from_chars_signed-plus is_space w base [] c cs rest tt d.all end
          (s.digit c (omega (arith, d.all.0, base_of-high base)))
        ∙ rw (d.value_is, le→leb value (2 ^ (w - 1) - 1) (omega arith)) refl

    read_minus :
        (ds : List ℕ)
        → AreDigitsOf (base_of base) (maxsize w (base_of base)) (2 ^ w - value) ds
        → value < 2 ^ w
        → 2 ^ w - value ≤ 2 ^ (w - 1)
        → from_chars_signed is_space w base (45 ∷ ds ++ rest) ≡ whole rest value
    read_minus [] d h u = absurd (ground (arith, d.some_digit))
    read_minus (c ∷ cs) d h u =
        let back : 2 ^ w - (2 ^ w - value) ≡ value = omega arith in
        from_chars_signed-verdict is_space w base [] (c ∷ cs) rest tt d.all end s.minus
        ∙ rw (d.value_is, le→leb (2 ^ w - value) (2 ^ (w - 1)) u, back, mod-eq_of_lt h) refl

    -- `to_chars` of a signed number of w bits, w not 0, its least value included, stays inside of
    -- its array; it writes the digits, after a minus sign for a negative number, where the buffer
    -- has space for them, and `value_too_large` where it has not. `from_chars` reads them back as
    -- the same pattern, before a text in which no number goes on. The array has places for each
    -- number of w bits, and no digit, letter or minus sign is a space.
    pub from_chars_signed-to_chars_signed :
        0 < w
        → value < 2 ^ w
        → (cs : List ℕ) × (to_chars_signed maxsize space w value base ≡ some (written space cs))
          × (from_chars_signed is_space w base (cs ++ rest) ≡ whole rest value)
    unfolding to_chars_signed
    from_chars_signed-to_chars_signed some_bit h = elim (Bool-cases (ltb value (2 ^ (w - 1)))) [
      | inl e ↦
          let (ds, found, digits) =
            compile-AreDigitsOf (base_of base) (base_of-low base) (base_of-high base)
              (maxsize w (base_of base)) (maxsize w (base_of base) + 1) value []
              (omega (arith, m.places)) m.some_place (omega arith) in
          (
            ds,
            rw e (ap (copied space) (found ∙ ap some (append-nil ds))),
            read_plus ds digits (ltb→lt _ _ e),
          )
      | inr e ↦
          let half : 2 ^ w ≡ 2 ^ (w - 1) + 2 ^ (w - 1) = halves w some_bit in
          let high : 2 ^ (w - 1) ≤ value = ltb→ge _ _ e in
          let (ds, found, digits) =
            compile-AreDigitsOf (base_of base) (base_of-low base) (base_of-high base)
              (maxsize w (base_of base)) (maxsize w (base_of base) + 1) (2 ^ w - value) []
              (omega (arith, m.places)) m.some_place (omega arith) in
          let room : ltb (length ds) (maxsize w (base_of base) + 1) ≡ true =
            lt→ltb _ _ (omega (arith, digits.enough)) in
          (
            45 ∷ ds,
            rw e (
                ap (λ o. copied space (put_minus (maxsize w (base_of base) + 1) o))
                  (found ∙ ap some (append-nil ds))
                ∙ rw room refl),
            read_minus ds digits h (omega arith),
          )
    ]
