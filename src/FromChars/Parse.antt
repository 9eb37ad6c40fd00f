-- ===== src/FromChars/Parse.antt =====
-- `_parse` of src/panda/from_chars.cc against the value of a row of digits.
use panda_lib.Base.{
  ℕ, ◌+◌, ◌-◌, ◌*◌, ◌/◌, ◌≤◌, ◌<◌, ◌≡◌, refl, true, false, Bool-cases, List, [], ◌∷◌, ◌++◌, leb,
  ltb, le→leb, gt→leb, ltb→lt, ltb→ge, if◌then◌else◌, inl, inr, arith,
}
use panda_lib.FromChars.{index, skip_digits, Parsed, parse_loop}
use native.Mathlib.Nat.{le-mul_of_pos_right, div-lt_iff_lt-mul, le-div_iff_mul-le}

-- The value of digits behind a number.
unfoldable pub value_of : ℕ → ℕ → List ℕ → ℕ
value_of base res [] = res
value_of base res (c ∷ cs) = value_of base (res * base + index c) cs

abbrev pub AllDigits : ℕ → List ℕ → Type 0
AllDigits base [] = Unit {0}
AllDigits base (c ∷ cs) = (index c < base) × AllDigits base cs

-- Text in which no number goes on.
abbrev pub Ended : ℕ → List ℕ → Type 0
Ended base [] = Unit {0}
Ended base (c ∷ cs) = base ≤ index c

-- What `_parse` makes of a number and the text behind it.
abbrev pub read : ℕ → ℕ → List ℕ → Parsed
read max value rest =
    if leb value max
    then record { res = value; overflow = false; left = rest }
    else record { res = max; overflow = true; left = rest }

module _ (base max : ℕ) (b : 0 < base) where
  grows : (res d : ℕ) → res ≤ res * base + d
  grows res d = omega (arith, le-mul_of_pos_right res b)

  value_grows : (res : ℕ) (ds : List ℕ) → res ≤ value_of base res ds
  unfolding value_of
  value_grows res [] = omega arith
  value_grows res (c ∷ cs) =
      omega (arith, grows res (index c), value_grows (res * base + index c) cs)

  -- The tests of the loop: whether one more digit fits.
  quotient_test : (res : ℕ) → ltb (max / base) res ≡ true → max < res * base
  quotient_test res h = (div-lt_iff_lt-mul b).0 (ltb→lt (max / base) res h)

  quotient_room : (res : ℕ) → ltb (max / base) res ≡ false → res * base ≤ max
  quotient_room res h = (le-div_iff_mul-le b).0 (ltb→ge (max / base) res h)

  skipped :
      (ds rest : List ℕ)
      → AllDigits base ds
      → Ended base rest
      → skip_digits base (ds ++ rest) ≡ rest
  unfolding skip_digits
  skipped [] [] all end = refl
  skipped [] (c ∷ cs) all end = rw (le→leb base (index c) end) refl
  skipped (c ∷ cs) rest all end = rw (gt→leb base (index c) all.0) (skipped cs rest all.1 end)

  overflown :
      (value : ℕ) (ds rest : List ℕ)
      → AllDigits base ds
      → Ended base rest
      → max < value
      → record { res = max; overflow = true; left = skip_digits base (ds ++ rest) }
        ≡ read max value rest
  overflown value ds rest all end h = rw (skipped ds rest all end, gt→leb value max h) refl

  -- `_parse` of digits behind a number that fits: their value where it fits, and the greatest value
  -- and the mark of overflow where it does not. The rest of the text is left in both cases.
  pub parse_loop-read :
      (res : ℕ) (ds rest : List ℕ)
      → res ≤ max
      → AllDigits base ds
      → Ended base rest
      → parse_loop base max res (ds ++ rest) ≡ read max (value_of base res ds) rest
  unfolding parse_loop value_of
  parse_loop-read res [] [] h all end = rw (le→leb res max h) refl
  parse_loop-read res [] (c ∷ cs) h all end = rw (le→leb base (index c) end, le→leb res max h) refl
  parse_loop-read res (c ∷ cs) rest h all end =
      let digit : leb base (index c) ≡ false = gt→leb base (index c) all.0 in
      let more : res * base + index c ≤ value_of base (res * base + index c) cs =
        value_grows (res * base + index c) cs in
      elim (Bool-cases (ltb (max / base) res)) [
        | inl e ↦
            rw (digit, e) (overflown _ cs rest all.1 end (omega (arith, quotient_test res e, more)))
        | inr e ↦ elim (Bool-cases (ltb (max - res * base) (index c))) [
          | inl f ↦
              rw (digit, e, f) (overflown _ cs rest all.1 end (omega (arith, ltb→lt _ _ f, more)))
          | inr f ↦
              rw (digit, e, f)
                (parse_loop-read (res * base + index c) cs rest
                  (omega (arith, quotient_room res e, ltb→ge _ _ f)) all.1 end)
        ]
      ]
