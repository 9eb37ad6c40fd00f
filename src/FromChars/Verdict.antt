-- ===== src/FromChars/Verdict.antt =====
-- What `_from_chars` of src/panda/from_chars.cc makes of a text.
use panda_lib.Base.{
  ℕ, ◌-◌, ◌%◌, ◌^◌, ◌≤◌, ◌<◌, ◌≡◌, refl, ap, ◌∙◌, Bool, true, false, not, Bool-cases, List, [], ◌∷◌,
  ◌++◌, ◌==◌, ==_refl, length, length-append, leb, if◌then◌else◌, inl, inr, arith,
}
use panda_lib.FromChars.{
  index, base_of, no_error, invalid_argument, result_out_of_range, Parsed, parse, skip_spaces,
  FromChars, result, unsigned_at, signed_at, from_chars, from_chars_signed,
}
use panda_lib.FromChars.Parse.{value_of, AllDigits, Ended, read, parse_loop-read}

module _ (is_space : ℕ → Bool) where
  abbrev pub AllSpaces : List ℕ → Type 0
  AllSpaces [] = Unit {0}
  AllSpaces (c ∷ cs) = (is_space c ≡ true) × AllSpaces cs

  abbrev pub Unspaced : List ℕ → Type 0
  Unspaced [] = Unit {0}
  Unspaced (c ∷ cs) = is_space c ≡ false

  skip_spaces-append :
      (spaces text : List ℕ)
      → AllSpaces spaces
      → Unspaced text
      → skip_spaces is_space (spaces ++ text) ≡ text
  unfolding skip_spaces
  skip_spaces-append [] [] all u = refl
  skip_spaces-append [] (c ∷ cs) all u = rw u refl
  skip_spaces-append (c ∷ cs) text all u = rw (all.0) (skip_spaces-append cs text all.1 u)

-- What comes of digits and the text behind them: no digit is an argument that is not valid, and a
-- number that does not fit is out of range.
abbrev pub verdict : List ℕ → List ℕ → Bool → List ℕ → ℕ → FromChars
verdict text [] fits rest value = record { ptr = text; ec = invalid_argument; value = value }
verdict text (d ∷ ds) true rest value = record { ptr = rest; ec = no_error; value = value }
verdict text (d ∷ ds) false rest value = record {
  ptr = rest;
  ec = result_out_of_range;
  value = value;
}

no_digits : (rest : List ℕ) → (length rest == length rest) ≡ true
no_digits rest = ==_refl (length rest)

digits_read : (d : ℕ) (ds rest : List ℕ) → (length rest == length (d ∷ ds ++ rest)) ≡ false
digits_read d ds rest = ground (arith, length-append ds rest)

at_end :
    (r value : ℕ) (fits : Bool) (text ds rest : List ℕ)
    → result text (ds ++ rest) (record { res = r; overflow = not fits; left = rest }) value
      ≡ verdict text ds fits rest value
unfolding result
at_end r value fits text [] rest = rw (no_digits rest) refl
at_end r value true text (d ∷ ds) rest = rw (digits_read d ds rest) refl
at_end r value false text (d ∷ ds) rest = rw (digits_read d ds rest) refl

result-verdict :
    (max n value : ℕ) (text ds rest : List ℕ)
    → result text (ds ++ rest) (read max n rest) value ≡ verdict text ds (leb n max) rest value
result-verdict max n value text ds rest = elim (Bool-cases (leb n max)) [
  | inl e ↦ rw e (at_end n value true text ds rest)
  | inr e ↦ rw e (at_end max value false text ds rest)
]

pub base_of-low : (base : ℕ) → 2 ≤ base_of base
base_of-low base = ground arith

pub base_of-high : (base : ℕ) → base_of base ≤ 36
base_of-high base = ground arith

abbrev pub capped : ℕ → ℕ → ℕ
capped max n = if leb n max then n else max

read-capped : (max n : ℕ) (rest : List ℕ) → (read max n rest).res ≡ capped max n
read-capped max n rest = elim (Bool-cases (leb n max)) [ inl e ↦ rw e refl | inr e ↦ rw e refl ]

module _ (base : ℕ) where
  parse-read :
      (max : ℕ) (ds rest : List ℕ)
      → AllDigits (base_of base) ds
      → Ended (base_of base) rest
      → parse (base_of base) max (ds ++ rest) ≡ read max (value_of (base_of base) 0 ds) rest
  unfolding parse
  parse-read max ds rest all end =
      parse_loop-read (base_of base) max (omega (arith, base_of-low base)) 0 ds rest (omega arith)
        all end

module _ (w base : ℕ) (text ds rest : List ℕ) where
  -- The value of the digits.
  abbrev pub number : ℕ
  number = value_of (base_of base) 0 ds

  module _ (all : AllDigits (base_of base) ds) (end : Ended (base_of base) rest) where
    -- The result with a value made of what is parsed.
    shown :
        (max : ℕ) (k : ℕ → ℕ)
        → (λ (p : Parsed). result text (ds ++ rest) p (k p.res))
            (parse (base_of base) max (ds ++ rest))
          ≡ verdict text ds (leb number max) rest (k (capped max number))
    shown max k =
        ap (λ (p : Parsed). result text (ds ++ rest) p (k p.res))
          (parse-read base max ds rest all end)
        ∙ ap (λ n. result text (ds ++ rest) (read max number rest) (k n))
            (read-capped max number rest)
        ∙ result-verdict max number (k (capped max number)) text ds rest

    unsigned_at-verdict :
        unsigned_at w (base_of base) text (ds ++ rest)
        ≡ verdict text ds (leb number (2 ^ w - 1)) rest (capped (2 ^ w - 1) number)
    unfolding unsigned_at
    unsigned_at-verdict = shown (2 ^ w - 1) (λ n. n)

    signed_at-minus :
        signed_at w (base_of base) text (45 ∷ ds ++ rest)
        ≡ verdict text ds
            (leb number (2 ^ (w - 1)))
            rest
            ((2 ^ w - capped (2 ^ (w - 1)) number) % 2 ^ w)
    unfolding signed_at
    signed_at-minus = shown (2 ^ (w - 1)) (λ n. (2 ^ w - n) % 2 ^ w)

no_minus : (base c : ℕ) → index c < base_of base → (c == 45) ≡ false
no_minus base c h = ground arith

signed_at-plus :
    (w base : ℕ) (text : List ℕ) (d : ℕ) (ds rest : List ℕ)
    → AllDigits (base_of base) (d ∷ ds)
    → Ended (base_of base) rest
    → signed_at w (base_of base) text (d ∷ ds ++ rest)
      ≡ verdict text
          (d ∷ ds)
          (leb (value_of (base_of base) 0 (d ∷ ds)) (2 ^ (w - 1) - 1))
          rest
          (capped (2 ^ (w - 1) - 1) (value_of (base_of base) 0 (d ∷ ds)))
unfolding signed_at
signed_at-plus w base text d ds rest all end =
    rw (no_minus base d all.0) (shown w base text (d ∷ ds) rest all end (2 ^ (w - 1) - 1) (λ n. n))

module _ (is_space : ℕ → Bool) (w base : ℕ) (spaces ds rest : List ℕ) where
  module _ (blank : AllSpaces is_space spaces) (all : AllDigits (base_of base) ds)
      (end : Ended (base_of base) rest) where
    -- Of spaces, digits and a text in which no number goes on, an unsigned `from_chars` makes the value
    -- of the digits where it fits into w bits, and else the greatest value and `result_out_of_range`;
    -- the pointer is then behind the digits. Without a digit it is `invalid_argument` with the
    -- pointer at the beginning. What comes after the spaces does not begin with a space.
    pub from_chars-verdict :
        Unspaced is_space (ds ++ rest)
        → from_chars is_space w base (spaces ++ (ds ++ rest))
          ≡ verdict
              (spaces ++ (ds ++ rest))
              ds
              (leb (value_of (base_of base) 0 ds) (2 ^ w - 1))
              rest
              (capped (2 ^ w - 1) (value_of (base_of base) 0 ds))
    unfolding from_chars
    from_chars-verdict u =
        let text : List ℕ = spaces ++ (ds ++ rest) in
        ap (unsigned_at w (base_of base) text)
          (skip_spaces-append is_space spaces (ds ++ rest) blank u)
        ∙ unsigned_at-verdict w base text ds rest all end

    -- A minus sign before the digits of a signed number: the negated value where it fits, and else
    -- the least value and `result_out_of_range`; without a digit it is `invalid_argument`. The minus
    -- sign is no space.
    pub from_chars_signed-verdict :
        is_space 45 ≡ false
        → from_chars_signed is_space w base (spaces ++ 45 ∷ (ds ++ rest))
          ≡ verdict
              (spaces ++ 45 ∷ (ds ++ rest))
              ds
              (leb (value_of (base_of base) 0 ds) (2 ^ (w - 1)))
              rest
              ((2 ^ w - capped (2 ^ (w - 1)) (value_of (base_of base) 0 ds)) % 2 ^ w)
    unfolding from_chars_signed
    from_chars_signed-verdict u =
        let text : List ℕ = spaces ++ 45 ∷ (ds ++ rest) in
        ap (signed_at w (base_of base) text)
          (skip_spaces-append is_space spaces (45 ∷ ds ++ rest) blank u)
        ∙ signed_at-minus w base text ds rest all end

-- Digits of a signed number without a sign: the value where it fits, and else the greatest value and
-- `result_out_of_range`. The first digit is no space.
pub from_chars_signed-plus :
    (is_space : ℕ → Bool) (w base : ℕ) (spaces : List ℕ) (d : ℕ) (ds rest : List ℕ)
    → AllSpaces is_space spaces
    → AllDigits (base_of base) (d ∷ ds)
    → Ended (base_of base) rest
    → is_space d ≡ false
    → from_chars_signed is_space w base (spaces ++ d ∷ (ds ++ rest))
      ≡ verdict
          (spaces ++ d ∷ (ds ++ rest))
          (d ∷ ds)
          (leb (value_of (base_of base) 0 (d ∷ ds)) (2 ^ (w - 1) - 1))
          rest
          (capped (2 ^ (w - 1) - 1) (value_of (base_of base) 0 (d ∷ ds)))
unfolding from_chars_signed
from_chars_signed-plus is_space w base spaces d ds rest blank all end u =
    let text : List ℕ = spaces ++ d ∷ (ds ++ rest) in
    ap (signed_at w (base_of base) text)
      (skip_spaces-append is_space spaces (d ∷ ds ++ rest) blank u)
    ∙ signed_at-plus w base text d ds rest all end
