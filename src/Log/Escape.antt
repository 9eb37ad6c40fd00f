-- ===== src/Log/Escape.antt =====
-- `escaped` of src/panda/log/log.cc, on texts of bytes. `char` is signed.
use panda_lib.Base.{
  ℕ, ◌+◌, ◌/◌, ◌%◌, ◌<◌, ◌&&◌, Bool-cases, List, [], ◌∷◌, ◌++◌, ltb, ltb→lt, inl, inr,
  if◌then◌else◌, arith,
}

-- `setw(2)` with the fill '0': at least two digits.
abbrev two_digits : ℕ → List ℕ
two_digits n =
    if ltb n 100
    then (48 + n / 10) ∷ (48 + n % 10) ∷ []
    else (48 + n / 100) ∷ (48 + n / 10 % 10) ∷ (48 + n % 10) ∷ []

-- One byte: a `char` of at least 128 is negative.
unfoldable pub escape_char : ℕ → List ℕ
escape_char c = if ltb 31 c && ltb c 128 then c ∷ [] else 92 ∷ two_digits c

unfoldable pub escape : List ℕ → List ℕ
unfolding escape_char
escape [] = []
escape (c ∷ cs) = escape_char c ++ escape cs

abbrev pub AreBytes : List ℕ → Type 0
AreBytes [] = Unit {0}
AreBytes (c ∷ cs) = (c < 256) × AreBytes cs

abbrev pub ArePrintable : List ℕ → Type 0
ArePrintable [] = Unit {0}
ArePrintable (c ∷ cs) = (31 < c) × (c < 128) × ArePrintable cs

ArePrintable-append : (xs ys : List ℕ) → ArePrintable xs → ArePrintable ys → ArePrintable (xs ++ ys)
ArePrintable-append [] ys p q = q
ArePrintable-append (x ∷ xs) ys p q = (p.0, p.1, ArePrintable-append xs ys p.2 q)

two_digits-ArePrintable : (n : ℕ) → n < 256 → ArePrintable (two_digits n)
two_digits-ArePrintable n byte = elim (Bool-cases (ltb n 100)) [
  | inl e ↦
      let small : n < 100 = ltb→lt n 100 e in
      rw e (omega arith, omega arith, (omega arith, omega arith, tt))
  | inr e ↦
      rw e (omega arith, omega arith, (omega arith, omega arith, (omega arith, omega arith, tt)))
]

escape_char-ArePrintable : (c : ℕ) → c < 256 → ArePrintable (escape_char c)
unfolding escape_char
escape_char-ArePrintable c byte = elim (Bool-cases (ltb 31 c)) [
  | inr e ↦ rw e (omega arith, omega arith, two_digits-ArePrintable c byte)
  | inl e ↦ elim (Bool-cases (ltb c 128)) [
    | inl q ↦ rw (e, q) (ltb→lt 31 c e, ltb→lt c 128 q, tt)
    | inr q ↦ rw (e, q) (omega arith, omega arith, two_digits-ArePrintable c byte)
  ]
]

-- What `escaped` puts out of bytes are characters from 32 up to 127.
pub escape-ArePrintable : (cs : List ℕ) → AreBytes cs → ArePrintable (escape cs)
unfolding escape
escape-ArePrintable [] b = tt
escape-ArePrintable (c ∷ cs) b =
    ArePrintable-append (escape_char c) (escape cs) (escape_char-ArePrintable c b.0)
      (escape-ArePrintable cs b.1)
