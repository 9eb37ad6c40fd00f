-- ===== src/StringView/Find.antt =====
-- What the searches of src/panda/basic_string_view.h find.
use panda_lib.Base.{
  ℕ, zero, suc, ◌+◌, ◌-◌, ◌%◌, ◌^◌, ◌≤◌, ◌<◌, ◌≡◌, refl, Bool, true, false, not, arith, inl, inr,
  ◌==◌, if◌then◌else◌, Bool-cases, subst, ltb, leb, lt→ltb,
}
use panda_lib.StringView.{View, npos}
use panda_lib.StringView.Traits.{traits_find}
use panda_lib.StringView.Search.{
  find_char, rfind_char, find_first_of, find_last_of, find_first_not_of, find_last_not_of, one_of,
  rounds, last_place, places, scan_up, scan_down,
}
use panda_lib.StringView.Scans.{
  IsFirst, IsLast, IsFirst-here, scan_up-IsFirst, scan_down-IsLast, traits_find-IsFirst,
}

pub IsFirst-past : (test : ℕ → Bool) (lo hi : ℕ) → hi ≤ lo → IsFirst test lo hi npos
unfolding IsFirst
IsFirst-past test lo hi h = inr (refl, λ j a b. absurd (omega arith))

-- `find` of a character results in its first place from `pos` on, and in `npos` where there is none.
pub find_char-IsFirst :
    (ch pos : ℕ) (v : View) → IsFirst (λ i. v.str i == ch) pos v.length (find_char ch pos v)
unfolding find_char
find_char-IsFirst ch pos v = elim (Bool-cases (leb v.length pos)) [
  | inl t ↦ rw t (IsFirst-past (λ i. v.str i == ch) pos v.length (ground arith))
  | inr t ↦ rw t (traits_find-IsFirst v.str pos (v.length - pos) ch v.length (ground arith))
]

-- Below `pos` and below the length.
abbrev pub last_bound : ℕ → View → ℕ
last_bound pos v = if leb v.length pos then v.length else pos + 1

-- `rfind` of a character results in its last place up to `pos`, and in `npos` where there is none.
pub rfind_char-IsLast :
    (ch pos : ℕ) (v : View) → IsLast (λ i. v.str i == ch) (last_bound pos v) (rfind_char ch pos v)
unfolding rfind_char
rfind_char-IsLast ch pos v = scan_down-IsLast (λ i. v.str i == ch) (last_bound pos v)

bound_of_last :
    (len pos : ℕ)
    → len < 2 ^ 63
    → (if ltb (if leb len pos then (len + 2 ^ 64 - 1) % 2 ^ 64 else pos) (2 ^ 63)
        then (if leb len pos then (len + 2 ^ 64 - 1) % 2 ^ 64 else pos) + 1
        else 0)
      ≡ (if leb len pos then len else pos + 1)
bound_of_last zero pos h = elim (Bool-cases (leb zero pos)) [
  | inl e ↦ rw e refl
  | inr e ↦ absurd (ground arith)
]
bound_of_last (suc len) pos h =
    let e : (suc len + 2 ^ 64 - 1) % 2 ^ 64 ≡ len = omega arith in rw e (ground arith)

rounds-last_place :
    (pos : ℕ) (v : View) → v.length < 2 ^ 63 → rounds (last_place pos v) ≡ last_bound pos v
unfolding rounds last_place
rounds-last_place pos v h = bound_of_last v.length pos h

IsLast-down :
    (test : ℕ → Bool) (pos : ℕ) (v : View)
    → v.length < 2 ^ 63
    → IsLast test (last_bound pos v) (scan_down test (rounds (last_place pos v)))
IsLast-down test pos v h =
    subst (λ n. IsLast test n (scan_down test (rounds (last_place pos v))))
      (rounds-last_place pos v h) (scan_down-IsLast test (rounds (last_place pos v)))

up_from :
    (test : ℕ → Bool) (pos : ℕ) (v : View)
    → v.length < 2 ^ 63
    → pos < 2 ^ 63
    → IsFirst test pos v.length (scan_up test pos (places pos v.length))
unfolding scan_up places
up_from test pos v short low = rw (lt→ltb pos (2 ^ 63) low) (elim (Bool-cases (leb v.length pos)) [
  | inl t ↦
      (let e : v.length - pos ≡ 0 = ground arith in
        rw e (IsFirst-past test pos v.length (ground arith)))
  | inr t ↦ scan_up-IsFirst test pos (v.length - pos) v.length (omega (arith, short)) (ground arith)
])

IsLast-none : (test : ℕ → Bool) (n : ℕ) → ((j : ℕ) → test j ≡ false) → IsLast test n npos
unfolding IsLast
IsLast-none test n f = inr (refl, λ j h. f j)

IsFirst-none : (test : ℕ → Bool) (o n : ℕ) → ((j : ℕ) → test j ≡ false) → IsFirst test o n npos
unfolding IsFirst
IsFirst-none test o n f = inr (refl, λ j g h. f j)

pub suc_not_zero : (k : ℕ) → (suc k == 0) ≡ false
suc_not_zero k = ground arith

IsLast-of_all :
    (len pos : ℕ)
    → len < 2 ^ 63
    → IsLast
        (λ i. true)
        (if leb len pos then len else pos + 1)
        (if leb len pos then (len + 2 ^ 64 - 1) % 2 ^ 64 else pos)
unfolding IsLast
IsLast-of_all zero pos h = elim (Bool-cases (leb zero pos)) [
  | inl e ↦ rw e (inr (refl, λ j k. absurd (omega arith)))
  | inr e ↦ absurd (ground arith)
]
IsLast-of_all (suc len) pos h =
    let e : (suc len + 2 ^ 64 - 1) % 2 ^ 64 ≡ len = omega arith in
    rw e (elim (Bool-cases (leb (suc len) pos)) [
      | inl t ↦ rw t (inl (omega arith, refl, λ j a b. absurd (omega arith)))
      | inr t ↦ rw t (inl (omega arith, refl, λ j a b. absurd (omega arith)))
    ])

module _ (s : ℕ → ℕ) (pos : ℕ) (v : View) where
  -- `find_first_of` from a place before 2^63 in a view shorter than 2^63 results in the first place from `pos` on of one of the characters.
  pub find_first_of-IsFirst :
      (count : ℕ)
      → v.length < 2 ^ 63
      → pos < 2 ^ 63
      → IsFirst (λ i. one_of s count (v.str i)) pos v.length (find_first_of s pos count v)
  unfolding find_first_of one_of traits_find
  find_first_of-IsFirst zero short low = IsFirst-none (λ i. false) pos v.length (λ j. refl)
  find_first_of-IsFirst (suc k) short low =
      rw (suc_not_zero k) (up_from (λ i. one_of s (suc k) (v.str i)) pos v short low)

  -- `find_last_of` results in the last place up to `pos` of one of the characters.
  pub find_last_of-IsLast :
      (count : ℕ)
      → v.length < 2 ^ 63
      → IsLast (λ i. one_of s count (v.str i)) (last_bound pos v) (find_last_of s pos count v)
  unfolding find_last_of one_of traits_find
  find_last_of-IsLast zero h = IsLast-none (λ i. false) (last_bound pos v) (λ j. refl)
  find_last_of-IsLast (suc k) h =
      rw (suc_not_zero k) (IsLast-down (λ i. one_of s (suc k) (v.str i)) pos v h)

  -- `find_first_not_of` from a place before 2^63 in a view shorter than 2^63 results in the first place from `pos` on of none of the characters.
  pub find_first_not_of-IsFirst :
      (count : ℕ)
      → v.length < 2 ^ 63
      → pos < 2 ^ 63
      → IsFirst (λ i. not (one_of s count (v.str i))) pos v.length (find_first_not_of s pos count v)
  unfolding find_first_not_of one_of traits_find
  find_first_not_of-IsFirst zero short low = elim (Bool-cases (leb v.length pos)) [
    | inl t ↦ rw t (IsFirst-past (λ i. true) pos v.length (ground arith))
    | inr t ↦ rw t (IsFirst-here (λ i. true) pos v.length (ground arith) refl)
  ]
  find_first_not_of-IsFirst (suc k) short low =
      rw (suc_not_zero k) (up_from (λ i. not (one_of s (suc k) (v.str i))) pos v short low)

  -- `find_last_not_of` in a view shorter than 2 ^ 63 results in the last place up to `pos` of
  -- none of the characters, and in `npos` where there is none.
  pub find_last_not_of-IsLast :
      (count : ℕ)
      → v.length < 2 ^ 63
      → IsLast
          (λ i. not (one_of s count (v.str i)))
          (last_bound pos v)
          (find_last_not_of s pos count v)
  unfolding find_last_not_of one_of traits_find last_place
  find_last_not_of-IsLast zero h = IsLast-of_all v.length pos h
  find_last_not_of-IsLast (suc k) h =
      rw (suc_not_zero k) (IsLast-down (λ i. not (one_of s (suc k) (v.str i))) pos v h)
