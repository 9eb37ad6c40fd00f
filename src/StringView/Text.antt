-- ===== src/StringView/Text.antt =====
-- `find` and `rfind` of a text, in src/panda/basic_string_view.h.
use panda_lib.Base.{
  ℕ, zero, suc, ◌+◌, ◌-◌, ◌%◌, ◌^◌, ◌≤◌, ◌<◌, ◌≡◌, refl, Bool, true, false, none, some, arith, ◌⊎◌,
  inl, inr, ◌==◌, if◌then◌else◌, Bool-cases, subst, ltb, leb, ltb→lt, ltb→ge,
}
use panda_lib.StringView.{View}
use panda_lib.StringView.Traits.{traits_find, traits_compare, is_equal, Sign, minus, plus}
use panda_lib.StringView.Search.{find, find_loop, rfind, rounds, scan_down}
use panda_lib.StringView.Find.{IsFirst-past, suc_not_zero}
use panda_lib.StringView.Scans.{IsFirst, IsLast, at_or_after, below, IsFirst-here, scan_down-IsLast}

-- Whether `count` characters of `s` stand at the place `i` of the view.
abbrev pub occurs : (ℕ → ℕ) → ℕ → View → ℕ → Bool
occurs s count v i = is_equal (traits_compare v.str i s 0 count)

-- Where a character is found, or that it is not there.
traits_find-cases :
    (f : ℕ → ℕ) (o n ch : ℕ)
    → ((p : ℕ) × (traits_find f o n ch ≡ some p)
        × (o ≤ p)
        × (p < o + n)
        × ((j : ℕ) → o ≤ j → j < p → (f j == ch) ≡ false))
      ⊎ ((traits_find f o n ch ≡ none) × ((j : ℕ) → o ≤ j → j < o + n → (f j == ch) ≡ false))
unfolding traits_find
traits_find-cases f o zero ch = inr (refl, λ j a b. absurd (omega arith))
traits_find-cases f o (suc n) ch = elim (Bool-cases (f o == ch)) [
  | inl e ↦ inl (o, rw e refl, omega arith, omega arith, λ j a b. absurd (omega arith))
  | inr e ↦ elim (traits_find-cases f (suc o) n ch) [
    | inl (p, q, a, b, before) ↦ inl (
      p,
      rw e q,
      omega arith,
      omega arith,
      λ j c d. at_or_after (λ i. f i == ch) o j e (λ g. before j g d) c,
    )
    | inr (q, never) ↦
        inr (rw e q, λ j c d. at_or_after (λ i. f i == ch) o j e (λ g. never j g (omega arith)) c)
  ]
]

IsFirst-skips :
    (test : ℕ → Bool) (o p hi r : ℕ)
    → o ≤ p
    → ((j : ℕ) → o ≤ j → j < p → test j ≡ false)
    → IsFirst test p hi r
    → IsFirst test o hi r
unfolding IsFirst
IsFirst-skips test o p hi r h skip (inl (a, b, t, before)) = inl (
  omega arith,
  b,
  t,
  λ j c d. elim (Bool-cases (ltb j p)) [
    | inl e ↦ skip j c (ltb→lt j p e)
    | inr e ↦ before j (ltb→ge j p e) d
  ],
)
IsFirst-skips test o p hi r h skip (inr (n, never)) = inr (
  n,
  λ j c d. elim (Bool-cases (ltb j p)) [
    | inl e ↦ skip j c (ltb→lt j p e)
    | inr e ↦ never j (ltb→ge j p e) d
  ],
)

other_sign :
    (a b : ℕ) (rest : Sign)
    → (a == b) ≡ false
    → is_equal (if ltb a b then minus else if ltb b a then plus else rest) ≡ false
other_sign a b rest e = ground arith

mismatch :
    (s : ℕ → ℕ) (k : ℕ) (v : View) (j : ℕ) → (v.str j == s 0) ≡ false → occurs s (suc k) v j ≡ false
unfolding traits_compare
mismatch s k v j e = other_sign (v.str j) (s 0) (traits_compare v.str (suc j) s 1 k) e

loop-IsFirst :
    (fuel : ℕ) (s : ℕ → ℕ) (k o : ℕ) (v : View)
    → o ≤ v.length
    → v.length < o + fuel
    → IsFirst
        (occurs s (suc k) v)
        o
        (v.length + 1 - suc k)
        (find_loop fuel s (suc k) v (traits_find v.str o (v.length - o) (s 0)))
unfolding find_loop IsFirst
loop-IsFirst zero s k o v h enough = absurd (omega arith)
loop-IsFirst (suc fuel) s k o v h enough = elim (traits_find-cases v.str o (v.length - o) (s 0)) [
  | inr (q, never) ↦ rw q (inr (refl, λ j a b. mismatch s k v j (never j a (omega arith))))
  | inl (p, q, a, b, before) ↦ elim (Bool-cases (leb (suc k) (v.length - p))) [
    | inr t ↦ rw (q, t) (inr (refl, λ j c d. mismatch s k v j (before j c (ground arith))))
    | inl t ↦ elim (Bool-cases (occurs s (suc k) v p)) [
      | inl u ↦ rw (q, t, u) (inl (a, ground arith, u, λ j c d. mismatch s k v j (before j c d)))
      | inr u ↦
          rw (q, t, u)
            (IsFirst-skips (occurs s (suc k) v) o (p + 1) (v.length + 1 - suc k) _ (omega arith)
              (λ j c d.
                below (occurs s (suc k) v) p j u (λ e. mismatch s k v j (before j c e))
                  (omega arith))
              (subst
                (λ n.
                  IsFirst (occurs s (suc k) v) (p + 1) (v.length + 1 - suc k)
                    (find_loop fuel s (suc k) v (traits_find v.str (p + 1) n (s 0))))
                (omega arith) (loop-IsFirst fuel s k (p + 1) v (omega arith) (omega arith))))
    ]
  ]
]

-- `find` results in the first place from `pos` on at which the text stands whole inside of the view,
-- and in `npos` where there is none.
pub find-IsFirst :
    (s : ℕ → ℕ) (pos count : ℕ) (v : View)
    → IsFirst (occurs s count v) pos (v.length + 1 - count) (find s pos count v)
unfolding find traits_compare
find-IsFirst s pos zero v = elim (Bool-cases (ltb v.length pos)) [
  | inl t ↦ rw t (IsFirst-past (λ i. true) pos (v.length + 1 - 0) (ground arith))
  | inr t ↦ rw t (IsFirst-here (λ i. true) pos (v.length + 1 - 0) (ground arith) refl)
]
find-IsFirst s pos (suc k) v = elim (Bool-cases (ltb v.length pos)) [
  | inl t ↦ rw t (IsFirst-past (occurs s (suc k) v) pos (v.length + 1 - suc k) (ground arith))
  | inr t ↦
      rw (t, suc_not_zero k) (loop-IsFirst (v.length + 1) s k pos v (ground arith) (omega arith))
]

-- The places up to `pos` at which `count` characters fit into the view.
abbrev pub fitting : ℕ → ℕ → View → ℕ
fitting pos count v = if leb (v.length - count) pos then v.length - count + 1 else pos + 1

rounds-fitting :
    (len count pos : ℕ)
    → count ≤ len
    → len < 2 ^ 63
    → (if ltb
          (if leb ((len + 2 ^ 64 - count) % 2 ^ 64) pos
            then (len + 2 ^ 64 - count) % 2 ^ 64
            else pos)
          (2 ^ 63)
        then (if leb ((len + 2 ^ 64 - count) % 2 ^ 64) pos
            then (len + 2 ^ 64 - count) % 2 ^ 64
            else pos)
          + 1
        else 0)
      ≡ (if leb (len - count) pos then len - count + 1 else pos + 1)
rounds-fitting len count pos h small =
    let e : (len + 2 ^ 64 - count) % 2 ^ 64 ≡ len - count = omega arith in rw e (ground arith)

-- `rfind` of a text that is no longer than the view, which is shorter than 2 ^ 63, results in its
-- last place up to `pos`, and in `npos` where there is none.
pub rfind-IsLast :
    (s : ℕ → ℕ) (pos count : ℕ) (v : View)
    → count ≤ v.length
    → v.length < 2 ^ 63
    → IsLast (occurs s count v) (fitting pos count v) (rfind s pos count v)
unfolding rfind rounds
rfind-IsLast s pos count v h small =
    rw (rounds-fitting v.length count pos h small)
      (scan_down-IsLast (occurs s count v) (fitting pos count v))

past_zero :
    (len count : ℕ) → len < count → count < 2 ^ 63 → leb ((len + 2 ^ 64 - count) % 2 ^ 64) 0 ≡ false
past_zero len count h small =
    let e : (len + 2 ^ 64 - count) % 2 ^ 64 ≡ len + 2 ^ 64 - count = omega arith in
    rw e (ground arith)

-- `rfind`, from the first place, of a text that is longer than the view and shorter than 2 ^ 63
-- results in that place where the memory from it on holds the text, although the view does not.
pub rfind_beyond :
    (s : ℕ → ℕ) (count : ℕ) (v : View)
    → v.length < count
    → count < 2 ^ 63
    → occurs s count v 0 ≡ true
    → rfind s 0 count v ≡ 0
unfolding rfind rounds scan_down
rfind_beyond s count v h small e = rw (past_zero v.length count h small, e) refl
