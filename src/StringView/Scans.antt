-- ===== src/StringView/Scans.antt =====
-- The loops of src/panda/basic_string_view.h find the first or the last place of their test.
use panda_lib.Base.{
  ℕ, zero, suc, ◌+◌, ◌%◌, ◌^◌, ◌≤◌, ◌<◌, ◌≡◌, refl, Bool, true, false, arith, ◌⊎◌, inl, inr, ◌==◌,
  Bool-cases, subst, ==→eq,
}
use panda_lib.StringView.{npos}
use panda_lib.StringView.Search.{scan_up, scan_down, or_npos}
use panda_lib.StringView.Traits.{traits_find}

-- The first place of the test in `[lo, hi)`, and `npos` where there is none.
unfoldable pub IsFirst : (ℕ → Bool) → ℕ → ℕ → ℕ → Type 0
IsFirst test lo hi r =
    ((lo ≤ r) × (r < hi) × (test r ≡ true) × ((j : ℕ) → lo ≤ j → j < r → test j ≡ false))
    ⊎ ((r ≡ npos) × ((j : ℕ) → lo ≤ j → j < hi → test j ≡ false))

-- The last place of the test below `hi`, and `npos` where there is none.
unfoldable pub IsLast : (ℕ → Bool) → ℕ → ℕ → Type 0
IsLast test hi r =
    ((r < hi) × (test r ≡ true) × ((j : ℕ) → r < j → j < hi → test j ≡ false))
    ⊎ ((r ≡ npos) × ((j : ℕ) → j < hi → test j ≡ false))

pub at_or_after :
    (test : ℕ → Bool) (o j : ℕ)
    → test o ≡ false
    → (suc o ≤ j → test j ≡ false)
    → o ≤ j
    → test j ≡ false
at_or_after test o j e f h = elim (Bool-cases (o == j)) [
  | inl s ↦ subst (λ k. test k ≡ false) (==→eq o j s) e
  | inr d ↦ f (ground arith)
]

pub below :
    (test : ℕ → Bool) (n j : ℕ)
    → test n ≡ false
    → (j < n → test j ≡ false)
    → j < suc n
    → test j ≡ false
below test n j e f h = elim (Bool-cases (n == j)) [
  | inl s ↦ subst (λ k. test k ≡ false) (==→eq n j s) e
  | inr d ↦ f (ground arith)
]

pub IsFirst-skip :
    (test : ℕ → Bool) (o hi r : ℕ)
    → test o ≡ false
    → IsFirst test (suc o) hi r
    → IsFirst test o hi r
unfolding IsFirst
IsFirst-skip test o hi r e (inl (a, b, t, before)) =
    inl (omega arith, b, t, λ j h k. at_or_after test o j e (λ l. before j l k) h)
IsFirst-skip test o hi r e (inr (n, none_is)) =
    inr (n, λ j h k. at_or_after test o j e (λ l. none_is j l k) h)

pub IsFirst-here : (test : ℕ → Bool) (o hi : ℕ) → o < hi → test o ≡ true → IsFirst test o hi o
unfolding IsFirst
IsFirst-here test o hi h e = inl (omega arith, h, e, λ j a b. absurd (omega arith))

pub scan_up-IsFirst :
    (test : ℕ → Bool) (o n hi : ℕ) → hi < 2 ^ 64 → hi ≡ o + n → IsFirst test o hi (scan_up test o n)
unfolding scan_up IsFirst
scan_up-IsFirst test o zero hi small e = inr (refl, λ j h k. absurd (omega arith))
scan_up-IsFirst test o (suc n) hi small e = elim (Bool-cases (test o)) [
  | inl t ↦ rw t (IsFirst-here test o hi (omega arith) t)
  | inr t ↦
      let next : suc o ≡ (o + 1) % 2 ^ 64 = omega (arith, small, e) in
      rw t (
        IsFirst-skip test o hi (scan_up test ((o + 1) % 2 ^ 64) n) t (
          subst (λ p. IsFirst test (suc o) hi (scan_up test p n)) next
            (scan_up-IsFirst test (suc o) n hi small (omega arith))))
]

IsLast-skip : (test : ℕ → Bool) (n r : ℕ) → test n ≡ false → IsLast test n r → IsLast test (suc n) r
unfolding IsLast
IsLast-skip test n r e (inl (a, t, after)) =
    inl (omega arith, t, λ j h k. below test n j e (λ l. after j h l) k)
IsLast-skip test n r e (inr (m, none_is)) = inr (m, λ j k. below test n j e (none_is j) k)

pub scan_down-IsLast : (test : ℕ → Bool) (n : ℕ) → IsLast test n (scan_down test n)
unfolding scan_down IsLast
scan_down-IsLast test zero = inr (refl, λ j h. absurd (omega arith))
scan_down-IsLast test (suc n) = elim (Bool-cases (test n)) [
  | inl t ↦ rw t (inl (omega arith, t, λ j a b. absurd (omega arith)))
  | inr t ↦ rw t (IsLast-skip test n (scan_down test n) t (scan_down-IsLast test n))
]

pub traits_find-IsFirst :
    (f : ℕ → ℕ) (o n ch hi : ℕ)
    → hi ≡ o + n
    → IsFirst (λ i. f i == ch) o hi (or_npos (traits_find f o n ch))
unfolding traits_find IsFirst or_npos
traits_find-IsFirst f o zero ch hi e = inr (refl, λ j h k. absurd (omega arith))
traits_find-IsFirst f o (suc n) ch hi e = elim (Bool-cases (f o == ch)) [
  | inl t ↦ rw t (IsFirst-here (λ i. f i == ch) o hi (omega arith) t)
  | inr t ↦ rw t (
      IsFirst-skip (λ i. f i == ch) o hi (or_npos (traits_find f (suc o) n ch)) t
        (traits_find-IsFirst f (suc o) n ch hi (omega arith)))
]
