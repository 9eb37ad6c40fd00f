-- ===== src/Base/Lists.antt =====
-- Lists over the native numbers.
use Prim.Native.Nat.{ℕ, zero, suc, ◌+◌, ◌-◌, ◌≤◌, ◌<◌}
use mathlib.Core.Path.{◌≡◌, refl, ap, ap₂, ◌∙◌, subst, subst₂}
use native.Mathlib.Nat.{add-zero}
use mathlib.Core.List.{List, [], ◌∷◌, ◌++◌}
use mathlib.Core.Option.{Option, none, some}
use native.Mathlib.Omega.{arith}

module _ {ℓ} {A : Type ℓ} where
  abbrev pub length : List A → ℕ
  length [] = 0
  length (x ∷ xs) = suc (length xs)

  abbrev pub take : ℕ → List A → List A
  take zero xs = []
  take (suc n) [] = []
  take (suc n) (x ∷ xs) = x ∷ take n xs

  abbrev pub drop : ℕ → List A → List A
  drop zero xs = xs
  drop (suc n) [] = []
  drop (suc n) (x ∷ xs) = drop n xs

  abbrev pub get_elem? : List A → ℕ → Option A
  get_elem? [] i = none
  get_elem? (x ∷ xs) zero = some x
  get_elem? (x ∷ xs) (suc i) = get_elem? xs i

  abbrev pub replicate : ℕ → A → List A
  replicate zero x = []
  replicate (suc n) x = x ∷ replicate n x

  -- `f o, f (o + 1), …`, `n` of them: the characters that a pointer and a length stand for.
  abbrev pub slice : ℕ → ℕ → (ℕ → A) → List A
  slice o zero f = []
  slice o (suc n) f = f o ∷ slice (suc o) n f

  pub length-append : (xs ys : List A) → length (xs ++ ys) ≡ length xs + length ys
  length-append [] ys = omega arith
  length-append (x ∷ xs) ys = omega (arith, length-append xs ys)

  pub length-slice : (o n : ℕ) (f : ℕ → A) → length (slice o n f) ≡ n
  length-slice o zero f = refl
  length-slice o (suc n) f = ap suc (length-slice (suc o) n f)

  pub slice_ext :
      (o p n : ℕ) (f g : ℕ → A)
      → ((i : ℕ) → i < n → f (o + i) ≡ g (p + i))
      → slice o n f ≡ slice p n g
  slice_ext o p zero f g h = refl
  slice_ext o p (suc n) f g h = ap₂ ◌∷◌ (rw (add-zero, add-zero) at (h 0 (omega arith))) (
      slice_ext (suc o) (suc p) n f g
        (λ i q. subst₂ (λ a b. f a ≡ g b) (omega arith) (omega arith) (h (suc i) (omega arith))))

  pub slice-append : (o n m : ℕ) (f : ℕ → A) → slice o (n + m) f ≡ slice o n f ++ slice (o + n) m f
  slice-append o zero m f = rw (add-zero) (ap (λ k. slice o k f) (omega arith))
  slice-append o (suc n) m f =
      ap (λ k. slice o k f) {y = suc (n + m)} (omega arith)
      ∙ ap (λ t. f o ∷ t)
          (slice-append (suc o) n m f ∙ ap (λ k. slice (suc o) n f ++ slice k m f) (omega arith))

  pub take-slice : (k o n : ℕ) (f : ℕ → A) → k ≤ n → take k (slice o n f) ≡ slice o k f
  take-slice zero o n f h = refl
  take-slice (suc k) o zero f h = absurd (omega arith)
  take-slice (suc k) o (suc n) f h = ap (λ t. f o ∷ t) (take-slice k (suc o) n f (omega arith))

  pub drop-slice : (k o n : ℕ) (f : ℕ → A) → k ≤ n → drop k (slice o n f) ≡ slice (o + k) (n - k) f
  drop-slice zero o n f h = ap₂ (λ a b. slice a b f) (omega arith) (omega arith)
  drop-slice (suc k) o zero f h = absurd (omega arith)
  drop-slice (suc k) o (suc n) f h =
      drop-slice k (suc o) n f (omega arith) ∙ ap₂ (λ a b. slice a b f) (omega arith) (omega arith)

  pub slice-replicate :
      (o n : ℕ) (f : ℕ → A) (x : A)
      → ((i : ℕ) → i < n → f (o + i) ≡ x)
      → slice o n f ≡ replicate n x
  slice-replicate o zero f x h = refl
  slice-replicate o (suc n) f x h = ap₂ ◌∷◌ (rw (add-zero) at (h 0 (omega arith))) (
      slice-replicate (suc o) n f x
        (λ i q. subst (λ a. f a ≡ x) (omega arith) (h (suc i) (omega arith))))

  pub take_all : (xs : List A) → take (length xs) xs ≡ xs
  take_all [] = refl
  take_all (x ∷ xs) = ap (λ t. x ∷ t) (take_all xs)

  pub drop_all : (xs : List A) → drop (length xs) xs ≡ []
  drop_all [] = refl
  drop_all (x ∷ xs) = drop_all xs

  pub drop_past : (k : ℕ) (xs : List A) → length xs ≤ k → drop k xs ≡ []
  drop_past zero [] h = refl
  drop_past zero (x ∷ xs) h = absurd (omega arith)
  drop_past (suc k) [] h = refl
  drop_past (suc k) (x ∷ xs) h = drop_past k xs (omega arith)

  pub take-drop : (k : ℕ) (xs : List A) → take k xs ++ drop k xs ≡ xs
  take-drop zero xs = refl
  take-drop (suc k) [] = refl
  take-drop (suc k) (x ∷ xs) = ap (λ t. x ∷ t) (take-drop k xs)

  pub take_past : (k : ℕ) (xs : List A) → length xs ≤ k → take k xs ≡ xs
  take_past zero [] h = refl
  take_past zero (x ∷ xs) h = absurd (omega arith)
  take_past (suc k) [] h = refl
  take_past (suc k) (x ∷ xs) h = ap (λ t. x ∷ t) (take_past k xs (omega arith))
