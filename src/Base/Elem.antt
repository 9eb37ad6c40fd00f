-- ===== src/Base/Elem.antt =====
-- Membership in lists of native numbers, as a test.
use Prim.Native.Nat.{ℕ}
use mathlib.Core.Path.{◌≡◌, refl, sym, subst, ◌∙◌}
use mathlib.Core.Logic.{◌≢◌, ◌⊎◌, inl, inr}
use mathlib.Core.Bool.{Bool, true, false}
use mathlib.Core.List.{List, [], ◌∷◌, ◌++◌}
use panda_lib.Base.Tests.{◌==◌, ==→eq, ==→ne, ne→==, ==_refl, Bool-cases, if◌then◌else◌}

-- Whether a number is in a list, and the lists of all members one behind the other.
abbrev pub elem : ℕ → List ℕ → Bool
elem a [] = false
elem a (x ∷ xs) = if x == a then true else elem a xs

abbrev pub flat : (ℕ → List ℕ) → List ℕ → List ℕ
flat f [] = []
flat f (x ∷ xs) = f x ++ flat f xs

pub elem-head : (a : ℕ) (xs : List ℕ) → elem a (a ∷ xs) ≡ true
elem-head a xs = rw (==_refl a) refl

pub elem_tail : (a x : ℕ) (xs : List ℕ) → elem a xs ≡ true → elem a (x ∷ xs) ≡ true
elem_tail a x xs h = elim (Bool-cases (x == a)) [ inl e ↦ rw e refl | inr e ↦ rw e h ]

pub elem-cases : (a x : ℕ) (xs : List ℕ) → elem a (x ∷ xs) ≡ true → (a ≡ x) ⊎ (elem a xs ≡ true)
elem-cases a x xs h = elim (Bool-cases (x == a)) [
  | inl e ↦ inl (sym (==→eq x a e))
  | inr e ↦ inr (rw e at h)
]

pub elem-append :
    (a : ℕ) (xs ys : List ℕ) → elem a (xs ++ ys) ≡ true → (elem a xs ≡ true) ⊎ (elem a ys ≡ true)
elem-append a [] ys h = inr h
elem-append a (x ∷ xs) ys h = elim (Bool-cases (x == a)) [
  | inl e ↦ inl (rw e refl)
  | inr e ↦ rw e (elem-append a xs ys (rw e at h))
]

pub elem_left : (a : ℕ) (xs ys : List ℕ) → elem a xs ≡ true → elem a (xs ++ ys) ≡ true
elem_left a [] ys h = (let no : false ≡ true = h in cc)
elem_left a (x ∷ xs) ys h = elim (Bool-cases (x == a)) [
  | inl e ↦ rw e refl
  | inr e ↦ rw e (elem_left a xs ys (rw e at h))
]

pub elem_right : (a : ℕ) (xs ys : List ℕ) → elem a ys ≡ true → elem a (xs ++ ys) ≡ true
elem_right a [] ys h = h
elem_right a (x ∷ xs) ys h = elem_tail a x (xs ++ ys) (elem_right a xs ys h)

pub elem-flat :
    (f : ℕ → List ℕ) (a : ℕ) (xs : List ℕ)
    → elem a (flat f xs) ≡ true
    → (c : ℕ) × (elem c xs ≡ true) × (elem a (f c) ≡ true)
elem-flat f a [] h = (let no : false ≡ true = h in cc)
elem-flat f a (x ∷ xs) h = elim (elem-append a (f x) (flat f xs) h) [
  | inl e ↦ (x, elem-head x xs, e)
  | inr e ↦ let (c, inside, found) = elem-flat f a xs e in (c, elem_tail c x xs inside, found)
]

pub elem_of_part :
    (f : ℕ → List ℕ) (a c : ℕ) (xs : List ℕ)
    → elem c xs ≡ true
    → elem a (f c) ≡ true
    → elem a (flat f xs) ≡ true
elem_of_part f a c [] h k = (let no : false ≡ true = h in cc)
elem_of_part f a c (x ∷ xs) h k = elim (elem-cases c x xs h) [
  | inl e ↦ elem_left a (f x) (flat f xs) (subst (λ z. elem a (f z) ≡ true) e k)
  | inr e ↦ elem_right a (f x) (flat f xs) (elem_of_part f a c xs e k)
]

pub elem_other : (a x : ℕ) (xs : List ℕ) → elem a xs ≡ false → a ≢ x → elem a (xs ++ x ∷ []) ≡ false
elem_other a x [] h differs = rw (ne→== x a (λ e. differs (sym e))) refl
elem_other a x (y ∷ ys) h differs = elim (Bool-cases (y == a)) [
  | inl e ↦ let no : true ≡ false = rw e at h in cc
  | inr e ↦ rw e (elem_other a x ys (rw e at h) differs)
]

-- No member stands twice.
abbrev pub Once : List ℕ → Type 0
Once [] = Unit {0}
Once (x ∷ xs) = (elem x xs ≡ false) × Once xs

pub Once-append : (x : ℕ) (xs : List ℕ) → Once xs → elem x xs ≡ false → Once (xs ++ x ∷ [])
Once-append x [] o h = (refl, tt)
Once-append x (y ∷ ys) o h = elim (Bool-cases (y == x)) [
  | inl e ↦ let no : true ≡ false = rw e at h in cc
  | inr e ↦ (elem_other y x ys o.0 (==→ne y x e), Once-append x ys o.1 (rw e at h))
]

abbrev pub erase_first : ℕ → List ℕ → List ℕ
erase_first m [] = []
erase_first m (x ∷ xs) = if x == m then xs else x ∷ erase_first m xs

pub elem-erase_first : (m a : ℕ) (xs : List ℕ) → elem a (erase_first m xs) ≡ true → elem a xs ≡ true
elem-erase_first m a [] h = h
elem-erase_first m a (x ∷ xs) h = elim (Bool-cases (x == m)) [
  | inl e ↦ elem_tail a x xs (rw e at h)
  | inr e ↦ elim (elem-cases a x (erase_first m xs) (rw e at h)) [
    | inl same ↦ subst (λ z. elem z (x ∷ xs) ≡ true) (sym same) (elem-head x xs)
    | inr more ↦ elem_tail a x xs (elem-erase_first m a xs more)
  ]
]

pub elem_erased : (m : ℕ) (xs : List ℕ) → Once xs → elem m (erase_first m xs) ≡ false
elem_erased m [] o = refl
elem_erased m (x ∷ xs) o = elim (Bool-cases (x == m)) [
  | inl e ↦ rw e (subst (λ z. elem z xs ≡ false) (==→eq x m e) o.0)
  | inr e ↦ rw (e, e) (elem_erased m xs o.1)
]

pub elem_kept :
    (m a : ℕ) (xs : List ℕ) → a ≢ m → elem a xs ≡ true → elem a (erase_first m xs) ≡ true
elem_kept m a [] differs h = h
elem_kept m a (x ∷ xs) differs h = elim (Bool-cases (x == m)) [
  | inl e ↦ rw e (elim (elem-cases a x xs h) [
    | inl same ↦ absurd (differs (subst (λ z. a ≡ z) (==→eq x m e) same))
    | inr more ↦ more
  ])
  | inr e ↦ rw e (elim (elem-cases a x xs h) [
    | inl same ↦
        subst (λ z. elem z (x ∷ erase_first m xs) ≡ true) (sym same)
          (elem-head x (erase_first m xs))
    | inr more ↦ elem_tail a x (erase_first m xs) (elem_kept m a xs differs more)
  ])
]

pub elem_gone : (m a : ℕ) (xs : List ℕ) → elem a xs ≡ false → elem a (erase_first m xs) ≡ false
elem_gone m a xs h = elim (Bool-cases (elem a (erase_first m xs))) [
  | inl e ↦ let no : true ≡ false = sym (elem-erase_first m a xs e) ∙ h in cc
  | inr e ↦ e
]

pub Once-erase_first : (m : ℕ) (xs : List ℕ) → Once xs → Once (erase_first m xs)
Once-erase_first m [] o = tt
Once-erase_first m (x ∷ xs) o = elim (Bool-cases (x == m)) [
  | inl e ↦ rw e o.1
  | inr e ↦ rw e (elem_gone m x xs o.0, Once-erase_first m xs o.1)
]
