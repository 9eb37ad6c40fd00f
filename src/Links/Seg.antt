-- ===== src/Links/Seg.antt =====
-- Segments of a doubly linked chain.
use panda_lib.Base.{
  ℕ, ◌≡◌, ◌≢◌, refl, Bool, true, false, ◌||◌, List, [], ◌∷◌, ◌++◌, arith, ◌==◌, if◌then◌else◌, ◌∙◌,
  sym, subst, inl, inr, Bool-cases, ==→eq,
}

abbrev pub Ptr : Type 0
Ptr = ℕ

abbrev pub Field : Type 0
Field = Ptr → Ptr

-- A field after a write.
abbrev pub write : Field → Ptr → Ptr → Field
write f a v i = if a == i then v else f i

-- A write through a pointer that may be null.
abbrev pub write_at : Field → Ptr → Ptr → Field
write_at f a v i = if a == 0 then f i else if a == i then v else f i

abbrev pub has : List Ptr → Ptr → Bool
has [] a = false
has (x ∷ xs) a = (x == a) || has xs a

abbrev pub head_or : Ptr → List Ptr → Ptr
head_or q [] = q
head_or q (x ∷ xs) = x

abbrev pub last_or : Ptr → List Ptr → Ptr
last_or p [] = p
last_or p (x ∷ xs) = last_or x xs

-- The distinct nodes `xs`, linked both ways, between `p` and `q`.
abbrev pub Seg : Field → Field → Ptr → List Ptr → Ptr → Type 0
Seg next prev p [] q = Unit {0}
Seg next prev p (x ∷ xs) q =
    (x ≢ 0) × (has xs x ≡ false) × (prev x ≡ p) × (next x ≡ head_or q xs) × Seg next prev x xs q

abbrev pub Apart : List Ptr → List Ptr → Type 0
Apart xs ys = (a : Ptr) → has xs a ≡ true → has ys a ≡ false

pub has-append : (xs ys : List Ptr) (a : Ptr) → has (xs ++ ys) a ≡ (has xs a || has ys a)
has-append [] ys a = refl
has-append (x ∷ xs) ys a = ground (arith, has-append xs ys a)

pub head_or-append : (q : Ptr) (xs ys : List Ptr) → head_or q (xs ++ ys) ≡ head_or (head_or q ys) xs
head_or-append q [] ys = refl
head_or-append q (x ∷ xs) ys = refl

pub last_or-append : (p : Ptr) (xs ys : List Ptr) → last_or p (xs ++ ys) ≡ last_or (last_or p xs) ys
last_or-append p [] ys = refl
last_or-append p (x ∷ xs) ys = last_or-append x xs ys

pub last_or-mem : (x : Ptr) (xs : List Ptr) → has (x ∷ xs) (last_or x xs) ≡ true
last_or-mem x [] = ground arith
last_or-mem x (y ∷ ys) = ground (arith, last_or-mem y ys)

pub ne_of_has : (xs : List Ptr) (a b : Ptr) → has xs a ≡ true → has xs b ≡ false → (b == a) ≡ false
ne_of_has xs a b i o = elim (Bool-cases (b == a)) [
  | inl e ↦ cc (subst (λ c. has xs c ≡ false) (==→eq b a e) o)
  | inr e ↦ e
]

not_last : (x y : Ptr) (ys : List Ptr) → has (y ∷ ys) x ≡ false → (last_or y ys == x) ≡ false
not_last x y ys o = elim (Bool-cases (last_or y ys == x)) [
  | inl e ↦
      cc (subst (λ c. has (y ∷ ys) c ≡ false) (sym (==→eq (last_or y ys) x e)) o, last_or-mem y ys)
  | inr e ↦ e
]

module _ (next prev : Field) where
  pub Seg-ne_null : (p q : Ptr) (xs : List Ptr) → Seg next prev p xs q → has xs 0 ≡ false
  Seg-ne_null p q [] s = refl
  Seg-ne_null p q (x ∷ xs) s = ground (arith, Seg-ne_null x q xs s.4)

  pub append :
      (p q : Ptr) (xs ys : List Ptr)
      → Seg next prev p xs (head_or q ys)
      → Seg next prev (last_or p xs) ys q
      → Apart xs ys
      → Seg next prev p (xs ++ ys) q
  append p q [] ys s t apart = t
  append p q (x ∷ xs) ys s t apart = (
    s.0,
    rw (has-append xs ys x, s.1) (apart x (ground arith)),
    s.2,
    s.3 ∙ sym (head_or-append q xs ys),
    append x q xs ys s.4 t (λ a i. apart a (ground arith)),
  )

  pub front :
      (p q : Ptr) (xs ys : List Ptr)
      → Seg next prev p (xs ++ ys) q
      → Seg next prev p xs (head_or q ys)
  front p q [] ys s = tt
  front p q (x ∷ xs) ys s = (
    s.0,
    ground (arith, has-append xs ys x, s.1),
    s.2,
    s.3 ∙ head_or-append q xs ys,
    front x q xs ys s.4,
  )

  pub back :
      (p q : Ptr) (xs ys : List Ptr)
      → Seg next prev p (xs ++ ys) q
      → Seg next prev (last_or p xs) ys q
  back p q [] ys s = s
  back p q (x ∷ xs) ys s = back x q xs ys s.4

  pub apart : (p q : Ptr) (xs ys : List Ptr) → Seg next prev p (xs ++ ys) q → Apart xs ys
  apart p q [] ys s a i = cc
  apart p q (x ∷ xs) ys s a i = ground (arith, has-append xs ys x, s.1, apart x q xs ys s.4 a)

  module _ (next' prev' : Field) where
    -- A segment survives changes elsewhere.
    pub frame :
        (p q : Ptr) (xs : List Ptr)
        → Seg next prev p xs q
        → ((a : Ptr) → has xs a ≡ true → (next' a ≡ next a) × (prev' a ≡ prev a))
        → Seg next' prev' p xs q
    frame p q [] s same = tt
    frame p q (x ∷ xs) s same = (
      s.0,
      s.1,
      (same x (ground arith)).1 ∙ s.2,
      (same x (ground arith)).0 ∙ s.3,
      frame x q xs s.4 (λ a i. same a (ground arith)),
    )

    -- The last node of a segment is linked to another one behind.
    pub relink_end :
        (p q v : Ptr) (xs : List Ptr)
        → Seg next prev p xs q
        → ((a : Ptr)
            → has xs a ≡ true
            → (next' a ≡ (if last_or p xs == a then v else next a)) × (prev' a ≡ prev a))
        → Seg next' prev' p xs v
    relink_end p q v [] s same = tt
    relink_end p q v (x ∷ []) s same =
        (s.0, s.1, (same x (ground arith)).1 ∙ s.2, ground (arith, same x), tt)
    relink_end p q v (x ∷ y ∷ ys) s same = (
      s.0,
      s.1,
      (same x (ground arith)).1 ∙ s.2,
      (same x (ground arith)).0 ∙ rw (not_last x y ys s.1) s.3,
      relink_end x q v (y ∷ ys) s.4 (λ a i. same a (ground arith)),
    )

    -- The first node of a segment is linked to another one before.
    pub relink_start :
        (p w q : Ptr) (xs : List Ptr)
        → Seg next prev p xs q
        → ((a : Ptr)
            → has xs a ≡ true
            → (next' a ≡ next a) × (prev' a ≡ (if head_or q xs == a then w else prev a)))
        → Seg next' prev' w xs q
    relink_start p w q [] s same = tt
    relink_start p w q (x ∷ xs) s same = (
      s.0,
      s.1,
      ground (arith, same x),
      ground (arith, same x),
      frame x q xs s.4 (λ a i. ground (arith, same a)),
    )
