-- ===== src/Refcnt/Counting.antt =====
-- `retain`, `release` and `new` of src/panda/refcnt.h against the number of holders of each object.
use panda_lib.Base.{
  ℕ, ◌+◌, ◌-◌, ◌%◌, ◌^◌, ◌<◌, ◌≡◌, refl, sym, ◌∙◌, subst, Bool, true, false, Bool-cases, some, ◌==◌,
  ==→eq, ==_refl, ltb, ltb→lt, ltb→ge, lt→ltb, ge→ltb, inl, inr, arith,
}
use panda_lib.Refcnt.{Ptr, write, Counts, created, retain, release}
use native.Mathlib.Nat.{mod-eq_of_lt}

-- The count of each object that lives is the number of its holders, and an object that is held lives.
pub record IsHeld (c : Counts) (h : Ptr → ℕ) : Type 0 where
  pub exact : (q : Ptr) → c.live q ≡ true → c.count q ≡ h q
  pub held : (q : Ptr) → 0 < h q → c.live q ≡ true

-- One holder more, and one less.
abbrev pub more : Ptr → (Ptr → ℕ) → Ptr → ℕ
more p h = write h p (h p + 1)

abbrev pub less : Ptr → (Ptr → ℕ) → Ptr → ℕ
less p h = write h p (h p - 1)

-- What holds at p and at all others holds of a function that is written at p.
pub at_all {ℓ μ} :
    {A : Type ℓ} (P : Ptr → A → Type μ) (f : Ptr → A) (p : Ptr) (x : A) (q : Ptr)
    → (p ≡ q → P q x)
    → ((p == q) ≡ false → P q (f q))
    → P q (write f p x q)
at_all P f p x q here there = elim (Bool-cases (p == q)) [
  | inl e ↦ rw e (here (==→eq p q e))
  | inr e ↦ rw e (there e)
]

pub written_there {ℓ} :
    {A : Type ℓ} (f : Ptr → A) (p q : Ptr) (x : A) → (p == q) ≡ false → write f p x q ≡ f q
written_there f p q x e = rw e refl

pub written_here {ℓ} : {A : Type ℓ} (f : Ptr → A) (p : Ptr) (x : A) → write f p x p ≡ x
written_here f p x = rw (==_refl p) refl

-- The counts after a `retain`, after a `release` of a reference that is not the last, and after the
-- last.
abbrev pub up : Ptr → Counts → Counts
up p c = record c { count = write c.count p ((c.count p + 1) % 2 ^ 32) }

abbrev pub down : Ptr → Counts → Counts
down p c = record c { count = write c.count p (c.count p - 1) }

abbrev pub dead : Ptr → Counts → Counts
dead p c = record c { live = write c.live p false }

module _ (p : Ptr) (c : Counts) (h : Ptr → ℕ) (w : IsHeld c h) where
  pub retain-up : c.live p ≡ true → retain p c ≡ some (up p c)
  unfolding retain
  retain-up alive = rw alive refl

  pub up-IsHeld : c.live p ≡ true → h p + 1 < 2 ^ 32 → IsHeld (up p c) (more p h)
  up-IsHeld alive room = record {
    exact = λ q live. elim (Bool-cases (p == q)) [
      | inl e ↦ rw e (
          omega (
            arith,
            w.exact p alive,
            mod-eq_of_lt {n = c.count p + 1} {m = 2 ^ 32} (omega (arith, w.exact p alive)),
          ))
      | inr e ↦ rw e (w.exact q live)
    ];
    held = λ q holds. elim (Bool-cases (p == q)) [
      | inl e ↦ subst (λ i. c.live i ≡ true) (==→eq p q e) alive
      | inr e ↦ w.held q (rw e at holds)
    ];
  }

  pub release-down : 1 < h p → release p c ≡ some (false, down p c)
  unfolding release
  release-down many =
      let alive : c.live p ≡ true = w.held p (omega arith) in
      rw (alive, lt→ltb 1 (c.count p) (omega (arith, w.exact p alive))) refl

  pub down-IsHeld : 1 < h p → IsHeld (down p c) (less p h)
  down-IsHeld many = record {
    exact = λ q live. elim (Bool-cases (p == q)) [
      | inl e ↦ rw e (omega (arith, w.exact p (w.held p (omega arith))))
      | inr e ↦ rw e (w.exact q live)
    ];
    held = λ q holds. elim (Bool-cases (p == q)) [
      | inl e ↦ subst (λ i. c.live i ≡ true) (==→eq p q e) (w.held p (omega arith))
      | inr e ↦ w.held q (rw e at holds)
    ];
  }

  pub release-dead : h p ≡ 1 → release p c ≡ some (true, dead p c)
  unfolding release
  release-dead one =
      let alive : c.live p ≡ true = w.held p (omega arith) in
      rw (alive, ge→ltb 1 (c.count p) (omega (arith, w.exact p alive))) refl

  pub dead-IsHeld : h p ≡ 1 → IsHeld (dead p c) (less p h)
  dead-IsHeld one = record {
    exact = λ q live. elim (Bool-cases (p == q)) [
      | inl e ↦ let gone : false ≡ true = rw e at live in cc
      | inr e ↦ rw e (w.exact q (rw e at live))
    ];
    held = λ q holds. elim (Bool-cases (p == q)) [
      | inl e ↦ absurd (omega (arith, one, (rw e at holds)))
      | inr e ↦ rw e (w.held q (rw e at holds))
    ];
  }

  pub nobody : c.live p ≡ false → h p ≡ 0
  nobody unborn = elim (Bool-cases (ltb 0 (h p))) [
    | inl e ↦ let born : c.live p ≡ true = w.held p (ltb→lt 0 (h p) e) in cc
    | inr e ↦ omega (arith, ltb→ge 0 (h p) e)
  ]

  pub created-IsHeld : c.live p ≡ false → IsHeld (created p c) h
  unfolding created
  created-IsHeld unborn = record {
    exact = λ q live. elim (Bool-cases (p == q)) [
      | inl e ↦ rw e (subst (λ i. 0 ≡ h i) (==→eq p q e) (sym (nobody unborn)))
      | inr e ↦ rw e (w.exact q (rw e at live))
    ];
    held =
        λ q holds. elim (Bool-cases (p == q)) [ inl e ↦ rw e refl | inr e ↦ rw e (w.held q holds) ];
  }

-- The holders matter only by their number.
pub IsHeld-same : (c : Counts) (h k : Ptr → ℕ) → ((q : Ptr) → h q ≡ k q) → IsHeld c h → IsHeld c k
IsHeld-same c h k same w = record {
  exact = λ q live. w.exact q live ∙ same q;
  held = λ q holds. w.held q (omega (arith, same q));
}

-- A `release` of an object that is held is well, and takes one holder away.
pub release-IsHeld :
    (p : Ptr) (c : Counts) (h : Ptr → ℕ)
    → IsHeld c h
    → 0 < h p
    → (last : Bool) × (d : Counts) × (release p c ≡ some (last, d)) × IsHeld d (less p h)
release-IsHeld p c h w some_holder = elim (Bool-cases (ltb 1 (h p))) [
  | inl e ↦
      let many : 1 < h p = ltb→lt 1 (h p) e in
      (false, down p c, release-down p c h w many, down-IsHeld p c h w many)
  | inr e ↦
      let one : h p ≡ 1 = omega (arith, ltb→ge 1 (h p) e) in
      (true, dead p c, release-dead p c h w one, dead-IsHeld p c h w one)
]

-- What lives after the end of an object is another one, and lived before.
pub dead_others :
    (live : Ptr → Bool) (p q : Ptr)
    → write live p false q ≡ true
    → ((p == q) ≡ false) × (live q ≡ true)
dead_others live p q h = elim (Bool-cases (p == q)) [
  | inl e ↦ let gone : false ≡ true = rw e at h in cc
  | inr e ↦ (e, rw e at h)
]
