-- ===== src/Refcnt/Examples.antt =====
-- A store on which the theorems of Refcnt are applied: the object 8 with one pointer, and its storage 9
-- with one weak pointer.
use panda_lib.Base.{
  ℕ, ◌≡◌, refl, true, false, Bool-cases, subst, ◌||◌, none, some, ◌==◌, ==→eq, if◌then◌else◌, inl,
  inr, arith,
}
use panda_lib.Refcnt.{Store, dec, assign, WeakIptr, lock, assign_weak}
use panda_lib.Refcnt.Invariant.{Holders, IsCounted}
use panda_lib.Refcnt.Strong.{Dropped, dec-Dropped}
use panda_lib.Refcnt.Weak.{IsWeak, Locked, lock-Locked, lock-assign_weak}
use panda_lib.Refcnt.Pointers.{with_pointer, without_pointer, assign-IsCounted}

abbrev one_object : Store
one_object = record {
  objects = record { count = λ q. if 8 == q then 1 else 0; live = λ q. 8 == q };
  storages = record { count = λ s. if 9 == s then 2 else 0; live = λ s. 9 == s };
  weak = λ q. if 8 == q then 9 else 0;
  valid = λ s. 9 == s;
}

abbrev its_holders : Holders
its_holders = record {
  strong = λ q. if 8 == q then 1 else 0;
  weak = λ s. if 9 == s then 1 else 0;
  owner = λ s. 8;
}

one_object-IsCounted : IsCounted one_object its_holders
one_object-IsCounted = record {
  objects = record {
    exact = λ q live. refl;
    held = λ q h. elim (Bool-cases (8 == q)) [
      | inl e ↦ e
      | inr e ↦ absurd (omega (arith, (rw e at h)))
    ];
  };
  storages = record {
    exact = λ s live. rw live refl;
    held = λ s h. elim (Bool-cases (9 == s)) [
      | inl e ↦ e
      | inr e ↦ absurd (omega (arith, (rw e at h)))
    ];
  };
  null = refl;
  own = λ q live has. rw live (refl, ==→eq 8 q live);
  lives = λ s v. (refl, ==→eq 9 s v);
}

abbrev weak_pointer : WeakIptr
weak_pointer = record { storage = 9; object = 8 }

weak_pointer-IsWeak : IsWeak weak_pointer its_holders
weak_pointer-IsWeak = record {
  counted = omega arith;
  some_storage = omega arith;
  some_object = omega arith;
  object_of = refl;
}

dec-Dropped_example :
    (after : Store) × Dropped 8 one_object its_holders one_object-IsCounted (omega arith) after
dec-Dropped_example =
    dec-Dropped 8 one_object its_holders one_object-IsCounted (omega arith) (omega arith)

-- Self assignment.
assign-IsCounted_example :
    (after : Store) × ((assign 8 8 one_object ≡ some (8, after))
      × IsCounted after (without_pointer 8 (with_pointer 8 its_holders)))
assign-IsCounted_example =
    assign-IsCounted 8 8 one_object its_holders one_object-IsCounted
      (record { is_held = λ z. omega arith; room = omega arith }) (λ z. omega arith)

lock-Locked_example :
    Locked weak_pointer one_object its_holders one_object-IsCounted weak_pointer-IsWeak true
      (lock weak_pointer one_object)
lock-Locked_example =
    lock-Locked weak_pointer one_object its_holders one_object-IsCounted weak_pointer-IsWeak
      (omega arith)

-- The objects 8 and 11 with a pointer each, and their storages 9 and 12 with a weak pointer each.
abbrev two_objects : Store
two_objects = record {
  objects = record {
    count = λ q. if 8 == q then 1 else if 11 == q then 1 else 0;
    live = λ q. (8 == q) || (11 == q);
  };
  storages = record {
    count = λ s. if 9 == s then 2 else if 12 == s then 2 else 0;
    live = λ s. (9 == s) || (12 == s);
  };
  weak = λ q. if 8 == q then 9 else if 11 == q then 12 else 0;
  valid = λ s. (9 == s) || (12 == s);
}

abbrev their_holders : Holders
their_holders = record {
  strong = λ q. if 8 == q then 1 else if 11 == q then 1 else 0;
  weak = λ s. if 9 == s then 1 else if 12 == s then 1 else 0;
  owner = λ s. if 9 == s then 8 else 11;
}

-- A statement for the numbers a and b and for no others.
by_cases :
    (a b : ℕ) (P : ℕ → Type 0)
    → P a
    → P b
    → ((q : ℕ) → (a == q) ≡ false → (b == q) ≡ false → P q)
    → (q : ℕ) → P q
by_cases a b P at_a at_b neither q = elim (Bool-cases (a == q)) [
  | inl e ↦ subst P (==→eq a q e) at_a
  | inr e ↦ elim (Bool-cases (b == q)) [
    | inl f ↦ subst P (==→eq b q f) at_b
    | inr f ↦ neither q e f
  ]
]

two_objects-IsCounted : IsCounted two_objects their_holders
two_objects-IsCounted = record {
  objects = record {
    exact = λ q live. refl;
    held =
        by_cases 8 11 _ (λ h. refl) (λ h. refl)
          (λ q e f h. absurd (omega (arith, (rw (e, f) at h))));
  };
  storages = record {
    exact = by_cases 9 12 _ (λ h. refl) (λ h. refl) (λ q e f h. rw (e, f) refl);
    held =
        by_cases 9 12 _ (λ h. refl) (λ h. refl)
          (λ q e f h. absurd (omega (arith, (rw (e, f) at h))));
  };
  null = refl;
  own =
      by_cases 8 11 _ (λ l h. (refl, refl)) (λ l h. (refl, refl))
        (λ q e f l h. let clash : false ≡ true = rw (e, f) at l in cc);
  lives =
      by_cases 9 12 _ (λ v. (refl, refl)) (λ v. (refl, refl))
        (λ q e f v. let clash : false ≡ true = rw (e, f) at v in cc);
}

lock-assign_weak_example :
    (after : Store) × ((dec 11 two_objects ≡ some after)
      × (lock
            (assign_weak
              (record { storage = 9; object = 8 })
              (record { storage = 12; object = 11 })).1
            after
          ≡ none))
lock-assign_weak_example =
    lock-assign_weak (record { storage = 9; object = 8 }) (record { storage = 12; object = 11 })
      two_objects their_holders two_objects-IsCounted
      (record {
        counted = omega arith;
        some_storage = omega arith;
        some_object = omega arith;
        object_of = refl;
      })
      (record {
        counted = omega arith;
        some_storage = omega arith;
        some_object = omega arith;
        object_of = refl;
      })
      (omega arith) refl refl
