-- ===== src/OwningList/Loops.antt =====
-- The loops of src/panda/owning_list.h: `remove` and `clear`.
use panda_lib.Base.{
  ℕ, zero, suc, ◌+◌, ◌<◌, ◌^◌, ◌≡◌, refl, Bool, true, false, ◌||◌, some, List, [], ◌∷◌, ◌++◌, arith,
  ◌==◌, if◌then◌else◌, ◌∙◌, ap, length, length-append, ◌-◌, ◌%◌,
}
use panda_lib.Links.Seg.{Ptr, has, head_or, ne_of_has, Seg}
use panda_lib.OwningList.{
  OwningList, remove_node, remove, remove_loop, clear, invalidate, emptied, next_strategy,
  skip_invalid,
}
use panda_lib.OwningList.Laws.{IsList, null_ne, remove_node-IsList, remove_size}

module _ {ℓ} {A : Type ℓ} (eq : A → A → Bool) (v : A) (l : OwningList A) where
  loop_finds :
      (fuel : ℕ) (p : Ptr) (ys zs : List Ptr) (x : Ptr)
      → Seg l.next l.prev p (ys ++ x ∷ zs) 0
      → ((a : Ptr) → has ys a ≡ true → eq (l.value a) v ≡ false)
      → eq (l.value x) v ≡ true
      → length ys < fuel
      → remove_loop eq fuel v (head_or 0 (ys ++ x ∷ zs)) l ≡ some (remove_node x l)
  unfolding remove_loop
  loop_finds zero p ys zs x s differ same enough = absurd (omega arith)
  loop_finds (suc fuel) p [] zs x s differ same enough = rw (null_ne x s.0, same) refl
  loop_finds (suc fuel) p (y ∷ ys) zs x s differ same enough =
      rw (null_ne y s.0, differ y (ground arith), s.3)
        (loop_finds fuel y ys zs x s.4 (λ a i. differ a (ground arith)) same (omega arith))

  loop_misses :
      (fuel : ℕ) (p : Ptr) (xs : List Ptr)
      → Seg l.next l.prev p xs 0
      → ((a : Ptr) → has xs a ≡ true → eq (l.value a) v ≡ false)
      → length xs < fuel
      → remove_loop eq fuel v (head_or 0 xs) l ≡ some l
  unfolding remove_loop
  loop_misses zero p xs s differ enough = absurd (omega arith)
  loop_misses (suc fuel) p [] s differ enough = refl
  loop_misses (suc fuel) p (x ∷ xs) s differ enough =
      rw (null_ne x s.0, differ x (ground arith), s.3)
        (loop_misses fuel x xs s.4 (λ a i. differ a (ground arith)) (omega arith))

  -- `remove`, with more fuel than nodes before it, takes out the first node with an equal value.
  pub remove_first_equal :
      (fuel : ℕ) (ys zs : List Ptr) (x : Ptr)
      → IsList l (ys ++ x ∷ zs)
      → ((a : Ptr) → has ys a ≡ true → eq (l.value a) v ≡ false)
      → eq (l.value x) v ≡ true
      → length ys < fuel
      → remove eq fuel v l ≡ some (remove_node x l)
  unfolding remove
  remove_first_equal fuel ys zs x is differ same enough =
      ap (λ f. remove_loop eq fuel v f l) is.first_is
      ∙ loop_finds fuel 0 ys zs x is.links differ same enough

  -- `remove` of a value that no node of the list has ends, and leaves the list as it is.
  pub remove_missing :
      (fuel : ℕ) (xs : List Ptr)
      → IsList l xs
      → ((a : Ptr) → has xs a ≡ true → eq (l.value a) v ≡ false)
      → length xs < fuel
      → remove eq fuel v l ≡ some l
  unfolding remove
  remove_missing fuel xs is differ enough =
      ap (λ f. remove_loop eq fuel v f l) is.first_is ∙ loop_misses fuel 0 xs is.links differ enough

or_true : (b : Bool) → (b || true) ≡ true
or_true b = ground arith

-- What `clear` leaves in the nodes.
pub record Cleared {ℓ} {A : Type ℓ} (l m : OwningList A) (xs : List Ptr) : Type ℓ where
  pub value_is : (a : Ptr) → m.value a ≡ l.value a
  pub next_is : (a : Ptr) → m.next a ≡ l.next a
  pub valid_is : (a : Ptr) → m.valid a ≡ (if has xs a then false else l.valid a)

some_test :
    (m : Ptr) (xs : List Ptr) (v : Ptr → Bool)
    → m ≡ head_or 0 xs
    → ((a : Ptr) → has xs a ≡ true → v a ≡ true)
    → ((m == 0) || v m) ≡ true
some_test m [] v e live = rw e refl
some_test m (x ∷ xs) v e live = rw e (rw (live x (ground arith)) (or_true (x == 0)))

other_valid :
    (x a : Ptr) (xs : List Ptr) (v : Bool)
    → has xs x ≡ false
    → has xs a ≡ true
    → v ≡ true
    → (if x == a then false else v) ≡ true
other_valid x a xs v out i e = rw (ne_of_has xs a x i out) e

join_cleared :
    (x a : Ptr) (h v : Bool)
    → (if h then false else if x == a then false else v) ≡ (if (x == a) || h then false else v)
join_cleared x a h v = ground arith

module _ {ℓ} {A : Type ℓ} where
  next_valid :
      (fuel : ℕ) (l : OwningList A) (n : Ptr) (xs : List Ptr)
      → l.next n ≡ head_or 0 xs
      → ((a : Ptr) → has xs a ≡ true → l.valid a ≡ true)
      → next_strategy (suc fuel) l n ≡ some (head_or 0 xs)
  unfolding next_strategy skip_invalid
  next_valid fuel l n xs e live = rw (some_test (l.next n) xs l.valid e live) (ap some e)

  invalidate_all :
      (rounds fuel : ℕ) (l : OwningList A) (p : Ptr) (xs : List Ptr)
      → Seg l.next l.prev p xs 0
      → ((a : Ptr) → has xs a ≡ true → l.valid a ≡ true)
      → length xs < rounds
      → (m : OwningList A) × (invalidate rounds (suc fuel) (head_or 0 xs) l ≡ some m)
        × Cleared l m xs
  unfolding invalidate
  invalidate_all zero fuel l p xs s live enough = absurd (omega arith)
  invalidate_all (suc rounds) fuel l p [] s live enough =
      (l, refl, record { value_is = λ a. refl; next_is = λ a. refl; valid_is = λ a. refl })
  invalidate_all (suc rounds) fuel l p (x ∷ xs) s live enough =
      let l1 = record l { valid = λ a. if x == a then false else l.valid a } in
      let live1 : (a : Ptr) → has xs a ≡ true → l1.valid a ≡ true =
        λ a i. other_valid x a xs (l.valid a) s.1 i (live a (ground arith)) in
      let (m, runs, left) = invalidate_all rounds fuel l1 x xs s.4 live1 (omega arith) in
      (
        m,
        rw (null_ne x s.0, next_valid fuel l1 x xs s.3 live1) runs,
        record {
          value_is = left.value_is;
          next_is = left.next_is;
          valid_is = λ a. left.valid_is a ∙ join_cleared x a (has xs a) (l.valid a);
        },
      )

  -- `clear`, with more fuel than nodes, ends, empties the list and marks every node of it as not
  -- valid; the nodes keep their values and their pointers to the next one.
  pub clear_all :
      (fuel : ℕ) (l : OwningList A) (xs : List Ptr)
      → IsList l xs
      → length xs < fuel
      → (m : OwningList A) × (clear fuel l ≡ some m) × IsList m [] × Cleared l m xs
  unfolding clear emptied
  clear_all zero l xs is enough = absurd (omega arith)
  clear_all (suc fuel) l xs is enough =
      let (m, runs, left) = invalidate_all (suc fuel) fuel l 0 xs is.links is.all_valid enough in
      (
        record m { first = 0; last = 0; size = 0 },
        ap (λ f. emptied (invalidate (suc fuel) (suc fuel) f l)) is.first_is ∙ ap emptied runs,
        record {
          links = tt;
          first_is = refl;
          last_is = refl;
          size_is = refl;
          all_valid = λ a i. cc;
        },
        record { value_is = left.value_is; next_is = left.next_is; valid_is = left.valid_is },
      )

size_twice :
    (n k : ℕ)
    → n ≡ suc (suc k)
    → suc (suc k) < 2 ^ 64
    → ((n + 2 ^ 64 - 1) % 2 ^ 64 + 2 ^ 64 - 1) % 2 ^ 64 ≡ k
size_twice n k e small = omega arith

-- `remove_node` a second time of a node that was taken out of `k + 2`, less than 2 ^ 64: after
-- the first time the list is well formed and has `k + 1` nodes, and the second time the size is
-- `k`.
pub remove_twice {ℓ} :
    {A : Type ℓ} (l : OwningList A) (ys zs : List Ptr) (x : Ptr) (k : ℕ)
    → IsList l (ys ++ x ∷ zs)
    → length (ys ++ x ∷ zs) ≡ suc (suc k)
    → suc (suc k) < 2 ^ 64
    → IsList (remove_node x l) (ys ++ zs)
      × ((remove_node x (remove_node x l)).size ≡ k)
      × (length (ys ++ zs) ≡ suc k)
remove_twice l ys zs x k is e small =
    let le : length ys + length zs + 1 ≡ suc (suc k) =
      omega (arith, length-append ys (x ∷ zs), e) in
    (
      (remove_node-IsList l ys zs x is (omega arith)).0,
      remove_size (remove_node x l) x
          ∙ ap (λ s. (s + 2 ^ 64 - 1) % 2 ^ 64) (remove_size l x)
          ∙ size_twice l.size k (is.size_is ∙ e) small,
      omega (arith, length-append ys zs),
    )
