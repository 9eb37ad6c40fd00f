-- ===== src/Refcnt/Weak.antt =====
-- The weak pointers of src/panda/refcnt.h: a lock gives the object while it lives and null after its
-- end.
use panda_lib.Base.{
  ◌+◌, ◌^◌, ◌<◌, ◌≡◌, ◌≢◌, refl, sym, ap, subst, ◌∙◌, Bool, true, false, Bool-cases, Option, some,
  none, ◌==◌, ne→==, ltb, ge→ltb, if◌then◌else◌, inl, inr, arith,
}
use panda_lib.Refcnt.{
  assign_weak, Ptr, Store, inc, dec, WeakIptr, is_valid, lock, lock_if, use_count_if, weak_count_if,
  minus_one, use_count, weak_count, and_pointer, count_of,
}
use panda_lib.Refcnt.Invariant.{Holders, one_if, IsCounted, holds_more, holds_less}
use panda_lib.Refcnt.Strong.{inc-IsCounted, dec-Dropped}

-- A weak pointer that the program holds: it counts, and its object is the one of its storage.
pub record IsWeak (v : WeakIptr) (g : Holders) : Type 0 where
  pub counted : 0 < g.weak v.storage
  pub some_storage : v.storage ≢ 0
  pub some_object : v.object ≢ 0
  pub object_of : g.owner v.storage ≡ v.object

module _ (v : WeakIptr) (st : Store) (g : Holders) (w : IsCounted st g) (k : IsWeak v g) where
  storage_lives : st.storages.live v.storage ≡ true
  storage_lives = w.storages.held v.storage (omega (arith, k.counted))

  is_valid-storage : is_valid v st ≡ some (st.valid v.storage)
  unfolding is_valid
  is_valid-storage = rw (ne→== v.storage 0 k.some_storage, storage_lives) refl

  object_lives : st.valid v.storage ≡ true → st.objects.live v.object ≡ true
  object_lives e = subst (λ o. st.objects.live o ≡ true) k.object_of ((w.lives v.storage e).0)

  -- What a lock gives: where the storage is valid, a pointer more to the object, which lives.
  abbrev pub Locked : Bool → Option (Ptr × Store) → Type 0
  Locked false r = r ≡ some (0, st)
  Locked true r =
      (st.objects.live v.object ≡ true)
      × ((after : Store) × ((r ≡ some (v.object, after)) × IsCounted after (holds_more v.object g)))

  locked :
      (b : Bool)
      → st.valid v.storage ≡ b
      → g.strong v.object + 1 < 2 ^ 32
      → Locked b (lock_if v st (some b))
  unfolding lock_if
  locked false e room = refl
  locked true e room =
      let lives : st.objects.live v.object ≡ true = object_lives e in
      let (found, counted) = inc-IsCounted v.object st g w k.some_object lives room in
      (lives, (_, (ap (and_pointer v.object) found, counted)))

  -- A lock of a weak pointer that the program holds reads no object that was destroyed. While its
  -- storage is valid the object lives, and the lock gives a pointer to it, which counts; then it
  -- gives the null pointer. The count of the object has room.
  pub lock-Locked : g.strong v.object + 1 < 2 ^ 32 → Locked (st.valid v.storage) (lock v st)
  unfolding lock
  lock-Locked room =
      subst (λ o. Locked (st.valid v.storage) (lock_if v st o)) (sym is_valid-storage)
        (locked (st.valid v.storage) refl room)

  counted_storage : st.storages.count v.storage ≡ g.weak v.storage + one_if (st.valid v.storage)
  counted_storage = w.storages.exact v.storage storage_lives

  use_shown :
      (b : Bool)
      → st.valid v.storage ≡ b
      → use_count_if v st (some b) ≡ some (if b then g.strong v.object else 0)
  unfolding use_count_if count_of
  use_shown false e = refl
  use_shown true e = rw (object_lives e) (ap some (w.objects.exact v.object (object_lives e)))

  weak_shown :
      (b : Bool)
      → st.valid v.storage ≡ b
      → g.weak v.storage < 2 ^ 32
      → weak_count_if v st (some b) ≡ some (g.weak v.storage)
  unfolding weak_count_if count_of minus_one
  weak_shown false e room = rw storage_lives (ap some (omega (arith, counted_storage, ap one_if e)))
  weak_shown true e room = rw storage_lives (ap some (omega (arith, counted_storage, ap one_if e)))

  -- `use_count` is the number of pointers to the object while it lives and 0 after its end;
  -- `weak_count` is the number of weak pointers, before the end and after it.
  pub counts_shown :
      g.weak v.storage < 2 ^ 32
      → (use_count v st ≡ some (if st.valid v.storage then g.strong v.object else 0))
        × (weak_count v st ≡ some (g.weak v.storage))
  unfolding use_count weak_count
  counts_shown room =
      let shown = weak_shown (st.valid v.storage) refl room in
      (
        ap (use_count_if v st) is_valid-storage ∙ use_shown (st.valid v.storage) refl,
        rw (ne→== v.storage 0 k.some_storage, storage_lives) shown,
      )

module _ (v : WeakIptr) (st : Store) (g : Holders) (w : IsCounted st g) (k : IsWeak v g) where
  lock_invalid : st.valid v.storage ≡ false → lock v st ≡ some (0, st)
  unfolding lock lock_if
  lock_invalid e = ap (lock_if v st) (is_valid-storage v st g w k ∙ ap some e)

  -- Where the object is dead, the storage is not valid.
  ended : st.objects.live v.object ≡ false → st.valid v.storage ≡ false
  ended gone = elim (Bool-cases (st.valid v.storage)) [
    | inl e ↦ let lives : st.objects.live v.object ≡ true = object_lives v st g w k e in cc
    | inr e ↦ e
  ]

module _ (v : WeakIptr) (st : Store) (g : Holders) (w : IsCounted st g) (k : IsWeak v g) where
  kept : IsWeak v (holds_less v.object g)
  kept = record {
    counted = k.counted;
    some_storage = k.some_storage;
    some_object = k.some_object;
    object_of = k.object_of;
  }

  -- After the end of the last pointer to the object a lock gives the null pointer; both are well.
  pub lock-dec :
      g.strong v.object ≡ 1
      → (after : Store) × ((dec v.object st ≡ some after) × (lock v after ≡ some (0, after)))
  lock-dec one =
      let (after, (found, counted, lives, others, valid)) =
        dec-Dropped v.object st g w k.some_object (omega (arith, one)) in
      let last : ltb 1 (g.strong v.object) ≡ false = ge→ltb 1 _ (omega (arith, one)) in
      (
        after,
        (
          found,
          lock_invalid v after (holds_less v.object g) counted kept
              (ended v after (holds_less v.object g) counted kept (lives ∙ last)),
        ),
      )

module _ (v from : WeakIptr) (st : Store) (g : Holders) (w : IsCounted st g) (k : IsWeak v g)
    (l : IsWeak from g) where
  still_valid :
      (after : Store)
      → IsCounted after (holds_less from.object g)
      → after.valid v.storage ≡ true
      → is_valid (assign_weak v from).1 after ≡ some true
  unfolding assign_weak is_valid
  still_valid after counted e =
      let lives : after.storages.live v.storage ≡ true =
        counted.storages.held v.storage (omega (arith, k.counted)) in
      rw (ne→== v.storage 0 k.some_storage, lives, e) refl

  -- A weak pointer that was moved from by an assignment keeps its object beside the storage of the
  -- other one. Of two weak pointers to different objects, where the object of the target lives and
  -- that of the source has one pointer left, a lock of the source after the end of this pointer
  -- reads the object that was destroyed.
  pub lock-assign_weak :
      v.object ≢ from.object
      → st.valid v.storage ≡ true
      → g.strong from.object ≡ 1
      → (after : Store) × ((dec from.object st ≡ some after)
          × (lock (assign_weak v from).1 after ≡ none))
  unfolding lock lock_if
  lock-assign_weak different e one =
      let (after, (found, counted, lives, others, valid)) =
        dec-Dropped from.object st g w l.some_object (omega (arith, one)) in
      let other : (from.object == g.owner v.storage) ≡ false =
        ne→== _ _ (λ same. different (sym (same ∙ k.object_of))) in
      let gone : after.objects.live from.object ≡ false = lives ∙ ge→ltb 1 _ (omega (arith, one)) in
      (
        after,
        (
          found,
          ap (lock_if (assign_weak v from).1 after)
                (still_valid after counted (valid v.storage other ∙ e))
              ∙ (unfold assign_weak inc in rw (ne→== from.object 0 l.some_object, gone) refl),
        ),
      )
