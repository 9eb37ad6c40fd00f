-- ===== src/Refcnt/Weaken.antt =====
-- A weak pointer to an object of src/panda/refcnt.h, the first one and a further one.
use panda_lib.Base.{
  ℕ, ◌+◌, ◌^◌, ◌<◌, ◌≡◌, ◌≢◌, refl, ap, Bool, true, false, Bool-cases, some, ◌==◌, ==→eq, ne→==,
  ==_refl, inl, inr, arith,
}
use panda_lib.Refcnt.{
  Ptr, write, Counts, Store, created, WeakIptr, get_weak, weaken, and_pointer, with_storages,
  inc_storage,
}
use panda_lib.Refcnt.Counting.{
  IsHeld, IsHeld-same, more, up, retain-up, up-IsHeld, created-IsHeld, nobody, written_here,
}
use panda_lib.Refcnt.Invariant.{Holders, one_if, storage_holders, IsCounted, weak_more}
use panda_lib.Refcnt.Weak.{IsWeak}

-- The holders of a storage with one weak pointer more.
one_more :
    (weak : Ptr → ℕ) (valid : Ptr → Bool) (s q : Ptr)
    → more s (storage_holders weak valid) q ≡ storage_holders (more s weak) valid q
one_more weak valid s q = elim (Bool-cases (s == q)) [
  | inl e ↦ rw e (omega (arith, ap (λ i. one_if (valid i)) (==→eq s q e)))
  | inr e ↦ rw e refl
]

module _ (p : Ptr) (st : Store) (g : Holders) (w : IsCounted st g) (there : p ≢ 0)
    (some_holder : 0 < g.strong p) where
  alive : st.objects.live p ≡ true
  alive = w.objects.held p some_holder

  -- What `weak_iptr` of a pointer gives: one weak pointer more to the object, which program and store
  -- agree on.
  abbrev pub Weakened : WeakIptr × Store → Holders → Type 0
  Weakened (v, after) g2 =
      IsCounted after g2 × IsWeak v g2 × (v.object ≡ p) × (g2.strong ≡ g.strong)

  -- The storage that the object has.
  further :
      (fresh : Ptr)
      → st.weak p ≢ 0
      → g.weak (st.weak p) + 2 < 2 ^ 32
      → (r : WeakIptr × Store) × (g2 : Holders) × (weaken fresh p st ≡ some r) × Weakened r g2
  unfolding weaken get_weak inc_storage and_pointer with_storages
  further fresh has room =
      let (is_valid, mine) = w.own p alive has in
      let s : Ptr = st.weak p in
      let one : one_if (st.valid s) ≡ 1 = ap one_if is_valid in
      let lives : st.storages.live s ≡ true = w.storages.held s (omega (arith, one)) in
      let held =
        up-IsHeld s st.storages (storage_holders g.weak st.valid) w.storages lives
          (omega (arith, one)) in
      (
        (record { storage = s; object = p }, record st { storages = up s st.storages }),
        weak_more s g,
        rw
            (
              ne→== p 0 there,
              alive,
              ne→== (st.weak p) 0 has,
              retain-up s st.storages (storage_holders g.weak st.valid) w.storages lives,
            )
            refl,
        (
          record {
            objects = w.objects;
            storages = IsHeld-same (up s st.storages) _ _ (one_more g.weak st.valid s) held;
            null = w.null;
            own = w.own;
            lives = w.lives;
          },
          record {
            counted = rw (==_refl s) (omega arith);
            some_storage = has;
            some_object = there;
            object_of = mine;
          },
          refl,
          refl,
        ),
      )

  module _ (fresh : Ptr) (some_fresh : fresh ≢ 0) (unborn : st.storages.live fresh ≡ false)
      (has_none : st.weak p ≡ 0) where
    none_yet : storage_holders g.weak st.valid fresh ≡ 0
    none_yet = nobody fresh st.storages (storage_holders g.weak st.valid) w.storages unborn

    never_valid : st.valid fresh ≡ false
    never_valid = elim (Bool-cases (st.valid fresh)) [
      | inl e ↦ absurd (omega (arith, none_yet, ap one_if e))
      | inr e ↦ e
    ]

    abbrev made : Counts
    made = created fresh st.storages

    abbrev made_valid : Ptr → Bool
    made_valid = write st.valid fresh true

    abbrev made_holders : Holders
    made_holders = record {
      strong = g.strong;
      weak = more fresh g.weak;
      owner = write g.owner fresh p;
    }

    made_lives : made.live fresh ≡ true
    unfolding created
    made_lives = written_here st.storages.live fresh true

    made-IsHeld_once : IsHeld (up fresh made) (more fresh (storage_holders g.weak st.valid))
    made-IsHeld_once =
        up-IsHeld fresh made (storage_holders g.weak st.valid)
          (created-IsHeld fresh st.storages (storage_holders g.weak st.valid) w.storages unborn)
          made_lives (omega (arith, none_yet))

    made-IsHeld_twice :
        IsHeld
          (up fresh (up fresh made))
          (more fresh (more fresh (storage_holders g.weak st.valid)))
    made-IsHeld_twice =
        up-IsHeld fresh (up fresh made) (more fresh (storage_holders g.weak st.valid))
          made-IsHeld_once made_lives (rw (==_refl fresh) (omega (arith, none_yet)))

    two_more :
        (q : Ptr)
        → more fresh (more fresh (storage_holders g.weak st.valid)) q
          ≡ storage_holders (more fresh g.weak) made_valid q
    two_more q = elim (Bool-cases (fresh == q)) [
      | inl e ↦ rw (e, ==_refl fresh) (omega (arith, none_yet, ap one_if never_valid))
      | inr e ↦ rw e refl
    ]

    own_after :
        (q : Ptr)
        → st.objects.live q ≡ true
        → write st.weak p fresh q ≢ 0
        → (made_valid (write st.weak p fresh q) ≡ true)
          × (write g.owner fresh p (write st.weak p fresh q) ≡ q)
    own_after q live has = elim (Bool-cases (p == q)) [
      | inl e ↦ rw (e, ==_refl fresh) (refl, ==→eq p q e)
      | inr e ↦
          let (is_valid, mine) = w.own q live (rw e at has) in
          elim (Bool-cases (fresh == st.weak q)) [
            | inl f ↦
                let same : fresh ≡ st.weak q = ==→eq fresh (st.weak q) f in
                let no : st.valid fresh ≡ false = never_valid in let clash : false ≡ true = cc in cc
            | inr f ↦ rw (e, f) (is_valid, mine)
          ]
    ]

    lives_after :
        (s : Ptr)
        → made_valid s ≡ true
        → (st.objects.live (write g.owner fresh p s) ≡ true)
          × (write st.weak p fresh (write g.owner fresh p s) ≡ s)
    lives_after s v = elim (Bool-cases (fresh == s)) [
      | inl e ↦ rw (e, ==_refl p) (alive, ==→eq fresh s e)
      | inr e ↦
          let (lived, mine) = w.lives s (rw e at v) in
          elim (Bool-cases (p == g.owner s)) [
            | inl f ↦
                let same : p ≡ g.owner s = ==→eq p (g.owner s) f in
                let was : st.valid s ≡ true = rw e at v in
                let no : st.valid 0 ≡ false = w.null in let clash : false ≡ true = cc in cc
            | inr f ↦ rw (e, f) (lived, mine)
          ]
    ]

    -- A storage that is made for the object.
    first : (r : WeakIptr × Store) × (g2 : Holders) × (weaken fresh p st ≡ some r) × Weakened r g2
    unfolding weaken get_weak inc_storage and_pointer with_storages
    first = (
      (
        record { storage = fresh; object = p },
        record {
          objects = st.objects;
          storages = up fresh (up fresh made);
          weak = write st.weak p fresh;
          valid = made_valid;
        },
      ),
      made_holders,
      rw
          (
            ne→== p 0 there,
            alive,
            has_none,
            retain-up fresh made _ (created-IsHeld fresh st.storages _ w.storages unborn)
                made_lives,
            ne→== fresh 0 some_fresh,
            retain-up fresh (up fresh made) _ made-IsHeld_once made_lives,
          )
          refl,
      (
        record {
          objects = w.objects;
          storages = IsHeld-same (up fresh (up fresh made)) _ _ two_more made-IsHeld_twice;
          null = rw (ne→== fresh 0 some_fresh) w.null;
          own = own_after;
          lives = lives_after;
        },
        record {
          counted = rw (==_refl fresh) (omega arith);
          some_storage = some_fresh;
          some_object = there;
          object_of = written_here g.owner fresh p;
        },
        refl,
        refl,
      ),
    )

  -- A weak pointer is made of a pointer that the program holds, where the address of a new storage
  -- is not null and not in use and the count of the storage has room: one weak pointer more to the
  -- object, the pointers as before, and the store agrees with what the program holds.
  pub weaken-Weakened :
      (fresh : Ptr)
      → fresh ≢ 0
      → st.storages.live fresh ≡ false
      → g.weak (st.weak p) + 2 < 2 ^ 32
      → (r : WeakIptr × Store) × (g2 : Holders) × (weaken fresh p st ≡ some r) × Weakened r g2
  weaken-Weakened fresh some_fresh unborn room = elim (Bool-cases (st.weak p == 0)) [
    | inl e ↦ first fresh some_fresh unborn (==→eq (st.weak p) 0 e)
    | inr e ↦ further fresh (λ z. ground (arith, z, e)) room
  ]
