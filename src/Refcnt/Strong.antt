-- ===== src/Refcnt/Strong.antt =====
-- The strong pointers of src/panda/refcnt.h: they keep the counts right, and an object is destroyed at
-- the end of its last pointer.
use panda_lib.Base.{
  ◌+◌, ◌^◌, ◌<◌, ◌≡◌, ◌≢◌, refl, sym, ap, ◌∙◌, Bool, true, false, Bool-cases, some, ◌==◌, ==→eq,
  ne→==, ==_refl, ltb, ltb→lt, ltb→ge, inl, inr, arith,
}
use panda_lib.Refcnt.{
  Ptr, write, Counts, Store, inc, dec, retained, released, destroyed, storage_released,
}
use panda_lib.Refcnt.Counting.{
  IsHeld, less, up, down, dead, retain-up, up-IsHeld, release-down, down-IsHeld, release-dead,
  dead-IsHeld, dead_others, release-IsHeld, IsHeld-same, written_here, written_there,
}
use panda_lib.Refcnt.Invariant.{Holders, one_if, storage_holders, IsCounted, holds_more, holds_less}

module _ (p : Ptr) (st : Store) (g : Holders) (w : IsCounted st g) (there : p ≢ 0) where
  -- A pointer more to an object that lives.
  pub inc-IsCounted :
      st.objects.live p ≡ true
      → g.strong p + 1 < 2 ^ 32
      → (inc p st ≡ some (record st { objects = up p st.objects }))
        × IsCounted (record st { objects = up p st.objects }) (holds_more p g)
  unfolding inc
  inc-IsCounted alive room = (
    rw (ne→== p 0 there) (ap (retained st) (retain-up p st.objects g.strong w.objects alive)),
    record {
      objects = up-IsHeld p st.objects g.strong w.objects alive room;
      storages = w.storages;
      null = w.null;
      own = w.own;
      lives = w.lives;
    },
  )

  -- A pointer less, which is not the last.
  dec-down :
      1 < g.strong p
      → (dec p st ≡ some (record st { objects = down p st.objects }))
        × IsCounted (record st { objects = down p st.objects }) (holds_less p g)
  unfolding dec
  dec-down many = (
    rw (ne→== p 0 there) (ap (released p st) (release-down p st.objects g.strong w.objects many)),
    record {
      objects = down-IsHeld p st.objects g.strong w.objects many;
      storages = w.storages;
      null = w.null;
      own = w.own;
      lives = w.lives;
    },
  )

  -- What is left of the store after the last pointer, with these storages and this `valid`.
  abbrev left : Counts → (Ptr → Bool) → Store
  left storages valid = record {
    objects = dead p st.objects;
    storages = storages;
    weak = st.weak;
    valid = valid;
  }

  module _ (one : g.strong p ≡ 1) where
    dec_first : dec p st ≡ destroyed p (record st { objects = dead p st.objects })
    unfolding dec
    dec_first =
        rw (ne→== p 0 there) (ap (released p st) (release-dead p st.objects g.strong w.objects one))

    alive : st.objects.live p ≡ true
    alive = w.objects.held p (omega (arith, one))

    -- The store is counted after the last pointer if only the storage of the object is no longer
    -- valid.
    left-IsCounted :
        (storages : Counts) (valid : Ptr → Bool)
        → IsHeld storages (storage_holders g.weak valid)
        → valid 0 ≡ false
        → ((q : Ptr)
            → (p == q) ≡ false
            → st.objects.live q ≡ true
            → st.weak q ≢ 0
            → valid (st.weak q) ≡ true)
        → ((s : Ptr) → valid s ≡ true → (st.valid s ≡ true) × ((p == g.owner s) ≡ false))
        → IsCounted (left storages valid) (holds_less p g)
    left-IsCounted storages valid held null keeps gone = record {
      objects = dead-IsHeld p st.objects g.strong w.objects one;
      storages = held;
      null = null;
      own = λ q live some_weak.
          let (other, lived) = dead_others st.objects.live p q live in
          (keeps q other lived some_weak, (w.own q lived some_weak).1);
      lives = λ s v.
          let (was, other) = gone s v in
          let (lived, mine) = w.lives s was in
          (written_there st.objects.live p (g.owner s) false other ∙ lived, mine);
    }

    -- An object without a weak storage.
    dec-dead :
        st.weak p ≡ 0
        → (dec p st ≡ some (left st.storages st.valid))
          × IsCounted (left st.storages st.valid) (holds_less p g)
    unfolding destroyed
    dec-dead e = (
      dec_first ∙ rw e refl,
      left-IsCounted st.storages st.valid w.storages w.null
          (λ q other lived some_weak. (w.own q lived some_weak).0) (λ s v. (v, not_of s v)),
    )
      where
        not_of : (s : Ptr) → st.valid s ≡ true → (p == g.owner s) ≡ false
        not_of s v = elim (Bool-cases (p == g.owner s)) [
          | inl same ↦
              let equal : p ≡ g.owner s = ==→eq p (g.owner s) same in
              let mine : st.weak (g.owner s) ≡ s = (w.lives s v).1 in
              let none_valid : st.valid 0 ≡ false = w.null in cc
          | inr other ↦ other
        ]

    -- An object with a weak storage, which is released in its turn.
    module _ (some_weak : st.weak p ≢ 0) where
      abbrev forgotten : Ptr → Bool
      forgotten = write st.valid (st.weak p) false

      own_valid : one_if (st.valid (st.weak p)) ≡ 1
      own_valid = rw ((w.own p alive some_weak).0) refl

      one_less :
          (s : Ptr)
          → less (st.weak p) (storage_holders g.weak st.valid) s
            ≡ storage_holders g.weak forgotten s
      one_less s = elim (Bool-cases (st.weak p == s)) [
        | inl e ↦ rw e (omega (arith, own_valid, ap g.weak (==→eq (st.weak p) s e)))
        | inr e ↦ rw e refl
      ]

      dec-forgotten :
          (storages : Counts) × (dec p st ≡ some (left storages forgotten))
          × IsCounted (left storages forgotten) (holds_less p g)
      unfolding destroyed
      dec-forgotten =
          let (last, storages, found, held) =
            release-IsHeld (st.weak p) st.storages (storage_holders g.weak st.valid) w.storages
              (omega (arith, own_valid)) in
          (
            storages,
            dec_first
                ∙ rw (ne→== (st.weak p) 0 some_weak) (
                    ap
                      (storage_released (record {
                        objects = dead p st.objects;
                        storages = st.storages;
                        weak = st.weak;
                        valid = forgotten;
                      }))
                      found),
            left-IsCounted storages forgotten (IsHeld-same storages _ _ one_less held)
                (rw (ne→== (st.weak p) 0 some_weak) w.null) keeps gone,
          )
        where
          keeps :
              (q : Ptr)
              → (p == q) ≡ false
              → st.objects.live q ≡ true
              → st.weak q ≢ 0
              → forgotten (st.weak q) ≡ true
          keeps q other lived has = elim (Bool-cases (st.weak p == st.weak q)) [
            | inl e ↦
                let same : st.weak p ≡ st.weak q = ==→eq (st.weak p) (st.weak q) e in
                let mine : g.owner (st.weak p) ≡ p = (w.own p alive some_weak).1 in
                let its : g.owner (st.weak q) ≡ q = (w.own q lived has).1 in
                let equal : p ≡ q = cc in absurd (ground (arith, ==_refl q, equal))
            | inr e ↦ rw e ((w.own q lived has).0)
          ]

          gone : (s : Ptr) → forgotten s ≡ true → (st.valid s ≡ true) × ((p == g.owner s) ≡ false)
          gone s v =
              let (apart, was) = dead_others st.valid (st.weak p) s v in
              (
                was,
                elim (Bool-cases (p == g.owner s)) [
                  | inl e ↦
                      let same : p ≡ g.owner s = ==→eq p (g.owner s) e in
                      let mine : st.weak (g.owner s) ≡ s = (w.lives s was).1 in
                      let equal : st.weak p ≡ s = cc in absurd (ground (arith, equal))
                  | inr e ↦ e
                ],
              )

  -- What the end of a pointer to an object makes of the store: the object is no longer there exactly
  -- if this was its last pointer; the others live as before, and their storages are as valid.
  abbrev pub Dropped : Store → Type 0
  Dropped after =
      (dec p st ≡ some after)
      × IsCounted after (holds_less p g)
      × (after.objects.live p ≡ ltb 1 (g.strong p))
      × ((q : Ptr) → (p == q) ≡ false → after.objects.live q ≡ st.objects.live q)
      × ((s : Ptr) → (p == g.owner s) ≡ false → after.valid s ≡ st.valid s)

  others_valid :
      g.strong p ≡ 1
      → st.weak p ≢ 0
      → (s : Ptr) → (p == g.owner s) ≡ false
      → write st.valid (st.weak p) false s ≡ st.valid s
  others_valid one some_weak s other = elim (Bool-cases (st.weak p == s)) [
    | inl e ↦
        let same : st.weak p ≡ s = ==→eq (st.weak p) s e in
        let mine : g.owner (st.weak p) ≡ p = (w.own p (alive one) some_weak).1 in
        let equal : p ≡ g.owner s = cc in absurd (ground (arith, other, equal))
    | inr e ↦ rw e refl
  ]

  -- The end of a pointer to an object that the program holds: the store agrees with what the
  -- program holds then, the object lives exactly if this was not its last pointer, the other
  -- objects live as before, and the storages of other objects are as valid as before.
  pub dec-Dropped : 0 < g.strong p → (after : Store) × Dropped after
  dec-Dropped some_holder = elim (Bool-cases (ltb 1 (g.strong p))) [
    | inl e ↦
        let (found, counted) = dec-down (ltb→lt 1 (g.strong p) e) in
        (
          _,
          (found, counted, w.objects.held p some_holder ∙ sym e, λ q other. refl, λ s other. refl),
        )
    | inr e ↦
        let one : g.strong p ≡ 1 = omega (arith, ltb→ge 1 (g.strong p) e) in
        elim (Bool-cases (st.weak p == 0)) [
          | inl f ↦
              let (found, counted) = dec-dead one (==→eq (st.weak p) 0 f) in
              (_, (found, counted, ended e, others_live, λ s other. refl))
          | inr f ↦
              let has : st.weak p ≢ 0 = λ z. ground (arith, z, f) in
              let (storages, found, counted) = dec-forgotten one has in
              (_, (found, counted, ended e, others_live, others_valid one has))
        ]
  ]
    where
      ended : ltb 1 (g.strong p) ≡ false → write st.objects.live p false p ≡ ltb 1 (g.strong p)
      ended e = written_here st.objects.live p false ∙ sym e

      others_live :
          (q : Ptr) → (p == q) ≡ false → write st.objects.live p false q ≡ st.objects.live q
      others_live q other = written_there st.objects.live p q false other
