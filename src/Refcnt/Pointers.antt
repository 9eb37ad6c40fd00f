-- ===== src/Refcnt/Pointers.antt =====
-- `iptr` of src/panda/refcnt.h as a whole: the pointer of a new object and assignment, where each of
-- the two may be null and both may be the same.
use panda_lib.Base.{
  ◌+◌, ◌^◌, ◌<◌, ◌≡◌, ◌≢◌, refl, ap, ◌∙◌, true, false, Bool-cases, some, ◌==◌, ==→eq, if◌then◌else◌,
  inl, inr, arith,
}
use panda_lib.Refcnt.{
  Ptr, write, Store, created, inc, dec, then_dec, and_pointer, assign, reset, make_iptr,
}
use panda_lib.Refcnt.Counting.{created-IsHeld, nobody, written_here}
use panda_lib.Refcnt.Invariant.{Holders, IsCounted, holds_more, holds_less}
use panda_lib.Refcnt.Strong.{inc-IsCounted, dec-Dropped}

-- What a program holds with one more or less of a pointer that may be null.
abbrev pub with_pointer : Ptr → Holders → Holders
with_pointer p g = if p == 0 then g else holds_more p g

abbrev pub without_pointer : Ptr → Holders → Holders
without_pointer p g = if p == 0 then g else holds_less p g

-- A pointer that the program holds or that is null, with room for one more.
pub record IsPointer (p : Ptr) (g : Holders) : Type 0 where
  pub is_held : p ≢ 0 → 0 < g.strong p
  pub room : g.strong p + 1 < 2 ^ 32

null_or : (p : Ptr) → (p == 0) ≡ false → p ≢ 0
null_or p e z = ground (arith, z, e)

module _ (p : Ptr) (st : Store) (g : Holders) (w : IsCounted st g) where
  inc_any :
      IsPointer p g
      → (after : Store) × ((inc p st ≡ some after) × IsCounted after (with_pointer p g))
  unfolding inc
  inc_any k = elim (Bool-cases (p == 0)) [
    | inl e ↦ (st, (rw e refl, rw e w))
    | inr e ↦
        let there : p ≢ 0 = null_or p e in
        let (found, counted) =
          inc-IsCounted p st g w there (w.objects.held p (k.is_held there)) k.room in
        (_, (found, rw e counted))
  ]

  dec_any :
      (p ≢ 0 → 0 < g.strong p)
      → (after : Store) × ((dec p st ≡ some after) × IsCounted after (without_pointer p g))
  unfolding dec
  dec_any is_held = elim (Bool-cases (p == 0)) [
    | inl e ↦ (st, (rw e refl, rw e w))
    | inr e ↦
        let there : p ≢ 0 = null_or p e in
        let (after, (found, counted, lives, others, valid)) =
          dec-Dropped p st g w there (is_held there) in
        (after, (found, rw e counted))
  ]

  -- `reset` of a pointer that the program holds.
  pub reset-IsCounted :
      (p ≢ 0 → 0 < g.strong p)
      → (after : Store) × ((reset p st ≡ some (0, after)) × IsCounted after (without_pointer p g))
  unfolding reset and_pointer
  reset-IsCounted is_held =
      let (after, (found, counted)) = dec_any is_held in
      (after, (ap (and_pointer 0) found, counted))

still_held : (p q : Ptr) (g : Holders) → 0 < g.strong q → 0 < (with_pointer p g).strong q
still_held p q g h = elim (Bool-cases (p == 0)) [
  | inl e ↦ rw e h
  | inr e ↦ elim (Bool-cases (p == q)) [ inl f ↦ rw (e, f) (omega arith) | inr f ↦ rw (e, f) h ]
]

-- Assignment of a pointer to another one reads no object that was destroyed: one holder more of
-- the new object, one less of the old one, and the store agrees with what the program then holds.
-- Each of the two is null or held by the program, both may be the same, and the count of the new
-- object has room.
pub assign-IsCounted :
    (held pointer : Ptr) (st : Store) (g : Holders)
    → IsCounted st g
    → IsPointer pointer g
    → (held ≢ 0 → 0 < g.strong held)
    → (after : Store) × ((assign held pointer st ≡ some (pointer, after))
        × IsCounted after (without_pointer held (with_pointer pointer g)))
unfolding assign and_pointer then_dec
assign-IsCounted held pointer st g w k is_held =
    let (between, (found, counted)) = inc_any pointer st g w k in
    let (after, (ended, left)) =
      dec_any held between (with_pointer pointer g) counted
        (λ there. still_held pointer held g (is_held there)) in
    (
      after,
      (
        ap (λ o. and_pointer pointer (then_dec held o)) found ∙ ap (and_pointer pointer) ended,
        left,
      ),
    )

module _ (fresh : Ptr) (st : Store) (g : Holders) (w : IsCounted st g) where
  abbrev born : Store
  born = record st { objects = created fresh st.objects; weak = write st.weak fresh 0 }

  module _ (unborn : st.objects.live fresh ≡ false) where
    born-IsCounted : IsCounted born g
    unfolding created
    born-IsCounted = record {
      objects = created-IsHeld fresh st.objects g.strong w.objects unborn;
      storages = w.storages;
      null = w.null;
      own = λ q live has. elim (Bool-cases (fresh == q)) [
        | inl e ↦ absurd (has (rw e refl))
        | inr e ↦ rw e (w.own q (rw e at live) (rw e at has))
      ];
      lives = λ s v.
          let (lived, mine) = w.lives s v in
          elim (Bool-cases (fresh == g.owner s)) [
            | inl e ↦
                let same : fresh ≡ g.owner s = ==→eq fresh (g.owner s) e in
                let clash : false ≡ true = cc in cc
            | inr e ↦ rw e (lived, mine)
          ];
    }

    -- The pointer to a new object, at an address that is not in use, is its only holder.
    pub make_iptr-IsCounted :
        fresh ≢ 0
        → (after : Store) × ((make_iptr fresh st ≡ some (fresh, after))
            × IsCounted after (holds_more fresh g))
    unfolding make_iptr and_pointer
    make_iptr-IsCounted there =
        let none_yet : g.strong fresh ≡ 0 = nobody fresh st.objects g.strong w.objects unborn in
        let lives : born.objects.live fresh ≡ true =
          (unfold created in written_here st.objects.live fresh true) in
        let (found, counted) =
          inc-IsCounted fresh born g born-IsCounted there lives (omega (arith, none_yet)) in
        (_, (ap (and_pointer fresh) found, counted))
