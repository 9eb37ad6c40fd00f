-- ===== src/Log/Life/Orphan.antt =====
-- `Module::~Module` of src/panda/log/log.cc.
use panda_lib.Base.{
  ◌≡◌, ◌≢◌, refl, sym, ap, ap₂, ◌∙◌, subst, Bool, true, false, Bool-cases, ◌==◌, ==→eq, ==→ne,
  ne→==, elem, erase_first, elem-erase_first, elem_erased, elem_kept, Once, Once-erase_first, inl,
  inr, if◌then◌else◌,
}
use panda_lib.Refcnt.{Ptr, write}
use panda_lib.Log.{Module, ModuleData, Instance, Slot, logging, formatting, effective, own}
use panda_lib.Log.Walk.{IsForest, known-nonzero}
use panda_lib.Log.Coherent.{Agrees, inherited, or_else}
use panda_lib.Log.Sound.{IsSound, formatter-nonzero}

abbrev pub keeping : Bool → ModuleData → ModuleData
keeping b d =
    if b then record d { logger = d.effective_logger; formatter = d.effective_formatter } else d

abbrev pub rootless : Bool → Module → Module
rootless b o = if b then record o { parent = 0 } else o

pub effective-keeping :
    (k : Slot) (b : Bool) (d : ModuleData) → effective k (keeping b d) ≡ effective k d
unfolding effective
effective-keeping logging true d = refl
effective-keeping formatting true d = refl
effective-keeping k false d = refl

pub own-keeping : (k : Slot) (d : ModuleData) → own k (keeping true d) ≡ effective k d
unfolding effective own
own-keeping logging d = refl
own-keeping formatting d = refl

pub keeping_twice : (b : Bool) (d : ModuleData) → keeping b (keeping true d) ≡ keeping true d
keeping_twice true d = refl
keeping_twice false d = refl

pub rootless_twice : (b : Bool) (o : Module) → rootless b (rootless true o) ≡ rootless true o
rootless_twice true o = refl
rootless_twice false o = refl

pub children-rootless : (b : Bool) (o : Module) → (rootless b o).children ≡ o.children
children-rootless true o = refl
children-rootless false o = refl

same_or : (v : Ptr) → v ≡ or_else v 0
same_or v = elim (Bool-cases (v == 0)) [ inl e ↦ rw e (==→eq v 0 e) | inr e ↦ rw e refl ]

-- What the destructor leaves of the other modules: those that were children are without a parent and
-- have what was effective, and the module is not among the children of its parent.
pub record IsOrphaned (this : Ptr) (s z : Instance) : Type 0 where
  pub has : (a : Ptr) → z.src_data.has a ≡ write s.src_data.has this false a
  pub entry :
      (a : Ptr)
      → z.src_data.entry a ≡ keeping (elem a (s.objects this).children) (s.src_data.entry a)
  pub parent :
      (a : Ptr)
      → (z.objects a).parent ≡ (rootless (elem a (s.objects this).children) (s.objects a)).parent
  pub siblings :
      (s.objects this).parent ≢ 0
      → (z.objects (s.objects this).parent).children
        ≡ erase_first this (s.objects (s.objects this).parent).children
  pub others :
      (a : Ptr)
      → a ≢ 0
      → a ≢ (s.objects this).parent
      → (z.objects a).children ≡ (s.objects a).children

module _ (this : Ptr) (s z : Instance) (o : IsSound s) (here : s.src_data.has this ≡ true)
    (i : IsOrphaned this s z) where
  abbrev lost : Ptr → Bool
  lost a = elem a (s.objects this).children

  still : (a : Ptr) → z.src_data.has a ≡ true → (a ≢ this) × (s.src_data.has a ≡ true)
  still a known = elim (Bool-cases (this == a)) [
    | inl e ↦ let no : false ≡ true = rw e at (sym (i.has a) ∙ known) in cc
    | inr e ↦ ((λ q. ==→ne this a e (sym q)), (rw e at (sym (i.has a) ∙ known)))
  ]

  remains : (a : Ptr) → a ≢ this → s.src_data.has a ≡ true → z.src_data.has a ≡ true
  remains a differs known = i.has a ∙ (rw (ne→== this a (λ e. differs (sym e))) known)

  not_lost : (a p : Ptr) → (s.objects a).parent ≡ p → p ≢ this → lost a ≡ false
  not_lost a p up differs = elim (Bool-cases (lost a)) [
    | inl e ↦ absurd (differs (sym up ∙ (o.forest.child this a here e).1))
    | inr e ↦ e
  ]

  parent_lost : (a : Ptr) → lost a ≡ true → (z.objects a).parent ≡ 0
  parent_lost a e = i.parent a ∙ (rw e refl)

  parent_kept : (a : Ptr) → lost a ≡ false → (z.objects a).parent ≡ (s.objects a).parent
  parent_kept a e = i.parent a ∙ (rw e refl)

  -- A child that is left was one, and is not the module.
  child_before :
      (a c : Ptr)
      → z.src_data.has a ≡ true
      → elem c (z.objects a).children ≡ true
      → (elem c (s.objects a).children ≡ true) × (c ≢ this)
  child_before a c known inside =
      let (differs, held) = still a known in
      let nonzero : a ≢ 0 = known-nonzero s.src_data.has s.objects o.forest a held in
      elim (Bool-cases (a == (s.objects this).parent)) [
        | inl e ↦
            let up : a ≡ (s.objects this).parent = ==→eq a (s.objects this).parent e in
            let kids : (z.objects a).children ≡ erase_first this (s.objects a).children =
              subst (λ q. (z.objects q).children ≡ erase_first this (s.objects q).children) (sym up)
                (i.siblings (λ none. nonzero (up ∙ none))) in
            (
              elem-erase_first this c (s.objects a).children (rw kids at inside),
              λ same.
                  let found : elem this (erase_first this (s.objects a).children) ≡ true =
                    subst (λ q. elem q (erase_first this (s.objects a).children) ≡ true) same
                      (rw kids at inside) in
                  let no : true ≡ false =
                    sym found ∙ elem_erased this (s.objects a).children (o.forest.once a held) in
                  cc,
            )
        | inr e ↦
            let kids : (z.objects a).children ≡ (s.objects a).children =
              i.others a nonzero (==→ne a (s.objects this).parent e) in
            let before : elem c (s.objects a).children ≡ true = rw kids at inside in
            (
              before,
              λ same.
                  ==→ne a (s.objects this).parent e
                    (sym (o.forest.child a c held before).1 ∙ ap (λ q. (s.objects q).parent) same),
            )
      ]

  child_after :
      (a c : Ptr)
      → a ≢ 0
      → c ≢ this
      → elem c (s.objects a).children ≡ true
      → elem c (z.objects a).children ≡ true
  child_after a c nonzero differs inside = elim (Bool-cases (a == (s.objects this).parent)) [
    | inl e ↦
        let up : a ≡ (s.objects this).parent = ==→eq a (s.objects this).parent e in
        let kids : (z.objects a).children ≡ erase_first this (s.objects a).children =
          subst (λ q. (z.objects q).children ≡ erase_first this (s.objects q).children) (sym up)
            (i.siblings (λ none. nonzero (up ∙ none))) in
        rw kids (elem_kept this c (s.objects a).children differs inside)
    | inr e ↦ rw (i.others a nonzero (==→ne a (s.objects this).parent e)) inside
  ]

  distinct_after : (a : Ptr) → z.src_data.has a ≡ true → Once (z.objects a).children
  distinct_after a known =
      let held : s.src_data.has a ≡ true = (still a known).1 in
      let nonzero : a ≢ 0 = known-nonzero s.src_data.has s.objects o.forest a held in
      elim (Bool-cases (a == (s.objects this).parent)) [
        | inl e ↦
            let up : a ≡ (s.objects this).parent = ==→eq a (s.objects this).parent e in
            let kids : (z.objects a).children ≡ erase_first this (s.objects a).children =
              subst (λ q. (z.objects q).children ≡ erase_first this (s.objects q).children) (sym up)
                (i.siblings (λ none. nonzero (up ∙ none))) in
            rw kids (Once-erase_first this (s.objects a).children (o.forest.once a held))
        | inr e ↦ rw (i.others a nonzero (==→ne a (s.objects this).parent e)) (o.forest.once a held)
      ]

  kept_up :
      (c : Ptr)
      → z.src_data.has c ≡ true
      → lost c ≡ false
      → (s.objects c).parent ≢ 0
      → (z.src_data.has (z.objects c).parent ≡ true)
        × (elem c (z.objects (z.objects c).parent).children ≡ true)
  kept_up c known e some_parent =
      let (above, inside) = o.forest.up c (still c known).1 some_parent in
      let differs : (s.objects c).parent ≢ this = λ q.
        let found : lost c ≡ true = subst (λ p. elem c (s.objects p).children ≡ true) q inside in
        let no : true ≡ false = sym found ∙ e in cc in
      rw (parent_kept c e) (
        remains (s.objects c).parent differs above,
        child_after (s.objects c).parent c some_parent (still c known).0 inside,
      )

  forest_after : IsForest z.src_data.has z.objects
  forest_after = record {
    depth = o.forest.depth;
    height = o.forest.height;
    below = λ a known. o.forest.below a (still a known).1;
    child = λ a c known inside.
        let (before, differs) = child_before a c known inside in
        let (held, up, lower) = o.forest.child a c (still a known).1 before in
        (remains c differs held, parent_kept c (not_lost c a up (still a known).0) ∙ up, lower);
    up = λ c known some_parent. elim (Bool-cases (lost c)) [
      | inl e ↦ absurd (some_parent (parent_lost c e))
      | inr e ↦ kept_up c known e (λ none. some_parent (parent_kept c e ∙ none))
    ];
    once = distinct_after;
    null = elim (Bool-cases (z.src_data.has 0)) [
      | inl e ↦ absurd (known-nonzero s.src_data.has s.objects o.forest 0 (still 0 e).1 refl)
      | inr e ↦ e
    ];
  }

  pub effective_after :
      (k : Slot) (a : Ptr) → effective k (z.src_data.entry a) ≡ effective k (s.src_data.entry a)
  effective_after k a =
      ap (effective k) (i.entry a) ∙ effective-keeping k (lost a) (s.src_data.entry a)

  agree_after :
      (k : Slot) (a : Ptr) → z.src_data.has a ≡ true → Agrees k z.objects z.src_data.entry a
  agree_after k a known = elim (Bool-cases (lost a)) [
    | inl e ↦
        let own_now : own k (z.src_data.entry a) ≡ effective k (s.src_data.entry a) =
          ap (own k) (i.entry a) ∙ (rw e (own-keeping k (s.src_data.entry a))) in
        effective_after k a
        ∙ same_or (effective k (s.src_data.entry a))
        ∙ sym (ap₂ or_else own_now (ap (inherited k z.src_data.entry) (parent_lost a e)))
    | inr e ↦
        let kept : z.src_data.entry a ≡ s.src_data.entry a = i.entry a ∙ (rw e refl) in
        effective_after k a
        ∙ o.agree k a (still a known).1
        ∙ sym (
            ap₂ or_else (ap (own k) kept) (
              ap (inherited k z.src_data.entry) (parent_kept a e)
              ∙ ap (λ q. if (s.objects a).parent == 0 then 0 else q)
                  (effective_after k (s.objects a).parent)))
  ]

  roots_after :
      (a : Ptr)
      → z.src_data.has a ≡ true
      → (z.objects a).parent ≡ 0
      → own formatting (z.src_data.entry a) ≢ 0
  roots_after a known root = elim (Bool-cases (lost a)) [
    | inl e ↦ λ none. formatter-nonzero s a o (still a known).1 (
        sym (ap (own formatting) (i.entry a) ∙ (rw e (own-keeping formatting (s.src_data.entry a))))
        ∙ none)
    | inr e ↦ λ none.
        o.roots a (still a known).1 (sym (parent_kept a e) ∙ root)
          (sym (ap (own formatting) (i.entry a) ∙ (rw e refl)) ∙ none)
  ]

  pub after-IsSound : IsSound z
  after-IsSound = record { forest = forest_after; agree = agree_after; roots = roots_after }
