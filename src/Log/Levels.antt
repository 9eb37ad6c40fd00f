-- ===== src/Log/Levels.antt =====
-- `Module::set_level` of src/panda/log/log.cc: which modules it changes, and what it changes of them.
use panda_lib.Base.{
  ℕ, zero, suc, ◌+◌, ◌≤◌, ◌<◌, ◌≡◌, ◌≢◌, refl, sym, ap, ◌∙◌, subst, Bool, true, false, Bool-cases,
  List, [], ◌∷◌, ◌==◌, ==→eq, elem, inl, inr, ◌⊎◌, if◌then◌else◌, arith,
}
use panda_lib.Refcnt.{Ptr}
use panda_lib.Log.{Level, Module, Instance, returned, for_each, put_module, set_level}
use panda_lib.Log.Walk.{
  IsForest, known-nonzero, children_of, each, reached, walked, reached_up, reached_down,
  reached_self,
}

-- The module, and each of which the parent is in its tree.
pub data InTree (objects : Ptr → Module) (m : Ptr) : Ptr → Type 0 where
  top : InTree objects m m
  under :
      (a : Ptr) → (objects a).parent ≢ 0 → InTree objects m (objects a).parent → InTree objects m a

everywhere : Ptr → Bool
everywhere a = true

level_at : Level → Ptr → Instance → Instance
level_at level m s = put_module m (record (s.objects m) { level = level }) s

module _ (has : Ptr → Bool) (objects : Ptr → Module) (w : IsForest has objects) where
  abbrev nodes : ℕ → Ptr → List Ptr
  nodes = reached (λ a. true) (children_of objects)

  in_tree :
      (n fuel : ℕ) (m a : Ptr)
      → has m ≡ true
      → w.depth a < n
      → elem a (nodes fuel m) ≡ true
      → InTree objects m a
  in_tree zero fuel m a here small found = absurd (omega arith)
  in_tree (suc n) fuel m a here small found =
      let (entered, held, under_m, above) =
        reached_up has objects w (λ z. true) fuel m a here found in
      elim above [
        | inl same ↦ subst (λ z. InTree objects m z) (sym same) top
        | inr more ↦
            let known : has (objects a).parent ≡ true =
              (reached_up has objects w (λ z. true) fuel m (objects a).parent here more).1 in
            let some_parent : (objects a).parent ≢ 0 =
              known-nonzero has objects w (objects a).parent known in
            let inside : elem a (children_of objects (objects a).parent) ≡ true =
              (w.up a held some_parent).1 in
            let lower : w.depth (objects a).parent < w.depth a =
              (w.child (objects a).parent a known inside).2 in
            under a some_parent (in_tree n fuel m (objects a).parent here (omega arith) more)
      ]

  of_tree :
      (fuel : ℕ) (m a : Ptr)
      → has m ≡ true
      → w.height ≤ w.depth m + fuel
      → has a ≡ true
      → InTree objects m a
      → elem a (nodes fuel m) ≡ true
  of_tree fuel m _ here enough held top =
      reached_self has objects w (λ z. true) fuel m here enough refl
  of_tree fuel m _ here enough held (under a some_parent t) =
      let (known, inside) = w.up a held some_parent in
      reached_down has objects w (λ z. true) fuel m (objects a).parent a here enough
        (of_tree fuel m (objects a).parent here enough known t) inside refl

abbrev pub relevel : Bool → Level → Module → Module
relevel b level o = if b then record o { level = level } else o

relevel_twice :
    (b : Bool) (level : Level) (o : Module)
    → relevel b level (record o { level = level }) ≡ record o { level = level }
relevel_twice true level o = refl
relevel_twice false level o = refl

-- What a module is after the level was set at the modules of a list.
levelled :
    (level : Level) (ms : List Ptr) (s : Instance) (a : Ptr)
    → (each (level_at level) ms s).objects a ≡ relevel (elem a ms) level (s.objects a)
unfolding level_at
levelled level [] s a = refl
levelled level (m ∷ ms) s a =
    levelled level ms (level_at level m s) a ∙ elim (Bool-cases (m == a)) [
      | inl e ↦ rw e (
          ap (λ z. relevel (elem a ms) level (record (s.objects z) { level = level })) (==→eq m a e)
          ∙ relevel_twice (elem a ms) level (s.objects a))
      | inr e ↦ rw e refl
    ]

-- The objects but for their levels.
record HasTree (objects : Ptr → Module) (s : Instance) : Type 0 where
  same : (a : Ptr) → (s.objects a).children ≡ (objects a).children

level_at-HasTree :
    (objects : Ptr → Module) (level : Level) (m : Ptr) (s : Instance)
    → HasTree objects s
    → HasTree objects (level_at level m s)
unfolding level_at
level_at-HasTree objects level m s t = record {
  same = λ a. elim (Bool-cases (m == a)) [
    | inl e ↦ rw e (ap (λ z. (s.objects z).children) (==→eq m a e) ∙ t.same a)
    | inr e ↦ rw e (t.same a)
  ];
}

level_rest :
    (level : Level) (ms : List Ptr) (s : Instance)
    → each (level_at level) ms s ≡ record s { objects = (each (level_at level) ms s).objects }
unfolding level_at
level_rest level [] s = refl
level_rest level (m ∷ ms) s = level_rest level ms (level_at level m s)

module _ (s : Instance) (w : IsForest s.src_data.has s.objects) (fuel : ℕ) (level : Level)
    (this : Ptr) (here : s.src_data.has this ≡ true) (enough : w.height ≤ w.depth this + fuel) where
  walked_levels :
      set_level fuel level this s
      ≡ returned (each (level_at level) (nodes s.src_data.has s.objects w fuel this) s)
  unfolding set_level level_at
  walked_levels =
      walked (level_at level) (HasTree s.objects) (level_at-HasTree s.objects level) s.src_data.has
        s.objects w (λ a. true) (λ n m t. set_level n level m t)
        (λ n m t same known.
          ap (λ cs. for_each (set_level n level) cs (level_at level m t)) (same.same m))
        fuel this s (record { same = λ a. refl }) here enough

  changed :
      (a : Ptr)
      → s.src_data.has a ≡ true
      → (InTree s.objects this a
          × (relevel (elem a (nodes s.src_data.has s.objects w fuel this)) level (s.objects a)
              ≡ record (s.objects a) { level = level }))
        ⊎ ((InTree s.objects this a → ⊥)
            × (relevel (elem a (nodes s.src_data.has s.objects w fuel this)) level (s.objects a)
                ≡ s.objects a))
  changed a known = elim (Bool-cases (elem a (nodes s.src_data.has s.objects w fuel this))) [
    | inl e ↦ inl (
      in_tree s.src_data.has s.objects w (suc (w.depth a)) fuel this a here (omega arith) e,
      rw e refl,
    )
    | inr e ↦ inr (
      (λ t.
          let found : elem a (nodes s.src_data.has s.objects w fuel this) ≡ true =
            of_tree s.src_data.has s.objects w fuel this a here enough known t in
          let no : true ≡ false = sym found ∙ e in cc),
      rw e refl,
    )
  ]

-- On modules that form a forest, with fuel for its depth, `set_level` of a module that has an
-- entry returns, gives the level to the modules of its tree, and changes no other module, no
-- other field, and nothing of the rest.
pub set_level-InTree :
    (s : Instance) (w : IsForest s.src_data.has s.objects) (fuel : ℕ) (level : Level) (this : Ptr)
    → s.src_data.has this ≡ true
    → w.height ≤ w.depth this + fuel
    → (after : Ptr → Module) × (set_level fuel level this s
        ≡ returned (record s { objects = after }))
      × ((a : Ptr)
          → s.src_data.has a ≡ true
          → (InTree s.objects this a × (after a ≡ record (s.objects a) { level = level }))
            ⊎ ((InTree s.objects this a → ⊥) × (after a ≡ s.objects a)))
set_level-InTree s w fuel level this here enough =
    let ms = nodes s.src_data.has s.objects w fuel this in
    (
      (each (level_at level) ms s).objects,
      walked_levels s w fuel level this here enough ∙ ap returned (level_rest level ms s),
      λ a known.
          subst
            (λ (o : Module).
              (InTree s.objects this a × (o ≡ record (s.objects a) { level = level }))
              ⊎ ((InTree s.objects this a → ⊥) × (o ≡ s.objects a)))
            (sym (levelled level ms s a)) (changed s w fuel level this here enough a known),
    )
