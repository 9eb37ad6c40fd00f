-- ===== src/Log/Walk.antt =====
-- The walks over the modules of src/panda/log/log.cc: the tree that the modules form, the modules that
-- a walk reaches, and what a walk leaves.
use panda_lib.Base.{
  ℕ, zero, suc, ◌+◌, ◌≤◌, ◌<◌, ◌≡◌, ◌≢◌, refl, sym, ap, ◌∙◌, subst, Bool, true, false, Bool-cases,
  List, [], ◌∷◌, ◌++◌, Once, elem, elem-head, elem_tail, elem-cases, flat, elem-flat, elem_of_part,
  inl, inr, ◌⊎◌, if◌then◌else◌, arith,
}
use panda_lib.Refcnt.{Ptr}
use panda_lib.Log.{Module, Instance, Outcome, returned, and_then, for_each}

-- The children of a module that has an entry have one and it as their parent, and each is below it; a
-- module with an entry is among the children of its parent; no child is listed twice; there is a bound on the depth.
pub record IsForest (has : Ptr → Bool) (objects : Ptr → Module) : Type 0 where
  pub depth : Ptr → ℕ
  pub height : ℕ
  pub below : (a : Ptr) → has a ≡ true → depth a < height
  pub child :
      (a c : Ptr)
      → has a ≡ true
      → elem c (objects a).children ≡ true
      → (has c ≡ true) × ((objects c).parent ≡ a) × (depth a < depth c)
  pub up :
      (c : Ptr)
      → has c ≡ true
      → (objects c).parent ≢ 0
      → (has (objects c).parent ≡ true) × (elem c (objects (objects c).parent).children ≡ true)
  pub once : (a : Ptr) → has a ≡ true → Once (objects a).children
  pub null : has 0 ≡ false

-- A change made at each module of a list in turn.
abbrev pub each : (Ptr → Instance → Instance) → List Ptr → Instance → Instance
each op [] s = s
each op (m ∷ ms) s = each op ms (op m s)

pub each-append :
    (op : Ptr → Instance → Instance) (ms ns : List Ptr) (s : Instance)
    → each op (ms ++ ns) s ≡ each op ns (each op ms s)
each-append op [] ns s = refl
each-append op (m ∷ ms) ns s = each-append op ms ns (op m s)

pub each-keeps :
    (op : Ptr → Instance → Instance) (P : Instance → Type 0)
    → ((m : Ptr) (s : Instance) → P s → P (op m s))
    → (ms : List Ptr) (s : Instance) → P s
    → P (each op ms s)
each-keeps op P keeps [] s p = p
each-keeps op P keeps (m ∷ ms) s p = each-keeps op P keeps ms (op m s) (keeps m s p)

abbrev pub children_of : (Ptr → Module) → Ptr → List Ptr
children_of objects a = (objects a).children

-- The modules that a walk reaches, which enters some modules only.
abbrev pub reached : (Ptr → Bool) → (Ptr → List Ptr) → ℕ → Ptr → List Ptr
reached enter kids zero a = []
reached enter kids (suc fuel) a =
    let deeper = flat (reached enter kids fuel) (kids a) in if enter a then a ∷ deeper else []

module _ (op : Ptr → Instance → Instance) (P : Instance → Type 0)
    (keeps : (m : Ptr) (s : Instance) → P s → P (op m s)) where
  pub for_each-each :
      (f : Ptr → Instance → Outcome) (g : Ptr → List Ptr) (ms : List Ptr) (s : Instance)
      → P s
      → ((m : Ptr) (t : Instance) → elem m ms ≡ true → P t → f m t ≡ returned (each op (g m) t))
      → for_each f ms s ≡ returned (each op (flat g ms) s)
  unfolding for_each and_then
  for_each-each f g [] s p h = refl
  for_each-each f g (m ∷ ms) s p h =
      ap (and_then (for_each f ms)) (h m s (elem-head m ms) p)
      ∙ for_each-each f g ms (each op (g m) s) (each-keeps op P keeps (g m) s p)
          (λ n t inside q. h n t (elem_tail n m ms inside) q)
      ∙ ap returned (sym (each-append op (g m) (flat g ms) s))

  module _ (has : Ptr → Bool) (objects : Ptr → Module) (w : IsForest has objects)
      (enter : Ptr → Bool) (f : ℕ → Ptr → Instance → Outcome)
      (step : (fuel : ℕ) (m : Ptr) (s : Instance)
        → P s
        → has m ≡ true
        → f (suc fuel) m s
          ≡ (if enter m then for_each (f fuel) (objects m).children (op m s) else returned s)) where
    -- A walk that changes what it enters, and then goes on to the children.
    pub walked :
        (fuel : ℕ) (m : Ptr) (s : Instance)
        → P s
        → has m ≡ true
        → w.height ≤ w.depth m + fuel
        → f fuel m s ≡ returned (each op (reached enter (children_of objects) fuel m) s)
    walked zero m s p here enough = absurd (omega (arith, w.below m here))
    walked (suc fuel) m s p here enough = step fuel m s p here ∙ elim (Bool-cases (enter m)) [
      | inl e ↦ rw e (
          for_each-each (f fuel) (reached enter (children_of objects) fuel) (objects m).children
            (op m s) (keeps m s p)
            (λ c t inside q.
              let (known, back, lower) = w.child m c here inside in
              walked fuel c t q known (omega arith)))
      | inr e ↦ rw e refl
    ]

module _ (has : Ptr → Bool) (objects : Ptr → Module) (w : IsForest has objects) where
  pub known-nonzero : (a : Ptr) → has a ≡ true → a ≢ 0
  known-nonzero a here e = let no : true ≡ false = sym here ∙ ap has e ∙ w.null in cc

  pub parent_lower :
      (a : Ptr)
      → has a ≡ true
      → (objects a).parent ≢ 0
      → (has (objects a).parent ≡ true) × (w.depth (objects a).parent < w.depth a)
  parent_lower a here some_parent =
      let (known, inside) = w.up a here some_parent in
      (known, (w.child (objects a).parent a known inside).2)

module _ (has : Ptr → Bool) (objects : Ptr → Module) (w : IsForest has objects)
    (enter : Ptr → Bool) where
  abbrev pub Above : List Ptr → Ptr → Ptr → Type 0
  Above ms a b =
      (enter b ≡ true)
      × (has b ≡ true)
      × (w.depth a ≤ w.depth b)
      × ((b ≡ a) ⊎ (elem (objects b).parent ms ≡ true))

  pub reached_self :
      (fuel : ℕ) (c : Ptr)
      → has c ≡ true
      → w.height ≤ w.depth c + fuel
      → enter c ≡ true
      → elem c (reached enter (children_of objects) fuel c) ≡ true
  reached_self zero c here enough e = absurd (omega (arith, w.below c here))
  reached_self (suc fuel) c here enough e =
      rw e (elem-head c (flat (reached enter (children_of objects) fuel) (children_of objects c)))

  -- What is reached is entered and known, and it is the module itself or its parent is reached.
  pub reached_up :
      (fuel : ℕ) (a b : Ptr)
      → has a ≡ true
      → elem b (reached enter (children_of objects) fuel a) ≡ true
      → Above (reached enter (children_of objects) fuel a) a b
  reached_up zero a b here found = let no : false ≡ true = found in cc
  reached_up (suc fuel) a b here found = elim (Bool-cases (enter a)) [
    | inl e ↦
        rw e
          (elim (elem-cases b a
            (flat (reached enter (children_of objects) fuel) (children_of objects a))
            (rw e at found)) [
              | inl same ↦
                  subst
                    (λ z.
                      Above
                        (a
                          ∷ flat (reached enter (children_of objects) fuel) (children_of objects a))
                        a z)
                    (sym same) (e, here, (omega arith), inl refl)
              | inr deep ↦
                  let (c, inside, there) =
                    elem-flat (reached enter (children_of objects) fuel) b (children_of objects a)
                      deep in
                  let (known, back, lower) = w.child a c here inside in
                  let (entered, held, under, above) = reached_up fuel c b known there in
                  (
                    entered,
                    held,
                    (omega arith),
                    inr (elim above [
                      | inl top ↦
                          subst
                            (λ z.
                              elem z (
                                a
                                ∷ flat (reached enter (children_of objects) fuel)
                                    (children_of objects a))
                              ≡ true)
                            (sym (ap (λ z. (objects z).parent) top ∙ back))
                            (elem-head a (
                              flat (reached enter (children_of objects) fuel)
                                (children_of objects a)))
                      | inr more ↦
                          elem_tail (objects b).parent a
                            (flat (reached enter (children_of objects) fuel)
                              (children_of objects a))
                            (elem_of_part (reached enter (children_of objects) fuel)
                              (objects b).parent c (children_of objects a) inside more)
                    ]),
                  )
            ])
    | inr e ↦ let no : false ≡ true = rw e at found in cc
  ]

  -- A child that is to be entered of what is reached is reached.
  pub reached_down :
      (fuel : ℕ) (a b c : Ptr)
      → has a ≡ true
      → w.height ≤ w.depth a + fuel
      → elem b (reached enter (children_of objects) fuel a) ≡ true
      → elem c (children_of objects b) ≡ true
      → enter c ≡ true
      → elem c (reached enter (children_of objects) fuel a) ≡ true
  reached_down zero a b c here enough found inside e = let no : false ≡ true = found in cc
  reached_down (suc fuel) a b c here enough found inside e = elim (Bool-cases (enter a)) [
    | inl q ↦ rw q (
        elem_tail c a (flat (reached enter (children_of objects) fuel) (children_of objects a))
          (elim (elem-cases b a
            (flat (reached enter (children_of objects) fuel) (children_of objects a))
            (rw q at found)) [
              | inl same ↦
                  let near : elem c (children_of objects a) ≡ true =
                    subst (λ z. elem c (children_of objects z) ≡ true) same inside in
                  let (known, back, lower) = w.child a c here near in
                  elem_of_part (reached enter (children_of objects) fuel) c c
                    (children_of objects a) near (reached_self fuel c known (omega arith) e)
              | inr deep ↦
                  let (m, among, there) =
                    elem-flat (reached enter (children_of objects) fuel) b (children_of objects a)
                      deep in
                  let (known, back, lower) = w.child a m here among in
                  elem_of_part (reached enter (children_of objects) fuel) c m
                    (children_of objects a) among
                    (reached_down fuel m b c known (omega arith) there inside e)
            ]))
    | inr q ↦ let no : false ≡ true = rw q at found in cc
  ]
