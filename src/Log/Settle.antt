-- ===== src/Log/Settle.antt =====
-- `_set_effective_logger` and `_set_effective_formatter` of src/panda/log/log.cc: what they leave, and
-- that it is where they are to stop.
use panda_lib.Base.{
  ℕ, suc, ◌+◌, ◌≤◌, ◌<◌, ◌≡◌, ◌≢◌, refl, sym, ap, ◌∙◌, subst, Bool, true, false, Bool-cases, List,
  [], ◌∷◌, ◌==◌, ==→eq, elem, elem-head, elem_tail, elem-cases, flat, elem-flat, elem_of_part, inl,
  inr, ◌⊎◌, if◌then◌else◌, arith,
}
use panda_lib.Refcnt.{Ptr}
use panda_lib.Log.{
  ModuleData, Instance, returned, for_each, Slot, logging, formatting, effective, own,
  with_effective, put, set_effective,
}
use panda_lib.Log.Walk.{
  IsForest, children_of, each, for_each-each, reached, walked, reached_up, reached_down,
  reached_self,
}

abbrev pub mark : Slot → Ptr → Ptr → Instance → Instance
mark k l m s = put m (with_effective k l (s.src_data.entry m)) s

abbrev pub remark : Bool → Slot → Ptr → ModuleData → ModuleData
remark b k l d = if b then with_effective k l d else d

remark_twice :
    (b : Bool) (k : Slot) (l : Ptr) (d : ModuleData)
    → remark b k l (with_effective k l d) ≡ with_effective k l d
unfolding with_effective
remark_twice true logging l d = refl
remark_twice true formatting l d = refl
remark_twice false k l d = refl

pub effective-remark :
    (b : Bool) (k : Slot) (l : Ptr) (d : ModuleData)
    → effective k (remark b k l d) ≡ (if b then l else effective k d)
unfolding with_effective effective
effective-remark true logging l d = refl
effective-remark true formatting l d = refl
effective-remark false k l d = refl

pub own-remark : (b : Bool) (k : Slot) (l : Ptr) (d : ModuleData) → own k (remark b k l d) ≡ own k d
unfolding with_effective own
own-remark true logging l d = refl
own-remark true formatting l d = refl
own-remark false k l d = refl

-- The entry of a module after the value was set at the modules of a list.
pub marked :
    (k : Slot) (l : Ptr) (ms : List Ptr) (s : Instance) (a : Ptr)
    → (each (mark k l) ms s).src_data.entry a ≡ remark (elem a ms) k l (s.src_data.entry a)
marked k l [] s a = refl
marked k l (m ∷ ms) s a = marked k l ms (mark k l m s) a ∙ elim (Bool-cases (m == a)) [
  | inl e ↦ rw e (
      ap (λ z. remark (elem a ms) k l (with_effective k l (s.src_data.entry z))) (==→eq m a e)
      ∙ remark_twice (elem a ms) k l (s.src_data.entry a))
  | inr e ↦ rw e refl
]

-- A walk leaves all but entries, and of these the own values.
pub record IsMarked (k : Slot) (s t : Instance) : Type 0 where
  pub objects : t.objects ≡ s.objects
  pub has : t.src_data.has ≡ s.src_data.has
  pub owns : (a : Ptr) → own k (t.src_data.entry a) ≡ own k (s.src_data.entry a)

mark-IsMarked :
    (k : Slot) (l : Ptr) (s : Instance) (m : Ptr) (t : Instance)
    → IsMarked k s t
    → IsMarked k s (mark k l m t)
mark-IsMarked k l s m t i = record {
  objects = i.objects;
  has = i.has;
  owns = λ a. elim (Bool-cases (m == a)) [
    | inl e ↦ rw e (
        own-remark true k l (t.src_data.entry m)
        ∙ ap (λ z. own k (t.src_data.entry z)) (==→eq m a e)
        ∙ i.owns a)
    | inr e ↦ rw e (i.owns a)
  ];
}

module _ (k : Slot) (l : Ptr) (s : Instance) (w : IsForest s.src_data.has s.objects) where
  -- A walk enters the modules that have no value of their own.
  abbrev pub empty : Ptr → Bool
  empty a = own k (s.src_data.entry a) == 0

  abbrev pub targets : ℕ → Ptr → List Ptr
  targets fuel this =
      this ∷ flat (reached empty (children_of s.objects) fuel) (s.objects this).children

  step :
      (fuel : ℕ) (m : Ptr) (t : Instance)
      → IsMarked k s t
      → s.src_data.has m ≡ true
      → set_effective k (suc fuel) l m t ≡ (
          if empty m
          then for_each (set_effective k fuel l) (s.objects m).children (mark k l m t)
          else returned t)
  unfolding set_effective
  step fuel m t i here =
      let known : t.src_data.has m ≡ true = ap (λ h. h m) i.has ∙ here in
      rw (known, i.owns m)
        (ap
          (λ cs.
            if empty m then for_each (set_effective k fuel l) cs (mark k l m t) else returned t)
          (ap (λ o. (o m).children) i.objects))

  pub set_children :
      (fuel : ℕ) (this : Ptr)
      → s.src_data.has this ≡ true
      → w.height ≤ w.depth this + suc fuel
      → for_each (set_effective k fuel l) (s.objects this).children (mark k l this s)
        ≡ returned (each (mark k l) (targets fuel this) s)
  set_children fuel this here enough =
      for_each-each (mark k l) (IsMarked k s) (mark-IsMarked k l s) (set_effective k fuel l)
        (reached empty (children_of s.objects) fuel) (s.objects this).children (mark k l this s)
        (mark-IsMarked k l s this s (record { objects = refl; has = refl; owns = λ a. refl }))
        (λ c t inside i.
          let (known, back, lower) = w.child this c here inside in
          walked (mark k l) (IsMarked k s) (mark-IsMarked k l s) s.src_data.has s.objects w empty
            (λ n m u. set_effective k n l m u) step fuel c t i known (omega arith))

  module _ (fuel : ℕ) (this : Ptr) (here : s.src_data.has this ≡ true)
      (enough : w.height ≤ w.depth this + suc fuel) where
    -- A target is the module itself, or one without an own value of which the parent is a target.
    pub targets_up :
        (a : Ptr)
        → elem a (targets fuel this) ≡ true
        → (s.src_data.has a ≡ true)
          × (w.depth this ≤ w.depth a)
          × ((a ≡ this)
              ⊎ ((empty a ≡ true) × (elem (s.objects a).parent (targets fuel this) ≡ true)))
    targets_up a found =
        elim (elem-cases a this
          (flat (reached empty (children_of s.objects) fuel) (s.objects this).children) found) [
            | inl same ↦ (
              subst (λ z. s.src_data.has z ≡ true) (sym same) here,
              subst (λ z. w.depth this ≤ w.depth z) (sym same) (omega arith),
              inl same,
            )
            | inr deep ↦
                let (c, inside, there) =
                  elem-flat (reached empty (children_of s.objects) fuel) a (s.objects this).children
                    deep in
                let (known, back, lower) = w.child this c here inside in
                let (e, held, under, above) =
                  reached_up s.src_data.has s.objects w empty fuel c a known there in
                (
                  held,
                  omega arith,
                  inr (
                    e,
                    elim above [
                      | inl top ↦
                          subst (λ z. elem z (targets fuel this) ≡ true)
                            (sym (ap (λ z. (s.objects z).parent) top ∙ back))
                            (elem-head this (
                              flat (reached empty (children_of s.objects) fuel)
                                (s.objects this).children))
                      | inr more ↦
                          elem_tail (s.objects a).parent this
                            (flat (reached empty (children_of s.objects) fuel)
                              (s.objects this).children)
                            (elem_of_part (reached empty (children_of s.objects) fuel)
                              (s.objects a).parent c (s.objects this).children inside more)
                    ],
                  ),
                )
          ]

    pub targets_down :
        (a : Ptr)
        → s.src_data.has a ≡ true
        → (s.objects a).parent ≢ 0
        → elem (s.objects a).parent (targets fuel this) ≡ true
        → empty a ≡ true
        → elem a (targets fuel this) ≡ true
    targets_down a known some_parent found e =
        elem_tail a this
          (flat (reached empty (children_of s.objects) fuel) (s.objects this).children)
          (elim (elem-cases (s.objects a).parent this
            (flat (reached empty (children_of s.objects) fuel) (s.objects this).children) found) [
              | inl same ↦
                  let near : elem a (s.objects this).children ≡ true =
                    subst (λ z. elem a (s.objects z).children ≡ true) same
                      (w.up a known some_parent).1 in
                  let lower : w.depth this < w.depth a = (w.child this a here near).2 in
                  elem_of_part (reached empty (children_of s.objects) fuel) a a
                    (s.objects this).children near
                    (reached_self s.src_data.has s.objects w empty fuel a known (omega arith) e)
              | inr deep ↦
                  let (c, inside, there) =
                    elem-flat (reached empty (children_of s.objects) fuel) (s.objects a).parent
                      (s.objects this).children deep in
                  let (held, back, lower) = w.child this c here inside in
                  elem_of_part (reached empty (children_of s.objects) fuel) a c
                    (s.objects this).children inside
                    (reached_down s.src_data.has s.objects w empty fuel c (s.objects a).parent a
                      held (omega arith) there (w.up a known some_parent).1 e)
            ])
