-- ===== src/Log/Life/Init.antt =====
-- `Module::init` of src/panda/log/log.cc on a module of which the parent, if any, is in the index.
use panda_lib.Base.{
  ℕ, suc, ◌≡◌, ◌≢◌, refl, sym, ap, ◌∙◌, true, false, Bool-cases, ◌==◌, ==→eq, ==→ne, ==_refl, ne→==,
  inl, inr, if◌then◌else◌,
}
use panda_lib.Refcnt.{Ptr, write}
use panda_lib.Log.{
  Instance, returned, and_then, Slot, logging, formatting, effective, own, put, next_rev,
}
use panda_lib.Log.Coherent.{inherited, or_else}
use panda_lib.Log.Life.{
  contains, nulls, create_entry, push_child, take_name, inherit, emplace, init,
}
use panda_lib.Log.Life.Adopt.{IsNew, IsJoined}

-- The index has the modules that have an entry.
pub record IsRegistered (s : Instance) : Type 0 where
  pub agrees : (a : Ptr) → contains a s.modules ≡ s.src_data.has a

module _ (this fresh : Ptr) (s : Instance) (n : IsNew this s) (g : IsRegistered s) where
  abbrev begun : Instance
  begun = create_entry this (next_rev s)

  abbrev as_root : Instance
  as_root = emplace this (
      put this
        (record (begun.src_data.entry this) { effective_formatter = fresh; formatter = fresh })
        begun)

  unlisted : contains this s.modules ≡ false
  unlisted = g.agrees this ∙ n.unknown

  init-root :
      (fuel : ℕ) → (s.objects this).parent ≡ 0 → init (suc fuel) fresh this s ≡ returned as_root
  unfolding init
  init-root fuel root = rw (unlisted, root) refl

  root_here :
      (k : Slot)
      → fresh ≢ 0
      → effective k (as_root.src_data.entry this) ≡ or_else (own k (as_root.src_data.entry this)) 0
  unfolding effective own
  root_here logging new = rw (==_refl this, n.unknown) refl
  root_here formatting new = rw (==_refl this, ne→== fresh 0 new) refl

  root-IsJoined : fresh ≢ 0 → (s.objects this).parent ≡ 0 → IsJoined this s as_root
  unfolding own
  root-IsJoined new root = record {
    has = λ a. refl;
    entry = λ a e. rw e refl;
    here = λ k.
        root_here k new
        ∙ ap (λ p. or_else (own k (as_root.src_data.entry this)) (inherited k s.src_data.entry p))
            (sym root);
    rooted = λ up. rw (==_refl this) new;
    parent = λ a. refl;
    siblings = λ some_parent. absurd (some_parent root);
    others = λ a nonzero differs. refl;
  }

  root-IsRegistered : IsRegistered as_root
  unfolding contains
  root-IsRegistered = record { agrees = λ a. ap (λ b. if this == a then true else b) (g.agrees a) }

  -- The state after the `init` of the parent, and the one at the end.
  abbrev above : Instance
  above = create_entry (s.objects this).parent (next_rev begun)

  abbrev as_child : Instance
  as_child = emplace this (inherit this (take_name this (push_child this above)))

  module _ (some_parent : (s.objects this).parent ≢ 0) where
    parent_differs : this ≢ (s.objects this).parent
    parent_differs e =
        let no : true ≡ false = sym (n.above some_parent) ∙ ap s.src_data.has (sym e) ∙ n.unknown in
        cc

    init-child : (fuel : ℕ) → init (suc (suc fuel)) fresh this s ≡ returned as_child
    unfolding init and_then
    init-child fuel =
        let listed : contains (s.objects this).parent s.modules ≡ true =
          g.agrees (s.objects this).parent ∙ n.above some_parent in
        rw
          (
            unlisted,
            ne→== (s.objects this).parent 0 some_parent,
            listed,
            ==_refl (s.objects this).parent,
          )
          refl

    abbrev pushed : Instance
    pushed = push_child this above

    abbrev named : Instance
    named = take_name this pushed

    apart : ((s.objects this).parent == this) ≡ false
    apart = ne→== (s.objects this).parent this (λ e. parent_differs (sym e))

    pushed_parent : (a : Ptr) → (pushed.objects a).parent ≡ (s.objects a).parent
    pushed_parent a = elim (Bool-cases ((s.objects this).parent == a)) [
      | inl e ↦ rw e (ap (λ q. (s.objects q).parent) (==→eq (s.objects this).parent a e))
      | inr e ↦ rw e refl
    ]

    named_parent : (a : Ptr) → (named.objects a).parent ≡ (s.objects a).parent
    named_parent a = elim (Bool-cases (this == a)) [
      | inl e ↦ rw e (pushed_parent this ∙ ap (λ q. (s.objects q).parent) (==→eq this a e))
      | inr e ↦ rw e (pushed_parent a)
    ]

    named_children : (a : Ptr) → (named.objects a).children ≡ (pushed.objects a).children
    named_children a = elim (Bool-cases (this == a)) [
      | inl e ↦ rw e (ap (λ q. (pushed.objects q).children) (==→eq this a e))
      | inr e ↦ rw e refl
    ]

    above_this : above.src_data.entry this ≡ nulls
    above_this = rw (apart, ==_refl this, n.unknown) refl

    begun_entry : (a : Ptr) → (this == a) ≡ false → begun.src_data.entry a ≡ s.src_data.entry a
    begun_entry a e = rw e refl

    begun_has : (a : Ptr) → (this == a) ≡ false → begun.src_data.has a ≡ s.src_data.has a
    begun_has a e = rw e refl

    above_entry : (a : Ptr) → (this == a) ≡ false → above.src_data.entry a ≡ s.src_data.entry a
    above_entry a e = elim (Bool-cases ((s.objects this).parent == a)) [
      | inl q ↦
          let known : begun.src_data.has (s.objects this).parent ≡ true =
            begun_has (s.objects this).parent (ne→== this (s.objects this).parent parent_differs)
            ∙ n.above some_parent in
          written q
          ∙ ap (λ b. if b then begun.src_data.entry (s.objects this).parent else nulls) known
          ∙ begun_entry (s.objects this).parent (ne→== this (s.objects this).parent parent_differs)
          ∙ ap s.src_data.entry (==→eq (s.objects this).parent a q)
      | inr q ↦ kept q ∙ begun_entry a e
    ]
      where
        written :
            ((s.objects this).parent == a) ≡ true
            → above.src_data.entry a ≡ (
                if begun.src_data.has (s.objects this).parent
                then begun.src_data.entry (s.objects this).parent
                else nulls)
        written q = rw q refl

        kept :
            ((s.objects this).parent == a) ≡ false → above.src_data.entry a ≡ begun.src_data.entry a
        kept q = rw q refl

    child_entry :
        (a : Ptr) → (this == a) ≡ false → as_child.src_data.entry a ≡ above.src_data.entry a
    child_entry a e = rw e refl

    child_effective :
        (k : Slot)
        → effective k (as_child.src_data.entry this)
          ≡ effective k (above.src_data.entry (named.objects this).parent)
    unfolding effective
    child_effective logging = rw (==_refl this) refl
    child_effective formatting = rw (==_refl this) refl

    child_own :
        (k : Slot) → own k (as_child.src_data.entry this) ≡ own k (above.src_data.entry this)
    unfolding own
    child_own logging = rw (==_refl this) refl
    child_own formatting = rw (==_refl this) refl

    own_nulls : (k : Slot) → own k nulls ≡ 0
    unfolding own
    own_nulls logging = refl
    own_nulls formatting = refl

    child_here :
        (k : Slot)
        → effective k (as_child.src_data.entry this)
          ≡ or_else
              (own k (as_child.src_data.entry this))
              (inherited k s.src_data.entry (s.objects this).parent)
    child_here k =
        let taken : effective k (as_child.src_data.entry this)
            ≡ effective k (s.src_data.entry (s.objects this).parent) =
          child_effective k
          ∙ ap (λ q. effective k (above.src_data.entry q)) (named_parent this)
          ∙ ap (effective k) (
              above_entry (s.objects this).parent
                (ne→== this (s.objects this).parent parent_differs)) in
        let empty : own k (as_child.src_data.entry this) ≡ 0 =
          child_own k ∙ ap (own k) above_this ∙ own_nulls k in
        taken ∙ (rw (empty, ne→== (s.objects this).parent 0 some_parent) refl)

    child_has : (a : Ptr) → as_child.src_data.has a ≡ write s.src_data.has this true a
    child_has a = elim (Bool-cases ((s.objects this).parent == a)) [
      | inl e ↦ rw e (
          sym (
            begun_has (s.objects this).parent (ne→== this (s.objects this).parent parent_differs)
            ∙ n.above some_parent)
          ∙ ap (write s.src_data.has this true) (==→eq (s.objects this).parent a e))
      | inr e ↦ rw e refl
    ]

    child-IsJoined : IsJoined this s as_child
    child-IsJoined = record {
      has = child_has;
      entry = λ a e. child_entry a e ∙ above_entry a e;
      here = child_here;
      rooted = λ root. absurd (some_parent root);
      parent = named_parent;
      siblings = λ given.
          named_children (s.objects this).parent ∙ (rw (==_refl (s.objects this).parent) refl);
      others = λ a nonzero differs.
          named_children a ∙ (rw (ne→== (s.objects this).parent a (λ e. differs (sym e))) refl);
    }

    child-IsRegistered : IsRegistered as_child
    unfolding contains
    child-IsRegistered = record {
      agrees = λ a. ap (λ b. if this == a then true else b) (g.agrees a) ∙ sym (child_has a);
    }

-- `init` returns, registers the module, and leaves the list of those that wait.
pub init-IsJoined :
    (fuel fresh this : ℕ) (s : Instance)
    → fresh ≢ 0
    → IsNew this s
    → IsRegistered s
    → (z : Instance) × (init (suc (suc fuel)) fresh this s ≡ returned z)
      × IsJoined this s z
      × IsRegistered z
      × (z.wait_list ≡ s.wait_list)
init-IsJoined fuel fresh this s new n g = elim (Bool-cases ((s.objects this).parent == 0)) [
  | inl e ↦
      let root : (s.objects this).parent ≡ 0 = ==→eq (s.objects this).parent 0 e in
      (
        as_root this fresh s n g,
        init-root this fresh s n g (suc fuel) root,
        root-IsJoined this fresh s n g new root,
        root-IsRegistered this fresh s n g,
        refl,
      )
  | inr e ↦
      let some_parent : (s.objects this).parent ≢ 0 = ==→ne (s.objects this).parent 0 e in
      (
        as_child this fresh s n g,
        init-child this fresh s n g some_parent fuel,
        child-IsJoined this fresh s n g some_parent,
        child-IsRegistered this fresh s n g some_parent,
        refl,
      )
]
