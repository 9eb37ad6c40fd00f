-- ===== src/Log/Life/Destroy.antt =====
-- `Module::~Module` of src/panda/log/log.cc: that it leaves the other modules sound.
use panda_lib.Base.{
  ◌<◌, ◌≡◌, ◌≢◌, refl, sym, ap, ◌∙◌, true, false, Bool-cases, some, List, [], ◌∷◌, ◌==◌, ==→eq,
  ==→ne, ==_refl, ne→==, eq→==, elem, elem_tail, elem-head, erase_first, inl, inr, if◌then◌else◌,
  arith,
}
use panda_lib.Refcnt.{Ptr, write}
use panda_lib.Log.{
  Module, Instance, get_synced_data, returned, assert_failed, and_then, for_each, Slot, logging,
  effective, own, put, put_module,
}
use panda_lib.Log.Walk.{each}
use panda_lib.Log.Sound.{IsSound}
use panda_lib.Log.Life.{orphan, forget, destroy}
use panda_lib.Log.Names.{get_logger}
use panda_lib.Log.Life.Orphan.{
  keeping, keeping_twice, own-keeping, rootless, rootless_twice, children-rootless, IsOrphaned,
  after-IsSound, effective_after,
}

abbrev pub orphaned : Ptr → Instance → Instance
orphaned m s =
    put m (keeping true (s.src_data.entry m)) (put_module m (rootless true (s.objects m)) s)

orphan_all :
    (ms : List Ptr) (s : Instance)
    → ((m : Ptr) → elem m ms ≡ true → s.src_data.has m ≡ true)
    → for_each orphan ms s ≡ returned (each orphaned ms s)
unfolding for_each and_then orphan
orphan_all [] s known = refl
orphan_all (m ∷ ms) s known =
    rw (known m (elem-head m ms))
      (orphan_all ms (orphaned m s) (λ n inside. known n (elem_tail n m ms inside)))

orphan_object :
    (ms : List Ptr) (s : Instance) (a : Ptr)
    → (each orphaned ms s).objects a ≡ rootless (elem a ms) (s.objects a)
orphan_object [] s a = refl
orphan_object (m ∷ ms) s a = orphan_object ms (orphaned m s) a ∙ elim (Bool-cases (m == a)) [
  | inl e ↦ rw e (
      ap (λ z. rootless (elem a ms) (rootless true (s.objects z))) (==→eq m a e)
      ∙ rootless_twice (elem a ms) (s.objects a))
  | inr e ↦ rw e refl
]

orphan_entry :
    (ms : List Ptr) (s : Instance) (a : Ptr)
    → (each orphaned ms s).src_data.entry a ≡ keeping (elem a ms) (s.src_data.entry a)
orphan_entry [] s a = refl
orphan_entry (m ∷ ms) s a = orphan_entry ms (orphaned m s) a ∙ elim (Bool-cases (m == a)) [
  | inl e ↦ rw e (
      ap (λ z. keeping (elem a ms) (keeping true (s.src_data.entry z))) (==→eq m a e)
      ∙ keeping_twice (elem a ms) (s.src_data.entry a))
  | inr e ↦ rw e refl
]

orphan_rest :
    (ms : List Ptr) (s : Instance)
    → each orphaned ms s ≡ record s {
      objects = (each orphaned ms s).objects;
      src_data = record s.src_data { entry = (each orphaned ms s).src_data.entry };
    }
orphan_rest [] s = refl
orphan_rest (m ∷ ms) s = orphan_rest ms (orphaned m s)

module _ (this : Ptr) (s : Instance) (o : IsSound s) (here : s.src_data.has this ≡ true) where
  abbrev loose : Instance
  loose = each orphaned (s.objects this).children s

  abbrev unlist : Ptr → Instance
  unlist p =
      put_module p
        (record (loose.objects p) { children = erase_first this (loose.objects p).children }) loose

  has_after : (a : Ptr) → write loose.src_data.has this false a ≡ write s.src_data.has this false a
  has_after a =
      ap (λ (t : Instance). write t.src_data.has this false a)
        (orphan_rest (s.objects this).children s)

  same_children : (a : Ptr) → (loose.objects a).children ≡ (s.objects a).children
  same_children a =
      ap (λ (m : Module). m.children) (orphan_object (s.objects this).children s a)
      ∙ children-rootless (elem a (s.objects this).children) (s.objects a)

  -- A module is not its own child, nor is its parent.
  own_parent : (loose.objects this).parent ≡ (s.objects this).parent
  own_parent =
      ap (λ (m : Module). m.parent) (orphan_object (s.objects this).children s this)
      ∙ elim (Bool-cases (elem this (s.objects this).children)) [
        | inl e ↦
            let lower : o.forest.depth this < o.forest.depth this =
              (o.forest.child this this here e).2 in
            absurd (omega (arith, lower))
        | inr e ↦ rw e refl
      ]

  orphaned_root : (s.objects this).parent ≡ 0 → IsOrphaned this s (forget this loose)
  orphaned_root root = record {
    has = has_after;
    entry = orphan_entry (s.objects this).children s;
    parent = λ a. ap (λ (m : Module). m.parent) (orphan_object (s.objects this).children s a);
    siblings = λ some_parent. absurd (some_parent root);
    others = λ a nonzero differs. same_children a;
  }

  orphaned_child :
      (s.objects this).parent ≢ 0 → IsOrphaned this s (forget this (unlist (s.objects this).parent))
  orphaned_child some_parent = record {
    has = has_after;
    entry = orphan_entry (s.objects this).children s;
    parent = λ a.
        elim (Bool-cases ((s.objects this).parent == a)) [
          | inl e ↦ rw e (ap (λ q. (loose.objects q).parent) (==→eq (s.objects this).parent a e))
          | inr e ↦ rw e refl
        ]
        ∙ ap (λ (m : Module). m.parent) (orphan_object (s.objects this).children s a);
    siblings = λ given.
        rw (==_refl (s.objects this).parent)
          (ap (erase_first this) (same_children (s.objects this).parent));
    others = λ a nonzero differs.
        rw (ne→== (s.objects this).parent a (λ e. differs (sym e))) (same_children a);
  }

  listed :
      (s.objects this).parent ≢ 0
      → elem this (loose.objects (s.objects this).parent).children ≡ true
  listed some_parent =
      ap (elem this) (same_children (s.objects this).parent) ∙ (o.forest.up this here some_parent).1

  run_orphans : destroy false this s ≡ (
      if (s.objects this).parent == 0
      then returned (forget this loose)
      else if elem this (loose.objects (s.objects this).parent).children
      then returned (forget this (unlist (s.objects this).parent))
      else assert_failed)
  unfolding destroy and_then
  run_orphans =
      rw
        (orphan_all (s.objects this).children s (λ m inside. (o.forest.child this m here inside).0))
        (ap
          (λ p.
            if p == 0
            then returned (forget this loose)
            else if elem this (loose.objects p).children
            then returned (forget this (unlist p))
            else assert_failed)
          own_parent)

  -- What the destructor leaves is what it is to leave.
  destroyed :
      (u : Instance) × (destroy false this s ≡ returned u)
      × IsOrphaned this s u
      × (u.src_data.rev ≡ s.src_data.rev)
      × (u.thread_data ≡ s.thread_data)
  destroyed = elim (Bool-cases ((s.objects this).parent == 0)) [
    | inl e ↦ (
      forget this loose,
      run_orphans ∙ (rw e refl),
      orphaned_root (==→eq _ 0 e),
      ap (λ (t : Instance). t.src_data.rev) (orphan_rest (s.objects this).children s),
      ap (λ (t : Instance). t.thread_data) (orphan_rest (s.objects this).children s),
    )
    | inr e ↦ (
      forget this (unlist (s.objects this).parent),
      run_orphans ∙ (rw (e, listed (==→ne _ 0 e)) refl),
      orphaned_child (==→ne _ 0 e),
      ap (λ (t : Instance). t.src_data.rev) (orphan_rest (s.objects this).children s),
      ap (λ (t : Instance). t.thread_data) (orphan_rest (s.objects this).children s),
    )
  ]

-- On sound modules the destructor of a module that has an entry returns, keeps the modules sound
-- and the effective loggers and formatters of all as they are, and leaves no entry of the module.
-- It is not the end of the program.
pub destroy-IsSound :
    (this : Ptr) (s : Instance)
    → IsSound s
    → s.src_data.has this ≡ true
    → (u : Instance) × (destroy false this s ≡ returned u)
      × IsSound u
      × (u.src_data.has this ≡ false)
      × ((k : Slot) (a : Ptr) → effective k (u.src_data.entry a) ≡ effective k (s.src_data.entry a))
destroy-IsSound this s o here =
    let (u, run, now, rev, thread) = destroyed this s o here in
    (
      u,
      run,
      after-IsSound this s u o here now,
      now.has this ∙ (rw (==_refl this) refl),
      effective_after this s u o here now,
    )

-- On sound modules, after the destructor of a module that has an entry, the calling thread, of
-- which the data was the main data, still sees the logger that a child had of its own, and not
-- the one that the child has of its own now.
pub get_logger-destroy :
    (this c : Ptr) (s : Instance)
    → IsSound s
    → s.src_data.has this ≡ true
    → elem c (s.objects this).children ≡ true
    → s.thread_data ≡ s.src_data
    → (u : Instance) × (destroy false this s ≡ returned u)
      × (get_logger c u ≡ some (own logging (s.src_data.entry c)))
      × (own logging (u.src_data.entry c) ≡ effective logging (s.src_data.entry c))
unfolding get_logger get_synced_data
get_logger-destroy this c s o here inside synced =
    let (u, run, now, rev, thread) = destroyed this s o here in
    let same : (u.thread_data.rev == u.src_data.rev) ≡ true =
      eq→== u.thread_data.rev u.src_data.rev (ap (λ d. d.rev) (thread ∙ synced) ∙ sym rev) in
    let known : s.src_data.has c ≡ true = (o.forest.child this c here inside).0 in
    (
      u,
      run,
      (rw (same, thread, synced, known) refl),
      ap (own logging) (now.entry c) ∙ (rw inside (own-keeping logging (s.src_data.entry c))),
    )
