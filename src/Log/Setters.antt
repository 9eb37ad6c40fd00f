-- ===== src/Log/Setters.antt =====
-- `Module::set_logger` and `Module::set_formatter` of src/panda/log/log.cc.
use panda_lib.Base.{
  ℕ, suc, ◌+◌, ◌%◌, ◌^◌, subst, ◌≤◌, ◌≡◌, ◌≢◌, refl, sym, ap, ◌∙◌, Bool, true, ◌&&◌, Bool-cases,
  ◌==◌, ==→eq, ==_refl, ne→==, ==→ne, inl, inr, if◌then◌else◌,
}
use panda_lib.Refcnt.{Ptr}
use panda_lib.Log.{
  Slot, Data, effective, Module, Instance, returned, and_then, logging, formatting, own, put_module,
  settle, set_logger, set_formatter,
}
use panda_lib.Log.Coherent.{inherited, or_else}
use panda_lib.Log.Sound.{IsSound, Nearest, effective-Nearest}
use panda_lib.Log.Install.{
  IsInstalled, own_here, own_other, effective_same, owning, owning_twice, installed,
  settle-IsInstalled,
}

-- A change of the other fields of the modules keeps the rest sound.
objects-IsSound :
    (s : Instance) (objects : Ptr → Module)
    → ((a : Ptr) → (objects a).parent ≡ (s.objects a).parent)
    → ((a : Ptr) → (objects a).children ≡ (s.objects a).children)
    → IsSound s
    → IsSound (record s { objects = objects })
objects-IsSound s objects parents children o = record {
  forest = record {
    depth = o.forest.depth;
    height = o.forest.height;
    below = o.forest.below;
    child = λ a c known inside.
        let (held, back, lower) = o.forest.child a c known (rw (children a) at inside) in
        (held, parents c ∙ back, lower);
    up = λ c known some_parent.
        let (held, inside) = o.forest.up c known (λ none. some_parent (parents c ∙ none)) in
        (rw (parents c) held, rw (parents c, children (s.objects c).parent) inside);
    once = λ a known. rw (children a) (o.forest.once a known);
    null = o.forest.null;
  };
  agree = λ k a known.
      o.agree k a known
      ∙ ap (λ p. or_else (own k (s.src_data.entry a)) (inherited k s.src_data.entry p))
          (sym (parents a));
  roots = λ a known root. o.roots a known (sym (parents a) ∙ root);
}

abbrev pub passing : Bool → Ptr → Instance → Instance
passing p this u = put_module this (record (u.objects this) { passthrough = p }) u

passing_parent :
    (p : Bool) (this : Ptr) (u : Instance) (a : Ptr)
    → ((passing p this u).objects a).parent ≡ (u.objects a).parent
passing_parent p this u a = elim (Bool-cases (this == a)) [
  | inl e ↦ rw e (ap (λ z. (u.objects z).parent) (==→eq this a e))
  | inr e ↦ rw e refl
]

passing-IsSound : (p : Bool) (this : Ptr) (u : Instance) → IsSound u → IsSound (passing p this u)
passing-IsSound p this u =
    objects-IsSound u (passing p this u).objects (passing_parent p this u) (λ a.
      elim (Bool-cases (this == a)) [
        | inl e ↦ rw e (ap (λ z. (u.objects z).children) (==→eq this a e))
        | inr e ↦ rw e refl
      ])

module _ (s : Instance) (o : IsSound s) (fuel : ℕ) (this : Ptr)
    (stale : s.thread_data.rev ≢ (s.src_data.rev + 1) % 2 ^ 64) (here : s.src_data.has this ≡ true)
    (enough : o.forest.height ≤ o.forest.depth this + suc fuel) where
  -- What `set_logger` gives to the children: the logger, or else that of the parent.
  abbrev handed : Ptr → Ptr
  handed l = or_else l (inherited logging s.src_data.entry (s.objects this).parent)

  set_logger-settle :
      (l : Ptr) (p : Bool)
      → set_logger fuel l p this s
        ≡ and_then
            (λ u. returned (passing p this u))
            (settle logging fuel (handed l) this (owning logging l this s))
  unfolding set_logger
  set_logger-settle l p = elim (Bool-cases (l == 0)) [
    | inr e ↦ rw (here, e) refl
    | inl e ↦ elim (Bool-cases ((s.objects this).parent == 0)) [
      | inl q ↦
          rw (here, e, q)
            (ap
              (λ v.
                and_then (λ u. returned (passing p this u))
                  (settle logging fuel v this (owning logging l this s)))
              (==→eq l 0 e))
      | inr q ↦
          let known : s.src_data.has (s.objects this).parent ≡ true =
            (o.forest.up this here (==→ne _ 0 q)).0 in
          rw (here, e, q, known)
            (ap
              (λ v.
                and_then (λ u. returned (passing p this u))
                  (settle logging fuel v this (owning logging l this s)))
              (effective_same logging l this s logging (s.objects this).parent))
    ]
  ]

  -- `set_logger` of a module that has an entry returns, on sound modules, where the data that the
  -- calling thread keeps is not of the number that comes behind that of the main data, with fuel for
  -- the depth of the modules. The modules are sound after it, with the entries and parents that they
  -- had, the module has the logger of its own and the flag that were given, all other modules have
  -- the own loggers that they had, all modules have the own formatters that they had, and the data
  -- of the thread is the main data.
  pub set_logger-IsInstalled :
      (l : Ptr) (p : Bool)
      → (u : Instance) × (set_logger fuel l p this s ≡ returned u)
        × IsSound u
        × IsInstalled logging l this s u
        × ((u.objects this).passthrough ≡ p)
  unfolding and_then
  set_logger-IsInstalled l p =
      let (e, run, sound, now) =
        settle-IsInstalled logging l this s o stale fuel (handed l) here enough refl
          (λ root none. o.roots this here root (sym (own_other logging l this s this) ∙ none)) in
      let u = installed logging l this s e in
      (
        passing p this u,
        set_logger-settle l p ∙ ap (and_then (λ t. returned (passing p this t))) run,
        passing-IsSound p this u sound,
        record {
          given = now.given;
          kept = now.kept;
          others = now.others;
          known = now.known;
          parents = λ a. passing_parent p this u a;
          synced = now.synced;
        },
        (rw (==_refl this) refl),
      )

  -- What `set_formatter` makes of its argument: a new formatter where it is null and the module is a
  -- root.
  abbrev pub formatter_taken : Ptr → Ptr → Ptr
  formatter_taken fresh f = if f == 0 && (s.objects this).parent == 0 then fresh else f

  taken-nonzero :
      (fresh f : Ptr) → fresh ≢ 0 → (s.objects this).parent ≡ 0 → formatter_taken fresh f ≢ 0
  taken-nonzero fresh f new root = elim (Bool-cases (f == 0)) [
    | inl e ↦ rw (e, root) new
    | inr e ↦ rw e (==→ne f 0 e)
  ]

  set_formatter-settle :
      (fresh f : Ptr)
      → fresh ≢ 0
      → set_formatter fuel fresh f this s
        ≡ settle formatting fuel
            (or_else
              (formatter_taken fresh f)
              (inherited formatting s.src_data.entry (s.objects this).parent))
            this
            (owning formatting (formatter_taken fresh f) this s)
  unfolding set_formatter
  set_formatter-settle fresh f new = elim (Bool-cases (f == 0)) [
    | inr e ↦ rw (here, e, e) refl
    | inl e ↦ elim (Bool-cases ((s.objects this).parent == 0)) [
      | inl q ↦
          rw (here, e, q, ne→== fresh 0 new)
            (ap (settle formatting fuel fresh this) (owning_twice formatting f fresh this s))
      | inr q ↦
          let known : s.src_data.has (s.objects this).parent ≡ true =
            (o.forest.up this here (==→ne _ 0 q)).0 in
          rw (here, e, q, known, e)
            (ap (λ v. settle formatting fuel v this (owning formatting f this s))
              (effective_same formatting f this s formatting (s.objects this).parent))
    ]
  ]

  -- The same of `set_formatter`, where the module gets a new formatter when it is given null and
  -- the module is a root.
  pub set_formatter-IsInstalled :
      (fresh f : Ptr)
      → fresh ≢ 0
      → (u : Instance) × (set_formatter fuel fresh f this s ≡ returned u)
        × IsSound u
        × IsInstalled formatting (formatter_taken fresh f) this s u
  set_formatter-IsInstalled fresh f new =
      let l = formatter_taken fresh f in
      let (e, run, sound, now) =
        settle-IsInstalled formatting l this s o stale fuel
          (or_else l (inherited formatting s.src_data.entry (s.objects this).parent)) here enough
          refl
          (λ root none.
            taken-nonzero fresh f new root (sym (own_here formatting l this s) ∙ none)) in
      (installed formatting l this s e, set_formatter-settle fresh f new ∙ run, sound, now)

-- Every module that has an entry has the values of the nearest modules up the tree, in the data of the
-- thread.
abbrev pub AllNearest : Instance → Type 0
AllNearest u =
    (k : Slot) (a : Ptr)
    → u.src_data.has a ≡ true
    → Nearest k u a (effective k (u.thread_data.entry a))

all_nearest : (u : Instance) → IsSound u → u.thread_data ≡ u.src_data → AllNearest u
all_nearest u o synced k a known =
    subst (λ (d : Data). Nearest k u a (effective k (d.entry a))) (sym synced)
      (effective-Nearest k u a o known)

-- On sound modules, where the data that the calling thread keeps is not of the number that comes behind
-- that of the main data, and with fuel for the depth of the modules, both setters of a module that
-- has an entry return and install what is given, where a root gets a new formatter in place of none.
-- After each of them the effective logger and formatter of every module that has an entry, as the
-- thread sees them, are those of the nearest module up the tree that has one of its own, or null
-- where none has.
pub setters-Nearest :
    (s : Instance) (o : IsSound s) (fuel : ℕ) (this : Ptr)
    → s.thread_data.rev ≢ (s.src_data.rev + 1) % 2 ^ 64
    → s.src_data.has this ≡ true
    → o.forest.height ≤ o.forest.depth this + suc fuel
    → (l fresh f : Ptr) (p : Bool) → fresh ≢ 0
    → ((u : Instance) × (set_logger fuel l p this s ≡ returned u)
        × IsInstalled logging l this s u
        × AllNearest u)
      × ((u : Instance) × (set_formatter fuel fresh f this s ≡ returned u)
          × IsInstalled formatting
              (if f == 0 && (s.objects this).parent == 0 then fresh else f)
              this
              s
              u
          × AllNearest u)
setters-Nearest s o fuel this stale here enough l fresh f p new =
    let (u, run, sound, now, flag) = set_logger-IsInstalled s o fuel this stale here enough l p in
    let (w, ran, safe, after) =
      set_formatter-IsInstalled s o fuel this stale here enough fresh f new in
    (
      (u, run, now, all_nearest u sound now.synced),
      (w, ran, after, all_nearest w safe after.synced),
    )
