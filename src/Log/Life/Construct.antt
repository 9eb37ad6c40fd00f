-- ===== src/Log/Life/Construct.antt =====
-- The constructor of a module in src/panda/log/log.cc.
use panda_lib.Base.{
  ℕ, suc, ◌<◌, ◌≡◌, ◌≢◌, refl, sym, ap, ◌∙◌, subst, true, false, Bool-cases, List, [], ◌∷◌, ◌++◌,
  ◌==◌, ==→eq, ==→ne, ==_refl, ne→==, elem, elem-append, elem-cases, elem-head, elem_left,
  elem_right, Once, Once-append, inl, inr, ◌⊎◌, length, arith,
}
use panda_lib.Refcnt.{Ptr}
use panda_lib.Log.{Level, Module, Instance, returned, and_then, put_module, own}
use panda_lib.Log.Coherent.{inherited, or_else}
use panda_lib.Log.Sound.{IsSound}
use panda_lib.Log.Life.{contains, init, init_waiting, construct}
use panda_lib.Log.Life.Adopt.{IsNew, this_known}
use panda_lib.Log.Life.Grown.{Grown, Grown-trans, joined-Grown}
use panda_lib.Log.Life.Init.{init-IsJoined}
use panda_lib.Log.Life.Wait.{IsAwaiting, IsReady, IsQuiet, joined-IsReady, init_waiting-IsQuiet}

-- What the constructor makes of the object and its parent: the object has an entry then where the parent
-- is null or in the index, and waits where it is not; every other module keeps its entry and its parent,
-- and each that waited has an entry or goes on waiting.
pub record IsConstructed (this parent : Ptr) (s u : Instance) : Type 0 where
  pub joins : (parent ≡ 0) ⊎ (contains parent s.modules ≡ true) → u.src_data.has this ≡ true
  pub waits : parent ≢ 0 → contains parent s.modules ≡ false → elem this u.wait_list ≡ true
  pub under : (u.objects this).parent ≡ parent
  pub parents : (a : Ptr) → a ≢ this → (u.objects a).parent ≡ (s.objects a).parent
  pub known : (a : Ptr) → s.src_data.has a ≡ true → u.src_data.has a ≡ true
  pub entries : (a : Ptr) → s.src_data.has a ≡ true → u.src_data.entry a ≡ s.src_data.entry a
  pub waiting :
      (a : Ptr)
      → elem a s.wait_list ≡ true
      → (u.src_data.has a ≡ true) ⊎ (elem a u.wait_list ≡ true)

module _ (this : Ptr) (name : List ℕ) (parent : Ptr) (level : Level) (s : Instance) where
  -- The object before its `init`.
  abbrev made : Instance
  made =
      put_module this
        (record { parent = parent; level = level; children = []; name = name; passthrough = false })
        s

  module _ (r : IsReady s) (nonzero : this ≢ 0) (unknown : s.src_data.has this ≡ false)
      (idle : elem this s.wait_list ≡ false) where
    differs : (a : Ptr) → s.src_data.has a ≡ true → (this == a) ≡ false
    differs a known =
        ne→== this a
          (λ e. let no : true ≡ false = sym known ∙ ap s.src_data.has (sym e) ∙ unknown in cc)

    same_object : (a : Ptr) → s.src_data.has a ≡ true → made.objects a ≡ s.objects a
    same_object a known = rw (differs a known) refl

    same_waiting : (m : Ptr) → elem m s.wait_list ≡ true → made.objects m ≡ s.objects m
    same_waiting m inside =
        rw
          (ne→== this m (λ e.
            let no : true ≡ false = sym inside ∙ ap (λ q. elem q s.wait_list) (sym e) ∙ idle in cc))
          refl

    made-IsSound : IsSound made
    made-IsSound = record {
      forest = record {
        depth = r.sound.forest.depth;
        height = r.sound.forest.height;
        below = r.sound.forest.below;
        child = λ a c known inside.
            let (held, back, lower) =
              r.sound.forest.child a c known
                (ap (λ (o : Module). elem c o.children) (sym (same_object a known)) ∙ inside) in
            (held, ap (λ (o : Module). o.parent) (same_object c held) ∙ back, lower);
        up = λ c known some_parent.
            let old : (made.objects c).parent ≡ (s.objects c).parent =
              ap (λ (o : Module). o.parent) (same_object c known) in
            let (above, inside) = r.sound.forest.up c known (λ none. some_parent (old ∙ none)) in
            rw old (
              above,
              ap (λ (o : Module). elem c o.children) (same_object (s.objects c).parent above)
                  ∙ inside,
            );
        once = λ a known.
            subst (λ (o : Module). Once o.children) (sym (same_object a known))
              (r.sound.forest.once a known);
        null = r.sound.forest.null;
      };
      agree = λ k a known.
          r.sound.agree k a known
          ∙ ap
              (λ (o : Module).
                or_else (own k (s.src_data.entry a)) (inherited k s.src_data.entry o.parent))
              (sym (same_object a known));
      roots = λ a known root.
          r.sound.roots a known (ap (λ (o : Module). o.parent) (sym (same_object a known)) ∙ root);
    }

    made_waiting : (m : Ptr) → elem m s.wait_list ≡ true → IsAwaiting m made
    made_waiting m inside =
        let w = r.waiting m inside in
        record {
          nonzero = w.nonzero;
          unknown = w.unknown;
          childless = ap (λ (o : Module). o.children) (same_waiting m inside) ∙ w.childless;
          some_parent = λ none.
              w.some_parent (ap (λ (o : Module). o.parent) (sym (same_waiting m inside)) ∙ none);
        }

    made-IsReady : IsReady made
    made-IsReady = record {
      sound = made-IsSound;
      registered = record { agrees = r.registered.agrees };
      waiting = made_waiting;
      once = r.once;
    }

    -- The constructor of a module of which the parent is not in the index.
    abbrev deferred : Instance
    deferred = record made { wait_list = s.wait_list ++ this ∷ [] }

    last_waits : parent ≢ 0 → IsAwaiting this deferred
    last_waits some_parent = record {
      nonzero = nonzero;
      unknown = unknown;
      childless = rw (==_refl this) refl;
      some_parent = rw (==_refl this) some_parent;
    }

    deferred-IsReady : parent ≢ 0 → IsReady deferred
    deferred-IsReady some_parent = record {
      sound = record {
        forest = made-IsSound.forest;
        agree = made-IsSound.agree;
        roots = made-IsSound.roots;
      };
      registered = record { agrees = r.registered.agrees };
      waiting = λ m inside. elim (elem-append m s.wait_list (this ∷ []) inside) [
        | inl old ↦
            let w = made_waiting m old in
            record {
              nonzero = w.nonzero;
              unknown = w.unknown;
              childless = w.childless;
              some_parent = w.some_parent;
            }
        | inr new ↦ elim (elem-cases m this [] new) [
          | inl same ↦ subst (λ q. IsAwaiting q deferred) (sym same) (last_waits some_parent)
          | inr nothing ↦ let no : false ≡ true = nothing in cc
        ]
      ];
      once = Once-append this s.wait_list r.once idle;
    }

    deferred-IsQuiet :
        contains parent s.modules ≡ false
        → IsQuiet s s.wait_list
        → IsQuiet deferred deferred.wait_list
    deferred-IsQuiet absent quiet m inside = elim (elem-append m s.wait_list (this ∷ []) inside) [
      | inl old ↦
          ap (λ (o : Module). contains o.parent s.modules) (same_waiting m old) ∙ quiet m old
      | inr new ↦ elim (elem-cases m this [] new) [
        | inl same ↦
            subst (λ q. contains (made.objects q).parent s.modules ≡ false) (sym same)
              (rw (==_refl this) absent)
        | inr nothing ↦ let no : false ≡ true = nothing in cc
      ]
    ]

    made_parents : (a : Ptr) → a ≢ this → (made.objects a).parent ≡ (s.objects a).parent
    made_parents a other = rw (ne→== this a (λ e. other (sym e))) refl

    deferred-IsConstructed :
        contains parent s.modules ≡ false → parent ≢ 0 → IsConstructed this parent s deferred
    deferred-IsConstructed absent some_parent = record {
      joins = λ found. elim found [
        | inl none ↦ absurd (some_parent none)
        | inr present ↦ let no : true ≡ false = sym present ∙ absent in cc
      ];
      waits = λ other gone. elem_right this s.wait_list (this ∷ []) (elem-head this []);
      under = rw (==_refl this) refl;
      parents = made_parents;
      known = λ a known. known;
      entries = λ a known. refl;
      waiting = λ a inside. inr (elem_left a s.wait_list (this ∷ []) inside);
    }

    made-IsNew : (parent ≢ 0 → contains parent s.modules ≡ true) → IsNew this made
    made-IsNew present = record {
      nonzero = nonzero;
      unknown = unknown;
      childless = rw (==_refl this) refl;
      above =
          rw (==_refl this) (λ some_parent. sym (r.registered.agrees parent) ∙ present some_parent);
    }

    -- With its parent in the index the module is initialized, and then those that waited for it.
    started-IsReady :
        (n fuel fresh : ℕ)
        → fresh ≢ 0
        → length s.wait_list < n
        → (parent ≢ 0 → contains parent s.modules ≡ true)
        → (u : Instance) × (and_then
              (init_waiting n (suc (suc fuel)) fresh)
              (init (suc (suc fuel)) fresh this made)
            ≡ returned u)
          × IsReady u
          × IsQuiet u u.wait_list
          × Grown made u
          × (u.src_data.has this ≡ true)
    unfolding and_then
    started-IsReady n fuel fresh new enough present =
        let ready : IsNew this made = made-IsNew present in
        let (z, done, j, g, same) =
          init-IsJoined fuel fresh this made new ready (record { agrees = r.registered.agrees }) in
        let all : IsReady (record z { wait_list = z.wait_list }) =
          joined-IsReady this made z z.wait_list made-IsReady ready j g (rw same r.once)
            (λ m inside.
              let old : elem m s.wait_list ≡ true = ap (elem m) (sym same) ∙ inside in
              (
                (λ e.
                    let no : true ≡ false = sym old ∙ ap (λ q. elem q s.wait_list) e ∙ idle in cc),
                made_waiting m old,
              )) in
        let (u, run, settled, quiet, grown) =
          init_waiting-IsQuiet n fuel fresh z new (omega (arith, ap length same)) all in
        let first : Grown made (record z { wait_list = z.wait_list }) =
          joined-Grown this made z z.wait_list made-IsSound ready j
            (λ a inside. inr (ap (elem a) same ∙ inside)) in
        (
          u,
          (rw done run),
          settled,
          quiet,
          Grown-trans made z u first grown,
          grown.known this (this_known this made z made-IsSound ready j),
        )

    started-IsConstructed :
        (u : Instance)
        → (parent ≢ 0 → contains parent s.modules ≡ true)
        → Grown made u
        → u.src_data.has this ≡ true
        → IsConstructed this parent s u
    started-IsConstructed u present grown here = record {
      joins = λ found. here;
      waits =
          λ some_parent absent. let no : true ≡ false = sym (present some_parent) ∙ absent in cc;
      under = grown.parents this ∙ (rw (==_refl this) refl);
      parents = λ a other. grown.parents a ∙ made_parents a other;
      known = grown.known;
      entries = grown.entries;
      waiting = grown.waiting;
    }

-- Where the modules are sound and registered, those that wait have a parent and are no modules
-- yet, and none waits of which the parent is in the index, the constructor of an object that is
-- neither a module nor waits returns and keeps all this. The object has an entry then where its parent
-- is null or in the index, and waits where it is not; no module loses its entry, none that waited is
-- lost, and all have the parents that they had. The fuel of the loop is for the modules that wait, and
-- that of `init` for the module and its parent.
pub construct-IsReady :
    (n fuel fresh this : ℕ) (name : List ℕ) (parent : Ptr) (level : Level) (s : Instance)
    → fresh ≢ 0
    → length s.wait_list < n
    → IsReady s
    → IsQuiet s s.wait_list
    → this ≢ 0
    → s.src_data.has this ≡ false
    → elem this s.wait_list ≡ false
    → (u : Instance) × (construct n (suc (suc fuel)) fresh this name parent level s ≡ returned u)
      × IsReady u
      × IsQuiet u u.wait_list
      × IsConstructed this parent s u
unfolding construct and_then
construct-IsReady n fuel fresh this name parent level s new enough r quiet nonzero unknown idle =
    let started =
      started-IsReady this name parent level s r nonzero unknown idle n fuel fresh new enough in
    let constructed = started-IsConstructed this name parent level s r nonzero unknown idle in
    elim (Bool-cases (parent == 0)) [
      | inl e ↦
          let present : parent ≢ 0 → contains parent s.modules ≡ true =
            λ some_parent. absurd (some_parent (==→eq parent 0 e)) in
          let (u, run, ready, still, grown, here) = started present in
          (u, (rw e run), ready, still, constructed u present grown here)
      | inr e ↦ elim (Bool-cases (contains parent s.modules)) [
        | inl q ↦
            let (u, run, ready, still, grown, here) = started (λ some_parent. q) in
            (u, (rw (e, q) run), ready, still, constructed u (λ some_parent. q) grown here)
        | inr q ↦ (
          deferred this name parent level s r nonzero unknown idle,
          (rw (e, q) refl),
          deferred-IsReady this name parent level s r nonzero unknown idle (==→ne parent 0 e),
          deferred-IsQuiet this name parent level s r nonzero unknown idle q quiet,
          deferred-IsConstructed this name parent level s r nonzero unknown idle q
              (==→ne parent 0 e),
        )
      ]
    ]
