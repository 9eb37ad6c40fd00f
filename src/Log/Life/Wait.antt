-- ===== src/Log/Life/Wait.antt =====
-- The modules of src/panda/log/log.cc that wait for their parents.
use panda_lib.Base.{
  ℕ, zero, suc, ◌<◌, ◌≡◌, ◌≢◌, refl, sym, ap, ◌∙◌, subst, true, false, Bool-cases, none, some, List,
  [], ◌∷◌, ne→==, elem, elem-head, elem_tail, elem-cases, Once, inl, inr, ◌⊎◌, length, arith,
}
use panda_lib.Refcnt.{Ptr}
use panda_lib.Log.{Instance, returned, and_then}
use panda_lib.Log.Sound.{IsSound}
use panda_lib.Log.Life.{contains, find_waiting, init_found, init_waiting}
use panda_lib.Log.Life.Adopt.{IsNew, IsJoined}
use panda_lib.Log.Life.Grown.{Grown, Grown-same, Grown-trans, joined-Grown}
use panda_lib.Log.Life.Joined.{joined-IsSound}
use panda_lib.Log.Life.Init.{IsRegistered, init-IsJoined}

-- A module that waits: it has a parent, and no entry and no children.
pub record IsAwaiting (m : Ptr) (s : Instance) : Type 0 where
  pub nonzero : m ≢ 0
  pub unknown : s.src_data.has m ≡ false
  pub childless : (s.objects m).children ≡ []
  pub some_parent : (s.objects m).parent ≢ 0

pub record IsReady (s : Instance) : Type 0 where
  pub sound : IsSound s
  pub registered : IsRegistered s
  pub waiting : (m : Ptr) → elem m s.wait_list ≡ true → IsAwaiting m s
  pub once : Once s.wait_list

-- No module waits of which the parent is in the index.
abbrev pub IsQuiet : Instance → List Ptr → Type 0
IsQuiet s ms = (m : Ptr) → elem m ms ≡ true → contains (s.objects m).parent s.modules ≡ false

-- What `find_waiting` finds: a module, and the list without it.
record IsFound (s : Instance) (ms : List Ptr) (m : Ptr) (rest : List Ptr) : Type 0 where
  inside : elem m ms ≡ true
  above : contains (s.objects m).parent s.modules ≡ true
  split : (a : Ptr) → elem a ms ≡ true → (a ≡ m) ⊎ (elem a rest ≡ true)
  without : (a : Ptr) → elem a rest ≡ true → (elem a ms ≡ true) × (a ≢ m)
  once : Once rest
  shorter : length rest < length ms

find_waiting-cases :
    (s : Instance) (ms : List Ptr)
    → Once ms
    → ((find_waiting s ms ≡ none) × IsQuiet s ms)
      ⊎ ((m : Ptr) × (rest : List Ptr) × (find_waiting s ms ≡ some (m, rest)) × IsFound s ms m rest)
unfolding find_waiting
find_waiting-cases s [] o = inl (refl, λ m inside. let no : false ≡ true = inside in cc)
find_waiting-cases s (x ∷ xs) o = elim (Bool-cases (contains (s.objects x).parent s.modules)) [
  | inl e ↦ inr (
    x,
    xs,
    (rw e refl),
    record {
      inside = elem-head x xs;
      above = e;
      split = λ a inside. elem-cases a x xs inside;
      without = λ a found. (
        elem_tail a x xs found,
        λ same. let no : true ≡ false = sym found ∙ ap (λ q. elem q xs) same ∙ o.0 in cc,
      );
      once = o.1;
      shorter = omega arith;
    },
  )
  | inr e ↦ elim (find_waiting-cases s xs o.1) [
    | inl nothing ↦ inl (
      (rw (e, nothing.0) refl),
      λ m inside. elim (elem-cases m x xs inside) [
        | inl same ↦ subst (λ q. contains (s.objects q).parent s.modules ≡ false) (sym same) e
        | inr more ↦ nothing.1 m more
      ],
    )
    | inr found ↦
        let (m, rest, run, f) = found in
        inr (
          m,
          x ∷ rest,
          (rw (e, run) refl),
          record {
            inside = elem_tail m x xs f.inside;
            above = f.above;
            split = λ a q. elim (elem-cases a x xs q) [
              | inl same ↦ inr (subst (λ z. elem z (x ∷ rest) ≡ true) (sym same) (elem-head x rest))
              | inr more ↦ elim (f.split a more) [
                | inl that ↦ inl that
                | inr later ↦ inr (elem_tail a x rest later)
              ]
            ];
            without = λ a q. elim (elem-cases a x rest q) [
              | inl same ↦ (
                subst (λ z. elem z (x ∷ xs) ≡ true) (sym same) (elem-head x xs),
                λ z.
                    let no : true ≡ false =
                      sym f.above
                      ∙ ap (λ p. contains (s.objects p).parent s.modules) (sym z ∙ same)
                      ∙ e in
                    cc,
              )
              | inr more ↦
                  let (held, differs) = f.without a more in (elem_tail a x xs held, differs)
            ];
            once = (
              elim (Bool-cases (elem x rest)) [
                | inl q ↦ let no : true ≡ false = sym (f.without x q).0 ∙ o.0 in cc
                | inr q ↦ q
              ],
              f.once,
            );
            shorter = omega (arith, f.shorter);
          },
        )
  ]
]

-- A module that waits may join once its parent is in the index.
awaiting-IsNew :
    (s : Instance) (m : Ptr)
    → IsReady s
    → IsAwaiting m s
    → contains (s.objects m).parent s.modules ≡ true
    → IsNew m s
awaiting-IsNew s m r w above = record {
  nonzero = w.nonzero;
  unknown = w.unknown;
  childless = w.childless;
  above = λ some_parent. sym (r.registered.agrees (s.objects m).parent) ∙ above;
}

-- The others go on waiting.
joined-IsAwaiting :
    (this m : Ptr) (s z : Instance)
    → IsNew this s
    → IsJoined this s z
    → m ≢ this
    → IsAwaiting m s
    → IsAwaiting m z
joined-IsAwaiting this m s z n j differs w = record {
  nonzero = w.nonzero;
  unknown = j.has m ∙ (rw (ne→== this m (λ e. differs (sym e))) w.unknown);
  childless =
      j.others m w.nonzero (λ e.
        let known : s.src_data.has m ≡ true =
          subst (λ q. s.src_data.has q ≡ true) (sym e) (n.above (λ none. w.nonzero (e ∙ none))) in
        let no : true ≡ false = sym known ∙ w.unknown in cc)
      ∙ w.childless;
  some_parent = λ none. w.some_parent (sym (j.parent m) ∙ none);
}

pub joined-IsReady :
    (this : Ptr) (s z : Instance) (ms : List Ptr)
    → IsReady s
    → IsNew this s
    → IsJoined this s z
    → IsRegistered z
    → Once ms
    → ((m : Ptr) → elem m ms ≡ true → (m ≢ this) × IsAwaiting m s)
    → IsReady (record z { wait_list = ms })
joined-IsReady this s z ms r n j g o rest =
    let sound : IsSound z = joined-IsSound this s z r.sound n j in
    record {
      sound = record { forest = sound.forest; agree = sound.agree; roots = sound.roots };
      registered = record { agrees = g.agrees };
      waiting = λ m inside.
          let (differs, w) = rest m inside in
          let v : IsAwaiting m z = joined-IsAwaiting this m s z n j differs w in
          record {
            nonzero = v.nonzero;
            unknown = v.unknown;
            childless = v.childless;
            some_parent = v.some_parent;
          };
      once = o;
    }

-- The loop returns, and ends when no module waits of which the parent is in the index; none is lost.
pub init_waiting-IsQuiet :
    (n fuel fresh : ℕ) (s : Instance)
    → fresh ≢ 0
    → length s.wait_list < n
    → IsReady s
    → (u : Instance) × (init_waiting n (suc (suc fuel)) fresh s ≡ returned u)
      × IsReady u
      × IsQuiet u u.wait_list
      × Grown s u
unfolding init_waiting init_found and_then
init_waiting-IsQuiet zero fuel fresh s new enough r = absurd (omega arith)
init_waiting-IsQuiet (suc n) fuel fresh s new enough r =
    elim (find_waiting-cases s s.wait_list r.once) [
      | inl nothing ↦ (s, (rw nothing.0 refl), r, nothing.1, Grown-same s)
      | inr found ↦
          let (m, rest, run, f) = found in
          let ready : IsNew m s = awaiting-IsNew s m r (r.waiting m f.inside) f.above in
          let (z, done, j, g, same) = init-IsJoined fuel fresh m s new ready r.registered in
          let (u, more, settled, quiet, grown) =
            init_waiting-IsQuiet n fuel fresh (record z { wait_list = rest }) new
              (omega (arith, f.shorter))
              (joined-IsReady m s z rest r ready j g f.once
                (λ a inside. ((f.without a inside).1, r.waiting a (f.without a inside).0))) in
          let first : Grown s (record z { wait_list = rest }) =
            joined-Grown m s z rest r.sound ready j f.split in
          (
            u,
            (rw (run, done) more),
            settled,
            quiet,
            Grown-trans s (record z { wait_list = rest }) u first grown,
          )
    ]
