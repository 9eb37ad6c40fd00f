-- ===== src/Log/Life/Adopt.antt =====
-- What `Module::init` of src/panda/log/log.cc is to leave, and that this is sound.
use panda_lib.Base.{
  ℕ, suc, ◌<◌, ◌≡◌, ◌≢◌, refl, sym, ap, ◌∙◌, subst, true, false, Bool-cases, [], ◌∷◌, ◌++◌, ◌==◌,
  ==→eq, ==→ne, ==_refl, ne→==, elem, elem-append, elem-cases, elem-head, elem_left, elem_right,
  Once, Once-append, inl, inr, if◌then◌else◌, arith,
}
use panda_lib.Refcnt.{Ptr, write}
use panda_lib.Refcnt.Counting.{written_here, written_there}
use panda_lib.Log.{Instance, Slot, formatting, effective, own}
use panda_lib.Log.Walk.{IsForest, known-nonzero}
use panda_lib.Log.Coherent.{inherited, or_else}
use panda_lib.Log.Sound.{IsSound}

-- The module has an entry and is the last child of its parent; it agrees with it, or has a formatter
-- of its own. Nothing else changes.
pub record IsJoined (this : Ptr) (s z : Instance) : Type 0 where
  pub has : (a : Ptr) → z.src_data.has a ≡ write s.src_data.has this true a
  pub entry : (a : Ptr) → (this == a) ≡ false → z.src_data.entry a ≡ s.src_data.entry a
  pub here :
      (k : Slot)
      → effective k (z.src_data.entry this)
        ≡ or_else
            (own k (z.src_data.entry this))
            (inherited k s.src_data.entry (s.objects this).parent)
  pub rooted : (s.objects this).parent ≡ 0 → own formatting (z.src_data.entry this) ≢ 0
  pub parent : (a : Ptr) → (z.objects a).parent ≡ (s.objects a).parent
  pub siblings :
      (s.objects this).parent ≢ 0
      → (z.objects (s.objects this).parent).children
        ≡ (s.objects (s.objects this).parent).children ++ this ∷ []
  pub others :
      (a : Ptr)
      → a ≢ 0
      → a ≢ (s.objects this).parent
      → (z.objects a).children ≡ (s.objects a).children

-- A module that may join: it has no entry and no children, and a parent, if any, that has an entry.
pub record IsNew (this : Ptr) (s : Instance) : Type 0 where
  pub nonzero : this ≢ 0
  pub unknown : s.src_data.has this ≡ false
  pub childless : (s.objects this).children ≡ []
  pub above : (s.objects this).parent ≢ 0 → s.src_data.has (s.objects this).parent ≡ true

module _ (this : Ptr) (s z : Instance) (o : IsSound s) (n : IsNew this s)
    (j : IsJoined this s z) where
  abbrev pub up_of : Ptr
  up_of = (s.objects this).parent

  abbrev depth : Ptr → ℕ
  depth a =
      if this == a then (if up_of == 0 then 0 else suc (o.forest.depth up_of)) else o.forest.depth a

  pub not_this : (a : Ptr) → s.src_data.has a ≡ true → (this == a) ≡ false
  not_this a known =
      ne→== this a
        (λ e. let no : true ≡ false = sym known ∙ ap s.src_data.has (sym e) ∙ n.unknown in cc)

  pub known_before :
      (a : Ptr) → z.src_data.has a ≡ true → (this == a) ≡ false → s.src_data.has a ≡ true
  known_before a known e = sym (written_there s.src_data.has this a true e) ∙ sym (j.has a) ∙ known

  pub known_now : (a : Ptr) → s.src_data.has a ≡ true → z.src_data.has a ≡ true
  known_now a known = j.has a ∙ written_there s.src_data.has this a true (not_this a known) ∙ known

  pub this_known : z.src_data.has this ≡ true
  this_known = j.has this ∙ written_here s.src_data.has this true

  this_depth : up_of ≢ 0 → depth this ≡ suc (o.forest.depth up_of)
  this_depth some_parent = rw (==_refl this, ne→== up_of 0 some_parent) refl

  old_depth : (a : Ptr) → s.src_data.has a ≡ true → depth a ≡ o.forest.depth a
  old_depth a known = rw (not_this a known) refl

  pub this_not_up : this ≢ up_of
  this_not_up e = elim (Bool-cases (up_of == 0)) [
    | inl q ↦ n.nonzero (e ∙ ==→eq up_of 0 q)
    | inr q ↦
        let no : true ≡ false =
          sym (n.above (==→ne up_of 0 q)) ∙ ap s.src_data.has (sym e) ∙ n.unknown in
        cc
  ]

  this_childless : (z.objects this).children ≡ []
  this_childless = j.others this n.nonzero this_not_up ∙ n.childless

  shallow : depth this < suc o.forest.height
  shallow = elim (Bool-cases (up_of == 0)) [
    | inl q ↦ rw (==_refl this, q) (omega arith)
    | inr q ↦
        let under : o.forest.depth up_of < o.forest.height =
          o.forest.below up_of (n.above (==→ne up_of 0 q)) in
        rw (==_refl this, q) (omega (arith, under))
  ]

  below_now : (a : Ptr) → z.src_data.has a ≡ true → depth a < suc o.forest.height
  below_now a known = elim (Bool-cases (this == a)) [
    | inl e ↦ subst (λ q. depth q < suc o.forest.height) (==→eq this a e) shallow
    | inr e ↦
        let under : o.forest.depth a < o.forest.height =
          o.forest.below a (known_before a known e) in
        rw e (omega (arith, under))
  ]

  old_child :
      (a c : Ptr)
      → s.src_data.has a ≡ true
      → elem c (s.objects a).children ≡ true
      → (z.src_data.has c ≡ true) × ((z.objects c).parent ≡ a) × (depth a < depth c)
  old_child a c known inside =
      let (held, back, lower) = o.forest.child a c known inside in
      (
        known_now c held,
        j.parent c ∙ back,
        omega (arith, lower, old_depth a known, old_depth c held),
      )

  grown :
      (a : Ptr) → a ≢ 0 → a ≡ up_of → (z.objects a).children ≡ (s.objects a).children ++ this ∷ []
  grown a nonzero up =
      subst (λ q. (z.objects q).children ≡ (s.objects q).children ++ this ∷ []) (sym up)
        (j.siblings (λ none. nonzero (up ∙ none)))

  still_child :
      (a c : Ptr)
      → s.src_data.has a ≡ true
      → elem c (s.objects a).children ≡ true
      → elem c (z.objects a).children ≡ true
  still_child a c known inside =
      let nonzero : a ≢ 0 = known-nonzero s.src_data.has s.objects o.forest a known in
      elim (Bool-cases (a == up_of)) [
        | inl e ↦
            rw (grown a nonzero (==→eq a up_of e))
              (elem_left c (s.objects a).children (this ∷ []) inside)
        | inr e ↦ rw (j.others a nonzero (==→ne a up_of e)) inside
      ]

  new_child :
      (c : Ptr)
      → s.src_data.has up_of ≡ true
      → c ≡ this
      → (z.src_data.has c ≡ true) × ((z.objects c).parent ≡ up_of) × (depth up_of < depth c)
  new_child c known same =
      subst
        (λ q. (z.src_data.has q ≡ true) × ((z.objects q).parent ≡ up_of) × (depth up_of < depth q))
        (sym same)
        (
          this_known,
          j.parent this,
          omega (
            arith,
            old_depth up_of known,
            this_depth (known-nonzero s.src_data.has s.objects o.forest up_of known),
          ),
        )

  known_child :
      (a c : Ptr)
      → s.src_data.has a ≡ true
      → elem c (z.objects a).children ≡ true
      → (z.src_data.has c ≡ true) × ((z.objects c).parent ≡ a) × (depth a < depth c)
  known_child a c known inside =
      let nonzero : a ≢ 0 = known-nonzero s.src_data.has s.objects o.forest a known in
      elim (Bool-cases (a == up_of)) [
        | inl e ↦
            let up : a ≡ up_of = ==→eq a up_of e in
            elim (elem-append c (s.objects a).children (this ∷ [])
              (rw (grown a nonzero up) at inside)) [
                | inl old ↦ old_child a c known old
                | inr new ↦ elim (elem-cases c this [] new) [
                  | inl same ↦
                      subst
                        (λ q.
                          (z.src_data.has c ≡ true)
                          × ((z.objects c).parent ≡ q)
                          × (depth q < depth c))
                        (sym up) (new_child c (subst (λ q. s.src_data.has q ≡ true) up known) same)
                  | inr nothing ↦ let no : false ≡ true = nothing in cc
                ]
              ]
        | inr e ↦ old_child a c known (rw (j.others a nonzero (==→ne a up_of e)) at inside)
      ]

  child_now :
      (a c : Ptr)
      → z.src_data.has a ≡ true
      → elem c (z.objects a).children ≡ true
      → (z.src_data.has c ≡ true) × ((z.objects c).parent ≡ a) × (depth a < depth c)
  child_now a c known inside = elim (Bool-cases (this == a)) [
    | inl e ↦
        let none : (z.objects a).children ≡ [] =
          subst (λ q. (z.objects q).children ≡ []) (==→eq this a e) this_childless in
        let no : false ≡ true = rw none at inside in cc
    | inr e ↦ known_child a c (known_before a known e) inside
  ]

  abbrev Listed : Ptr → Ptr → Type 0
  Listed c p = (z.src_data.has p ≡ true) × (elem c (z.objects p).children ≡ true)

  this_among : up_of ≢ 0 → Listed this up_of
  this_among some_parent = (
    known_now up_of (n.above some_parent),
    (rw (j.siblings some_parent)
        (elem_right this (s.objects up_of).children (this ∷ []) (elem-head this []))),
  )

  old_among :
      (c : Ptr) → s.src_data.has c ≡ true → (s.objects c).parent ≢ 0 → Listed c (s.objects c).parent
  old_among c known some_parent =
      let (above, inside) = o.forest.up c known some_parent in
      (known_now (s.objects c).parent above, still_child (s.objects c).parent c above inside)

  up_now :
      (c : Ptr)
      → z.src_data.has c ≡ true
      → (z.objects c).parent ≢ 0
      → (z.src_data.has (z.objects c).parent ≡ true)
        × (elem c (z.objects (z.objects c).parent).children ≡ true)
  up_now c known given =
      let some_parent : (s.objects c).parent ≢ 0 = λ none. given (j.parent c ∙ none) in
      rw (j.parent c) (elim (Bool-cases (this == c)) [
        | inl e ↦
            subst (λ q. Listed q (s.objects q).parent) (==→eq this c e)
              (this_among
                (λ none. some_parent (subst (λ q. (s.objects q).parent ≡ 0) (==→eq this c e) none)))
        | inr e ↦ old_among c (known_before c known e) some_parent
      ])

  not_child : (a : Ptr) → s.src_data.has a ≡ true → elem this (s.objects a).children ≡ false
  not_child a known = elim (Bool-cases (elem this (s.objects a).children)) [
    | inl e ↦ let no : true ≡ false = sym (o.forest.child a this known e).0 ∙ n.unknown in cc
    | inr e ↦ e
  ]

  distinct_now : (a : Ptr) → z.src_data.has a ≡ true → Once (z.objects a).children
  distinct_now a known = elim (Bool-cases (this == a)) [
    | inl e ↦ subst (λ q. Once (z.objects q).children) (==→eq this a e) (rw this_childless tt)
    | inr e ↦
        let held : s.src_data.has a ≡ true = known_before a known e in
        let nonzero : a ≢ 0 = known-nonzero s.src_data.has s.objects o.forest a held in
        elim (Bool-cases (a == up_of)) [
          | inl q ↦
              rw (grown a nonzero (==→eq a up_of q))
                (Once-append this (s.objects a).children (o.forest.once a held) (not_child a held))
          | inr q ↦ rw (j.others a nonzero (==→ne a up_of q)) (o.forest.once a held)
        ]
  ]

  pub joined-IsForest : IsForest z.src_data.has z.objects
  joined-IsForest = record {
    depth = depth;
    height = suc o.forest.height;
    below = below_now;
    child = child_now;
    up = up_now;
    once = distinct_now;
    null =
        j.has 0 ∙ written_there s.src_data.has this 0 true (ne→== this 0 n.nonzero) ∙ o.forest.null;
  }
