-- ===== src/Log/Coherent.antt =====
-- The effective loggers and formatters of src/panda/log/log.cc: each is the one that the module has, or
-- else that of its parent; and what the end of the setters makes of this.
use panda_lib.Base.{
  ℕ, suc, ◌+◌, ◌≤◌, ◌<◌, ◌≡◌, ◌≢◌, refl, sym, ap, ap₂, ◌∙◌, subst, Bool, true, false, Bool-cases,
  List, [], ◌∷◌, ◌==◌, ne→==, elem, elem-head, inl, inr, if◌then◌else◌, arith,
}
use panda_lib.Refcnt.{Ptr}
use panda_lib.Log.{
  Module, ModuleData, Instance, returned, and_then, Slot, logging, formatting, effective, own,
  with_effective, get_synced_data, settle,
}
use panda_lib.Log.Walk.{IsForest, each, known-nonzero, parent_lower}
use panda_lib.Log.Settle.{
  mark, marked, remark, effective-remark, own-remark, targets, targets_up, targets_down,
  set_children, empty,
}

abbrev pub or_else : Ptr → Ptr → Ptr
or_else p q = if p == 0 then q else p

abbrev pub inherited : Slot → (Ptr → ModuleData) → Ptr → Ptr
inherited k entry p = if p == 0 then 0 else effective k (entry p)

abbrev pub Agrees : Slot → (Ptr → Module) → (Ptr → ModuleData) → Ptr → Type 0
Agrees k objects entry a =
    effective k (entry a) ≡ or_else (own k (entry a)) (inherited k entry (objects a).parent)

abbrev pub other : Slot → Slot
other logging = formatting
other formatting = logging

-- Entries of which only effective values of one kind differ.
pub record IsSettled (k : Slot) (before after : Ptr → ModuleData) : Type 0 where
  pub owns : (a : Ptr) → own k (after a) ≡ own k (before a)
  pub other_owns : (a : Ptr) → own (other k) (after a) ≡ own (other k) (before a)
  pub others : (a : Ptr) → effective (other k) (after a) ≡ effective (other k) (before a)

abbrev pub with_entries : (Ptr → ModuleData) → Instance → Instance
with_entries e s = record s { src_data = record s.src_data { entry = e } }

other-remark :
    (b : Bool) (k : Slot) (l : Ptr) (d : ModuleData)
    → (own (other k) (remark b k l d) ≡ own (other k) d)
      × (effective (other k) (remark b k l d) ≡ effective (other k) d)
unfolding with_effective own effective
other-remark true logging l d = (refl, refl)
other-remark true formatting l d = (refl, refl)
other-remark false k l d = (refl, refl)

marks_rest :
    (k : Slot) (l : Ptr) (ms : List Ptr) (s : Instance)
    → each (mark k l) ms s ≡ with_entries (each (mark k l) ms s).src_data.entry s
marks_rest k l [] s = refl
marks_rest k l (m ∷ ms) s = marks_rest k l ms (mark k l m s)

module _ (k : Slot) (l : Ptr) (s : Instance) (w : IsForest s.src_data.has s.objects) (fuel : ℕ)
    (this : Ptr) (here : s.src_data.has this ≡ true)
    (enough : w.height ≤ w.depth this + suc fuel) where
  abbrev entries : Ptr → ModuleData
  entries = (each (mark k l) (targets k l s w fuel this) s).src_data.entry

  abbrev targeted : Ptr → Bool
  targeted a = elem a (targets k l s w fuel this)

  effective_now :
      (a : Ptr)
      → effective k (entries a) ≡ (if targeted a then l else effective k (s.src_data.entry a))
  effective_now a =
      ap (effective k) (marked k l (targets k l s w fuel this) s a)
      ∙ effective-remark (targeted a) k l (s.src_data.entry a)

  own_now : (a : Ptr) → own k (entries a) ≡ own k (s.src_data.entry a)
  own_now a =
      ap (own k) (marked k l (targets k l s w fuel this) s a)
      ∙ own-remark (targeted a) k l (s.src_data.entry a)

  settled : IsSettled k s.src_data.entry entries
  settled = record {
    owns = own_now;
    other_owns = λ a.
        ap (own (other k)) (marked k l (targets k l s w fuel this) s a)
        ∙ (other-remark (targeted a) k l (s.src_data.entry a)).0;
    others = λ a.
        ap (effective (other k)) (marked k l (targets k l s w fuel this) s a)
        ∙ (other-remark (targeted a) k l (s.src_data.entry a)).1;
  }

  inherited_now :
      (p : Ptr)
      → (p ≢ 0 → targeted p ≡ false)
      → inherited k entries p ≡ inherited k s.src_data.entry p
  inherited_now p out = elim (Bool-cases (p == 0)) [
    | inl e ↦ rw e refl
    | inr e ↦
        let plain : targeted p ≡ false =
          out (λ z. let no : true ≡ false = sym (ap (λ q. q == 0) z) ∙ e in cc) in
        rw e (effective_now p ∙ ap (λ b. if b then l else effective k (s.src_data.entry p)) plain)
  ]

  module _
      (from : l
        ≡ or_else
            (own k (s.src_data.entry this))
            (inherited k s.src_data.entry (s.objects this).parent))
      (rest : (a : Ptr)
        → s.src_data.has a ≡ true
        → a ≢ this
        → Agrees k s.objects s.src_data.entry a) where
    agree_at :
        (a : Ptr) (v i : Ptr)
        → effective k (entries a) ≡ v
        → inherited k entries (s.objects a).parent ≡ i
        → v ≡ or_else (own k (s.src_data.entry a)) i
        → Agrees k s.objects entries a
    agree_at a v i e f g = e ∙ g ∙ sym (ap₂ or_else (own_now a) f)

    above_out : (s.objects this).parent ≢ 0 → targeted (s.objects this).parent ≡ false
    above_out some_parent = elim (Bool-cases (targeted (s.objects this).parent)) [
      | inl e ↦
          let lower : w.depth (s.objects this).parent < w.depth this =
            (parent_lower s.src_data.has s.objects w this here some_parent).1 in
          let under : w.depth this ≤ w.depth (s.objects this).parent =
            (targets_up k l s w fuel this here enough (s.objects this).parent e).1 in
          absurd (omega (arith, lower, under))
      | inr e ↦ e
    ]

    agree_top : Agrees k s.objects entries this
    agree_top =
        agree_at this l (inherited k s.src_data.entry (s.objects this).parent)
          (effective_now this
            ∙ ap (λ b. if b then l else effective k (s.src_data.entry this)) (elem-head this _))
          (inherited_now (s.objects this).parent above_out) from

    agree_target :
        (a : Ptr)
        → targeted a ≡ true
        → empty k l s w a ≡ true
        → targeted (s.objects a).parent ≡ true
        → Agrees k s.objects entries a
    agree_target a inside e above =
        let held : s.src_data.has (s.objects a).parent ≡ true =
          (targets_up k l s w fuel this here enough (s.objects a).parent above).0 in
        let some_parent : ((s.objects a).parent == 0) ≡ false =
          ne→== (s.objects a).parent 0
            (known-nonzero s.src_data.has s.objects w (s.objects a).parent held) in
        agree_at a l l
          (effective_now a ∙ ap (λ b. if b then l else effective k (s.src_data.entry a)) inside)
          (rw some_parent (
            effective_now (s.objects a).parent
            ∙ ap (λ b. if b then l else effective k (s.src_data.entry (s.objects a).parent)) above))
          (rw e refl)

    agree_rest :
        (a : Ptr)
        → s.src_data.has a ≡ true
        → targeted a ≡ false
        → Agrees k s.objects s.src_data.entry a
        → Agrees k s.objects entries a
    agree_rest a known out before =
        let kept : effective k (entries a) ≡ effective k (s.src_data.entry a) =
          effective_now a ∙ ap (λ b. if b then l else effective k (s.src_data.entry a)) out in
        elim (Bool-cases (empty k l s w a)) [
          | inl e ↦
              agree_at a (effective k (s.src_data.entry a))
                (inherited k s.src_data.entry (s.objects a).parent) kept
                (inherited_now (s.objects a).parent (λ some_parent.
                  elim (Bool-cases (targeted (s.objects a).parent)) [
                    | inl q ↦
                        let found : targeted a ≡ true =
                          targets_down k l s w fuel this here enough a known some_parent q e in
                        let no : true ≡ false = sym found ∙ out in cc
                    | inr q ↦ q
                  ]))
                before
          | inr e ↦
              agree_at a (effective k (s.src_data.entry a))
                (inherited k entries (s.objects a).parent) kept refl (before ∙ (rw e refl))
        ]

    agree : (a : Ptr) → s.src_data.has a ≡ true → Agrees k s.objects entries a
    agree a known = elim (Bool-cases (targeted a)) [
      | inl e ↦
          let (held, under, up) = targets_up k l s w fuel this here enough a e in
          elim up [
            | inl same ↦ subst (λ z. Agrees k s.objects entries z) (sym same) agree_top
            | inr more ↦ agree_target a e more.0 more.1
          ]
      | inr e ↦ agree_rest a known e (
          rest a known (λ same.
            let found : targeted a ≡ true =
              subst (λ z. targeted z ≡ true) (sym same) (elem-head this _) in
            let no : true ≡ false = sym found ∙ e in cc))
    ]

    -- The end of the setters returns, and leaves every module with the value that it has or else that
    -- of its parent.
    pub settle-Agrees :
        (e : Ptr → ModuleData) × (settle k fuel l this s
          ≡ returned (get_synced_data (with_entries e s)))
        × IsSettled k s.src_data.entry e
        × ((a : Ptr) → s.src_data.has a ≡ true → Agrees k s.objects e a)
    unfolding settle and_then
    settle-Agrees = (
      entries,
      ap (and_then (λ t. returned (get_synced_data t))) (
          set_children k l s w fuel this here enough
          ∙ ap returned (marks_rest k l (targets k l s w fuel this) s)),
      settled,
      agree,
    )
