-- ===== src/Log/Life/Joined.antt =====
-- What `Module::init` of src/panda/log/log.cc leaves is sound.
use panda_lib.Base.{
  ◌≡◌, ◌≢◌, sym, ap, ap₂, ◌∙◌, subst, true, false, Bool-cases, ◌==◌, ==→eq, ==→ne, ne→==, inl, inr,
  if◌then◌else◌,
}
use panda_lib.Refcnt.{Ptr}
use panda_lib.Log.{Instance, Slot, formatting, effective, own}
use panda_lib.Log.Coherent.{Agrees, inherited, or_else}
use panda_lib.Log.Sound.{IsSound}
use panda_lib.Log.Life.Adopt.{IsNew, IsJoined, known_before, this_not_up, joined-IsForest}

module _ (this : Ptr) (s z : Instance) (o : IsSound s) (n : IsNew this s)
    (j : IsJoined this s z) where
  inherited_now :
      (k : Slot) (p : Ptr)
      → this ≢ p
      → inherited k s.src_data.entry p ≡ inherited k z.src_data.entry p
  inherited_now k p differs =
      ap (λ d. if p == 0 then 0 else effective k d) (sym (j.entry p (ne→== this p differs)))

  not_above : (a : Ptr) → s.src_data.has a ≡ true → this ≢ (s.objects a).parent
  not_above a known e = elim (Bool-cases ((s.objects a).parent == 0)) [
    | inl q ↦ n.nonzero (e ∙ ==→eq (s.objects a).parent 0 q)
    | inr q ↦
        let above : s.src_data.has (s.objects a).parent ≡ true =
          (o.forest.up a known (==→ne (s.objects a).parent 0 q)).0 in
        let no : true ≡ false = sym above ∙ ap s.src_data.has (sym e) ∙ n.unknown in cc
  ]

  agree_now : (k : Slot) (a : Ptr) → z.src_data.has a ≡ true → Agrees k z.objects z.src_data.entry a
  agree_now k a known = elim (Bool-cases (this == a)) [
    | inl e ↦
        subst (λ q. Agrees k z.objects z.src_data.entry q) (==→eq this a e)
          (j.here k
            ∙ ap (or_else (own k (z.src_data.entry this))) (
                inherited_now k (s.objects this).parent (this_not_up this s z o n j)
                ∙ ap (inherited k z.src_data.entry) (sym (j.parent this))))
    | inr e ↦
        let held : s.src_data.has a ≡ true = known_before this s z o n j a known e in
        ap (effective k) (j.entry a e)
        ∙ o.agree k a held
        ∙ ap₂ or_else (ap (own k) (sym (j.entry a e))) (
            inherited_now k (s.objects a).parent (not_above a held)
            ∙ ap (inherited k z.src_data.entry) (sym (j.parent a)))
  ]

  pub joined-IsSound : IsSound z
  joined-IsSound = record {
    forest = joined-IsForest this s z o n j;
    agree = agree_now;
    roots = λ a known root. elim (Bool-cases (this == a)) [
      | inl e ↦
          subst (λ q. own formatting (z.src_data.entry q) ≢ 0) (==→eq this a e)
            (j.rooted (
              subst (λ q. (s.objects q).parent ≡ 0) (sym (==→eq this a e))
                (sym (j.parent a) ∙ root)))
      | inr e ↦ λ none.
          o.roots a (known_before this s z o n j a known e) (sym (j.parent a) ∙ root)
            (ap (own formatting) (sym (j.entry a e)) ∙ none)
    ];
  }
