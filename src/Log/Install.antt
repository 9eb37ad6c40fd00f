-- ===== src/Log/Install.antt =====
-- What the setters of src/panda/log/log.cc leave, for both kinds of value: the end of each of them on
-- entries in which the value of the module is set.
use panda_lib.Base.{
  ℕ, suc, ◌+◌, ◌%◌, ◌^◌, ◌≤◌, ◌≡◌, ◌≢◌, refl, sym, ap, ap₂, ◌∙◌, subst, fun_ext, true, Bool-cases,
  ◌==◌, ==→eq, ==_refl, ne→==, ==→ne, inl, inr, ◌⊎◌, if◌then◌else◌,
}
use panda_lib.Refcnt.{Ptr, write}
use panda_lib.Log.{
  Module, ModuleData, Instance, returned, Slot, logging, formatting, effective, own, with_own, put,
  next_rev, get_synced_data, settle,
}
use panda_lib.Log.Coherent.{
  Agrees, inherited, or_else, other, IsSettled, with_entries, settle-Agrees,
}
use panda_lib.Log.Sound.{IsSound}

-- The module has the value of this kind; the others keep theirs, and all those of the other kind; all
-- keep their entries and parents; the data of the thread is the main data.
pub record IsInstalled (k : Slot) (l this : Ptr) (s u : Instance) : Type 0 where
  pub given : own k (u.src_data.entry this) ≡ l
  pub kept : (a : Ptr) → a ≢ this → own k (u.src_data.entry a) ≡ own k (s.src_data.entry a)
  pub others : (a : Ptr) → own (other k) (u.src_data.entry a) ≡ own (other k) (s.src_data.entry a)
  pub known : (a : Ptr) → u.src_data.has a ≡ s.src_data.has a
  pub parents : (a : Ptr) → (u.objects a).parent ≡ (s.objects a).parent
  pub synced : u.thread_data ≡ u.src_data

pub own-with_own : (k : Slot) (l : Ptr) (d : ModuleData) → own k (with_own k l d) ≡ l
unfolding own with_own
own-with_own logging l d = refl
own-with_own formatting l d = refl

pub own_other-with_own :
    (k : Slot) (l : Ptr) (d : ModuleData) → own (other k) (with_own k l d) ≡ own (other k) d
unfolding own with_own
own_other-with_own logging l d = refl
own_other-with_own formatting l d = refl

effective-with_own :
    (k j : Slot) (l : Ptr) (d : ModuleData) → effective j (with_own k l d) ≡ effective j d
unfolding effective with_own
effective-with_own logging logging l d = refl
effective-with_own logging formatting l d = refl
effective-with_own formatting logging l d = refl
effective-with_own formatting formatting l d = refl

with_own_twice :
    (k : Slot) (l v : Ptr) (d : ModuleData) → with_own k v (with_own k l d) ≡ with_own k v d
unfolding with_own
with_own_twice logging l v d = refl
with_own_twice formatting l v d = refl

slot-cases : (k j : Slot) → (j ≡ k) ⊎ (j ≡ other k)
slot-cases logging logging = inl refl
slot-cases logging formatting = inr refl
slot-cases formatting logging = inr refl
slot-cases formatting formatting = inl refl

-- A change that keeps what a field of the entry says keeps it at all modules.
written-keeps :
    (f : ModuleData → Ptr) (entry : Ptr → ModuleData) (this : Ptr) (d : ModuleData)
    → f d ≡ f (entry this)
    → (a : Ptr) → f (write entry this d a) ≡ f (entry a)
written-keeps f entry this d same a = elim (Bool-cases (this == a)) [
  | inl e ↦ rw e (same ∙ ap (λ z. f (entry z)) (==→eq this a e))
  | inr e ↦ rw e refl
]

Agrees-same :
    (k : Slot) (objects : Ptr → Module) (x y : Ptr → ModuleData)
    → ((a : Ptr) → effective k (y a) ≡ effective k (x a))
    → ((a : Ptr) → own k (y a) ≡ own k (x a))
    → (a : Ptr) → Agrees k objects x a
    → Agrees k objects y a
Agrees-same k objects x y eff owns a h =
    eff a
    ∙ h
    ∙ sym (
        ap₂ or_else (owns a)
          (ap (λ z. if (objects a).parent == 0 then 0 else z) (eff (objects a).parent)))

module _ (k : Slot) (l this : Ptr) (s : Instance) where
  abbrev pub owning : Instance
  owning = put this (with_own k l (s.src_data.entry this)) (next_rev s)

  pub own_here : own k (owning.src_data.entry this) ≡ l
  own_here = rw (==_refl this) (own-with_own k l (s.src_data.entry this))

  entry_there : (a : Ptr) → a ≢ this → owning.src_data.entry a ≡ s.src_data.entry a
  entry_there a differs = rw (ne→== this a (λ e. differs (sym e))) refl

  pub own_other :
      (a : Ptr) → own (other k) (owning.src_data.entry a) ≡ own (other k) (s.src_data.entry a)
  own_other =
      written-keeps (own (other k)) s.src_data.entry this (with_own k l (s.src_data.entry this))
        (own_other-with_own k l (s.src_data.entry this))

  pub effective_same :
      (j : Slot) (a : Ptr)
      → effective j (owning.src_data.entry a) ≡ effective j (s.src_data.entry a)
  effective_same j =
      written-keeps (effective j) s.src_data.entry this (with_own k l (s.src_data.entry this))
        (effective-with_own k j l (s.src_data.entry this))

  abbrev pub installed : (Ptr → ModuleData) → Instance
  installed e = record owning {
    src_data = record owning.src_data { entry = e };
    thread_data = record owning.src_data { entry = e };
  }

  module _ (o : IsSound s) (stale : s.thread_data.rev ≢ (s.src_data.rev + 1) % 2 ^ 64) (fuel v : ℕ)
      (here : s.src_data.has this ≡ true)
      (enough : o.forest.height ≤ o.forest.depth this + suc fuel)
      (from : v ≡ or_else l (inherited k s.src_data.entry (s.objects this).parent))
      (rooted : (s.objects this).parent ≡ 0 → own formatting (owning.src_data.entry this) ≢ 0) where
    synced_after : (e : Ptr → ModuleData) → get_synced_data (with_entries e owning) ≡ installed e
    unfolding get_synced_data
    synced_after e = rw (ne→== s.thread_data.rev ((s.src_data.rev + 1) % 2 ^ 64) stale) refl

    own_formatting :
        (e : Ptr → ModuleData)
        → IsSettled k owning.src_data.entry e
        → (a : Ptr) → own formatting (e a) ≡ own formatting (owning.src_data.entry a)
    own_formatting e settled a = elim (slot-cases k formatting) [
      | inl same ↦
          subst (λ z. own z (e a) ≡ own z (owning.src_data.entry a)) (sym same) (settled.owns a)
      | inr differs ↦
          subst (λ z. own z (e a) ≡ own z (owning.src_data.entry a)) (sym differs)
            (settled.other_owns a)
    ]

    installed-IsSound :
        (e : Ptr → ModuleData)
        → IsSettled k owning.src_data.entry e
        → ((a : Ptr) → s.src_data.has a ≡ true → Agrees k s.objects e a)
        → IsSound (installed e)
    installed-IsSound e settled agree = record {
      forest = o.forest;
      agree = λ j a known. elim (slot-cases k j) [
        | inl same ↦ subst (λ z. Agrees z s.objects e a) (sym same) (agree a known)
        | inr differs ↦
            subst (λ z. Agrees z s.objects e a) (sym differs)
              (Agrees-same (other k) s.objects s.src_data.entry e
                (λ b. settled.others b ∙ effective_same (other k) b)
                (λ b. settled.other_owns b ∙ own_other b) a (o.agree (other k) a known))
      ];
      roots = λ a known root. elim (Bool-cases (this == a)) [
        | inl z ↦
            subst (λ b. own formatting (e b) ≢ 0) (==→eq this a z)
              (λ none.
                rooted (subst (λ b. (s.objects b).parent ≡ 0) (sym (==→eq this a z)) root)
                  (sym (own_formatting e settled this) ∙ none))
        | inr z ↦ λ none. o.roots a known root (
            ap (own formatting) (sym (entry_there a (λ same. ==→ne this a z (sym same))))
            ∙ sym (own_formatting e settled a)
            ∙ none)
      ];
    }

    installed-IsInstalled :
        (e : Ptr → ModuleData)
        → IsSettled k owning.src_data.entry e
        → IsInstalled k l this s (installed e)
    installed-IsInstalled e settled = record {
      given = settled.owns this ∙ own_here;
      kept = λ a differs. settled.owns a ∙ ap (own k) (entry_there a differs);
      others = λ a. settled.other_owns a ∙ own_other a;
      known = λ a. refl;
      parents = λ a. refl;
      synced = refl;
    }

    pub settle-IsInstalled :
        (e : Ptr → ModuleData) × (settle k fuel v this owning ≡ returned (installed e))
        × IsSound (installed e)
        × IsInstalled k l this s (installed e)
    settle-IsInstalled =
        let same_above : (a : Ptr)
            → inherited k s.src_data.entry (s.objects a).parent
              ≡ inherited k owning.src_data.entry (s.objects a).parent =
          λ a.
            ap (λ z. if (s.objects a).parent == 0 then 0 else z)
              (sym (effective_same k (s.objects a).parent)) in
        let (e, run, settled, agree) =
          settle-Agrees k v owning o.forest fuel this here enough
            (from ∙ ap₂ or_else (sym own_here) (same_above this))
            (λ a known differs.
              effective_same k a
              ∙ o.agree k a known
              ∙ ap₂ or_else (ap (own k) (sym (entry_there a differs))) (same_above a)) in
        (
          e,
          run ∙ ap returned (synced_after e),
          installed-IsSound e settled agree,
          installed-IsInstalled e settled,
        )

pub owning_twice :
    (k : Slot) (l v this : Ptr) (s : Instance)
    → put this (with_own k v ((owning k l this s).src_data.entry this)) (owning k l this s)
      ≡ owning k v this s
owning_twice k l v this s =
    ap (λ e. with_entries e (next_rev s))
      (fun_ext (λ a. elim (Bool-cases (this == a)) [
        | inl e ↦ rw (e, ==_refl this) (with_own_twice k l v (s.src_data.entry this))
        | inr e ↦ rw e refl
      ]))
