-- ===== src/Log/Sound.antt =====
-- What the operations of src/panda/log/log.cc keep of the modules, and what this is for: an effective
-- logger is that of the nearest module up the tree that has one, and no module is without a formatter.
use panda_lib.Base.{
  ℕ, zero, suc, ◌<◌, ◌≡◌, ◌≢◌, refl, sym, ◌∙◌, subst, true, Bool-cases, ◌==◌, ==→eq, ==→ne, inl,
  inr, arith,
}
use panda_lib.Refcnt.{Ptr}
use panda_lib.Log.{Instance, Slot, formatting, effective, own}
use panda_lib.Log.Walk.{IsForest, parent_lower}
use panda_lib.Log.Coherent.{Agrees}

-- The modules with an entry form a forest, each agrees with its parent, and one without a parent has a
-- formatter of its own.
pub record IsSound (s : Instance) : Type 0 where
  pub forest : IsForest s.src_data.has s.objects
  pub agree : (k : Slot) (a : Ptr) → s.src_data.has a ≡ true → Agrees k s.objects s.src_data.entry a
  pub roots :
      (a : Ptr)
      → s.src_data.has a ≡ true
      → (s.objects a).parent ≡ 0
      → own formatting (s.src_data.entry a) ≢ 0

-- The value of the first module that has one, from a module on up to the root; 0 where none has.
pub data Nearest (k : Slot) (s : Instance) : Ptr → Ptr → Type 0 where
  found : (a : Ptr) → own k (s.src_data.entry a) ≢ 0 → Nearest k s a (own k (s.src_data.entry a))
  none_up : (a : Ptr) → own k (s.src_data.entry a) ≡ 0 → (s.objects a).parent ≡ 0 → Nearest k s a 0
  further :
      (a l : Ptr)
      → own k (s.src_data.entry a) ≡ 0
      → (s.objects a).parent ≢ 0
      → Nearest k s (s.objects a).parent l
      → Nearest k s a l

nearest_in :
    (n : ℕ) (k : Slot) (s : Instance) (o : IsSound s) (a : Ptr)
    → s.src_data.has a ≡ true
    → o.forest.depth a < n
    → Nearest k s a (effective k (s.src_data.entry a))
nearest_in zero k s o a known small = absurd (omega arith)
nearest_in (suc n) k s o a known small = elim (Bool-cases (own k (s.src_data.entry a) == 0)) [
  | inl e ↦ elim (Bool-cases ((s.objects a).parent == 0)) [
    | inl q ↦
        subst (Nearest k s a) (sym (o.agree k a known ∙ (rw (e, q) refl)))
          (none_up a (==→eq _ 0 e) (==→eq _ 0 q))
    | inr q ↦
        let some_parent : (s.objects a).parent ≢ 0 = ==→ne _ 0 q in
        let (above, lower) = parent_lower s.src_data.has s.objects o.forest a known some_parent in
        subst (Nearest k s a) (sym (o.agree k a known ∙ (rw (e, q) refl))) (
          further a (effective k (s.src_data.entry (s.objects a).parent)) (==→eq _ 0 e) some_parent
            (nearest_in n k s o (s.objects a).parent above (omega arith)))
  ]
  | inr e ↦ subst (Nearest k s a) (sym (o.agree k a known ∙ (rw e refl))) (found a (==→ne _ 0 e))
]

-- On sound modules the effective logger or formatter of a module that has an entry is that of the
-- nearest module up the tree that has one of its own, or null where none has.
pub effective-Nearest :
    (k : Slot) (s : Instance) (a : Ptr)
    → IsSound s
    → s.src_data.has a ≡ true
    → Nearest k s a (effective k (s.src_data.entry a))
effective-Nearest k s a o known = nearest_in (suc (o.forest.depth a)) k s o a known (omega arith)

-- A found formatter is not null.
nearest_formatter :
    (s : Instance) (a f : Ptr)
    → IsSound s
    → s.src_data.has a ≡ true
    → Nearest formatting s a f
    → f ≢ 0
nearest_formatter s _ _ o known (found a some) = some
nearest_formatter s _ _ o known (none_up a none root) = absurd (o.roots a known root none)
nearest_formatter s _ _ o known (further a l none some_parent up) =
    nearest_formatter s (s.objects a).parent l o (o.forest.up a known some_parent).0 up

-- Every module has an effective formatter.
pub formatter-nonzero :
    (s : Instance) (a : Ptr)
    → IsSound s
    → s.src_data.has a ≡ true
    → effective formatting (s.src_data.entry a) ≢ 0
formatter-nonzero s a o known =
    nearest_formatter s a (effective formatting (s.src_data.entry a)) o known
      (effective-Nearest formatting s a o known)
