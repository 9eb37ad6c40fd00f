-- ===== src/Log/Life/Grown.antt =====
-- What a module of src/panda/log/log.cc that gets its entry leaves to those that have theirs and to
-- those that wait.
use panda_lib.Base.{◌≡◌, refl, ap, ◌∙◌, true, List, elem, inl, inr, ◌⊎◌}
use panda_lib.Refcnt.{Ptr}
use panda_lib.Log.{Instance}
use panda_lib.Log.Sound.{IsSound}
use panda_lib.Log.Life.Adopt.{IsNew, IsJoined, known_now, this_known, not_this}

-- Every module that has an entry keeps it, all keep their parents, and each that waits has an entry
-- then or goes on waiting.
pub record Grown (s u : Instance) : Type 0 where
  pub known : (a : Ptr) → s.src_data.has a ≡ true → u.src_data.has a ≡ true
  pub entries : (a : Ptr) → s.src_data.has a ≡ true → u.src_data.entry a ≡ s.src_data.entry a
  pub parents : (a : Ptr) → (u.objects a).parent ≡ (s.objects a).parent
  pub waiting :
      (a : Ptr)
      → elem a s.wait_list ≡ true
      → (u.src_data.has a ≡ true) ⊎ (elem a u.wait_list ≡ true)

pub Grown-same : (s : Instance) → Grown s s
Grown-same s = record {
  known = λ a known. known;
  entries = λ a known. refl;
  parents = λ a. refl;
  waiting = λ a inside. inr inside;
}

pub Grown-trans : (s t u : Instance) → Grown s t → Grown t u → Grown s u
Grown-trans s t u f g = record {
  known = λ a known. g.known a (f.known a known);
  entries = λ a known. g.entries a (f.known a known) ∙ f.entries a known;
  parents = λ a. g.parents a ∙ f.parents a;
  waiting = λ a inside. elim (f.waiting a inside) [
    | inl known ↦ inl (g.known a known)
    | inr more ↦ g.waiting a more
  ];
}

-- A module that joins, with the modules that wait after it.
pub joined-Grown :
    (this : Ptr) (s z : Instance) (ms : List Ptr)
    → IsSound s
    → IsNew this s
    → IsJoined this s z
    → ((a : Ptr) → elem a s.wait_list ≡ true → (a ≡ this) ⊎ (elem a ms ≡ true))
    → Grown s (record z { wait_list = ms })
joined-Grown this s z ms o n j split = record {
  known = known_now this s z o n j;
  entries = λ a known. j.entry a (not_this this s z o n j a known);
  parents = j.parent;
  waiting = λ a inside. elim (split a inside) [
    | inl same ↦ inl (ap z.src_data.has same ∙ this_known this s z o n j)
    | inr more ↦ inr more
  ];
}
