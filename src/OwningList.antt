-- ===== src/OwningList.antt =====
-- src/panda/owning_list.h: a list whose iterators keep their nodes.
-- The list and all nodes that were ever made, by their address. Nodes that nobody points to stay in
-- the model; their counting is src/panda/refcnt.h's.
pub mod Laws
pub mod Loops
mod Examples
use panda_lib.Base.{
  ℕ, zero, suc, ◌+◌, ◌-◌, ◌%◌, ◌^◌, Bool, true, false, not, ◌||◌, Option, none, some, List, [], ◌∷◌,
  ◌==◌, if◌then◌else◌,
}
use panda_lib.Links.Seg.{Ptr, Field, write}

-- `_size` is a `size_t` and wraps.
pub record OwningList {ℓ} (A : Type ℓ) : Type ℓ where
  pub value : Ptr → A
  pub valid : Ptr → Bool
  pub next : Field
  pub prev : Field
  pub size : ℕ
  pub first : Ptr
  pub last : Ptr

module _ {ℓ} {A : Type ℓ} where
  -- The constructor of `node_t`.
  pub new_node : Ptr → A → OwningList A → OwningList A
  new_node n v l = record l {
    value = λ a. if n == a then v else l.value a;
    valid = λ a. if n == a then true else l.valid a;
    next = write l.next n 0;
    prev = write l.prev n 0;
  }

  link_back : Ptr → OwningList A → OwningList A
  link_back n l =
      if l.last == 0
      then record l { first = n; last = n; size = (l.size + 1) % 2 ^ 64 }
      else record l {
        prev = write l.prev n l.last;
        next = write l.next l.last n;
        last = n;
        size = (l.size + 1) % 2 ^ 64;
      }

  link_front : Ptr → OwningList A → OwningList A
  link_front n l =
      if l.first == 0
      then record l { first = n; last = n; size = (l.size + 1) % 2 ^ 64 }
      else record l {
        next = write l.next n l.first;
        prev = write l.prev l.first n;
        first = n;
        size = (l.size + 1) % 2 ^ 64;
      }

  pub push_back : Ptr → A → OwningList A → OwningList A
  unfolding new_node link_back
  push_back n v l = link_back n (new_node n v l)

  pub push_front : Ptr → A → OwningList A → OwningList A
  unfolding new_node link_front
  push_front n v l = link_front n (new_node n v l)

  unlink_prev : Ptr → OwningList A → OwningList A
  unlink_prev n l =
      if l.prev n == 0
      then record l { first = l.next n }
      else record l { next = write l.next (l.prev n) (l.next n) }

  unlink_next : Ptr → OwningList A → OwningList A
  unlink_next n l =
      if l.next n == 0
      then record l { last = l.prev n }
      else record l { prev = write l.prev (l.next n) (l.prev n) }

  pub remove_node : Ptr → OwningList A → OwningList A
  unfolding unlink_prev unlink_next
  remove_node n l =
      let l1 = record l { valid = λ a. if n == a then false else l.valid a } in
      let l2 = unlink_next n (unlink_prev n l1) in
      record l2 { size = (l2.size + 2 ^ 64 - 1) % 2 ^ 64 }

  -- The loop of `next_strategy`; `none` where the fuel runs out.
  pub skip_invalid : ℕ → OwningList A → Ptr → Option Ptr
  skip_invalid zero l n = none
  skip_invalid (suc fuel) l n =
      let rest = skip_invalid fuel l (l.next n) in if n == 0 || l.valid n then some n else rest

  pub next_strategy : ℕ → OwningList A → Ptr → Option Ptr
  unfolding skip_invalid
  next_strategy fuel l n = skip_invalid fuel l (l.next n)

  -- The loop of `clear`, over the rounds left.
  invalidate : ℕ → ℕ → Ptr → OwningList A → Option (OwningList A)
  invalidate zero fuel n l = none
  invalidate (suc rounds) fuel n l =
      let l1 = record l { valid = λ a. if n == a then false else l.valid a } in
      let rest : Option (OwningList A) = elim (next_strategy fuel l1 n) [
        | none ↦ none
        | some m ↦ invalidate rounds fuel m l1
      ] in
      if n == 0 then some l else rest

  emptied : Option (OwningList A) → Option (OwningList A)
  emptied none = none
  emptied (some m) = some (record m { first = 0; last = 0; size = 0 })

  pub clear : ℕ → OwningList A → Option (OwningList A)
  unfolding invalidate next_strategy emptied
  clear fuel l = emptied (invalidate fuel fuel l.first l)

  -- The loop of `remove`, with the comparison of values.
  remove_loop : (A → A → Bool) → ℕ → A → Ptr → OwningList A → Option (OwningList A)
  remove_loop eq zero v n l = none
  remove_loop eq (suc fuel) v n l =
      let rest = remove_loop eq fuel v (l.next n) l in
      if n == 0 then some l else if eq (l.value n) v then some (remove_node n l) else rest

  pub remove : (A → A → Bool) → ℕ → A → OwningList A → Option (OwningList A)
  unfolding remove_loop
  remove eq fuel v l = remove_loop eq fuel v l.first l
