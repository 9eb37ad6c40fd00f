-- ===== src/Refcnt.antt =====
-- src/panda/refcnt.h and src/panda/refcnt.cc: objects that count their references, the pointers that
-- count, and weak pointers. Objects and weak storages are kept by address, 0 is the null pointer, and
-- `none` is an access to an object that was destroyed. The destructor of the derived class is not
-- modelled, and nobody takes a weak pointer to a weak storage. `fresh` is the address that `new`
-- returns.
pub mod Counting
pub mod Invariant
pub mod Strong
pub mod Weak
pub mod Weaken
pub mod Pointers
mod Examples
use panda_lib.Base.{
  ℕ, ◌+◌, ◌-◌, ◌%◌, ◌^◌, Bool, true, false, not, ◌&&◌, Option, none, some, ◌==◌, ltb, if◌then◌else◌,
}

abbrev pub Ptr : Type 0
Ptr = ℕ

abbrev pub write {ℓ} : {A : Type ℓ} → (Ptr → A) → Ptr → A → Ptr → A
write f p x q = if p == q then x else f q

-- The part of `Refcnt` that counts, of all objects of a kind.
pub record Counts : Type 0 where
  pub count : Ptr → ℕ
  pub live : Ptr → Bool

-- A `new` object: its count is 0.
unfoldable pub created : Ptr → Counts → Counts
created fresh c = record { count = write c.count fresh 0; live = write c.live fresh true }

unfoldable pub retain : Ptr → Counts → Option Counts
retain p c =
    if c.live p
    then some (record c { count = write c.count p ((c.count p + 1) % 2 ^ 32) })
    else none

-- `release`, and whether it was the last reference, after which the object is destroyed.
unfoldable pub release : Ptr → Counts → Option (Bool × Counts)
release p c =
    if c.live p
    then (if ltb 1 (c.count p)
        then some (false, record c { count = write c.count p (c.count p - 1) })
        else some (true, record c { live = write c.live p false }))
    else none

-- `_weak` of an object and `valid` of a weak storage.
pub record Store : Type 0 where
  pub objects : Counts
  pub storages : Counts
  pub weak : Ptr → Ptr
  pub valid : Ptr → Bool

-- `iptr` operations on the objects of a store.
retained : Store → Option Counts → Option Store
retained st none = none
retained st (some c) = some (record st { objects = c })

unfoldable pub inc : Ptr → Store → Option Store
unfolding retain retained
inc p st = if p == 0 then some st else retained st (retain p st.objects)

storage_released : Store → Option (Bool × Counts) → Option Store
storage_released st none = none
storage_released st (some (last, c)) = some (record st { storages = c })

-- `~Refcnt`, and after it the destructor of `_weak`.
destroyed : Ptr → Store → Option Store
unfolding release storage_released
destroyed p st =
    if st.weak p == 0
    then some st
    else storage_released (record st { valid = write st.valid (st.weak p) false })
        (release (st.weak p) st.storages)

released : Ptr → Store → Option (Bool × Counts) → Option Store
unfolding destroyed
released p st none = none
released p st (some (false, c)) = some (record st { objects = c })
released p st (some (true, c)) = destroyed p (record st { objects = c })

unfoldable pub dec : Ptr → Store → Option Store
unfolding release released
dec p st = if p == 0 then some st else released p st (release p st.objects)

then_dec : Ptr → Option Store → Option Store
unfolding dec
then_dec p none = none
then_dec p (some st) = dec p st

and_pointer : Ptr → Option Store → Option (Ptr × Store)
and_pointer p none = none
and_pointer p (some st) = some (p, st)

-- `operator= (T*)` of an `iptr` that holds this pointer; the result is what it holds then.
unfoldable pub assign : Ptr → Ptr → Store → Option (Ptr × Store)
unfolding inc then_dec and_pointer
assign held pointer st = and_pointer pointer (then_dec held (inc pointer st))

-- `operator= (iptr<U>&&)`: what this one and the other hold then.
unfoldable pub assign_move : Ptr → Ptr → Store → Option ((Ptr × Ptr) × Store)
unfolding dec
assign_move held other st =
    if held == 0
    then some ((other, 0), st)
    else if held == other
    then some ((held, other), st)
    else elim (dec held st) [ none ↦ none | some g ↦ some ((other, 0), g) ]

unfoldable pub reset : Ptr → Store → Option (Ptr × Store)
unfolding dec and_pointer
reset held st = and_pointer 0 (dec held st)

-- `iptr (T*)` of a new object.
unfoldable pub make_iptr : Ptr → Store → Option (Ptr × Store)
unfolding created inc and_pointer
make_iptr fresh st =
    and_pointer fresh
      (inc fresh (record st { objects = created fresh st.objects; weak = write st.weak fresh 0 }))

pub record WeakIptr : Type 0 where
  pub storage : Ptr
  pub object : Ptr

with_storages : Store → Option Counts → Option Store
with_storages st none = none
with_storages st (some c) = some (record st { storages = c })

-- Move assignment of weak pointers, what the target and the source are then: that of the storages is
-- the one of `iptr`, which exchanges the two, and that of the addresses is a copy.
unfoldable pub assign_weak : WeakIptr → WeakIptr → WeakIptr × WeakIptr
assign_weak v from = (
  record { storage = from.storage; object = from.object },
  record { storage = v.storage; object = from.object },
)

-- A copy of an `iptr` to a weak storage, and the end of one.
unfoldable pub inc_storage : Ptr → Store → Option Store
unfolding retain with_storages
inc_storage s st = if s == 0 then some st else with_storages st (retain s st.storages)

unfoldable pub dec_storage : Ptr → Store → Option Store
unfolding release storage_released
dec_storage s st = if s == 0 then some st else storage_released st (release s st.storages)

-- `get_weak`: the storage of an object, made where there is none, and a reference to it.
unfoldable pub get_weak : Ptr → Ptr → Store → Option (Ptr × Store)
unfolding created retain with_storages inc_storage and_pointer
get_weak fresh p st =
    if not (st.objects.live p)
    then none
    else if st.weak p == 0
    then elim (with_storages
        (record st { weak = write st.weak p fresh; valid = write st.valid fresh true })
        (retain fresh (created fresh st.storages))) [
          | none ↦ none
          | some g ↦ and_pointer fresh (inc_storage fresh g)
        ]
    else and_pointer (st.weak p) (inc_storage (st.weak p) st)

-- `weak_iptr (const iptr<U>&)`
unfoldable pub weaken : Ptr → Ptr → Store → Option (WeakIptr × Store)
unfolding get_weak
weaken fresh p st =
    if p == 0 then some (record { storage = 0; object = 0 }, st) else elim (get_weak fresh p st) [
      | none ↦ none
      | some (s, g) ↦ some (record { storage = s; object = p }, g)
    ]

-- `operator bool` and `expired`
unfoldable pub is_valid : WeakIptr → Store → Option Bool
is_valid w st =
    if w.storage == 0
    then some false
    else if st.storages.live w.storage
    then some (st.valid w.storage)
    else none

lock_if : WeakIptr → Store → Option Bool → Option (Ptr × Store)
unfolding inc and_pointer
lock_if w st none = none
lock_if w st (some false) = some (0, st)
lock_if w st (some true) = and_pointer w.object (inc w.object st)

unfoldable pub lock : WeakIptr → Store → Option (Ptr × Store)
unfolding is_valid lock_if
lock w st = lock_if w st (is_valid w st)

count_of : Ptr → Counts → Option ℕ
count_of p c = if c.live p then some (c.count p) else none

use_count_if : WeakIptr → Store → Option Bool → Option ℕ
unfolding count_of
use_count_if w st none = none
use_count_if w st (some false) = some 0
use_count_if w st (some true) = count_of w.object st.objects

unfoldable pub use_count : WeakIptr → Store → Option ℕ
unfolding is_valid use_count_if
use_count w st = use_count_if w st (is_valid w st)

-- `- 1`, of 32 bits.
minus_one : Option ℕ → Option ℕ
minus_one none = none
minus_one (some n) = some ((n + (2 ^ 32 - 1)) % 2 ^ 32)

weak_count_if : WeakIptr → Store → Option Bool → Option ℕ
unfolding count_of minus_one
weak_count_if w st none = none
weak_count_if w st (some false) = count_of w.storage st.storages
weak_count_if w st (some true) = minus_one (count_of w.storage st.storages)

-- The object itself refers to its storage, and this reference does not count.
unfoldable pub weak_count : WeakIptr → Store → Option ℕ
unfolding is_valid weak_count_if
weak_count w st = if w.storage == 0 then some 0 else weak_count_if w st (is_valid w st)
