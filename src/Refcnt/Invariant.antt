-- ===== src/Refcnt/Invariant.antt =====
-- What a program holds of the objects of src/panda/refcnt.h, and when the store agrees with it.
use panda_lib.Base.{ℕ, ◌+◌, ◌≡◌, ◌≢◌, Bool, true, false}
use panda_lib.Refcnt.{Ptr, Store}
use panda_lib.Refcnt.Counting.{IsHeld, more, less}

-- The number of pointers to each object and of weak pointers to each storage, and the object for which
-- a storage was made.
pub record Holders : Type 0 where
  pub strong : Ptr → ℕ
  pub weak : Ptr → ℕ
  pub owner : Ptr → Ptr

abbrev pub one_if : Bool → ℕ
one_if true = 1
one_if false = 0

-- The references to the storages: those of the weak pointers, and one of the object while it lives.
abbrev pub storage_holders : (Ptr → ℕ) → (Ptr → Bool) → Ptr → ℕ
storage_holders weak valid s = weak s + one_if (valid s)

pub record IsCounted (st : Store) (g : Holders) : Type 0 where
  pub objects : IsHeld st.objects g.strong
  pub storages : IsHeld st.storages (storage_holders g.weak st.valid)
  pub null : st.valid 0 ≡ false
  -- The storage of an object that lives is valid and its own.
  pub own :
      (p : Ptr)
      → st.objects.live p ≡ true
      → st.weak p ≢ 0
      → (st.valid (st.weak p) ≡ true) × (g.owner (st.weak p) ≡ p)
  -- A storage that is valid is that of an object that lives.
  pub lives :
      (s : Ptr)
      → st.valid s ≡ true
      → (st.objects.live (g.owner s) ≡ true) × (st.weak (g.owner s) ≡ s)

-- What a program holds with one pointer more or less.
abbrev pub holds_more : Ptr → Holders → Holders
holds_more p g = record g { strong = more p g.strong }

abbrev pub holds_less : Ptr → Holders → Holders
holds_less p g = record g { strong = less p g.strong }

abbrev pub weak_more : Ptr → Holders → Holders
weak_more s g = record g { weak = more s g.weak }

abbrev pub weak_less : Ptr → Holders → Holders
weak_less s g = record g { weak = less s g.weak }
