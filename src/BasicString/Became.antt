-- ===== src/BasicString/Became.antt =====
-- What an operation promises: the string is valid and stands for a given list of characters, and
-- no buffer that another string holds has changed.
use panda_lib.Base.{ℕ, ◌≤◌, ◌≡◌, refl, List, arith, ap, slice}
use panda_lib.BasicString.Memory.{
  Heap, Storage, literal, sso, internal, external, Str, region, region_of, room, room_of, view,
}
use panda_lib.BasicString.Invariant.{refs_of, refs, Fits, Kept}

pub record Became (others : ℕ → ℕ) (h : Heap) (xs : List ℕ) (t : Str) (g : Heap) : Type 0 where
  pub fits : Fits others t g
  pub kept : Kept others h g
  pub stands_for : view t g ≡ xs

-- The strings whose references are among `others`.
abbrev pub IsAmong : Str → (ℕ → ℕ) → Type 0
IsAmong u others = (b : ℕ) → refs u b ≤ others b

same_region :
    (st : Storage) (others : ℕ → ℕ) (h g : Heap)
    → ((b : ℕ) → refs_of st b ≤ others b)
    → Kept others h g
    → (region_of st g ≡ region_of st h) × (room_of st g ≡ room_of st h)
same_region (literal text size) others h g among k = (refl, refl)
same_region (sso fill) others h g among k = (refl, refl)
same_region (internal b d) others h g among k = k b (ground (arith, among b))
same_region (external b d) others h g among k = k b (ground (arith, among b))

pub Kept-region :
    (others : ℕ → ℕ) (h g : Heap) (u : Str)
    → IsAmong u others
    → Kept others h g
    → region u g ≡ region u h
Kept-region others h g u among k = (same_region u.storage others h g among k).0

-- A string among the others reads the same characters, and they are inside of its storage.
pub Kept-view :
    (others : ℕ → ℕ) (h g : Heap) (u : Str)
    → IsAmong u others
    → Kept others h g
    → (view u g ≡ view u h) × (room u g ≡ room u h)
unfolding view
Kept-view others h g u among k =
    let (e, r) = same_region u.storage others h g among k in (ap (slice u.str u.length) e, r)

pub unchanged :
    (others : ℕ → ℕ) (s : Str) (h : Heap) → Fits others s h → Became others h (view s h) s h
unchanged others s h v = record { fits = v; kept = λ b lt. (refl, refl); stands_for = refl }
