-- ===== src/StringView.antt =====
-- src/panda/basic_string_view.h on a 64-bit platform with one-byte characters: a view is the memory
-- from `_str` on, which may go on behind the view, and its length. A character is its unsigned code.
-- Pointers into a view are offsets from `_str`.
pub mod Traits
pub mod Search
pub mod Compare
pub mod Scans
pub mod Find
pub mod Text
pub mod Order
mod Examples
use panda_lib.Base.{ℕ, ◌+◌, ◌-◌, ◌%◌, ◌^◌, Option, none, some, List, leb, ltb, if◌then◌else◌, slice}

pub record View : Type 0 where
  pub str : ℕ → ℕ
  pub length : ℕ

abbrev pub npos : ℕ
npos = 2 ^ 64 - 1

-- The characters of a view.
abbrev pub chars : View → List ℕ
chars v = slice 0 v.length v.str

-- `none` is the exception `out_of_range`, here and below.
unfoldable pub at : View → ℕ → Option ℕ
at v pos = if leb v.length pos then none else some (v.str pos)

unfoldable pub remove_prefix : ℕ → View → View
remove_prefix n v = record { str = λ i. v.str (n + i); length = (v.length + 2 ^ 64 - n) % 2 ^ 64 }

unfoldable pub remove_suffix : ℕ → View → View
remove_suffix n v = record v { length = (v.length + 2 ^ 64 - n) % 2 ^ 64 }

-- A count that does not go past the end.
unfoldable pub clamp : ℕ → ℕ → ℕ → ℕ
clamp length pos count = if ltb (length - pos) count then length - pos else count

unfoldable pub substr : ℕ → ℕ → View → Option View
unfolding clamp
substr pos count v =
    if ltb v.length pos
    then none
    else some (record { str = λ i. v.str (pos + i); length = clamp v.length pos count })

-- The memory at the destination and the number of characters.
unfoldable pub copy : (ℕ → ℕ) → ℕ → ℕ → View → Option ((ℕ → ℕ) × ℕ)
unfolding clamp
copy dest count pos v =
    if ltb v.length pos
    then none
    else some (
      λ i. if ltb i (clamp v.length pos count) then v.str i else dest i,
      clamp v.length pos count,
    )
