-- ===== src/BasicString/Examples.antt =====
-- Concrete strings: two that share a buffer, and one of each other kind.
use panda_lib.Base.{
  ℕ, ◌+◌, ◌*◌, ◌/◌, ◌^◌, ◌≡◌, refl, none, some, ◌++◌, ◌==◌, if◌then◌else◌, arith, take, drop, slice,
}
use panda_lib.BasicString.Memory.{
  ◌>>=◌, Chars, Heap, write, Str, string, literal, internal, view, region,
}
use panda_lib.BasicString.Storage.{new_buffer, release}
use panda_lib.BasicString.Ops.{c_str, offset, cow_offset, resize, pop_back}
use panda_lib.BasicString.Middle.{erase, insert_chars, replace_chars}
use panda_lib.BasicString.Invariant.{IsCounted, Fits, Kept, Returns}
use panda_lib.BasicString.New.{nobody}
use panda_lib.BasicString.Became.{Became}
use panda_lib.BasicString.Erase.{erase-Became}
use panda_lib.BasicString.Insert.{insert_chars-Became, replace_chars-Became, spliced}
use panda_lib.BasicString.Life.{release-IsCounted}
use panda_lib.BasicString.CStr.{IsUnterminated, c_str-Became, c_str-IsUnterminated}
use panda_lib.StringView.Search

-- A buffer at address 5 with 40 characters of room, and two holders: a string of 30 characters and
-- one of the 4 characters from the third on.
abbrev letters : Chars
letters i = 97 + i

abbrev heap : Heap
heap = write (λ a. none) 5 (some (new_buffer 40 2 letters))

abbrev whole : Str
whole = string (internal 5 0) 0 30

abbrev part : Str
part = string (internal 5 0) 2 4

abbrev other : ℕ → ℕ
other b = if 5 == b then 1 else 0

abbrev grow : ℕ → ℕ
grow n = n * 8 / 5

abbrev exact : ℕ → ℕ
exact n = n

whole-Fits : Fits other whole heap
whole-Fits = record {
  counts = record { counted = λ b. ground arith; live = λ b z. ground arith };
  inside = omega arith;
}

part-Fits : Fits other part heap
part-Fits = record {
  counts = record { counted = λ b. ground arith; live = λ b z. ground arith };
  inside = omega arith;
}

erase_example :
    Returns
      (Became other heap (take 2 (view whole heap) ++ drop (2 + 3) (view whole heap)))
      (erase 9 2 3 whole heap)
erase_example = erase-Became other heap 2 3 9 refl whole whole-Fits (omega arith) (omega arith)

insert_chars_example :
    Returns
      (Became other heap
        (take 2 (view whole heap) ++ (slice 0 5 letters ++ drop 2 (view whole heap))))
      (insert_chars grow 9 2 letters 5 whole heap)
insert_chars_example =
    insert_chars-Became other grow 9 letters whole heap whole-Fits refl 2 5 (omega arith)
      (omega arith) (omega arith, omega arith)

replace_chars_example :
    Returns
      (Became other heap (spliced (view whole heap) 2 4 (slice 0 5 letters)))
      (replace_chars grow 9 2 4 letters 5 whole heap)
replace_chars_example =
    replace_chars-Became other grow 9 letters whole heap whole-Fits refl 2 4 5 (omega arith)
      (omega arith) (omega arith, omega arith)

release_example : IsCounted nobody other (release part heap) × Kept other heap (release part heap)
release_example = release-IsCounted other heap part part-Fits

c_str-Became_example :
    Returns
      (λ u k. Became other heap (view whole heap) u k × (region u k (u.str + u.length) ≡ 0))
      (c_str exact 9 whole heap)
c_str-Became_example =
    c_str-Became other exact 9 heap refl whole tt whole-Fits (omega arith, omega arith)

abbrev eights : ℕ → ℕ
eights i = 8

abbrev ten : Str
ten = string (literal eights 10) 0 10

c_str-IsUnterminated_example :
    Returns (IsUnterminated 4) (offset 2 4 ten heap >>= λ (t, g). c_str exact 9 t g)
    × Returns (IsUnterminated 4) (cow_offset 2 4 ten heap >>= λ (t, g). c_str exact 9 t g)
    × Returns (IsUnterminated 4) (resize exact 9 4 0 ten heap >>= λ (t, g). c_str exact 9 t g)
    × Returns (IsUnterminated 2) (erase 9 2 30 ten heap >>= λ (t, g). c_str exact 9 t g)
    × Returns (IsUnterminated 9) (c_str exact 9 (pop_back ten) heap)
c_str-IsUnterminated_example =
    c_str-IsUnterminated eights 10 2 4 30 0 9 exact heap (λ i lt e. omega (arith, e)) (omega arith)
      (omega arith) (omega arith)

abbrev huge : ℕ
huge = 2 ^ 63
