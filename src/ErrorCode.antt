-- ===== src/ErrorCode.antt =====
-- src/panda/error.h and src/panda/error.cc: an error code with the codes that led to it.
-- The heap holds the `Data` by address; copies of an `ErrorCode` hold the same address. Their counting
-- is that of src/panda/refcnt.h, and data that nobody holds stays in the model. `fresh` is the address
-- that `new Data` returns. A category is its identity, and a `NestedCategory` is the list of the
-- categories from it on: `get_nested_category` keeps one node for each pair of a category and a rest.
pub mod Holds
pub mod Text
mod Examples
use panda_lib.Base.{
  ℕ, zero, suc, ◌+◌, Bool, true, false, ◌&&◌, ◌||◌, Option, none, some, List, [], ◌∷◌, ◌++◌, ◌==◌,
  if◌then◌else◌, length,
}
use panda_lib.VarInt.{push, pop, top, iterate}

abbrev pub Ptr : Type 0
Ptr = ℕ

-- A `std::error_code`: its value, the pattern of an `int`, and its category.
abbrev pub StdCode : Type 0
StdCode = ℕ × ℕ

abbrev pub system_category : ℕ
system_category = 0

pub record Data : Type 0 where
  pub codes : List ℕ
  pub cat : List ℕ

abbrev pub Heap : Type 0
Heap = Ptr → Data

abbrev pub write : Heap → Ptr → Data → Heap
write h a d i = if a == i then d else h i

abbrev pub fresh_data : Data
fresh_data = record { codes = []; cat = [] }

-- `init`: data that is there is emptied in place.
unfoldable pub init : Ptr → Ptr → Heap → Ptr × Heap
init fresh e h = if e == 0 then (fresh, write h fresh fresh_data) else (e, write h e fresh_data)

-- `push` to the data at an address.
unfoldable pub push_code : StdCode → Ptr → Heap → Heap
push_code c a h = write h a (record { codes = push c.0 (h a).codes; cat = c.1 ∷ (h a).cat })

unfoldable pub set_code : Ptr → StdCode → Ptr → Heap → Ptr × Heap
unfolding init push_code
set_code fresh c e h = let (a, g) = init fresh e h in (a, push_code c a g)

unfoldable pub set_pair : Ptr → StdCode → StdCode → Ptr → Heap → Ptr × Heap
unfolding init push_code
set_pair fresh c next e h =
    let (a, g) = init fresh e h in
    let k = if next.0 == 0 then g else push_code next a g in (a, push_code c a k)

unfoldable pub set_next : Ptr → StdCode → Ptr → Ptr → Heap → Ptr × Heap
unfolding init push_code
set_next fresh c next e h =
    let (a, g) = init fresh e h in
    let k = if next == 0 then g else write g a (g next) in (a, push_code c a k)

-- The constructors from a code and the errors behind it.
unfoldable pub make : Ptr → StdCode → Heap → Ptr × Heap
unfolding set_code
make fresh c h = if c.0 == 0 then (0, h) else set_code fresh c 0 h

unfoldable pub make_pair : Ptr → StdCode → StdCode → Heap → Ptr × Heap
unfolding set_pair
make_pair fresh c next h = set_pair fresh c next 0 h

unfoldable pub make_next : Ptr → StdCode → Ptr → Heap → Ptr × Heap
unfolding set_next
make_next fresh c next h = set_next fresh c next 0 h

-- `operator=` of a code; `clear` gives up the data.
unfoldable pub assign_code : Ptr → StdCode → Ptr → Heap → Ptr × Heap
unfolding set_code
assign_code fresh c e h = if c.0 == 0 then (0, h) else set_code fresh c e h

-- `none` here and below: `top` has no byte to read, or a null pointer is read.
code_of : Option ℕ → List ℕ → Option StdCode
code_of none cs = none
code_of (some v) [] = none
code_of (some v) (c ∷ cs) = some (v, c)

unfoldable pub code : Ptr → Heap → Option StdCode
unfolding code_of
code e h = if e == 0 then some (0, system_category) else code_of (top (h e).codes) (h e).cat

-- The loop of `contains_impl`, over the numbers of the iterators and the categories.
unfoldable pub is_among : StdCode → List ℕ → List ℕ → Option Bool
is_among c [] cs = some false
is_among c (v ∷ vs) [] = none
is_among c (v ∷ vs) (cat ∷ cs) =
    let rest = is_among c vs cs in if (v == c.0) && (cat == c.1) then some true else rest

among_numbers : StdCode → Option (List ℕ) → List ℕ → Option Bool
unfolding is_among
among_numbers c none cs = none
among_numbers c (some vs) cs = is_among c vs cs

-- `contains`; the fuel is for the iterators.
unfoldable pub contains : ℕ → StdCode → Ptr → Heap → Option Bool
unfolding among_numbers
contains fuel c e h =
    if e == 0 then some (c.0 == 0) else among_numbers c (iterate fuel (h e).codes) (h e).cat

-- `next`: new data with the rest of both. `none` is also a `data` without a category, whose `cat` is
-- read.
next_data : Option (List ℕ) → List ℕ → Option Data
next_data none cs = none
next_data (some rest) cs = some (record { codes = rest; cat = cs })

stored_at : Ptr → Heap → Option Data → Option (Ptr × Heap)
stored_at a h none = none
stored_at a h (some d) = some (a, write h a d)

next_at : Ptr → Ptr → Heap → List ℕ → Option (Ptr × Heap)
unfolding next_data stored_at
next_at fresh e h [] = none
next_at fresh e h (c ∷ []) = some (0, h)
next_at fresh e h (c ∷ d ∷ cs) = stored_at fresh h (next_data (pop (h e).codes) (d ∷ cs))

unfoldable pub next : Ptr → Ptr → Heap → Option (Ptr × Heap)
unfolding next_at
next fresh e h = if e == 0 then some (0, h) else next_at fresh e h (h e).cat

-- What a category says of a value, its name, and `to_string` of a value: text as bytes.
pub record Texts : Type 0 where
  pub message : ℕ → ℕ → List ℕ
  pub name : ℕ → List ℕ
  pub to_string : ℕ → List ℕ

-- The characters before the first 0, which is what `c_str()` stands for where a text is appended.
unfoldable pub until_zero : List ℕ → List ℕ
until_zero [] = []
until_zero (c ∷ cs) = let rest = until_zero cs in if c == 0 then [] else c ∷ rest

-- " -> " and "message (value:name)".
abbrev pub arrow : List ℕ
arrow = 32 ∷ 45 ∷ 62 ∷ 32 ∷ []

unfoldable pub piece : Texts → ℕ → ℕ → List ℕ
unfolding until_zero
piece t val cat =
    until_zero (t.message cat val)
    ++ 32 ∷ 40 ∷ []
    ++ t.to_string val
    ++ 58 ∷ []
    ++ t.name cat
    ++ 41 ∷ []

-- The loop of `what`: the text so far, and how often the loop has run.
unfoldable pub what_loop : Texts → List ℕ → ℕ → List ℕ → List ℕ → Option (List ℕ)
unfolding piece
what_loop t ret i stack [] = some ret
what_loop t ret i stack (c ∷ cs) = elim (top stack) [
  | none ↦ none
  | some val ↦ elim (pop stack) [
    | none ↦ none
    | some rest ↦
        what_loop t (ret ++ (if i == 0 then [] else arrow) ++ piece t val c) (i + 1) rest cs
  ]
]

unfoldable pub what : Texts → Ptr → Heap → Option (List ℕ)
unfolding what_loop
what t e h = if e == 0 then some [] else what_loop t [] 0 (h e).codes (h e).cat
