-- ===== src/Log/Names.antt =====
-- The functions of src/panda/log/log.cc that work on the modules of a name or on the whole library.
-- `root` is the module panda_log_module of the library, of which the name is empty.
use panda_lib.Base.{ℕ, Option, none, some, List, [], ◌∷◌, if◌then◌else◌}
use panda_lib.Refcnt.{Ptr}
use panda_lib.Log.{
  Level, Instance, Outcome, for_each, get_synced_data, own, logging, formatting, next_rev,
  set_level,
}
use panda_lib.Log.Life.{same_name}

-- `equal_range` of the index by name.
unfoldable pub equal_range : List ℕ → List (List ℕ × Ptr) → List Ptr
equal_range name [] = []
equal_range name ((n, p) ∷ rows) =
    let later = equal_range name rows in if same_name n name then p ∷ later else later

-- `set_level` of a name; `none` is that the name is unknown, which throws.
unfoldable pub set_level_of : ℕ → Ptr → Level → List ℕ → Instance → Option Outcome
unfolding set_level for_each equal_range
set_level_of fuel root level [] s = some (set_level fuel level root s)
set_level_of fuel root level (c ∷ cs) s = elim (equal_range (c ∷ cs) s.modules) [
  | [] ↦ none
  | m ∷ ms ↦ some (for_each (set_level fuel level) (m ∷ ms) s)
]

-- `get_module`; 0 is null.
unfoldable pub get_module : Ptr → List ℕ → Instance → Ptr
unfolding equal_range
get_module root [] s = root
get_module root (c ∷ cs) s = elim (equal_range (c ∷ cs) s.modules) [ [] ↦ 0 | m ∷ ms ↦ m ]

unfoldable pub get_modules : List (List ℕ × Ptr) → List Ptr
get_modules [] = []
get_modules ((n, p) ∷ rows) = p ∷ get_modules rows

unfoldable pub set_program_name : List ℕ → Instance → Instance
set_program_name value s =
    let t = next_rev s in record t { src_data = record t.src_data { program_name = value } }

-- `Module::get_logger` and `Module::get_formatter`, with the data of the thread brought up to date;
-- `none` is `out_of_range`.
unfoldable pub get_logger : Ptr → Instance → Option Ptr
unfolding get_synced_data own
get_logger this s =
    let d = (get_synced_data s).thread_data in
    if d.has this then some (own logging (d.entry this)) else none

unfoldable pub get_formatter : Ptr → Instance → Option Ptr
unfolding get_synced_data own
get_formatter this s =
    let d = (get_synced_data s).thread_data in
    if d.has this then some (own formatting (d.entry this)) else none
