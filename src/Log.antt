-- ===== src/Log.antt =====
-- src/panda/log/log.h and src/panda/log/log.cc: the modules of the logging library, their levels,
-- loggers and formatters. Modules, loggers and formatters are kept by address, 0 is the null pointer.
-- `Instance` is what the operations share: the modules with their fields, the index by name, the main
-- data, the copy of it that the calling thread keeps, and the modules that wait for their parents.
-- A lock is a step, so no other thread is in an operation. A walk over the children, and one up to the
-- parents, takes fuel. `fresh` is the address of a new formatter of the default format.
pub mod Walk
pub mod Levels
pub mod Settle
pub mod Coherent
pub mod Sound
pub mod Install
pub mod Setters
pub mod Life
pub mod Names
pub mod Send
pub mod Escape
pub mod Pretty
pub mod Multi
pub mod Lines
pub mod Pattern
pub mod Ends
mod Examples
mod TextExamples
use panda_lib.Base.{
  ℕ, zero, suc, ◌+◌, ◌%◌, ◌^◌, Bool, true, false, not, ◌&&◌, List, [], ◌∷◌, ◌++◌, ◌==◌,
  if◌then◌else◌,
}
use panda_lib.Refcnt.{Ptr, write}

pub data Level : Type 0 where
  verbose_debug debug info notice warning error critical alert emergency : Level

pub record Module : Type 0 where
  pub parent : Ptr
  pub level : Level
  pub children : List Ptr
  pub name : List ℕ
  pub passthrough : Bool

pub record ModuleData : Type 0 where
  pub effective_logger : Ptr
  pub logger : Ptr
  pub effective_formatter : Ptr
  pub formatter : Ptr

-- `map` is whether a module has an entry, and its entry.
pub record Data : Type 0 where
  pub rev : ℕ
  pub has : Ptr → Bool
  pub entry : Ptr → ModuleData
  pub program_name : List ℕ

pub record Instance : Type 0 where
  pub objects : Ptr → Module
  pub modules : List (List ℕ × Ptr)
  pub src_data : Data
  pub thread_data : Data
  pub wait_list : List Ptr

-- `out_of_range` is what `map.at` throws, `assert_failed` is an assertion that does not hold.
pub data Outcome : Type 0 where
  returned : Instance → Outcome
  out_of_range : Instance → Outcome
  assert_failed : Outcome
  out_of_fuel : Outcome

unfoldable pub and_then : (Instance → Outcome) → Outcome → Outcome
and_then f (returned s) = f s
and_then f (out_of_range s) = out_of_range s
and_then f assert_failed = assert_failed
and_then f out_of_fuel = out_of_fuel

unfoldable pub for_each : (Ptr → Instance → Outcome) → List Ptr → Instance → Outcome
unfolding and_then
for_each f [] s = returned s
for_each f (m ∷ ms) s = and_then (for_each f ms) (f m s)

-- The logger or the formatter of an entry: the two have the same code.
pub data Slot : Type 0 where
  logging formatting : Slot

unfoldable pub effective : Slot → ModuleData → Ptr
effective logging d = d.effective_logger
effective formatting d = d.effective_formatter

unfoldable pub own : Slot → ModuleData → Ptr
own logging d = d.logger
own formatting d = d.formatter

unfoldable pub with_effective : Slot → Ptr → ModuleData → ModuleData
with_effective logging l d = record d { effective_logger = l }
with_effective formatting l d = record d { effective_formatter = l }

unfoldable pub with_own : Slot → Ptr → ModuleData → ModuleData
with_own logging l d = record d { logger = l }
with_own formatting l d = record d { formatter = l }

abbrev pub put : Ptr → ModuleData → Instance → Instance
put m d s = record s { src_data = record s.src_data { entry = write s.src_data.entry m d } }

abbrev pub put_module : Ptr → Module → Instance → Instance
put_module m o s = record s { objects = write s.objects m o }

abbrev pub next_rev : Instance → Instance
next_rev s = record s { src_data = record s.src_data { rev = (s.src_data.rev + 1) % 2 ^ 64 } }

unfoldable pub get_synced_data : Instance → Instance
get_synced_data s =
    if s.thread_data.rev == s.src_data.rev then s else record s { thread_data = s.src_data }

-- `Module::set_level`
unfoldable pub set_level : ℕ → Level → Ptr → Instance → Outcome
unfolding for_each
set_level zero level this s = out_of_fuel
set_level (suc fuel) level this s =
    for_each (set_level fuel level) (s.objects this).children
      (put_module this (record (s.objects this) { level = level }) s)

-- `Module::_set_effective_logger` and `Module::_set_effective_formatter`
unfoldable pub set_effective : Slot → ℕ → Ptr → Ptr → Instance → Outcome
unfolding for_each own with_effective
set_effective k zero l this s = out_of_fuel
set_effective k (suc fuel) l this s =
    let data_here = s.src_data.entry this in
    let deeper =
      for_each (set_effective k fuel l) (s.objects this).children
        (put this (with_effective k l data_here) s) in
    if s.src_data.has this
    then (if own k data_here == 0 then deeper else returned s)
    else out_of_range s

-- The end of both setters: the effective value of the module and of its children, and the data of the
-- thread.
unfoldable pub settle : Slot → ℕ → Ptr → Ptr → Instance → Outcome
unfolding for_each set_effective get_synced_data with_effective
settle k fuel l this s =
    and_then (λ t. returned (get_synced_data t))
      (for_each (set_effective k fuel l) (s.objects this).children
        (put this (with_effective k l (s.src_data.entry this)) s))

-- `Module::set_logger`
unfoldable pub set_logger : ℕ → Ptr → Bool → Ptr → Instance → Outcome
unfolding with_own effective and_then settle
set_logger fuel l passthrough this s =
    let s = next_rev s in
    let t = put this (with_own logging l (s.src_data.entry this)) s in
    let parent = (t.objects this).parent in
    and_then
      (λ u. returned (put_module this (record (u.objects this) { passthrough = passthrough }) u))
      (if s.src_data.has this
        then (if l == 0 && not (parent == 0)
            then (if t.src_data.has parent
                then settle logging fuel (effective logging (t.src_data.entry parent)) this t
                else out_of_range t)
            else settle logging fuel l this t)
        else out_of_range s)

-- `Module::set_formatter`
unfoldable pub set_formatter : ℕ → Ptr → Ptr → Ptr → Instance → Outcome
unfolding with_own effective settle
set_formatter fuel fresh f this s =
    let s = next_rev s in
    let t = put this (with_own formatting f (s.src_data.entry this)) s in
    let parent = (t.objects this).parent in
    if s.src_data.has this
    then (if f == 0
        then (if parent == 0
            then settle formatting fuel fresh this
                (put this (with_own formatting fresh (t.src_data.entry this)) t)
            else (if t.src_data.has parent
                then settle formatting fuel (effective formatting (t.src_data.entry parent)) this t
                else out_of_range t))
        else settle formatting fuel f this t)
    else out_of_range s
