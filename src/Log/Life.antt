-- ===== src/Log/Life.antt =====
-- Construction and destruction of modules in src/panda/log/log.cc. A module of which the parent is not
-- in the index yet waits for it: this happens in static initialization.
pub mod Adopt
pub mod Orphan
pub mod Destroy
pub mod Joined
pub mod Init
pub mod Grown
pub mod Wait
pub mod Construct
use panda_lib.Base.{
  ℕ, zero, suc, Bool, true, false, not, ◌&&◌, Option, none, some, List, [], ◌∷◌, ◌++◌, ◌==◌, elem,
  erase_first, if◌then◌else◌,
}
use panda_lib.Refcnt.{Ptr, write}
use panda_lib.Log.{
  Level, ModuleData, Instance, Outcome, returned, out_of_range, assert_failed, out_of_fuel,
  and_then, for_each, put, put_module, next_rev,
}

unfoldable pub contains : Ptr → List (List ℕ × Ptr) → Bool
contains m [] = false
contains m ((name, p) ∷ rows) = if p == m then true else contains m rows

abbrev pub nulls : ModuleData
nulls = record { effective_logger = 0; logger = 0; effective_formatter = 0; formatter = 0 }

-- `map[...]`, which creates an entry where there is none.
abbrev pub create_entry : Ptr → Instance → Instance
create_entry m s = record s {
  src_data = record s.src_data {
    has = write s.src_data.has m true;
    entry = write s.src_data.entry m (if s.src_data.has m then s.src_data.entry m else nulls);
  };
}

abbrev pub joined_name : List ℕ → List ℕ → List ℕ
joined_name [] name = name
joined_name (c ∷ cs) name = (c ∷ cs) ++ (58 ∷ 58 ∷ name)

-- What `init` does behind the `init` of the parent.
abbrev pub push_child : Ptr → Instance → Instance
push_child this s =
    let p = (s.objects this).parent in
    put_module p (record (s.objects p) { children = (s.objects p).children ++ this ∷ [] }) s

abbrev pub take_name : Ptr → Instance → Instance
take_name this s =
    let o = s.objects this in
    put_module this (record o { name = joined_name (s.objects o.parent).name o.name }) s

abbrev pub inherit : Ptr → Instance → Instance
inherit this s =
    let up = s.src_data.entry (s.objects this).parent in
    put this
      (record (s.src_data.entry this) {
        effective_logger = up.effective_logger;
        effective_formatter = up.effective_formatter;
      })
      s

abbrev pub emplace : Ptr → Instance → Instance
emplace this s = record s { modules = ((s.objects this).name, this) ∷ s.modules }

-- `Module::init`
unfoldable pub init : ℕ → Ptr → Ptr → Instance → Outcome
unfolding and_then contains
init zero fresh this s = out_of_fuel
init (suc fuel) fresh this s =
    let t = create_entry this (next_rev s) in
    let parent = (t.objects this).parent in
    let above = init fuel fresh parent t in
    if contains this t.modules
    then returned t
    else if parent == 0
    then returned (
        emplace this (
          put this
            (record (t.src_data.entry this) { effective_formatter = fresh; formatter = fresh }) t))
    else and_then
        (λ u.
          let v = take_name this (push_child this u) in
          if v.src_data.has parent
          then returned (emplace this (inherit this v))
          else out_of_range v)
        above

behind : Ptr → Option (Ptr × List Ptr) → Option (Ptr × List Ptr)
behind m none = none
behind m (some (n, rest)) = some (n, m ∷ rest)

-- `find_if` in `try_init_waiting`: the first module of which the parent is in the index, and the list
-- without it.
unfoldable pub find_waiting : Instance → List Ptr → Option (Ptr × List Ptr)
unfolding contains behind
find_waiting s [] = none
find_waiting s (m ∷ ms) =
    let later = find_waiting s ms in
    if contains (s.objects m).parent s.modules then some (m, ms) else behind m later

-- `try_init_waiting` on what its search finds, and what comes after it.
unfoldable pub init_found :
    (Instance → Outcome) → ℕ → Ptr → Option (Ptr × List Ptr) → Instance → Outcome
unfolding and_then init
init_found again fuel fresh none s = returned s
init_found again fuel fresh (some (m, rest)) s =
    and_then (λ t. again (record t { wait_list = rest })) (init fuel fresh m s)

-- The loop over `try_init_waiting`.
unfoldable pub init_waiting : ℕ → ℕ → Ptr → Instance → Outcome
unfolding init_found find_waiting
init_waiting zero fuel fresh s = out_of_fuel
init_waiting (suc n) fuel fresh s =
    init_found (init_waiting n fuel fresh) fuel fresh (find_waiting s s.wait_list) s

-- The constructor, on an object that is not among the modules.
unfoldable pub construct : ℕ → ℕ → Ptr → Ptr → List ℕ → Ptr → Level → Instance → Outcome
unfolding and_then contains init init_waiting
construct n fuel fresh this name parent level s =
    let t =
      put_module this
        (record { parent = parent; level = level; children = []; name = name; passthrough = false })
        s in
    if not (parent == 0) && not (contains parent t.modules)
    then returned (record t { wait_list = t.wait_list ++ this ∷ [] })
    else and_then (init_waiting n fuel fresh) (init fuel fresh this t)

-- What the destructor does to a child.
unfoldable pub orphan : Ptr → Instance → Outcome
orphan m s =
    let t = put_module m (record (s.objects m) { parent = 0 }) s in
    let d = t.src_data.entry m in
    if t.src_data.has m
    then returned
        (put m (record d { logger = d.effective_logger; formatter = d.effective_formatter }) t)
    else out_of_range t

-- The row of a name and a module in the index goes.
abbrev pub erase_row : (List ℕ → Bool) → Ptr → List (List ℕ × Ptr) → List (List ℕ × Ptr)
erase_row named m [] = []
erase_row named m ((name, p) ∷ rows) =
    if named name && (p == m) then rows else (name, p) ∷ erase_row named m rows

abbrev pub same_name : List ℕ → List ℕ → Bool
same_name [] [] = true
same_name [] (y ∷ ys) = false
same_name (x ∷ xs) [] = false
same_name (x ∷ xs) (y ∷ ys) = (x == y) && same_name xs ys

-- The last part of the destructor.
abbrev pub forget : Ptr → Instance → Instance
forget this s = record s {
  modules = erase_row (same_name (s.objects this).name) this s.modules;
  src_data = record s.src_data { has = write s.src_data.has this false };
}

-- `Module::~Module`, before the end of the program; the flag is `destroy_flag`.
unfoldable pub destroy : Bool → Ptr → Instance → Outcome
unfolding and_then for_each orphan
destroy true this s = returned s
destroy false this s =
    and_then
      (λ t.
        let p = (t.objects this).parent in
        let siblings = (t.objects p).children in
        if p == 0
        then returned (forget this t)
        else if elem this siblings
        then returned (
            forget this
              (put_module p (record (t.objects p) { children = erase_first this siblings }) t))
        else assert_failed)
      (for_each orphan (s.objects this).children s)
