-- ===== src/Log/Examples.antt =====
-- Modules on which the theorems of Log are applied: the root 1 with logger 7 and formatter 9, and its
-- child 2, which passes messages through.
use panda_lib.Base.{
  ◌<◌, ◌≡◌, ◌≢◌, refl, sym, subst, Bool, true, false, Bool-cases, some, List, [], ◌∷◌, ◌==◌, ==→eq,
  elem, elem-cases, Once, inl, inr, ◌⊎◌, if◌then◌else◌, arith,
}
use panda_lib.Refcnt.{Ptr}
use panda_lib.Log.{
  warning, debug, Module, Data, Instance, returned, Slot, logging, formatting, effective, own,
  set_level, set_logger, set_formatter,
}
use panda_lib.Log.Levels.{InTree, set_level-InTree}
use panda_lib.Log.Walk.{IsForest}
use panda_lib.Log.Coherent.{Agrees}
use panda_lib.Log.Sound.{IsSound}
use panda_lib.Log.Install.{IsInstalled}
use panda_lib.Log.Setters.{
  AllNearest, setters-Nearest, set_logger-IsInstalled, set_formatter-IsInstalled,
}
use panda_lib.Log.Send.{sent, do_log, Heard, do_log-Heard}
use panda_lib.Log.Names.{get_logger}
use panda_lib.Log.Life.{destroy, construct, contains}
use panda_lib.Log.Life.Destroy.{destroy-IsSound, get_logger-destroy}
use panda_lib.Log.Life.Wait.{IsReady, IsQuiet}
use panda_lib.Log.Life.Construct.{IsConstructed, construct-IsReady}

abbrev module_of : Ptr → List Ptr → Bool → Module
module_of parent children passthrough = record {
  parent = parent;
  level = warning;
  children = children;
  name = [];
  passthrough = passthrough;
}

abbrev objects : Ptr → Module
objects a =
    if a == 1 then module_of 0 (2 ∷ []) false else module_of (if a == 2 then 1 else 0) [] true

abbrev main_data : Data
main_data = record {
  rev = 2;
  has = λ a. if 2 == a then true else if 1 == a then true else false;
  entry = λ a. record {
    effective_logger = 7;
    logger = if a == 1 then 7 else 0;
    effective_formatter = 9;
    formatter = if a == 1 then 9 else 0;
  };
  program_name = [];
}

abbrev two : Instance
two = record {
  objects = objects;
  modules = ([], 2) ∷ ([], 1) ∷ [];
  src_data = main_data;
  thread_data = main_data;
  wait_list = [];
}

-- What holds of both holds of each module.
each_known : (P : Ptr → Type 0) → P 1 → P 2 → (a : Ptr) → main_data.has a ≡ true → P a
each_known P one other a known = elim (Bool-cases (2 == a)) [
  | inl e ↦ subst P (==→eq 2 a e) other
  | inr e ↦ elim (Bool-cases (1 == a)) [
    | inl q ↦ subst P (==→eq 1 a q) one
    | inr q ↦ let no : false ≡ true = rw (e, q) at known in cc
  ]
]

no_child : {P : Type 0} (c : Ptr) → elem c [] ≡ true → P
no_child c inside = let no : false ≡ true = inside in cc

two-IsForest : IsForest main_data.has objects
two-IsForest = record {
  depth = λ a. a;
  height = 3;
  below = each_known (λ a. a < 3) (omega arith) (omega arith);
  child = λ a c known inside.
      each_known
        (λ q.
          elem c (objects q).children ≡ true
          → (main_data.has c ≡ true) × ((objects c).parent ≡ q) × (q < c))
        (λ i. elim (elem-cases c 2 [] i) [
          | inl e ↦
              subst (λ z. (main_data.has z ≡ true) × ((objects z).parent ≡ 1) × (1 < z)) (sym e)
                (refl, refl, omega arith)
          | inr n ↦ no_child c n
        ])
        (λ i. no_child c i) a known inside;
  up = λ c known.
      each_known
        (λ q.
          (objects q).parent ≢ 0
          → (main_data.has (objects q).parent ≡ true)
            × (elem q (objects (objects q).parent).children ≡ true))
        (λ none. absurd (none refl)) (λ some_parent. (refl, refl)) c known;
  once = each_known (λ a. Once (objects a).children) (refl, tt) tt;
  null = refl;
}

two-IsSound : IsSound two
unfolding effective own
two-IsSound = record {
  forest = two-IsForest;
  agree = agree;
  roots =
      each_known (λ a. (objects a).parent ≡ 0 → own formatting (main_data.entry a) ≢ 0)
        (λ root none. omega (arith, none)) (λ root none. omega (arith, root));
}
  where
    agree : (k : Slot) (a : Ptr) → main_data.has a ≡ true → Agrees k objects main_data.entry a
    agree logging = each_known (Agrees logging objects main_data.entry) refl refl
    agree formatting = each_known (Agrees formatting objects main_data.entry) refl refl

set_level-InTree_example :
    (after : Ptr → Module) × (set_level 3 debug 1 two ≡ returned (record two { objects = after }))
    × ((a : Ptr)
        → main_data.has a ≡ true
        → (InTree objects 1 a × (after a ≡ record (objects a) { level = debug }))
          ⊎ ((InTree objects 1 a → ⊥) × (after a ≡ objects a)))
unfolding two-IsForest
set_level-InTree_example = set_level-InTree two two-IsForest 3 debug 1 refl (omega arith)

-- The thread has not seen the modules yet.
abbrev stale : Instance
stale = record two {
  thread_data = record {
    rev = 0;
    has = λ a. false;
    entry =
        λ a. record { effective_logger = 0; logger = 0; effective_formatter = 0; formatter = 0 };
    program_name = [];
  };
}

stale-IsSound : IsSound stale
stale-IsSound = record {
  forest = two-IsForest;
  agree = two-IsSound.agree;
  roots = two-IsSound.roots;
}

set_logger-IsInstalled_example :
    (u : Instance) × (set_logger 2 8 true 1 stale ≡ returned u)
    × IsSound u
    × IsInstalled logging 8 1 stale u
    × ((u.objects 1).passthrough ≡ true)
unfolding stale-IsSound two-IsForest
set_logger-IsInstalled_example =
    set_logger-IsInstalled stale stale-IsSound 2 1 (λ e. omega (arith, e)) refl (omega arith) 8 true

setters-Nearest_example :
    ((u : Instance) × (set_logger 2 8 true 1 stale ≡ returned u)
      × IsInstalled logging 8 1 stale u
      × AllNearest u)
    × ((u : Instance) × (set_formatter 2 11 0 1 stale ≡ returned u)
        × IsInstalled formatting 11 1 stale u
        × AllNearest u)
unfolding stale-IsSound two-IsForest
setters-Nearest_example =
    setters-Nearest stale stale-IsSound 2 1 (λ e. omega (arith, e)) refl (omega arith) 8 11 0 true
      (λ e. omega (arith, e))

set_formatter-IsInstalled_run :
    (u : Instance) × (set_formatter 2 11 0 1 two ≡ returned u)
    × IsSound u
    × IsInstalled formatting 11 1 two u
unfolding two-IsSound two-IsForest
set_formatter-IsInstalled_run =
    set_formatter-IsInstalled two two-IsSound 2 1 (λ e. omega (arith, e)) refl (omega arith) 11 0
      (λ e. omega (arith, e))

do_log-Heard_example : (gs : List (Ptr × Ptr)) × (do_log 3 2 stale ≡ sent gs) × Heard stale 2 gs
unfolding stale-IsSound two-IsForest
do_log-Heard_example =
    do_log-Heard stale stale-IsSound (λ e. absurd (omega (arith, e))) 3 2 refl (omega arith)

do_log-stale : do_log 3 2 stale ≡ sent ((7, 9) ∷ (7, 9) ∷ [])
unfolding do_log
do_log-stale = refl

do_log_run : do_log 3 2 two ≡ sent ((7, 9) ∷ (7, 9) ∷ [])
unfolding do_log
do_log_run = refl

destroy-IsSound_example :
    (u : Instance) × (destroy false 1 two ≡ returned u)
    × IsSound u
    × (u.src_data.has 1 ≡ false)
    × ((k : Slot) (a : Ptr) → effective k (u.src_data.entry a) ≡ effective k (main_data.entry a))
destroy-IsSound_example = destroy-IsSound 1 two two-IsSound refl

get_logger-destroy_example :
    (u : Instance) × (destroy false 1 two ≡ returned u)
    × (get_logger 2 u ≡ some (own logging (main_data.entry 2)))
    × (own logging (u.src_data.entry 2) ≡ effective logging (main_data.entry 2))
get_logger-destroy_example = get_logger-destroy 1 2 two two-IsSound refl refl refl

two-IsReady : IsReady two
unfolding contains
two-IsReady = record {
  sound = two-IsSound;
  registered = record { agrees = λ a. refl };
  waiting = λ m inside. no_child m inside;
  once = tt;
}

-- A module of parent 4, which is not there: it waits.
construct-IsReady_example :
    (u : Instance) × (construct 1 2 12 5 [] 4 warning two ≡ returned u)
    × IsReady u
    × IsQuiet u u.wait_list
    × IsConstructed 5 4 two u
construct-IsReady_example =
    construct-IsReady 1 0 12 5 [] 4 warning two (λ e. omega (arith, e)) (omega arith) two-IsReady
      (λ m inside. no_child m inside) (λ e. omega (arith, e)) refl refl
