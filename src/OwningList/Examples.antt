-- ===== src/OwningList/Examples.antt =====
-- Lists of numbers on which the theorems of OwningList are applied.
use panda_lib.Base.{ℕ, ◌≡◌, refl, true, false, some, [], ◌∷◌, arith, ◌==◌, if◌then◌else◌, ◌*◌}
use panda_lib.OwningList.{OwningList, remove_node, clear}
use panda_lib.OwningList.Laws.{IsList, remove_node-IsList}
use panda_lib.OwningList.Loops.{Cleared, clear_all}

-- The nodes 1, 2 and 3 with the values 10, 20 and 30.
abbrev three : OwningList ℕ
three = record {
  value = λ a. 10 * a;
  valid = λ a. true;
  next = λ a. if a == 1 then 2 else if a == 2 then 3 else 0;
  prev = λ a. if a == 3 then 2 else if a == 2 then 1 else 0;
  size = 3;
  first = 1;
  last = 3;
}

three-IsList : IsList three (1 ∷ 2 ∷ 3 ∷ [])
three-IsList = record {
  links = (
    ground arith,
    refl,
    refl,
    refl,
    (ground arith, refl, refl, refl, (ground arith, refl, refl, refl, tt)),
  );
  first_is = refl;
  last_is = refl;
  size_is = refl;
  all_valid = λ a i. refl;
}

remove_node-IsList_example :
    IsList (remove_node 2 three) (1 ∷ 3 ∷ [])
    × ((remove_node 2 three).valid 2 ≡ false)
    × ((remove_node 2 three).next 2 ≡ 3)
remove_node-IsList_example = remove_node-IsList three (1 ∷ []) (3 ∷ []) 2 three-IsList (omega arith)

clear_all_example :
    (m : OwningList ℕ) × (clear 9 three ≡ some m) × IsList m [] × Cleared three m (1 ∷ 2 ∷ 3 ∷ [])
clear_all_example = clear_all 9 three (1 ∷ 2 ∷ 3 ∷ []) three-IsList (omega arith)
