-- ===== src/IntrusiveChain/Examples.antt =====
-- Chains on which the theorems of IntrusiveChain are applied.
use panda_lib.Base.{◌≡◌, refl, [], ◌∷◌, arith, ◌==◌, if◌then◌else◌}
use panda_lib.IntrusiveChain.{IntrusiveChain, insert}
use panda_lib.IntrusiveChain.Laws.{IsChain, Loose, insert-IsChain}

abbrev three : IntrusiveChain
three = record {
  head = 1;
  tail = 3;
  size = 3;
  next = λ a. if a == 1 then 2 else if a == 2 then 3 else 0;
  prev = λ a. if a == 3 then 2 else if a == 2 then 1 else 0;
}

three-IsChain : IsChain three (1 ∷ 2 ∷ 3 ∷ [])
three-IsChain = record {
  links = (
    ground arith,
    refl,
    refl,
    refl,
    (ground arith, refl, refl, refl, (ground arith, refl, refl, refl, tt)),
  );
  head_is = refl;
  tail_is = refl;
  size_is = refl;
  fits = omega arith;
}

four-Loose : Loose three (1 ∷ 2 ∷ 3 ∷ []) 4
four-Loose = record { ne = ground arith; outside = refl; next_null = refl; prev_null = refl }

insert-IsChain_example :
    IsChain (insert 3 4 three).0 (1 ∷ 2 ∷ 4 ∷ 3 ∷ []) × ((insert 3 4 three).1 ≡ 4)
insert-IsChain_example =
    insert-IsChain 4 three (1 ∷ 2 ∷ []) (3 ∷ []) three-IsChain four-Loose (omega arith)
