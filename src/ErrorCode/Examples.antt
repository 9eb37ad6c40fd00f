-- ===== src/ErrorCode/Examples.antt =====
-- Error codes on which the theorems of ErrorCode are applied: all data hold the code 3 of the category 8
-- and behind it 111 of the category 7.
use panda_lib.Base.{◌≡◌, refl, some, List, [], ◌∷◌, arith}
use panda_lib.ErrorCode.{Ptr, StdCode, Heap, Texts, code, make_next, next, assign_code, what}
use panda_lib.ErrorCode.Holds.{values, Holds, next-make_next, assign_code_shared}
use panda_lib.ErrorCode.Text.{joined, what-joined}
use panda_lib.VarInt.Stack.{stack_of}

abbrev outer : StdCode
outer = (3, 8)

abbrev inner : StdCode
inner = (111, 7)

abbrev both_codes : List StdCode
both_codes = outer ∷ inner ∷ []

abbrev heap : Heap
heap a = record { codes = stack_of (values both_codes); cat = 8 ∷ 7 ∷ [] }

heap-Holds : Holds heap 5 both_codes
heap-Holds =
    (omega arith, record { codes = refl; cats = refl; words = (omega arith, (omega arith, tt)) })

-- Every category says 'e' and has the name 'c'; every number is printed as '1'.
abbrev texts : Texts
texts = record { message = λ cat val. 101 ∷ []; name = λ cat. 99 ∷ []; to_string = λ val. 49 ∷ [] }

next-make_next_example :
    (code 6 (make_next 6 (1, 9) 5 heap).1 ≡ some (1, 9))
    × ((a : Ptr) × (k : Heap) × (next 7 6 (make_next 6 (1, 9) 5 heap).1 ≡ some (a, k))
        × Holds k a both_codes)
next-make_next_example =
    next-make_next 6 7 (1, 9) 5 heap both_codes (omega arith) (omega arith) (omega arith)
      (omega arith) (omega arith) heap-Holds

assign_code_shared_example :
    (code 5 heap ≡ some outer)
    × ((assign_code 6 (1, 9) 5 heap).0 ≡ 5)
    × (code 5 (assign_code 6 (1, 9) 5 heap).1 ≡ some (1, 9))
    × Holds (assign_code 6 (1, 9) 5 heap).1 5 ((1, 9) ∷ [])
assign_code_shared_example =
    assign_code_shared 6 5 5 (1, 9) heap outer (inner ∷ []) refl (omega arith) (omega arith)
      heap-Holds

what-joined_example : what texts 5 heap ≡ some (joined texts both_codes)
what-joined_example = what-joined texts heap 5 both_codes heap-Holds
