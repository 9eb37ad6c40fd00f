-- ===== src/VarInt/Stack.antt =====
-- `VarIntStack` of src/panda/varint.h as a stack of words: the storage holds their encodings, the top
-- first.
use Prim.Native.Nat.{bit_and}
use panda_lib.Base.{
  ℕ, zero, suc, ◌+◌, ◌/◌, ◌%◌, ◌^◌, ◌<◌, ◌≡◌, refl, ap, ◌∙◌, Bool-cases, inl, inr, true, false,
  Option, none, some, List, [], ◌∷◌, ◌++◌, ◌==◌, ltb, length, length-append, ge→ltb, take, drop,
  append-nil, arith,
}
use panda_lib.Base.Bits.{top_bit}
use panda_lib.VarInt.{
  IsU32, zigzag, varint_encode_s, decode_s, varint_decode_s, number_of, add_first, first_stop,
  size_of_first, push, pop, top, clear, size, iterate,
}
use panda_lib.VarInt.Codec.{groups, varint_encode-groups}
use panda_lib.VarInt.Zigzag.{zigzag-IsU32, decode_s-varint_encode_s}

take-append {ℓ} : {A : Type ℓ} (xs ys : List A) → take (length xs) (xs ++ ys) ≡ xs
take-append [] ys = refl
take-append (x ∷ xs) ys = ap (λ t. x ∷ t) (take-append xs ys)

drop-append {ℓ} : {A : Type ℓ} (xs ys : List A) → drop (length xs) (xs ++ ys) ≡ ys
drop-append [] ys = refl
drop-append (x ∷ xs) ys = drop-append xs ys

stops : (w : ℕ) → w < 128 → (bit_and w 0x80 == 0) ≡ true
stops w h = ground (arith, top_bit w)

goes_on : (g : ℕ) → g < 128 → (bit_and (g + 128) 0x80 == 0) ≡ false
goes_on g h = ground (arith, top_bit (g + 128))

first_stop-groups :
    (k v : ℕ) (rest : List ℕ)
    → v < 128 ^ suc k
    → first_stop (groups k v ++ rest) + 1 ≡ length (groups k v)
unfolding first_stop groups
first_stop-groups zero v rest h = rw (stops v (omega arith)) (omega arith)
first_stop-groups (suc k) v rest h = elim (Bool-cases (ltb 127 v)) [
  | inr e ↦ rw e (rw (stops v (ground arith)) (omega arith))
  | inl e ↦
      rw (e, goes_on (v % 128) (omega arith))
        (omega (arith, first_stop-groups k (v / 128) rest (omega arith)))
]

size-groups :
    (k v : ℕ) (rest : List ℕ) → v < 128 ^ suc k → size (groups k v ++ rest) ≡ suc (size rest)
unfolding size groups
size-groups zero v rest h = rw (stops v (omega arith)) (omega arith)
size-groups (suc k) v rest h = elim (Bool-cases (ltb 127 v)) [
  | inr e ↦ rw e (rw (stops v (ground arith)) (omega arith))
  | inl e ↦
      rw (e, goes_on (v % 128) (omega arith))
        (omega (arith, size-groups k (v / 128) rest (omega arith)))
]

-- What a number is in the storage.
encoded : (v : ℕ) → IsU32 v → varint_encode_s v ≡ groups 4 (zigzag v)
unfolding varint_encode_s
encoded v w = varint_encode-groups (zigzag v) (zigzag-IsU32 v w)

size_of_first-push :
    (v : ℕ) (storage : List ℕ)
    → IsU32 v
    → size_of_first (push v storage) ≡ length (varint_encode_s v)
unfolding size_of_first push
size_of_first-push v storage w =
    rw (encoded v w) (first_stop-groups 4 (zigzag v) storage (omega (arith, zigzag-IsU32 v w)))

module _ (v : ℕ) (storage : List ℕ) (w : IsU32 v) where
  -- `pop` takes back the `push` of a word, whatever the storage was.
  pop-push : pop (push v storage) ≡ some storage
  unfolding pop
  pop-push =
      let shown : push v storage ≡ varint_encode_s v ++ storage = unfold push in refl in
      let room : ltb (length (varint_encode_s v ++ storage)) (length (varint_encode_s v)) ≡ false =
        ge→ltb _ _ (omega (arith, length-append (varint_encode_s v) storage)) in
      rw (size_of_first-push v storage w, shown, room)
        (ap some (drop-append (varint_encode_s v) storage))

  top-push : top (push v storage) ≡ some v
  unfolding top varint_decode_s
  top-push =
      let shown : push v storage ≡ varint_encode_s v ++ storage = unfold push in refl in
      let alone : decode_s (varint_encode_s v) ≡ some (v, []) =
        rw append-nil at (decode_s-varint_encode_s v [] w) in
      rw (size_of_first-push v storage w, shown, take-append (varint_encode_s v) storage)
        (ap number_of alone)

  size-push : size (push v storage) ≡ suc (size storage)
  unfolding push
  size-push = rw (encoded v w) (size-groups 4 (zigzag v) storage (omega (arith, zigzag-IsU32 v w)))

-- What `push` adds, `top` shows, `size` counts and `pop` takes away again, whatever the storage was.
pub push_lem :
    (v : ℕ) (storage : List ℕ)
    → IsU32 v
    → (pop (push v storage) ≡ some storage)
      × (top (push v storage) ≡ some v)
      × (size (push v storage) ≡ suc (size storage))
push_lem v storage w = (pop-push v storage w, top-push v storage w, size-push v storage w)

-- `pop` and `top` of an empty stack: `offset` throws, and the decoding has no byte to read.
pub empty_lem : (pop [] ≡ none) × (top [] ≡ none)
unfolding pop top size_of_first varint_decode_s decode_s
empty_lem = (refl, refl)

-- A stack that was cleared has no words, and a word that is then pushed is the only one.
pub push-clear :
    (v : ℕ) (storage : List ℕ)
    → IsU32 v
    → (size (clear storage) ≡ 0)
      × (size (push v (clear storage)) ≡ 1)
      × (pop (push v (clear storage)) ≡ some [])
unfolding clear
push-clear v storage w =
    let alone = push_lem v [] w in ((unfold size in refl), alone.2 ∙ (unfold size in refl), alone.0)

-- The storage of a stack of words.
abbrev pub stack_of : List ℕ → List ℕ
stack_of [] = []
stack_of (v ∷ vs) = push v (stack_of vs)

abbrev pub AllU32 : List ℕ → Type 0
AllU32 [] = Unit {0}
AllU32 (v ∷ vs) = IsU32 v × AllU32 vs

iterate_step :
    (fuel v : ℕ) (storage rest : List ℕ)
    → decode_s storage ≡ some (v, rest)
    → iterate (suc fuel) storage ≡ add_first v (iterate fuel rest)
unfolding iterate
iterate_step fuel v [] rest e = unfold decode_s in cc
iterate_step fuel v (c ∷ cs) rest e = λ i. elim (e i) as (λ x. Option (List ℕ)) [
  | none ↦ none
  | some (w, r) ↦ add_first w (iterate fuel r)
]

-- The iterators go through the 32-bit words of a stack from the top, and end; the fuel is more
-- than the number of words.
pub iterate-stack_of :
    (fuel : ℕ) (vs : List ℕ) → AllU32 vs → length vs < fuel → iterate fuel (stack_of vs) ≡ some vs
unfolding add_first
iterate-stack_of zero vs all enough = absurd (omega arith)
iterate-stack_of (suc fuel) [] all enough = unfold iterate in refl
iterate-stack_of (suc fuel) (v ∷ vs) all enough =
    iterate_step fuel v (push v (stack_of vs)) (stack_of vs)
      (unfold push in decode_s-varint_encode_s v (stack_of vs) all.0)
    ∙ ap (add_first v) (iterate-stack_of fuel vs all.1 (omega arith))
