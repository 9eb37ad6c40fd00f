-- ===== src/MemoryPool/Buckets.antt =====
-- The pool that `DynamicMemoryPool` of src/panda/memory.h takes for a size.
use panda_lib.Base.{
  ℕ, ◌+◌, ◌-◌, ◌*◌, ◌/◌, ◌%◌, ◌≤◌, ◌<◌, ◌≡◌, ◌≢◌, refl, true, Option, none, some, ◌==◌, leb,
  if◌then◌else◌, arith, Bool-cases, inl, inr,
}
use panda_lib.MemoryPool.{round_up}

pub data Kind : Type 0 where
  small : Kind
  medium : Kind
  big : Kind

-- The array of pools, the place in it, and the size for which a pool is made there.
pub record Bucket : Type 0 where
  pub kind : Kind
  pub index : ℕ
  pub blocksize : ℕ

-- `none` is the exception `invalid_argument`. The sizes are not 0.
unfoldable pub bucket : ℕ → Option Bucket
bucket size =
    if leb size 1024
    then some
        (record { kind = small; index = (size - 1) / 4; blocksize = ((size - 1) / 4 + 1) * 4 })
    else if leb size 16384
    then some
        (record { kind = medium; index = (size - 1) / 64; blocksize = ((size - 1) / 64 + 1) * 64 })
    else if leb size 262144
    then some (record {
      kind = big;
      index = (size - 1) / 1024;
      blocksize = ((size - 1) / 1024 + 1) * 1024;
    })
    else none

-- A block size is kept where it is a number of words, and goes up to the next one otherwise.
pub round_up_lem :
    (size : ℕ) → (size ≤ round_up size) × (round_up size < size + 8) × (round_up size % 8 ≡ 0)
unfolding round_up
round_up_lem size = elim (Bool-cases (size % 8 == 0)) [
  | inl e ↦ rw e (omega arith, omega arith, ground arith)
  | inr e ↦
      (let ne : size % 8 ≢ 0 = ground arith in
        rw e (omega (arith, ne), omega (arith, ne), omega arith))
]

-- What a bucket promises for a size.
pub record IsRoomy (size : ℕ) (b : Bucket) : Type 0 where
  pub in_array : b.index < 256
  pub room : size ≤ round_up b.blocksize
  pub waste : round_up b.blocksize < size + 1032

small_room :
    (size : ℕ)
    → 0 < size
    → size ≤ 1024
    → IsRoomy size
        (record { kind = small; index = (size - 1) / 4; blocksize = ((size - 1) / 4 + 1) * 4 })
small_room size pos fits =
    let r = round_up_lem (((size - 1) / 4 + 1) * 4) in
    record { in_array = omega arith; room = omega (arith, r.0); waste = omega (arith, r.1) }

medium_room :
    (size : ℕ)
    → 0 < size
    → size ≤ 16384
    → IsRoomy size
        (record { kind = medium; index = (size - 1) / 64; blocksize = ((size - 1) / 64 + 1) * 64 })
medium_room size pos fits =
    let r = round_up_lem (((size - 1) / 64 + 1) * 64) in
    record { in_array = omega arith; room = omega (arith, r.0); waste = omega (arith, r.1) }

big_room :
    (size : ℕ)
    → 0 < size
    → size ≤ 262144
    → IsRoomy size (record {
      kind = big;
      index = (size - 1) / 1024;
      blocksize = ((size - 1) / 1024 + 1) * 1024;
    })
big_room size pos fits =
    let r = round_up_lem (((size - 1) / 1024 + 1) * 1024) in
    record { in_array = omega arith; room = omega (arith, r.0); waste = omega (arith, r.1) }

-- Every size from 1 up to 256k has a bucket inside of the arrays whose blocks have room for it.
pub bucket-IsRoomy :
    (size : ℕ) → 0 < size → size ≤ 262144 → (b : Bucket) × (bucket size ≡ some b) × IsRoomy size b
unfolding bucket
bucket-IsRoomy size pos fits = elim (Bool-cases (leb size 1024)) [
  | inl e ↦ (
    record { kind = small; index = (size - 1) / 4; blocksize = ((size - 1) / 4 + 1) * 4 },
    rw e refl,
    small_room size pos (ground arith),
  )
  | inr e ↦ elim (Bool-cases (leb size 16384)) [
    | inl d ↦ (
      record { kind = medium; index = (size - 1) / 64; blocksize = ((size - 1) / 64 + 1) * 64 },
      rw (e, d) refl,
      medium_room size pos (ground arith),
    )
    | inr d ↦ (
      record { kind = big; index = (size - 1) / 1024; blocksize = ((size - 1) / 1024 + 1) * 1024 },
      (let c : leb size 262144 ≡ true = ground arith in rw (e, d, c) refl),
      big_room size pos fits,
    )
  ]
]

-- A larger size is refused.
pub bucket_refused : (size : ℕ) → 262144 < size → bucket size ≡ none
unfolding bucket
bucket_refused size h = ground arith
