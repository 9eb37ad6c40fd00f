-- ===== src/MemoryPool/Examples.antt =====
-- Pools on which the theorems of MemoryPool are applied.
use panda_lib.Base.{suc, ◌≡◌, refl, some, [], ◌∷◌, arith, ◌==◌, if◌then◌else◌}
use panda_lib.MemoryPool.{MemoryPool, next_size}
use panda_lib.MemoryPool.Buckets.{Bucket, bucket, IsRoomy, bucket-IsRoomy}
use panda_lib.MemoryPool.Laws.{IsFree}

-- A pool of words with the free blocks 8 and 16.
abbrev two : MemoryPool
two = record { blocksize = 8; pools = []; first_free = 8; word = λ a. if a == 8 then 16 else 0 }

abbrev dry : MemoryPool
dry = record { blocksize = 8; pools = []; first_free = 0; word = λ a. 0 }

two-IsFree : IsFree two (8 ∷ 16 ∷ [])
two-IsFree = record {
  way = (ground arith, refl, refl, (ground arith, refl, refl, tt));
  first_is = refl;
}

dry-IsFree : IsFree dry []
dry-IsFree = record { way = tt; first_is = refl }

first_size : next_size [] ≡ suc 15
unfolding next_size
first_size = refl

bucket-IsRoomy_example : (b : Bucket) × (bucket 2000 ≡ some b) × IsRoomy 2000 b
bucket-IsRoomy_example = bucket-IsRoomy 2000 (omega arith) (omega arith)
