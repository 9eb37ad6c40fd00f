-- ===== src/MemoryPool.antt =====
-- src/panda/memory.h and src/panda/memory.cc: pools of blocks of one size, on a platform with
-- pointers of 8 bytes. `word` is the memory of the first word of each block; `fresh` is the address
-- that `new char[]` returns.
pub mod Laws
pub mod Buckets
mod Examples
use panda_lib.Base.{
  ℕ, zero, suc, ◌+◌, ◌-◌, ◌*◌, ◌/◌, ◌%◌, Bool, true, false, ◌&&◌, ◌||◌, Option, none, some, List,
  [], ◌∷◌, ◌==◌, leb, ltb, if◌then◌else◌,
}
use panda_lib.Links.Seg.{Ptr, Field, write}

pub record Pool : Type 0 where
  pub list : Ptr
  pub size : ℕ
  pub len : ℕ

-- `pools` has the newest pool first.
pub record MemoryPool : Type 0 where
  pub blocksize : ℕ
  pub pools : List Pool
  pub first_free : Ptr
  pub word : Field

-- `size & 7` is `size % 8`, and `size & ~7` is `size / 8 * 8`.
unfoldable pub round_up : ℕ → ℕ
round_up size = if size % 8 == 0 then size else (size + 8) / 8 * 8

unfoldable pub new_pool : ℕ → Field → MemoryPool
unfolding round_up
new_pool blocksize word = record {
  blocksize = round_up blocksize;
  pools = [];
  first_free = 0;
  word = word;
}

-- The size of the next pool.
unfoldable pub next_size : List Pool → ℕ
next_size [] = 16
next_size (p ∷ ps) = p.size * 2

-- The loop that links the `n` blocks from `elem` on.
unfoldable pub link_blocks : ℕ → ℕ → Ptr → Field → Field
link_blocks blocksize zero elem word = word
link_blocks blocksize (suc n) elem word =
    link_blocks blocksize n (elem + blocksize) (write word elem (elem + blocksize))

unfoldable pub grow : Ptr → MemoryPool → MemoryPool
unfolding next_size link_blocks
grow fresh m =
    let size = next_size m.pools in
    let len = size * m.blocksize in
    record m {
      pools = record { list = fresh; size = size; len = len } ∷ m.pools;
      word = write (link_blocks m.blocksize size fresh m.word) (fresh + len - m.blocksize) 0;
      first_free = fresh;
    }

take_first : MemoryPool → MemoryPool × Ptr
take_first m = (record m { first_free = m.word m.first_free }, m.first_free)

unfoldable pub allocate : Ptr → MemoryPool → MemoryPool × Ptr
unfolding grow take_first
allocate fresh m = take_first (if m.first_free == 0 then grow fresh m else m)

unfoldable pub deallocate : Ptr → MemoryPool → MemoryPool
deallocate elem m = record m { word = write m.word elem m.first_free; first_free = elem }

is_in : Ptr → List Pool → Bool
is_in elem [] = false
is_in elem (p ∷ ps) = (leb p.list elem && ltb elem (p.list + p.len)) || is_in elem ps

unfoldable pub is_mine : Ptr → MemoryPool → Bool
unfolding is_in
is_mine elem m = is_in elem m.pools
