-- ===== src/MemoryPool/Laws.antt =====
-- The free list of a pool of src/panda/memory.h.
use panda_lib.Base.{
  ℕ, zero, suc, ◌+◌, ◌-◌, ◌*◌, ◌≤◌, ◌<◌, ◌≡◌, ◌≢◌, refl, Bool, true, false, ◌||◌, List, [], ◌∷◌,
  arith, ◌==◌, ==_refl, ◌∙◌, ap, subst, sym,
}
use panda_lib.Links.Seg.{Ptr, Field, write, has, head_or, ne_of_has}
use native.Mathlib.Nat.{suc-mul}
use panda_lib.MemoryPool.{
  MemoryPool, next_size, link_blocks, grow, take_first, allocate, deallocate,
}

-- The distinct blocks `xs`, each leading to the next, and the last one to nothing.
abbrev pub Way : Field → List Ptr → Type 0
Way word [] = Unit {0}
Way word (x ∷ xs) = (x ≢ 0) × (has xs x ≡ false) × (word x ≡ head_or 0 xs) × Way word xs

-- The free blocks of a pool.
pub record IsFree (m : MemoryPool) (xs : List Ptr) : Type 0 where
  pub way : Way m.word xs
  pub first_is : m.first_free ≡ head_or 0 xs

-- `n` blocks from an address on.
abbrev pub blocks : ℕ → ℕ → Ptr → List Ptr
blocks size zero a = []
blocks size (suc n) a = a ∷ blocks size n (a + size)

Way-frame :
    (f g : Field) (xs : List Ptr) → ((a : Ptr) → has xs a ≡ true → g a ≡ f a) → Way f xs → Way g xs
Way-frame f g [] same w = tt
Way-frame f g (x ∷ xs) same w =
    (w.0, w.1, same x (ground arith) ∙ w.2, Way-frame f g xs (λ a i. same a (ground arith)) w.3)

blocks_from : (size n a b : ℕ) → 0 < size → b < a → has (blocks size n a) b ≡ false
blocks_from size zero a b h l = refl
blocks_from size (suc n) a b h l = ground (arith, blocks_from size n (a + size) b)

or_left : (a b : Bool) → (a || b) ≡ false → a ≡ false
or_left a b e = ground arith

or_right : (a b : Bool) → (a || b) ≡ false → b ≡ false
or_right a b e = ground arith

null_ne : (x : ℕ) → x ≢ 0 → (x == 0) ≡ false
null_ne x ne = ground arith

write_here : (f : Field) (x v : Ptr) → write f x v x ≡ v
write_here f x v = rw (==_refl x) refl

write_there : (f : Field) (x v a : Ptr) → (x == a) ≡ false → write f x v a ≡ f a
write_there f x v a e = rw e refl

other : (xs : List Ptr) (x a : Ptr) → has xs x ≡ false → has xs a ≡ true → (x == a) ≡ false
other xs x a o i = ne_of_has xs a x i o

linked_elsewhere :
    (size n a : ℕ) (w : Field) (b : Ptr)
    → has (blocks size n a) b ≡ false
    → link_blocks size n a w b ≡ w b
unfolding link_blocks
linked_elsewhere size zero a w b o = refl
linked_elsewhere size (suc n) a w b o =
    linked_elsewhere size n (a + size) (write w a (a + size)) b
      (or_right (a == b) (has (blocks size n (a + size)) b) o)
    ∙ write_there w a (a + size) b (or_left (a == b) (has (blocks size n (a + size)) b) o)

-- The last of `n + 1` blocks.
abbrev last_of : ℕ → ℕ → Ptr → Ptr
last_of size zero a = a
last_of size (suc n) a = last_of size n (a + size)

last_of-above : (size n a : ℕ) → a ≤ last_of size n a
last_of-above size zero a = omega arith
last_of-above size (suc n) a = omega (arith, last_of-above size n (a + size))

last_of-end : (size n a : ℕ) → last_of size n a ≡ a + suc n * size - size
last_of-end size zero a = omega (arith, suc-mul 0 size)
last_of-end size (suc n) a =
    last_of-end size n (a + size) ∙ omega (arith, suc-mul (suc n) size, suc-mul n size)

linked :
    (size n a : ℕ) (w : Field)
    → a ≢ 0
    → 0 < size
    → Way (write (link_blocks size (suc n) a w) (last_of size n a) 0) (blocks size (suc n) a)
unfolding link_blocks
linked size zero a w ne h = (ne, refl, write_here (write w a (a + size)) a 0, tt)
linked size (suc n) a w ne h =
    let up = last_of-above size n (a + size) in
    let own : has (blocks size (suc n) (a + size)) a ≡ false =
      blocks_from size (suc n) (a + size) a h (omega arith) in
    (
      ne,
      own,
      write_there (link_blocks size (suc n) (a + size) (write w a (a + size)))
            (last_of size n (a + size)) 0 a (ground (arith, up))
          ∙ linked_elsewhere size (suc n) (a + size) (write w a (a + size)) a own
          ∙ write_here w a (a + size),
      linked size n (a + size) (write w a (a + size)) (ground arith) h,
    )

module _ (m : MemoryPool) where
  -- A pool that grows has the new blocks free, each of its own, and nothing else.
  pub grow-IsFree :
      (fresh k : ℕ)
      → fresh ≢ 0
      → 0 < m.blocksize
      → next_size m.pools ≡ suc k
      → IsFree (grow fresh m) (blocks m.blocksize (suc k) fresh)
  unfolding grow
  grow-IsFree fresh k ne pos e = record {
    way =
        subst
          (λ n.
            Way
              (write (link_blocks m.blocksize n fresh m.word)
                (fresh + n * m.blocksize - m.blocksize) 0)
              (blocks m.blocksize (suc k) fresh))
          (sym e)
          (subst
            (λ p.
              Way (write (link_blocks m.blocksize (suc k) fresh m.word) p 0)
                (blocks m.blocksize (suc k) fresh))
            (last_of-end m.blocksize k fresh) (linked m.blocksize k fresh m.word ne pos));
    first_is = refl;
  }

  -- `allocate` of a pool with a free block gives that block, which is not free any more.
  pub allocate-IsFree :
      (fresh x : Ptr) (xs : List Ptr)
      → IsFree m (x ∷ xs)
      → ((allocate fresh m).1 ≡ x) × IsFree (allocate fresh m).0 xs
  unfolding allocate take_first
  allocate-IsFree fresh x xs free =
      rw (free.first_is, null_ne x free.way.0)
        (refl, record { way = free.way.3; first_is = free.way.2 })

  -- `allocate` of a pool without a free block and with a block size that is not 0 gives the first
  -- of the blocks at the new address, which is not null, and has the others free.
  pub allocate_grown :
      (fresh k : ℕ)
      → IsFree m []
      → fresh ≢ 0
      → 0 < m.blocksize
      → next_size m.pools ≡ suc k
      → ((allocate fresh m).1 ≡ fresh)
        × IsFree (allocate fresh m).0 (blocks m.blocksize k (fresh + m.blocksize))
  unfolding allocate take_first
  allocate_grown fresh k free ne pos e =
      let grown = grow-IsFree fresh k ne pos e in
      let none_left : (m.first_free == 0) ≡ true = ground (arith, free.first_is) in
      rw none_left (
        grown.first_is,
        record {
          way = grown.way.3;
          first_is = ap (grow fresh m).word grown.first_is ∙ grown.way.2;
        },
      )

freed_first :
    (m : MemoryPool) (x : Ptr) (xs : List Ptr)
    → IsFree m xs
    → x ≢ 0
    → has xs x ≡ false
    → IsFree (deallocate x m) (x ∷ xs)
unfolding deallocate
freed_first m x xs free ne o = record {
  way = (
    ne,
    o,
    write_here m.word x m.first_free ∙ free.first_is,
    Way-frame m.word (write m.word x m.first_free) xs
        (λ a i. write_there m.word x m.first_free a (other xs x a o i)) free.way,
  );
  first_is = refl;
}

-- `deallocate` of a block that is not null and not free frees it, and the next `allocate` gives
-- it again and leaves the free blocks of before.
pub deallocate-IsFree :
    (m : MemoryPool) (fresh x : Ptr) (xs : List Ptr)
    → IsFree m xs
    → x ≢ 0
    → has xs x ≡ false
    → IsFree (deallocate x m) (x ∷ xs)
      × ((allocate fresh (deallocate x m)).1 ≡ x)
      × IsFree (allocate fresh (deallocate x m)).0 xs
deallocate-IsFree m fresh x xs free ne o =
    let freed = freed_first m x xs free ne o in
    let again = allocate-IsFree (deallocate x m) fresh x xs freed in (freed, again.0, again.1)
