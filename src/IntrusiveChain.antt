-- ===== src/IntrusiveChain.antt =====
-- src/panda/intrusive_chain.h: a chain whose nodes hold their own links. A node is an address and
-- its `next` and `prev` are what `intrusive_chain_next` and `intrusive_chain_prev` get and set.
pub mod Laws
pub mod Edges
mod Examples
use panda_lib.Base.{
  ℕ, zero, suc, ◌+◌, ◌-◌, ◌%◌, ◌^◌, Bool, true, false, not, ◌&&◌, Option, none, some, ◌==◌,
  if◌then◌else◌,
}
use panda_lib.Links.Seg.{Ptr, Field, write}

pub record IntrusiveChain : Type 0 where
  pub head : Ptr
  pub tail : Ptr
  pub size : ℕ
  pub next : Field
  pub prev : Field

-- `_size` is a `size_t`.
abbrev pub one_more : ℕ → ℕ
one_more n = (n + 1) % 2 ^ 64

abbrev pub one_less : ℕ → ℕ
one_less n = (n + 2 ^ 64 - 1) % 2 ^ 64

unfoldable pub push_back : Ptr → IntrusiveChain → IntrusiveChain
push_back n c =
    if c.size == 0 then record c { head = n; tail = n; size = one_more c.size } else record c {
      next = write (write c.next c.tail n) n 0;
      prev = write c.prev n c.tail;
      tail = n;
      size = one_more c.size;
    }

pub push_front : Ptr → IntrusiveChain → IntrusiveChain
push_front n c =
    if c.size == 0 then record c { head = n; tail = n; size = one_more c.size } else record c {
      prev = write (write c.prev c.head n) n 0;
      next = write c.next n c.head;
      head = n;
      size = one_more c.size;
    }

-- The result is false where the chain was empty or has become empty.
pub pop_back : IntrusiveChain → IntrusiveChain × Bool
pop_back c = if c.head == c.tail then (record c { head = 0; tail = 0; size = 0 }, false) else (
  record c {
    tail = c.prev c.tail;
    next = write c.next (c.prev c.tail) 0;
    prev = write c.prev c.tail 0;
    size = one_less c.size;
  },
  true,
)

pub pop_front : IntrusiveChain → IntrusiveChain × Bool
pop_front c = if c.head == c.tail then (record c { head = 0; tail = 0; size = 0 }, false) else (
  record c {
    head = c.next c.head;
    prev = write c.prev (c.next c.head) 0;
    next = write c.next c.head 0;
    size = one_less c.size;
  },
  true,
)

-- The node that the resulting iterator points to is the new one.
pub insert : Ptr → Ptr → IntrusiveChain → IntrusiveChain × Ptr
unfolding push_back push_front
insert pos n c =
    let before = c.prev pos in
    if pos == 0 then (push_back n c, n) else if before == 0 then (push_front n c, n) else (
      record c {
        size = one_more c.size;
        prev = write (write c.prev n before) pos n;
        next = write (write c.next n pos) before n;
      },
      n,
    )

-- The node that the resulting iterator points to, and null for `end()`.
pub erase : Ptr → IntrusiveChain → IntrusiveChain × Ptr
unfolding pop_back pop_front
erase pos c =
    let before = c.prev pos in
    let behind = c.next pos in
    if pos == 0
    then (c, 0)
    else if before == 0
    then (if (behind == 0) && not (pos == c.head)
        then (c, 0)
        else ((pop_front c).0, (pop_front c).0.head))
    else if behind == 0
    then ((pop_back c).0, 0)
    else (
      record c {
        next = write (write c.next before behind) pos 0;
        prev = write (write c.prev behind before) pos 0;
        size = one_less c.size;
      },
      behind,
    )

-- The loop of `clear`, over the nodes left; `none` where they are more.
clear_from : ℕ → Ptr → IntrusiveChain → Option IntrusiveChain
clear_from zero n c = none
clear_from (suc fuel) n c =
    let rest =
      clear_from fuel (c.next n) (record c { next = write c.next n 0; prev = write c.prev n 0 }) in
    if n == 0 then some c else rest

emptied : Option IntrusiveChain → Option IntrusiveChain
emptied none = none
emptied (some c) = some (record c { head = 0; tail = 0; size = 0 })

pub clear : ℕ → IntrusiveChain → Option IntrusiveChain
unfolding clear_from emptied
clear fuel c = emptied (clear_from fuel c.head c)
