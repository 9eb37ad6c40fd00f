-- ===== src/BasicString/Memory.antt =====
-- The representation of a string of src/panda/basic_string.h on a 64-bit platform with one-byte
-- characters: the object, the heap of counted buffers, and what an operation on them can end in.
use panda_lib.Base.{
  ℕ, ◌+◌, ◌-◌, ◌^◌, ◌&&◌, Option, none, some, List, leb, ltb, ◌==◌, if◌then◌else◌, slice,
}

-- Characters by their offset from the start of a region.
abbrev pub Chars : Type 0
Chars = ℕ → ℕ

pub record Buffer : Type 0 where
  pub capacity : ℕ
  pub refcnt : ℕ
  pub chars : Chars

-- The buffers by their address; `none` where there is none.
abbrev pub Heap : Type 0
Heap = ℕ → Option Buffer

abbrev pub write : Heap → ℕ → Option Buffer → Heap
write h b c a = if b == a then c else h a

-- `_state` with the part of the union that it selects: the literal's characters and size, the
-- object's own bytes, or the address of a counted buffer and the deallocator that frees it.
pub data Storage : Type 0 where
  literal : Chars → ℕ → Storage
  sso : Chars → Storage
  internal external : ℕ → ℕ → Storage

-- `str` is the offset of `_str` from the start of its region: the literal, the object's own bytes,
-- or the characters of the buffer.
pub record Str : Type 0 where
  pub storage : Storage
  pub str : ℕ
  pub length : ℕ

abbrev pub string : Storage → ℕ → ℕ → Str
string st str length = record { storage = st; str = str; length = length }

abbrev pub max_sso_chars : ℕ
max_sso_chars = 23

abbrev pub size_mod : ℕ
size_mod = 2 ^ 64

abbrev pub npos : ℕ
npos = size_mod - 1

abbrev pub max_size : ℕ
max_size = npos - 12

-- The deallocator of the string's own allocator.
abbrev pub alloc_deallocate : ℕ
alloc_deallocate = 0

pub data Error : Type 0 where
  out_of_range length_error : Error

-- A `fault` is an access outside of the memory that the string may use. An exception leaves the
-- string and the heap as they were when it was thrown.
pub data Outcome : Type 0 where
  ok : Str → Heap → Outcome
  throw : Error → Str → Heap → Outcome
  fault : Outcome

infixl 5 ◌>>=◌
abbrev pub ◌>>=◌ : Outcome → (Str × Heap → Outcome) → Outcome
ok s h >>= k = k (s, h)
throw e s h >>= k = throw e s h
fault >>= k = fault

abbrev pub chars_of : Option Buffer → Chars
chars_of none = λ i. 0
chars_of (some b) = b.chars

abbrev pub capacity_of : Option Buffer → ℕ
capacity_of none = 0
capacity_of (some b) = b.capacity

abbrev pub refcnt_of : Option Buffer → ℕ
refcnt_of none = 0
refcnt_of (some b) = b.refcnt

-- The characters of the region that `_str` points into, and the size of the region.
abbrev pub region_of : Storage → Heap → Chars
region_of (literal text size) h = text
region_of (sso fill) h = fill
region_of (internal b d) h = chars_of (h b)
region_of (external b d) h = chars_of (h b)

abbrev pub region : Str → Heap → Chars
region s h = region_of s.storage h

abbrev pub room_of : Storage → Heap → ℕ
room_of (literal text size) h = size
room_of (sso fill) h = max_sso_chars
room_of (internal b d) h = capacity_of (h b)
room_of (external b d) h = capacity_of (h b)

abbrev pub room : Str → Heap → ℕ
room s h = room_of s.storage h

-- What the string stands for.
unfoldable pub view : Str → Heap → List ℕ
view s h = slice s.str s.length (region s h)

-- `count` characters over a region from offset `from` on.
abbrev pub overwrite : Chars → ℕ → ℕ → Chars → Chars
overwrite m from count f i = if leb from i && ltb i (from + count) then f (i - from) else m i

write_buffer : ℕ → ℕ → ℕ → Chars → Str → Heap → Option Buffer → Outcome
write_buffer b from count f s h none = fault
write_buffer b from count f s h (some c) =
    if leb (from + count) c.capacity
    then ok s (write h b (some (record c { chars = overwrite c.chars from count f })))
    else fault

write_at : Storage → ℕ → ℕ → Chars → Str → Heap → Outcome
write_at (literal text size) from count f s h = fault
write_at (sso fill) from count f s h =
    if leb (from + count) max_sso_chars
    then ok (record s { storage = sso (overwrite fill from count f) }) h
    else fault
write_at (internal b d) from count f s h = write_buffer b from count f s h (h b)
write_at (external b d) from count f s h = write_buffer b from count f s h (h b)

-- `traits_type::copy`, `move` and `assign` to `_str + pos`: `count` characters, the `i`th is `f i`.
unfoldable pub write_chars : ℕ → ℕ → Chars → Str → Heap → Outcome
unfolding write_buffer write_at
write_chars pos count f s h = write_at s.storage (s.str + pos) count f s h
