-- ===== src/BasicString/Storage.antt =====
-- The private part of src/panda/basic_string.h: getting, sharing and giving up storage.
-- `fresh` is the address that the allocator returns where a new buffer is wanted, and `scale` is
-- the multiplication of a capacity by the `float` factor and its conversion back to `size_type`.
use panda_lib.Base.{ℕ, ◌+◌, ◌-◌, ◌^◌, ◌&&◌, none, some, leb, ltb, ◌==◌, if◌then◌else◌}
use panda_lib.BasicString.Memory.{
  Chars, Buffer, Heap, write, Storage, literal, sso, internal, external, Str, max_sso_chars,
  max_size, alloc_deallocate, length_error, Outcome, ok, throw, ◌>>=◌, refcnt_of, capacity_of,
  chars_of, region, write_chars,
}

abbrev pub new_buffer : ℕ → ℕ → Chars → Buffer
new_buffer capacity refcnt chars = record { capacity = capacity; refcnt = refcnt; chars = chars }

unfoldable pub set_refcnt : Heap → ℕ → ℕ → Heap
set_refcnt h b n = elim (h b) [
  | none ↦ h
  | some c ↦ write h b (some (new_buffer c.capacity n c.chars))
]

unfoldable pub new_auto : ℕ → ℕ → Str → Heap → Outcome
new_auto fresh capacity s h =
    if leb capacity max_sso_chars
    then ok (record s { storage = sso (λ i. 0); str = 0 }) h
    else if ltb max_size capacity
    then throw length_error s h
    else ok (record s { storage = internal fresh alloc_deallocate; str = 0 })
        (write h fresh (some (new_buffer capacity 1 (λ i. 0))))

-- `--refcnt` of 32 bits.
abbrev pub one_less : ℕ → ℕ
one_less n = if n == 0 then 2 ^ 32 - 1 else n - 1

-- `_release_internal` and `_release_external` of a buffer: the last reference frees it.
unfoldable pub release_buffer : ℕ → Heap → Heap
unfolding set_refcnt
release_buffer b h =
    if one_less (refcnt_of (h b)) == 0
    then write h b none
    else set_refcnt h b (one_less (refcnt_of (h b)))

release_at : Storage → Heap → Heap
release_at (literal text size) h = h
release_at (sso fill) h = h
release_at (internal b d) h = release_buffer b h
release_at (external b d) h = release_buffer b h

unfoldable pub release : Str → Heap → Heap
unfolding release_buffer release_at
release s h = release_at s.storage h

-- `--refcnt` of a buffer that another string is known to hold.
unfoldable pub drop_shared : ℕ → Heap → Heap
unfolding set_refcnt
drop_shared b h = set_refcnt h b (one_less (refcnt_of (h b)))

unfoldable pub detach_str : ℕ → ℕ → Str → Heap → Outcome
detach_str fresh capacity s h = do
  (t, g) ← new_auto fresh capacity s h
  write_chars 0 s.length (λ i. region s h (s.str + i)) t g

unfoldable pub detach_cow : ℕ → ℕ → ℕ → Str → Heap → Outcome
detach_cow b fresh capacity s h = detach_str fresh capacity s (drop_shared b h)

detach_at : Storage → ℕ → Str → Heap → Outcome
detach_at (literal text size) fresh s h = detach_str fresh s.length s h
detach_at (sso fill) fresh s h = ok s h
detach_at (internal b d) fresh s h =
    if ltb 1 (refcnt_of (h b)) then detach_cow b fresh s.length s h else ok s h
detach_at (external b d) fresh s h =
    if ltb 1 (refcnt_of (h b)) then detach_cow b fresh s.length s h else ok s h

unfoldable pub detach : ℕ → Str → Heap → Outcome
unfolding detach_at
detach fresh s h = detach_at s.storage fresh s h

-- New storage with the characters, and then the old buffer is freed.
unfoldable pub move_to_new : ℕ → ℕ → ℕ → Str → Heap → Outcome
move_to_new b fresh capacity s h = do (t, g) ← detach_str fresh capacity s h; ok t (write g b none)

unfoldable pub internal_realloc : ℕ → ℕ → ℕ → ℕ → Str → Heap → Outcome
internal_realloc b d fresh capacity s h =
    if d == alloc_deallocate && s.str == 0
    then (if ltb max_size capacity
        then throw length_error s h
        else ok s (write h b (some (new_buffer capacity (refcnt_of (h b)) (chars_of (h b))))))
    else move_to_new b fresh capacity s h

unfoldable pub external_realloc : ℕ → ℕ → ℕ → Str → Heap → Outcome
external_realloc b fresh capacity s h = move_to_new b fresh capacity s h

-- Moves the characters to the beginning of the storage.
unfoldable pub to_start : Str → Heap → Outcome
to_start s h = write_chars 0 s.length (λ i. region s h (s.str + i)) (record s { str = 0 }) h

unfoldable pub reserve_save_internal : ℕ → ℕ → ℕ → ℕ → (ℕ → ℕ) → Str → Heap → Outcome
reserve_save_internal b d fresh capacity scale s h =
    if ltb 1 (refcnt_of (h b))
    then detach_cow b fresh (scale capacity) s h
    else if ltb (capacity_of (h b)) capacity
    then internal_realloc b d fresh (scale capacity) s h
    else if ltb (capacity_of (h b) - s.str) capacity
    then to_start s h
    else ok s h

unfoldable pub reserve_save_external : ℕ → ℕ → ℕ → (ℕ → ℕ) → Str → Heap → Outcome
reserve_save_external b fresh capacity scale s h =
    if ltb 1 (refcnt_of (h b))
    then detach_cow b fresh (scale capacity) s h
    else if ltb (capacity_of (h b)) capacity
    then external_realloc b fresh (scale capacity) s h
    else if ltb (capacity_of (h b) - s.str) capacity
    then to_start s h
    else ok s h

unfoldable pub new_internal_from_sso : ℕ → ℕ → Str → Heap → Outcome
new_internal_from_sso fresh capacity s h =
    let g = write h fresh (some (new_buffer capacity 1 (λ i. 0))) in
    write_chars 0 s.length (λ i. region s h (s.str + i))
      (record s { storage = internal fresh alloc_deallocate; str = 0 }) g

unfoldable pub reserve_save_sso : ℕ → ℕ → (ℕ → ℕ) → Str → Heap → Outcome
reserve_save_sso fresh capacity scale s h =
    if ltb max_sso_chars capacity
    then new_internal_from_sso fresh (scale capacity) s h
    else if ltb (max_sso_chars - s.str) capacity
    then to_start s h
    else ok s h

reserve_save_at : Storage → ℕ → ℕ → (ℕ → ℕ) → Str → Heap → Outcome
reserve_save_at (literal text size) fresh capacity scale s h = detach_str fresh (scale capacity) s h
reserve_save_at (sso fill) fresh capacity scale s h = reserve_save_sso fresh capacity scale s h
reserve_save_at (internal b d) fresh capacity scale s h =
    reserve_save_internal b d fresh capacity scale s h
reserve_save_at (external b d) fresh capacity scale s h =
    reserve_save_external b fresh capacity scale s h

unfoldable pub reserve_save : ℕ → ℕ → (ℕ → ℕ) → Str → Heap → Outcome
unfolding reserve_save_at
reserve_save fresh capacity scale s h =
    reserve_save_at s.storage fresh (if ltb capacity s.length then s.length else capacity) scale s h
