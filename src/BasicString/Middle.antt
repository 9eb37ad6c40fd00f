-- ===== src/BasicString/Middle.antt =====
-- `erase`, `_reserve_middle`, `insert` and `replace` of src/panda/basic_string.h.
use panda_lib.Base.{ℕ, ◌+◌, ◌-◌, some, ◌&&◌, leb, ltb, ◌==◌, if◌then◌else◌}
use panda_lib.BasicString.Memory.{
  Chars, Heap, Storage, literal, sso, internal, external, Str, max_sso_chars, out_of_range, Outcome,
  ok, throw, ◌>>=◌, refcnt_of, capacity_of, region, write_chars, write, alloc_deallocate,
}
use panda_lib.BasicString.Storage.{new_auto, release_buffer, drop_shared, new_buffer}
use panda_lib.BasicString.Ops.{append_chars}

-- The two copies into new storage: the characters before `pos`, and those behind the removed ones.
unfoldable pub copy_around : ℕ → ℕ → ℕ → Str → Heap → Str → Heap → Outcome
copy_around pos removed inserted s h t g = do
  (u, k) ← write_chars 0 pos (λ i. region s h (s.str + i)) t g
  write_chars (pos + inserted) (s.length - pos - removed)
      (λ i. region s h (s.str + (pos + removed + i))) u k

unfoldable pub reserve_middle_new : ℕ → ℕ → ℕ → ℕ → Str → Heap → Outcome
reserve_middle_new fresh pos removed inserted s h = do
  (t, g) ← new_auto fresh (s.length + inserted - removed) s h
  copy_around pos removed inserted s h t g

-- Moves the part behind the removed characters.
unfoldable pub move_tail : ℕ → ℕ → ℕ → Str → Heap → Outcome
move_tail pos removed inserted s h =
    write_chars (pos + inserted) (s.length - pos - removed)
      (λ i. region s h (s.str + (pos + removed + i))) s h

-- Moves the part before `pos` to where `str` is the new beginning.
unfoldable pub move_head : ℕ → ℕ → Str → Heap → Outcome
move_head pos str s h = write_chars 0 pos (λ i. region s h (s.str + i)) (record s { str = str }) h

-- `_reserve_middle_move` over storage with `room` characters from its start.
unfoldable pub reserve_middle_move : ℕ → ℕ → ℕ → ℕ → Str → Heap → Outcome
reserve_middle_move pos removed inserted size s h =
    if leb inserted removed
    then move_tail pos removed inserted s h
    else (let extra = inserted - removed in
        let has_head_space = leb extra s.str in
        let has_tail_space = leb extra (size - s.str - s.length) in
        if has_head_space && has_tail_space
        then (if ltb (s.length - pos - removed) pos
            then move_tail pos removed inserted s h
            else move_head pos (s.str - extra) s h)
        else if has_head_space
        then move_head pos (s.str - extra) s h
        else if has_tail_space
        then move_tail pos removed inserted s h
        else (do
          (t, g) ← move_head pos 0 s h
          write_chars (pos + inserted) (s.length - pos - removed)
              (λ i. region t g (s.str + (pos + removed + i))) t g))

-- The branches for a counted buffer.
unfoldable pub reserve_middle_buffer : ℕ → ℕ → ℕ → ℕ → ℕ → Str → Heap → Outcome
reserve_middle_buffer b fresh pos removed inserted s h =
    if ltb 1 (refcnt_of (h b))
    then reserve_middle_new fresh pos removed inserted s (drop_shared b h)
    else if ltb (capacity_of (h b)) (s.length + inserted - removed)
    then (do (t, g) ← reserve_middle_new fresh pos removed inserted s h; ok t (release_buffer b g))
    else reserve_middle_move pos removed inserted (capacity_of (h b)) s h

reserve_middle_at : Storage → ℕ → ℕ → ℕ → ℕ → Str → Heap → Outcome
reserve_middle_at (literal text size) fresh pos removed inserted s h =
    reserve_middle_new fresh pos removed inserted s h
reserve_middle_at (sso fill) fresh pos removed inserted s h =
    if ltb max_sso_chars (s.length + inserted - removed)
    then copy_around pos removed inserted s h
        (record s { storage = internal fresh alloc_deallocate; str = 0 })
        (write h fresh (some (new_buffer (s.length + inserted - removed) 1 (λ i. 0))))
    else reserve_middle_move pos removed inserted max_sso_chars s h
reserve_middle_at (internal b d) fresh pos removed inserted s h =
    reserve_middle_buffer b fresh pos removed inserted s h
reserve_middle_at (external b d) fresh pos removed inserted s h =
    reserve_middle_buffer b fresh pos removed inserted s h

unfoldable pub reserve_middle : ℕ → ℕ → ℕ → ℕ → Str → Heap → Outcome
unfolding reserve_middle_at
reserve_middle fresh pos removed inserted s h = do
  (t, g) ← reserve_middle_at s.storage fresh pos removed inserted s h
  ok (record t { length = s.length + inserted - removed }) g

-- `erase` from the middle, in place and by a copy; the length is the new one.
unfoldable pub erase_move : ℕ → ℕ → Str → Heap → Outcome
erase_move pos count s h =
    if leb (s.length - pos) pos
    then write_chars pos (s.length - pos) (λ i. region s h (s.str + (pos + count + i))) s h
    else write_chars 0 pos (λ i. region s h (s.str + i)) (record s { str = s.str + count }) h

unfoldable pub erase_copy : ℕ → ℕ → ℕ → Str → Heap → Outcome
erase_copy fresh pos count s h = do
  (t, g) ← new_auto fresh s.length s h
  (u, k) ← write_chars 0 pos (λ i. region s h (s.str + i)) t g
  write_chars pos (s.length - pos) (λ i. region s h (s.str + (pos + count + i))) u k

erase_at : Storage → ℕ → ℕ → ℕ → Str → Heap → Outcome
erase_at (literal text size) fresh pos count s h = erase_copy fresh pos count s h
erase_at (sso fill) fresh pos count s h = erase_move pos count s h
erase_at (internal b d) fresh pos count s h =
    if refcnt_of (h b) == 1
    then erase_move pos count s h
    else erase_copy fresh pos count s (drop_shared b h)
erase_at (external b d) fresh pos count s h =
    if refcnt_of (h b) == 1
    then erase_move pos count s h
    else erase_copy fresh pos count s (drop_shared b h)

unfoldable pub erase : ℕ → ℕ → ℕ → Str → Heap → Outcome
unfolding erase_at
erase fresh pos count s h =
    if ltb s.length pos
    then throw out_of_range s h
    else if ltb (s.length - pos) count
    then ok (record s { length = pos }) h
    else if pos == 0
    then ok (record s { length = s.length - count; str = s.str + count }) h
    else erase_at s.storage fresh pos count (record s { length = s.length - count }) h

-- The members of `replace` and `insert`; `src` is not a part of this string.
unfoldable pub replace_chars : (ℕ → ℕ) → ℕ → ℕ → ℕ → Chars → ℕ → Str → Heap → Outcome
replace_chars grow fresh pos removed src inserted s h =
    if leb s.length pos
    then (if pos == s.length
        then append_chars grow fresh src inserted s h
        else throw out_of_range s h)
    else if leb (s.length - pos) removed
    then append_chars grow fresh src inserted (record s { length = pos }) h
    else if inserted == 0
    then (if removed == 0 then ok s h else erase fresh pos removed s h)
    else (do
      (t, g) ← reserve_middle fresh pos removed inserted s h
      write_chars pos inserted src t g)

unfoldable pub insert_chars : (ℕ → ℕ) → ℕ → ℕ → Chars → ℕ → Str → Heap → Outcome
insert_chars grow fresh pos src count s h =
    if leb s.length pos
    then (if pos == s.length then append_chars grow fresh src count s h else throw out_of_range s h)
    else if count == 0
    then ok s h
    else (do (t, g) ← reserve_middle fresh pos 0 count s h; write_chars pos count src t g)
