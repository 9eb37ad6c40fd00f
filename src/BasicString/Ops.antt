-- ===== src/BasicString/Ops.antt =====
-- The public operations of src/panda/basic_string.h that change a string. `exact` and `grow` are
-- the multiplications of a capacity by the factors 1 and GROW_RATE.
use panda_lib.Base.{ℕ, ◌+◌, ◌-◌, ◌%◌, ◌^◌, ◌&&◌, none, leb, ltb, ◌==◌, if◌then◌else◌}
use panda_lib.BasicString.Memory.{
  Chars, Heap, write, Storage, literal, sso, internal, external, Str, max_sso_chars, size_mod,
  out_of_range, Outcome, ok, throw, ◌>>=◌, refcnt_of, capacity_of, region, write_chars,
}
use panda_lib.BasicString.Storage.{
  set_refcnt, new_auto, release_buffer, drop_shared, detach_str, detach, internal_realloc,
  external_realloc, reserve_save,
}

-- The common body of the `append` members: `src t g` is what the copy reads once room is made.
unfoldable pub append_from : (ℕ → ℕ) → ℕ → ℕ → (Str → Heap → Chars) → Str → Heap → Outcome
append_from grow fresh count src s h = if count == 0 then ok s h else do
  (t, g) ← reserve_save fresh ((s.length + count) % size_mod) grow s h
  (u, k) ← write_chars t.length count (src t g) t g
  ok (record u { length = u.length + count }) k

unfoldable pub append_fill : (ℕ → ℕ) → ℕ → ℕ → ℕ → Str → Heap → Outcome
append_fill grow fresh count ch s h = append_from grow fresh count (λ t g i. ch) s h

unfoldable pub append_chars : (ℕ → ℕ) → ℕ → Chars → ℕ → Str → Heap → Outcome
append_chars grow fresh src count s h = append_from grow fresh count (λ t g. src) s h

-- `append(str)` of another string, and of the string itself.
unfoldable pub append_string : (ℕ → ℕ) → ℕ → Str → Str → Heap → Outcome
append_string grow fresh u s h =
    append_from grow fresh u.length (λ t g i. region u g (u.str + i)) s h

unfoldable pub append_self : (ℕ → ℕ) → ℕ → Str → Heap → Outcome
append_self grow fresh s h = append_from grow fresh s.length (λ t g i. region t g (t.str + i)) s h

unfoldable pub push_back : (ℕ → ℕ) → ℕ → ℕ → Str → Heap → Outcome
push_back grow fresh ch s h = append_fill grow fresh 1 ch s h

unfoldable pub resize : (ℕ → ℕ) → ℕ → ℕ → ℕ → Str → Heap → Outcome
resize exact fresh count ch s h = do
  (t, g) ←
      if ltb s.length count
      then (do
        (t, g) ← reserve_save fresh count exact s h
        write_chars t.length (count - t.length) (λ i. ch) t g)
      else ok s h
  ok (record t { length = count }) g

-- `s[pos] = c` through `mutable_charref`: the string detaches first.
unfoldable pub set_char : ℕ → ℕ → ℕ → Str → Heap → Outcome
set_char fresh pos ch s h = do (t, g) ← detach fresh s h; write_chars pos 1 (λ i. ch) t g

unfoldable pub pop_back : Str → Str
pop_back s = record s { length = (s.length + size_mod - 1) % size_mod }

unfoldable pub clear : Str → Str
clear s = record s { length = 0 }

unfoldable pub offset : ℕ → ℕ → Str → Heap → Outcome
offset pos length s h =
    if ltb s.length pos
    then throw out_of_range s h
    else ok
        (record s {
          str = s.str + pos;
          length = if ltb (s.length - pos) length then s.length - pos else length;
        })
        h

-- `_cow`: a copy of the object shares the storage, and counts one more reference.
cow_at : Storage → ℕ → ℕ → Str → Heap → Str × Heap
cow_at (literal text size) pos length s h =
    (record { storage = literal text size; str = s.str + pos; length = length }, h)
cow_at (sso fill) pos length s h =
    (record { storage = sso fill; str = s.str + pos; length = length }, h)
cow_at (internal b d) pos length s h = (
  record { storage = internal b d; str = s.str + pos; length = length },
  set_refcnt h b ((refcnt_of (h b) + 1) % 2 ^ 32),
)
cow_at (external b d) pos length s h = (
  record { storage = external b d; str = s.str + pos; length = length },
  set_refcnt h b ((refcnt_of (h b) + 1) % 2 ^ 32),
)

unfoldable pub cow : ℕ → ℕ → Str → Heap → Str × Heap
unfolding cow_at set_refcnt
cow pos length s h = cow_at s.storage pos length s h

-- `_cow_offset`, which `substr` is: `s` is the string that is copied.
unfoldable pub cow_offset : ℕ → ℕ → Str → Heap → Outcome
cow_offset pos length s h =
    if ltb s.length pos
    then throw out_of_range s h
    else (let (t, g) =
          cow pos (if ltb (s.length - pos) length then s.length - pos else length) s h in
        ok t g)

-- `_move_from`: the new object, and what is left of the old one.
unfoldable pub move_from : Str → Str × Str
move_from s = (s, record { storage = literal (λ i. 0) 1; str = 0; length = 0 })

-- `_reserve_drop`, whose content is lost.
reserve_drop_buffer : ℕ → ℕ → ℕ → Str → Heap → Outcome
reserve_drop_buffer b fresh capacity s h =
    if ltb 1 (refcnt_of (h b))
    then new_auto fresh capacity s (drop_shared b h)
    else if ltb (capacity_of (h b)) capacity
    then new_auto fresh capacity s (write h b none)
    else ok (record s { str = 0 }) h

reserve_drop_at : Storage → ℕ → ℕ → Str → Heap → Outcome
reserve_drop_at (literal text size) fresh capacity s h = new_auto fresh capacity s h
reserve_drop_at (sso fill) fresh capacity s h = new_auto fresh capacity s h
reserve_drop_at (internal b d) fresh capacity s h = reserve_drop_buffer b fresh capacity s h
reserve_drop_at (external b d) fresh capacity s h = reserve_drop_buffer b fresh capacity s h

unfoldable pub reserve_drop : ℕ → ℕ → Str → Heap → Outcome
unfolding reserve_drop_at reserve_drop_buffer
reserve_drop fresh capacity s h = reserve_drop_at s.storage fresh capacity s h

-- `assign(const CharT*, size_type)`.
unfoldable pub assign_chars : ℕ → Chars → ℕ → Str → Heap → Outcome
assign_chars fresh src len s h = do
  (t, g) ← reserve_drop fresh len s h
  (u, k) ← write_chars 0 len src t g
  ok (record u { length = len }) k

-- `shrink_to_fit`.
shrink_at : Storage → ℕ → Str → Heap → Outcome
shrink_at (literal text size) fresh s h = ok s h
shrink_at (sso fill) fresh s h = ok s h
shrink_at (internal b d) fresh s h =
    if leb s.length max_sso_chars
    then (do (t, g) ← detach_str fresh s.length s h; ok t (release_buffer b g))
    else if ltb s.length (capacity_of (h b)) && (refcnt_of (h b) == 1)
    then internal_realloc b d fresh s.length s h
    else ok s h
shrink_at (external b d) fresh s h =
    if leb s.length max_sso_chars
    then (do (t, g) ← detach_str fresh s.length s h; ok t (release_buffer b g))
    else if ltb s.length (capacity_of (h b)) && (refcnt_of (h b) == 1)
    then external_realloc b fresh s.length s h
    else ok s h

unfoldable pub shrink_to_fit : ℕ → Str → Heap → Outcome
unfolding shrink_at
shrink_to_fit fresh s h = shrink_at s.storage fresh s h

-- `capacity()`: what can be written without a copy.
capacity_at : Storage → Str → Heap → ℕ
capacity_at (literal text size) s h = 0
capacity_at (sso fill) s h = max_sso_chars - s.str
capacity_at (internal b d) s h = if refcnt_of (h b) == 1 then capacity_of (h b) - s.str else 0
capacity_at (external b d) s h = if refcnt_of (h b) == 1 then capacity_of (h b) - s.str else 0

unfoldable pub capacity : Str → Heap → ℕ
unfolding capacity_at
capacity s h = capacity_at s.storage s h

-- `c_str()`.
c_str_at : Storage → (ℕ → ℕ) → ℕ → Str → Heap → Outcome
c_str_at (literal text size) exact fresh s h = ok s h
c_str_at _ exact fresh s h = do
  (t, g) ←
      if leb (capacity s h) s.length then reserve_save fresh (s.length + 1) exact s h else ok s h
  write_chars t.length 1 (λ i. 0) t g

unfoldable pub c_str : (ℕ → ℕ) → ℕ → Str → Heap → Outcome
unfolding c_str_at
c_str exact fresh s h = c_str_at s.storage exact fresh s h
