-- ===== src/BasicString/CStr.antt =====
-- `c_str` of src/panda/basic_string.h: of the strings that own their characters or share a buffer, and of
-- parts of literals.
use panda_lib.Base.{
  ℕ, ◌+◌, ◌-◌, ◌<◌, ◌≡◌, ◌%◌, refl, false, ltb, none, leb, ◌==◌, if◌then◌else◌, arith, ◌∙◌, inl,
  inr, Bool-cases, ap, slice, slice_ext, ge→ltb, lt→ltb, ◌≢◌,
}
use panda_lib.BasicString.Memory.{
  Chars, Heap, Str, string, Storage, literal, sso, internal, external, ◌>>=◌, region, write_chars,
  view, size_mod, max_sso_chars, refcnt_of, capacity_of,
}
use panda_lib.BasicString.Storage.{reserve_save}
use panda_lib.BasicString.Ops.{c_str, capacity, offset, cow, cow_offset, resize, pop_back}
use panda_lib.BasicString.Middle.{erase}
use panda_lib.BasicString.Invariant.{
  Fits, Kept-trans, Returns, returns, bind, mono, write_chars-Wrote, Wrote_in, Wrote_out, Wrote,
}
use panda_lib.BasicString.Reserved.{Reserved, keep-Reserved}
use panda_lib.BasicString.ReserveSave.{Scales, reserve_save-Reserved}
use panda_lib.BasicString.Became.{Became}

-- Every kind of storage but the literal.
abbrev pub IsOwnKind : Storage → Type 0
IsOwnKind (literal text size) = ⊥
IsOwnKind (sso fill) = Unit {0}
IsOwnKind (internal b d) = Unit {0}
IsOwnKind (external b d) = Unit {0}

-- `c_str` of a string that is no literal: the character behind the string is 0 and the string is
-- the same.
module _ (others : ℕ → ℕ) (exact : ℕ → ℕ) (fresh : ℕ) (h : Heap) (free : h fresh ≡ none) where
  ended :
      (s t u : Str) (g k : Heap)
      → Reserved others s h (s.length + 1) t g
      → Wrote others t g t.length 1 (λ i. 0) u k
      → Became others h (view s h) u k × (region u k (u.str + u.length) ≡ 0)
  unfolding view
  ended s t u g k r w = (
    record {
      fits = record {
        counts = w.counts;
        inside = omega (arith, w.room_same, w.str_same, w.length_same, r.length_same, r.inside);
      };
      kept = Kept-trans others h g k r.kept w.kept;
      stands_for =
          ap (λ n. slice u.str n (region u k)) (w.length_same ∙ r.length_same)
          ∙ slice_ext u.str s.str s.length (region u k) (region s h)
              (λ i lt. Wrote_out w i (inl (omega (arith, r.length_same))) ∙ r.same i lt);
    },
    ap (region u k) (omega (arith, w.length_same)) ∙ Wrote_in w 0 (omega arith),
  )

  at_end :
      (s : Str)
      → Reserved others s h (s.length + 1) s h
      → Returns
          (λ u k. Became others h (view s h) u k × (region u k (u.str + u.length) ≡ 0))
          (write_chars s.length 1 (λ i. 0) s h)
  at_end s r =
      mono
        (write_chars-Wrote others s.length 1 (λ i. 0) s h r.counts r.owned
          (omega (arith, r.inside)))
        λ u k w. ended s s u h k r w

  after_reserve :
      (s : Str)
      → Fits others s h
      → Scales exact (s.length + 1)
      → Returns
          (λ u k. Became others h (view s h) u k × (region u k (u.str + u.length) ≡ 0))
          (reserve_save fresh (s.length + 1) exact s h >>= λ (t, g).
            write_chars t.length 1 (λ i. 0) t g)
  after_reserve s v sc =
      bind _ (reserve_save-Reserved others h fresh exact free s (s.length + 1) v (omega arith) sc)
        λ t g r.
          mono
            (write_chars-Wrote others t.length 1 (λ i. 0) t g r.counts r.owned
              (omega (arith, r.inside, r.length_same)))
            λ u k w. ended s t u g k r w

  c_str_of :
      (st : Storage) (str length : ℕ)
      → IsOwnKind st
      → Fits others (string st str length) h
      → Scales exact (length + 1)
      → Returns
          (λ u k.
            Became others h (view (string st str length) h) u k
            × (region u k (u.str + u.length) ≡ 0))
          (c_str exact fresh (string st str length) h)
  unfolding c_str capacity
  c_str_of (literal text size) str length own v sc = absurd own
  c_str_of (sso fill) str length own v sc = elim (Bool-cases (leb (max_sso_chars - str) length)) [
    | inl e ↦ rw e (after_reserve (string (sso fill) str length) v sc)
    | inr e ↦ rw e (
        at_end (string (sso fill) str length)
          (keep-Reserved others _ h (length + 1) v.counts tt (ground arith)))
  ]
  c_str_of (internal b d) str length own v sc =
      elim (Bool-cases (leb (if refcnt_of (h b) == 1 then capacity_of (h b) - str else 0) length)) [
        | inl e ↦ rw e (after_reserve (string (internal b d) str length) v sc)
        | inr e ↦ rw e (
            at_end (string (internal b d) str length)
              (keep-Reserved others _ h (length + 1) v.counts (ground arith) (ground arith)))
      ]
  c_str_of (external b d) str length own v sc =
      elim (Bool-cases (leb (if refcnt_of (h b) == 1 then capacity_of (h b) - str else 0) length)) [
        | inl e ↦ rw e (after_reserve (string (external b d) str length) v sc)
        | inr e ↦ rw e (
            at_end (string (external b d) str length)
              (keep-Reserved others _ h (length + 1) v.counts (ground arith) (ground arith)))
      ]

  -- `c_str` of a string that is no literal, lies inside of its storage and has its references counted,
  -- where the address of a new buffer is free and the scaled capacity is no less than the length plus
  -- one and can be allocated: it returns, the string stands for what it stood for, the counts are
  -- right, the character behind the string is 0, and no buffer of another string changes.
  pub c_str-Became :
      (s : Str)
      → IsOwnKind s.storage
      → Fits others s h
      → Scales exact (s.length + 1)
      → Returns
          (λ u k. Became others h (view s h) u k × (region u k (u.str + u.length) ≡ 0))
          (c_str exact fresh s h)
  c_str-Became s = c_str_of s.storage s.str s.length

-- A string of this length with another character than 0 behind it.
abbrev pub IsUnterminated : ℕ → Str → Heap → Type 0
IsUnterminated length t g = (t.length ≡ length) × (region t g (t.str + t.length) ≢ 0)

length_less : (n : ℕ) → 0 < n → n < size_mod → (n + size_mod - 1) % size_mod ≡ n - 1
length_less n some small = omega arith

c_str_part :
    (text : Chars) (size str length fresh : ℕ) (exact : ℕ → ℕ) (h : Heap)
    → text (str + length) ≢ 0
    → Returns (IsUnterminated length) (c_str exact fresh (string (literal text size) str length) h)
unfolding c_str
c_str_part text size str length fresh exact h ne = returns (refl, ne)

-- Of a string made of a literal without a character 0, `c_str` after `offset`, `substr`, `resize`, the
-- `erase` of its end, or `pop_back`, where each of these leaves a string that ends inside of the
-- literal: it returns, and the character behind the string is not 0.
pub c_str-IsUnterminated :
    (text : Chars) (size pos count rest ch fresh : ℕ) (exact : ℕ → ℕ) (h : Heap)
    → ((i : ℕ) → i < size → text i ≢ 0)
    → size < size_mod
    → pos + count < size
    → size - pos < rest
    → Returns
        (IsUnterminated count)
        (offset pos count (string (literal text size) 0 size) h >>= λ (t, g). c_str exact fresh t g)
      × Returns (IsUnterminated count) (
          cow_offset pos count (string (literal text size) 0 size) h >>= λ (t, g).
          c_str exact fresh t g)
      × Returns (IsUnterminated count) (
          resize exact fresh count ch (string (literal text size) 0 size) h >>= λ (t, g).
          c_str exact fresh t g)
      × Returns (IsUnterminated pos) (
          erase fresh pos rest (string (literal text size) 0 size) h >>= λ (t, g).
          c_str exact fresh t g)
      × Returns
          (IsUnterminated (size - 1))
          (c_str exact fresh (pop_back (string (literal text size) 0 size)) h)
unfolding offset cow_offset cow resize erase pop_back
c_str-IsUnterminated text size pos count rest ch fresh exact h full small inside more =
    let part : (str length : ℕ)
        → str + length < size
        → Returns (IsUnterminated length)
            (c_str exact fresh (string (literal text size) str length) h) =
      λ str length lt. c_str_part text size str length fresh exact h (full (str + length) lt) in
    let reached : ltb size pos ≡ false = ge→ltb size pos (omega arith) in
    let shorter : ltb (size - pos) count ≡ false = ge→ltb (size - pos) count (omega arith) in
    (
      (rw (reached, shorter) (part (0 + pos) count (omega (arith, inside)))),
      (rw (reached, shorter) (part (0 + pos) count (omega (arith, inside)))),
      (rw (ge→ltb size count (omega arith)) (part 0 count (omega arith))),
      (rw (reached, lt→ltb (size - pos) rest more) (part 0 pos (omega arith))),
      (rw (length_less size (omega arith) small) (part 0 (size - 1) (omega arith))),
    )
