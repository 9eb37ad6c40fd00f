-- ===== src/BasicString/Erase.antt =====
-- `erase` removes the characters and leaves the others.
use panda_lib.Base.{
  ℕ, ◌+◌, ◌-◌, ◌≤◌, ◌<◌, ◌≡◌, refl, none, leb, ltb, ◌==◌, if◌then◌else◌, arith, ◌++◌, ◌∙◌, inl, inr,
  Bool-cases, ap, ap₂, slice, slice_ext, slice-append, take, take-slice, drop, drop-slice,
  drop_past, length-slice, append-nil, sym, ge→ltb, ne→==, ==→eq, subst,
}
use panda_lib.BasicString.Memory.{
  Chars, Heap, Storage, literal, sso, internal, external, Str, string, region, region_of, room,
  room_of, view, max_size, refcnt_of,
}
use panda_lib.BasicString.Middle.{erase_move, erase_copy, erase}
use panda_lib.BasicString.Storage.{drop_shared}
use panda_lib.BasicString.Invariant.{
  refs, refs_of, IsCounted, Fits, Returns, returns, bind, mono, Owned,
}
use panda_lib.BasicString.New.{
  nobody, plus, new_auto-Fresh, drop_shared-IsCounted, drop_shared-same, drop_shared-none,
}
use panda_lib.BasicString.Reserved.{region_same, one_ref}
use panda_lib.BasicString.ReserveSave.{as_plus}
use panda_lib.BasicString.Gap.{Gap, rebase-Gap, tail-Gap, head-Gap, copy-Gap}
use panda_lib.BasicString.Became.{Became}
use native.Mathlib.Nat.{add-zero, zero-add}

-- The characters of a string before `pos` and from `from` on.
pub view_around :
    (str length : ℕ) (f : Chars) (pos from : ℕ)
    → pos ≤ from
    → from ≤ length
    → take pos (slice str length f) ++ drop from (slice str length f)
      ≡ slice str pos f ++ slice (str + from) (length - from) f
view_around str length f pos from le fit =
    ap₂ ◌++◌ (take-slice pos str length f (omega arith)) (drop-slice from str length f fit)

-- A closed gap.
closed :
    (others : ℕ → ℕ) (h : Heap) (f : Chars) (str length pos count : ℕ)
    → pos + count ≤ length
    → (t : Str) (g : Heap)
    → Gap others h f str pos (pos + count) (length - count - pos) 0 (length - count) t g
    → Became others h (take pos (slice str length f) ++ drop (pos + count) (slice str length f)) t g
unfolding view
closed others h f str length pos count le t g r = record {
  fits = record { counts = r.counts; inside = omega (arith, r.inside, r.length_same) };
  kept = r.kept;
  stands_for =
      ap (λ n. slice t.str n (region t g)) {y = pos + (length - count - pos)}
        (omega (arith, r.length_same))
      ∙ slice-append t.str pos (length - count - pos) (region t g)
      ∙ ap₂ ◌++◌ (slice_ext t.str str pos (region t g) f r.head) (
          slice_ext (t.str + pos) (str + (pos + count)) (length - count - pos) (region t g) f
            (λ i lt. ap (region t g) (omega arith) ∙ r.tail i lt ∙ ap f (omega arith)))
      ∙ ap (λ n. slice str pos f ++ slice (str + (pos + count)) n f) (omega arith)
      ∙ sym (view_around str length f pos (pos + count) (omega arith) le);
}

module _ (others : ℕ → ℕ) (h : Heap) (pos count fresh : ℕ) (free : h fresh ≡ none) where
  erase_move-Gap :
      (s : Str)
      → IsCounted (refs s) others h
      → Owned s h
      → pos ≤ s.length
      → s.str + (s.length + count) ≤ room s h
      → Returns
          (Gap others h (region s h) s.str pos (pos + count) (s.length - pos) 0 s.length)
          (erase_move pos count s h)
  unfolding erase_move
  erase_move-Gap s k o le fit = elim (Bool-cases (leb (s.length - pos) pos)) [
    | inl e ↦ rw e (
        rw add-zero at (tail-Gap others s h k o pos (pos + count) (s.length - pos) 0 (omega arith)))
    | inr e ↦ rw e (
        head-Gap others s h k o pos (pos + count) (s.length - pos) 0 (s.str + count) (omega arith)
          (omega arith))
  ]

  erase_copy-Gap :
      (s : Str)
      → IsCounted nobody others h
      → pos ≤ s.length
      → s.length ≤ max_size
      → Returns
          (Gap others h (region s h) s.str pos (pos + count) (s.length - pos) 0 s.length)
          (erase_copy fresh pos count s h)
  unfolding erase_copy
  erase_copy-Gap s k le small =
      bind _ (new_auto-Fresh others fresh s.length s h k free small) λ t g n. rw add-zero at (
        copy-Gap others s h (region s h) s.str pos (pos + count) (s.length - pos) 0 s.length
          (omega arith) t g n)

module _ (others : ℕ → ℕ) (h : Heap) (pos count fresh : ℕ) (free : h fresh ≡ none) where
  -- On a counted buffer: in place where nobody else holds it, otherwise by a copy.
  erase_buffer-Gap :
      (b : ℕ) (s : Str)
      → IsCounted (refs s) others h
      → IsCounted nobody (plus others b) h
      → (refcnt_of (h b) ≡ 1 → Owned s h)
      → pos ≤ s.length
      → s.str + (s.length + count) ≤ room s h
      → s.length ≤ max_size
      → Returns (Gap others h (region s h) s.str pos (pos + count) (s.length - pos) 0 s.length) (
          if refcnt_of (h b) == 1
          then erase_move pos count s h
          else erase_copy fresh pos count s (drop_shared b h))
  erase_buffer-Gap b s c k own le fit small = elim (Bool-cases (refcnt_of (h b) == 1)) [
    | inl e ↦ rw e (erase_move-Gap others h pos count fresh free s c (own (==→eq _ _ e)) le fit)
    | inr e ↦
        let many : 1 < refcnt_of (h b) = ground (arith, k.counted b, one_ref b) in
        rw e (
          mono
            (erase_copy-Gap others (drop_shared b h) pos count fresh
              (drop_shared-none others b h k many fresh free) s
              (drop_shared-IsCounted others b h k many) le small)
            (rebase-Gap others h (drop_shared b h) (region s h) (region s (drop_shared b h)) s.str
              pos (pos + count) (s.length - pos) 0 s.length
              (region_same s.storage h (drop_shared b h)
                (λ a. (drop_shared-same others b h k many a).0))
              (λ a lt. drop_shared-same others b h k many a)))
  ]

  -- The string with its new length, before the characters are moved.
  erase_kinds-Gap :
      (st : Storage) (str length : ℕ)
      → IsCounted (refs_of st) others h
      → pos + count ≤ length
      → 0 < pos
      → str + length ≤ room_of st h
      → length ≤ max_size
      → Returns
          (Gap others h
            (region_of st h)
            str
            pos
            (pos + count)
            (length - count - pos)
            0
            (length - count))
          (erase fresh pos count (string st str length) h)
  unfolding erase
  erase_kinds-Gap (literal text size) str length k le at fit small =
      rw
        (
          ge→ltb length pos (omega arith),
          ge→ltb (length - pos) count (omega arith),
          ne→== pos 0 (omega arith),
        )
        (erase_copy-Gap others h pos count fresh free
          (string (literal text size) str (length - count)) k (omega arith) (omega arith))
  erase_kinds-Gap (sso fill) str length k le at fit small =
      rw
        (
          ge→ltb length pos (omega arith),
          ge→ltb (length - pos) count (omega arith),
          ne→== pos 0 (omega arith),
        )
        (erase_move-Gap others h pos count fresh free (string (sso fill) str (length - count)) k tt
          (omega arith) (omega arith))
  erase_kinds-Gap (internal b d) str length k le at fit small =
      rw
        (
          ge→ltb length pos (omega arith),
          ge→ltb (length - pos) count (omega arith),
          ne→== pos 0 (omega arith),
        )
        (erase_buffer-Gap b (string (internal b d) str (length - count)) k (as_plus others b d h k)
          (λ e. e) (omega arith) (omega arith) (omega arith))
  erase_kinds-Gap (external b d) str length k le at fit small =
      rw
        (
          ge→ltb length pos (omega arith),
          ge→ltb (length - pos) count (omega arith),
          ne→== pos 0 (omega arith),
        )
        (erase_buffer-Gap b (string (external b d) str (length - count)) k (as_plus others b d h k)
          (λ e. e) (omega arith) (omega arith) (omega arith))

  erase_head :
      (s : Str)
      → Fits others s h
      → count ≤ s.length
      → Became others h
          (drop count (view s h))
          (record s { length = s.length - count; str = s.str + count })
          h
  unfolding view
  erase_head s v le = record {
    fits = record { counts = v.counts; inside = omega (arith, v.inside) };
    kept = λ b lt. (refl, refl);
    stands_for = sym (drop-slice count s.str s.length (region s h) le);
  }

  erase_zero :
      (s : Str)
      → Fits others s h
      → count ≤ s.length
      → Returns (Became others h (drop (0 + count) (view s h))) (erase fresh 0 count s h)
  unfolding erase
  erase_zero s v le =
      rw (ge→ltb s.length 0 (omega arith), ge→ltb (s.length - 0) count (omega arith), zero-add)
        (returns (erase_head s v le))

  erase_trail :
      (s : Str)
      → Fits others s h
      → pos ≤ s.length
      → s.length ≤ pos + count
      → Became others h
          (take pos (view s h) ++ drop (pos + count) (view s h))
          (record s { length = pos })
          h
  unfolding view
  erase_trail s v le past = record {
    fits = record { counts = v.counts; inside = omega (arith, v.inside) };
    kept = λ b lt. (refl, refl);
    stands_for =
        rw
          (
            drop_past (pos + count) (slice s.str s.length (region s h))
                (omega (arith, length-slice s.str s.length (region s h))),
            append-nil,
          )
          (sym (take-slice pos s.str s.length (region s h) le));
  }

  -- `erase(pos, count)` from a position inside of the string leaves the characters before `pos` and
  -- those from `pos + count` on, in a valid string, and no buffer of another string changes.
  pub erase-Became :
      (s : Str)
      → Fits others s h
      → pos ≤ s.length
      → s.length ≤ max_size
      → Returns
          (Became others h (take pos (view s h) ++ drop (pos + count) (view s h)))
          (erase fresh pos count s h)
  erase-Became s v le small = elim (Bool-cases (ltb (s.length - pos) count)) [
    | inl past ↦
        unfold erase in
        rw (ge→ltb s.length pos le, past) (returns (erase_trail s v le (ground arith)))
    | inr short ↦ elim (Bool-cases (pos == 0)) [
      | inl z ↦
          subst
            (λ p.
              Returns (Became others h (take p (view s h) ++ drop (p + count) (view s h)))
                (erase fresh p count s h))
            (sym (==→eq pos 0 z)) (erase_zero s v (ground arith))
      | inr nz ↦
          unfold view in
          mono
            (erase_kinds-Gap s.storage s.str s.length v.counts (ground arith) (ground arith)
              v.inside small)
            (closed others h (region s h) s.str s.length pos count (ground arith))
    ]
  ]
