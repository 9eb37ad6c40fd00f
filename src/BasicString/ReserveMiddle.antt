-- ===== src/BasicString/ReserveMiddle.antt =====
-- `_reserve_middle` opens a gap: the head and the tail of the string stand around it.
use panda_lib.Base.{
  ℕ, ◌+◌, ◌-◌, ◌≤◌, ◌<◌, ◌≡◌, refl, none, leb, ltb, arith, ◌∙◌, inl, inr, Bool-cases,
}
use panda_lib.BasicString.Memory.{
  Chars, Heap, write, Storage, literal, sso, internal, external, Str, string, ok, region, region_of,
  room, room_of, max_size, max_sso_chars, refcnt_of, capacity_of,
}
use panda_lib.BasicString.Middle.{
  copy_around, move_tail, move_head, reserve_middle_new, reserve_middle_move, reserve_middle_buffer,
  reserve_middle,
}
use panda_lib.BasicString.Storage.{drop_shared, release_buffer}
use panda_lib.BasicString.Invariant.{
  refs, refs_of, IsCounted, Kept-trans, Returns, returns, bind, mono, Owned,
}
use panda_lib.BasicString.New.{
  nobody, plus, Fresh, new_auto-Fresh, new_buffer-Fresh, drop_shared-IsCounted, drop_shared-same,
  drop_shared-none, free-IsCounted, free-Kept,
}
use panda_lib.BasicString.Reserved.{region_same, one_ref, owned_alone, free-Untouched}
use panda_lib.BasicString.ReserveSave.{as_plus}
use panda_lib.BasicString.Gap.{Gap, rebase-Gap, tail-Gap, head-Gap, start-Gap, copy-Gap}

-- The gap that is wanted of a string.
abbrev pub Opened : (ℕ → ℕ) → (pos removed inserted : ℕ) → Str → Heap → Str → Heap → Type 0
Opened others pos removed inserted s h =
    Gap others h (region s h) s.str pos (pos + removed) (s.length - pos - removed) inserted s.length

module _ (others : ℕ → ℕ) (pos removed inserted : ℕ) (s : Str) (h : Heap)
    (le : pos + removed ≤ s.length) where
  copy_around-Opened :
      (t : Str) (g : Heap)
      → Fresh others s h (s.length + inserted - removed) t g
      → Returns (Opened others pos removed inserted s h) (copy_around pos removed inserted s h t g)
  unfolding copy_around
  copy_around-Opened =
      copy-Gap others s h (region s h) s.str pos (pos + removed) (s.length - pos - removed) inserted
        (s.length + inserted - removed) (omega arith)

  reserve_middle_new-Opened :
      (fresh : ℕ)
      → IsCounted nobody others h
      → h fresh ≡ none
      → s.length + inserted - removed ≤ max_size
      → Returns
          (Opened others pos removed inserted s h)
          (reserve_middle_new fresh pos removed inserted s h)
  unfolding reserve_middle_new
  reserve_middle_new-Opened fresh k free small =
      bind _ (new_auto-Fresh others fresh (s.length + inserted - removed) s h k free small)
        copy_around-Opened

  reserve_middle_move-Opened :
      IsCounted (refs s) others h
      → Owned s h
      → s.str + s.length ≤ room s h
      → s.length + inserted - removed ≤ room s h
      → Returns
          (Opened others pos removed inserted s h)
          (reserve_middle_move pos removed inserted (room s h) s h)
  unfolding reserve_middle_move move_tail move_head
  reserve_middle_move-Opened k o inside fit = elim (Bool-cases (leb inserted removed)) [
    | inl less ↦ rw less (by_tail (ground arith))
    | inr more ↦ rw more (elim (Bool-cases (leb (inserted - removed) s.str)) [
      | inl head ↦
          rw head (elim (Bool-cases (leb (inserted - removed) (room s h - s.str - s.length))) [
            | inl tail ↦ rw tail (elim (Bool-cases (ltb (s.length - pos - removed) pos)) [
              | inl shorter ↦ rw shorter (by_tail (ground arith))
              | inr longer ↦ rw longer (by_head (ground arith) (ground arith))
            ])
            | inr no_tail ↦ rw no_tail (by_head (ground arith) (ground arith))
          ])
      | inr no_head ↦
          rw no_head (elim (Bool-cases (leb (inserted - removed) (room s h - s.str - s.length))) [
            | inl tail ↦ rw tail (by_tail (ground arith))
            | inr no_tail ↦ rw no_tail (
                start-Gap others s h k o pos (pos + removed) (s.length - pos - removed) inserted
                  (omega arith) (ground arith))
          ])
    ])
  ]
    where
      by_tail :
          s.str + (pos + inserted + (s.length - pos - removed)) ≤ room s h
          → Returns (Opened others pos removed inserted s h) (move_tail pos removed inserted s h)
      by_tail = tail-Gap others s h k o pos (pos + removed) (s.length - pos - removed) inserted

      by_head :
          removed ≤ inserted
          → inserted - removed ≤ s.str
          → Returns
              (Opened others pos removed inserted s h)
              (move_head pos (s.str - (inserted - removed)) s h)
      by_head more space =
          head-Gap others s h k o pos (pos + removed) (s.length - pos - removed) inserted
            (s.str - (inserted - removed)) (omega arith) (omega arith)

-- The buffer that the string has left is freed.
freed-Gap :
    (others : ℕ → ℕ) (b : ℕ) (h : Heap) (text : Chars) (str pos from rest inserted size : ℕ)
    → IsCounted nobody (plus others b) h
    → refcnt_of (h b) ≡ 1
    → (t : Str) (g : Heap) → Gap (plus others b) h text str pos from rest inserted size t g
    → Gap others h text str pos from rest inserted size t (release_buffer b g)
unfolding release_buffer
freed-Gap others b h text str pos from rest inserted size k one t g r =
    let apart = owned_alone others t.storage g b r.counts r.owned in
    let u = free-Untouched t.storage g b apart in
    let last : refcnt_of (g b) ≡ 1 =
      omega (arith, r.counts.counted b, k.counted b, apart, one_ref b) in
    rw last record {
      counts = free-IsCounted (refs t) others b g r.counts last;
      owned = u.owned r.owned;
      inside = omega (arith, u.room_same, r.inside);
      head = λ i lt. u.same (t.str + i) ∙ r.head i lt;
      tail = λ i lt. u.same (t.str + (pos + inserted + i)) ∙ r.tail i lt;
      length_same = r.length_same;
      kept =
          Kept-trans others h g (write g b none) (λ a lt. r.kept a (omega arith))
            (free-Kept (refs t) others b g r.counts last);
    }

module _ (others : ℕ → ℕ) (pos removed inserted : ℕ) (h : Heap) (fresh : ℕ)
    (free : h fresh ≡ none) where
  reserve_middle_buffer-Opened :
      (b : ℕ) (s : Str)
      → IsCounted (refs s) others h
      → IsCounted nobody (plus others b) h
      → (refcnt_of (h b) ≡ 1 → Owned s h)
      → room s h ≡ capacity_of (h b)
      → pos + removed ≤ s.length
      → s.str + s.length ≤ room s h
      → s.length + inserted - removed ≤ max_size
      → Returns
          (Opened others pos removed inserted s h)
          (reserve_middle_buffer b fresh pos removed inserted s h)
  unfolding reserve_middle_buffer
  reserve_middle_buffer-Opened b s c k own rm le inside small =
      elim (Bool-cases (ltb 1 (refcnt_of (h b)))) [
        | inl e ↦
            let many : 1 < refcnt_of (h b) = ground arith in
            rw e (
              mono
                (reserve_middle_new-Opened others pos removed inserted s (drop_shared b h) le fresh
                  (drop_shared-IsCounted others b h k many)
                  (drop_shared-none others b h k many fresh free) small)
                (rebase-Gap others h (drop_shared b h) (region s h) (region s (drop_shared b h))
                  s.str pos (pos + removed) (s.length - pos - removed) inserted s.length
                  (region_same s.storage h (drop_shared b h)
                    (λ a. (drop_shared-same others b h k many a).0))
                  (λ a lt. drop_shared-same others b h k many a)))
        | inr e ↦
            let one : refcnt_of (h b) ≡ 1 = ground (arith, k.counted b, one_ref b) in
            rw e (elim (Bool-cases (ltb (capacity_of (h b)) (s.length + inserted - removed))) [
              | inl f ↦ rw f (
                  bind _
                    (reserve_middle_new-Opened (plus others b) pos removed inserted s h le fresh k
                      free small)
                    λ t g r. returns (
                      freed-Gap others b h (region s h) s.str pos (pos + removed)
                        (s.length - pos - removed) inserted s.length k one t g r))
              | inr f ↦
                  rw (f, ← rm)
                    (reserve_middle_move-Opened others pos removed inserted s h le c (own one)
                      inside (ground arith))
            ])
      ]

  -- The gap with the new length.
  resized :
      (s : Str) (n : ℕ) (t : Str) (g : Heap)
      → Opened others pos removed inserted s h t g
      → Returns
          (Gap others h
            (region s h)
            s.str
            pos
            (pos + removed)
            (s.length - pos - removed)
            inserted
            n)
          (ok (record t { length = n }) g)
  resized s n t g r = returns (record {
    counts = r.counts;
    owned = r.owned;
    inside = r.inside;
    head = r.head;
    tail = r.tail;
    length_same = refl;
    kept = r.kept;
  })

  reserve_kinds-Gap :
      (st : Storage) (str length : ℕ)
      → IsCounted (refs_of st) others h
      → pos + removed ≤ length
      → str + length ≤ room_of st h
      → length + inserted - removed ≤ max_size
      → Returns
          (Gap others h
            (region_of st h)
            str
            pos
            (pos + removed)
            (length - pos - removed)
            inserted
            (length + inserted - removed))
          (reserve_middle fresh pos removed inserted (string st str length) h)
  unfolding reserve_middle
  reserve_kinds-Gap (literal text size) str length k le inside small =
      let s = string (literal text size) str length in
      bind _ (reserve_middle_new-Opened others pos removed inserted s h le fresh k free small)
        (resized s (length + inserted - removed))
  reserve_kinds-Gap (sso fill) str length k le inside small =
      let s = string (sso fill) str length in
      elim (Bool-cases (ltb max_sso_chars (length + inserted - removed))) [
        | inl e ↦ rw e (
            bind _
              (copy_around-Opened others pos removed inserted s h le _ _
                (new_buffer-Fresh others fresh (length + inserted - removed) s h k free))
              (resized s (length + inserted - removed)))
        | inr e ↦ rw e (
            bind _
              (reserve_middle_move-Opened others pos removed inserted s h le k tt inside
                (ground arith))
              (resized s (length + inserted - removed)))
      ]
  reserve_kinds-Gap (internal b d) str length k le inside small =
      let s = string (internal b d) str length in
      bind _
        (reserve_middle_buffer-Opened b s k (as_plus others b d h k) (λ e. e) refl le inside small)
        (resized s (length + inserted - removed))
  reserve_kinds-Gap (external b d) str length k le inside small =
      let s = string (external b d) str length in
      bind _
        (reserve_middle_buffer-Opened b s k (as_plus others b d h k) (λ e. e) refl le inside small)
        (resized s (length + inserted - removed))

  -- `_reserve_middle`.
  pub reserve_middle-Gap :
      (s : Str)
      → IsCounted (refs s) others h
      → pos + removed ≤ s.length
      → s.str + s.length ≤ room s h
      → s.length + inserted - removed ≤ max_size
      → Returns
          (Gap others h
            (region s h)
            s.str
            pos
            (pos + removed)
            (s.length - pos - removed)
            inserted
            (s.length + inserted - removed))
          (reserve_middle fresh pos removed inserted s h)
  reserve_middle-Gap s = reserve_kinds-Gap s.storage s.str s.length
