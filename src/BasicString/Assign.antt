-- ===== src/BasicString/Assign.antt =====
-- `assign` and `shrink_to_fit`.
use panda_lib.Base.{
  ℕ, ◌+◌, ◌≤◌, ◌<◌, ◌≡◌, refl, none, leb, ltb, ◌==◌, if◌then◌else◌, arith, ◌∙◌, inl, inr,
  Bool-cases, ap, slice, slice_ext, ◌&&◌,
}
use panda_lib.BasicString.Memory.{
  Chars, Heap, write, Str, string, Storage, literal, sso, internal, external, ok, ◌>>=◌, region,
  room, view, max_size, max_sso_chars, refcnt_of, capacity_of,
}
use panda_lib.BasicString.Storage.{
  release_buffer, external_realloc, detach_str, new_auto, drop_shared,
}
use panda_lib.BasicString.Ops.{shrink_to_fit, assign_chars, reserve_drop}
use panda_lib.BasicString.Invariant.{
  Owned, refs, refs_of, IsCounted, Fits, Kept, Kept-trans, Returns, returns, bind, mono,
  write_chars-Wrote, Wrote_in,
}
use panda_lib.BasicString.New.{nobody, plus}
use panda_lib.BasicString.Reserved.{
  Reserved, Untouched, away-Untouched, owned_alone, one_ref, move_to_new-Reserved,
  detach_str-Reserved,
}
use panda_lib.BasicString.ReserveSave.{internal_realloc-Reserved, as_plus}
use panda_lib.BasicString.Became.{Became, unchanged}
use panda_lib.BasicString.New.{
  release_buffer-IsCounted, release_buffer-Kept, Fresh, new_auto-Fresh, drop_shared-IsCounted,
  drop_shared-same, drop_shared-none, free-IsCounted, free-Kept,
}

module _ (others : ℕ → ℕ) (fresh capacity : ℕ) (h : Heap) (free : h fresh ≡ none)
    (small : capacity ≤ max_size) where
  rebase-Fresh :
      (s : Str) (k : Heap)
      → Kept others h k
      → (t : Str) (g : Heap) → Fresh others s k capacity t g
      → Fresh others s h capacity t g
  rebase-Fresh s k keep t g n = record {
    counts = n.counts;
    owned = n.owned;
    room_enough = n.room_enough;
    str_zero = n.str_zero;
    length_same = n.length_same;
    kept = Kept-trans others h k g keep n.kept;
  }

  -- New storage after the string has given up its buffer.
  drop_buffer-Fresh :
      (b : ℕ) (s : Str)
      → IsCounted (refs s) others h
      → IsCounted nobody (plus others b) h
      → (refcnt_of (h b) ≡ 1 → Owned s h)
      → room s h ≡ capacity_of (h b)
      → Returns (Fresh others s h capacity) (
          if ltb 1 (refcnt_of (h b))
          then new_auto fresh capacity s (drop_shared b h)
          else if ltb (capacity_of (h b)) capacity
          then new_auto fresh capacity s (write h b none)
          else ok (record s { str = 0 }) h)
  drop_buffer-Fresh b s c k own rm = elim (Bool-cases (ltb 1 (refcnt_of (h b)))) [
    | inl e ↦
        let many : 1 < refcnt_of (h b) = ground arith in
        rw e (
          mono
            (new_auto-Fresh others fresh capacity s (drop_shared b h)
              (drop_shared-IsCounted others b h k many)
              (drop_shared-none others b h k many fresh free) small)
            (rebase-Fresh s (drop_shared b h) (λ a lt. drop_shared-same others b h k many a)))
    | inr e ↦
        let one : refcnt_of (h b) ≡ 1 = ground (arith, k.counted b, one_ref b) in
        rw e (elim (Bool-cases (ltb (capacity_of (h b)) capacity)) [
          | inl f ↦ rw f (
              mono
                (new_auto-Fresh others fresh capacity s (write h b none)
                  (free-IsCounted nobody others b h k one) (ground arith) small)
                (rebase-Fresh s (write h b none) (free-Kept nobody others b h k one)))
          | inr f ↦ rw f (
              returns (record {
                counts = c;
                owned = own one;
                room_enough = ground (arith, rm);
                str_zero = refl;
                length_same = refl;
                kept = λ a lt. (refl, refl);
              }))
        ])
  ]

  reserve_drop_of :
      (st : Storage) (str length : ℕ)
      → IsCounted (refs_of st) others h
      → Returns
          (Fresh others (string st str length) h capacity)
          (reserve_drop fresh capacity (string st str length) h)
  unfolding reserve_drop
  reserve_drop_of (literal text size) str length k =
      new_auto-Fresh others fresh capacity _ h k free small
  reserve_drop_of (sso fill) str length k = new_auto-Fresh others fresh capacity _ h k free small
  reserve_drop_of (internal b d) str length k =
      drop_buffer-Fresh b (string (internal b d) str length) k (as_plus others b d h k) (λ e. e)
        refl
  reserve_drop_of (external b d) str length k =
      drop_buffer-Fresh b (string (external b d) str length) k (as_plus others b d h k) (λ e. e)
        refl

  -- `assign(src, len)`: the string stands for the given characters, whatever its storage was, and no
  -- buffer of another string changes.
  pub assign_chars-Became :
      (src : Chars) (s : Str)
      → Fits others s h
      → Returns (Became others h (slice 0 capacity src)) (assign_chars fresh src capacity s h)
  unfolding assign_chars view
  assign_chars-Became src s v = bind _ (reserve_drop_of s.storage s.str s.length v.counts) λ t g n.
      bind _
        (write_chars-Wrote others 0 capacity src t g n.counts n.owned
          (omega (arith, n.str_zero, n.room_enough)))
        λ u k w. returns (record {
          fits = record {
            counts = w.counts;
            inside = omega (arith, w.room_same, w.str_same, n.str_zero, n.room_enough);
          };
          kept = Kept-trans others h g k n.kept w.kept;
          stands_for =
              slice_ext u.str 0 capacity (region u k) src
                (λ i lt. ap (region u k) (omega arith) ∙ Wrote_in w i lt ∙ ap src (omega arith));
        })

-- What holds a string's own copy of its characters stands for them.
Reserved-Became :
    (others : ℕ → ℕ) (s : Str) (h : Heap) (t : Str) (g : Heap)
    → Reserved others s h s.length t g
    → Became others h (view s h) t g
unfolding view
Reserved-Became others s h t g r = record {
  fits = record { counts = r.counts; inside = omega (arith, r.inside, r.length_same) };
  kept = r.kept;
  stands_for =
      ap (λ n. slice t.str n (region t g)) r.length_same
      ∙ slice_ext t.str s.str s.length (region t g) (region s h) r.same;
}

module _ (others : ℕ → ℕ) (fresh : ℕ) (h : Heap) (free : h fresh ≡ none) where
  release-Untouched :
      (st : Storage) (g : Heap) (b : ℕ) → refs_of st b ≡ 0 → Untouched st g (release_buffer b g)
  unfolding release_buffer
  release-Untouched st g b = away-Untouched st g _ b (λ a ne. ground arith)

  -- The characters go to storage of the string's own, and the reference is given up.
  leave_buffer :
      (b : ℕ) (s : Str)
      → IsCounted nobody (plus others b) h
      → s.length ≤ max_size
      → Returns
          (Became others h (view s h))
          (detach_str fresh s.length s h >>= λ (t, g). ok t (release_buffer b g))
  leave_buffer b s k small =
      bind _ (detach_str-Reserved (plus others b) s h s.length (omega arith) fresh k free small)
        λ t g r.
          let u =
            release-Untouched t.storage g b (owned_alone others t.storage g b r.counts r.owned) in
          returns (
            Reserved-Became others s h t (release_buffer b g) (record {
              counts = release_buffer-IsCounted (refs t) others b g r.counts;
              owned = u.owned r.owned;
              inside = omega (arith, u.room_same, r.inside);
              length_same = r.length_same;
              same = λ i lt. u.same (t.str + i) ∙ r.same i lt;
              kept =
                  Kept-trans others h g (release_buffer b g) (λ a lt. r.kept a (omega arith))
                    (release_buffer-Kept (refs t) others b g r.counts);
            }))

  shrink_of :
      (st : Storage) (str length : ℕ)
      → Fits others (string st str length) h
      → length ≤ max_size
      → Returns
          (Became others h (view (string st str length) h))
          (shrink_to_fit fresh (string st str length) h)
  unfolding shrink_to_fit external_realloc
  shrink_of (literal text size) str length v small = returns (unchanged others _ h v)
  shrink_of (sso fill) str length v small = returns (unchanged others _ h v)
  shrink_of (internal b d) str length v small =
      let s = string (internal b d) str length in
      elim (Bool-cases (leb length max_sso_chars)) [
        | inl e ↦ rw e (leave_buffer b s (as_plus others b d h v.counts) small)
        | inr e ↦
            rw e (elim (Bool-cases (ltb length (capacity_of (h b)) && (refcnt_of (h b) == 1))) [
              | inl f ↦ rw f (
                  mono
                    (internal_realloc-Reserved others b d str length h length fresh (λ c. c)
                      v.counts free v.inside (omega arith) (omega arith) (ground arith))
                    (Reserved-Became others s h))
              | inr f ↦ rw f (returns (unchanged others s h v))
            ])
      ]
  shrink_of (external b d) str length v small =
      let s = string (external b d) str length in
      elim (Bool-cases (leb length max_sso_chars)) [
        | inl e ↦ rw e (leave_buffer b s (as_plus others b d h v.counts) small)
        | inr e ↦
            rw e (elim (Bool-cases (ltb length (capacity_of (h b)) && (refcnt_of (h b) == 1))) [
              | inl f ↦ rw f (
                  mono
                    (move_to_new-Reserved others b s h length fresh (as_plus others b d h v.counts)
                      free (omega arith) small (ground arith))
                    (Reserved-Became others s h))
              | inr f ↦ rw f (returns (unchanged others s h v))
            ])
      ]

  -- `shrink_to_fit` leaves the characters, the validity, and the buffers of others, whatever the
  -- storage was and on every branch.
  pub shrink_to_fit-Became :
      (s : Str)
      → Fits others s h
      → s.length ≤ max_size
      → Returns (Became others h (view s h)) (shrink_to_fit fresh s h)
  shrink_to_fit-Became s = shrink_of s.storage s.str s.length
