-- ===== src/BasicString/Life.antt =====
-- Copies, `substr`, the destructor, `assign`, `shrink_to_fit`, `resize` and `operator[]`.
use panda_lib.Base.{
  ℕ, ◌+◌, ◌-◌, ◌%◌, ◌^◌, ◌≤◌, ◌<◌, ◌≡◌, refl, none, ltb, if◌then◌else◌, arith, List, ◌++◌, [], ◌∷◌,
  ◌∙◌, inl, inr, Bool-cases, ap, slice, take, take-slice, drop, drop-slice, sym, ge→ltb, lt→ltb,
  subst, replicate, slice-replicate, take_past, length-slice,
}
use panda_lib.BasicString.Memory.{
  Chars, Heap, Str, string, Storage, literal, sso, internal, external, ◌>>=◌, region, region_of,
  write_chars, view, max_size, refcnt_of, capacity_of, chars_of,
}
use panda_lib.BasicString.Storage.{set_refcnt, release, reserve_save}
use panda_lib.BasicString.Ops.{cow, cow_offset, resize, set_char}
use panda_lib.BasicString.Invariant.{
  refs, refs_of, IsCounted, Fits, Kept, Returns, returns, bind, mono, write_chars-Wrote,
}
use panda_lib.BasicString.New.{nobody, release_buffer-IsCounted, release_buffer-Kept}
use panda_lib.BasicString.ReserveSave.{Scales, reserve_save-Reserved, detach-Reserved, as_plus}
use panda_lib.BasicString.Insert.{spliced, fill_opening}
use panda_lib.BasicString.Append.{extended}
use panda_lib.BasicString.Became.{Became}

-- The destructor.
module _ (others : ℕ → ℕ) (h : Heap) where
  release_of :
      (st : Storage) (str length : ℕ)
      → IsCounted (refs_of st) others h
      → IsCounted nobody others (release (string st str length) h)
        × Kept others h (release (string st str length) h)
  unfolding release
  release_of (literal text size) str length k = (k, λ b lt. (refl, refl))
  release_of (sso fill) str length k = (k, λ b lt. (refl, refl))
  release_of (internal b d) str length k =
      let p = as_plus others b d h k in
      (release_buffer-IsCounted nobody others b h p, release_buffer-Kept nobody others b h p)
  release_of (external b d) str length k =
      let p = as_plus others b d h k in
      (release_buffer-IsCounted nobody others b h p, release_buffer-Kept nobody others b h p)

  -- `_release`, which the destructor is: every buffer of the heap is then held by the other strings
  -- alone, one that nobody holds is gone, and those that are held are as before.
  pub release-IsCounted :
      (s : Str)
      → Fits others s h
      → IsCounted nobody others (release s h) × Kept others h (release s h)
  release-IsCounted s v = release_of s.storage s.str s.length v.counts

-- A copy and the string that was copied, each with the other among those that hold buffers.
pub record Shared (others : ℕ → ℕ) (s : Str) (h : Heap) (xs : List ℕ) (t : Str) (g : Heap)
    : Type 0 where
  pub copy : Fits (λ b. refs s b + others b) t g
  pub original : Fits (λ b. refs t b + others b) s g
  pub copy_is : view t g ≡ xs
  pub original_is : view s g ≡ view s h
  pub kept : (b : ℕ) → (chars_of (g b) ≡ chars_of (h b)) × (capacity_of (g b) ≡ capacity_of (h b))

-- One more reference.
module _ (others : ℕ → ℕ) (h : Heap) (b d : ℕ) (k : IsCounted (refs_of (internal b d)) others h)
    (few : refcnt_of (h b) < 2 ^ 32 - 1) where
  shared_heap : Heap
  unfolding set_refcnt
  shared_heap = set_refcnt h b ((refcnt_of (h b) + 1) % 2 ^ 32)

  shared-IsCounted :
      IsCounted (refs_of (internal b d)) (λ a. refs_of (internal b d) a + others a) shared_heap
  unfolding shared_heap
  shared-IsCounted = record {
    counted = λ a. ground (arith, k.counted a, k.counted b);
    live = λ a z. ground (arith, k.live a);
  }

  shared_same :
      (a : ℕ)
      → (chars_of (shared_heap a) ≡ chars_of (h a))
        × (capacity_of (shared_heap a) ≡ capacity_of (h a))
  unfolding shared_heap
  shared_same a = (ground arith, ground arith)

module _ (others : ℕ → ℕ) (h : Heap) (pos n : ℕ) where
  cow_of :
      (st : Storage) (str length : ℕ)
      → Fits others (string st str length) h
      → pos + n ≤ length
      → ((b : ℕ) → refcnt_of (h b) < 2 ^ 32 - 1)
      → Shared others
          (string st str length)
          h
          (slice (str + pos) n (region_of st h))
          (cow pos n (string st str length) h).0
          (cow pos n (string st str length) h).1
  unfolding cow view
  cow_of (literal text size) str length v le few = record {
    copy = record { counts = nothing_held; inside = omega (arith, v.inside) };
    original = record { counts = nothing_held; inside = v.inside };
    copy_is = refl;
    original_is = refl;
    kept = λ b. (refl, refl);
  }
    where
      nothing_held : IsCounted nobody (λ b. 0 + others b) h
      nothing_held = record {
        counted = λ a. omega (arith, v.counts.counted a);
        live = λ a z. v.counts.live a (omega arith);
      }
  cow_of (sso fill) str length v le few = record {
    copy = record { counts = nothing_held; inside = omega (arith, v.inside) };
    original = record { counts = nothing_held; inside = v.inside };
    copy_is = refl;
    original_is = refl;
    kept = λ b. (refl, refl);
  }
    where
      nothing_held : IsCounted nobody (λ b. 0 + others b) h
      nothing_held = record {
        counted = λ a. omega (arith, v.counts.counted a);
        live = λ a z. v.counts.live a (omega arith);
      }
  cow_of (internal b d) str length v le few =
      let same = shared_same others h b d v.counts (few b) in
      let both = shared-IsCounted others h b d v.counts (few b) in
      unfold shared_heap in
      record {
        copy = record { counts = both; inside = omega (arith, v.inside, (same b).1) };
        original = record { counts = both; inside = omega (arith, v.inside, (same b).1) };
        copy_is = ap (slice (str + pos) n) (same b).0;
        original_is = ap (slice str length) (same b).0;
        kept = same;
      }
  cow_of (external b d) str length v le few =
      let same = shared_same others h b d v.counts (few b) in
      let both = shared-IsCounted others h b d v.counts (few b) in
      unfold shared_heap in
      record {
        copy = record { counts = both; inside = omega (arith, v.inside, (same b).1) };
        original = record { counts = both; inside = omega (arith, v.inside, (same b).1) };
        copy_is = ap (slice (str + pos) n) (same b).0;
        original_is = ap (slice str length) (same b).0;
        kept = same;
      }

-- The length of the part that is asked for.
abbrev part_length : ℕ → ℕ → ℕ
part_length rest len = if ltb rest len then rest else len

take_part : (o n len : ℕ) (f : Chars) → slice o (part_length n len) f ≡ take len (slice o n f)
take_part o n len f = elim (Bool-cases (ltb n len)) [
  | inl e ↦ rw e (sym (take_past len (slice o n f) (ground (arith, length-slice o n f))))
  | inr e ↦ rw e (sym (take-slice len o n f (ground arith)))
]

-- The copy constructor and `substr`: from a position inside of the string the copy stands for the
-- characters that are asked for, the original for what it stood for, both are valid beside one
-- another, and no buffer changes its characters. No buffer has 2 ^ 32 - 1 holders or more before.
pub cow_offset-Shared :
    (others : ℕ → ℕ) (h : Heap) (pos len : ℕ) (s : Str)
    → Fits others s h
    → pos ≤ s.length
    → ((b : ℕ) → refcnt_of (h b) < 2 ^ 32 - 1)
    → Returns (Shared others s h (take len (drop pos (view s h)))) (cow_offset pos len s h)
unfolding cow_offset view
cow_offset-Shared others h pos len s v le few =
    rw
      (
        ge→ltb s.length pos le,
        drop-slice pos s.str s.length (region s h) le,
        ← take_part (s.str + pos) (s.length - pos) len (region s h),
      )
      (returns (
        cow_of others h pos (part_length (s.length - pos) len) s.storage s.str s.length v
          (ground arith) few))

-- `resize` cuts the string, or fills it up.
module _ (others : ℕ → ℕ) (exact : ℕ → ℕ) (fresh ch : ℕ) (s : Str) (h : Heap) (v : Fits others s h)
    (free : h fresh ≡ none) where
  cut :
      (count : ℕ)
      → count ≤ s.length
      → Became others h (take count (view s h)) (record s { length = count }) h
  unfolding view
  cut count le = record {
    fits = record { counts = v.counts; inside = omega (arith, v.inside) };
    kept = λ b lt. (refl, refl);
    stands_for = sym (take-slice count s.str s.length (region s h) le);
  }

  -- `resize(count, ch)` to no more than the length leaves the first `count` characters.
  pub resize_cut :
      (count : ℕ)
      → count ≤ s.length
      → Returns (Became others h (take count (view s h))) (resize exact fresh count ch s h)
  unfolding resize
  resize_cut count le = rw (ge→ltb s.length count le) (returns (cut count le))

  filled_up :
      (more : ℕ)
      → Scales exact (s.length + more)
      → Returns
          (λ u k.
            Became others h
              (view s h ++ slice 0 more (λ i. ch))
              (record u { length = u.length + more })
              k
            × (u.length ≡ s.length))
          (reserve_save fresh (s.length + more) exact s h >>= λ (t, g).
            write_chars t.length (s.length + more - t.length) (λ i. ch) t g)
  filled_up more sc =
      bind _
        (reserve_save-Reserved others h fresh exact free s (s.length + more) v (omega arith) sc)
        λ t g r.
          let e : s.length + more - t.length ≡ more = omega (arith, r.length_same) in
          rw e (
            mono
              (write_chars-Wrote others t.length more (λ i. ch) t g r.counts r.owned
                (omega (arith, r.inside, r.length_same)))
              λ u k w. (
                extended others s h more (λ i. ch) (λ i. ch) t g r (λ i lt. refl) u k w,
                w.length_same ∙ r.length_same,
              ))

  -- `resize(s.length + more, ch)` puts `more` times the character behind, and no buffer of another
  -- string changes.
  pub resize_fill :
      (more : ℕ)
      → 0 < more
      → Scales exact (s.length + more)
      → Returns
          (Became others h (view s h ++ replicate more ch))
          (resize exact fresh (s.length + more) ch s h)
  unfolding resize
  resize_fill more lt sc =
      rw
        (
          lt→ltb s.length (s.length + more) (omega arith),
          ← slice-replicate 0 more (λ i. ch) ch (λ i lt. refl),
        )
        (bind _ (filled_up more sc) λ u k (b, e). returns (
          subst
            (λ n. Became others h (view s h ++ slice 0 more (λ i. ch)) (record u { length = n }) k)
            (omega (arith, e)) b))

-- A write through `operator[]`.
module _ (others : ℕ → ℕ) (fresh ch : ℕ) (s : Str) (h : Heap) (v : Fits others s h)
    (free : h fresh ≡ none) where
  -- `s[pos] = ch` changes the one character, in this string alone.
  pub set_char-Became :
      (pos : ℕ)
      → pos < s.length
      → s.length ≤ max_size
      → Returns (Became others h (spliced (view s h) pos 1 (ch ∷ []))) (set_char fresh pos ch s h)
  unfolding set_char
  set_char-Became pos lt small = bind _ (detach-Reserved others h fresh free s v small) λ t g r.
      fill_opening others s h pos 1 1 (λ i. ch) (omega arith) t g
        (record {
          counts = r.counts;
          owned = r.owned;
          inside = omega (arith, r.inside);
          head = λ i l. r.same i (omega arith);
          tail = λ i l.
              ap (region t g) (omega arith)
              ∙ r.same (pos + 1 + i) (omega arith)
              ∙ ap (region s h) (omega arith);
          length_same = omega (arith, r.length_same);
          kept = r.kept;
        })
