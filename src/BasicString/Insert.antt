-- ===== src/BasicString/Insert.antt =====
-- `insert` and `replace`.
use panda_lib.Base.{
  ℕ, ◌+◌, ◌-◌, ◌≤◌, ◌≡◌, none, leb, ◌==◌, if◌then◌else◌, arith, List, ◌++◌, [], ◌∙◌, inl, inr,
  Bool-cases, ap, ap₂, slice, slice_ext, slice-append, take, take-slice, drop, drop-slice, sym,
  ==→eq, subst, eq→==, length, length-slice, drop_past, append-nil, take-drop,
}
use panda_lib.BasicString.Memory.{Chars, Heap, Str, ok, region, write_chars, view, max_size}
use panda_lib.BasicString.Ops.{append_chars}
use native.Mathlib.Nat.{add-zero}
use panda_lib.BasicString.Middle.{insert_chars, replace_chars, erase}
use panda_lib.BasicString.Invariant.{
  Fits, Kept-trans, Returns, returns, bind, mono, write_chars-Wrote, Wrote_in, Wrote_out, Wrote,
}
use panda_lib.BasicString.ReserveSave.{Scales}
use panda_lib.BasicString.Gap.{Gap}
use panda_lib.BasicString.ReserveMiddle.{reserve_middle-Gap}
use panda_lib.BasicString.Became.{Became, unchanged}
use panda_lib.BasicString.Append.{append_chars-Became, slice_zero}
use panda_lib.BasicString.Erase.{erase-Became}

-- `inserted` characters in place of `removed` from `pos` on.
abbrev pub spliced : List ℕ → (pos removed : ℕ) → List ℕ → List ℕ
spliced xs pos removed ys = take pos xs ++ (ys ++ drop (pos + removed) xs)

-- The write into the gap.
module _ (others : ℕ → ℕ) (s : Str) (h : Heap) (pos removed inserted : ℕ) (ys : Chars)
    (le : pos + removed ≤ s.length) where
  pub fill_opening :
      (t : Str) (g : Heap)
      → Gap others h
          (region s h)
          s.str
          pos
          (pos + removed)
          (s.length - pos - removed)
          inserted
          (s.length + inserted - removed)
          t
          g
      → Returns
          (Became others h (spliced (view s h) pos removed (slice 0 inserted ys)))
          (write_chars pos inserted ys t g)
  unfolding view
  fill_opening t g r =
      mono (write_chars-Wrote others pos inserted ys t g r.counts r.owned (omega (arith, r.inside)))
        λ u k w. record {
          fits = record {
            counts = w.counts;
            inside = omega (arith, w.room_same, w.str_same, w.length_same, r.length_same, r.inside);
          };
          kept = Kept-trans others h g k r.kept w.kept;
          stands_for =
              ap (λ n. slice u.str n (region u k)) {y = pos + (inserted + rest)}
                (omega (arith, w.length_same, r.length_same))
              ∙ slice-append u.str pos (inserted + rest) (region u k)
              ∙ ap₂ ◌++◌ (front u k w) (
                  slice-append (u.str + pos) inserted rest (region u k)
                  ∙ ap₂ ◌++◌ (middle u k w) (back u k w));
        }
    where
      rest : ℕ
      rest = s.length - pos - removed

      front :
          (u : Str) (k : Heap)
          → Wrote others t g pos inserted ys u k
          → slice u.str pos (region u k) ≡ take pos (slice s.str s.length (region s h))
      front u k w =
          slice_ext u.str s.str pos (region u k) (region s h)
            (λ i lt. Wrote_out w i (inl lt) ∙ r.head i lt)
          ∙ sym (take-slice pos s.str s.length (region s h) (omega arith))

      middle :
          (u : Str) (k : Heap)
          → Wrote others t g pos inserted ys u k
          → slice (u.str + pos) inserted (region u k) ≡ slice 0 inserted ys
      middle u k w =
          slice_ext (u.str + pos) 0 inserted (region u k) ys
            (λ i lt. ap (region u k) (omega arith) ∙ Wrote_in w i lt ∙ ap ys (omega arith))

      back :
          (u : Str) (k : Heap)
          → Wrote others t g pos inserted ys u k
          → slice (u.str + pos + inserted) rest (region u k)
            ≡ drop (pos + removed) (slice s.str s.length (region s h))
      back u k w =
          slice_ext (u.str + pos + inserted) (s.str + (pos + removed)) rest (region u k)
            (region s h)
            (λ i lt.
              ap (region u k) (omega arith)
              ∙ Wrote_out w (pos + inserted + i) (inr (omega arith))
              ∙ r.tail i lt
              ∙ ap (region s h) (omega arith))
          ∙ ap (λ n. slice (s.str + (pos + removed)) n (region s h)) (omega arith)
          ∙ sym (drop-slice (pos + removed) s.str s.length (region s h) le)

-- Without the characters that `replace` removes at the end.
trimmed :
    (others : ℕ → ℕ) (s : Str) (h : Heap) (pos : ℕ)
    → Fits others s h
    → pos ≤ s.length
    → Fits others (record s { length = pos }) h
trimmed others s h pos v le = record { counts = v.counts; inside = omega (arith, v.inside) }

view_trimmed :
    (s : Str) (h : Heap) (pos : ℕ)
    → pos ≤ s.length
    → view (record s { length = pos }) h ≡ take pos (view s h)
unfolding view
view_trimmed s h pos le = sym (take-slice pos s.str s.length (region s h) le)

length-view : (s : Str) (h : Heap) → length (view s h) ≡ s.length
unfolding view
length-view s h = length-slice s.str s.length (region s h)

-- At the end there is nothing left behind.
spliced_end :
    (s : Str) (h : Heap) (pos removed : ℕ) (ys : List ℕ)
    → s.length ≤ pos + removed
    → spliced (view s h) pos removed ys ≡ take pos (view s h) ++ ys
spliced_end s h pos removed ys le =
    rw (drop_past (pos + removed) (view s h) (omega (arith, length-view s h)), append-nil)

spliced_none : (s : Str) (h : Heap) (pos : ℕ) → spliced (view s h) pos 0 [] ≡ view s h
spliced_none s h pos = rw add-zero (take-drop pos (view s h))

-- What is asked of the sizes: they are capacities that the library can allocate.
abbrev pub Sizes : (ℕ → ℕ) → Str → (pos removed inserted : ℕ) → Type 0
Sizes grow s pos removed inserted = (s.length + inserted ≤ max_size) × Scales grow (pos + inserted)

module _ (others : ℕ → ℕ) (grow : ℕ → ℕ) (fresh : ℕ) (src : Chars) (s : Str) (h : Heap)
    (v : Fits others s h) (free : h fresh ≡ none) where
  append_at :
      (pos removed inserted : ℕ)
      → pos ≤ s.length
      → s.length ≤ pos + removed
      → s.length + inserted ≤ max_size
      → Scales grow (pos + inserted)
      → Returns
          (Became others h (spliced (view s h) pos removed (slice 0 inserted src)))
          (append_chars grow fresh src inserted (record s { length = pos }) h)
  append_at pos removed inserted le past small sc =
      rw (spliced_end s h pos removed (slice 0 inserted src) past, ← view_trimmed s h pos le)
        (append_chars-Became others grow fresh (record s { length = pos }) h
          (trimmed others s h pos v le) free src inserted (omega arith) sc)

  append_end :
      (pos removed inserted : ℕ)
      → pos ≡ s.length
      → s.length + inserted ≤ max_size
      → Scales grow (pos + inserted)
      → Returns
          (Became others h (spliced (view s h) pos removed (slice 0 inserted src)))
          (append_chars grow fresh src inserted s h)
  append_end pos removed inserted e small sc =
      subst
        (λ p.
          Returns (Became others h (spliced (view s h) pos removed (slice 0 inserted src)))
            (append_chars grow fresh src inserted (record s { length = p }) h))
        e (append_at pos removed inserted (omega arith) (omega arith) small sc)

  removal :
      (pos removed : ℕ)
      → pos ≤ s.length
      → s.length ≤ max_size
      → Returns
          (Became others h (spliced (view s h) pos removed []))
          (if removed == 0 then ok s h else erase fresh pos removed s h)
  removal pos removed le small = elim (Bool-cases (removed == 0)) [
    | inl e ↦ rw e (
        subst (λ xs. Returns (Became others h xs) (ok s h))
          (sym (spliced_none s h pos)
            ∙ ap (λ r. spliced (view s h) pos r []) (sym (==→eq removed 0 e)))
          (returns (unchanged others s h v)))
    | inr e ↦ rw e (erase-Became others h pos removed fresh free s v le small)
  ]

  -- `replace(pos, removed, src, inserted)` at a position inside of the string puts the new characters
  -- in place of the removed ones, on every branch, and no buffer of another string changes.
  pub replace_chars-Became :
      (pos removed inserted : ℕ)
      → pos ≤ s.length
      → s.length + inserted ≤ max_size
      → Scales grow (pos + inserted)
      → Returns
          (Became others h (spliced (view s h) pos removed (slice 0 inserted src)))
          (replace_chars grow fresh pos removed src inserted s h)
  unfolding replace_chars
  replace_chars-Became pos removed inserted le small sc = elim (Bool-cases (leb s.length pos)) [
    | inl at_end ↦
        rw (at_end, eq→== pos s.length (ground arith))
          (append_end pos removed inserted (ground arith) small sc)
    | inr before ↦ rw before (elim (Bool-cases (leb (s.length - pos) removed)) [
      | inl past ↦ rw past (append_at pos removed inserted le (ground arith) small sc)
      | inr short ↦ rw short (elim (Bool-cases (inserted == 0)) [
        | inl nothing ↦
            rw (nothing, slice_zero inserted src nothing) (removal pos removed le (omega arith))
        | inr something ↦ rw something (
            bind _
              (reserve_middle-Gap others pos removed inserted h fresh free s v.counts (ground arith)
                v.inside (omega arith))
              (fill_opening others s h pos removed inserted src (ground arith)))
      ])
    ])
  ]

  insert_spliced :
      (pos count : ℕ)
      → pos ≤ s.length
      → s.length + count ≤ max_size
      → Scales grow (pos + count)
      → Returns
          (Became others h (spliced (view s h) pos 0 (slice 0 count src)))
          (insert_chars grow fresh pos src count s h)
  unfolding insert_chars
  insert_spliced pos count le small sc = elim (Bool-cases (leb s.length pos)) [
    | inl at_end ↦
        rw (at_end, eq→== pos s.length (ground arith))
          (append_end pos 0 count (ground arith) small sc)
    | inr before ↦ rw before (elim (Bool-cases (count == 0)) [
      | inl nothing ↦
          rw (nothing, slice_zero count src nothing)
            (subst (λ xs. Returns (Became others h xs) (ok s h)) (sym (spliced_none s h pos))
              (returns (unchanged others s h v)))
      | inr something ↦ rw something (
          bind _
            (reserve_middle-Gap others pos 0 count h fresh free s v.counts (ground arith) v.inside
              (omega arith))
            (fill_opening others s h pos 0 count src (ground arith)))
    ])
  ]

  -- `insert(pos, src, count)` at a position inside of the string puts the characters before the one
  -- at `pos`, on every branch, and no buffer of another string changes.
  pub insert_chars-Became :
      (pos count : ℕ)
      → pos ≤ s.length
      → s.length + count ≤ max_size
      → Scales grow (pos + count)
      → Returns
          (Became others h (take pos (view s h) ++ (slice 0 count src ++ drop pos (view s h))))
          (insert_chars grow fresh pos src count s h)
  insert_chars-Became pos count le small sc = rw add-zero at (insert_spliced pos count le small sc)
