-- ===== src/BasicString/Append.antt =====
-- `append`, `push_back`, `resize`, and a write through `operator[]`.
use panda_lib.Base.{
  ℕ, suc, ◌+◌, ◌%◌, ◌<◌, ◌≡◌, refl, true, none, ◌==◌, arith, ◌++◌, ◌∙◌, inl, inr, Bool-cases, ap,
  ap₂, slice, slice_ext, slice-append, replicate, slice-replicate, append-nil, zero, [], subst,
}
use panda_lib.BasicString.Memory.{Chars, Heap, Str, size_mod, region, view}
use panda_lib.BasicString.Ops.{append_from, append_fill, append_chars, append_string, append_self}
use panda_lib.BasicString.Invariant.{
  Fits, Kept-trans, Returns, returns, bind, Wrote, write_chars-Wrote, Wrote_in, Wrote_out,
}
use panda_lib.BasicString.Reserved.{Reserved}
use panda_lib.BasicString.ReserveSave.{Scales, reserve_save-Reserved}
use panda_lib.BasicString.Became.{Became, IsAmong, Kept-region, unchanged}

-- A write behind the characters, and the new length.
module _ (others : ℕ → ℕ) (s : Str) (h : Heap) (count : ℕ) (f ys : Chars) (t : Str) (g : Heap)
    (r : Reserved others s h (s.length + count) t g)
    (reads : (i : ℕ) → i < count → f i ≡ ys i) where
  pub extended :
      (u : Str) (k : Heap)
      → Wrote others t g t.length count f u k
      → Became others h (view s h ++ slice 0 count ys) (record u { length = u.length + count }) k
  unfolding view
  extended u k w = record {
    fits = record {
      counts = w.counts;
      inside = omega (arith, w.room_same, w.str_same, w.length_same, r.length_same, r.inside);
    };
    kept = Kept-trans others h g k r.kept w.kept;
    stands_for =
        ap (λ n. slice u.str (n + count) (region u k)) {y = s.length}
          (w.length_same ∙ r.length_same)
        ∙ slice-append u.str s.length count (region u k)
        ∙ ap₂ ◌++◌
            (slice_ext u.str s.str s.length (region u k) (region s h)
              (λ i lt. Wrote_out w i (inl (omega (arith, r.length_same))) ∙ r.same i lt))
            (slice_ext (u.str + s.length) 0 count (region u k) ys (λ i lt.
              ap (region u k) (omega (arith, r.length_same))
              ∙ Wrote_in w i lt
              ∙ reads i lt
              ∙ ap ys (omega arith)));
  }

pub slice_zero : (n : ℕ) (f : Chars) → (n == 0) ≡ true → slice 0 n f ≡ []
slice_zero zero f e = refl
slice_zero (suc n) f e = absurd (ground arith)

module _ (others : ℕ → ℕ) (grow : ℕ → ℕ) (fresh : ℕ) (s : Str) (h : Heap) (v : Fits others s h)
    (free : h fresh ≡ none) where
  append_from-Became :
      (count : ℕ) (src : Str → Heap → Chars) (ys : Chars)
      → s.length + count < size_mod
      → Scales grow (s.length + count)
      → ((t : Str) (g : Heap)
          → Reserved others s h (s.length + count) t g
          → (i : ℕ) → i < count
          → src t g i ≡ ys i)
      → Returns
          (Became others h (view s h ++ slice 0 count ys))
          (append_from grow fresh count src s h)
  unfolding append_from
  append_from-Became count src ys small sc reads = elim (Bool-cases (count == 0)) [
    | inl e ↦ rw (e, slice_zero count ys e, append-nil) (returns (unchanged others s h v))
    | inr e ↦
        rw (e, wrap)
          (bind _
            (reserve_save-Reserved others h fresh grow free s (s.length + count) v (omega arith) sc)
            λ t g r.
              bind _
                (write_chars-Wrote others t.length count (src t g) t g r.counts r.owned
                  (omega (arith, r.inside, r.length_same)))
                λ u k w. returns (extended others s h count (src t g) ys t g r (reads t g r) u k w))
  ]
    where
      wrap : (s.length + count) % size_mod ≡ s.length + count
      wrap = omega arith

  -- `append(const CharT*, size_type)`: the string stands for what it stood for with the given
  -- characters behind, it is valid, and the buffers of others are as before.
  pub append_chars-Became :
      (src : Chars) (count : ℕ)
      → s.length + count < size_mod
      → Scales grow (s.length + count)
      → Returns
          (Became others h (view s h ++ slice 0 count src))
          (append_chars grow fresh src count s h)
  unfolding append_chars
  append_chars-Became src count small sc =
      append_from-Became count _ src small sc (λ t g r i lt. refl)

  pub append_fill-Became :
      (count ch : ℕ)
      → s.length + count < size_mod
      → Scales grow (s.length + count)
      → Returns
          (Became others h (view s h ++ replicate count ch))
          (append_fill grow fresh count ch s h)
  unfolding append_fill
  append_fill-Became count ch small sc =
      rw (← slice-replicate 0 count (λ i. ch) ch (λ i lt. refl))
        (append_from-Became count _ (λ i. ch) small sc (λ t g r i lt. refl))

  -- `append` of another string, also of one that shares the buffer.
  pub append_string-Became :
      (u : Str)
      → IsAmong u others
      → s.length + u.length < size_mod
      → Scales grow (s.length + u.length)
      → Returns (Became others h (view s h ++ view u h)) (append_string grow fresh u s h)
  unfolding append_string view
  append_string-Became u among small sc =
      rw
        (slice_ext u.str 0 u.length (region u h) (λ i. region u h (u.str + i))
          (λ i lt. ap (λ k. region u h (u.str + k)) (omega arith)))
        (append_from-Became u.length _ (λ i. region u h (u.str + i)) small sc
          (λ t g r i lt. ap (λ (f : Chars). f (u.str + i)) (Kept-region others h g u among r.kept)))

  -- `append` of the string to itself doubles it.
  pub append_self-Became :
      s.length + s.length < size_mod
      → Scales grow (s.length + s.length)
      → Returns (Became others h (view s h ++ view s h)) (append_self grow fresh s h)
  unfolding append_self view
  append_self-Became small sc =
      subst (λ xs. Returns (Became others h (view s h ++ xs)) (append_self grow fresh s h))
        (slice_ext 0 s.str s.length (λ i. region s h (s.str + i)) (region s h)
          (λ i lt. ap (λ k. region s h (s.str + k)) (omega arith)))
        (append_from-Became s.length _ (λ i. region s h (s.str + i)) small sc
          (λ t g r i lt. r.same i lt))
