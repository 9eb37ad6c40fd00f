-- ===== src/BasicString/ReserveSave.antt =====
-- `_reserve_save` and `_detach`: the characters stay, the storage is the string's own, and there is
-- room for the capacity that was asked for.
use panda_lib.Base.{
  ℕ, ◌+◌, ◌-◌, ◌≤◌, ◌≡◌, refl, false, none, ltb, ◌==◌, arith, ◌∙◌, inl, inr, Bool-cases, ap, ◌&&◌,
  ge→ltb,
}
use panda_lib.BasicString.Memory.{
  Chars, Heap, Storage, literal, sso, internal, external, Str, string, max_sso_chars, max_size,
  alloc_deallocate, refcnt_of, capacity_of, region, room, room_of,
}
use panda_lib.BasicString.Storage.{
  detach, to_start, internal_realloc, external_realloc, reserve_save_internal,
  reserve_save_external, reserve_save_sso, reserve_save,
}
use panda_lib.BasicString.Invariant.{
  refs_of, refs, IsCounted, Fits, Returns, returns, mono, Owned, write_chars-Wrote, Wrote_in,
}
use panda_lib.BasicString.New.{nobody, plus}
use panda_lib.BasicString.Reserved.{
  Reserved, keep-Reserved, detach_str-Reserved, new_internal_from_sso-Reserved, detach_cow-Reserved,
  move_to_new-Reserved,
}

module _ (others : ℕ → ℕ) (h : Heap) (capacity fresh : ℕ) where
  pub to_start-Reserved :
      (s : Str)
      → IsCounted (refs s) others h
      → Owned s h
      → s.length ≤ capacity
      → capacity ≤ room s h
      → Returns (Reserved others s h capacity) (to_start s h)
  unfolding to_start
  to_start-Reserved s k o enough fit =
      mono
        (write_chars-Wrote others 0 s.length (λ i. region s h (s.str + i))
          (string s.storage 0 s.length) h k o (omega arith))
        λ u g w. record {
          counts = w.counts;
          owned = w.owned;
          inside = omega (arith, w.room_same, w.str_same);
          length_same = w.length_same;
          same = λ i lt. ap (region u g) (omega arith) ∙ Wrote_in w i lt;
          kept = w.kept;
        }

-- A count with the string's own reference among the others.
pub as_plus :
    (others : ℕ → ℕ) (b d : ℕ) (h : Heap)
    → IsCounted (refs_of (internal b d)) others h
    → IsCounted nobody (plus others b) h
as_plus others b d h k = record {
  counted = λ a. omega (arith, k.counted a);
  live = λ a z. k.live a (omega arith);
}

pub weaken-Reserved :
    (others : ℕ → ℕ) (s : Str) (h : Heap) (small big : ℕ)
    → small ≤ big
    → (t : Str) (g : Heap) → Reserved others s h big t g
    → Reserved others s h small t g
weaken-Reserved others s h small big le t g r = record {
  counts = r.counts;
  owned = r.owned;
  inside = omega (arith, r.inside);
  length_same = r.length_same;
  same = r.same;
  kept = r.kept;
}

-- What is assumed of the scaling of a capacity by a `float`.
abbrev pub Scales : (ℕ → ℕ) → ℕ → Type 0
Scales scale capacity = (capacity ≤ scale capacity) × (scale capacity ≤ max_size)

module _ (others : ℕ → ℕ) (b d : ℕ) (str length : ℕ) (h : Heap) (capacity fresh : ℕ) (scale : ℕ → ℕ)
    (k : IsCounted (refs_of (internal b d)) others h) (free : h fresh ≡ none)
    (inside : str + length ≤ capacity_of (h b)) (enough : length ≤ capacity)
    (sc : Scales scale capacity) where
  pub internal_realloc-Reserved :
      refcnt_of (h b) ≡ 1
      → Returns
          (Reserved others (string (internal b d) str length) h capacity)
          (internal_realloc b d fresh (scale capacity) (string (internal b d) str length) h)
  unfolding internal_realloc
  internal_realloc-Reserved one = elim (Bool-cases (d == alloc_deallocate && str == 0)) [
    | inl e ↦
        let f : ltb max_size (scale capacity) ≡ false = ground arith in
        rw (e, f)
          (returns (record {
            counts = record {
              counted = λ a. ground (arith, k.counted a);
              live = λ a z. ground (arith, k.live a);
            };
            owned = ground arith;
            inside = ground arith;
            length_same = refl;
            same = λ i lt. ground arith;
            kept = λ a lt. (ground (arith, k.counted a), ground (arith, k.counted a));
          }))
    | inr e ↦ rw e (
        mono
          (move_to_new-Reserved others b (string (internal b d) str length) h (scale capacity) fresh
            (as_plus others b d h k) free (omega arith) sc.1 one)
          (weaken-Reserved others _ h capacity (scale capacity) sc.0))
  ]

  reserve_save_internal-Reserved :
      Returns
        (Reserved others (string (internal b d) str length) h capacity)
        (reserve_save_internal b d fresh capacity scale (string (internal b d) str length) h)
  unfolding reserve_save_internal
  reserve_save_internal-Reserved = elim (Bool-cases (ltb 1 (refcnt_of (h b)))) [
    | inl many ↦ rw many (
        mono
          (detach_cow-Reserved others b (string (internal b d) str length) h (scale capacity) fresh
            (as_plus others b d h k) free (omega arith) sc.1 (ground arith))
          (weaken-Reserved others _ h capacity (scale capacity) sc.0))
    | inr few ↦
        let one : refcnt_of (h b) ≡ 1 = ground (arith, k.counted b) in
        rw few (elim (Bool-cases (ltb (capacity_of (h b)) capacity)) [
          | inl e ↦ rw e (internal_realloc-Reserved one)
          | inr e ↦ rw e (elim (Bool-cases (ltb (capacity_of (h b) - str) capacity)) [
            | inl f ↦ rw f (
                to_start-Reserved others h capacity fresh (string (internal b d) str length) k one
                  enough (ground arith))
            | inr f ↦ rw f (returns (keep-Reserved others _ h capacity k one (ground arith)))
          ])
        ])
  ]

  reserve_save_external-Reserved :
      Returns
        (Reserved others (string (external b d) str length) h capacity)
        (reserve_save_external b fresh capacity scale (string (external b d) str length) h)
  unfolding reserve_save_external external_realloc
  reserve_save_external-Reserved = elim (Bool-cases (ltb 1 (refcnt_of (h b)))) [
    | inl many ↦ rw many (
        mono
          (detach_cow-Reserved others b (string (external b d) str length) h (scale capacity) fresh
            (as_plus others b d h k) free (omega arith) sc.1 (ground arith))
          (weaken-Reserved others _ h capacity (scale capacity) sc.0))
    | inr few ↦
        let one : refcnt_of (h b) ≡ 1 = ground (arith, k.counted b) in
        rw few (elim (Bool-cases (ltb (capacity_of (h b)) capacity)) [
          | inl e ↦ rw e (
              mono
                (move_to_new-Reserved others b (string (external b d) str length) h (scale capacity)
                  fresh (as_plus others b d h k) free (omega arith) sc.1 one)
                (weaken-Reserved others _ h capacity (scale capacity) sc.0))
          | inr e ↦ rw e (elim (Bool-cases (ltb (capacity_of (h b) - str) capacity)) [
            | inl f ↦ rw f (
                to_start-Reserved others h capacity fresh (string (external b d) str length) k one
                  enough (ground arith))
            | inr f ↦ rw f (returns (keep-Reserved others _ h capacity k one (ground arith)))
          ])
        ])
  ]

module _ (others : ℕ → ℕ) (fill : Chars) (str length : ℕ) (h : Heap) (capacity fresh : ℕ)
    (scale : ℕ → ℕ) (k : IsCounted nobody others h) (free : h fresh ≡ none)
    (inside : str + length ≤ max_sso_chars) (enough : length ≤ capacity)
    (sc : Scales scale capacity) where
  reserve_save_sso-Reserved :
      Returns
        (Reserved others (string (sso fill) str length) h capacity)
        (reserve_save_sso fresh capacity scale (string (sso fill) str length) h)
  unfolding reserve_save_sso
  reserve_save_sso-Reserved = elim (Bool-cases (ltb max_sso_chars capacity)) [
    | inl e ↦ rw e (
        mono
          (new_internal_from_sso-Reserved others (string (sso fill) str length) h (scale capacity)
            (omega arith) fresh k free)
          (weaken-Reserved others _ h capacity (scale capacity) sc.0))
    | inr e ↦ rw e (elim (Bool-cases (ltb (max_sso_chars - str) capacity)) [
      | inl f ↦ rw f (
          to_start-Reserved others h capacity fresh (string (sso fill) str length) k tt enough
            (ground arith))
      | inr f ↦ rw f (returns (keep-Reserved others _ h capacity k tt (ground arith)))
    ])
  ]

module _ (others : ℕ → ℕ) (h : Heap) (fresh : ℕ) (scale : ℕ → ℕ) (free : h fresh ≡ none) where
  reserve_kinds-Reserved :
      (st : Storage) (str length capacity : ℕ)
      → IsCounted (refs_of st) others h
      → str + length ≤ room_of st h
      → length ≤ capacity
      → Scales scale capacity
      → Returns
          (Reserved others (string st str length) h capacity)
          (reserve_save fresh capacity scale (string st str length) h)
  unfolding reserve_save
  reserve_kinds-Reserved (literal text size) str length capacity k inside enough sc =
      rw (ge→ltb capacity length enough) (
        mono
          (detach_str-Reserved others (string (literal text size) str length) h (scale capacity)
            (omega arith) fresh k free sc.1)
          (weaken-Reserved others _ h capacity (scale capacity) sc.0))
  reserve_kinds-Reserved (sso fill) str length capacity k inside enough sc =
      rw (ge→ltb capacity length enough) (
        reserve_save_sso-Reserved others fill str length h capacity fresh scale k free inside enough
          sc)
  reserve_kinds-Reserved (internal b d) str length capacity k inside enough sc =
      rw (ge→ltb capacity length enough) (
        reserve_save_internal-Reserved others b d str length h capacity fresh scale k free inside
          enough sc)
  reserve_kinds-Reserved (external b d) str length capacity k inside enough sc =
      rw (ge→ltb capacity length enough) (
        reserve_save_external-Reserved others b d str length h capacity fresh scale k free inside
          enough sc)

  detach_kinds-Reserved :
      (st : Storage) (str length : ℕ)
      → IsCounted (refs_of st) others h
      → str + length ≤ room_of st h
      → length ≤ max_size
      → Returns
          (Reserved others (string st str length) h length)
          (detach fresh (string st str length) h)
  unfolding detach
  detach_kinds-Reserved (literal text size) str length k inside small =
      detach_str-Reserved others (string (literal text size) str length) h length (omega arith)
        fresh k free small
  detach_kinds-Reserved (sso fill) str length k inside small =
      returns (keep-Reserved others _ h length k tt inside)
  detach_kinds-Reserved (internal b d) str length k inside small =
      elim (Bool-cases (ltb 1 (refcnt_of (h b)))) [
        | inl many ↦ rw many (
            detach_cow-Reserved others b (string (internal b d) str length) h length fresh
              (as_plus others b d h k) free (omega arith) small (ground arith))
        | inr few ↦
            rw few
              (returns (keep-Reserved others _ h length k (ground (arith, k.counted b)) inside))
      ]
  detach_kinds-Reserved (external b d) str length k inside small =
      elim (Bool-cases (ltb 1 (refcnt_of (h b)))) [
        | inl many ↦ rw many (
            detach_cow-Reserved others b (string (external b d) str length) h length fresh
              (as_plus others b d h k) free (omega arith) small (ground arith))
        | inr few ↦
            rw few
              (returns (keep-Reserved others _ h length k (ground (arith, k.counted b)) inside))
      ]

  pub reserve_save-Reserved :
      (s : Str) (capacity : ℕ)
      → Fits others s h
      → s.length ≤ capacity
      → Scales scale capacity
      → Returns (Reserved others s h capacity) (reserve_save fresh capacity scale s h)
  reserve_save-Reserved s capacity v =
      reserve_kinds-Reserved s.storage s.str s.length capacity v.counts v.inside

-- `_detach`.
pub detach-Reserved :
    (others : ℕ → ℕ) (h : Heap) (fresh : ℕ)
    → h fresh ≡ none
    → (s : Str) → Fits others s h
    → s.length ≤ max_size
    → Returns (Reserved others s h s.length) (detach fresh s h)
detach-Reserved others h fresh free s v =
    detach_kinds-Reserved others h fresh (λ c. c) free s.storage s.str s.length v.counts v.inside
