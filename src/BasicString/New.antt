-- ===== src/BasicString/New.antt =====
-- Getting new storage and giving up the old: the counts stay right, and the others keep theirs.
use panda_lib.Base.{
  ℕ, ◌+◌, ◌≤◌, ◌<◌, ◌≡◌, refl, false, none, some, leb, ltb, ◌==◌, if◌then◌else◌, arith, inl, inr,
  Bool-cases,
}
use panda_lib.BasicString.Memory.{
  Heap, write, internal, Str, string, max_sso_chars, max_size, alloc_deallocate, refcnt_of,
  capacity_of, chars_of, room,
}
use panda_lib.BasicString.Storage.{new_buffer, set_refcnt, new_auto, release_buffer, drop_shared}
use panda_lib.BasicString.Invariant.{refs, IsCounted, Kept, Returns, returns, Owned}

-- No reference.
abbrev pub nobody : ℕ → ℕ
nobody b = 0

-- One reference to `b`, beside those of `others`.
abbrev pub plus : (ℕ → ℕ) → ℕ → ℕ → ℕ
plus others b a = (if b == a then 1 else 0) + others a

-- `t` has storage of its own with room for `capacity` characters.
pub record Fresh (others : ℕ → ℕ) (s : Str) (h : Heap) (capacity : ℕ) (t : Str) (g : Heap)
    : Type 0 where
  pub counts : IsCounted (refs t) others g
  pub owned : Owned t g
  pub room_enough : capacity ≤ room t g
  pub str_zero : t.str ≡ 0
  pub length_same : t.length ≡ s.length
  pub kept : Kept others h g

module _ (others : ℕ → ℕ) (fresh capacity : ℕ) (s : Str) (h : Heap) (k : IsCounted nobody others h)
    (free : h fresh ≡ none) where
  pub new_buffer-Fresh :
      Fresh others s h capacity
        (string (internal fresh alloc_deallocate) 0 s.length)
        (write h fresh (some (new_buffer capacity 1 (λ i. 0))))
  new_buffer-Fresh = record {
    counts = record {
      counted = λ a. ground (arith, k.counted a, k.counted fresh);
      live = λ a z. ground (arith, k.live a);
    };
    owned = ground arith;
    room_enough = ground arith;
    str_zero = refl;
    length_same = refl;
    kept = λ a lt. (ground (arith, k.counted a), ground (arith, k.counted a));
  }

  pub new_auto-Fresh :
      capacity ≤ max_size → Returns (Fresh others s h capacity) (new_auto fresh capacity s h)
  unfolding new_auto
  new_auto-Fresh small = elim (Bool-cases (leb capacity max_sso_chars)) [
    | inl e ↦ rw e (
        returns (record {
          counts = k;
          owned = tt;
          room_enough = ground arith;
          str_zero = refl;
          length_same = refl;
          kept = λ a lt. (refl, refl);
        }))
    | inr e ↦
        let f : ltb max_size capacity ≡ false = ground arith in rw (e, f) (returns new_buffer-Fresh)
  ]

-- Giving up one of several references to a buffer.
module _ (others : ℕ → ℕ) (b : ℕ) (h : Heap) (k : IsCounted nobody (plus others b) h)
    (many : 1 < refcnt_of (h b)) where
  pub drop_shared-IsCounted : IsCounted nobody others (drop_shared b h)
  unfolding drop_shared set_refcnt
  drop_shared-IsCounted = record {
    counted = λ a. ground (arith, k.counted a, k.counted b);
    live = λ a z. ground (arith, k.counted b, k.live a);
  }

  pub drop_shared-same :
      (a : ℕ)
      → (chars_of (drop_shared b h a) ≡ chars_of (h a))
        × (capacity_of (drop_shared b h a) ≡ capacity_of (h a))
  unfolding drop_shared set_refcnt
  drop_shared-same a = (ground arith, ground arith)

  pub drop_shared-none : (a : ℕ) → h a ≡ none → drop_shared b h a ≡ none
  unfolding drop_shared set_refcnt
  drop_shared-none a e = ground (arith, k.counted b)

-- Freeing the only reference.
module _ (own others : ℕ → ℕ) (b : ℕ) (h : Heap) (k : IsCounted own (plus others b) h) where
  pub free-IsCounted : refcnt_of (h b) ≡ 1 → IsCounted own others (write h b none)
  free-IsCounted one = record {
    counted = λ a. ground (arith, k.counted a, k.counted b);
    live = λ a z. ground (arith, k.counted b, k.live a);
  }

  pub free-Kept : refcnt_of (h b) ≡ 1 → Kept others h (write h b none)
  free-Kept one a lt = (ground (arith, k.counted b), ground (arith, k.counted b))

  pub release_buffer-IsCounted : IsCounted own others (release_buffer b h)
  unfolding release_buffer set_refcnt
  release_buffer-IsCounted = record {
    counted = λ a. ground (arith, k.counted a, k.counted b);
    live = λ a z. ground (arith, k.counted b, k.live a, k.live b);
  }

  pub release_buffer-Kept : Kept others h (release_buffer b h)
  unfolding release_buffer set_refcnt
  release_buffer-Kept a lt = (ground (arith, k.counted b), ground (arith, k.counted b))
