-- ===== src/BasicString/Invariant.antt =====
-- What is kept true of a string beside the other strings that hold buffers of the same heap.
use panda_lib.Base.{
  ℕ, suc, ◌+◌, ◌≤◌, ◌<◌, ◌≡◌, refl, true, Option, none, some, leb, ◌==◌, if◌then◌else◌, arith, ◌∙◌,
  inl, inr, ◌⊎◌, le→leb, lt→ltb, ap,
}
use panda_lib.BasicString.Memory.{
  Chars, Buffer, Heap, write, Storage, literal, sso, internal, external, Str, string, Outcome, ok,
  ◌>>=◌, refcnt_of, capacity_of, chars_of, region, room, room_of, overwrite, write_chars,
}

-- 1 where the string holds the buffer `b`.
abbrev pub refs_of : Storage → ℕ → ℕ
refs_of (literal text size) b = 0
refs_of (sso fill) b = 0
refs_of (internal a d) b = if a == b then 1 else 0
refs_of (external a d) b = if a == b then 1 else 0

abbrev pub refs : Str → ℕ → ℕ
refs s b = refs_of s.storage b

-- `own` and `others` references to a buffer: its count is their sum, and it is there exactly
-- while the sum is not 0.
pub record IsCounted (own others : ℕ → ℕ) (h : Heap) : Type 0 where
  pub counted : (b : ℕ) → refcnt_of (h b) ≡ own b + others b
  pub live : (b : ℕ) → own b + others b ≡ 0 → h b ≡ none

pub record Fits (others : ℕ → ℕ) (s : Str) (h : Heap) : Type 0 where
  pub counts : IsCounted (refs s) others h
  pub inside : s.str + s.length ≤ room s h

-- Buffers that other strings hold keep their characters and their capacity.
abbrev pub Kept : (ℕ → ℕ) → Heap → Heap → Type 0
Kept others h g =
    (b : ℕ)
    → 0 < others b
    → (chars_of (g b) ≡ chars_of (h b)) × (capacity_of (g b) ≡ capacity_of (h b))

pub data Returns (P : Str → Heap → Type 0) : Outcome → Type 0 where
  returns : {s : Str} {h : Heap} → P s h → Returns P (ok s h)

pub bind :
    {P Q : Str → Heap → Type 0} {r : Outcome} (k : Str × Heap → Outcome)
    → Returns P r
    → ((s : Str) (h : Heap) → P s h → Returns Q (k (s, h)))
    → Returns Q (r >>= k)
bind k (returns p) next = next _ _ p

pub mono :
    {P Q : Str → Heap → Type 0} {r : Outcome}
    → Returns P r
    → ((s : Str) (h : Heap) → P s h → Q s h)
    → Returns Q r
mono (returns p) weaken = returns (weaken _ _ p)

pub Kept-trans :
    (others : ℕ → ℕ) (h g k : Heap) → Kept others h g → Kept others g k → Kept others h k
Kept-trans others h g k p q b lt = ((q b lt).0 ∙ (p b lt).0, (q b lt).1 ∙ (p b lt).1)

-- No other string sees what is written through this one.
abbrev pub OwnedOf : Storage → Heap → Type 0
OwnedOf (literal text size) h = ⊥
OwnedOf (sso fill) h = Unit {0}
OwnedOf (internal b d) h = refcnt_of (h b) ≡ 1
OwnedOf (external b d) h = refcnt_of (h b) ≡ 1

abbrev pub Owned : Str → Heap → Type 0
Owned s h = OwnedOf s.storage h

-- The same object over the same storage, after a write.
pub record Wrote (others : ℕ → ℕ) (s : Str) (h : Heap) (pos count : ℕ) (f : Chars) (t : Str)
    (g : Heap) : Type 0 where
  pub counts : IsCounted (refs t) others g
  pub owned : Owned t g
  pub room_same : room t g ≡ room s h
  pub str_same : t.str ≡ s.str
  pub length_same : t.length ≡ s.length
  pub now : (i : ℕ) → region t g i ≡ overwrite (region s h) (s.str + pos) count f i
  pub kept : Kept others h g

-- A buffer with a count is there.
pub there : (o : Option Buffer) {n : ℕ} → refcnt_of o ≡ suc n → (c : Buffer) × (o ≡ some c)
there none e = absurd (omega arith)
there (some c) e = (c, refl)

-- A write through a buffer that nobody else holds.
abbrev filled : Buffer → ℕ → ℕ → Chars → Option Buffer
filled c from count f = some (record c { chars = overwrite c.chars from count f })

module _ (others : ℕ → ℕ) (b from count : ℕ) (f : Chars) (h : Heap) (c : Buffer) (e : h b ≡ some c)
    (one : c.refcnt ≡ 1) where
  filled-IsCounted :
      IsCounted (λ a. if b == a then 1 else 0) others h
      → IsCounted (λ a. if b == a then 1 else 0) others (write h b (filled c from count f))
  filled-IsCounted k = record {
    counted = λ a. ground (arith, k.counted a, k.counted b);
    live = λ a z. ground (arith, k.live a z);
  }

  filled-Kept :
      IsCounted (λ a. if b == a then 1 else 0) others h
      → Kept others h (write h b (filled c from count f))
  filled-Kept k a lt = (ground (arith, k.counted b), ground (arith, k.counted b))

  filled-now :
      (i : ℕ)
      → chars_of (write h b (filled c from count f) b) i ≡ overwrite (chars_of (h b)) from count f i
  filled-now i = ground arith

-- Writing inside of the storage of a string that owns it succeeds, and no other string notices.
module _ (others : ℕ → ℕ) (pos count : ℕ) (f : Chars) (str length : ℕ) (h : Heap) where
  write_kinds-Wrote :
      (st : Storage)
      → IsCounted (refs_of st) others h
      → OwnedOf st h
      → str + pos + count ≤ room_of st h
      → Returns
          (Wrote others (string st str length) h pos count f)
          (write_chars pos count f (string st str length) h)
  unfolding write_chars
  write_kinds-Wrote (literal text size) c o fit = absurd o
  write_kinds-Wrote (sso fill) c o fit = rw (le→leb _ _ fit) (
      returns (record {
        counts = c;
        owned = tt;
        room_same = refl;
        str_same = refl;
        length_same = refl;
        now = λ i. refl;
        kept = λ b lt. (refl, refl);
      }))
  write_kinds-Wrote (internal b d) k o fit =
      let (c, e) = there (h b) o in
      let small : leb (str + pos + count) c.capacity ≡ true = ground arith in
      let one : c.refcnt ≡ 1 = ground arith in
      rw (e, small)
        (returns (record {
          counts = filled-IsCounted others b (str + pos) count f h c e one k;
          owned = ground arith;
          room_same = ground arith;
          str_same = refl;
          length_same = refl;
          now = filled-now others b (str + pos) count f h c e one;
          kept = filled-Kept others b (str + pos) count f h c e one k;
        }))
  write_kinds-Wrote (external b d) k o fit =
      let (c, e) = there (h b) o in
      let small : leb (str + pos + count) c.capacity ≡ true = ground arith in
      let one : c.refcnt ≡ 1 = ground arith in
      rw (e, small)
        (returns (record {
          counts = filled-IsCounted others b (str + pos) count f h c e one k;
          owned = ground arith;
          room_same = ground arith;
          str_same = refl;
          length_same = refl;
          now = filled-now others b (str + pos) count f h c e one;
          kept = filled-Kept others b (str + pos) count f h c e one k;
        }))

pub write_chars-Wrote :
    (others : ℕ → ℕ) (pos count : ℕ) (f : Chars) (s : Str) (h : Heap)
    → IsCounted (refs s) others h
    → Owned s h
    → s.str + pos + count ≤ room s h
    → Returns (Wrote others s h pos count f) (write_chars pos count f s h)
write_chars-Wrote others pos count f s h c o fit =
    write_kinds-Wrote others pos count f s.str s.length h s.storage c o fit

module _ (m : Chars) (from count : ℕ) (f : Chars) (i : ℕ) where
  overwrite_in : i < count → overwrite m from count f (from + i) ≡ f i
  overwrite_in lt =
      rw (le→leb from (from + i) (omega arith), lt→ltb (from + i) (from + count) (omega arith))
        (ap f (omega arith))

  overwrite_out : (i < from) ⊎ (from + count ≤ i) → overwrite m from count f i ≡ m i
  overwrite_out (inl lt) = ground arith
  overwrite_out (inr le) = ground arith

-- What a write leaves at each position of the string.
module _ {others : ℕ → ℕ} {s t : Str} {h g : Heap} {pos count : ℕ} {f : Chars}
    (w : Wrote others s h pos count f t g) (i : ℕ) where
  pub Wrote_in : i < count → region t g (t.str + (pos + i)) ≡ f i
  Wrote_in lt =
      ap (region t g) (omega (arith, w.str_same))
      ∙ w.now (s.str + pos + i)
      ∙ overwrite_in (region s h) (s.str + pos) count f i lt

  pub Wrote_out : (i < pos) ⊎ (pos + count ≤ i) → region t g (t.str + i) ≡ region s h (s.str + i)
  Wrote_out side =
      ap (region t g) (omega (arith, w.str_same))
      ∙ w.now (s.str + i)
      ∙ overwrite_out (region s h) (s.str + pos) count f (s.str + i) (ground arith)
