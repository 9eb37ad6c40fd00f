-- ===== src/BasicString/Reserved.antt =====
-- `_detach`, `_detach_cow`, `_internal_realloc` and their like: storage of one's own.
use panda_lib.Base.{ℕ, ◌+◌, ◌≤◌, ◌<◌, ◌≡◌, refl, false, none, ◌==◌, if◌then◌else◌, arith, ◌∙◌, ap}
use panda_lib.BasicString.Memory.{
  Chars, Heap, write, Storage, literal, sso, internal, external, Str, max_size, refcnt_of,
  capacity_of, chars_of, region, region_of, room, room_of, write_chars,
}
use panda_lib.BasicString.Storage.{
  drop_shared, detach_str, detach_cow, move_to_new, new_internal_from_sso,
}
use panda_lib.BasicString.Invariant.{
  refs_of, refs, IsCounted, Kept, Kept-trans, Returns, returns, bind, mono, Owned, OwnedOf,
  write_chars-Wrote, Wrote_in,
}
use panda_lib.BasicString.New.{
  nobody, plus, Fresh, new_buffer-Fresh, new_auto-Fresh, drop_shared-IsCounted, drop_shared-same,
  drop_shared-none, free-IsCounted, free-Kept,
}

-- `t` owns storage with room for `capacity` characters from `_str` on, and holds those of `s`.
pub record Reserved (others : ℕ → ℕ) (s : Str) (h : Heap) (capacity : ℕ) (t : Str) (g : Heap)
    : Type 0 where
  pub counts : IsCounted (refs t) others g
  pub owned : Owned t g
  pub inside : t.str + capacity ≤ room t g
  pub length_same : t.length ≡ s.length
  pub same : (i : ℕ) → i < s.length → region t g (t.str + i) ≡ region s h (s.str + i)
  pub kept : Kept others h g

module _ (others : ℕ → ℕ) (s : Str) (h : Heap) (capacity : ℕ) (enough : s.length ≤ capacity) where
  -- The copy into new storage.
  fill-Reserved :
      (t : Str) (g : Heap)
      → Fresh others s h capacity t g
      → Returns
          (Reserved others s h capacity)
          (write_chars 0 s.length (λ i. region s h (s.str + i)) t g)
  fill-Reserved t g n =
      mono
        (write_chars-Wrote others 0 s.length (λ i. region s h (s.str + i)) t g n.counts n.owned
          (omega (arith, n.str_zero, n.room_enough)))
        λ u k w. record {
          counts = w.counts;
          owned = w.owned;
          inside = omega (arith, w.room_same, w.str_same, n.str_zero, n.room_enough);
          length_same = w.length_same ∙ n.length_same;
          same = λ i lt. ap (region u k) (omega arith) ∙ Wrote_in w i lt;
          kept = Kept-trans others h g k n.kept w.kept;
        }

  pub detach_str-Reserved :
      (fresh : ℕ)
      → IsCounted nobody others h
      → h fresh ≡ none
      → capacity ≤ max_size
      → Returns (Reserved others s h capacity) (detach_str fresh capacity s h)
  unfolding detach_str
  detach_str-Reserved fresh k free small =
      bind _ (new_auto-Fresh others fresh capacity s h k free small) fill-Reserved

  pub new_internal_from_sso-Reserved :
      (fresh : ℕ)
      → IsCounted nobody others h
      → h fresh ≡ none
      → Returns (Reserved others s h capacity) (new_internal_from_sso fresh capacity s h)
  unfolding new_internal_from_sso
  new_internal_from_sso-Reserved fresh k free =
      fill-Reserved _ _ (new_buffer-Fresh others fresh capacity s h k free)

-- The same object, where it already owns enough.
pub keep-Reserved :
    (others : ℕ → ℕ) (s : Str) (h : Heap) (capacity : ℕ)
    → IsCounted (refs s) others h
    → Owned s h
    → s.str + capacity ≤ room s h
    → Reserved others s h capacity s h
keep-Reserved others s h capacity k o fit = record {
  counts = k;
  owned = o;
  inside = fit;
  length_same = refl;
  same = λ i lt. refl;
  kept = λ b lt. (refl, refl);
}

pub region_same :
    (st : Storage) (h g : Heap)
    → ((a : ℕ) → chars_of (g a) ≡ chars_of (h a))
    → (i : ℕ) → region_of st g i ≡ region_of st h i
region_same (literal text size) h g e i = refl
region_same (sso fill) h g e i = refl
region_same (internal b d) h g e i = ap (λ (f : Chars). f i) (e b)
region_same (external b d) h g e i = ap (λ (f : Chars). f i) (e b)

-- A string that owns its storage is not the one that holds a buffer with other holders.
pub owned_alone :
    (others : ℕ → ℕ) (st : Storage) (g : Heap) (b : ℕ)
    → IsCounted (refs_of st) (plus others b) g
    → OwnedOf st g
    → refs_of st b ≡ 0
owned_alone others (literal text size) g b k o = refl
owned_alone others (sso fill) g b k o = refl
owned_alone others (internal a d) g b k o = ground (arith, k.counted b)
owned_alone others (external a d) g b k o = ground (arith, k.counted b)

-- From the heap `g` to `k` nothing changes for a string with the storage `st`.
pub record Untouched (st : Storage) (g k : Heap) : Type 0 where
  pub owned : OwnedOf st g → OwnedOf st k
  pub room_same : room_of st k ≡ room_of st g
  pub same : (i : ℕ) → region_of st k i ≡ region_of st g i

-- A change of a buffer that the string does not hold.
pub away-Untouched :
    (st : Storage) (g k : Heap) (b : ℕ)
    → ((a : ℕ) → (b == a) ≡ false → k a ≡ g a)
    → refs_of st b ≡ 0
    → Untouched st g k
away-Untouched (literal text size) g k b e z = record {
  owned = λ o. o;
  room_same = refl;
  same = λ i. refl;
}
away-Untouched (sso fill) g k b e z = record { owned = λ o. o; room_same = refl; same = λ i. refl }
away-Untouched (internal a d) g k b e z =
    let q = e a (ground arith) in
    record {
      owned = λ o. ap refcnt_of q ∙ o;
      room_same = ap capacity_of q;
      same = λ i. ap (λ c. chars_of c i) q;
    }
away-Untouched (external a d) g k b e z =
    let q = e a (ground arith) in
    record {
      owned = λ o. ap refcnt_of q ∙ o;
      room_same = ap capacity_of q;
      same = λ i. ap (λ c. chars_of c i) q;
    }

pub free-Untouched :
    (st : Storage) (g : Heap) (b : ℕ) → refs_of st b ≡ 0 → Untouched st g (write g b none)
free-Untouched st g b = away-Untouched st g (write g b none) b (λ a ne. rw ne)

pub one_ref : (b : ℕ) → ◌≡◌ {A = ℕ} (if b == b then 1 else 0) 1
one_ref b = ground arith

-- `_detach_cow`: the buffer stays with the others, and the string gets a copy.
module _ (others : ℕ → ℕ) (b : ℕ) (s : Str) (h : Heap) (capacity : ℕ) (fresh : ℕ)
    (k : IsCounted nobody (plus others b) h) (free : h fresh ≡ none) (enough : s.length ≤ capacity)
    (small : capacity ≤ max_size) where
  pub detach_cow-Reserved :
      1 < refcnt_of (h b) → Returns (Reserved others s h capacity) (detach_cow b fresh capacity s h)
  unfolding detach_cow
  detach_cow-Reserved many =
      mono
        (detach_str-Reserved others s (drop_shared b h) capacity enough fresh
          (drop_shared-IsCounted others b h k many) (drop_shared-none others b h k many fresh free)
          small)
        λ t g r. record {
          counts = r.counts;
          owned = r.owned;
          inside = r.inside;
          length_same = r.length_same;
          same = λ i lt.
              r.same i lt
              ∙ region_same s.storage h (drop_shared b h)
                  (λ a. (drop_shared-same others b h k many a).0) (s.str + i);
          kept =
              Kept-trans others h (drop_shared b h) g (λ a lt. drop_shared-same others b h k many a)
                r.kept;
        }

  pub move_to_new-Reserved :
      refcnt_of (h b) ≡ 1
      → Returns (Reserved others s h capacity) (move_to_new b fresh capacity s h)
  unfolding move_to_new
  move_to_new-Reserved one =
      bind _ (detach_str-Reserved (plus others b) s h capacity enough fresh k free small)
        λ t g r. returns (freed t g r)
    where
      freed :
          (t : Str) (g : Heap)
          → Reserved (plus others b) s h capacity t g
          → Reserved others s h capacity t (write g b none)
      freed t g r =
          let apart = owned_alone others t.storage g b r.counts r.owned in
          let u = free-Untouched t.storage g b apart in
          let last : refcnt_of (g b) ≡ 1 =
            omega (arith, r.counts.counted b, k.counted b, apart, one_ref b) in
          record {
            counts = free-IsCounted (refs t) others b g r.counts last;
            owned = u.owned r.owned;
            inside = omega (arith, u.room_same, r.inside);
            length_same = r.length_same;
            same = λ i lt. u.same (t.str + i) ∙ r.same i lt;
            kept =
                Kept-trans others h g (write g b none) (λ a lt. r.kept a (omega arith))
                  (free-Kept (refs t) others b g r.counts last);
          }
