-- ===== src/BasicString/Gap.antt =====
-- The moves that open or close a gap in a string: what stands before it and behind it.
use panda_lib.Base.{ℕ, ◌+◌, ◌≤◌, ◌<◌, ◌≡◌, arith, ◌∙◌, inl, inr, ap}
use panda_lib.BasicString.Memory.{Chars, Heap, Str, string, ◌>>=◌, region, room, write_chars}
use panda_lib.BasicString.Invariant.{
  refs, IsCounted, Kept, Kept-trans, Returns, bind, mono, Owned, write_chars-Wrote, Wrote_in,
  Wrote_out,
}
use panda_lib.BasicString.New.{Fresh}

-- `t` owns the characters of `text` from `str`: `pos` of them, then room for `inserted`, then
-- `rest` of them from the position `from` on.
pub record Gap (others : ℕ → ℕ) (h : Heap) (text : Chars) (str pos from rest inserted size : ℕ)
    (t : Str) (g : Heap) : Type 0 where
  pub counts : IsCounted (refs t) others g
  pub owned : Owned t g
  pub inside : t.str + (pos + inserted + rest) ≤ room t g
  pub head : (i : ℕ) → i < pos → region t g (t.str + i) ≡ text (str + i)
  pub tail :
      (i : ℕ) → i < rest → region t g (t.str + (pos + inserted + i)) ≡ text (str + (from + i))
  pub length_same : t.length ≡ size
  pub kept : Kept others h g

pub rebase-Gap :
    (others : ℕ → ℕ) (h k : Heap) (text text' : Chars) (str pos from rest inserted size : ℕ)
    → ((i : ℕ) → text' i ≡ text i)
    → Kept others h k
    → (t : Str) (g : Heap) → Gap others k text' str pos from rest inserted size t g
    → Gap others h text str pos from rest inserted size t g
rebase-Gap others h k text text' str pos from rest inserted size same keep t g r = record {
  counts = r.counts;
  owned = r.owned;
  inside = r.inside;
  head = λ i lt. r.head i lt ∙ same (str + i);
  tail = λ i lt. r.tail i lt ∙ same (str + (from + i));
  length_same = r.length_same;
  kept = Kept-trans others h k g keep r.kept;
}

module _ (others : ℕ → ℕ) (s : Str) (h : Heap) (k : IsCounted (refs s) others h) (o : Owned s h)
    (pos from rest inserted : ℕ) where
  -- The tail moves, and the head stays.
  pub tail-Gap :
      s.str + (pos + inserted + rest) ≤ room s h
      → Returns
          (Gap others h (region s h) s.str pos from rest inserted s.length)
          (write_chars (pos + inserted) rest (λ i. region s h (s.str + (from + i))) s h)
  tail-Gap fit =
      mono (write_chars-Wrote others (pos + inserted) rest _ s h k o (omega arith)) λ t g w.
        record {
          counts = w.counts;
          owned = w.owned;
          inside = omega (arith, w.room_same, w.str_same);
          head = λ i lt. Wrote_out w i (inl (omega arith));
          tail = λ i lt. Wrote_in w i lt;
          length_same = w.length_same;
          kept = w.kept;
        }

  -- The head moves to where the tail is in place.
  pub head-Gap :
      (p : ℕ)
      → p + pos + inserted ≡ s.str + from
      → s.str + (from + rest) ≤ room s h
      → Returns
          (Gap others h (region s h) s.str pos from rest inserted s.length)
          (write_chars 0 pos (λ i. region s h (s.str + i)) (string s.storage p s.length) h)
  head-Gap p meet fit =
      mono
        (write_chars-Wrote others 0 pos (λ i. region s h (s.str + i)) (string s.storage p s.length)
          h k o (omega arith))
        λ t g w. record {
          counts = w.counts;
          owned = w.owned;
          inside = omega (arith, w.room_same, w.str_same);
          head = λ i lt. ap (region t g) (omega arith) ∙ Wrote_in w i lt;
          tail = λ i lt.
              Wrote_out w (pos + inserted + i) (inr (omega arith)) ∙ ap (region s h) (omega arith);
          length_same = w.length_same;
          kept = w.kept;
        }

  -- The head moves to the beginning of the storage, and then the tail moves behind it.
  pub start-Gap :
      pos ≤ from
      → pos + inserted + rest ≤ room s h
      → Returns (Gap others h (region s h) s.str pos from rest inserted s.length) (
          write_chars 0 pos (λ i. region s h (s.str + i)) (string s.storage 0 s.length) h
          >>= λ (t, g).
              write_chars (pos + inserted) rest (λ i. region t g (s.str + (from + i))) t g)
  start-Gap le fit =
      bind _
        (write_chars-Wrote others 0 pos (λ i. region s h (s.str + i)) (string s.storage 0 s.length)
          h k o (omega arith))
        λ t g w.
          mono
            (write_chars-Wrote others (pos + inserted) rest (λ i. region t g (s.str + (from + i))) t
              g w.counts w.owned (omega (arith, w.room_same, w.str_same)))
            λ u m x. record {
              counts = x.counts;
              owned = x.owned;
              inside = omega (arith, x.room_same, x.str_same, w.room_same, w.str_same);
              head = λ i lt.
                  Wrote_out x i (inl (omega arith))
                  ∙ ap (region t g) (omega arith)
                  ∙ Wrote_in w i lt;
              tail = λ i lt.
                  Wrote_in x i lt
                  ∙ ap (region t g) (omega (arith, w.str_same))
                  ∙ Wrote_out w (s.str + (from + i)) (inr (omega arith))
                  ∙ ap (region s h) (omega arith);
              length_same = x.length_same ∙ w.length_same;
              kept = Kept-trans others h g m w.kept x.kept;
            }

-- Head and tail are copied into new storage.
pub copy-Gap :
    (others : ℕ → ℕ) (s : Str) (h : Heap) (text : Chars) (str pos from rest inserted capacity : ℕ)
    → pos + inserted + rest ≤ capacity
    → (t : Str) (g : Heap) → Fresh others s h capacity t g
    → Returns (Gap others h text str pos from rest inserted s.length) (
        write_chars 0 pos (λ i. text (str + i)) t g >>= λ (u, m).
        write_chars (pos + inserted) rest (λ i. text (str + (from + i))) u m)
copy-Gap others s h text str pos from rest inserted capacity fit t g n =
    bind _
      (write_chars-Wrote others 0 pos (λ i. text (str + i)) t g n.counts n.owned
        (omega (arith, n.str_zero, n.room_enough)))
      λ u m w.
        mono
          (write_chars-Wrote others (pos + inserted) rest (λ i. text (str + (from + i))) u m
            w.counts w.owned (omega (arith, w.room_same, w.str_same, n.str_zero, n.room_enough)))
          λ v j x. record {
            counts = x.counts;
            owned = x.owned;
            inside = omega (
              arith, x.room_same, x.str_same, w.room_same, w.str_same, n.str_zero, n.room_enough,
            );
            head = λ i lt.
                Wrote_out x i (inl (omega arith)) ∙ ap (region u m) (omega arith) ∙ Wrote_in w i lt;
            tail = λ i lt. Wrote_in x i lt;
            length_same = x.length_same ∙ w.length_same ∙ n.length_same;
            kept = Kept-trans others h g j n.kept (Kept-trans others g m j w.kept x.kept);
          }
