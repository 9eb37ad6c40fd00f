-- ===== src/IntrusiveChain/Laws.antt =====
-- `push_back`, `push_front` and `insert` of src/panda/intrusive_chain.h on the list of the nodes.
use panda_lib.Base.{
  ℕ, suc, ◌+◌, ◌^◌, ◌<◌, ◌≡◌, ◌≢◌, refl, Bool, false, ◌||◌, List, [], ◌∷◌, ◌++◌, arith, ◌==◌, ◌∙◌,
  sym, ap, length, length-append, append-nil,
}
use panda_lib.Links.Seg
use panda_lib.Links.Seg.{
  Ptr, Field, write, write_at, has, head_or, last_or, Seg, has-append, last_or-append,
  head_or-append, last_or-mem, ne_of_has,
}
use panda_lib.Links.Relink.{link_between, neighbours}
use panda_lib.IntrusiveChain.{IntrusiveChain, one_more, push_back, push_front, insert}

-- The chain holds the nodes `xs`, in that order.
pub record IsChain (c : IntrusiveChain) (xs : List Ptr) : Type 0 where
  pub links : Seg c.next c.prev 0 xs 0
  pub head_is : c.head ≡ head_or 0 xs
  pub tail_is : c.tail ≡ last_or 0 xs
  pub size_is : c.size ≡ length xs
  pub fits : length xs < 2 ^ 64

-- A node that may be put into the chain of `xs`.
pub record Loose (c : IntrusiveChain) (xs : List Ptr) (n : Ptr) : Type 0 where
  pub ne : n ≢ 0
  pub outside : has xs n ≡ false
  pub next_null : c.next n ≡ 0
  pub prev_null : c.prev n ≡ 0

pub flip_ne : (a b : ℕ) → (a == b) ≡ false → (b == a) ≡ false
flip_ne a b e = ground arith

pub null_ne : (x : ℕ) → x ≢ 0 → (x == 0) ≡ false
null_ne x ne = ground arith

suc_ne : (n k : ℕ) → n ≡ suc k → (n == 0) ≡ false
suc_ne n k e = ground arith

one_more_is : (n k : ℕ) → n ≡ k → k + 1 < 2 ^ 64 → one_more n ≡ suc k
one_more_is n k e small = omega arith

pub length_between : (ys zs : List Ptr) (n : Ptr) → length (ys ++ n ∷ zs) ≡ suc (length (ys ++ zs))
length_between ys zs n = omega (arith, length-append ys (n ∷ zs), length-append ys zs)

-- The order of two writes.
link_next :
    (f : Field) (p n a : Ptr)
    → (p == 0) ≡ false
    → (p == n) ≡ false
    → write (write f p n) n 0 a ≡ write_at (write f n 0) p n a
link_next f p n a e d = ground arith

pub as_write_at : (f : Field) (p n a : Ptr) → (p == 0) ≡ false → write f p n a ≡ write_at f p n a
as_write_at f p n a e = rw e refl

pub has_last :
    (x : Ptr) (xs : List Ptr) (n : Ptr) → has (x ∷ xs) n ≡ false → (last_or x xs == n) ≡ false
has_last x xs n o =
    flip_ne n (last_or x xs) (ne_of_has (x ∷ xs) (last_or x xs) n (last_or-mem x xs) o)

length_end : (xs : List Ptr) (n : Ptr) → length (xs ++ n ∷ []) ≡ suc (length xs)
length_end xs n = omega (arith, length-append xs (n ∷ []))

front_ne : (x : Ptr) (xs : List Ptr) (n : Ptr) → has (x ∷ xs) n ≡ false → (x == n) ≡ false
front_ne x xs n o = ground arith

pub last_ne_null :
    (c : IntrusiveChain) (p q x : Ptr) (xs : List Ptr)
    → Seg c.next c.prev p (x ∷ xs) q
    → (last_or x xs == 0) ≡ false
last_ne_null c p q x xs s = has_last x xs 0 (Seg.Seg-ne_null c.next c.prev p q (x ∷ xs) s)

pub or_left : (a b : Bool) → (a || b) ≡ false → a ≡ false
or_left a b e = ground arith

pub or_right : (a b : Bool) → (a || b) ≡ false → b ≡ false
or_right a b e = ground arith

module _ (n : Ptr) (c : IntrusiveChain) where
  -- `push_back` of a loose node puts it behind the others.
  pub push_back-IsChain :
      (xs : List Ptr)
      → IsChain c xs
      → Loose c xs n
      → length xs + 1 < 2 ^ 64
      → IsChain (push_back n c) (xs ++ n ∷ [])
  unfolding push_back
  push_back-IsChain [] is loose small = rw is.size_is (record {
    links = (loose.ne, refl, loose.prev_null, loose.next_null, tt);
    head_is = refl;
    tail_is = refl;
    size_is = refl;
    fits = omega arith;
  })
  push_back-IsChain (x ∷ xs) is loose small = rw (suc_ne c.size (length xs) is.size_is) (record {
    links =
        Seg.frame _ _ _ _ 0 0 (x ∷ xs ++ n ∷ [])
          (link_between c.next c.prev (x ∷ xs) [] n (rw append-nil is.links) loose.ne loose.outside
            refl)
          (λ a i. (
            ap (λ p. write (write c.next p n) n 0 a) is.tail_is
                ∙ link_next c.next (last_or x xs) n a (last_ne_null c 0 0 x xs is.links)
                    (has_last x xs n loose.outside),
            ap (λ p. write c.prev n p a) is.tail_is,
          ));
    head_is = is.head_is;
    tail_is = sym (last_or-append x xs (n ∷ []));
    size_is = one_more_is c.size (suc (length xs)) is.size_is small ∙ sym (length_end (x ∷ xs) n);
    fits = omega (arith, length_end (x ∷ xs) n, small);
  })

  -- `push_front` of a loose node puts it before the others.
  pub push_front-IsChain :
      (xs : List Ptr)
      → IsChain c xs
      → Loose c xs n
      → length xs + 1 < 2 ^ 64
      → IsChain (push_front n c) (n ∷ xs)
  unfolding push_front
  push_front-IsChain [] is loose small = rw is.size_is (record {
    links = (loose.ne, refl, loose.prev_null, loose.next_null, tt);
    head_is = refl;
    tail_is = refl;
    size_is = refl;
    fits = omega arith;
  })
  push_front-IsChain (x ∷ xs) is loose small = rw (suc_ne c.size (length xs) is.size_is) (record {
    links =
        Seg.frame _ _ _ _ 0 0 (n ∷ x ∷ xs)
          (link_between c.next c.prev [] (x ∷ xs) n is.links loose.ne refl loose.outside)
          (λ a i. (
            ap (λ p. write c.next n p a) is.head_is,
            ap (λ p. write (write c.prev p n) n 0 a) is.head_is
                ∙ link_next c.prev x n a (null_ne x is.links.0) (front_ne x xs n loose.outside),
          ));
    head_is = refl;
    tail_is = is.tail_is;
    size_is = one_more_is c.size (suc (length xs)) is.size_is small;
    fits = omega arith;
  })

  -- `insert` of a loose node before a place of the chain, or at its end, puts the node there,
  -- while the size does not wrap, and results in it.
  pub insert-IsChain :
      (ys zs : List Ptr)
      → IsChain c (ys ++ zs)
      → Loose c (ys ++ zs) n
      → length (ys ++ zs) + 1 < 2 ^ 64
      → IsChain (insert (head_or 0 zs) n c).0 (ys ++ n ∷ zs) × ((insert (head_or 0 zs) n c).1 ≡ n)
  unfolding insert
  insert-IsChain ys [] is loose small = (
    push_back-IsChain ys (rw append-nil at is) (rw append-nil at loose) (rw append-nil at small),
    refl,
  )
  insert-IsChain [] (z ∷ zs) is loose small =
      rw (null_ne z is.links.0, is.links.2) (push_front-IsChain (z ∷ zs) is loose small, refl)
  insert-IsChain (y ∷ ys) (z ∷ zs) is loose small =
      let split = sym (has-append (y ∷ ys) (z ∷ zs) n) ∙ loose.outside in
      let oy = or_left (has (y ∷ ys) n) (has (z ∷ zs) n) split in
      let oz = or_right (has (y ∷ ys) n) (has (z ∷ zs) n) split in
      let (nz, _, _, e, _) = neighbours c.next c.prev (y ∷ ys) zs z is.links in
      let f = last_ne_null c 0 z y ys (Seg.front c.next c.prev 0 0 (y ∷ ys) (z ∷ zs) is.links) in
      rw (null_ne z nz, e, f)
        (
          record {
            links =
                Seg.frame _ _ _ _ 0 0 (y ∷ ys ++ n ∷ z ∷ zs)
                  (link_between c.next c.prev (y ∷ ys) (z ∷ zs) n is.links loose.ne oy oz)
                  (λ a i. (
                    as_write_at (write c.next n z) (last_or y ys) n a f,
                    as_write_at (write c.prev n (last_or y ys)) z n a (null_ne z nz),
                  ));
            head_is = is.head_is;
            tail_is =
                is.tail_is ∙ last_or-append y ys (z ∷ zs) ∙ sym (last_or-append y ys (n ∷ z ∷ zs));
            size_is =
                one_more_is c.size (length (y ∷ ys ++ z ∷ zs)) is.size_is small
                ∙ sym (length_between (y ∷ ys) (z ∷ zs) n);
            fits = omega (arith, length_between (y ∷ ys) (z ∷ zs) n, small);
          },
          refl,
        )
