-- ===== src/IntrusiveChain/Edges.antt =====
-- `pop_back`, `pop_front`, `erase` and `clear` of src/panda/intrusive_chain.h on the list of the
-- nodes.
use panda_lib.Base.{
  ℕ, zero, suc, ◌^◌, ◌<◌, ◌≡◌, refl, Bool, true, false, ◌||◌, ◌&&◌, not, some, List, [], ◌∷◌, ◌++◌,
  arith, ◌==◌, if◌then◌else◌, ◌∙◌, sym, subst, ap, ap₂, length, append-nil, append_assoc, ==_refl,
}
use panda_lib.Links.Seg
use panda_lib.Links.Seg.{
  Ptr, Field, write, write_at, has, head_or, last_or, Seg, has-append, last_or-append,
  head_or-append, last_or-mem, ne_of_has,
}
use panda_lib.Links.Relink.{neighbours, unlink}
use panda_lib.IntrusiveChain.{
  IntrusiveChain, one_less, pop_back, pop_front, erase, clear, clear_from, emptied,
}
use panda_lib.IntrusiveChain.Laws.{
  IsChain, flip_ne, null_ne, last_ne_null, length_between, has_last,
}

-- What a node is after it has left the chain of `xs`.
pub record IsOut (c : IntrusiveChain) (xs : List Ptr) (x : Ptr) : Type 0 where
  pub chain : IsChain c xs
  pub next_null : c.next x ≡ 0
  pub prev_null : c.prev x ≡ 0

abbrev pub some_left : List Ptr → Bool
some_left [] = false
some_left (x ∷ xs) = true

one_less_is : (n k : ℕ) → n ≡ suc k → suc k < 2 ^ 64 → one_less n ≡ k
one_less_is n k e small = omega arith

-- Two ways to write the null pointer at the node that leaves.
end_write :
    (f : Field) (p x a : Ptr)
    → f x ≡ 0
    → (p == 0) ≡ false
    → write f p 0 a ≡ write (write_at f p 0) x 0 a
end_write f p x a e d = ground arith

middle_write :
    (f : Field) (p v x a : Ptr)
    → (p == 0) ≡ false
    → write (write f p v) x 0 a ≡ write (write_at f p v) x 0 a
middle_write f p v x a d = rw d refl

write_here : (f : Field) (x v : Ptr) → write f x v x ≡ v
write_here f x v = rw (==_refl x) refl

write_there : (f : Field) (x v a : Ptr) → (x == a) ≡ false → write f x v a ≡ f a
write_there f x v a e = rw e refl

first_other : (ys : List Ptr) (x y : Ptr) → has (y ∷ ys) x ≡ false → (y == x) ≡ false
first_other ys x y o = ground arith

-- Of a chain in which the links around `x` were closed.
module _ (c d : IntrusiveChain) (ys zs : List Ptr) (x : Ptr) where
  taken-IsOut :
      IsChain c (ys ++ x ∷ zs)
      → ((a : Ptr) → d.next a ≡ write (write_at c.next (last_or 0 ys) (head_or 0 zs)) x 0 a)
      → ((a : Ptr) → d.prev a ≡ write (write_at c.prev (head_or 0 zs) (last_or 0 ys)) x 0 a)
      → d.head ≡ head_or 0 (ys ++ zs)
      → d.tail ≡ last_or 0 (ys ++ zs)
      → d.size ≡ one_less c.size
      → IsOut d (ys ++ zs) x
  taken-IsOut is nexts prevs h t s =
      let (ne, oy, oz, _, _) = neighbours c.next c.prev ys zs x is.links in
      let out : has (ys ++ zs) x ≡ false = rw (has-append ys zs x, oy, oz) refl in
      let more = length_between ys zs x in
      record {
        chain = record {
          links = Seg.frame _ _ _ _ 0 0 (ys ++ zs) (unlink c.next c.prev ys zs x is.links) (λ a i.
              let other = ne_of_has (ys ++ zs) a x i out in
              (
                nexts a ∙ write_there (write_at c.next (last_or 0 ys) (head_or 0 zs)) x 0 a other,
                prevs a ∙ write_there (write_at c.prev (head_or 0 zs) (last_or 0 ys)) x 0 a other,
              ));
          head_is = h;
          tail_is = t;
          size_is =
              s
              ∙ one_less_is c.size (length (ys ++ zs)) (is.size_is ∙ more)
                  (omega (arith, is.fits, more));
          fits = omega (arith, is.fits, more);
        };
        next_null = nexts x ∙ write_here (write_at c.next (last_or 0 ys) (head_or 0 zs)) x 0;
        prev_null = prevs x ∙ write_here (write_at c.prev (head_or 0 zs) (last_or 0 ys)) x 0;
      }

is_member : (b : Bool) (x h : Ptr) → h ≡ x → (b && not (x == h)) ≡ false
is_member b x h e = ground arith

one_node :
    (c : IntrusiveChain) (x : Ptr)
    → IsChain c (x ∷ [])
    → IsOut (record c { head = 0; tail = 0; size = 0 }) [] x
one_node c x is = record {
  chain = record { links = tt; head_is = refl; tail_is = refl; size_is = refl; fits = omega arith };
  next_null = is.links.3;
  prev_null = is.links.2;
}

module _ (c : IntrusiveChain) where
  -- `pop_back` takes out the last node, and says whether one is left.
  pub pop_back-IsOut :
      (xs : List Ptr) (x : Ptr)
      → IsChain c (xs ++ x ∷ [])
      → IsOut (pop_back c).0 xs x × ((pop_back c).1 ≡ some_left xs)
  unfolding pop_back
  pop_back-IsOut [] x is = rw (is.head_is, is.tail_is, ==_refl x) (one_node c x is, refl)
  pop_back-IsOut (y ∷ ys) x is =
      let (ne, oy, _, p, q) = neighbours c.next c.prev (y ∷ ys) [] x is.links in
      let tail : c.tail ≡ x = is.tail_is ∙ last_or-append y ys (x ∷ []) in
      let before : c.prev c.tail ≡ last_or y ys = ap c.prev tail ∙ p in
      let ends : (c.head == c.tail) ≡ false =
        ap₂ (λ h t. h == t) is.head_is tail ∙ first_other ys x y oy in
      let f = last_ne_null c 0 x y ys (Seg.front c.next c.prev 0 0 (y ∷ ys) (x ∷ []) is.links) in
      let d = record c {
        tail = c.prev c.tail;
        next = write c.next (c.prev c.tail) 0;
        prev = write c.prev c.tail 0;
        size = one_less c.size;
      } in
      rw ends (
        subst (λ l. IsOut d l x) (append-nil (y ∷ ys))
            (taken-IsOut c d (y ∷ ys) [] x is
              (λ a. ap (λ u. write c.next u 0 a) before ∙ end_write c.next (last_or y ys) x a q f)
              (λ a. ap (λ u. write c.prev u 0 a) tail) is.head_is
              (before ∙ ap (λ l. last_or y l) (sym (append-nil ys))) refl),
        refl,
      )

  -- `pop_front` takes out the first node, and says whether one is left.
  pub pop_front-IsOut :
      (xs : List Ptr) (x : Ptr)
      → IsChain c (x ∷ xs)
      → IsOut (pop_front c).0 xs x × ((pop_front c).1 ≡ some_left xs)
  unfolding pop_front
  pop_front-IsOut [] x is = rw (is.head_is, is.tail_is, ==_refl x) (one_node c x is, refl)
  pop_front-IsOut (y ∷ ys) x is =
      let (ne, _, oz, p, q) = neighbours c.next c.prev [] (y ∷ ys) x is.links in
      let behind : c.next c.head ≡ y = ap c.next is.head_is ∙ q in
      let ends : (c.head == c.tail) ≡ false =
        ap₂ (λ h t. h == t) is.head_is is.tail_is ∙ flip_ne (last_or y ys) x (has_last y ys x oz) in
      rw ends (
        taken-IsOut c _ [] (y ∷ ys) x is (λ a. ap (λ u. write c.next u 0 a) is.head_is)
            (λ a.
              ap (λ u. write c.prev u 0 a) behind
              ∙ end_write c.prev y x a p (null_ne y is.links.4.0))
            behind is.tail_is refl,
        refl,
      )

  -- `erase` of a node takes out that node alone, and results in the one behind it.
  pub erase-IsOut :
      (ys zs : List Ptr) (x : Ptr)
      → IsChain c (ys ++ x ∷ zs)
      → IsOut (erase x c).0 (ys ++ zs) x × ((erase x c).1 ≡ head_or 0 zs)
  unfolding erase
  erase-IsOut [] zs x is =
      let (ne, _, _, p, _) = neighbours c.next c.prev [] zs x is.links in
      let out = pop_front-IsOut zs x is in
      rw (null_ne x ne, p, is_member (c.next x == 0) x c.head is.head_is)
        (out.0, out.0.chain.head_is)
  erase-IsOut (y ∷ ys) [] x is =
      let (ne, _, _, p, q) = neighbours c.next c.prev (y ∷ ys) [] x is.links in
      let f = last_ne_null c 0 x y ys (Seg.front c.next c.prev 0 0 (y ∷ ys) (x ∷ []) is.links) in
      rw (null_ne x ne, p, f, q, append-nil) ((pop_back-IsOut (y ∷ ys) x is).0, refl)
  erase-IsOut (y ∷ ys) (z ∷ zs) x is =
      let (ne, _, _, p, q) = neighbours c.next c.prev (y ∷ ys) (z ∷ zs) x is.links in
      let f =
        last_ne_null c 0 x y ys (Seg.front c.next c.prev 0 0 (y ∷ ys) (x ∷ z ∷ zs) is.links) in
      let after = neighbours c.next c.prev (y ∷ ys ++ x ∷ []) zs z (
        subst (λ l. Seg c.next c.prev 0 l 0) (sym (append_assoc (y ∷ ys) (x ∷ []) (z ∷ zs)))
          is.links) in
      let g = null_ne z after.0 in
      rw (null_ne x ne, p, f, q, g)
        (
          taken-IsOut c _ (y ∷ ys) (z ∷ zs) x is (λ a. middle_write c.next (last_or y ys) z x a f)
              (λ a. middle_write c.prev z (last_or y ys) x a g) is.head_is
              (is.tail_is ∙ last_or-append y ys (x ∷ z ∷ zs) ∙ sym (last_or-append y ys (z ∷ zs)))
              refl,
          refl,
        )

-- What `clear` leaves: no node, and the old ones without links.
pub record IsCleared (c : IntrusiveChain) (xs : List Ptr) : Type 0 where
  pub chain : IsChain c []
  pub next_null : (a : Ptr) → has xs a ≡ true → c.next a ≡ 0
  pub prev_null : (a : Ptr) → has xs a ≡ true → c.prev a ≡ 0

record Unlinked (c d : IntrusiveChain) (xs : List Ptr) : Type 0 where
  next_is : (a : Ptr) → d.next a ≡ (if has xs a then 0 else c.next a)
  prev_is : (a : Ptr) → d.prev a ≡ (if has xs a then 0 else c.prev a)

join_unlinked :
    (x a : Ptr) (h : Bool) (v : Ptr)
    → (if h then 0 else if x == a then 0 else v) ≡ (if (x == a) || h then 0 else v)
join_unlinked x a h v = ground arith

unlink_all :
    (fuel : ℕ) (c : IntrusiveChain) (p : Ptr) (xs : List Ptr)
    → Seg c.next c.prev p xs 0
    → length xs < fuel
    → (d : IntrusiveChain) × (clear_from fuel (head_or 0 xs) c ≡ some d) × Unlinked c d xs
unfolding clear_from
unlink_all zero c p xs s enough = absurd (omega arith)
unlink_all (suc fuel) c p [] s enough =
    (c, refl, record { next_is = λ a. refl; prev_is = λ a. refl })
unlink_all (suc fuel) c p (x ∷ xs) s enough =
    let c1 = record c { next = write c.next x 0; prev = write c.prev x 0 } in
    let rest = Seg.frame c.next c.prev c1.next c1.prev x 0 xs s.4 (λ a i.
      let other = ne_of_has xs a x i s.1 in
      (write_there c.next x 0 a other, write_there c.prev x 0 a other)) in
    let (d, runs, left) = unlink_all fuel c1 x xs rest (omega arith) in
    (
      d,
      rw (null_ne x s.0, s.3) runs,
      record {
        next_is = λ a. left.next_is a ∙ join_unlinked x a (has xs a) (c.next a);
        prev_is = λ a. left.prev_is a ∙ join_unlinked x a (has xs a) (c.prev a);
      },
    )

-- `clear`, with more fuel than nodes, ends, empties the chain and takes the links from every node
-- of it.
pub clear-IsCleared :
    (fuel : ℕ) (c : IntrusiveChain) (xs : List Ptr)
    → IsChain c xs
    → length xs < fuel
    → (d : IntrusiveChain) × (clear fuel c ≡ some d) × IsCleared d xs
unfolding clear emptied
clear-IsCleared fuel c xs is enough =
    let (d, runs, left) = unlink_all fuel c 0 xs is.links enough in
    (
      record d { head = 0; tail = 0; size = 0 },
      ap (λ h. emptied (clear_from fuel h c)) is.head_is ∙ ap emptied runs,
      record {
        chain = record {
          links = tt;
          head_is = refl;
          tail_is = refl;
          size_is = refl;
          fits = omega arith;
        };
        next_null = λ a i. left.next_is a ∙ rw i refl;
        prev_null = λ a i. left.prev_is a ∙ rw i refl;
      },
    )
