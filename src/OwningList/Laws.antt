-- ===== src/OwningList/Laws.antt =====
-- The operations of src/panda/owning_list.h as operations on the list of the live nodes.
use panda_lib.Base.{
  ℕ, suc, ◌+◌, ◌-◌, ◌%◌, ◌^◌, ◌<◌, ◌≡◌, ◌≢◌, refl, Bool, true, false, ◌||◌, List, [], ◌∷◌, ◌++◌,
  arith, ◌==◌, if◌then◌else◌, ◌∙◌, sym, ap₂, Bool-cases, inl, inr, length, length-append,
  append-nil, ap, ==_refl,
}
use panda_lib.Links.Seg
use panda_lib.Links.Seg.{
  Ptr, Field, write, write_at, has, head_or, last_or, Seg, has-append, last_or-append,
  head_or-append, last_or-mem, ne_of_has,
}
use panda_lib.Links.Relink.{link_between, neighbours, unlink}
use panda_lib.OwningList.{OwningList, push_back, push_front, remove_node}

-- The list holds the valid nodes `xs`, in that order.
pub record IsList {ℓ} {A : Type ℓ} (l : OwningList A) (xs : List Ptr) : Type ℓ where
  pub links : Seg l.next l.prev 0 xs 0
  pub first_is : l.first ≡ head_or 0 xs
  pub last_is : l.last ≡ last_or 0 xs
  pub size_is : l.size ≡ length xs
  pub all_valid : (a : Ptr) → has xs a ≡ true → l.valid a ≡ true

flip_ne : (a b : ℕ) → (a == b) ≡ false → (b == a) ≡ false
flip_ne a b e = ground arith

last_ne_null :
    (next prev : Field) (p x : Ptr) (xs : List Ptr)
    → Seg next prev p (x ∷ xs) 0
    → (last_or x xs == 0) ≡ false
last_ne_null next prev p x xs s = flip_ne 0 (last_or x xs) (
    ne_of_has (x ∷ xs) (last_or x xs) 0 (last_or-mem x xs)
      (Seg.Seg-ne_null next prev p 0 (x ∷ xs) s))

pub null_ne : (x : ℕ) → x ≢ 0 → (x == 0) ≡ false
null_ne x ne = ground arith

as_write_at : (f : Field) (p n a : Ptr) → (p == 0) ≡ false → write f p n a ≡ write_at f p n a
as_write_at f p n a e = rw e

valid_new :
    (n a : Ptr) (h v : Bool)
    → (h ≡ true → v ≡ true)
    → (h || ((n == a) || false)) ≡ true
    → (if n == a then true else v) ≡ true
valid_new n a h v f i = elim (Bool-cases (n == a)) [
  | inl e ↦ rw e refl
  | inr e ↦ rw e (f (ground arith))
]

write_twice : (f : Field) (n u v a : Ptr) → write (write f n u) n v a ≡ write f n v a
write_twice f n u v a = ground arith

-- What `remove_node` leaves in the fields.
module _ {ℓ} {A : Type ℓ} (l : OwningList A) (x : Ptr) where
  remove_next : (a : Ptr) → (remove_node x l).next a ≡ write_at l.next (l.prev x) (l.next x) a
  unfolding remove_node
  remove_next a = ground arith

  remove_prev : (a : Ptr) → (remove_node x l).prev a ≡ write_at l.prev (l.next x) (l.prev x) a
  unfolding remove_node
  remove_prev a = ground arith

  remove_first : (remove_node x l).first ≡ (if l.prev x == 0 then l.next x else l.first)
  unfolding remove_node
  remove_first = ground arith

  remove_last : (remove_node x l).last ≡ (if l.next x == 0 then l.prev x else l.last)
  unfolding remove_node
  remove_last = ground arith

  remove_valid : (a : Ptr) → (remove_node x l).valid a ≡ (if x == a then false else l.valid a)
  unfolding remove_node
  remove_valid a = ground arith

  pub remove_size : (remove_node x l).size ≡ (l.size + 2 ^ 64 - 1) % 2 ^ 64
  unfolding remove_node
  remove_size = ground arith

module _ {ℓ} {A : Type ℓ} (n : Ptr) (v : A) (l : OwningList A) (ne : n ≢ 0) where
  -- `push_back` of a new node, while the size does not wrap, puts it behind the others, and the
  -- list stays well formed.
  pub push_back-IsList :
      (xs : List Ptr)
      → IsList l xs
      → has xs n ≡ false
      → length xs + 1 < 2 ^ 64
      → IsList (push_back n v l) (xs ++ n ∷ [])
  unfolding push_back
  push_back-IsList [] is new small =
      let e : (l.last == 0) ≡ true = ground (arith, is.last_is) in
      rw e (record {
        links = (ne, refl, ground arith, ground arith, tt);
        first_is = refl;
        last_is = refl;
        size_is = omega (arith, is.size_is, small);
        all_valid = λ a i. ground arith;
      })
  push_back-IsList (x ∷ xs) is new small =
      let e : (l.last == 0) ≡ false = rw is.last_is (last_ne_null l.next l.prev 0 x xs is.links) in
      rw e (record {
        links =
            Seg.frame _ _ _ _ 0 0 (x ∷ xs ++ n ∷ [])
              (link_between l.next l.prev (x ∷ xs) [] n (rw append-nil is.links) ne new refl)
              (λ a i. (
                ap (λ p. write (write l.next n 0) p n a) is.last_is
                    ∙ as_write_at (write l.next n 0) (last_or x xs) n a
                        (last_ne_null l.next l.prev 0 x xs is.links),
                ap (λ p. write (write l.prev n 0) n p a) is.last_is
                    ∙ write_twice l.prev n 0 (last_or x xs) a,
              ));
        first_is = is.first_is;
        last_is = sym (last_or-append x xs (n ∷ []));
        size_is = omega (arith, is.size_is, small, length-append xs (n ∷ []));
        all_valid = λ a i.
            valid_new n a (has (x ∷ xs) a) (l.valid a) (is.all_valid a)
              (sym (has-append (x ∷ xs) (n ∷ []) a) ∙ i);
      })

  -- `push_front` of a new node, while the size does not wrap, puts it before the others, and the
  -- list stays well formed.
  pub push_front-IsList :
      (xs : List Ptr)
      → IsList l xs
      → has xs n ≡ false
      → length xs + 1 < 2 ^ 64
      → IsList (push_front n v l) (n ∷ xs)
  unfolding push_front
  push_front-IsList [] is new small =
      let e : (l.first == 0) ≡ true = ground (arith, is.first_is) in
      rw e (record {
        links = (ne, refl, ground arith, ground arith, tt);
        first_is = refl;
        last_is = refl;
        size_is = omega (arith, is.size_is, small);
        all_valid = λ a i. ground arith;
      })
  push_front-IsList (x ∷ xs) is new small =
      let e : (l.first == 0) ≡ false = rw is.first_is (null_ne x is.links.0) in
      rw e (record {
        links =
            Seg.frame _ _ _ _ 0 0 (n ∷ x ∷ xs)
              (link_between l.next l.prev [] (x ∷ xs) n is.links ne refl new)
              (λ a i. (
                ap (λ p. write (write l.next n 0) n p a) is.first_is ∙ write_twice l.next n 0 x a,
                ap (λ p. write (write l.prev n 0) p n a) is.first_is
                    ∙ as_write_at (write l.prev n 0) x n a (null_ne x is.links.0),
              ));
        first_is = refl;
        last_is = is.last_is;
        size_is = omega (arith, is.size_is, small);
        all_valid = λ a i. ground (arith, is.all_valid a);
      })

ends_first :
    (ys zs : List Ptr) (x f nx : Ptr)
    → has ys 0 ≡ false
    → f ≡ head_or 0 (ys ++ x ∷ zs)
    → nx ≡ head_or 0 zs
    → (if last_or 0 ys == 0 then nx else f) ≡ head_or 0 (ys ++ zs)
ends_first [] zs x f nx o e q = q
ends_first (y ∷ ys) zs x f nx o e q =
    rw (flip_ne 0 (last_or y ys) (ne_of_has (y ∷ ys) (last_or y ys) 0 (last_or-mem y ys) o)) e

ends_last :
    (ys zs : List Ptr) (x f pv : Ptr)
    → has zs 0 ≡ false
    → f ≡ last_or 0 (ys ++ x ∷ zs)
    → pv ≡ last_or 0 ys
    → (if head_or 0 zs == 0 then pv else f) ≡ last_or 0 (ys ++ zs)
ends_last ys [] x f pv o e q = rw append-nil q
ends_last ys (z ∷ zs) x f pv o e q =
    rw (flip_ne 0 z (ground (arith, o)))
      (e ∙ last_or-append 0 ys (x ∷ z ∷ zs) ∙ sym (last_or-append 0 ys (z ∷ zs)))

none_front : (h k : Bool) → (h || k) ≡ false → h ≡ false
none_front h k e = ground arith

none_behind : (x : ℕ) (h k : Bool) → (h || ((x == 0) || k)) ≡ false → k ≡ false
none_behind x h k e = ground arith

write_same : (f : Field) (a i : Ptr) → write_at f a (f i) i ≡ f i
write_same f a i = ground arith

without_one :
    (n a b c : ℕ) → n ≡ a + suc b → a + b + 1 < 2 ^ 64 → c ≡ a + b → (n + 2 ^ 64 - 1) % 2 ^ 64 ≡ c
without_one n a b c e small d = omega arith

valid_old :
    (x a : Ptr) (hy hz v : Bool)
    → (x == a) ≡ false
    → (hy || ((x == a) || hz) ≡ true → v ≡ true)
    → (hy || hz) ≡ true
    → (if x == a then false else v) ≡ true
valid_old x a hy hz v e f i = rw e (f (rw e i))

module _ {ℓ} {A : Type ℓ} (l : OwningList A) (ys zs : List Ptr) (x : Ptr) where
  -- `remove_node` of a node of a list of less than 2 ^ 64 nodes takes out that node alone, marks
  -- it as not valid, and keeps its pointer to the node that stood behind it.
  pub remove_node-IsList :
      IsList l (ys ++ x ∷ zs)
      → length ys + length zs + 1 < 2 ^ 64
      → IsList (remove_node x l) (ys ++ zs)
        × ((remove_node x l).valid x ≡ false)
        × ((remove_node x l).next x ≡ head_or 0 zs)
  remove_node-IsList is small =
      let (ne, oy, oz, p, q) = neighbours l.next l.prev ys zs x is.links in
      let whole = unlink l.next l.prev ys zs x is.links in
      let front_null =
        sym (has-append ys (x ∷ zs) 0)
        ∙ Seg.Seg-ne_null l.next l.prev 0 0 (ys ++ x ∷ zs) is.links in
      (
        record {
          links = Seg.frame _ _ _ _ 0 0 (ys ++ zs) whole (λ a i. (
            remove_next l x a ∙ ap₂ (λ u v. write_at l.next u v a) p q,
            remove_prev l x a ∙ ap₂ (λ u v. write_at l.prev v u a) p q,
          ));
          first_is =
              remove_first l x
              ∙ ap (λ u. if u == 0 then l.next x else l.first) p
              ∙ ends_first ys zs x l.first (l.next x)
                  (none_front (has ys 0) (has (x ∷ zs) 0) front_null) is.first_is q;
          last_is =
              remove_last l x
              ∙ ap (λ u. if u == 0 then l.prev x else l.last) q
              ∙ ends_last ys zs x l.last (l.prev x) (none_behind x (has ys 0) (has zs 0) front_null)
                  is.last_is p;
          size_is =
              remove_size l x
              ∙ without_one l.size (length ys) (length zs) (length (ys ++ zs))
                  (is.size_is ∙ length-append ys (x ∷ zs)) small (length-append ys zs);
          all_valid = λ a i.
              remove_valid l x a
              ∙ valid_old x a (has ys a) (has zs a) (l.valid a)
                  (ne_of_has (ys ++ zs) a x i (rw (has-append ys zs x, oy, oz) refl))
                  (λ j. is.all_valid a (has-append ys (x ∷ zs) a ∙ j))
                  (sym (has-append ys zs a) ∙ i);
        },
        remove_valid l x x ∙ rw (==_refl x) refl,
        remove_next l x x ∙ write_same l.next (l.prev x) x ∙ q,
      )
