-- ===== src/Links/Relink.antt =====
-- Putting a node between two others, and taking one out.
use panda_lib.Base.{
  ◌≡◌, ◌≢◌, refl, true, false, List, [], ◌∷◌, ◌++◌, arith, ◌==◌, if◌then◌else◌, ◌⊎◌, inl, inr,
  Bool-cases, ==→eq,
}
use panda_lib.Links.Seg
use panda_lib.Links.Seg.{
  Ptr, Field, write, write_at, has, head_or, last_or, Seg, Apart, has-append, last_or-mem,
  ne_of_has,
}

head_or-mem : (q : Ptr) (zs : List Ptr) → head_or q zs ≢ q → has zs (head_or q zs) ≡ true
head_or-mem q [] ne = absurd (ne refl)
head_or-mem q (z ∷ zs) ne = ground arith

last_or-of : (p : Ptr) (ys : List Ptr) → last_or p ys ≢ p → has ys (last_or p ys) ≡ true
last_or-of p [] ne = absurd (ne refl)
last_or-of p (y ∷ ys) ne = last_or-mem y ys

ends_or : (xs : List Ptr) (a : Ptr) → (a ≢ 0 → has xs a ≡ true) → (a ≡ 0) ⊎ (has xs a ≡ true)
ends_or xs a f = elim (Bool-cases (a == 0)) [
  | inl e ↦ inl (==→eq a 0 e)
  | inr e ↦ inr (f (ground arith))
]

end_ne :
    (xs : List Ptr) (a x : Ptr)
    → x ≢ 0
    → has xs x ≡ false
    → (a ≡ 0) ⊎ (has xs a ≡ true)
    → (a == x) ≡ false
end_ne xs a x ne out (inl e) = ground arith
end_ne xs a x ne out (inr i) = ground (arith, ne_of_has xs a x i out)

-- What the two writes of a link leave at a node.
written_end :
    (n x a v : Ptr) (f : Field)
    → (0 == a) ≡ false
    → (x == a) ≡ false
    → write_at (write f x v) n x a ≡ (if n == a then x else f a)
written_end n x a v f a0 ax = ground arith

elsewhere :
    (n x a v : Ptr) (f : Field)
    → (n == a) ≡ false
    → (x == a) ≡ false
    → write_at (write f x v) n x a ≡ f a
elsewhere n x a v f an ax = ground arith

at_new : (n x v : Ptr) (f : Field) → (n == x) ≡ false → write_at (write f x v) n x x ≡ v
at_new n x v f nx = ground arith

-- The neighbours of a place in a chain, `last_or 0 ys` and `head_or 0 zs`, stand on their sides.
record Place (next prev : Field) (ys zs : List Ptr) : Type 0 where
  front : Seg next prev 0 ys (head_or 0 zs)
  back : Seg next prev (last_or 0 ys) zs 0
  split : Apart ys zs
  front_null : has ys 0 ≡ false
  back_null : has zs 0 ≡ false
  head_behind : has ys (head_or 0 zs) ≡ false
  last_before : has zs (last_or 0 ys) ≡ false

outside :
    (xs ys : List Ptr) (a : Ptr)
    → Apart xs ys
    → has xs 0 ≡ false
    → (a ≡ 0) ⊎ (has ys a ≡ true)
    → has xs a ≡ false
outside xs ys a split null (inl e) = rw e null
outside xs ys a split null (inr i) = elim (Bool-cases (has xs a)) [
  | inl j ↦ cc (split a j)
  | inr j ↦ j
]

outside_back :
    (xs ys : List Ptr) (a : Ptr)
    → Apart xs ys
    → has ys 0 ≡ false
    → (a ≡ 0) ⊎ (has xs a ≡ true)
    → has ys a ≡ false
outside_back xs ys a split null (inl e) = rw e null
outside_back xs ys a split null (inr i) = split a i

place :
    (next prev : Field) (ys zs : List Ptr) → Seg next prev 0 (ys ++ zs) 0 → Place next prev ys zs
place next prev ys zs s =
    let split = Seg.apart next prev 0 0 ys zs s in
    let f = Seg.front next prev 0 0 ys zs s in
    let b = Seg.back next prev 0 0 ys zs s in
    let nf = Seg.Seg-ne_null next prev 0 (head_or 0 zs) ys f in
    let nb = Seg.Seg-ne_null next prev (last_or 0 ys) 0 zs b in
    record {
      front = f;
      back = b;
      split = split;
      front_null = nf;
      back_null = nb;
      head_behind =
          outside ys zs (head_or 0 zs) split nf (ends_or zs (head_or 0 zs) (head_or-mem 0 zs));
      last_before =
          outside_back ys zs (last_or 0 ys) split nb (ends_or ys (last_or 0 ys) (last_or-of 0 ys));
    }

module _ (next prev : Field) (ys zs : List Ptr) where
  -- The node `x` between the two parts of a chain.
  pub link_between :
      (x : Ptr)
      → Seg next prev 0 (ys ++ zs) 0
      → x ≢ 0
      → has ys x ≡ false
      → has zs x ≡ false
      → Seg
          (write_at (write next x (head_or 0 zs)) (last_or 0 ys) x)
          (write_at (write prev x (last_or 0 ys)) (head_or 0 zs) x)
          0
          (ys ++ x ∷ zs)
          0
  link_between x s ne oy oz =
      let p = place next prev ys zs s in
      Seg.append _ _ 0 0 ys (x ∷ zs)
        (Seg.relink_end next prev _ _ 0 (head_or 0 zs) x ys p.front (λ a i.
          let a0 = ne_of_has ys a 0 i p.front_null in
          let ax = ne_of_has ys a x i oy in
          let an = ne_of_has ys a (head_or 0 zs) i p.head_behind in
          (
            written_end (last_or 0 ys) x a (head_or 0 zs) next a0 ax,
            elsewhere (head_or 0 zs) x a (last_or 0 ys) prev an ax,
          )))
        (
          ne,
          oz,
          at_new (head_or 0 zs) x (last_or 0 ys) prev
              (end_ne zs (head_or 0 zs) x ne oz (ends_or zs (head_or 0 zs) (head_or-mem 0 zs))),
          at_new (last_or 0 ys) x (head_or 0 zs) next
              (end_ne ys (last_or 0 ys) x ne oy (ends_or ys (last_or 0 ys) (last_or-of 0 ys))),
          Seg.relink_start next prev _ _ (last_or 0 ys) x 0 zs p.back (λ a i.
              let a0 = ne_of_has zs a 0 i p.back_null in
              let ax = ne_of_has zs a x i oz in
              let an = ne_of_has zs a (last_or 0 ys) i p.last_before in
              (
                elsewhere (last_or 0 ys) x a (head_or 0 zs) next an ax,
                written_end (head_or 0 zs) x a (last_or 0 ys) prev a0 ax,
              )),
        )
        (λ a i. ground (arith, p.split a i, ne_of_has ys a x i oy))

-- What the write of an unlinked neighbour leaves at a node.
cut_end :
    (n a v : Ptr) (f : Field) → (0 == a) ≡ false → write_at f n v a ≡ (if n == a then v else f a)
cut_end n a v f a0 = ground arith

cut_elsewhere : (n a v : Ptr) (f : Field) → (n == a) ≡ false → write_at f n v a ≡ f a
cut_elsewhere n a v f an = ground arith

module _ (next prev : Field) (ys zs : List Ptr) (x : Ptr) where
  -- The neighbours of a node in a chain.
  pub neighbours :
      Seg next prev 0 (ys ++ x ∷ zs) 0
      → (x ≢ 0)
        × (has ys x ≡ false)
        × (has zs x ≡ false)
        × (prev x ≡ last_or 0 ys)
        × (next x ≡ head_or 0 zs)
  neighbours s =
      let p = place next prev ys (x ∷ zs) s in
      (p.back.0, p.head_behind, p.back.1, p.back.2, p.back.3)

  -- The chain without the node `x`.
  pub unlink :
      Seg next prev 0 (ys ++ x ∷ zs) 0
      → Seg
          (write_at next (last_or 0 ys) (head_or 0 zs))
          (write_at prev (head_or 0 zs) (last_or 0 ys))
          0
          (ys ++ zs)
          0
  unlink s =
      let p = place next prev ys (x ∷ zs) s in
      let rest = p.back.4 in
      let split : Apart ys zs = λ a i. ground (arith, p.split a i) in
      let nz = Seg.Seg-ne_null next prev x 0 zs rest in
      let head =
        outside ys zs (head_or 0 zs) split p.front_null
          (ends_or zs (head_or 0 zs) (head_or-mem 0 zs)) in
      let last =
        outside_back ys zs (last_or 0 ys) split nz (ends_or ys (last_or 0 ys) (last_or-of 0 ys)) in
      Seg.append _ _ 0 0 ys zs
        (Seg.relink_end next prev _ _ 0 x (head_or 0 zs) ys p.front (λ a i. (
          cut_end (last_or 0 ys) a (head_or 0 zs) next (ne_of_has ys a 0 i p.front_null),
          cut_elsewhere (head_or 0 zs) a (last_or 0 ys) prev (ne_of_has ys a (head_or 0 zs) i head),
        )))
        (Seg.relink_start next prev _ _ x (last_or 0 ys) 0 zs rest (λ a i. (
          cut_elsewhere (last_or 0 ys) a (head_or 0 zs) next (ne_of_has zs a (last_or 0 ys) i last),
          cut_end (head_or 0 zs) a (last_or 0 ys) prev (ne_of_has zs a 0 i nz),
        )))
        split
