-- ===== src/Rbtree/Rotation.antt =====
-- The nodes that `rb_lrotate` of kernel/rbtree.c reads and writes.
use sync_kernel.Prelude.{
  ℕ, ◌≡◌, refl, ap, ◌∙◌, ◌≢◌, inl, inr, false, arith, ◌==◌, Returns, if◌then◌else◌, update,
  Bool-cases,
}
use sync_kernel.Rbtree.{
  Node, RbTree, node, adopt, set_left, set_right, set_parent, replace_left, rb_lrotate,
}

-- The nodes that a rotation at `x` reads: its child `y`, the child `b` of that, and its parent `up`.
pub record IsApart (x y b up : ℕ) : Type 0 where
  pub x_y : x ≢ y
  pub b_x : b ≢ x
  pub b_y : b ≢ y
  pub up_x : up ≢ x
  pub up_y : up ≢ y
  pub up_b : b ≢ 0 → up ≢ b

-- The tree `s` has these at the four, and elsewhere what `t` has.
pub record Has (t s : RbTree) (x y b up : ℕ) (nx ny nb nu : Node) : Type 0 where
  pub at_x : s.nodes x ≡ nx
  pub at_y : s.nodes y ≡ ny
  pub at_b : b ≢ 0 → s.nodes b ≡ nb
  pub at_up : up ≢ 0 → s.nodes up ≡ nu
  pub others : (q : ℕ) → q ≢ x → q ≢ y → q ≢ b → q ≢ up → s.nodes q ≡ t.nodes q

-- One of the four is written.
abbrev written : RbTree → ℕ → Node → RbTree
written s q n = record s { nodes = update s.nodes q n }

module _ (t : RbTree) (x y b up : ℕ) (d : IsApart x y b up) where
  Has-x :
      (s : RbTree) (nx ny nb nu m n : Node)
      → m ≡ n
      → Has t s x y b up nx ny nb nu
      → Has t (written s x m) x y b up n ny nb nu
  Has-x s nx ny nb nu m n e h = record {
    at_x = ground (arith, e);
    at_y = ground (arith, d.x_y, h.at_y);
    at_b = λ z. ground (arith, d.b_x, h.at_b z);
    at_up = λ z. ground (arith, d.up_x, h.at_up z);
    others = λ q qx qy qb qu. ground (arith, h.others q qx qy qb qu);
  }

  Has-y :
      (s : RbTree) (nx ny nb nu m n : Node)
      → m ≡ n
      → Has t s x y b up nx ny nb nu
      → Has t (written s y m) x y b up nx n nb nu
  Has-y s nx ny nb nu m n e h = record {
    at_x = ground (arith, d.x_y, h.at_x);
    at_y = ground (arith, e);
    at_b = λ z. ground (arith, d.b_y, h.at_b z);
    at_up = λ z. ground (arith, d.up_y, h.at_up z);
    others = λ q qx qy qb qu. ground (arith, h.others q qx qy qb qu);
  }

  Has-b :
      (s : RbTree) (nx ny nb nu m n : Node)
      → m ≡ n
      → b ≢ 0
      → Has t s x y b up nx ny nb nu
      → Has t (written s b m) x y b up nx ny n nu
  Has-b s nx ny nb nu m n e some_b h = record {
    at_x = ground (arith, d.b_x, h.at_x);
    at_y = ground (arith, d.b_y, h.at_y);
    at_b = λ z. ground (arith, e);
    at_up = λ z. ground (arith, d.up_b some_b, h.at_up z);
    others = λ q qx qy qb qu. ground (arith, h.others q qx qy qb qu);
  }

  Has-up :
      (s : RbTree) (nx ny nb nu m n : Node)
      → m ≡ n
      → Has t s x y b up nx ny nb nu
      → Has t (written s up m) x y b up nx ny nb n
  Has-up s nx ny nb nu m n e h = record {
    at_x = ground (arith, d.up_x, h.at_x);
    at_y = ground (arith, d.up_y, h.at_y);
    at_b = λ z. ground (arith, d.up_b z, h.at_b z);
    at_up = λ z. ground (arith, e);
    others = λ q qx qy qb qu. ground (arith, h.others q qx qy qb qu);
  }

  Has-adopt :
      (s : RbTree) (nx ny nb nu : Node)
      → Has t s x y b up nx ny nb nu
      → Has t (adopt s b x) x y b up nx ny (record nb { parent = x }) nu
  unfolding adopt
  Has-adopt s nx ny nb nu h = elim (Bool-cases (b == 0)) [
    | inl without ↦ rw without (record {
      at_x = h.at_x;
      at_y = h.at_y;
      at_b = λ z. absurd (ground arith);
      at_up = h.at_up;
      others = h.others;
    })
    | inr present ↦
        let some_b : b ≢ 0 = ground arith in
        rw present (
          Has-b s nx ny nb nu _ _
            (ap {A = Node} {B = Node} (λ n. record n { parent = x }) (h.at_b some_b)) some_b h)
  ]

  Has-replace_left :
      (s : RbTree) (nx ny nb nu : Node)
      → nx.parent ≡ up
      → Has t s x y b up nx ny nb nu
      → Has t
          (replace_left s x y)
          x
          y
          b
          up
          nx
          ny
          nb
          (if x == nu.left then record nu { left = y } else record nu { right = y })
  unfolding replace_left
  Has-replace_left s nx ny nb nu e h =
      let parent : (s.nodes x).parent ≡ up = ap (λ n. n.parent) (h.at_x) ∙ e in
      elim (Bool-cases (up == 0)) [
        | inl without ↦
            rw (parent, without)
              (record {
                at_x = h.at_x;
                at_y = h.at_y;
                at_b = h.at_b;
                at_up = λ z. absurd (ground arith);
                others = h.others;
              })
        | inr present ↦
            let u = h.at_up (ground arith) in
            rw (parent, present, u)
              (elim (Bool-cases (x == nu.left)) [
                | inl left ↦ rw left (Has-up s nx ny nb nu _ _ refl h)
                | inr right ↦ rw right (Has-up s nx ny nb nu _ _ refl h)
              ])
      ]

  pub rb_lrotate-Has :
      x ≢ 0
      → y ≢ 0
      → (t.nodes x).right ≡ y
      → (t.nodes y).left ≡ b
      → (t.nodes x).parent ≡ up
      → Returns
          (λ s.
            Has t s x y b up
              (record (t.nodes x) { right = b; parent = y })
              (record (t.nodes y) { left = x; parent = up })
              (record (t.nodes b) { parent = x })
              (if x == (t.nodes up).left
                then record (t.nodes up) { left = y }
                else record (t.nodes up) { right = y }))
          (rb_lrotate t x)
  unfolding rb_lrotate node
  rb_lrotate-Has nx ny r l u =
      let a : (x == 0) ≡ false = ground arith in
      let c : (y == 0) ≡ false = ground arith in
      let h0 : Has t t x y b up (t.nodes x) (t.nodes y) (t.nodes b) (t.nodes up) = record {
        at_x = refl;
        at_y = refl;
        at_b = λ z. refl;
        at_up = λ z. refl;
        others = λ q qx qy qb qu. refl;
      } in
      let h1 = Has-x t _ _ _ _ _ _ refl h0 in
      let s1 = set_right t x b in
      let h2 = Has-adopt s1 _ _ _ _ h1 in
      let s2 = adopt s1 b x in
      let parent : (s2.nodes x).parent ≡ up = ap (λ n. n.parent) (h2.at_x) ∙ u in
      let h3 =
        Has-y s2 _ _ _ _ _ (record (t.nodes y) { parent = up })
          (ap {A = Node} {B = Node} (λ n. record n { parent = (s2.nodes x).parent }) (h2.at_y)
            ∙ ap {A = ℕ} {B = Node} (λ v. record (t.nodes y) { parent = v }) parent)
          h2 in
      let s3 = set_parent s2 y (s2.nodes x).parent in
      let h4 = Has-replace_left s3 _ _ _ _ u h3 in
      let s4 = replace_left s3 x y in
      let h5 =
        Has-y s4 _ _ _ _ _ _ (ap {A = Node} {B = Node} (λ n. record n { left = x }) (h4.at_y)) h4 in
      let s5 = set_left s4 y x in
      let h6 =
        Has-x s5 _ _ _ _ _ _ (ap {A = Node} {B = Node} (λ n. record n { parent = y }) (h5.at_x))
          h5 in
      rw (a, r, c, l) h6
