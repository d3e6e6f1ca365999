-- ===== src/Rbtree/Order.antt =====
-- The tree that the nodes stand for after `rb_lrotate` of kernel/rbtree.c.
use sync_kernel.Prelude.{
  ℕ, ◌≡◌, refl, sym, ap, ◌∙◌, ◌≢◌, inl, inr, List, [], ◌∷◌, ◌++◌, ◌==◌, Returns, Returns-map,
  if◌then◌else◌,
}
use mathlib.Core.Path.{subst}
use sync_kernel.Rbtree.{Node, RbTree, rb_lrotate}
use sync_kernel.Rbtree.Shape.{
  Tree, leaf, fork, top, In, IsTree, Separate, flatten, IsTree-top, IsTree-same, IsTree-reparent,
}
use sync_kernel.Rbtree.Rotation.{IsApart, rb_lrotate-Has}

top-In : (t : Tree) → top t ≢ 0 → In (top t) t
unfolding top In
top-In leaf h = absurd (h refl)
top-In (fork l x r) h = inl refl

-- Nodes are not null.
In-nonzero : (nodes : ℕ → Node) (p up q : ℕ) (t : Tree) → IsTree nodes p up t → In q t → q ≢ 0
unfolding In IsTree
In-nonzero nodes p up q leaf w h = absurd h
In-nonzero nodes p up q (fork l x r) (at, n, e, a, b) (inl same) = λ z. n (sym same ∙ z)
In-nonzero nodes p up q (fork l x r) (at, n, e, a, b) (inr (inl h)) = In-nonzero nodes _ x q l a h
In-nonzero nodes p up q (fork l x r) (at, n, e, a, b) (inr (inr h)) = In-nonzero nodes _ x q r b h

-- A node that is in no tree of a list is not the top of any.
not-top : (q : ℕ) (t : Tree) → q ≢ 0 → ¬ In q t → q ≢ top t
not-top q t n out e = out (subst (λ k. In k t) (sym e) (top-In t (λ z. n (e ∙ z))))

append_between : (xs ys zs : List ℕ) (x y : ℕ) → (xs ++ x ∷ ys) ++ y ∷ zs ≡ xs ++ x ∷ (ys ++ y ∷ zs)
append_between [] ys zs x y = refl
append_between (w ∷ xs) ys zs x y = ap (λ l. w ∷ l) (append_between xs ys zs x y)

flatten-turned :
    (a b c : Tree) (x y : ℕ) → flatten (fork (fork a x b) y c) ≡ flatten (fork a x (fork b y c))
unfolding flatten
flatten-turned a b c x y = append_between (flatten a) (flatten b) (flatten c) x y

-- Where the nodes from `x` down stand for a tree whose right part has the top `y`, with no node twice
-- and the parent outside, `rb_lrotate` returns: the nodes from `y` down then stand for the tree
-- turned to the left, which has the same nodes in the same order; the link of the parent that led to
-- `x` leads to `y`, no node outside changes but the parent, and both turned nodes keep their colour.
pub rb_lrotate-IsTree :
    (t : RbTree) (x y up : ℕ) (a b c : Tree)
    → IsTree t.nodes x up (fork a x (fork b y c))
    → Separate (fork a x (fork b y c))
    → ¬ In up (fork a x (fork b y c))
    → Returns
        (λ s.
          IsTree s.nodes y up (fork (fork a x b) y c)
          × (flatten (fork (fork a x b) y c) ≡ flatten (fork a x (fork b y c)))
          × ((q : ℕ) → q ≢ 0 → q ≢ up → ¬ In q (fork a x (fork b y c)) → s.nodes q ≡ t.nodes q)
          × (up ≢ 0
              → s.nodes up ≡ (
                  if x == (t.nodes up).left
                  then record (t.nodes up) { left = y }
                  else record (t.nodes up) { right = y }))
          × ((s.nodes x).color ≡ (t.nodes x).color)
          × ((s.nodes y).color ≡ (t.nodes y).color))
        (rb_lrotate t x)
unfolding IsTree Separate In
rb_lrotate-IsTree t x y up a b c (_, nx, px, wa, (ry, ny, py, wb, wc))
      (xa, xr, axr, sa, (yb, yc, bc, sb, sc)) out =
    let b0 = top b in
    let lb : (t.nodes y).left ≡ b0 = IsTree-top t.nodes _ y b wb in
    let x_y : x ≢ y = λ e. xr (inl e) in
    let b_x : b0 ≢ x = λ e. not-top x b nx (λ h. xr (inr (inl h))) (sym e) in
    let b_y : b0 ≢ y = λ e. not-top y b ny yb (sym e) in
    let d : IsApart x y b0 up = record {
      x_y = x_y;
      b_x = b_x;
      b_y = b_y;
      up_x = λ e. out (inl e);
      up_y = λ e. out (inr (inr (inl e)));
      up_b = λ n e. out (inr (inr (inr (inl (subst (λ k. In k b) (sym e) (top-In b n))))));
    } in
    Returns-map _ _ (rb_lrotate t x) (rb_lrotate-Has t x y b0 up d nx ny ry lb px) λ s h.
      let same_a : (q : ℕ) → In q a → s.nodes q ≡ t.nodes q = λ q i.
        h.others q (λ e. xa (subst (λ k. In k a) e i)) (λ e. axr q i (inl e))
          (not-top q b (In-nonzero t.nodes _ x q a wa i) (λ j. axr q i (inr (inl j))))
          (λ e. out (inr (inl (subst (λ k. In k a) e i)))) in
      let same_b : (q : ℕ) → In q b → q ≢ b0 → s.nodes q ≡ t.nodes q = λ q i n.
        h.others q (λ e. xr (inr (inl (subst (λ k. In k b) e i))))
          (λ e. yb (subst (λ k. In k b) e i)) n
          (λ e. out (inr (inr (inr (inl (subst (λ k. In k b) e i)))))) in
      let same_c : (q : ℕ) → In q c → s.nodes q ≡ t.nodes q = λ q i.
        h.others q (λ e. xr (inr (inr (subst (λ k. In k c) e i))))
          (λ e. yc (subst (λ k. In k c) e i))
          (not-top q b (In-nonzero t.nodes _ y q c wc i) (λ j. bc q j i))
          (λ e. out (inr (inr (inr (inr (subst (λ k. In k c) e i)))))) in
      let a' = IsTree-same t.nodes s.nodes _ x a same_a wa in
      let at_b = subst (λ k. IsTree t.nodes k y b) lb wb in
      let b' = IsTree-reparent t.nodes s.nodes b0 y x b sb same_b h.at_b at_b in
      let c' = IsTree-same t.nodes s.nodes _ y c same_c wc in
      (
        (
          refl,
          ny,
          ap (λ n. n.parent) (h.at_y),
          (
            ap (λ n. n.left) (h.at_y),
            nx,
            ap (λ n. n.parent) (h.at_x),
            rw (h.at_x) a',
            rw (h.at_x) b',
          ),
          rw (h.at_y) c',
        ),
        flatten-turned a b c x y,
        λ q n0 n i.
            h.others q (λ e. i (inl e)) (λ e. i (inr (inr (inl e))))
              (not-top q b n0 (λ j. i (inr (inr (inr (inl j)))))) n,
        h.at_up,
        ap (λ n. n.color) (h.at_x),
        ap (λ n. n.color) (h.at_y),
      )
