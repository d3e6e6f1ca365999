-- ===== src/Rbtree/Tests.antt =====
-- Runs of kernel/rbtree.c on three nodes.
use sync_kernel.Prelude.{
  ℕ, ◌<◌, ◌≡◌, refl, ◌≢◌, inl, none, some, arith, ◌==◌, [], ◌∷◌, ◌++◌, Returns, if◌then◌else◌,
}
use sync_kernel.Rbtree.{red, black, RbTree, rb_lrotate}
use sync_kernel.Rbtree.Remove.{rb_remove}
use sync_kernel.Rbtree.Leaves.{black_leaf, rb_remove_stuck}
use sync_kernel.Rbtree.Shape.{Tree, leaf, fork, size, In, IsTree, Separate, flatten, head_or}
use sync_kernel.Rbtree.Walk.{rb_next}
use sync_kernel.Rbtree.Next.{rb_next-flatten}
use sync_kernel.Rbtree.Order.{rb_lrotate-IsTree}

abbrev null : ℕ
null = 0

-- 1 at the top, 2 to its right, and 3 to the left of that
abbrev three : RbTree
three = record {
  root = 1;
  nodes = λ q.
      if q == 1
      then record { left = 0; right = 2; parent = 0; color = black }
      else if q == 2
      then record { left = 3; right = 0; parent = 1; color = red }
      else record { left = 0; right = 0; parent = 2; color = black };
}

abbrev shape : Tree
shape = fork leaf 1 (fork (fork leaf 3 leaf) 2 leaf)

three-IsTree : IsTree three.nodes 1 0 shape
unfolding IsTree
three-IsTree = (
  refl,
  omega arith,
  refl,
  refl,
  (refl, omega arith, refl, (refl, omega arith, refl, refl, refl), refl),
)

three-Separate : Separate shape
unfolding Separate In
three-Separate = (
  λ h. h,
  λ h. ground arith,
  λ q h. absurd h,
  record {},
  (
    λ h. ground arith,
    λ h. h,
    λ q h i. i,
    (λ h. h, λ h. h, λ q h. absurd h, record {}, record {}),
    record {},
  ),
)

null_outside : ¬ In 0 shape
unfolding In
null_outside h = ground arith

small_tree : size shape < 4
unfolding size
small_tree = omega arith

rb_lrotate-IsTree_example :
    Returns
      (λ s.
        IsTree s.nodes 2 0 (fork (fork leaf 1 (fork leaf 3 leaf)) 2 leaf)
        × (flatten (fork (fork leaf 1 (fork leaf 3 leaf)) 2 leaf) ≡ flatten shape)
        × ((q : ℕ) → q ≢ 0 → q ≢ 0 → ¬ In q shape → s.nodes q ≡ three.nodes q)
        × (null ≢ 0
            → s.nodes null ≡ (
                if 1 == (three.nodes null).left
                then record (three.nodes null) { left = 2 }
                else record (three.nodes null) { right = 2 }))
        × ((s.nodes 1).color ≡ (three.nodes 1).color)
        × ((s.nodes 2).color ≡ (three.nodes 2).color))
      (rb_lrotate three 1)
rb_lrotate-IsTree_example =
    rb_lrotate-IsTree three 1 2 0 leaf (fork leaf 3 leaf) leaf three-IsTree three-Separate
      null_outside

-- A tree of one node, as the first insertion leaves it.
abbrev one : RbTree
one = record { root = 1; nodes = λ q. black_leaf 0 }

rb_remove_stuck_example : rb_remove 9 one 1 ≡ none
rb_remove_stuck_example = rb_remove_stuck 9 one 1 0 (omega arith) refl (inl (refl, refl))

in_order : flatten shape ≡ [] ++ 1 ∷ (3 ∷ 2 ∷ [])
unfolding flatten
in_order = refl

-- The node 3 stands behind 1, below its right child.
rb_next-flatten_example : rb_next 4 three 1 ≡ some 3
unfolding head_or
rb_next-flatten_example =
    rb_next-flatten 4 three shape [] 1 (3 ∷ 2 ∷ []) small_tree three-IsTree three-Separate in_order
