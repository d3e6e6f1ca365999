-- ===== src/Rbtree/Last.antt =====
-- The last node of a tree, as `rb_last` of kernel/rbtree.c finds it.
use sync_kernel.Prelude.{ℕ, zero, suc, ◌<◌, ◌≡◌, refl, false, some, arith, ◌==◌}
use sync_kernel.Rbtree.{RbTree}
use sync_kernel.Rbtree.Walk.{rightmost, rb_last}
use sync_kernel.Rbtree.Shape.{Tree, leaf, fork, flatten, size, IsTree, last_or, last_or-append}

rightmost-flatten :
    (fuel : ℕ) (t : RbTree) (x up : ℕ) (l r : Tree)
    → size r < fuel
    → IsTree t.nodes x up (fork l x r)
    → rightmost fuel t x ≡ some (last_or x (flatten r))
unfolding rightmost IsTree size flatten last_or
rightmost-flatten zero t x up l r h w = absurd (omega arith)
rightmost-flatten (suc k) t x up l leaf h (at, n, e, a, z) = simp z
rightmost-flatten (suc k) t x up l (fork rl rx rr) h (at, n, e, a, b) =
    let rest = rightmost-flatten k t rx x rl rr (omega arith) (refl, b.1, b.2, b.3, b.4) in
    let some_right : (rx == 0) ≡ false = ground (arith, b.1) in
    simp (b.0, some_right, rest, last_or-append x rx (flatten rl) (flatten rr))

-- The last node in order, or null for the empty tree.
pub rb_last-flatten :
    (fuel : ℕ) (t : RbTree) (tr : Tree)
    → size tr < fuel
    → IsTree t.nodes t.root 0 tr
    → rb_last fuel t ≡ some (last_or 0 (flatten tr))
unfolding rb_last IsTree flatten size last_or
rb_last-flatten fuel t leaf h z = simp z
rb_last-flatten fuel t (fork l x r) h (at, n, e, a, b) =
    let found = rightmost-flatten fuel t x 0 l r (omega arith) (refl, n, e, a, b) in
    let some_root : (x == 0) ≡ false = ground (arith, n) in
    simp (at, some_root, found, last_or-append 0 x (flatten l) (flatten r))
