-- ===== src/Rbtree/Walk.antt =====
-- The order of the nodes: `rb_first`, `rb_last`, `rb_next` and `rb_prev` of kernel/rbtree.c.
use sync_kernel.Prelude.{ℕ, zero, suc, ◌&&◌, not, Option, none, some, ◌==◌, if◌then◌else◌}
use sync_kernel.Rbtree.{RbTree}
use sync_kernel.Rbtree.Remove.{leftmost}

-- `while (x->right) x = x->right`
unfoldable pub rightmost : ℕ → RbTree → ℕ → Option ℕ
rightmost zero t x = none
rightmost (suc k) t x =
    let rest = rightmost k t (t.nodes x).right in if (t.nodes x).right == 0 then some x else rest

unfoldable pub rb_first : ℕ → RbTree → Option ℕ
unfolding leftmost
rb_first fuel t = if t.root == 0 then some 0 else leftmost fuel t t.root

unfoldable pub rb_last : ℕ → RbTree → Option ℕ
unfolding rightmost
rb_last fuel t = if t.root == 0 then some 0 else rightmost fuel t t.root

-- `while (parent && node == parent->right)`, and its mirror image
unfoldable pub up_right : ℕ → RbTree → ℕ → ℕ → Option ℕ
up_right zero t x p = none
up_right (suc k) t x p =
    let rest = up_right k t p (t.nodes p).parent in
    if not (p == 0) && (x == (t.nodes p).right) then rest else some p

unfoldable pub up_left : ℕ → RbTree → ℕ → ℕ → Option ℕ
up_left zero t x p = none
up_left (suc k) t x p =
    let rest = up_left k t p (t.nodes p).parent in
    if not (p == 0) && (x == (t.nodes p).left) then rest else some p

unfoldable pub rb_next : ℕ → RbTree → ℕ → Option ℕ
unfolding leftmost up_right
rb_next fuel t x =
    let n = t.nodes x in
    if x == 0
    then some 0
    else if not (n.right == 0)
    then leftmost fuel t n.right
    else up_right fuel t x n.parent

unfoldable pub rb_prev : ℕ → RbTree → ℕ → Option ℕ
unfolding rightmost up_left
rb_prev fuel t x =
    let n = t.nodes x in
    if x == 0
    then some 0
    else if not (n.left == 0)
    then rightmost fuel t n.left
    else up_left fuel t x n.parent
