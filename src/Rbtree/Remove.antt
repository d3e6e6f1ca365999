-- ===== src/Rbtree/Remove.antt =====
-- `rb_fixdel` and `rb_remove` of kernel/rbtree.c.
use sync_kernel.Prelude.{
  ℕ, zero, suc, Bool, ◌&&◌, ◌||◌, not, Option, none, some, ◌==◌, if◌then◌else◌, ◌>>=◌,
}
use sync_kernel.Rbtree.{
  red, black, is_red, RbTree, node, set_left, set_right, set_parent, set_color, Slot, at_root,
  at_left, at_right, write_slot, rb_chk_black, rb_lrotate, rb_rrotate, rotate, adopt,
}

-- What a round of `rb_fixdel` works on beside `x`.
pub record Sides : Type 0 where
  pub tree : RbTree
  pub sibling : ℕ
  pub inner : ℕ
  pub outer : ℕ

-- The sibling of `x` and its children, as a round first reads them.
unfoldable pub fixdel_sides : Bool → RbTree → ℕ → Option Sides
unfolding node
fixdel_sides lrotate t p = do
  up ← node t p
  let sibling = if lrotate then up.right else up.left
  n ← node t sibling
  some (record {
    tree = t;
    sibling = sibling;
    inner = if lrotate then n.right else n.left;
    outer = if lrotate then n.left else n.right;
  })

-- `if (x_sibling && x_sibling->color == RB_RED)`
unfoldable pub fixdel_red : Bool → ℕ → Sides → Option Sides
unfolding node rb_lrotate rb_rrotate
fixdel_red lrotate x s =
    let p = (s.tree.nodes x).parent in
    let turned = (do
      t ← rotate lrotate (set_color (set_color s.tree s.sibling black) p red) p
      up ← node t (t.nodes x).parent
      some (record {
        tree = t;
        sibling = if lrotate then up.right else up.left;
        inner = if lrotate then up.right else up.left;
        outer = if lrotate then up.left else up.right;
      })) in
    if is_red (s.tree.nodes s.sibling).color then turned else some s

-- `if (rb_chk_black(sibling_outer))`
unfoldable pub fixdel_outer : Bool → ℕ → Sides → Option Sides
unfolding node rb_lrotate rb_rrotate rb_chk_black
fixdel_outer lrotate x s =
    let turned = (do
      t ← rotate (not lrotate) s.tree s.sibling
      up ← node t (t.nodes x).parent
      let sibling = if lrotate then up.right else up.left
      n ← node t sibling
      some (record s {
        tree = t;
        sibling = sibling;
        outer = if lrotate then n.left else n.right;
      })) in
    if rb_chk_black s.tree s.outer then turned else some s

-- The end of a round: the tree and the next `x`.
unfoldable pub fixdel_end : Bool → ℕ → Sides → Option (RbTree × ℕ)
unfolding node fixdel_outer rb_lrotate rb_rrotate rb_chk_black
fixdel_end lrotate x s =
    let up = (do
      sibling ← node s.tree s.sibling
      some (set_color s.tree s.sibling red, (s.tree.nodes x).parent)) in
    let across = (do
      s' ← fixdel_outer lrotate x s
      let p = (s'.tree.nodes x).parent
      sibling ← node s'.tree s'.sibling
      above ← node s'.tree p
      let parted = set_color (set_color s'.tree s'.sibling above.color) p black
      let colored = if s'.outer == 0 then parted else set_color parted s'.outer black
      t ← rotate lrotate colored p
      some (t, t.root)) in
    if rb_chk_black s.tree s.inner && rb_chk_black s.tree s.outer then up else across

unfoldable pub fixdel_round : RbTree → ℕ → Option (RbTree × ℕ)
fixdel_round t x = do
  n ← node t x
  up ← node t n.parent
  let lrotate = up.left == x
  s ← fixdel_sides lrotate t n.parent
  s' ← fixdel_red lrotate x s
  fixdel_end lrotate x s'

unfoldable pub fixdel_loop : ℕ → RbTree → ℕ → Option (RbTree × ℕ)
fixdel_loop zero t x = none
fixdel_loop (suc k) t x =
    let more = (do (t', x') ← fixdel_round t x; fixdel_loop k t' x') in
    let test = (do n ← node t x; if is_red n.color then some (t, x) else more) in
    if x == t.root then some (t, x) else test

unfoldable pub rb_fixdel : ℕ → RbTree → ℕ → Option RbTree
rb_fixdel fuel t x = do
  (t', x') ← fixdel_loop fuel t x
  some (if x' == 0 then t' else set_color t' x' black)

-- `while (x->left) x = x->left`
unfoldable pub leftmost : ℕ → RbTree → ℕ → Option ℕ
leftmost zero t x = none
leftmost (suc k) t x =
    let rest = leftmost k t (t.nodes x).left in if (t.nodes x).left == 0 then some x else rest

-- The place that points to the node.
unfoldable pub slot_of : RbTree → ℕ → Option Slot
unfolding node
slot_of t x =
    let p = (t.nodes x).parent in
    let child = (do up ← node t p; some (if x == up.left then at_left p else at_right p)) in
    if x == t.root then some at_root else child

-- The node takes the place of the removed one `x`, and its children.
unfoldable pub take_place : RbTree → Slot → ℕ → ℕ → RbTree
take_place t place x y =
    let linked = write_slot t place y in
    let left = set_left linked y (linked.nodes x).left in
    let left' = adopt left (left.nodes y).left y in
    let right = set_right left' y (left'.nodes x).right in
    let right' = adopt right (right.nodes y).right y in
    let colored = set_color right' y (right'.nodes x).color in
    set_parent colored y (colored.nodes x).parent

-- The second call, for the successor, is one round of the fuel. The code returns the node itself.
unfoldable pub rb_remove : ℕ → RbTree → ℕ → Option RbTree
rb_remove zero t x = none
rb_remove (suc k) t x =
    let n = t.nodes x in
    let removed = (do
      place ← slot_of t x
      let cleared = write_slot t place 0
      let no_child = if is_red n.color then some cleared else rb_fixdel (suc k) cleared x
      let child = if n.left == 0 then n.right else n.left
      let raised = set_parent (write_slot t place child) child (n.parent)
      let one_child = some (set_color raised child black)
      let two_children = (do
        y ← leftmost (suc k) t n.right
        t' ← rb_remove k t y
        some (take_place t' place x y))
      if (n.left == 0) && (n.right == 0)
          then no_child
          else if (n.left == 0) || (n.right == 0)
          then one_child
          else two_children) in
    if x == 0 then some t else removed
