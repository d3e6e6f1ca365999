-- ===== src/Rbtree.antt =====
-- kernel/rbtree.c and rbtree.h: red-black trees over a store of nodes by address; the address 0 is
-- null. `none` is a read through null, or a loop that has not ended after the rounds that are given.
pub mod Remove
pub mod Rotation
pub mod Order
pub mod Leaves
pub mod Shape
pub mod Walk
pub mod Next
pub mod Last
mod Tests
use sync_kernel.Prelude.{
  ◌>>=◌, ℕ, zero, suc, Bool, true, false, ◌&&◌, ◌||◌, not, Option, none, some, ◌==◌, if◌then◌else◌,
  update,
}

-- `rb_color`
pub data RbColor : Type 0 where
  red : RbColor
  black : RbColor

abbrev pub is_red : RbColor → Bool
is_red red = true
is_red black = false

-- `struct rb_node`
pub record Node : Type 0 where
  pub left : ℕ
  pub right : ℕ
  pub parent : ℕ
  pub color : RbColor

-- `struct rb_tree` with the nodes
pub record RbTree : Type 0 where
  pub root : ℕ
  pub nodes : ℕ → Node

-- `*p`
unfoldable pub node : RbTree → ℕ → Option Node
node t p = if p == 0 then none else some (t.nodes p)

abbrev pub set_left : RbTree → ℕ → ℕ → RbTree
set_left t p v = record t { nodes = update t.nodes p (record (t.nodes p) { left = v }) }

abbrev pub set_right : RbTree → ℕ → ℕ → RbTree
set_right t p v = record t { nodes = update t.nodes p (record (t.nodes p) { right = v }) }

abbrev pub set_parent : RbTree → ℕ → ℕ → RbTree
set_parent t p v = record t { nodes = update t.nodes p (record (t.nodes p) { parent = v }) }

abbrev pub set_color : RbTree → ℕ → RbColor → RbTree
set_color t p c = record t { nodes = update t.nodes p (record (t.nodes p) { color = c }) }

-- A place that holds a pointer to a node: a `struct rb_node **`.
pub data Slot : Type 0 where
  at_root : Slot
  at_left : ℕ → Slot
  at_right : ℕ → Slot

abbrev pub write_slot : RbTree → Slot → ℕ → RbTree
write_slot t at_root v = record t { root = v }
write_slot t (at_left p) v = set_left t p v
write_slot t (at_right p) v = set_right t p v

unfoldable pub rb_chk_black : RbTree → ℕ → Bool
rb_chk_black t x = (x == 0) || not (is_red (t.nodes x).color)

unfoldable pub rb_chk_red : RbTree → ℕ → Bool
rb_chk_red t x = not (x == 0) && is_red (t.nodes x).color

unfoldable pub rb_getroot : ℕ → RbTree → ℕ → Option ℕ
rb_getroot zero t p = none
rb_getroot (suc n) t p =
    let rest = rb_getroot n t (t.nodes p).parent in
    if (p == 0) || ((t.nodes p).parent == 0) then some p else rest

-- The parent of a child, if there is one.
unfoldable pub adopt : RbTree → ℕ → ℕ → RbTree
adopt t child p = if child == 0 then t else set_parent t child p

-- The link to `x` from its parent, or the root, becomes one to `y`: the left link in the first of
-- these if `x` is the left child, and the right link in the second if `x` is the right child.
unfoldable pub replace_left : RbTree → ℕ → ℕ → RbTree
replace_left t x y =
    let p = (t.nodes x).parent in
    if p == 0
    then record t { root = y }
    else if x == (t.nodes p).left
    then set_left t p y
    else set_right t p y

unfoldable pub replace_right : RbTree → ℕ → ℕ → RbTree
replace_right t x y =
    let p = (t.nodes x).parent in
    if p == 0
    then record t { root = y }
    else if x == (t.nodes p).right
    then set_right t p y
    else set_left t p y

unfoldable pub rb_lrotate : RbTree → ℕ → Option RbTree
unfolding node
rb_lrotate t x = do
  n ← node t x
  let y = n.right
  below ← node t y
  let moved = set_right t x below.left
  let adopted = adopt moved below.left x
  let raised = set_parent adopted y (adopted.nodes x).parent
  let linked = set_left (replace_left raised x y) y x
  some (set_parent linked x y)

unfoldable pub rb_rrotate : RbTree → ℕ → Option RbTree
unfolding node
rb_rrotate t x = do
  n ← node t x
  let y = n.left
  below ← node t y
  let moved = set_left t x below.right
  let adopted = adopt moved below.right x
  let raised = set_parent adopted y (adopted.nodes x).parent
  let linked = set_right (replace_right raised x y) y x
  some (set_parent linked x y)

-- A rotation to the left if the test holds, else to the right.
abbrev pub rotate : Bool → RbTree → ℕ → Option RbTree
rotate left t x = if left then rb_lrotate t x else rb_rrotate t x

abbrev pub blacken : RbTree → ℕ → Option RbTree
blacken t x = do n ← node t x; some (set_color t x black)

-- The end of a round of `rb_fixins` where the uncle is black: at most two rotations.
unfoldable pub fixins_rotate : Bool → RbTree → ℕ → Option (RbTree × ℕ)
unfolding node rb_lrotate rb_rrotate
fixins_rotate unc_right t x = do
  n ← node t x
  up ← node t n.parent
  let inner = if unc_right then up.right else up.left
  let turned = (do t' ← rotate unc_right t n.parent; some (t', n.parent))
  (t', x') ← if x == inner then turned else some (t, x)
  n' ← node t' x'
  up' ← node t' n'.parent
  top ← node t' up'.parent
  let colored = set_color (set_color t' n'.parent black) up'.parent red
  t'' ← rotate (not unc_right) colored up'.parent
  some (t'', x')

unfoldable pub fixins_loop : ℕ → RbTree → ℕ → Option RbTree
unfolding node fixins_rotate
fixins_loop zero t x = none
fixins_loop (suc k) t x =
    let round = (do
      n ← node t x
      up ← node t n.parent
      let next = (do
        top ← node t up.parent
        let unc_right = n.parent == top.left
        let big_unc = if unc_right then top.right else top.left
        let colored = set_color (set_color (set_color t n.parent black) big_unc black) up.parent red
        let recolored = fixins_loop k colored up.parent
        let rotated = (do (t', x') ← fixins_rotate unc_right t x; fixins_loop k t' x')
        if not (big_unc == 0) && is_red (t.nodes big_unc).color then recolored else rotated)
      if is_red up.color then next else some t) in
    if x == t.root then some t else round

unfoldable pub rb_fixins : ℕ → RbTree → ℕ → Option RbTree
unfolding fixins_loop node
rb_fixins fuel t x = do t' ← fixins_loop fuel t x; blacken t' t'.root

-- The node is linked at `link`, as a child of `parent`.
unfoldable pub rb_insert : ℕ → RbTree → ℕ → ℕ → Slot → Option RbTree
unfolding rb_fixins
rb_insert fuel t x parent link =
    let fresh : Node = record { left = 0; right = 0; parent = parent; color = red } in
    let placed = record t { nodes = update t.nodes x fresh } in
    let inserted = rb_fixins fuel (write_slot placed link x) x in
    if x == 0 then some t else inserted

unfoldable pub rb_inittree : (ℕ → Node) → RbTree
rb_inittree nodes = record { root = 0; nodes = nodes }
