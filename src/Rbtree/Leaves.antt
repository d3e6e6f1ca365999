-- ===== src/Rbtree/Leaves.antt =====
-- How `rb_remove` of kernel/rbtree.c meets a black node without children.
use sync_kernel.Prelude.{
  ℕ, zero, suc, ◌≡◌, refl, ap, ◌∙◌, ◌≢◌, ◌⊎◌, inl, inr, true, false, none, arith, ◌==◌,
}
use sync_kernel.Rbtree.{black, is_red, Node, RbTree, node, set_left}
use sync_kernel.Rbtree.Remove.{
  fixdel_sides, fixdel_round, fixdel_loop, rb_fixdel, slot_of, rb_remove,
}

-- A black node without children, below `p`.
abbrev pub black_leaf : ℕ → Node
black_leaf p = record { left = 0; right = 0; parent = p; color = black }

rb_fixdel-none :
    (k : ℕ) (t : RbTree) (x : ℕ)
    → x ≢ 0
    → x ≢ t.root
    → is_red (t.nodes x).color ≡ false
    → fixdel_round t x ≡ none
    → rb_fixdel k t x ≡ none
unfolding rb_fixdel fixdel_loop node
rb_fixdel-none zero t x n r c f = refl
rb_fixdel-none (suc k) t x n r c f =
    let a : (x == 0) ≡ false = ground arith in
    let b : (x == t.root) ≡ false = ground arith in simp (a, b, c, f)

-- The round reads the sibling through the parent's right link once the left one is cleared.
fixdel_round-root : (t : RbTree) (x : ℕ) → x ≢ 0 → (t.nodes x).parent ≡ 0 → fixdel_round t x ≡ none
unfolding fixdel_round node
fixdel_round-root t x n e = let a : (x == 0) ≡ false = ground arith in simp (a, e)

fixdel_round-left :
    (t : RbTree) (x p : ℕ)
    → x ≢ 0
    → p ≢ 0
    → (t.nodes x).parent ≡ p
    → (t.nodes p).left ≡ 0
    → fixdel_round t x ≡ none
unfolding fixdel_round fixdel_sides node
fixdel_round-left t x p n np e l =
    let a : (x == 0) ≡ false = ground arith in
    let b : (p == 0) ≡ false = ground arith in
    let c : (0 == x) ≡ false = ground arith in simp (a, e, b, l, c)

-- `rb_remove` does not return for a black node without children that is the root or a left child,
-- whatever the number of rounds: the rounds of `rb_fixdel` read through null.
pub rb_remove_stuck :
    (k : ℕ) (t : RbTree) (x p : ℕ)
    → x ≢ 0
    → t.nodes x ≡ black_leaf p
    → ((x ≡ t.root) × (p ≡ 0)) ⊎ ((x ≢ t.root) × (p ≢ 0) × (p ≢ x) × ((t.nodes p).left ≡ x))
    → rb_remove k t x ≡ none
unfolding rb_remove slot_of node
rb_remove_stuck zero t x p n e place = refl
rb_remove_stuck (suc k) t x p n e (inl (r, z)) =
    let a : (x == 0) ≡ false = ground arith in
    let b : (x == t.root) ≡ true = ground arith in
    let cleared : RbTree = record t { root = 0 } in
    let round = fixdel_round-root cleared x n (ap (λ m. m.parent) e ∙ z) in
    let stop = rb_fixdel-none (suc k) cleared x n n (ap (λ m. is_red m.color) e) round in
    simp (a, b, e, stop)
rb_remove_stuck (suc k) t x p n e (inr (r, np, px, l)) =
    let a : (x == 0) ≡ false = ground arith in
    let b : (x == t.root) ≡ false = ground arith in
    let c : (p == 0) ≡ false = ground arith in
    let d : (x == x) ≡ true = ground arith in
    let cleared = set_left t p 0 in
    let same : cleared.nodes x ≡ black_leaf p = ground (arith, e) in
    let left : (cleared.nodes p).left ≡ 0 = ground arith in
    let round = fixdel_round-left cleared x p n np (ap (λ m. m.parent) same) left in
    let stop = rb_fixdel-none (suc k) cleared x n r (ap (λ m. is_red m.color) same) round in
    simp (a, b, e, c, l, d, stop)
