-- ===== src/Rbtree/Shape.antt =====
-- The trees that nodes in memory stand for, and the first and last node of one.
use sync_kernel.Prelude.{
  ℕ, zero, suc, ◌+◌, ◌<◌, ◌≡◌, refl, ap, ◌∙◌, ◌≢◌, ◌⊎◌, inl, inr, false, some, List, [], ◌∷◌, ◌++◌,
  arith, ◌==◌,
}
use mathlib.Core.Path.{subst}
use sync_kernel.Rbtree.{Node, RbTree}
use sync_kernel.Rbtree.Remove.{leftmost}
use sync_kernel.Rbtree.Walk.{rb_first}

pub data Tree : Type 0 where
  leaf : Tree
  fork : Tree → ℕ → Tree → Tree

unfoldable pub top : Tree → ℕ
top leaf = 0
top (fork l x r) = x

-- The nodes in order.
unfoldable pub flatten : Tree → List ℕ
flatten leaf = []
flatten (fork l x r) = flatten l ++ x ∷ flatten r

unfoldable pub size : Tree → ℕ
size leaf = 0
size (fork l x r) = suc (size l + size r)

-- The node `x` is in the tree.
unfoldable pub In : ℕ → Tree → Type 0
In q leaf = ⊥
In q (fork l x r) = (q ≡ x) ⊎ (In q l ⊎ In q r)

-- The nodes from `p` down, whose parent is `up`, stand for the tree.
unfoldable pub IsTree : (ℕ → Node) → ℕ → ℕ → Tree → Type 0
IsTree nodes p up leaf = p ≡ 0
IsTree nodes p up (fork l x r) =
    (p ≡ x)
    × (x ≢ 0)
    × ((nodes x).parent ≡ up)
    × IsTree nodes (nodes x).left x l
    × IsTree nodes (nodes x).right x r

-- No node is in a tree twice.
unfoldable pub Separate : Tree → Type 0
Separate leaf = record {}
Separate (fork l x r) =
    ¬ In x l × ¬ In x r × ((q : ℕ) → In q l → ¬ In q r) × Separate l × Separate r

-- The first of a list, or `d` where it is empty, and the last.
unfoldable pub head_or : ℕ → List ℕ → ℕ
head_or d [] = d
head_or d (x ∷ xs) = x

unfoldable pub last_or : ℕ → List ℕ → ℕ
last_or d [] = d
last_or d (x ∷ xs) = last_or x xs

pub head_or-append : (d y : ℕ) (xs ys : List ℕ) → head_or d (xs ++ y ∷ ys) ≡ head_or y xs
unfolding head_or
head_or-append d y [] ys = refl
head_or-append d y (x ∷ xs) ys = refl

pub last_or-append : (d y : ℕ) (xs ys : List ℕ) → last_or d (xs ++ y ∷ ys) ≡ last_or y ys
unfolding last_or
last_or-append d y [] ys = refl
last_or-append d y (x ∷ xs) ys = last_or-append x y xs ys

pub IsTree-top : (nodes : ℕ → Node) (p up : ℕ) (t : Tree) → IsTree nodes p up t → p ≡ top t
unfolding IsTree top
IsTree-top nodes p up leaf e = e
IsTree-top nodes p up (fork l x r) w = w.0

pub IsTree-same :
    (nodes nodes' : ℕ → Node) (p up : ℕ) (t : Tree)
    → ((q : ℕ) → In q t → nodes' q ≡ nodes q)
    → IsTree nodes p up t
    → IsTree nodes' p up t
unfolding IsTree In
IsTree-same nodes nodes' p up leaf same e = e
IsTree-same nodes nodes' p up (fork l x r) same (at, n, e, a, b) =
    let here = same x (inl refl) in
    let a' = IsTree-same nodes nodes' _ x l (λ q h. same q (inr (inl h))) a in
    let b' = IsTree-same nodes nodes' _ x r (λ q h. same q (inr (inr h))) b in
    (at, n, rw here e, rw here a', rw here b')

-- The tree hangs from another parent once its top node says so.
pub IsTree-reparent :
    (nodes nodes' : ℕ → Node) (p up up' : ℕ) (t : Tree)
    → Separate t
    → ((q : ℕ) → In q t → q ≢ p → nodes' q ≡ nodes q)
    → (p ≢ 0 → nodes' p ≡ record (nodes p) { parent = up' })
    → IsTree nodes p up t
    → IsTree nodes' p up' t
unfolding IsTree In Separate
IsTree-reparent nodes nodes' p up up' leaf s same moved e = e
IsTree-reparent nodes nodes' p up up' (fork l x r) s same moved (at, n, e, a, b) =
    let moved_at = subst (λ k. k ≢ 0 → nodes' k ≡ record (nodes k) { parent = up' }) at moved in
    let here = moved_at n in
    let same_left : (q : ℕ) → In q l → nodes' q ≡ nodes q =
      λ q h. same q (inr (inl h)) (λ w. s.0 (subst (λ k. In k l) (w ∙ at) h)) in
    let same_right : (q : ℕ) → In q r → nodes' q ≡ nodes q =
      λ q h. same q (inr (inr h)) (λ w. s.1 (subst (λ k. In k r) (w ∙ at) h)) in
    let a' = IsTree-same nodes nodes' _ x l same_left a in
    let b' = IsTree-same nodes nodes' _ x r same_right b in
    (at, n, ap (λ k. k.parent) here, rw here a', rw here b')

pub leftmost-flatten :
    (fuel : ℕ) (t : RbTree) (x up : ℕ) (l r : Tree)
    → size l < fuel
    → IsTree t.nodes x up (fork l x r)
    → leftmost fuel t x ≡ some (head_or x (flatten l))
unfolding leftmost IsTree size flatten head_or
leftmost-flatten zero t x up l r h w = absurd (omega arith)
leftmost-flatten (suc k) t x up leaf r h (at, n, e, z, b) = simp z
leftmost-flatten (suc k) t x up (fork ll lx lr) r h (at, n, e, a, b) =
    let rest = leftmost-flatten k t lx x ll lr (omega arith) (refl, a.1, a.2, a.3, a.4) in
    let some_left : (lx == 0) ≡ false = ground (arith, a.1) in
    let first = head_or-append x lx (flatten ll) (flatten lr) in simp (a.0, some_left, rest, first)

-- `rb_first` of nodes that stand for a tree is the first node in order, or null for the empty tree;
-- more rounds than the tree has nodes are enough.
pub rb_first-flatten :
    (fuel : ℕ) (t : RbTree) (tr : Tree)
    → size tr < fuel
    → IsTree t.nodes t.root 0 tr
    → rb_first fuel t ≡ some (head_or 0 (flatten tr))
unfolding rb_first IsTree flatten head_or size
rb_first-flatten fuel t leaf h z = simp z
rb_first-flatten fuel t (fork l x r) h (at, n, e, a, b) =
    let found = leftmost-flatten fuel t x 0 l r (omega arith) (refl, n, e, a, b) in
    let some_root : (x == 0) ≡ false = ground (arith, n) in
    simp (at, some_root, found, head_or-append 0 x (flatten l) (flatten r))
