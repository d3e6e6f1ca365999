-- ===== src/Rbtree/Next.antt =====
-- The successor of a node in the order of its tree, as `rb_next` of kernel/rbtree.c finds it.
use sync_kernel.Prelude.{
  ℕ, zero, suc, ◌+◌, ◌<◌, ◌≡◌, refl, sym, ap, ◌∙◌, ◌≢◌, ◌⊎◌, inl, inr, false, some, List, [], ◌∷◌,
  ◌++◌, arith, ◌==◌,
}
use mathlib.Core.Path.{subst}
use sync_kernel.Rbtree.{Node, RbTree}
use sync_kernel.Rbtree.Walk.{rb_next, up_right}
use sync_kernel.Rbtree.Shape.{
  Tree, leaf, fork, top, flatten, size, In, IsTree, Separate, head_or, head_or-append, IsTree-top,
  leftmost-flatten,
}

-- Where the element `x` of a list stands that is put together of two parts and one between them.
Split : List ℕ → ℕ → List ℕ → ℕ → List ℕ → Type 0
Split before c behind x ys =
    ((xs : List ℕ) × (zs : List ℕ) × (before ≡ xs ++ x ∷ zs) × (ys ≡ zs ++ c ∷ behind))
    ⊎ (((x ≡ c) × (ys ≡ behind)) ⊎ ((xs : List ℕ) × (behind ≡ xs ++ x ∷ ys)))

cons_injective : {a b : ℕ} {us vs : List ℕ} → a ∷ us ≡ b ∷ vs → (a ≡ b) × (us ≡ vs)
cons_injective e = (cc, cc)

Split-cases :
    (before : List ℕ) (c : ℕ) (behind xs : List ℕ) (x : ℕ) (ys : List ℕ)
    → before ++ c ∷ behind ≡ xs ++ x ∷ ys
    → Split before c behind x ys
unfolding Split
Split-cases [] c behind [] x ys e = let (a, b) = cons_injective e in inr (inl (sym a, sym b))
Split-cases [] c behind (z ∷ xs) x ys e = inr (inr (xs, (cons_injective e).1))
Split-cases (a ∷ before) c behind [] x ys e =
    let (p, q) = cons_injective e in inl ([], before, rw p refl, sym q)
Split-cases (a ∷ before) c behind (z ∷ xs) x ys e =
    let (p, q) = cons_injective e in
    elim (Split-cases before c behind xs x ys q) [
      | inl (us, zs, f, g) ↦ inl (z ∷ us, zs, rw (p, f) refl, g)
      | inr (inl h) ↦ inr (inl h)
      | inr (inr h) ↦ inr (inr h)
    ]

-- The top of one part of a separate tree is not that of the other, unless both are empty.
tops_apart : (l r : Tree) → ((q : ℕ) → In q l → ¬ In q r) → top l ≢ 0 → top l ≢ top r
unfolding top In
tops_apart leaf r apart n e = n refl
tops_apart (fork ll x lr) leaf apart n e = n e
tops_apart (fork ll x lr) (fork rl y rr) apart n e = apart x (inl refl) (inl e)

top_of_some :
    (nodes : ℕ → Node) (p up : ℕ) (tr : Tree) (xs : List ℕ) (x : ℕ) (ys : List ℕ)
    → IsTree nodes p up tr
    → flatten tr ≡ xs ++ x ∷ ys
    → top tr ≢ 0
unfolding IsTree flatten top
top_of_some nodes p up leaf [] x ys w e = cc
top_of_some nodes p up leaf (z ∷ xs) x ys w e = cc
top_of_some nodes p up (fork l c r) xs x ys w e = w.1

at_top :
    (nodes : ℕ → Node) (p up : ℕ) (tr : Tree) → IsTree nodes p up tr → IsTree nodes (top tr) up tr
at_top nodes p up tr w = subst (λ (q : ℕ). IsTree nodes q up tr) (IsTree-top nodes p up tr w) w

module _ (t : RbTree) where
  -- Climbing from the left child ends at once, and from the right one goes on.
  climb_left : (k x p : ℕ) → 0 < k → p ≢ 0 → x ≢ (t.nodes p).right → up_right k t x p ≡ some p
  unfolding up_right
  climb_left zero x p h n e = absurd (omega arith)
  climb_left (suc k) x p h n e = ground arith

  climb_right :
      (k b p up d : ℕ)
      → suc b < k
      → p ≢ 0
      → (t.nodes p).parent ≡ up
      → ((j : ℕ) → b < j → up_right j t p up ≡ some d)
      → up_right k t (t.nodes p).right p ≡ some d
  unfolding up_right
  climb_right zero b p up d h n e climb = absurd (omega arith)
  climb_right (suc k) b p up d h n e climb = ground (arith, climb k (omega arith), e)

  climb_root : (k x : ℕ) → 0 < k → up_right k t x 0 ≡ some 0
  unfolding up_right
  climb_root zero x h = absurd (omega arith)
  climb_root (suc k) x h = refl

  -- The successor of the top of a part: in its right part, or where climbing leads.
  next_here :
      (r : Tree) (fuel up b d c : ℕ)
      → c ≢ 0
      → (t.nodes c).parent ≡ up
      → IsTree t.nodes (t.nodes c).right c r
      → ((k : ℕ) → b < k → up_right k t c up ≡ some d)
      → b + size r < fuel
      → rb_next fuel t c ≡ some (head_or d (flatten r))
  unfolding rb_next IsTree flatten size head_or
  next_here leaf fuel up b d c n e w climb enough =
      let some_node : (c == 0) ≡ false = ground arith in
      rw (some_node, w, e) (climb fuel (omega arith))
  next_here (fork rl y rr) fuel up b d c n e (at, ny, f, wl, wr) climb enough =
      let some_node : (c == 0) ≡ false = ground arith in
      let some_right : (y == 0) ≡ false = ground (arith, ny) in
      let found = leftmost-flatten fuel t y c rl rr (omega arith) (refl, ny, f, wl, wr) in
      rw (some_node, at, some_right)
        (found ∙ ap some (sym (head_or-append d y (flatten rl) (flatten rr))))

  -- A node of a part of the tree: `d` is where climbing from the top of the part leads.
  next_in :
      (tr : Tree) (fuel up b d x : ℕ) (xs ys : List ℕ)
      → IsTree t.nodes (top tr) up tr
      → Separate tr
      → ((k : ℕ) → b < k → up_right k t (top tr) up ≡ some d)
      → b + size tr < fuel
      → flatten tr ≡ xs ++ x ∷ ys
      → rb_next fuel t x ≡ some (head_or d ys)
  unfolding IsTree Separate top flatten size Split
  next_in leaf fuel up b d x [] ys w s climb enough e = cc
  next_in leaf fuel up b d x (z ∷ xs) ys w s climb enough e = cc
  next_in (fork l c r) fuel up b d x xs ys (at, n, e, wl, wr) (nl, nr, apart, sl, sr) climb enough
        split =
      let to_right = IsTree-top t.nodes (t.nodes c).right c r wr in
      elim (Split-cases (flatten l) c (flatten r) xs x ys split) [
        | inl (us, zs, f, g) ↦
            let off : top l ≢ (t.nodes c).right =
              rw to_right (tops_apart l r apart (top_of_some t.nodes _ c l us x zs wl f)) in
            let found =
              next_in l fuel c 0 c x us zs (at_top t.nodes _ c l wl) sl
                (λ k h. climb_left k (top l) c h n off) (omega arith) f in
            found ∙ ap some (rw g (sym (head_or-append d c zs (flatten r))))
        | inr (inl (same, g)) ↦ rw (same, g) (next_here r fuel up b d c n e wr climb (omega arith))
        | inr (inr (us, f)) ↦
            next_in r fuel c (suc b) d x us ys (at_top t.nodes _ c r wr) sr
              (λ k h. rw (← to_right) (climb_right k b c up d h n e climb)) (omega arith) f
      ]

-- In nodes that stand for a tree, none of them twice in it, `rb_next` of a node is the one behind it
-- in order, or null for the last; more rounds than the tree has nodes are enough.
pub rb_next-flatten :
    (fuel : ℕ) (t : RbTree) (tr : Tree) (xs : List ℕ) (x : ℕ) (ys : List ℕ)
    → size tr < fuel
    → IsTree t.nodes t.root 0 tr
    → Separate tr
    → flatten tr ≡ xs ++ x ∷ ys
    → rb_next fuel t x ≡ some (head_or 0 ys)
rb_next-flatten fuel t tr xs x ys enough w s split =
    next_in t tr fuel 0 0 0 x xs ys (at_top t.nodes t.root 0 tr w) s
      (λ k h. climb_root t k (top tr) h) (omega arith) split
