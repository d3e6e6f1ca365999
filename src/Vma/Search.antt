-- ===== src/Vma/Search.antt =====
-- What `vma_search` of kernel/mm/vma.c finds.
use sync_kernel.Prelude.{
  ℕ, zero, suc, ◌≤◌, ◌<◌, ◌≡◌, refl, ◌≢◌, ◌⊎◌, inl, inr, true, false, ◌&&◌, some, arith, ◌==◌,
  Returns, Returns-map, ltb, leb, Bool-cases, ltb→lt, leb→le,
}
use sync_kernel.Prelude.Words.{invalid_ptr}
use mathlib.Core.Path.{subst}
use sync_kernel.Rbtree.Shape.{Tree, leaf, fork, size, In, IsTree}
use sync_kernel.Vma.{Vmas, area_at, vma_struct_from_rb_node, search_step, search_loop, vma_search}

-- The areas of the tree lie between two addresses, in order and apart, and none is empty.
unfoldable pub IsOrdered : Vmas → ℕ → ℕ → Tree → Type 0
IsOrdered v lo hi leaf = lo ≤ hi
IsOrdered v lo hi (fork l x r) =
    IsOrdered v lo (area_at v x).vm_start l
    × ((area_at v x).vm_start < (area_at v x).vm_end)
    × IsOrdered v (area_at v x).vm_end hi r

-- The area of the node `x` contains the address.
abbrev pub Contains : Vmas → ℕ → ℕ → Type 0
Contains v addr x = ((area_at v x).vm_start ≤ addr) × (addr < (area_at v x).vm_end)

-- The result of a search is the one area of the tree that contains the address, or the error
-- pointer, and then none does.
pub data Found (v : Vmas) (addr : ℕ) (t : Tree) (r : ℕ) : Type 0 where
  missing : r ≡ invalid_ptr → ((q : ℕ) → In q t → ¬ Contains v addr q) → Found v addr t r
  found : (x : ℕ) → In x t → r ≡ vma_struct_from_rb_node x → Contains v addr x → Found v addr t r

IsOrdered-bounds : (v : Vmas) (t : Tree) (lo hi : ℕ) → IsOrdered v lo hi t → lo ≤ hi
unfolding IsOrdered
IsOrdered-bounds v leaf lo hi o = o
IsOrdered-bounds v (fork l x r) lo hi (a, p, b) =
    let begin = (area_at v x).vm_start in
    let end = (area_at v x).vm_end in
    let la = IsOrdered-bounds v l lo begin a in
    let lb = IsOrdered-bounds v r end hi b in omega arith

pub In-bounds :
    (v : Vmas) (q : ℕ) (t : Tree) (lo hi : ℕ)
    → IsOrdered v lo hi t
    → In q t
    → (lo ≤ (area_at v q).vm_start) × ((area_at v q).vm_end ≤ hi)
unfolding IsOrdered In
In-bounds v q leaf lo hi o h = absurd h
In-bounds v q (fork l x r) lo hi (a, p, b) (inl e) =
    let la = IsOrdered-bounds v l lo (area_at v x).vm_start a in
    let lb = IsOrdered-bounds v r (area_at v x).vm_end hi b in rw e (la, lb)
In-bounds v q (fork l x r) lo hi (a, p, b) (inr (inl h)) =
    let ih = In-bounds v q l lo (area_at v x).vm_start a h in
    let lb = IsOrdered-bounds v r (area_at v x).vm_end hi b in (ih.0, omega arith)
In-bounds v q (fork l x r) lo hi (a, p, b) (inr (inr h)) =
    let ih = In-bounds v q r (area_at v x).vm_end hi b h in
    let la = IsOrdered-bounds v l lo (area_at v x).vm_start a in (omega arith, ih.1)

search_step-left :
    (v : Vmas) (addr x : ℕ)
    → addr < (area_at v x).vm_start
    → (area_at v x).vm_start < (area_at v x).vm_end
    → search_step v addr x ≡ some (v.tree.nodes x).left
unfolding search_step
search_step-left v addr x below pos =
    let a : ltb addr (area_at v x).vm_start ≡ true = ground arith in
    let b : leb (area_at v x).vm_end addr ≡ false = ground arith in simp (a, b)

search_step-right :
    (v : Vmas) (addr x : ℕ)
    → x ≢ 0
    → (area_at v x).vm_end ≤ addr
    → (area_at v x).vm_start < (area_at v x).vm_end
    → search_step v addr x ≡ some (v.tree.nodes x).right
unfolding search_step
search_step-right v addr x n above pos =
    let a : ltb addr (area_at v x).vm_start ≡ false = ground arith in
    let b : leb (area_at v x).vm_end addr ≡ true = ground arith in
    let c : (x == 0) ≡ false = ground arith in simp (a, b, c)

-- A round that goes on, and one that ends at the area.
search_loop-next :
    (k : ℕ) (v : Vmas) (addr x x' : ℕ)
    → x ≢ 0
    → ¬ Contains v addr x
    → search_step v addr x ≡ some x'
    → search_loop (suc k) v addr x ≡ search_loop k v addr x'
unfolding search_loop
search_loop-next k v addr x x' n out step =
    let a : (x == 0) ≡ false = ground arith in
    let b : (leb (area_at v x).vm_start addr && ltb addr (area_at v x).vm_end) ≡ false =
      elim (Bool-cases (leb (area_at v x).vm_start addr && ltb addr (area_at v x).vm_end)) [
        | inl yes_in ↦ absurd (out (ground arith, ground arith))
        | inr out_of ↦ out_of
      ] in
    simp (a, b, step)

search_loop-null : (k : ℕ) (v : Vmas) (addr : ℕ) → search_loop (suc k) v addr 0 ≡ some invalid_ptr
unfolding search_loop
search_loop-null k v addr = refl

search_loop-here :
    (k : ℕ) (v : Vmas) (addr x : ℕ)
    → x ≢ 0
    → Contains v addr x
    → search_loop (suc k) v addr x ≡ some (vma_struct_from_rb_node x)
unfolding search_loop
search_loop-here k v addr x n (lo, hi) =
    let a : (x == 0) ≡ false = ground arith in
    let b : (leb (area_at v x).vm_start addr && ltb addr (area_at v x).vm_end) ≡ true =
      ground arith in
    simp (a, b)

no_node_at :
    (v : Vmas) (addr q x : ℕ)
    → q ≡ x
    → (addr < (area_at v x).vm_start) ⊎ ((area_at v x).vm_end ≤ addr)
    → ¬ Contains v addr q
no_node_at v addr q x same out c =
    let c' : Contains v addr x = subst (λ k. Contains v addr k) same c in
    elim out [ inl below ↦ omega (arith, c'.0) | inr above ↦ omega (arith, c'.1) ]

-- Below the area of the top node only the left part can hold the address, and above it the right.
Found-left :
    (v : Vmas) (addr lo hi s x : ℕ) (l r : Tree)
    → IsOrdered v lo hi (fork l x r)
    → addr < (area_at v x).vm_start
    → Found v addr l s
    → Found v addr (fork l x r) s
unfolding In IsOrdered
Found-left v addr lo hi s x l r (ol, pos, or) below (missing e out) = missing e λ q i c. elim i [
  | inl same ↦ absurd (no_node_at v addr q x same (inl below) c)
  | inr (inl h) ↦ out q h c
  | inr (inr h) ↦
      let bounds = In-bounds v q r (area_at v x).vm_end hi or h in
      absurd (omega (arith, bounds.0, c.0))
]
Found-left v addr lo hi s x l r o below (found q h e c) = found q (inr (inl h)) e c

Found-right :
    (v : Vmas) (addr lo hi s x : ℕ) (l r : Tree)
    → IsOrdered v lo hi (fork l x r)
    → (area_at v x).vm_end ≤ addr
    → Found v addr r s
    → Found v addr (fork l x r) s
unfolding In IsOrdered
Found-right v addr lo hi s x l r (ol, pos, or) above (missing e out) = missing e λ q i c. elim i [
  | inl same ↦ absurd (no_node_at v addr q x same (inr above) c)
  | inr (inl h) ↦
      let bounds = In-bounds v q l lo (area_at v x).vm_start ol h in
      absurd (omega (arith, bounds.1, c.1))
  | inr (inr h) ↦ out q h c
]
Found-right v addr lo hi s x l r o above (found q h e c) = found q (inr (inr h)) e c

search_loop-Found :
    (k : ℕ) (v : Vmas) (addr lo hi p up : ℕ) (t : Tree)
    → size t < k
    → IsTree v.tree.nodes p up t
    → IsOrdered v lo hi t
    → Returns (Found v addr t) (search_loop k v addr p)
unfolding IsTree IsOrdered In size
search_loop-Found zero v addr lo hi p up t h w o = absurd (omega arith)
search_loop-Found (suc k) v addr lo hi p up leaf h w o =
    rw (w, search_loop-null k v addr) (missing refl (λ q i. absurd i))
search_loop-Found (suc k) v addr lo hi p up (fork l x r) h (at, n, e, wl, wr) (ol, pos, or) =
    let begin = (area_at v x).vm_start in
    let end = (area_at v x).vm_end in
    let left = search_loop-Found k v addr lo begin (v.tree.nodes x).left x l (omega arith) wl ol in
    let right = search_loop-Found k v addr end hi (v.tree.nodes x).right x r (omega arith) wr or in
    rw at (elim (Bool-cases (ltb addr begin)) [
      | inl e ↦
          let below : addr < begin = ltb→lt _ _ e in
          rw
            (search_loop-next k v addr x _ n (λ c. absurd (omega (arith, c.0)))
              (search_step-left v addr x below pos))
            (Returns-map _ _ (search_loop k v addr (v.tree.nodes x).left) left
              λ s f. Found-left v addr lo hi s x l r (ol, pos, or) below f)
      | inr over ↦ elim (Bool-cases (leb end addr)) [
        | inl e ↦
            let above : end ≤ addr = leb→le _ _ e in
            rw
              (search_loop-next k v addr x _ n (λ c. absurd (omega (arith, c.1)))
                (search_step-right v addr x n above pos))
              (Returns-map _ _ (search_loop k v addr (v.tree.nodes x).right) right
                λ s f. Found-right v addr lo hi s x l r (ol, pos, or) above f)
        | inr under ↦
            let c : Contains v addr x = (ground arith, ground arith) in
            rw (search_loop-here k v addr x n c) (found x (inl refl) refl c)
      ]
    ])

-- Where the areas stand for a tree whose areas are in order, apart and not empty, `vma_search` ends
-- within one round more than there are areas, and returns the area that contains the address, or the
-- error pointer where none does.
pub vma_search-Found :
    (k : ℕ) (v : Vmas) (addr lo hi : ℕ) (t : Tree)
    → size t < k
    → IsTree v.tree.nodes v.tree.root 0 t
    → IsOrdered v lo hi t
    → Returns (Found v addr t) (vma_search k v addr)
unfolding vma_search
vma_search-Found k v addr lo hi t h w o = search_loop-Found k v addr lo hi v.tree.root 0 t h w o
