-- ===== src/Vma/Insert.antt =====
-- Where `vma_insert` of kernel/mm/vma.c puts an area.
use sync_kernel.Prelude.{
  ℕ, zero, suc, ◌≤◌, ◌<◌, ◌≡◌, refl, ◌⊎◌, inl, inr, false, Option, none, some, arith, ◌==◌, Returns,
  Returns-map, leb, Bool-cases, leb→le,
}
use sync_kernel.Rbtree.{Slot, at_left, at_right}
use sync_kernel.Rbtree.Shape.{Tree, leaf, fork, size, In, IsTree}
use sync_kernel.Vma.{Area, Vmas, area_at, read_slot, insert_loop}
use sync_kernel.Vma.Search.{IsOrdered, In-bounds}

-- The area lies beside that of the node `x`.
abbrev pub IsBeside : Vmas → Area → ℕ → Type 0
IsBeside v a x = (a.vm_end ≤ (area_at v x).vm_start) ⊎ ((area_at v x).vm_end ≤ a.vm_start)

-- The area overlaps one of the tree, or a place that holds no node is found and it overlaps none.
pub data Placed (v : Vmas) (a : Area) (t : Tree) (r : Option (Slot × ℕ)) : Type 0 where
  overlap :
      (x : ℕ)
      → In x t
      → r ≡ none
      → a.vm_start < (area_at v x).vm_end
      → (area_at v x).vm_start < a.vm_end
      → Placed v a t r
  free :
      (slot : Slot) (parent : ℕ)
      → r ≡ some (slot, parent)
      → read_slot v.tree slot ≡ 0
      → ((x : ℕ) → In x t → IsBeside v a x)
      → Placed v a t r

-- What is beside the area of the top node is beside all on the other side of it.
Placed-left :
    (v : Vmas) (a : Area) (lo hi x : ℕ) (l r : Tree) (o : Option (Slot × ℕ))
    → IsOrdered v lo hi (fork l x r)
    → a.vm_end ≤ (area_at v x).vm_start
    → Placed v a l o
    → Placed v a (fork l x r) o
unfolding In IsOrdered
Placed-left v a lo hi x l r o w under (overlap q h e p s) = overlap q (inr (inl h)) e p s
Placed-left v a lo hi x l r o (ol, pos, or) under (free slot parent e z beside) =
    free slot parent e z λ q i. elim i [
      | inl same ↦ rw same (inl under)
      | inr (inl h) ↦ beside q h
      | inr (inr h) ↦
          let bounds = In-bounds v q r (area_at v x).vm_end hi or h in inl (omega (arith, bounds.0))
    ]

Placed-right :
    (v : Vmas) (a : Area) (lo hi x : ℕ) (l r : Tree) (o : Option (Slot × ℕ))
    → IsOrdered v lo hi (fork l x r)
    → (area_at v x).vm_end ≤ a.vm_start
    → Placed v a r o
    → Placed v a (fork l x r) o
unfolding In IsOrdered
Placed-right v a lo hi x l r o w over (overlap q h e p s) = overlap q (inr (inr h)) e p s
Placed-right v a lo hi x l r o (ol, pos, or) over (free slot parent e z beside) =
    free slot parent e z λ q i. elim i [
      | inl same ↦ rw same (inr over)
      | inr (inl h) ↦
          let bounds = In-bounds v q l lo (area_at v x).vm_start ol h in
          inr (omega (arith, bounds.1))
      | inr (inr h) ↦ beside q h
    ]

-- Going down from a link whose nodes stand for a tree of ordered areas, the loop of `vma_insert` ends
-- within one round more than there are areas: at an area of the tree that the new one overlaps, or at
-- an empty link, and then the new one lies beside every area of the tree.
pub insert_loop-Placed :
    (k : ℕ) (v : Vmas) (a : Area) (link : Slot) (parent lo hi up : ℕ) (t : Tree)
    → size t < k
    → IsTree v.tree.nodes (read_slot v.tree link) up t
    → IsOrdered v lo hi t
    → Returns (Placed v a t) (insert_loop k v a link parent)
unfolding insert_loop IsTree IsOrdered In size
insert_loop-Placed zero v a link parent lo hi up t h w o = absurd (omega arith)
insert_loop-Placed (suc k) v a link parent lo hi up leaf h w o =
    rw w (free link parent refl w (λ q i. absurd i))
insert_loop-Placed (suc k) v a link parent lo hi up (fork l x r) h (at, n, e, wl, wr)
      (ol, pos, or) =
    let begin = (area_at v x).vm_start in
    let end = (area_at v x).vm_end in
    let some_node : (x == 0) ≡ false = ground (arith, n) in
    let left = insert_loop-Placed k v a (at_left x) x lo begin x l (omega arith) wl ol in
    let right = insert_loop-Placed k v a (at_right x) x end hi x r (omega arith) wr or in
    rw (at, some_node)
      (elim (Bool-cases (leb a.vm_end begin)) [
        | inl e ↦ rw e (
            Returns-map _ _ (insert_loop k v a (at_left x) x) left
              λ s f. Placed-left v a lo hi x l r s (ol, pos, or) (leb→le _ _ e) f)
        | inr under ↦ rw under (elim (Bool-cases (leb end a.vm_start)) [
          | inl e ↦ rw e (
              Returns-map _ _ (insert_loop k v a (at_right x) x) right
                λ s f. Placed-right v a lo hi x l r s (ol, pos, or) (leb→le _ _ e) f)
          | inr over ↦ rw over (overlap x (inl refl) refl (ground arith) (ground arith))
        ])
      ])
