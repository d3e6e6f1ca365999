-- ===== src/Vma/Grafts.antt =====
-- The tree with a new area at the link that `vma_insert` of kernel/mm/vma.c finds.
use sync_kernel.Prelude.{
  ℕ, zero, suc, ◌≤◌, ◌<◌, ◌≡◌, inl, inr, false, Option, none, some, arith, ◌==◌, leb, leb→le,
  Bool-cases, Returns, Returns-map,
}
use sync_kernel.Rbtree.{Slot, at_left, at_right}
use sync_kernel.Rbtree.Shape.{Tree, leaf, fork, size, IsTree}
use sync_kernel.Vma.{Vmas, area_at, read_slot, insert_loop}
use sync_kernel.Vma.Search.{IsOrdered}

-- The second tree is the first, below a link, with the node `n` in the place of the leaf at `slot`.
pub data Grafted (n : ℕ) (slot : Slot) : Slot → Tree → Tree → Type 0 where
  at_leaf : Grafted n slot slot leaf (fork leaf n leaf)
  to_left :
      {link : Slot} {x : ℕ} {l l' r : Tree}
      → Grafted n slot (at_left x) l l'
      → Grafted n slot link (fork l x r) (fork l' x r)
  to_right :
      {link : Slot} {x : ℕ} {l r r' : Tree}
      → Grafted n slot (at_right x) r r'
      → Grafted n slot link (fork l x r) (fork l x r')

abbrev pub FoundGraft : Vmas → ℕ → ℕ → ℕ → Slot → Tree → Option (Slot × ℕ) → Type 0
FoundGraft v n lo hi link t none = Unit {0}
FoundGraft v n lo hi link t (some (slot, parent)) =
    (t' : Tree) × Grafted n slot link t t' × IsOrdered v lo hi t'

graft_left :
    (v : Vmas) (n lo hi x : ℕ) (link : Slot) (l r : Tree) (o : Option (Slot × ℕ))
    → (area_at v x).vm_start < (area_at v x).vm_end
    → IsOrdered v (area_at v x).vm_end hi r
    → FoundGraft v n lo (area_at v x).vm_start (at_left x) l o
    → FoundGraft v n lo hi link (fork l x r) o
unfolding IsOrdered
graft_left v n lo hi x link l r none p b f = tt
graft_left v n lo hi x link l r (some (slot, parent)) p b (l', g, a) =
    (fork l' x r, to_left g, (a, p, b))

graft_right :
    (v : Vmas) (n lo hi x : ℕ) (link : Slot) (l r : Tree) (o : Option (Slot × ℕ))
    → IsOrdered v lo (area_at v x).vm_start l
    → (area_at v x).vm_start < (area_at v x).vm_end
    → FoundGraft v n (area_at v x).vm_end hi (at_right x) r o
    → FoundGraft v n lo hi link (fork l x r) o
unfolding IsOrdered
graft_right v n lo hi x link l r none a p f = tt
graft_right v n lo hi x link l r (some (slot, parent)) a p (r', g, b) =
    (fork l x r', to_right g, (a, p, b))

-- Where the loop of `vma_insert` finds a link for an area that is not empty and lies between the
-- bounds, the tree with its node there is in order.
pub insert_loop-Grafted :
    (k : ℕ) (v : Vmas) (n : ℕ) (link : Slot) (parent lo hi up : ℕ) (t : Tree)
    → size t < k
    → IsTree v.tree.nodes (read_slot v.tree link) up t
    → IsOrdered v lo hi t
    → lo ≤ (area_at v n).vm_start
    → (area_at v n).vm_start < (area_at v n).vm_end
    → (area_at v n).vm_end ≤ hi
    → Returns (FoundGraft v n lo hi link t) (insert_loop k v (area_at v n) link parent)
unfolding insert_loop IsTree IsOrdered size
insert_loop-Grafted zero v n link parent lo hi up t h w o from some_bytes to = absurd (omega arith)
insert_loop-Grafted (suc k) v n link parent lo hi up leaf h w o from some_bytes to =
    rw w (fork leaf n leaf, at_leaf, (from, some_bytes, to))
insert_loop-Grafted (suc k) v n link parent lo hi up (fork l x r) h (at, ne, e, wl, wr) (a, p, b)
      from some_bytes to =
    let some_node : (x == 0) ≡ false = ground (arith, ne) in
    rw (at, some_node)
      (elim (Bool-cases (leb (area_at v n).vm_end (area_at v x).vm_start)) [
        | inl under ↦ rw under (
            Returns-map _ _ (insert_loop k v (area_at v n) (at_left x) x)
              (insert_loop-Grafted k v n (at_left x) x lo (area_at v x).vm_start x l (omega arith)
                wl a from some_bytes (leb→le _ _ under))
              (λ o f. graft_left v n lo hi x link l r o p b f))
        | inr beside ↦
            rw beside (elim (Bool-cases (leb (area_at v x).vm_end (area_at v n).vm_start)) [
              | inl over ↦ rw over (
                  Returns-map _ _ (insert_loop k v (area_at v n) (at_right x) x)
                    (insert_loop-Grafted k v n (at_right x) x (area_at v x).vm_end hi x r
                      (omega arith) wr b (leb→le _ _ over) some_bytes to)
                    (λ o f. graft_right v n lo hi x link l r o a p f))
              | inr overlap ↦ rw overlap tt
            ])
      ])
