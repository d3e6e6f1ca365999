-- ===== src/Vma/Lands.antt =====
-- The area that `vma_assign_struct` of kernel/mm/vma.c fills, where `done` hands it to `vma_insert`.
use sync_kernel.Prelude.{
  ℕ, zero, suc, ◌+◌, ◌^◌, ◌<◌, ◌≡◌, refl, sym, ◌≢◌, ◌⊎◌, inl, inr, false, true, Option, none, some,
  List, [], ◌∷◌, ◌++◌, arith, ◌==◌, ◌>>=◌, Returns, update, leb, Returns-if, ap, ==_iff, Bool-cases,
  Option-cases, ◌∙◌,
}
use mathlib.Core.Path.{subst}
use sync_kernel.Prelude.Words.{add64, invalid_ptr}
use sync_kernel.Slab.{Heap}
use sync_kernel.Slab.Objects.{kslab_alloc}
use sync_kernel.Rbtree.{black, Slot, at_root, at_left, at_right, rb_insert}
use sync_kernel.Rbtree.Shape.{Tree, leaf, fork, size, flatten, In, IsTree, IsTree-same}
use sync_kernel.Vma.{
  Area, Vmas, area_at, node_of, read_slot, insert_loop, vma_insert, vma_assign_struct, place_area,
  vma_struct_from_rb_node,
}
use sync_kernel.Vma.Search.{IsOrdered}
use sync_kernel.Vma.Insert.{Placed, overlap, free, IsBeside, insert_loop-Placed}
use sync_kernel.Vma.Grafts.{Grafted, FoundGraft, insert_loop-Grafted}
use sync_kernel.Vma.Alloc.{AllClear-at, Elem}
use sync_kernel.Vma.Fits.{Fits}

Elem-append : (q x : ℕ) (xs ys : List ℕ) → Elem q xs ⊎ Elem q (x ∷ ys) → Elem q (xs ++ x ∷ ys)
Elem-append q x [] ys (inl h) = absurd h
Elem-append q x [] ys (inr h) = h
Elem-append q x (z ∷ xs) ys (inl (inl e)) = inl e
Elem-append q x (z ∷ xs) ys (inl (inr h)) = inr (Elem-append q x xs ys (inl h))
Elem-append q x (z ∷ xs) ys (inr h) = inr (Elem-append q x xs ys (inr h))

In-Elem : (q : ℕ) (t : Tree) → In q t → Elem q (flatten t)
unfolding In flatten
In-Elem q leaf h = absurd h
In-Elem q (fork l x r) (inl e) = Elem-append q x (flatten l) (flatten r) (inr (inl e))
In-Elem q (fork l x r) (inr (inl h)) = Elem-append q x (flatten l) (flatten r) (inl (In-Elem q l h))
In-Elem q (fork l x r) (inr (inr h)) =
    Elem-append q x (flatten l) (flatten r) (inr (inr (In-Elem q r h)))

-- The link is the tree's own, or one of a node of the tree, and the parent is that node.
abbrev pub Hangs : Tree → Slot → ℕ → Type 0
Hangs t at_root parent = parent ≡ 0
Hangs t (at_left x) parent = (parent ≡ x) × In x t
Hangs t (at_right x) parent = (parent ≡ x) × In x t

abbrev FoundHangs : Tree → Option (Slot × ℕ) → Type 0
FoundHangs t none = Unit {0}
FoundHangs t (some (slot, parent)) = Hangs t slot parent

insert_loop-Hangs :
    (k : ℕ) (v : Vmas) (a : Area) (link : Slot) (parent up : ℕ) (t whole : Tree)
    → size t < k
    → IsTree v.tree.nodes (read_slot v.tree link) up t
    → ((q : ℕ) → In q t → In q whole)
    → Hangs whole link parent
    → Returns (FoundHangs whole) (insert_loop k v a link parent)
unfolding insert_loop IsTree In size
insert_loop-Hangs zero v a link parent up t whole h w part hangs = absurd (omega arith)
insert_loop-Hangs (suc k) v a link parent up leaf whole h w part hangs = rw w hangs
insert_loop-Hangs (suc k) v a link parent up (fork l x r) whole h (at, n, e, wl, wr) part hangs =
    let some_node : (x == 0) ≡ false = ground (arith, n) in
    let here : (x ≡ x) × In x whole = (refl, part x (inl refl)) in
    rw (at, some_node)
      (Returns-if (FoundHangs whole) (leb a.vm_end (area_at v x).vm_start) _ _
        (insert_loop-Hangs k v a (at_left x) x x l whole (omega arith) wl
          (λ q i. part q (inr (inl i))) here)
        (Returns-if (FoundHangs whole) (leb (area_at v x).vm_end a.vm_start) _ _
          (insert_loop-Hangs k v a (at_right x) x x r whole (omega arith) wr
            (λ q i. part q (inr (inr i))) here)
          tt))

-- The order of the areas of a tree does not depend on other areas.
IsOrdered-same :
    (v v' : Vmas) (t : Tree) (lo hi : ℕ)
    → ((q : ℕ) → In q t → area_at v' q ≡ area_at v q)
    → IsOrdered v lo hi t
    → IsOrdered v' lo hi t
unfolding IsOrdered In
IsOrdered-same v v' leaf lo hi same o = o
IsOrdered-same v v' (fork l x r) lo hi same (a, p, b) =
    let at_l = IsOrdered-same v v' l lo (area_at v x).vm_start (λ q h. same q (inr (inl h))) a in
    let at_r = IsOrdered-same v v' r (area_at v x).vm_end hi (λ q h. same q (inr (inr h))) b in
    rw (same x (inl refl)) (at_l, p, at_r)

-- An area beside all those of the tree is given a place.
open_place :
    (v : Vmas) (a : Area) (t : Tree) (o : Option (Option (Slot × ℕ)))
    → ((q : ℕ) → In q t → IsBeside v a q)
    → Returns (Placed v a t) o
    → (slot : Slot) × (parent : ℕ) × (o ≡ some (some (slot, parent))) × (read_slot v.tree slot ≡ 0)
open_place v a t none beside r = absurd r
open_place v a t (some p) beside (overlap x h e low high) = elim (beside x h) [
  | inl under ↦ absurd (omega arith)
  | inr over ↦ absurd (omega arith)
]
open_place v a t (some p) beside (free slot parent e z others) = (slot, parent, ap some e, z)

-- The state with the new area filled and its node cleared.
abbrev pub assigned : Vmas → Heap → ℕ → ℕ → ℕ → ℕ → Vmas
assigned v heap vma begin sz flags = record v {
  areas =
      update v.areas vma
        (record { vm_start = begin; vm_end = add64 begin sz; pages = 0; vm_flags = flags });
  tree = record (v.tree) {
    nodes =
        update v.tree.nodes (node_of vma)
          (record { left = 0; right = 0; parent = 0; color = black });
  };
  heap = heap;
}

other_node : (x q : ℕ) (t : Tree) → ¬ In x t → In q t → (x == q) ≡ false
other_node x q t out h = elim (Bool-cases (x == q)) [
  | inl e ↦ absurd (out (subst (λ y. In y t) (sym ((==_iff x q).0 e)) h))
  | inr e ↦ e
]

-- What `place_area` does where `slot` is the link that it finds.
abbrev pub linked_at : ℕ → Vmas → ℕ → Slot → ℕ → Option (ℕ × Vmas)
linked_at fuel v vma slot parent = do
  t ← rb_insert fuel v.tree (node_of vma) parent slot
  some (vma, record v { tree = t })

vma_insert-linked :
    (fuel : ℕ) (v : Vmas) (vma : ℕ) (slot : Slot) (parent : ℕ)
    → insert_loop fuel v (v.areas vma) at_root 0 ≡ some (some (slot, parent))
    → (do (ok, v') ← vma_insert fuel v vma; some (vma, v')) ≡ linked_at fuel v vma slot parent
unfolding vma_insert
vma_insert-linked fuel v vma slot parent e =
    rw e (elim (Option-cases (rb_insert fuel v.tree (node_of vma) parent slot)) [
      | inl n ↦ rw n refl
      | inr (t, n) ↦ rw n refl
    ])

-- On a tree of areas in order, in a region that ends below 2 ^ 64 and with more rounds than there are
-- areas, where the cache gives an object that holds no area of the tree, and some bytes lie in the
-- region beside all the areas: the area is filled and its node cleared, and it is not refused as an
-- overlap. A link that is empty is found for it, the root of the tree or a child of one of its nodes,
-- with that node as the parent; the tree with the new node at that link is in order too; and
-- `rb_insert` is called with them: the result is what that makes of the tree, and the area.
pub place_area-links :
    (fuel : ℕ) (v : Vmas) (b sz flags vma : ℕ) (heap : Heap) (tr : Tree)
    → size tr < fuel
    → IsTree v.tree.nodes v.tree.root 0 tr
    → IsOrdered v v.r_start v.r_end tr
    → Fits v sz (flatten tr) (some b)
    → 0 < sz
    → v.r_end < 2 ^ 64
    → vma < 2 ^ 64
    → kslab_alloc fuel v.heap ≡ some (vma, heap)
    → vma ≢ invalid_ptr
    → ¬ In (node_of vma) tr
    → ((q : ℕ) → In q tr → vma_struct_from_rb_node q ≢ vma)
    → (slot : Slot) × (parent : ℕ) × (read_slot (assigned v heap vma b sz flags).tree slot ≡ 0)
      × Hangs tr slot parent
      × ((tr' : Tree) × Grafted (node_of vma) slot at_root tr tr'
          × IsOrdered (assigned v heap vma b sz flags) v.r_start v.r_end tr')
      × (place_area fuel v b sz flags
          ≡ linked_at fuel (assigned v heap vma b sz flags) vma slot parent)
unfolding place_area vma_assign_struct vma_insert
place_area-links fuel v b sz flags vma heap tr enough w o (from, to, clear) some_bytes small word
      given ok fresh apart =
    let v' = assigned v heap vma b sz flags in
    let a : Area = record { vm_start = b; vm_end = add64 b sz; pages = 0; vm_flags = flags } in
    let apart_at : (q : ℕ) → In q tr → (vma == vma_struct_from_rb_node q) ≡ false =
      λ q h. (let n = apart q h in ground arith) in
    let same_area : (q : ℕ) → In q tr → area_at v' q ≡ area_at v q =
      λ q h. (let e = apart_at q h in rw e refl) in
    let same_node : (q : ℕ) → In q tr → v'.tree.nodes q ≡ v.tree.nodes q =
      λ q h. (let e = other_node (node_of vma) q tr fresh h in rw e refl) in
    let stop : add64 b sz ≡ b + sz = omega arith in
    let beside : (q : ℕ) → In q tr → IsBeside v' a q = λ q h.
      (let c = AllClear-at v b sz q (flatten tr) clear (In-Elem q tr h) in
        rw (same_area q h, stop) c) in
    let w' = IsTree-same v.tree.nodes v'.tree.nodes v.tree.root 0 tr same_node w in
    let o' = IsOrdered-same v v' tr v.r_start v.r_end same_area o in
    let went = insert_loop-Placed fuel v' a at_root 0 v.r_start v.r_end 0 tr enough w' o' in
    let (slot, parent, e, z) = open_place v' a tr (insert_loop fuel v' a at_root 0) beside went in
    let valid : (vma == invalid_ptr) ≡ false = ground (arith, ok) in
    let itself : (vma == vma) ≡ true = ground arith in
    let here : v'.areas vma ≡ a = rw itself refl in
    let found = ap (λ n. insert_loop fuel v' n at_root 0) here ∙ e in
    let hung = insert_loop-Hangs fuel v' a at_root 0 0 tr tr enough w' (λ q i. i) refl in
    let place : vma_struct_from_rb_node (node_of vma) ≡ vma = omega arith in
    let own : area_at v' (node_of vma) ≡ a = ap (λ q. v'.areas q) place ∙ here in
    let grafted =
      insert_loop-Grafted fuel v' (node_of vma) at_root 0 v.r_start v.r_end 0 tr enough w' o'
        (rw own from) (rw own (omega arith)) (rw own (omega (arith, to))) in
    let graft =
      subst (Returns (FoundGraft v' (node_of vma) v.r_start v.r_end at_root tr))
        (ap (λ n. insert_loop fuel v' n at_root 0) own ∙ e) grafted in
    (
      slot,
      parent,
      z,
      subst (Returns (FoundHangs tr)) e hung,
      graft,
      rw (given, valid, valid) (vma_insert-linked fuel v' vma slot parent found),
    )
