-- ===== src/Vma.antt =====
-- kernel/mm/vma.c and vma.h: areas of virtual memory in a red-black tree. The node of an area stands
-- 32 bytes into it. `none` is a read through null, or a loop that has not ended after the rounds that
-- are given: `walk` is the number for the walks of kslab_free, `fuel` that for all the others.
pub mod Search
pub mod Insert
pub mod Flags
pub mod Gaps
pub mod Alloc
pub mod Fits
pub mod Grafts
pub mod Lands
pub mod Ioremap
pub mod Mapped
pub mod Sample
mod Tests
use sync_kernel.Prelude.{
  ◌>>=◌, ℕ, zero, suc, ◌^◌, Bool, true, false, ◌&&◌, ◌||◌, Option, none, some, ◌==◌, ltb, leb,
  if◌then◌else◌, update,
}
use sync_kernel.Prelude.Words.{add64, sub64, invalid_ptr}
use sync_kernel.Paging.{page_alignup, kernel_vmmmap}
use sync_kernel.Slab.{Heap, kslab_cache_create}
use sync_kernel.Slab.Objects.{kslab_alloc, kslab_free}
use sync_kernel.Rbtree.{black, Node, RbTree, Slot, at_root, at_left, at_right, rb_insert}
use sync_kernel.Rbtree.Remove.{rb_remove}
use sync_kernel.Rbtree.Walk.{rb_first, rb_last, rb_next}

-- `kernel_vma_t` without its node
pub record Area : Type 0 where
  pub vm_start : ℕ
  pub vm_end : ℕ
  pub pages : ℕ
  pub vm_flags : ℕ

-- `vma_region_t` with `vma_cache` and the areas by address
pub record Vmas : Type 0 where
  pub r_start : ℕ
  pub r_end : ℕ
  pub tree : RbTree
  pub areas : ℕ → Area
  pub heap : Heap

-- `&vma->rb_node` and `vma_struct_from_rb_node`
abbrev pub node_of : ℕ → ℕ
node_of vma = add64 vma 32

abbrev pub vma_struct_from_rb_node : ℕ → ℕ
vma_struct_from_rb_node x = sub64 x 32

abbrev pub area_at : Vmas → ℕ → Area
area_at v x = v.areas (vma_struct_from_rb_node x)

-- `*link`
abbrev pub read_slot : RbTree → Slot → ℕ
read_slot t at_root = t.root
read_slot t (at_left p) = (t.nodes p).left
read_slot t (at_right p) = (t.nodes p).right

-- The place for a new area, with its parent; the inner `none` is an overlap.
unfoldable pub insert_loop : ℕ → Vmas → Area → Slot → ℕ → Option (Option (Slot × ℕ))
insert_loop zero v a link parent = none
insert_loop (suc k) v a link parent =
    let current = read_slot v.tree link in
    let current_vm = area_at v current in
    let left = insert_loop k v a (at_left current) current in
    let right = insert_loop k v a (at_right current) current in
    if current == 0
    then some (some (link, parent))
    else if leb a.vm_end current_vm.vm_start
    then left
    else if leb current_vm.vm_end a.vm_start
    then right
    else some none

-- The first result is whether the code returns 0, not -1.
unfoldable pub vma_insert : ℕ → Vmas → ℕ → Option (Bool × Vmas)
unfolding insert_loop
vma_insert fuel v vma = do
  found ← insert_loop fuel v (v.areas vma) at_root 0
  elim found [
    | none ↦ some (false, v)
    | some (link, parent) ↦ (do
      t ← rb_insert fuel v.tree (node_of vma) parent link
      some (true, record v { tree = t }))
  ]

-- What `vma_remove` and `vma_free_area` do to an area.
unfoldable pub release : ℕ → ℕ → Vmas → ℕ → Option Vmas
release fuel walk v vma = do
  t ← rb_remove fuel v.tree (node_of vma)
  heap ← kslab_free fuel walk v.heap vma
  some (record v { tree = t; heap = heap })

unfoldable pub vma_remove : ℕ → ℕ → Vmas → ℕ → Option Vmas
unfolding release
vma_remove fuel walk v vma =
    let released = release fuel walk v vma in if vma == 0 then some v else released

-- The two tests of a round that do not end the search, one after the other.
unfoldable pub search_step : Vmas → ℕ → ℕ → Option ℕ
search_step v addr x =
    let a = area_at v x in
    let x' = if ltb addr a.vm_start then (v.tree.nodes x).left else x in
    if leb a.vm_end addr then if x' == 0 then none else some (v.tree.nodes x').right else some x'

unfoldable pub search_loop : ℕ → Vmas → ℕ → ℕ → Option ℕ
search_loop zero v addr x = none
search_loop (suc k) v addr x =
    let a = area_at v x in
    let rest = (do x' ← search_step v addr x; search_loop k v addr x') in
    if x == 0
    then some invalid_ptr
    else if leb a.vm_start addr && ltb addr a.vm_end
    then some (vma_struct_from_rb_node x)
    else rest

unfoldable pub vma_search : ℕ → Vmas → ℕ → Option ℕ
vma_search fuel v addr = search_loop fuel v addr v.tree.root

unfoldable pub vma_remove_by_addr : ℕ → ℕ → Vmas → ℕ → Option Vmas
vma_remove_by_addr fuel walk v addr = do vma ← vma_search fuel v addr; vma_remove fuel walk v vma

unfoldable pub vma_free_area : ℕ → ℕ → Vmas → ℕ → Option Vmas
vma_free_area fuel walk v addr = do
  vma ← vma_search fuel v addr
  let released = release fuel walk v vma
  if vma == invalid_ptr then some v else released

-- The address is the error pointer where the code returns 1.
unfoldable pub vma_assign_struct : ℕ → Vmas → ℕ → ℕ → ℕ → Option (ℕ × Vmas)
vma_assign_struct fuel v begin sz flags = do
  (vma, heap) ← kslab_alloc fuel v.heap
  let fresh : Area = record {
    vm_start = begin;
    vm_end = add64 begin sz;
    pages = 0;
    vm_flags = flags;
  }
  let cleared : Node = record { left = 0; right = 0; parent = 0; color = black }
  let tree = record (v.tree) { nodes = update v.tree.nodes (node_of vma) cleared }
  let assigned = record v { areas = update v.areas vma fresh; tree = tree; heap = heap }
  if vma == invalid_ptr then some (invalid_ptr, record v { heap = heap }) else some (vma, assigned)

-- `done`
unfoldable pub place_area : ℕ → Vmas → ℕ → ℕ → ℕ → Option (ℕ × Vmas)
place_area fuel v begin sz flags = do
  (vma, v') ← vma_assign_struct fuel v begin sz flags
  let inserted = (do (ok, v'') ← vma_insert fuel v' vma; some (vma, v''))
  if vma == invalid_ptr then some (invalid_ptr, v') else inserted

-- The start of the first gap that is large enough, from the area of the node `x` on; the inner
-- `none` is that there is none.
unfoldable pub gap_loop : ℕ → ℕ → Vmas → ℕ → ℕ → ℕ → Option (Option ℕ)
gap_loop zero fuel v x highest sz = none
gap_loop (suc k) fuel v x highest sz =
    let prev_end = (area_at v x).vm_end in
    let rest = (do
      x' ← rb_next fuel v.tree x
      let later = gap_loop k fuel v x' highest sz
      let gap = sub64 (area_at v x').vm_start prev_end
      if leb sz gap then some (some prev_end) else later) in
    if x == highest then some none else rest

-- The search beside and between the areas that there are.
unfoldable pub alloc_beside : ℕ → Vmas → ℕ → ℕ → Option (ℕ × Vmas)
alloc_beside fuel v sz flags = do
  lowest ← rb_first fuel v.tree
  highest ← rb_last fuel v.tree
  let low = area_at v lowest
  let high = area_at v highest
  let at_start = place_area fuel v v.r_start sz flags
  let at_end = place_area fuel v high.vm_end sz flags
  let between = (do
    found ← gap_loop fuel fuel v lowest highest sz
    elim found [ none ↦ some (invalid_ptr, v) | some begin ↦ place_area fuel v begin sz flags ])
  if (lowest == 0) || (highest == 0)
      then some (invalid_ptr, v)
      else if leb sz (sub64 low.vm_start v.r_start)
      then at_start
      else if leb sz (sub64 v.r_end high.vm_end)
      then at_end
      else between

unfoldable pub vma_alloc_area : ℕ → Vmas → ℕ → ℕ → Option (ℕ × Vmas)
vma_alloc_area fuel v area_size flags =
    let sz = page_alignup area_size in
    let alone = place_area fuel v v.r_start sz flags in
    let beside = alloc_beside fuel v sz flags in
    if ltb (sub64 v.r_end v.r_start) sz
    then some (invalid_ptr, v)
    else if v.tree.root == 0
    then alone
    else beside

-- `sizeof(kernel_vma_t)` and its alignment; `identifier` is the address of the name.
unfoldable pub vma_subsystem_init : ℕ → ℕ → Vmas → Option (ℕ × Vmas)
vma_subsystem_init fuel identifier v = do
  (ret, heap) ← kslab_cache_create fuel v.heap identifier 64 8 0
  let ready = record v {
    heap = heap;
    r_start = kernel_vmmmap;
    r_end = add64 kernel_vmmmap (2 ^ 46);
  }
  if ret == 0 then some (0, ready) else some (1, record v { heap = heap })
