-- ===== src/Vma/Tests.antt =====
-- Runs of kernel/mm/vma.c and kernel/mm/vmalloc.c on one area and one page.
use sync_kernel.Prelude.{
  ℕ, ◌+◌, ◌*◌, ◌^◌, ◌<◌, ◌≡◌, refl, ◌≢◌, some, arith, Returns, Option, length, none, inl, inr,
}
use sync_kernel.Paging.{
  kernel_phmmap, phys_to_virt_pm, pt_rebase, page_phys_rebase, page_l4_idx, page_l3_idx,
  page_l2_idx, page_alignup,
}
use sync_kernel.Rbtree.{Slot, at_root, black}
use sync_kernel.Rbtree.Shape.{Tree, leaf, fork, size, flatten, In, IsTree, Separate}
use sync_kernel.Vma.{
  Area, Vmas, vma_search, insert_loop, vma_alloc_area, place_area, node_of, read_slot,
  vma_struct_from_rb_node,
}
use sync_kernel.Vma.Insert.{Placed, insert_loop-Placed}
use sync_kernel.Vma.Fits.{Fits, placed, vma_alloc_area-Fits}
use sync_kernel.Vma.Grafts.{Grafted}
use sync_kernel.Vma.Lands.{Hangs, assigned, linked_at, place_area-links}
use sync_kernel.Slab.{Heap}
use sync_kernel.Slab.Objects.{kslab_alloc, kslab_partial_alloc}
use sync_kernel.Vma.Search.{IsOrdered, Found, vma_search-Found}
use sync_kernel.Vma.Ioremap.{vma_to_pte_flags, pt_map_norm}
use sync_kernel.Vma.Mapped.{pt_map_norm-Translates}
use sync_kernel.Vma.Sample.{pages, machine, no_cache, no_areas}
use sync_kernel.Tables.{kpt_get_l4, kpt_get_phys}
use sync_kernel.Tables.Walk.{Reaches1}

abbrev table_at : ℕ → ℕ
table_at n = kernel_phmmap + n * 4096

walk : Reaches1 machine 0x404000 (table_at 2) (table_at 3) (table_at 4)
unfolding kpt_get_l4 phys_to_virt_pm pt_rebase page_phys_rebase page_l4_idx page_l3_idx page_l2_idx
walk = (((refl, refl, refl, refl), (refl, refl, refl, refl)), (refl, refl, refl, refl))

upper_table : table_at 4 ≢ kpt_get_l4 machine
unfolding kpt_get_l4 phys_to_virt_pm pt_rebase page_phys_rebase
upper_table = omega arith

-- Reading, writing and device memory: the flags 1, 2 and 32.
pt_map_norm-Translates_example :
    Returns
      (λ m'. (o : ℕ) → o < 4096 → kpt_get_phys m' (0x404000 + o) ≡ some (0xFEE00 * 2 ^ 12 + o))
      (pt_map_norm machine (kpt_get_l4 machine) (record {
        vaddr = 0x404000;
        paddr = 0xFEE00 * 2 ^ 12;
        align_sz = 4096;
        pte_flags = vma_to_pte_flags 35;
        l4_ent_count = 1;
        l3_ent_count = 1;
        l2_ent_count = 1;
        l1_ent_count = 1;
      }))
pt_map_norm-Translates_example =
    pt_map_norm-Translates machine 0x404000 0xFEE00 35 (table_at 2) (table_at 3) (table_at 4)
      (omega arith) refl walk refl upper_table (omega arith) (omega arith)

device_flags : vma_to_pte_flags 35 ≡ 2 ^ 63 + 3
unfolding vma_to_pte_flags
device_flags = refl

-- One area of two pages; its node stands at 0x1020.
abbrev areas : Vmas
areas = record {
  r_start = 0x8000;
  r_end = 0x20000;
  tree = record {
    root = 0x1020;
    nodes = λ q. record { left = 0; right = 0; parent = 0; color = black };
  };
  areas = λ a. record { vm_start = 0x8000; vm_end = 0xA000; pages = 0; vm_flags = 3 };
  heap = record {
    cache = no_cache;
    slabs = λ a. record { next = 0; pool = 0; freelist = 0; free_count = 0 };
    words = λ a. 0;
    memory = pages;
  };
}

areas-IsTree : IsTree areas.tree.nodes areas.tree.root 0 (fork leaf 0x1020 leaf)
unfolding IsTree
areas-IsTree = (refl, omega arith, refl, refl, refl)

areas-IsOrdered : IsOrdered areas 0x8000 0x20000 (fork leaf 0x1020 leaf)
unfolding IsOrdered
areas-IsOrdered = (omega arith, omega arith, omega arith)

one_area : size (fork leaf 0x1020 leaf) < 2
unfolding size
one_area = omega arith

vma_search-Found_example :
    Returns (Found areas 0x9123 (fork leaf 0x1020 leaf)) (vma_search 2 areas 0x9123)
vma_search-Found_example =
    vma_search-Found 2 areas 0x9123 0x8000 0x20000 (fork leaf 0x1020 leaf) one_area areas-IsTree
      areas-IsOrdered

-- An area behind the one that there is.
abbrev next_area : Area
next_area = record { vm_start = 0xA000; vm_end = 0xB000; pages = 0; vm_flags = 3 }

insert_loop-Placed_example :
    Returns
      (Placed areas next_area (fork leaf 0x1020 leaf))
      (insert_loop 2 areas next_area at_root 0)
insert_loop-Placed_example =
    insert_loop-Placed 2 areas next_area at_root 0 0x8000 0x20000 0 (fork leaf 0x1020 leaf) one_area
      areas-IsTree areas-IsOrdered

areas-Separate : Separate (fork leaf 0x1020 leaf)
unfolding Separate In
areas-Separate = (λ h. h, λ h. h, λ q h. absurd h, record {}, record {})

few_areas : length (flatten (fork leaf 0x1020 leaf)) < 2
unfolding flatten
few_areas = omega arith

-- Three pages, of which there is room for none before the area and for 22 behind it.
vma_alloc_area-Fits_example :
    (o : Option ℕ) × Fits areas (page_alignup 0x2345) (flatten (fork leaf 0x1020 leaf)) o
    × (vma_alloc_area 2 areas 0x2345 3 ≡ placed 2 areas (page_alignup 0x2345) 3 o)
vma_alloc_area-Fits_example =
    vma_alloc_area-Fits 2 areas 0x2345 3 (fork leaf 0x1020 leaf) (omega arith) one_area few_areas
      areas-IsTree areas-Separate areas-IsOrdered

-- The same area, and a slab with objects left.
abbrev stocked : Vmas
stocked = record areas { heap = no_areas.heap }

abbrev left_over : Option (ℕ × Heap) → Heap
left_over none = no_areas.heap
left_over (some (p, h)) = h

abbrev lent : Heap
lent = left_over (kslab_alloc 2 stocked.heap)

lends : kslab_alloc 2 stocked.heap ≡ some (0x9000, lent)
unfolding kslab_alloc kslab_partial_alloc
lends = refl

stocked-IsTree : IsTree stocked.tree.nodes stocked.tree.root 0 (fork leaf 0x1020 leaf)
stocked-IsTree = areas-IsTree

stocked-IsOrdered : IsOrdered stocked 0x8000 0x20000 (fork leaf 0x1020 leaf)
unfolding IsOrdered
stocked-IsOrdered = (omega arith, omega arith, omega arith)

behind-Fits : Fits stocked 0x3000 (flatten (fork leaf 0x1020 leaf)) (some 0xA000)
unfolding flatten
behind-Fits = (omega arith, omega arith, (inr (omega arith), tt))

other_object : ¬ In (node_of 0x9000) (fork leaf 0x1020 leaf)
unfolding In
other_object h = ground arith

other_area : (q : ℕ) → In q (fork leaf 0x1020 leaf) → vma_struct_from_rb_node q ≢ 0x9000
unfolding In
other_area q (inl e) = rw e (omega arith)
other_area q (inr (inl h)) = absurd h
other_area q (inr (inr h)) = absurd h

place_area-links_example :
    (slot : Slot) × (parent : ℕ) × (read_slot
        (assigned stocked lent 0x9000 0xA000 0x3000 3).tree
        slot
      ≡ 0)
    × Hangs (fork leaf 0x1020 leaf) slot parent
    × ((tr' : Tree) × Grafted 0x9020 slot at_root (fork leaf 0x1020 leaf) tr'
        × IsOrdered (assigned stocked lent 0x9000 0xA000 0x3000 3) 0x8000 0x20000 tr')
    × (place_area 2 stocked 0xA000 0x3000 3
        ≡ linked_at 2 (assigned stocked lent 0x9000 0xA000 0x3000 3) 0x9000 slot parent)
place_area-links_example =
    place_area-links 2 stocked 0xA000 0x3000 3 0x9000 lent (fork leaf 0x1020 leaf) one_area
      stocked-IsTree stocked-IsOrdered behind-Fits (omega arith) (omega arith) (omega arith) lends
      (omega arith) other_object other_area
