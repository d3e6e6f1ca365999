-- ===== src/Vma/Sample.antt =====
-- A small kernel for the tests: a machine with a few pages and its address space.
use sync_kernel.Prelude.{
  arith, ℕ, ◌+◌, ◌*◌, ◌≡◌, ◌≢◌, sym, refl, Option, none, some, [], ◌==◌, if◌then◌else◌,
}
use sync_kernel.Prelude.Words.{invalid_ptr}
use sync_kernel.Paging.{
  kernel_phmmap, page_alignup, page_aligndown, get_pagetbl_count_l3, get_pagetbl_count_l2,
  get_pagetbl_count_l1, phys_to_virt_pm, pt_rebase, page_l4_idx, page_l3_idx, page_l2_idx,
  page_l1_idx, page_phys_rebase,
}
use sync_kernel.Buddy.{Slave}
use sync_kernel.Buddy.Master.{Memory}
use sync_kernel.Slab.{Cache}
use sync_kernel.Slab.Objects.{kslab_alloc, kslab_partial_alloc}
use sync_kernel.Rbtree.{black, rb_insert}
use sync_kernel.Vma.{Vmas, vma_alloc_area, place_area, vma_assign_struct, vma_insert, insert_loop}
use sync_kernel.Vma.Ioremap.{
  Kernel, ioremap, map_area, pt_map_norm, norm_l4, norm_l3, norm_l2, enter, fill_entries,
  vma_to_pte_flags,
}
use sync_kernel.Tables.{Machine, return_pt_or_alloc, kpt_get_l4, store, load}

-- Two free pages, as one block.
abbrev pub header : Slave
header = record {
  free = λ k. if k == 1 then kernel_phmmap + 0x104000 else 0;
  order_blk_cnt = λ k. if k == 1 then 1 else 0;
  max_order = 3;
  bitmap_arr = λ k. 64 * k;
  maxbits = λ k. 8;
  bitmap_reserved = 0;
  lut_base = 0;
  rbase = 0xFF000;
  mbase = 0x100000;
  total_pages = 16;
}

abbrev pub pages : Memory
pages = record {
  regions = λ i. if i == 0 then kernel_phmmap + 0xFF000 else invalid_ptr;
  region_count = 1;
  slaves = λ v. header;
  frames = λ a. record { next = 0; order = 1 };
  bytes = λ a. 0;
}

-- `0x403000` is a page of 4 KiB, `0x600000` one of 2 MiB.
abbrev pub entries : ℕ → ℕ → ℕ
entries t i =
    if t == kernel_phmmap + 0x1000
    then if i == 0 then 0x2003 else 0
    else if t == kernel_phmmap + 0x2000
    then if i == 0 then 0x3003 else 0
    else if t == kernel_phmmap + 0x3000
    then if i == 2 then 0x4003 else if i == 3 then 0xA00083 else 0
    else if t == kernel_phmmap + 0x4000
    then if i == 3 then 0x5003 else 0
    else 0

abbrev pub machine : Machine
machine = record { cr3 = 0x1000; tables = entries; memory = pages; flushed = [] }

abbrev pub no_cache : Cache
no_cache = record {
  identifier = 0;
  order = 0;
  obj_size = 64;
  alignment = 8;
  slab_pages = 1;
  full = 0;
  partial = 0;
  empty = 0;
  empty_slabs = 0;
  slab_objs_per = 0;
  waste = 0;
  reserved = 0;
  metadata = 0;
  max_empty_slabs = 4;
}

-- No areas yet, and a slab with five objects left, the first at 0x9000.
abbrev pub no_areas : Vmas
no_areas = record {
  r_start = 0x404000;
  r_end = 0x500000;
  tree = record {
    root = 0;
    nodes = λ q. record { left = 0; right = 0; parent = 0; color = black };
  };
  areas = λ a. record { vm_start = 0; vm_end = 0; pages = 0; vm_flags = 0 };
  heap = record {
    cache = record no_cache { partial = 0x8000 };
    slabs = λ a. record { next = 0; pool = 0x9000; freelist = 0x9000; free_count = 5 };
    words = λ a. a + 64;
    memory = pages;
  };
}

abbrev pub kernel : Kernel
kernel = record { machine = machine; vmas = no_areas }

abbrev pub pointer : Option (ℕ × Kernel) → ℕ
pointer none = 0
pointer (some (p, k)) = p

-- What stands behind a pointer that is not null.
pub pointer_found :
    (o : Option (ℕ × Kernel)) (p : ℕ) → pointer o ≡ p → p ≢ 0 → (k : Kernel) × (o ≡ some (p, k))
pointer_found none p e h = absurd (h (sym e))
pointer_found (some (q, k)) p e h = (k, rw e refl)

pub text_screen : pointer (ioremap 100 kernel 0xB8000 4000 35) ≡ 0x404000
unfolding ioremap vma_alloc_area place_area vma_assign_struct kslab_alloc vma_insert insert_loop
    page_alignup kslab_partial_alloc rb_insert map_area pt_map_norm norm_l4 norm_l3 norm_l2
    get_pagetbl_count_l3 get_pagetbl_count_l2 get_pagetbl_count_l1 enter return_pt_or_alloc
    kpt_get_l4 phys_to_virt_pm pt_rebase page_l4_idx page_l3_idx page_l2_idx page_l1_idx
    fill_entries store load page_aligndown page_phys_rebase vma_to_pte_flags
text_screen = refl

-- With the flags of a framebuffer.
pub pixels : pointer (ioremap 100 kernel 0xFEE00000 4096 163) ≡ 0x404000
unfolding ioremap vma_alloc_area place_area vma_assign_struct kslab_alloc vma_insert insert_loop
    page_alignup kslab_partial_alloc rb_insert map_area pt_map_norm norm_l4 norm_l3 norm_l2
    get_pagetbl_count_l3 get_pagetbl_count_l2 get_pagetbl_count_l1 enter return_pt_or_alloc
    kpt_get_l4 phys_to_virt_pm pt_rebase page_l4_idx page_l3_idx page_l2_idx page_l1_idx
    fill_entries store load page_aligndown page_phys_rebase vma_to_pte_flags
pixels = refl

abbrev pub pixels_found :
    (k : Kernel) × (ioremap 100 kernel 0xFEE00000 4096 163 ≡ some (0x404000, k))
pixels_found = pointer_found (ioremap 100 kernel 0xFEE00000 4096 163) 0x404000 pixels (omega arith)
