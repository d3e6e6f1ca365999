-- ===== src/Vma/Ioremap.antt =====
-- kernel/mm/vmalloc.c: device memory mapped into an area of virtual memory. Also `mm_init` of
-- kernel/mm/kmalloc.c.
use sync_kernel.Prelude.{
  none, ℕ, zero, suc, ◌-◌, ◌*◌, ◌/◌, ◌%◌, ◌^◌, Bool, ◌&&◌, not, Option, some, ◌==◌, if◌then◌else◌,
  ◌>>=◌, bit_or, min,
}
use sync_kernel.Prelude.Words.{add64, invalid_ptr}
use sync_kernel.Paging.{
  page_aligndown, page_alignup, page_l4_idx, page_l3_idx, page_l2_idx, page_l1_idx, pt_l1_entrysz,
  pt_l2_entrysz, pt_l3_entrysz, get_pagetbl_count_l3, get_pagetbl_count_l2, get_pagetbl_count_l1,
}
use sync_kernel.Tables.{
  Machine, pt_flag_present, pt_flag_writable, pt_flag_pagesize, store, kpt_get_l4,
  return_pt_or_alloc,
}
use sync_kernel.Tables.Remap.{Image, BootMemory, kern_uhalf_init}
use sync_kernel.Vma.{Vmas, vma_alloc_area, vma_subsystem_init}

-- `PT_FLAG_BITS` and the bit that forbids execution
abbrev pub pt_flag_user : ℕ
pt_flag_user = 4

abbrev pub pt_flag_write_through : ℕ
pt_flag_write_through = 8

abbrev pub pt_flag_pagecache_disable : ℕ
pt_flag_pagecache_disable = 16

abbrev pub no_execute : ℕ
no_execute = 2 ^ 63

-- `flags & (1 << k)`
abbrev pub has_flag : ℕ → ℕ → Bool
has_flag flags k = flags / 2 ^ k % 2 == 1

abbrev pub add_flag : Bool → ℕ → ℕ → ℕ
add_flag test flag f = if test then bit_or f flag else f

unfoldable pub vma_to_pte_flags : ℕ → ℕ
vma_to_pte_flags flags =
    let write = add_flag (has_flag flags 1) pt_flag_writable pt_flag_present in
    let user = add_flag (has_flag flags 3) pt_flag_user write in
    let io = add_flag (has_flag flags 5) (bit_or pt_flag_present pt_flag_writable) user in
    let nocache = add_flag (has_flag flags 6) pt_flag_pagecache_disable io in
    let through = add_flag (has_flag flags 7) pt_flag_write_through nocache in
    add_flag (not (has_flag flags 2)) no_execute through

-- `page_ctx_t`
pub record PageCtx : Type 0 where
  pub vaddr : ℕ
  pub paddr : ℕ
  pub align_sz : ℕ
  pub pte_flags : ℕ
  pub l4_ent_count : ℕ
  pub l3_ent_count : ℕ
  pub l2_ent_count : ℕ
  pub l1_ent_count : ℕ

-- The variables that the loops of a mapping change.
pub record Cursor : Type 0 where
  pub vbase : ℕ
  pub pbase : ℕ
  pub l3_ent_rem : ℕ
  pub l2_ent_rem : ℕ
  pub l1_ent_rem : ℕ
  pub machine : Machine

-- The innermost loop of the three mappings: `n` entries of a table, each for a page of `size` bytes.
unfoldable pub fill_entries : (ℕ → ℕ) → ℕ → ℕ → ℕ → ℕ → Cursor → Option Cursor
fill_entries idx size flags zero table c = some c
fill_entries idx size flags (suc n) table c = do
  m ← store c.machine table (idx c.vbase) (bit_or c.pbase flags)
  fill_entries idx size flags n table
      (record c { vbase = add64 c.vbase size; pbase = add64 c.pbase size; machine = m })

-- The table below the entry of another, as a loop enters it.
unfoldable pub enter : (ℕ → ℕ) → ℕ → Cursor → Option (ℕ × Cursor)
enter idx table c = do
  (t, m) ← return_pt_or_alloc c.machine table (idx c.vbase)
  some (t, record c { machine = m })

unfoldable pub huge_l4 : ℕ → ℕ → ℕ → Cursor → Option Cursor
huge_l4 zero l4 flags c = some c
huge_l4 (suc n) l4 flags c = do
  (l3, c') ← enter page_l4_idx l4 c
  let count = min c'.l3_ent_rem 512
  c'' ← fill_entries page_l3_idx pt_l3_entrysz (bit_or flags pt_flag_pagesize) count l3 c'
  huge_l4 n l4 flags (record c'' { l3_ent_rem = c''.l3_ent_rem - count })

unfoldable pub large_l3 : ℕ → ℕ → ℕ → Cursor → Option Cursor
large_l3 zero l3 flags c = some c
large_l3 (suc n) l3 flags c = do
  (l2, c') ← enter page_l3_idx l3 c
  let count = min c'.l2_ent_rem 512
  c'' ← fill_entries page_l2_idx pt_l2_entrysz (bit_or flags pt_flag_pagesize) count l2 c'
  large_l3 n l3 flags (record c'' { l2_ent_rem = c''.l2_ent_rem - count })

-- The loop below runs to what remains of `l3_ent_rem`, not to the count of this table.
unfoldable pub large_l4 : ℕ → ℕ → ℕ → Cursor → Option Cursor
large_l4 zero l4 flags c = some c
large_l4 (suc n) l4 flags c = do
  (l3, c') ← enter page_l4_idx l4 c
  c'' ← large_l3 c'.l3_ent_rem l3 flags c'
  large_l4 n l4 flags (record c'' { l3_ent_rem = c''.l3_ent_rem - min c''.l3_ent_rem 512 })

unfoldable pub norm_l2 : ℕ → ℕ → ℕ → Cursor → Option Cursor
norm_l2 zero l2 flags c = some c
norm_l2 (suc n) l2 flags c = do
  (l1, c') ← enter page_l2_idx l2 c
  let count = min c'.l1_ent_rem 512
  c'' ← fill_entries page_l1_idx pt_l1_entrysz flags count l1 c'
  norm_l2 n l2 flags (record c'' { l1_ent_rem = c''.l1_ent_rem - count })

unfoldable pub norm_l3 : ℕ → ℕ → ℕ → Cursor → Option Cursor
norm_l3 zero l3 flags c = some c
norm_l3 (suc n) l3 flags c = do
  (l2, c') ← enter page_l3_idx l3 c
  let count = min c'.l2_ent_rem 512
  c'' ← norm_l2 count l2 flags c'
  norm_l3 n l3 flags (record c'' { l2_ent_rem = c''.l2_ent_rem - count })

unfoldable pub norm_l4 : ℕ → ℕ → ℕ → Cursor → Option Cursor
norm_l4 zero l4 flags c = some c
norm_l4 (suc n) l4 flags c = do
  (l3, c') ← enter page_l4_idx l4 c
  let count = min c'.l3_ent_rem 512
  c'' ← norm_l3 count l3 flags c'
  norm_l4 n l4 flags (record c'' { l3_ent_rem = c''.l3_ent_rem - count })

abbrev pub start_at : PageCtx → Machine → Cursor
start_at ctx m = record {
  vbase = ctx.vaddr;
  pbase = ctx.paddr;
  l3_ent_rem = ctx.l3_ent_count;
  l2_ent_rem = ctx.l2_ent_count;
  l1_ent_rem = ctx.l1_ent_count;
  machine = m;
}

unfoldable pub pt_map_huge : Machine → ℕ → PageCtx → Option Machine
pt_map_huge m l4 ctx = do
  c ← huge_l4 ctx.l4_ent_count l4 ctx.pte_flags (start_at ctx m)
  some c.machine

unfoldable pub pt_map_large : Machine → ℕ → PageCtx → Option Machine
pt_map_large m l4 ctx = do
  c ← large_l4 ctx.l4_ent_count l4 ctx.pte_flags (start_at ctx m)
  some c.machine

unfoldable pub pt_map_norm : Machine → ℕ → PageCtx → Option Machine
pt_map_norm m l4 ctx = do
  c ← norm_l4 ctx.l4_ent_count l4 ctx.pte_flags (start_at ctx m)
  some c.machine

-- `SZ_2M` and `SZ_1G`, as the code writes them
abbrev pub sz_2m : ℕ
sz_2m = 2 * 1024 * 1024

abbrev pub sz_1g : ℕ
sz_1g = 1 * 1024 * 1024 * 1024

abbrev pub is_aligned : ℕ → ℕ → Bool
is_aligned val align = val % align == 0

unfoldable pub map_area : Machine → PageCtx → Option Machine
map_area m ctx =
    let aligned : ℕ → Bool =
      λ n. is_aligned ctx.paddr n && is_aligned ctx.vaddr n && is_aligned ctx.align_sz n in
    let huge = pt_map_huge m (kpt_get_l4 m) ctx in
    let large = pt_map_large m (kpt_get_l4 m) ctx in
    let norm = pt_map_norm m (kpt_get_l4 m) ctx in
    if aligned sz_1g then huge else if aligned sz_2m then large else norm

-- The tables and the areas take their pages from the same allocator.
pub record Kernel : Type 0 where
  pub machine : Machine
  pub vmas : Vmas

-- The result 0 is null.
unfoldable pub ioremap : ℕ → Kernel → ℕ → ℕ → ℕ → Option (ℕ × Kernel)
ioremap fuel k phy len flags = do
  let offs = phy % 4096
  let aligned_size = page_alignup (add64 len offs)
  let lent = record (k.vmas) { heap = record (k.vmas.heap) { memory = k.machine.memory } }
  (vma, vmas) ← vma_alloc_area fuel lent aligned_size flags
  let m = record (k.machine) { memory = vmas.heap.memory }
  let ctx : PageCtx = record {
    paddr = page_aligndown phy;
    vaddr = (vmas.areas vma).vm_start;
    align_sz = aligned_size;
    pte_flags = vma_to_pte_flags flags;
    l4_ent_count = get_pagetbl_count_l3 aligned_size;
    l3_ent_count = get_pagetbl_count_l2 aligned_size;
    l2_ent_count = get_pagetbl_count_l1 aligned_size;
    l1_ent_count = aligned_size / 2 ^ 12;
  }
  let mapped = (do
    m' ← map_area m ctx
    some (add64 ctx.vaddr offs, record { machine = m'; vmas = vmas }))
  if vma == invalid_ptr then some (0, record { machine = m; vmas = vmas }) else mapped

-- These are not written yet, and return null or nothing.
abbrev pub ioremap_prot : ℕ → ℕ → ℕ → ℕ
ioremap_prot phy len flags = 0

abbrev pub iounmap : ℕ → ℕ
iounmap vaddr = 0

abbrev pub kmap : ℕ → ℕ
kmap phy = 0

abbrev pub vmalloc_init : ℕ
vmalloc_init = 0

abbrev pub kmalloc_init : ℕ
kmalloc_init = 0

-- `mm_init` of kernel/mm/kmalloc.c; `none` is also its panic.
unfoldable pub mm_init : ℕ → ℕ → Image → BootMemory → Kernel → Option Kernel
mm_init fuel identifier img info k = do
  m ← kern_uhalf_init fuel img info k.machine
  let lent = record (k.vmas) { heap = record (k.vmas.heap) { memory = m.memory } }
  (ret, vmas) ← vma_subsystem_init fuel identifier lent
  let ready : Kernel = record { machine = record m { memory = vmas.heap.memory }; vmas = vmas }
  if (ret == 0) && ((vmalloc_init == 0) && (kmalloc_init == 0)) then some ready else none
