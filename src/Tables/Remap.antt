-- ===== src/Tables/Remap.antt =====
-- The mappings that kernel/pagetbl.c makes for the running kernel: `remap_bootmem_kcode_pages`,
-- `remap_bootmem_dmap_pages` and what stands above them.
use sync_kernel.Prelude.{
  ℕ, zero, suc, ◌+◌, ◌-◌, ◌*◌, ◌%◌, ◌^◌, ◌||◌, Option, some, ◌==◌, ltb, leb, if◌then◌else◌, update,
  ◌>>=◌, bit_or, min,
}
use sync_kernel.Prelude.Words.{add64, sub64, invalid_ptr}
use sync_kernel.Kstring.{memset}
use sync_kernel.Paging.{
  page_l4_idx, page_l3_idx, page_l2_idx, pt_entries, pt_l1_entrysz, pt_l2_entrysz, pt_l3_entrysz,
  pt_l4_entrysz, table_count, kernel_phmmap, kernel_offset, virt_to_phys_pm, phys_to_virt_pm,
  phys_to_virt_of,
}
use sync_kernel.Buddy.Pages.{kbud_alloc, kbud_free_range}
use sync_kernel.Tables.{
  Machine, pt_flag_present, pt_flag_writable, pt_flag_pagesize, store, return_pt_or_alloc,
  kstack_guard_init,
}

-- The linker's symbols.
pub record Image : Type 0 where
  pub begin : ℕ
  pub after_ro : ℕ
  pub kphys_start : ℕ
  pub kphys_end : ℕ
  pub prebegin : ℕ
  pub preend : ℕ
  pub kstack_guard : ℕ
  pub kstack_top : ℕ

-- The entry for the page at `phy` of the kernel: its code and constants are not writable.
unfoldable pub kcode_entry : Image → ℕ → ℕ
kcode_entry img phy =
    let addr = phys_to_virt_of phy in
    let flags : ℕ =
      if ltb addr img.begin || leb img.after_ro addr
      then bit_or pt_flag_present pt_flag_writable
      else pt_flag_present in
    bit_or phy flags

-- The entries of `pt` from `k` on: `n` are left.
unfoldable pub kcode_fill : ℕ → ℕ → Image → ℕ → ℕ → Machine → Option Machine
unfolding kcode_entry store
kcode_fill zero k img pt phy m = some m
kcode_fill (suc n) k img pt phy m = do
  m' ← store m pt k (kcode_entry img phy)
  kcode_fill n (k + 1) img pt (add64 phy pt_l1_entrysz) m'

-- The tables of 2 MiB under `pd` from `j` on; also the physical address that comes next.
unfoldable pub kcode_tables : ℕ → ℕ → Image → ℕ → ℕ → ℕ → Machine → Option (ℕ × Machine)
unfolding kcode_fill return_pt_or_alloc
kcode_tables zero j img offs pd phy m = some (phy, m)
kcode_tables (suc n) j img offs pd phy m = do
  (pt, m') ← return_pt_or_alloc m pd (page_l2_idx (add64 offs (j * pt_l2_entrysz)))
  m'' ← kcode_fill pt_entries 0 img pt phy m'
  kcode_tables n (j + 1) img offs pd ((phy + pt_entries * pt_l1_entrysz) % 2 ^ 64) m''

unfoldable pub kcode_directories : ℕ → ℕ → ℕ → Image → ℕ → ℕ → ℕ → Machine → Option Machine
unfolding kcode_tables return_pt_or_alloc
kcode_directories zero i l1_count img offs l3 phy m = some m
kcode_directories (suc n) i l1_count img offs l3 phy m = do
  (pd, m') ← return_pt_or_alloc m l3 (page_l3_idx (add64 offs (i * pt_l3_entrysz)))
  (phy', m'') ← kcode_tables l1_count 0 img offs pd phy m'
  kcode_directories n (i + 1) l1_count img offs l3 phy' m''

unfoldable pub remap_bootmem_kcode_pages : Image → Machine → ℕ → ℕ → ℕ → Option Machine
unfolding kcode_directories return_pt_or_alloc
remap_bootmem_kcode_pages img m l4 offs kernsz = do
  (l3, m') ← return_pt_or_alloc m l4 (page_l4_idx offs)
  kcode_directories (table_count pt_l3_entrysz kernsz) 0 (table_count pt_l2_entrysz kernsz) img offs
      l3 0 m'

-- The entry of a page of 1 GiB of the linear mapping.
abbrev pub dmap_entry : ℕ → ℕ
dmap_entry phys = bit_or phys (bit_or (bit_or pt_flag_present pt_flag_writable) pt_flag_pagesize)

-- `n` pages of 1 GiB under one table.
unfoldable pub dmap_fill : ℕ → ℕ → ℕ → ℕ → Machine → Option Machine
unfolding store
dmap_fill zero pdpt dmap phys m = some m
dmap_fill (suc n) pdpt dmap phys m = do
  m' ← store m pdpt (page_l3_idx dmap) (dmap_entry phys)
  dmap_fill n pdpt (add64 dmap pt_l3_entrysz) (add64 phys pt_l3_entrysz) m'

-- `n` tables are left, for `rem` pages.
unfoldable pub dmap_tables : ℕ → ℕ → ℕ → ℕ → ℕ → Machine → Option Machine
unfolding dmap_fill return_pt_or_alloc
dmap_tables zero rem l4 dmap phys m = some m
dmap_tables (suc n) rem l4 dmap phys m = do
  (pdpt, m') ← return_pt_or_alloc m l4 (page_l4_idx dmap)
  let count = min rem 512
  m'' ← dmap_fill count pdpt dmap phys m'
  dmap_tables n (rem - count) l4 ((dmap + count * pt_l3_entrysz) % 2 ^ 64)
      ((phys + count * pt_l3_entrysz) % 2 ^ 64) m''

unfoldable pub remap_bootmem_dmap_pages : Machine → ℕ → ℕ → ℕ → Option Machine
unfolding dmap_tables
remap_bootmem_dmap_pages m l4 dmap ramsz =
    dmap_tables (table_count pt_l4_entrysz ramsz) (table_count pt_l3_entrysz ramsz) l4 dmap 0 m

-- What the boot code leaves: the first region of its allocator, and two of the boot parameters.
pub record BootMemory : Type 0 where
  pub base : ℕ
  pub max_frames : ℕ
  pub load_addr : ℕ
  pub ram_max : ℕ

-- The fuel is that of `kbud_free_range`.
unfoldable pub reallocate_bootmem_pages : ℕ → Image → BootMemory → Machine → Option Machine
unfolding remap_bootmem_kcode_pages remap_bootmem_dmap_pages
reallocate_bootmem_pages fuel img info m = do
  let kernsz = add64 (sub64 img.kphys_end img.kphys_start) info.load_addr
  let (pml4, memory) = kbud_alloc m.memory 0
  let fresh = record m { tables = update m.tables pml4 (λ j. 0); memory = memory }
  let preinit_memory = sub64 img.preend img.prebegin
  let base = phys_to_virt_of img.prebegin
  let mapped = (do
    code ← remap_bootmem_kcode_pages img fresh pml4 kernel_offset kernsz
    both ← remap_bootmem_dmap_pages code pml4 kernel_phmmap info.ram_max
    freed ←
        kbud_free_range fuel both.memory (phys_to_virt_pm info.base)
          (info.max_frames * 2 ^ 12 % 2 ^ 64)
    let filled = record freed { bytes = memset base 255 preinit_memory freed.bytes }
    handed ← kbud_free_range fuel filled base preinit_memory
    some (record both { cr3 = virt_to_phys_pm pml4; memory = handed }))
  if pml4 == invalid_ptr then some m else mapped

-- The code returns 0 always.
unfoldable pub kern_uhalf_init : ℕ → Image → BootMemory → Machine → Option Machine
unfolding reallocate_bootmem_pages
kern_uhalf_init fuel img info m = do
  m' ← reallocate_bootmem_pages fuel img info m
  kstack_guard_init m' img.kstack_guard img.kstack_top
