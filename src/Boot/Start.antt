-- ===== src/Boot/Start.antt =====
-- The first tables, the pages handed to the buddy allocator, and `start_kernel` of kernel/boot.c.
use sync_kernel.Prelude.{
  ℕ, zero, suc, ◌+◌, ◌-◌, ◌*◌, ◌%◌, ◌^◌, not, Option, none, some, ◌==◌, if◌then◌else◌, update,
  ◌>>=◌, bit_or, min,
}
use sync_kernel.Prelude.Words.{add64, sub64, invalid_ptr}
use sync_kernel.Paging.{
  page_l4_idx, page_l3_idx, page_l2_idx, pt_rebase, pt_entries, pt_l1_entrysz, pt_l2_entrysz,
  pt_l3_entrysz, pt_l4_entrysz, table_count, kernel_phmmap, kernel_offset, phys_to_virt_pm,
}
use sync_kernel.Buddy.Master.{Memory, slave_size, zero_slave}
use sync_kernel.Buddy.Pages.{kbud_free_range}
use sync_kernel.Tables.{pt_flag_present, pt_flag_writable, is_present}
use sync_kernel.Tables.Remap.{Image, kcode_entry, dmap_entry}
use sync_kernel.Boot.{MapInfo, bios, BootInfo, Region, Preinit, Span, alloc_init, alloc_frame}
use sync_kernel.Boot.Maps.{pi_parse_mb2}

-- The counter of the code has 32 bits, and no caller gives as many bytes.
unfoldable pub pi_memset : ℕ → ℕ → ℕ → (ℕ → ℕ) → ℕ → ℕ
pi_memset dst c zero m = m
pi_memset dst c (suc n) m = update (pi_memset dst c n m) (dst + n) (c % 256)

-- `t->entries[i] = e` at a physical address
unfoldable pub set_entry : Preinit → ℕ → ℕ → ℕ → Option Preinit
set_entry pfa t i e =
    if t == invalid_ptr
    then none
    else some (record pfa { tables = update pfa.tables t (update (pfa.tables t) i e) })

-- The argument `pte` is the entry `i` of the table `t`.
unfoldable pub chk_pt_alloc : Preinit → ℕ → ℕ → Option (ℕ × Preinit)
unfolding set_entry alloc_frame
chk_pt_alloc pfa t i =
    let e = pfa.tables t i in
    let made = (do
      (p, pfa') ← alloc_frame pfa
      pfa'' ← set_entry pfa' t i (bit_or p (bit_or pt_flag_present pt_flag_writable))
      some (p, pfa'')) in
    if t == invalid_ptr then none else if not (is_present e) then made else some (pt_rebase e, pfa)

-- `n` pages of 1 GiB under one table.
unfoldable pub dram_fill : ℕ → ℕ → ℕ → ℕ → Preinit → Option Preinit
unfolding set_entry
dram_fill zero pt_l3 offs phys pfa = some pfa
dram_fill (suc n) pt_l3 offs phys pfa = do
  pfa' ← set_entry pfa pt_l3 (page_l3_idx offs) (dmap_entry phys)
  dram_fill n pt_l3 (add64 offs pt_l3_entrysz) (add64 phys pt_l3_entrysz) pfa'

-- `n` tables are left, for `rem` pages.
unfoldable pub dram_tables : ℕ → ℕ → ℕ → ℕ → ℕ → Preinit → Option Preinit
unfolding dram_fill chk_pt_alloc
dram_tables zero rem pt_l4 offs phys pfa = some pfa
dram_tables (suc n) rem pt_l4 offs phys pfa = do
  (pt_l3, pfa') ← chk_pt_alloc pfa pt_l4 (page_l4_idx offs)
  let count = min rem 512
  pfa'' ← dram_fill count pt_l3 offs phys pfa'
  dram_tables n (rem - count) pt_l4 ((offs + count * pt_l3_entrysz) % 2 ^ 64)
      ((phys + count * pt_l3_entrysz) % 2 ^ 64) pfa''

unfoldable pub pt_init_dram_map : Preinit → ℕ → MapInfo → Option Preinit
unfolding dram_tables
pt_init_dram_map pfa pt_l4 info =
    let l3_count = table_count pt_l4_entrysz info.ram_max in
    let l2_count = table_count pt_l3_entrysz info.ram_max in
    dram_tables l3_count l2_count pt_l4 kernel_phmmap 0 pfa

-- The entries of `pt` from `k` on: `n` are left.
unfoldable pub code_fill : ℕ → ℕ → Image → ℕ → ℕ → Preinit → Option Preinit
unfolding set_entry
code_fill zero k img pt phy pfa = some pfa
code_fill (suc n) k img pt phy pfa = do
  pfa' ← set_entry pfa pt k (kcode_entry img phy)
  code_fill n (k + 1) img pt (add64 phy pt_l1_entrysz) pfa'

-- The tables under `pd` from `j` on; also the physical address that comes next.
unfoldable pub code_tables : ℕ → ℕ → Image → ℕ → ℕ → Preinit → Option (ℕ × Preinit)
unfolding code_fill chk_pt_alloc
code_tables zero j img pd phy pfa = some (phy, pfa)
code_tables (suc n) j img pd phy pfa = do
  (pt, pfa') ← chk_pt_alloc pfa pd (page_l2_idx (add64 kernel_offset (j * pt_l2_entrysz)))
  pfa'' ← code_fill pt_entries 0 img pt phy pfa'
  code_tables n (j + 1) img pd ((phy + pt_entries * pt_l1_entrysz) % 2 ^ 64) pfa''

unfoldable pub code_directories : ℕ → ℕ → ℕ → Image → ℕ → ℕ → Preinit → Option Preinit
unfolding code_tables chk_pt_alloc
code_directories zero i l1_count img l3 phy pfa = some pfa
code_directories (suc n) i l1_count img l3 phy pfa = do
  (pd, pfa') ← chk_pt_alloc pfa l3 (page_l3_idx (add64 kernel_offset (i * pt_l3_entrysz)))
  (phy', pfa'') ← code_tables l1_count 0 img pd phy pfa'
  code_directories n (i + 1) l1_count img l3 phy' pfa''

unfoldable pub pt_init_kcode : Preinit → Image → ℕ → BootInfo → Option Preinit
unfolding code_directories chk_pt_alloc
pt_init_kcode pfa img pt_l4 info = do
  let kernsz = add64 (sub64 img.kphys_end img.kphys_start) info.load_addr
  (l3, pfa') ← chk_pt_alloc pfa pt_l4 (page_l4_idx kernel_offset)
  code_directories (table_count pt_l3_entrysz kernsz) 0 (table_count pt_l2_entrysz kernsz) img l3 0
      pfa'

unfoldable pub pt_init_temp_identmap : Preinit → ℕ → Option Preinit
unfolding set_entry chk_pt_alloc
pt_init_temp_identmap pfa pt_l4 = do
  (pt_l3, pfa') ← chk_pt_alloc pfa pt_l4 0
  pfa'' ← set_entry pfa' pt_l4 0 (bit_or pt_l3 (bit_or pt_flag_present pt_flag_writable))
  set_entry pfa'' pt_l3 0 (dmap_entry 0)

unfoldable pub init_higher_half : Preinit → Image → BootInfo → Option Preinit
unfolding pt_init_temp_identmap pt_init_kcode pt_init_dram_map alloc_frame
init_higher_half pfa img info = do
  (pt_l4, framed) ← alloc_frame pfa
  identity ← pt_init_temp_identmap framed pt_l4
  code ← pt_init_kcode (record identity { cr3 = pt_l4 }) img pt_l4 info
  pt_init_dram_map code pt_l4 info.maps

-- `MASTER_BUDDY` with its two totals
pub record Handoff : Type 0 where
  pub memory : Memory
  pub total_ram : ℕ
  pub usable_ram : ℕ

-- One region given away; the fuel is that of `kbud_free_range`.
unfoldable pub hand_region : ℕ → Region → Memory → Option Memory
unfolding pi_memset
hand_region fuel r m =
    let newbase = phys_to_virt_pm r.base in
    let cleared = record m {
      slaves = update m.slaves newbase zero_slave;
      bytes = pi_memset newbase 0 slave_size m.bytes;
    } in
    kbud_free_range fuel cleared newbase (r.cur_frames * 4096 % 2 ^ 64)

-- `n` regions are left, from `i` on.
unfoldable pub hand_loop : ℕ → ℕ → ℕ → Preinit → Memory → Option Memory
unfolding hand_region
hand_loop fuel zero i pfa m = some m
hand_loop fuel (suc n) i pfa m = do
  m' ← hand_region fuel (pfa.headers (pfa.region i)) m
  hand_loop fuel n (i + 1) pfa m'

unfoldable pub buddy_handoff : ℕ → Preinit → MapInfo → Memory → Option Handoff
unfolding hand_loop
buddy_handoff fuel pfa info m = do
  m' ← hand_loop fuel (pfa.region_count - 1) 1 pfa m
  some (record { memory = m'; total_ram = info.ram_max; usable_ram = info.ram_usable })

-- `pi_memset(&boot_info, 0, sizeof(boot_info))`
abbrev pub no_info : BootInfo
no_info = record {
  cmdline = λ i. 0;
  fb = record { phys = 0; virt = 0; width = 0; height = 0; pitch = 0; bpp = 0 };
  maps = record {
    entries = λ i. record { base = 0; len = 0 };
    entries_reclaimable = λ i. record { base = 0; len = 0 };
    ram_max = 0;
    ram_usable = 0;
    count = 0;
    count_reclaimable = 0;
  };
  load_addr = 0;
  acpi_rsdp_addr = 0;
  bootenv = bios;
}

-- What `kernel_main` finds: the parameters, the tables and the page allocator.
unfoldable pub start_kernel :
    ℕ → (ℕ → ℕ) → ℕ → Image → Preinit → Memory → Option (BootInfo × Preinit × Handoff)
unfolding pi_parse_mb2 alloc_init init_higher_half buddy_handoff
start_kernel fuel m mbh img pfa memory = do
  info ← pi_parse_mb2 fuel m mbh no_info
  let span : Span = record { kphys_start = img.kphys_start; kphys_end = img.kphys_end }
  regions ← alloc_init span pfa info.maps
  mapped ← init_higher_half regions img info
  handed ← buddy_handoff fuel mapped info.maps memory
  some (info, mapped, handed)
