-- ===== src/Boot.antt =====
-- kernel/boot.c, boot.h and bootparams.h: from the loader's information to the first tables. `none`
-- is a machine that stops: `die`, or a write through the error pointer or past an array.
pub mod Maps
pub mod Sorting
pub mod Tags
pub mod Frames
pub mod Start
mod Tests
use sync_kernel.Prelude.{
  ℕ, zero, suc, ◌+◌, ◌-◌, ◌*◌, ◌/◌, ◌%◌, ◌^◌, ◌&&◌, Option, none, some, ◌==◌, ltb, leb,
  if◌then◌else◌, update,
}
use sync_kernel.Prelude.Words.{add64, sub64, invalid_ptr}
use sync_kernel.Buddy.{pframe_max_regions}

-- `bootparam_map_entry`
pub record MapEntry : Type 0 where
  pub base : ℕ
  pub len : ℕ

-- `bootparam_map_info`
pub record MapInfo : Type 0 where
  pub entries : ℕ → MapEntry
  pub entries_reclaimable : ℕ → MapEntry
  pub ram_max : ℕ
  pub ram_usable : ℕ
  pub count : ℕ
  pub count_reclaimable : ℕ

-- `bootparam_framebuf_info`
pub record FramebufInfo : Type 0 where
  pub phys : ℕ
  pub virt : ℕ
  pub width : ℕ
  pub height : ℕ
  pub pitch : ℕ
  pub bpp : ℕ

-- `kern_boot_type_t`
pub data BootType : Type 0 where
  bios : BootType
  efi32 : BootType
  efi64 : BootType

-- The values of the enumeration.
abbrev pub boot_type : BootType → ℕ
boot_type bios = 0
boot_type efi32 = 1
boot_type efi64 = 2

-- `kboot_info_t`
pub record BootInfo : Type 0 where
  pub cmdline : ℕ → ℕ
  pub fb : FramebufInfo
  pub maps : MapInfo
  pub load_addr : ℕ
  pub acpi_rsdp_addr : ℕ
  pub bootenv : BootType

-- `physmem_pregion_t`
pub record Region : Type 0 where
  pub top : ℕ
  pub base : ℕ
  pub cur_frames : ℕ
  pub max_frames : ℕ

-- `preinit_pfa` with the memory that the boot code writes, by physical address: the headers of the
-- regions and the tables; also `%cr3`.
pub record Preinit : Type 0 where
  pub region : ℕ → ℕ
  pub region_count : ℕ
  pub headers : ℕ → Region
  pub tables : ℕ → ℕ → ℕ
  pub cr3 : ℕ

-- `_kphys_start` and `_kphys_end` of the linker
pub record Span : Type 0 where
  pub kphys_start : ℕ
  pub kphys_end : ℕ

-- The region takes its frames from `addr` on; the header stands in the first.
unfoldable pub region_at : ℕ → ℕ → Region
region_at addr len =
    let frames = (len - len % 4096) / 4096 in
    record {
      base = addr;
      max_frames = frames;
      cur_frames = sub64 frames 1;
      top = sub64 (add64 addr len) 4096;
    }

unfoldable pub pf_init_region : Span → Preinit → ℕ → MapEntry → Preinit
unfolding region_at
pf_init_region span pfa region ent =
    let holds_kernel =
      leb ent.base span.kphys_start && leb span.kphys_end (add64 ent.base ent.len) in
    let addr = if holds_kernel then add64 ent.base span.kphys_end else ent.base in
    let len = if holds_kernel then sub64 ent.len span.kphys_end else ent.len in
    record pfa {
      region = update pfa.region region addr;
      headers = update pfa.headers addr (region_at addr len);
      region_count = pfa.region_count + 1;
    }

-- `n` entries are left, from `i` on.
unfoldable pub init_regions : ℕ → Span → Preinit → ℕ → MapInfo → Option Preinit
unfolding pf_init_region
init_regions zero span pfa i maps = some pfa
init_regions (suc n) span pfa i maps =
    let rest = init_regions n span (pf_init_region span pfa i (maps.entries i)) (i + 1) maps in
    if ltb 64 (i + 1) then none else rest

-- The argument is never null here.
unfoldable pub alloc_init : Span → Preinit → MapInfo → Option Preinit
unfolding init_regions
alloc_init span pfa maps =
    init_regions maps.count span (record pfa { region = λ i. invalid_ptr }) 0 maps

-- The regions from the one numbered `i` on, `n` at most.
unfoldable pub frame_loop : ℕ → ℕ → ℕ → Preinit → Option (ℕ × Preinit)
frame_loop zero i pr_addr_end pfa = none
frame_loop (suc n) i pr_addr_end pfa =
    let v = pfa.region i in
    let r = pfa.headers v in
    let rest = frame_loop n (i + 1) pr_addr_end pfa in
    let taken = record r { top = sub64 r.top 4096; cur_frames = r.cur_frames - 1 } in
    let after = record pfa {
      headers = update pfa.headers v taken;
      tables = update pfa.tables r.top (λ j. 0);
    } in
    if v == invalid_ptr
    then some (invalid_ptr, pfa)
    else if r.cur_frames == 0
    then rest
    else if leb pr_addr_end r.top
    then none
    else some (r.top, after)

-- The address that no frame may reach is that of the first region.
unfoldable pub alloc_frame : Preinit → Option (ℕ × Preinit)
alloc_frame pfa =
    let first = pfa.headers (pfa.region 0) in
    let pr_addr_end = add64 first.base (first.max_frames * 4096 % 2 ^ 64) in
    let frame = frame_loop pframe_max_regions 0 pr_addr_end pfa in
    if pfa.region 0 == invalid_ptr then none else frame
