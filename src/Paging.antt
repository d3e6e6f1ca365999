-- ===== src/Paging.antt =====
-- kernel/pagetbl.h: page and page-table arithmetic on 64-bit addresses. A mask of low bits is
-- written as the remainder that it takes, a shift as the quotient or product.
pub mod Bounds
mod Tests
use sync_kernel.Prelude.{ℕ, ◌+◌, ◌-◌, ◌*◌, ◌/◌, ◌%◌, ◌^◌}
use sync_kernel.Prelude.Words.{add64, sub64}

abbrev pub pagesize : ℕ
pagesize = 4096

-- PAGE_ALIGNDOWN: `x & ~(PAGESIZE - 1)`
unfoldable pub page_aligndown : ℕ → ℕ
page_aligndown x = x - x % pagesize

-- PAGE_ALIGNUP: `(x + (PAGESIZE - 1)) & ~(PAGESIZE - 1)`
unfoldable pub page_alignup : ℕ → ℕ
unfolding page_aligndown
page_alignup x = page_aligndown (add64 x (pagesize - 1))

unfoldable pub page_l4_idx : ℕ → ℕ
page_l4_idx virt = virt / 2 ^ 39 % 512

unfoldable pub page_l3_idx : ℕ → ℕ
page_l3_idx virt = virt / 2 ^ 30 % 512

unfoldable pub page_l2_idx : ℕ → ℕ
page_l2_idx virt = virt / 2 ^ 21 % 512

unfoldable pub page_l1_idx : ℕ → ℕ
page_l1_idx virt = virt / 2 ^ 12 % 512

unfoldable pub page_offs_idx : ℕ → ℕ
page_offs_idx virt = virt % 2 ^ 12

-- The number of ones of BITRANGE_MASK(a, b).
abbrev pub bitrange : ℕ → ℕ → ℕ
bitrange a b = a - b + 1

-- `((phys >> shift) & mask) << shift` for the mask of `width` ones
unfoldable pub page_phys_rebase : ℕ → ℕ → ℕ → ℕ
page_phys_rebase phys shift width = phys / 2 ^ shift % 2 ^ width * 2 ^ shift % 2 ^ 64

-- PT_REBASE
unfoldable pub pt_rebase : ℕ → ℕ
unfolding page_phys_rebase
pt_rebase p = page_phys_rebase p 12 (bitrange 51 12)

abbrev pub pt_entries : ℕ
pt_entries = 512

abbrev pub pt_l1_entrysz : ℕ
pt_l1_entrysz = 4096

abbrev pub pt_l2_entrysz : ℕ
pt_l2_entrysz = pt_l1_entrysz * pt_entries

abbrev pub pt_l3_entrysz : ℕ
pt_l3_entrysz = pt_l2_entrysz * pt_entries

abbrev pub pt_l4_entrysz : ℕ
pt_l4_entrysz = pt_l3_entrysz * pt_entries

-- `((bytes + (size - 1)) & ~(size - 1)) / size`, with `size` a power of two
abbrev pub table_count : ℕ → ℕ → ℕ
table_count size bytes = let up = add64 bytes (size - 1) in (up - up % size) / size

unfoldable pub get_pagetbl_count_l3 : ℕ → ℕ
get_pagetbl_count_l3 bytes = table_count pt_l4_entrysz bytes

unfoldable pub get_pagetbl_count_l2 : ℕ → ℕ
get_pagetbl_count_l2 bytes = table_count pt_l3_entrysz bytes

unfoldable pub get_pagetbl_count_l1 : ℕ → ℕ
get_pagetbl_count_l1 bytes = table_count pt_l2_entrysz bytes

-- The bases that kernel.ld gives the linear mappings and the vmalloc area.
abbrev pub kernel_phmmap : ℕ
kernel_phmmap = 0xFFFF800000000000

abbrev pub kernel_offset : ℕ
kernel_offset = 0xFFFFFFFF80000000

abbrev pub kernel_vmmmap : ℕ
kernel_vmmmap = 0xFFFFC00000000000

unfoldable pub virt_to_phys_pm : ℕ → ℕ
virt_to_phys_pm v = sub64 v kernel_phmmap

unfoldable pub phys_to_virt_pm : ℕ → ℕ
phys_to_virt_pm p = add64 p kernel_phmmap

unfoldable pub virt_to_phys_of : ℕ → ℕ
virt_to_phys_of v = sub64 v kernel_offset

unfoldable pub phys_to_virt_of : ℕ → ℕ
phys_to_virt_of p = add64 p kernel_offset
