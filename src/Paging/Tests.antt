-- ===== src/Paging/Tests.antt =====
-- Runs of the address arithmetic of kernel/pagetbl.h.
use sync_kernel.Prelude.{◌*◌, ◌≤◌, ◌≡◌, refl, ◌↔◌, arith}
use sync_kernel.Paging.{
  page_l4_idx, page_l3_idx, get_pagetbl_count_l3, get_pagetbl_count_l2, get_pagetbl_count_l1,
  pt_l2_entrysz, pt_l3_entrysz, pt_l4_entrysz,
}
use sync_kernel.Paging.Bounds.{table_count_least}

kernel_base_indices :
    (page_l4_idx 0xFFFFFFFF80201008 ≡ 511) × (page_l3_idx 0xFFFFFFFF80201008 ≡ 510)
unfolding page_l4_idx page_l3_idx
kernel_base_indices = (refl, refl)

table_count_least_example :
    ((3000000 ≤ 2 * pt_l4_entrysz) ↔ (get_pagetbl_count_l3 3000000 ≤ 2))
    × ((3000000 ≤ 2 * pt_l3_entrysz) ↔ (get_pagetbl_count_l2 3000000 ≤ 2))
    × ((3000000 ≤ 2 * pt_l2_entrysz) ↔ (get_pagetbl_count_l1 3000000 ≤ 2))
table_count_least_example = table_count_least 3000000 2 (omega arith)
