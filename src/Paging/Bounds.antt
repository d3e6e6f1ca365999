-- ===== src/Paging/Bounds.antt =====
-- Bounds, round trips and decompositions of the address arithmetic of kernel/pagetbl.h.
use sync_kernel.Prelude.{ℕ, ◌+◌, ◌*◌, ◌%◌, ◌^◌, ◌≤◌, ◌<◌, ◌≡◌, ◌↔◌, arith}
use sync_kernel.Paging.{
  page_alignup, page_l4_idx, page_l3_idx, page_l2_idx, page_l1_idx, page_offs_idx, pt_rebase,
  virt_to_phys_pm, phys_to_virt_pm, virt_to_phys_of, phys_to_virt_of, get_pagetbl_count_l3,
  get_pagetbl_count_l2, get_pagetbl_count_l1, pt_l2_entrysz, pt_l3_entrysz, pt_l4_entrysz,
}

-- `PAGE_ALIGNUP` gives the least multiple of the page size that is not below its argument, as long
-- as that does not wrap.
page_alignup_least :
    (x : ℕ)
    → x + 4095 < 2 ^ 64
    → (page_alignup x % 4096 ≡ 0)
      × (x ≤ page_alignup x)
      × ((y : ℕ) → y % 4096 ≡ 0 → x ≤ y → page_alignup x ≤ y)
unfolding page_alignup
page_alignup_least x h = (omega arith, omega arith, λ y e l. omega arith)

-- The four table indices and the offset of an address determine its 48 translated bits.
page_index_join :
    (v : ℕ)
    → page_l4_idx v * 2 ^ 39
        + page_l3_idx v * 2 ^ 30
        + page_l2_idx v * 2 ^ 21
        + page_l1_idx v * 2 ^ 12
        + page_offs_idx v
      ≡ v % 2 ^ 48
unfolding page_l4_idx page_l3_idx page_l2_idx page_l1_idx page_offs_idx
page_index_join v = omega arith

-- Both linear mappings convert to and fro without loss, at every 64-bit address.
linear_roundtrip :
    (p : ℕ)
    → p < 2 ^ 64
    → (virt_to_phys_pm (phys_to_virt_pm p) ≡ p)
      × (phys_to_virt_pm (virt_to_phys_pm p) ≡ p)
      × (virt_to_phys_of (phys_to_virt_of p) ≡ p)
      × (phys_to_virt_of (virt_to_phys_of p) ≡ p)
unfolding virt_to_phys_pm phys_to_virt_pm virt_to_phys_of phys_to_virt_of
linear_roundtrip p h = omega arith

-- The counts of tables are the least that cover the bytes: `n` entries of each level's size cover
-- them exactly when `n` is at least the count, as long as the rounding does not wrap.
pub table_count_least :
    (bytes n : ℕ)
    → bytes + 2 ^ 39 ≤ 2 ^ 64
    → ((bytes ≤ n * pt_l4_entrysz) ↔ (get_pagetbl_count_l3 bytes ≤ n))
      × ((bytes ≤ n * pt_l3_entrysz) ↔ (get_pagetbl_count_l2 bytes ≤ n))
      × ((bytes ≤ n * pt_l2_entrysz) ↔ (get_pagetbl_count_l1 bytes ≤ n))
unfolding get_pagetbl_count_l3 get_pagetbl_count_l2 get_pagetbl_count_l1
table_count_least bytes n h = (
  (λ l. omega arith, λ l. omega arith),
  (λ l. omega arith, λ l. omega arith),
  (λ l. omega arith, λ l. omega arith),
)

-- `PT_REBASE` of an entry that joins a page-aligned frame below 2^52 to flags outside bits 12 to 51
-- gives the frame back.
pt_rebase_frame :
    (frame low high : ℕ)
    → frame < 2 ^ 40
    → low < 2 ^ 12
    → high < 2 ^ 12
    → pt_rebase (high * 2 ^ 52 + frame * 2 ^ 12 + low) ≡ frame * 2 ^ 12
unfolding pt_rebase
pt_rebase_frame frame low high hf hl hh = omega arith
