-- ===== src/Tables/Tests.antt =====
-- Runs of kernel/pagetbl.c on the tables of two pages.
use sync_kernel.Prelude.{
  ℕ, ◌+◌, ◌≤◌, ◌<◌, ◌≡◌, refl, ◌≢◌, ◌⊎◌, false, some, [], ◌∷◌, arith, ◌==◌, Returns, if◌then◌else◌,
  ◌^◌, ◌*◌,
}
use sync_kernel.Prelude.Words.{invalid_ptr}
use sync_kernel.Paging.{
  kernel_phmmap, kernel_offset, phys_to_virt_pm, virt_to_phys_pm, pt_rebase, page_phys_rebase,
  page_aligndown, page_l4_idx, page_l3_idx, page_l2_idx, page_l1_idx,
}
use sync_kernel.Buddy.{
  Slave, kbud_pfnum, kbud_pair_idx, buddy_bit_chk, buddy_bit_set, buddy_bit_clr, kbud_push,
  kbud_pop_head,
}
use sync_kernel.Buddy.Master.{Memory}
use sync_kernel.Buddy.Pages.{alloc_in, alloc_loop, kbud_alloc, order_up, split}
use sync_kernel.Tables.{
  Machine, load, is_present, kpt_get_l4, kpt_get_phys, kpt_unmap_page, return_pt_or_alloc,
}
use sync_kernel.Tables.Walk.{
  HasFrame, Leads, IsPage, Reaches1, small, at_l1, kpt_get_phys-Translates, kpt_get_phys-Faults,
}
use sync_kernel.Tables.Remap.{Image, dmap_fill, kcode_fill}
use sync_kernel.Tables.Linear.{dmap_fill-Translates}
use sync_kernel.Tables.Code.{IsProtected, kcode_fill-IsProtected}
use sync_kernel.Tables.Unmap.{kpt_unmap_page-Faults, return_pt_or_alloc-Leads}

-- Two free pages, as one block.
abbrev header : Slave
header = record {
  free = λ k. if k == 1 then kernel_phmmap + 0x104000 else 0;
  order_blk_cnt = λ k. if k == 1 then 1 else 0;
  max_order = 3;
  bitmap_arr = λ k. 64 * k;
  maxbits = λ k. 8;
  bitmap_reserved = 0;
  lut_base = 0;
  rbase = 0xFF000;
  mbase = 0x100000;
  total_pages = 16;
}

abbrev pages : Memory
pages = record {
  regions = λ i. if i == 0 then kernel_phmmap + 0xFF000 else invalid_ptr;
  region_count = 1;
  slaves = λ v. header;
  frames = λ a. record { next = 0; order = 1 };
  bytes = λ a. 0;
}

-- `0x403000` is a page of 4 KiB, `0x600000` one of 2 MiB.
abbrev entries : ℕ → ℕ → ℕ
entries t i =
    if t == kernel_phmmap + 0x1000
    then if i == 0 then 0x2003 else 0
    else if t == kernel_phmmap + 0x2000
    then if i == 0 then 0x3003 else 0
    else if t == kernel_phmmap + 0x3000
    then if i == 2 then 0x4003 else if i == 3 then 0xA00083 else 0
    else if t == kernel_phmmap + 0x4000
    then if i == 3 then 0x5003 else 0
    else 0

abbrev machine : Machine
machine = record { cr3 = 0x1000; tables = entries; memory = pages; flushed = [] }

abbrev table_at : ℕ → ℕ
table_at n = kernel_phmmap + n * 4096

walk : Reaches1 machine 0x403010 (table_at 2) (table_at 3) (table_at 4)
unfolding kpt_get_l4 phys_to_virt_pm pt_rebase page_phys_rebase page_l4_idx page_l3_idx page_l2_idx
walk = (((refl, refl, refl, refl), (refl, refl, refl, refl)), (refl, refl, refl, refl))

abbrev frame : HasFrame 0x5003 12 5
frame = record {
  low = 3;
  high = 0;
  low_bits = omega arith;
  high_bits = omega arith;
  frame_bits = omega arith;
  value = refl;
}

last-IsPage : IsPage machine (table_at 4) (page_l1_idx 0x403010) 12 5
unfolding page_l1_idx
last-IsPage = (refl, refl, frame)

kpt_get_phys-Translates_example : kpt_get_phys machine 0x403010 ≡ some 0x5010
kpt_get_phys-Translates_example =
    kpt_get_phys-Translates machine 0x403010 0x5010
      (small (table_at 2) (table_at 3) (table_at 4) 5 walk last-IsPage refl)

-- A page of 2 MiB.
kpt_get_phys_large : kpt_get_phys machine 0x601234 ≡ some 0xA01234
unfolding kpt_get_phys load kpt_get_l4 phys_to_virt_pm pt_rebase page_phys_rebase page_l4_idx
    page_l3_idx page_l2_idx
kpt_get_phys_large = refl

walk_beside : Reaches1 machine 0x404000 (table_at 2) (table_at 3) (table_at 4)
unfolding kpt_get_l4 phys_to_virt_pm pt_rebase page_phys_rebase page_l4_idx page_l3_idx page_l2_idx
walk_beside = (((refl, refl, refl, refl), (refl, refl, refl, refl)), (refl, refl, refl, refl))

absent_beside : is_present (machine.tables (table_at 4) (page_l1_idx 0x404000)) ≡ false
unfolding page_l1_idx
absent_beside = refl

kpt_get_phys-Faults_example : kpt_get_phys machine 0x404000 ≡ some invalid_ptr
kpt_get_phys-Faults_example =
    kpt_get_phys-Faults machine 0x404000
      (at_l1 (table_at 2) (table_at 3) (table_at 4) walk_beside (refl, absent_beside))

other_table : table_at 4 ≢ kpt_get_l4 machine
unfolding kpt_get_l4 phys_to_virt_pm pt_rebase page_phys_rebase
other_table = omega arith

kpt_unmap_page-Faults_example :
    Returns
      (λ m'.
        ((w : ℕ)
          → page_aligndown w ≡ page_aligndown 0x403010
          → kpt_get_phys m' w ≡ some invalid_ptr)
        × (m'.flushed ≡ page_aligndown 0x403010 ∷ [])
        × ((t i : ℕ)
            → (t ≢ table_at 4) ⊎ (i ≢ page_l1_idx 0x403010)
            → m'.tables t i ≡ machine.tables t i))
      (kpt_unmap_page machine 0x403010)
kpt_unmap_page-Faults_example =
    kpt_unmap_page-Faults machine 0x403010 (table_at 2) (table_at 3) (table_at 4) (omega arith) walk
      refl other_table (omega arith) (omega arith)

new_page : (kbud_alloc machine.memory 0).0 ≡ phys_to_virt_pm (0x104 * 2 ^ 12)
unfolding kbud_alloc alloc_loop alloc_in order_up split kbud_pop_head kbud_push buddy_bit_chk
    buddy_bit_set buddy_bit_clr kbud_pair_idx kbud_pfnum virt_to_phys_pm phys_to_virt_pm
new_page = refl

new_table : phys_to_virt_pm (0x104 * 2 ^ 12) ≢ table_at 1
unfolding phys_to_virt_pm
new_table = omega arith

return_pt_or_alloc-Leads_example :
    Returns
      (λ r.
        (r.0 ≡ phys_to_virt_pm (0x104 * 2 ^ 12))
        × Leads r.1 (table_at 1) 5 (phys_to_virt_pm (0x104 * 2 ^ 12))
        × ((j : ℕ) → r.1.tables (phys_to_virt_pm (0x104 * 2 ^ 12)) j ≡ 0)
        × ((j : ℕ) → j ≢ 5 → r.1.tables (table_at 1) j ≡ machine.tables (table_at 1) j)
        × (return_pt_or_alloc r.1 (table_at 1) 5 ≡ some r))
      (return_pt_or_alloc machine (table_at 1) 5)
return_pt_or_alloc-Leads_example =
    return_pt_or_alloc-Leads machine (table_at 1) 5 0x104 (omega arith) refl refl new_page new_table

upper_table : kpt_get_l4 machine ≢ table_at 2
unfolding kpt_get_l4 phys_to_virt_pm pt_rebase page_phys_rebase
upper_table = omega arith

first_table : Leads machine (kpt_get_l4 machine) (page_l4_idx 0x40000005) (table_at 2)
unfolding kpt_get_l4 phys_to_virt_pm pt_rebase page_phys_rebase page_l4_idx
first_table = (refl, refl, refl, refl)

room_for_two : page_l3_idx 0 + 2 ≤ 512
unfolding page_l3_idx
room_for_two = omega arith

dmap_fill-Translates_example :
    Returns
      (λ m'. kpt_get_phys m' (0 + 0x40000005) ≡ some (1 * 2 ^ 30 + 0x40000005))
      (dmap_fill 2 (table_at 2) 0 (1 * 2 ^ 30) machine)
dmap_fill-Translates_example =
    dmap_fill-Translates 2 (table_at 2) 0 1 0x40000005 machine refl refl room_for_two (omega arith)
      (omega arith) (omega arith) upper_table first_table

-- The kernel stands from 1 MiB on, and its code and constants end at 2 MiB.
abbrev image : Image
image = record {
  begin = kernel_offset + 0x100000;
  after_ro = kernel_offset + 0x200000;
  kphys_start = 0x100000;
  kphys_end = 0x400000;
  prebegin = 0x300000;
  preend = 0x310000;
  kstack_guard = kernel_offset + 0x320000;
  kstack_top = kernel_offset + 0x330000;
}

kcode_fill-IsProtected_example :
    Returns
      (λ m'.
        ((j : ℕ) → j < 3 → IsProtected image (m'.tables (table_at 4) (5 + j)) (0x1FF + j))
        × ((i : ℕ)
            → (i < 5) ⊎ (5 + 3 ≤ i)
            → m'.tables (table_at 4) i ≡ machine.tables (table_at 4) i)
        × ((t : ℕ) → t ≢ table_at 4 → m'.tables t ≡ machine.tables t))
      (kcode_fill 3 5 image (table_at 4) (0x1FF * 2 ^ 12) machine)
kcode_fill-IsProtected_example =
    kcode_fill-IsProtected 3 5 image (table_at 4) 0x1FF machine refl (omega arith)
