-- ===== src/Buddy/Tests.antt =====
-- Runs of kernel/mm/buddy.c on a region of sixteen pages.
use sync_kernel.Prelude.{
  ℕ, ◌+◌, ◌*◌, ◌/◌, ◌^◌, ◌≡◌, refl, ◌≢◌, true, false, Option, none, some, List, [], ◌∷◌, arith,
  ◌==◌, Returns, if◌then◌else◌,
}
use sync_kernel.Buddy.{
  Slave, Zone, kbud_pfnum, kbud_pair_idx, buddy_bit_chk, buddy_bit_get, buddy_bit_set,
  buddy_bit_clr, kbud_push, read_link, write_link, find_link, kbud_pop, kbud_pop_head,
}
use sync_kernel.Prelude.Words.{invalid_ptr}
use sync_kernel.Paging.{kernel_phmmap, phys_to_virt_pm, virt_to_phys_pm}
use sync_kernel.Buddy.Master.{Memory, find_buddy_slave, owner_loop}
use sync_kernel.Buddy.Pages.{alloc_in, alloc_loop, kbud_alloc, order_up, split, merge_loop}
use sync_kernel.Buddy.Search.{Ascending, IsOwner, find_buddy_slave-IsOwner}
use sync_kernel.Buddy.Remove.{kbud_pop_lem}
use sync_kernel.Buddy.Lists.{IsFreeList, has, kbud_push_lem}

-- the virtual address of the page `n` of the region, whose managed pages begin at 1 MiB
abbrev page_at : ℕ → ℕ
page_at n = kernel_phmmap + 0x100000 + n * 4096

abbrev header : Slave
header = record {
  free = λ k. if k == 2 then page_at 4 else 0;
  order_blk_cnt = λ k. if k == 2 then 1 else 0;
  max_order = 3;
  bitmap_arr = λ k. 64 * k;
  maxbits = λ k. 16 / 2 ^ (k + 1);
  bitmap_reserved = 0;
  lut_base = 0;
  rbase = 0xFF000;
  mbase = 0x100000;
  total_pages = 16;
}

-- four pages are free, as one block
abbrev region : Zone
region = record { slave = header; frames = λ a. record { next = 0; order = 2 }; bytes = λ a. 0 }

region-IsFreeList : IsFreeList region 2 (page_at 4 ∷ [])
region-IsFreeList = record {
  chain = (refl, omega arith, refl, refl);
  count = refl;
  fits = omega arith;
}

-- The region while a page of its block is in use.
abbrev after_split : Zone
after_split = split 2 (page_at 4) 0 (kbud_pop_head region 2).1

-- The last page given back merges with its buddies to the block that was split.
merged :
    Returns
      (λ r.
        (r.0 ≡ 4) × (r.1 ≡ 2) × (r.2.slave.order_blk_cnt 0 ≡ 0) × (r.2.slave.order_blk_cnt 1 ≡ 0))
      (merge_loop 3 10 after_split 4 0)
unfolding merge_loop kbud_pop find_link read_link write_link buddy_bit_get split kbud_pop_head
    kbud_push buddy_bit_chk buddy_bit_set buddy_bit_clr kbud_pair_idx kbud_pfnum virt_to_phys_pm
    phys_to_virt_pm
merged = (refl, refl, refl, refl)

abbrev slave_table : Memory
slave_table = record {
  regions = λ i.
      if i == 0
      then kernel_phmmap + 0x100000
      else if i == 1
      then kernel_phmmap + 0x900000
      else if i == 2
      then kernel_phmmap + 0x4000000
      else invalid_ptr;
  region_count = 3;
  slaves = λ v. header;
  frames = region.frames;
  bytes = region.bytes;
}

table-Ascending : Ascending slave_table.regions 3
unfolding virt_to_phys_pm
table-Ascending i j l h = ground arith

owner_found : find_buddy_slave slave_table 0xA00000 ≡ kernel_phmmap + 0x900000
unfolding find_buddy_slave owner_loop virt_to_phys_pm
owner_found = refl

find_buddy_slave-IsOwner_example :
    (owner : Option ℕ) × IsOwner slave_table.regions 3 0xA00000 owner
    × (find_buddy_slave slave_table 0xA00000
        ≡ elim owner [ some i ↦ slave_table.regions i | none ↦ invalid_ptr ])
find_buddy_slave-IsOwner_example =
    find_buddy_slave-IsOwner slave_table 0xA00000 table-Ascending (omega arith) (omega arith)

kbud_push_lem_example :
    let (done, z') = kbud_push region 0x108000 2 in
    (done ≡ true)
    × IsFreeList z' 2 (phys_to_virt_pm 0x108000 ∷ page_at 4 ∷ [])
    × (buddy_bit_get z' (kbud_pfnum 0x108000 header) 2 ≡ true)
    × ((other : ℕ) (ys : List ℕ)
        → 2 ≢ other
        → IsFreeList region other ys
        → has (phys_to_virt_pm 0x108000) ys ≡ false
        → IsFreeList z' other ys)
unfolding phys_to_virt_pm buddy_bit_chk kbud_pair_idx kbud_pfnum
kbud_push_lem_example =
    kbud_push_lem region 0x108000 2 (page_at 4 ∷ []) refl (λ a. omega arith) region-IsFreeList
      (omega arith) refl (omega arith)

-- No region has a block of eight pages.
none_of_eight : (kbud_alloc slave_table 3).0 ≡ invalid_ptr
unfolding kbud_alloc alloc_loop alloc_in order_up kbud_pop_head buddy_bit_chk buddy_bit_clr
    kbud_pair_idx kbud_pfnum virt_to_phys_pm
none_of_eight = refl

-- Two blocks of four pages; the second one is taken out.
abbrev two_blocks : Zone
two_blocks = record {
  slave = record header { order_blk_cnt = λ k. if k == 2 then 2 else 0 };
  frames = λ a. record { next = if a == page_at 4 then page_at 8 else 0; order = 2 };
  bytes = λ a. 0;
}

two_blocks-IsFreeList : IsFreeList two_blocks 2 (page_at 4 ∷ page_at 8 ∷ [])
two_blocks-IsFreeList = record {
  chain = (refl, omega arith, refl, (refl, omega arith, refl, refl));
  count = refl;
  fits = omega arith;
}

kbud_pop_lem_example :
    Returns
      (λ r.
        (r.0 ≡ true)
        × IsFreeList r.1 2 (page_at 4 ∷ [])
        × (buddy_bit_get r.1 (kbud_pfnum 0x108000 header) 2 ≡ false))
      (kbud_pop 2 two_blocks 0x108000 2)
unfolding phys_to_virt_pm buddy_bit_chk kbud_pair_idx kbud_pfnum
kbud_pop_lem_example =
    kbud_pop_lem 2 two_blocks 0x108000 2 (page_at 4 ∷ []) [] two_blocks-IsFreeList refl refl
      (λ a. omega arith) (omega arith)
