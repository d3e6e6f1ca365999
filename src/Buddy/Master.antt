-- ===== src/Buddy/Master.antt =====
-- `MASTER_BUDDY` of kernel/mm/buddy.c: the table of regions, its binary search, and new regions.
use sync_kernel.Prelude.{
  ℕ, zero, suc, ◌+◌, ◌-◌, ◌*◌, ◌/◌, ◌%◌, ◌^◌, ◌||◌, Option, none, some, ◌==◌, ltb, leb,
  if◌then◌else◌, update,
}
use sync_kernel.Buddy.{pframe_max_regions, pframe_max_order, Frame, Slave, Zone}
use sync_kernel.Prelude.Words.{add64, sub64, invalid_ptr}
use sync_kernel.Kstring.{memset}
use sync_kernel.Paging.{pagesize, page_aligndown, page_alignup, virt_to_phys_pm, phys_to_virt_pm}

-- `MASTER_BUDDY` with the memory that it manages; `slaves` are the headers by virtual address.
pub record Memory : Type 0 where
  pub regions : ℕ → ℕ
  pub region_count : ℕ
  pub slaves : ℕ → Slave
  pub frames : ℕ → Frame
  pub bytes : ℕ → ℕ

abbrev pub zone_at : Memory → ℕ → Zone
zone_at m v = record { slave = m.slaves v; frames = m.frames; bytes = m.bytes }

abbrev pub put_zone : Memory → ℕ → Zone → Memory
put_zone m v z = record m { slaves = update m.slaves v z.slave; frames = z.frames; bytes = z.bytes }

-- The search of `find_buddy_slave`. `hi` is one more than the code's, which can reach -1, and the
-- owner is `none` for -1.
unfoldable pub owner_loop : ℕ → (ℕ → ℕ) → ℕ → ℕ → ℕ → Option ℕ → Option ℕ
owner_loop zero regions phy lo hi owner = owner
owner_loop (suc k) regions phy lo hi owner =
    let mid = (lo + hi - 1) / 2 in
    let low = leb (virt_to_phys_pm (regions mid)) phy in
    let rest =
      owner_loop k regions phy (if low then mid + 1 else lo) (if low then hi else mid)
        (if low then some mid else owner) in
    if ltb lo hi then rest else owner

unfoldable pub find_buddy_slave : Memory → ℕ → ℕ
unfolding owner_loop
find_buddy_slave m phy =
    if (m.region_count == 0) || ltb pframe_max_regions m.region_count
    then invalid_ptr
    else elim (owner_loop m.region_count m.regions phy 0 m.region_count none) [
      | some i ↦ m.regions i
      | none ↦ invalid_ptr
    ]

unfoldable pub find_valid_slave : Memory → ℕ → ℕ
unfolding find_buddy_slave
find_valid_slave m phy =
    let v = find_buddy_slave m phy in
    let s = m.slaves v in
    if v == invalid_ptr
    then invalid_ptr
    else if leb (add64 s.mbase (s.total_pages * pagesize % 2 ^ 64)) phy
    then invalid_ptr
    else v

-- `sizeof(slave_buddy_t)` under the x86-64 ABI.
abbrev pub slave_size : ℕ
slave_size = 400

-- `memset(virt_region, 0, sizeof(*virt_region))`
abbrev pub zero_slave : Slave
zero_slave = record {
  free = λ _. 0;
  order_blk_cnt = λ _. 0;
  max_order = 0;
  bitmap_arr = λ _. 0;
  maxbits = λ _. 0;
  bitmap_reserved = 0;
  lut_base = 0;
  rbase = 0;
  mbase = 0;
  total_pages = 0;
}

-- `kbud_mark_invalid`: every byte is 0xff but for two fields.
unfoldable pub kbud_mark_invalid : ℕ → Slave
kbud_mark_invalid phy = record {
  free = λ _. invalid_ptr;
  order_blk_cnt = λ _. invalid_ptr;
  max_order = 2 ^ 32 - 1;
  bitmap_arr = λ _. invalid_ptr;
  maxbits = λ _. invalid_ptr;
  bitmap_reserved = invalid_ptr;
  lut_base = invalid_ptr;
  rbase = phy;
  mbase = invalid_ptr;
  total_pages = 0;
}

abbrev pub align_up : ℕ → ℕ → ℕ
align_up x to = let up = add64 x (to - 1) in up - up % to

-- The bitmaps of the orders from `i` on: the header, and the address behind the last bitmap.
unfoldable pub bitmap_loop : ℕ → ℕ → ℕ → Slave → ℕ → Slave × ℕ
bitmap_loop zero i rpages s cur = (s, cur)
bitmap_loop (suc k) i rpages s cur =
    let bits = rpages / 2 ^ (i + 1) in
    let bytes = (bits + 7) / 2 ^ 3 in
    let s' = record s {
      bitmap_arr = update s.bitmap_arr i cur;
      maxbits = update s.maxbits i bits;
      max_order = i;
    } in
    let rest = bitmap_loop k (i + 1) rpages s' (add64 cur (align_up bytes 64)) in
    if bits == 0 then (s, cur) else rest

unfoldable pub kbud_init_region : Memory → ℕ → ℕ → Memory
unfolding bitmap_loop kbud_mark_invalid memset
kbud_init_region m phy len =
    let v = phys_to_virt_pm phy in
    let rpages = page_aligndown len / 2 ^ 12 in
    let s = record (m.slaves v) { total_pages = rpages; rbase = phy } in
    let first = (v + slave_size + 7) % 2 ^ 64 in
    let (s', cur) = bitmap_loop pframe_max_order 0 rpages s (first - first % 8) in
    let mbase = page_alignup (add64 phy (sub64 cur v)) in
    let phys_end = add64 phy pagesize in
    let done = record s' {
      lut_base = add64 phy slave_size;
      mbase = mbase;
      bitmap_reserved = if ltb phys_end mbase then (mbase - phys_end) / 2 ^ 12 else 0;
      total_pages = sub64 (add64 phy len) mbase / 2 ^ 12;
    } in
    if leb (add64 phy len) mbase
    then record m { slaves = update m.slaves v (kbud_mark_invalid phy) }
    else record m {
      slaves = update m.slaves v done;
      bytes = memset (add64 v slave_size) 0 (sub64 (sub64 cur v) slave_size) m.bytes;
    }

-- The insertion loop of `kbud_add_region` with the write behind it: `i` entries are left to look at.
unfoldable pub insert_region : ℕ → ℕ → (ℕ → ℕ) → ℕ → ℕ
insert_region zero v r = update r 0 v
insert_region (suc i) v r =
    if ltb v (r i) then insert_region i v (update r (suc i) (r i)) else update r (suc i) v

-- `regions[i] = v`; `region_count` stands right behind the table.
abbrev pub end_mark : Memory → ℕ → Memory
end_mark m i =
    if i == pframe_max_regions
    then record m { region_count = invalid_ptr }
    else record m { regions = update m.regions i invalid_ptr }

unfoldable pub kbud_add_region : Memory → ℕ → ℕ → ℕ × Memory
unfolding insert_region kbud_init_region
kbud_add_region m phy len =
    let v = phys_to_virt_pm phy in
    let count = m.region_count + 1 in
    let m' = record m {
      regions = insert_region m.region_count v m.regions;
      region_count = count;
    } in
    let m'' = end_mark m' count in
    if ltb pframe_max_regions count
    then (invalid_ptr, m)
    else (v, kbud_init_region (record m'' { slaves = update m.slaves v zero_slave }) phy len)
