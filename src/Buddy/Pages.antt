-- ===== src/Buddy/Pages.antt =====
-- Allocating and freeing pages: `kbud_alloc`, `kbud_alloc_range`, `kbud_free` and
-- `kbud_free_range` of kernel/mm/buddy.c.
use sync_kernel.Prelude.{
  ℕ, zero, suc, ◌+◌, ◌-◌, ◌*◌, ◌/◌, ◌%◌, ◌^◌, ◌&&◌, ◌||◌, not, Option, none, some, ◌==◌, ltb, leb,
  if◌then◌else◌, ◌>>=◌, bit_and, bit_xor,
}
use sync_kernel.Buddy.{
  pframe_max_order, Slave, Zone, count_leading_zeroes, kbud_order_idx, kbud_byte_order, kbud_pfnum,
  buddy_bit_chk, buddy_bit_get, buddy_bit_clr, kbud_push, kbud_pop, kbud_pop_head,
}
use sync_kernel.Prelude.Words.{add64, sub64, invalid_ptr}
use sync_kernel.Paging.{pagesize, page_aligndown, page_alignup, virt_to_phys_pm}
use sync_kernel.Buddy.Master.{Memory, zone_at, put_zone, find_valid_slave, kbud_add_region}

-- `while (order < PFRAME_MAX_ORDER && cnt[order] == 0 && order < max_order) order++`
unfoldable pub order_up : ℕ → Slave → ℕ → ℕ
order_up zero s order = order
order_up (suc k) s order =
    let rest = order_up k s (order + 1) in
    if ltb order pframe_max_order && (s.order_blk_cnt order == 0) && ltb order s.max_order
    then rest
    else order

-- `while (order > req)`, with `order - req` rounds left: the upper half of what is left of the
-- block goes back at each order.
unfoldable pub split : ℕ → ℕ → ℕ → Zone → Zone
split zero addr req z = z
split (suc k) addr req z =
    let order = req + k in
    let buddy = bit_xor (virt_to_phys_pm addr) (pagesize * 2 ^ order) in
    split k addr req (kbud_push z buddy order).1

-- One round of the loop over the regions; `none` is `continue`.
unfoldable pub alloc_in : Zone → ℕ → Option (ℕ × Zone)
alloc_in z req =
    let order = order_up pframe_max_order z.slave req in
    let (addr, z') = kbud_pop_head z order in
    if (order == pframe_max_order) || ltb order req
    then none
    else if addr == invalid_ptr
    then none
    else some (addr, split (order - req) addr req z')

unfoldable pub alloc_loop : ℕ → ℕ → ℕ → Memory → ℕ × Memory
alloc_loop zero i req m = (invalid_ptr, m)
alloc_loop (suc k) i req m =
    let v = m.regions i in
    let rest = alloc_loop k (i + 1) req m in
    if v == invalid_ptr
    then rest
    else elim (alloc_in (zone_at m v) req) [ none ↦ rest | some (addr, z) ↦ (addr, put_zone m v z) ]

unfoldable pub kbud_alloc : Memory → ℕ → ℕ × Memory
kbud_alloc m req =
    if leb pframe_max_order req then (invalid_ptr, m) else alloc_loop m.region_count 0 req m

unfoldable pub kbud_alloc_range : Memory → ℕ → ℕ × Memory
kbud_alloc_range m sz =
    let req = kbud_byte_order (page_alignup sz) in
    if leb pframe_max_order req then (invalid_ptr, m) else alloc_loop m.region_count 0 req m

-- The loop of `kbud_free` over the orders below the last: `rounds` orders are left. The first
-- argument is the fuel of each walk along a free list.
unfoldable pub merge_loop : ℕ → ℕ → Zone → ℕ → ℕ → Option (ℕ × ℕ × Zone)
merge_loop walk zero z pfn k = some (pfn, k, z)
merge_loop walk (suc rounds) z pfn k =
    let bpfn = bit_xor pfn (2 ^ k) in
    let rest = (do
      (_, z') ← kbud_pop walk z (add64 z.slave.mbase (bpfn * 2 ^ 12 % 2 ^ 64)) k
      merge_loop walk rounds (buddy_bit_clr z' bpfn k) (bit_and pfn (2 ^ 64 - 1 - 2 ^ k))
          (k + 1)) in
    if leb z.slave.total_pages bpfn
    then some (pfn, k, z)
    else if not (buddy_bit_chk z.slave bpfn k)
    then some (pfn, k, z)
    else if not (buddy_bit_get z bpfn k)
    then some (pfn, k, z)
    else rest

unfoldable pub kbud_free : ℕ → Memory → ℕ → ℕ → Option Memory
kbud_free walk m vaddr order =
    let phy = virt_to_phys_pm vaddr in
    let v = find_valid_slave m phy in
    let z = zone_at m v in
    if v == invalid_ptr then some m else do
      (pfn, k, z') ← merge_loop walk (pframe_max_order - 1 - order) z (kbud_pfnum phy z.slave) order
      let (_, z'') = kbud_push z' (add64 z'.slave.mbase (pfn * 2 ^ 12 % 2 ^ 64)) k
      some (put_zone m v z'')

abbrev pub min_order : ℕ → ℕ → ℕ
min_order a b = if ltb a b then a else b

-- The order of the next block of `kbud_free_range`.
unfoldable pub range_order : Slave → ℕ → ℕ → ℕ
range_order s phys size =
    let len_order = (63 - count_leading_zeroes (size / pagesize)) % 256 in
    let ptr_order = kbud_order_idx phys % 256 in
    min_order s.max_order (min_order (pframe_max_order - 1) (min_order len_order ptr_order))

unfoldable pub range_loop : ℕ → Zone → ℕ → ℕ → Option Zone
range_loop zero z phys size = none
range_loop (suc fuel) z phys size =
    let ord = range_order z.slave phys size in
    let (_, z') = kbud_push z phys ord in
    let blksz = pagesize * 2 ^ ord in
    let rest = range_loop fuel z' (add64 phys blksz) (sub64 size blksz) in
    if size == 0 then some z else rest

unfoldable pub kbud_free_range : ℕ → Memory → ℕ → ℕ → Option Memory
kbud_free_range fuel m vaddr len =
    let phys = page_aligndown (virt_to_phys_pm vaddr) in
    let size = page_aligndown len in
    let v = find_valid_slave m phys in
    let (v', m') = kbud_add_region m phys len in
    let s = m'.slaves v' in
    let offs = page_alignup (sub64 s.mbase s.rbase) in
    if not (v == invalid_ptr)
    then (do z ← range_loop fuel (zone_at m v) phys size; some (put_zone m v z))
    else if v' == invalid_ptr
    then some m'
    else (do
      z ← range_loop fuel (zone_at m' v') (add64 phys offs) (sub64 size offs)
      some (put_zone m' v' z))
