-- ===== src/Buddy.antt =====
-- kernel/mm/buddy.c and buddy.h: the page allocator. A region header (`slave_buddy_t`) is a record,
-- and its bitmap bytes and the page headers in its free lists are stores indexed by address.
pub mod Master
pub mod Pages
pub mod Bitmap
pub mod Search
pub mod Lists
pub mod Conserve
pub mod Handed
pub mod Remove
mod Tests
use sync_kernel.Prelude.{
  ◌>>=◌, ℕ, zero, suc, ◌+◌, ◌-◌, ◌*◌, ◌/◌, ◌%◌, ◌^◌, Bool, true, false, ◌||◌, not, Option, none,
  some, ◌==◌, ltb, leb, if◌then◌else◌, update, bit_and, bit_or,
}
use sync_kernel.Prelude.Words.{add64, sub64, invalid_ptr}
use sync_kernel.Paging.{pagesize, virt_to_phys_pm, phys_to_virt_pm}

abbrev pub pframe_max_regions : ℕ
pframe_max_regions = 128

abbrev pub pframe_max_order : ℕ
pframe_max_order = 11

-- The fields of `page_frame_t` that the allocator uses.
pub record Frame : Type 0 where
  pub next : ℕ
  pub order : ℕ

-- `slave_buddy_t`. The arrays have `pframe_max_order` entries, indexed by order.
pub record Slave : Type 0 where
  pub free : ℕ → ℕ
  pub order_blk_cnt : ℕ → ℕ
  pub max_order : ℕ
  pub bitmap_arr : ℕ → ℕ
  pub maxbits : ℕ → ℕ
  pub bitmap_reserved : ℕ
  pub lut_base : ℕ
  pub rbase : ℕ
  pub mbase : ℕ
  pub total_pages : ℕ

-- One region's header with the memory that its operations reach.
pub record Zone : Type 0 where
  pub slave : Slave
  pub frames : ℕ → Frame
  pub bytes : ℕ → ℕ

unfoldable pub buddy_order_to_val : ℕ → ℕ
buddy_order_to_val ord = if ltb (pframe_max_order - 1) ord then 0 else pagesize * 2 ^ ord

-- The position of the highest one of a word below 2 ^ 64: 63 less its leading zeroes.
log2_rounds : ℕ → ℕ → ℕ
log2_rounds zero n = 0
log2_rounds (suc k) n = if ltb n 2 then 0 else suc (log2_rounds k (n / 2))

unfoldable pub count_leading_zeroes : ℕ → ℕ
unfolding log2_rounds
count_leading_zeroes n = 63 - log2_rounds 63 n

ctz_rounds : ℕ → ℕ → ℕ
ctz_rounds zero n = 0
ctz_rounds (suc k) n = if n % 2 == 1 then 0 else suc (ctz_rounds k (n / 2))

unfoldable pub count_trailing_zeroes : ℕ → ℕ
unfolding ctz_rounds
count_trailing_zeroes n = ctz_rounds 63 n

unfoldable pub kbud_order_idx : ℕ → ℕ
unfolding count_trailing_zeroes
kbud_order_idx n = sub64 (count_trailing_zeroes n) 12

unfoldable pub kbud_byte_order : ℕ → ℕ
unfolding count_leading_zeroes
kbud_byte_order sz =
    let frames = add64 sz (pagesize - 1) / 2 ^ 12 in
    if leb frames 1 then 0 else (63 - count_leading_zeroes (frames - 1)) % 256 + 1

unfoldable pub kbud_pfnum : ℕ → Slave → ℕ
kbud_pfnum phy s = sub64 phy s.mbase / 2 ^ 12

unfoldable pub kbud_pair_idx : ℕ → ℕ → ℕ
kbud_pair_idx pfn ord = pfn / 2 ^ (ord + 1)

unfoldable pub buddy_bit_chk : Slave → ℕ → ℕ → Bool
unfolding kbud_pair_idx
buddy_bit_chk s pfn ord =
    if ltb s.max_order ord
    then false
    else if leb (s.maxbits ord) (kbud_pair_idx pfn ord)
    then false
    else true

-- The address of the bitmap byte of a pair, and the place of its bit.
abbrev pub bit_byte : Slave → ℕ → ℕ → ℕ
bit_byte s pfn ord = s.bitmap_arr ord + kbud_pair_idx pfn ord / 8

abbrev pub bit_place : ℕ → ℕ → ℕ
bit_place pfn ord = kbud_pair_idx pfn ord % 8

unfoldable pub buddy_bit_get : Zone → ℕ → ℕ → Bool
unfolding kbud_pair_idx
buddy_bit_get z pfn ord = z.bytes (bit_byte z.slave pfn ord) / 2 ^ bit_place pfn ord % 2 == 1

unfoldable pub buddy_bit_set : Zone → ℕ → ℕ → Zone
unfolding kbud_pair_idx
buddy_bit_set z pfn ord =
    let a = bit_byte z.slave pfn ord in
    record z { bytes = update z.bytes a (bit_or (z.bytes a) (2 ^ bit_place pfn ord)) }

unfoldable pub buddy_bit_clr : Zone → ℕ → ℕ → Zone
unfolding kbud_pair_idx
buddy_bit_clr z pfn ord =
    let a = bit_byte z.slave pfn ord in
    record z { bytes = update z.bytes a (bit_and (z.bytes a) (255 - 2 ^ bit_place pfn ord)) }

-- The new block stands at the head of its order's list.
abbrev pub linked : Zone → ℕ → ℕ → Zone
linked z phy order =
    let s = z.slave in
    let p = phys_to_virt_pm phy in
    record z {
      slave = record s {
        free = update s.free order p;
        order_blk_cnt = update s.order_blk_cnt order (add64 (s.order_blk_cnt order) 1);
      };
      frames = update z.frames p (record { next = s.free order; order = order });
    }

unfoldable pub kbud_push : Zone → ℕ → ℕ → Bool × Zone
unfolding buddy_bit_chk buddy_bit_set
kbud_push z phy order =
    let pfn = kbud_pfnum phy z.slave in
    if buddy_bit_chk z.slave pfn order
    then (true, buddy_bit_set (linked z phy order) pfn order)
    else (false, z)

-- `page_frame_t **cur`: the head of the list, or the `next` field of a frame.
pub data Link : Type 0 where
  head : Link
  next_of : ℕ → Link

unfoldable pub read_link : Zone → ℕ → Link → ℕ
read_link z order head = z.slave.free order
read_link z order (next_of a) = (z.frames a).next

unfoldable pub write_link : Zone → ℕ → Link → ℕ → Zone
write_link z order head v =
    let s = z.slave in record z { slave = record s { free = update s.free order v } }
write_link z order (next_of a) v = record z {
  frames = update z.frames a (record { next = v; order = (z.frames a).order });
}

-- `while (*cur != p) cur = &(*cur)->next`. Behind a null pointer there is no field to read, so
-- the walk faults there; it faults too when the fuel runs out.
unfoldable pub find_link : ℕ → Zone → ℕ → ℕ → Link → Option Link
unfolding read_link
find_link zero z order p cur = none
find_link (suc fuel) z order p cur =
    let rest = find_link fuel z order p (next_of (read_link z order cur)) in
    if read_link z order cur == p
    then some cur
    else if read_link z order cur == 0
    then none
    else rest

abbrev pub count_down : Zone → ℕ → Zone
count_down z order =
    let s = z.slave in
    record z {
      slave = record s {
        order_blk_cnt = update s.order_blk_cnt order (sub64 (s.order_blk_cnt order) 1);
      };
    }

unfoldable pub kbud_pop : ℕ → Zone → ℕ → ℕ → Option (Bool × Zone)
unfolding find_link write_link buddy_bit_chk buddy_bit_clr
kbud_pop fuel z phy order =
    let pfn = kbud_pfnum phy z.slave in
    let p = phys_to_virt_pm phy in
    if not (buddy_bit_chk z.slave pfn order) || (z.slave.order_blk_cnt order == 0)
    then some (false, z)
    else do
      cur ← find_link fuel z order p head
      some (
        true,
        buddy_bit_clr (count_down (write_link z order cur (z.frames p).next) order) pfn order,
      )

unfoldable pub kbud_pop_head : Zone → ℕ → ℕ × Zone
unfolding buddy_bit_chk buddy_bit_clr
kbud_pop_head z order =
    let s = z.slave in
    let blk = s.free order in
    let pfn = kbud_pfnum (virt_to_phys_pm blk) s in
    if buddy_bit_chk s pfn order
    then (
      blk,
      buddy_bit_clr
          (count_down
            (record z { slave = record s { free = update s.free order (z.frames blk).next } })
            order)
          pfn order,
    )
    else (invalid_ptr, z)
