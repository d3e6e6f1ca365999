-- ===== src/Tables.antt =====
-- kernel/pagetbl.c: the page tables. A table is a store of 512 entries, indexed by the table's
-- virtual address in the linear mapping. `none` is a fault: an entry of the null table or of the
-- error pointer is read or written.
pub mod Remap
pub mod Walk
pub mod Unmap
pub mod Linear
pub mod Code
mod Tests
use sync_kernel.Prelude.{
  ◌>>=◌, ℕ, ◌-◌, ◌/◌, ◌%◌, ◌^◌, Bool, ◌||◌, not, Option, none, some, List, ◌∷◌, ◌==◌, if◌then◌else◌,
  update, bit_or,
}
use sync_kernel.Prelude.Words.{invalid_ptr}
use sync_kernel.Paging.{
  page_aligndown, page_l4_idx, page_l3_idx, page_l2_idx, page_l1_idx, page_phys_rebase, pt_rebase,
  bitrange, virt_to_phys_pm, phys_to_virt_pm,
}
use sync_kernel.Buddy.Master.{Memory}
use sync_kernel.Buddy.Pages.{kbud_alloc}

-- `%cr3`, the tables, the page allocator, and the pages whose translation has been flushed, the
-- latest first.
pub record Machine : Type 0 where
  pub cr3 : ℕ
  pub tables : ℕ → ℕ → ℕ
  pub memory : Memory
  pub flushed : List ℕ

-- `PT_FLAG_BITS`
abbrev pub pt_flag_present : ℕ
pt_flag_present = 1

abbrev pub pt_flag_writable : ℕ
pt_flag_writable = 2

abbrev pub pt_flag_pagesize : ℕ
pt_flag_pagesize = 128

abbrev pub is_present : ℕ → Bool
is_present e = e % 2 == 1

abbrev pub is_page : ℕ → Bool
is_page e = e / 128 % 2 == 1

abbrev pub bad_table : ℕ → Bool
bad_table t = (t == 0) || (t == invalid_ptr)

-- `t->entries[i]`, read and written.
unfoldable pub load : Machine → ℕ → ℕ → Option ℕ
load m t i = if bad_table t then none else some (m.tables t i)

unfoldable pub store : Machine → ℕ → ℕ → ℕ → Option Machine
store m t i e =
    if bad_table t
    then none
    else some (record m { tables = update m.tables t (update (m.tables t) i e) })

unfoldable pub kpt_get_l4 : Machine → ℕ
kpt_get_l4 m = phys_to_virt_pm (pt_rebase m.cr3)

-- The second argument of these is 0 for null.
unfoldable pub kpt_get_l3 : Machine → ℕ → ℕ → Option ℕ
unfolding load kpt_get_l4
kpt_get_l3 m vaddr l4 = do
  e ← load m (if l4 == 0 then kpt_get_l4 m else l4) (page_l4_idx vaddr)
  some (phys_to_virt_pm (pt_rebase e))

-- The entry of an upper table that is not given, as `kpt_get_l2` and `kpt_get_l1` read it.
unfoldable pub below_entry : ℕ → ℕ
below_entry e =
    if not (is_present e)
    then invalid_ptr
    else if is_page e
    then 0
    else phys_to_virt_pm (pt_rebase e)

unfoldable pub kpt_get_l2 : Machine → ℕ → ℕ → Option ℕ
unfolding load kpt_get_l3 below_entry
kpt_get_l2 m vaddr l3 =
    let given = (do e ← load m l3 (page_l3_idx vaddr); some (phys_to_virt_pm (pt_rebase e))) in
    let found = (do
      pdpt ← kpt_get_l3 m vaddr 0
      e ← load m pdpt (page_l3_idx vaddr)
      some (below_entry e)) in
    if l3 == 0 then found else given

unfoldable pub kpt_get_l1 : Machine → ℕ → ℕ → Option ℕ
unfolding load kpt_get_l2 below_entry
kpt_get_l1 m vaddr l2 =
    let given = (do e ← load m l2 (page_l2_idx vaddr); some (phys_to_virt_pm (pt_rebase e))) in
    let found = (do
      pd ← kpt_get_l2 m vaddr 0
      e ← load m pd (page_l2_idx vaddr)
      some (below_entry e)) in
    if l2 == 0 then found else given

-- The argument `pte` is the entry `i` of the table `t`.
unfoldable pub return_pt_or_alloc : Machine → ℕ → ℕ → Option (ℕ × Machine)
unfolding load store
return_pt_or_alloc m t i = do
  e ← load m t i
  let (p, memory) = kbud_alloc m.memory 0
  let zeroed = record m { tables = update m.tables p (λ j. 0); memory = memory }
  let pte = bit_or (bit_or (virt_to_phys_pm p) pt_flag_present) pt_flag_writable
  let made = (do m' ← store zeroed t i pte; some (p, m'))
  if is_present e
      then some (phys_to_virt_pm (pt_rebase e), m)
      else if p == invalid_ptr
      then some (invalid_ptr, m)
      else made

-- One level of `kpt_get_phys`: a page of `2 ^ shift` bytes is the frame of the entry with the
-- offset of the address.
abbrev pub page_of : ℕ → ℕ → ℕ → ℕ
page_of vaddr shift e = bit_or (page_phys_rebase e shift (bitrange 51 shift)) (vaddr % 2 ^ shift)

unfoldable pub kpt_get_phys : Machine → ℕ → Option ℕ
unfolding load kpt_get_l4
kpt_get_phys m vaddr = do
  e4 ← load m (kpt_get_l4 m) (page_l4_idx vaddr)
  let level_three = (do
    e3 ← load m (phys_to_virt_pm (pt_rebase e4)) (page_l3_idx vaddr)
    let level_two = (do
      e2 ← load m (phys_to_virt_pm (pt_rebase e3)) (page_l2_idx vaddr)
      let level_one = (do
        e1 ← load m (phys_to_virt_pm (pt_rebase e2)) (page_l1_idx vaddr)
        some (if is_present e1 then page_of vaddr 12 e1 else invalid_ptr))
      if not (is_present e2)
          then some invalid_ptr
          else if is_page e2
          then some (page_of vaddr 21 e2)
          else level_one)
    if not (is_present e3)
        then some invalid_ptr
        else if is_page e3
        then some (page_of vaddr 30 e3)
        else level_two)
  if not (is_present e4) then some invalid_ptr else level_three

unfoldable pub kpt_unmap_page : Machine → ℕ → Option Machine
unfolding kpt_get_l1 load store
kpt_unmap_page m vaddr =
    let v = page_aligndown vaddr in
    let unmapped = (do
      l1 ← kpt_get_l1 m v 0
      e ← load m l1 (page_l1_idx v)
      m' ← store m l1 (page_l1_idx v) (e - e % 2)
      some (record m' { flushed = v ∷ m'.flushed })) in
    if vaddr == 0 then some m else unmapped

-- The two symbols are the linker's.
unfoldable pub kstack_guard_init : Machine → ℕ → ℕ → Option Machine
unfolding kpt_unmap_page
kstack_guard_init m kstack_guard kstack_top = do
  m' ← kpt_unmap_page m kstack_guard
  kpt_unmap_page m' kstack_top
