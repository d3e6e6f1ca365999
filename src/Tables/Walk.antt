-- ===== src/Tables/Walk.antt =====
-- What `kpt_get_phys` of kernel/pagetbl.c makes of the tables, against the processor's reading.
use sync_kernel.Prelude.{ℕ, ◌+◌, ◌*◌, ◌/◌, ◌%◌, ◌^◌, ◌<◌, ◌≡◌, true, false, some, arith}
use sync_kernel.Prelude.Words.{invalid_ptr}
use sync_kernel.Prelude.Bits.{bit_or_disjoint}
use sync_kernel.Paging.{
  page_l4_idx, page_l3_idx, page_l2_idx, page_l1_idx, page_phys_rebase, pt_rebase, phys_to_virt_pm,
}
use sync_kernel.Tables.{
  Machine, is_present, is_page, bad_table, load, kpt_get_l4, page_of, kpt_get_phys,
}

-- The entry `e` holds the frame number `frame` of a page of `2 ^ k` bytes, between the flags.
pub record HasFrame (e k frame : ℕ) : Type 0 where
  pub low : ℕ
  pub high : ℕ
  pub low_bits : low < 2 ^ k
  pub high_bits : high < 2 ^ 12
  pub frame_bits : frame * 2 ^ k < 2 ^ 52
  pub value : e ≡ high * 2 ^ 52 + frame * 2 ^ k + low

-- The entry `i` of the table `t` leads to the table `u`.
abbrev pub Leads : Machine → ℕ → ℕ → ℕ → Type 0
Leads m t i u =
    (bad_table t ≡ false)
    × (is_present (m.tables t i) ≡ true)
    × (is_page (m.tables t i) ≡ false)
    × (phys_to_virt_pm (pt_rebase (m.tables t i)) ≡ u)

-- The entry `i` of the table `t` is a page of `2 ^ k` bytes.
abbrev pub IsPage : Machine → ℕ → ℕ → ℕ → ℕ → Type 0
IsPage m t i k frame =
    (bad_table t ≡ false) × (is_present (m.tables t i) ≡ true) × HasFrame (m.tables t i) k frame

-- The entry `i` of the table `t` is not present.
abbrev pub IsAbsent : Machine → ℕ → ℕ → Type 0
IsAbsent m t i = (bad_table t ≡ false) × (is_present (m.tables t i) ≡ false)

-- The processor's walk from `%cr3` down to a table of each level.
abbrev pub Reaches3 : Machine → ℕ → ℕ → Type 0
Reaches3 m v t3 = Leads m (kpt_get_l4 m) (page_l4_idx v) t3

abbrev pub Reaches2 : Machine → ℕ → ℕ → ℕ → Type 0
Reaches2 m v t3 t2 = Reaches3 m v t3 × Leads m t3 (page_l3_idx v) t2

abbrev pub Reaches1 : Machine → ℕ → ℕ → ℕ → ℕ → Type 0
Reaches1 m v t3 t2 t1 = Reaches2 m v t3 t2 × Leads m t2 (page_l2_idx v) t1

-- The tables translate `v` to `p`, by a page of 4 KiB, 2 MiB or 1 GiB.
pub data Translates (m : Machine) (v p : ℕ) : Type 0 where
  small :
      (t3 t2 t1 frame : ℕ)
      → Reaches1 m v t3 t2 t1
      → IsPage m t1 (page_l1_idx v) 12 frame
      → p ≡ frame * 2 ^ 12 + v % 2 ^ 12
      → Translates m v p
  large :
      (t3 t2 frame : ℕ)
      → Reaches2 m v t3 t2
      → IsPage m t2 (page_l2_idx v) 21 frame
      → is_page (m.tables t2 (page_l2_idx v)) ≡ true
      → p ≡ frame * 2 ^ 21 + v % 2 ^ 21
      → Translates m v p
  huge :
      (t3 frame : ℕ)
      → Reaches3 m v t3
      → IsPage m t3 (page_l3_idx v) 30 frame
      → is_page (m.tables t3 (page_l3_idx v)) ≡ true
      → p ≡ frame * 2 ^ 30 + v % 2 ^ 30
      → Translates m v p

-- The walk of `v` ends at an entry that is not present.
pub data Faults (m : Machine) (v : ℕ) : Type 0 where
  at_l4 : IsAbsent m (kpt_get_l4 m) (page_l4_idx v) → Faults m v
  at_l3 : (t3 : ℕ) → Reaches3 m v t3 → IsAbsent m t3 (page_l3_idx v) → Faults m v
  at_l2 : (t3 t2 : ℕ) → Reaches2 m v t3 t2 → IsAbsent m t2 (page_l2_idx v) → Faults m v
  at_l1 : (t3 t2 t1 : ℕ) → Reaches1 m v t3 t2 t1 → IsAbsent m t1 (page_l1_idx v) → Faults m v

page_of-12 : (v e f : ℕ) → HasFrame e 12 f → page_of v 12 e ≡ f * 2 ^ 12 + v % 2 ^ 12
unfolding page_phys_rebase
page_of-12 v e f h =
    let r : e / 2 ^ 12 % 2 ^ 40 * 2 ^ 12 % 2 ^ 64 ≡ f * 2 ^ 12 =
      omega (arith, h.value, h.low_bits, h.high_bits, h.frame_bits) in
    rw r (bit_or_disjoint 12 f (v % 2 ^ 12) (omega arith))

page_of-21 : (v e f : ℕ) → HasFrame e 21 f → page_of v 21 e ≡ f * 2 ^ 21 + v % 2 ^ 21
unfolding page_phys_rebase
page_of-21 v e f h =
    let r : e / 2 ^ 21 % 2 ^ 31 * 2 ^ 21 % 2 ^ 64 ≡ f * 2 ^ 21 =
      omega (arith, h.value, h.low_bits, h.high_bits, h.frame_bits) in
    rw r (bit_or_disjoint 21 f (v % 2 ^ 21) (omega arith))

page_of-30 : (v e f : ℕ) → HasFrame e 30 f → page_of v 30 e ≡ f * 2 ^ 30 + v % 2 ^ 30
unfolding page_phys_rebase
page_of-30 v e f h =
    let r : e / 2 ^ 30 % 2 ^ 22 * 2 ^ 30 % 2 ^ 64 ≡ f * 2 ^ 30 =
      omega (arith, h.value, h.low_bits, h.high_bits, h.frame_bits) in
    rw r (bit_or_disjoint 30 f (v % 2 ^ 30) (omega arith))

-- `kpt_get_phys` gives the physical address that the tables translate a virtual one to.
pub kpt_get_phys-Translates : (m : Machine) (v p : ℕ) → Translates m v p → kpt_get_phys m v ≡ some p
unfolding kpt_get_phys load
kpt_get_phys-Translates m v p (small t3 t2 t1 f ((a, b), c) page e) = simp (
  a.0,
  a.1,
  a.3,
  b.0,
  b.1,
  b.2,
  b.3,
  c.0,
  c.1,
  c.2,
  c.3,
  page.0,
  page.1,
  e,
  page_of-12 v _ f page.2,
)
kpt_get_phys-Translates m v p (large t3 t2 f (a, b) page big e) =
    simp (a.0, a.1, a.3, b.0, b.1, b.2, b.3, page.0, page.1, big, e, page_of-21 v _ f page.2)
kpt_get_phys-Translates m v p (huge t3 f a page big e) =
    simp (a.0, a.1, a.3, page.0, page.1, big, e, page_of-30 v _ f page.2)

-- `kpt_get_phys` gives the error value for an address whose walk ends at an absent entry.
pub kpt_get_phys-Faults : (m : Machine) (v : ℕ) → Faults m v → kpt_get_phys m v ≡ some invalid_ptr
unfolding kpt_get_phys load
kpt_get_phys-Faults m v (at_l4 n) = simp (n.0, n.1)
kpt_get_phys-Faults m v (at_l3 t3 a n) = simp (a.0, a.1, a.3, n.0, n.1)
kpt_get_phys-Faults m v (at_l2 t3 t2 (a, b) n) = simp (a.0, a.1, a.3, b.0, b.1, b.2, b.3, n.0, n.1)
kpt_get_phys-Faults m v (at_l1 t3 t2 t1 ((a, b), c) n) =
    simp (a.0, a.1, a.3, b.0, b.1, b.2, b.3, c.0, c.1, c.2, c.3, n.0, n.1)
