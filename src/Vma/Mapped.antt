-- ===== src/Vma/Mapped.antt =====
-- A page mapped by kernel/mm/vmalloc.c, and the walk of kernel/pagetbl.c to it.
use sync_kernel.Prelude.{
  ℕ, ◌+◌, ◌*◌, ◌/◌, ◌%◌, ◌^◌, ◌<◌, ◌≡◌, refl, sym, ◌≢◌, Bool, true, false, ◌&&◌, not, some, arith,
  ◌==◌, Returns, ltb, update, bit_or,
}
use mathlib.Core.Path.{subst}
use sync_kernel.Prelude.Bits.{bit_or_fields, bit_or-zero, zero-bit_or}
use sync_kernel.Paging.{page_l4_idx, page_l3_idx, page_l2_idx, page_l1_idx}
use sync_kernel.Tables.{Machine, bad_table, is_present, kpt_get_l4, kpt_get_phys, store}
use sync_kernel.Tables.Walk.{HasFrame, Leads, IsPage, Reaches1, small, kpt_get_phys-Translates}
use sync_kernel.Tables.Unmap.{Leads-update, return_pt_or_alloc-present}
use sync_kernel.Vma.Ioremap.{
  has_flag, add_flag, no_execute, pt_flag_user, pt_flag_write_through, pt_flag_pagecache_disable,
  Cursor, vma_to_pte_flags, PageCtx, start_at, pt_map_norm, norm_l4, norm_l3, norm_l2, enter,
  fill_entries,
}

-- The flags of an entry: some of the low bits, the present one among them, and the highest.
record IsFlags (e : ℕ) : Type 0 where
  low : ℕ
  high : ℕ
  low_bits : low < 2 ^ 12
  high_bit : high < 2
  present : low % 2 ≡ 1
  value : e ≡ high * 2 ^ 63 + low

abbrev flags_test : ℕ → Bool
flags_test e = ltb (e % 2 ^ 63) (2 ^ 12) && ((e % 2 == 1) && ltb (e / 2 ^ 63) 2)

IsFlags-of_test : (e : ℕ) → flags_test e ≡ true → IsFlags e
IsFlags-of_test e h = record {
  low = e % 2 ^ 63;
  high = e / 2 ^ 63;
  low_bits = ground arith;
  high_bit = ground arith;
  present = ground arith;
  value = omega arith;
}

-- A test of both Boolean values.
every : (Bool → Bool) → Bool
every p = p true && p false

every-holds : (p : Bool → Bool) → every p ≡ true → (b : Bool) → p b ≡ true
unfolding every
every-holds p h true = ground arith
every-holds p h false = ground arith

-- The flags as a function of the tests.
abbrev flags_of : Bool → Bool → Bool → Bool → Bool → Bool → ℕ
flags_of write user io nocache through no_exec = add_flag no_exec no_execute (
    add_flag through pt_flag_write_through (
      add_flag nocache pt_flag_pagecache_disable
        (add_flag io 3 (add_flag user pt_flag_user (add_flag write 2 1)))))

flags_of_lem :
    (write user io nocache through no_exec : Bool)
    → flags_test (flags_of write user io nocache through no_exec) ≡ true
unfolding every
flags_of_lem w u i n t x =
    let all_x =
      every-holds
        (λ w.
          every λ u. every λ i. every λ n. every λ t. every λ x. flags_test (flags_of w u i n t x))
        refl in
    let all_u = all_x w in
    let all_i =
      every-holds
        (λ u. every λ i. every λ n. every λ t. every λ x. flags_test (flags_of w u i n t x)) all_u
        u in
    let all_n =
      every-holds (λ i. every λ n. every λ t. every λ x. flags_test (flags_of w u i n t x)) all_i
        i in
    let all_t =
      every-holds (λ n. every λ t. every λ x. flags_test (flags_of w u i n t x)) all_n n in
    let last = every-holds (λ t. every λ x. flags_test (flags_of w u i n t x)) all_t t in
    every-holds (λ x. flags_test (flags_of w u i n t x)) last x

vma_to_pte_flags-IsFlags : (flags : ℕ) → IsFlags (vma_to_pte_flags flags)
unfolding vma_to_pte_flags
vma_to_pte_flags-IsFlags flags =
    let e = vma_to_pte_flags flags in
    let test : flags_test e ≡ true =
      flags_of_lem (has_flag flags 1) (has_flag flags 3) (has_flag flags 5) (has_flag flags 6)
        (has_flag flags 7) (not (has_flag flags 2)) in
    IsFlags-of_test e test

-- The frame of an entry is the one that was or-ed with the flags.
flagged-HasFrame :
    (f e : ℕ)
    → f < 2 ^ 40
    → IsFlags e
    → HasFrame (bit_or (f * 2 ^ 12) e) 12 f × (is_present (bit_or (f * 2 ^ 12) e) ≡ true)
flagged-HasFrame f e h g =
    let entry : e ≡ g.high * 2 ^ 51 * 2 ^ 12 + g.low = omega (arith, g.value) in
    let base : f * 2 ^ 12 + 0 ≡ f * 2 ^ 12 = omega arith in
    let none_low : g.high * 2 ^ 51 + 0 ≡ g.high * 2 ^ 51 = omega arith in
    let none_high : 0 * 2 ^ 51 + f ≡ f = omega arith in
    let fields = bit_or_fields 12 f 0 (g.high * 2 ^ 51) g.low (omega arith) (g.low_bits) in
    let split : bit_or (f * 2 ^ 12) e ≡ bit_or f (g.high * 2 ^ 51) * 2 ^ 12 + bit_or 0 g.low =
      rw (entry, sym base) fields in
    let highs = bit_or_fields 51 0 f g.high 0 (omega arith) (omega arith) in
    let upper : bit_or f (g.high * 2 ^ 51) ≡ bit_or 0 g.high * 2 ^ 51 + bit_or f 0 =
      subst (λ k. bit_or k (g.high * 2 ^ 51) ≡ bit_or 0 g.high * 2 ^ 51 + bit_or f 0) none_high
        (subst (λ k. bit_or (0 * 2 ^ 51 + f) k ≡ bit_or 0 g.high * 2 ^ 51 + bit_or f 0) none_low
          highs) in
    let value : bit_or (f * 2 ^ 12) e ≡ (g.high * 2 ^ 51 + f) * 2 ^ 12 + g.low =
      omega (
        arith,
        split,
        upper,
        zero-bit_or g.low,
        zero-bit_or g.high,
        bit_or-zero f f (omega arith),
      ) in
    let frame : HasFrame (bit_or (f * 2 ^ 12) e) 12 f = record {
      low = g.low;
      high = g.high * 2 ^ 11;
      low_bits = g.low_bits;
      high_bits = omega (arith, g.high_bit);
      frame_bits = omega arith;
      value = omega (arith, value);
    } in
    (frame, ground (arith, value, g.present))

-- The addresses of a page have the same indices.
same_indices :
    (v o : ℕ)
    → v % 2 ^ 12 ≡ 0
    → o < 4096
    → (page_l4_idx (v + o) ≡ page_l4_idx v)
      × (page_l3_idx (v + o) ≡ page_l3_idx v)
      × (page_l2_idx (v + o) ≡ page_l2_idx v)
      × (page_l1_idx (v + o) ≡ page_l1_idx v)
unfolding page_l4_idx page_l3_idx page_l2_idx page_l1_idx
same_indices v o a h = (omega arith, omega arith, omega arith, omega arith)

-- Through an entry that leads to a table a loop goes without a change.
enter-Leads :
    (idx : ℕ → ℕ) (table t : ℕ) (c : Cursor)
    → Leads c.machine table (idx c.vbase) t
    → enter idx table c ≡ some (t, c)
unfolding enter
enter-Leads idx table t c l = simp (return_pt_or_alloc-present c.machine table (idx c.vbase) t l)

-- The request for one page of 4 KiB.
abbrev one_page : ℕ → ℕ → ℕ → PageCtx
one_page vaddr paddr flags = record {
  vaddr = vaddr;
  paddr = paddr;
  align_sz = 4096;
  pte_flags = flags;
  l4_ent_count = 1;
  l3_ent_count = 1;
  l2_ent_count = 1;
  l1_ent_count = 1;
}

abbrev entered : Machine → ℕ → ℕ → ℕ → Machine
entered m t i e = record m { tables = update m.tables t (update (m.tables t) i e) }

pt_map_norm-eq :
    (m : Machine) (v p e t3 t2 t1 : ℕ)
    → Reaches1 m v t3 t2 t1
    → bad_table t1 ≡ false
    → pt_map_norm m (kpt_get_l4 m) (one_page v p e)
      ≡ some (entered m t1 (page_l1_idx v) (bit_or p e))
unfolding pt_map_norm norm_l4 norm_l3 norm_l2 fill_entries store
pt_map_norm-eq m v p e t3 t2 t1 ((a, b), c) ok =
    let s = start_at (one_page v p e) m in
    let e4 = enter-Leads page_l4_idx (kpt_get_l4 m) t3 s a in
    let e3 = enter-Leads page_l3_idx t3 t2 s b in
    let e2 = enter-Leads page_l2_idx t2 t1 s c in simp (e4, e3, e2, ok)

-- `pt_map_norm` of one page, for an address whose upper tables are there already, with the flags that
-- `vma_to_pte_flags` makes of any area's: afterwards `kpt_get_phys` gives for every address of the
-- page the physical one at the same offset. The last table is none of those above it, the virtual
-- address begins a page, and the physical frame lies below 2 ^ 52.
pub pt_map_norm-Translates :
    (m : Machine) (v f flags t3 t2 t1 : ℕ)
    → f < 2 ^ 40
    → v % 2 ^ 12 ≡ 0
    → Reaches1 m v t3 t2 t1
    → bad_table t1 ≡ false
    → t1 ≢ kpt_get_l4 m
    → t1 ≢ t3
    → t1 ≢ t2
    → Returns
        (λ m'. (o : ℕ) → o < 4096 → kpt_get_phys m' (v + o) ≡ some (f * 2 ^ 12 + o))
        (pt_map_norm m (kpt_get_l4 m) (record {
          vaddr = v;
          paddr = f * 2 ^ 12;
          align_sz = 4096;
          pte_flags = vma_to_pte_flags flags;
          l4_ent_count = 1;
          l3_ent_count = 1;
          l2_ent_count = 1;
          l1_ent_count = 1;
        }))
unfolding kpt_get_l4
pt_map_norm-Translates m v f flags t3 t2 t1 h aligned r ok n4 n3 n2 =
    let p = f * 2 ^ 12 in
    let e = vma_to_pte_flags flags in
    let entry = bit_or p e in
    let (page, present) = flagged-HasFrame f e h (vma_to_pte_flags-IsFlags flags) in
    let m' = entered m t1 (page_l1_idx v) entry in
    let row = update (m.tables t1) (page_l1_idx v) entry in
    let ((a, b), c) = r in
    rw (pt_map_norm-eq m v p e t3 t2 t1 r ok) λ o within.
      let (s4, s3, s2, s1) = same_indices v o aligned within in
      let a' = Leads-update m m' (kpt_get_l4 m) (page_l4_idx v) t3 t1 row n4 refl a in
      let b' = Leads-update m m' t3 (page_l3_idx v) t2 t1 row n3 refl b in
      let c' = Leads-update m m' t2 (page_l2_idx v) t1 t1 row n2 refl c in
      let written : m'.tables t1 (page_l1_idx v) ≡ entry = ground arith in
      let last : IsPage m' t1 (page_l1_idx v) 12 f = rw written (ok, present, page) in
      kpt_get_phys-Translates m' (v + o) (p + o)
        (small t3 t2 t1 f (rw (s4, s3, s2) ((a', b'), c')) (rw s1 last) (omega arith))
