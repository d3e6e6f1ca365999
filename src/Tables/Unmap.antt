-- ===== src/Tables/Unmap.antt =====
-- Taking a page out of the tables and hanging a table in: `kpt_unmap_page` and
-- `return_pt_or_alloc` of kernel/pagetbl.c.
use sync_kernel.Prelude.{
  ℕ, ◌+◌, ◌-◌, ◌*◌, ◌%◌, ◌^◌, ◌<◌, ◌≡◌, refl, sym, ap, ◌∙◌, ◌≢◌, ◌⊎◌, true, false, some, ◌∷◌, arith,
  ◌==◌, Returns, update, bit_or,
}
use sync_kernel.Prelude.Words.{add64, sub64, invalid_ptr}
use sync_kernel.Prelude.Bits.{bit_or_disjoint, bit_or_fields, bit_or-zero}
use sync_kernel.Paging.{
  page_aligndown, page_l4_idx, page_l3_idx, page_l2_idx, page_l1_idx, page_phys_rebase, pt_rebase,
  phys_to_virt_pm, virt_to_phys_pm,
}
use sync_kernel.Buddy.Pages.{kbud_alloc}
use sync_kernel.Tables.{
  Machine, is_present, is_page, bad_table, load, store, kpt_get_l4, kpt_get_l3, kpt_get_l2,
  kpt_get_l1, below_entry, kpt_get_phys, kpt_unmap_page, return_pt_or_alloc,
}
use sync_kernel.Tables.Walk.{Leads, Reaches1, at_l1, kpt_get_phys-Faults}

pub aligned_indices :
    (v : ℕ)
    → (page_l4_idx (page_aligndown v) ≡ page_l4_idx v)
      × (page_l3_idx (page_aligndown v) ≡ page_l3_idx v)
      × (page_l2_idx (page_aligndown v) ≡ page_l2_idx v)
      × (page_l1_idx (page_aligndown v) ≡ page_l1_idx v)
unfolding page_l4_idx page_l3_idx page_l2_idx page_l1_idx page_aligndown
aligned_indices v = (omega arith, omega arith, omega arith, omega arith)

-- Down a walk of four levels `kpt_get_l1` finds the last table.
kpt_get_l1-Reaches1 :
    (m : Machine) (v t3 t2 t1 : ℕ) → Reaches1 m v t3 t2 t1 → kpt_get_l1 m v 0 ≡ some t1
unfolding kpt_get_l1 kpt_get_l2 kpt_get_l3 load below_entry
kpt_get_l1-Reaches1 m v t3 t2 t1 ((a, b), c) =
    simp (a.0, a.3, b.0, b.1, b.2, b.3, c.0, c.1, c.2, c.3)

-- The machine in which the entry has lost its present bit.
abbrev cleared : Machine → ℕ → ℕ → ℕ → Machine
cleared m t i v =
    let e = m.tables t i in
    record m {
      tables = update m.tables t (update (m.tables t) i (e - e % 2));
      flushed = page_aligndown v ∷ m.flushed;
    }

kpt_unmap_page-eq :
    (m : Machine) (v t3 t2 t1 : ℕ)
    → v ≢ 0
    → Reaches1 m v t3 t2 t1
    → bad_table t1 ≡ false
    → kpt_unmap_page m v ≡ some (cleared m t1 (page_l1_idx v) v)
unfolding kpt_unmap_page load store
kpt_unmap_page-eq m v t3 t2 t1 some_page r ok =
    let i = aligned_indices v in
    let a = page_aligndown v in
    let r' : Reaches1 m a t3 t2 t1 = rw (i.0, i.1, i.2) r in
    let found = kpt_get_l1-Reaches1 m a t3 t2 t1 r' in
    let not_null : (v == 0) ≡ false = ground arith in simp (not_null, found, ok, i.3)

-- A walk does not see what becomes of a table that is none of its own.
pub Leads-update :
    (m m' : Machine) (t i u other : ℕ) (w : ℕ → ℕ)
    → other ≢ t
    → m'.tables ≡ update m.tables other w
    → Leads m t i u
    → Leads m' t i u
Leads-update m m' t i u other w ne e l =
    let same : update m.tables other w t ≡ m.tables t = ground arith in rw (e, same) l

-- `kpt_unmap_page` of an address other than 0 that is mapped by a page of 4 KiB, or not mapped at the
-- last level, where the last table is none of the others of the walk: afterwards every address of that page
-- faults, the page has been flushed, and no other entry of any table has changed.
pub kpt_unmap_page-Faults :
    (m : Machine) (v t3 t2 t1 : ℕ)
    → v ≢ 0
    → Reaches1 m v t3 t2 t1
    → bad_table t1 ≡ false
    → t1 ≢ kpt_get_l4 m
    → t1 ≢ t3
    → t1 ≢ t2
    → Returns
        (λ m'.
          ((w : ℕ) → page_aligndown w ≡ page_aligndown v → kpt_get_phys m' w ≡ some invalid_ptr)
          × (m'.flushed ≡ page_aligndown v ∷ m.flushed)
          × ((t i : ℕ) → (t ≢ t1) ⊎ (i ≢ page_l1_idx v) → m'.tables t i ≡ m.tables t i))
        (kpt_unmap_page m v)
unfolding kpt_get_l4
kpt_unmap_page-Faults m v t3 t2 t1 some_page r ok n4 n3 n2 =
    let m' = cleared m t1 (page_l1_idx v) v in
    let e = m.tables t1 (page_l1_idx v) in
    let row = update (m.tables t1) (page_l1_idx v) (e - e % 2) in
    let ((a, b), c) = r in
    rw (kpt_unmap_page-eq m v t3 t2 t1 some_page r ok) (
      λ w same.
          let i = aligned_indices v in
          let j = aligned_indices w in
          let s4 : page_l4_idx w ≡ page_l4_idx v = sym (j.0) ∙ (ap page_l4_idx same ∙ i.0) in
          let s3 : page_l3_idx w ≡ page_l3_idx v = sym (j.1) ∙ (ap page_l3_idx same ∙ i.1) in
          let s2 : page_l2_idx w ≡ page_l2_idx v = sym (j.2) ∙ (ap page_l2_idx same ∙ i.2) in
          let s1 : page_l1_idx w ≡ page_l1_idx v = sym (j.3) ∙ (ap page_l1_idx same ∙ i.3) in
          let a' = Leads-update m m' (kpt_get_l4 m) (page_l4_idx v) t3 t1 row n4 refl a in
          let b' = Leads-update m m' t3 (page_l3_idx v) t2 t1 row n3 refl b in
          let c' = Leads-update m m' t2 (page_l2_idx v) t1 t1 row n2 refl c in
          kpt_get_phys-Faults m' w
            (at_l1 t3 t2 t1 (rw (s4, s3, s2) ((a', b'), c')) (rw s1 (ok, ground arith))),
      refl,
      λ t i other. ground arith,
    )

present_writable : (f : ℕ) → bit_or (bit_or (f * 2 ^ 12) 1) 2 ≡ f * 2 ^ 12 + 3
present_writable f =
    let one = bit_or_disjoint 12 f 1 (omega arith) in
    let two = bit_or_fields 12 f 1 0 2 (omega arith) (omega arith) in
    rw one (omega (arith, two, bit_or-zero f f (omega arith)))

-- The entry that `return_pt_or_alloc` writes for a table in a frame below 2 ^ 47.
made_entry :
    (f : ℕ)
    → f < 2 ^ 35
    → (bit_or (bit_or (virt_to_phys_pm (phys_to_virt_pm (f * 2 ^ 12))) 1) 2 ≡ f * 2 ^ 12 + 3)
      × (is_present (f * 2 ^ 12 + 3) ≡ true)
      × (is_page (f * 2 ^ 12 + 3) ≡ false)
      × (pt_rebase (f * 2 ^ 12 + 3) ≡ f * 2 ^ 12)
      × (bad_table (phys_to_virt_pm (f * 2 ^ 12)) ≡ false)
unfolding pt_rebase page_phys_rebase virt_to_phys_pm phys_to_virt_pm
made_entry f h =
    let back : sub64 (add64 (f * 2 ^ 12) 0xFFFF800000000000) 0xFFFF800000000000 ≡ f * 2 ^ 12 =
      omega arith in
    (rw back (present_writable f), ground arith, ground arith, omega arith, ground arith)

-- The machine in which the entry leads to a new, empty table.
abbrev hung : Machine → ℕ → ℕ → ℕ → ℕ → Machine
hung m t i p e =
    let zeroed = update m.tables p (λ j. 0) in
    record m {
      tables = update zeroed t (update (zeroed t) i e);
      memory = (kbud_alloc m.memory 0).1;
    }

-- What a table that the entry leads to gives.
pub return_pt_or_alloc-present :
    (m : Machine) (t i p : ℕ) → Leads m t i p → return_pt_or_alloc m t i ≡ some (p, m)
unfolding return_pt_or_alloc load
return_pt_or_alloc-present m t i p l = simp (l.0, l.1, l.3)

return_pt_or_alloc-absent :
    (m : Machine) (t i f : ℕ)
    → f < 2 ^ 35
    → bad_table t ≡ false
    → is_present (m.tables t i) ≡ false
    → (kbud_alloc m.memory 0).0 ≡ phys_to_virt_pm (f * 2 ^ 12)
    → return_pt_or_alloc m t i
      ≡ some
          (phys_to_virt_pm (f * 2 ^ 12), hung m t i (phys_to_virt_pm (f * 2 ^ 12)) (f * 2 ^ 12 + 3))
unfolding return_pt_or_alloc load store
return_pt_or_alloc-absent m t i f h ok absent there =
    let e = made_entry f h in
    let q = phys_to_virt_pm (f * 2 ^ 12) in
    let sound : (q == invalid_ptr) ≡ false = ground (arith, e.4) in
    simp (ok, absent, there, e.0, sound)

-- Where the entry of a table is absent and the allocator hands out a frame below 2 ^ 47 that is not
-- the table itself, `return_pt_or_alloc` returns that frame's address as an empty table, the entry
-- leads to it, the table's other entries are those from before, and the next call for the same entry
-- returns the same table and changes nothing.
pub return_pt_or_alloc-Leads :
    (m : Machine) (t i f : ℕ)
    → f < 2 ^ 35
    → bad_table t ≡ false
    → is_present (m.tables t i) ≡ false
    → (kbud_alloc m.memory 0).0 ≡ phys_to_virt_pm (f * 2 ^ 12)
    → phys_to_virt_pm (f * 2 ^ 12) ≢ t
    → Returns
        (λ r.
          (r.0 ≡ phys_to_virt_pm (f * 2 ^ 12))
          × Leads r.1 t i (phys_to_virt_pm (f * 2 ^ 12))
          × ((j : ℕ) → r.1.tables (phys_to_virt_pm (f * 2 ^ 12)) j ≡ 0)
          × ((j : ℕ) → j ≢ i → r.1.tables t j ≡ m.tables t j)
          × (return_pt_or_alloc r.1 t i ≡ some r))
        (return_pt_or_alloc m t i)
return_pt_or_alloc-Leads m t i f h ok absent there other =
    let p = phys_to_virt_pm (f * 2 ^ 12) in
    let e = made_entry f h in
    let m' = hung m t i p (f * 2 ^ 12 + 3) in
    let entry : m'.tables t i ≡ f * 2 ^ 12 + 3 = ground arith in
    let leads : Leads m' t i p = rw entry (ok, e.1, e.2, ap phys_to_virt_pm (e.3)) in
    let empty : (j : ℕ) → m'.tables p j ≡ 0 = λ j. ground arith in
    let others : (j : ℕ) → j ≢ i → m'.tables t j ≡ m.tables t j = λ j n. ground arith in
    rw (return_pt_or_alloc-absent m t i f h ok absent there)
      (refl, leads, empty, others, return_pt_or_alloc-present m' t i p leads)
