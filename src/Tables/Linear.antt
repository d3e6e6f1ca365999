-- ===== src/Tables/Linear.antt =====
-- What `remap_bootmem_dmap_pages` of kernel/pagetbl.c puts into one table of the linear mapping.
use sync_kernel.Prelude.{
  ℕ, zero, suc, ◌+◌, ◌-◌, ◌*◌, ◌/◌, ◌%◌, ◌^◌, ◌≤◌, ◌<◌, ◌≡◌, refl, sym, ap, ◌∙◌, ◌≢◌, ◌⊎◌, inl, inr,
  false, some, arith, ◌==◌, Returns, Returns-map, ltb, update, Bool-cases,
}
use sync_kernel.Prelude.Words.{add64}
use sync_kernel.Prelude.Bits.{bit_or_disjoint}
use sync_kernel.Paging.{page_l3_idx, pt_l3_entrysz}
use sync_kernel.Tables.{Machine, bad_table, store, kpt_get_l4, kpt_get_phys}
use sync_kernel.Tables.Remap.{dmap_entry, dmap_fill}
use sync_kernel.Tables.Walk.{HasFrame, Reaches3, huge, kpt_get_phys-Translates}

-- Between the machines the entries of `pdpt` for `n` pages of 1 GiB from `dmap` on have been
-- written, for the memory from `phys` on, and nothing else that a walk reads.
pub record IsFilled (m m' : Machine) (n pdpt dmap phys : ℕ) : Type 0 where
  pub root : m'.cr3 ≡ m.cr3
  pub written :
      (j : ℕ) → j < n → m'.tables pdpt (page_l3_idx dmap + j) ≡ dmap_entry (phys + j * 2 ^ 30)
  pub kept :
      (i : ℕ)
      → (i < page_l3_idx dmap) ⊎ (page_l3_idx dmap + n ≤ i)
      → m'.tables pdpt i ≡ m.tables pdpt i
  pub others : (t : ℕ) → t ≢ pdpt → m'.tables t ≡ m.tables t

-- The index of the next page follows, while there is one to write.
next_page :
    (n dmap : ℕ)
    → page_l3_idx dmap + suc n ≤ 512
    → dmap + suc n * 2 ^ 30 ≤ 2 ^ 64
    → (page_l3_idx (add64 dmap pt_l3_entrysz) + n ≤ 512)
      × (add64 dmap pt_l3_entrysz + n * 2 ^ 30 ≤ 2 ^ 64)
      × (n ≢ 0 → page_l3_idx (add64 dmap pt_l3_entrysz) ≡ page_l3_idx dmap + 1)
unfolding page_l3_idx
next_page n dmap room top = (omega arith, omega arith, λ h. omega arith)

-- An entry that is not of the later pages, up to the one for the first page.
outside :
    (n i next k : ℕ)
    → (n ≢ 0 → next ≡ i + 1)
    → (k ≤ i) ⊎ (i + suc n ≤ k)
    → (k < next) ⊎ (next + n ≤ k)
outside n i next k follows out = elim (Bool-cases (n == 0)) [
  | inl empty ↦ elim (Bool-cases (ltb k next)) [
    | inl under ↦ inl (ground arith)
    | inr above ↦ inr (ground arith)
  ]
  | inr some_left ↦
      let e : next ≡ i + 1 = follows (ground arith) in
      elim out [ inl under ↦ inl (omega arith) | inr above ↦ inr (omega arith) ]
]

dmap_fill-IsFilled :
    (n pdpt dmap phys : ℕ) (m : Machine)
    → bad_table pdpt ≡ false
    → page_l3_idx dmap + n ≤ 512
    → dmap + n * 2 ^ 30 ≤ 2 ^ 64
    → phys + n * 2 ^ 30 < 2 ^ 52
    → Returns (λ m'. IsFilled m m' n pdpt dmap phys) (dmap_fill n pdpt dmap phys m)
unfolding dmap_fill store
dmap_fill-IsFilled zero pdpt dmap phys m ok room top low = record {
  root = refl;
  written = λ j h. absurd (omega arith);
  kept = λ i h. refl;
  others = λ t h. refl;
}
dmap_fill-IsFilled (suc n) pdpt dmap phys m ok room top low =
    let i = page_l3_idx dmap in
    let row = update (m.tables pdpt) i (dmap_entry phys) in
    let m1 : Machine = record m { tables = update m.tables pdpt row } in
    let dmap' = add64 dmap pt_l3_entrysz in
    let phys' = add64 phys pt_l3_entrysz in
    let step = next_page n dmap room top in
    let next_phys : phys' ≡ phys + 2 ^ 30 = omega arith in
    let rest = dmap_fill-IsFilled n pdpt dmap' phys' m1 ok (step.0) (step.1) (omega arith) in
    let first : m1.tables pdpt i ≡ dmap_entry phys = ground arith in
    rw ok (
      Returns-map _ _ (dmap_fill n pdpt dmap' phys' m1) rest λ m' f. record {
        root = f.root;
        written = λ j h. elim (Bool-cases (j == 0)) [
          | inl zeroth ↦
              let here : i + j ≡ i = ground arith in
              let start : phys + j * 2 ^ 30 ≡ phys = ground arith in
              rw (here, start)
                (f.kept i (outside n i (page_l3_idx dmap') i (step.2) (inl (omega arith))) ∙ first)
          | inr later ↦
              let e : page_l3_idx dmap' ≡ i + 1 = step.2 (ground arith) in
              let w = f.written (j - 1) (ground arith) in
              let at : page_l3_idx dmap' + (j - 1) ≡ i + j = ground arith in
              let phys_at : phys' + (j - 1) * 2 ^ 30 ≡ phys + j * 2 ^ 30 = ground arith in
              rw (sym at, sym phys_at) w
        ];
        kept = λ k h.
            let out : (k ≤ i) ⊎ (i + suc n ≤ k) = elim h [
              | inl u ↦ inl (omega arith)
              | inr v ↦ inr v
            ] in
            f.kept k (outside n i (page_l3_idx dmap') k (step.2) out) ∙ (ground arith);
        others = λ t h. f.others t h ∙ (ground arith);
      })

-- The entry for the page of 1 GiB at the frame `frame`.
dmap_entry_lem : (frame : ℕ) → dmap_entry (frame * 2 ^ 30) ≡ frame * 2 ^ 30 + 131
dmap_entry_lem frame = bit_or_disjoint 30 frame 131 (omega arith)

-- The index of an address in the pages from `dmap` on.
index_within :
    (n dmap x : ℕ)
    → dmap % 2 ^ 30 ≡ 0
    → page_l3_idx dmap + n ≤ 512
    → x < n * 2 ^ 30
    → page_l3_idx (dmap + x) ≡ page_l3_idx dmap + x / 2 ^ 30
unfolding page_l3_idx
index_within n dmap x aligned room h = omega arith

-- A walk above `pdpt` sees the same entries in both machines.
Reaches3-IsFilled :
    (m m' : Machine) (n pdpt dmap phys v : ℕ)
    → IsFilled m m' n pdpt dmap phys
    → kpt_get_l4 m ≢ pdpt
    → Reaches3 m v pdpt
    → Reaches3 m' v pdpt
unfolding kpt_get_l4
Reaches3-IsFilled m m' n pdpt dmap phys v f apart r = rw (f.root, f.others (kpt_get_l4 m) apart) r

-- Once `n` pages of 1 GiB of the linear mapping have been written to a table that the tables above
-- lead to for an address of theirs, `kpt_get_phys` gives for that address the physical one at the
-- same distance: for whole pages that fit one table and lie below 2 ^ 52, where the table is not the
-- topmost one.
pub dmap_fill-Translates :
    (n pdpt dmap frame x : ℕ) (m : Machine)
    → bad_table pdpt ≡ false
    → dmap % 2 ^ 30 ≡ 0
    → page_l3_idx dmap + n ≤ 512
    → dmap + n * 2 ^ 30 ≤ 2 ^ 64
    → (frame + n) * 2 ^ 30 < 2 ^ 52
    → x < n * 2 ^ 30
    → kpt_get_l4 m ≢ pdpt
    → Reaches3 m (dmap + x) pdpt
    → Returns
        (λ m'. kpt_get_phys m' (dmap + x) ≡ some (frame * 2 ^ 30 + x))
        (dmap_fill n pdpt dmap (frame * 2 ^ 30) m)
dmap_fill-Translates n pdpt dmap frame x m ok aligned room top low h apart r =
    let filled = dmap_fill-IsFilled n pdpt dmap (frame * 2 ^ 30) m ok room top (omega arith) in
    let j = x / 2 ^ 30 in
    let at = index_within n dmap x aligned room h in
    Returns-map _ _ (dmap_fill n pdpt dmap (frame * 2 ^ 30) m) filled λ m' f.
      let physical : frame * 2 ^ 30 + j * 2 ^ 30 ≡ (frame + j) * 2 ^ 30 = omega arith in
      let entry : m'.tables pdpt (page_l3_idx (dmap + x)) ≡ (frame + j) * 2 ^ 30 + 131 =
        ap (m'.tables pdpt) at
        ∙ (f.written j (omega arith) ∙ (ap dmap_entry physical ∙ dmap_entry_lem (frame + j))) in
      let page : HasFrame ((frame + j) * 2 ^ 30 + 131) 30 (frame + j) = record {
        low = 131;
        high = 0;
        low_bits = omega arith;
        high_bits = omega arith;
        frame_bits = omega arith;
        value = omega arith;
      } in
      kpt_get_phys-Translates m' (dmap + x) (frame * 2 ^ 30 + x) (
        huge pdpt (frame + j)
          (Reaches3-IsFilled m m' n pdpt dmap (frame * 2 ^ 30) (dmap + x) f apart r)
          (rw entry (ok, ground arith, page)) (rw entry (ground arith)) (omega arith))
