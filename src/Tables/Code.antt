-- ===== src/Tables/Code.antt =====
-- What `remap_bootmem_kcode_pages` of kernel/pagetbl.c puts into one table of the kernel's own pages.
use sync_kernel.Prelude.{
  ℕ, zero, suc, ◌+◌, ◌-◌, ◌*◌, ◌/◌, ◌%◌, ◌^◌, ◌≤◌, ◌<◌, ◌≡◌, refl, sym, ◌∙◌, ◌≢◌, ◌⊎◌, inl, inr,
  Bool, true, false, ◌||◌, arith, ◌==◌, Returns, Returns-map, ltb, leb, update, Bool-cases,
}
use sync_kernel.Prelude.Words.{add64}
use sync_kernel.Prelude.Bits.{bit_or_disjoint}
use sync_kernel.Paging.{pt_l1_entrysz, phys_to_virt_of}
use sync_kernel.Tables.{Machine, is_present, bad_table, store}
use sync_kernel.Tables.Remap.{Image, kcode_entry, kcode_fill}
use sync_kernel.Tables.Walk.{HasFrame}

abbrev pub is_writable : ℕ → Bool
is_writable e = e / 2 % 2 == 1

-- The address is one of the kernel's code or constants.
abbrev pub IsCode : Image → ℕ → Type 0
IsCode img addr = (img.begin ≤ addr) × (addr < img.after_ro)

-- The entry `e` is a present page at the frame `f`, writable exactly where it is not the kernel's
-- code or constants.
pub record IsProtected (img : Image) (e f : ℕ) : Type 0 where
  pub frame : HasFrame e 12 f
  pub present : is_present e ≡ true
  pub code : IsCode img (phys_to_virt_of (f * 2 ^ 12)) → is_writable e ≡ false
  pub only_code : is_writable e ≡ false → IsCode img (phys_to_virt_of (f * 2 ^ 12))

has_frame : (f low : ℕ) → f < 2 ^ 40 → low < 2 ^ 12 → HasFrame (f * 2 ^ 12 + low) 12 f
has_frame f low h l = record {
  low = low;
  high = 0;
  low_bits = l;
  high_bits = omega arith;
  frame_bits = omega arith;
  value = omega arith;
}

IsCode-within :
    (img : Image) (addr : ℕ)
    → IsCode img addr
    → (ltb addr img.begin || leb img.after_ro addr) ≢ true
IsCode-within img addr (lo, hi) = ground arith

within-IsCode :
    (img : Image) (addr : ℕ)
    → (ltb addr img.begin || leb img.after_ro addr) ≡ false
    → IsCode img addr
within-IsCode img addr h = (ground arith, ground arith)

kcode_entry-IsProtected :
    (img : Image) (f : ℕ) → f < 2 ^ 40 → IsProtected img (kcode_entry img (f * 2 ^ 12)) f
unfolding kcode_entry
kcode_entry-IsProtected img f h =
    let addr = phys_to_virt_of (f * 2 ^ 12) in
    elim (Bool-cases (ltb addr img.begin || leb img.after_ro addr)) [
      | inl out ↦
          let e = bit_or_disjoint 12 f 3 (omega arith) in
          rw (out, e)
            (record {
              frame = has_frame f 3 h (omega arith);
              present = ground arith;
              code = λ c. absurd (IsCode-within img addr c out);
              only_code = λ w. absurd (ground arith);
            })
      | inr within ↦
          let e = bit_or_disjoint 12 f 1 (omega arith) in
          rw (within, e)
            (record {
              frame = has_frame f 1 h (omega arith);
              present = ground arith;
              code = λ c. ground arith;
              only_code = λ w. within-IsCode img addr within;
            })
    ]

-- Between the machines the `n` entries of `pt` from `k` on have been written, for the pages of the
-- kernel from `phy` on, and no others.
pub record IsKcode (img : Image) (m m' : Machine) (n k pt phy : ℕ) : Type 0 where
  pub written : (j : ℕ) → j < n → m'.tables pt (k + j) ≡ kcode_entry img (phy + j * 4096)
  pub kept : (i : ℕ) → (i < k) ⊎ (k + n ≤ i) → m'.tables pt i ≡ m.tables pt i
  pub others : (t : ℕ) → t ≢ pt → m'.tables t ≡ m.tables t

kcode_fill-IsKcode :
    (n k : ℕ) (img : Image) (pt phy : ℕ) (m : Machine)
    → bad_table pt ≡ false
    → phy + n * 4096 < 2 ^ 64
    → Returns (λ m'. IsKcode img m m' n k pt phy) (kcode_fill n k img pt phy m)
unfolding kcode_fill store
kcode_fill-IsKcode zero k img pt phy m ok top = record {
  written = λ j h. absurd (omega arith);
  kept = λ i h. refl;
  others = λ t h. refl;
}
kcode_fill-IsKcode (suc n) k img pt phy m ok top =
    let e = kcode_entry img phy in
    let m1 : Machine = record m { tables = update m.tables pt (update (m.tables pt) k e) } in
    let phy' = add64 phy pt_l1_entrysz in
    let next_phys : phy' ≡ phy + 4096 = omega arith in
    let rest = kcode_fill-IsKcode n (k + 1) img pt phy' m1 ok (omega arith) in
    let first : m1.tables pt k ≡ e = ground arith in
    rw ok (
      Returns-map _ _ (kcode_fill n (k + 1) img pt phy' m1) rest λ m' f. record {
        written = λ j h. elim (Bool-cases (j == 0)) [
          | inl zeroth ↦
              let here : k + j ≡ k = ground arith in
              let start : phy + j * 4096 ≡ phy = ground arith in
              rw (here, start) (f.kept k (inl (omega arith)) ∙ first)
          | inr later ↦
              let w = f.written (j - 1) (ground arith) in
              let at : k + 1 + (j - 1) ≡ k + j = ground arith in
              let phys_at : phy' + (j - 1) * 4096 ≡ phy + j * 4096 = ground arith in
              rw (sym at, sym phys_at) w
        ];
        kept = λ i h.
            let out : (i < k + 1) ⊎ (k + 1 + n ≤ i) = elim h [
              | inl u ↦ inl (omega arith)
              | inr v ↦ inr (omega arith)
            ] in
            let other : i ≢ k = elim h [ inl u ↦ omega arith | inr v ↦ omega arith ] in
            f.kept i out ∙ (ground arith);
        others = λ t h. f.others t h ∙ (ground arith);
      })

-- Filling `n` entries of a table for the kernel's pages from a frame on makes each of them a present
-- page at its frame, which is not writable if and only if its address in the kernel's mapping is one
-- of the code or the constants; no other entry of any table changes. The frames lie below 2 ^ 52.
pub kcode_fill-IsProtected :
    (n k : ℕ) (img : Image) (pt f : ℕ) (m : Machine)
    → bad_table pt ≡ false
    → f + n < 2 ^ 40
    → Returns
        (λ m'.
          ((j : ℕ) → j < n → IsProtected img (m'.tables pt (k + j)) (f + j))
          × ((i : ℕ) → (i < k) ⊎ (k + n ≤ i) → m'.tables pt i ≡ m.tables pt i)
          × ((t : ℕ) → t ≢ pt → m'.tables t ≡ m.tables t))
        (kcode_fill n k img pt (f * 2 ^ 12) m)
kcode_fill-IsProtected n k img pt f m ok low =
    let filled = kcode_fill-IsKcode n k img pt (f * 2 ^ 12) m ok (omega arith) in
    Returns-map _ _ (kcode_fill n k img pt (f * 2 ^ 12) m) filled λ m' w. (
      λ j h.
          let physical : f * 2 ^ 12 + j * 4096 ≡ (f + j) * 2 ^ 12 = omega arith in
          rw (w.written j h, physical) (kcode_entry-IsProtected img (f + j) (omega arith)),
      w.kept,
      w.others,
    )
