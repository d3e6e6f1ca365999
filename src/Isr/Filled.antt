-- ===== src/Isr/Filled.antt =====
-- The interrupt table as `isr_init` of kernel/isr.c leaves it.
use sync_kernel.Prelude.{
  ℕ, zero, suc, ◌+◌, ◌%◌, ◌^◌, ◌<◌, ◌≡◌, ap, ◌∙◌, true, not, ◌==◌, if◌then◌else◌, arith, bit_or,
  Bool-cases, inl, inr, ==_iff,
}
use sync_kernel.Kstring.Copy.{inside}
use sync_kernel.Idt.{
  Gate, f_idt_present, f_idt_ring_0, f_idt_gate_irq, extract_low_16, extract_mid_16, extract_hi_32,
  idt64_setgate, idt64_enablegate, idt64_disablegate,
}
use sync_kernel.Idt.Gates.{target, is_taken, extract-target, disable-flags, disable-target}
use sync_kernel.Isr.{vector_switch_idtflags, isr_loop, isr_init}

-- A present interrupt gate of ring 0 to an entry point.
abbrev pub irq_gate : ℕ → ℕ → Gate
irq_gate base selector = record {
  offs_lo = extract_low_16 base;
  segment_selector = selector;
  ist = 0;
  flags = bit_or f_idt_present (bit_or f_idt_ring_0 f_idt_gate_irq);
  offs_mid = extract_mid_16 base;
  offs_hi = extract_hi_32 base;
  reserved = 0;
}

-- One round of the loop.
filled_gate :
    (i base selector j : ℕ) (idt : ℕ → Gate)
    → idt64_enablegate i (idt64_setgate i base selector (vector_switch_idtflags (i % 2 ^ 8)) idt) j
      ≡ (if i == j then irq_gate base selector else idt j)
unfolding idt64_enablegate idt64_setgate vector_switch_idtflags
filled_gate i base selector j idt = ground (arith, ==_iff i j)

isr_loop_lem :
    (n i : ℕ) (isr_table : ℕ → ℕ) (addr : ℕ) (idt : ℕ → Gate) (j : ℕ)
    → isr_loop n i isr_table addr idt j
      ≡ (if inside i n j then irq_gate (isr_table j) (addr % 2 ^ 16) else idt j)
unfolding isr_loop
isr_loop_lem zero i isr_table addr idt j = ground arith
isr_loop_lem (suc n) i isr_table addr idt j =
    let round = filled_gate i (isr_table i) (addr % 2 ^ 16) j idt in
    isr_loop_lem n (i + 1) isr_table addr _ j
    ∙ rw round (elim (Bool-cases (i == j)) [
      | inl here ↦ let e : i ≡ j = ground arith in rw (here, e) (ground arith)
      | inr apart ↦ ground arith
    ])

-- Whatever the table held, `isr_init` fills each of its 256 gates: the gate is a present interrupt gate
-- of ring 0 to its vector's entry point, and its selector is the low half of the address of the
-- variable `CODE_SEGMENT64`.
pub isr_init_lem :
    (isr_table : ℕ → ℕ) (addr : ℕ) (idt : ℕ → Gate) (v : ℕ)
    → v < 256
    → isr_table v < 2 ^ 64
    → (isr_init isr_table addr idt v ≡ irq_gate (isr_table v) (addr % 2 ^ 16))
      × (target (isr_init isr_table addr idt v) ≡ isr_table v)
      × (is_taken (isr_init isr_table addr idt v) ≡ true)
unfolding isr_init
isr_init_lem isr_table addr idt v small word =
    let e : isr_loop 256 0 isr_table addr idt v ≡ irq_gate (isr_table v) (addr % 2 ^ 16) =
      isr_loop_lem 256 0 isr_table addr idt v ∙ ground arith in
    (e, ap target e ∙ extract-target (isr_table v) word, ap is_taken e)

-- After `isr_init`, disabling a gate makes that one not present and leaves every other present, and
-- each still leads to its vector's entry point.
pub disable-isr_init :
    (isr_table : ℕ → ℕ) (addr : ℕ) (idt : ℕ → Gate) (v w : ℕ)
    → w < 256
    → isr_table w < 2 ^ 64
    → (is_taken (idt64_disablegate v (isr_init isr_table addr idt) w) ≡ not (v == w))
      × (target (idt64_disablegate v (isr_init isr_table addr idt) w) ≡ isr_table w)
disable-isr_init isr_table addr idt v w small word =
    let filled = isr_init isr_table addr idt in
    let (e, to, on) = isr_init_lem isr_table addr idt w small word in
    let f : (filled w).flags ≡ 0x8E = ap (λ g. g.flags) e in
    let g = disable-flags v w filled (omega (arith, f)) in
    (rw (g, f) (ground arith), disable-target v w filled ∙ to)
