-- ===== src/Idt.antt =====
-- kernel/idt.c: the interrupt descriptor table, as a store of gates by vector. Also the tables of
-- kernel/gdt.c, whose selector the gates are meant to hold.
pub mod Gates
mod Tests
use sync_kernel.Prelude.{ℕ, ◌-◌, ◌*◌, ◌/◌, ◌%◌, ◌^◌, bit_and, bit_or, update}

abbrev pub extract_low_16 : ℕ → ℕ
extract_low_16 x = x % 2 ^ 16

abbrev pub extract_mid_16 : ℕ → ℕ
extract_mid_16 x = x / 2 ^ 16 % 2 ^ 16

abbrev pub extract_hi_32 : ℕ → ℕ
extract_hi_32 x = x / 2 ^ 32 % 2 ^ 32

-- `idt64_entry`
pub record Gate : Type 0 where
  pub offs_lo : ℕ
  pub segment_selector : ℕ
  pub ist : ℕ
  pub flags : ℕ
  pub offs_mid : ℕ
  pub offs_hi : ℕ
  pub reserved : ℕ

-- `enum idt_flags`
abbrev pub f_idt_gate_irq : ℕ
f_idt_gate_irq = 0xE

abbrev pub f_idt_ring_0 : ℕ
f_idt_ring_0 = 0

abbrev pub f_idt_present : ℕ
f_idt_present = 0x80

unfoldable pub idt64_setgate : ℕ → ℕ → ℕ → ℕ → (ℕ → Gate) → ℕ → Gate
idt64_setgate interrupt base seg_desc flags idt = update idt interrupt (record {
  offs_lo = extract_low_16 base;
  segment_selector = seg_desc;
  ist = 0;
  flags = flags;
  offs_mid = extract_mid_16 base;
  offs_hi = extract_hi_32 base;
  reserved = 0;
})

-- The flags are a byte.
unfoldable pub idt64_enablegate : ℕ → (ℕ → Gate) → ℕ → Gate
idt64_enablegate interrupt idt =
    let g = idt interrupt in
    update idt interrupt (record g { flags = bit_or g.flags f_idt_present % 2 ^ 8 })

-- `~F_IDT_PRESENT` is an `int`.
unfoldable pub idt64_disablegate : ℕ → (ℕ → Gate) → ℕ → Gate
idt64_disablegate interrupt idt =
    let g = idt interrupt in
    update idt interrupt (record g { flags = bit_and g.flags (2 ^ 32 - 1 - f_idt_present) % 2 ^ 8 })

-- `_IDT_descriptor.limit`, over 256 gates of 16 bytes.
abbrev pub idt_limit : ℕ
idt_limit = 256 * 0x10 % 2 ^ 16 - 1

-- The bits of kernel/gdt.h
abbrev pub kernel_ppt : ℕ
kernel_ppt = bit_or (bit_or (2 ^ 7) 0) (2 ^ 4)

abbrev pub kernel_cs_ppt : ℕ
kernel_cs_ppt = bit_or (bit_or (bit_or kernel_ppt (2 ^ 3)) (2 ^ 1)) (2 ^ 0)

abbrev pub kernel_cs_flags : ℕ
kernel_cs_flags = 2 ^ 1 * 2 ^ 4

-- `struct GDTEntry`
pub record GdtEntry : Type 0 where
  pub lim_lo : ℕ
  pub zero_word : ℕ
  pub zero1 : ℕ
  pub ppt : ℕ
  pub hi_lim_flags : ℕ
  pub zero2 : ℕ

-- `KERN_GDT.cs`
abbrev pub kern_gdt_cs : GdtEntry
kern_gdt_cs = record {
  lim_lo = 0;
  zero_word = 0;
  zero1 = 0;
  ppt = kernel_cs_ppt;
  hi_lim_flags = kernel_cs_flags;
  zero2 = 0;
}

-- The value of the variable `CODE_SEGMENT64`, behind the null descriptor of 8 bytes.
abbrev pub code_segment64 : ℕ
code_segment64 = 8

-- `KERN_GDTR.limit`, over two descriptors.
abbrev pub kern_gdtr_limit : ℕ
kern_gdtr_limit = (16 - 1) % 2 ^ 16
