-- ===== src/Idt/Tests.antt =====
-- Runs of kernel/idt.c, and the constants of kernel/gdt.c.
use sync_kernel.Prelude.{ℕ, ◌≡◌, refl, false}
use sync_kernel.Idt.{
  Gate, idt_limit, kern_gdt_cs, kern_gdtr_limit, idt64_setgate, idt64_enablegate, idt64_disablegate,
}
use sync_kernel.Idt.Gates.{target, is_taken}

abbrev empty : ℕ → Gate
empty v = record {
  offs_lo = 0;
  segment_selector = 0;
  ist = 0;
  flags = 0;
  offs_mid = 0;
  offs_hi = 0;
  reserved = 0;
}

on_and_off :
    let idt = idt64_enablegate 3 (idt64_setgate 3 0xFFFF_FFFF_8012_3456 8 0xE empty) in
    ((idt 3).flags ≡ 0x8E)
    × (target (idt 3) ≡ 0xFFFF_FFFF_8012_3456)
    × (is_taken (idt64_disablegate 3 idt 3) ≡ false)
unfolding idt64_setgate idt64_enablegate idt64_disablegate
on_and_off = (refl, refl, refl)

limits : (idt_limit ≡ 4095) × (kern_gdtr_limit ≡ 15) × (kern_gdt_cs.ppt ≡ 0x9B)
limits = (refl, refl, refl)
