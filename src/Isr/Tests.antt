-- ===== src/Isr/Tests.antt =====
-- Runs of kernel/isr.c.
use sync_kernel.Prelude.{ℕ, ◌+◌, ◌*◌, ◌≡◌, ◌≢◌, refl, true, arith}
use sync_kernel.Idt.{Gate, code_segment64}
use sync_kernel.Idt.Gates.{target, is_taken}
use sync_kernel.Isr.{security, isr_vector, panic_message, x64_isr_handler, isr_init}
use sync_kernel.Isr.Filled.{irq_gate, isr_init_lem}

abbrev stale : ℕ → Gate
stale v = record {
  offs_lo = 1;
  segment_selector = 2;
  ist = 3;
  flags = 4;
  offs_mid = 5;
  offs_hi = 6;
  reserved = 7;
}

abbrev entries : ℕ → ℕ
entries v = 0xFFFF_FFFF_8010_0000 + v * 16

-- The security exception does not reach its handler, and vector 24 does.
misplaced :
    (x64_isr_handler (isr_vector security) ≡ "temporary")
    × (x64_isr_handler 24 ≡ panic_message security)
unfolding x64_isr_handler isr_vector panic_message
misplaced = (refl, refl)

-- A variable at this address gives another selector than the one that it holds.
selector : (irq_gate (entries 0) 0x3458).segment_selector ≢ code_segment64
selector = omega arith

isr_init_lem_example :
    (isr_init entries 0xFFFF_FFFF_8012_3458 stale 14 ≡ irq_gate (entries 14) 0x3458)
    × (target (isr_init entries 0xFFFF_FFFF_8012_3458 stale 14) ≡ entries 14)
    × (is_taken (isr_init entries 0xFFFF_FFFF_8012_3458 stale 14) ≡ true)
isr_init_lem_example =
    isr_init_lem entries 0xFFFF_FFFF_8012_3458 stale 14 (omega arith) (omega arith)
