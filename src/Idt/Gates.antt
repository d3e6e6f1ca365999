-- ===== src/Idt/Gates.antt =====
-- What the gates of kernel/idt.c say to the processor.
use sync_kernel.Prelude.{
  ℕ, ◌+◌, ◌-◌, ◌*◌, ◌/◌, ◌%◌, ◌^◌, ◌<◌, ◌≡◌, refl, Bool, true, ◌==◌, if◌then◌else◌, arith, bit_and,
  bit_or, holds_below, holds_below-at, ==_iff,
}
use sync_kernel.Idt.{
  Gate, f_idt_present, extract_low_16, extract_mid_16, extract_hi_32, idt64_enablegate,
  idt64_disablegate,
}

-- The entry point that a gate leads to, and whether the processor takes the gate.
abbrev pub target : Gate → ℕ
target g = g.offs_lo + g.offs_mid * 2 ^ 16 + g.offs_hi * 2 ^ 32

abbrev pub is_taken : Gate → Bool
is_taken g = g.flags / 2 ^ 7 % 2 == 1

pub extract-target :
    (base : ℕ)
    → base < 2 ^ 64
    → extract_low_16 base + extract_mid_16 base * 2 ^ 16 + extract_hi_32 base * 2 ^ 32 ≡ base
extract-target base h = omega arith

-- The present bit of a byte, set and cleared.
abbrev marked : ℕ → Bool
marked f = bit_or f f_idt_present % 2 ^ 8 == f % 128 + 128

abbrev cleared : ℕ → Bool
cleared f = bit_and f (2 ^ 32 - 1 - f_idt_present) % 2 ^ 8 == f % 128

marked_table : holds_below marked 256 ≡ true
unfolding holds_below
marked_table = refl

cleared_table : holds_below cleared 256 ≡ true
unfolding holds_below
cleared_table = refl

pub enable-flags :
    (v w : ℕ) (idt : ℕ → Gate)
    → (idt w).flags < 256
    → (idt64_enablegate v idt w).flags
      ≡ (if v == w then (idt w).flags % 128 + 128 else (idt w).flags)
unfolding idt64_enablegate
enable-flags v w idt h =
    ground (arith, ==_iff v w, holds_below-at marked 256 (idt w).flags marked_table h)

pub disable-flags :
    (v w : ℕ) (idt : ℕ → Gate)
    → (idt w).flags < 256
    → (idt64_disablegate v idt w).flags ≡ (if v == w then (idt w).flags % 128 else (idt w).flags)
unfolding idt64_disablegate
disable-flags v w idt h =
    ground (arith, ==_iff v w, holds_below-at cleared 256 (idt w).flags cleared_table h)

pub disable-target :
    (v w : ℕ) (idt : ℕ → Gate) → target (idt64_disablegate v idt w) ≡ target (idt w)
unfolding idt64_disablegate
disable-target v w idt = ground (arith, ==_iff v w)
