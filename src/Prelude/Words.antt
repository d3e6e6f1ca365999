-- ===== src/Prelude/Words.antt =====
-- 64-bit words: a value is a number below 2 ^ 64, and the wrap-around is written out.
use Prim.Native.Nat.{ℕ, ◌+◌, ◌-◌, ◌%◌, ◌^◌}

abbrev pub add64 : ℕ → ℕ → ℕ
add64 a b = (a + b) % 2 ^ 64

-- `-` on ℕ stops at 0, so the modulus comes first.
abbrev pub sub64 : ℕ → ℕ → ℕ
sub64 a b = (a + 2 ^ 64 - b) % 2 ^ 64

-- `(void *)-1`, the error pointer of the kernel's allocators.
abbrev pub invalid_ptr : ℕ
invalid_ptr = 2 ^ 64 - 1
