-- ===== src/Ctype/Tests.antt =====
-- Runs of the character classes of kernel/kctype.h.
use sync_kernel.Prelude.{◌≡◌, refl, true, false}
use sync_kernel.Ctype.{isxdigit}

hex_digits : (isxdigit b'f' ≡ true) × (isxdigit b'g' ≡ false)
hex_digits = (refl, refl)
