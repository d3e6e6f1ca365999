-- ===== src/Ctype/Classes.antt =====
-- How the classes of kernel/kctype.h divide the bytes.
use sync_kernel.Prelude.{
  ℕ, ◌+◌, ◌<◌, ◌≡◌, refl, Bool, true, false, ◌&&◌, not, arith, ◌==◌, ltb, leb, if◌then◌else◌,
  holds_below, holds_below-at, ==_iff,
}
use sync_kernel.Ctype.{isdigit, iscntrl, ispunct, isalpha, isprint}

abbrev same : Bool → Bool → Bool
same true b = b
same false b = not b

abbrev one_of : ℕ → Bool
one_of c =
    let n =
      (if iscntrl c then 1 else 0)
      + (if isalpha c then 1 else 0)
      + (if isdigit c then 1 else 0)
      + (if ispunct c then 1 else 0)
      + (if c == 32 then 1 else 0) in
    n == (if ltb c 128 then 1 else 0)

class_table : holds_below one_of 256 ≡ true
unfolding holds_below
class_table = refl

-- Of an ASCII byte exactly one holds: control, letter, digit, punctuation or space; of a byte from
-- 128 on none.
class_partition :
    (c : ℕ)
    → c < 256
    → (if iscntrl c then 1 else 0)
        + (if isalpha c then 1 else 0)
        + (if isdigit c then 1 else 0)
        + (if ispunct c then 1 else 0)
        + (if c == 32 then 1 else 0)
      ≡ (if ltb c 128 then 1 else 0)
class_partition c h = (==_iff _ _).0 (holds_below-at one_of 256 c class_table h)

-- A byte is printable exactly from 32 to 126.
pub isprint_range : (c : ℕ) → isprint c ≡ (leb 32 c && leb c 126)
isprint_range c = ground arith
