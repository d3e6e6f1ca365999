-- ===== src/Stdio.antt =====
-- kernel/stdio.c: formatted printing. A string is the list of its bytes before the terminator, a
-- `char *` that moves along the format is the rest of that list, and the output is the list of the
-- bytes written. The flag word is a record of its bits.
pub mod Format
pub mod Vsprintf
pub mod Digits
pub mod Width
pub mod Faults
mod Tests
use sync_kernel.Prelude.{
  Option, none, some, ℕ, zero, suc, ◌+◌, ◌-◌, ◌*◌, ◌/◌, ◌%◌, ◌^◌, Bool, false, ◌&&◌, ◌||◌, not,
  List, [], ◌∷◌, ◌++◌, length, ◌==◌, ltb, if◌then◌else◌, bit_or,
}
use Prim.Native.Nat.{max}
use sync_kernel.Prelude.Int.{ℤ, pos, negsuc, pos_part, minus, is_zero}
use sync_kernel.Ctype.{isdigit}

-- `enum strnum_flags`
pub record Flags : Type 0 where
  pub sign : Bool
  pub plus : Bool
  pub left : Bool
  pub zero_pad : Bool
  pub lower : Bool
  pub space : Bool
  pub spec : Bool

abbrev pub no_flags : Flags
no_flags = record {
  sign = false;
  plus = false;
  left = false;
  zero_pad = false;
  lower = false;
  space = false;
  spec = false;
}

-- `enum printf_bases`, by value
abbrev pub base_oct : ℕ
base_oct = 8

abbrev pub base_dec : ℕ
base_dec = 10

abbrev pub base_hex : ℕ
base_hex = 16

abbrev pub repeat : ℕ → ℕ → List ℕ
repeat zero c = []
repeat (suc n) c = c ∷ repeat n c

-- The number read and the text behind it. An `i64` that overflows is undefined: `none`.
unfoldable pub atoi_loop : ℕ → List ℕ → Option (ℕ × List ℕ)
atoi_loop i [] = some (i, [])
atoi_loop i (c ∷ str) =
    let i' = i * 10 + (c - b'0') in
    let rest = atoi_loop i' str in
    if isdigit c then if ltb i' (2 ^ 63) then rest else none else some (i, c ∷ str)

unfoldable pub atoi_bit : List ℕ → Option (ℕ × List ℕ)
atoi_bit str = atoi_loop 0 str

-- `printf_digits[i] | lower` for a digit `i` below 16, `lower` being 0x20 or 0
unfoldable pub digit_char : Bool → ℕ → ℕ
digit_char lower i =
    bit_or (if ltb i 10 then b'0' + i else b'A' + (i - 10)) (if lower then 0x20 else 0)

-- `do { tmp[i++] = reta(&magnitude, base) | lower; } while (magnitude)`: lowest digit first. A word
-- has fewer digits than the 64 rounds.
unfoldable pub digit_loop : ℕ → Bool → ℕ → ℕ → List ℕ
digit_loop zero lower base magnitude = []
digit_loop (suc k) lower base magnitude =
    let rest = digit_loop k lower base (magnitude / base) in
    digit_char lower (magnitude % base) ∷ (if magnitude / base == 0 then [] else rest)

-- The backward copy `while (i) *str++ = tmp[--i]`.
abbrev pub backwards : List ℕ → List ℕ → List ℕ
backwards [] out = out
backwards (c ∷ tmp) out = backwards tmp (c ∷ out)

-- `while (width-- > 0) *str++ = c`: the bytes written, and the width left.
abbrev pub pad_with : ℕ → ℤ → List ℕ × ℤ
pad_with c (pos n) = (repeat n c, negsuc 0)
pad_with c (negsuc n) = ([], negsuc (n + 1))

-- The same loop under a test.
abbrev pub pad_if : Bool → ℕ → ℤ → List ℕ × ℤ
pad_if b c w = if b then pad_with c w else ([], w)

-- The sign character; 0 for none.
unfoldable pub sign_char : Flags → Bool → ℕ
sign_char flags negative =
    if not flags.sign
    then 0
    else if negative
    then b'-'
    else if flags.plus
    then b'+'
    else if flags.space
    then b' '
    else 0

abbrev pub sign_text : ℕ → List ℕ
sign_text sign = if sign == 0 then [] else sign ∷ []

-- What STR_SPEC writes before the digits.
unfoldable pub prefix_text : Flags → ℕ → List ℕ
prefix_text flags base =
    if not flags.spec
    then []
    else if base == base_oct
    then b'0' ∷ []
    else if base == base_hex
    then b'0' ∷ bit_or b'X' (if flags.lower then 0x20 else 0) ∷ []
    else []

unfoldable pub spec_width : Flags → ℕ → ℕ
spec_width flags base =
    if not flags.spec then 0 else if base == base_hex then 2 else if base == base_oct then 1 else 0

-- The digits of `str_num`, lowest first, of the magnitude after its sign has been taken off.
unfoldable pub number_text : Flags → Bool → ℕ → ℕ → ℤ → List ℕ
number_text flags negative magnitude base precision =
    let mag = if flags.sign && negative then (2 ^ 64 - magnitude) % 2 ^ 64 else magnitude in
    if (mag == 0) && is_zero precision then [] else digit_loop 64 flags.lower base mag

unfoldable pub str_num : ℕ → Bool → ℕ → ℤ → ℤ → Flags → List ℕ
str_num magnitude negative base width precision flags =
    let sign = sign_char flags negative in
    let zero_pad = flags.zero_pad && not flags.left in
    let tmp = number_text flags negative magnitude base precision in
    let i = length tmp in
    let prec = max i (pos_part precision) in
    let room =
      minus (minus (minus width (if sign == 0 then 0 else 1)) (spec_width flags base)) prec in
    let (lead, width_left) = pad_if (not (zero_pad || flags.left)) b' ' room in
    let (fill, width_end) =
      pad_if (not flags.left) (if flags.zero_pad then b'0' else b' ') width_left in
    let (trail, _) = pad_with b' ' width_end in
    lead
    ++ (sign_text sign
        ++ (prefix_text flags base
            ++ (fill ++ (repeat (prec - i) b'0' ++ (backwards tmp [] ++ trail)))))
