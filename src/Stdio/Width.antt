-- ===== src/Stdio/Width.antt =====
-- How wide the output of `str_num` (kernel/stdio.c) is.
use sync_kernel.Prelude.{
  ℕ, zero, suc, ◌+◌, ◌-◌, ◌≡◌, refl, ap, Bool, true, false, ◌&&◌, ◌||◌, not, List, [], ◌∷◌, length,
  length-append, arith, ◌==◌, if◌then◌else◌,
}
use Prim.Native.Nat.{max}
use sync_kernel.Prelude.Int.{ℤ, pos, negsuc, pos_part, minus}
use sync_kernel.Stdio.{
  Flags, repeat, backwards, str_num, number_text, sign_char, sign_text, prefix_text, spec_width,
  pad_with, pad_if,
}

length-repeat : (n c : ℕ) → length (repeat n c) ≡ n
length-repeat zero c = refl
length-repeat (suc n) c = ap suc (length-repeat n c)

length-backwards : (xs ys : List ℕ) → length (backwards xs ys) ≡ length xs + length ys
length-backwards [] ys = omega arith
length-backwards (x ∷ xs) ys = omega (arith, length-backwards xs (x ∷ ys))

-- The three paddings together fill the room, whichever of them is on.
pads :
    (lead fill : Bool) (c d : ℕ) (room : ℤ)
    → let (a, r) = pad_if lead c room in
      let (b, s) = pad_if fill d r in
      length a + (length b + length (pad_with c s).0) ≡ pos_part room
pads true true c d (pos n) = omega (arith, length-repeat n c)
pads true true c d (negsuc n) = refl
pads true false c d (pos n) = omega (arith, length-repeat n c)
pads true false c d (negsuc n) = refl
pads false true c d (pos n) = omega (arith, length-repeat n d)
pads false true c d (negsuc n) = refl
pads false false c d (pos n) = omega (arith, length-repeat n c)
pads false false c d (negsuc n) = refl

length-prefix_text :
    (flags : Flags) (base : ℕ) → length (prefix_text flags base) ≡ spec_width flags base
unfolding prefix_text spec_width
length-prefix_text flags base = ground arith

length-sign_text : (s : ℕ) → length (sign_text s) ≡ (if s == 0 then 0 else 1)
length-sign_text s = ground arith

-- The sign, the prefix and the digits of `str_num`.
abbrev pub content_length : Flags → Bool → ℕ → ℕ → ℤ → ℕ
content_length flags negative magnitude base precision =
    length (sign_text (sign_char flags negative))
    + length (prefix_text flags base)
    + max (length (number_text flags negative magnitude base precision)) (pos_part precision)

room_left : (w a b p : ℕ) → pos_part (minus (minus (minus (pos w) a) b) p) ≡ w - (a + b + p)
room_left w a b p = ground arith

-- `str_num` writes as many bytes as the greater of the width, if that is not negative, and what
-- the sign, the prefix and the digits, filled up to the precision, take.
pub length-str_num :
    (magnitude : ℕ) (negative : Bool) (base width : ℕ) (precision : ℤ) (flags : Flags)
    → length (str_num magnitude negative base (pos width) precision flags)
      ≡ max width (content_length flags negative magnitude base precision)
unfolding str_num
length-str_num magnitude negative base width precision flags =
    let s = sign_char flags negative in
    let a : ℕ = if s == 0 then 0 else 1 in
    let tmp = number_text flags negative magnitude base precision in
    let p = max (length tmp) (pos_part precision) in
    let room = minus (minus (minus (pos width) a) (spec_width flags base)) p in
    simp (length-append, length-backwards, length-repeat)
      (omega (
        arith,
        length-sign_text s,
        length-prefix_text flags base,
        room_left width a (spec_width flags base) p,
        pads (not (flags.zero_pad && not flags.left || flags.left)) (not flags.left) b' '
            (if flags.zero_pad then b'0' else b' ') room,
      ))
