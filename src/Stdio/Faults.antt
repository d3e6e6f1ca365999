-- ===== src/Stdio/Faults.antt =====
-- Where `vsprintf` of kernel/stdio.c departs from the format that it reads.
use sync_kernel.Prelude.{
  ℕ, zero, suc, ◌+◌, ◌-◌, ◌%◌, ◌^◌, ◌≤◌, ◌<◌, ◌≡◌, refl, true, false, none, some, List, [], ◌∷◌,
  arith,
}
use sync_kernel.Prelude.Int.{pos, negsuc}
use sync_kernel.Ctype.{isdigit}
use sync_kernel.Stdio.{Flags, no_flags, atoi_bit}
use sync_kernel.Stdio.Format.{
  Arg, word, text, ext_16, ext_32, fmt_setflags, fmt_setwidth, fmt_setprec, fmt_setext, fmt_setnum,
  count_pad, Out, put,
}
use sync_kernel.Stdio.Vsprintf.{
  Spec, convert, conversion, format_loop, vsprintf, put_char, put_text, put_number,
}

count_pad-negsuc : (fuel n : ℕ) → count_pad fuel (negsuc n) ≡ none
unfolding count_pad
count_pad-negsuc zero n = refl
count_pad-negsuc (suc fuel) n = rw (count_pad-negsuc fuel (n + 1))

count_pad-zero : (fuel : ℕ) → count_pad fuel (pos 0) ≡ none
unfolding count_pad
count_pad-zero zero = refl
count_pad-zero (suc fuel) = rw (count_pad-negsuc fuel 0)

-- A `%c` with no width never gets through its padding, in any number of rounds.
vsprintf_char_hangs :
    (fuel : ℕ) (rest : List ℕ) (args : List Arg) → vsprintf fuel (b'%' ∷ b'c' ∷ rest) args ≡ none
unfolding vsprintf format_loop conversion fmt_setflags fmt_setwidth fmt_setprec fmt_setext convert
    put_char
vsprintf_char_hangs zero rest args = refl
vsprintf_char_hangs (suc fuel) [] args = rw (count_pad-zero fuel)
vsprintf_char_hangs (suc fuel) (c ∷ rest) args = rw (count_pad-zero fuel)

module _ (c : ℕ) (rest : List ℕ) (lo : b'0' < c) (hi : c ≤ b'9') where
  flags_at_digit : fmt_setflags (c ∷ rest) no_flags ≡ (no_flags, c ∷ rest)
  unfolding fmt_setflags
  flags_at_digit = ground arith

  width_at_digit :
      (args : List Arg) {w : ℕ} {tail : List ℕ}
      → atoi_bit (c ∷ rest) ≡ some (w, tail)
      → fmt_setwidth (c ∷ rest) no_flags args ≡ some (pos w, no_flags, c ∷ rest, args)
  unfolding fmt_setwidth
  width_at_digit args e = let digit : isdigit c ≡ true = ground arith in rw (digit, e) refl

  ext_at_digit : fmt_setext (c ∷ rest) ≡ (ext_32, c ∷ rest)
  unfolding fmt_setext
  ext_at_digit = ground arith

  convert_digit :
      (fuel : ℕ) (o : Spec) (args : List Arg) (out : Out)
      → convert fuel c o args out ≡ some (args, put out (b'%' ∷ c ∷ []))
  unfolding convert
  convert_digit fuel o args out = ground arith

prec_at_digit :
    (c : ℕ) (rest : List ℕ) (args : List Arg)
    → b'0' < c
    → fmt_setprec (c ∷ rest) args ≡ some (negsuc 0, args)
unfolding fmt_setprec
prec_at_digit c [] args lo = ground arith
prec_at_digit c (d ∷ rest) args lo = ground arith

-- A conversion that starts with a digit from 1 to 9, a width, prints the percent sign and that
-- digit, takes no argument, and leaves the format behind that digit to be read next, where the width
-- does not overflow.
conversion_width_ignored :
    (fuel c : ℕ) (rest : List ℕ) (args : List Arg) (out : Out) {w : ℕ} {tail : List ℕ}
    → atoi_bit (c ∷ rest) ≡ some (w, tail)
    → b'0' < c
    → c ≤ b'9'
    → conversion fuel (c ∷ rest) args out ≡ some (rest, args, put out (b'%' ∷ c ∷ []))
unfolding conversion
conversion_width_ignored fuel c rest args out e lo hi = simp (
  flags_at_digit c rest lo hi,
  width_at_digit c rest lo hi args e,
  prec_at_digit c rest args lo,
  ext_at_digit c rest lo hi,
  convert_digit c rest lo hi fuel,
)

-- `%hd` of a negative 16-bit number prints the 64-bit pattern of its sign extension, with no sign.
pub fmt_setnum_short_negative :
    (flags : Flags) (n : ℕ) (args : List Arg)
    → flags.sign ≡ true
    → 2 ^ 15 ≤ n % 2 ^ 16
    → fmt_setnum ext_16 flags (word n ∷ args) ≡ some (n % 2 ^ 16 + 2 ^ 64 - 2 ^ 16, false, args)
unfolding fmt_setnum
fmt_setnum_short_negative flags n args sign neg = ground arith

-- `%s` takes a second argument: with the string alone `vsprintf` is undefined, whatever the string.
vsprintf_string_takes_more :
    (fuel : ℕ) (s : List ℕ) (rest : List ℕ)
    → vsprintf fuel (b'%' ∷ b's' ∷ rest) (text s ∷ []) ≡ none
unfolding vsprintf format_loop conversion fmt_setflags fmt_setwidth fmt_setprec fmt_setext convert
    put_text put_number fmt_setnum
vsprintf_string_takes_more zero s rest = refl
vsprintf_string_takes_more (suc fuel) s [] = refl
vsprintf_string_takes_more (suc fuel) s (c ∷ rest) = refl
