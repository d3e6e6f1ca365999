-- ===== src/Stdio/Tests.antt =====
-- Runs of kernel/stdio.c.
use sync_kernel.Prelude.{some, ◌-◌, ◌^◌, ◌≡◌, refl, false, [], ◌∷◌, ◌++◌, length, arith, Returns}
use sync_kernel.Prelude.Int.{pos, negsuc}
use sync_kernel.Stdio.{
  no_flags, base_dec, base_hex, atoi_bit, str_num, digit_loop, digit_char, number_text, sign_char,
  prefix_text, spec_width,
}
use sync_kernel.Stdio.Format.{word, fmt_setflags, fmt_setext, fmt_setwidth, fmt_setprec, fmt_setnum}
use sync_kernel.Stdio.Vsprintf.{vsprintf, format_loop, conversion, convert, put_number}
use sync_kernel.Stdio.Digits.{atoi_bit-str_num}
use sync_kernel.Stdio.Width.{length-str_num}

-- `%d` of -42 and `%x` of 255
prints :
    Returns
      (λ o. o.chars ≡ b'-' ∷ b'4' ∷ b'2' ∷ b' ' ∷ b'f' ∷ b'f' ∷ [])
      (vsprintf 9 (b'%' ∷ b'd' ∷ b' ' ∷ b'%' ∷ b'x' ∷ []) (word (2 ^ 32 - 42) ∷ word 255 ∷ []))
unfolding vsprintf format_loop conversion fmt_setflags fmt_setwidth fmt_setprec fmt_setext convert
    put_number fmt_setnum str_num digit_loop digit_char number_text sign_char prefix_text spec_width
prints = refl

atoi_bit-str_num_example :
    atoi_bit (str_num 409 false base_dec (pos 0) (negsuc 0) no_flags ++ (b'x' ∷ []))
    ≡ some (409, b'x' ∷ [])
atoi_bit-str_num_example = atoi_bit-str_num 409 false (b'x' ∷ []) (omega arith) refl

length-str_num_example : length (str_num 409 false base_hex (pos 8) (negsuc 0) no_flags) ≡ 8
unfolding digit_loop digit_char number_text sign_char prefix_text
length-str_num_example = length-str_num 409 false base_hex 8 (negsuc 0) no_flags
