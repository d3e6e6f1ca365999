-- ===== src/Stdio/Format.antt =====
-- The conversions of `vsprintf` (kernel/stdio.c). The variable arguments are a list of 64-bit slots
-- and strings; `none` is undefined behaviour of the code: an argument that is missing or of another
-- kind, a read behind the format's terminator, or a loop that does not end within its fuel.
use sync_kernel.Prelude.{
  ℕ, zero, suc, ◌+◌, ◌-◌, ◌%◌, ◌^◌, Bool, true, false, ◌&&◌, not, Option, none, some, List, [], ◌∷◌,
  ◌++◌, length, ◌==◌, ltb, leb, if◌then◌else◌, ◌>>=◌,
}
use sync_kernel.Prelude.Int.{ℤ, pos, negsuc, sub_ℕ, minus, is_neg, is_zero}
use sync_kernel.Ctype.{isdigit}
use sync_kernel.Stdio.{Flags, repeat, atoi_bit}

pub data Arg : Type 0 where
  word : ℕ → Arg
  text : List ℕ → Arg

abbrev pub take_word : List Arg → Option (ℕ × List Arg)
take_word [] = none
take_word (word n ∷ args) = some (n, args)
take_word (text s ∷ args) = none

abbrev pub take_text : List Arg → Option (List ℕ × List Arg)
take_text [] = none
take_text (word n ∷ args) = none
take_text (text s ∷ args) = some (s, args)

-- The `i32` that a slot holds, and its sign extension to 64 bits.
abbrev pub i32_of : ℕ → ℤ
i32_of n = let w = n % 2 ^ 32 in if ltb w (2 ^ 31) then pos w else negsuc (2 ^ 32 - 1 - w)

abbrev pub sext32 : ℕ → ℕ
sext32 n = let w = n % 2 ^ 32 in if ltb w (2 ^ 31) then w else w + 2 ^ 64 - 2 ^ 32

abbrev pub sext16 : ℕ → ℕ
sext16 n = let w = n % 2 ^ 16 in if ltb w (2 ^ 15) then w else w + 2 ^ 64 - 2 ^ 16

pub data Ext : Type 0 where
  ext_64 ext_32 ext_16 : Ext

unfoldable pub fmt_setflags : List ℕ → Flags → Flags × List ℕ
fmt_setflags [] flags = (flags, [])
fmt_setflags (c ∷ fmt) flags =
    let plus = fmt_setflags fmt (record flags { plus = true }) in
    let left = fmt_setflags fmt (record flags { left = true }) in
    let space = fmt_setflags fmt (record flags { space = true }) in
    let spec = fmt_setflags fmt (record flags { spec = true }) in
    let zero_pad = fmt_setflags fmt (record flags { zero_pad = true }) in
    if c == b'+'
    then plus
    else if c == b'-'
    then left
    else if c == b' '
    then space
    else if c == b'#'
    then spec
    else if c == b'0'
    then zero_pad
    else (flags, c ∷ fmt)

unfoldable pub fmt_setext : List ℕ → Ext × List ℕ
fmt_setext [] = (ext_32, [])
fmt_setext (c ∷ fmt) =
    if c == b'h' then (ext_16, fmt) else if c == b'l' then (ext_64, fmt) else (ext_32, c ∷ fmt)

-- The width, the flags, the format and the arguments left. The digits of a width are read through a
-- copy of the format pointer, so the format itself stays where it was.
unfoldable pub fmt_setwidth : List ℕ → Flags → List Arg → Option (ℤ × Flags × List ℕ × List Arg)
fmt_setwidth [] flags args = some (pos 0, flags, [], args)
fmt_setwidth (c ∷ fmt) flags args =
    let star = (do
      (n, args') ← take_word args
      some (elim (i32_of n) [
        | pos w ↦ (pos w, flags, fmt, args')
        | negsuc w ↦ (pos (w + 1), record flags { left = true }, fmt, args')
      ])) in
    let digits = (do (w, _) ← atoi_bit (c ∷ fmt); some (pos w, flags, c ∷ fmt, args)) in
    if isdigit c then digits else if c == b'*' then star else some (pos 0, flags, c ∷ fmt, args)

abbrev pub at_least_zero : ℤ → ℤ
at_least_zero (pos n) = pos n
at_least_zero (negsuc n) = pos 0

-- The precision and the arguments left; the format stays where it was.
unfoldable pub fmt_setprec : List ℕ → List Arg → Option (ℤ × List Arg)
fmt_setprec [] args = some (negsuc 0, args)
fmt_setprec (c ∷ []) args = some (if c == b'.' then pos 0 else negsuc 0, args)
fmt_setprec (c ∷ d ∷ fmt) args =
    let star = (do (n, args') ← take_word args; some (at_least_zero (i32_of n), args')) in
    let digits = (do (w, _) ← atoi_bit (d ∷ fmt); some (pos w, args)) in
    if not (c == b'.')
    then some (negsuc 0, args)
    else if isdigit d
    then digits
    else if d == b'*'
    then star
    else some (pos 0, args)

-- The number as a 64-bit pattern, and whether it is negative.
unfoldable pub fmt_setnum : Ext → Flags → List Arg → Option (ℕ × Bool × List Arg)
fmt_setnum ext_64 flags args = do
  (n, args') ← take_word args
  some (n, flags.sign && leb (2 ^ 63) n, args')
fmt_setnum ext_16 flags args = do
  (n, args') ← take_word args
  some (if flags.sign then sext16 n else n % 2 ^ 16, false, args')
fmt_setnum ext_32 flags args = do
  (n, args') ← take_word args
  some (if flags.sign then sext32 n else n % 2 ^ 32, flags.sign && is_neg (i32_of n), args')

-- `while (--width) *str++ = ' '`: the bytes written and the width left.
unfoldable pub count_pad : ℕ → ℤ → Option (List ℕ × ℤ)
count_pad zero width = none
count_pad (suc fuel) width =
    let width' = minus width 1 in
    let rest = (do (out, w) ← count_pad fuel width'; some (b' ' ∷ out, w)) in
    if is_zero width' then some ([], width') else rest

-- `while (len < width--) *str++ = ' '`: the number of bytes written and the width left.
abbrev pub len_pad : ℕ → ℤ → ℕ × ℤ
len_pad len (pos w) = if ltb len w then (w - len, sub_ℕ len 1) else (0, sub_ℕ w 1)
len_pad len (negsuc w) = (0, negsuc (w + 1))

-- `strnlen(strarg, precision)`, a negative precision being a huge `size_t`
abbrev pub take_prec : ℤ → List ℕ → List ℕ
take_prec (negsuc n) s = s
take_prec (pos zero) s = []
take_prec (pos (suc n)) [] = []
take_prec (pos (suc n)) (c ∷ s) = c ∷ take_prec (pos n) s

-- `%s` up to its `break`: the bytes written and the width left.
unfoldable pub put_string : Flags → ℤ → ℤ → List ℕ → List ℕ × ℤ
put_string flags width precision s =
    let shown = take_prec precision s in
    let len = length shown in
    let (before, width') = if flags.left then (0, width) else len_pad len width in
    let (after, width'') = if flags.left then (0, width') else len_pad len width' in
    (repeat before b' ' ++ (shown ++ repeat after b' '), width'')

-- What has been written, and what `%n` has stored through its pointers.
pub record Out : Type 0 where
  pub chars : List ℕ
  pub stores : List (ℕ × ℕ)

abbrev pub put : Out → List ℕ → Out
put out cs = record out { chars = out.chars ++ cs }
