-- ===== src/Stdio/Vsprintf.antt =====
-- `vsprintf` of kernel/stdio.c: its loop over the format. A result is what has been written, with
-- the number of bytes as the length of that; `none` is undefined behaviour, as in `Stdio.Format`.
use sync_kernel.Prelude.{
  ℕ, zero, suc, ◌%◌, ◌^◌, true, false, ◌||◌, Option, none, some, List, [], ◌∷◌, ◌++◌, length, ◌==◌,
  if◌then◌else◌, ◌>>=◌,
}
use sync_kernel.Prelude.Int.{ℤ, pos, negsuc}
use sync_kernel.Stdio.{Flags, no_flags, base_oct, base_dec, base_hex, str_num}
use sync_kernel.Stdio.Format.{
  Arg, Ext, ext_64, take_word, take_text, fmt_setflags, fmt_setext, fmt_setwidth, fmt_setprec,
  fmt_setnum, count_pad, put_string, Out, put,
}

-- What one conversion works with, once its options have been read.
pub record Spec : Type 0 where
  pub flags : Flags
  pub width : ℤ
  pub precision : ℤ
  pub ext : Ext

-- The number that stands behind the `switch`.
unfoldable pub put_number : Spec → ℕ → List Arg → Out → Option (List Arg × Out)
put_number o base args out = do
  (n, negative, args') ← fmt_setnum o.ext o.flags args
  some (args', put out (str_num n negative base o.width o.precision o.flags))

unfoldable pub put_char : ℕ → Spec → List Arg → Out → Option (List Arg × Out)
put_char fuel o args out = do
  (before, width) ← (if o.flags.left then some ([], o.width) else count_pad fuel o.width)
  (n, args') ← take_word args
  (after, _) ← (if o.flags.left then some ([], width) else count_pad fuel width)
  some (args', put out (before ++ ((n % 256) ∷ after)))

abbrev pub with_sign : Spec → Spec
with_sign o = record o { flags = record (o.flags) { sign = true } }

abbrev pub with_lower : Spec → Spec
with_lower o = record o { flags = record (o.flags) { lower = true } }

-- `%p`: a width is never -1, but the code tests it.
abbrev pub pointer_spec : Spec → Spec
pointer_spec o = elim o.width [
  | pos w ↦ o
  | negsuc w ↦
      if w == 0
      then record o { width = pos 16; flags = record (o.flags) { zero_pad = true } }
      else o
]

unfoldable pub put_pointer : Spec → List Arg → Out → Option (List Arg × Out)
put_pointer o args out = do
  (n, args') ← take_word args
  let o' = pointer_spec o
  some (args', put out (str_num n false base_hex o'.width o'.precision o'.flags))

-- `%s` goes on to print a number, since its case ends in `break`.
unfoldable pub put_text : Spec → List Arg → Out → Option (List Arg × Out)
put_text o args out = do
  (s, args') ← take_text args
  let (cs, width) = put_string o.flags o.width o.precision s
  put_number (record o { width = width }) base_dec args' (put out cs)

unfoldable pub put_count : Spec → List Arg → Out → Option (List Arg × Out)
put_count o args out = do
  (p, args') ← take_word args
  let n = length out.chars
  let stored : ℕ = elim o.ext [ ext_64 ↦ n | _ ↦ n % 2 ^ 32 ]
  some (args', record out { stores = (p, stored) ∷ out.stores })

-- The `switch` on the conversion character.
unfoldable pub convert : ℕ → ℕ → Spec → List Arg → Out → Option (List Arg × Out)
convert fuel c o args out =
    if c == b'c'
    then put_char fuel o args out
    else if c == b's'
    then put_text o args out
    else if (c == b'd') || (c == b'i')
    then put_number (with_sign o) base_dec args out
    else if c == b'u'
    then put_number o base_dec args out
    else if c == b'o'
    then put_number o base_oct args out
    else if c == b'n'
    then put_count o args out
    else if c == b'x'
    then put_number (with_lower o) base_hex args out
    else if c == b'X'
    then put_number o base_hex args out
    else if c == b'p'
    then put_pointer o args out
    else if c == b'%'
    then some (args, put out (b'%' ∷ []))
    else some (args, put out (b'%' ∷ c ∷ []))

-- A conversion from behind its `%`: the rest of the format, the arguments left and the output. At the
-- terminator the code writes the `%`, steps over the terminator and reads on behind it.
unfoldable pub conversion : ℕ → List ℕ → List Arg → Out → Option (List ℕ × List Arg × Out)
conversion fuel fmt args out = do
  let (flags, fmt_a) = fmt_setflags fmt no_flags
  (width, flags', fmt_b, args_a) ← fmt_setwidth fmt_a flags args
  (precision, args_b) ← fmt_setprec fmt_b args_a
  let (ext, fmt_c) = fmt_setext fmt_b
  let o : Spec = record { flags = flags'; width = width; precision = precision; ext = ext }
  elim fmt_c [
    | [] ↦ none
    | c ∷ rest ↦ (do (args_c, out') ← convert fuel c o args_b out; some (rest, args_c, out'))
  ]

unfoldable pub format_loop : ℕ → List ℕ → List Arg → Out → Option Out
format_loop zero fmt args out = none
format_loop (suc fuel) [] args out = some out
format_loop (suc fuel) (c ∷ fmt) args out =
    let plain = format_loop fuel fmt args (put out (c ∷ [])) in
    let converted = (do
      (rest, args', out') ← conversion fuel fmt args out
      format_loop fuel rest args' out') in
    if c == b'%' then converted else plain

unfoldable pub vsprintf : ℕ → List ℕ → List Arg → Option Out
vsprintf fuel fmt args = format_loop fuel fmt args (record { chars = []; stores = [] })
