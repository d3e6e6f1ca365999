-- ===== src/Log.antt =====
-- kernel/printk.c and kernel/panic.c: the kernel's log, written to the text console.
pub mod Plain
pub mod Halted
mod Tests
use sync_kernel.Prelude.{
  ◌>>=◌, ℕ, zero, suc, ◌+◌, ◌-◌, ◌&&◌, Option, none, some, List, [], ◌∷◌, length, ltb, leb,
  if◌then◌else◌, min,
}
use Prim.Native.String.{String}
use Prim.Native.Char.{code}
use sync_kernel.Console.{Console, kcon_write}
use sync_kernel.Stdio.Format.{Arg}
use sync_kernel.Stdio.Vsprintf.{vsprintf}

-- `klog_level_t`
abbrev pub klog_err : ℕ
klog_err = 0

abbrev pub klog_info : ℕ
klog_info = 2

abbrev pub klog_debug : ℕ
klog_debug = 3

-- `sizeof(buf)`
abbrev pub buf_size : ℕ
buf_size = 1024

-- The `n` first bytes of the buffer.
abbrev pub first : ℕ → List ℕ → List ℕ
first zero cs = []
first (suc n) [] = []
first (suc n) (c ∷ cs) = c ∷ first n cs

-- `level` is `KERN_LOG_LEVEL`. The length is returned with what `%n` stored. A text that with its
-- terminator is longer than the buffer overwrites the stack, which is undefined: `none`.
unfoldable pub vprintk :
    ℕ → ℕ → Console → ℕ → List ℕ → List Arg → Option (ℕ × List (ℕ × ℕ) × Console)
vprintk fuel level con lvl fmt args = do
  out ← vsprintf fuel fmt args
  let ret = length out.chars
  let written = (do
    (_, con') ← kcon_write con (some (first (min ret (buf_size - 1)) out.chars))
    some (ret, out.stores, con'))
  let done = if ltb 0 ret && leb lvl level then written else some (ret, out.stores, con)
  if ltb buf_size (ret + 1) then none else done

unfoldable pub printk :
    ℕ → ℕ → Console → ℕ → List ℕ → List Arg → Option (ℕ × List (ℕ × ℕ) × Console)
unfolding vprintk
printk fuel level con lvl fmt args = vprintk fuel level con lvl fmt args

-- The bytes of a literal.
abbrev pub codes : String → List ℕ
codes String.[] = []
codes (String.◌∷◌ c s) = code c ∷ codes s

abbrev pub panic_line : String
panic_line = "\n----- KERNEL PANIC -----\n"

-- The console that a halted kernel shows. The message stands where the format does.
unfoldable pub panic : ℕ → ℕ → Console → List ℕ → Option Console
panic fuel level con panicmsg = do
  (_, _, con_a) ← printk fuel level con klog_err panicmsg []
  (_, _, con_b) ← printk fuel level con_a klog_err (codes "\n") []
  (_, _, con_c) ← printk fuel level con_b klog_err (codes panic_line) []
  some con_c
