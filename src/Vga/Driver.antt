-- ===== src/Vga/Driver.antt =====
-- kernel/drivers/video/vga/vga.c: the driver's calls go through pointers that `vga_init` sets, to the
-- text screen or to the stubs of kernel/drivers/video/vga/vga_graphics.c.
use sync_kernel.Prelude.{ℕ, Option, some, ◌==◌, if◌then◌else◌, ◌>>=◌}
use sync_kernel.Prelude.Int.{ℤ}
use sync_kernel.Kstring.{Bytes}
use sync_kernel.Boot.{BootType, bios, boot_type}
use sync_kernel.Vma.Ioremap.{Kernel}
use sync_kernel.Vga.{
  Cell, Term, vga_color_black, vga_color_white, vga_text_init, vga_text_setcolor, vga_text_write,
  vga_text_putchar, vga_text_puts, vga_text_clear, vga_text_clear_line, vga_text_get_color,
}

-- The function pointers: what they point to acts on the terminal of the text screen.
pub record Ops : Type 0 where
  pub init : Kernel → Term → Option (Kernel × Term)
  pub setcolor : ℕ → ℕ → Term → Term
  pub write : Bytes → ℕ → ℤ → Term → Option Term
  pub putchar : ℕ → Term → Term
  pub puts : Bytes → ℕ → Term → Option Term
  pub clear : Term → Term
  pub clear_line : Term → Term
  pub get_color : Term → ℕ

abbrev pub text_ops : ℕ → (ℕ → ℕ → Cell) → Ops
text_ops fuel screen = record {
  init = vga_text_init fuel screen;
  setcolor = vga_text_setcolor;
  write = vga_text_write;
  putchar = vga_text_putchar;
  puts = vga_text_puts fuel;
  clear = vga_text_clear;
  clear_line = vga_text_clear_line;
  get_color = vga_text_get_color;
}

-- The stubs do nothing.
abbrev pub graphics_ops : Ops
graphics_ops = record {
  init = λ k t. some (k, t);
  setcolor = λ fg bg t. t;
  write = λ m s len t. some t;
  putchar = λ c t. t;
  puts = λ m str t. some t;
  clear = λ t. t;
  clear_line = λ t. t;
  get_color = λ t. vga_color_black;
}

pub data Mode : Type 0 where
  text graphics : Mode

-- `kvga_ctrl.mode`, the pointers, which are null before `vga_init`, and the terminal.
pub record Controller : Type 0 where
  pub mode : Mode
  pub ops : Option Ops
  pub term : Term

unfoldable pub vga_init :
    ℕ → (ℕ → ℕ → Cell) → BootType → Kernel → Controller → Option (Kernel × Controller)
vga_init fuel screen bootenv k v = do
  let ops = if boot_type bootenv == boot_type bios then text_ops fuel screen else graphics_ops
  (k', t) ← ops.init k v.term
  some (
    k',
    record {
      mode = if boot_type bootenv == boot_type bios then text else graphics;
      ops = some ops;
      term = ops.setcolor vga_color_white vga_color_black t;
    },
  )

abbrev pub with_term : Controller → Term → Controller
with_term v t = record v { term = t }

unfoldable pub vga_setcolor : ℕ → ℕ → Controller → Option Controller
vga_setcolor fg bg v = do ops ← v.ops; some (with_term v (ops.setcolor fg bg v.term))

unfoldable pub vga_write : Bytes → ℕ → ℤ → Controller → Option Controller
vga_write m s len v = do ops ← v.ops; t ← ops.write m s len v.term; some (with_term v t)

unfoldable pub vga_putchar : ℕ → Controller → Option Controller
vga_putchar c v = do ops ← v.ops; some (with_term v (ops.putchar c v.term))

unfoldable pub vga_puts : Bytes → ℕ → Controller → Option Controller
vga_puts m str v = do ops ← v.ops; t ← ops.puts m str v.term; some (with_term v t)

unfoldable pub vga_clear : Controller → Option Controller
vga_clear v = do ops ← v.ops; some (with_term v (ops.clear v.term))

unfoldable pub vga_clear_line : Controller → Option Controller
vga_clear_line v = do ops ← v.ops; some (with_term v (ops.clear_line v.term))

unfoldable pub vga_get_color : Controller → Option ℕ
vga_get_color v = do ops ← v.ops; some (ops.get_color v.term)
