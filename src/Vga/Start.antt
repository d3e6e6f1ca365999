-- ===== src/Vga/Start.antt =====
-- The VGA driver from its start in kernel/drivers/video/vga/vga.c on.
use sync_kernel.Prelude.{ℕ, Option, ◌>>=◌}
use sync_kernel.Kstring.{Bytes}
use sync_kernel.Boot.{BootType}
use sync_kernel.Vma.Ioremap.{Kernel}
use sync_kernel.Vga.{
  Cell, Term, vga_cells, vga_init_color, vga_color_white, vga_color_black, set_cells,
  vga_text_setcolor,
}
use sync_kernel.Vga.Driver.{Controller, vga_init, vga_puts}

abbrev pub blank : Cell
blank = record { ch = b' '; color = vga_init_color }

-- The terminal as `vga_init` leaves it on the text screen.
started : (ℕ → Cell) → Term → Term
started out t =
    vga_text_setcolor vga_color_white vga_color_black
      (record t { out = set_cells vga_cells 0 blank out; color = vga_init_color })

-- `vga_init`, and then a string.
abbrev pub greet :
    ℕ → (ℕ → ℕ → Cell) → BootType → Kernel → Controller → Bytes → ℕ → Option Controller
greet fuel screen bootenv k v m str = do
  (_, v') ← vga_init fuel screen bootenv k v
  vga_puts m str v'
