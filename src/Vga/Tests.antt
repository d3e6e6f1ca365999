-- ===== src/Vga/Tests.antt =====
-- Runs of kernel/drivers/video/vga.
use sync_kernel.Prelude.{ℕ, ◌≡◌, refl, none, some, arith, ◌>>=◌, ◌==◌, if◌then◌else◌}
use sync_kernel.Kstring.{Bytes}
use sync_kernel.Boot.{efi64}
use sync_kernel.Vma.Ioremap.{Kernel, ioremap}
use sync_kernel.Vma.Sample.{kernel, pointer_found, text_screen}
use sync_kernel.Vga.{
  Cell, Term, vga_write_cell, next_cell, next_row, tab_loop, vga_write_cell_at, set_cells,
  vga_text_putchar, vga_text_clear_line, vga_text_setcolor,
}
use sync_kernel.Vga.Sheet.{view, put_cell, vga_write_cell-put_cell}
use sync_kernel.Vga.Reached.{
  Keeps, Reached, here, next, Reached-Keeps, putchar, clear_line, setcolor,
}
use sync_kernel.Vga.Driver.{Controller, text, vga_init, vga_putchar, vga_get_color}

abbrev dark : ℕ → Cell
dark i = record { ch = 0; color = 0 }

-- In the last row, three cells before its end.
abbrev corner : Term
corner = record { cy = 24; cx = 77; color = 11; out = dark }

-- A tab at the end of the last row fills it and goes to the first cell.
tab_at_end :
    let t = vga_text_putchar 9 corner in
    (t.cx ≡ 0) × (t.cy ≡ 0) × (t.out 1999 ≡ record { ch = b' '; color = 11 }) × (t.out 0 ≡ dark 0)
unfolding vga_text_putchar vga_write_cell tab_loop next_cell next_row vga_write_cell_at
tab_at_end = (refl, refl, refl, refl)

clears_rest : ((vga_text_clear_line corner).out 1998 ≡ record { ch = b' '; color = 11 })
unfolding vga_text_clear_line set_cells
clears_rest = refl

-- before `vga_init`
no_pointers : vga_putchar b'A' (record { mode = text; ops = none; term = corner }) ≡ none
unfolding vga_putchar
no_pointers = refl

-- The graphics mode draws nothing yet.
stubs :
    (do
      (k, v) ←
          vga_init 1 (λ p. dark) efi64 kernel (record { mode = text; ops = none; term = corner })
      v' ← vga_putchar b'A' v
      vga_get_color v')
    ≡ some 0
unfolding vga_init vga_putchar vga_get_color
stubs = refl

vga_write_cell-put_cell_example :
    view (vga_write_cell (record { ch = 9; color = 7 }) corner)
    ≡ put_cell (record { ch = 9; color = 7 }) (view corner)
vga_write_cell-put_cell_example =
    vga_write_cell-put_cell (record { ch = 9; color = 7 }) corner (omega arith, omega arith)

-- A letter in another colour, and the rest of its row cleared.
abbrev lettered :
    Reached corner (vga_text_clear_line (vga_text_putchar b'A' (vga_text_setcolor 4 0 corner)))
lettered = next (next (next here (setcolor 4 0)) (putchar b'A')) clear_line

Reached-Keeps_example :
    Keeps corner (vga_text_clear_line (vga_text_putchar b'A' (vga_text_setcolor 4 0 corner)))
Reached-Keeps_example = Reached-Keeps (omega arith, omega arith) lettered

-- "Hi", at address 10.
abbrev hi : Bytes
hi a = if a == 10 then b'H' else if a == 11 then b'i' else 0

abbrev at_home : Controller
at_home = record {
  mode = text;
  ops = none;
  term = record { cy = 0; cx = 0; color = 0; out = dark };
}

abbrev screen_found : (k : Kernel) × (ioremap 100 kernel 0xB8000 4000 35 ≡ some (0x404000, k))
screen_found = pointer_found (ioremap 100 kernel 0xB8000 4000 35) 0x404000 text_screen (omega arith)
