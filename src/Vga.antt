-- ===== src/Vga.antt =====
-- kernel/drivers/video/vga: the VGA driver. `vga_text.c` writes the cells of the text screen, and
-- `vga.c` chooses between it and the stubs of `vga_graphics.c` at boot. `VGA_OUT` is a store of
-- cells by index; the cursor is never negative, since it only grows and is reset.
pub mod Sheet
pub mod Reached
pub mod Text
pub mod Driver
pub mod Start
mod Tests
use sync_kernel.Prelude.{
  ◌>>=◌, ℕ, zero, suc, ◌+◌, ◌-◌, ◌*◌, ◌%◌, ◌^◌, Option, none, some, ◌==◌, leb, if◌then◌else◌,
  bit_or, update,
}
use sync_kernel.Prelude.Int.{ℤ, pos, negsuc}
use sync_kernel.Ctype.{isprint}
use sync_kernel.Kstring.{Bytes, strlen}
use sync_kernel.Console.{as_i32}
use sync_kernel.Vma.Ioremap.{Kernel, ioremap}
use sync_kernel.Vma.Flags.{vm_fg_mmio_flags}

abbrev pub vga_color_black : ℕ
vga_color_black = 0

abbrev pub vga_color_light_cyan : ℕ
vga_color_light_cyan = 11

abbrev pub vga_color_white : ℕ
vga_color_white = 15

-- `vga_cell_t`
pub record Cell : Type 0 where
  pub ch : ℕ
  pub color : ℕ

-- `struct kvga_term`, with the cells that `VGA_OUT` points to.
pub record Term : Type 0 where
  pub cy : ℕ
  pub cx : ℕ
  pub color : ℕ
  pub out : ℕ → Cell

abbrev pub vga_tabstop : ℕ
vga_tabstop = 8

abbrev pub vga_width : ℕ
vga_width = 80

abbrev pub vga_height : ℕ
vga_height = 25

abbrev pub vga_cells : ℕ
vga_cells = vga_width * vga_height

abbrev pub vga_max_string_size : ℕ
vga_max_string_size = vga_cells

abbrev pub vga_init_color : ℕ
vga_init_color = bit_or vga_color_light_cyan (vga_color_black * 2 ^ 4)

-- The result is a byte.
unfoldable pub vga_set_cell_color : ℕ → ℕ → ℕ
vga_set_cell_color fg bg = bit_or fg (bg * 2 ^ 4) % 2 ^ 8

unfoldable pub vga_write_cell_at : Cell → ℕ → ℕ → Term → Term
vga_write_cell_at cell x y t = record t { out = update t.out (y * vga_width + x) cell }

-- `if (++kvga.cy >= VGA_HEIGHT) kvga.cy = 0; kvga.cx = 0;`
unfoldable pub next_row : Term → Term
next_row t = record t { cy = if leb vga_height (t.cy + 1) then 0 else t.cy + 1; cx = 0 }

-- `++kvga.cx`, and on to the next row at the right edge.
unfoldable pub next_cell : Term → Term
unfolding next_row
next_cell t = let t' = record t { cx = t.cx + 1 } in if leb vga_width t'.cx then next_row t' else t'

-- `while (distance--)` of the tab.
unfoldable pub tab_loop : ℕ → Cell → Term → Term
unfolding vga_write_cell_at next_cell
tab_loop zero cell t = t
tab_loop (suc distance) cell t =
    tab_loop distance cell (next_cell (vga_write_cell_at cell t.cx t.cy t))

unfoldable pub vga_write_cell : Cell → Term → Term
unfolding tab_loop
vga_write_cell cell t =
    if isprint cell.ch
    then next_cell (vga_write_cell_at cell t.cx t.cy t)
    else if cell.ch == 13
    then record t { cx = 0 }
    else if cell.ch == 10
    then next_row t
    else if cell.ch == 9
    then tab_loop (vga_tabstop - t.cx % vga_tabstop) (record cell { ch = b' ' }) t
    else t

-- A cell in the terminal's colour, which is an `int` there and a byte in the cell.
abbrev pub cell_of : ℕ → Term → Cell
cell_of c t = record { ch = c; color = t.color % 2 ^ 8 }

-- `for (int i = 0; i < VGA_CELLS; i++) VGA_OUT[i] = ch;`, from `i` on: `n` are left.
unfoldable pub set_cells : ℕ → ℕ → Cell → (ℕ → Cell) → ℕ → Cell
set_cells zero i cell out = out
set_cells (suc n) i cell out = set_cells n (i + 1) cell (update out i cell)

abbrev pub vga_text_addr : ℕ
vga_text_addr = 0xB8000

abbrev pub vga_text_addr_len : ℕ
vga_text_addr_len = 80 * 25 * 2

unfoldable pub vga_text_setcolor : ℕ → ℕ → Term → Term
unfolding vga_set_cell_color
vga_text_setcolor fg bg t = record t { color = vga_set_cell_color fg bg }

-- The bytes of memory from `s` on, in the colour that the terminal had at first: `n` are left.
unfoldable pub write_loop : ℕ → ℕ → Bytes → ℕ → Term → Term
unfolding vga_write_cell
write_loop zero color m s t = t
write_loop (suc len) color m s t =
    write_loop len color m (s + 1) (vga_write_cell (record { ch = m s; color = color }) t)

-- A negative length is counted down until it overflows, which is undefined: `none`.
unfoldable pub vga_text_write : Bytes → ℕ → ℤ → Term → Option Term
unfolding write_loop
vga_text_write m s (pos len) t = some (write_loop len (t.color % 2 ^ 8) m s t)
vga_text_write m s (negsuc len) t = none

unfoldable pub vga_text_putchar : ℕ → Term → Term
vga_text_putchar c t = vga_write_cell (cell_of c t) t

-- `len >= VGA_MAX_STRING_SIZE`, and the clipped length.
abbrev pub clip : ℤ → ℤ
clip (pos len) = if leb vga_max_string_size len then pos (vga_max_string_size - 1) else pos len
clip (negsuc len) = negsuc len

-- The length is cast to an `int`.
unfoldable pub vga_text_puts : ℕ → Bytes → ℕ → Term → Option Term
unfolding vga_text_write
vga_text_puts fuel m str t = do
  len ← strlen fuel m str
  vga_text_write m str (clip (as_i32 (len % 2 ^ 32))) t

unfoldable pub vga_text_clear : Term → Term
vga_text_clear t = record t { out = set_cells vga_cells 0 (cell_of b' ' t) t.out; cx = 0; cy = 0 }

unfoldable pub vga_text_clear_line : Term → Term
vga_text_clear_line t = record t {
  out = set_cells (vga_width - t.cx) (t.cy * vga_width + t.cx) (cell_of b' ' t) t.out;
}

abbrev pub vga_text_get_color : Term → ℕ
vga_text_get_color t = t.color % 2 ^ 8

-- `screen` gives the cells that stand at an address. The result of `ioremap` is written through
-- unchecked: at null the write faults, which is `none`.
unfoldable pub vga_text_init : ℕ → (ℕ → ℕ → Cell) → Kernel → Term → Option (Kernel × Term)
vga_text_init fuel screen k t = do
  (p, k') ← ioremap fuel k vga_text_addr vga_text_addr_len vm_fg_mmio_flags
  let blank : Cell = record { ch = b' '; color = vga_init_color }
  let t' = record t { out = set_cells vga_cells 0 blank (screen p); color = vga_init_color }
  if p == 0 then none else some (k', t')
