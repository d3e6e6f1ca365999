-- ===== src/Console.antt =====
-- kernel/io/console.c: the text console. The framebuffer is what its operations are asked to do, in
-- order; an operation that the driver leaves out is a field that is false. Words of 32 bits wrap.
-- `none` is a read through a null pointer: of the font, of the framebuffer or of its operations.
pub mod Cursor
pub mod Faults
mod Tests
use sync_kernel.Prelude.{
  ◌>>=◌, ℕ, zero, suc, ◌+◌, ◌-◌, ◌*◌, ◌/◌, ◌%◌, ◌^◌, Bool, true, false, ◌||◌, not, Option, none,
  some, List, [], ◌∷◌, ◌++◌, ◌==◌, ltb, leb, if◌then◌else◌,
}
use sync_kernel.Prelude.Int.{ℤ, pos, negsuc, plus}

pub record Glyph : Type 0 where
  pub bitmap_offset : ℕ
  pub width : ℕ
  pub height : ℕ
  pub x_advance : ℕ
  pub x_offset : ℤ
  pub y_offset : ℤ

-- `kfont_t`; the glyphs are indexed by character less the space.
pub record Font : Type 0 where
  pub bitmap : ℕ → ℕ
  pub glyphs : ℕ → Glyph
  pub baseline : ℤ
  pub pixel_h : ℕ
  pub pixel_w : ℕ

-- What the console asks of the framebuffer.
pub data FbOp : Type 0 where
  blit : ℤ → ℤ → ℕ → FbOp
  fill_rect : ℕ → ℕ → ℕ → ℕ → ℕ → FbOp
  scroll : ℕ → FbOp
  clear : FbOp

-- `struct kernel_console`, with the operations that `fb->ops` provides and those asked for so far.
-- `has_font` is false where the font is null, and `has_ops` where the framebuffer or its table of
-- operations is: the code reads that table wherever it reads the framebuffer. The fields behind a
-- null pointer mean nothing.
pub record Console : Type 0 where
  pub has_font : Bool
  pub font : Font
  pub color_fg : ℕ
  pub color_bg : ℕ
  pub cx : ℕ
  pub cy : ℕ
  pub cell_w : ℕ
  pub cell_h : ℕ
  pub fb_w : ℕ
  pub fb_h : ℕ
  pub has_ops : Bool
  pub has_blit : Bool
  pub has_scroll : Bool
  pub has_clear : Bool
  pub drawn : List FbOp

abbrev pub word32 : ℕ → ℕ
word32 n = n % 2 ^ 32

abbrev pub sub32 : ℕ → ℕ → ℕ
sub32 a b = (a + 2 ^ 32 - b) % 2 ^ 32

-- `(i32)x` of a word.
abbrev pub as_i32 : ℕ → ℤ
as_i32 x = if ltb x (2 ^ 31) then pos x else negsuc (2 ^ 32 - 1 - x)

abbrev pub tabstop : ℕ
tabstop = 8

abbrev pub ask : Console → List FbOp → Console
ask c ops = record c { drawn = c.drawn ++ ops }

abbrev pub scrolled : Console → ℕ → Console
scrolled c pixels =
    let c' = if c.has_scroll then ask c (scroll pixels ∷ []) else c in
    record c' { cy = sub32 c'.cy pixels }

unfoldable pub con_scroll_by : Console → ℕ → Option Console
con_scroll_by c pixels = if c.has_ops then some (scrolled c pixels) else none

unfoldable pub con_scroll : Console → Option Console
con_scroll c = con_scroll_by c c.cell_h

-- The code's callers all give a glyph. Without a blit operation, or at a position that is negative
-- as an `i32`, nothing is filled; a driver that can blit is taken to fill rectangles too, since the
-- code panics at one that cannot.
unfoldable pub con_fill_glyph : Console → Glyph → ℕ → ℕ → Option Console
con_fill_glyph c g x y =
    if not c.has_ops
    then none
    else if not c.has_blit
    then some c
    else if leb (2 ^ 31) x || leb (2 ^ 31) y
    then some c
    else some (ask c (fill_rect x y g.width g.height c.color_bg ∷ []))

-- One row of a glyph: `n` columns are left, from column `w` on.
unfoldable pub draw_row : Font → ℕ → ℕ → ℤ → ℤ → ℕ → ℕ → List FbOp
draw_row font fg bit dx dy w zero = []
draw_row font fg bit dx dy w (suc n) =
    let rest = draw_row font fg bit dx dy (w + 1) n in
    let globl_bit = bit + w in
    if font.bitmap (globl_bit / 8) / 2 ^ (7 - globl_bit % 8) % 2 == 1
    then blit (plus dx (pos w)) dy fg ∷ rest
    else rest

-- The rows from `h` on: `n` are left.
unfoldable pub draw_rows : Font → Glyph → ℕ → ℤ → ℤ → ℕ → ℕ → List FbOp
draw_rows font g fg dx by h zero = []
draw_rows font g fg dx by h (suc n) =
    draw_row font fg (g.bitmap_offset * 8 + h * g.width) dx (plus (plus by g.y_offset) (pos h)) 0
      g.width
    ++ draw_rows font g fg dx by (h + 1) n

unfoldable pub con_draw_glyph : Console → Glyph → ℕ → ℕ → Option Console
con_draw_glyph c g x y =
    let ops =
      draw_rows c.font g c.color_fg (plus (as_i32 x) g.x_offset) (plus (as_i32 y) c.font.baseline) 0
        g.height in
    if not c.has_ops
    then none
    else if not c.has_blit
    then some c
    else if not c.has_font
    then none
    else some (ask c ops)

unfoldable pub con_ctrl_carriage_ret : Console → Console
con_ctrl_carriage_ret c = record c { cx = 0 }

unfoldable pub con_ctrl_newl : Console → Option Console
con_ctrl_newl c =
    let c' = con_ctrl_carriage_ret c in
    let up = con_scroll c' in
    let down : Console = record c' { cy = word32 (c'.cy + c'.cell_h) } in
    do
      c'' ← if leb c'.fb_h (word32 (c'.cy + c'.cell_h)) then up else some down
      some (record c'' { cx = 0 })

-- The width that tabs and backspaces go by.
unfoldable pub step_width : Console → ℕ
step_width c =
    let g = c.font.glyphs 0 in
    let w = if g.width == 0 then g.x_advance else g.width in if w == 0 then c.cell_w else w

unfoldable pub con_ctrl_tab : Console → Option Console
con_ctrl_tab c =
    let tab_w = word32 (step_width c * tabstop) in
    let dist = tab_w - c.cx % tab_w in
    let c' : Console = record c { cx = word32 (c.cx + dist) } in
    let next = con_ctrl_newl c' in
    if not c.has_font
    then none
    else if tab_w == 0
    then some c
    else if leb c'.fb_w c'.cx
    then next
    else some c'

unfoldable pub con_ctrl_backspace : Console → Option Console
con_ctrl_backspace c =
    let g = c.font.glyphs 0 in
    let gly_w = step_width c in
    let left : Console = record c { cx = c.cx - gly_w } in
    let up : Console = record c { cy = c.cy - c.cell_h; cx = sub32 c.fb_w gly_w } in
    if not c.has_font
    then none
    else if leb gly_w c.cx
    then con_fill_glyph left g left.cx left.cy
    else if leb c.cell_h c.cy
    then con_fill_glyph up g up.cx up.cy
    else some c

unfoldable pub con_ctrl_clear : Console → Option Console
con_ctrl_clear c =
    if not c.has_ops
    then none
    else if c.has_clear
    then some (record (ask c (clear ∷ [])) { cx = 0; cy = 0 })
    else some c

-- What the switch on a control character does, and whether it is one.
unfoldable pub con_ascii_ctrl : Console → ℕ → Option (Bool × Console)
con_ascii_ctrl c ch =
    let newl = (do c' ← con_ctrl_newl c; some (true, c')) in
    let tab = (do c' ← con_ctrl_tab c; some (true, c')) in
    let backspace = (do c' ← con_ctrl_backspace c; some (true, c')) in
    if ch == 13
    then some (true, con_ctrl_carriage_ret c)
    else if ch == 10
    then newl
    else if ch == 9
    then tab
    else if ch == 8
    then backspace
    else some (false, c)

-- The test at the head of the loop of `kcon_write`.
unfoldable pub con_make_room : Console → Option Console
con_make_room c =
    let next = con_ctrl_newl c in if leb (sub32 c.fb_h c.cell_h) c.cy then next else some c

unfoldable pub con_put_glyph : Console → ℕ → Option Console
con_put_glyph c ch =
    let g = c.font.glyphs (ch - 32) in
    do
      c' ← con_draw_glyph c g c.cx c.cy
      let c'' : Console = record c' { cx = word32 (c'.cx + g.x_advance) }
      let next = con_ctrl_newl c''
      if not c'.has_font then none else if leb c''.fb_w c''.cx then next else some c''

-- One round of the loop of `kcon_write`: the console, and what is added to `consumed`.
unfoldable pub con_write_byte : Console → ℕ → Option (ℕ × Console)
con_write_byte c ch = do
  c' ← con_make_room c
  let control = (do (done, c'') ← con_ascii_ctrl c' ch; some (if done then 1 else 0, c''))
  let printed = (do c'' ← con_put_glyph c' ch; some (1, c''))
  if ltb ch 32 || ltb 126 ch then control else printed

unfoldable pub write_loop : ℕ → Console → List ℕ → Option (ℕ × Console)
write_loop consumed c [] = some (consumed, c)
write_loop consumed c (ch ∷ buf) = do
  (n, c') ← con_write_byte c ch
  write_loop (consumed + n) c' buf

-- In the result, `none` is -1, for the null buffer.
unfoldable pub kcon_write : Console → Option (List ℕ) → Option (Option ℕ × Console)
kcon_write c none = some (none, c)
kcon_write c (some buf) = do (n, c') ← write_loop 0 c buf; some (some n, c')

-- The parts of `framebuffer_t` that the console reads.
pub record Framebuffer : Type 0 where
  pub width : ℕ
  pub height : ℕ
  pub has_ops : Bool
  pub has_blit : Bool
  pub has_scroll : Bool
  pub has_clear : Bool

-- `none` is the null pointer, here and in `kcon_setfont`. A framebuffer comes with nothing asked of
-- it yet.
unfoldable pub kcon_setframebuffer : Console → Option Framebuffer → Console
kcon_setframebuffer c none = c
kcon_setframebuffer c (some fb) = record c {
  fb_w = fb.width;
  fb_h = fb.height;
  has_ops = fb.has_ops;
  has_blit = fb.has_blit;
  has_scroll = fb.has_scroll;
  has_clear = fb.has_clear;
  drawn = [];
}

unfoldable pub kcon_setfont : Console → Option Font → Console
kcon_setfont c none = c
kcon_setfont c (some font) = record c {
  has_font = true;
  font = font;
  cell_w = font.pixel_w;
  cell_h = font.pixel_h;
}

unfoldable pub kcon_setcolor : Console → ℕ → ℕ → Console
kcon_setcolor c fg bg = record c { color_fg = fg; color_bg = bg }

unfoldable pub kcon_putchar : Console → ℕ → Option Console
kcon_putchar c ch = do (_, c') ← kcon_write c (some (ch ∷ [])); some c'

unfoldable pub kcon_puts : Console → List ℕ → Option Console
kcon_puts c s = do (_, c') ← kcon_write c (some s); some c'

unfoldable pub kcon_clear : Console → Option Console
kcon_clear c = con_ctrl_clear c
