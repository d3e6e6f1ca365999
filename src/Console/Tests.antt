-- ===== src/Console/Tests.antt =====
-- Runs of kernel/io/console.c.
use sync_kernel.Prelude.{◌≡◌, refl, true, false, some, [], ◌∷◌, arith, Returns}
use sync_kernel.Prelude.Int.{pos, negsuc}
use sync_kernel.Console.{
  Glyph, Font, Console, step_width, con_scroll_by, con_scroll, con_draw_glyph, draw_rows, draw_row,
  con_ctrl_carriage_ret, con_ctrl_newl, con_ascii_ctrl, con_make_room, con_put_glyph,
  con_write_byte, write_loop, kcon_write,
}
use sync_kernel.Console.Cursor.{IsOnScreen, kcon_write-IsOnScreen}

abbrev block : Glyph
block = record {
  bitmap_offset = 0;
  width = 2;
  height = 1;
  x_advance = 8;
  x_offset = pos 0;
  y_offset = negsuc 0;
}

abbrev font : Font
font = record {
  bitmap = λ i. 0x80;
  glyphs = λ i. block;
  baseline = pos 12;
  pixel_h = 16;
  pixel_w = 8;
}

abbrev screen : Console
screen = record {
  has_font = true;
  font = font;
  color_fg = 1;
  color_bg = 0;
  cx = 632;
  cy = 448;
  cell_w = 8;
  cell_h = 16;
  fb_w = 640;
  fb_h = 480;
  has_ops = true;
  has_blit = true;
  has_scroll = true;
  has_clear = false;
  drawn = [];
}

-- Two letters, the first of which fills the row, and a newline.
wraps :
    Returns
      (λ (n, c). (n ≡ some 3) × (c.cx ≡ 0) × (c.cy ≡ 448))
      (kcon_write screen (some (b'A' ∷ b'B' ∷ 10 ∷ 7 ∷ [])))
unfolding kcon_write write_loop con_write_byte con_make_room con_ascii_ctrl con_put_glyph
    con_draw_glyph draw_rows draw_row con_ctrl_newl con_ctrl_carriage_ret con_scroll con_scroll_by
wraps = (refl, refl, refl)

screen-IsOnScreen : IsOnScreen screen
unfolding step_width
screen-IsOnScreen = record {
  column = omega arith;
  row = omega arith;
  cell = omega arith;
  rows = omega arith;
  step = (omega arith, omega arith);
  size = (omega arith, omega arith, omega arith);
  advance = λ i. omega arith;
  ready = (refl, refl);
}

kcon_write-IsOnScreen_example :
    Returns (λ r. IsOnScreen r.1) (kcon_write screen (some (b'A' ∷ 8 ∷ 9 ∷ 10 ∷ [])))
kcon_write-IsOnScreen_example =
    kcon_write-IsOnScreen screen (some (b'A' ∷ 8 ∷ 9 ∷ 10 ∷ [])) screen-IsOnScreen
