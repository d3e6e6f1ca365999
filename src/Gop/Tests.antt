-- ===== src/Gop/Tests.antt =====
-- Runs of kernel/drivers/video/gop/gop.c on a framebuffer of four pixels.
use sync_kernel.Prelude.{◌%◌, ◌≡◌, refl, arith, Returns}
use sync_kernel.Prelude.Int.{pos, negsuc}
use sync_kernel.Kstring.{Bytes}
use sync_kernel.Gop.{
  Screen, Color, gop_blit, gop_scroll, gop_clear, clear_rows, clear_row, gop_fill_rect,
}
use sync_kernel.Gop.Frame.{IsFramebuffer, gop_scroll_lem, gop_fill_rect_keeps}

abbrev screen : Screen
screen = record { base = 1000; width = 2; height = 2; pitch = 8; bpp = 24 }

abbrev sky : Color
sky = record { red = 1; green = 2; blue = 3 }

abbrev dots : Bytes
dots a = a % 256

screen-IsFramebuffer : IsFramebuffer screen
screen-IsFramebuffer = record {
  depth = omega arith;
  row = omega arith;
  size = omega arith;
  word = omega arith;
  width = omega arith;
  height = omega arith;
}

blue_first : (gop_blit screen dots (pos 1) (pos 1) sky 1011 ≡ 3) × (gop_clear screen dots 1011 ≡ 0)
unfolding gop_blit gop_clear clear_rows clear_row
blue_first = (refl, refl)

gop_scroll_lem_example : gop_scroll screen dots 1 1003 ≡ 1011 % 256
gop_scroll_lem_example = gop_scroll_lem screen dots 1 1003 screen-IsFramebuffer (omega arith)

-- a rectangle that hangs over the left and the lower edge
gop_fill_rect_keeps_example :
    Returns
      (λ m'. m' 1016 ≡ dots 1016)
      (gop_fill_rect screen dots (negsuc 0) (pos 1) (pos 3) (pos 9) sky)
gop_fill_rect_keeps_example =
    gop_fill_rect_keeps screen dots (negsuc 0) (pos 1) (pos 3) (pos 9) sky 1016 screen-IsFramebuffer
      refl refl refl
