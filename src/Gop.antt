-- ===== src/Gop.antt =====
-- kernel/drivers/video/gop/gop.c: drawing into a linear framebuffer, as a store of bytes. A sum of
-- signed coordinates that overflows is undefined: `none`.
pub mod Frame
mod Tests
use sync_kernel.Prelude.{
  Option, none, some, not, ltb, ℕ, zero, suc, ◌+◌, ◌*◌, ◌/◌, ◌%◌, ◌^◌, Bool, ◌||◌, leb,
  if◌then◌else◌, update,
}
use sync_kernel.Prelude.Int.{ℤ, pos, negsuc, pos_part, neg_part, is_neg, plus, minus}
use sync_kernel.Prelude.Words.{add64, sub64}
use sync_kernel.Kstring.{Bytes, memmove, memset}
use sync_kernel.Console.{as_i32}

-- The fields of `framebuffer_t` that the driver reads.
pub record Screen : Type 0 where
  pub base : ℕ
  pub width : ℕ
  pub height : ℕ
  pub pitch : ℕ
  pub bpp : ℕ

-- `fb_rgba_color_t`; the driver does not read the alpha.
pub record Color : Type 0 where
  pub red : ℕ
  pub green : ℕ
  pub blue : ℕ

abbrev pub le_ℤ : ℤ → ℤ → Bool
le_ℤ a b = leb (pos_part a + neg_part b) (pos_part b + neg_part a)

abbrev pub min_ℤ : ℤ → ℤ → ℤ
min_ℤ a b = if le_ℤ a b then a else b

-- The three bytes of a pixel.
abbrev pub put_pixel : Bytes → ℕ → ℕ → ℕ → ℕ → Bytes
put_pixel m a p q r = update (update (update m a p) (a + 1) q) (a + 2) r

unfoldable pub gop_blit : Screen → Bytes → ℤ → ℤ → Color → Bytes
gop_blit s m x y c =
    let px = s.base + pos_part y * s.pitch % 2 ^ 32 + pos_part x * (s.bpp / 8) in
    if is_neg x || le_ℤ (as_i32 s.width) x || is_neg y || le_ℤ (as_i32 s.height) y
    then m
    else put_pixel m px c.blue c.green c.red

unfoldable pub gop_scroll : Screen → Bytes → ℕ → Bytes
gop_scroll s m px_rows =
    let bytes_row = px_rows * s.pitch % 2 ^ 32 in
    let bytes_total = s.height * s.pitch % 2 ^ 32 in
    memset (sub64 (add64 s.base bytes_total) bytes_row) 0 bytes_row
      (memmove s.base (add64 s.base bytes_row) (sub64 bytes_total bytes_row) m)

-- The columns from `x` on: `n` are left.
unfoldable pub clear_row : ℕ → ℕ → ℕ → ℕ → Bytes → Bytes
clear_row zero x bpp row m = m
clear_row (suc n) x bpp row m =
    clear_row n (x + 1) bpp row (put_pixel m (row + x * bpp % 2 ^ 32) 0 0 0)

-- The rows from `y` on: `n` are left.
unfoldable pub clear_rows : ℕ → ℕ → Screen → Bytes → Bytes
unfolding clear_row
clear_rows zero y s m = m
clear_rows (suc n) y s m =
    clear_rows n (y + 1) s (clear_row s.width 0 (s.bpp / 8) (s.base + y * s.pitch % 2 ^ 32) m)

unfoldable pub gop_clear : Screen → Bytes → Bytes
unfolding clear_rows
gop_clear s m = clear_rows s.height 0 s m

-- `struct gop_pixel_24` has red first.
unfoldable pub fill_row : ℕ → ℕ → Color → Bytes → Bytes
fill_row zero px c m = m
fill_row (suc w) px c m = fill_row w (px + 3) c (put_pixel m px c.red c.green c.blue)

unfoldable pub fill_rows : ℕ → ℕ → ℕ → ℕ → Color → Bytes → Bytes
unfolding fill_row
fill_rows zero w row pitch c m = m
fill_rows (suc h) w row pitch c m = fill_rows h w (row + pitch) pitch c (fill_row w row c m)

-- A sum of two `i32` that is out of range is undefined: `none`.
abbrev pub is_i32 : ℤ → Bool
is_i32 (pos n) = ltb n (2 ^ 31)
is_i32 (negsuc n) = ltb n (2 ^ 31)

unfoldable pub gop_fill_rect : Screen → Bytes → ℤ → ℤ → ℤ → ℤ → Color → Option Bytes
unfolding fill_rows
gop_fill_rect s m x y w h c =
    let left = pos_part x in
    let top = pos_part y in
    let w' = minus (min_ℤ (plus x w) (as_i32 s.width)) left in
    let h' = minus (min_ℤ (plus y h) (as_i32 s.height)) top in
    let row = s.base + top * s.pitch % 2 ^ 32 + left * 3 in
    if le_ℤ (as_i32 s.width) x || le_ℤ (as_i32 s.height) y
    then some m
    else if not (is_i32 (plus x w))
    then none
    else if le_ℤ (plus x w) (pos 0)
    then some m
    else if not (is_i32 (plus y h))
    then none
    else if le_ℤ (plus y h) (pos 0)
    then some m
    else if le_ℤ w' (pos 0) || le_ℤ h' (pos 0)
    then some m
    else some (fill_rows (pos_part h') (pos_part w') row s.pitch c m)
