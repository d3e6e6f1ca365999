-- ===== src/Gop/Frame.antt =====
-- What kernel/drivers/video/gop/gop.c writes, and where.
use sync_kernel.Prelude.{
  some, Returns, Returns-if, unguard, ℕ, zero, suc, ◌+◌, ◌-◌, ◌*◌, ◌/◌, ◌%◌, ◌^◌, ◌≤◌, ◌<◌, ◌≡◌,
  refl, ap, ◌∙◌, ◌⊎◌, inl, inr, Bool, true, false, ◌&&◌, ◌||◌, arith, ltb, leb, if◌then◌else◌,
  Bool-cases,
}
use native.Mathlib.Nat.{mul-le-mul_right}
use sync_kernel.Prelude.Int.{ℤ, pos, negsuc, pos_part, plus, minus}
use sync_kernel.Prelude.Words.{add64, sub64}
use sync_kernel.Kstring.{Bytes, memmove, memset}
use sync_kernel.Kstring.Copy.{inside, memmove-Copied, memset_lem}
use sync_kernel.Console.{as_i32}
use sync_kernel.Gop.{
  Screen, Color, is_i32, le_ℤ, min_ℤ, put_pixel, gop_blit, gop_scroll, fill_row, fill_rows,
  gop_fill_rect,
}

-- A framebuffer whose rows hold their pixels, and whose sizes keep within the code's words.
pub record IsFramebuffer (s : Screen) : Type 0 where
  pub depth : 3 ≤ s.bpp / 8
  pub row : s.width * (s.bpp / 8) ≤ s.pitch
  pub size : s.height * s.pitch < 2 ^ 32
  pub word : s.base + 2 ^ 32 ≤ 2 ^ 64
  pub width : s.width < 2 ^ 31
  pub height : s.height < 2 ^ 31

-- The scroll as it acts on a framebuffer of `t` bytes, `r` of which leave it.
scroll_bytes :
    (m : Bytes) (base t r a : ℕ)
    → r ≤ t
    → t < 2 ^ 32
    → base + 2 ^ 32 ≤ 2 ^ 64
    → memset
        (sub64 (add64 base (t % 2 ^ 32)) (r % 2 ^ 32))
        0
        (r % 2 ^ 32)
        (memmove base (add64 base (r % 2 ^ 32)) (sub64 (t % 2 ^ 32) (r % 2 ^ 32)) m)
        a
      ≡ (if inside base t a then if ltb (a + r) (base + t) then m (a + r) else 0 else m a)
scroll_bytes m base t r a h k l =
    let small_t : t % 2 ^ 32 ≡ t = omega arith in
    let small_r : r % 2 ^ 32 ≡ r = omega arith in
    let from : add64 base r ≡ base + r = omega arith in
    let rest : sub64 t r ≡ t - r = omega arith in
    let to : sub64 (add64 base t) r ≡ base + t - r = omega arith in
    let moved = memmove-Copied base (base + r) (t - r) m a in
    rw (small_t, small_r, to, from, rest, memset_lem (base + t - r) 0 r, moved)
      (elim (Bool-cases (leb base a)) [
        | inl above ↦ let e : base + r + (a - base) ≡ a + r = ground arith in ground (arith, ap m e)
        | inr below ↦ ground arith
      ])

-- `gop_scroll` by some of the rows moves the bytes behind them to the front of the framebuffer,
-- zeroes as many at its end, and changes nothing else.
pub gop_scroll_lem :
    (s : Screen) (m : Bytes) (px_rows a : ℕ)
    → IsFramebuffer s
    → px_rows ≤ s.height
    → gop_scroll s m px_rows a ≡ (
        if inside s.base (s.height * s.pitch) a
        then if ltb (a + px_rows * s.pitch) (s.base + s.height * s.pitch)
          then m (a + px_rows * s.pitch)
          else 0
        else m a)
unfolding gop_scroll
gop_scroll_lem s m px_rows a is some_rows =
    scroll_bytes m s.base (s.height * s.pitch) (px_rows * s.pitch) a
      (mul-le-mul_right s.pitch some_rows) is.size is.word

one_long :
    (x w : ℕ) → x < w → w < 2 ^ 31 → minus (min_ℤ (plus (pos x) (pos 1)) (as_i32 w)) x ≡ pos 1
one_long x w h k = ground arith

-- Filling one pixel draws it as blitting does with red and blue exchanged, where a pixel has three
-- bytes.
fill_blit_swap :
    (s : Screen) (m : Bytes) (x y : ℕ) (c : Color)
    → s.bpp / 8 ≡ 3
    → s.width < 2 ^ 31
    → s.height < 2 ^ 31
    → gop_fill_rect s m (pos x) (pos y) (pos 1) (pos 1) c
      ≡ some (gop_blit s m (pos x) (pos y) (record { red = c.blue; green = c.green; blue = c.red }))
unfolding gop_fill_rect gop_blit fill_rows fill_row
fill_blit_swap s m x y c three small_w small_h =
    elim (Bool-cases (ltb x s.width && ltb y s.height)) [
      | inl on ↦
          let wide = one_long x s.width (ground arith) small_w in
          let tall = one_long y s.height (ground arith) small_h in
          rw (three, wide, tall) (ground arith)
      | inr off ↦ ground arith
    ]

fill_row_keeps :
    (w px : ℕ) (c : Color) (m : Bytes) (a : ℕ)
    → (a < px) ⊎ (px + w * 3 ≤ a)
    → fill_row w px c m a ≡ m a
unfolding fill_row
fill_row_keeps zero px c m a out = refl
fill_row_keeps (suc w) px c m a out =
    ground (arith, fill_row_keeps w (px + 3) c (put_pixel m px c.red c.green c.blue) a)

-- Rows from `row` on, filled from `off` bytes behind their beginnings.
fill_rows_keeps :
    (h w row off pitch : ℕ) (c : Color) (m : Bytes) (a : ℕ)
    → off + w * 3 ≤ pitch
    → (a < row) ⊎ (row + h * pitch ≤ a)
    → fill_rows h w (row + off) pitch c m a ≡ m a
unfolding fill_rows
fill_rows_keeps zero w row off pitch c m a fits out = refl
fill_rows_keeps (suc h) w row off pitch c m a fits out =
    let next : row + off + pitch ≡ row + pitch + off = omega arith in
    let all : suc h * pitch ≡ h * pitch + pitch = omega arith in
    rw next (
      fill_rows_keeps h w (row + pitch) off pitch c (fill_row w (row + off) c m) a fits
        (ground (arith, all))
      ∙ fill_row_keeps w (row + off) c m a (ground (arith, all)))

-- Blitting a pixel changes no byte outside the framebuffer, wherever the pixel is.
pub gop_blit_keeps :
    (s : Screen) (m : Bytes) (x y : ℤ) (c : Color) (a : ℕ)
    → IsFramebuffer s
    → inside s.base (s.height * s.pitch) a ≡ false
    → gop_blit s m x y c a ≡ m a
unfolding gop_blit
gop_blit_keeps s m (negsuc x) y c a is out = refl
gop_blit_keeps s m (pos x) (negsuc y) c a is out = ground arith
gop_blit_keeps s m (pos x) (pos y) c a is out =
    elim (Bool-cases (ltb x s.width && ltb y s.height)) [
      | inl on ↦
          let d = s.bpp / 8 in
          let row : suc y * s.pitch ≤ s.height * s.pitch =
            mul-le-mul_right s.pitch (ground arith) in
          let col : suc x * d ≤ s.width * d = mul-le-mul_right d (ground arith) in
          let small : y * s.pitch % 2 ^ 32 ≡ y * s.pitch = omega (arith, row, is.size) in
          rw small (ground (arith, row, col, is.depth, is.row))
      | inr off ↦ ground (arith, is.width, is.height)
    ]

-- What is left of a stretch when it has been clipped, if anything, lies on the screen.
abbrev clipped : ℤ → ℤ → ℕ → ℤ
clipped x w width = minus (min_ℤ (plus x w) (as_i32 width)) (pos_part x)

clipped-le :
    (x w : ℤ) (width : ℕ)
    → width < 2 ^ 31
    → le_ℤ (clipped x w width) (pos 0) ≡ false
    → pos_part x + pos_part (clipped x w width) ≤ width
clipped-le (pos x) (pos w) width small some_left = ground arith
clipped-le (pos x) (negsuc w) width small some_left = ground arith
clipped-le (negsuc x) (pos w) width small some_left = ground arith
clipped-le (negsuc x) (negsuc w) width small some_left = ground arith

fill_clipped :
    (s : Screen) (m : Bytes) (x y w h : ℕ) (c : Color) (a : ℕ)
    → IsFramebuffer s
    → x + w ≤ s.width
    → y + h ≤ s.height
    → inside s.base (s.height * s.pitch) a ≡ false
    → fill_rows h w (s.base + y * s.pitch % 2 ^ 32 + x * 3) s.pitch c m a ≡ m a
fill_clipped s m x y w h c a is across down out =
    let d = s.bpp / 8 in
    let rows : (y + h) * s.pitch ≤ s.height * s.pitch = mul-le-mul_right s.pitch down in
    let width : 3 * s.width ≤ d * s.width = mul-le-mul_right s.width is.depth in
    let small : y * s.pitch % 2 ^ 32 ≡ y * s.pitch = omega (arith, rows, is.size) in
    rw small (
      fill_rows_keeps h w (s.base + y * s.pitch) (x * 3) s.pitch c m a
        (omega (arith, width, is.row, across)) (ground (arith, rows)))

neither : (p q : Bool) → (p || q) ≡ false → (p ≡ false) × (q ≡ false)
neither true q e = ground arith
neither false q e = (refl, e)

-- Filling a rectangle changes no byte outside the framebuffer, wherever the rectangle is and
-- whatever its size, where its right and its lower end are numbers of 32 bits, on a framebuffer with
-- at least three bytes for a pixel, whose rows hold their pixels and whose sizes do not wrap.
pub gop_fill_rect_keeps :
    (s : Screen) (m : Bytes) (x y w h : ℤ) (c : Color) (a : ℕ)
    → IsFramebuffer s
    → is_i32 (plus x w) ≡ true
    → is_i32 (plus y h) ≡ true
    → inside s.base (s.height * s.pitch) a ≡ false
    → Returns (λ m'. m' a ≡ m a) (gop_fill_rect s m x y w h c)
unfolding gop_fill_rect
gop_fill_rect_keeps s m x y w h c a is right lower out =
    let kept : Bytes → Type 0 = λ m'. m' a ≡ m a in
    Returns-if kept (le_ℤ (as_i32 s.width) x || le_ℤ (as_i32 s.height) y) _ _ refl (
      unguard kept (is_i32 (plus x w)) _ right (
        Returns-if kept (le_ℤ (plus x w) (pos 0)) _ _ refl (
          unguard kept (is_i32 (plus y h)) _ lower (
            Returns-if kept (le_ℤ (plus y h) (pos 0)) _ _ refl
              (elim (Bool-cases
                (le_ℤ (clipped x w s.width) (pos 0) || le_ℤ (clipped y h s.height) (pos 0))) [
                  | inl nothing ↦ rw nothing refl
                  | inr some_left ↦ rw some_left (
                      fill_clipped s m (pos_part x) (pos_part y) (pos_part (clipped x w s.width))
                        (pos_part (clipped y h s.height)) c a is
                        (clipped-le x w s.width is.width ((neither _ _ some_left).0))
                        (clipped-le y h s.height is.height ((neither _ _ some_left).1)) out)
                ])))))
