-- ===== src/Console/Cursor.antt =====
-- Where the cursor of kernel/io/console.c can stand.
use sync_kernel.Prelude.{
  ◌>>=◌, Bool, true, not, Returns, Returns-map, Returns-bind, Returns-if, unguard, Option, none,
  some, ℕ, ◌+◌, ◌-◌, ◌*◌, ◌%◌, ◌^◌, ◌≤◌, ◌<◌, ◌≡◌, refl, ◌∙◌, inl, inr, ◌||◌, List, [], ◌∷◌, arith,
  ◌==◌, ltb, leb, if◌then◌else◌, Bool-cases,
}
use sync_kernel.Console.{
  Glyph, Console, FbOp, ask, scrolled, word32, sub32, tabstop, step_width, con_scroll_by,
  con_scroll, con_fill_glyph, con_draw_glyph, con_ctrl_carriage_ret, con_ctrl_newl, con_ctrl_tab,
  con_ctrl_backspace, con_ascii_ctrl, con_make_room, con_put_glyph, con_write_byte, write_loop,
  kcon_write,
}

-- The cursor lies on the screen, the screen holds two rows of text and one step of a tab, and the
-- sizes are below those at which the code's words wrap.
pub record IsOnScreen (c : Console) : Type 0 where
  pub column : c.cx < c.fb_w
  pub row : c.cy < c.fb_h
  pub cell : 0 < c.cell_h
  pub rows : 2 * c.cell_h ≤ c.fb_h
  pub step : (0 < step_width c) × (step_width c ≤ c.fb_w)
  pub size : (c.fb_w < 2 ^ 31) × (c.fb_h < 2 ^ 31) × (step_width c < 256)
  pub advance : (i : ℕ) → (c.font.glyphs i).x_advance < 256
  pub ready : (c.has_font ≡ true) × (c.has_ops ≡ true)

-- What an operation on the cursor leaves alone.
record Same (c c' : Console) : Type 0 where
  font : c'.font ≡ c.font
  cell_w : c'.cell_w ≡ c.cell_w
  cell_h : c'.cell_h ≡ c.cell_h
  fb_w : c'.fb_w ≡ c.fb_w
  fb_h : c'.fb_h ≡ c.fb_h
  has_font : c'.has_font ≡ c.has_font
  has_ops : c'.has_ops ≡ c.has_ops

-- A newline where the framebuffer has its table.
abbrev newl_of : Console → Console
newl_of c =
    let c' : Console = record c { cx = 0 } in
    let down : Console = record c' { cy = word32 (c.cy + c.cell_h) } in
    let c'' = if leb c.fb_h (word32 (c.cy + c.cell_h)) then scrolled c' c.cell_h else down in
    record c'' { cx = 0 }

newl_of_lem : (c : Console) → c.has_ops ≡ true → con_ctrl_newl c ≡ some (newl_of c)
unfolding con_ctrl_newl con_ctrl_carriage_ret con_scroll con_scroll_by
newl_of_lem c ops = elim (Bool-cases (leb c.fb_h (word32 (c.cy + c.cell_h)))) [
  | inl e ↦ rw (e, ops) refl
  | inr e ↦ rw e refl
]

newl-Same : (c : Console) → Same c (newl_of c)
newl-Same c = ground arith

newl_cursor :
    (c : Console)
    → ((newl_of c).cx ≡ 0)
      × ((newl_of c).cy ≡ (
          if leb c.fb_h (word32 (c.cy + c.cell_h))
          then sub32 c.cy c.cell_h
          else word32 (c.cy + c.cell_h)))
newl_cursor c = ground arith

newl_fits :
    (c : Console)
    → c.cy < c.fb_h
    → 2 * c.cell_h ≤ c.fb_h
    → c.fb_h < 2 ^ 31
    → (newl_of c).cy < c.fb_h
newl_fits c row rows size = rw ((newl_cursor c).1) (ground arith)

-- What a step of the console keeps, and where it leaves the cursor.
record Stays (c c' : Console) : Type 0 where
  same : Same c c'
  column : c'.cx < c.fb_w
  row : c'.cy < c.fb_h

step_width_same : (c c' : Console) → Same c c' → step_width c' ≡ step_width c
unfolding step_width
step_width_same c c' s = simp (s.font, s.cell_w)

Stays-IsOnScreen : (c c' : Console) → IsOnScreen c → Stays c c' → IsOnScreen c'
Stays-IsOnScreen c c' o s =
    let w = step_width_same c c' s.same in
    record {
      column = omega (arith, s.column, s.same.fb_w);
      row = omega (arith, s.row, s.same.fb_h);
      cell = omega (arith, o.cell, s.same.cell_h);
      rows = omega (arith, o.rows, s.same.cell_h, s.same.fb_h);
      step = omega (arith, o.step.0, o.step.1, w, s.same.fb_w);
      size = omega (arith, o.size.0, o.size.1, o.size.2, w, s.same.fb_w, s.same.fb_h);
      advance = λ i. rw (s.same.font) (o.advance i);
      ready = (s.same.has_font ∙ o.ready.0, s.same.has_ops ∙ o.ready.1);
    }

Same-refl : (c : Console) → Same c c
Same-refl c = record {
  font = refl;
  cell_w = refl;
  cell_h = refl;
  fb_w = refl;
  fb_h = refl;
  has_font = refl;
  has_ops = refl;
}

-- A move of the cursor.
moved-Same : (c : Console) (x y : ℕ) → Same c (record c { cx = x; cy = y })
moved-Same c x y = record {
  font = refl;
  cell_w = refl;
  cell_h = refl;
  fb_w = refl;
  fb_h = refl;
  has_font = refl;
  has_ops = refl;
}

Same-trans : (a b c : Console) → Same a b → Same b c → Same a c
Same-trans a b c s t = record {
  font = t.font ∙ s.font;
  cell_w = t.cell_w ∙ s.cell_w;
  cell_h = t.cell_h ∙ s.cell_h;
  fb_w = t.fb_w ∙ s.fb_w;
  fb_h = t.fb_h ∙ s.fb_h;
  has_font = t.has_font ∙ s.has_font;
  has_ops = t.has_ops ∙ s.has_ops;
}

asked-Same : (c : Console) (ops : List FbOp) → Same c (ask c ops)
asked-Same c ops = record {
  font = refl;
  cell_w = refl;
  cell_h = refl;
  fb_w = refl;
  fb_h = refl;
  has_font = refl;
  has_ops = refl;
}

-- What drawing leaves alone.
abbrev Drawn : Console → Console → Type 0
Drawn c c' = Same c c' × (c'.cx ≡ c.cx) × (c'.cy ≡ c.cy)

fill-Drawn :
    (c : Console) (g : Glyph) (x y : ℕ)
    → c.has_ops ≡ true
    → Returns (Drawn c) (con_fill_glyph c g x y)
unfolding con_fill_glyph
fill-Drawn c g x y ops =
    let self : Drawn c c = (Same-refl c, refl, refl) in
    unguard (Drawn c) c.has_ops _ ops (
      Returns-if (Drawn c) (not c.has_blit) _ _ self (
        Returns-if (Drawn c) (leb (2 ^ 31) x || leb (2 ^ 31) y) _ _ self
          (asked-Same c _, refl, refl)))

draw-Drawn :
    (c : Console) (g : Glyph) (x y : ℕ)
    → c.has_ops ≡ true
    → c.has_font ≡ true
    → Returns (Drawn c) (con_draw_glyph c g x y)
unfolding con_draw_glyph
draw-Drawn c g x y ops font = unguard (Drawn c) c.has_ops _ ops (
    Returns-if (Drawn c) (not c.has_blit) _ _ (Same-refl c, refl, refl)
      (unguard (Drawn c) c.has_font _ font (asked-Same c _, refl, refl)))

module _ (c : Console) (o : IsOnScreen c) where
  self-Stays : Stays c c
  self-Stays = record { same = Same-refl c; column = o.column; row = o.row }

  -- A newline after a move along the row, from beyond its end too.
  newl-Stays : (c' : Console) → Same c c' → c'.cy ≡ c.cy → Returns (Stays c) (con_ctrl_newl c')
  newl-Stays c' s e = rw (newl_of_lem c' (s.has_ops ∙ o.ready.1)) (record {
    same = Same-trans c c' (newl_of c') s (newl-Same c');
    column = omega (arith, (newl_cursor c').0, o.column);
    row = omega (
      arith,
      s.fb_h,
      newl_fits c' (omega (arith, o.row, s.fb_h)) (omega (arith, o.rows, s.fb_h, s.cell_h))
          (omega (arith, o.size.1, s.fb_h)),
    );
  })

  ret-Stays : Stays c (con_ctrl_carriage_ret c)
  unfolding con_ctrl_carriage_ret
  ret-Stays = record { same = moved-Same c 0 c.cy; column = omega (arith, o.column); row = o.row }

  -- A move along the row, with a newline if it leaves the screen.
  moved-Stays :
      (c' : Console)
      → Same c c'
      → c'.cy ≡ c.cy
      → Returns (Stays c) (if leb c'.fb_w c'.cx then con_ctrl_newl c' else some c')
  moved-Stays c' s e = elim (Bool-cases (leb c'.fb_w c'.cx)) [
    | inl out ↦ rw out (newl-Stays c' s e)
    | inr on ↦
        rw on (record { same = s; column = ground (arith, s.fb_w); row = omega (arith, o.row) })
  ]

  tab-Stays : Returns (Stays c) (con_ctrl_tab c)
  unfolding con_ctrl_tab
  tab-Stays =
      let tab_w = word32 (step_width c * tabstop) in
      let c' : Console = record c { cx = word32 (c.cx + (tab_w - c.cx % tab_w)) } in
      elim (Bool-cases (tab_w == 0)) [
        | inl zero_tab ↦ unguard (Stays c) c.has_font _ (o.ready.0) (rw zero_tab self-Stays)
        | inr some_tab ↦
            unguard (Stays c) c.has_font _ (o.ready.0)
              (rw some_tab (moved-Stays c' (moved-Same c c'.cx c.cy) refl))
      ]

  -- Filling a cell at a place to which the cursor may go.
  filled-Stays :
      (x y : ℕ)
      → x < c.fb_w
      → y < c.fb_h
      → let c' : Console = record c { cx = x; cy = y } in
        Returns (Stays c) (con_fill_glyph c' (c.font.glyphs 0) x y)
  filled-Stays x y column row =
      let c' : Console = record c { cx = x; cy = y } in
      let g = c.font.glyphs 0 in
      Returns-map (Drawn c') (Stays c) (con_fill_glyph c' g x y) (fill-Drawn c' g x y (o.ready.1))
        λ d (s, ex, ey). record {
          same = Same-trans c c' d (moved-Same c x y) s;
          column = omega (arith, ex, column);
          row = omega (arith, ey, row);
        }

  backspace-Stays : Returns (Stays c) (con_ctrl_backspace c)
  unfolding con_ctrl_backspace
  backspace-Stays =
      let w = step_width c in
      elim (Bool-cases (leb w c.cx)) [
        | inl here ↦
            unguard (Stays c) c.has_font _ (o.ready.0)
              (rw here (filled-Stays (c.cx - w) c.cy (omega (arith, o.column)) (o.row)))
        | inr edge ↦ elim (Bool-cases (leb c.cell_h c.cy)) [
          | inl above ↦ unguard (Stays c) c.has_font _ (o.ready.0) (
              rw (edge, above)
                (filled-Stays (sub32 c.fb_w w) (c.cy - c.cell_h)
                  (omega (arith, o.column, o.step.0, o.step.1, o.size.0)) (omega (arith, o.row))))
          | inr top ↦ unguard (Stays c) c.has_font _ (o.ready.0) (rw (edge, top) self-Stays)
        ]
      ]

  room-Stays : Returns (Stays c) (con_make_room c)
  unfolding con_make_room
  room-Stays = elim (Bool-cases (leb (sub32 c.fb_h c.cell_h) c.cy)) [
    | inl low ↦ rw low (newl-Stays c (Same-refl c) refl)
    | inr high ↦ rw high self-Stays
  ]

  -- A control character that the console acts on.
  acted-Stays :
      (f : Option Console)
      → Returns (Stays c) f
      → Returns (λ (r : Bool × Console). Stays c r.1) (do c' ← f; some (true, c'))
  acted-Stays f h =
      Returns-bind (Stays c) (λ (r : Bool × Console). Stays c r.1) f (λ c'. some (true, c')) h
        (λ c' s. s)

  ctrl-Stays : (ch : ℕ) → Returns (λ r. Stays c r.1) (con_ascii_ctrl c ch)
  unfolding con_ascii_ctrl
  ctrl-Stays ch = elim (Bool-cases (ch == 13)) [
    | inl cr ↦ rw cr ret-Stays
    | inr a ↦ elim (Bool-cases (ch == 10)) [
      | inl lf ↦ rw (a, lf) (acted-Stays (con_ctrl_newl c) (newl-Stays c (Same-refl c) refl))
      | inr b ↦ elim (Bool-cases (ch == 9)) [
        | inl ht ↦ rw (a, b, ht) (acted-Stays (con_ctrl_tab c) tab-Stays)
        | inr d ↦ elim (Bool-cases (ch == 8)) [
          | inl bs ↦ rw (a, b, d, bs) (acted-Stays (con_ctrl_backspace c) backspace-Stays)
          | inr other ↦ rw (a, b, d, other) self-Stays
        ]
      ]
    ]
  ]

  glyph-Stays : (ch : ℕ) → Returns (Stays c) (con_put_glyph c ch)
  unfolding con_put_glyph
  glyph-Stays ch =
      let g = c.font.glyphs (ch - 32) in
      Returns-bind (Drawn c) (Stays c) (con_draw_glyph c g c.cx c.cy) _
        (draw-Drawn c g c.cx c.cy (o.ready.1) (o.ready.0))
        λ d (s, ex, ey).
          let c' : Console = record d { cx = word32 (d.cx + g.x_advance) } in
          unguard (Stays c) d.has_font _ (s.has_font ∙ o.ready.0)
            (moved-Stays c' (Same-trans c d c' s (moved-Same d c'.cx d.cy)) ey)

byte-IsOnScreen :
    (c : Console) (ch : ℕ) → IsOnScreen c → Returns (λ r. IsOnScreen r.1) (con_write_byte c ch)
unfolding con_write_byte
byte-IsOnScreen c ch o =
    Returns-bind (Stays c) (λ (r : ℕ × Console). IsOnScreen r.1) (con_make_room c) _
      (room-Stays c o)
      λ r s.
        let o' = Stays-IsOnScreen c r o s in
        elim (Bool-cases (ltb ch 32 || ltb 126 ch)) [
          | inl ctrl ↦ rw ctrl (
              Returns-bind (λ (p : Bool × Console). Stays r p.1)
                (λ (p : ℕ × Console). IsOnScreen p.1) (con_ascii_ctrl r ch) _ (ctrl-Stays r o' ch)
                λ p t. Stays-IsOnScreen r p.1 o' t)
          | inr shown ↦ rw shown (
              Returns-bind (Stays r) (λ (p : ℕ × Console). IsOnScreen p.1) (con_put_glyph r ch) _
                (glyph-Stays r o' ch) λ c' t. Stays-IsOnScreen r c' o' t)
        ]

write_loop-IsOnScreen :
    (buf : List ℕ) (n : ℕ) (c : Console)
    → IsOnScreen c
    → Returns (λ r. IsOnScreen r.1) (write_loop n c buf)
unfolding write_loop
write_loop-IsOnScreen [] n c o = o
write_loop-IsOnScreen (ch ∷ buf) n c o =
    Returns-bind (λ (r : ℕ × Console). IsOnScreen r.1) (λ (r : ℕ × Console). IsOnScreen r.1)
      (con_write_byte c ch) _ (byte-IsOnScreen c ch o)
      λ r on. write_loop-IsOnScreen buf (n + r.0) r.1 on

-- Whatever bytes `kcon_write` is given, control characters included, it does not read through null
-- and leaves the cursor on the screen if it stood there: below the width and the height of a screen
-- that holds two rows of text and one step of a tab, with sizes that do not wrap, on a console that
-- has its font, its framebuffer and the framebuffer's operations.
pub kcon_write-IsOnScreen :
    (c : Console) (buf : Option (List ℕ))
    → IsOnScreen c
    → Returns (λ r. IsOnScreen r.1) (kcon_write c buf)
unfolding kcon_write
kcon_write-IsOnScreen c none o = o
kcon_write-IsOnScreen c (some buf) o =
    Returns-bind (λ (r : ℕ × Console). IsOnScreen r.1) (λ (r : Option ℕ × Console). IsOnScreen r.1)
      (write_loop 0 c buf) _ (write_loop-IsOnScreen buf 0 c o) (λ r on. on)
