-- ===== src/Console/Faults.antt =====
-- Where kernel/io/console.c reads through a null pointer.
use sync_kernel.Prelude.{
  ℕ, ◌+◌, ◌-◌, ◌≡◌, refl, inl, inr, false, ◌||◌, Option, none, some, List, ◌∷◌, Option-cases,
  Bool-cases, ltb, leb,
}
use mathlib.Core.Path.{subst}
use sync_kernel.Console.{
  Glyph, Console, word32, sub32, con_scroll_by, con_scroll, con_draw_glyph, con_ctrl_carriage_ret,
  con_ctrl_newl, con_make_room, con_put_glyph, con_write_byte, write_loop, kcon_write,
}

-- A fault, or a console that has no table of operations.
abbrev HasNone : Option Console → Type 0
HasNone none = Unit {0}
HasNone (some c) = c.has_ops ≡ false

newl-HasNone : (c : Console) → c.has_ops ≡ false → HasNone (con_ctrl_newl c)
unfolding con_ctrl_newl con_ctrl_carriage_ret con_scroll con_scroll_by
newl-HasNone c lacks = elim (Bool-cases (leb c.fb_h (word32 (c.cy + c.cell_h)))) [
  | inl e ↦ rw (e, lacks) tt
  | inr e ↦ rw e lacks
]

room-HasNone : (c : Console) → c.has_ops ≡ false → HasNone (con_make_room c)
unfolding con_make_room
room-HasNone c lacks = elim (Bool-cases (leb (sub32 c.fb_h c.cell_h) c.cy)) [
  | inl e ↦ rw e (newl-HasNone c lacks)
  | inr e ↦ rw e lacks
]

draw_faults :
    (c : Console) (g : Glyph) (x y : ℕ) → c.has_ops ≡ false → con_draw_glyph c g x y ≡ none
unfolding con_draw_glyph
draw_faults c g x y lacks = rw lacks refl

put_faults : (c : Console) (ch : ℕ) → c.has_ops ≡ false → con_put_glyph c ch ≡ none
unfolding con_put_glyph
put_faults c ch lacks = rw (draw_faults c (c.font.glyphs (ch - 32)) c.cx c.cy lacks) refl

byte_faults :
    (c : Console) (ch : ℕ)
    → c.has_ops ≡ false
    → (ltb ch 32 || ltb 126 ch) ≡ false
    → con_write_byte c ch ≡ none
unfolding con_write_byte
byte_faults c ch lacks printable = elim (Option-cases (con_make_room c)) [
  | inl e ↦ rw e refl
  | inr (c', e) ↦ rw (e, printable, put_faults c' ch (subst HasNone e (room-HasNone c lacks))) refl
]

-- Without a framebuffer or its operations, a text that begins with a printable byte is a fault,
-- wherever the cursor is and whatever the font.
pub kcon_write_faults :
    (c : Console) (ch : ℕ) (buf : List ℕ)
    → c.has_ops ≡ false
    → (ltb ch 32 || ltb 126 ch) ≡ false
    → kcon_write c (some (ch ∷ buf)) ≡ none
unfolding kcon_write write_loop
kcon_write_faults c ch buf lacks printable = rw (byte_faults c ch lacks printable) refl
