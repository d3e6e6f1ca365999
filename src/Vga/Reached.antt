-- ===== src/Vga/Reached.antt =====
-- The states of the terminal of kernel/drivers/video/vga/vga_text.c that its operations lead to.
use sync_kernel.Prelude.{
  ℕ, zero, suc, ◌+◌, ◌-◌, ◌%◌, ◌≤◌, ◌<◌, ◌≡◌, refl, ap, ◌∙◌, inl, inr, some, arith, update,
  Bool-cases, Option-cases, ◌^◌,
}
use sync_kernel.Prelude.Int.{ℤ, pos, negsuc}
use sync_kernel.Kstring.{Bytes, strlen}
use sync_kernel.Ctype.{isprint}
use sync_kernel.Console.{as_i32}
use sync_kernel.Vga.{
  Cell, Term, vga_width, vga_cells, cell_of, vga_write_cell, set_cells, write_loop, clip,
  vga_text_setcolor, vga_text_write, vga_text_putchar, vga_text_puts, vga_text_clear,
  vga_text_clear_line,
}
use sync_kernel.Vga.Sheet.{
  IsOnScreen, place_of, filled, fill, vga_write_cell-put_cell, vga_write_cell-IsOnScreen,
}

pub set_cells-fill :
    (n i : ℕ) (cell : Cell) (out : ℕ → Cell) (j : ℕ)
    → set_cells n i cell out j ≡ fill out i n cell j
unfolding set_cells
set_cells-fill zero i cell out j = ground arith
set_cells-fill (suc n) i cell out j =
    ground (arith, set_cells-fill n (i + 1) cell (update out i cell) j)

-- One call of an operation; a string that is written has been read to its end.
pub data Step (t : Term) : Term → Type 0 where
  setcolor : (fg bg : ℕ) → Step t (vga_text_setcolor fg bg t)
  write : (m : Bytes) (s : ℕ) (len : ℤ) {t' : Term} → vga_text_write m s len t ≡ some t' → Step t t'
  putchar : (c : ℕ) → Step t (vga_text_putchar c t)
  puts :
      (fuel : ℕ) (m : Bytes) (str : ℕ) {t' : Term}
      → vga_text_puts fuel m str t ≡ some t'
      → Step t t'
  clear : Step t (vga_text_clear t)
  clear_line : Step t (vga_text_clear_line t)

pub data Reached (t : Term) : Term → Type 0 where
  here : Reached t t
  next : {u v : Term} → Reached t u → Step u v → Reached t v

-- The cells behind the screen are those of `t`, and the cursor is on the screen.
pub record Keeps (t u : Term) : Type 0 where
  pub on : IsOnScreen u
  pub behind : (i : ℕ) → u.out (vga_cells + i) ≡ t.out (vga_cells + i)

filled-fits : (c p : ℕ) → p < vga_cells → p + filled c p ≤ vga_cells
filled-fits c p h = elim (Bool-cases (isprint c)) [
  | inl e ↦ rw e (omega arith)
  | inr e ↦ rw e (ground arith)
]

write_cell-Keeps : (cell : Cell) (t : Term) → IsOnScreen t → Keeps t (vga_write_cell cell t)
write_cell-Keeps cell t on = record {
  on = vga_write_cell-IsOnScreen cell t on;
  behind = λ i.
      ap (λ s. s.cells (vga_cells + i)) (vga_write_cell-put_cell cell t on)
      ∙ ground (arith, filled-fits cell.ch (place_of t), on.0, on.1);
}

Keeps-trans : {t u v : Term} → Keeps t u → Keeps u v → Keeps t v
Keeps-trans k l = record { on = l.on; behind = λ i. l.behind i ∙ k.behind i }

write_loop-Keeps :
    (n color : ℕ) (m : Bytes) (s : ℕ) (t : Term) → IsOnScreen t → Keeps t (write_loop n color m s t)
unfolding write_loop
write_loop-Keeps zero color m s t on = record { on = on; behind = λ i. refl }
write_loop-Keeps (suc n) color m s t on =
    let cell : Cell = record { ch = m s; color = color } in
    let k = write_cell-Keeps cell t on in
    Keeps-trans k (write_loop-Keeps n color m (s + 1) (vga_write_cell cell t) k.on)

write-Keeps :
    (m : Bytes) (s : ℕ) (len : ℤ) {t t' : Term}
    → IsOnScreen t
    → vga_text_write m s len t ≡ some t'
    → Keeps t t'
unfolding vga_text_write
write-Keeps m s (pos n) {t} {t'} on e =
    let same : write_loop n (t.color % 2 ^ 8) m s t ≡ t' = cc in
    rw same at (write_loop-Keeps n (t.color % 2 ^ 8) m s t on)
write-Keeps m s (negsuc n) on e = cc

Step-Keeps : {t u : Term} → Step t u → IsOnScreen t → Keeps t u
unfolding vga_text_setcolor vga_text_putchar vga_text_puts vga_text_clear vga_text_clear_line
Step-Keeps (setcolor fg bg) on = record { on = on; behind = λ i. refl }
Step-Keeps (write m s len e) on = write-Keeps m s len on e
Step-Keeps {t} (putchar c) on = write_cell-Keeps (cell_of c t) t on
Step-Keeps {t} (puts fuel m str e) on = elim (Option-cases (strlen fuel m str)) [
  | inl stuck ↦ cc (rw stuck at e)
  | inr (len, n) ↦ write-Keeps m str (clip (as_i32 (len % 2 ^ 32))) on (rw n at e)
]
Step-Keeps {t} clear on = record {
  on = (omega arith, omega arith);
  behind = λ i. set_cells-fill vga_cells 0 (cell_of b' ' t) t.out (vga_cells + i) ∙ ground arith;
}
Step-Keeps {t} clear_line on = record {
  on = on;
  behind = λ i.
      set_cells-fill (vga_width - t.cx) (place_of t) (cell_of b' ' t) t.out (vga_cells + i)
      ∙ ground (arith, on.0, on.1);
}

-- From a state with the cursor on the screen the operations, in any order, keep it there and write
-- no cell behind the 2000 of the screen.
pub Reached-Keeps : {t u : Term} → IsOnScreen t → Reached t u → Keeps t u
Reached-Keeps on here = record { on = on; behind = λ i. refl }
Reached-Keeps on (next r st) = let k = Reached-Keeps on r in Keeps-trans k (Step-Keeps st k.on)
