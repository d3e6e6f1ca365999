-- ===== src/Vga/Sheet.antt =====
-- The text screen of kernel/drivers/video/vga/vga_text.c as one sheet of 2000 cells in a row, with
-- a position on it that comes round at the end.
use sync_kernel.Prelude.{
  ℕ, zero, suc, ◌+◌, ◌-◌, ◌*◌, ◌/◌, ◌%◌, ◌≤◌, ◌<◌, ◌≡◌, ◌∙◌, inl, inr, false, arith, ◌==◌,
  if◌then◌else◌, update, Bool-cases,
}
use sync_kernel.Kstring.Copy.{inside}
use sync_kernel.Ctype.{isprint}
use sync_kernel.Vga.{
  Cell, Term, vga_width, vga_height, vga_cells, vga_tabstop, vga_write_cell_at, next_row, next_cell,
  tab_loop, vga_write_cell,
}

pub record Sheet : Type 0 where
  pub place : ℕ
  pub cells : ℕ → Cell

abbrev pub place_of : Term → ℕ
place_of t = t.cy * vga_width + t.cx

abbrev pub view : Term → Sheet
view t = record { place = place_of t; cells = t.out }

-- The cursor is on the screen.
abbrev pub IsOnScreen : Term → Type 0
IsOnScreen t = (t.cx < vga_width) × (t.cy < vga_height)

-- Where a byte takes the position, how many cells it fills from there, and with what.
abbrev pub after : ℕ → ℕ → ℕ
after c p =
    if isprint c
    then (p + 1) % vga_cells
    else if c == 13
    then p / vga_width * vga_width
    else if c == 10
    then (p / vga_width + 1) * vga_width % vga_cells
    else if c == 9
    then (p / vga_tabstop + 1) * vga_tabstop % vga_cells
    else p

abbrev pub filled : ℕ → ℕ → ℕ
filled c p = if isprint c then 1 else if c == 9 then vga_tabstop - p % vga_tabstop else 0

abbrev pub glyph : ℕ → ℕ
glyph c = if isprint c then c else b' '

abbrev pub fill : (ℕ → Cell) → ℕ → ℕ → Cell → ℕ → Cell
fill cells p n cell i = if inside p n i then cell else cells i

abbrev pub put_cell : Cell → Sheet → Sheet
put_cell cell s = record {
  place = after cell.ch s.place;
  cells = fill s.cells s.place (filled cell.ch s.place) (record cell { ch = glyph cell.ch });
}

next_cell-place : (t : Term) → IsOnScreen t → place_of (next_cell t) ≡ (place_of t + 1) % vga_cells
unfolding next_cell next_row
next_cell-place t (x, y) = ground arith

next_cell-IsOnScreen : (t : Term) → IsOnScreen t → IsOnScreen (next_cell t)
unfolding next_cell next_row
next_cell-IsOnScreen t (x, y) = ground arith

next_cell-out : (t : Term) → (next_cell t).out ≡ t.out
unfolding next_cell next_row
next_cell-out t = ground arith

-- A round of the tab's loop: a cell is written and the cursor moves on.
abbrev round : Cell → Term → Term
round cell t = next_cell (vga_write_cell_at cell t.cx t.cy t)

round-place :
    (cell : Cell) (t : Term) → IsOnScreen t → place_of (round cell t) ≡ (place_of t + 1) % vga_cells
unfolding vga_write_cell_at
round-place cell t on = next_cell-place (vga_write_cell_at cell t.cx t.cy t) on

round-IsOnScreen : (cell : Cell) (t : Term) → IsOnScreen t → IsOnScreen (round cell t)
unfolding vga_write_cell_at
round-IsOnScreen cell t on = next_cell-IsOnScreen (vga_write_cell_at cell t.cx t.cy t) on

round-out : (cell : Cell) (t : Term) → (round cell t).out ≡ update t.out (place_of t) cell
unfolding vga_write_cell_at
round-out cell t = next_cell-out (vga_write_cell_at cell t.cx t.cy t)

tab_loop-IsOnScreen :
    (n : ℕ) (cell : Cell) (t : Term) → IsOnScreen t → IsOnScreen (tab_loop n cell t)
unfolding tab_loop
tab_loop-IsOnScreen zero cell t on = on
tab_loop-IsOnScreen (suc n) cell t on =
    tab_loop-IsOnScreen n cell (round cell t) (round-IsOnScreen cell t on)

-- The rounds of a tab do not come round the end of the screen, except to its first cell.
tab_loop-place :
    (n : ℕ) (cell : Cell) (t : Term)
    → IsOnScreen t
    → place_of (tab_loop n cell t) ≡ (place_of t + n) % vga_cells
unfolding tab_loop
tab_loop-place zero cell t (x, y) = omega arith
tab_loop-place (suc n) cell t on = omega (
  arith,
  tab_loop-place n cell (round cell t) (round-IsOnScreen cell t on),
  round-place cell t on,
)

tab_loop-out :
    (n : ℕ) (cell : Cell) (t : Term) (i : ℕ)
    → IsOnScreen t
    → place_of t + n ≤ vga_cells
    → (tab_loop n cell t).out i ≡ fill t.out (place_of t) n cell i
unfolding tab_loop
tab_loop-out zero cell t i on fits = ground arith
tab_loop-out (suc n) cell t i on fits =
    let next = round-place cell t on in
    tab_loop-out n cell (round cell t) i (round-IsOnScreen cell t on) (omega (arith, next))
    ∙ rw (round-out cell t) (ground (arith, next))

Sheet_eq : (s s' : Sheet) → s.place ≡ s'.place → ((i : ℕ) → s.cells i ≡ s'.cells i) → s ≡ s'
Sheet_eq s s' p c = λ i. record { place = p i; cells = λ j. c j i }

-- The cells between a position and the next tab stop.
abbrev tab_distance : Term → ℕ
tab_distance t = vga_tabstop - t.cx % vga_tabstop

tab_distance-fits :
    (t : Term)
    → IsOnScreen t
    → (place_of t + tab_distance t ≤ vga_cells)
      × (tab_distance t ≡ vga_tabstop - place_of t % vga_tabstop)
      × ((place_of t + tab_distance t) % vga_cells
          ≡ (place_of t / vga_tabstop + 1) * vga_tabstop % vga_cells)
tab_distance-fits t (x, y) = (omega arith, omega arith, omega arith)

control-place :
    (cell : Cell) (t : Term)
    → IsOnScreen t
    → isprint cell.ch ≡ false
    → place_of (vga_write_cell cell t) ≡ after cell.ch (place_of t)
unfolding vga_write_cell next_row
control-place cell t on e =
    let (fits, same, stop) = tab_distance-fits t on in
    rw e (ground (arith, tab_loop-place (tab_distance t) (record cell { ch = b' ' }) t on, stop))

control-out :
    (cell : Cell) (t : Term) (i : ℕ)
    → IsOnScreen t
    → isprint cell.ch ≡ false
    → (vga_write_cell cell t).out i ≡ (put_cell cell (view t)).cells i
unfolding vga_write_cell next_row
control-out cell t i on e =
    let (fits, same, stop) = tab_distance-fits t on in
    rw e
      (ground (arith, tab_loop-out (tab_distance t) (record cell { ch = b' ' }) t i on, fits, same))

-- Writing a cell puts it on the sheet: a byte that prints fills its place and moves on by one, a
-- tab fills what is left before the next tab stop, a line feed goes to the beginning of the next
-- row, a carriage return to that of its own, and no other byte does anything; the end of the
-- screen is followed by its beginning.
pub vga_write_cell-put_cell :
    (cell : Cell) (t : Term) → IsOnScreen t → view (vga_write_cell cell t) ≡ put_cell cell (view t)
unfolding vga_write_cell
vga_write_cell-put_cell cell t on = elim (Bool-cases (isprint cell.ch)) [
  | inl e ↦ rw e (Sheet_eq _ _ (round-place cell t on) (λ i. rw (round-out cell t) (ground arith)))
  | inr e ↦ Sheet_eq _ _ (control-place cell t on e) (λ i. control-out cell t i on e)
]

pub vga_write_cell-IsOnScreen :
    (cell : Cell) (t : Term) → IsOnScreen t → IsOnScreen (vga_write_cell cell t)
unfolding vga_write_cell next_row
vga_write_cell-IsOnScreen cell t on = elim (Bool-cases (isprint cell.ch)) [
  | inl e ↦ rw e (round-IsOnScreen cell t on)
  | inr e ↦
      rw e (ground (arith, tab_loop-IsOnScreen (tab_distance t) (record cell { ch = b' ' }) t on))
]
