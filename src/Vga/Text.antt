-- ===== src/Vga/Text.antt =====
-- Strings on the text screen of kernel/drivers/video/vga/vga_text.c.
use sync_kernel.Prelude.{
  ℕ, zero, suc, ◌+◌, ◌-◌, ◌%◌, ◌^◌, ◌≤◌, ◌<◌, ◌≡◌, refl, ap, ◌∙◌, true, List, [], ◌∷◌, arith,
  Returns, ltb, ◌==◌, if◌then◌else◌, min, Bool-cases, inl, inr,
}
use sync_kernel.Prelude.Int.{pos}
use sync_kernel.Ctype.{isprint}
use sync_kernel.Kstring.{Bytes}
use sync_kernel.Kstring.Copy.{inside}
use sync_kernel.Kstring.Scan.{IsString, strlen_lem}
use sync_kernel.Console.{as_i32}
use sync_kernel.Vga.{
  Cell, Term, vga_cells, cell_of, vga_write_cell, write_loop, clip, vga_text_write, vga_text_puts,
}
use sync_kernel.Vga.Sheet.{
  Sheet, IsOnScreen, view, place_of, put_cell, fill, vga_write_cell-put_cell,
  vga_write_cell-IsOnScreen,
}

-- The `n` bytes of memory from `s` on.
abbrev pub stretch : Bytes → ℕ → ℕ → List ℕ
stretch m s zero = []
stretch m s (suc n) = m s ∷ stretch m (s + 1) n

-- The bytes of a text put_cell on a sheet one after another.
abbrev pub show_text : ℕ → List ℕ → Sheet → Sheet
show_text color [] s = s
show_text color (c ∷ cs) s = show_text color cs (put_cell (record { ch = c; color = color }) s)

write_loop-show_text :
    (n color : ℕ) (m : Bytes) (s : ℕ) (t : Term)
    → IsOnScreen t
    → view (write_loop n color m s t) ≡ show_text color (stretch m s n) (view t)
unfolding write_loop
write_loop-show_text zero color m s t on = refl
write_loop-show_text (suc n) color m s t on =
    let cell : Cell = record { ch = m s; color = color } in
    write_loop-show_text n color m (s + 1) (vga_write_cell cell t)
      (vga_write_cell-IsOnScreen cell t on)
    ∙ ap (show_text color (stretch m (s + 1) n)) (vga_write_cell-put_cell cell t on)

-- A string shorter than 2 ^ 31 is put_cell on the screen up to its first 1999 bytes.
pub vga_text_puts-show_text :
    (fuel : ℕ) (m : Bytes) (str n : ℕ) (t : Term)
    → IsString m str n
    → n < fuel
    → n < 2 ^ 31
    → IsOnScreen t
    → Returns
        (λ t'. view t' ≡ show_text (t.color % 2 ^ 8) (stretch m str (min n 1999)) (view t))
        (vga_text_puts fuel m str t)
unfolding vga_text_puts vga_text_write
vga_text_puts-show_text fuel m str n t is enough small on =
    let clipped : clip (as_i32 (n % 2 ^ 32)) ≡ pos (min n 1999) = ground arith in
    rw (strlen_lem fuel is enough, clipped)
      (write_loop-show_text (min n 1999) (t.color % 2 ^ 8) m str t on)

-- Bytes that print fill one cell each, from the place of the sheet on.
module _ (color : ℕ) (m : Bytes) (i : ℕ) where
  abbrev shown : ℕ → ℕ → (ℕ → Cell) → ℕ → Cell
  shown n s cells p =
      if inside p n i then record { ch = m (s + (i - p)); color = color } else cells i

  put_cell-printed :
      (s : ℕ) (sheet : Sheet)
      → isprint (m s) ≡ true
      → put_cell (record { ch = m s; color = color }) sheet ≡ record {
        place = (sheet.place + 1) % vga_cells;
        cells = fill sheet.cells sheet.place 1 (record { ch = m s; color = color });
      }
  put_cell-printed s sheet e = rw e refl

  shown-suc :
      (n s : ℕ) (cells : ℕ → Cell) (p : ℕ)
      → p + suc n ≤ vga_cells
      → shown n (s + 1) (fill cells p 1 (record { ch = m s; color = color })) ((p + 1) % vga_cells)
        ≡ shown (suc n) s cells p
  shown-suc n s cells p fits = elim (Bool-cases (ltb p i)) [
    | inl behind ↦
        let e : s + 1 + (i - (p + 1)) ≡ s + (i - p) = ground arith in
        elim (Bool-cases (n == 0)) [
          | inl last ↦ ground arith
          | inr more ↦
              let small : (p + 1) % vga_cells ≡ p + 1 = ground arith in
              rw small (ground (arith, ap m e))
        ]
    | inr before ↦ elim (Bool-cases (p == i)) [
      | inl at ↦ let e : s + (i - p) ≡ s = ground arith in ground (arith, ap m e)
      | inr apart ↦ ground arith
    ]
  ]

  show_text-shown :
      (n s : ℕ) (sheet : Sheet)
      → ((j : ℕ) → j < n → isprint (m (s + j)) ≡ true)
      → sheet.place + n ≤ vga_cells
      → (show_text color (stretch m s n) sheet).cells i ≡ shown n s sheet.cells sheet.place
  show_text-shown zero s sheet printed fits = ground arith
  show_text-shown (suc n) s sheet printed fits =
      let start : s + 0 ≡ s = omega arith in
      let first : isprint (m s) ≡ true = rw start at (printed 0 (omega arith)) in
      let shift : (j : ℕ) → s + suc j ≡ s + 1 + j = λ j. omega arith in
      let sheet' : Sheet = record {
        place = (sheet.place + 1) % vga_cells;
        cells = fill sheet.cells sheet.place 1 (record { ch = m s; color = color });
      } in
      ap (λ x. (show_text color (stretch m (s + 1) n) x).cells i) (put_cell-printed s sheet first)
      ∙ show_text-shown n (s + 1) sheet' (λ j l. rw (← shift j) (printed (suc j) (omega arith)))
          (omega arith)
      ∙ shown-suc n s sheet.cells sheet.place (omega arith)

pub puts_from_home :
    (fuel : ℕ) (m : Bytes) (str n : ℕ) (t : Term)
    → IsString m str n
    → n < fuel
    → n < vga_cells
    → ((j : ℕ) → j < n → isprint (m (str + j)) ≡ true)
    → t.cx ≡ 0
    → t.cy ≡ 0
    → Returns
        (λ t'. (i : ℕ) → t'.out i ≡ (if ltb i n then cell_of (m (str + i)) t else t.out i))
        (vga_text_puts fuel m str t)
unfolding vga_text_puts vga_text_write
puts_from_home fuel m str n t is enough small printed x y =
    let clipped : clip (as_i32 (n % 2 ^ 32)) ≡ pos n = ground arith in
    let color = t.color % 2 ^ 8 in
    let home : place_of t ≡ 0 = omega arith in
    rw (strlen_lem fuel is enough, clipped)
      (λ i.
        ap (λ v. v.cells i) (write_loop-show_text n color m str t (omega arith, omega arith))
        ∙ show_text-shown color m i n str (view t) printed (omega arith)
        ∙ rw home (let e : str + (i - 0) ≡ str + i = omega arith in ground (arith, ap m e)))
