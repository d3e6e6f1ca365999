-- ===== src/Buddy/Bitmap.antt =====
-- The pair bitmaps of kernel/mm/buddy.c: reading a bit after a write, and the buddy of a block.
use sync_kernel.Prelude.{
  ℕ, zero, suc, ◌+◌, ◌-◌, ◌*◌, ◌/◌, ◌%◌, ◌^◌, ◌≤◌, ◌<◌, ◌≡◌, refl, sym, ap, ◌≢◌, Bool, true, false,
  ◌&&◌, arith, ◌==◌, if◌then◌else◌, holds_below, holds_below-at, ==_iff, bit_and, bit_or, bit_xor,
}
use sync_kernel.Buddy.{
  Zone, kbud_pair_idx, bit_byte, bit_place, buddy_bit_get, buddy_bit_set, buddy_bit_clr,
}
use sync_kernel.Prelude.Bits.{bit_xor_flips}
use native.Mathlib.Nat.{pow-suc, one-le-pow, mod-lt, div-add-mod', mul-add-div_right, div-eq_of_lt}
use mathlib.Core.Path.{subst}
use native.Mathlib.Numerals.{add-one}

-- One byte at all its values and places.
abbrev set_reads : ℕ → ℕ → ℕ → Bool
set_reads b i j = bit_or b (2 ^ i) / 2 ^ j % 2 == (if i == j then 1 else b / 2 ^ j % 2)

abbrev clear_reads : ℕ → ℕ → ℕ → Bool
clear_reads b i j = bit_and b (255 - 2 ^ i) / 2 ^ j % 2 == (if i == j then 0 else b / 2 ^ j % 2)

set_table : holds_below (λ x. set_reads (x / 64) (x / 8 % 8) (x % 8)) 16384 ≡ true
unfolding holds_below
set_table = refl

clear_table : holds_below (λ x. clear_reads (x / 64) (x / 8 % 8) (x % 8)) 16384 ≡ true
unfolding holds_below
clear_table = refl

-- The row of a table for a byte and two places.
abbrev row : ℕ → ℕ → ℕ → ℕ
row b i j = b * 64 + i * 8 + j

module _ (b i j : ℕ) (hb : b < 256) (hi : i < 8) (hj : j < 8) where
  at_row :
      (p : ℕ → ℕ → ℕ → Bool)
      → holds_below (λ x. p (x / 64) (x / 8 % 8) (x % 8)) 16384 ≡ true
      → p b i j ≡ true
  at_row p t =
      let eb : row b i j / 64 ≡ b = omega arith in
      let ei : row b i j / 8 % 8 ≡ i = omega arith in
      let ej : row b i j % 8 ≡ j = omega arith in
      let all =
        holds_below-at (λ x. p (x / 64) (x / 8 % 8) (x % 8)) 16384 (row b i j) t (omega arith) in
      cc

  set_reads_lem : bit_or b (2 ^ i) / 2 ^ j % 2 ≡ (if i == j then 1 else b / 2 ^ j % 2)
  set_reads_lem = (==_iff _ _).0 (at_row set_reads set_table)

  clear_reads_lem : bit_and b (255 - 2 ^ i) / 2 ^ j % 2 ≡ (if i == j then 0 else b / 2 ^ j % 2)
  clear_reads_lem = (==_iff _ _).0 (at_row clear_reads clear_table)

-- Reading a pair's bit after a pair's bit has been set, in a memory of bytes: the bit itself is
-- one, and every other one is as it was.
pub buddy_bit_get-set :
    (z : Zone) (pfn ord pfn' ord' : ℕ)
    → ((a : ℕ) → z.bytes a < 256)
    → buddy_bit_get (buddy_bit_set z pfn ord) pfn' ord' ≡ (
        if (bit_byte z.slave pfn ord == bit_byte z.slave pfn' ord')
          && (bit_place pfn ord == bit_place pfn' ord')
        then true
        else buddy_bit_get z pfn' ord')
unfolding buddy_bit_get buddy_bit_set
buddy_bit_get-set z pfn ord pfn' ord' small = ground (
  arith,
  set_reads_lem (z.bytes (bit_byte z.slave pfn ord)) (bit_place pfn ord) (bit_place pfn' ord')
      (small (bit_byte z.slave pfn ord)) (omega arith) (omega arith),
)

-- Reading a pair's bit after a pair's bit has been cleared, in a memory of bytes: the bit itself
-- is zero, and every other one is as it was.
pub buddy_bit_get-clr :
    (z : Zone) (pfn ord pfn' ord' : ℕ)
    → ((a : ℕ) → z.bytes a < 256)
    → buddy_bit_get (buddy_bit_clr z pfn ord) pfn' ord' ≡ (
        if (bit_byte z.slave pfn ord == bit_byte z.slave pfn' ord')
          && (bit_place pfn ord == bit_place pfn' ord')
        then false
        else buddy_bit_get z pfn' ord')
unfolding buddy_bit_get buddy_bit_clr
buddy_bit_get-clr z pfn ord pfn' ord' small = ground (
  arith,
  clear_reads_lem (z.bytes (bit_byte z.slave pfn ord)) (bit_place pfn ord) (bit_place pfn' ord')
      (small (bit_byte z.slave pfn ord)) (omega arith) (omega arith),
)

fits : (n k : ℕ) → n % 2 ^ k < 2 ^ k
fits n k = mod-lt n (one-le-pow k 2 (omega arith))

-- A word as its digits above, at and below place `k`.
split_at : (n k : ℕ) → n ≡ n / 2 ^ k / 2 * 2 ^ suc k + (n / 2 ^ k % 2 * 2 ^ k + n % 2 ^ k)
split_at n k =
    let d = n / 2 ^ k in
    let halves : d / 2 * 2 + d % 2 ≡ d = omega arith in
    omega (
      arith,
      div-add-mod' n (2 ^ k),
      ap (λ (t : ℕ). t * 2 ^ k) halves,
      ap (λ (t : ℕ). d / 2 * t) (pow-suc 2 k),
    )

quotient : (q x k : ℕ) → x < 2 ^ suc k → (q * 2 ^ suc k + x) / 2 ^ suc k ≡ q
quotient q x k h =
    omega (arith, mul-add-div_right (one-le-pow (suc k) 2 (omega arith)) q x, div-eq_of_lt h)

lower : (b r k : ℕ) → b < 2 → r < 2 ^ k → b * 2 ^ k + r < 2 ^ suc k
lower b r k hb hr = let small : b * 2 ^ k ≤ 2 ^ k = grind arith in omega (arith, pow-suc 2 k)

flip_ne : (b q r k : ℕ) → b < 2 → q + ((1 - b) * 2 ^ k + r) ≢ q + (b * 2 ^ k + r)
flip_ne zero q r k h = omega (arith, one-le-pow k 2)
flip_ne (suc zero) q r k h = omega (arith, one-le-pow k 2)
flip_ne (suc (suc b)) q r k h = absurd (omega arith)

abbrev Paired : ℕ → ℕ → Type 0
Paired pfn ord =
    (bit_xor (bit_xor pfn (2 ^ ord)) (2 ^ ord) ≡ pfn)
    × (bit_xor pfn (2 ^ ord) ≢ pfn)
    × (kbud_pair_idx (bit_xor pfn (2 ^ ord)) ord ≡ kbud_pair_idx pfn ord)

Paired-of_parts : (k q b r : ℕ) → b < 2 → r < 2 ^ k → Paired (q * 2 ^ suc k + (b * 2 ^ k + r)) k
unfolding kbud_pair_idx
Paired-of_parts k q b r hb hr =
    let there = bit_xor_flips k q b r hb hr in
    let back = bit_xor_flips k q (1 - b) r (omega arith) hr in
    let same : 1 - (1 - b) ≡ b = omega arith in
    (
      rw (there, back, same),
      rw there (flip_ne b (q * 2 ^ suc k) r k hb),
      rw (add-one k, there, quotient q (b * 2 ^ k + r) k (lower b r k hb hr))
          (quotient q ((1 - b) * 2 ^ k + r) k (lower (1 - b) r k (omega arith) hr)),
    )

-- The buddy `pfn ^ (1 << ord)` of a block is another block, whose buddy is the first, and both
-- have the same bit in the order's bitmap.
buddy_pair :
    (pfn ord : ℕ)
    → (bit_xor (bit_xor pfn (2 ^ ord)) (2 ^ ord) ≡ pfn)
      × (bit_xor pfn (2 ^ ord) ≢ pfn)
      × (kbud_pair_idx (bit_xor pfn (2 ^ ord)) ord ≡ kbud_pair_idx pfn ord)
buddy_pair pfn ord =
    subst (λ n. Paired n ord) (sym (split_at pfn ord))
      (Paired-of_parts ord (pfn / 2 ^ ord / 2) (pfn / 2 ^ ord % 2) (pfn % 2 ^ ord) (omega arith)
        (fits pfn ord))
