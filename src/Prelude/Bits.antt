-- ===== src/Prelude/Bits.antt =====
-- The bitwise operations on words, digit by digit and field by field. The native operations stand
-- for `bitwise`, which reads its first operand's size as its number of rounds.
use Prim.Native.Nat.{
  ℕ, zero, suc, ◌+◌, ◌-◌, ◌*◌, ◌/◌, ◌%◌, ◌^◌, ◌≤◌, ◌<◌, min, max, bit_and, bit_or, bit_xor,
}
use Prim.Native.Nat.{bitwise, digits, differ, bit_and-bitwise, bit_or-bitwise, bit_xor-bitwise}
use mathlib.Core.Path.{◌≡◌, refl, sym, ap, ◌∙◌}
use native.Mathlib.Nat.{pow-suc, one-le-pow}
use native.Mathlib.Omega.{arith}

module _ (z : ℕ → ℕ) (f : ℕ → ℕ → ℕ) (at_zero : (y : ℕ) → z y ≡ z (y / 2) * 2 + f 0 (y % 2)) where
  digits-zero : (n y : ℕ) → digits z f n 0 y ≡ z y
  digits-zero zero y = refl
  digits-zero (suc n) y = refl

  -- More rounds than the first operand's size change nothing.
  rounds_agree : (x y n m : ℕ) → x ≤ n → n ≤ m → digits z f m x y ≡ digits z f n x y
  rounds_agree zero y n m h k = digits-zero m y ∙ sym (digits-zero n y)
  rounds_agree (suc x) y zero m h k = absurd (omega arith)
  rounds_agree (suc x) y (suc n) zero h k = absurd (omega arith)
  rounds_agree (suc x) y (suc n) (suc m) h k =
      ap (λ (t : ℕ). t * 2 + f (suc x % 2) (y % 2))
        (rounds_agree (suc x / 2) (y / 2) n m (omega arith) (omega arith))

  lowest_digit : (x y : ℕ) → bitwise z f x y ≡ f (x % 2) (y % 2) + 2 * bitwise z f (x / 2) (y / 2)
  lowest_digit zero y = omega (arith, at_zero y)
  lowest_digit (suc x) y =
      omega (arith, rounds_agree (suc x / 2) (y / 2) (suc x / 2) x (omega arith) (omega arith))

pub bit_and_digit : (x y : ℕ) → bit_and x y ≡ min (x % 2) (y % 2) + 2 * bit_and (x / 2) (y / 2)
bit_and_digit x y = simp bit_and-bitwise (lowest_digit (λ b. 0) min (λ b. omega arith) x y)

pub bit_or_digit : (x y : ℕ) → bit_or x y ≡ max (x % 2) (y % 2) + 2 * bit_or (x / 2) (y / 2)
bit_or_digit x y = simp bit_or-bitwise (lowest_digit (λ b. b) max (λ b. omega arith) x y)

pub bit_xor_digit : (x y : ℕ) → bit_xor x y ≡ differ (x % 2) (y % 2) + 2 * bit_xor (x / 2) (y / 2)
bit_xor_digit x y = simp bit_xor-bitwise (lowest_digit (λ b. b) differ (λ b. omega arith) x y)

field-double : (k q : ℕ) → q * 2 ^ suc k ≡ 2 * (q * 2 ^ k)
field-double k q = ap (λ (t : ℕ). q * t) (pow-suc 2 k) ∙ omega arith

-- An operation that works digit by digit works on each of two fields.
module _ (op f : ℕ → ℕ → ℕ)
    (digit : (a b : ℕ) → op a b ≡ f (a % 2) (b % 2) + 2 * op (a / 2) (b / 2))
    (f-zero : f 0 0 ≡ 0) where
  op-zero : op 0 0 ≡ 0
  op-zero = let d = digit 0 0 in omega (arith, f-zero)

  by_fields :
      (k a b c d : ℕ)
      → b < 2 ^ k
      → d < 2 ^ k
      → op (a * 2 ^ k + b) (c * 2 ^ k + d) ≡ op a c * 2 ^ k + op b d
  by_fields zero a b c d p q = ground (arith, op-zero)
  by_fields (suc k) a b c d p q = ground (
    arith,
    digit (a * 2 ^ suc k + b) (c * 2 ^ suc k + d),
    digit b d,
    field-double k a,
    field-double k c,
    field-double k (op a c),
    by_fields k a (b / 2) c (d / 2) (omega (arith, pow-suc 2 k)) (omega (arith, pow-suc 2 k)),
  )

pub bit_and_fields :
    (k a b c d : ℕ)
    → b < 2 ^ k
    → d < 2 ^ k
    → bit_and (a * 2 ^ k + b) (c * 2 ^ k + d) ≡ bit_and a c * 2 ^ k + bit_and b d
bit_and_fields = by_fields bit_and min bit_and_digit (omega arith)

pub bit_or_fields :
    (k a b c d : ℕ)
    → b < 2 ^ k
    → d < 2 ^ k
    → bit_or (a * 2 ^ k + b) (c * 2 ^ k + d) ≡ bit_or a c * 2 ^ k + bit_or b d
bit_or_fields = by_fields bit_or max bit_or_digit (omega arith)

pub bit_xor_fields :
    (k a b c d : ℕ)
    → b < 2 ^ k
    → d < 2 ^ k
    → bit_xor (a * 2 ^ k + b) (c * 2 ^ k + d) ≡ bit_xor a c * 2 ^ k + bit_xor b d
bit_xor_fields = by_fields bit_xor differ bit_xor_digit refl

-- A word or-ed with the zero word.
pub bit_or-zero : (n a : ℕ) → a ≤ n → bit_or a 0 ≡ a
bit_or-zero n zero h = refl
bit_or-zero zero (suc a) h = absurd (omega arith)
bit_or-zero (suc n) (suc a) h =
    omega (arith, bit_or_digit (suc a) 0, bit_or-zero n (suc a / 2) (omega arith))

differ-zero : (x : ℕ) → differ x 0 ≡ x
differ-zero zero = refl
differ-zero (suc x) = refl

pub bit_xor-zero : (n a : ℕ) → a ≤ n → bit_xor a 0 ≡ a
bit_xor-zero n zero h = refl
bit_xor-zero zero (suc a) h = absurd (omega arith)
bit_xor-zero (suc n) (suc a) h = ground (
  arith,
  bit_xor_digit (suc a) 0,
  differ-zero (suc a % 2),
  bit_xor-zero n (suc a / 2) (omega arith),
)

pub bit_and-zero : (n a : ℕ) → a ≤ n → bit_and a 0 ≡ 0
bit_and-zero n zero h = refl
bit_and-zero zero (suc a) h = absurd (omega arith)
bit_and-zero (suc n) (suc a) h =
    omega (arith, bit_and_digit (suc a) 0, bit_and-zero n (suc a / 2) (omega arith))

pub zero-bit_or : (b : ℕ) → bit_or 0 b ≡ b
zero-bit_or b = bit_or-bitwise 0 b

-- Or-ing a field above into a field below adds it.
pub bit_or_disjoint : (k a b : ℕ) → b < 2 ^ k → bit_or (a * 2 ^ k) b ≡ a * 2 ^ k + b
bit_or_disjoint k a b h =
    let right : 0 * 2 ^ k + b ≡ b = omega arith in
    let left : a * 2 ^ k + 0 ≡ a * 2 ^ k = omega arith in
    ground (
      arith,
      bit_or_fields k a 0 0 b (omega (arith, one-le-pow k 2)) h,
      bit_or-zero a a (omega arith),
      zero-bit_or b,
    )

pub xor_digit_one : (b : ℕ) → b < 2 → bit_xor b 1 ≡ 1 - b
xor_digit_one zero h = refl
xor_digit_one (suc zero) h = refl
xor_digit_one (suc (suc b)) h = absurd (omega arith)

-- `x ^ (1 << k)` flips the digit at `k` of a word that is split there.
pub bit_xor_flips :
    (k q b r : ℕ)
    → b < 2
    → r < 2 ^ k
    → bit_xor (q * 2 ^ suc k + (b * 2 ^ k + r)) (2 ^ k) ≡ q * 2 ^ suc k + ((1 - b) * 2 ^ k + r)
bit_xor_flips k q b r hb hr =
    let one : 0 * 2 ^ suc k + (1 * 2 ^ k + 0) ≡ 2 ^ k = omega arith in
    let pow = pow-suc 2 k in
    let pos = one-le-pow k 2 (omega arith) in
    let small : b * 2 ^ k ≤ 2 ^ k = grind arith in
    ground (
      arith,
      bit_xor_fields (suc k) q (b * 2 ^ k + r) 0 (1 * 2 ^ k + 0) (omega arith) (omega arith),
      bit_xor_fields k b r 1 0 hr (omega arith),
      bit_xor-zero q q (omega arith),
      bit_xor-zero r r (omega arith),
      xor_digit_one b hb,
    )
