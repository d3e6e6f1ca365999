-- ===== src/Stdio/Digits.antt =====
-- The digits that `str_num` of kernel/stdio.c prints, read back by its `atoi_bit`.
use sync_kernel.Prelude.{
  ℕ, zero, suc, ◌+◌, ◌-◌, ◌*◌, ◌/◌, ◌%◌, ◌^◌, ◌<◌, ◌≡◌, refl, ap, ◌∙◌, inl, inr, Bool, true, false,
  some, ltb, ◌&&◌, not, List, [], ◌∷◌, ◌++◌, length, arith, ◌==◌, leb, Bool-cases, holds_below,
  holds_below-at,
}
use Prim.Native.Nat.{max}
use mathlib.Core.List.{append-nil}
use native.Mathlib.Nat.{pow-suc}
use sync_kernel.Prelude.Int.{pos, negsuc, sub_ℕ}
use sync_kernel.Ctype.{isdigit}
use sync_kernel.Stdio.{
  no_flags, base_dec, atoi_loop, atoi_bit, digit_char, digit_loop, backwards, str_num, pad_with,
  number_text, sign_char, prefix_text, spec_width,
}

decimal_table :
    holds_below (λ i. (digit_char true i == b'0' + i) && (digit_char false i == b'0' + i)) 10 ≡ true
unfolding holds_below digit_char
decimal_table = refl

digit_char_decimal : (lower : Bool) (i : ℕ) → i < 10 → digit_char lower i ≡ b'0' + i
digit_char_decimal lower i h =
    let t =
      holds_below-at (λ i. (digit_char true i == b'0' + i) && (digit_char false i == b'0' + i)) 10 i
        decimal_table h in
    digit lower t
  where
    digit :
        (l : Bool)
        → ((digit_char true i == b'0' + i) && (digit_char false i == b'0' + i)) ≡ true
        → digit_char l i ≡ b'0' + i
    digit true e = ground arith
    digit false e = ground arith

atoi_loop-digit :
    (i d : ℕ) (out : List ℕ)
    → d < 10
    → i * 10 + d < 2 ^ 63
    → atoi_loop i ((b'0' + d) ∷ out) ≡ atoi_loop (i * 10 + d) out
unfolding atoi_loop
atoi_loop-digit i d out h small =
    let e : b'0' + d - b'0' ≡ d = omega arith in
    let fits : ltb (i * 10 + d) (2 ^ 63) ≡ true = ground arith in
    let digit : isdigit (b'0' + d) ≡ true = ground arith in rw (digit, e, fits) refl

atoi_loop-digit_loop :
    (k n : ℕ) (lower : Bool) (out : List ℕ)
    → n < 10 ^ k
    → n < 2 ^ 63
    → atoi_loop 0 (backwards (digit_loop k lower 10 n) out) ≡ atoi_loop n out
unfolding digit_loop
atoi_loop-digit_loop zero n lower out h small =
    let e : 0 ≡ n = omega arith in ap (λ (i : ℕ). atoi_loop i out) e
atoi_loop-digit_loop (suc k) n lower out h small =
    let d : digit_char lower (n % 10) ≡ b'0' + n % 10 =
      digit_char_decimal lower (n % 10) (omega arith) in
    elim (Bool-cases (n / 10 == 0)) [
      | inl last ↦
          rw (d, last)
            (atoi_loop-digit 0 (n % 10) out (omega arith) (omega arith)
              ∙ ap (λ (i : ℕ). atoi_loop i out) (ground arith))
      | inr more ↦
          rw (d, more)
            (atoi_loop-digit_loop k (n / 10) lower ((b'0' + n % 10) ∷ out)
                (omega (arith, pow-suc 10 k)) (omega arith)
              ∙ (atoi_loop-digit (n / 10) (n % 10) out (omega arith) (omega arith)
                  ∙ ap (λ (i : ℕ). atoi_loop i out) (omega arith)))
    ]

-- Whether a text does not go on with a digit.
abbrev pub ends_number : List ℕ → Bool
ends_number [] = true
ends_number (c ∷ out) = not (isdigit c)

atoi_loop-ends : (n : ℕ) (out : List ℕ) → ends_number out ≡ true → atoi_loop n out ≡ some (n, out)
unfolding atoi_loop
atoi_loop-ends n [] h = refl
atoi_loop-ends n (c ∷ out) h = ground arith

backwards-append : (xs ys zs : List ℕ) → backwards xs ys ++ zs ≡ backwards xs (ys ++ zs)
backwards-append [] ys zs = refl
backwards-append (x ∷ xs) ys zs = backwards-append xs (x ∷ ys) zs

-- Nothing is padded in a field of width 0.
no_room :
    (m : ℕ)
    → let (lead, a) = pad_with b' ' (sub_ℕ 0 m) in
      let (fill, b) = pad_with b' ' a in (lead ≡ []) × (fill ≡ []) × ((pad_with b' ' b).0 ≡ [])
no_room zero = (refl, refl, refl)
no_room (suc m) = let e : leb (suc m) 0 ≡ false = ground arith in rw e (refl, refl, refl)

number_text_plain :
    (n : ℕ) (lower : Bool)
    → number_text (record no_flags { lower = lower }) false n 10 (negsuc 0)
      ≡ digit_loop 64 lower 10 n
unfolding number_text
number_text_plain n lower = ground arith

str_num_plain :
    (n : ℕ) (lower : Bool)
    → str_num n false base_dec (pos 0) (negsuc 0) (record no_flags { lower = lower })
      ≡ backwards (digit_loop 64 lower 10 n) []
unfolding str_num sign_char prefix_text spec_width
str_num_plain n lower =
    let tmp = digit_loop 64 lower 10 n in
    let room = no_room (max (length tmp) 0) in
    let none_left : max (length tmp) 0 - length tmp ≡ 0 = omega arith in
    simp (number_text_plain n lower, room.0, room.1, room.2, none_left, append-nil)

-- A number below 2 ^ 63 printed by `str_num` in decimal, with no option but the letter case, reads
-- back by `atoi_bit` as itself, with what stood behind it left over, as long as that does not
-- begin with a digit.
pub atoi_bit-str_num :
    (n : ℕ) (lower : Bool) (rest : List ℕ)
    → n < 2 ^ 63
    → ends_number rest ≡ true
    → atoi_bit
        (str_num n false base_dec (pos 0) (negsuc 0) (record no_flags { lower = lower }) ++ rest)
      ≡ some (n, rest)
unfolding atoi_bit
atoi_bit-str_num n lower rest h e =
    rw (str_num_plain n lower, backwards-append (digit_loop 64 lower 10 n) [] rest)
      (atoi_loop-digit_loop 64 n lower rest (omega arith) h ∙ atoi_loop-ends n rest e)
