-- ===== src/Log/Plain.antt =====
-- Texts without a conversion through kernel/printk.c.
use sync_kernel.Prelude.{
  Option, Option-cases, ◌>>=◌, ℕ, zero, suc, ◌+◌, ◌-◌, ◌<◌, ◌≤◌, ◌≡◌, refl, sym, ap, ◌∙◌, Bool,
  true, false, ◌&&◌, not, none, some, List, [], ◌∷◌, ◌++◌, length, arith, ◌==◌, ltb, leb,
  if◌then◌else◌, min, Bool-cases, inl, inr,
}
use mathlib.Core.List.{append_assoc, append-nil}
use sync_kernel.Console.{Console, con_write_byte, write_loop, kcon_write}
use sync_kernel.Stdio.Format.{Arg, Out, put}
use sync_kernel.Stdio.Vsprintf.{format_loop, vsprintf}
use sync_kernel.Log.{buf_size, first, printk, codes, panic_line, panic}

-- No byte of the text is a percent sign.
abbrev pub is_plain : List ℕ → Bool
is_plain [] = true
is_plain (c ∷ cs) = not (c == b'%') && is_plain cs

format_plain :
    (fuel : ℕ) (cs : List ℕ) (args : List Arg) (out : Out)
    → is_plain cs ≡ true
    → length cs < fuel
    → format_loop fuel cs args out ≡ some (record out { chars = out.chars ++ cs })
unfolding format_loop
format_plain zero cs args out plain enough = absurd (omega arith)
format_plain (suc fuel) [] args out plain enough =
    ap (λ cs. some (record out { chars = cs })) (sym (append-nil out.chars))
format_plain (suc fuel) (c ∷ cs) args out plain enough =
    let other : (c == b'%') ≡ false = ground arith in
    let rest : is_plain cs ≡ true = ground arith in
    rw other (
      format_plain fuel cs args (put out (c ∷ [])) rest (omega arith)
      ∙ ap (λ chars. some (record out { chars = chars })) (append_assoc out.chars (c ∷ []) cs))

vsprintf_plain :
    (fuel : ℕ) (cs : List ℕ) (args : List Arg)
    → is_plain cs ≡ true
    → length cs < fuel
    → vsprintf fuel cs args ≡ some (record { chars = cs; stores = [] })
unfolding vsprintf
vsprintf_plain fuel cs args plain enough =
    format_plain fuel cs args (record { chars = []; stores = [] }) plain enough

first_all : (n : ℕ) (cs : List ℕ) → length cs ≤ n → first n cs ≡ cs
first_all zero [] h = refl
first_all zero (c ∷ cs) h = absurd (omega arith)
first_all (suc n) [] h = refl
first_all (suc n) (c ∷ cs) h = ap (c ∷◌) (first_all n cs (omega arith))

-- What printing has left, and the console that `kcon_write` leaves.
abbrev pub printed : ℕ → Option (Option ℕ × Console) → Option (ℕ × List (ℕ × ℕ) × Console)
printed n o = do (_, con) ← o; some (n, [], con)

abbrev pub console_of : Option (Option ℕ × Console) → Option Console
console_of o = do (_, con) ← o; some con

write_nothing : (con : Console) → kcon_write con (some []) ≡ some (some 0, con)
unfolding kcon_write write_loop
write_nothing con = refl

-- What the log writes to the console of a text that fits the buffer.
logged :
    (level : ℕ) (con : Console) (lvl : ℕ) (cs : List ℕ)
    → length cs < buf_size
    → (if ltb 0 (length cs) && leb lvl level
        then printed (length cs) (kcon_write con (some (first (min (length cs) (buf_size - 1)) cs)))
        else some (length cs, [], con))
      ≡ (if leb lvl level
          then printed (length cs) (kcon_write con (some cs))
          else some (length cs, [], con))
logged level con lvl [] fits = elim (Bool-cases (leb lvl level)) [
  | inl e ↦ rw (e, write_nothing con) refl
  | inr e ↦ rw e refl
]
logged level con lvl (c ∷ cs) fits =
    let clipped : min (length (c ∷ cs)) (buf_size - 1) ≡ length (c ∷ cs) = omega arith in
    let whole = first_all (length (c ∷ cs)) (c ∷ cs) (omega arith) in
    let some_bytes : ltb 0 (length (c ∷ cs)) ≡ true = ground arith in
    rw (some_bytes, clipped, whole) refl

-- A text without a percent sign that fits its buffer with the terminator is written to the console
-- whole, where its level is logged; a longer one is undefined.
pub printk_plain :
    (fuel level : ℕ) (con : Console) (lvl : ℕ) (cs : List ℕ) (args : List Arg)
    → is_plain cs ≡ true
    → length cs < fuel
    → printk fuel level con lvl cs args ≡ (
        if ltb (length cs) buf_size
        then if leb lvl level
          then printed (length cs) (kcon_write con (some cs))
          else some (length cs, [], con)
        else none)
unfolding printk
printk_plain fuel level con lvl cs args plain enough =
    rw (vsprintf_plain fuel cs args plain enough) (elim (Bool-cases (ltb (length cs) buf_size)) [
      | inl fits ↦
          let small : ltb buf_size (length cs + 1) ≡ false = ground arith in
          rw (fits, small) (logged level con lvl cs (ground arith))
      | inr long ↦
          let large : ltb buf_size (length cs + 1) ≡ true = ground arith in rw (long, large) refl
    ])

write_loop-append :
    (a b : List ℕ) (n : ℕ) (c : Console)
    → write_loop n c (a ++ b) ≡ (do (k, c') ← write_loop n c a; write_loop k c' b)
unfolding write_loop
write_loop-append [] b n c = refl
write_loop-append (ch ∷ a) b n c = elim (Option-cases (con_write_byte c ch)) [
  | inl e ↦ rw e refl
  | inr ((k, c'), e) ↦ rw e (write_loop-append a b (n + k) c')
]

-- The console does not depend on what was counted before.
write_loop-console :
    (a : List ℕ) (n k : ℕ) (c : Console)
    → (do (_, c') ← write_loop n c a; some c') ≡ (do (_, c') ← write_loop k c a; some c')
unfolding write_loop
write_loop-console [] n k c = refl
write_loop-console (ch ∷ a) n k c = elim (Option-cases (con_write_byte c ch)) [
  | inl e ↦ rw e refl
  | inr ((i, c'), e) ↦ rw e (write_loop-console a (n + i) (k + i) c')
]

console_of-write :
    (c : Console) (a : List ℕ)
    → console_of (kcon_write c (some a)) ≡ (do (_, c') ← write_loop 0 c a; some c')
unfolding kcon_write
console_of-write c a = elim (Option-cases (write_loop 0 c a)) [
  | inl e ↦ rw e refl
  | inr ((i, c'), e) ↦ rw e refl
]

-- Two texts written one after the other.
kcon_write-append :
    (c : Console) (a b : List ℕ)
    → (do c' ← console_of (kcon_write c (some a)); console_of (kcon_write c' (some b)))
      ≡ console_of (kcon_write c (some (a ++ b)))
kcon_write-append c a b =
    rw (console_of-write c a, console_of-write c (a ++ b), write_loop-append a b 0 c)
      (elim (Option-cases (write_loop 0 c a)) [
        | inl e ↦ rw e refl
        | inr ((i, c'), e) ↦ rw e (console_of-write c' b ∙ write_loop-console b 0 i c')
      ])

-- What a panic does with each of its texts.
error_plain :
    (fuel level : ℕ) (con : Console) (cs : List ℕ)
    → is_plain cs ≡ true
    → length cs < fuel
    → length cs < buf_size
    → printk fuel level con 0 cs [] ≡ printed (length cs) (kcon_write con (some cs))
error_plain fuel level con cs plain enough fits =
    let logs : leb 0 level ≡ true = ground arith in
    let small : ltb (length cs) buf_size ≡ true = ground arith in
    printk_plain fuel level con 0 cs [] plain enough ∙ rw (small, logs) refl

-- Whatever is logged, a panic with a text that has no percent sign and fits the log's buffer writes
-- the text, a line feed and the panic line to the console: it ends with the console that this leaves,
-- or at the null pointer that this reads through.
pub panic_lem :
    (fuel level : ℕ) (con : Console) (msg : List ℕ)
    → is_plain msg ≡ true
    → length msg < fuel
    → 26 < fuel
    → length msg < buf_size
    → panic fuel level con msg
      ≡ console_of (kcon_write con (some ((msg ++ codes "\n") ++ codes panic_line)))
unfolding panic
panic_lem fuel level con msg plain enough room fits =
    let nl = codes "\n" in
    let line = codes panic_line in
    let whole =
      sym (kcon_write-append con (msg ++ nl) line)
      ∙ ap (λ o. do c' ← o; console_of (kcon_write c' (some line)))
          (sym (kcon_write-append con msg nl)) in
    rw (whole, error_plain fuel level con msg plain enough fits)
      (elim (Option-cases (kcon_write con (some msg))) [
        | inl e ↦ rw e refl
        | inr ((n, con_a), e) ↦
            rw (e, error_plain fuel level con_a nl refl (omega arith) (omega arith))
              (elim (Option-cases (kcon_write con_a (some nl))) [
                | inl f ↦ rw f refl
                | inr ((k, con_b), f) ↦
                    rw (f, error_plain fuel level con_b line refl (omega arith) (omega arith))
                      (elim (Option-cases (kcon_write con_b (some line))) [
                        | inl g ↦ rw g refl
                        | inr (r, g) ↦ rw g refl
                      ])
              ])
      ])
