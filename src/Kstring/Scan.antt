-- ===== src/Kstring/Scan.antt =====
-- What the string scans of kernel/kstring.c find.
use sync_kernel.Prelude.{ℕ, zero, suc, ◌+◌, ◌<◌, ◌≡◌, ap, ◌∙◌, ◌≢◌, some, arith, min}
use sync_kernel.Kstring.{Bytes, strlen_loop, strlen, strnlen_loop, strnlen}

-- At `s` stands a string of `n` characters and its terminator.
pub record IsString (m : Bytes) (s n : ℕ) : Type 0 where
  pub chars : (i : ℕ) → i < n → m (s + i) ≢ 0
  pub ends : m (s + n) ≡ 0

strlen_loop_lem :
    (fuel s n len : ℕ) (m : Bytes)
    → ((i : ℕ) → i < n → m (s + i) ≢ 0)
    → m (s + n) ≡ 0
    → n < fuel
    → strlen_loop fuel m s len ≡ some (len + n)
unfolding strlen_loop
strlen_loop_lem zero s n len m c e f = absurd (omega arith)
strlen_loop_lem (suc fuel) s zero len m c e f =
    let e' : s + 0 ≡ s = omega arith in let g = rw e' at e in ground arith
strlen_loop_lem (suc fuel) s (suc n) len m c e f =
    let e' : s + 0 ≡ s = omega arith in
    let first = rw e' at (c 0 (omega arith)) in
    let up : (i : ℕ) → s + suc i ≡ s + 1 + i = λ i. omega arith in
    ground (
      arith,
      strlen_loop_lem fuel (s + 1) n (len + 1) m (λ i l. rw (← up i) (c (suc i) (omega arith)))
          (rw (up n) at e) (omega arith),
    )

-- `strlen` finds the length of a string, if it has more rounds than the string has characters.
pub strlen_lem :
    (fuel : ℕ) {m : Bytes} {s n : ℕ} → IsString m s n → n < fuel → strlen fuel m s ≡ some n
unfolding strlen
strlen_lem fuel {m} {s} {n} is f =
    strlen_loop_lem fuel s n 0 m is.chars is.ends f ∙ ap some (omega arith)

strnlen_loop_lem :
    (k s i n : ℕ) (m : Bytes)
    → ((j : ℕ) → j < i + n → m (s + j) ≢ 0)
    → m (s + (i + n)) ≡ 0
    → strnlen_loop k m s i ≡ i + min n k
unfolding strnlen_loop
strnlen_loop_lem zero s i n m c e = omega arith
strnlen_loop_lem (suc k) s i zero m c e =
    let e' : i + 0 ≡ i = omega arith in let g = rw e' at e in ground arith
strnlen_loop_lem (suc k) s i (suc n) m c e =
    let up : i + suc n ≡ i + 1 + n = omega arith in
    let here = c i (omega arith) in
    ground (arith, strnlen_loop_lem k s (i + 1) n m (λ j l. c j (omega arith)) (rw up at e))

zero_add : (n : ℕ) → 0 + n ≡ n
zero_add n = omega arith

-- `strnlen` is the smaller of a string's length and the bound.
pub strnlen-min :
    {m : Bytes} {s n : ℕ} (maxlen : ℕ) → IsString m s n → strnlen m s maxlen ≡ min n maxlen
unfolding strnlen
strnlen-min {m} {s} {n} maxlen is =
    strnlen_loop_lem maxlen s 0 n m (λ j l. is.chars j (omega arith)) (rw zero_add is.ends)
    ∙ omega arith
