-- ===== src/Kstring/Search.antt =====
-- What the searches of kernel/kstring.c for one character return.
use sync_kernel.Prelude.{
  ℕ, zero, suc, ◌+◌, ◌-◌, ◌%◌, ◌≤◌, ◌<◌, ◌≡◌, refl, ◌≢◌, inl, inr, true, false, none, some, arith,
  ◌==◌, ltb, if◌then◌else◌, Bool-cases,
}
use native.Mathlib.Numerals.{add-one}
use sync_kernel.Kstring.{Bytes, repne_scasb, strchr, strrchr, strchrnul}
use sync_kernel.Kstring.Scan.{IsString, strlen_lem}

zero_right : (n : ℕ) → n + 0 ≡ n
zero_right n = omega arith

-- The first hit, at index `k`.
scan_up-hit :
    (p v n k : ℕ) (m : Bytes)
    → k < n
    → ((i : ℕ) → i < k → m (p + i) ≢ v)
    → m (p + k) ≡ v
    → repne_scasb false p v n m ≡ (p + k + 1, n - k - 1)
unfolding repne_scasb
scan_up-hit p v zero k m l b h = absurd (omega arith)
scan_up-hit p v (suc n) zero m l b h = let h' = rw (zero_right p) at h in ground arith
scan_up-hit p v (suc n) (suc k) m l b h =
    let first = rw (zero_right p) at (b 0 (omega arith)) in
    let up : (i : ℕ) → p + suc i ≡ p + 1 + i = λ i. omega arith in
    ground (
      arith,
      scan_up-hit (p + 1) v n k m (omega arith) (λ i q. rw (← up i) (b (suc i) (omega arith)))
          (rw (up k) at h),
    )

scan_up-miss :
    (p v n : ℕ) (m : Bytes)
    → ((i : ℕ) → i < n → m (p + i) ≢ v)
    → repne_scasb false p v n m ≡ (p + n, 0)
unfolding repne_scasb
scan_up-miss p v zero m b = ground arith
scan_up-miss p v (suc n) m b =
    let first = rw (zero_right p) at (b 0 (omega arith)) in
    let up : (i : ℕ) → p + suc i ≡ p + 1 + i = λ i. omega arith in
    ground (arith, scan_up-miss (p + 1) v n m (λ i q. rw (← up i) (b (suc i) (omega arith))))

-- Going down from index `j` the first hit is at index `k`.
scan_down-hit :
    (s v j k p : ℕ) (m : Bytes)
    → p ≡ s + j
    → k ≤ j
    → ((i : ℕ) → k < i → i ≤ j → m (s + i) ≢ v)
    → m (s + k) ≡ v
    → repne_scasb true p v (suc j) m ≡ (s + k - 1, k)
unfolding repne_scasb
scan_down-hit s v zero k p m e l b h = ground arith
scan_down-hit s v (suc j) k p m e l b h = elim (Bool-cases (k == suc j)) [
  | inl same ↦ ground arith
  | inr other ↦
      let ih =
        scan_down-hit s v j k (p - 1) m (omega arith) (ground arith) (λ i x y. b i x (omega arith))
          h in
      let miss = b (suc j) (ground arith) (omega arith) in ground (arith, ih)
]

module _ (fuel : ℕ) {m : Bytes} {s n : ℕ} (is : IsString m s n) (enough : n < fuel) (c k : ℕ)
    (here : m (s + k) ≡ c % 256) where
  -- `strchr` returns the address of the first byte of a string equal to the low byte of `c`, if
  -- that byte is a character, and null if it is the terminator, `strlen` having rounds for the
  -- string.
  strchr_first :
      k ≤ n
      → ((i : ℕ) → i < k → m (s + i) ≢ c % 256)
      → strchr fuel m s c ≡ some (if ltb k n then some (s + k) else none)
  unfolding strchr
  strchr_first l before =
      rw (strlen_lem fuel is enough, scan_up-hit s (c % 256) (n + 1) k m (omega arith) before here)
        (ground arith)

  -- `strchrnul` returns the address of the first byte of a string, terminator included, equal to
  -- the low byte of `c`, `strlen` having rounds for the string.
  strchrnul_first :
      k ≤ n → ((i : ℕ) → i < k → m (s + i) ≢ c % 256) → strchrnul fuel m s c ≡ some (s + k)
  unfolding strchrnul
  strchrnul_first l before =
      rw (strlen_lem fuel is enough, scan_up-hit s (c % 256) (n + 1) k m (omega arith) before here)
        (ground arith)

  -- `strrchr` returns the address of the last byte of a string, terminator included, equal to the
  -- low byte of `c`, if that is not the string's first byte, and null if it is, `strlen` having
  -- rounds for the string.
  pub strrchr_last :
      k ≤ n
      → ((i : ℕ) → k < i → i ≤ n → m (s + i) ≢ c % 256)
      → strrchr fuel m s c ≡ some (if ltb 0 k then some (s + k) else none)
  unfolding strrchr
  strrchr_last l after =
      rw
        (
          strlen_lem fuel is enough,
          add-one,
          scan_down-hit s (c % 256) n k (s + n) m refl l after here,
        )
        (ground arith)

-- Where no byte of a string, terminator included, equals the low byte of `c`, `strchr` returns
-- null and `strchrnul` the terminator's address, `strlen` having rounds for the string.
pub strchr_absent :
    (fuel : ℕ) {m : Bytes} {s n : ℕ} (c : ℕ)
    → IsString m s n
    → n < fuel
    → ((i : ℕ) → i ≤ n → m (s + i) ≢ c % 256)
    → (strchr fuel m s c ≡ some none) × (strchrnul fuel m s c ≡ some (s + n))
unfolding strchr strchrnul
strchr_absent fuel {m} {s} {n} c is enough none_here =
    let e = scan_up-miss s (c % 256) (n + 1) m (λ i l. none_here i (omega arith)) in
    (rw (strlen_lem fuel is enough, e), rw (strlen_lem fuel is enough, e) (ground arith))
