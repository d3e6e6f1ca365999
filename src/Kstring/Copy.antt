-- ===== src/Kstring/Copy.antt =====
-- What the block operations of kernel/kstring.c leave in memory.
use sync_kernel.Prelude.{
  ℕ, zero, suc, ◌+◌, ◌-◌, ◌%◌, ◌≤◌, ◌<◌, ◌≡◌, ◌∙◌, ◌≢◌, ◌⊎◌, Bool, ◌&&◌, some, arith, ltb, leb,
  if◌then◌else◌, update,
}
use sync_kernel.Kstring.{
  Bytes, rep_movsb, rep_stosb, memcpy, mempcpy, memccpy, memset, copy_up, copy_down, memmove,
}

-- Whether `a` is one of the `n` addresses from `d` on.
abbrev pub inside : ℕ → ℕ → ℕ → Bool
inside d n a = leb d a && ltb a (d + n)

-- Memory after the `n` bytes at `s` have been copied, all at once, to `d`.
abbrev pub Copied : ℕ → ℕ → ℕ → Bytes → Bytes → Type 0
Copied d s n m m' = (a : ℕ) → m' a ≡ (if inside d n a then m (s + (a - d)) else m a)

copy_up_lem :
    (d s i k : ℕ) (m : Bytes) (a : ℕ)
    → d ≤ s
    → copy_up d s i k m a ≡ (if inside (d + i) k a then m (s + (a - d)) else m a)
unfolding copy_up
copy_up_lem d s i zero m a h = ground arith
copy_up_lem d s i (suc k) m a h =
    ground (arith, copy_up_lem d s (i + 1) k (update m (d + i) (m (s + i))) a h)

copy_down_lem :
    (d s n : ℕ) (m : Bytes) (a : ℕ)
    → s ≤ d
    → copy_down d s n m a ≡ (if inside d n a then m (s + (a - d)) else m a)
unfolding copy_down
copy_down_lem d s zero m a h = ground arith
copy_down_lem d s (suc n) m a h =
    ground (arith, copy_down_lem d s n (update m (d + n) (m (s + n))) a h)

rep_movsb_lem :
    (d s n : ℕ) (m : Bytes) (a : ℕ)
    → (d ≤ s) ⊎ (s + n ≤ d)
    → (rep_movsb d s n m).mem a ≡ (if inside d n a then m (s + (a - d)) else m a)
unfolding rep_movsb
rep_movsb_lem d s zero m a h = ground arith
rep_movsb_lem d s (suc n) m a h =
    ground (arith, rep_movsb_lem (d + 1) (s + 1) n (update m d (m s)) a)

rep_stosb_lem :
    (d c n : ℕ) (m : Bytes) (a : ℕ) → (rep_stosb d c n m).mem a ≡ (if inside d n a then c else m a)
unfolding rep_stosb
rep_stosb_lem d c zero m a = ground arith
rep_stosb_lem d c (suc n) m a = ground (arith, rep_stosb_lem (d + 1) c n (update m d c) a)

-- `memmove` copies the `n` bytes at `src` to `dest` as if through a buffer, whatever the overlap,
-- and changes no other byte.
pub memmove-Copied : (d s n : ℕ) (m : Bytes) → Copied d s n m (memmove d s n m)
unfolding memmove
memmove-Copied d s n m a = ground (arith, copy_up_lem d s 0 n m a, copy_down_lem d s n m a)

-- `memcpy` copies the `n` bytes at `src` to `dest` and changes no other byte, where the source
-- does not reach into the destination from below.
memcpy-Copied : (d s n : ℕ) (m : Bytes) → (d ≤ s) ⊎ (s + n ≤ d) → Copied d s n m (memcpy d s n m)
unfolding memcpy
memcpy-Copied d s n m h a = rep_movsb_lem d s n m a h

-- `mempcpy` leaves the same memory.
pub mempcpy-Copied :
    (d s n : ℕ) (m : Bytes) → (d ≤ s) ⊎ (s + n ≤ d) → Copied d s n m (mempcpy d s n m).1
unfolding mempcpy
mempcpy-Copied d s n m h a = rep_movsb_lem d s n m a h

-- `memset` writes the low byte of `c` to the `n` addresses from `d` on, and nothing else.
pub memset_lem :
    (d c n : ℕ) (m : Bytes) (a : ℕ) → memset d c n m a ≡ (if inside d n a then c % 256 else m a)
unfolding memset
memset_lem d c n m a = rep_stosb_lem d (c % 256) n m a

-- One round of `memccpy` that goes on leaves the rest of the source as it was.
memccpy_step :
    (d s c n : ℕ) (m : Bytes)
    → m s ≢ c % 256
    → memccpy d s c (suc n) m ≡ memccpy (d + 1) (s + 1) c n (update m d (m s))
unfolding memccpy
memccpy_step d s c n m miss = ground arith

memccpy_hit :
    (d s c n : ℕ) (m : Bytes)
    → m s ≡ c % 256
    → memccpy d s c (suc n) m ≡ (some (d + 1), update m d (m s))
unfolding memccpy
memccpy_hit d s c n m hit = ground arith

-- `memccpy` copies the bytes up to and with the first one that equals the low byte of `c`, changes
-- no other byte, and returns the address behind it in the destination, where that byte is among
-- the `n` at the source and the source does not reach into the destination from below.
memccpy_stops :
    (d s c n k : ℕ) (m : Bytes)
    → (d ≤ s) ⊎ (s + n ≤ d)
    → k < n
    → ((i : ℕ) → i < k → m (s + i) ≢ c % 256)
    → m (s + k) ≡ c % 256
    → ((memccpy d s c n m).0 ≡ some (d + k + 1)) × Copied d s (k + 1) m (memccpy d s c n m).1
memccpy_stops d s c zero k m apart h before hit = absurd (omega arith)
memccpy_stops d s c (suc n) zero m apart h before hit =
    let e : s + 0 ≡ s = omega arith in
    rw (memccpy_hit d s c n m (rw e at hit)) (ground arith, λ a. ground arith)
memccpy_stops d s c (suc n) (suc k) m apart h before hit =
    let e : s + 0 ≡ s = omega arith in
    let first = before 0 (omega arith) in
    let m' = update m d (m s) in
    let same : (i : ℕ) → i < n → m' (s + 1 + i) ≡ m (s + suc i) = λ i l. ground (arith) in
    let ih =
      memccpy_stops (d + 1) (s + 1) c n k m' (ground arith) (omega arith)
        (λ i l. rw (same i (omega arith)) (before (suc i) (omega arith)))
        (same k (omega arith) ∙ hit) in
    rw (memccpy_step d s c n m (rw e at first)) (ground (arith, ih.0), λ a. ground (arith, ih.1 a))
