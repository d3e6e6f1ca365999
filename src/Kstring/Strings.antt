-- ===== src/Kstring/Strings.antt =====
-- What the string copies of kernel/kstring.c leave.
use sync_kernel.Prelude.{ℕ, ◌+◌, ◌-◌, ◌≤◌, ◌<◌, ◌≡◌, ◌⊎◌, some, arith, if◌then◌else◌, update, min}
use sync_kernel.Kstring.{Bytes, stpcpy, strcpy, strcat, stpncpy, strncpy, mempcpy}
use sync_kernel.Kstring.Scan.{IsString, strlen_lem, strnlen-min}
use sync_kernel.Kstring.Copy.{inside, mempcpy-Copied, memset_lem}

-- The address `stpcpy` writes the terminator to is the first of the destination.
stpcpy_lem :
    (fuel : ℕ) {m : Bytes} {src n : ℕ} (dest : ℕ)
    → IsString m src n
    → n < fuel
    → stpcpy fuel dest src m ≡ some (dest, update (mempcpy dest src n m).1 dest 0)
unfolding stpcpy mempcpy
stpcpy_lem fuel dest is enough = rw (strlen_lem fuel is enough)

-- `strcpy` of a string leaves the empty string at the destination, whatever the string, `strlen`
-- having rounds for it.
strcpy-empty :
    (fuel : ℕ) {m : Bytes} {src n : ℕ} (dest : ℕ)
    → IsString m src n
    → n < fuel
    → (m' : Bytes) × (strcpy fuel dest src m ≡ some m') × IsString m' dest 0
unfolding strcpy
strcpy-empty fuel {m} {src} {n} dest is enough = (
  update (mempcpy dest src n m).1 dest 0,
  rw (stpcpy_lem fuel dest is enough),
  record { chars = λ i l. absurd (omega arith); ends = ground arith },
)

-- `strcat` appends nothing: the destination is the string that it was, where the source does not
-- overlap it in part from below, and `strlen` has rounds for both.
strcat_keeps :
    (fuel : ℕ) {m : Bytes} {dest k src n : ℕ}
    → IsString m dest k
    → IsString m src n
    → k < fuel
    → n < fuel
    → (dest + k ≤ src) ⊎ (src + n ≤ dest + k)
    → (m' : Bytes) × (strcat fuel dest src m ≡ some m') × ((a : ℕ) → a < dest + k + 1 → m' a ≡ m a)
unfolding strcat
strcat_keeps fuel {m} {dest} {k} {src} {n} to from f g apart = (
  update (mempcpy (dest + k) src n m).1 (dest + k) 0,
  rw (strlen_lem fuel to f, stpcpy_lem fuel (dest + k) from g),
  λ a l. ground (arith, to.ends, mempcpy-Copied (dest + k) src n m apart a),
)

-- `strncpy` of a string zeroes the first `dsize - len` bytes of the destination, `len` the smaller
-- of the string's length and `dsize`, leaves in the rest of the first `len` what it copied there,
-- and changes nothing else, where the source does not reach into the destination from below.
strncpy_lem :
    {m : Bytes} {src n : ℕ} (dest dsize a : ℕ)
    → IsString m src n
    → (dest ≤ src) ⊎ (src + min n dsize ≤ dest)
    → strncpy dest src dsize m a ≡ (
        if inside dest (dsize - min n dsize) a
        then 0
        else if inside dest (min n dsize) a
        then m (src + (a - dest))
        else m a)
unfolding strncpy stpncpy mempcpy
strncpy_lem {m} {src} {n} dest dsize a is apart =
    rw (strnlen-min dsize is, memset_lem)
      (ground (arith, mempcpy-Copied dest src (min n dsize) m apart a))
