-- ===== src/Kstring.antt =====
-- kernel/kstring.c over the string instructions of kernel/include/str_io.h.
-- Memory is a map from addresses to bytes, and no buffer wraps round the end of the address
-- space. A loop that stops at a terminator takes fuel, and gives `none` when it runs out.
pub mod Copy
pub mod Scan
pub mod Search
pub mod Strings
mod Tests
use sync_kernel.Prelude.{
  ◌>>=◌, ℕ, zero, suc, ◌+◌, ◌-◌, ◌%◌, Bool, true, false, Option, none, some, ◌==◌, ltb,
  if◌then◌else◌, update,
}

abbrev pub Bytes : Type 0
Bytes = ℕ → ℕ

-- What a string instruction leaves: the pointer (`rdi`), the count (`rcx`) and memory.
pub record Moved : Type 0 where
  pub dest : ℕ
  pub remaining : ℕ
  pub mem : Bytes

-- The instructions step up, or down after `std`.
abbrev pub advance : Bool → ℕ → ℕ
advance down p = if down then p - 1 else p + 1

-- `rep movsb` with the direction flag clear
unfoldable pub rep_movsb : ℕ → ℕ → ℕ → Bytes → Moved
rep_movsb dest src zero m = record { dest = dest; remaining = 0; mem = m }
rep_movsb dest src (suc n) m = rep_movsb (dest + 1) (src + 1) n (update m dest (m src))

-- `rep stosb` with the direction flag clear
unfoldable pub rep_stosb : ℕ → ℕ → ℕ → Bytes → Moved
rep_stosb dest c zero m = record { dest = dest; remaining = 0; mem = m }
rep_stosb dest c (suc n) m = rep_stosb (dest + 1) c n (update m dest c)

-- `repne scasb`: the pointer behind the last byte compared, and the count left.
unfoldable pub repne_scasb : Bool → ℕ → ℕ → ℕ → Bytes → ℕ × ℕ
repne_scasb down p v zero m = (p, 0)
repne_scasb down p v (suc n) m =
    let rest = repne_scasb down (advance down p) v n m in
    if m p == v then (advance down p, n) else rest

strlen_loop : ℕ → Bytes → ℕ → ℕ → Option ℕ
strlen_loop zero m str len = none
strlen_loop (suc fuel) m str len =
    let rest = strlen_loop fuel m (str + 1) (len + 1) in if m str == 0 then some len else rest

unfoldable pub strlen : ℕ → Bytes → ℕ → Option ℕ
unfolding strlen_loop
strlen fuel m str = strlen_loop fuel m str 0

-- The rounds left bound the loop, since `i` only grows towards `maxlen`.
strnlen_loop : ℕ → Bytes → ℕ → ℕ → ℕ
strnlen_loop zero m str i = i
strnlen_loop (suc k) m str i =
    let rest = strnlen_loop k m str (i + 1) in if m (str + i) == 0 then i else rest

unfoldable pub strnlen : Bytes → ℕ → ℕ → ℕ
unfolding strnlen_loop
strnlen m str maxlen = strnlen_loop maxlen m str 0

-- Functions that return their destination give memory alone.
unfoldable pub memcpy : ℕ → ℕ → ℕ → Bytes → Bytes
unfolding rep_movsb
memcpy dest src n m = (rep_movsb dest src n m).mem

-- The pointer that `mempcpy` returns is `dest`, as the code has it.
unfoldable pub mempcpy : ℕ → ℕ → ℕ → Bytes → ℕ × Bytes
unfolding rep_movsb
mempcpy dest src n m = (dest, (rep_movsb dest src n m).mem)

-- `none` beside memory is the null pointer.
unfoldable pub memccpy : ℕ → ℕ → ℕ → ℕ → Bytes → Option ℕ × Bytes
memccpy d s c zero m = (none, m)
memccpy d s c (suc n) m =
    let m' = update m d (m s) in
    let rest = memccpy (d + 1) (s + 1) c n m' in if m s == c % 256 then (some (d + 1), m') else rest

unfoldable pub memset : ℕ → ℕ → ℕ → Bytes → Bytes
unfolding rep_stosb
memset s c n m = (rep_stosb s (c % 256) n m).mem

-- for (i = 0; i < n; i++) destination[i] = source[i]
copy_up : ℕ → ℕ → ℕ → ℕ → Bytes → Bytes
copy_up dest src i zero m = m
copy_up dest src i (suc k) m = copy_up dest src (i + 1) k (update m (dest + i) (m (src + i)))

-- for (i = n; i != 0; i--) destination[i - 1] = source[i - 1]
copy_down : ℕ → ℕ → ℕ → Bytes → Bytes
copy_down dest src zero m = m
copy_down dest src (suc i) m = copy_down dest src i (update m (dest + i) (m (src + i)))

unfoldable pub memmove : ℕ → ℕ → ℕ → Bytes → Bytes
unfolding copy_up copy_down
memmove dest src n m =
    if dest == src
    then m
    else if n == 0
    then m
    else if ltb dest src
    then copy_up dest src 0 n m
    else if ltb src dest
    then copy_down dest src n m
    else m

-- A pointer into the destination, and memory.
unfoldable pub stpcpy : ℕ → ℕ → ℕ → Bytes → Option (ℕ × Bytes)
unfolding strlen mempcpy
stpcpy fuel dest src m = do
  len ← strlen fuel m src
  let (s, m') = mempcpy dest src len m
  some (s, update m' s 0)

unfoldable pub strcpy : ℕ → ℕ → ℕ → Bytes → Option Bytes
unfolding stpcpy
strcpy fuel dest src m = do (_, m') ← stpcpy fuel dest src m; some m'

unfoldable pub strcat : ℕ → ℕ → ℕ → Bytes → Option Bytes
unfolding stpcpy
strcat fuel dest src m = do
  len ← strlen fuel m dest
  (_, m') ← stpcpy fuel (dest + len) src m
  some m'

-- `empty` is where the literal `""` stands.
unfoldable pub strncat : ℕ → ℕ → ℕ → ℕ → ℕ → Bytes → Option Bytes
unfolding stpcpy memcpy strnlen
strncat fuel empty dst src ssize m = do
  len ← strlen fuel m dst
  (_, m') ← stpcpy fuel (dst + len) empty (memcpy (dst + len) src (strnlen m src ssize) m)
  some m'

unfoldable pub stpncpy : ℕ → ℕ → ℕ → Bytes → ℕ × Bytes
unfolding strnlen mempcpy memset
stpncpy dest src dsize m =
    let len = strnlen m src dsize in
    let (p, m') = mempcpy dest src len m in (p, memset p 0 (dsize - len) m')

unfoldable pub strncpy : ℕ → ℕ → ℕ → Bytes → Bytes
unfolding stpncpy
strncpy dest src dsize m = (stpncpy dest src dsize m).1

-- The outer `none` is exhausted fuel, the inner one the null pointer.
unfoldable pub strchr : ℕ → Bytes → ℕ → ℕ → Option (Option ℕ)
unfolding strlen repne_scasb
strchr fuel m s c = do
  len ← strlen fuel m s
  let (end, remaining) = repne_scasb false s (c % 256) (len + 1) m
  some (if remaining == 0 then none else some (end - 1))

unfoldable pub strrchr : ℕ → Bytes → ℕ → ℕ → Option (Option ℕ)
unfolding strlen repne_scasb
strrchr fuel m s c = do
  strsz ← strlen fuel m s
  let (end, remaining) = repne_scasb true (s + strsz) (c % 256) (strsz + 1) m
  some (if remaining == 0 then none else some (end + 1))

unfoldable pub strchrnul : ℕ → Bytes → ℕ → ℕ → Option ℕ
unfolding strlen repne_scasb
strchrnul fuel m s c = do
  len ← strlen fuel m s
  let (end, _) = repne_scasb false s (c % 256) (len + 1) m
  some (end - 1)
