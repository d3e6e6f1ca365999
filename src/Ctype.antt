-- ===== src/Ctype.antt =====
-- kernel/kctype.h: the character classes, on bytes.
pub mod Classes
mod Tests
use sync_kernel.Prelude.{ℕ, Bool, ◌&&◌, ◌||◌, ◌==◌, ltb, leb}

abbrev pub between : ℕ → ℕ → ℕ → Bool
between lo hi c = leb lo c && leb c hi

abbrev pub isupper : ℕ → Bool
isupper c = between b'A' b'Z' c

abbrev pub islower : ℕ → Bool
islower c = between b'a' b'z' c

abbrev pub isdigit : ℕ → Bool
isdigit c = between b'0' b'9' c

abbrev pub isblank : ℕ → Bool
isblank c = (c == b' ') || (c == 9)

abbrev pub isspace : ℕ → Bool
isspace c = (c == b' ') || between 9 13 c

abbrev pub iscntrl : ℕ → Bool
iscntrl c = ltb c 0x20 || (c == 0x7f)

abbrev pub ispunct : ℕ → Bool
ispunct c = between 33 47 c || between 58 64 c || between 91 96 c || between 123 126 c

abbrev pub isalpha : ℕ → Bool
isalpha c = islower c || isupper c

abbrev pub isalnum : ℕ → Bool
isalnum c = isalpha c || isdigit c

abbrev pub isgraph : ℕ → Bool
isgraph c = isalnum c || ispunct c

abbrev pub isprint : ℕ → Bool
isprint c = isgraph c || (c == b' ')

abbrev pub isxdigit : ℕ → Bool
isxdigit c = isdigit c || between b'a' b'f' c || between b'A' b'F' c
