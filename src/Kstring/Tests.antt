-- ===== src/Kstring/Tests.antt =====
-- Runs of kernel/kstring.c on a small memory.
use sync_kernel.Prelude.{◌≡◌, refl, some, arith, ◌==◌, if◌then◌else◌}
use sync_kernel.Kstring.{Bytes, strlen, memmove, strrchr, repne_scasb, copy_down, strlen_loop}
use sync_kernel.Kstring.Copy.{memmove-Copied}
use sync_kernel.Kstring.Scan.{IsString}

-- "hi!h" at address 10, and nothing else
abbrev hello : Bytes
hello a =
    if a == 10
    then b'h'
    else if a == 11
    then b'i'
    else if a == 12
    then b'!'
    else if a == 13
    then b'h'
    else 0

hello-IsString : IsString hello 10 4
hello-IsString = record { chars = λ i h. ground arith; ends = refl }

memmove_up : memmove 12 10 4 hello 14 ≡ b'!'
unfolding memmove copy_down
memmove_up = refl

strrchr_no_first : strrchr 9 hello 10 b'i' ≡ some (some 11)
unfolding strrchr strlen strlen_loop repne_scasb
strrchr_no_first = refl

-- the source overlaps the destination from below
memmove-Copied_example : memmove 12 10 4 hello 15 ≡ b'h'
memmove-Copied_example = memmove-Copied 12 10 4 hello 15

-- the empty string at 40
empty-IsString : IsString hello 40 0
empty-IsString = record { chars = λ i h. absurd (omega arith); ends = refl }
