-- ===== src/Vma/Flags.antt =====
-- kernel/mm/vma.h and kernel/mm/vmalloc.h: the flags of an area, each a bit of its own.
use sync_kernel.Prelude.{ℕ, ◌^◌, bit_or}

-- `enum vma_flags`
abbrev pub vm_read : ℕ
vm_read = 2 ^ 0

abbrev pub vm_write : ℕ
vm_write = 2 ^ 1

abbrev pub vm_exec : ℕ
vm_exec = 2 ^ 2

abbrev pub vm_anon : ℕ
vm_anon = 2 ^ 4

abbrev pub vm_io : ℕ
vm_io = 2 ^ 5

abbrev pub vm_nocache : ℕ
vm_nocache = 2 ^ 6

abbrev pub vm_write_through : ℕ
vm_write_through = 2 ^ 7

abbrev pub vm_fg_rw : ℕ
vm_fg_rw = bit_or vm_read vm_write

abbrev pub vm_fg_mmio_flags : ℕ
vm_fg_mmio_flags = bit_or vm_fg_rw vm_io
