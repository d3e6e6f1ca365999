-- ===== src/Lib.antt =====
-- The kernel's start, memory managers, page tables, strings, printing and console, translated
-- from C.
--
-- Parts, and where they are modelled:
--   kernel/mm/buddy.c, buddy.h    Buddy (one region: bitmaps, free lists, push and pop),
--                                 Buddy/Master (the table of regions and new regions),
--                                 Buddy/Pages (allocating and freeing)
--   kernel/mm/slab.c, slab.h      Slab (slabs and the making of a cache), Slab/Objects
--   kernel/kstring.c              Kstring
--   kernel/stdio.c                Stdio (numbers), Stdio/Format (the parts of a conversion),
--                                 Stdio/Vsprintf (the loop over the format)
--   kernel/io/console.c           Console
--   kernel/drivers/video/gop/gop.c
--                                 Gop
--   kernel/pagetbl.h              Paging (arithmetic and the linear mappings)
--   kernel/pagetbl.c              Tables (walks, one page unmapped, new tables), Tables/Remap (the
--                                 mappings of the running kernel)
--   kernel/boot.c, boot.h, bootparams.h
--                                 Boot (regions and frames), Boot/Maps (tags and the memory map),
--                                 Boot/Start (the first tables, the hand-over, `start_kernel`)
--   kernel/rbtree.c, rbtree.h     Rbtree (rotations, insertion), Rbtree/Remove, Rbtree/Walk
--                                 (the order of the nodes)
--   kernel/mm/vma.c, vma.h        Vma
--   kernel/mm/vmalloc.c, kmalloc.c
--                                 Vma/Ioremap
--   kernel/kctype.h               Ctype
--   kernel/drivers/video/vga      Vga (vga_text.c), Vga/Driver (vga.c and the stubs of vga_graphics.c)
--   kernel/drivers/video/framebuffer.c
--                                 Display
--   kernel/idt.c, gdt.c           Idt
--   kernel/isr.c                  Isr
--   kernel/cpu_feats.c, cpu_feats.h
--                                 Cpu
--   kernel/printk.c, panic.c      Log
--   kernel/main.c                 Start, with `kcon_init` of kernel/io/console.c
-- The slab allocator takes its slabs from the buddy allocator (`kbud_alloc`, `kbud_free`), which
-- goes between physical and virtual addresses by the linear mapping of Paging. Gop draws on the
-- bytes of Kstring, whose `memmove` and `memset` it calls; Console only records what it asks of a
-- driver, in terms of `fb_ops_t`. The formats of Stdio use Ctype. Boot runs first, over physical
-- addresses, and leaves its regions to `kbud_free_range` and its parameters to `kern_uhalf_init` of
-- Tables/Remap, which makes new tables of the pages of `kbud_alloc`. Vma keeps its areas in the
-- trees of Rbtree and takes them from a slab cache; `ioremap` gets an area from it and maps it with
-- the `return_pt_or_alloc` of Tables. `mm_init` puts the initialisations together. `vga_text_init`
-- and `fbcon_display_init` map their memory with `ioremap`. Log formats with Stdio and writes to
-- Console; the handlers of Isr panic through it. `kernel_main` of Start runs them all. Functions
-- keep the names that they have in C; a helper beside a function is one of its loops or branches,
-- and says so. Prelude holds what the files share. The other files of a folder hold proofs, and
-- Tests runs and instances.
--
-- State. A C object is a record, passed in and handed back. Memory is typed by what the code keeps
-- in it: bytes are a function from addresses to numbers, and so are region headers, page headers
-- (`page_frame_t`), slab headers and the first words of free objects. A page is one of these at a
-- time in the code: a page header lives in a free block, and a slab header in one that has been
-- allocated. That these stores do not overlap is an assumption of the model. `MASTER_BUDDY` is the
-- record `Memory`, one region with what its operations reach is a `Zone`, and the one console is
-- the record `Console`, with the list of what it has asked of its framebuffer. Machine words are
-- natural numbers below 2 to the width, with the wrap-around written out where the code can reach
-- it. `KPAGE_ERR` is `invalid_ptr`, 2 ^ 64 - 1. Page tables are a function from the address of a
-- table and an index to an entry: by linear address in `Machine`, by physical address in
-- `Preinit`, the state of the boot code. The nodes of a red-black tree are a function from
-- addresses, and the tree that they stand for is the predicate `IsTree` of Rbtree/Shape. A pointer
-- to a link is a `Slot`. An area and its node are 32 bytes apart. The page allocator is part of
-- `Machine` and of the slab cache of `Vmas`, and `ioremap` and `mm_init` pass it from one to the
-- other.
--
-- Fuel. A loop that the code bounds by a counter recurses on that counter. The loops that it does
-- not bound take a fuel, and give `none` when that runs out: `strlen` (a string's length and one
-- suffice), the walks along the lists of slabs and of free pages (the list's length and one),
-- `vsprintf` and with it `printk` and `panic` (the format's length and one, and the width for
-- `%c`), and `kbud_free_range` (the number of blocks and one), the tags of the loader (the number
-- of tags and one, or a round for every eight bytes), its memory map (the number of entries and
-- one), and the loops down and up a red-black tree (the number of its nodes and one). The binary
-- search over the regions takes as many rounds as there are regions, and the digits of a word 64.
-- `none` also stands for what the code leaves undefined: a null pointer followed in `kbud_pop` or
-- in a tree, an entry of a table at null or at the error pointer, or an argument of `vsprintf`
-- that is missing or of another kind; and in Boot for `die`, which halts.
--
-- A read of Console through its null font, its null framebuffer or the null
-- table of a framebuffer's functions is `none` too, and so are a write through a null screen, a
-- text that overruns the buffer of the log, and a sum of signed words that overflows in `atoi_bit`
-- and `gop_fill_rect`. A panic of Log is the console that it leaves.
--
-- Not modelled: the assembly and the instructions behind irq.h, io.h and io/serial.c (ports,
-- halting, loading the descriptor tables), the header of multiboot 2, which is third-party, and
-- fonts, which are data: the console takes a font as it is given. The processor's `cpuid`, the
-- entry points of the interrupts and the address of `CODE_SEGMENT64` are parameters. In Boot the
-- mapping that the boot code itself runs in is taken to reach everything that it touches, and the
-- debug port and the jump to `kernel_main` are left out. The builds that define DEBUG stop at an
-- assertion where the model goes on. Out-of-range accesses of the arrays of `PFRAME_MAX_ORDER`
-- entries read and write an entry of the function that stands for the array.
pub mod Prelude
pub mod Kstring
pub mod Paging
pub mod Buddy
pub mod Slab
pub mod Ctype
pub mod Stdio
pub mod Console
pub mod Gop
pub mod Vga
pub mod Idt
pub mod Isr
pub mod Cpu
pub mod Display
pub mod Log
pub mod Start
pub mod Tables
pub mod Boot
pub mod Rbtree
pub mod Vma
