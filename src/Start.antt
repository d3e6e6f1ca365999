-- ===== src/Start.antt =====
-- The kernel's start: `kcon_init` of kernel/io/console.c and `kernel_main` of kernel/main.c, up to the
-- loop in which the kernel idles. Loading the descriptor tables is an instruction each.
pub mod Ready
mod Tests
use sync_kernel.Prelude.{◌>>=◌, ℕ, Option, none, some, List, [], ◌∷◌, true, false}
use sync_kernel.Cpu.{Regs, Info, cpu_get_capabilities}
use sync_kernel.Idt.{Gate}
use sync_kernel.Isr.{isr_init}
use sync_kernel.Tables.Remap.{Image, BootMemory}
use sync_kernel.Vma.Ioremap.{Kernel, mm_init}
use sync_kernel.Boot.{BootType, FramebufInfo}
use sync_kernel.Gop.{Screen}
use sync_kernel.Console.{Font, Framebuffer, Console, kcon_setframebuffer, kcon_setfont}
use sync_kernel.Stdio.Format.{word}
use sync_kernel.Display.{FbOps, fbcon_display_init}
use sync_kernel.Log.{klog_info, klog_debug, codes, printk}

abbrev pub booting : List ℕ
booting = codes "SYOS virtualized kernel booting...\n"

-- The framebuffer as the console reads it: without a table, no operation is ever looked up.
abbrev pub console_fb : Screen → Option FbOps → Framebuffer
console_fb s (some ops) = record {
  width = s.width;
  height = s.height;
  has_ops = true;
  has_blit = ops.blit_pixel;
  has_scroll = ops.scroll;
  has_clear = ops.clear;
}
console_fb s none = record {
  width = s.width;
  height = s.height;
  has_ops = false;
  has_blit = false;
  has_scroll = false;
  has_clear = false;
}

-- The console that the first message goes to.
abbrev pub set_up : Font → Screen → Option FbOps → Console → Console
set_up font s ops con = kcon_setfont (kcon_setframebuffer con (some (console_fb s ops))) (some font)

unfoldable pub kcon_init :
    ℕ
    → ℕ
    → BootType
    → Font
    → FramebufInfo
    → Kernel
    → Console
    → Option (Kernel × FramebufInfo × Console)
kcon_init fuel level bootenv font info k con = do
  (k', info', d) ← fbcon_display_init fuel bootenv info k
  (_, _, con') ← printk fuel level (set_up font d.screen d.ops con) klog_info booting []
  some (k', info', con')

-- The kernel's variables that the start sets.
pub record System : Type 0 where
  pub cpu : Info
  pub idt : ℕ → Gate
  pub kernel : Kernel
  pub fb : FramebufInfo
  pub console : Console

-- What the boot, the linker and the processor supply.
pub record Given : Type 0 where
  pub cpuid : ℕ → ℕ → Regs
  pub identifier : ℕ
  pub image : Image
  pub memory : BootMemory
  pub bootenv : BootType
  pub level : ℕ
  pub font : Font
  pub isr_table : ℕ → ℕ
  pub code_segment : ℕ

abbrev pub idle_reached : List ℕ
idle_reached = codes "SYOS kernel v%d.%d --- Booted, Idle Reached\n"

-- `none` is also a panic.
unfoldable pub kernel_main : ℕ → Given → System → Option System
kernel_main fuel g s = do
  k ← mm_init fuel g.identifier g.image g.memory s.kernel
  (k', fb, con) ← kcon_init fuel g.level g.bootenv g.font s.fb k s.console
  (_, _, con') ← printk fuel g.level con klog_debug idle_reached (word 0 ∷ word 1 ∷ [])
  some (record {
    cpu = cpu_get_capabilities g.cpuid s.cpu;
    idt = isr_init g.isr_table g.code_segment s.idt;
    kernel = k';
    fb = fb;
    console = con';
  })
