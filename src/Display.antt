-- ===== src/Display.antt =====
-- kernel/drivers/video/framebuffer.c: the framebuffer of the boot parameters, mapped for the console.
pub mod Mapped
use sync_kernel.Prelude.{
  ◌>>=◌, ℕ, ◌-◌, ◌*◌, ◌%◌, ◌^◌, Bool, true, Option, none, some, ◌==◌, ltb, if◌then◌else◌, bit_and,
  bit_or,
}
use sync_kernel.Boot.{BootType, bios, boot_type, FramebufInfo}
use sync_kernel.Gop.{Screen}
use sync_kernel.Vma.Flags.{vm_fg_mmio_flags, vm_write_through, vm_nocache}
use sync_kernel.Vma.Ioremap.{Kernel, ioremap}

-- Which of `fb_ops_t` a driver fills in.
pub record FbOps : Type 0 where
  pub blit_pixel : Bool
  pub fill_rect : Bool
  pub scroll : Bool
  pub clear : Bool

-- `framebuffer_t`: what the driver draws into, and its table of functions, which may be null.
pub record Display : Type 0 where
  pub screen : Screen
  pub ops : Option FbOps

-- `gop_funcs`
abbrev pub gop_funcs : FbOps
gop_funcs = record { blit_pixel = true; fill_rect = true; scroll = true; clear = true }

abbrev pub gop_fb_init : Display → Display
gop_fb_init d = record d { ops = some gop_funcs }

-- `boot_info->bootenv > KERN_BOOT_TYPE_BIOS`
abbrev pub above_bios : BootType → Bool
above_bios bootenv = ltb (boot_type bios) (boot_type bootenv)

-- The flags of the mapping, as a word of 32 bits.
abbrev pub display_flags : BootType → ℕ
display_flags bootenv =
    let flags = bit_or (bit_or vm_fg_mmio_flags vm_write_through) vm_nocache in
    if above_bios bootenv then bit_and flags (2 ^ 32 - 1 - vm_nocache) else flags

-- `none` is also its panic. `kernel_framebuffer` starts zeroed, so that its table is null until a
-- driver sets it; none does for a BIOS.
unfoldable pub fbcon_display_init :
    ℕ → BootType → FramebufInfo → Kernel → Option (Kernel × FramebufInfo × Display)
fbcon_display_init fuel bootenv info k = do
  (addr, k') ← ioremap fuel k info.phys (info.height * info.pitch % 2 ^ 32) (display_flags bootenv)
  let fb : Display = record {
    screen = record {
      base = addr;
      width = info.width;
      height = info.height;
      pitch = info.pitch;
      bpp = info.bpp;
    };
    ops = none;
  }
  let info' = record info { virt = addr }
  let fb' = if above_bios bootenv then gop_fb_init fb else fb
  if addr == 0 then none else some (k', info', fb')
