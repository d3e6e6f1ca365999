-- ===== src/Display/Mapped.antt =====
-- The framebuffer that kernel/drivers/video/framebuffer.c hands to the console.
use sync_kernel.Prelude.{
  ℕ, ◌*◌, ◌%◌, ◌^◌, ◌≡◌, ◌≢◌, refl, false, none, some, arith, ◌==◌, if◌then◌else◌, Bool-cases, inl,
  inr,
}
use sync_kernel.Boot.{BootType, FramebufInfo}
use sync_kernel.Vma.Ioremap.{Kernel, ioremap}
use sync_kernel.Display.{Display, gop_funcs, above_bios, display_flags, fbcon_display_init}

-- What the console gets, where `p` is what the framebuffer is mapped at.
abbrev pub mapped_display : BootType → FramebufInfo → ℕ → Display
mapped_display bootenv info p = record {
  screen = record {
    base = p;
    width = info.width;
    height = info.height;
    pitch = info.pitch;
    bpp = info.bpp;
  };
  ops = if above_bios bootenv then some gop_funcs else none;
}

pub fbcon_display_init_lem :
    (fuel : ℕ) (bootenv : BootType) (info : FramebufInfo) (k : Kernel) {k' : Kernel} {p : ℕ}
    → ioremap fuel k info.phys (info.height * info.pitch % 2 ^ 32) (display_flags bootenv)
      ≡ some (p, k')
    → p ≢ 0
    → fbcon_display_init fuel bootenv info k
      ≡ some (k', record info { virt = p }, mapped_display bootenv info p)
unfolding fbcon_display_init
fbcon_display_init_lem fuel bootenv info k {p = p} mapped not_null =
    let not_zero : (p == 0) ≡ false = ground arith in
    rw (mapped, not_zero)
      (elim (Bool-cases (above_bios bootenv)) [ inl e ↦ rw e refl | inr e ↦ rw e refl ])
