-- ===== src/Start/Ready.antt =====
-- The console as kernel/io/console.c first shows it.
use sync_kernel.Prelude.{
  ℕ, ◌*◌, ◌%◌, ◌^◌, ◌≤◌, ◌<◌, ◌≡◌, ◌≢◌, refl, true, some, [], arith, Returns, ◌==◌, leb,
  if◌then◌else◌, Option-cases, Bool-cases, inl, inr,
}
use sync_kernel.Boot.{BootType, FramebufInfo}
use sync_kernel.Gop.{Screen}
use sync_kernel.Vma.Ioremap.{Kernel, ioremap}
use sync_kernel.Console.{Font, Console, step_width, kcon_setframebuffer, kcon_setfont, kcon_write}
use mathlib.Core.Path.{subst}
use sync_kernel.Console.Cursor.{IsOnScreen, kcon_write-IsOnScreen}
use sync_kernel.Display.{FbOps, above_bios, gop_funcs, display_flags}
use sync_kernel.Display.Mapped.{mapped_display, fbcon_display_init_lem}
use sync_kernel.Log.{klog_info}
use sync_kernel.Log.Plain.{printk_plain, console_of}
use sync_kernel.Start.{booting, set_up, kcon_init}

-- The step of a tab in a font.
abbrev pub font_step : Font → ℕ
font_step font =
    let g = font.glyphs 0 in
    let w = if g.width == 0 then g.x_advance else g.width in if w == 0 then font.pixel_w else w

-- A font that a screen of `w` by `h` pixels holds: two rows of it, and a step of a tab.
pub record Holds (font : Font) (w h : ℕ) : Type 0 where
  pub cell : 0 < font.pixel_h
  pub rows : 2 * font.pixel_h ≤ h
  pub step : (0 < font_step font) × (font_step font ≤ w) × (font_step font < 256)
  pub size : (w < 2 ^ 31) × (h < 2 ^ 31)
  pub advance : (i : ℕ) → (font.glyphs i).x_advance < 256

set_up-IsOnScreen :
    (font : Font) (s : Screen) (ops : FbOps) (con : Console)
    → Holds font s.width s.height
    → con.cx < s.width
    → con.cy < s.height
    → IsOnScreen (set_up font s (some ops) con)
unfolding kcon_setfont kcon_setframebuffer step_width
set_up-IsOnScreen font s ops con fits x y = record {
  column = x;
  row = y;
  cell = fits.cell;
  rows = fits.rows;
  step = (fits.step.0, fits.step.1);
  size = (fits.size.0, fits.size.1, fits.step.2);
  advance = fits.advance;
  ready = (refl, refl);
}

-- Booted by EFI, with more than 64 rounds for printing, where the framebuffer can be mapped, the
-- screen holds the font and the cursor stands on it, `kcon_init` reads through no null pointer: the
-- console is the one with the framebuffer and the font set, to which `kcon_write` has written the
-- whole message where the level lets it, and the cursor is on the screen; the kernel is as
-- `ioremap` leaves it, and the boot parameters hold the mapped address.
pub kcon_init-shows :
    (fuel level : ℕ) (bootenv : BootType) (font : Font) (info : FramebufInfo) (k : Kernel)
    {k' : Kernel} {p : ℕ} (con : Console)
    → ioremap fuel k info.phys (info.height * info.pitch % 2 ^ 32) (display_flags bootenv)
      ≡ some (p, k')
    → p ≢ 0
    → above_bios bootenv ≡ true
    → 64 < fuel
    → Holds font info.width info.height
    → con.cx < info.width
    → con.cy < info.height
    → let ready = set_up font (mapped_display bootenv info p).screen (some gop_funcs) con in
      (con' : Console) × (kcon_init fuel level bootenv font info k con
        ≡ some (k', record info { virt = p }, con'))
      × ((if leb klog_info level then console_of (kcon_write ready (some booting)) else some ready)
          ≡ some con')
      × IsOnScreen con'
unfolding kcon_init
kcon_init-shows fuel level bootenv font info k {p = p} con mapped not_null efi enough fits x y =
    let s = (mapped_display bootenv info p).screen in
    let ready = set_up font s (some gop_funcs) con in
    let on = set_up-IsOnScreen font s gop_funcs con fits x y in
    let stays = kcon_write-IsOnScreen ready (some booting) on in
    rw
      (
        fbcon_display_init_lem fuel bootenv info k mapped not_null,
        efi,
        printk_plain fuel level ready klog_info booting [] refl (omega arith),
      )
      (elim (Bool-cases (leb klog_info level)) [
        | inl logged ↦ rw logged (elim (Option-cases (kcon_write ready (some booting))) [
          | inl e ↦ absurd (subst (Returns (λ r. IsOnScreen r.1)) e stays)
          | inr ((n, con'), e) ↦
              (con', rw e refl, rw e refl, subst (Returns (λ r. IsOnScreen r.1)) e stays)
        ])
        | inr quiet ↦ rw quiet (ready, refl, refl, on)
      ])
