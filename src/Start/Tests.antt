-- ===== src/Start/Tests.antt =====
-- Runs of the kernel's start.
use sync_kernel.Prelude.{◌≡◌, refl, false, some, [], arith, []}
use sync_kernel.Prelude.Int.{pos}
use sync_kernel.Boot.{FramebufInfo, bios, efi64}
use sync_kernel.Cpu.{boot_cpu}
use sync_kernel.Vma.Sample.{kernel, pixels_found}
use sync_kernel.Console.{Font, Console, kcon_write}
use sync_kernel.Console.Cursor.{IsOnScreen}
use sync_kernel.Display.{gop_funcs}
use sync_kernel.Display.Mapped.{mapped_display}
use sync_kernel.Log.Plain.{console_of}
use sync_kernel.Start.{Given, System, booting, set_up, kcon_init}
use sync_kernel.Start.Ready.{Holds, kcon_init-shows}

abbrev font : Font
font = record {
  bitmap = λ i. 0;
  glyphs = λ i. record {
    bitmap_offset = 0;
    width = 8;
    height = 16;
    x_advance = 8;
    x_offset = pos 0;
    y_offset = pos 0;
  };
  baseline = pos 12;
  pixel_h = 16;
  pixel_w = 8;
}

-- `kconsole`, with no font and no framebuffer yet.
abbrev unset : Console
unset = record {
  has_font = false;
  font = font;
  color_fg = 1;
  color_bg = 0;
  cx = 0;
  cy = 0;
  cell_w = 0;
  cell_h = 0;
  fb_w = 0;
  fb_h = 0;
  has_ops = false;
  has_blit = false;
  has_scroll = false;
  has_clear = false;
  drawn = [];
}

abbrev described : FramebufInfo
described = record { phys = 0xFEE00000; virt = 0; width = 32; height = 32; pitch = 128; bpp = 32 }

font-Holds : Holds font 32 32
font-Holds = record {
  cell = omega arith;
  rows = omega arith;
  step = (omega arith, omega arith, omega arith);
  size = (omega arith, omega arith);
  advance = λ i. omega arith;
}

kcon_init-shows_example :
    let shown =
      set_up font (mapped_display efi64 described 0x404000).screen (some gop_funcs) unset in
    (con' : Console) × (kcon_init 100 3 efi64 font described kernel unset
      ≡ some (pixels_found.0, record described { virt = 0x404000 }, con'))
    × (console_of (kcon_write shown (some booting)) ≡ some con')
    × IsOnScreen con'
kcon_init-shows_example =
    kcon_init-shows 100 3 efi64 font described kernel unset pixels_found.1 (omega arith) refl
      (omega arith) font-Holds (omega arith) (omega arith)

abbrev given : Given
given = record {
  cpuid = λ leaf sub. record { eax = 0; ebx = 0; ecx = 0; edx = 0 };
  identifier = 0;
  image = record {
    begin = 0;
    after_ro = 0;
    kphys_start = 0;
    kphys_end = 0;
    prebegin = 0;
    preend = 0;
    kstack_guard = 0;
    kstack_top = 0;
  };
  memory = record { base = 0; max_frames = 0; load_addr = 0; ram_max = 0 };
  bootenv = bios;
  level = 3;
  font = font;
  isr_table = λ v. 0;
  code_segment = 0;
}

abbrev system : System
system = record {
  cpu = boot_cpu;
  idt = λ v. record {
    offs_lo = 0;
    segment_selector = 0;
    ist = 0;
    flags = 0;
    offs_mid = 0;
    offs_hi = 0;
    reserved = 0;
  };
  kernel = kernel;
  fb = described;
  console = unset;
}
