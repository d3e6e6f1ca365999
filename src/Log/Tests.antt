-- ===== src/Log/Tests.antt =====
-- Runs of kernel/printk.c and kernel/panic.c on a console that draws.
use sync_kernel.Prelude.{◌≡◌, refl, true, false, some, [], ◌++◌, arith}
use sync_kernel.Prelude.Int.{pos}
use sync_kernel.Console.{Font, Console, kcon_write, step_width}
use sync_kernel.Isr.{x64_isr_handler}
use sync_kernel.Log.{codes, panic_line}
use sync_kernel.Log.Halted.{interrupt, interrupt-halts}
use sync_kernel.Log.Plain.{console_of}
use sync_kernel.Console.Cursor.{IsOnScreen}

abbrev font : Font
font = record {
  bitmap = λ i. 0;
  glyphs = λ i. record {
    bitmap_offset = 0;
    width = 8;
    height = 16;
    x_advance = 8;
    x_offset = pos 0;
    y_offset = pos 0;
  };
  baseline = pos 12;
  pixel_h = 16;
  pixel_w = 8;
}

abbrev console : Console
console = record {
  has_font = true;
  font = font;
  color_fg = 1;
  color_bg = 0;
  cx = 0;
  cy = 0;
  cell_w = 8;
  cell_h = 16;
  fb_w = 640;
  fb_h = 480;
  has_ops = true;
  has_blit = true;
  has_scroll = true;
  has_clear = false;
  drawn = [];
}

console-IsOnScreen : IsOnScreen console
unfolding step_width
console-IsOnScreen = record {
  column = omega arith;
  row = omega arith;
  cell = omega arith;
  rows = omega arith;
  step = (omega arith, omega arith);
  size = (omega arith, omega arith, omega arith);
  advance = λ i. omega arith;
  ready = (refl, refl);
}

interrupt-halts_example :
    (con' : Console) × (interrupt 100 0 console 200 ≡ some con')
    × (console_of
          (kcon_write console (some ((codes "temporary" ++ codes "\n") ++ codes panic_line)))
        ≡ some con')
    × IsOnScreen con'
unfolding x64_isr_handler
interrupt-halts_example = interrupt-halts 100 0 console 200 (omega arith) console-IsOnScreen
