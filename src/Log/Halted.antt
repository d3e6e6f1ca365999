-- ===== src/Log/Halted.antt =====
-- What an interrupt of kernel/isr.c leaves on the console of the kernel that it halts.
use sync_kernel.Prelude.{
  ℕ, ◌<◌, ◌≡◌, refl, true, Option, none, some, ◌++◌, length, arith, Returns, Option-cases, inl, inr,
}
use mathlib.Core.Path.{subst}
use sync_kernel.Console.{Console, kcon_write}
use sync_kernel.Isr.{Handler, div, panic_message, called, table, x64_isr_handler}
use sync_kernel.Log.{codes, panic_line, panic}
use sync_kernel.Log.Plain.{is_plain, console_of, panic_lem}
use sync_kernel.Console.Cursor.{IsOnScreen, kcon_write-IsOnScreen}

-- The handler of a vector panics.
abbrev pub interrupt : ℕ → ℕ → Console → ℕ → Option Console
interrupt fuel level con v = panic fuel level con (codes (x64_isr_handler v))

message_plain :
    (h : Handler)
    → (is_plain (codes (panic_message h)) ≡ true) × (length (codes (panic_message h)) < 64)
unfolding panic_message
message_plain div = (refl, omega arith)
message_plain _ = (refl, omega arith)

called_plain :
    (o : Option Handler) → (is_plain (codes (called o)) ≡ true) × (length (codes (called o)) < 64)
called_plain none = (refl, omega arith)
called_plain (some h) = message_plain h

handled_plain :
    (v : ℕ)
    → (is_plain (codes (x64_isr_handler v)) ≡ true) × (length (codes (x64_isr_handler v)) < 64)
unfolding x64_isr_handler
handled_plain v = called_plain (table v)

-- An interrupt of any vector, whatever is logged, writes the message of its handler, a line feed and
-- the panic line to the console, whatever that is: the kernel halts with the console that this leaves,
-- or it faults where this reads through null.
interrupt_lem :
    (fuel level : ℕ) (con : Console) (v : ℕ)
    → 64 < fuel
    → interrupt fuel level con v
      ≡ console_of
          (kcon_write con (some ((codes (x64_isr_handler v) ++ codes "\n") ++ codes panic_line)))
interrupt_lem fuel level con v enough =
    let (plain, short) = handled_plain v in
    panic_lem fuel level con (codes (x64_isr_handler v)) plain (omega arith) (omega arith)
      (omega arith)

-- On a console that has its font, its framebuffer and the framebuffer's operations, with the cursor
-- on a screen that holds two rows of text and one step of a tab, an interrupt of any vector,
-- whatever is logged and with more than 64 rounds, halts the kernel: the console is what writing
-- the message of its handler, a line feed and the panic line to it leaves, and its cursor is on the
-- screen.
pub interrupt-halts :
    (fuel level : ℕ) (con : Console) (v : ℕ)
    → 64 < fuel
    → IsOnScreen con
    → (con' : Console) × (interrupt fuel level con v ≡ some con')
      × (console_of
            (kcon_write con (some ((codes (x64_isr_handler v) ++ codes "\n") ++ codes panic_line)))
          ≡ some con')
      × IsOnScreen con'
interrupt-halts fuel level con v enough on =
    let text = (codes (x64_isr_handler v) ++ codes "\n") ++ codes panic_line in
    let stays = kcon_write-IsOnScreen con (some text) on in
    rw (interrupt_lem fuel level con v enough) (elim (Option-cases (kcon_write con (some text))) [
      | inl e ↦ absurd (subst (Returns (λ r. IsOnScreen r.1)) e stays)
      | inr ((n, con'), e) ↦
          (con', rw e refl, rw e refl, subst (Returns (λ r. IsOnScreen r.1)) e stays)
    ])
