-- ===== src/Isr.antt =====
-- kernel/isr.c: the gates that the interrupt table is filled with, and the handlers of the processor's
-- exceptions. A handler does not return: it stands for the message that it panics with.
pub mod Filled
pub mod Vectors
mod Tests
use sync_kernel.Prelude.{ℕ, zero, suc, ◌+◌, ◌^◌, ◌%◌, Option, none, some, List, [], ◌∷◌, bit_or}
use Prim.Native.String.{String}
use sync_kernel.Idt.{Gate, f_idt_ring_0, f_idt_gate_irq, idt64_setgate, idt64_enablegate}

unfoldable pub vector_switch_idtflags : ℕ → ℕ
vector_switch_idtflags interrupt = bit_or f_idt_ring_0 f_idt_gate_irq

-- The vectors from `i` on: `n` are left. `isr_table` gives the entry points, and `addr` is where the
-- variable `CODE_SEGMENT64` stands, as the code casts its address.
unfoldable pub isr_loop : ℕ → ℕ → (ℕ → ℕ) → ℕ → (ℕ → Gate) → ℕ → Gate
unfolding vector_switch_idtflags
isr_loop zero i isr_table addr idt = idt
isr_loop (suc n) i isr_table addr idt = isr_loop n (i + 1) isr_table addr (
    idt64_enablegate i
      (idt64_setgate i (isr_table i) (addr % 2 ^ 16) (vector_switch_idtflags (i % 2 ^ 8)) idt))

unfoldable pub isr_init : (ℕ → ℕ) → ℕ → (ℕ → Gate) → ℕ → Gate
isr_init isr_table addr idt = isr_loop 256 0 isr_table addr idt

-- The functions `handler_X86_ISR_…`, and the names of `enum x86_isr_error`.
pub data Handler : Type 0 where
  div debug nmi brkp ovrflw bound inv_op dev_na dfault overrun inv_tss no_seg stack gp page_fault
        intel fpuerr alignchk machinechk avx_fpe virt cpe hyper_inject vm_comm security :
      Handler

-- `enum x86_isr_error`
unfoldable pub isr_vector : Handler → ℕ
isr_vector div = 0
isr_vector debug = 1
isr_vector nmi = 2
isr_vector brkp = 3
isr_vector ovrflw = 4
isr_vector bound = 5
isr_vector inv_op = 6
isr_vector dev_na = 7
isr_vector dfault = 8
isr_vector overrun = 9
isr_vector inv_tss = 10
isr_vector no_seg = 11
isr_vector stack = 12
isr_vector gp = 13
isr_vector page_fault = 14
isr_vector intel = 15
isr_vector fpuerr = 16
isr_vector alignchk = 17
isr_vector machinechk = 18
isr_vector avx_fpe = 19
isr_vector virt = 20
isr_vector cpe = 21
isr_vector hyper_inject = 28
isr_vector vm_comm = 29
isr_vector security = 30

unfoldable pub panic_message : Handler → String
panic_message div = "division by zero error!\n"
panic_message debug = "debug interrupt\n"
panic_message nmi = "received NMI\n"
panic_message brkp = "debug breakpoint\n"
panic_message ovrflw = "overflow error!\n"
panic_message bound = "bound range error!\n"
panic_message inv_op = "invalid opcode error!\n"
panic_message dev_na = "device not available!\n"
panic_message dfault = "double fault!!!\n"
panic_message overrun = "coprocessor overrun error!\n"
panic_message inv_tss = "invalid TSS error!\n"
panic_message no_seg = "no segment error!\n"
panic_message stack = "stack error!\n"
panic_message gp = "general purpose fault error!\n"
panic_message page_fault = "page fault error!\n"
panic_message intel = "mfw intel\n"
panic_message fpuerr = "floating point error!\n"
panic_message alignchk = "alignment check error!\n"
panic_message machinechk = "machine check!\n"
panic_message avx_fpe = "SSE/AVX floating point exception!\n"
panic_message virt = "virtualization exception!\n"
panic_message cpe = "control protection exception!\n"
panic_message hyper_inject = "hypervsior injection\n"
panic_message vm_comm = "VM comm error!\n"
panic_message security = "security exception!\n"

-- The entries that the table's initialiser gives, in its order.
abbrev handlers : List Handler
handlers =
    div ∷ debug ∷ nmi ∷ brkp ∷ ovrflw ∷ bound ∷ inv_op ∷ dev_na ∷ dfault ∷ overrun ∷ inv_tss
    ∷ no_seg ∷ stack ∷ gp ∷ page_fault ∷ intel ∷ fpuerr ∷ alignchk ∷ machinechk ∷ avx_fpe ∷ virt
    ∷ cpe ∷ hyper_inject ∷ vm_comm ∷ security ∷ []

abbrev entry : List Handler → ℕ → Option Handler
entry [] i = none
entry (h ∷ hs) zero = some h
entry (h ∷ hs) (suc i) = entry hs i

-- `table`; an entry that its initialiser does not give is null.
abbrev pub table : ℕ → Option Handler
table = entry handlers

abbrev pub called : Option Handler → String
called (some h) = panic_message h
called none = "temporary"

-- What the kernel panics with at an interrupt.
unfoldable pub x64_isr_handler : ℕ → String
unfolding panic_message
x64_isr_handler interrupt = called (table interrupt)
