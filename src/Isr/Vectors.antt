-- ===== src/Isr/Vectors.antt =====
-- Which handler of kernel/isr.c an exception reaches.
use sync_kernel.Prelude.{◌≡◌, refl, ltb, if◌then◌else◌}
use sync_kernel.Isr.{Handler, div, isr_vector, panic_message, x64_isr_handler}

-- An exception panics with its own handler's message where its vector is below 22. The handlers of
-- the three above, which the table holds at 22 to 24, are not called for their vectors: those panic
-- with the message of an interrupt that has no handler.
pub x64_isr_handler-vector :
    (h : Handler)
    → x64_isr_handler (isr_vector h)
      ≡ (if ltb (isr_vector h) 22 then panic_message h else "temporary")
unfolding x64_isr_handler isr_vector panic_message
x64_isr_handler-vector div = refl
x64_isr_handler-vector _ = refl
