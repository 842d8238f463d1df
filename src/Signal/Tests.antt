-- ===== src/Signal/Tests.antt =====
-- Signals on examples.
use asynclear.Prelude.{ℕ, ◌≡◌, refl, none, ok, arith, true, Bool}
use asynclear.Signal.{sigint}
use asynclear.Signal.Deliver.{
  ThreadInner, Thread, TrapContext, KSignalAction, goes_on, call_handler, sigreturn, entered,
  sigreturn-call_handler,
}

abbrev idle : ThreadInner
idle = record { signal_mask = 0; pending_signal = 0 }

abbrev registers : TrapContext
registers = record { sepc = 0x1000; sp = 0x8000; ra = 0x1100; a0 = 5; others = λ r. r }

abbrev thread : Thread
thread = record { inner = idle; trap_context = registers; memory = λ a. none }

abbrev action : KSignalAction
action = record { handler = 0x2000; flags = 0x400_0000; restorer = 0x2100; action_mask = 0 }

abbrev anywhere : ℕ → Bool
anywhere a = true

-- What the handler leaves in the registers.
abbrev left : TrapContext
left = record { sepc = 0x2100; sp = 0x7e00; ra = 0; a0 = 9; others = λ r. 0 }

sigreturn-call_handler_example :
    (call_handler 0x200 anywhere thread sigint action
      ≡ ok (goes_on, entered 0x200 anywhere thread sigint action))
    × (sigreturn 0x200 anywhere (record (entered 0x200 anywhere thread sigint action) {
      trap_context = left;
      inner = idle;
    })
        ≡ ok (
          5,
          record (entered 0x200 anywhere thread sigint action) {
            trap_context = registers;
            inner = idle;
          },
        ))
sigreturn-call_handler_example =
    sigreturn-call_handler 0x200 anywhere thread sigint action left idle (omega arith) refl refl
