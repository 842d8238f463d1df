-- ===== src/Signal/Deliver.antt =====
-- How a process receives a signal, and how a thread handles it on its way back to the user:
-- `receive_signal` of crates/libkernel/src/process/inner.rs, `check_signal` of crates/libkernel/src/trap/mod.rs
-- and `sys_rt_sigreturn` of crates/kernel/src/syscall/signal.rs.
use Prim.Native.Nat.{bit_and}
use asynclear.Prelude.{
  ℕ, ◌+◌, ◌-◌, ◌<◌, ◌≡◌, ◌⊎◌, refl, Bool, true, false, not, ◌&&◌, Option, none, some, List, [], ◌∷◌,
  ◌==◌, if◌then◌else◌, KResult, ok, err, panic, einval, break, ◌>>◌, assert, ensure, leb, arith,
  inl, inr, Bool-cases,
}
use asynclear.Config.{usize_mod}
use asynclear.Signal.{
  Signal, code, to_user, DefaultHandler, default_handler, terminate, ignore, core_dump, stop,
  continue,
}
use asynclear.Signal.Set.{
  KSignalSet, singleton, contains_all, insert, remove, first_pending, set_from_user,
}

pub record ThreadInner : Type 0 where
  pub signal_mask : KSignalSet
  pub pending_signal : KSignalSet

-- A thread that would take the signal.
abbrev pub is_eligible : KSignalSet → ThreadInner → Bool
is_eligible s t = not (contains_all t.signal_mask s) && not (contains_all t.pending_signal s)

-- The threads in the order in which the hash map yields them.
pub receive_signal : Signal → List ThreadInner → List ThreadInner
receive_signal s [] = []
receive_signal s (t ∷ ts) =
    let rest = receive_signal s ts in
    if is_eligible (singleton s) t
    then record t { pending_signal = insert t.pending_signal (singleton s) } ∷ ts
    else t ∷ rest

-- The registers of the trap context that the handling of signals touches. The floating-point context
-- is left out.
pub record TrapContext : Type 0 where
  pub sepc : ℕ
  pub sp : ℕ
  pub ra : ℕ
  pub a0 : ℕ
  pub others : ℕ → ℕ

pub record KSignalAction : Type 0 where
  pub handler : ℕ
  pub flags : ℕ
  pub restorer : ℕ
  pub action_mask : ℕ

pub record SignalContext : Type 0 where
  pub old_mask : KSignalSet
  pub old_trap_context : TrapContext

abbrev pub nodefer_flag : ℕ
nodefer_flag = 0x4000_0000

-- What becomes of the thread: it goes on, or its process ends with a code.
pub data Delivery : Type 0 where
  goes_on : Delivery
  exits : ℕ → Delivery

-- A thread with the signal contexts that were written to user memory, by address.
pub record Thread : Type 0 where
  pub inner : ThreadInner
  pub trap_context : TrapContext
  pub memory : ℕ → Option SignalContext

abbrev pub handler_mask : KSignalAction → Signal → KSignalSet → KSignalSet
handler_mask a s mask =
    let base = insert mask (set_from_user a.action_mask) in
    if bit_and a.flags nodefer_flag == nodefer_flag then base else insert base (singleton s)

-- `context_size` is the size of a `SignalContext`, and `writable` the check of its place in user memory.
module _ (context_size : ℕ) (writable : ℕ → Bool) where
  -- The rest of `check_signal` for a handler of the user.
  unfoldable pub call_handler : Thread → Signal → KSignalAction → KResult (Delivery × Thread)
  call_handler t s a =
      let sp = t.trap_context.sp - context_size in
      let saved : SignalContext = record {
        old_mask = t.inner.signal_mask;
        old_trap_context = t.trap_context;
      } in
      let inner : ThreadInner = record t.inner {
        signal_mask = handler_mask a s t.inner.signal_mask;
      } in
      let called : TrapContext = record t.trap_context {
        sepc = a.handler;
        sp = sp;
        ra = a.restorer;
        a0 = to_user s;
      } in
      assert (leb context_size t.trap_context.sp)
      >> ok (
          if writable sp
          then (
            goes_on,
            record {
              inner = inner;
              trap_context = called;
              memory = λ addr. if addr == sp then some saved else t.memory addr;
            },
          )
          else (
            exits (code s + 128),
            record { inner = inner; trap_context = called; memory = t.memory },
          ))

  abbrev pub default_action : Thread → Signal → DefaultHandler → KResult (Delivery × Thread)
  default_action t s terminate = ok (exits (code s + 128), t)
  default_action t s core_dump = ok (exits (code s + 128), t)
  default_action t s ignore = ok (goes_on, t)
  default_action t s stop = panic
  default_action t s continue = panic

  unfoldable pub handle_signal : Thread → Signal → KSignalAction → KResult (Delivery × Thread)
  unfolding call_handler
  handle_signal t s a =
      if a.handler == usize_mod - 1
      then panic
      else if a.handler == 0
      then default_action t s (default_handler s)
      else if a.handler == 1
      then ok (goes_on, t)
      else call_handler t s a

  pub check_signal : Thread → (Signal → KSignalAction) → KResult (Delivery × Thread)
  unfolding handle_signal
  check_signal t action = elim (first_pending (remove t.inner.pending_signal t.inner.signal_mask)) [
    | none ↦ ok (goes_on, t)
    | some s ↦
        handle_signal
          (record t {
            inner = record t.inner { pending_signal = remove t.inner.pending_signal (singleton s) };
          })
          s (action s)
  ]

  -- `sys_rt_sigreturn` returns the register `a0` of the old context. When there is no context to read the
  -- process is also ended, which is left out here.
  unfoldable pub sigreturn : Thread → KResult (ℕ × Thread)
  sigreturn t = ensure (not (t.trap_context.sp == 0)) einval >> elim (t.memory t.trap_context.sp) [
    | none ↦ err break
    | some c ↦ ok (
      c.old_trap_context.a0,
      record t {
        inner = record t.inner { signal_mask = c.old_mask };
        trap_context = c.old_trap_context;
      },
    )
  ]

  -- The thread as its handler starts.
  abbrev pub entered : Thread → Signal → KSignalAction → Thread
  entered t s a =
      let sp = t.trap_context.sp - context_size in
      record {
        inner = record t.inner { signal_mask = handler_mask a s t.inner.signal_mask };
        trap_context = record t.trap_context {
          sepc = a.handler;
          sp = sp;
          ra = a.restorer;
          a0 = to_user s;
        };
        memory = λ addr.
            if addr == sp
            then some (record { old_mask = t.inner.signal_mask; old_trap_context = t.trap_context })
            else t.memory addr;
      }

  -- A handler for which the stack has room starts with its address, stack, return address and signal
  -- number in the registers. If it returns with the stack pointer that it was given, and leaves the saved
  -- context alone, the thread comes back to the registers and the mask that it had before the signal,
  -- whatever the handler did to other registers, to its mask and to its pending signals.
  pub sigreturn-call_handler :
      (t : Thread) (s : Signal) (a : KSignalAction) (after : TrapContext) (inner : ThreadInner)
      → context_size < t.trap_context.sp
      → writable (t.trap_context.sp - context_size) ≡ true
      → after.sp ≡ t.trap_context.sp - context_size
      → (call_handler t s a ≡ ok (goes_on, entered t s a))
        × (sigreturn (record (entered t s a) { trap_context = after; inner = inner })
            ≡ ok (
              t.trap_context.a0,
              record (entered t s a) {
                trap_context = t.trap_context;
                inner = record inner { signal_mask = t.inner.signal_mask };
              },
            ))
  unfolding call_handler sigreturn
  sigreturn-call_handler t s a after inner h w e =
      let fits : leb context_size t.trap_context.sp ≡ true = ground arith in
      let here : (t.trap_context.sp - context_size == t.trap_context.sp - context_size) ≡ true =
        ground arith in
      let some_sp : (t.trap_context.sp - context_size == 0) ≡ false = ground arith in
      (rw (fits, w) refl, rw (e, some_sp, here) refl)

-- What `receive_signal` does to the threads: nothing if each one masks the signal or has it pending;
-- otherwise it becomes pending for one thread that neither masks it nor has it pending, the first such.
abbrev pub ReceiveOutcome : Signal → List ThreadInner → List ThreadInner → Type 0
ReceiveOutcome s [] ts' = ts' ≡ []
ReceiveOutcome s (t ∷ ts) [] = ⊥
ReceiveOutcome s (t ∷ ts) (t' ∷ ts') =
    ((is_eligible (singleton s) t ≡ true)
      × (t' ≡ record t { pending_signal = insert t.pending_signal (singleton s) })
      × (ts' ≡ ts))
    ⊎ ((is_eligible (singleton s) t ≡ false) × (t' ≡ t) × ReceiveOutcome s ts ts')

-- `receive_signal` makes the signal pending for the first thread that neither masks it nor has it pending,
-- and changes nothing else.
pub receive_signal_lem :
    (s : Signal) (ts : List ThreadInner) → ReceiveOutcome s ts (receive_signal s ts)
unfolding receive_signal
receive_signal_lem s [] = refl
receive_signal_lem s (t ∷ ts) = elim (Bool-cases (is_eligible (singleton s) t)) [
  | inl e ↦ rw e (inl (e, refl, refl))
  | inr e ↦ rw e (inr (e, refl, receive_signal_lem s ts))
]
