-- ===== src/Signal/Action.antt =====
-- `sys_rt_sigaction` of crates/kernel/src/syscall/signal.rs, on the actions of a process
-- (crates/libkernel/src/signal/handlers.rs) and the actions in user memory.
pub mod Memory
pub mod Restore
mod Tests
use asynclear.Prelude.{
  ℕ, zero, suc, ◌+◌, ◌*◌, ◌%◌, ◌^◌, Bool, true, false, ◌||◌, Option, none, some, List, ◌++◌, ◌==◌,
  if◌then◌else◌, KResult, ok, err, panic, einval, efault,
}
use asynclear.Prelude.Stateful.{Action}
use asynclear.Memory.Address.{VirtAddr}
use asynclear.Memory.InitStack.{le_bytes, write_bytes}
use asynclear.Fs.OpenFlags.{has}
use asynclear.Signal.{Signal, code, from_user}
use asynclear.Signal.Deliver.{KSignalAction}

abbrev pub restorer_flag : ℕ
restorer_flag = 0x400_0000

-- The actions by the index of their signal, and user memory by bytes.
pub record Actions : Type 0 where
  pub actions : ℕ → KSignalAction
  pub memory : VirtAddr → ℕ

-- The number whose bytes lie at an address, the lowest first.
abbrev pub read_le : (VirtAddr → ℕ) → ℕ → VirtAddr → ℕ
read_le memory zero a = 0
read_le memory (suc k) a = memory a + 256 * read_le memory k (a + 1)

-- A `KSignalAction` in memory: three words and, after the first, the 32 bits of the flags and 4 bytes that
-- are not used.
abbrev pub read_action : (VirtAddr → ℕ) → VirtAddr → KSignalAction
read_action memory a = record {
  handler = read_le memory 8 a;
  flags = read_le memory 4 (a + 8);
  restorer = read_le memory 8 (a + 16);
  action_mask = read_le memory 8 (a + 24);
}

abbrev pub write_action : KSignalAction → (VirtAddr → ℕ) → VirtAddr → VirtAddr → ℕ
write_action act memory a =
    write_bytes
      (write_bytes memory (a + 16) (le_bytes 8 act.restorer ++ le_bytes 8 act.action_mask)) a
      (le_bytes 8 act.handler ++ le_bytes 4 act.flags)

-- `readable` and `writable` are the checks of a pointer to an action.
module _ (readable writable : VirtAddr → Bool) where
  abbrev pub save_old : Signal → Option VirtAddr → Action Actions (Unit {0})
  save_old s none st = (ok tt, st)
  save_old s (some ptr) st =
      if writable ptr
      then (ok tt, record st { memory = write_action (st.actions (code s)) st.memory ptr })
      else (err efault, st)

  -- An action without a restorer is `todo!`.
  abbrev pub install : Signal → Option VirtAddr → Action Actions ℕ
  install s none st = (ok 0, st)
  install s (some ptr) st =
      let act = read_action st.memory ptr in
      if readable ptr
      then (if has act.flags restorer_flag
          then (ok 0, record st { actions = λ j. if j == code s then act else st.actions j })
          else (panic, st))
      else (err efault, st)

  abbrev pub then_install :
      Signal → Option VirtAddr → KResult (Unit {0}) × Actions → KResult ℕ × Actions
  then_install s new_act (ok u, st) = install s new_act st
  then_install s new_act (err e, st) = (err e, st)
  then_install s new_act (panic, st) = (panic, st)

  -- The number is cut to 8 bits; SIGKILL and SIGSTOP have the indices 8 and 18.
  unfoldable pub sys_rt_sigaction : ℕ → Option VirtAddr → Option VirtAddr → Action Actions ℕ
  sys_rt_sigaction signum new_act old_act st = elim (from_user (signum % 2 ^ 8)) [
    | none ↦ (err einval, st)
    | some s ↦
        if code s == 8 || code s == 18
        then (err einval, st)
        else then_install s new_act (save_old s old_act st)
  ]
