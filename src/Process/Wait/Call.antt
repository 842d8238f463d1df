-- ===== src/Process/Wait/Call.antt =====
-- `sys_wait4` with its guards and the status that it writes.
use asynclear.Prelude.{
  ℕ, ◌≡◌, refl, Bool, true, false, Option, none, some, KResult, ok, err, panic, echild, efault,
  einval, ◌⊎◌, inl, inr, Bool-cases,
}
use asynclear.BTreeMap.{get, IsSorted}
use asynclear.Process.Wait.{
  Process, ProcessManager, WaitResult, exited, no_hang, wait, wait4, WaitOutcome, wait4_lem,
  any_wanted, wanted_pid, is_supported, has_known_flags, is_nohang, write_status, sys_wait4,
}

-- What a call with known flags may do, for a parent `p`.
abbrev pub CallOutcome :
    ProcessManager
    → ℕ
    → Process
    → Option ℕ
    → Bool
    → Option Bool
    → KResult WaitResult × ProcessManager
    → Type 0
CallOutcome ps self p want nohang (some false) (ok (exited c st), ps') = ⊥
CallOutcome ps self p want nohang (some true) (ok (exited c st), ps') =
    WaitOutcome ps self p want nohang (ok (exited c st, ps'))
CallOutcome ps self p want nohang none (ok (exited c st), ps') =
    WaitOutcome ps self p want nohang (ok (exited c st, ps'))
CallOutcome ps self p want nohang wstatus (ok no_hang, ps') =
    WaitOutcome ps self p want nohang (ok (no_hang, ps'))
CallOutcome ps self p want nohang wstatus (ok wait, ps') =
    WaitOutcome ps self p want nohang (ok (wait, ps'))
CallOutcome ps self p want nohang wstatus (err e, ps') =
    ((e ≡ echild) × (any_wanted want p.children ≡ false) × (ps' ≡ ps))
    ⊎ ((e ≡ efault)
        × (wstatus ≡ some false)
        × ((c : ℕ) × (st : ℕ) × WaitOutcome ps self p want nohang (ok (exited c st, ps'))))
CallOutcome ps self p want nohang wstatus (panic, ps') = ⊥

-- What a call may do, by whether its arguments are supported and its flags are known.
abbrev pub GuardOutcome :
    ProcessManager
    → ℕ
    → Process
    → Option ℕ
    → Bool
    → Option Bool
    → Bool
    → Bool
    → KResult WaitResult × ProcessManager
    → Type 0
GuardOutcome ps self p want nohang wstatus false known r = r ≡ (panic, ps)
GuardOutcome ps self p want nohang wstatus true false r = r ≡ (err einval, ps)
GuardOutcome ps self p want nohang wstatus true true r = CallOutcome ps self p want nohang wstatus r

write_status_lem :
    (ps : ProcessManager) (self : ℕ) (p : Process) (want : Option ℕ) (nohang : Bool)
    (wstatus : Option Bool) (r : KResult (WaitResult × ProcessManager))
    → WaitOutcome ps self p want nohang r
    → CallOutcome ps self p want nohang wstatus (write_status ps wstatus r)
write_status_lem ps self p want nohang (some false) (ok (exited c st, ps')) o =
    inr (refl, refl, (c, st, o))
write_status_lem ps self p want nohang (some true) (ok (exited c st, ps')) o = o
write_status_lem ps self p want nohang none (ok (exited c st, ps')) o = o
write_status_lem ps self p want nohang (some false) (ok (no_hang, ps')) o = o
write_status_lem ps self p want nohang (some true) (ok (no_hang, ps')) o = o
write_status_lem ps self p want nohang none (ok (no_hang, ps')) o = o
write_status_lem ps self p want nohang (some false) (ok (wait, ps')) o = o
write_status_lem ps self p want nohang (some true) (ok (wait, ps')) o = o
write_status_lem ps self p want nohang none (ok (wait, ps')) o = o
write_status_lem ps self p want nohang (some false) (err e) o = inl (o.0, o.1, refl)
write_status_lem ps self p want nohang (some true) (err e) o = inl (o.0, o.1, refl)
write_status_lem ps self p want nohang none (err e) o = inl (o.0, o.1, refl)
write_status_lem ps self p want nohang wstatus panic o = absurd o

-- A call of `sys_wait4` by a process of the table, up to a wait. It panics, and changes nothing, if the pid
-- is neither -1 nor positive or `rusage` is not null; else it fails with EINVAL, and changes nothing, if
-- the flags have a bit that is not declared. Else it fails with ECHILD and changes nothing exactly if no
-- child is the one that is waited for. It takes a child only if that is a zombie and waited for, with the
-- code it exited with, takes it off the table and the list of children and changes nothing else; if there
-- is a pointer for the status and it is not writable the call fails with EFAULT, and the child is gone all
-- the same. If no such child is a zombie it changes nothing, and returns at once or waits as the flag
-- tells.
pub sys_wait4_lem :
    (ps : ProcessManager) (self : ℕ) (p : Process) (pid : ℕ) (wstatus : Option Bool)
    (options rusage : ℕ)
    → IsSorted ps
    → get ps self ≡ some p
    → GuardOutcome ps self p
        (wanted_pid pid)
        (is_nohang options)
        wstatus
        (is_supported pid rusage)
        (has_known_flags options)
        (sys_wait4 self pid wstatus options rusage ps)
unfolding sys_wait4
sys_wait4_lem ps self p pid wstatus options rusage v g =
    elim (Bool-cases (is_supported pid rusage)) [
      | inr a ↦ rw (sys_wait4, a) refl
      | inl a ↦ elim (Bool-cases (has_known_flags options)) [
        | inr b ↦ rw (sys_wait4, a, b) refl
        | inl b ↦
            rw (sys_wait4, a, b)
              (write_status_lem ps self p (wanted_pid pid) (is_nohang options) wstatus
                (wait4 ps self (wanted_pid pid) (is_nohang options))
                (wait4_lem ps self p (wanted_pid pid) (is_nohang options) v g))
      ]
    ]
