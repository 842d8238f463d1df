-- ===== src/Process/Family.antt =====
-- How processes come and go: `fork` of crates/libkernel/src/process/mod.rs, `exit_thread` of
-- crates/libkernel/src/thread/mod.rs, and the pids that `sys_wait4` and the end of a process give back.
pub mod Count
pub mod Invariant
pub mod Update
pub mod Fork
pub mod Adopt
pub mod Exit
pub mod Last
pub mod Reap
pub mod Waiting
mod Tests
use asynclear.Prelude.{
  ℕ, zero, suc, ◌+◌, Bool, true, false, not, ◌&&◌, Option, none, some, List, [], ◌∷◌, ◌++◌, ◌==◌,
  length, if◌then◌else◌, KResult, ok, ◌>>=◌, ◌>>◌, assert, unwrap,
}
use asynclear.BTreeMap.{BTreeMap, get, insert, remove}
use asynclear.IdAllocator.{RecycleAllocator, alloc, dealloc}
use asynclear.Signal.{Signal}
use asynclear.Signal.Set.{singleton}
use asynclear.Signal.Set
use asynclear.Signal.Deliver.{ThreadInner, is_eligible}
use asynclear.Process.Status.{last_status, exit_process}
use asynclear.Process.Wait.{Process, ProcessManager, WaitResult, wait4}

-- `PROCESS_MANAGER` and `PID_ALLOCATOR`.
pub record Processes : Type 0 where
  pub procs : ProcessManager
  pub pids : RecycleAllocator

abbrev pub initproc_pid : ℕ
initproc_pid = 1

abbrev pub is_empty {ℓ} : {A : Type ℓ} → List A → Bool
is_empty [] = true
is_empty (x ∷ xs) = false

-- `receive_signal` on the threads of a process.
unfoldable pub receive_in : Signal → BTreeMap ThreadInner → BTreeMap ThreadInner
receive_in s [] = []
receive_in s ((tid, t) ∷ ts) =
    let rest = receive_in s ts in
    if is_eligible (singleton s) t
    then (tid, record t { pending_signal = Set.insert t.pending_signal (singleton s) }) ∷ ts
    else (tid, t) ∷ rest

-- The child of process `self`, with a copy of its main thread.
abbrev pub child_of : Process → ℕ → ThreadInner → Option Signal → Process
child_of p self main exit_signal = record {
  status = p.status;
  children = [];
  parent = some self;
  exit_signal = exit_signal;
  threads = (0, record { signal_mask = main.signal_mask; pending_signal = 0 }) ∷ [];
}

-- The memory, the files and the handlers are copied too; that is other state.
unfoldable pub fork : Processes → ℕ → Option Signal → KResult (ℕ × Processes)
fork w self exit_signal = do
  p ← unwrap (get w.procs self)
  assert (length p.threads == 1)
  main ← unwrap (get p.threads 0)
  (pid, pids) ← alloc w.pids
  ok (
    pid,
    record {
      procs =
          insert (insert w.procs pid (child_of p self main exit_signal)) self
            (record p { children = p.children ++ pid ∷ [] });
      pids = pids;
    },
  )

-- The loop that hands the children of a process to the first one.
unfoldable pub adopt : ProcessManager → List ℕ → KResult ProcessManager
adopt ps [] = ok ps
adopt ps (c ∷ cs) = do
  q ← unwrap (get ps c)
  let ps' = insert ps c (record q { parent = some initproc_pid })
  i ← unwrap (get ps' initproc_pid)
  adopt (insert ps' initproc_pid (record i { children = i.children ++ c ∷ [] })) cs

-- The parent is sent the exit signal; its event is notified, which only ends a wait.
unfoldable pub notify_parent : ProcessManager → Option ℕ → Option Signal → KResult ProcessManager
notify_parent ps none exit_signal = ok ps
notify_parent ps (some parent) none = ok ps
notify_parent ps (some parent) (some s) = do
  p ← unwrap (get ps parent)
  ok (insert ps parent (record p { threads = receive_in s p.threads }))

-- What is left of a process whose last thread has exited.
abbrev pub zombie_of : Process → ℕ → Process
zombie_of p thread_code = record p {
  status = last_status p.status thread_code;
  children = [];
  parent = none;
  threads = [];
}

-- `SHUTDOWN` is set if the first process ends.
unfoldable pub exit_last : ProcessManager → ℕ → Process → ℕ → KResult (Bool × ProcessManager)
unfolding adopt notify_parent
exit_last ps self p thread_code =
    let ps' = insert ps self (zombie_of p thread_code) in
    if self == initproc_pid
    then (assert (is_empty p.children)
        >> (notify_parent ps' p.parent p.exit_signal >>= λ r. ok (true, r)))
    else (unwrap (get ps' initproc_pid) >>= λ i. adopt ps' p.children >>= λ r.
        notify_parent r p.parent p.exit_signal >>= λ r'. ok (false, r'))

-- The thread's id, its stack and the memory of the process are given back too; that is other state.
unfoldable pub exit_thread : Processes → ℕ → ℕ → ℕ → KResult (Bool × Processes)
unfolding exit_last
exit_thread w self tid thread_code = do
  p ← unwrap (get w.procs self)
  t ← unwrap (get p.threads tid)
  let threads = remove p.threads tid
  (shutdown, procs) ←
      (if is_empty threads
        then exit_last w.procs self p thread_code
        else ok (false, insert w.procs self (record p { threads = threads })))
  ok (shutdown, record w { procs = procs })

-- `exit_process`, which `sys_exit_group` calls.
unfoldable pub exit_group : Processes → ℕ → ℕ → KResult Processes
exit_group w self code = do
  p ← unwrap (get w.procs self)
  status ← exit_process p.status code
  ok (record w { procs = insert w.procs self (record p { status = status }) })

-- A child that has been waited for is dropped, and its pid is free again.
abbrev pub drop_process : RecycleAllocator → WaitResult → KResult RecycleAllocator
drop_process pids (WaitResult.exited pid status) = dealloc pids pid
drop_process pids WaitResult.no_hang = ok pids
drop_process pids WaitResult.wait = ok pids

-- What the round of `wait4` leaves, and the pid that is given back with the child.
abbrev pub give_back : Processes → WaitResult × ProcessManager → KResult (WaitResult × Processes)
give_back w (r, procs) = do
  pids ← drop_process w.pids r
  ok (r, record { procs = procs; pids = pids })

unfoldable pub wait_round : Processes → ℕ → Option ℕ → Bool → KResult (WaitResult × Processes)
wait_round w self want nohang = wait4 w.procs self want nohang >>= give_back w
