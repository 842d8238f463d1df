-- ===== src/Process/Tests.antt =====
-- Statuses, stacks and waiting on examples.
use asynclear.Prelude.{
  panic, ◌^◌, ◌-◌, true, ◌+◌, ◌<◌, ◌≤◌, ◌≡◌, refl, [], ◌∷◌, some, none, ok, arith, false,
}
use asynclear.BTreeMap.{get, IsSorted}
use asynclear.Memory.Address.{VirtPageNum}
use asynclear.Process.Stack.{last_tid, user_stack_low_addr, user_stack_high_addr, stacks_apart}
use asynclear.Process.Wait.{Process, ProcessManager, sys_wait4}
use asynclear.Process.Wait.Call.{GuardOutcome, sys_wait4_lem}

stacks_apart_example :
    (last_tid < 1 → user_stack_low_addr 1 ≡ panic)
    × (1 ≤ last_tid
        → (low : VirtPageNum) × (high : VirtPageNum) × (low' : VirtPageNum) × (high' : VirtPageNum)
          × (user_stack_low_addr 0 ≡ ok low)
          × (user_stack_high_addr 0 ≡ ok high)
          × (user_stack_low_addr 1 ≡ ok low')
          × (user_stack_high_addr 1 ≡ ok high')
          × (low + 2048 ≡ high)
          × (low' + 2048 ≡ high')
          × (high' + 1 ≤ low)
          × (high ≤ 0x400_0000))
stacks_apart_example = stacks_apart 0 1 (omega arith)

abbrev parent : Process
parent = record {
  status = 0;
  children = 2 ∷ 3 ∷ [];
  parent = none;
  exit_signal = none;
  threads = [];
}

-- Process 1 has a running child and one that exited with code 7.
abbrev table : ProcessManager
table =
    (1, parent)
    ∷ (2, record { status = 0; children = []; parent = some 1; exit_signal = none; threads = [] })
    ∷ (3, record { status = 519; children = []; parent = none; exit_signal = none; threads = [] })
    ∷ []

table-IsSorted : IsSorted table
table-IsSorted = (omega arith, (omega arith, (omega arith, tt)))

first-get : get table 1 ≡ some parent
unfolding get
first-get = refl

-- The status cannot be written: the zombie is gone, and the call fails.
sys_wait4_lem_example :
    GuardOutcome table 1 parent none false
      (some false)
      true
      true
      (sys_wait4 1 (2 ^ 64 - 1) (some false) 0 0 table)
sys_wait4_lem_example =
    sys_wait4_lem table 1 parent (2 ^ 64 - 1) (some false) 0 0 table-IsSorted first-get
