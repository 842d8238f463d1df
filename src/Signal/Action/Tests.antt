-- ===== src/Signal/Action/Tests.antt =====
-- An action for SIGINT that is installed and taken back.
use asynclear.Prelude.{
  Bool, inl, ℕ, ◌%◌, ◌^◌, ◌≡◌, refl, true, false, some, none, ok, ◌==◌, ◌||◌, if◌then◌else◌, arith,
}
use asynclear.Fs.OpenFlags.{has}
use asynclear.Signal.{sigint, code, to_user, from_user}
use asynclear.Signal.Deliver.{KSignalAction}
use asynclear.Memory.Address.{VirtAddr}
use asynclear.Signal.Action.{Actions, restorer_flag, read_action, write_action, sys_rt_sigaction}
use asynclear.Signal.Action.Memory.{IsStored}
use asynclear.Signal.Action.Restore.{sys_rt_sigaction-restores}

abbrev action_at : ℕ → KSignalAction
action_at h = record { handler = h; flags = restorer_flag; restorer = 64; action_mask = 0 }

-- Memory has an action at 4096.
abbrev actions : Actions
actions = record {
  actions = λ j. action_at 0;
  memory = write_action (action_at 4096) (λ a. 0) 4096;
}

number_two : from_user (2 % 2 ^ 8) ≡ some sigint
unfolding from_user
number_two = refl

not_reserved : (code sigint == 8 || code sigint == 18) ≡ false
unfolding code to_user
not_reserved = refl

has_restorer : has restorer_flag restorer_flag ≡ true
unfolding has
has_restorer = refl

new_restorer : has (read_action actions.memory 4096).flags restorer_flag ≡ true
unfolding has
new_restorer = refl

zero-IsStored : IsStored (action_at 0)
zero-IsStored = record {
  handler = omega arith;
  flags = omega arith;
  restorer = omega arith;
  action_mask = omega arith;
}

abbrev always : VirtAddr → Bool
always a = true

sys_rt_sigaction-restores_example :
    (st1 : Actions) × (st2 : Actions) × (sys_rt_sigaction always always 2
        (some 4096)
        (some 8192)
        actions
      ≡ (ok 0, st1))
    × (sys_rt_sigaction always always 2 (some 8192) none st1 ≡ (ok 0, st2))
    × ((j : ℕ)
        → st1.actions j
          ≡ (if j == code sigint then read_action actions.memory 4096 else action_at 0))
    × ((j : ℕ) → st2.actions j ≡ action_at 0)
sys_rt_sigaction-restores_example =
    sys_rt_sigaction-restores always always 2 4096 8192 sigint actions number_two not_reserved refl
      refl refl (inl (omega arith)) new_restorer has_restorer zero-IsStored
