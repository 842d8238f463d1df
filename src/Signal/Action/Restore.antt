-- ===== src/Signal/Action/Restore.antt =====
-- Saving an action and installing it again.
use asynclear.Prelude.{
  ℕ, ◌+◌, ◌≤◌, ◌%◌, ◌^◌, ◌≡◌, refl, sym, ap, ◌∙◌, Bool, true, false, ◌||◌, none, some, ◌==◌, ◌⊎◌,
  if◌then◌else◌, Bool-cases, inl, inr, ok, ==_iff,
}
use asynclear.Memory.Address.{VirtAddr}
use asynclear.Fs.OpenFlags.{has}
use asynclear.Signal.{Signal, code, from_user}
use asynclear.Signal.Deliver.{KSignalAction}
use asynclear.Signal.Action.{Actions, restorer_flag, read_action, write_action, sys_rt_sigaction}
use asynclear.Signal.Action.Memory.{
  IsStored, read_action-write_action, read_action-write_action_other,
}

module _ (readable writable : VirtAddr → Bool) where
  -- With both pointers accepted, the 32 bytes at `new` apart from those at `old`, and the flag SA_RESTORER
  -- set in the action at `new`, for a signal other than SIGKILL and SIGSTOP: a call that installs the action
  -- at `new` and saves the old one at `old`, followed by a call that installs the one at `old`, if that has
  -- the flag too and its fields fit in memory, leaves every action of the process as it was; between the
  -- two, the signal has the action that was at `new` and the others are as before.
  pub sys_rt_sigaction-restores :
      (signum : ℕ) (new old : VirtAddr) (s : Signal) (st : Actions)
      → from_user (signum % 2 ^ 8) ≡ some s
      → (code s == 8 || code s == 18) ≡ false
      → readable new ≡ true
      → readable old ≡ true
      → writable old ≡ true
      → (new + 32 ≤ old) ⊎ (old + 32 ≤ new)
      → has (read_action st.memory new).flags restorer_flag ≡ true
      → has (st.actions (code s)).flags restorer_flag ≡ true
      → IsStored (st.actions (code s))
      → (st1 : Actions) × (st2 : Actions) × (sys_rt_sigaction readable writable signum
            (some new)
            (some old)
            st
          ≡ (ok 0, st1))
        × (sys_rt_sigaction readable writable signum (some old) none st1 ≡ (ok 0, st2))
        × ((j : ℕ)
            → st1.actions j ≡ (if j == code s then read_action st.memory new else st.actions j))
        × ((j : ℕ) → st2.actions j ≡ st.actions j)
  unfolding sys_rt_sigaction
  sys_rt_sigaction-restores signum new old s st e k rn ro wo d f g stored =
      let act = st.actions (code s) in
      let memory1 : VirtAddr → ℕ = write_action act st.memory old in
      let fresh : read_action memory1 new ≡ read_action st.memory new =
        read_action-write_action_other act st.memory old new d in
      let back : read_action memory1 old ≡ act =
        read_action-write_action act st.memory old stored in
      let f1 : has (read_action memory1 new).flags restorer_flag ≡ true =
        ap (λ (a : KSignalAction). has a.flags restorer_flag) fresh ∙ f in
      let g1 : has (read_action memory1 old).flags restorer_flag ≡ true =
        ap (λ (a : KSignalAction). has a.flags restorer_flag) back ∙ g in
      let st1 : Actions = record {
        actions = λ j. if j == code s then read_action memory1 new else st.actions j;
        memory = memory1;
      } in
      (
        st1,
        record st1 {
          actions = λ j. if j == code s then read_action memory1 old else st1.actions j;
        },
        rw (sys_rt_sigaction, e, k, wo, rn, f1) refl,
        rw (sys_rt_sigaction, e, k, ro, g1) refl,
        λ j. ap (λ a. if j == code s then a else st.actions j) fresh,
        λ j. elim (Bool-cases (j == code s)) [
          | inl h ↦
              let js : j ≡ code s = (==_iff j (code s)).0 h in rw h (back ∙ ap st.actions (sym js))
          | inr h ↦ rw h refl
        ],
      )
