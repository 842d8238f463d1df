-- ===== src/Process/Family/Tests.antt =====
-- A first process that forks, a child that exits with 7, and its end.
use asynclear.Prelude.{
  ℕ, ◌≡◌, refl, Bool, true, false, none, some, [], ◌∷◌, ◌==◌, if◌then◌else◌, Bool-cases, inl, inr,
  contains, arith, KResult, ok, err, panic, sym, ◌∙◌, ap, subst,
}
use asynclear.BTreeMap.{get, insert, remove}
use asynclear.IdAllocator.{alloc}
use asynclear.Signal.{Signal, sigchld}
use asynclear.Signal.Deliver.{ThreadInner}
use asynclear.Signal.Set.{singleton}
use asynclear.Process.Status.{is_zombie, last_status, exit_code, zombie}
use asynclear.Process.Wait.{Process, WaitResult}
use asynclear.Process.Family.{
  Processes, zombie_of, adopt, notify_parent, receive_in, fork, child_of, exit_thread, wait_round,
}
use asynclear.Process.Family.Invariant.{IsFamily, some-injective}
use asynclear.Process.Family.Exit.{Ends}
use asynclear.Process.Family.Waiting.{Reaps}
use asynclear.Process.Family.Fork.{fork_lem}
use asynclear.Process.Family.Last.{exit_thread_lem}
use asynclear.Process.Family.Waiting.{WaitsAs, wait_lem, zombie-waits}

abbrev main : ThreadInner
main = record { signal_mask = 0; pending_signal = 0 }

abbrev init : Process
init = record {
  status = 0;
  children = [];
  parent = none;
  exit_signal = none;
  threads = (0, main) ∷ [];
}

-- Only the first process is there.
abbrev start : Processes
start = record { procs = (1, init) ∷ []; pids = record { current = 2; recycled = [] } }

-- It has forked process 2.
abbrev forked : Processes
forked = record {
  procs = (1, record init { children = 2 ∷ [] }) ∷ (2, child_of init 1 main (some sigchld)) ∷ [];
  pids = record { current = 3; recycled = [] };
}

-- Process 2 has ended with 7, and the first process has been sent SIGCHLD.
abbrev ended : Processes
ended = record forked {
  procs =
      (
        1,
        record init {
          children = 2 ∷ [];
          threads = (0, record { signal_mask = 0; pending_signal = 65536 }) ∷ [];
        },
      )
      ∷ (2, zombie_of (child_of init 1 main (some sigchld)) 7)
      ∷ [];
}

or_start : {A : Type 0} → KResult (A × Processes) → Processes
or_start (ok r) = r.1
or_start (err e) = start
or_start panic = start

-- The family that a theorem gives for a result is the one for the result itself.
IsFamily-of :
    {A : Type 0} (r : KResult (A × Processes)) (a b : A) (w w' : Processes)
    → r ≡ ok (a, w)
    → r ≡ ok (b, w')
    → IsFamily w
    → IsFamily w'
unfolding or_start
IsFamily-of r a b w w' e f v = subst IsFamily (ap or_start (sym e ∙ f)) v

start_get : (j : ℕ) → get start.procs j ≡ (if 1 == j then some init else none)
unfolding get
start_get j = elim (Bool-cases (1 == j)) [ inl e ↦ rw e refl | inr e ↦ rw e refl ]

start_process : (c : ℕ) (r : Process) → get start.procs c ≡ some r → (1 ≡ c) × (init ≡ r)
start_process c r g = elim (Bool-cases (1 == c)) [
  | inl e ↦ (ground (arith, e), some-injective init r (sym (start_get c ∙ rw e refl) ∙ g))
  | inr e ↦ let bad : none ≡ some r = sym (start_get c ∙ rw e refl) ∙ g in absurd (cc bad)
]

init_alive : is_zombie 0 ≡ false
unfolding is_zombie
init_alive = refl

start-IsFamily : IsFamily start
start-IsFamily = record {
  sorted = (omega arith, tt);
  pids = tt;
  known = λ j. elim (Bool-cases (1 == j)) [
    | inl e ↦ rw (start_get j, e) (ground (arith, e))
    | inr e ↦ rw (start_get j, e) (ground (arith, e))
  ];
  no_zero = start_get 0;
  one_parent = λ c. elim (Bool-cases (1 == c)) [
    | inl e ↦ rw (start_get c, e) (ground (arith, e))
    | inr e ↦ rw (start_get c, e) refl
  ];
  linked = λ c r g a n. absurd (ground (arith, (start_process c r g).0));
  dead = λ c r g a.
      let bad : true ≡ false =
        sym a
        ∙ ap (λ (x : Process). is_zombie x.status) (sym (start_process c r g).1)
        ∙ init_alive in
      absurd (cc bad);
  init = (init, start_get 1, init_alive);
}

start_alloc : alloc start.pids ≡ ok (2, forked.pids)
unfolding alloc
start_alloc = refl

main-get : get init.threads 0 ≡ some main
unfolding get
main-get = refl

fork_lem_example :
    (w' : Processes) × (fork start 1 (some sigchld) ≡ ok (2, w'))
    × IsFamily w'
    × (get start.procs 2 ≡ none)
    × ((j : ℕ)
        → get w'.procs j ≡ (
            if 1 == j
            then some (record init { children = 2 ∷ [] })
            else if 2 == j
            then some (child_of init 1 main (some sigchld))
            else get start.procs j))
fork_lem_example =
    fork_lem start 1 2 (some sigchld) init main forked.pids start-IsFamily (start_get 1) refl
      main-get start_alloc

fork_run : fork start 1 (some sigchld) ≡ ok (2, forked)
unfolding fork get insert alloc
fork_run = refl

forked-IsFamily : IsFamily forked
forked-IsFamily =
    IsFamily-of (fork start 1 (some sigchld)) 2 2 _ forked fork_lem_example.1 fork_run
      fork_lem_example.2

forked_get :
    (j : ℕ)
    → get forked.procs j ≡ (
        if 1 == j
        then some (record init { children = 2 ∷ [] })
        else if 2 == j
        then some (child_of init 1 main (some sigchld))
        else none)
unfolding get
forked_get j = elim (Bool-cases (1 == j)) [
  | inl e ↦ rw e refl
  | inr e ↦ elim (Bool-cases (2 == j)) [ inl f ↦ rw (e, f) refl | inr f ↦ rw (e, f) refl ]
]

exit_thread_lem_example :
    (w' : Processes) × (exit_thread forked 2 0 7 ≡ ok (false, w'))
    × IsFamily w'
    × (remove ((0, main) ∷ []) 0 ≡ [] → Ends forked 2 (child_of init 1 main (some sigchld)) 7 w')
exit_thread_lem_example =
    exit_thread_lem forked 2 0 7 (child_of init 1 main (some sigchld)) main forked-IsFamily
      (forked_get 2) main-get refl (omega arith)

exit_run : exit_thread forked 2 0 7 ≡ ok (false, ended)
unfolding exit_thread get insert remove adopt notify_parent receive_in last_status exit_code zombie
    singleton asynclear.Signal.Set.contains_all asynclear.Signal.code asynclear.Signal.Set.insert
exit_run = refl

ended-IsFamily : IsFamily ended
ended-IsFamily =
    IsFamily-of (exit_thread forked 2 0 7) false false _ ended exit_thread_lem_example.1 exit_run
      exit_thread_lem_example.2

ended-get : get ended.procs 2 ≡ some (zombie_of (child_of init 1 main (some sigchld)) 7)
unfolding get
ended-get = refl

ended_first :
    get ended.procs 1
    ≡ some (record init {
      children = 2 ∷ [];
      threads = (0, record { signal_mask = 0; pending_signal = 65536 }) ∷ [];
    })
unfolding get
ended_first = refl

wait_lem_example :
    WaitsAs ended
      (record init {
        children = 2 ∷ [];
        threads = (0, record { signal_mask = 0; pending_signal = 65536 }) ∷ [];
      })
      none
      true
      (wait_round ended 1 none true)
wait_lem_example = wait_lem ended 1 _ none true ended-IsFamily ended_first

dead_two : is_zombie (zombie_of (child_of init 1 main (some sigchld)) 7).status ≡ true
unfolding is_zombie last_status exit_code zombie
dead_two = refl

zombie-waits_example :
    (k : ℕ) × (q : Process) × (get ended.procs k ≡ some q)
    × (contains q.children 2 ≡ true)
    × (is_zombie q.status ≡ false)
    × ((nohang : Bool)
        → (st : ℕ) × (w' : Processes) × (wait_round ended k (some 2) nohang
            ≡ ok (WaitResult.exited 2 st, w'))
          × Reaps 2 w')
zombie-waits_example = zombie-waits ended 2 _ ended-IsFamily ended-get dead_two refl
