-- ===== src/Process/Wait.antt =====
-- `sys_wait4` of crates/kernel/src/syscall/process.rs over the process table `ProcessManager`: one round
-- of its loop, and the call with its guards and the status that it writes, up to the first wait.
pub mod Call
use Prim.Native.Nat.{bit_and}
use asynclear.Prelude.{
  ◌-◌, ◌%◌, ◌<◌, ltb, not, einval, efault, ℕ, ◌*◌, ◌^◌, ◌≡◌, refl, Bool, true, false, ◌||◌, ◌&&◌,
  Option, none, some, List, [], ◌∷◌, ◌==◌, if◌then◌else◌, KResult, ok, err, panic, echild, ◌>>=◌,
  unwrap, arith, inl, inr, Bool-cases, ==_iff, contains, ◌⊎◌, sym,
}
use asynclear.BTreeMap.{BTreeMap, get, insert, remove, IsSorted}
use asynclear.BTreeMap.Laws.{get-insert, get-remove}
use asynclear.Signal.{Signal}
use asynclear.Signal.Deliver.{ThreadInner}
use asynclear.Process.Status.{ProcessStatus, is_zombie, exit_code}

-- A process as the others see it: threads by tid, and the pids of its parent and children.
pub record Process : Type 0 where
  pub status : ProcessStatus
  pub children : List ℕ
  pub parent : Option ℕ
  pub exit_signal : Option Signal
  pub threads : BTreeMap ThreadInner

abbrev pub ProcessManager : Type 0
ProcessManager = BTreeMap Process

abbrev pub status_of : ProcessManager → ℕ → ProcessStatus
status_of ps pid = elim (get ps pid) [ none ↦ 0 | some p ↦ p.status ]

-- `none` stands for -1, which is any child.
abbrev pub is_wanted : Option ℕ → ℕ → Bool
is_wanted none child = true
is_wanted (some pid) child = child == pid

-- The `for` loop: whether there is a proper child, and the last of them that is a zombie.
unfoldable pub find_child : ProcessManager → Option ℕ → List ℕ → Bool × Option ℕ → Bool × Option ℕ
find_child ps want [] acc = acc
find_child ps want (c ∷ cs) (seen, found) =
    let zombie = is_wanted want c && is_zombie (status_of ps c) in
    find_child ps want cs (is_wanted want c || seen, if zombie then some c else found)

-- The children without one of them, as `Vec::remove` leaves them.
abbrev pub without : ℕ → List ℕ → List ℕ
without c [] = []
without c (d ∷ ds) = let rest : List ℕ = without c ds in if d == c then ds else d ∷ rest

pub data WaitResult : Type 0 where
  -- The pid, and the status to write for the user.
  exited : ℕ → ℕ → WaitResult
  no_hang : WaitResult
  -- The thread waits for the event of its process.
  wait : WaitResult

abbrev pub reap :
    ProcessManager → ℕ → Process → Bool × Option ℕ → Bool → KResult (WaitResult × ProcessManager)
reap ps self p (false, found) nohang = err echild
reap ps self p (true, none) nohang = ok (if nohang then no_hang else wait, ps)
reap ps self p (true, some c) nohang = do
  code ← unwrap (exit_code (status_of ps c))
  ok (
    exited c (code * 2 ^ 8),
    insert (remove ps c) self (record p { children = without c p.children }),
  )

unfoldable pub wait4 : ProcessManager → ℕ → Option ℕ → Bool → KResult (WaitResult × ProcessManager)
unfolding find_child
wait4 ps self want nohang = do
  p ← unwrap (get ps self)
  reap ps self p (find_child ps want p.children (false, none)) nohang

-- The round with what comes before and after it. The pid is -1 or positive, in two's complement.
abbrev pub any_child : ℕ
any_child = 2 ^ 64 - 1

abbrev pub wanted_pid : ℕ → Option ℕ
wanted_pid pid = if pid == any_child then none else some pid

abbrev pub is_supported : ℕ → ℕ → Bool
is_supported pid rusage = (pid == any_child || (ltb 0 pid && ltb pid (2 ^ 63))) && rusage == 0

-- `WaitFlags::from_bits(options as u32)`
abbrev pub all_wait_flags : ℕ
all_wait_flags = 11

abbrev pub has_known_flags : ℕ → Bool
has_known_flags options = bit_and (options % 2 ^ 32) all_wait_flags == options % 2 ^ 32

abbrev pub is_nohang : ℕ → Bool
is_nohang options = bit_and (options % 2 ^ 32) 1 == 1

-- `wstatus` is whether the pointer, if there is one, is writable; it is looked at when the child is gone.
abbrev pub write_status :
    ProcessManager
    → Option Bool
    → KResult (WaitResult × ProcessManager)
    → KResult WaitResult × ProcessManager
write_status ps (some false) (ok (exited c st, ps')) = (err efault, ps')
write_status ps (some true) (ok (exited c st, ps')) = (ok (exited c st), ps')
write_status ps none (ok (exited c st, ps')) = (ok (exited c st), ps')
write_status ps wstatus (ok (no_hang, ps')) = (ok no_hang, ps')
write_status ps wstatus (ok (wait, ps')) = (ok wait, ps')
write_status ps wstatus (err e) = (err e, ps)
write_status ps wstatus panic = (panic, ps)

unfoldable pub sys_wait4 :
    ℕ → ℕ → Option Bool → ℕ → ℕ → ProcessManager → KResult WaitResult × ProcessManager
unfolding wait4
sys_wait4 self pid wstatus options rusage ps =
    if not (is_supported pid rusage)
    then (panic, ps)
    else if not (has_known_flags options)
    then (err einval, ps)
    else write_status ps wstatus (wait4 ps self (wanted_pid pid) (is_nohang options))

abbrev pub any_wanted : Option ℕ → List ℕ → Bool
any_wanted want [] = false
any_wanted want (c ∷ cs) = is_wanted want c || any_wanted want cs

-- A proper child that has become a zombie.
abbrev pub is_ready : ProcessManager → Option ℕ → ℕ → Bool
is_ready ps want c = is_wanted want c && is_zombie (status_of ps c)

abbrev pub FindOutcome : ProcessManager → Option ℕ → List ℕ → Option ℕ → Option ℕ → Type 0
FindOutcome ps want cs before none =
    (before ≡ none) × ((c : ℕ) → contains cs c ≡ true → is_ready ps want c ≡ false)
FindOutcome ps want cs before (some c) =
    (before ≡ some c) ⊎ ((contains cs c ≡ true) × (is_ready ps want c ≡ true))

find_step :
    (ps : ProcessManager) (want : Option ℕ) (d : ℕ) (cs : List ℕ) (before r : Option ℕ)
    → FindOutcome ps want cs (if is_ready ps want d then some d else before) r
    → FindOutcome ps want (d ∷ cs) before r
find_step ps want d cs before none g = elim (Bool-cases (is_ready ps want d)) [
  | inl e ↦ absurd (ground (arith, rw e at g.0))
  | inr e ↦ (
    rw e at g.0,
    λ c m. elim (Bool-cases (c == d)) [
      | inl q ↦ rw ((==_iff c d).0 q) e
      | inr q ↦ g.1 c (ground arith)
    ],
  )
]
find_step ps want d cs before (some c) (inr g) = inr (ground (arith, g.0), g.1)
find_step ps want d cs before (some c) (inl g) = elim (Bool-cases (is_ready ps want d)) [
  | inr e ↦ inl (rw e at g)
  | inl e ↦ let q : d ≡ c = ground (arith, rw e at g) in inr (ground (arith, q), rw (← q) e)
]

pub find_lem :
    (ps : ProcessManager) (want : Option ℕ) (cs : List ℕ) (seen : Bool) (before : Option ℕ)
    → ((find_child ps want cs (seen, before)).0 ≡ (any_wanted want cs || seen))
      × FindOutcome ps want cs before (find_child ps want cs (seen, before)).1
unfolding find_child
find_lem ps want [] seen none = (refl, (refl, λ c m. ground arith))
find_lem ps want [] seen (some c) = (refl, inl refl)
find_lem ps want (d ∷ cs) seen before =
    let r =
      find_lem ps want cs (is_wanted want d || seen)
        (if is_ready ps want d then some d else before) in
    (ground (arith, r.0), find_step ps want d cs before _ r.1)

-- What a round of `sys_wait4` may do, for a parent `p`.
abbrev pub WaitOutcome :
    ProcessManager → ℕ → Process → Option ℕ → Bool → KResult (WaitResult × ProcessManager) → Type 0
WaitOutcome ps self p want nohang (ok (exited c st, ps')) =
    (contains p.children c ≡ true)
    × (is_ready ps want c ≡ true)
    × ((code : ℕ) × (exit_code (status_of ps c) ≡ some code) × (st ≡ code * 2 ^ 8))
    × ((j : ℕ)
        → get ps' j ≡ (
            if self == j
            then some (record p { children = without c p.children })
            else if c == j
            then none
            else get ps j))
WaitOutcome ps self p want nohang (ok (no_hang, ps')) =
    (ps' ≡ ps)
    × (nohang ≡ true)
    × (any_wanted want p.children ≡ true)
    × ((c : ℕ) → contains p.children c ≡ true → is_ready ps want c ≡ false)
WaitOutcome ps self p want nohang (ok (wait, ps')) =
    (ps' ≡ ps)
    × (nohang ≡ false)
    × (any_wanted want p.children ≡ true)
    × ((c : ℕ) → contains p.children c ≡ true → is_ready ps want c ≡ false)
WaitOutcome ps self p want nohang (err e) = (e ≡ echild) × (any_wanted want p.children ≡ false)
WaitOutcome ps self p want nohang panic = ⊥

pub zombie_code : (s : ProcessStatus) → is_zombie s ≡ true → (code : ℕ) × (exit_code s ≡ some code)
unfolding is_zombie exit_code
zombie_code s h = elim (Bool-cases (s == 0)) [
  | inl e ↦ absurd (ground (arith, rw ((==_iff s 0).0 e) at h))
  | inr e ↦ (bit_and s 255, rw e refl)
]

reap_outcome :
    (ps : ProcessManager) (self : ℕ) (p : Process) (want : Option ℕ) (nohang seen : Bool)
    (found : Option ℕ)
    → IsSorted ps
    → seen ≡ any_wanted want p.children
    → FindOutcome ps want p.children none found
    → WaitOutcome ps self p want nohang (reap ps self p (seen, found) nohang)
reap_outcome ps self p want nohang false found v a g = (refl, sym a)
reap_outcome ps self p want true true none v a g = (refl, refl, sym a, g.1)
reap_outcome ps self p want false true none v a g = (refl, refl, sym a, g.1)
reap_outcome ps self p want nohang true (some c) v a (inl g) = absurd (ground (arith, g))
reap_outcome ps self p want nohang true (some c) v a (inr g) =
    let z = zombie_code (status_of ps c) (ground (arith, g.1)) in
    rw z.1 (
      g.0,
      g.1,
      (z.0, z.1, refl),
      λ j.
          rw
            (
              get-insert (remove ps c) self j (record p { children = without c p.children }),
              get-remove 0 ps c j v,
            )
            refl,
    )

-- One round of `sys_wait4` for a process of the table. It fails with ECHILD exactly if no child is the
-- one that is waited for; it returns a child only if that is a zombie and waited for, with the code it
-- exited with, and then takes it off the table and the list of children and changes nothing else; and
-- if no such child is a zombie it changes nothing, and returns at once or waits as the flag tells. It
-- never panics.
pub wait4_lem :
    (ps : ProcessManager) (self : ℕ) (p : Process) (want : Option ℕ) (nohang : Bool)
    → IsSorted ps
    → get ps self ≡ some p
    → WaitOutcome ps self p want nohang (wait4 ps self want nohang)
unfolding wait4
wait4_lem ps self p want nohang v h =
    let r = find_lem ps want p.children false none in
    rw h (reap_outcome ps self p want nohang _ _ v (ground (arith, r.0)) r.1)
