-- ===== src/Process/Family/Waiting.antt =====
-- `sys_wait4` on the processes: a child that has ended is found, and its pid is free again.
use asynclear.Prelude.{
  ℕ, ◌+◌, ◌*◌, ◌^◌, ◌<◌, ◌≡◌, refl, sym, ◌∙◌, ap, Bool, true, false, Option, none, some, List, [],
  ◌∷◌, ◌==◌, Bool-cases, inl, inr, contains, arith, KResult, ok, err, panic, echild, ◌>>=◌,
}
use asynclear.BTreeMap.{get, Above}
use asynclear.BTreeMap.Laws.{get_below}
use asynclear.IdAllocator.{RecycleAllocator, dealloc}
use asynclear.IdAllocator.Ownership.{in_use}
use asynclear.Process.Status.{is_zombie, exit_code}
use asynclear.Process.Wait.{
  Process, ProcessManager, WaitResult, status_of, any_wanted, is_ready, find_child, FindOutcome,
  find_lem, zombie_code, reap, wait4,
}
use asynclear.Process.Family.{Processes, initproc_pid, give_back, wait_round}
use asynclear.Process.Family.Count.{child_count, count, contains-count}
use asynclear.Process.Family.Invariant.{owed, lists, lists_in, IsFamily, lists_found}
use asynclear.Process.Family.Reap.{without_child, reaped_lem}

-- What remains of `w` after the child `c` has been waited for: a family without it, and its pid is free.
abbrev pub Reaps : ℕ → Processes → Type 0
Reaps c w' = IsFamily w' × (get w'.procs c ≡ none) × (in_use w'.pids c ≡ false)

-- What a round of `sys_wait4` by the process `p` may do.
abbrev pub WaitsAs :
    Processes → Process → Option ℕ → Bool → KResult (WaitResult × Processes) → Type 0
WaitsAs w p want nohang (ok (WaitResult.exited c st, w')) =
    (contains p.children c ≡ true) × (is_ready w.procs want c ≡ true) × Reaps c w'
WaitsAs w p want nohang (ok (WaitResult.no_hang, w')) =
    (w' ≡ w)
    × (nohang ≡ true)
    × ((c : ℕ) → contains p.children c ≡ true → is_ready w.procs want c ≡ false)
WaitsAs w p want nohang (ok (WaitResult.wait, w')) =
    (w' ≡ w)
    × (nohang ≡ false)
    × ((c : ℕ) → contains p.children c ≡ true → is_ready w.procs want c ≡ false)
WaitsAs w p want nohang (err e) = (e ≡ echild) × (any_wanted want p.children ≡ false)
WaitsAs w p want nohang panic = ⊥

-- A status of a zombie is that of a process.
zombie_of_table :
    (o : Option Process)
    → is_zombie (elim o [ none ↦ 0 | some p ↦ p.status ]) ≡ true
    → (r : Process) × (o ≡ some r) × (is_zombie r.status ≡ true)
unfolding is_zombie
zombie_of_table none h = absurd cc
zombie_of_table (some r) h = (r, refl, h)

reap_runs :
    (w : Processes) (self c code : ℕ) (p : Process) (nohang : Bool) (pids : RecycleAllocator)
    → exit_code (status_of w.procs c) ≡ some code
    → dealloc w.pids c ≡ ok pids
    → (reap w.procs self p (true, some c) nohang >>= give_back w)
      ≡ ok (
        WaitResult.exited c (code * 2 ^ 8),
        record { procs = without_child w.procs self c p; pids = pids },
      )
reap_runs w self c code p nohang pids e d = rw (e, d) refl

reap_child :
    (w : Processes) (self c : ℕ) (p : Process) (nohang : Bool)
    → IsFamily w
    → get w.procs self ≡ some p
    → contains p.children c ≡ true
    → is_zombie (status_of w.procs c) ≡ true
    → (st : ℕ) × (w' : Processes) × ((reap w.procs self p (true, some c) nohang >>= give_back w)
        ≡ ok (WaitResult.exited c st, w'))
      × Reaps c w'
reap_child w self c p nohang v g m z =
    let (r, gc, zr) = zombie_of_table (get w.procs c) z in
    let (pids, run, family, gone, free) = reaped_lem w self c p r v g m gc zr in
    let (code, found) = zombie_code (status_of w.procs c) z in
    (
      code * 2 ^ 8,
      record { procs = without_child w.procs self c p; pids = pids },
      reap_runs w self c code p nohang pids found run,
      (family, gone, free),
    )

-- The round for a result of the loop over the children.
wait_outcome :
    (w : Processes) (self : ℕ) (p : Process) (want : Option ℕ) (nohang seen : Bool)
    (found : Option ℕ)
    → IsFamily w
    → get w.procs self ≡ some p
    → seen ≡ any_wanted want p.children
    → FindOutcome w.procs want p.children none found
    → WaitsAs w p want nohang (reap w.procs self p (seen, found) nohang >>= give_back w)
wait_outcome w self p want nohang false found v g a f = (refl, sym a)
wait_outcome w self p want true true none v g a f = (refl, refl, f.1)
wait_outcome w self p want false true none v g a f = (refl, refl, f.1)
wait_outcome w self p want nohang true (some c) v g a (inl f) = absurd (ground (arith, f))
wait_outcome w self p want nohang true (some c) v g a (inr f) =
    let (st, w', run, reaps) = reap_child w self c p nohang v g f.0 (ground (arith, f.1)) in
    rw run (f.0, f.1, reaps)

-- One round of `sys_wait4` by a process of a family. It takes a child only if that is a zombie and waited
-- for; afterwards the child is no process any more, its pid is not in use, and the rest is a family. It
-- changes nothing if no such child is a zombie, and fails with ECHILD only if no child is waited for. It
-- never panics, so the pid that it gives back was in use.
pub wait_lem :
    (w : Processes) (self : ℕ) (p : Process) (want : Option ℕ) (nohang : Bool)
    → IsFamily w
    → get w.procs self ≡ some p
    → WaitsAs w p want nohang (wait_round w self want nohang)
unfolding wait_round wait4
wait_lem w self p want nohang v g =
    let r = find_lem w.procs want p.children false none in
    rw (wait_round, wait4, g) (wait_outcome w self p want nohang _ _ v g (ground (arith, r.0)) r.1)

any_wanted_of : (c : ℕ) (cs : List ℕ) → contains cs c ≡ true → any_wanted (some c) cs ≡ true
any_wanted_of c [] h = absurd cc
any_wanted_of c (d ∷ cs) h = ground (arith, any_wanted_of c cs)

-- Asked for one zombie among the children, the loop finds it.
find_only :
    (ps : ProcessManager) (c : ℕ) (cs : List ℕ) (seen : Bool) (found : Option ℕ)
    → contains cs c ≡ true
    → is_zombie (status_of ps c) ≡ true
    → seen ≡ any_wanted (some c) cs
    → FindOutcome ps (some c) cs none found
    → (seen ≡ true) × (found ≡ some c)
find_only ps c cs seen none m z a f =
    let here : (c == c) ≡ true = ground arith in
    let bad : true ≡ false = sym z ∙ (rw here at (f.1 c m)) in absurd (cc bad)
find_only ps c cs seen (some d) m z a (inl f) = absurd (ground (arith, f))
find_only ps c cs seen (some d) m z a (inr f) =
    let dc : d ≡ c = ground (arith, f.1) in (a ∙ any_wanted_of c cs m, ap some dc)

-- What stands in the lists stands in the list of a process.
lister :
    (lo : ℕ) (ps : ProcessManager) (c : ℕ)
    → Above lo ps
    → 0 < child_count ps c
    → (k : ℕ) × (lists ps k c ≡ true)
unfolding get
lister lo [] c v h = absurd (omega arith)
lister lo ((j, q) ∷ ps) c v h = elim (Bool-cases (contains q.children c)) [
  | inl m ↦ let here : (j == j) ≡ true = ground arith in (j, rw here m)
  | inr m ↦
      let zero_here : count c q.children ≡ 0 = ground (arith, contains-count c q.children, m) in
      let (k, l) = lister (j + 1) ps c v.1 (omega (arith, zero_here, h)) in
      elim (Bool-cases (j == k)) [
        | inr e ↦ (k, rw e l)
        | inl e ↦
            let bad : false ≡ true =
              ap (λ o. lists_in o c) (sym (get_below (j + 1) ps k v.1 (ground (arith, e)))) ∙ l in
            absurd (cc bad)
      ]
]

lister_lives :
    (w : Processes) (k c : ℕ) (q : Process)
    → IsFamily w
    → get w.procs k ≡ some q
    → contains q.children c ≡ true
    → is_zombie q.status ≡ false
lister_lives w k c q v g m = elim (Bool-cases (is_zombie q.status)) [
  | inr a ↦ a
  | inl a ↦
      let bad : false ≡ true = ap (λ xs. contains xs c) (sym (v.dead k q g a).0) ∙ m in
      absurd (cc bad)
]

find_runs :
    (w : Processes) (k c : ℕ) (q : Process) (nohang : Bool)
    → get w.procs k ≡ some q
    → find_child w.procs (some c) q.children (false, none) ≡ (true, some c)
    → wait_round w k (some c) nohang ≡ (reap w.procs k q (true, some c) nohang >>= give_back w)
unfolding wait_round wait4
find_runs w k c q nohang g f = rw (wait_round, wait4, g, f) refl

-- Every zombie but the first process can be waited for: some process lists it among its children, and
-- when that one asks `sys_wait4` for the zombie's pid, with or without WNOHANG, the zombie is returned at
-- once; it is no process any more then, and its pid can be had again.
pub zombie-waits :
    (w : Processes) (c : ℕ) (r : Process)
    → IsFamily w
    → get w.procs c ≡ some r
    → is_zombie r.status ≡ true
    → (c == initproc_pid) ≡ false
    → (k : ℕ) × (q : Process) × (get w.procs k ≡ some q)
      × (contains q.children c ≡ true)
      × (is_zombie q.status ≡ false)
      × ((nohang : Bool)
          → (st : ℕ) × (w' : Processes) × (wait_round w k (some c) nohang
              ≡ ok (WaitResult.exited c st, w'))
            × Reaps c w')
zombie-waits w c r v g z n =
    let listed : 0 < child_count w.procs c =
      let one : owed (get w.procs c) c ≡ 1 = rw (g, n) refl in omega (arith, v.one_parent c, one) in
    let (k, l) = lister 0 w.procs c v.sorted listed in
    let (q, there, m) = lists_found w.procs k c l in
    let status : is_zombie (status_of w.procs c) ≡ true = rw (status_of, g) z in
    let f = find_lem w.procs (some c) q.children false none in
    let (f0, f1) = find_only w.procs c q.children _ _ m status (ground (arith, f.0)) f.1 in
    (
      k,
      q,
      there,
      m,
      lister_lives w k c q v there m,
      λ nohang.
          let (st, w', run, reaps) = reap_child w k c q nohang v there m status in
          (st, w', find_runs w k c q nohang there (λ i. (f0 i, f1 i)) ∙ run, reaps),
    )
