-- ===== src/Process/Family/Fork.antt =====
-- New processes.
use asynclear.Prelude.{
  ℕ, ◌+◌, ◌≡◌, refl, sym, ◌∙◌, ap, true, false, ◌||◌, Option, none, some, [], ◌∷◌, ◌++◌, ◌==◌,
  length, if◌then◌else◌, Bool-cases, inl, inr, contains, arith, ok, subst,
}
use asynclear.BTreeMap.{BTreeMap, get, insert, IsSorted}
use asynclear.BTreeMap.Laws.{get-insert, insert-Above}
use asynclear.IdAllocator.{RecycleAllocator, alloc}
use asynclear.IdAllocator.Ownership.{in_use, Allocates, alloc_lem}
use asynclear.Signal.{Signal}
use asynclear.Signal.Deliver.{ThreadInner}
use asynclear.Process.Status.{is_zombie}
use asynclear.Process.Wait.{Process, ProcessManager}
use asynclear.Process.Family.{Processes, initproc_pid, fork, child_of}
use asynclear.Process.Family.Count.{child_count, count, count_in, count-append, child_count-insert}
use asynclear.Process.Family.Invariant.{
  is_some, owed, lists, lists_in, Linked, IsFamily, contains-append, lists-insert, insert_cases,
  no_zero-insert, not_zero, none_of,
}

-- A pid that the allocator hands out belongs to no process.
record IsFresh (w : Processes) (pid : ℕ) : Type 0 where
  absent : get w.procs pid ≡ none
  positive : (pid == 0) ≡ false

alloc-IsFresh :
    (w : Processes) (pid : ℕ) (pids : RecycleAllocator)
    → IsFamily w
    → Allocates w.pids pid pids
    → IsFresh w pid
alloc-IsFresh w pid pids v a =
    let h = sym (v.known pid) ∙ a.fresh in
    record { absent = none_of (get w.procs pid) (ground arith); positive = ground arith }

other_than :
    (w : Processes) (pid k : ℕ) (p : Process)
    → get w.procs pid ≡ none
    → get w.procs k ≡ some p
    → ((k == pid) ≡ false) × ((pid == k) ≡ false)
other_than w pid k p n s = elim (Bool-cases (k == pid)) [
  | inr e ↦ (e, ground (arith, e))
  | inl e ↦
      let kp : k ≡ pid = ground (arith, e) in
      let bad : some p ≡ none = sym s ∙ ap (get w.procs) kp ∙ n in absurd (cc bad)
]

module _ (w : Processes) (self pid : ℕ) (p child : Process) (v : IsFamily w)
    (g : get w.procs self ≡ some p) (zp : is_zombie p.status ≡ false) (n : get w.procs pid ≡ none)
    (zc : is_zombie child.status ≡ false) (parent : child.parent ≡ some self)
    (barren : child.children ≡ []) where
  abbrev added : ProcessManager
  added = insert w.procs pid child

  abbrev grown : Process
  grown = record p { children = p.children ++ pid ∷ [] }

  added_self : get added self ≡ some p
  added_self = let o = other_than w pid self p n g in rw (get-insert w.procs pid self child, o.1) g

  added-Above : IsSorted added
  added-Above = insert-Above 0 w.procs pid child (omega arith) v.sorted

  forked_count :
      (c : ℕ)
      → child_count (insert added self grown) c
        ≡ child_count w.procs c + (if c == pid then 1 else 0)
  forked_count c = omega (
    arith,
    child_count-insert 0 added self c grown added-Above,
    child_count-insert 0 w.procs pid c child v.sorted,
    ap (λ o. count_in o c) added_self,
    ap (λ o. count_in o c) n,
    ap (count c) barren,
    count-append c p.children (pid ∷ []),
  )

  forked_get :
      (j : ℕ)
      → get (insert added self grown) j
        ≡ (if self == j then some grown else if pid == j then some child else get w.procs j)
  forked_get j = rw (get-insert added self j grown, get-insert w.procs pid j child) refl

  forked_one_parent :
      (c : ℕ) → child_count (insert added self grown) c ≡ owed (get (insert added self grown) c) c
  forked_one_parent c =
      let o = other_than w pid self p n g in
      let init = other_than w pid initproc_pid v.init.0 n v.init.1 in
      forked_count c ∙ elim (Bool-cases (c == pid)) [
        | inl e ↦
            let cp : pid ≡ c = ground (arith, e) in
            let none_before : child_count w.procs c ≡ 0 = v.one_parent c ∙ rw (← cp) (rw n refl) in
            let pc : (pid == c) ≡ true = ground (arith, e) in
            let sc : (self == c) ≡ false = rw (← cp) o.0 in
            let ic : (c == initproc_pid) ≡ false = ground (arith, e, init) in
            rw (none_before, e, forked_get c, sc, pc, ic) refl
        | inr e ↦
            let pc : (pid == c) ≡ false = ground (arith, e) in
            elim (Bool-cases (self == c)) [
              | inl f ↦
                  let sc : self ≡ c = ground (arith, f) in
                  let old : get w.procs c ≡ some p = rw (← sc) g in
                  rw (v.one_parent c, e, forked_get c, f, old) (omega arith)
              | inr f ↦ rw (v.one_parent c, e, forked_get c, f, pc) (omega arith)
            ]
      ]

  forked_lists : (k c : ℕ) → lists w.procs k c ≡ true → lists (insert added self grown) k c ≡ true
  forked_lists k c h = lists-insert added self k c grown ∙ elim (Bool-cases (self == k)) [
    | inl e ↦
        let sk : self ≡ k = ground (arith, e) in
        let own : contains p.children c ≡ true = ap (λ o. lists_in o c) (sym g) ∙ rw sk h in
        rw e (contains-append c p.children (pid ∷ []) ∙ rw own refl)
    | inr e ↦ rw e (
        lists-insert w.procs pid k c child ∙ elim (Bool-cases (pid == k)) [
          | inl f ↦
              let pk : pid ≡ k = ground (arith, f) in
              let bad : lists_in none c ≡ true =
                ap (λ o. lists_in o c) (sym n) ∙ ap (λ j. lists w.procs j c) pk ∙ h in
              absurd (cc bad)
          | inr f ↦ rw f h
        ])
  ]

  forked_Linked : (c : ℕ) (o : Option ℕ) → Linked w.procs c o → Linked (insert added self grown) c o
  forked_Linked c none l = l
  forked_Linked c (some k) l = forked_lists k c l

  forked_lists_new : lists (insert added self grown) self pid ≡ true
  forked_lists_new =
      let here : (self == self) ≡ true = ground arith in
      let itself : (pid == pid) ≡ true = ground arith in
      lists-insert added self self pid grown
      ∙ rw here (contains-append pid p.children (pid ∷ []) ∙ rw itself (ground arith))

  forked_parent :
      (c : ℕ) (r : Process)
      → get (insert added self grown) c ≡ some r
      → is_zombie r.status ≡ false
      → (c == initproc_pid) ≡ false
      → Linked (insert added self grown) c r.parent
  forked_parent c r h z i = elim (insert_cases added self c grown r h) [
    | inl (e, f) ↦
        subst (Linked (insert added self grown) c) (ap (λ (x : Process). x.parent) f)
          (forked_Linked c p.parent (v.linked c p (rw e at g) zp i))
    | inr (e, o) ↦ elim (insert_cases w.procs pid c child r o) [
      | inl (e', f) ↦
          subst (Linked (insert added self grown) c) (sym parent ∙ ap (λ (x : Process). x.parent) f)
            (subst (λ (m : ℕ). Linked (insert added self grown) m (some self)) e' forked_lists_new)
      | inr (e', o') ↦ forked_Linked c r.parent (v.linked c r o' z i)
    ]
  ]

  forked_dead :
      (c : ℕ) (r : Process)
      → get (insert added self grown) c ≡ some r
      → is_zombie r.status ≡ true
      → (r.children ≡ []) × (r.threads ≡ [])
  forked_dead c r h z = elim (insert_cases added self c grown r h) [
    | inl (e, f) ↦ absurd (ground (arith, zp, z, ap (λ (x : Process). is_zombie x.status) f))
    | inr (e, o) ↦ elim (insert_cases w.procs pid c child r o) [
      | inl (e', f) ↦ absurd (ground (arith, zc, z, ap (λ (x : Process). is_zombie x.status) f))
      | inr (e', o') ↦ v.dead c r o' z
    ]
  ]

  forked_init :
      (r : Process) × (get (insert added self grown) initproc_pid ≡ some r)
      × (is_zombie r.status ≡ false)
  forked_init =
      let o = other_than w pid initproc_pid v.init.0 n v.init.1 in
      elim (Bool-cases (self == initproc_pid)) [
        | inl e ↦ (grown, rw (forked_get initproc_pid, e) refl, zp)
        | inr e ↦ (v.init.0, rw (forked_get initproc_pid, e, o.1) v.init.1, v.init.2)
      ]

  forked_known :
      (pids : RecycleAllocator)
      → Allocates w.pids pid pids
      → (j : ℕ) → in_use pids j ≡ (j == 0 || is_some (get (insert added self grown) j))
  forked_known pids a j = a.taken j ∙ elim (Bool-cases (self == j)) [
    | inl e ↦
        let sj : self ≡ j = ground (arith, e) in
        let old : get w.procs j ≡ some p = rw (← sj) g in
        rw (v.known j, old, forked_get j, e) (ground arith)
    | inr e ↦ elim (Bool-cases (pid == j)) [
      | inl f ↦
          let jp : (j == pid) ≡ true = ground (arith, f) in
          rw (forked_get j, e, f, jp) (ground arith)
      | inr f ↦
          let jp : (j == pid) ≡ false = ground (arith, f) in
          rw (v.known j, forked_get j, e, f, jp) refl
    ]
  ]

  forked_no_zero :
      (pids : RecycleAllocator) → Allocates w.pids pid pids → get (insert added self grown) 0 ≡ none
  forked_no_zero pids a =
      let n : (pid == 0) ≡ false = ground (arith, a.fresh, v.known pid) in
      no_zero-insert added self grown (no_zero-insert w.procs pid child v.no_zero n)
        (not_zero w.procs self p v.no_zero g)

  forked-IsFamily :
      (pids : RecycleAllocator)
      → Allocates w.pids pid pids
      → IsFamily (record { procs = insert added self grown; pids = pids })
  forked-IsFamily pids a = record {
    sorted = insert-Above 0 added self grown (omega arith) added-Above;
    pids = a.valid;
    known = forked_known pids a;
    no_zero = forked_no_zero pids a;
    one_parent = forked_one_parent;
    linked = forked_parent;
    dead = forked_dead;
    init = forked_init;
  }

-- `fork` by a process with the main thread alone, when the allocator has a pid: it succeeds, with a pid
-- that no process had. The child has a copy of the main thread with no pending signal, names the caller
-- as its parent, and the caller lists it last; no other process changes; and the processes are a family
-- again.
pub fork_lem :
    (w : Processes) (self pid : ℕ) (exit_signal : Option Signal) (p : Process) (main : ThreadInner)
    (pids : RecycleAllocator)
    → IsFamily w
    → get w.procs self ≡ some p
    → length p.threads ≡ 1
    → get p.threads 0 ≡ some main
    → alloc w.pids ≡ ok (pid, pids)
    → (w' : Processes) × (fork w self exit_signal ≡ ok (pid, w'))
      × IsFamily w'
      × (get w.procs pid ≡ none)
      × ((j : ℕ)
          → get w'.procs j ≡ (
              if self == j
              then some (record p { children = p.children ++ pid ∷ [] })
              else if pid == j
              then some (child_of p self main exit_signal)
              else get w.procs j))
unfolding fork
fork_lem w self pid exit_signal p main pids v g l m h =
    let a : Allocates w.pids pid pids = rw h at (alloc_lem w.pids v.pids) in
    let f = alloc-IsFresh w pid pids v a in
    let zp : is_zombie p.status ≡ false = elim (Bool-cases (is_zombie p.status)) [
      | inr z ↦ z
      | inl z ↦
          let bad : 0 ≡ 1 =
            ap (λ (t : BTreeMap ThreadInner). length t) (sym (v.dead self p g z).1) ∙ l in
          absurd (omega (arith, bad))
    ] in
    let one : (length p.threads == 1) ≡ true = ground (arith, l) in
    let child = child_of p self main exit_signal in
    (
      record {
        procs =
            insert (insert w.procs pid child) self (record p { children = p.children ++ pid ∷ [] });
        pids = pids;
      },
      rw (fork, g, one, m, h) refl,
      forked-IsFamily w self pid p child v g zp f.absent zp refl refl pids a,
      f.absent,
      forked_get w self pid p child v g zp f.absent zp refl refl,
    )
