-- ===== src/Process/Family/Last.antt =====
-- The exit of the last thread of a process, and of other threads.
use asynclear.Prelude.{
  ℕ, ◌<◌, ◌≡◌, refl, sym, ◌∙◌, ap, true, false, Option, none, some, [], ◌∷◌, ◌==◌, Bool-cases, inl,
  inr, arith, ok,
}
use asynclear.BTreeMap.{BTreeMap, get, insert, remove}
use asynclear.BTreeMap.Laws.{get-insert}
use asynclear.Signal.{Signal}
use asynclear.Signal.Deliver.{ThreadInner}
use asynclear.Process.Status.{is_zombie}
use asynclear.Process.Wait.{Process, ProcessManager}
use asynclear.Process.Family.{
  Processes, initproc_pid, adopt, notify_parent, zombie_of, is_empty, exit_last, exit_thread,
  receive_in,
}
use asynclear.Process.Family.Invariant.{
  is_some, lists, lists_in, Linked, IsFamily, lists_found, lists-insert, same_process,
}
use asynclear.Process.Family.Update.{IsFamily-insert}
use asynclear.Process.Family.Adopt.{adopt_lem}
use asynclear.Process.Family.Exit.{
  ended, ended-Above, ended_init, children_there, after_there, after-IsFamily, after_self,
  init_lists, Ends,
}

-- What stays when the parent is notified.
record Keeps (ps ps' : ProcessManager) : Type 0 where
  same_lists : (j c : ℕ) → lists ps' j c ≡ lists ps j c
  same_status :
      (j : ℕ) (r : Process)
      → get ps j ≡ some r
      → (r' : Process) × (get ps' j ≡ some r') × (r'.status ≡ r.status) × (r'.children ≡ r.children)

Keeps-refl : (ps : ProcessManager) → Keeps ps ps
Keeps-refl ps = record { same_lists = λ j c. refl; same_status = λ j r g. (r, g, refl, refl) }

Keeps-insert :
    (ps : ProcessManager) (k : ℕ) (q : Process) (threads : BTreeMap ThreadInner)
    → get ps k ≡ some q
    → Keeps ps (insert ps k (record q { threads = threads }))
Keeps-insert ps k q threads g = record {
  same_lists = λ j c.
      lists-insert ps k j c (record q { threads = threads }) ∙ elim (Bool-cases (k == j)) [
        | inl e ↦
            let kj : k ≡ j = ground (arith, e) in
            rw e (ap (λ o. lists_in o c) (sym g) ∙ ap (λ i. lists ps i c) kj)
        | inr e ↦ rw e refl
      ];
  same_status = λ j r h. elim (Bool-cases (k == j)) [
    | inl e ↦
        let kj : k ≡ j = ground (arith, e) in
        let same = same_process ps k j q r g h kj in
        (
          record q { threads = threads },
          rw (get-insert ps k j (record q { threads = threads }), e) refl,
          ap (λ (x : Process). x.status) same,
          ap (λ (x : Process). x.children) same,
        )
    | inr e ↦ (r, rw (get-insert ps k j (record q { threads = threads }), e) h, refl, refl)
  ];
}

notify_lem :
    (w : Processes) (parent : Option ℕ) (exit_signal : Option Signal)
    → IsFamily w
    → ((k : ℕ) → parent ≡ some k → (q : Process) × (get w.procs k ≡ some q))
    → (ps' : ProcessManager) × (notify_parent w.procs parent exit_signal ≡ ok ps')
      × IsFamily (record w { procs = ps' })
      × Keeps w.procs ps'
unfolding notify_parent receive_in
notify_lem w none s v h = (w.procs, refl, v, Keeps-refl w.procs)
notify_lem w (some k) none v h = (w.procs, refl, v, Keeps-refl w.procs)
notify_lem w (some k) (some s) v h =
    let (q, g) = h k refl in
    (
      insert w.procs k (record q { threads = receive_in s q.threads }),
      rw g refl,
      IsFamily-insert w k q (record q { threads = receive_in s q.threads }) v g refl refl refl
          (λ e. ap (receive_in s) e),
      Keeps-insert w.procs k q (receive_in s q.threads) g,
    )

some_of : (o : Option Process) → is_some o ≡ true → (q : Process) × (o ≡ some q)
some_of none h = absurd cc
some_of (some q) h = (q, refl)

parent_there :
    (w : Processes) (self : ℕ) (parent : Option ℕ) (k : ℕ)
    → Linked w.procs self parent
    → parent ≡ some k
    → is_some (get w.procs k) ≡ true
parent_there w self none k l e = absurd l
parent_there w self (some j) k l e =
    let (q, g, m) = lists_found w.procs j self l in
    let jk : j ≡ k = ap (λ (o : Option ℕ). elim o [ none ↦ j | some i ↦ i ]) e in
    rw (← jk) (rw g refl)

-- A thread that is there lives in a process that has not ended.
alive_of :
    (w : Processes) (self tid : ℕ) (p : Process) (t : ThreadInner)
    → IsFamily w
    → get w.procs self ≡ some p
    → get p.threads tid ≡ some t
    → is_zombie p.status ≡ false
unfolding get
alive_of w self tid p t v g h = elim (Bool-cases (is_zombie p.status)) [
  | inr z ↦ z
  | inl z ↦
      let bad : none ≡ some t =
        ap (λ (m : BTreeMap ThreadInner). get m tid) (sym (v.dead self p g z).1) ∙ h in
      absurd (cc bad)
]

last_runs :
    (ps ps1 ps2 : ProcessManager) (self thread_code : ℕ) (p i : Process)
    → (self == initproc_pid) ≡ false
    → get (insert ps self (zombie_of p thread_code)) initproc_pid ≡ some i
    → adopt (insert ps self (zombie_of p thread_code)) p.children ≡ ok ps1
    → notify_parent ps1 p.parent p.exit_signal ≡ ok ps2
    → exit_last ps self p thread_code ≡ ok (false, ps2)
unfolding exit_last
last_runs ps ps1 ps2 self thread_code p i n g r1 r2 = rw (exit_last, n, g, r1, r2) refl

ends_lem :
    (w : Processes) (self thread_code : ℕ) (p : Process)
    → IsFamily w
    → get w.procs self ≡ some p
    → (self == initproc_pid) ≡ false
    → thread_code < 256
    → is_zombie p.status ≡ false
    → (ps' : ProcessManager) × (exit_last w.procs self p thread_code ≡ ok (false, ps'))
      × Ends w self p thread_code (record w { procs = ps' })
ends_lem w self thread_code p v g n b z =
    let (ps1, run1, a) =
      adopt_lem (ended w self thread_code p v g n b) p.children v.init.0
        (ended-Above w self thread_code p v g n b)
        (children_there w self thread_code p v g n b p.children (λ c m. m))
        (ended_init w self thread_code p v g n b) in
    let fam = after-IsFamily w self thread_code p v g n b ps1 a in
    let linked = v.linked self p g z n in
    let (ps2, run2, fam2, keep) =
      notify_lem (record w { procs = ps1 }) p.parent p.exit_signal fam
        (λ k e. some_of (get ps1 k) (
          after_there w self thread_code p v g n b ps1 a k
          ∙ parent_there w self p.parent k linked e)) in
    let (r, found, status, children) =
      keep.same_status self _ (after_self w self thread_code p v g n b ps1 a) in
    (
      ps2,
      last_runs w.procs ps1 ps2 self thread_code p v.init.0 n
          (ended_init w self thread_code p v g n b) run1 run2,
      record {
        family = fam2;
        dead = (r, found, status, children ∙ rw n refl);
        handed_over = λ c m.
            keep.same_lists initproc_pid c ∙ init_lists w self thread_code p v g n b ps1 a c m;
      },
    )

is_empty-eq : (ts : BTreeMap ThreadInner) → is_empty ts ≡ true → ts ≡ []
is_empty-eq [] h = refl
is_empty-eq (t ∷ ts) h = absurd cc

still_empty : (ts : BTreeMap ThreadInner) (tid : ℕ) → ts ≡ [] → remove ts tid ≡ []
unfolding remove
still_empty ts tid e = ap (λ (m : BTreeMap ThreadInner). remove m tid) e

-- `exit_thread` of a thread of a process other than the first: it succeeds and leaves a family. If it was
-- the last thread, the process is then a zombie with the code it exits with and no children, and every
-- child that it had is among those of the first process.
pub exit_thread_lem :
    (w : Processes) (self tid thread_code : ℕ) (p : Process) (t : ThreadInner)
    → IsFamily w
    → get w.procs self ≡ some p
    → get p.threads tid ≡ some t
    → (self == initproc_pid) ≡ false
    → thread_code < 256
    → (w' : Processes) × (exit_thread w self tid thread_code ≡ ok (false, w'))
      × IsFamily w'
      × (remove p.threads tid ≡ [] → Ends w self p thread_code w')
unfolding exit_thread
exit_thread_lem w self tid thread_code p t v g h n b =
    elim (Bool-cases (is_empty (remove p.threads tid))) [
      | inl e ↦
          let (ps', run, ends) =
            ends_lem w self thread_code p v g n b (alive_of w self tid p t v g h) in
          (record w { procs = ps' }, rw (g, h, e, run) refl, ends.family, λ _. ends)
      | inr e ↦
          let q : Process = record p { threads = remove p.threads tid } in
          (
            record w { procs = insert w.procs self q },
            rw (g, h, e) refl,
            IsFamily-insert w self p q v g refl refl refl (still_empty p.threads tid),
            λ none_left.
                let bad : true ≡ false = ap is_empty (sym none_left) ∙ e in absurd (cc bad),
          )
    ]
