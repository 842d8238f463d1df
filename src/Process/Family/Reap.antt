-- ===== src/Process/Family/Reap.antt =====
-- Waiting for a child: what the end of the child leaves.
use asynclear.Prelude.{
  ℕ, ◌+◌, ◌≡◌, refl, sym, ◌∙◌, ap, Bool, true, false, not, ◌||◌, ◌&&◌, Option, none, some, List, [],
  ◌∷◌, ◌==◌, if◌then◌else◌, Bool-cases, inl, inr, contains, arith, ok, subst,
}
use asynclear.BTreeMap.{get, insert, remove}
use asynclear.BTreeMap.Laws.{get-insert, get-remove, insert-Above, remove-Above}
use asynclear.IdAllocator.{RecycleAllocator, dealloc}
use asynclear.IdAllocator.Ownership.{IsValid, in_use, DeallocOutcome, dealloc_lem}
use asynclear.Process.Status.{is_zombie}
use asynclear.Process.Wait.{Process, ProcessManager, without}
use asynclear.Process.Family.{Processes, initproc_pid}
use asynclear.Process.Family.Count.{
  child_count, count, count_in, count-without, child_count-insert, child_count-remove,
}
use asynclear.Process.Family.Invariant.{
  is_some, owed, lists, lists_in, Linked, IsFamily, insert_cases, same_process, not_zero,
}

pub contains-without :
    (a c : ℕ) (xs : List ℕ) → (c == a) ≡ false → contains (without c xs) a ≡ contains xs a
contains-without a c [] n = refl
contains-without a c (x ∷ xs) n = ground (arith, contains-without a c xs)

and_false : (b : Bool) → (b && false) ≡ false
and_false true = refl
and_false false = refl

and_true : (b : Bool) → (b && true) ≡ b
and_true true = refl
and_true false = refl

or_true : (b : Bool) → (b || true) ≡ true
or_true true = refl
or_true false = refl

-- The table without a child of `self`, which is `p`.
abbrev pub without_child : ProcessManager → ℕ → ℕ → Process → ProcessManager
without_child ps self c p = insert (remove ps c) self (record p { children = without c p.children })

-- A process `self` has a zombie `c` among its children.
module _ (w : Processes) (self c : ℕ) (p r : Process) (v : IsFamily w)
    (g : get w.procs self ≡ some p) (m : contains p.children c ≡ true) (gc : get w.procs c ≡ some r)
    (z : is_zombie r.status ≡ true) where
  abbrev left : Process
  left = record p { children = without c p.children }

  abbrev reaped : ProcessManager
  reaped = without_child w.procs self c p

  apart : (c == self) ≡ false
  apart = elim (Bool-cases (c == self)) [
    | inr e ↦ e
    | inl e ↦
        let same = same_process w.procs c self r p gc g (ground (arith, e)) in
        let bad : false ≡ true =
          ap (λ l. contains l c) (sym (v.dead c r gc z).0)
          ∙ ap (λ (x : Process). contains x.children c) same
          ∙ m in
        absurd (cc bad)
  ]

  not_init : (c == initproc_pid) ≡ false
  not_init = elim (Bool-cases (c == initproc_pid)) [
    | inr e ↦ e
    | inl e ↦
        let same = same_process w.procs c initproc_pid r v.init.0 gc v.init.1 (ground (arith, e)) in
        let bad : true ≡ false = sym z ∙ ap (λ (x : Process). is_zombie x.status) same ∙ v.init.2 in
        absurd (cc bad)
  ]

  alive : is_zombie p.status ≡ false
  alive = elim (Bool-cases (is_zombie p.status)) [
    | inr e ↦ e
    | inl e ↦
        let bad : false ≡ true = ap (λ l. contains l c) (sym (v.dead self p g e).0) ∙ m in
        absurd (cc bad)
  ]

  reaped-get :
      (j : ℕ)
      → get reaped j ≡ (if self == j then some left else if c == j then none else get w.procs j)
  reaped-get j =
      rw (get-insert (remove w.procs c) self j left, get-remove 0 w.procs c j v.sorted) refl

  reaped_one_parent : (j : ℕ) → child_count reaped j ≡ owed (get reaped j) j
  reaped_one_parent j =
      let below : get (remove w.procs c) self ≡ some p =
        get-remove 0 w.procs c self v.sorted ∙ rw apart g in
      let n =
        child_count-insert 0 (remove w.procs c) self j left (remove-Above 0 w.procs c v.sorted) in
      let k : child_count reaped j + (if j == c then 1 else 0) ≡ child_count w.procs j = omega (
        arith,
        n,
        ap (λ o. count_in o j) below,
        child_count-remove w.procs c j,
        ap (λ o. count_in o j) gc,
        ap (count j) (v.dead c r gc z).0,
        count-without j c p.children m,
      ) in
      elim (Bool-cases (c == j)) [
        | inl e ↦
            let cj : c ≡ j = ground (arith, e) in
            let jc : (j == c) ≡ true = ground (arith, e) in
            let sj : (self == j) ≡ false = ground (arith, e, apart) in
            let one : owed (get w.procs j) j ≡ 1 =
              ap (λ i. owed (get w.procs i) i) (sym cj) ∙ rw (gc, not_init) refl in
            let none_left : child_count reaped j ≡ 0 =
              omega (arith, rw jc at k, v.one_parent j, one) in
            none_left ∙ rw (reaped-get j, e, sj) refl
        | inr e ↦
            let jc : (j == c) ≡ false = ground (arith, e) in
            let same : child_count reaped j ≡ child_count w.procs j = omega (arith, rw jc at k) in
            same ∙ v.one_parent j ∙ elim (Bool-cases (self == j)) [
              | inl s ↦
                  let sj : self ≡ j = ground (arith, s) in
                  let old : get w.procs j ≡ some p = rw (← sj) g in rw (reaped-get j, s, old) refl
              | inr s ↦ rw (reaped-get j, s, e) refl
            ]
      ]

  -- Every other process is listed where it was.
  reaped-lists : (k j : ℕ) → (c == j) ≡ false → lists w.procs k j ≡ true → lists reaped k j ≡ true
  reaped-lists k j n l = elim (Bool-cases (self == k)) [
    | inl s ↦
        let sk : self ≡ k = ground (arith, s) in
        let old : get w.procs k ≡ some p = rw (← sk) g in
        let before : contains p.children j ≡ true = ap (λ o. lists_in o j) (sym old) ∙ l in
        rw (reaped-get k, s) (contains-without j c p.children n ∙ before)
    | inr s ↦ elim (Bool-cases (c == k)) [
      | inr e ↦ rw (reaped-get k, s, e) l
      | inl e ↦
          let ck : c ≡ k = ground (arith, e) in
          let bad : false ≡ true =
            ap (λ xs. contains xs j) (sym (v.dead c r gc z).0)
            ∙ ap (λ o. lists_in o j) (sym gc)
            ∙ ap (λ i. lists w.procs i j) ck
            ∙ l in
          absurd (cc bad)
    ]
  ]

  reaped-Linked : (j : ℕ) (o : Option ℕ) → (c == j) ≡ false → Linked w.procs j o → Linked reaped j o
  reaped-Linked j none n l = l
  reaped-Linked j (some k) n l = reaped-lists k j n l

  -- Every process that is there was there before, and is not the child.
  reaped_cases :
      (j : ℕ) (x : Process)
      → get reaped j ≡ some x
      → (y : Process) × (get w.procs j ≡ some y)
        × ((c == j) ≡ false)
        × (x.parent ≡ y.parent)
        × (x.status ≡ y.status)
        × (x.threads ≡ y.threads)
        × (y.children ≡ [] → x.children ≡ [])
  reaped_cases j x h = elim (insert_cases (remove w.procs c) self j left x h) [
    | inl (e, f) ↦ (
      p,
      rw (← e) g,
      ground (arith, apart, e),
      ap (λ (q : Process). q.parent) (sym f),
      ap (λ (q : Process). q.status) (sym f),
      ap (λ (q : Process). q.threads) (sym f),
      λ none_left. ap (λ (q : Process). q.children) (sym f) ∙ ap (without c) none_left,
    )
    | inr (e, o) ↦ elim (Bool-cases (c == j)) [
      | inl k ↦
          let bad : none ≡ some x = rw (get-remove 0 w.procs c j v.sorted, k) at o in
          absurd (cc bad)
      | inr k ↦ (
        x,
        rw (get-remove 0 w.procs c j v.sorted, k) at o,
        k,
        refl,
        refl,
        refl,
        λ none_left. none_left,
      )
    ]
  ]

  reaped_parent :
      (j : ℕ) (x : Process)
      → get reaped j ≡ some x
      → is_zombie x.status ≡ false
      → (j == initproc_pid) ≡ false
      → Linked reaped j x.parent
  reaped_parent j x h a i =
      let (y, old, n, parent, status, threads, children) = reaped_cases j x h in
      reaped-Linked j x.parent n
        (subst (Linked w.procs j) (sym parent) (v.linked j y old (ap is_zombie (sym status) ∙ a) i))

  reaped_dead :
      (j : ℕ) (x : Process)
      → get reaped j ≡ some x
      → is_zombie x.status ≡ true
      → (x.children ≡ []) × (x.threads ≡ [])
  reaped_dead j x h a =
      let (y, old, n, parent, status, threads, children) = reaped_cases j x h in
      let d = v.dead j y old (ap is_zombie (sym status) ∙ a) in (children d.0, threads ∙ d.1)

  reaped_init : (x : Process) × (get reaped initproc_pid ≡ some x) × (is_zombie x.status ≡ false)
  reaped_init = elim (Bool-cases (self == initproc_pid)) [
    | inl e ↦ (left, rw (reaped-get initproc_pid, e) refl, alive)
    | inr e ↦ (v.init.0, rw (reaped-get initproc_pid, e, not_init) v.init.1, v.init.2)
  ]

  reaped_known :
      (pids : RecycleAllocator)
      → ((j : ℕ) → in_use pids j ≡ (in_use w.pids j && not (j == c)))
      → (j : ℕ) → in_use pids j ≡ (j == 0 || is_some (get reaped j))
  reaped_known pids f j = f j ∙ elim (Bool-cases (c == j)) [
    | inl e ↦
        let jc : (j == c) ≡ true = ground (arith, e) in
        let sj : (self == j) ≡ false = ground (arith, e, apart) in
        let j0 : (j == 0) ≡ false = ground (arith, e, not_zero w.procs c r v.no_zero gc) in
        rw (reaped-get j, e, sj, jc, j0) (and_false (in_use w.pids j))
    | inr e ↦
        let jc : (j == c) ≡ false = ground (arith, e) in
        elim (Bool-cases (self == j)) [
          | inl s ↦
              let sj : self ≡ j = ground (arith, s) in
              let old : get w.procs j ≡ some p = rw (← sj) g in
              rw (v.known j, reaped-get j, s, old, jc) (and_true (j == 0 || true))
          | inr s ↦
              rw (v.known j, reaped-get j, s, e, jc) (and_true (j == 0 || is_some (get w.procs j)))
        ]
  ]

  reaped-IsFamily :
      (pids : RecycleAllocator)
      → IsValid pids
      → ((j : ℕ) → in_use pids j ≡ (in_use w.pids j && not (j == c)))
      → IsFamily (record { procs = reaped; pids = pids })
  reaped-IsFamily pids valid f = record {
    sorted =
        insert-Above 0 (remove w.procs c) self left (omega arith)
          (remove-Above 0 w.procs c v.sorted);
    pids = valid;
    known = reaped_known pids f;
    no_zero =
        reaped-get 0
        ∙ rw (not_zero w.procs self p v.no_zero g, not_zero w.procs c r v.no_zero gc, v.no_zero)
            refl;
    one_parent = reaped_one_parent;
    linked = reaped_parent;
    dead = reaped_dead;
    init = reaped_init;
  }

  -- The pid is given back.
  pub reaped_lem :
      (pids : RecycleAllocator) × (dealloc w.pids c ≡ ok pids)
      × IsFamily (record { procs = reaped; pids = pids })
      × (get reaped c ≡ none)
      × (in_use pids c ≡ false)
  reaped_lem =
      let here : in_use w.pids c ≡ true = v.known c ∙ rw gc (or_true (c == 0)) in
      let (pids, run, valid, f) =
        subst (λ b. DeallocOutcome w.pids c b (dealloc w.pids c)) here
          (dealloc_lem w.pids c v.pids) in
      let sc : (self == c) ≡ false = ground (arith, apart) in
      let cc' : (c == c) ≡ true = ground arith in
      (
        pids,
        run,
        reaped-IsFamily pids valid f,
        reaped-get c ∙ rw (sc, cc') refl,
        f c ∙ rw cc' (and_false (in_use w.pids c)),
      )
