-- ===== src/Process/Family/Exit.antt =====
-- The end of a process.
use asynclear.Prelude.{
  ℕ, ◌+◌, ◌<◌, ◌≡◌, refl, sym, ◌∙◌, ap, true, false, ◌||◌, Option, none, some, List, [], ◌∷◌, ◌==◌,
  if◌then◌else◌, Bool-cases, inl, inr, ◌⊎◌, contains, arith, All, subst,
}
use asynclear.BTreeMap.{get, insert, IsSorted}
use asynclear.BTreeMap.Laws.{get-insert, insert-Above}
use asynclear.Process.Status.{is_zombie, last_status, last_status-is_zombie}
use asynclear.Process.Wait.{Process, ProcessManager}
use asynclear.Process.Family.{Processes, initproc_pid, zombie_of}
use asynclear.Process.Family.Count.{
  child_count, count, count_in, count_in-le, child_count-insert, count-contains,
}
use asynclear.Process.Family.Invariant.{
  is_some, owed, lists, lists_in, Linked, IsFamily, contains-append, same_process, lists_found,
  some-injective, not_zero,
}
use asynclear.Process.Family.Adopt.{IsChild, adopted, taken_in, Adopts}

present_of :
    (o : Option Process) (c : ℕ)
    → 0 < owed o c
    → (p : Process) × (o ≡ some p) × ((c == initproc_pid) ≡ false)
present_of none c h = absurd (omega arith)
present_of (some p) c h = elim (Bool-cases (c == initproc_pid)) [
  | inl e ↦ absurd (omega (arith, rw e at h))
  | inr e ↦ (p, refl, e)
]

-- What a list of children holds is there.
pub IsChild-found :
    (w : Processes) (k c : ℕ) (p : Process)
    → IsFamily w
    → get w.procs k ≡ some p
    → contains p.children c ≡ true
    → IsChild w.procs c
IsChild-found w k c p v g m =
    let one : 0 < child_count w.procs c =
      omega
        (arith, count_in-le w.procs k c, ap (λ o. count_in o c) g, count-contains c p.children m) in
    present_of (get w.procs c) c (omega (arith, v.one_parent c))

module _ (w : Processes) (self thread_code : ℕ) (p : Process) (v : IsFamily w)
    (g : get w.procs self ≡ some p) (n : (self == initproc_pid) ≡ false)
    (b : thread_code < 256) where
  abbrev pub ended : ProcessManager
  ended = insert w.procs self (zombie_of p thread_code)

  pub ended-Above : IsSorted ended
  ended-Above = insert-Above 0 w.procs self (zombie_of p thread_code) (omega arith) v.sorted

  ended-get :
      (j : ℕ) → get ended j ≡ (if self == j then some (zombie_of p thread_code) else get w.procs j)
  ended-get j = get-insert w.procs self j (zombie_of p thread_code)

  pub ended_init : get ended initproc_pid ≡ some v.init.0
  ended_init = rw (ended-get initproc_pid, n) v.init.1

  ended-IsChild : (c : ℕ) → IsChild w.procs c → IsChild ended c
  ended-IsChild c (q, h, k) = elim (Bool-cases (self == c)) [
    | inl e ↦ (zombie_of p thread_code, rw (ended-get c, e) refl, k)
    | inr e ↦ (q, rw (ended-get c, e) h, k)
  ]

  pub children_there :
      (cs : List ℕ)
      → ((c : ℕ) → contains cs c ≡ true → contains p.children c ≡ true)
      → All (IsChild ended) cs
  children_there [] h = tt
  children_there (c ∷ cs) h = (
    ended-IsChild c (IsChild-found w self c p v g (h c (ground arith))),
    children_there cs (λ d m. h d (ground arith)),
  )

  ended-count : (c : ℕ) → child_count ended c + count c p.children ≡ child_count w.procs c
  ended-count c = omega (
    arith,
    child_count-insert 0 w.procs self c (zombie_of p thread_code) v.sorted,
    ap (λ o. count_in o c) g,
  )

  -- After the first process has taken the children in.
  module _ (ps' : ProcessManager) (a : Adopts ended p.children ps') where
    after_get :
        (j : ℕ)
        → get ps' j
          ≡ adopted p.children j
              (if self == j then some (zombie_of p thread_code) else get w.procs j)
    after_get j = a.found j ∙ ap (adopted p.children j) (ended-get j)

    adopted_there : (j : ℕ) (o : Option Process) → is_some (adopted p.children j o) ≡ is_some o
    adopted_there j none = refl
    adopted_there j (some q) = refl

    pub after_there : (j : ℕ) → is_some (get ps' j) ≡ is_some (get w.procs j)
    after_there j =
        ap is_some (after_get j)
        ∙ adopted_there j (if self == j then some (zombie_of p thread_code) else get w.procs j)
        ∙ elim (Bool-cases (self == j)) [
          | inl e ↦
              let sj : self ≡ j = ground (arith, e) in
              let old : get w.procs j ≡ some p = rw (← sj) g in rw (e, old) refl
          | inr e ↦ rw e refl
        ]

    owed_there : (c : ℕ) (o o' : Option Process) → is_some o ≡ is_some o' → owed o c ≡ owed o' c
    owed_there c none none h = refl
    owed_there c none (some q) h = absurd cc
    owed_there c (some q) none h = absurd cc
    owed_there c (some q) (some r) h = refl

    after_one_parent : (c : ℕ) → child_count ps' c ≡ owed (get ps' c) c
    after_one_parent c =
        let m : child_count ps' c ≡ child_count w.procs c =
          omega (arith, a.counts c, ended-count c) in
        m ∙ v.one_parent c ∙ owed_there c (get w.procs c) (get ps' c) (sym (after_there c))

    -- A process of the new table, and the one that it was.
    after_cases :
        (c : ℕ) (r : Process)
        → get ps' c ≡ some r
        → ((self ≡ c) × (taken_in p.children c (zombie_of p thread_code) ≡ r))
          ⊎ ((r0 : Process) × ((self == c) ≡ false)
              × (get w.procs c ≡ some r0)
              × (taken_in p.children c r0 ≡ r))
    after_cases c r h = elim (Bool-cases (self == c)) [
      | inl e ↦
          let f : some (taken_in p.children c (zombie_of p thread_code)) ≡ some r =
            sym (after_get c ∙ rw e refl) ∙ h in
          inl (ground (arith, e), some-injective _ _ f)
      | inr e ↦
          let f : adopted p.children c (get w.procs c) ≡ some r =
            sym (after_get c ∙ rw e refl) ∙ h in
          inr (was (get w.procs c) e refl f)
    ]
      where
        was :
            (o : Option Process)
            → (self == c) ≡ false
            → get w.procs c ≡ o
            → adopted p.children c o ≡ some r
            → (r0 : Process) × ((self == c) ≡ false)
              × (get w.procs c ≡ some r0)
              × (taken_in p.children c r0 ≡ r)
        was none e d f = absurd cc
        was (some r0) e d f = (r0, e, d, some-injective _ _ f)

    after_other :
        (k : ℕ) (q : Process)
        → (self == k) ≡ false
        → get w.procs k ≡ some q
        → get ps' k ≡ some (taken_in p.children k q)
    after_other k q e d = after_get k ∙ rw (e, d) refl

    -- What a process listed, it lists still, but for the one that has ended.
    after_lists :
        (k c : ℕ) (q : Process)
        → (self == k) ≡ false
        → get w.procs k ≡ some q
        → contains q.children c ≡ true
        → lists ps' k c ≡ true
    after_lists k c q e d m =
        ap (λ o. lists_in o c) (after_other k q e d) ∙ elim (Bool-cases (k == initproc_pid)) [
          | inl f ↦ rw f (contains-append c q.children p.children ∙ rw m refl)
          | inr f ↦ rw f m
        ]

    pub init_lists : (c : ℕ) → contains p.children c ≡ true → lists ps' initproc_pid c ≡ true
    init_lists c m =
        ap (λ o. lists_in o c) (after_other initproc_pid v.init.0 n v.init.1)
        ∙ contains-append c v.init.0.children p.children
        ∙ rw m (ground arith)

    after_Linked :
        (c : ℕ) (o : Option ℕ) → contains p.children c ≡ false → Linked w.procs c o → Linked ps' c o
    after_Linked c none m l = l
    after_Linked c (some k) m l =
        let (q, d, mq) = lists_found w.procs k c l in
        elim (Bool-cases (self == k)) [
          | inr e ↦ after_lists k c q e d mq
          | inl e ↦
              let sk : self ≡ k = ground (arith, e) in
              let same = same_process w.procs self k p q g d sk in
              let bad : true ≡ false =
                sym mq ∙ ap (λ (x : Process). contains x.children c) (sym same) ∙ m in
              absurd (cc bad)
        ]

    after_parent :
        (c : ℕ) (r : Process)
        → get ps' c ≡ some r
        → is_zombie r.status ≡ false
        → (c == initproc_pid) ≡ false
        → Linked ps' c r.parent
    after_parent c r h z i = elim (after_cases c r h) [
      | inl (e, f) ↦
          let bad : true ≡ false =
            sym (last_status-is_zombie p.status thread_code b)
            ∙ ap (λ (x : Process). is_zombie x.status) f
            ∙ z in
          absurd (cc bad)
      | inr (r0, e, d, f) ↦
          let z0 : is_zombie r0.status ≡ false = ap (λ (x : Process). is_zombie x.status) f ∙ z in
          subst (λ (x : Process). Linked ps' c x.parent) f
            (elim (Bool-cases (contains p.children c)) [
              | inl m ↦ rw m (init_lists c m)
              | inr m ↦ rw m (after_Linked c r0.parent m (v.linked c r0 d z0 i))
            ])
    ]

    after_dead :
        (c : ℕ) (r : Process)
        → get ps' c ≡ some r
        → is_zombie r.status ≡ true
        → (r.children ≡ []) × (r.threads ≡ [])
    after_dead c r h z = elim (after_cases c r h) [
      | inl (e, f) ↦
          let nc : (c == initproc_pid) ≡ false = ground (arith, e, n) in
          subst (λ (x : Process). (x.children ≡ []) × (x.threads ≡ [])) f (rw nc (refl, refl))
      | inr (r0, e, d, f) ↦
          let z0 : is_zombie r0.status ≡ true = ap (λ (x : Process). is_zombie x.status) f ∙ z in
          let old = v.dead c r0 d z0 in
          subst (λ (x : Process). (x.children ≡ []) × (x.threads ≡ [])) f
            (elim (Bool-cases (c == initproc_pid)) [
              | inr k ↦ rw k old
              | inl k ↦
                  let same =
                    same_process w.procs c initproc_pid r0 v.init.0 d v.init.1
                      (ground (arith, k)) in
                  let bad : true ≡ false =
                    sym z0 ∙ ap (λ (x : Process). is_zombie x.status) same ∙ v.init.2 in
                  absurd (cc bad)
            ])
    ]

    pub after-IsFamily : IsFamily (record w { procs = ps' })
    after-IsFamily = record {
      sorted = a.sorted;
      pids = v.pids;
      known = λ j. v.known j ∙ ap (λ t. j == 0 || t) (sym (after_there j));
      no_zero = after_get 0 ∙ rw (not_zero w.procs self p v.no_zero g, v.no_zero) refl;
      one_parent = after_one_parent;
      linked = after_parent;
      dead = after_dead;
      init = (
        taken_in p.children initproc_pid v.init.0,
        after_get initproc_pid ∙ rw (n, v.init.1) refl,
        v.init.2,
      );
    }

    pub after_self : get ps' self ≡ some (taken_in p.children self (zombie_of p thread_code))
    after_self = let here : (self == self) ≡ true = ground arith in after_get self ∙ rw here refl

-- What remains of `w` after the last thread of process `self` has exited: a family in which the process is
-- a zombie, and its children are among those of the first process.
pub record Ends (w : Processes) (self : ℕ) (p : Process) (thread_code : ℕ) (w' : Processes)
    : Type 0 where
  pub family : IsFamily w'
  pub dead :
      (r : Process) × (get w'.procs self ≡ some r)
      × (r.status ≡ last_status p.status thread_code)
      × (r.children ≡ [])
  pub handed_over : (c : ℕ) → contains p.children c ≡ true → lists w'.procs initproc_pid c ≡ true
