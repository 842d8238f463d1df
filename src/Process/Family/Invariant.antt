-- ===== src/Process/Family/Invariant.antt =====
-- What holds of the processes at any time.
use asynclear.Prelude.{
  ℕ, ◌≡◌, refl, sym, ◌∙◌, ap, Bool, true, false, ◌||◌, Option, none, some, List, [], ◌∷◌, ◌++◌,
  ◌==◌, if◌then◌else◌, Bool-cases, inl, inr, ◌⊎◌, contains, arith,
}
use asynclear.BTreeMap.{get, insert, IsSorted}
use asynclear.BTreeMap.Laws.{get-insert}
use asynclear.IdAllocator.Ownership.{IsValid, in_use}
use asynclear.Process.Status.{is_zombie}
use asynclear.Process.Wait.{Process, ProcessManager}
use asynclear.Process.Family.{Processes, initproc_pid}
use asynclear.Process.Family.Count.{child_count}

abbrev pub is_some {ℓ} : {A : Type ℓ} → Option A → Bool
is_some none = false
is_some (some a) = true

-- The number of lists that should hold a pid: none for the first process and for a pid that is free.
abbrev pub owed : Option Process → ℕ → ℕ
owed none c = 0
owed (some p) c = if c == initproc_pid then 0 else 1

abbrev pub lists_in : Option Process → ℕ → Bool
lists_in none c = false
lists_in (some p) c = contains p.children c

-- Process `k` has `c` in its list of children.
abbrev pub lists : ProcessManager → ℕ → ℕ → Bool
lists ps k c = lists_in (get ps k) c

-- The parent that a process names has it in its list.
abbrev pub Linked : ProcessManager → ℕ → Option ℕ → Type 0
Linked ps c none = ⊥
Linked ps c (some k) = lists ps k c ≡ true

-- The pids in use are those of the processes, and no process has pid 0; every process but the first stands in the list of exactly
-- one other, once, and the lists hold no other pids; a process that has not ended names the one that
-- lists it; a zombie has no children and no threads; and the first process has not ended.
pub record IsFamily (w : Processes) : Type 0 where
  pub sorted : IsSorted w.procs
  pub pids : IsValid w.pids
  pub known : (j : ℕ) → in_use w.pids j ≡ (j == 0 || is_some (get w.procs j))
  pub no_zero : get w.procs 0 ≡ none
  pub one_parent : (c : ℕ) → child_count w.procs c ≡ owed (get w.procs c) c
  pub linked :
      (c : ℕ) (r : Process)
      → get w.procs c ≡ some r
      → is_zombie r.status ≡ false
      → (c == initproc_pid) ≡ false
      → Linked w.procs c r.parent
  pub dead :
      (c : ℕ) (r : Process)
      → get w.procs c ≡ some r
      → is_zombie r.status ≡ true
      → (r.children ≡ []) × (r.threads ≡ [])
  pub init : (r : Process) × (get w.procs initproc_pid ≡ some r) × (is_zombie r.status ≡ false)

pub contains-append :
    (a : ℕ) (xs ys : List ℕ) → contains (xs ++ ys) a ≡ (contains xs a || contains ys a)
contains-append a [] ys = refl
contains-append a (x ∷ xs) ys = ground (arith, contains-append a xs ys)

pub lists-insert :
    (ps : ProcessManager) (k j c : ℕ) (p : Process)
    → lists (insert ps k p) j c ≡ (if k == j then contains p.children c else lists ps j c)
lists-insert ps k j c p = elim (Bool-cases (k == j)) [
  | inl h ↦ rw (get-insert ps k j p, h) refl
  | inr h ↦ rw (get-insert ps k j p, h) refl
]

-- Writing a process that lists as much as before breaks no link.
pub Linked-insert :
    (ps : ProcessManager) (k c : ℕ) (p q : Process) (parent : Option ℕ)
    → get ps k ≡ some p
    → (contains p.children c ≡ true → contains q.children c ≡ true)
    → Linked ps c parent
    → Linked (insert ps k q) c parent
Linked-insert ps k c p q none g h l = l
Linked-insert ps k c p q (some j) g h l = elim (Bool-cases (k == j)) [
  | inl e ↦
      let kj : k ≡ j = ground (arith, e) in
      rw (lists-insert ps k j c q, e)
        (h (ap (λ o. lists_in o c) (sym g) ∙ ap (λ n. lists ps n c) kj ∙ l))
  | inr e ↦ rw (lists-insert ps k j c q, e) l
]

or_else : Process → Option Process → Process
or_else d none = d
or_else d (some p) = p

-- What is found after a write is what was written, or what was there.
pub insert_cases :
    (ps : ProcessManager) (k c : ℕ) (q r : Process)
    → get (insert ps k q) c ≡ some r
    → ((k ≡ c) × (q ≡ r)) ⊎ (((k == c) ≡ false) × (get ps c ≡ some r))
unfolding or_else
insert_cases ps k c q r h = elim (Bool-cases (k == c)) [
  | inl e ↦ inl (ground (arith, e), ap (or_else q) (rw (get-insert ps k c q, e) at h))
  | inr e ↦ inr (e, rw (get-insert ps k c q, e) at h)
]

pub same_process :
    (ps : ProcessManager) (k j : ℕ) (p q : Process)
    → get ps k ≡ some p
    → get ps j ≡ some q
    → k ≡ j
    → p ≡ q
unfolding or_else
same_process ps k j p q g h e = ap (or_else p) (sym g ∙ ap (get ps) e ∙ h)

-- A process that others name is there, and is there to list them.
pub lists_found :
    (ps : ProcessManager) (k c : ℕ)
    → lists ps k c ≡ true
    → (p : Process) × (get ps k ≡ some p) × (contains p.children c ≡ true)
lists_found ps k c h = go (get ps k) refl h
  where
    go :
        (o : Option Process)
        → get ps k ≡ o
        → lists_in o c ≡ true
        → (p : Process) × (get ps k ≡ some p) × (contains p.children c ≡ true)
    go none e l = absurd cc
    go (some p) e l = (p, e, l)

pub some-injective : (p q : Process) → some p ≡ some q → p ≡ q
unfolding or_else
some-injective p q e = ap (or_else p) e

-- A write to a process that is there makes none with pid 0.
pub no_zero-insert :
    (ps : ProcessManager) (k : ℕ) (q : Process)
    → get ps 0 ≡ none
    → (k == 0) ≡ false
    → get (insert ps k q) 0 ≡ none
no_zero-insert ps k q h n = rw (get-insert ps k 0 q, n) h

pub not_zero :
    (ps : ProcessManager) (k : ℕ) (p : Process)
    → get ps 0 ≡ none
    → get ps k ≡ some p
    → (k == 0) ≡ false
not_zero ps k p h g = elim (Bool-cases (k == 0)) [
  | inr e ↦ e
  | inl e ↦
      let k0 : k ≡ 0 = ground (arith, e) in
      let bad : none ≡ some p = sym h ∙ ap (get ps) (sym k0) ∙ g in absurd (cc bad)
]

pub none_of : (o : Option Process) → is_some o ≡ false → o ≡ none
none_of none h = refl
none_of (some p) h = absurd cc
