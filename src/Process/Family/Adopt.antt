-- ===== src/Process/Family/Adopt.antt =====
-- What handing children to the first process does to the table.
use asynclear.Prelude.{
  ℕ, ◌+◌, ◌≡◌, refl, ◌∙◌, ap, true, false, Option, none, some, List, [], ◌∷◌, ◌++◌, ◌==◌,
  if◌then◌else◌, Bool-cases, inl, inr, contains, arith, ok, All,
}
use mathlib.Core.List.{append_assoc, append-nil}
use asynclear.BTreeMap.{get, insert, IsSorted}
use asynclear.BTreeMap.Laws.{get-insert, insert-Above}
use asynclear.Process.Wait.{Process, ProcessManager}
use asynclear.Process.Family.{initproc_pid, adopt}
use asynclear.Process.Family.Count.{child_count, count, count_in, count-append, child_count-insert}

-- A process other than the first is there.
abbrev pub IsChild : ProcessManager → ℕ → Type 0
IsChild ps c = (p : Process) × (get ps c ≡ some p) × ((c == initproc_pid) ≡ false)

-- A process after the first one has taken in `cs`.
abbrev pub taken_in : List ℕ → ℕ → Process → Process
taken_in cs j p = record p {
  parent = if contains cs j then some initproc_pid else p.parent;
  children = if j == initproc_pid then p.children ++ cs else p.children;
}

abbrev pub adopted : List ℕ → ℕ → Option Process → Option Process
adopted cs j none = none
adopted cs j (some p) = some (taken_in cs j p)

pub record Adopts (ps : ProcessManager) (cs : List ℕ) (ps' : ProcessManager) : Type 0 where
  pub sorted : IsSorted ps'
  pub found : (j : ℕ) → get ps' j ≡ adopted cs j (get ps j)
  pub counts : (c : ℕ) → child_count ps' c ≡ child_count ps c + count c cs

adopted-nil : (j : ℕ) (o : Option Process) → o ≡ adopted [] j o
adopted-nil j none = refl
adopted-nil j (some p) = elim (Bool-cases (j == initproc_pid)) [
  | inl e ↦ rw (e, append-nil p.children) refl
  | inr e ↦ rw e refl
]

passed_by :
    (cs : List ℕ) (c j : ℕ) (o : Option Process)
    → (j == initproc_pid) ≡ false
    → (j == c) ≡ false
    → adopted cs j o ≡ adopted (c ∷ cs) j o
passed_by cs c j none h k = refl
passed_by cs c j (some p) h k = rw (h, k) refl

-- One round of the loop.
module _ (ps : ProcessManager) (c : ℕ) (q i : Process) (v : IsSorted ps) (g : get ps c ≡ some q)
    (n : (c == initproc_pid) ≡ false) (init : get ps initproc_pid ≡ some i) where
  abbrev moved : Process
  moved = record q { parent = some initproc_pid }

  abbrev marked : ProcessManager
  marked = insert ps c moved

  abbrev longer : Process
  longer = record i { children = i.children ++ c ∷ [] }

  marked_init : get marked initproc_pid ≡ some i
  marked_init = rw (get-insert ps c initproc_pid moved, n) init

  marked-Above : IsSorted marked
  marked-Above = insert-Above 0 ps c moved (omega arith) v

  round_get :
      (j : ℕ)
      → get (insert marked initproc_pid longer) j
        ≡ (if initproc_pid == j then some longer else if c == j then some moved else get ps j)
  round_get j = rw (get-insert marked initproc_pid j longer, get-insert ps c j moved) refl

  round_count :
      (a : ℕ)
      → child_count (insert marked initproc_pid longer) a
        ≡ child_count ps a + (if a == c then 1 else 0)
  round_count a = omega (
    arith,
    child_count-insert 0 marked initproc_pid a longer marked-Above,
    child_count-insert 0 ps c a moved v,
    ap (λ o. count_in o a) marked_init,
    ap (λ o. count_in o a) g,
    count-append a i.children (c ∷ []),
  )

  round_adopted :
      (cs : List ℕ) (j : ℕ)
      → adopted cs j (get (insert marked initproc_pid longer) j) ≡ adopted (c ∷ cs) j (get ps j)
  round_adopted cs j = elim (Bool-cases (initproc_pid == j)) [
    | inl e ↦
        let j1 : initproc_pid ≡ j = ground (arith, e) in
        let old : get ps j ≡ some i = rw (← j1) init in
        let je : (j == initproc_pid) ≡ true = ground (arith, e) in
        let jc : (j == c) ≡ false = ground (arith, e, n) in
        rw (round_get j, e, old, je, jc, append_assoc i.children (c ∷ []) cs) refl
    | inr e ↦
        let je : (j == initproc_pid) ≡ false = ground (arith, e) in
        elim (Bool-cases (c == j)) [
          | inl f ↦
              let cj : c ≡ j = ground (arith, f) in
              let old : get ps j ≡ some q = rw (← cj) g in
              let jc : (j == c) ≡ true = ground (arith, f) in
              rw (round_get j, e, f, old, je, jc)
                (elim (Bool-cases (contains cs j)) [ inl m ↦ rw m refl | inr m ↦ rw m refl ])
          | inr f ↦
              let jc : (j == c) ≡ false = ground (arith, f) in
              rw (round_get j, e, f) (passed_by cs c j (get ps j) je jc)
        ]
  ]

  round_IsChild : (d : ℕ) → IsChild ps d → IsChild (insert marked initproc_pid longer) d
  round_IsChild d (p, h, k) =
      let e : (initproc_pid == d) ≡ false = ground (arith, k) in
      elim (Bool-cases (c == d)) [
        | inl f ↦ (moved, rw (round_get d, e, f) refl, k)
        | inr f ↦ (p, rw (round_get d, e, f) h, k)
      ]

  round-All :
      (cs : List ℕ) → All (IsChild ps) cs → All (IsChild (insert marked initproc_pid longer)) cs
  round-All [] a = tt
  round-All (d ∷ cs) a = (round_IsChild d a.0, round-All cs a.1)

-- The loop succeeds if the children and the first process are there.
pub adopt_lem :
    (ps : ProcessManager) (cs : List ℕ) (i : Process)
    → IsSorted ps
    → All (IsChild ps) cs
    → get ps initproc_pid ≡ some i
    → (ps' : ProcessManager) × (adopt ps cs ≡ ok ps') × Adopts ps cs ps'
unfolding adopt
adopt_lem ps [] i v a g = (
  ps,
  refl,
  record { sorted = v; found = λ j. adopted-nil j (get ps j); counts = λ c. omega arith },
)
adopt_lem ps (c ∷ cs) i v ((q, h, n), a) g =
    let m = marked ps c q i v h n g in
    let next = insert m initproc_pid (longer ps c q i v h n g) in
    let r =
      adopt_lem next cs (longer ps c q i v h n g)
        (insert-Above 0 m initproc_pid _ (omega arith) (marked-Above ps c q i v h n g))
        (round-All ps c q i v h n g cs a) (round_get ps c q i v h n g initproc_pid) in
    (
      r.0,
      rw (adopt, h, marked_init ps c q i v h n g) r.1,
      record {
        sorted = r.2.sorted;
        found = λ j. r.2.found j ∙ round_adopted ps c q i v h n g cs j;
        counts = λ b. omega (arith, r.2.counts b, round_count ps c q i v h n g b);
      },
    )
