-- ===== src/Process/Family/Count.antt =====
-- How often a process stands in the lists of children of a table.
use asynclear.Prelude.{
  ℕ, ◌+◌, ◌≤◌, ◌<◌, ◌≡◌, true, false, Option, none, some, List, [], ◌∷◌, ◌++◌, ◌==◌, if◌then◌else◌,
  Bool-cases, inl, inr, contains, ltb, arith,
}
use asynclear.BTreeMap.{get, insert, remove, Above}
use asynclear.BTreeMap.Laws.{get_below}
use asynclear.Process.Wait.{Process, ProcessManager, without}

abbrev pub count : ℕ → List ℕ → ℕ
count a [] = 0
count a (x ∷ xs) = (if a == x then 1 else 0) + count a xs

pub count-append :
    (pid : ℕ) (before after : List ℕ)
    → count pid (before ++ after) ≡ count pid before + count pid after
count-append pid [] after = omega arith
count-append pid (p ∷ before) after = ground (arith, count-append pid before after)

pub count-contains : (a : ℕ) (xs : List ℕ) → contains xs a ≡ true → 0 < count a xs
count-contains a [] h = absurd cc
count-contains a (x ∷ xs) h = ground (arith, count-contains a xs)

pub contains-count : (a : ℕ) (xs : List ℕ) → 0 < count a xs → contains xs a ≡ true
contains-count a [] h = absurd (omega arith)
contains-count a (x ∷ xs) h = ground (arith, contains-count a xs)

pub count-without :
    (a c : ℕ) (xs : List ℕ)
    → contains xs c ≡ true
    → count a (without c xs) + (if a == c then 1 else 0) ≡ count a xs
count-without a c [] h = absurd cc
count-without a c (x ∷ xs) h = ground (arith, count-without a c xs)

abbrev pub child_count : ProcessManager → ℕ → ℕ
child_count [] c = 0
child_count ((k, p) ∷ ps) c = count c p.children + child_count ps c

-- How often it stands in the list of one process.
abbrev pub count_in : Option Process → ℕ → ℕ
count_in none c = 0
count_in (some p) c = count c p.children

pub count_in-le : (ps : ProcessManager) (k c : ℕ) → count_in (get ps k) c ≤ child_count ps c
unfolding get
count_in-le [] k c = omega arith
count_in-le ((j, q) ∷ ps) k c = elim (Bool-cases (j == k)) [
  | inl h ↦ rw h (omega arith)
  | inr h ↦ rw h (omega (arith, count_in-le ps k c))
]

pub child_count-insert :
    (lo : ℕ) (ps : ProcessManager) (k c : ℕ) (p : Process)
    → Above lo ps
    → child_count (insert ps k p) c + count_in (get ps k) c ≡ child_count ps c + count c p.children
unfolding get insert
child_count-insert lo [] k c p v = omega arith
child_count-insert lo ((j, q) ∷ ps) k c p v = elim (Bool-cases (ltb k j)) [
  | inl h ↦
      let n : (j == k) ≡ false = ground arith in
      let none_there = get_below (j + 1) ps k v.1 (ground arith) in
      rw (h, n, none_there) (omega arith)
  | inr h ↦ elim (Bool-cases (j == k)) [
    | inl e ↦ rw (h, e) (omega arith)
    | inr e ↦ rw (h, e) (omega (arith, child_count-insert (j + 1) ps k c p v.1))
  ]
]

pub child_count-remove :
    (ps : ProcessManager) (k c : ℕ)
    → child_count (remove ps k) c + count_in (get ps k) c ≡ child_count ps c
unfolding get remove
child_count-remove [] k c = omega arith
child_count-remove ((j, q) ∷ ps) k c = elim (Bool-cases (j == k)) [
  | inl e ↦ rw e (omega arith)
  | inr e ↦ rw e (omega (arith, child_count-remove ps k c))
]
