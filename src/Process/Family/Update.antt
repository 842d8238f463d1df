-- ===== src/Process/Family/Update.antt =====
-- Changes to one process.
use asynclear.Prelude.{
  ℕ, ◌≡◌, refl, sym, ◌∙◌, ap, false, some, [], ◌==◌, Bool-cases, inl, inr, contains, arith, subst,
}
use asynclear.BTreeMap.{get, insert}
use asynclear.BTreeMap.Laws.{get-insert, insert-Above}
use asynclear.Process.Status.{is_zombie}
use asynclear.Process.Wait.{Process}
use asynclear.Process.Family.{Processes, initproc_pid}
use asynclear.Process.Family.Count.{child_count, count, count_in, child_count-insert}
use asynclear.Process.Family.Invariant.{
  Linked, IsFamily, Linked-insert, insert_cases, same_process, no_zero-insert, not_zero,
}

-- A process changes while it lives, but not its relatives.
pub IsFamily-insert :
    (w : Processes) (k : ℕ) (p q : Process)
    → IsFamily w
    → get w.procs k ≡ some p
    → q.children ≡ p.children
    → q.parent ≡ p.parent
    → is_zombie q.status ≡ is_zombie p.status
    → (p.threads ≡ [] → q.threads ≡ [])
    → IsFamily (record w { procs = insert w.procs k q })
IsFamily-insert w k p q v g ec ep z t = record {
  sorted = insert-Above 0 w.procs k q (omega arith) v.sorted;
  pids = v.pids;
  known = λ j. elim (Bool-cases (k == j)) [
    | inl e ↦
        let kj : k ≡ j = ground (arith, e) in
        let old : get w.procs j ≡ some p = rw (← kj) g in
        v.known j ∙ rw (get-insert w.procs k j q, e, old) refl
    | inr e ↦ v.known j ∙ rw (get-insert w.procs k j q, e) refl
  ];
  no_zero = no_zero-insert w.procs k q v.no_zero (not_zero w.procs k p v.no_zero g);
  one_parent = λ c.
      let n = child_count-insert 0 w.procs k c q v.sorted in
      let m : child_count (insert w.procs k q) c ≡ child_count w.procs c =
        omega (arith, n, ap (λ o. count_in o c) g, ap (count c) ec) in
      m ∙ v.one_parent c ∙ elim (Bool-cases (k == c)) [
        | inl e ↦
            let kc : k ≡ c = ground (arith, e) in
            let old : get w.procs c ≡ some p = rw (← kc) g in
            rw (get-insert w.procs k c q, e, old) refl
        | inr e ↦ rw (get-insert w.procs k c q, e) refl
      ];
  linked = λ c r h zr i.
      Linked-insert w.procs k c p q r.parent g (λ m. ap (λ l. contains l c) ec ∙ m)
        (elim (insert_cases w.procs k c q r h) [
          | inl (e, f) ↦
              subst (λ (n : ℕ). Linked w.procs n r.parent) e
                (subst (Linked w.procs k) (sym ep ∙ ap (λ (x : Process). x.parent) f) (
                  v.linked k p g (sym z ∙ ap (λ (x : Process). is_zombie x.status) f ∙ zr)
                    (rw e i)))
          | inr (e, o) ↦ v.linked c r o zr i
        ]);
  dead = λ c r h zr. elim (insert_cases w.procs k c q r h) [
    | inl (e, f) ↦
        let d = v.dead k p g (sym z ∙ ap (λ (x : Process). is_zombie x.status) f ∙ zr) in
        (
          ap (λ (x : Process). x.children) (sym f) ∙ ec ∙ d.0,
          ap (λ (x : Process). x.threads) (sym f) ∙ t d.1,
        )
    | inr (e, o) ↦ v.dead c r o zr
  ];
  init = elim (Bool-cases (k == initproc_pid)) [
    | inl e ↦
        let alive : is_zombie p.status ≡ false =
          ap (λ (x : Process). is_zombie x.status)
            (same_process w.procs k initproc_pid p v.init.0 g v.init.1 (ground (arith, e)))
          ∙ v.init.2 in
        (q, rw (get-insert w.procs k initproc_pid q, e) refl, z ∙ alive)
    | inr e ↦ (v.init.0, rw (get-insert w.procs k initproc_pid q, e) v.init.1, v.init.2)
  ];
}
