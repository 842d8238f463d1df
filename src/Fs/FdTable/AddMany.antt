-- ===== src/Fs/FdTable/AddMany.antt =====
-- The numbers that `add_many` chooses: consecutive ones from the lowest free number, whether the
-- later ones are free or not.
use asynclear.Prelude.{
  ℕ, zero, suc, ◌+◌, ◌-◌, ◌≤◌, ◌≡◌, refl, ◌∙◌, sym, none, some, List, [], ◌∷◌, ◌++◌, ltb, ◌==◌,
  length, false, if◌then◌else◌, arith, inl, inr, Bool-cases,
}
use mathlib.Core.List.{append_assoc, append-nil}
use asynclear.BTreeMap.{BTreeMap, get, insert, keys, Above, IsSorted}
use asynclear.BTreeMap.Laws.{get-insert, get_below, Above-mono}
use asynclear.Fs.FdTable.Add.{IsLowestFree}
use asynclear.Fs.FdTable.{FileDescriptor, FdTable, choose_fds, fill_fds, insert_all, add_many}

-- The numbers from `fd` on, `n` of them.
abbrev pub run_of : ℕ → ℕ → List ℕ
run_of fd zero = []
run_of fd (suc n) = fd ∷ run_of (fd + 1) n

-- The lowest number from `lo` on that is no key of `m`.
pub lowest : ℕ → BTreeMap FileDescriptor → ℕ
lowest lo [] = lo
lowest lo ((k, d) ∷ m) = let rest = lowest (lo + 1) m in if lo == k then rest else lo

fill_fds-eq : (left fd : ℕ) (ret : List ℕ) → fill_fds left fd ret ≡ ret ++ run_of fd left
unfolding fill_fds
fill_fds-eq zero fd ret = sym (append-nil ret)
fill_fds-eq (suc left) fd ret =
    fill_fds-eq left (fd + 1) (ret ++ (fd ∷ [])) ∙ append_assoc ret (fd ∷ []) (run_of (fd + 1) left)

abbrev chosen : ℕ × ℕ × List ℕ → List ℕ
chosen (left, fd, ret) = fill_fds left fd ret

-- Past a gap every key lies above the counter, so each round chooses the next number.
choose_past_gap :
    (left fd : ℕ) (m : BTreeMap FileDescriptor) (ret : List ℕ)
    → Above (fd + 1) m
    → chosen (choose_fds left (keys m) fd ret) ≡ ret ++ run_of fd left
unfolding choose_fds keys
choose_past_gap left fd [] ret s = fill_fds-eq left fd ret
choose_past_gap zero fd ((k, d) ∷ m) ret s =
    let e : (fd == k) ≡ false = ground arith in rw e (fill_fds-eq 0 fd ret)
choose_past_gap (suc left) fd ((k, d) ∷ m) ret s =
    let e : (fd == k) ≡ false = ground arith in
    let more : (suc left == 0) ≡ false = ground arith in
    let one : suc left - 1 ≡ left = omega arith in
    rw (e, more, one)
      (choose_past_gap left (fd + 1) m (ret ++ (fd ∷ []))
          (Above-mono (fd + 1 + 1) (k + 1) m (omega arith) s.1)
        ∙ append_assoc ret (fd ∷ []) (run_of (fd + 1) left))

choose_first :
    (left fd k : ℕ) (d : FileDescriptor) (m : BTreeMap FileDescriptor)
    → Above fd ((k, d) ∷ m)
    → (fd == k) ≡ false
    → chosen (choose_fds left (keys ((k, d) ∷ m)) fd []) ≡ run_of fd left
choose_first left fd k d m s e = choose_past_gap left fd ((k, d) ∷ m) [] (ground arith, s.1)

choose_fds-eq :
    (left fd : ℕ) (m : BTreeMap FileDescriptor)
    → Above fd m
    → chosen (choose_fds left (keys m) fd []) ≡ run_of (lowest fd m) left
unfolding choose_fds keys lowest
choose_fds-eq left fd [] s = fill_fds-eq left fd []
choose_fds-eq left fd ((k, d) ∷ m) s = elim (Bool-cases (fd == k)) [
  | inl e ↦ rw e (choose_fds-eq left (fd + 1) m (Above-mono (fd + 1) (k + 1) m (ground arith) s.1))
  | inr e ↦ choose_first left fd k d m s e ∙ rw e refl
]

-- `add_many` on an ordered table either fails, exactly when the new descriptors would pass the limit
-- on open files, and changes nothing; or it returns consecutive numbers from the lowest free one.
pub add_many_lem :
    (t : FdTable) (descs : List FileDescriptor)
    → IsSorted t.files
    → add_many t descs ≡ (
        if ltb t.rlim_curr (length t.files + length descs)
        then (none, t)
        else (let fds = run_of (lowest 0 t.files) (length descs) in
            (some fds, record t { files = insert_all t.files fds descs })))
unfolding add_many
add_many_lem t descs s = rw (choose_fds-eq (length descs) 0 t.files s)

lowest_free : (lo : ℕ) (m : BTreeMap FileDescriptor) → Above lo m → IsLowestFree lo m (lowest lo m)
unfolding lowest get
lowest_free lo [] s = record {
  from_le = omega arith;
  free = refl;
  used = λ j p q. absurd (omega arith);
}
lowest_free lo ((k, d) ∷ m) s = elim (Bool-cases (lo == k)) [
  | inl e ↦ rw e (
      let l = lowest_free (lo + 1) m (Above-mono (lo + 1) (k + 1) m (ground arith) s.1) in
      record {
        from_le = omega (arith, l.from_le);
        free = ground (arith, l.from_le, l.free);
        used = λ j p q. ground (arith, l.used j);
      })
  | inr e ↦ rw e (record {
    from_le = omega arith;
    free = get_below (lo + 1) ((k, d) ∷ m) lo (ground arith, s.1) (omega arith);
    used = λ j p q. absurd (omega arith);
  })
]

-- `add_many` of two descriptors, as `sys_pipe2` calls it, on an ordered table with room for both: the
-- first number is the lowest free one, the second is the next number. It is taken whether it is free
-- or not: if it was in use, its descriptor is replaced by the second new one. All other numbers are
-- as before.
pub add_pair :
    (t : FdTable) (r w : FileDescriptor)
    → IsSorted t.files
    → length t.files + 2 ≤ t.rlim_curr
    → (fd : ℕ) × IsLowestFree 0 t.files fd
      × ((add_many t (r ∷ w ∷ [])).0 ≡ some (fd ∷ (fd + 1) ∷ []))
      × ((j : ℕ)
          → get (add_many t (r ∷ w ∷ [])).1.files j
            ≡ (if fd + 1 == j then some w else if fd == j then some r else get t.files j))
unfolding insert_all
add_pair t r w s room =
    let fd = lowest 0 t.files in
    let fits : ltb t.rlim_curr (length t.files + 2) ≡ false = ground arith in
    (
      fd,
      lowest_free 0 t.files s,
      rw (add_many_lem t (r ∷ w ∷ []) s, fits),
      λ j.
          rw (add_many_lem t (r ∷ w ∷ []) s, fits)
            (rw (get-insert (insert t.files fd r) (fd + 1) j w, get-insert t.files fd j r)),
    )
