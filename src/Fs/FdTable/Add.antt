-- ===== src/Fs/FdTable/Add.antt =====
-- `add_from` finds the lowest free number.
use asynclear.Prelude.{
  ℕ, ◌+◌, ◌-◌, ◌≤◌, ◌<◌, ◌≡◌, ◌≢◌, refl, Option, none, some, [], ◌∷◌, ltb, leb, ◌==◌, length,
  if◌then◌else◌, KResult, ok, err, panic, arith, inl, inr, Bool-cases, ==_iff, ◌>>=◌,
}
use asynclear.Config.{usize_mod}
use asynclear.BTreeMap.{BTreeMap, get, insert, after, keys, Above, IsSorted}
use asynclear.BTreeMap.Laws.{get-insert, get_below, get-after, after-Above, insert-Above}
use asynclear.Fs.FdTable.{FileDescriptor, FdTable, first_gap, add_from}

-- `fd` is the lowest number from `from` on that `m` does not hold.
pub record IsLowestFree (from : ℕ) (m : BTreeMap FileDescriptor) (fd : ℕ) : Type 0 where
  pub from_le : from ≤ fd
  pub free : get m fd ≡ none
  pub used : (j : ℕ) → from ≤ j → j < fd → get m j ≢ none

abbrev pub GapOutcome : ℕ → BTreeMap FileDescriptor → KResult ℕ → Type 0
GapOutcome from m (ok fd) = IsLowestFree from m fd
GapOutcome from m (err e) = ⊥
GapOutcome from m panic = get m (usize_mod - 1) ≢ none

gap_step :
    (k : ℕ) (d : FileDescriptor) (m : BTreeMap FileDescriptor) (r : KResult ℕ)
    → GapOutcome (k + 1) m r
    → GapOutcome k ((k, d) ∷ m) r
unfolding get
gap_step k d m (ok fd) g = record {
  from_le = omega arith;
  free = ground arith;
  used = λ j p q. ground (arith, g.used j);
}
gap_step k d m (err e) g = g
gap_step k d m panic g = ground arith

first_gap_lem :
    (from : ℕ) (m : BTreeMap FileDescriptor)
    → from < usize_mod
    → Above from m
    → GapOutcome from m (first_gap from (keys m))
unfolding first_gap keys get
first_gap_lem from [] b s = record {
  from_le = omega arith;
  free = refl;
  used = λ j p q. absurd (omega arith);
}
first_gap_lem from ((k, d) ∷ m) b s = elim (Bool-cases (from == k)) [
  | inr e ↦ rw e (record {
    from_le = omega arith;
    free = get_below (from + 1) ((k, d) ∷ m) from (ground arith) (omega arith);
    used = λ j p q. absurd (omega arith);
  })
  | inl e ↦
      rw (e, (==_iff from k).0 e)
        (elim (Bool-cases (ltb (k + 1) usize_mod)) [
          | inl h ↦ rw h (
              gap_step k d m (first_gap (k + 1) (keys m))
                (first_gap_lem (k + 1) m (ground arith) s.1))
          | inr h ↦ rw h (ground arith)
        ])
]

after_lowest :
    (m : BTreeMap FileDescriptor) (from fd : ℕ)
    → IsLowestFree from (after m from) fd
    → IsLowestFree from m fd
after_lowest m from fd l = record {
  from_le = l.from_le;
  free = rw (← get-after m from fd l.from_le) l.free;
  used = λ j p q. rw (← get-after m from j p) (l.used j p q);
}

-- What a call of `add_from` does, on each of its outcomes.
abbrev pub AddOutcome : FdTable → FileDescriptor → ℕ → KResult (Option ℕ × FdTable) → Type 0
AddOutcome t desc from (ok (none, t')) = (t' ≡ t) × (t.rlim_curr ≤ length t.files)
AddOutcome t desc from (ok (some fd, t')) =
    IsLowestFree from t.files fd
    × (length t.files < t.rlim_curr)
    × ((j : ℕ) → get t'.files j ≡ (if fd == j then some desc else get t.files j))
    × IsSorted t'.files
AddOutcome t desc from (err e) = ⊥
AddOutcome t desc from panic = get t.files (usize_mod - 1) ≢ none

insert_outcome :
    (t : FdTable) (desc : FileDescriptor) (from : ℕ) (r : KResult ℕ)
    → from < usize_mod
    → IsSorted t.files
    → length t.files < t.rlim_curr
    → GapOutcome from (after t.files from) r
    → AddOutcome t desc from
        (r >>= λ new_fd. ok (some new_fd, record t { files = insert t.files new_fd desc }))
insert_outcome t desc from (ok fd) b s h g = (
  after_lowest t.files from fd g,
  h,
  (λ j. get-insert t.files fd j desc),
  insert-Above 0 t.files fd desc (omega arith) s,
)
insert_outcome t desc from (err e) b s h g = g
insert_outcome t desc from panic b s h g =
    rw (← get-after t.files from (usize_mod - 1) (omega arith)) g

-- `add_from` on an ordered table either fails, because the limit on open files is reached, and
-- changes nothing; or returns the lowest number from `from` on that is free, where it then holds the
-- new descriptor and every other number is as before. It panics only if the last number of 64 bits is
-- in use.
pub add_from_lem :
    (t : FdTable) (desc : FileDescriptor) (from : ℕ)
    → from < usize_mod
    → IsSorted t.files
    → AddOutcome t desc from (add_from t desc from)
unfolding add_from
add_from_lem t desc from b s = elim (Bool-cases (leb t.rlim_curr (length t.files))) [
  | inl h ↦ rw h (refl, ground arith)
  | inr h ↦ rw h (
      insert_outcome t desc from _ b s (ground arith)
        (first_gap_lem from (after t.files from) b (after-Above 0 t.files from s)))
]
