-- ===== src/Fs/FdTable/Close.antt =====
-- Closing: `close_on_exec` and `remove`.
use asynclear.Prelude.{ℕ, ◌+◌, ◌≡◌, refl, Option, none, some, [], ◌∷◌, if◌then◌else◌, arith}
use asynclear.BTreeMap.{BTreeMap, get, Above, IsSorted}
use asynclear.BTreeMap.Laws.{get_below, Above-mono}
use asynclear.Fs.OpenFlags.{has, cloexec_flag}
use asynclear.Fs.FdTable.{FileDescriptor, FdTable, retain_open, close_on_exec}

-- A descriptor that `exec` keeps.
abbrev pub kept : Option FileDescriptor → Option FileDescriptor
kept none = none
kept (some desc) = if has desc.flags cloexec_flag then none else some desc

retain_open-get :
    (lo : ℕ) (m : BTreeMap FileDescriptor) (fd : ℕ)
    → Above lo m
    → get (retain_open m) fd ≡ kept (get m fd)
unfolding retain_open get
retain_open-get lo [] fd s = refl
retain_open-get lo ((k, d) ∷ m) fd s =
    ground (arith, retain_open-get (k + 1) m fd, retain_open-get (k + 1) m k, get_below (k + 1) m k)

retain_open-Above : (lo : ℕ) (m : BTreeMap FileDescriptor) → Above lo m → Above lo (retain_open m)
unfolding retain_open
retain_open-Above lo [] s = tt
retain_open-Above lo ((k, d) ∷ m) s =
    ground (arith, retain_open-Above (k + 1) m, Above-mono lo (k + 1) (retain_open m))

-- After `close_on_exec` a number of an ordered table holds what it held before, unless that
-- descriptor has the flag `CLOEXEC`, and the table is still ordered.
pub close_on_exec_lem :
    (t : FdTable) (fd : ℕ)
    → IsSorted t.files
    → (get (close_on_exec t).files fd ≡ kept (get t.files fd)) × IsSorted (close_on_exec t).files
unfolding close_on_exec
close_on_exec_lem t fd s = (retain_open-get 0 t.files fd s, retain_open-Above 0 t.files s)
