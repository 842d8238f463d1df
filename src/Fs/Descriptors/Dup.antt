-- ===== src/Fs/Descriptors/Dup.antt =====
-- Copies of a descriptor share the position of their file.
use asynclear.Prelude.{
  ℕ, ◌+◌, ◌<◌, ◌≡◌, ◌≢◌, refl, sym, ◌∙◌, ap, true, false, some, none, Option, ◌==◌, if◌then◌else◌,
  KResult, ok, err, panic, arith, Bool-cases, inl, inr,
}
use Prim.Native.Nat.{bit_and}
use asynclear.Config.{usize_mod}
use asynclear.BTreeMap.{get, insert, IsSorted}
use asynclear.BTreeMap.Laws.{get-insert}
use asynclear.Fs.OpenFlags.{OpenFlags, has, cloexec_flag}
use asynclear.Fs.FdTable.{FileDescriptor, FdTable, seekable, add, add_from, put}
use asynclear.Fs.FdTable.Add.{AddOutcome, add_from_lem}
use asynclear.Fs.Descriptors.{
  OpenFiles, checked_add_signed, added, move_to, start, current, sys_dup, sys_dup3, sys_lseek,
  set_close_on_exec, all_open_flags,
}
use asynclear.Fs.Descriptors.Seek.{with_desc_found, sys_lseek-seekable}

abbrev value_of : KResult ℕ → ℕ
value_of (ok n) = n
value_of (err e) = 0
value_of panic = 0

-- What a successful addition leaves.
added_copy :
    (t : FdTable) (desc : FileDescriptor) (o o1 : OpenFiles) (fd : ℕ)
    (r : KResult (Option ℕ × FdTable))
    → AddOutcome t desc 0 r
    → added r o ≡ (ok fd, o1)
    → ((j : ℕ) → get o1.table.files j ≡ (if fd == j then some desc else get t.files j))
      × (get t.files fd ≡ none)
      × ((j : ℕ) → o1.offset j ≡ o.offset j)
added_copy t desc o o1 fd (ok (none, t')) a h = absurd cc
added_copy t desc o o1 fd (ok (some fd', t')) (l, _, g, _) h =
    let e : fd' ≡ fd = ap (λ (r : KResult ℕ × OpenFiles). value_of r.0) h in
    (
      λ j. sym (ap (λ (r : KResult ℕ × OpenFiles). get r.1.table.files j) h) ∙ rw (← e) (g j),
      ap (get t.files) (sym e) ∙ l.free,
      λ j. sym (ap (λ (r : KResult ℕ × OpenFiles). r.1.offset j) h),
    )
added_copy t desc o o1 fd (err e) a h = absurd a
added_copy t desc o o1 fd panic a h = absurd cc

dup_added :
    (old_fd : ℕ) (o : OpenFiles) (desc : FileDescriptor)
    → get o.table.files old_fd ≡ some desc
    → sys_dup old_fd o ≡ added (add_from o.table desc 0) o
unfolding sys_dup add
dup_added old_fd o desc g = rw (sys_dup, with_desc_found old_fd o desc g) refl

no_move : (pos : ℕ) → pos < usize_mod → checked_add_signed pos 0 ≡ some pos
unfolding checked_add_signed
no_move pos h = let e : pos + 0 ≡ pos = omega arith in ground (arith, e)

moved : (id pos : ℕ) (o : OpenFiles) → (move_to id (some pos) o).1.offset id ≡ pos
moved id pos o = let h : (id == id) ≡ true = ground arith in rw h refl

-- When `sys_dup` of an open seekable file succeeds, the new number was free, the old one is as before,
-- and the two share their position: after `lseek` to `pos` through the new number, `lseek` by 0 from the
-- current position through the old number returns `pos`.
pub sys_dup-sys_lseek :
    (old_fd new_fd id pos : ℕ) (o o1 : OpenFiles) (desc : FileDescriptor)
    → IsSorted o.table.files
    → get o.table.files old_fd ≡ some desc
    → desc.file ≡ seekable id
    → pos < usize_mod
    → sys_dup old_fd o ≡ (ok new_fd, o1)
    → (o2 : OpenFiles) × (get o.table.files new_fd ≡ none)
      × (get o1.table.files old_fd ≡ some desc)
      × (get o1.table.files new_fd ≡ some desc)
      × (sys_lseek new_fd pos 0 o1 ≡ (ok pos, o2))
      × ((sys_lseek old_fd 0 1 o2).0 ≡ ok pos)
unfolding checked_add_signed
sys_dup-sys_lseek old_fd new_fd id pos o o1 desc s g e b h =
    let (later, free, same) =
      added_copy o.table desc o o1 new_fd (add_from o.table desc 0)
        (add_from_lem o.table desc 0 (omega arith) s) (sym (dup_added old_fd o desc g) ∙ h) in
    let here : (new_fd == new_fd) ≡ true = ground arith in
    let new : get o1.table.files new_fd ≡ some desc = later new_fd ∙ rw here refl in
    let old : get o1.table.files old_fd ≡ some desc =
      later old_fd ∙ elim (Bool-cases (new_fd == old_fd)) [ inl q ↦ rw q refl | inr q ↦ rw q g ] in
    let o2 = (move_to id (some pos) o1).1 in
    let fits : checked_add_signed pos 0 ≡ some pos = no_move pos b in
    (
      o2,
      free,
      old,
      new,
      sys_lseek-seekable new_fd pos 0 id o1 desc (start pos) new e refl,
      ap (λ (r : KResult ℕ × OpenFiles). r.0)
            (sys_lseek-seekable old_fd 0 1 id o2 desc (current 0) old e refl)
          ∙ rw (moved id pos o1, fits) refl,
    )

-- `sys_dup3` of an open descriptor to another number, with declared flags, returns that number, which
-- then holds the same file with the CLOEXEC flag as asked for; every other number and every position is
-- as before, whether or not the number was in use.
pub sys_dup3_lem :
    (old_fd new_fd : ℕ) (flags : OpenFlags) (o : OpenFiles) (desc : FileDescriptor)
    → get o.table.files old_fd ≡ some desc
    → old_fd ≢ new_fd
    → bit_and flags all_open_flags ≡ flags
    → (o1 : OpenFiles) × (sys_dup3 old_fd new_fd flags o ≡ (ok new_fd, o1))
      × (get o1.table.files new_fd ≡ some (set_close_on_exec desc (has flags cloexec_flag)))
      × ((j : ℕ) → j ≢ new_fd → get o1.table.files j ≡ get o.table.files j)
      × ((j : ℕ) → o1.offset j ≡ o.offset j)
unfolding sys_dup3 put
sys_dup3_lem old_fd new_fd flags o desc g n f =
    let new = set_close_on_exec desc (has flags cloexec_flag) in
    let a : (bit_and flags all_open_flags == flags) ≡ true = ground (arith, f) in
    let b : (old_fd == new_fd) ≡ false = ground (arith, n) in
    let here : (new_fd == new_fd) ≡ true = ground arith in
    (
      record o { table = record o.table { files = insert o.table.files new_fd new } },
      rw (a, with_desc_found old_fd o desc g, b) refl,
      get-insert o.table.files new_fd new_fd new ∙ rw here refl,
      λ j m. get-insert o.table.files new_fd j new ∙ ground (arith, m),
      λ j. refl,
    )
