-- ===== src/Fs/Descriptors/Seek.antt =====
-- Moving the position of a file.
use asynclear.Prelude.{
  ℕ, ◌+◌, ◌-◌, ◌^◌, ◌≤◌, ◌<◌, ◌≡◌, refl, sym, ◌∙◌, ap, true, false, some, ◌==◌, Bool-cases, ltb,
  leb, if◌then◌else◌, KResult, ok, inl, inr, arith,
}
use asynclear.Config.{usize_mod}
use asynclear.BTreeMap.{get}
use asynclear.Fs.FdTable.{FileDescriptor, seekable}
use asynclear.Fs.Descriptors.{
  OpenFiles, checked_add_signed, with_desc, move_to, new_pos, current, seek, sys_lseek, SeekFrom,
  seek_from,
}

pub with_desc_found :
    {A : Type 0} (fd : ℕ) (o : OpenFiles) (desc : FileDescriptor)
    → get o.table.files fd ≡ some desc
    → (f : FileDescriptor → OpenFiles → KResult A × OpenFiles) → with_desc fd f o ≡ f desc o
with_desc_found fd o desc g f = rw (with_desc, g) refl

-- A call of `sys_lseek` on a seekable file.
pub sys_lseek-seekable :
    (fd offset whence id : ℕ) (o : OpenFiles) (desc : FileDescriptor) (from : SeekFrom)
    → get o.table.files fd ≡ some desc
    → desc.file ≡ seekable id
    → seek_from whence offset ≡ some from
    → sys_lseek fd offset whence o ≡ move_to id (new_pos o id from) o
unfolding sys_lseek
sys_lseek-seekable fd offset whence id o desc from g e w =
    rw (sys_lseek, with_desc_found fd o desc g, w, seek, e) refl

checked_forward : (a i : ℕ) → i < 2 ^ 63 → a + i < usize_mod → checked_add_signed a i ≡ some (a + i)
unfolding checked_add_signed
checked_forward a i h k = ground arith

checked_back :
    (a i : ℕ) → 0 < i → i ≤ 2 ^ 63 → i ≤ a → checked_add_signed a (usize_mod - i) ≡ some (a - i)
unfolding checked_add_signed
checked_back a i p h k =
    let b : ltb (usize_mod - i) (2 ^ 63) ≡ false = ground arith in
    let c : leb (usize_mod - (usize_mod - i)) a ≡ true = ground arith in
    let d : usize_mod - (usize_mod - i) ≡ i = omega arith in rw (b, c, d) refl

same_offset :
    (o : OpenFiles) (id j b : ℕ)
    → (if j == id then o.offset id else if j == id then b else o.offset j) ≡ o.offset j
same_offset o id j b = elim (Bool-cases (j == id)) [
  | inl h ↦ let e : j ≡ id = ground (arith, h) in rw h (ap o.offset (sym e))
  | inr h ↦ rw h refl
]

-- Seeking forward by `i` bytes and back by as many, with the second number in two's complement, returns
-- first the new position and then the old one, when the position stays in 64 bits; the table of
-- descriptors and the positions of other files are as before.
pub sys_lseek-back :
    (fd id i : ℕ) (o : OpenFiles) (desc : FileDescriptor)
    → get o.table.files fd ≡ some desc
    → desc.file ≡ seekable id
    → 0 < i
    → i < 2 ^ 63
    → o.offset id + i < usize_mod
    → (o1 : OpenFiles) × (o2 : OpenFiles) × (sys_lseek fd i 1 o ≡ (ok (o.offset id + i), o1))
      × (sys_lseek fd (usize_mod - i) 1 o1 ≡ (ok (o.offset id), o2))
      × (o2.table ≡ o.table)
      × ((j : ℕ) → o2.offset j ≡ o.offset j)
sys_lseek-back fd id i o desc g e p h k =
    let a = o.offset id in
    let o1 : OpenFiles = record o { offset = λ j. if j == id then a + i else o.offset j } in
    let here : (id == id) ≡ true = ground arith in
    let mid : o1.offset id ≡ a + i = rw here refl in
    let back : checked_add_signed (o1.offset id) (usize_mod - i) ≡ some a =
      rw mid (checked_back (a + i) i p (omega arith) (omega arith) ∙ ap some (omega arith)) in
    (
      o1,
      record o1 { offset = λ j. if j == id then a else o1.offset j },
      sys_lseek-seekable fd i 1 id o desc (current i) g e refl ∙ rw (checked_forward a i h k) refl,
      sys_lseek-seekable fd (usize_mod - i) 1 id o1 desc (current (usize_mod - i)) g e refl
          ∙ rw back refl,
      refl,
      λ j. same_offset o id j (a + i),
    )
