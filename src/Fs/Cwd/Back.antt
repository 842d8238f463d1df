-- ===== src/Fs/Cwd/Back.antt =====
-- The path that `sys_getcwd` writes leads back to the working directory.
use asynclear.Prelude.{
  ℕ, ◌+◌, ◌-◌, ◌<◌, ◌≤◌, ◌≡◌, ◌≢◌, refl, sym, ◌∙◌, ap, Option, none, some, List, [], ◌∷◌, ◌++◌,
  ◌==◌, length, KResult, ok, err, panic, enoent, Bool, true, false, Bool-cases, inl, inr, contains,
  tabulate, arith, subst, drop,
}
use asynclear.Prelude.Stateful.{after_call, after_call_cong, after_call_assoc}
use asynclear.Fs.Dentry.{Name, DEntry, dir, bytes, DynInode, Store, lookup, path}
use asynclear.Config.{low_address_end, max_pathname_len}
use asynclear.Memory.Address.{VirtAddr}
use asynclear.Memory.MemorySpace.{MemorySpace}
use asynclear.Memory.UserCheck.{Access, try_user_byte, check_cstr}
use asynclear.Memory.UserCheck.Cstr.{check_cstr_lem}
use asynclear.Memory.InitStack.View.{Holds}
use asynclear.Fs.Path.{find_file, resolve_path, start_dir}
use asynclear.Fs.Path.Roundtrip.{IsBelow, find_file-path}
use asynclear.Fs.Cwd.{as_dir, chdir_to, chdir_read, sys_chdir, sys_getcwd}
use asynclear.Fs.Cwd.Print.{sys_getcwd_lem}

module _ (inode_lookup : ℕ → Name → Option DynInode) where
  found_dir :
      (o : Option DEntry) (s : Store)
      → as_dir o s
        ≡ after_call (elim o [ none ↦ (err enoent, s) | some e ↦ (ok e, s) ]) (λ e. as_dir (some e))
  found_dir none s = refl
  found_dir (some (dir d)) s = refl
  found_dir (some (bytes p n i)) s = refl

  -- A path leads to the directory that `find_file` finds.
  chdir_to-find_file :
      (root cwd : ℕ) (p : Name) (s : Store)
      → chdir_to inode_lookup root cwd p s
        ≡ after_call (find_file inode_lookup root cwd p s) (λ e. as_dir (some e))
  unfolding chdir_to find_file
  chdir_to-find_file root cwd p s =
      after_call_cong (resolve_path inode_lookup root (start_dir cwd) p s) _ _ (λ p2i s'.
        after_call_cong (lookup inode_lookup p2i.dir p2i.last_component s') _ _ found_dir
        ∙ sym (after_call_assoc (lookup inode_lookup p2i.dir p2i.last_component s') _ _))
      ∙ sym (after_call_assoc (resolve_path inode_lookup root (start_dir cwd) p s) _ _)

  chdir_to-path :
      (s : Store) (root cwd d : ℕ) (up : List Name)
      → IsBelow s root up d
      → chdir_to inode_lookup root cwd (path s d) s ≡ (ok d, s)
  chdir_to-path s root cwd d up b =
      chdir_to-find_file root cwd (path s d) s
      ∙ ap (λ r. after_call r (λ e. as_dir (some e)))
          (find_file-path inode_lookup s root cwd up d b)

-- A string that stands in memory with a null byte behind it.
string_end :
    (memory : VirtAddr → ℕ) (a : VirtAddr) (xs rest : List ℕ)
    → Holds memory a (xs ++ (0 ∷ rest))
    → memory (a + length xs) ≡ 0
string_end memory a [] rest h = let e : a + 0 ≡ a = omega arith in ap memory e ∙ h.0
string_end memory a (x ∷ xs) rest h =
    let e : a + length (x ∷ xs) ≡ (a + 1) + length xs = omega arith in
    ap memory e ∙ (string_end memory (a + 1) xs rest h.1)

string_bytes :
    (memory : VirtAddr → ℕ) (a : VirtAddr) (xs rest : List ℕ)
    → Holds memory a (xs ++ rest)
    → tabulate memory a (length xs) ≡ xs
string_bytes memory a [] rest h = refl
string_bytes memory a (x ∷ xs) rest h =
    ap (λ y. y ∷ tabulate memory (a + 1) (length xs)) h.0
    ∙ ap (λ l. x ∷ l) (string_bytes memory (a + 1) xs rest h.1)

string_inside :
    (memory : VirtAddr → ℕ) (a y : VirtAddr) (xs rest : List ℕ)
    → Holds memory a (xs ++ rest)
    → contains xs 0 ≡ false
    → a ≤ y
    → y < a + length xs
    → memory y ≢ 0
string_inside memory a y [] rest h n l u = absurd (omega arith)
string_inside memory a y (x ∷ xs) rest h n l u = elim (Bool-cases (a == y)) [
  | inl e ↦
      let ay : a ≡ y = ground (arith, e) in
      let head : memory y ≡ x = ap memory (sym ay) ∙ h.0 in ground (arith, head, n)
  | inr e ↦
      string_inside memory (a + 1) y xs rest h.1 (ground (arith, n)) (ground (arith, e, l))
        (omega (arith, u))
]

or_empty : KResult (List ℕ) → List ℕ
or_empty (ok l) = l
or_empty (err e) = []
or_empty panic = []

-- When `sys_getcwd` has written the path of a directory into a buffer that it fits in, and `sys_chdir` is
-- called with the address of that buffer, from any working directory: it goes to that directory, and the
-- entries do not change. The path is UTF-8 of at most 16384 bytes without a null byte, its bytes in user
-- memory are accessible, and the names on the way to the directory are not empty, hold no slash, and are
-- not `.` or `..`.
pub sys_chdir-sys_getcwd :
    (access : MemorySpace → VirtAddr → Access) (memory : VirtAddr → ℕ) (is_utf8 : List ℕ → Bool)
    (inode_lookup : ℕ → Name → Option DynInode) (s : Store) (root cwd d : ℕ) (up : List Name)
    (buf out : List ℕ) (addr : VirtAddr) (m : MemorySpace)
    → IsBelow s root up d
    → length (path s d) < length buf
    → sys_getcwd s d true buf ≡ ok out
    → Holds memory addr out
    → length (path s d) ≤ max_pathname_len
    → contains (path s d) 0 ≡ false
    → is_utf8 (path s d) ≡ true
    → addr + length (path s d) < low_address_end
    → ((x : VirtAddr) (m : MemorySpace)
        → addr ≤ x
        → x ≤ addr + length (path s d)
        → (m' : MemorySpace) × (try_user_byte access x m ≡ (ok tt, m')))
    → (m' : MemorySpace) × (sys_chdir access memory is_utf8 inode_lookup root cwd addr (m, s)
        ≡ (ok d, (m', s)))
unfolding sys_chdir or_empty
sys_chdir-sys_getcwd access memory is_utf8 inode_lookup s root cwd d up buf out addr m b fit run
      held len clean utf8 low t =
    let p : Name = path s d in
    let rest : List ℕ = drop (length p + 1) buf in
    let run' = ((sys_getcwd_lem s d buf).0 fit).1 in
    let written : Holds memory addr (p ++ (0 ∷ rest)) =
      subst (Holds memory addr) (ap or_empty (sym run ∙ run')) held in
    let size : addr + length p - addr ≡ length p = omega arith in
    let bytes : tabulate memory addr (addr + length p - addr) ≡ p =
      ap (tabulate memory addr) size ∙ string_bytes memory addr p (0 ∷ rest) written in
    let (m', found) =
      check_cstr_lem access memory is_utf8 addr (addr + length p) m (omega arith) low
        (omega (arith, len)) (string_end memory addr p rest written)
        (λ x a u. string_inside memory addr x p (0 ∷ rest) written clean a u) t in
    let read : check_cstr access memory is_utf8 addr m ≡ (ok p, m') =
      found ∙ rw (bytes, utf8) refl in
    (
      m',
      ap (chdir_read inode_lookup root cwd s) read
          ∙ ap (λ r. (r.0, (m', r.1))) (chdir_to-path inode_lookup s root cwd d up b),
    )
