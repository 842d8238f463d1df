-- ===== src/Fs/Cwd.antt =====
-- `sys_chdir` and `sys_getcwd` of crates/kernel/src/syscall/fs.rs. A user's buffer is its bytes.
pub mod Print
pub mod Back
mod Tests
use asynclear.Prelude.{
  ℕ, zero, suc, ◌+◌, ◌-◌, Bool, true, false, Option, none, some, List, [], ◌∷◌, ◌++◌, length, leb,
  if◌then◌else◌, KResult, ok, err, panic, enoent, enotdir, erange, efault, not, ◌>>=◌,
}
use asynclear.Prelude.Stateful.{Action, after_call}
use asynclear.Memory.Address.{VirtAddr}
use asynclear.Memory.MemorySpace.{MemorySpace}
use asynclear.Memory.UserCheck.{Access, check_cstr}
use asynclear.Fs.Dentry.{Name, DEntry, dir, bytes, DynInode, Store, lookup, names_up, slash}
use asynclear.Fs.Path.{start_dir, resolve_path}

-- What is found must be a directory.
abbrev pub as_dir : Option DEntry → Action Store ℕ
as_dir none s = (err enoent, s)
as_dir (some (dir d)) s = (ok d, s)
as_dir (some (bytes p n i)) s = (err enotdir, s)

-- The new working directory, for a path that is read.
unfoldable pub chdir_to : (ℕ → Name → Option DynInode) → ℕ → ℕ → Name → Action Store ℕ
unfolding resolve_path
chdir_to inode_lookup root_dir cwd p s =
    after_call (resolve_path inode_lookup root_dir (start_dir cwd) p s)
      (λ p2i s'. after_call (lookup inode_lookup p2i.dir p2i.last_component s') as_dir)

abbrev pub chdir_read :
    (ℕ → Name → Option DynInode)
    → ℕ
    → ℕ
    → Store
    → KResult (List ℕ) × MemorySpace
    → KResult ℕ × (MemorySpace × Store)
chdir_read inode_lookup root_dir cwd s (ok p, m) =
    let (r, s') = chdir_to inode_lookup root_dir cwd p s in (r, (m, s'))
chdir_read inode_lookup root_dir cwd s (err e, m) = (err e, (m, s))
chdir_read inode_lookup root_dir cwd s (panic, m) = (panic, (m, s))

-- The path is the user string at an address; reading it may bring in pages.
unfoldable pub sys_chdir :
    (MemorySpace → VirtAddr → Access)
    → (VirtAddr → ℕ)
    → (List ℕ → Bool)
    → (ℕ → Name → Option DynInode)
    → ℕ
    → ℕ
    → VirtAddr
    → Action (MemorySpace × Store) ℕ
unfolding chdir_to check_cstr
sys_chdir access memory is_utf8 inode_lookup root_dir cwd addr (m, s) =
    chdir_read inode_lookup root_dir cwd s (check_cstr access memory is_utf8 addr m)

abbrev pub total_len : List Name → ℕ
total_len [] = 0
total_len (n ∷ ns) = length n + total_len ns

-- The names, the slashes between them, the first slash and the null byte.
abbrev pub path_len : List Name → ℕ
path_len names = 2 + total_len names + (length names - 1)

-- `buf[curr..curr + name.len()].copy_from_slice(name)`
unfoldable pub put_bytes : ℕ → Name → List ℕ → KResult (List ℕ)
put_bytes zero [] buf = ok buf
put_bytes zero (b ∷ bs) [] = panic
put_bytes zero (b ∷ bs) (x ∷ buf) = put_bytes zero bs buf >>= λ r. ok (b ∷ r)
put_bytes (suc k) bs [] = panic
put_bytes (suc k) bs (x ∷ buf) = put_bytes k bs buf >>= λ r. ok (x ∷ r)

-- `intersperse(b"/")`
abbrev pub pieces : List Name → List Name
pieces [] = []
pieces (n ∷ []) = n ∷ []
pieces (n ∷ m ∷ rest) = n ∷ (slash ∷ []) ∷ pieces (m ∷ rest)

unfoldable pub write_pieces : List Name → ℕ → List ℕ → KResult (ℕ × List ℕ)
unfolding put_bytes
write_pieces [] curr buf = ok (curr, buf)
write_pieces (p ∷ ps) curr buf =
    put_bytes curr p buf >>= λ buf'. write_pieces ps (curr + length p) buf'

-- What the buffer holds then.
unfoldable pub write_path : List Name → List ℕ → KResult (List ℕ)
unfolding write_pieces put_bytes
write_path names buf = put_bytes 0 (slash ∷ []) buf >>= λ buf.
    write_pieces (pieces names) 1 buf >>= λ (curr, buf). put_bytes curr (0 ∷ []) buf

-- `writable` is what `check_slice_mut` finds.
unfoldable pub sys_getcwd : Store → ℕ → Bool → List ℕ → KResult (List ℕ)
unfolding write_path names_up
sys_getcwd s cwd writable buf =
    let names = names_up (length s) s cwd in
    if not (leb (path_len names) (length buf))
    then err erange
    else if writable
    then write_path names buf
    else err efault
