-- ===== src/Fs/Unlinkat.antt =====
-- `sys_mkdirat`, `sys_unlinkat` and `sys_faccessat` of crates/kernel/src/syscall/fs.rs. A path is already
-- copied from the user; `is_mount_root` tells whether something is mounted on an entry.
pub mod Undo
mod Tests
use Prim.Native.Nat.{bit_and}
use asynclear.Prelude.{
  ℕ, ◌^◌, Bool, true, false, not, Option, none, some, List, [], ◌∷◌, ◌==◌, if◌then◌else◌, KResult,
  ok, err, panic, enoent, einval, enotempty, ebusy, enotdir, eisdir,
}
use asynclear.Prelude.Stateful.{Action, after_call}
use asynclear.Fs.OpenFlags.{has}
use asynclear.Fs.Dentry.{
  Name, DEntry, dir, bytes, DynInode, Store, lookup, mkdir, unlink, remove_dir,
}
use asynclear.Fs.Path.{
  LastComponentType, normal, dot_type, dot_dot_type, root, PathToInode, StartDir, resolve_path,
}

-- `AT_REMOVEDIR`, and all the flags that are declared with it.
abbrev pub at_removedir : ℕ
at_removedir = 0x200

abbrev pub is_normal : LastComponentType → Bool
is_normal normal = true
is_normal _ = false

-- What cannot be removed as a directory, by the last component of the path.
abbrev pub rmdir_type : LastComponentType → KResult (Unit {0})
rmdir_type normal = ok tt
rmdir_type dot_type = err einval
rmdir_type dot_dot_type = err enotempty
rmdir_type root = err ebusy

module _ (inode_lookup : ℕ → Name → Option DynInode) (is_mount_root : DEntry → Bool)
    (inode_unlink : ℕ → Name → KResult (Unit {0})) where
  -- What is found is removed from its directory, if it is of the right kind.
  abbrev pub remove_found : ℕ → Option DEntry → Action Store (Unit {0})
  remove_found d none s = (err enoent, s)
  remove_found d (some (dir c)) s =
      if is_mount_root (dir c) then (err ebusy, s) else remove_dir d c s
  remove_found d (some (bytes p n i)) s =
      (if is_mount_root (bytes p n i) then err ebusy else err enotdir, s)

  abbrev pub unlink_found : Option DEntry → Action Store (Unit {0})
  unlink_found none s = (err enoent, s)
  unlink_found (some (dir c)) s = (if is_mount_root (dir c) then err ebusy else err eisdir, s)
  unlink_found (some (bytes p n i)) s =
      if is_mount_root (bytes p n i) then (err ebusy, s) else unlink inode_unlink p n s

  -- What follows the resolution of the path.
  unfoldable pub unlink_in : ℕ → PathToInode → Action Store (Unit {0})
  unlink_in flags p2i s =
      if has flags at_removedir
      then after_call (rmdir_type p2i.last_type, s)
          (λ _ s.
            after_call (lookup inode_lookup p2i.dir p2i.last_component s) (remove_found p2i.dir))
      else if not (is_normal p2i.last_type)
      then (err eisdir, s)
      else after_call (lookup inode_lookup p2i.dir p2i.last_component s) unlink_found

  -- `FstatFlags::from_bits`: a bit that is not declared is `todo!`.
  pub sys_unlinkat : ℕ → StartDir → Name → ℕ → Action Store ℕ
  unfolding unlink_in resolve_path
  sys_unlinkat root_dir start p flags s =
      if not (bit_and flags 0x1f00 == flags)
      then (panic, s)
      else after_call (resolve_path inode_lookup root_dir start p s)
          (λ p2i s. after_call (unlink_in flags p2i s) (λ _ s. (ok 0, s)))

pub sys_mkdirat :
    (ℕ → Name → Option DynInode) → (ℕ → Name → KResult ℕ) → ℕ → StartDir → Name → Action Store ℕ
unfolding mkdir resolve_path
sys_mkdirat inode_lookup inode_mkdir root_dir start p s =
    after_call (resolve_path inode_lookup root_dir start p s)
      (λ p2i s. after_call (mkdir inode_mkdir p2i.dir p2i.last_component s) (λ _ s. (ok 0, s)))

-- `FaccessatMode::from_bits`; what the mode asks for is not looked at.
pub sys_faccessat : (ℕ → Name → Option DynInode) → ℕ → StartDir → Name → ℕ → Action Store ℕ
unfolding resolve_path
sys_faccessat inode_lookup root_dir start p mode s =
    if not (bit_and mode 7 == mode)
    then (err einval, s)
    else after_call (resolve_path inode_lookup root_dir start p s) (λ p2i s.
      after_call (lookup inode_lookup p2i.dir p2i.last_component s)
        (λ found s. elim found [ none ↦ (err enoent, s) | some e ↦ (ok 0, s) ]))
