-- ===== src/Fs/Openat.antt =====
-- `sys_openat` of crates/kernel/src/syscall/fs.rs: a path is resolved, its file found or made, and a
-- descriptor added. The path is already copied from the user.
pub mod Opens
mod Tests
use Prim.Native.Nat.{bit_and}
use asynclear.Prelude.{
  ℕ, ◌+◌, ◌-◌, ◌^◌, Bool, true, false, not, ◌&&◌, ◌||◌, Option, none, some, List, [], ◌∷◌, ◌++◌,
  ◌==◌, length, get_elem?, if◌then◌else◌, KResult, ok, err, panic, enoent, eexist, eisdir, enotdir,
  emfile,
}
use asynclear.Prelude.Stateful.{Action, after_call}
use asynclear.BTreeMap.{get}
use asynclear.Fs.OpenFlags.{OpenFlags, has, read_write}
use asynclear.Fs.FdTable.{File, seekable, stream, FileDescriptor, FdTable, add}
use asynclear.Fs.FdTable
use asynclear.Fs.Descriptors.{all_open_flags}
use asynclear.Fs.Inode.{InodeMode, regular, block_device, is_regular}
use asynclear.Fs.Dentry.{Name, DEntry, dir, bytes, DynInode, Store, lookup, mknod}
use asynclear.Fs.Path.{PathToInode, StartDir, start_dir, not_dir, not_open, resolve_path}

abbrev pub create_flag : OpenFlags
create_flag = 2 ^ 6

abbrev pub excl_flag : OpenFlags
excl_flag = 2 ^ 7

abbrev pub truncate_flag : OpenFlags
truncate_flag = 2 ^ 9

abbrev pub directory_flag : OpenFlags
directory_flag = 2 ^ 16

-- `ASYNC | DSYNC`
abbrev pub unsupported_flags : OpenFlags
unsupported_flags = 0x3000

-- `AT_FDCWD` is -100.
abbrev pub at_fdcwd : ℕ
at_fdcwd = 2 ^ 64 - 100

-- The entries, the inodes below, the entries that files were opened for, in order, and the table of the
-- process. A file of the table is the index of its entry.
pub record Opening (I : Type 0) : Type 0 where
  pub tree : Store
  pub inodes : I
  pub objects : List DEntry
  pub table : FdTable

abbrev pub on_tree : {I A : Type 0} → Action Store A → Action (Opening I) A
on_tree f w = let (r, s) = f w.tree in (r, record w { tree = s })

abbrev pub on_inodes : {I A : Type 0} → Action I A → Action (Opening I) A
on_inodes f w = let (r, i) = f w.inodes in (r, record w { inodes = i })

-- `Arc::new` of the file for an entry.
abbrev pub new_file : {I : Type 0} → (ℕ → File) → DEntry → Action (Opening I) File
new_file kind e w = (ok (kind (length w.objects)), record w { objects = w.objects ++ e ∷ [] })

abbrev pub is_seekable : InodeMode → Bool
is_seekable regular = true
is_seekable block_device = true
is_seekable _ = false

abbrev pub dir_of : Option DEntry → StartDir
dir_of none = not_dir
dir_of (some (dir d)) = start_dir d
dir_of (some (bytes p n i)) = not_dir

-- Where a relative path starts.
abbrev pub start_from : {I : Type 0} → ℕ → ℕ → Opening I → StartDir
start_from cwd dir_fd w =
    if dir_fd == at_fdcwd then start_dir cwd else elim (get w.table.files dir_fd) [
      | none ↦ not_open
      | some desc ↦ elim desc.file [
        | FdTable.dir id ↦ dir_of (get_elem? w.objects id)
        | FdTable.seekable id ↦ not_dir
        | FdTable.stream id ↦ not_dir
        | FdTable.pipe id ↦ not_dir
      ]
    ]

-- The descriptor takes the lowest free number.
unfoldable pub add_file : {I : Type 0} → OpenFlags → File → Action (Opening I) ℕ
add_file flags file w = elim (add w.table (record { file = file; flags = flags })) [
  | ok (fd, t) ↦ elim fd [ none ↦ (err emfile, w) | some n ↦ (ok n, record w { table = t }) ]
  | err e ↦ (err e, w)
  | panic ↦ (panic, w)
]

abbrev pub open_dir : {I : Type 0} → OpenFlags → ℕ → Action (Opening I) File
open_dir flags d w =
    if bit_and flags 3 == 0 then new_file FdTable.dir (dir d) w else (err eisdir, w)

module _ {I : Type 0} (inode_lookup : ℕ → Name → Option DynInode)
    (inode_mknod : ℕ → Name → InodeMode → KResult ℕ) (mode_of : I → ℕ → InodeMode)
    (truncate : ℕ → Action I (Unit {0})) where
  abbrev pub cut_regular : ℕ → KResult (Bool × Bool) → Action (Opening I) (Unit {0})
  cut_regular i (ok (readable, writable)) w =
      if writable && is_regular (mode_of w.inodes i) then on_inodes (truncate i) w else (ok tt, w)
  cut_regular i (err e) w = (err e, w)
  cut_regular i panic w = (panic, w)

  -- `resize(0)` of a regular file that is opened for writing.
  abbrev pub cut : OpenFlags → ℕ → Action (Opening I) (Unit {0})
  cut flags i w = if has flags truncate_flag then cut_regular i (read_write flags) w else (ok tt, w)

  abbrev pub open_bytes : OpenFlags → ℕ → DEntry → Action (Opening I) File
  open_bytes flags i e w =
      if has flags directory_flag
      then (err enotdir, w)
      else after_call (cut flags i w)
          (λ _. new_file (if is_seekable (mode_of w.inodes i) then seekable else stream) e)

  abbrev pub open_entry : OpenFlags → DEntry → Action (Opening I) File
  open_entry flags (dir d) = open_dir flags d
  open_entry flags (bytes p n i) = open_bytes flags i (bytes p n i)

  abbrev pub find_or_make : ℕ → Name → OpenFlags → Option DEntry → Action (Opening I) File
  find_or_make d n flags (some e) w =
      if has flags (create_flag + excl_flag) then (err eexist, w) else open_entry flags e w
  find_or_make d n flags none w =
      if has flags create_flag
      then after_call (on_tree (mknod inode_mknod d n regular) w) (new_file seekable)
      else (err enoent, w)

  -- What follows the resolution of the path.
  unfoldable pub open_in : ℕ → Name → OpenFlags → Action (Opening I) ℕ
  unfolding add_file
  open_in d n flags w =
      after_call (after_call (on_tree (lookup inode_lookup d n) w) (find_or_make d n flags))
        (add_file flags)

  pub sys_openat : ℕ → ℕ → ℕ → Name → OpenFlags → Action (Opening I) ℕ
  unfolding open_in
  sys_openat root_dir cwd dir_fd path flags w =
      if not (bit_and flags all_open_flags == flags) || not (bit_and flags unsupported_flags == 0)
      then (panic, w)
      else after_call
          (on_tree (resolve_path inode_lookup root_dir (start_from cwd dir_fd w) path) w)
          (λ p2i. open_in p2i.dir p2i.last_component flags)
