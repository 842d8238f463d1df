-- ===== src/Fs/Unlinkat/Tests.antt =====
-- A file that is made in a directory and unlinked again.
use asynclear.Prelude.{ℕ, ◌≡◌, refl, Bool, false, true, Option, none, List, [], ◌∷◌, KResult, ok}
use asynclear.Prelude.Stateful.{Action}
use asynclear.Fs.OpenFlags.{has}
use asynclear.Fs.FdTable.{FdTable, seekable}
use asynclear.Fs.Inode.{InodeMode, regular}
use asynclear.Fs.Dentry.{Name, DEntry, bytes, DEntryDir, DynInode, find_child}
use asynclear.Fs.Path.{normal}
use asynclear.Fs.Openat.{Opening, open_in}
use asynclear.Fs.Unlinkat.{unlink_in}
use asynclear.Fs.Unlinkat.Undo.{unlink_in-open_in}

abbrev name_f : Name
name_f = b'f' ∷ []

abbrev name_g : Name
name_g = b'g' ∷ []

abbrev root_node : DEntryDir
root_node = record {
  parent = none;
  name = [];
  children = (name_f, bytes 0 name_f 7) ∷ [];
  inode = 0;
}

abbrev table : FdTable
table = record { files = (0, record { file = seekable 0; flags = 0 }) ∷ []; rlim_curr = 16 }

-- Inodes are a list of those that were truncated.
abbrev start : Opening (List ℕ)
start = record {
  tree = root_node ∷ [];
  inodes = [];
  objects = bytes 0 name_f 7 ∷ [];
  table = table;
}

abbrev knows_none : ℕ → Name → Option DynInode
knows_none i n = none

abbrev makes_eight : ℕ → Name → InodeMode → KResult ℕ
makes_eight i n m = ok 8

abbrev all_regular : List ℕ → ℕ → InodeMode
all_regular s i = regular

abbrev truncates : ℕ → Action (List ℕ) (Unit {0})
truncates i s = (ok tt, i ∷ s)

abbrev mounts_none : DEntry → Bool
mounts_none e = false

abbrev unlinks : ℕ → Name → KResult (Unit {0})
unlinks i n = ok tt

g_absent : find_child root_node.children name_g ≡ none
unfolding find_child
g_absent = refl

creates : has 64 64 ≡ true
unfolding has
creates = refl

no_rmdir : has 0 512 ≡ false
unfolding has
no_rmdir = refl

unlink_in-open_in_example :
    unlink_in knows_none mounts_none unlinks 0
      (record { dir = 0; last_type = normal; last_component = name_g })
      (open_in knows_none makes_eight all_regular truncates 0 name_g 64 start).1.tree
    ≡ (ok tt, start.tree)
unlink_in-open_in_example =
    unlink_in-open_in knows_none makes_eight all_regular truncates mounts_none unlinks 0 8 name_g 64
      0 start root_node refl refl g_absent refl refl refl refl creates no_rmdir
