-- ===== src/Fs/Openat/Tests.antt =====
-- Files that are opened in a directory with one file.
use asynclear.Prelude.{ℕ, ◌≡◌, refl, Option, none, List, [], ◌∷◌, KResult, ok, arith}
use asynclear.Prelude.Stateful.{Action}
use asynclear.BTreeMap.{get, insert}
use asynclear.Fs.OpenFlags.{has}
use asynclear.Fs.FdTable.{FdTable, add, add_from, first_gap, seekable}
use asynclear.Fs.Inode.{InodeMode, regular}
use asynclear.Fs.Dentry.{
  Name, bytes, DEntryDir, DynInode, find_child, lookup, lookup_general, mknod,
}
use asynclear.Fs.Openat.{Opening, open_in, add_file}
use asynclear.Fs.Openat.Opens.{OpenOutcome, open_in_lem}

abbrev name_f : Name
name_f = b'f' ∷ []

abbrev name_g : Name
name_g = b'g' ∷ []

abbrev root_node : DEntryDir
root_node = record {
  parent = none;
  name = [];
  children = (name_f, bytes 0 name_f 7) ∷ [];
  inode = 0;
}

abbrev table : FdTable
table = record { files = (0, record { file = seekable 0; flags = 0 }) ∷ []; rlim_curr = 16 }

-- Inodes are a list of those that were truncated.
abbrev start : Opening (List ℕ)
start = record {
  tree = root_node ∷ [];
  inodes = [];
  objects = bytes 0 name_f 7 ∷ [];
  table = table;
}

abbrev knows_none : ℕ → Name → Option DynInode
knows_none i n = none

abbrev makes_eight : ℕ → Name → InodeMode → KResult ℕ
makes_eight i n m = ok 8

abbrev all_regular : List ℕ → ℕ → InodeMode
all_regular s i = regular

abbrev truncates : ℕ → Action (List ℕ) (Unit {0})
truncates i s = (ok tt, i ∷ s)

-- CREATE and EXCL make `g`.
made_g : (open_in knows_none makes_eight all_regular truncates 0 name_g 192 start).0 ≡ ok 1
unfolding open_in add_file lookup lookup_general find_child mknod add add_from first_gap has insert
    asynclear.BTreeMap.keys asynclear.BTreeMap.after
made_g = refl

open_in_lem_example :
    OpenOutcome knows_none makes_eight all_regular truncates 0 name_g 192 start
      (open_in knows_none makes_eight all_regular truncates 0 name_g 192 start)
open_in_lem_example =
    open_in_lem knows_none makes_eight all_regular truncates 0 name_g 192 start root_node refl refl
      (omega arith, tt)
