-- ===== src/Fs/Unlinkat/Undo.antt =====
-- Unlinking a file that has just been made.
use asynclear.Prelude.{
  ℕ, zero, suc, ◌≡◌, refl, sym, ◌∙◌, ap, Bool, true, false, Option, none, some, List, [], ◌∷◌,
  get_elem?, set, KResult, ok, err, panic,
}
use asynclear.Prelude.Stateful.{Action}
use asynclear.Fs.OpenFlags.{OpenFlags, has}
use asynclear.Fs.FdTable.{File, FdTable, add}
use asynclear.Fs.Inode.{InodeMode, regular}
use asynclear.Fs.Dentry.{
  Name, DEntry, bytes, DEntryDir, DynInode, Store, find_child, mknod, unlink, remove_child,
  is_special, add_child,
}
use asynclear.Fs.Dentry.Cache.{
  same_refl, at_dir_found, get_elem?-set_self, find_child_head, lookup-child,
}
use asynclear.Fs.Path.{normal}
use asynclear.Fs.Openat.{Opening, create_flag, add_file, open_in}
use asynclear.Fs.Openat.Opens.{lookup-absent}
use asynclear.Fs.Unlinkat.{at_removedir, unlink_in}

-- A descriptor is no entry.
added-tree :
    {I : Type 0} (flags : OpenFlags) (file : File) (w : Opening I)
    (r : KResult (Option ℕ × FdTable))
    → add w.table (record { file = file; flags = flags }) ≡ r
    → (add_file flags file w).1.tree ≡ w.tree
unfolding add_file
added-tree flags file w (ok (none, t)) e = rw (add_file, e) refl
added-tree flags file w (ok (some fd, t)) e = rw (add_file, e) refl
added-tree flags file w (err x) e = rw (add_file, e) refl
added-tree flags file w panic e = rw (add_file, e) refl

set-set : (s : Store) (d : ℕ) (a b : DEntryDir) → set (set s d a) d b ≡ set s d b
set-set [] d a b = refl
set-set (x ∷ s) zero a b = refl
set-set (x ∷ s) (suc d) a b = ap (λ t. x ∷ t) (set-set s d a b)

set-same : (s : Store) (d : ℕ) (node : DEntryDir) → get_elem? s d ≡ some node → set s d node ≡ s
set-same [] d node h = refl
set-same (x ∷ s) zero node h = ap (λ y. y ∷ s) (sym (ap (λ o. elim o [ none ↦ x | some y ↦ y ]) h))
set-same (x ∷ s) (suc d) node h = ap (λ t. x ∷ t) (set-same s d node h)

remove_child_head :
    (n : Name) (e : DEntry) (rest : List (Name × DEntry)) → remove_child ((n, e) ∷ rest) n ≡ rest
unfolding remove_child
remove_child_head n e rest = rw (same_refl n) refl

module _ {I : Type 0} (inode_lookup : ℕ → Name → Option DynInode)
    (inode_mknod : ℕ → Name → InodeMode → KResult ℕ) (mode_of : I → ℕ → InodeMode)
    (truncate : ℕ → Action I (Unit {0})) (is_mount_root : DEntry → Bool)
    (inode_unlink : ℕ → Name → KResult (Unit {0})) where
  made-tree :
      (d i : ℕ) (n : Name) (flags : OpenFlags) (w : Opening I) (node : DEntryDir)
      → is_special n ≡ false
      → get_elem? w.tree d ≡ some node
      → find_child node.children n ≡ none
      → inode_lookup node.inode n ≡ none
      → inode_mknod node.inode n regular ≡ ok i
      → has flags create_flag ≡ true
      → (open_in inode_lookup inode_mknod mode_of truncate d n flags w).1.tree
        ≡ set w.tree d (add_child node n (bytes d n i))
  unfolding open_in mknod
  made-tree d i n flags w node p g f b k c =
      let l = lookup-absent inode_lookup inode_mknod mode_of truncate d n w.tree node p g f b in
      rw (open_in, l, c, mknod, p, at_dir_found d w.tree node g, f, k) (added-tree flags _ _ _ refl)

  unlinked :
      (d i : ℕ) (n : Name) (flags : ℕ) (s : Store) (node : DEntryDir)
      → is_special n ≡ false
      → get_elem? s d ≡ some node
      → is_mount_root (bytes d n i) ≡ false
      → inode_unlink node.inode n ≡ ok tt
      → has flags at_removedir ≡ false
      → unlink_in inode_lookup is_mount_root inode_unlink flags
          (record { dir = d; last_type = normal; last_component = n })
          (set s d (add_child node n (bytes d n i)))
        ≡ (ok tt, s)
  unfolding unlink_in unlink
  unlinked d i n flags s node p g m u r =
      let entry = bytes d n i in
      let node' = add_child node n entry in
      let here = get_elem?-set_self s d node' node g in
      let l =
        lookup-child inode_lookup d n (set s d node') node' entry p here
          (find_child_head n entry node.children) in
      let old : set (set s d node') d (record node' { children = remove_child node'.children n })
          ≡ s =
        ap (λ cs. set (set s d node') d (record node' { children = cs }))
          (remove_child_head n entry node.children)
        ∙ set-set s d node' node
        ∙ set-same s d node g in
      rw (unlink_in, r, l, m, unlink, p, at_dir_found d (set s d node') node' here, u)
        (ap (λ t. (ok tt, t)) old)

  -- A name that a directory does not have, and that is neither `.` nor `..`, is opened with CREATE, and
  -- then unlinked without AT_REMOVEDIR: if the inodes make the file and unlink it again and nothing is
  -- mounted there, unlinking succeeds and the directory entries are those from before, even if the
  -- descriptor could not be added.
  pub unlink_in-open_in :
      (d i : ℕ) (n : Name) (flags flags' : ℕ) (w : Opening I) (node : DEntryDir)
      → is_special n ≡ false
      → get_elem? w.tree d ≡ some node
      → find_child node.children n ≡ none
      → inode_lookup node.inode n ≡ none
      → inode_mknod node.inode n regular ≡ ok i
      → inode_unlink node.inode n ≡ ok tt
      → is_mount_root (bytes d n i) ≡ false
      → has flags create_flag ≡ true
      → has flags' at_removedir ≡ false
      → unlink_in inode_lookup is_mount_root inode_unlink flags'
          (record { dir = d; last_type = normal; last_component = n })
          (open_in inode_lookup inode_mknod mode_of truncate d n flags w).1.tree
        ≡ (ok tt, w.tree)
  unlink_in-open_in d i n flags flags' w node p g f b k u m c r =
      rw (made-tree d i n flags w node p g f b k c) (unlinked d i n flags' w.tree node p g m u r)
