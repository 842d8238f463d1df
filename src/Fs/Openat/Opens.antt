-- ===== src/Fs/Openat/Opens.antt =====
-- What opening a name in a directory leaves.
use Prim.Native.Nat.{bit_and}
use asynclear.Prelude.{
  ℕ, ◌+◌, ◌≡◌, refl, sym, Bool, true, false, ◌&&◌, Option, none, some, ◌==◌, get_elem?, set,
  if◌then◌else◌, Bool-cases, inl, inr, KResult, ok, err, panic, eexist, arith, subst,
}
use asynclear.Prelude.Stateful.{Action, after_call}
use asynclear.BTreeMap.{IsSorted}
use asynclear.Fs.OpenFlags.{OpenFlags, has, read_write}
use asynclear.Fs.FdTable.{File, seekable, stream, FileDescriptor, FdTable, add, add_from}
use asynclear.Fs.FdTable.Add.{AddOutcome, add_from_lem}
use asynclear.Fs.Inode.{InodeMode, regular, is_regular}
use asynclear.Fs.Dentry.{
  Name, DEntry, dir, bytes, DEntryDir, DynInode, Store, find_child, lookup, lookup_general, mknod,
  is_special, add_child, same, dot, dot_dot,
}
use asynclear.Fs.Dentry.Cache.{
  at_dir_found, get_elem?-set_self, find_child_head, lookup-child, lookup-fresh,
}
use asynclear.Fs.Openat.{
  Opening, create_flag, excl_flag, truncate_flag, directory_flag, on_tree, new_file, add_file, cut,
  cut_regular, is_seekable, open_entry, find_or_make, open_in,
}

module _ {I : Type 0} (inode_lookup : ℕ → Name → Option DynInode)
    (inode_mknod : ℕ → Name → InodeMode → KResult ℕ) (mode_of : I → ℕ → InodeMode)
    (truncate : ℕ → Action I (Unit {0})) (d : ℕ) (n : Name) where
  -- The name is there, and looking it up changes nothing.
  abbrev pub IsThere : Store → Type 0
  IsThere s = (e : DEntry) × (lookup inode_lookup d n s ≡ (ok (some e), s))

  -- What opening the name may leave of `w`.
  abbrev pub OpenOutcome : OpenFlags → Opening I → KResult ℕ × Opening I → Type 0
  OpenOutcome flags w (ok fd, w') =
      ((file : File) × AddOutcome w.table (record { file = file; flags = flags }) 0
          (ok (some fd, w'.table)))
      × IsThere w'.tree
      × ((flags' : OpenFlags)
          → has flags' (create_flag + excl_flag) ≡ true
          → open_in inode_lookup inode_mknod mode_of truncate d n flags' w' ≡ (err eexist, w'))
  OpenOutcome flags w (err e, w') = w'.table ≡ w.table
  OpenOutcome flags w (panic, w') = w'.table ≡ w.table

  -- The same before the descriptor is added.
  abbrev FileOutcome : FdTable → KResult File × Opening I → Type 0
  FileOutcome t (ok file, w') = (w'.table ≡ t) × IsThere w'.tree
  FileOutcome t (err e, w') = w'.table ≡ t
  FileOutcome t (panic, w') = w'.table ≡ t

  refused :
      (w : Opening I) (flags : OpenFlags)
      → IsThere w.tree
      → has flags (create_flag + excl_flag) ≡ true
      → open_in inode_lookup inode_mknod mode_of truncate d n flags w ≡ (err eexist, w)
  unfolding open_in
  refused w flags (e, l) x = rw (open_in, l, x) refl

  added_lem :
      (flags : OpenFlags) (file : File) (w w1 : Opening I)
      → w1.table ≡ w.table
      → IsThere w1.tree
      → (r : KResult (Option ℕ × FdTable))
      → add w1.table (record { file = file; flags = flags }) ≡ r
      → AddOutcome w.table (record { file = file; flags = flags }) 0 r
      → OpenOutcome flags w (add_file flags file w1)
  unfolding add_file
  added_lem flags file w w1 t l (ok (none, t')) e a = rw (add_file, e) t
  added_lem flags file w w1 t l (ok (some fd, t')) e a =
      rw (add_file, e) ((file, a), l, λ flags' x. refused (record w1 { table = t' }) flags' l x)
  added_lem flags file w w1 t l (err x) e a = absurd a
  added_lem flags file w w1 t l panic e a = rw (add_file, e) t

  add_file-FileOutcome :
      (flags : OpenFlags) (w : Opening I) (r : KResult File × Opening I)
      → IsSorted w.table.files
      → FileOutcome w.table r
      → OpenOutcome flags w (after_call r (add_file flags))
  unfolding add
  add_file-FileOutcome flags w (ok file, w1) s (t, l) =
      let desc : FileDescriptor = record { file = file; flags = flags } in
      added_lem flags file w w1 t l (add w1.table desc) refl (
        subst (λ (x : FdTable). AddOutcome w.table desc 0 (add_from x desc 0)) (sym t)
          (add_from_lem w.table desc 0 (omega arith) s))
  add_file-FileOutcome flags w (err e, w1) s t = t
  add_file-FileOutcome flags w (panic, w1) s t = t

  -- `resize` touches neither entries nor descriptors.
  abbrev Untouched : {A : Type 0} → Opening I → KResult A × Opening I → Type 0
  Untouched w (r, w') = (w'.tree ≡ w.tree) × (w'.table ≡ w.table)

  cut_regular-Untouched :
      (i : ℕ) (m : KResult (Bool × Bool)) (w : Opening I)
      → Untouched w (cut_regular inode_lookup inode_mknod mode_of truncate i m w)
  cut_regular-Untouched i (ok (readable, writable)) w =
      elim (Bool-cases (writable && is_regular (mode_of w.inodes i))) [
        | inl h ↦ rw h (refl, refl)
        | inr h ↦ rw h (refl, refl)
      ]
  cut_regular-Untouched i (err e) w = (refl, refl)
  cut_regular-Untouched i panic w = (refl, refl)

  cut-Untouched :
      (flags : OpenFlags) (i : ℕ) (w : Opening I)
      → Untouched w (cut inode_lookup inode_mknod mode_of truncate flags i w)
  cut-Untouched flags i w = elim (Bool-cases (has flags truncate_flag)) [
    | inr h ↦ rw h (refl, refl)
    | inl h ↦ rw h (cut_regular-Untouched i (read_write flags) w)
  ]

  new_file-FileOutcome :
      (t : FdTable) (kind : ℕ → File) (e : DEntry) (s : Store) (r : KResult (Unit {0}) × Opening I)
      → IsThere s
      → r.1.tree ≡ s
      → r.1.table ≡ t
      → FileOutcome t (after_call r (λ _. new_file kind e))
  new_file-FileOutcome t kind e s (ok tt, w) l a b = (b, subst IsThere (sym a) l)
  new_file-FileOutcome t kind e s (err x, w) l a b = b
  new_file-FileOutcome t kind e s (panic, w) l a b = b

  entry-FileOutcome :
      (flags : OpenFlags) (e : DEntry) (w : Opening I)
      → IsThere w.tree
      → FileOutcome w.table (open_entry inode_lookup inode_mknod mode_of truncate flags e w)
  entry-FileOutcome flags (dir c) w l = elim (Bool-cases (bit_and flags 3 == 0)) [
    | inl h ↦ rw h (refl, l)
    | inr h ↦ rw h refl
  ]
  entry-FileOutcome flags (bytes p m i) w l = elim (Bool-cases (has flags directory_flag)) [
    | inl h ↦ rw h refl
    | inr h ↦
        let u = cut-Untouched flags i w in
        rw h (
          new_file-FileOutcome w.table
            (if is_seekable (mode_of w.inodes i) then seekable else stream) (bytes p m i) w.tree
            (cut inode_lookup inode_mknod mode_of truncate flags i w) l u.0 u.1)
  ]

  found-FileOutcome :
      (flags : OpenFlags) (e : DEntry) (w : Opening I)
      → IsThere w.tree
      → FileOutcome w.table
          (find_or_make inode_lookup inode_mknod mode_of truncate d n flags (some e) w)
  found-FileOutcome flags e w l = elim (Bool-cases (has flags (create_flag + excl_flag))) [
    | inl h ↦ rw h refl
    | inr h ↦ rw h (entry-FileOutcome flags e w l)
  ]

  -- A file that is made is an entry of the directory.
  made-FileOutcome :
      (w : Opening I) (node : DEntryDir) (r : KResult ℕ)
      → is_special n ≡ false
      → get_elem? w.tree d ≡ some node
      → find_child node.children n ≡ none
      → inode_mknod node.inode n regular ≡ r
      → FileOutcome w.table
          (after_call (on_tree (mknod inode_mknod d n regular) w) (new_file seekable))
  unfolding mknod
  made-FileOutcome w node (ok i) p g f e =
      let entry = bytes d n i in
      rw (mknod, p, at_dir_found d w.tree node g, f, e)
        (
          refl,
          (
            entry,
            lookup-child inode_lookup d n (set w.tree d (add_child node n entry))
                (add_child node n entry) entry p
                (get_elem?-set_self w.tree d (add_child node n entry) node g)
                (find_child_head n entry node.children),
          ),
        )
  made-FileOutcome w node (err x) p g f e = rw (mknod, p, at_dir_found d w.tree node g, f, e) refl
  made-FileOutcome w node panic p g f e = rw (mknod, p, at_dir_found d w.tree node g, f, e) refl

  absent-FileOutcome :
      (flags : OpenFlags) (w : Opening I) (node : DEntryDir)
      → is_special n ≡ false
      → get_elem? w.tree d ≡ some node
      → find_child node.children n ≡ none
      → FileOutcome w.table
          (find_or_make inode_lookup inode_mknod mode_of truncate d n flags none w)
  absent-FileOutcome flags w node p g f = elim (Bool-cases (has flags create_flag)) [
    | inl h ↦ rw h (made-FileOutcome w node (inode_mknod node.inode n regular) p g f refl)
    | inr h ↦ rw h refl
  ]

  pub lookup-absent :
      (s : Store) (node : DEntryDir)
      → is_special n ≡ false
      → get_elem? s d ≡ some node
      → find_child node.children n ≡ none
      → inode_lookup node.inode n ≡ none
      → lookup inode_lookup d n s ≡ (ok none, s)
  unfolding lookup lookup_general
  lookup-absent s node p g f b =
      let x : same n dot ≡ false = ground (arith, p) in
      let y : same n dot_dot ≡ false = ground (arith, p) in
      rw (lookup, at_dir_found d s node g, x, y, lookup_general, f, b) refl

  -- What the lookup finds, and what is opened or made then.
  file_lem :
      (flags : OpenFlags) (w : Opening I) (node : DEntryDir) (c : Option DEntry)
      (i : Option DynInode)
      → is_special n ≡ false
      → get_elem? w.tree d ≡ some node
      → find_child node.children n ≡ c
      → inode_lookup node.inode n ≡ i
      → FileOutcome w.table (
          after_call
            (on_tree (lookup inode_lookup d n) w)
            (find_or_make inode_lookup inode_mknod mode_of truncate d n flags))
  file_lem flags w node (some e) i p g f b =
      let l = lookup-child inode_lookup d n w.tree node e p g f in
      rw l (found-FileOutcome flags e w (e, l))
  file_lem flags w node none (some k) p g f b =
      let (e, s', l, l') = lookup-fresh inode_lookup d n w.tree node k p g f b in
      rw l (found-FileOutcome flags e (record w { tree = s' }) (e, l'))
  file_lem flags w node none none p g f b =
      rw (lookup-absent w.tree node p g f b) (absent-FileOutcome flags w node p g f)

-- Opening a name in a directory, with an ordered table. If it succeeds, the descriptor has the lowest
-- number that was free, with the flags given, and no other number changes; the name is an entry of the
-- directory then, and opening it once more with CREATE and EXCL fails with EEXIST and changes nothing. If it fails,
-- the table is as before.
pub open_in_lem :
    {I : Type 0} (inode_lookup : ℕ → Name → Option DynInode)
    (inode_mknod : ℕ → Name → InodeMode → KResult ℕ) (mode_of : I → ℕ → InodeMode)
    (truncate : ℕ → Action I (Unit {0})) (d : ℕ) (n : Name) (flags : OpenFlags) (w : Opening I)
    (node : DEntryDir)
    → is_special n ≡ false
    → get_elem? w.tree d ≡ some node
    → IsSorted w.table.files
    → OpenOutcome inode_lookup inode_mknod mode_of truncate d n flags w
        (open_in inode_lookup inode_mknod mode_of truncate d n flags w)
unfolding open_in
open_in_lem inode_lookup inode_mknod mode_of truncate d n flags w node p g s =
    add_file-FileOutcome inode_lookup inode_mknod mode_of truncate d n flags w _ s (
      file_lem inode_lookup inode_mknod mode_of truncate d n flags w node
        (find_child node.children n) (inode_lookup node.inode n) p g refl refl)
