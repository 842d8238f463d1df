-- ===== src/Fs/Dentry.antt =====
-- `DEntryDir` of crates/libkernel/src/fs/dentry.rs. The entries of directories are shared objects: a
-- directory is its index in the store, which only grows. Names are lists of bytes, and the children of
-- a directory a list of names with their entries. The inodes below are parameters, and numbers.
pub mod Cache
use asynclear.Prelude.{
  ℕ, zero, suc, ◌+◌, Bool, true, false, not, ◌&&◌, ◌||◌, Option, none, some, List, [], ◌∷◌, ◌++◌,
  ◌==◌, length, get_elem?, set, if◌then◌else◌, KResult, ok, err, panic, assert, einval, eexist,
  enotempty, ebusy,
}
use asynclear.Prelude.Stateful.{Action, after_call, pure, raise}
use asynclear.Fs.Inode.{InodeMode, symbol_link}
use asynclear.Fs.Inode

abbrev pub Name : Type 0
Name = List ℕ

abbrev pub same : Name → Name → Bool
same [] [] = true
same [] (b ∷ y) = false
same (a ∷ x) [] = false
same (a ∷ x) (b ∷ y) = a == b && same x y

-- `.` and `..`
abbrev pub dot : Name
dot = 0x2e ∷ []

abbrev pub dot_dot : Name
dot_dot = 0x2e ∷ 0x2e ∷ []

pub data DEntry : Type 0 where
  dir : ℕ → DEntry
  bytes : ℕ → Name → ℕ → DEntry

pub data DynInode : Type 0 where
  dir_inode bytes_inode : ℕ → DynInode

pub record DEntryDir : Type 0 where
  pub parent : Option ℕ
  pub name : Name
  pub children : List (Name × DEntry)
  pub inode : ℕ

abbrev pub Store : Type 0
Store = List DEntryDir

unfoldable pub find_child : List (Name × DEntry) → Name → Option DEntry
find_child [] n = none
find_child ((m, e) ∷ rest) n = if same m n then some e else find_child rest n

-- `BTreeMap::remove` of the children.
unfoldable pub remove_child : List (Name × DEntry) → Name → List (Name × DEntry)
remove_child [] n = []
remove_child ((m, e) ∷ rest) n =
    let kept = remove_child rest n in if same m n then rest else (m, e) ∷ kept

-- `insert` into the children of a directory, for a name that is not there, and with a replacement.
abbrev pub add_child : DEntryDir → Name → DEntry → DEntryDir
add_child d n e = record d { children = (n, e) ∷ d.children }

abbrev pub put_child : DEntryDir → Name → DEntry → DEntryDir
put_child d n e = record d { children = (n, e) ∷ remove_child d.children n }

-- A new directory, which has no children yet.
abbrev pub new_dir : ℕ → Name → ℕ → DEntryDir
new_dir parent name inode = record {
  parent = some parent;
  name = name;
  children = [];
  inode = inode;
}

-- A directory that an entry refers to is in the store.
abbrev pub at_dir : {A : Type 0} → ℕ → (DEntryDir → Action Store A) → Action Store A
at_dir d f s = elim (get_elem? s d) [ none ↦ (panic, s) | some node ↦ f node s ]

-- The entry of a new inode, which becomes a child of directory `d`.
abbrev pub insert_inode : ℕ → DEntryDir → Name → DynInode → Action Store DEntry
insert_inode d node n (dir_inode i) s =
    (ok (dir (length s)), set s d (add_child node n (dir (length s))) ++ (new_dir d n i ∷ []))
insert_inode d node n (bytes_inode i) s =
    (ok (bytes d n i), set s d (add_child node n (bytes d n i)))

abbrev pub is_special : Name → Bool
is_special n = same n dot || same n dot_dot

abbrev pub or_self : Option ℕ → ℕ → ℕ
or_self none d = d
or_self (some p) d = p

module _ (inode_lookup : ℕ → Name → Option DynInode) where
  -- `general` in `lookup`.
  unfoldable pub lookup_general : ℕ → DEntryDir → Name → Action Store (Option DEntry)
  lookup_general d node n s = elim (find_child node.children n) [
    | some e ↦ (ok (some e), s)
    | none ↦ elim (inode_lookup node.inode n) [
      | none ↦ (ok none, s)
      | some i ↦ after_call (insert_inode d node n i s) (λ e s'. (ok (some e), s'))
    ]
  ]

  -- The access time of the directory's inode, which `lookup` sets too, is no part of the entries.
  unfoldable pub lookup : ℕ → Name → Action Store (Option DEntry)
  unfolding lookup_general
  lookup d n = at_dir d (λ node s.
      if same n dot
      then (ok (some (dir d)), s)
      else if same n dot_dot
      then (ok (some (dir (or_self node.parent d))), s)
      else lookup_general d node n s)

-- `mkdir`, over the inode's own.
unfoldable pub mkdir : (ℕ → Name → KResult ℕ) → ℕ → Name → Action Store ℕ
mkdir inode_mkdir d n s =
    if is_special n
    then (err einval, s)
    else at_dir d
        (λ node s. elim (find_child node.children n) [
          | some e ↦ (err eexist, s)
          | none ↦
              after_call (inode_mkdir node.inode n, s)
                (λ i s. (
                  ok (length s),
                  set s d (add_child node n (dir (length s))) ++ (new_dir d n i ∷ []),
                ))
        ])
        s

-- Links and directories are not made by `mknod`.
abbrev pub is_mknod_mode : InodeMode → Bool
is_mknod_mode symbol_link = false
is_mknod_mode Inode.dir = false
is_mknod_mode _ = true

unfoldable pub mknod :
    (ℕ → Name → InodeMode → KResult ℕ) → ℕ → Name → InodeMode → Action Store DEntry
mknod inode_mknod d n mode s =
    if not (is_mknod_mode mode) || is_special n
    then (err einval, s)
    else at_dir d
        (λ node s. elim (find_child node.children n) [
          | some e ↦ (err eexist, s)
          | none ↦
              after_call (inode_mknod node.inode n mode, s)
                (λ i s. (ok (bytes d n i), set s d (add_child node n (bytes d n i))))
        ])
        s

unfoldable pub unlink : (ℕ → Name → KResult (Unit {0})) → ℕ → Name → Action Store (Unit {0})
unlink inode_unlink d n s =
    if is_special n
    then (err einval, s)
    else at_dir d
        (λ node s. (
          inode_unlink node.inode n,
          set s d (record node { children = remove_child node.children n }),
        ))
        s

abbrev pub is_parent : Option ℕ → ℕ → Bool
is_parent none d = false
is_parent (some p) d = p == d

unfoldable pub remove_dir : ℕ → ℕ → Action Store (Unit {0})
remove_dir d child = at_dir d (λ node. at_dir child (λ c s.
    after_call (assert (is_parent c.parent d), s)
      (λ _ s.
        if length node.children == 2
        then (err enotempty, s)
        else (ok tt, set s d (record node { children = remove_child node.children c.name })))))

-- `rename` of a directory. The directory that stands under the new name is another object, without
-- children. For one and the same parent the two maps are one.
unfoldable pub rename : ℕ → ℕ → Name → Action Store ℕ
rename d new_parent new_name = at_dir d (λ node s. elim node.parent [
  | none ↦ (err ebusy, s)
  | some old_parent ↦
      at_dir old_parent
        (λ old s.
          let removed =
            set s old_parent (record old { children = remove_child old.children node.name }) in
          at_dir new_parent
            (λ target s. (
              ok 0,
              set s new_parent (put_child target new_name (dir (length s)))
                  ++ (new_dir new_parent new_name node.inode ∷ []),
            ))
            removed)
        s
])

-- The names from the root down to a directory, for a chain of at most `fuel` parents.
unfoldable pub names_up : ℕ → Store → ℕ → List Name
names_up zero s d = []
names_up (suc fuel) s d = elim (get_elem? s d) [
  | none ↦ []
  | some node ↦ elim node.parent [ none ↦ [] | some p ↦ names_up fuel s p ++ (node.name ∷ []) ]
]

abbrev pub slash : ℕ
slash = 0x2f

-- `intersperse("/")`, and the pieces pushed in turn.
unfoldable pub join : List Name → Name
join [] = []
join (n ∷ []) = n
join (n ∷ m ∷ rest) = n ++ (slash ∷ join (m ∷ rest))

-- `path`. A parent is older than its child, so the chain is no longer than the store.
unfoldable pub path : Store → ℕ → Name
unfolding names_up join
path s d = slash ∷ join (names_up (length s) s d)
