-- ===== src/Fs/Path.antt =====
-- Path resolution of crates/libkernel/src/fs/mod.rs: `path_walk`, `resolve_path_with_dir_fd` and
-- `find_file`.
pub mod Walk
pub mod Roundtrip
mod Tests
use asynclear.Prelude.{
  ℕ, Bool, true, false, Option, none, some, List, [], ◌∷◌, ◌++◌, ◌==◌, if◌then◌else◌, KResult, ok,
  err, enoent, enotdir, ebadf,
}
use asynclear.Prelude.Stateful.{Action, after_call}
use asynclear.Fs.Dentry.{
  Name, same, dot, dot_dot, DEntry, dir, bytes, DynInode, Store, lookup, slash,
}

abbrev pub close : Name → List Name
close [] = []
close (c ∷ cs) = (c ∷ cs) ∷ []

-- `split('/')` without the empty parts; `acc` is the part read so far. Trimming slashes at the ends of
-- the path only takes empty parts away.
unfoldable pub components_from : Name → Name → List Name
components_from acc [] = close acc
components_from acc (c ∷ cs) =
    let next = components_from [] cs in
    let more = components_from (acc ++ (c ∷ [])) cs in
    if c == slash then close acc ++ next else more

abbrev pub components : Name → List Name
components p = components_from [] p

pub data LastComponentType : Type 0 where
  normal dot_type dot_dot_type root : LastComponentType

pub record PathToInode : Type 0 where
  pub dir : ℕ
  pub last_type : LastComponentType
  pub last_component : Name

abbrev pub type_of : Name → LastComponentType
type_of n = if same n dot then dot_type else if same n dot_dot then dot_dot_type else normal

-- What a path starts from: a directory, a file that is none, or no open file.
pub data StartDir : Type 0 where
  start_dir : ℕ → StartDir
  not_dir not_open : StartDir

-- What is found under a name must be a directory.
abbrev pub in_found : {A : Type 0} → Option DEntry → (ℕ → Action Store A) → Action Store A
in_found none f s = (err enoent, s)
in_found (some (dir d)) f s = f d s
in_found (some (bytes p n i)) f s = (err enotdir, s)

module _ (inode_lookup : ℕ → Name → Option DynInode) where
  -- The loop of `path_walk`: every component but the last must be a directory.
  unfoldable pub walk : ℕ → Name → List Name → Action Store (ℕ × Name)
  walk d curr [] s = (ok (d, curr), s)
  walk d curr (next ∷ rest) s =
      after_call (lookup inode_lookup d curr s)
        (λ found s'. in_found found (λ d'. walk d' next rest) s')

  abbrev pub walk_components : ℕ → List Name → Action Store PathToInode
  walk_components d [] s = (ok (record { dir = d; last_type = root; last_component = dot }), s)
  walk_components d (c ∷ cs) s = after_call (walk d c cs s) (λ (d', last) s'.
      (ok (record { dir = d'; last_type = type_of last; last_component = last }), s'))

  unfoldable pub path_walk : ℕ → Name → Action Store PathToInode
  unfolding walk components_from
  path_walk d p = walk_components d (components p)

  -- `fd_start` is where a relative path starts, by the descriptor given.
  unfoldable pub resolve_path : ℕ → StartDir → Name → Action Store PathToInode
  unfolding path_walk
  resolve_path root_dir fd_start [] s = (err enoent, s)
  resolve_path root_dir fd_start (c ∷ cs) s =
      if c == slash then path_walk root_dir (c ∷ cs) s else elim fd_start [
        | start_dir d ↦ path_walk d (c ∷ cs) s
        | not_dir ↦ (err enotdir, s)
        | not_open ↦ (err ebadf, s)
      ]

  -- `find_file`, with the working directory.
  unfoldable pub find_file : ℕ → ℕ → Name → Action Store DEntry
  unfolding resolve_path
  find_file root_dir cwd p s = after_call (resolve_path root_dir (start_dir cwd) p s) (λ p2i s'.
      after_call (lookup inode_lookup p2i.dir p2i.last_component s')
        (λ found s2. elim found [ none ↦ (err enoent, s2) | some e ↦ (ok e, s2) ]))
