-- ===== src/Fs/Path/Tests.antt =====
-- Paths on a small tree: `/a/b`, and a file `f` in `/a`.
use asynclear.Prelude.{ℕ, ◌≡◌, refl, Option, none, some, [], ◌∷◌, ok, arith}
use asynclear.Fs.Dentry.{
  Name, dir, bytes, DEntryDir, DynInode, dir_inode, Store, find_child, slash, path,
}
use asynclear.Fs.Path.{components_from, find_file}
use asynclear.Fs.Path.Roundtrip.{find_file-path}

abbrev name_a : Name
name_a = b'a' ∷ []

abbrev name_b : Name
name_b = b'b' ∷ []

abbrev name_f : Name
name_f = b'f' ∷ []

abbrev root_node : DEntryDir
root_node = record { parent = none; name = []; children = (name_a, dir 1) ∷ []; inode = 0 }

abbrev node_a : DEntryDir
node_a = record {
  parent = some 0;
  name = name_a;
  children = (name_b, dir 2) ∷ (name_f, bytes 1 name_f 7) ∷ (0x63 ∷ [], dir 3) ∷ [];
  inode = 1;
}

abbrev node_b : DEntryDir
node_b = record {
  parent = some 1;
  name = name_b;
  children = (name_f, bytes 2 name_f 8) ∷ [];
  inode = 2;
}

abbrev small_tree : Store
small_tree = root_node ∷ node_a ∷ node_b ∷ node_b ∷ []

-- The inodes know one more directory, `f`.
abbrev knows_f : ℕ → Name → Option DynInode
knows_f i n = some (dir_inode 9)

a_in_root : find_child root_node.children name_a ≡ some (dir 1)
unfolding find_child
a_in_root = refl

b_in_a : find_child node_a.children name_b ≡ some (dir 2)
unfolding find_child
b_in_a = refl

find_file-path_example :
    find_file knows_f 0 1 (path small_tree 2) small_tree ≡ (ok (dir 2), small_tree)
find_file-path_example = find_file-path knows_f small_tree 0 1 (name_b ∷ name_a ∷ []) 2 (
  1,
  omega arith,
  (
    0,
    omega arith,
    (refl, (root_node, refl, refl)),
    (root_node, refl, a_in_root),
    (node_a, refl, refl, refl),
    (omega arith, refl, refl),
  ),
  (node_a, refl, b_in_a),
  (node_b, refl, refl, refl),
  (omega arith, refl, refl),
)

one_component : components_from [] name_a ≡ name_a ∷ []
unfolding components_from
one_component = refl

slashes_b : components_from [] (slash ∷ slash ∷ name_b) ≡ name_b ∷ []
unfolding components_from
slashes_b = refl

no_f_in_root : find_child root_node.children name_f ≡ none
unfolding find_child
no_f_in_root = refl
