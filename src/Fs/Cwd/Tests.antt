-- ===== src/Fs/Cwd/Tests.antt =====
-- The working directory `/a`.
use asynclear.Prelude.{
  ℕ, ◌+◌, ◌<◌, ◌≤◌, ◌≡◌, refl, Option, none, some, List, [], ◌∷◌, length, ok, true, false, contains,
  ◌==◌, if◌then◌else◌, arith,
}
use asynclear.Fs.Dentry.{Name, dir, DEntryDir, DynInode, Store, find_child, names_up, join, path}
use asynclear.Config.{low_address_end}
use asynclear.Memory.Address.{VirtAddr}
use asynclear.Memory.Pte
use asynclear.Memory.MemorySpace.{MemorySpace}
use asynclear.Memory.UserCheck.{done, try_user_byte}
use asynclear.Fs.Path.Roundtrip.{IsBelow}
use asynclear.Fs.Cwd.{put_bytes, write_pieces, write_path, sys_getcwd, sys_chdir}
use asynclear.Fs.Cwd.Back.{sys_chdir-sys_getcwd}

abbrev name_a : Name
name_a = b'a' ∷ []

abbrev root_node : DEntryDir
root_node = record { parent = none; name = []; children = (name_a, dir 1) ∷ []; inode = 0 }

abbrev node_a : DEntryDir
node_a = record { parent = some 0; name = name_a; children = []; inode = 1 }

abbrev tree : Store
tree = root_node ∷ node_a ∷ []

abbrev knows_none : ℕ → Name → Option DynInode
knows_none i n = none

abbrev four_bytes : List ℕ
four_bytes = 9 ∷ 9 ∷ 9 ∷ 9 ∷ []

-- The path, the null byte, and the last byte as it was.
written : sys_getcwd tree 1 true four_bytes ≡ ok (0x2f ∷ b'a' ∷ 0 ∷ 9 ∷ [])
unfolding sys_getcwd names_up write_path write_pieces put_bytes
written = refl

a_in_root : find_child root_node.children name_a ≡ some (dir 1)
unfolding find_child
a_in_root = refl

a-IsBelow : IsBelow tree 0 (name_a ∷ []) 1
a-IsBelow = (
  0,
  omega arith,
  (refl, (root_node, refl, refl)),
  (root_node, refl, a_in_root),
  (node_a, refl, refl, refl),
  (omega arith, refl, refl),
)

fits : length (path tree 1) < length four_bytes
unfolding path names_up join
fits = omega arith

no_null : contains (path tree 1) 0 ≡ false
unfolding path names_up join
no_null = refl

short : length (path tree 1) ≤ 16384
unfolding path names_up join
short = omega arith

low : 0x10000 + length (path tree 1) < low_address_end
unfolding path names_up join
low = omega arith

abbrev no_areas : MemorySpace
no_areas = record {
  page_table = record { root_frame = 1; table_frames = [] };
  user_areas = [];
  world = record { frames = λ p i. Pte.empty; supply = [] };
}

-- Memory has what was written at 0x10000.
abbrev path_bytes : VirtAddr → ℕ
path_bytes x =
    if x == 0x10000 then 0x2f else if x == 0x10001 then b'a' else if x == 0x10003 then 9 else 0

always_done :
    (x : VirtAddr) (m : MemorySpace)
    → (m' : MemorySpace) × (try_user_byte (λ m va. done) x m ≡ (ok tt, m'))
unfolding try_user_byte
always_done x m = (m, refl)

sys_chdir-sys_getcwd_example :
    (m' : MemorySpace) × (sys_chdir
        (λ m va. done)
        path_bytes
        (λ l. true)
        knows_none
        0
        0
        0x10000
        (no_areas, tree)
      ≡ (ok 1, (m', tree)))
sys_chdir-sys_getcwd_example =
    sys_chdir-sys_getcwd (λ m va. done) path_bytes (λ l. true) knows_none tree 0 0 1 (name_a ∷ [])
      four_bytes (0x2f ∷ b'a' ∷ 0 ∷ 9 ∷ []) 0x10000 no_areas a-IsBelow fits written
      (refl, (refl, (refl, (refl, tt)))) short no_null refl low (λ x m a u. always_done x m)
