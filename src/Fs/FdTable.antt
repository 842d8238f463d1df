-- ===== src/Fs/FdTable.antt =====
-- `FdTable` of crates/libkernel/src/fs/file.rs: the open files of a process.
pub mod Add
pub mod AddMany
pub mod Close
use asynclear.Prelude.{
  ℕ, suc, zero, ◌+◌, ◌-◌, Bool, true, false, not, Option, none, some, List, [], ◌∷◌, ◌++◌, ltb, leb,
  ◌==◌, length, if◌then◌else◌, KResult, ok, ◌>>=◌, ◌>>◌, assert,
}
use asynclear.Config.{usize_mod}
use asynclear.BTreeMap.{BTreeMap, get, insert, remove, after, keys}
use asynclear.Fs.OpenFlags.{OpenFlags, has, cloexec_flag}

-- The number names the shared object behind the `Arc`.
pub data File : Type 0 where
  pipe dir seekable stream : ℕ → File

pub record FileDescriptor : Type 0 where
  pub file : File
  pub flags : OpenFlags

pub record FdTable : Type 0 where
  pub files : BTreeMap FileDescriptor
  pub rlim_curr : ℕ

-- The loop of `add_from` over the keys from `from` on, which starts at `new_fd = from`.
unfoldable pub first_gap : ℕ → List ℕ → KResult ℕ
first_gap new_fd [] = ok new_fd
first_gap new_fd (existed_fd ∷ rest) =
    let next = assert (ltb (new_fd + 1) usize_mod) >> first_gap (new_fd + 1) rest in
    if new_fd == existed_fd then next else ok new_fd

-- `none` is the limit on open files.
unfoldable pub add_from : FdTable → FileDescriptor → ℕ → KResult (Option ℕ × FdTable)
add_from t desc from =
    if leb t.rlim_curr (length t.files)
    then ok (none, t)
    else first_gap from (keys (after t.files from)) >>= λ new_fd.
        ok (some new_fd, record t { files = insert t.files new_fd desc })

unfoldable pub add : FdTable → FileDescriptor → KResult (Option ℕ × FdTable)
unfolding add_from
add t desc = add_from t desc 0

-- The `for` loop of `add_many` over the keys, with `left` numbers still to choose: how many are left
-- when it stops, the next number, and those chosen. The number counts the keys passed, so it cannot
-- overflow.
pub choose_fds : ℕ → List ℕ → ℕ → List ℕ → ℕ × ℕ × List ℕ
choose_fds left [] new_fd ret = (left, new_fd, ret)
choose_fds left (existed_fd ∷ rest) new_fd ret =
    let keep = choose_fds left rest (new_fd + 1) ret in
    let choose = choose_fds (left - 1) rest (new_fd + 1) (ret ++ (new_fd ∷ [])) in
    if new_fd == existed_fd then keep else if left == 0 then (left, new_fd, ret) else choose

-- The `while` loop after it.
pub fill_fds : ℕ → ℕ → List ℕ → List ℕ
fill_fds zero new_fd ret = ret
fill_fds (suc left) new_fd ret = fill_fds left (new_fd + 1) (ret ++ (new_fd ∷ []))

pub insert_all : BTreeMap FileDescriptor → List ℕ → List FileDescriptor → BTreeMap FileDescriptor
insert_all files [] descs = files
insert_all files (fd ∷ fds) [] = files
insert_all files (fd ∷ fds) (desc ∷ descs) = insert_all (insert files fd desc) fds descs

pub add_many : FdTable → List FileDescriptor → Option (List ℕ) × FdTable
unfolding choose_fds fill_fds insert_all
add_many t descs =
    let n = length descs in
    let (left, new_fd, chosen) = choose_fds n (keys t.files) 0 [] in
    let fds = fill_fds left new_fd chosen in
    if ltb t.rlim_curr (length t.files + n)
    then (none, t)
    else (some fds, record t { files = insert_all t.files fds descs })

-- `insert` and `remove` also return the descriptor that was there.
unfoldable pub put : FdTable → ℕ → FileDescriptor → Option FileDescriptor × FdTable
put t fd desc = (get t.files fd, record t { files = insert t.files fd desc })

unfoldable pub take_out : FdTable → ℕ → Option FileDescriptor × FdTable
take_out t fd = (get t.files fd, record t { files = remove t.files fd })

-- `BTreeMap::retain` with the test of `close_on_exec`.
pub retain_open : BTreeMap FileDescriptor → BTreeMap FileDescriptor
retain_open [] = []
retain_open ((fd, desc) ∷ m) =
    let rest = retain_open m in
    if not (has desc.flags cloexec_flag) then (fd, desc) ∷ rest else rest

pub close_on_exec : FdTable → FdTable
unfolding retain_open
close_on_exec t = record t { files = retain_open t.files }
