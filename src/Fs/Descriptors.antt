-- ===== src/Fs/Descriptors.antt =====
-- The positions of open files, `FileDescriptor::seek` of crates/libkernel/src/fs/file.rs, and the system
-- calls of crates/kernel/src/syscall/fs.rs on the numbers of descriptors.
pub mod Seek
pub mod Dup
mod Tests
use Prim.Native.Nat.{bit_and, bit_or}
use asynclear.Prelude.{
  ℕ, ◌+◌, ◌-◌, ◌^◌, Bool, true, false, not, ◌&&◌, ◌||◌, Option, none, some, ◌==◌, ltb, leb,
  if◌then◌else◌, KResult, ok, err, panic, ebadf, einval, emfile, espipe, eoverflow, ok_or,
}
use asynclear.Prelude.Stateful.{Action, after_call, ◌>>=◌, ◌>>◌, pure, raise, lift}
use asynclear.Config.{usize_mod}
use asynclear.BTreeMap.{get, insert}
use asynclear.Fs.OpenFlags.{OpenFlags, has, cloexec_flag, read_write}
use asynclear.Fs.FdTable.{
  File, pipe, dir, seekable, stream, FileDescriptor, FdTable, add, add_from, put, take_out,
}

-- The table of a process, with the positions of the seekable files and the sizes of their inodes, by
-- the shared object that a descriptor refers to.
pub record OpenFiles : Type 0 where
  pub table : FdTable
  pub offset : ℕ → ℕ
  pub data_len : ℕ → ℕ

-- A number of 64 bits and one in two's complement, `none` if the sum is none of 64 bits.
unfoldable pub checked_add_signed : ℕ → ℕ → Option ℕ
checked_add_signed a i =
    if ltb i (2 ^ 63)
    then (if ltb (a + i) usize_mod then some (a + i) else none)
    else if leb (usize_mod - i) a
    then some (a - (usize_mod - i))
    else none

pub data SeekFrom : Type 0 where
  start end current : ℕ → SeekFrom

abbrev pub move_to : ℕ → Option ℕ → Action OpenFiles ℕ
move_to id none o = (err eoverflow, o)
move_to id (some pos) o = (ok pos, record o { offset = λ j. if j == id then pos else o.offset j })

abbrev pub new_pos : OpenFiles → ℕ → SeekFrom → Option ℕ
new_pos o id (start pos) = some pos
new_pos o id (end i) = checked_add_signed (o.data_len id) i
new_pos o id (current i) = checked_add_signed (o.offset id) i

-- Seeking in a directory is `todo!`.
unfoldable pub seek : FileDescriptor → SeekFrom → Action OpenFiles ℕ
seek desc from o = elim desc.file [
  | seekable id ↦ move_to id (new_pos o id from) o
  | stream id ↦ (err espipe, o)
  | pipe id ↦ (err espipe, o)
  | dir id ↦ (panic, o)
]

abbrev pub seek_from : ℕ → ℕ → Option SeekFrom
seek_from whence offset =
    if whence == 0
    then some (start offset)
    else if whence == 1
    then some (current offset)
    else if whence == 2
    then some (end offset)
    else none

abbrev pub with_desc : {A : Type 0} → ℕ → (FileDescriptor → Action OpenFiles A) → Action OpenFiles A
with_desc fd f o = elim (get o.table.files fd) [ none ↦ (err ebadf, o) | some desc ↦ f desc o ]

-- `offset` in two's complement.
unfoldable pub sys_lseek : ℕ → ℕ → ℕ → Action OpenFiles ℕ
unfolding seek
sys_lseek fd offset whence = with_desc fd (λ desc o. elim (seek_from whence offset) [
  | none ↦ (err einval, o)
  | some from ↦ seek desc from o
])

-- `prepare_io`: the descriptor, if it is open for the direction.
unfoldable pub prepare_io : Bool → ℕ → Action OpenFiles FileDescriptor
prepare_io reading fd = with_desc fd (λ desc o. elim (read_write desc.flags) [
  | ok (readable, writable) ↦
      (if (if reading then readable else writable) then ok desc else err ebadf, o)
  | err e ↦ (err e, o)
  | panic ↦ (panic, o)
])

-- `flags.set(CLOEXEC, set)`
unfoldable pub set_close_on_exec : FileDescriptor → Bool → FileDescriptor
set_close_on_exec desc true = record desc { flags = bit_or desc.flags cloexec_flag }
set_close_on_exec desc false = record desc {
  flags = bit_and desc.flags (2 ^ 32 - 1 - cloexec_flag);
}

-- What a descriptor is added as, and the number that it gets.
abbrev pub added : KResult (Option ℕ × FdTable) → Action OpenFiles ℕ
added (ok (none, t)) o = (err emfile, o)
added (ok (some fd, t)) o = (ok fd, record o { table = t })
added (err e) o = (err e, o)
added panic o = (panic, o)

unfoldable pub sys_dup : ℕ → Action OpenFiles ℕ
sys_dup old_fd = with_desc old_fd (λ desc o. added (add o.table desc) o)

-- `OpenFlags::from_bits`: a bit that is not declared is `todo!`.
abbrev pub all_open_flags : OpenFlags
all_open_flags = 0x9ffc3

unfoldable pub sys_dup3 : ℕ → ℕ → OpenFlags → Action OpenFiles ℕ
sys_dup3 old_fd new_fd flags o =
    if not (bit_and flags all_open_flags == flags)
    then (panic, o)
    else with_desc old_fd
        (λ desc o. if old_fd == new_fd then (err einval, o) else (
          ok new_fd,
          record o {
            table = (put o.table new_fd (set_close_on_exec desc (has flags cloexec_flag))).1;
          },
        ))
        o

unfoldable pub sys_close : ℕ → Action OpenFiles ℕ
sys_close fd = with_desc fd (λ desc o. (ok 0, record o { table = (take_out o.table fd).1 }))

-- The commands of `fcntl`: 0 and 1030 copy a descriptor, 1 and 2 read and set its flag CLOEXEC, and 3
-- reads its flags.
unfoldable pub sys_fcntl64 : ℕ → ℕ → ℕ → Action OpenFiles ℕ
sys_fcntl64 fd cmd arg o =
    if cmd == 0
    then with_desc fd (λ desc o. added (add_from o.table desc arg) o) o
    else if cmd == 1030
    then with_desc fd (λ desc o. added (add_from o.table (set_close_on_exec desc true) arg) o) o
    else if cmd == 1
    then with_desc fd (λ desc o. (ok (if has desc.flags cloexec_flag then 1 else 0), o)) o
    else if cmd == 2
    then with_desc fd
        (λ desc o. (
          ok 0,
          record o {
            table = (put o.table fd (set_close_on_exec desc (not (bit_and arg 1 == 0)))).1;
          },
        ))
        o
    else if cmd == 3
    then with_desc fd (λ desc o. (ok desc.flags, o)) o
    else (err einval, o)
