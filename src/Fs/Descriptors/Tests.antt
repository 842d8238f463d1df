-- ===== src/Fs/Descriptors/Tests.antt =====
-- Copies of descriptors and their positions, on examples.
use Prim.Native.Nat.{bit_and}
use asynclear.Prelude.{◌≡◌, refl, some, none, [], ◌∷◌, ok, arith}
use asynclear.BTreeMap.{get, after, insert, keys}
use asynclear.Fs.OpenFlags.{cloexec_flag}
use asynclear.Fs.FdTable.{FileDescriptor, FdTable, seekable, stream, add, add_from, first_gap}
use asynclear.Fs.Descriptors.{OpenFiles, sys_dup, sys_lseek}
use asynclear.Fs.Descriptors.Dup.{sys_dup-sys_lseek}

abbrev log_file : FileDescriptor
log_file = record { file = seekable 7; flags = 2 }

abbrev table : FdTable
table = record {
  files = (0, record { file = stream 1; flags = 0 }) ∷ (1, log_file) ∷ [];
  rlim_curr = 16;
}

abbrev open_files : OpenFiles
open_files = record { table = table; offset = λ j. 100; data_len = λ j. 5000 }

abbrev after_dup : OpenFiles
after_dup = record open_files { table = record table { files = insert table.files 2 log_file } }

log_open : get table.files 1 ≡ some log_file
unfolding get
log_open = refl

dup_runs : sys_dup 1 open_files ≡ (ok 2, after_dup)
unfolding sys_dup add add_from first_gap get after keys
dup_runs = refl

sys_dup-sys_lseek_example :
    (o2 : OpenFiles) × (get table.files 2 ≡ none)
    × (get after_dup.table.files 1 ≡ some log_file)
    × (get after_dup.table.files 2 ≡ some log_file)
    × (sys_lseek 2 4096 0 after_dup ≡ (ok 4096, o2))
    × ((sys_lseek 1 0 1 o2).0 ≡ ok 4096)
sys_dup-sys_lseek_example =
    sys_dup-sys_lseek 1 2 7 4096 open_files after_dup log_file (omega arith) log_open refl
      (omega arith) dup_runs

no_flags : bit_and cloexec_flag 0x9ffc3 ≡ cloexec_flag
no_flags = refl
