-- ===== src/Fs/OpenFlags.antt =====
-- `OpenFlags` of crates/utils/defines/src/fs.rs: the bits that the modelled code reads.
use Prim.Native.Nat.{bit_and}
use asynclear.Prelude.{ℕ, ◌^◌, Bool, true, false, ◌==◌, KResult, ok, panic, if◌then◌else◌}

abbrev pub OpenFlags : Type 0
OpenFlags = ℕ

abbrev pub append_flag : OpenFlags
append_flag = 2 ^ 10

abbrev pub cloexec_flag : OpenFlags
cloexec_flag = 2 ^ 19

-- `flags.contains(flag)`
unfoldable pub has : OpenFlags → OpenFlags → Bool
has flags flag = bit_and flags flag == flag

-- Access mode 3 is `unreachable!()`.
pub read_write : OpenFlags → KResult (Bool × Bool)
read_write flags =
    let mode : ℕ = bit_and flags 3 in
    if mode == 0
    then ok (true, false)
    else if mode == 1
    then ok (false, true)
    else if mode == 2
    then ok (true, true)
    else panic
