-- ===== src/Signal/Set.antt =====
-- `KSignalSet` of crates/libkernel/src/signal/mod.rs: the bits of a set, one for each declared signal.
use Prim.Native.Nat.{bit_and, bit_or}
use asynclear.Prelude.{
  ℕ, zero, suc, ◌+◌, ◌-◌, ◌*◌, ◌/◌, ◌%◌, ◌^◌, Bool, Option, none, some, ◌==◌, if◌then◌else◌,
}
use asynclear.Signal.{Signal, code, from_user}

abbrev pub KSignalSet : Type 0
KSignalSet = ℕ

abbrev declared : ℕ
declared = 0x7fff_ffff

unfoldable pub set_from_user : ℕ → KSignalSet
set_from_user bits = bit_and (bits / 2) declared

unfoldable pub set_to_user : KSignalSet → ℕ
set_to_user set = set * 2 % 2 ^ 64

unfoldable pub singleton : Signal → KSignalSet
singleton s = bit_and (2 ^ code s) declared

unfoldable pub contains_all : KSignalSet → KSignalSet → Bool
contains_all set other = bit_and set other == other

unfoldable pub insert : KSignalSet → KSignalSet → KSignalSet
insert set other = bit_or set other

-- `remove`, and the intersection with a complement.
unfoldable pub remove : KSignalSet → KSignalSet → KSignalSet
remove set other = set - bit_and set other

-- `trailing_zeros` of as many bits as the fuel.
abbrev pub trailing_zeros : ℕ → ℕ → ℕ
trailing_zeros zero bits = 0
trailing_zeros (suc n) bits =
    let above : ℕ = trailing_zeros n (bits / 2) in if bits % 2 == 1 then 0 else above + 1

unfoldable pub first_pending : KSignalSet → Option Signal
first_pending set = from_user (trailing_zeros 64 set + 1)

pub data SigProcMaskHow : Type 0 where
  block unblock set_mask : SigProcMaskHow

abbrev pub how_from_user : ℕ → Option SigProcMaskHow
how_from_user how =
    if how == 0
    then some block
    else if how == 1
    then some unblock
    else if how == 2
    then some set_mask
    else none

abbrev pub change_mask : SigProcMaskHow → KSignalSet → KSignalSet → KSignalSet
change_mask block mask new_set = insert mask new_set
change_mask unblock mask new_set = remove mask new_set
change_mask set_mask mask new_set = new_set
