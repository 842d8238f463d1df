-- ===== src/Prelude/Results.antt =====
-- `KResult` of crates/utils/defines/src/error.rs. The kernel is built with overflow checks and
-- debug assertions in its development profile: a failed assertion, an `unwrap` of nothing, an index
-- out of range, `todo!` and an arithmetic overflow are the outcome `panic`.
use mathlib.Core.Bool.{Bool, true, false}
use mathlib.Core.Option.{Option, none, some}

-- `errno`, as far as the modelled code returns it.
pub data Errno : Type 0 where
  unsupported break enoent esrch enoexec ebadf echild enomem eacces efault : Errno
  ebusy eexist enotdir eisdir einval emfile enospc espipe eoverflow enametoolong enotempty erange :
      Errno

pub data KResult {ℓ} (A : Type ℓ) : Type ℓ where
  ok : A → KResult A
  err : Errno → KResult A
  panic : KResult A

infixl 5 ◌>>=◌ ◌>>◌
abbrev pub ◌>>=◌ {ℓ κ} : {A : Type ℓ} {B : Type κ} → KResult A → (A → KResult B) → KResult B
ok a >>= f = f a
err e >>= f = err e
panic >>= f = panic

abbrev pub ◌>>◌ {ℓ} : {B : Type ℓ} → KResult (Unit {0}) → KResult B → KResult B
m >> k = m >>= λ _. k

-- `assert!` and the checks that the compiler inserts.
abbrev pub assert : Bool → KResult (Unit {0})
assert true = ok tt
assert false = panic

-- An early `return Err(e)`.
abbrev pub ensure : Bool → Errno → KResult (Unit {0})
ensure true e = ok tt
ensure false e = err e

-- `unwrap` and `ok_or`.
abbrev pub unwrap {ℓ} : {A : Type ℓ} → Option A → KResult A
unwrap none = panic
unwrap (some a) = ok a

abbrev pub ok_or {ℓ} : {A : Type ℓ} → Option A → Errno → KResult A
ok_or none e = err e
ok_or (some a) e = ok a
