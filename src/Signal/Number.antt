-- ===== src/Signal/Number.antt =====
-- The numbers of signals.
use asynclear.Prelude.{◌<◌, ◌≡◌, refl, some, arith}
use asynclear.Signal.{
  Signal, from_user, to_user, code, sighup, sigint, sigquit, sigill, sigtrap, sigabrt, sigbus,
  sigfpe, sigkill, sigusr1, sigsegv, sigusr2, sigpipe, sigalrm, sigterm, sigstkflt, sigchld,
  sigcont, sigstop, sigtstp, sigttin, sigttou, sigurg, sigxcpu, sigxfsz, sigvtalrm, sigprof,
  sigwinch, sigio, sigpwr, sigsys,
}

-- The number of a signal leads back to it, and its index lies inside the 64 actions of a process.
pub from-to : (s : Signal) → (from_user (to_user s) ≡ some s) × (code s < 64)
unfolding from_user to_user code
from-to sighup = (refl, omega arith)
from-to sigint = (refl, omega arith)
from-to sigquit = (refl, omega arith)
from-to sigill = (refl, omega arith)
from-to sigtrap = (refl, omega arith)
from-to sigabrt = (refl, omega arith)
from-to sigbus = (refl, omega arith)
from-to sigfpe = (refl, omega arith)
from-to sigkill = (refl, omega arith)
from-to sigusr1 = (refl, omega arith)
from-to sigsegv = (refl, omega arith)
from-to sigusr2 = (refl, omega arith)
from-to sigpipe = (refl, omega arith)
from-to sigalrm = (refl, omega arith)
from-to sigterm = (refl, omega arith)
from-to sigstkflt = (refl, omega arith)
from-to sigchld = (refl, omega arith)
from-to sigcont = (refl, omega arith)
from-to sigstop = (refl, omega arith)
from-to sigtstp = (refl, omega arith)
from-to sigttin = (refl, omega arith)
from-to sigttou = (refl, omega arith)
from-to sigurg = (refl, omega arith)
from-to sigxcpu = (refl, omega arith)
from-to sigxfsz = (refl, omega arith)
from-to sigvtalrm = (refl, omega arith)
from-to sigprof = (refl, omega arith)
from-to sigwinch = (refl, omega arith)
from-to sigio = (refl, omega arith)
from-to sigpwr = (refl, omega arith)
from-to sigsys = (refl, omega arith)
