-- ===== src/Signal.antt =====
-- Signals: crates/libkernel/src/signal and the constants of crates/utils/defines/src/signal.rs.
pub mod Set
pub mod Number
pub mod Deliver
pub mod Action
mod Tests
use asynclear.Prelude.{ℕ, ◌-◌, ◌==◌, Option, none, List, [], ◌∷◌, get_elem?, if◌then◌else◌}

pub data Signal : Type 0 where
  sighup sigint sigquit sigill sigtrap sigabrt sigbus sigfpe sigkill sigusr1 sigsegv sigusr2 :
      Signal
  sigpipe sigalrm sigterm sigstkflt sigchld sigcont sigstop sigtstp sigttin sigttou sigurg : Signal
  sigxcpu sigxfsz sigvtalrm sigprof sigwinch sigio sigpwr sigsys : Signal

abbrev all_signals : List Signal
all_signals =
    sighup ∷ sigint ∷ sigquit ∷ sigill ∷ sigtrap ∷ sigabrt ∷ sigbus ∷ sigfpe ∷ sigkill ∷ sigusr1
    ∷ sigsegv ∷ sigusr2 ∷ sigpipe ∷ sigalrm ∷ sigterm ∷ sigstkflt ∷ sigchld ∷ sigcont ∷ sigstop
    ∷ sigtstp ∷ sigttin ∷ sigttou ∷ sigurg ∷ sigxcpu ∷ sigxfsz ∷ sigvtalrm ∷ sigprof ∷ sigwinch
    ∷ sigio ∷ sigpwr ∷ sigsys ∷ []

-- The number that the user sees.
unfoldable pub to_user : Signal → ℕ
to_user sighup = 1
to_user sigint = 2
to_user sigquit = 3
to_user sigill = 4
to_user sigtrap = 5
to_user sigabrt = 6
to_user sigbus = 7
to_user sigfpe = 8
to_user sigkill = 9
to_user sigusr1 = 10
to_user sigsegv = 11
to_user sigusr2 = 12
to_user sigpipe = 13
to_user sigalrm = 14
to_user sigterm = 15
to_user sigstkflt = 16
to_user sigchld = 17
to_user sigcont = 18
to_user sigstop = 19
to_user sigtstp = 20
to_user sigttin = 21
to_user sigttou = 22
to_user sigurg = 23
to_user sigxcpu = 24
to_user sigxfsz = 25
to_user sigvtalrm = 26
to_user sigprof = 27
to_user sigwinch = 28
to_user sigio = 29
to_user sigpwr = 30
to_user sigsys = 31

-- `signal as usize`.
unfoldable pub code : Signal → ℕ
unfolding to_user
code s = to_user s - 1

-- Number 1 is the first of the list, and so on; 0 and the numbers past the list are no signals.
unfoldable pub from_user : ℕ → Option Signal
from_user n = if n == 0 then none else get_elem? all_signals (n - 1)

pub data DefaultHandler : Type 0 where
  terminate ignore core_dump stop continue : DefaultHandler

unfoldable pub default_handler : Signal → DefaultHandler
default_handler sighup = terminate
default_handler sigint = terminate
default_handler sigquit = core_dump
default_handler sigill = core_dump
default_handler sigtrap = core_dump
default_handler sigabrt = core_dump
default_handler sigbus = core_dump
default_handler sigfpe = terminate
default_handler sigkill = terminate
default_handler sigusr1 = terminate
default_handler sigsegv = core_dump
default_handler sigusr2 = terminate
default_handler sigpipe = terminate
default_handler sigalrm = terminate
default_handler sigterm = terminate
default_handler sigstkflt = terminate
default_handler sigchld = ignore
default_handler sigcont = continue
default_handler sigstop = stop
default_handler sigtstp = stop
default_handler sigttin = stop
default_handler sigttou = stop
default_handler sigurg = ignore
default_handler sigxcpu = core_dump
default_handler sigxfsz = core_dump
default_handler sigvtalrm = terminate
default_handler sigprof = terminate
default_handler sigwinch = ignore
default_handler sigio = terminate
default_handler sigpwr = terminate
default_handler sigsys = core_dump
