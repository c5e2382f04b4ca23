-- ===== src/Abi.antt =====
-- include/myos/abi.h: the error numbers, the signal numbers and the flags that the kernel and its
-- programs agree on, and the integer results of system calls.
use c_loyha.Base.{ℕ}

-- The `E...` codes that the modelled calls return (negated, in C).
pub data Errno : Type 0 where
  eperm esrch echild eintr eio efault einval epipe enotty enomem ebadf emfile : Errno

-- An `int64_t` result: a count or an identifier, or an error number.
pub data Ret : Type 0 where
  done : ℕ → Ret
  fail : Errno → Ret

-- An `int` argument: `negsuc n` is -(n + 1).
pub data ℤ : Type 0 where
  pos : ℕ → ℤ
  negsuc : ℕ → ℤ

abbrev pub sighup : ℕ
sighup = 1

abbrev pub sigint : ℕ
sigint = 2

abbrev pub sigquit : ℕ
sigquit = 3

abbrev pub sigkill : ℕ
sigkill = 9

abbrev pub sigsegv : ℕ
sigsegv = 11

abbrev pub sigpipe : ℕ
sigpipe = 13

abbrev pub sigalrm : ℕ
sigalrm = 14

abbrev pub sigchld : ℕ
sigchld = 17

abbrev pub sigcont : ℕ
sigcont = 18

abbrev pub sigstop : ℕ
sigstop = 19

abbrev pub sigtstp : ℕ
sigtstp = 20

abbrev pub sigttin : ℕ
sigttin = 21

abbrev pub sigttou : ℕ
sigttou = 22

abbrev pub sigwinch : ℕ
sigwinch = 28

abbrev pub nsig : ℕ
nsig = 32

-- The two values of `sa_handler` that are no addresses.
abbrev pub sig_dfl : ℕ
sig_dfl = 0

abbrev pub sig_ign : ℕ
sig_ign = 1

abbrev pub sa_restart : ℕ
sa_restart = 0x10000000

abbrev pub sa_restorer : ℕ
sa_restorer = 0x04000000

abbrev pub sa_nodefer : ℕ
sa_nodefer = 0x40000000

abbrev pub sa_resethand : ℕ
sa_resethand = 0x80000000

abbrev pub sig_block : ℕ
sig_block = 0

abbrev pub sig_unblock : ℕ
sig_unblock = 1

abbrev pub sig_setmask : ℕ
sig_setmask = 2
