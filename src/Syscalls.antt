-- ===== src/Syscalls.antt =====
-- wrapsyscall.c: system calls in which a thread can be cancelled.
pub mod Laws
mod Tests
use read_linuxthreads.Prelude.{ℕ}
use read_linuxthreads.Prelude.Int.{ℤ, pos}
use read_linuxthreads.Memory.{Ptr, CancelType, cancel_deferred, cancel_asynchronous}
use read_linuxthreads.Run.{M, ◌>>=◌, pure}
use read_linuxthreads.Cancel.{State, setcanceltype}

abbrev pub type_value : CancelType → ℤ
type_value cancel_deferred = pos 0
type_value cancel_asynchronous = pos 1

-- The body that CANCELABLE_SYSCALL and CANCELABLE_SYSCALL_VA make around a call of the C library.
pub cancelable : {R : Type 0} → Ptr → M State R → M State R
cancelable self call = do
  old ← setcanceltype self (pos 1)
  result ← call
  ignored ← setcanceltype self (type_value old.1)
  pure result

-- The functions of the C library, with addresses and flags as numbers; the argument that stands for
-- `...` is always there.
pub record Libc : Type 0 where
  pub libc_close : (fd : ℤ) → M State ℤ
  pub libc_fcntl : (fd cmd arg : ℤ) → M State ℤ
  pub libc_fsync : (fd : ℤ) → M State ℤ
  pub libc_lseek : (fd offset whence : ℤ) → M State ℤ
  pub libc_msync : (start : Ptr) → (length : ℕ) → (flags : ℤ) → M State ℤ
  pub libc_nanosleep : (requested_time remaining : Ptr) → M State ℤ
  pub libc_open : (pathname : Ptr) → (flags mode : ℤ) → M State ℤ
  pub libc_pause : M State ℤ
  pub libc_read : (fd : ℤ) → (buf : Ptr) → (count : ℕ) → M State ℤ
  pub libc_system : (line : Ptr) → M State ℤ
  pub libc_tcdrain : (fd : ℤ) → M State ℤ
  pub libc_wait : (stat_loc : Ptr) → M State ℤ
  pub libc_waitpid : (pid : ℤ) → (stat_loc : Ptr) → (options : ℤ) → M State ℤ
  pub libc_write : (fd : ℤ) → (buf : Ptr) → (n : ℕ) → M State ℤ

module _ (libc : Libc) (self : Ptr) where
  pub close : (fd : ℤ) → M State ℤ
  close fd = cancelable self (libc.libc_close fd)

  pub fcntl : (fd cmd arg : ℤ) → M State ℤ
  fcntl fd cmd arg = cancelable self (libc.libc_fcntl fd cmd arg)

  pub fsync : (fd : ℤ) → M State ℤ
  fsync fd = cancelable self (libc.libc_fsync fd)

  pub lseek : (fd offset whence : ℤ) → M State ℤ
  lseek fd offset whence = cancelable self (libc.libc_lseek fd offset whence)

  pub msync : (start : Ptr) → (length : ℕ) → (flags : ℤ) → M State ℤ
  msync start length flags = cancelable self (libc.libc_msync start length flags)

  pub nanosleep : (requested_time remaining : Ptr) → M State ℤ
  nanosleep requested_time remaining =
      cancelable self (libc.libc_nanosleep requested_time remaining)

  pub open_file : (pathname : Ptr) → (flags mode : ℤ) → M State ℤ
  open_file pathname flags mode = cancelable self (libc.libc_open pathname flags mode)

  pub pause : M State ℤ
  pause = cancelable self libc.libc_pause

  pub read : (fd : ℤ) → (buf : Ptr) → (count : ℕ) → M State ℤ
  read fd buf count = cancelable self (libc.libc_read fd buf count)

  pub system : (line : Ptr) → M State ℤ
  system line = cancelable self (libc.libc_system line)

  pub tcdrain : (fd : ℤ) → M State ℤ
  tcdrain fd = cancelable self (libc.libc_tcdrain fd)

  pub wait : (stat_loc : Ptr) → M State ℤ
  wait stat_loc = cancelable self (libc.libc_wait stat_loc)

  pub waitpid : (pid : ℤ) → (stat_loc : Ptr) → (options : ℤ) → M State ℤ
  waitpid pid stat_loc options = cancelable self (libc.libc_waitpid pid stat_loc options)

  pub write : (fd : ℤ) → (buf : Ptr) → (n : ℕ) → M State ℤ
  write fd buf n = cancelable self (libc.libc_write fd buf n)
