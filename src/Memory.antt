-- ===== src/Memory.antt =====
-- internals.h and sysdeps/pthread/pthread.h: the thread descriptor, the request to the manager, and
-- the part of the process that all components share; restart.h: `restart`.
use read_linuxthreads.Prelude.{ℕ, Bool, false, List, [], ◌∷◌, ◌++◌, update}
use read_linuxthreads.Prelude.Int.{ℤ}

-- An address; NULL is 0.
abbrev pub Ptr : Type 0
Ptr = ℕ

abbrev pub null : Ptr
null = 0

-- `sigset_t`, by membership.
abbrev pub SigSet : Type 0
SigSet = ℕ → Bool

-- SIGUSR1 and SIGUSR2 of Linux on i386.
abbrev pub sig_restart : ℕ
sig_restart = 10

abbrev pub sig_cancel : ℕ
sig_cancel = 12

abbrev pub sig_kill : ℕ
sig_kill = 9

abbrev pub keys_max : ℕ
keys_max = 128

-- PTHREAD_CANCELED, (void *) -1 as a 32-bit pattern.
abbrev pub canceled_value : ℕ
canceled_value = 0xffff_ffff

pub data CancelState : Type 0 where
  cancel_enable cancel_disable : CancelState

pub data CancelType : Type 0 where
  cancel_deferred cancel_asynchronous : CancelType

-- What a function returns: 0, or the code of an error.
pub data Errno : Type 0 where
  success ebusy einval eagain edeadlk enomem enosys enotsup erange etimedout eintr esrch : Errno

-- A function pointer is a number, 0 for NULL; so is an argument of type `void *`.
pub record Pthread : Type 0 where
  pub p_nextlive : Ptr
  pub p_prevlive : Ptr
  pub p_nextwaiting : Ptr
  pub p_pid : ℕ
  pub p_spinlock : ℕ
  pub p_signal : ℕ
  pub p_signal_jmp : Ptr
  pub p_cancel_jmp : Ptr
  pub p_terminated : Bool
  pub p_detached : Bool
  pub p_exited : Bool
  pub p_retval : ℕ
  pub p_retcode : Errno
  pub p_joining : Ptr
  pub p_cleanup : Ptr
  pub p_cancelstate : CancelState
  pub p_canceltype : CancelType
  pub p_canceled : Bool
  pub p_errno : Errno
  pub p_h_errno : ℕ
  pub p_initial_fn : ℕ
  pub p_initial_fn_arg : ℕ
  pub p_initial_mask : SigSet
  pub p_specific : ℕ → ℕ

-- `attr` is the address of the attributes.
pub data RequestKind : Type 0 where
  req_create : (attr fn arg : ℕ) → (mask : SigSet) → RequestKind
  req_free : (thread : Ptr) → RequestKind
  req_process_exit : (code : ℕ) → RequestKind
  req_main_thread_exit : RequestKind

pub record Request : Type 0 where
  pub req_thread : Ptr
  pub req_kind : RequestKind

-- A call of `kill`.
pub record Kill : Type 0 where
  pub pid : ℕ
  pub sig : ℕ

-- Descriptors by address; the signals sent and the requests written so far, oldest first; the write
-- end of the pipe (-1 while there is no manager); the main thread.
pub record Process : Type 0 where
  pub desc : Ptr → Pthread
  pub kills : List Kill
  pub requests : List Request
  pub manager_request : ℤ
  pub main_thread : Ptr

abbrev pub set_desc : Ptr → Pthread → Process → Process
set_desc th d s = record s { desc = update s.desc th d }

abbrev pub set_nextwaiting : Ptr → Ptr → Process → Process
set_nextwaiting th v s = set_desc th (record (s.desc th) { p_nextwaiting = v }) s

abbrev pub kill : ℕ → ℕ → Process → Process
kill pid sig s = record s { kills = s.kills ++ record { pid = pid; sig = sig } ∷ [] }

-- `__libc_write` of a request into the pipe.
abbrev pub write_request : Request → Process → Process
write_request r s = record s { requests = s.requests ++ r ∷ [] }

abbrev pub restart_kill : Ptr → Process → Kill
restart_kill th s = record { pid = (s.desc th).p_pid; sig = sig_restart }

abbrev pub restart : Ptr → Process → Process
restart th s = kill (s.desc th).p_pid sig_restart s

-- `self->p_canceled && self->p_cancelstate == PTHREAD_CANCEL_ENABLE`
abbrev pub cancel_pending : Pthread → Bool
cancel_pending d = elim d.p_cancelstate [ cancel_enable ↦ d.p_canceled | cancel_disable ↦ false ]
