-- ===== src/Locks.antt =====
-- lockfile.c: the locks of stdio streams; sysdeps/pthread/libc-lock.h: the locks of the C library, which
-- do nothing in a program that is not linked with this library; errno.c: where a thread's errno stands.
pub mod Streams
mod Tests
use read_linuxthreads.Prelude.{
  ℕ, zero, suc, Bool, true, false, Option, none, some, ◌==◌, if◌then◌else◌, update,
}
use read_linuxthreads.Memory.{Ptr, null, Process, Pthread, Errno, success, set_desc}
use read_linuxthreads.Run.{Run, done, spins, suspends, exits, M, pure}
use read_linuxthreads.Mutex
use read_linuxthreads.Mutex.{
  Mutex, MutexAttr, recursive, mutex_init, mutex_destroy, mutex_lock, mutex_trylock, mutex_unlock,
  mutexattr_init, mutexattr_setkind, lift,
}
use read_linuxthreads.Cancel
use read_linuxthreads.Cancel.{cleanup_push_defer, cleanup_pop_restore}

-- The mutexes of the program by address.
pub record State : Type 0 where
  pub mutexes : Ptr → Mutex
  pub process : Process

abbrev pub view : Ptr → State → Mutex.State
view lock s = record { mutex = s.mutexes lock; process = s.process }

abbrev pub put : Ptr → Mutex.State → State → State
put lock t s = record { mutexes = update s.mutexes lock t.mutex; process = t.process }

-- A call on the mutex at an address.
abbrev pub at_lock : {A : Type 0} → Ptr → M Mutex.State A → M State A
at_lock lock m = lift (view lock) (put lock) m

-- `_lock` and `_chain` of a stream of the C library.
pub record Stream : Type 0 where
  pub lock : Ptr
  pub chain : Ptr

pub flockfile : (files : Ptr → Stream) → Ptr → (self : Ptr) → M State Errno
flockfile files stream self = at_lock (files stream).lock (mutex_lock self)

pub funlockfile : (files : Ptr → Stream) → Ptr → M State Errno
funlockfile files stream = at_lock (files stream).lock mutex_unlock

pub ftrylockfile : (files : Ptr → Stream) → Ptr → (self : Ptr) → M State Errno
ftrylockfile files stream self = at_lock (files stream).lock (mutex_trylock self)

abbrev pub set_mutex : Ptr → Mutex → State → State
set_mutex lock m s = record s { mutexes = update s.mutexes lock m }

-- The loop of __fresetlockfiles from `fp`; `none` means that the fuel ran out.
pub reset_loop : ℕ → MutexAttr → (files : Ptr → Stream) → (fp : Ptr) → State → Option State
reset_loop zero attr files fp s = none
reset_loop (suc fuel) attr files fp s =
    let rest =
      reset_loop fuel attr files (files fp).chain
        (set_mutex (files fp).lock (mutex_init (some attr)) s) in
    if fp == null then some s else rest

-- `list_all` is _IO_list_all.
pub fresetlockfiles : ℕ → (files : Ptr → Stream) → (list_all : Ptr) → State → Option State
unfolding reset_loop
fresetlockfiles fuel files list_all s =
    reset_loop fuel (mutexattr_setkind mutexattr_init recursive).0 files list_all s

-- `linked` says whether the functions of this library are there, which are weak symbols.
pub libc_lock_init : (linked : Bool) → Ptr → State → State
libc_lock_init linked name s = if linked then set_mutex name (mutex_init none) s else s

pub libc_lock_init_recursive : (linked : Bool) → Ptr → State → State
libc_lock_init_recursive linked name s =
    let attr = (mutexattr_setkind mutexattr_init recursive).0 in
    if linked then set_mutex name (mutex_init (some attr)) s else s

pub libc_lock_fini : (linked : Bool) → Ptr → M State Errno
libc_lock_fini linked name = if linked then at_lock name mutex_destroy else pure success

pub libc_lock_lock : (linked : Bool) → Ptr → (self : Ptr) → M State Errno
libc_lock_lock linked name self = if linked then at_lock name (mutex_lock self) else pure success

pub libc_lock_trylock : (linked : Bool) → Ptr → (self : Ptr) → M State Errno
libc_lock_trylock linked name self =
    if linked then at_lock name (mutex_trylock self) else pure success

pub libc_lock_unlock : (linked : Bool) → Ptr → M State Errno
libc_lock_unlock linked name = if linked then at_lock name mutex_unlock else pure success

pub cleanup_region_start : (linked : Bool) → (self buffer fct arg : ℕ) → Cancel.State → Cancel.State
cleanup_region_start linked self buffer fct arg s =
    if linked then cleanup_push_defer self buffer fct arg s else s

pub cleanup_region_end :
    (linked : Bool)
    → (call : ℕ → ℕ → Cancel.State → Cancel.State) → (self buffer : ℕ) → (doit : Bool)
    → M Cancel.State (Unit {0})
cleanup_region_end linked call self buffer doit =
    if linked then cleanup_pop_restore call self buffer doit else pure tt

-- The variable that `errno` names, and the one of `h_errno`: a field of the descriptor of a thread.
pub data Location : Type 0 where
  p_errno_of p_h_errno_of : (thread : Ptr) → Location

pub errno_location : (self : Ptr) → Location
errno_location self = p_errno_of self

pub h_errno_location : (self : Ptr) → Location
h_errno_location self = p_h_errno_of self

-- A store through such an address.
abbrev pub store_error : Location → (e : Errno) → (h : ℕ) → Process → Process
store_error (p_errno_of th) e h p = set_desc th (record (p.desc th) { p_errno = e }) p
store_error (p_h_errno_of th) e h p = set_desc th (record (p.desc th) { p_h_errno = h }) p
