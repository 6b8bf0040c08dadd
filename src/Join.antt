-- ===== src/Join.antt =====
-- join.c: termination, joining and detaching. A descriptor's p_spinlock protects the fields that the
-- three functions share, so what stands between `acquire` and `release` is one atomic section.
pub mod Laws
pub mod Lifecycle
mod Tests
use read_linuxthreads.Prelude.{ℕ, Bool, true, false, not, ◌&&◌, ◌||◌, ◌==◌, if◌then◌else◌}
use read_linuxthreads.Prelude.Int.{ℤ, pos, ltb_ℤ}
use read_linuxthreads.Memory.{
  Ptr, null, Process, Pthread, Request, req_free, req_main_thread_exit, Errno, success, einval,
  edeadlk, canceled_value, set_desc, write_request, restart, cancel_pending,
}
use read_linuxthreads.Run.{Run, done, spins, suspends, exits, M, ◌>>=◌, ◌>>◌, pure, get, modify}

-- What stands between `acquire(&th->p_spinlock)` and `release`, as one step on the descriptor: it
-- runs when the spinlock is free, and leaves it free.
abbrev pub locked : {A : Type 0} → Ptr → (Pthread → A × Pthread) → M Process A
locked th f p =
    if (p.desc th).p_spinlock == 0
    then done (f (p.desc th)).0 (set_desc th (record (f (p.desc th)).1 { p_spinlock = 0 }) p)
    else spins

-- `__pthread_manager_request >= 0`
abbrev pub has_manager : Process → Bool
has_manager p = not (ltb_ℤ p.manager_request (pos 0))

abbrev pub free_request : Ptr → Ptr → Request
free_request self th = record { req_thread = self; req_kind = req_free th }

-- Sends REQ_FREE for `th` if the manager runs.
notify_free : Ptr → Ptr → M Process (Unit {0})
notify_free self th p =
    done tt (if has_manager p then write_request (free_request self th) p else p)

-- The end of `pthread_exit`: the result is published and the joining thread woken; a main thread
-- then waits for all others, any other thread is gone.
pub publish : Ptr → ℕ → M Process (Unit {0})
publish self retval = do
  joining ← locked self (λ d. (d.p_joining, record d { p_retval = retval; p_terminated = true }))
  modify (λ p. if joining == null then p else restart joining p)
  p ← get
  if (self == p.main_thread) && has_manager p
      then (λ p.
          suspends
            (write_request (record { req_thread = self; req_kind = req_main_thread_exit }) p))
      else exits retval

-- `pthread_exit`; `finish self` is what the cleanup handlers and the destructors of the thread do.
pub exit_thread : (finish : Ptr → Process → Process) → Ptr → ℕ → M Process (Unit {0})
exit_thread finish self retval = do
  modify (λ p. set_desc self (record (p.desc self) { p_canceled = false }) p)
  modify (finish self)
  publish self retval

-- How the first section of `join` ends.
pub data Joining : Type 0 where
  refused started : Joining
  finished : (value : ℕ) → Joining

join_section : Ptr → Pthread → Joining × Pthread
join_section self d =
    if d.p_detached || not (d.p_joining == null)
    then (refused, d)
    else if d.p_terminated
    then (finished d.p_retval, d)
    else (started, record d { p_joining = self })

-- From the end of a section to the return: the code, and the value for `thread_return`.
join_rest : Ptr → Ptr → Joining → M Process (Errno × ℕ)
unfolding notify_free
join_rest self th refused = pure (einval, 0)
join_rest self th started = suspends
join_rest self th (finished value) = do notify_free self th; pure (success, value)

pub join : Ptr → Ptr → M Process (Errno × ℕ)
unfolding join_section join_rest
join self th =
    if th == self
    then pure (edeadlk, 0)
    else (do outcome ← locked th (join_section self); join_rest self th outcome)

-- Behind `suspend_with_cancellation` of `join`; the cancellation is that of the calling thread.
unfoldable pub join_woken : Ptr → Ptr → M Process (Errno × ℕ)
unfolding join_rest
join_woken self th = do
  p ← get
  if cancel_pending (p.desc self)
      then (do locked th (λ d. (tt, record d { p_joining = null })); exits canceled_value)
      else (do value ← locked th (λ d. (d.p_retval, d)); join_rest self th (finished value))

-- How the section of `detach` ends: `marked` says whether the thread has terminated.
pub data Detaching : Type 0 where
  already joined : Detaching
  marked : (terminated : Bool) → Detaching

detach_section : Pthread → Detaching × Pthread
detach_section d =
    if d.p_detached
    then (already, d)
    else if not (d.p_joining == null)
    then (joined, d)
    else (marked d.p_terminated, record d { p_detached = true })

detach_rest : Ptr → Ptr → Detaching → M Process Errno
unfolding notify_free
detach_rest self th already = pure einval
detach_rest self th joined = pure success
detach_rest self th (marked true) = do notify_free self th; pure success
detach_rest self th (marked false) = pure success

pub detach : Ptr → Ptr → M Process Errno
unfolding detach_section detach_rest
detach self th = do outcome ← locked th detach_section; detach_rest self th outcome
