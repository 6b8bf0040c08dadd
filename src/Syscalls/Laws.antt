-- ===== src/Syscalls/Laws.antt =====
-- When a thread is cancelled in a system call, and what the call leaves otherwise.
use read_linuxthreads.Prelude.{ℕ, ◌≡◌, refl, Bool, true, false, arith, if◌then◌else◌}
use read_linuxthreads.Prelude.Int.{pos}
use read_linuxthreads.Memory.{
  Ptr, success, cancel_enable, cancel_asynchronous, canceled_value, cancel_pending,
}
use read_linuxthreads.Run.{done, exits, M, and_then, pure}
use read_linuxthreads.Cancel.{
  State, thread, set_thread, cancel_now, setcanceltype, cancel, handle_sigcancel, thread_exits,
}
use read_linuxthreads.Syscalls.{cancelable, type_value}

-- The state in which the C library is called.
abbrev pub inside : Ptr → State → State
inside self s = set_thread self (record (thread self s) { p_canceltype = cancel_asynchronous }) s

-- `u` with the cancellation type that the thread had in `s`.
abbrev pub type_back : Ptr → State → State → State
type_back self s u =
    set_thread self (record (thread self u) { p_canceltype = (thread self s).p_canceltype }) u

set_asynchronous :
    (self : Ptr) (s : State)
    → setcanceltype self (pos 1) s ≡ (
        if cancel_pending (thread self s)
        then exits canceled_value (inside self s)
        else done (success, (thread self s).p_canceltype) (inside self s))
unfolding setcanceltype
set_asynchronous self s = ground arith

set_back :
    (self : Ptr) (s u : State)
    → setcanceltype self (type_value (thread self s).p_canceltype) u ≡ (
        if cancel_now (thread self (type_back self s u))
        then exits canceled_value (type_back self s u)
        else done (success, (thread self u).p_canceltype) (type_back self s u))
unfolding setcanceltype
set_back self s u = ground arith

-- Behind the call the result is kept.
then_return :
    {R A : Type 0} (now : Bool) (v : ℕ) (a : A) (t : State) (r : R)
    → and_then (if now then exits v t else done a t) (λ ignored. pure r)
      ≡ (if now then exits v t else done r t)
then_return true v a t r = refl
then_return false v a t r = refl

-- A system call of a thread, whose call of the C library, if it returns, returns `r` in `u`. With a
-- cancellation pending the thread exits before the call is made. Otherwise the call is made with the
-- type asynchronous, so that a pthread_cancel of the thread while the type is that and cancellation
-- is enabled makes it exit in the handler; when the call returns, the old type is back, and
-- the thread exits if it is to be cancelled at once, or returns `r`; nothing else is changed. If the
-- thread exits in the call, so does the system call.
pub cancelable_lem :
    {R : Type 0} (self v : Ptr) (call : M State R) (r : R) (s u : State)
    → (cancel_pending (thread self s) ≡ true
        → cancelable self call s ≡ exits canceled_value (inside self s))
      × (cancel_pending (thread self s) ≡ false
          → (call (inside self s) ≡ done r u
              → cancelable self call s ≡ (
                  if cancel_now (thread self (type_back self s u))
                  then exits canceled_value (type_back self s u)
                  else done r (type_back self s u)))
            × (call (inside self s) ≡ exits v u → cancelable self call s ≡ exits v u))
      × ((thread self u).p_cancelstate ≡ cancel_enable
          → (thread self u).p_canceltype ≡ cancel_asynchronous
          → handle_sigcancel false 0 self (cancel self u) ≡ thread_exits)
unfolding cancelable handle_sigcancel cancel
cancelable_lem self v call r s u = (
  λ pending. rw (set_asynchronous self s, pending) refl,
  λ calm. (
    λ ret.
        rw (set_asynchronous self s, calm, ret, set_back self s u)
          (then_return (cancel_now (thread self (type_back self s u))) _ _ _ r),
    λ ex. rw (set_asynchronous self s, calm, ex) refl,
  ),
  λ on asynchronous. ground arith,
)
