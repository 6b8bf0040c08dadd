-- ===== src/Suspend.antt =====
-- restart.h: how a thread sleeps until RESTART, with the signals that reach it in the meantime.
pub mod Waking
pub mod Cancelled
mod Tests
use read_linuxthreads.Prelude.{
  ℕ, Bool, true, false, Option, none, some, List, [], ◌∷◌, ◌==◌, if◌then◌else◌,
}
use read_linuxthreads.Memory.{Ptr, null, SigSet, sig_restart, cancel_pending}
use read_linuxthreads.Cancel
use read_linuxthreads.Cancel.{thread}
use read_linuxthreads.Signals.{
  State, Globals, Handled, returns, jumps, arrives, set_memory, set_cancel_jmp, sigaddset,
  sigdelset, set_mask,
}

-- A signal that is sent to the sleeping thread, and what other threads do to the memory until then.
pub record Arrival : Type 0 where
  pub sig : ℕ
  pub before : Cancel.State → Cancel.State

-- How the loop ends for the signals that are sent, with those behind.
pub data Slept : Type 0 where
  -- still in `sigsuspend`
  asleep : State → Slept
  woken : State → List Arrival → Slept
  -- by a handler that does not return
  left : Handled → List Arrival → Slept

abbrev pub arrived : Arrival → State → State
arrived a s = set_memory (a.before s.memory) s

-- The test of the loop behind a handler; `again` is the loop for the signals behind.
unfoldable pub then_test : (again : State → Slept) → List Arrival → Ptr → Handled → Slept
then_test again more self (returns t) =
    if (thread self t.memory).p_signal == sig_restart then woken t more else again t
then_test again more self handled = left handled more

-- The loop around `sigsuspend`; a signal of the mask stays pending.
unfoldable pub suspend_loop :
    (call : ℕ → ℕ → State → State) → Globals → SigSet → List Arrival → Ptr → State → Slept
suspend_loop call g mask [] self s = asleep s
suspend_loop call g mask (a ∷ more) self s =
    let again = suspend_loop call g mask more self in
    if mask a.sig
    then again (arrived a s)
    else then_test again more self (arrives call g a.sig self (arrived a s))

unfoldable pub suspend :
    (call : ℕ → ℕ → State → State) → Globals → List Arrival → Ptr → State → Slept
suspend call g sent self s = suspend_loop call g (sigdelset s.mask sig_restart) sent self s

-- Behind the loop of suspend_with_cancellation, or behind the jump to its buffer, which leaves the mask
-- of the wait.
unfoldable pub reblock : (jmpbuf : Ptr) → SigSet → Ptr → Slept → Slept
reblock jmpbuf mask self (woken t more) = woken (set_cancel_jmp self null t) more
reblock jmpbuf mask self (asleep t) = asleep t
reblock jmpbuf mask self (left handled more) = elim handled [
  | jumps buf t ↦
      (if buf == jmpbuf
        then woken (set_mask (sigaddset mask sig_restart) (record t { mask = mask })) more
        else left (jumps buf t) more)
  | other_end ↦ left other_end more
]

unfoldable pub suspend_with_cancellation :
    (call : ℕ → ℕ → State → State) → Globals → (jmpbuf : Ptr) → List Arrival → Ptr → State → Slept
suspend_with_cancellation call g jmpbuf sent self s =
    let mask = sigdelset s.mask sig_restart in
    let t = set_cancel_jmp self jmpbuf s in
    if cancel_pending (thread self t.memory)
    then woken (set_cancel_jmp self null t) sent
    else reblock jmpbuf mask self (suspend_loop call g mask sent self t)
