-- ===== src/Initialize/Laws.antt =====
-- The process after the initialisation, and what a new thread begins with.
use read_linuxthreads.Prelude.{
  ℕ, ◌+◌, ◌*◌, ◌%◌, ◌^◌, ◌≤◌, ◌<◌, ◌≡◌, ◌≢◌, refl, Bool, true, false, ◌∷◌, arith, ap, ◌∙◌,
}
use read_linuxthreads.Memory.{Ptr, null, SigSet, Process, sig_restart, sig_cancel, sig_kill}
use read_linuxthreads.Run.{done, M}
use read_linuxthreads.Cancel.{thread}
use read_linuxthreads.Join.{exit_thread}
use read_linuxthreads.Stacks.{stack_size}
use read_linuxthreads.Signals.{State, sig_stop}
use read_linuxthreads.Signals.Masks.{IsKept}
use read_linuxthreads.Manager.Creation.{IsNew}
use read_linuxthreads.Initialize.{
  Global, align_bos, initialize, install_handlers, restart_action, cancel_action, start_thread,
  before_fn, on_process, pthread_exit_process,
}

align_bounds :
    (stack : ℕ)
    → 3 * stack_size ≤ stack
    → stack < 2 ^ 32
    → (align_bos stack % stack_size ≡ 0)
      × (align_bos stack + 2 * stack_size ≤ stack)
      × (stack < align_bos stack + 3 * stack_size)
unfolding align_bos
align_bounds stack high below = omega arith

-- The first call, for a stack address that is high enough, with CANCEL not blocked before: RESTART is
-- blocked and CANCEL is not, the two signals have the library's handlers and all others are as before,
-- the exit function is registered, the descriptor has the process number, and the bottom of the initial
-- stack is a multiple of the segment size, between two and three segments below the address. A second
-- call changes nothing.
pub initialize_lem :
    (stack stack' pid pid' : ℕ) (initial_thread : Ptr) (g : Global)
    → g.initial_bos ≡ null
    → 3 * stack_size ≤ stack
    → stack < 2 ^ 32
    → g.state.mask sig_cancel ≡ false
    → let h = initialize stack pid initial_thread g in
      IsKept h.state
      × (h.state.actions sig_restart ≡ restart_action)
      × (h.state.actions sig_cancel ≡ cancel_action)
      × ((sig : ℕ)
          → sig ≢ sig_restart
          → sig ≢ sig_cancel
          → h.state.actions sig ≡ g.state.actions sig)
      × (h.on_exit ≡ pthread_exit_process ∷ g.on_exit)
      × ((thread initial_thread h.state.memory).p_pid ≡ pid)
      × (h.initial_bos % stack_size ≡ 0)
      × (h.initial_bos + 2 * stack_size ≤ stack)
      × (stack < h.initial_bos + 3 * stack_size)
      × (initialize stack' pid' initial_thread h ≡ h)
unfolding initialize install_handlers
initialize_lem stack stack' pid pid' initial_thread g first high below opened =
    let (aligned, lo, hi) = align_bounds stack high below in
    (
      ground arith,
      ground arith,
      ground arith,
      λ sig nr nc. ground arith,
      ground arith,
      ground arith,
      ground arith,
      ground arith,
      ground arith,
      ground arith,
    )

before_fn-descriptor :
    (pid : ℕ) (self : Ptr) (s : State)
    → (thread self s.memory).p_pid ≡ pid
    → thread self (before_fn pid self s).memory ≡ thread self s.memory
unfolding before_fn
before_fn-descriptor pid self s e = ground (arith, e)

before_fn-mask :
    (pid : ℕ) (self : Ptr) (s : State) (mask : SigSet)
    → (thread self s.memory).p_initial_mask ≡ mask
    → mask sig_kill ≡ false
    → mask sig_stop ≡ false
    → (sig : ℕ) → (before_fn pid self s).mask sig ≡ mask sig
unfolding before_fn
before_fn-mask pid self s mask e k st sig =
    let here : (thread self s.memory).p_initial_mask sig ≡ mask sig =
      ap (λ (m : SigSet). m sig) e in
    ground arith

-- The process that pthread_handle_create has made for a request with a signal mask in which RESTART is
-- blocked and CANCEL, SIGKILL and SIGSTOP are not: the function of the request is called once, on its
-- argument, with this mask; when it returns, the thread goes on to pthread_exit with the outcome.
pub start_thread-inherits :
    (fn : ℕ → ℕ → M State ℕ) (finish : Ptr → Process → Process) (self : Ptr) (detached : Bool)
    (pid f a outcome : ℕ) (mask : SigSet) (s u : State)
    → IsNew (thread self s.memory) detached pid f a mask
    → mask sig_restart ≡ true
    → mask sig_cancel ≡ false
    → mask sig_kill ≡ false
    → mask sig_stop ≡ false
    → fn f a (before_fn pid self s) ≡ done outcome u
    → IsKept (before_fn pid self s)
      × ((sig : ℕ) → (before_fn pid self s).mask sig ≡ mask sig)
      × (thread self (before_fn pid self s).memory ≡ thread self s.memory)
      × (start_thread fn finish pid self s ≡ on_process (exit_thread finish self outcome) u)
unfolding start_thread
start_thread-inherits fn finish self detached pid f a outcome mask s u new r c k st runs =
    let same = before_fn-descriptor pid self s new.p_pid in
    let masked = before_fn-mask pid self s mask new.p_initial_mask k st in
    (
      record { restart_blocked = masked sig_restart ∙ r; cancel_open = masked sig_cancel ∙ c },
      masked,
      same,
      rw (start_thread, same, new.p_initial_fn, new.p_initial_fn_arg, runs) refl,
    )
