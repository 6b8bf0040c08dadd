-- ===== src/Signals.antt =====
-- signals.c: the signal mask, pthread_kill and sigwait; with the masks and handlers of the kernel.
pub mod Masks
pub mod Handlers
pub mod Waiting
mod Tests
use read_linuxthreads.Prelude.{
  ℕ, zero, suc, ◌+◌, Bool, true, false, not, ◌&&◌, ◌||◌, Option, none, some, ◌==◌, if◌then◌else◌,
  update, option_map, ltb,
}
use read_linuxthreads.Memory.{
  Ptr, null, SigSet, Pthread, Process, Errno, success, einval, sig_restart, sig_cancel, sig_kill,
  cancel_pending, kill,
}
use read_linuxthreads.Run.{Run, done, spins, suspends, exits, M}
use read_linuxthreads.Cancel
use read_linuxthreads.Cancel.{thread, set_thread, testcancel, handle_sigcancel}
use read_linuxthreads.Startup.{sighandler}
use read_linuxthreads.Startup

-- SIGSTOP of Linux on i386, and SIG_BLOCK, SIG_UNBLOCK and SIG_SETMASK.
abbrev pub sig_stop : ℕ
sig_stop = 19

abbrev pub sig_block : ℕ
sig_block = 0

abbrev pub sig_unblock : ℕ
sig_unblock = 1

abbrev pub sig_setmask : ℕ
sig_setmask = 2

abbrev pub sigfillset : SigSet
sigfillset = λ s. true

abbrev pub sigaddset : SigSet → ℕ → SigSet
sigaddset m sig = update m sig true

abbrev pub sigdelset : SigSet → ℕ → SigSet
sigdelset m sig = update m sig false

-- The function that a signal runs: one of the library's two, or another one.
pub data Handler : Type 0 where
  pthread_sighandler pthread_handle_sigcancel : Handler
  other : ℕ → Handler

-- struct sigaction.
pub record Action : Type 0 where
  pub sa_handler : Handler
  pub sa_mask : SigSet
  pub sa_flags : ℕ

-- What the threads share, with the signal mask of the calling thread and the table of handlers.
pub record State : Type 0 where
  pub memory : Cancel.State
  pub mask : SigSet
  pub actions : ℕ → Action

-- The kernel's answer to a change of the mask; SIGKILL and SIGSTOP are never blocked.
abbrev pub sigprocmask : (how : ℕ) → SigSet → SigSet → Option SigSet
sigprocmask how set mask =
    let maskable : ℕ → Bool = λ s. not ((s == sig_kill) || (s == sig_stop)) in
    if how == sig_block
    then some (λ s. (mask s || set s) && maskable s)
    else if how == sig_unblock
    then some (λ s. mask s && not (set s))
    else if how == sig_setmask
    then some (λ s. set s && maskable s)
    else none

-- sigprocmask with SIG_SETMASK.
abbrev pub set_mask : SigSet → State → State
set_mask m s = elim (sigprocmask sig_setmask m s.mask) [
  | none ↦ s
  | some m' ↦ record s { mask = m' }
]

-- The `switch` of pthread_sigmask.
pub edit_mask : (how : ℕ) → SigSet → SigSet
edit_mask how mask =
    if how == sig_setmask
    then sigdelset (sigaddset mask sig_restart) sig_cancel
    else if how == sig_block
    then sigdelset mask sig_cancel
    else if how == sig_unblock
    then sigdelset mask sig_restart
    else mask

-- The code, the old mask, which is stored only on success, and the state.
pub sigmask : (how : ℕ) → SigSet → State → Errno × Option SigSet × State
unfolding edit_mask
sigmask how newmask s = elim (sigprocmask how (edit_mask how newmask) s.mask) [
  | none ↦ (einval, none, s)
  | some m ↦ (success, some s.mask, record s { mask = m })
]

-- `answer` is that of the system call `kill`.
pub thread_kill : (answer : Errno) → Ptr → ℕ → Process → Errno × Process
thread_kill answer th signo p = elim answer [
  | success ↦ (success, kill (p.desc th).p_pid signo p)
  | code ↦ (code, p)
]

-- sigaction works on all signals but 0, SIGKILL and SIGSTOP.
abbrev pub catchable : ℕ → Bool
catchable sig = not ((sig == 0) || (sig == sig_kill) || (sig == sig_stop))

abbrev pub set_action : ℕ → Action → (ℕ → Action) → ℕ → Action
set_action sig a actions = if catchable sig then update actions sig a else actions

-- The signals that sigwait installs a handler for.
abbrev pub chosen : SigSet → ℕ → Bool
chosen set sig = set sig && not (sig == sig_cancel)

-- The handler that sigwait installs, with all signals blocked while it runs.
abbrev pub waiting_action : Action
waiting_action = record { sa_handler = pthread_sighandler; sa_mask = sigfillset; sa_flags = 0 }

-- The local variables `mask` and `saved_signals` of sigwait.
pub record Locals : Type 0 where
  pub wait_mask : SigSet
  pub saved_signals : ℕ → Action

-- A round of the first loop at `s`: the handler is saved where sigaction returns one.
abbrev pub save_one : SigSet → ℕ → Locals → (ℕ → Action) → Locals
save_one set s l actions =
    let saved = if catchable s then update l.saved_signals s (actions s) else l.saved_signals in
    if chosen set s
    then record { wait_mask = sigdelset l.wait_mask s; saved_signals = saved }
    else l

abbrev pub install_one : SigSet → ℕ → (ℕ → Action) → ℕ → Action
install_one set s actions = if chosen set s then set_action s waiting_action actions else actions

-- The first `for` loop of sigwait from `s`, with `rounds` rounds to go.
pub install : (rounds s : ℕ) → SigSet → Locals → (ℕ → Action) → Locals × (ℕ → Action)
install zero s set l actions = (l, actions)
install (suc rounds) s set l actions =
    install rounds (s + 1) set (save_one set s l actions) (install_one set s actions)

-- The second `for` loop.
pub restore : (rounds s : ℕ) → SigSet → (saved : ℕ → Action) → (ℕ → Action) → ℕ → Action
restore zero s set saved actions = actions
restore (suc rounds) s set saved actions =
    restore rounds (s + 1) set saved
      (if chosen set s then set_action s (saved s) actions else actions)

abbrev pub set_memory : Cancel.State → State → State
set_memory m s = record s { memory = m }

abbrev pub set_cancel_jmp : Ptr → Ptr → State → State
set_cancel_jmp self buf s =
    set_memory (set_thread self (record (thread self s.memory) { p_cancel_jmp = buf }) s.memory) s

-- From behind `sigsuspend` or the jump to the return.
pub sigwait_end : (nsig : ℕ) → SigSet → (saved : ℕ → Action) → Ptr → M State (Errno × ℕ)
sigwait_end nsig set saved self s =
    let t = set_cancel_jmp self null s in
    let u = record t { actions = restore nsig 0 set saved t.actions } in
    elim (testcancel self u.memory) [
      | done e m ↦ done (success, (thread self m).p_signal) (set_memory m u)
      | exits v m ↦ exits v (set_memory m u)
      | spins ↦ spins
      | suspends m ↦ suspends (set_memory m u)
    ]

-- The locals before the first loop; `garbage` is what `saved_signals` holds.
abbrev pub start_locals : (garbage : ℕ → Action) → Locals
start_locals garbage = record {
  wait_mask = sigdelset sigfillset sig_cancel;
  saved_signals = garbage;
}

-- What the first loop of sigwait leaves.
pub installed : (nsig : ℕ) → SigSet → (garbage : ℕ → Action) → State → Locals × (ℕ → Action)
unfolding install
installed nsig set garbage s = install nsig 0 set (start_locals garbage) s.actions

-- Sigwait as far as `sigsuspend`, with the locals; `jmpbuf` is the address of its buffer and `nsig` is
-- NSIG.
pub sigwait :
    (nsig : ℕ)
    → SigSet
    → (jmpbuf : Ptr) → (garbage : ℕ → Action) → Ptr
    → State
    → Locals × Run State (Errno × ℕ)
unfolding installed sigwait_end
sigwait nsig set jmpbuf garbage self s =
    let l = (installed nsig set garbage s).0 in
    let t = set_cancel_jmp self jmpbuf (record s { actions = (installed nsig set garbage s).1 }) in
    let reset = set_thread self (record (thread self t.memory) { p_signal = 0 }) t.memory in
    if cancel_pending (thread self t.memory)
    then (l, sigwait_end nsig set l.saved_signals self t)
    else (l, suspends (set_memory reset t))

-- How the handler of a signal ends.
pub data Handled : Type 0 where
  returns : State → Handled
  -- `siglongjmp` to the buffer
  jumps : Ptr → State → Handled
  process_exits : ℕ → Handled
  -- the manager's own handling of RESTART
  children_terminated : Handled
  thread_exits : Handled

unfoldable pub from_sigcancel : Cancel.Handled → State → Handled
from_sigcancel (Cancel.Handled.process_exits code) s = process_exits code
from_sigcancel Cancel.Handled.thread_exits s = thread_exits
from_sigcancel (Cancel.Handled.jumps buf m) s = jumps buf (set_memory m s)
from_sigcancel (Cancel.Handled.returns m) s = returns (set_memory m s)

unfoldable pub from_sighandler : Ptr → Startup.Handled → State → Handled
from_sighandler self Startup.Handled.children_terminated s = children_terminated
from_sighandler self (Startup.Handled.signalled buf d) s =
    let t = set_memory (set_thread self d s.memory) s in
    if buf == null then returns t else jumps buf t

-- What the calling thread has to know: the manager's descriptor, and whether the exit of the process
-- has been asked for, with which code.
pub record Globals : Type 0 where
  pub manager_thread : Ptr
  pub exit_requested : Bool
  pub exit_code : ℕ

-- A signal arrives at the thread; `call` is what a handler of the program does.
unfoldable pub arrives : (call : ℕ → ℕ → State → State) → Globals → ℕ → Ptr → State → Handled
unfolding from_sigcancel from_sighandler
arrives call g sig self s = elim (s.actions sig).sa_handler [
  | pthread_sighandler ↦
      from_sighandler self (sighandler g.manager_thread sig self s.memory.process) s
  | pthread_handle_sigcancel ↦
      from_sigcancel (handle_sigcancel g.exit_requested g.exit_code self s.memory) s
  | other f ↦ returns (call f sig s)
]
