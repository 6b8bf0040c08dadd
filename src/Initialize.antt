-- ===== src/Initialize.antt =====
-- pthread.c: the constructor __pthread_initialize; manager.c: pthread_start_thread, with which the
-- process of a new thread begins.
pub mod Laws
mod Tests
use read_linuxthreads.Prelude.{
  ℕ, ◌+◌, ◌-◌, ◌*◌, ◌/◌, ◌%◌, ◌^◌, Bool, true, false, not, Option, none, some, List, [], ◌∷◌, ◌++◌,
  ◌==◌, if◌then◌else◌,
}
use read_linuxthreads.Memory.{Ptr, null, SigSet, Process, sig_restart, sig_cancel}
use read_linuxthreads.Run.{Run, done, spins, suspends, exits, M}
use read_linuxthreads.Cancel.{thread, set_thread}
use read_linuxthreads.Join.{exit_thread}
use read_linuxthreads.Stacks.{stack_size}
use read_linuxthreads.Signals.{
  State, Action, Handler, pthread_sighandler, pthread_handle_sigcancel, sigaddset, sigprocmask,
  sig_block, set_action, set_memory, set_mask,
}

-- What the process runs at its exit.
pub data ExitFunction : Type 0 where
  pthread_exit_process : ExitFunction
  other_function : ℕ → ExitFunction

-- The bottom of the initial stack, NULL before the initialisation, and the functions registered with
-- __on_exit, the last one first.
pub record Global : Type 0 where
  pub state : State
  pub initial_bos : Ptr
  pub on_exit : List ExitFunction

-- SA_RESTART of Linux on i386.
abbrev pub sa_restart : ℕ
sa_restart = 0x1000_0000

abbrev pub sigemptyset : SigSet
sigemptyset = λ s. false

-- `(stack - 2 * STACK_SIZE) & ~(STACK_SIZE - 1)` for a 32-bit long; STACK_SIZE is a power of 2.
pub align_bos : (stack : ℕ) → Ptr
align_bos stack = (stack + 2 ^ 32 - 2 * stack_size) % 2 ^ 32 / stack_size * stack_size

abbrev pub restart_action : Action
restart_action = record {
  sa_handler = pthread_sighandler;
  sa_mask = sigemptyset;
  sa_flags = sa_restart;
}

abbrev pub cancel_action : Action
cancel_action = record {
  sa_handler = pthread_handle_sigcancel;
  sa_mask = sigemptyset;
  sa_flags = 0;
}

-- The handlers and the mask of the initial thread.
pub install_handlers : State → State
install_handlers s =
    let t = record s {
      actions =
          set_action sig_cancel cancel_action (set_action sig_restart restart_action s.actions);
    } in
    elim (sigprocmask sig_block (sigaddset sigemptyset sig_restart) t.mask) [
      | none ↦ t
      | some m ↦ record t { mask = m }
    ]

-- `stack` is CURRENT_STACK_FRAME and `pid` the process.
pub initialize : (stack pid : ℕ) → (initial_thread : Ptr) → Global → Global
unfolding align_bos install_handlers
initialize stack pid initial_thread g =
    if not (g.initial_bos == null)
    then g
    else (let m = g.state.memory in
        let d = record (thread initial_thread m) { p_pid = pid } in
        record {
          state = install_handlers (set_memory (set_thread initial_thread d m) g.state);
          initial_bos = align_bos stack;
          on_exit = pthread_exit_process ∷ g.on_exit;
        })

-- A call on the process, inside the larger state.
pub on_process : {A : Type 0} → M Process A → M State A
on_process f s = elim (f s.memory.process) [
  | done a p ↦ done a (set_memory (record (s.memory) { process = p }) s)
  | spins ↦ spins
  | suspends p ↦ suspends (set_memory (record (s.memory) { process = p }) s)
  | exits v p ↦ exits v (set_memory (record (s.memory) { process = p }) s)
]

-- The state in which the function of a new thread is called.
pub before_fn : (pid : ℕ) → Ptr → State → State
before_fn pid self s =
    let d = record (thread self s.memory) { p_pid = pid } in
    let t = set_memory (set_thread self d s.memory) s in
    set_mask (thread self t.memory).p_initial_mask t

-- `fn f a` is the call of the function `f` on `a`; `finish` is what the end of the thread runs.
pub start_thread :
    (fn : ℕ → ℕ → M State ℕ)
    → (finish : Ptr → Process → Process) → (pid : ℕ) → Ptr
    → M State (Unit {0})
start_thread fn finish pid self s =
    let t = before_fn pid self s in
    let d = thread self t.memory in
    elim (fn d.p_initial_fn d.p_initial_fn_arg t) [
      | done outcome u ↦ on_process (exit_thread finish self outcome) u
      | spins ↦ spins
      | suspends u ↦ suspends u
      | exits v u ↦ exits v u
    ]
