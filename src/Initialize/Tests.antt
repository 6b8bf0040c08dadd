-- ===== src/Initialize/Tests.antt =====
-- A process with its stack near 0xc0000000, and a new thread at 16.
use read_linuxthreads.Prelude.{
  ℕ, ◌+◌, ◌*◌, ◌%◌, ◌≤◌, ◌<◌, ◌≡◌, ◌≢◌, refl, false, [], ◌∷◌, arith, ◌==◌,
}
use read_linuxthreads.Memory.{
  Ptr, null, SigSet, Process, sig_restart, sig_cancel, cancel_deferred, set_desc,
}
use read_linuxthreads.Examples.{fresh_process}
use read_linuxthreads.Run.{done, M}
use read_linuxthreads.Cancel.{thread}
use read_linuxthreads.Join.{exit_thread}
use read_linuxthreads.Stacks.{stack_size}
use read_linuxthreads.Signals.{State, other}
use read_linuxthreads.Signals.Masks.{IsKept}
use read_linuxthreads.Manager.Creation.{IsNew}
use read_linuxthreads.Initialize.{
  Global, initialize, restart_action, cancel_action, start_thread, before_fn, on_process,
  pthread_exit_process,
}
use read_linuxthreads.Initialize.Laws.{initialize_lem, start_thread-inherits}

abbrev with_process : Process → State
with_process p = record {
  memory = record {
    buffers = λ b. record { routine = 0; arg = 0; canceltype = cancel_deferred; prev = null };
    process = p;
  };
  mask = λ s. false;
  actions = λ s. record { sa_handler = other 0; sa_mask = λ n. false; sa_flags = 0 };
}

abbrev unready : Global
unready = record { state = with_process fresh_process; initial_bos = null; on_exit = [] }

initialize_lem_example :
    let h = initialize 0xbfff_f000 77 8 unready in
    IsKept h.state
    × (h.state.actions sig_restart ≡ restart_action)
    × (h.state.actions sig_cancel ≡ cancel_action)
    × ((sig : ℕ)
        → sig ≢ sig_restart
        → sig ≢ sig_cancel
        → h.state.actions sig ≡ unready.state.actions sig)
    × (h.on_exit ≡ pthread_exit_process ∷ unready.on_exit)
    × ((thread 8 h.state.memory).p_pid ≡ 77)
    × (h.initial_bos % stack_size ≡ 0)
    × (h.initial_bos + 2 * stack_size ≤ 0xbfff_f000)
    × (0xbfff_f000 < h.initial_bos + 3 * stack_size)
    × (initialize 0xbfff_e000 78 8 h ≡ h)
initialize_lem_example =
    initialize_lem 0xbfff_f000 0xbfff_e000 77 78 8 unready refl (omega arith) (omega arith) refl

abbrev only_restart : SigSet
only_restart s = s == sig_restart

abbrev newborn : State
newborn = with_process (
    set_desc 16
      (record (fresh_process.desc 16) {
        p_initial_fn = 50;
        p_initial_fn_arg = 3;
        p_initial_mask = only_restart;
      })
      fresh_process)

newborn-IsNew : IsNew (thread 16 newborn.memory) false 16 50 3 only_restart
newborn-IsNew = record {
  p_pid = refl;
  p_detached = refl;
  p_terminated = refl;
  p_exited = refl;
  p_joining = refl;
  p_nextwaiting = refl;
  p_spinlock = refl;
  p_canceled = refl;
  p_initial_fn = refl;
  p_initial_fn_arg = refl;
  p_initial_mask = refl;
  p_specific = λ key. refl;
}

-- The function returns its argument.
abbrev echo : ℕ → ℕ → M State ℕ
echo f a s = done a s

abbrev no_finish : Ptr → Process → Process
no_finish self p = p

start_thread-inherits_example :
    IsKept (before_fn 16 16 newborn)
    × ((sig : ℕ) → (before_fn 16 16 newborn).mask sig ≡ only_restart sig)
    × (thread 16 (before_fn 16 16 newborn).memory ≡ thread 16 newborn.memory)
    × (start_thread echo no_finish 16 16 newborn
        ≡ on_process (exit_thread no_finish 16 3) (before_fn 16 16 newborn))
start_thread-inherits_example =
    start_thread-inherits echo no_finish 16 false 16 50 3 3 only_restart newborn
      (before_fn 16 16 newborn) newborn-IsNew refl refl refl refl refl
