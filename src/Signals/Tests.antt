-- ===== src/Signals/Tests.antt =====
-- A thread that waits for the signals 1 and 5.
use read_linuxthreads.Prelude.{
  ℕ, ◌<◌, ◌≤◌, ◌≡◌, ◌≢◌, refl, false, not, ◌&&◌, ◌||◌, some, none, arith, ◌==◌, if◌then◌else◌,
}
use read_linuxthreads.Memory.{
  null, SigSet, success, einval, sig_restart, sig_cancel, cancel_enable, cancel_disable,
  cancel_deferred, canceled_value,
}
use read_linuxthreads.Examples.{fresh_process}
use read_linuxthreads.Run.{Waits, Returns, Exits}
use read_linuxthreads.Cancel.{thread, cancel}
use read_linuxthreads.Signals.{
  State, Action, Globals, other, pthread_handle_sigcancel, installed, sigwait, sigwait_end, arrives,
  returns, jumps, set_memory, sigmask, sigprocmask, sig_setmask, sig_block, set_cancel_jmp,
}
use read_linuxthreads.Signals.Masks.{IsKept, sigmask-IsKept}
use read_linuxthreads.Signals.Waiting.{sigwait-signal, sigwait-cancel}

abbrev no_action : ℕ → Action
no_action s = record {
  sa_handler = if s == sig_cancel then pthread_handle_sigcancel else other s;
  sa_mask = λ n. false;
  sa_flags = 0;
}

abbrev one_or_five : SigSet
one_or_five s = (s == 1) || (s == 5)

-- RESTART is blocked; other signals have handlers of the program.
abbrev before : State
before = record {
  memory = record {
    buffers = λ b. record { routine = 0; arg = 0; canceltype = cancel_deferred; prev = null };
    process = fresh_process;
  };
  mask = λ s. s == sig_restart;
  actions = no_action;
}

abbrev globals : Globals
globals = record { manager_thread = 400; exit_requested = false; exit_code = 0 }

abbrev ignores : ℕ → ℕ → State → State
ignores f sig s = s

-- The thread 8 in the wait, with its buffer at 700.
abbrev waiting : State
waiting =
    set_cancel_jmp 8 700 (record before { actions = (installed 32 one_or_five no_action before).1 })

before-IsKept : IsKept before
before-IsKept = record { restart_blocked = refl; cancel_open = refl }

sigmask-IsKept_example :
    let (code, old, t) = sigmask sig_block one_or_five before in
    IsKept t
    × (sig_setmask < sig_block → (code ≡ einval) × (old ≡ none) × (t ≡ before))
    × (sig_block ≤ sig_setmask
        → (code ≡ success)
          × (old ≡ some before.mask)
          × (t ≡ record before { mask = t.mask })
          × ((m : SigSet)
              → sigprocmask sig_block one_or_five before.mask ≡ some m
              → (sig : ℕ) → sig ≢ sig_restart
              → sig ≢ sig_cancel
              → t.mask sig ≡ m sig))
sigmask-IsKept_example = sigmask-IsKept sig_block one_or_five before before-IsKept

sigwait-signal_example :
    let l = (sigwait 32 one_or_five 700 no_action 8 before).0 in
    Waits (sigwait 32 one_or_five 700 no_action 8 before).1 (λ u.
      (u.actions ≡ (installed 32 one_or_five no_action before).1)
      × ((thread 8 u.memory).p_signal ≡ 0)
      × ((thread 8 u.memory).p_cancel_jmp ≡ 700))
    × ((j : ℕ) → j < 32 → l.wait_mask j ≡ (not (one_or_five j) && not (j == sig_cancel)))
    × ((v : State) × (arrives ignores globals 5 8 waiting ≡ returns v)
        × Returns
            (sigwait_end 32 one_or_five l.saved_signals 8 v)
            (success, 5)
            (λ w.
              ((thread 8 w.memory).p_cancel_jmp ≡ null)
              × ((j : ℕ) → w.actions j ≡ before.actions j)))
sigwait-signal_example =
    sigwait-signal 32 one_or_five 700 no_action 8 ignores globals 5 before waiting refl
      (omega arith) refl refl refl refl (omega arith) refl

sigwait-cancel_example :
    let d = thread 8 waiting.memory in
    let l = (installed 32 one_or_five no_action before).0 in
    let u = set_memory (cancel 8 waiting.memory) waiting in
    (d.p_cancelstate ≡ cancel_enable
      → d.p_canceltype ≡ cancel_deferred
      → d.p_cancel_jmp ≢ null
      → (v : State) × (arrives ignores globals sig_cancel 8 u ≡ jumps d.p_cancel_jmp v)
        × Exits
            (sigwait_end 32 one_or_five l.saved_signals 8 v)
            canceled_value
            (λ w. (j : ℕ) → w.actions j ≡ before.actions j))
    × (d.p_cancelstate ≡ cancel_disable
        → d.p_signal ≡ 0
        → (v : State) × (arrives ignores globals sig_cancel 8 u ≡ returns v)
          × Returns
              (sigwait_end 32 one_or_five l.saved_signals 8 v)
              (success, 0)
              (λ w. (j : ℕ) → w.actions j ≡ before.actions j))
sigwait-cancel_example =
    sigwait-cancel 32 one_or_five no_action 8 ignores globals before waiting refl refl refl
