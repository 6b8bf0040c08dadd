-- ===== src/Suspend/Tests.antt =====
-- A sleeping thread and the signals 14, RESTART and CANCEL.
use read_linuxthreads.Prelude.{ℕ, ◌≡◌, refl, true, false, [], ◌∷◌, ◌++◌, arith, ◌==◌, if◌then◌else◌}
use read_linuxthreads.Memory.{
  null, success, sig_restart, sig_cancel, cancel_pending, cancel_deferred, set_desc,
}
use read_linuxthreads.Examples.{fresh_process}
use read_linuxthreads.Run.{Returns}
use read_linuxthreads.Join.{join_woken}
use read_linuxthreads.Cancel.{thread}
use read_linuxthreads.Signals.{
  State, Action, Globals, other, pthread_handle_sigcancel, pthread_sighandler,
}
use read_linuxthreads.Signals.Masks.{IsKept}
use read_linuxthreads.Suspend.{Arrival, woken, suspend, suspend_with_cancellation}
use read_linuxthreads.Suspend.Waking.{IsQuiet, IsForeign, suspend-restart, suspend_stale}
use read_linuxthreads.Suspend.Cancelled.{cancellation, suspend-cancel}

abbrev table : ℕ → Action
table s = record {
  sa_handler =
      if s == sig_restart
      then pthread_sighandler
      else if s == sig_cancel
      then pthread_handle_sigcancel
      else other s;
  sa_mask = λ n. false;
  sa_flags = 0;
}

-- The thread 8 with the last signal `last`.
abbrev sleeper : (last : ℕ) → State
sleeper last = record {
  memory = record {
    buffers = λ b. record { routine = 0; arg = 0; canceltype = cancel_deferred; prev = null };
    process = set_desc 8 (record (fresh_process.desc 8) { p_signal = last }) fresh_process;
  };
  mask = λ s. s == sig_restart;
  actions = table;
}

abbrev globals : Globals
globals = record { manager_thread = 400; exit_requested = false; exit_code = 0 }

abbrev ignores : ℕ → ℕ → State → State
ignores f sig s = s

abbrev sent : ℕ → Arrival
sent sig = record { sig = sig; before = λ m. m }

ignores-IsQuiet : IsQuiet ignores 8
ignores-IsQuiet = record { descriptor = λ f sig s. refl; actions = λ f sig s. refl }

alarm-IsForeign : IsForeign 8 table (sent 14)
alarm-IsForeign = record { descriptor = λ m. refl; fn = 14; handler = refl }

suspend-restart_example :
    (t : State) × (suspend ignores globals ((sent 14 ∷ []) ++ sent sig_restart ∷ []) 8 (sleeper 0)
      ≡ woken t [])
    × (thread 8 t.memory ≡ record (thread 8 (sleeper 0).memory) { p_signal = sig_restart })
suspend-restart_example =
    suspend-restart ignores globals 8 (sent 14 ∷ []) (sent sig_restart) [] (sleeper 0)
      ignores-IsQuiet (alarm-IsForeign, tt) refl (λ m. refl) refl (omega arith) refl (omega arith)

suspend_stale_example :
    ((v : State) × (suspend ignores globals (sent 14 ∷ []) 8 (sleeper sig_restart) ≡ woken v [])
      × (thread 8 v.memory ≡ thread 8 (sleeper sig_restart).memory))
    × ((t : State) × (suspend_with_cancellation ignores globals 700
            (sent 14 ∷ [])
            8
            (sleeper sig_restart)
          ≡ woken t [])
        × ((thread 16 t.memory).p_spinlock ≡ 0
            → Returns
                (join_woken 8 16 t.memory.process)
                (success, (thread 16 t.memory).p_retval)
                (λ p. (p.desc 16).p_terminated ≡ (thread 16 t.memory).p_terminated)))
suspend_stale_example =
    suspend_stale ignores globals 700 8 16 (sent 14) [] (sleeper sig_restart) ignores-IsQuiet
      alarm-IsForeign refl refl refl

sleeper-IsKept : IsKept (sleeper 0)
sleeper-IsKept = record { restart_blocked = refl; cancel_open = refl }

suspend-cancel_example :
    (t : State) × (suspend_with_cancellation ignores globals 700 (cancellation 8 ∷ []) 8 (sleeper 0)
      ≡ woken t [])
    × (cancel_pending (thread 8 t.memory) ≡ true)
    × ((thread 8 t.memory).p_cancel_jmp ≡ null)
    × ((sig : ℕ) → t.mask sig ≡ (sleeper 0).mask sig)
suspend-cancel_example =
    suspend-cancel ignores globals 700 8 [] (sleeper 0) sleeper-IsKept refl refl refl refl
      (omega arith) refl refl refl
