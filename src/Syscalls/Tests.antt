-- ===== src/Syscalls/Tests.antt =====
-- A thread that reads three bytes.
use read_linuxthreads.Prelude.{◌≡◌, refl, true, false, if◌then◌else◌}
use read_linuxthreads.Prelude.Int.{ℤ, pos}
use read_linuxthreads.Memory.{
  cancel_enable, cancel_deferred, cancel_asynchronous, canceled_value, cancel_pending,
}
use read_linuxthreads.Examples.{fresh_process}
use read_linuxthreads.Run.{done, exits, M}
use read_linuxthreads.Cancel.{
  State, thread, cancel_now, setcanceltype, cancel, handle_sigcancel, thread_exits,
}
use read_linuxthreads.Syscalls.{cancelable}
use read_linuxthreads.Syscalls.Laws.{inside, type_back, cancelable_lem}

abbrev state : State
state = record {
  buffers = λ b. record { routine = 0; arg = 0; canceltype = cancel_deferred; prev = 0 };
  process = fresh_process;
}

abbrev reads_three : M State ℤ
reads_three s = done (pos 3) s

cancelable_lem_example :
    (cancel_pending (thread 8 state) ≡ true
      → cancelable 8 reads_three state ≡ exits canceled_value (inside 8 state))
    × (cancel_pending (thread 8 state) ≡ false
        → (reads_three (inside 8 state) ≡ done (pos 3) (inside 8 state)
            → cancelable 8 reads_three state ≡ (
                if cancel_now (thread 8 (type_back 8 state (inside 8 state)))
                then exits canceled_value (type_back 8 state (inside 8 state))
                else done (pos 3) (type_back 8 state (inside 8 state))))
          × (reads_three (inside 8 state) ≡ exits 9 (inside 8 state)
              → cancelable 8 reads_three state ≡ exits 9 (inside 8 state)))
    × ((thread 8 (inside 8 state)).p_cancelstate ≡ cancel_enable
        → (thread 8 (inside 8 state)).p_canceltype ≡ cancel_asynchronous
        → handle_sigcancel false 0 8 (cancel 8 (inside 8 state)) ≡ thread_exits)
cancelable_lem_example = cancelable_lem 8 9 reads_three (pos 3) state (inside 8 state)

-- It returns 3 with the type as before.
reads : cancelable 8 reads_three state ≡ done (pos 3) (type_back 8 state (inside 8 state))
unfolding cancelable setcanceltype
reads = refl
