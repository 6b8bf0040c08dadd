-- ===== src/Cancel/Tests.antt =====
-- A thread with two cleanup handlers.
use read_linuxthreads.Prelude.{◌≡◌, ◌≢◌, refl, false, [], ◌∷◌, arith, if◌then◌else◌, ◌==◌, ℕ}
use read_linuxthreads.Prelude.Int.{pos}
use read_linuxthreads.Memory.{
  null, canceled_value, cancel_enable, cancel_disable, cancel_deferred, cancel_asynchronous,
  set_desc,
}
use read_linuxthreads.Examples.{fresh_process}
use read_linuxthreads.Run.{done, exits}
use read_linuxthreads.Cancel.{
  State, thread, set_thread, setcancelstate, setcanceltype, cancel, testcancel, cleanup_push,
  handle_sigcancel, thread_exits, returns, jumps,
}
use read_linuxthreads.Cancel.Requests.{cancel-handled}
use read_linuxthreads.Cancel.Cleanup.{IsStack, IsQuiet}

-- The buffer at 200 was pushed last.
abbrev two_handlers : State
two_handlers = record {
  buffers = λ b. record {
    routine = b;
    arg = 7;
    canceltype = cancel_deferred;
    prev = if b == 200 then 100 else null;
  };
  process = set_desc 8 (record (fresh_process.desc 8) { p_cleanup = 200 }) fresh_process;
}

two_handlers-IsStack : IsStack 8 two_handlers (200 ∷ 100 ∷ [])
two_handlers-IsStack = (refl, ground arith, refl, (refl, ground arith, refl, refl))

-- A handler that notes its routine.
abbrev note : ℕ → ℕ → State → State
note f a s = record s { process = record (s.process) { main_thread = f } }

note-IsQuiet : IsQuiet note
note-IsQuiet = record { buffers = λ f a s. refl }

abbrev pushed : State
pushed = cleanup_push 8 300 5 6 two_handlers

cancel-handled_example :
    let d = thread 8 two_handlers in
    let t = cancel 8 two_handlers in
    (d.p_cancelstate ≡ cancel_disable
      → (handle_sigcancel false 0 8 t ≡ returns t)
        × (testcancel 8 t ≡ done tt t)
        × (d.p_canceltype ≡ cancel_asynchronous
            → setcancelstate 8 (pos 0) t
              ≡ exits canceled_value
                  (set_thread 8 (record (thread 8 t) { p_cancelstate = cancel_enable }) t)))
    × (d.p_cancelstate ≡ cancel_enable
        → d.p_canceltype ≡ cancel_asynchronous
        → handle_sigcancel false 0 8 t ≡ thread_exits)
    × (d.p_cancelstate ≡ cancel_enable
        → d.p_canceltype ≡ cancel_deferred
        → (testcancel 8 t ≡ exits canceled_value t)
          × (d.p_cancel_jmp ≡ null → handle_sigcancel false 0 8 t ≡ returns t)
          × (d.p_cancel_jmp ≢ null
              → handle_sigcancel false 0 8 t
                ≡ jumps d.p_cancel_jmp
                    (set_thread 8 (record (thread 8 t) { p_cancel_jmp = null }) t))
          × (setcanceltype 8 (pos 1) t
              ≡ exits canceled_value
                  (set_thread 8 (record (thread 8 t) { p_canceltype = cancel_asynchronous }) t)))
cancel-handled_example = cancel-handled 8 two_handlers
