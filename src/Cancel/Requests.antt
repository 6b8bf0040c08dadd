-- ===== src/Cancel/Requests.antt =====
-- Requests for cancellation: when a thread acts on one.
use read_linuxthreads.Prelude.{◌≡◌, ◌≢◌, false, arith}
use read_linuxthreads.Prelude.Int.{pos}
use read_linuxthreads.Memory.{
  Ptr, null, cancel_enable, cancel_disable, cancel_deferred, cancel_asynchronous, canceled_value,
}
use read_linuxthreads.Run.{done, exits}
use read_linuxthreads.Cancel.{
  State, thread, set_thread, setcancelstate, setcanceltype, cancel, testcancel, handle_sigcancel,
  thread_exits, returns, jumps,
}

-- After pthread_cancel of a thread, with no exit of the process requested. Cancellation disabled:
-- the handler of the signal returns and testcancel goes on; enabling it exits at once if the type is
-- asynchronous. Enabled and asynchronous: the handler exits the thread. Enabled and deferred:
-- testcancel exits; the handler jumps to the cancellation buffer, which it clears, if there is one,
-- and returns otherwise; setting the type to asynchronous exits at once.
pub cancel-handled :
    (th : Ptr) (s : State)
    → let d = thread th s in
      let t = cancel th s in
      (d.p_cancelstate ≡ cancel_disable
        → (handle_sigcancel false 0 th t ≡ returns t)
          × (testcancel th t ≡ done tt t)
          × (d.p_canceltype ≡ cancel_asynchronous
              → setcancelstate th (pos 0) t
                ≡ exits canceled_value
                    (set_thread th (record (thread th t) { p_cancelstate = cancel_enable }) t)))
      × (d.p_cancelstate ≡ cancel_enable
          → d.p_canceltype ≡ cancel_asynchronous
          → handle_sigcancel false 0 th t ≡ thread_exits)
      × (d.p_cancelstate ≡ cancel_enable
          → d.p_canceltype ≡ cancel_deferred
          → (testcancel th t ≡ exits canceled_value t)
            × (d.p_cancel_jmp ≡ null → handle_sigcancel false 0 th t ≡ returns t)
            × (d.p_cancel_jmp ≢ null
                → handle_sigcancel false 0 th t
                  ≡ jumps d.p_cancel_jmp
                      (set_thread th (record (thread th t) { p_cancel_jmp = null }) t))
            × (setcanceltype th (pos 1) t
                ≡ exits canceled_value (
                    set_thread th (record (thread th t) { p_canceltype = cancel_asynchronous }) t)))
unfolding cancel handle_sigcancel testcancel setcancelstate setcanceltype
cancel-handled th s = (
  λ off. (ground arith, ground arith, λ a. ground arith),
  λ on a. ground arith,
  λ on d. (ground arith, λ z. ground arith, λ nz. ground arith, ground arith),
)
