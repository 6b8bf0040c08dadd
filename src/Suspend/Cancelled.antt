-- ===== src/Suspend/Cancelled.antt =====
-- A thread that is cancelled while it sleeps in suspend_with_cancellation.
use read_linuxthreads.Prelude.{ℕ, ◌≡◌, ◌≢◌, refl, true, false, List, ◌∷◌, arith, ◌==◌, ◌∙◌}
use read_linuxthreads.Memory.{
  Ptr, null, SigSet, sig_restart, sig_cancel, sig_kill, cancel_pending, cancel_enable,
  cancel_deferred,
}
use read_linuxthreads.Cancel.{thread, cancel}
use read_linuxthreads.Signals.{
  State, Globals, pthread_handle_sigcancel, sig_stop, jumps, set_memory, set_cancel_jmp, sigaddset,
  sigdelset, set_mask,
}
use read_linuxthreads.Signals.Masks.{IsKept}
use read_linuxthreads.Signals.Waiting.{jumped, canceled-jumps}
use read_linuxthreads.Suspend.{
  Arrival, woken, left, then_test, suspend_loop, suspend_with_cancellation, reblock,
}

-- The signal of pthread_cancel.
abbrev pub cancellation : Ptr → Arrival
cancellation self = record { sig = sig_cancel; before = cancel self }

-- The thread behind the jump.
abbrev landed : Ptr → State → State
landed self s = jumped self (set_memory (cancel self s.memory) s)

cancel_step :
    (call : ℕ → ℕ → State → State) (g : Globals) (mask : SigSet) (self : Ptr) (more : List Arrival)
    (s : State)
    → (s.actions sig_cancel).sa_handler ≡ pthread_handle_sigcancel
    → g.exit_requested ≡ false
    → mask sig_cancel ≡ false
    → (thread self s.memory).p_cancelstate ≡ cancel_enable
    → (thread self s.memory).p_canceltype ≡ cancel_deferred
    → (thread self s.memory).p_cancel_jmp ≢ null
    → suspend_loop call g mask (cancellation self ∷ more) self s
      ≡ left (jumps (thread self s.memory).p_cancel_jmp (landed self s)) more
unfolding suspend_loop then_test
cancel_step call g mask self more s handler calm passes on deferred ne =
    rw (passes, (canceled-jumps call g self s handler calm).0 on deferred ne, then_test) refl

-- A thread that is not cancelled, with cancellation enabled and deferred, sleeps in
-- suspend_with_cancellation, with RESTART blocked outside, and CANCEL and what cannot be blocked open; the
-- signal of a pthread_cancel by another thread comes first. The thread is woken, to find itself
-- cancelled, with no buffer for cancellation and the mask as before the call.
pub suspend-cancel :
    (call : ℕ → ℕ → State → State) (g : Globals) (jmpbuf self : Ptr) (more : List Arrival)
    (s : State)
    → IsKept s
    → s.mask sig_kill ≡ false
    → s.mask sig_stop ≡ false
    → (s.actions sig_cancel).sa_handler ≡ pthread_handle_sigcancel
    → g.exit_requested ≡ false
    → jmpbuf ≢ null
    → (thread self s.memory).p_canceled ≡ false
    → (thread self s.memory).p_cancelstate ≡ cancel_enable
    → (thread self s.memory).p_canceltype ≡ cancel_deferred
    → (t : State) × (suspend_with_cancellation call g jmpbuf (cancellation self ∷ more) self s
        ≡ woken t more)
      × (cancel_pending (thread self t.memory) ≡ true)
      × ((thread self t.memory).p_cancel_jmp ≡ null)
      × ((sig : ℕ) → t.mask sig ≡ s.mask sig)
unfolding suspend_with_cancellation reblock cancel
suspend-cancel call g jmpbuf self more s kept kill stop handler calm ne not_yet on deferred =
    let mask = sigdelset s.mask sig_restart in
    let s' = set_cancel_jmp self jmpbuf s in
    let quiet_start : cancel_pending (thread self s'.memory) ≡ false = ground arith in
    let passes : mask sig_cancel ≡ false = kept.cancel_open in
    let jumped_to : left (jumps (thread self s'.memory).p_cancel_jmp (landed self s')) more
        ≡ left (jumps jmpbuf (landed self s')) more =
      ground arith in
    let loop =
      cancel_step call g mask self more s' handler calm passes (ground arith) (ground arith)
        (ground arith)
      ∙ jumped_to in
    let here : (jmpbuf == jmpbuf) ≡ true = ground arith in
    (
      set_mask (sigaddset mask sig_restart) (record (landed self s') { mask = mask }),
      rw (quiet_start, loop, reblock, here) refl,
      ground arith,
      ground arith,
      λ sig. ground (arith, kept.restart_blocked),
    )
