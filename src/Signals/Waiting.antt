-- ===== src/Signals/Waiting.antt =====
-- sigwait: what it waits for, and how it ends.
use read_linuxthreads.Prelude.{
  ℕ, ◌<◌, ◌≡◌, ◌≢◌, refl, true, false, not, ◌&&◌, arith, ◌==◌, ap, if◌then◌else◌,
}
use read_linuxthreads.Memory.{
  Ptr, null, SigSet, success, sig_cancel, cancel_pending, cancel_enable, cancel_disable,
  cancel_deferred, canceled_value,
}
use read_linuxthreads.Run.{done, exits, suspends, Waits, Returns, Exits}
use read_linuxthreads.Cancel.{thread, set_thread, cancel, testcancel, handle_sigcancel}
use read_linuxthreads.Startup.{sighandler}
use read_linuxthreads.Signals.{
  State, Action, Globals, catchable, chosen, installed, sigwait, sigwait_end, arrives, returns,
  jumps, set_memory, from_sighandler, from_sigcancel, pthread_handle_sigcancel, pthread_sighandler,
  restore, waiting_action, set_cancel_jmp, start_locals,
}
use read_linuxthreads.Signals.Handlers.{install_lem, restore-install}

-- From a state with the handlers that sigwait has installed, its end puts back the old ones.
end-restored :
    (nsig : ℕ) (set : SigSet) (garbage : ℕ → Action) (s : State) (j : ℕ)
    → restore nsig 0 set
        (installed nsig set garbage s).0.saved_signals
        (installed nsig set garbage s).1
        j
      ≡ s.actions j
unfolding installed
end-restored nsig set garbage s j = restore-install nsig set (start_locals garbage) s.actions j

-- The signals that are blocked in the wait, and the handler of those that end it.
wait_mask-chosen :
    (nsig : ℕ) (set : SigSet) (garbage : ℕ → Action) (s : State) (j : ℕ)
    → j < nsig
    → (installed nsig set garbage s).0.wait_mask j ≡ (not (set j) && not (j == sig_cancel))
unfolding installed
wait_mask-chosen nsig set garbage s j below =
    ground (arith, install_lem nsig 0 set (start_locals garbage) s.actions j)

handler-chosen :
    (nsig : ℕ) (set : SigSet) (garbage : ℕ → Action) (s : State) (sig : ℕ)
    → chosen set sig ≡ true
    → sig < nsig
    → catchable sig ≡ true
    → (installed nsig set garbage s).1 sig ≡ waiting_action
unfolding installed
handler-chosen nsig set garbage s sig ch lt can =
    ground (arith, install_lem nsig 0 set (start_locals garbage) s.actions sig)

-- The signal is noted in the descriptor.
abbrev pub noted : ℕ → Ptr → State → State
noted sig self t =
    set_memory (set_thread self (record (thread self t.memory) { p_signal = sig }) t.memory) t

pub arrives-noted :
    (call : ℕ → ℕ → State → State) (g : Globals) (sig : ℕ) (self : Ptr) (t : State)
    → (t.actions sig).sa_handler ≡ pthread_sighandler
    → self ≢ g.manager_thread
    → (thread self t.memory).p_signal_jmp ≡ null
    → arrives call g sig self t ≡ returns (noted sig self t)
unfolding arrives sighandler from_sighandler
arrives-noted call g sig self t e ne nojmp = rw (arrives, e) (ground arith)

-- What sigwait leaves at its end.
abbrev ended : (nsig : ℕ) → SigSet → (saved : ℕ → Action) → Ptr → State → State
ended nsig set saved self v =
    let u = set_cancel_jmp self null v in record u { actions = restore nsig 0 set saved u.actions }

end-tested :
    (nsig : ℕ) (set : SigSet) (saved : ℕ → Action) (self : Ptr) (v : State)
    → sigwait_end nsig set saved self v ≡ (
        if cancel_pending (thread self v.memory)
        then exits canceled_value (ended nsig set saved self v)
        else done (success, (thread self v.memory).p_signal) (ended nsig set saved self v))
unfolding sigwait_end testcancel
end-tested nsig set saved self v = ground arith

end-noted :
    (nsig : ℕ) (set : SigSet) (saved : ℕ → Action) (self sig : ℕ) (t : State)
    → cancel_pending (thread self t.memory) ≡ false
    → sigwait_end nsig set saved self (noted sig self t)
      ≡ done (success, sig) (ended nsig set saved self (noted sig self t))
end-noted nsig set saved self sig t calm =
    ground (arith, end-tested nsig set saved self (noted sig self t))

-- The thread as it sleeps.
abbrev asleep : (jmpbuf : Ptr) → Ptr → (ℕ → Action) → State → State
asleep jmpbuf self actions s =
    let t = set_cancel_jmp self jmpbuf (record s { actions = actions }) in
    set_memory (set_thread self (record (thread self t.memory) { p_signal = 0 }) t.memory) t

sigwait-asleep :
    (nsig : ℕ) (set : SigSet) (jmpbuf : Ptr) (garbage : ℕ → Action) (self : Ptr) (s : State)
    → cancel_pending (thread self s.memory) ≡ false
    → sigwait nsig set jmpbuf garbage self s ≡ (
      (installed nsig set garbage s).0,
      suspends (asleep jmpbuf self (installed nsig set garbage s).1 s),
    )
unfolding sigwait
sigwait-asleep nsig set jmpbuf garbage self s quiet = ground arith

-- A thread that is not cancelled calls sigwait: it sleeps, with a mask that blocks all signals but
-- CANCEL and those of the set, and with no signal noted. If a signal of the set arrives, one below NSIG that
-- can be caught and is not CANCEL, in a state where the thread is not cancelled and waits for nothing
-- else, the handler of sigwait runs, and sigwait returns 0 and this signal, with the handlers of all
-- signals as before the call and no buffer for cancellation.
pub sigwait-signal :
    (nsig : ℕ) (set : SigSet) (jmpbuf : Ptr) (garbage : ℕ → Action) (self : Ptr)
    (call : ℕ → ℕ → State → State) (g : Globals) (sig : ℕ) (s t : State)
    → cancel_pending (thread self s.memory) ≡ false
    → self ≢ g.manager_thread
    → t.actions ≡ (installed nsig set garbage s).1
    → (thread self t.memory).p_signal_jmp ≡ null
    → cancel_pending (thread self t.memory) ≡ false
    → chosen set sig ≡ true
    → sig < nsig
    → catchable sig ≡ true
    → let l = (sigwait nsig set jmpbuf garbage self s).0 in
      Waits (sigwait nsig set jmpbuf garbage self s).1 (λ u.
        (u.actions ≡ (installed nsig set garbage s).1)
        × ((thread self u.memory).p_signal ≡ 0)
        × ((thread self u.memory).p_cancel_jmp ≡ jmpbuf))
      × ((j : ℕ) → j < nsig → l.wait_mask j ≡ (not (set j) && not (j == sig_cancel)))
      × ((v : State) × (arrives call g sig self t ≡ returns v)
          × Returns
              (sigwait_end nsig set l.saved_signals self v)
              (success, sig)
              (λ w.
                ((thread self w.memory).p_cancel_jmp ≡ null)
                × ((j : ℕ) → w.actions j ≡ s.actions j)))
sigwait-signal nsig set jmpbuf garbage self call g sig s t quiet ne acts nojmp calm ch lt can =
    let (l, actions) = installed nsig set garbage s in
    let handler : t.actions sig ≡ waiting_action =
      rw acts (handler-chosen nsig set garbage s sig ch lt can) in
    rw (sigwait-asleep nsig set jmpbuf garbage self s quiet) (
      (refl, ground arith, ground arith),
      λ j below. wait_mask-chosen nsig set garbage s j below,
      (
        noted sig self t,
        arrives-noted call g sig self t (ap (λ (a : Action). a.sa_handler) handler) ne nojmp,
        rw (end-noted nsig set l.saved_signals self sig t calm)
            (refl, (ground arith, λ j. rw acts (end-restored nsig set garbage s j))),
      ),
    )

-- The handler of CANCEL is not touched.
handler-sigcancel :
    (nsig : ℕ) (set : SigSet) (garbage : ℕ → Action) (s : State)
    → (installed nsig set garbage s).1 sig_cancel ≡ s.actions sig_cancel
unfolding installed
handler-sigcancel nsig set garbage s =
    ground (arith, install_lem nsig 0 set (start_locals garbage) s.actions sig_cancel)

-- The thread that jumps out of the handler of CANCEL.
abbrev pub jumped : Ptr → State → State
jumped self u = set_cancel_jmp self null u

pub canceled-jumps :
    (call : ℕ → ℕ → State → State) (g : Globals) (self : Ptr) (t : State)
    → (t.actions sig_cancel).sa_handler ≡ pthread_handle_sigcancel
    → g.exit_requested ≡ false
    → let d = thread self t.memory in
      let u = set_memory (cancel self t.memory) t in
      (d.p_cancelstate ≡ cancel_enable
        → d.p_canceltype ≡ cancel_deferred
        → d.p_cancel_jmp ≢ null
        → arrives call g sig_cancel self u ≡ jumps d.p_cancel_jmp (jumped self u))
      × (d.p_cancelstate ≡ cancel_disable → arrives call g sig_cancel self u ≡ returns u)
unfolding arrives handle_sigcancel from_sigcancel cancel
canceled-jumps call g self t handler calm = (
  λ on deferred buf. rw (arrives, handler) (ground arith),
  λ off. rw (arrives, handler) (ground arith),
)

-- A thread is cancelled by another one while it sleeps in sigwait, in a state `t` with the handlers that
-- sigwait has installed, the library's handler for CANCEL among those before, and no exit of the process
-- requested. Enabled and deferred, with the buffer of sigwait noted: the handler jumps there, and
-- sigwait ends in an exit with PTHREAD_CANCELED, with the handlers of all signals as before the call.
-- Disabled: the handler returns, and sigwait returns 0 with the signal that was noted last, though no
-- signal of its set has arrived: 0, as sigwait has left it.
pub sigwait-cancel :
    (nsig : ℕ) (set : SigSet) (garbage : ℕ → Action) (self : Ptr) (call : ℕ → ℕ → State → State)
    (g : Globals) (s t : State)
    → t.actions ≡ (installed nsig set garbage s).1
    → (s.actions sig_cancel).sa_handler ≡ pthread_handle_sigcancel
    → g.exit_requested ≡ false
    → let d = thread self t.memory in
      let l = (installed nsig set garbage s).0 in
      let u = set_memory (cancel self t.memory) t in
      (d.p_cancelstate ≡ cancel_enable
        → d.p_canceltype ≡ cancel_deferred
        → d.p_cancel_jmp ≢ null
        → (v : State) × (arrives call g sig_cancel self u ≡ jumps d.p_cancel_jmp v)
          × Exits
              (sigwait_end nsig set l.saved_signals self v)
              canceled_value
              (λ w. (j : ℕ) → w.actions j ≡ s.actions j))
      × (d.p_cancelstate ≡ cancel_disable
          → d.p_signal ≡ 0
          → (v : State) × (arrives call g sig_cancel self u ≡ returns v)
            × Returns
                (sigwait_end nsig set l.saved_signals self v)
                (success, 0)
                (λ w. (j : ℕ) → w.actions j ≡ s.actions j))
unfolding cancel
sigwait-cancel nsig set garbage self call g s t acts handler calm =
    let l = (installed nsig set garbage s).0 in
    let u = set_memory (cancel self t.memory) t in
    let caught =
      canceled-jumps call g self t (rw (acts, handler-sigcancel nsig set garbage s) handler) calm in
    (
      λ on deferred buf. (
        jumped self u,
        caught.0 on deferred buf,
        (let e : cancel_pending (thread self (jumped self u).memory) ≡ true = ground arith in
            rw (end-tested nsig set l.saved_signals self (jumped self u), e)
              (refl, λ j. rw acts (end-restored nsig set garbage s j))),
      ),
      λ off none_yet. (
        u,
        caught.1 off,
        (let e : cancel_pending (thread self u.memory) ≡ false = ground arith in
            rw (end-tested nsig set l.saved_signals self u, e)
              (ground arith, λ j. rw acts (end-restored nsig set garbage s j))),
      ),
    )
