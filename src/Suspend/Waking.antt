-- ===== src/Suspend/Waking.antt =====
-- What wakes a thread that sleeps.
use read_linuxthreads.Prelude.{
  ℕ, ◌≡◌, ◌≢◌, refl, true, false, List, [], ◌∷◌, ◌++◌, arith, ◌==◌, Bool-cases, inl, inr, ◌∙◌,
}
use read_linuxthreads.Memory.{Ptr, null, SigSet, success, sig_restart, Process, cancel_pending}
use read_linuxthreads.Cancel
use read_linuxthreads.Cancel.{thread, set_thread, cancel, handle_sigcancel}
use read_linuxthreads.Run.{Returns}
use read_linuxthreads.Join.{join_woken}
use read_linuxthreads.Signals.{
  State, Globals, other, pthread_sighandler, returns, arrives, set_cancel_jmp, sigdelset, Action,
}
use read_linuxthreads.Signals.Waiting.{noted, arrives-noted}
use read_linuxthreads.Suspend.{
  Arrival, woken, arrived, then_test, suspend_loop, suspend, suspend_with_cancellation, reblock,
}

-- Handlers of the program that leave the descriptor of the thread and the table of handlers alone.
pub record IsQuiet (call : ℕ → ℕ → State → State) (self : Ptr) : Type 0 where
  pub descriptor :
      (f sig : ℕ) (s : State) → thread self (call f sig s).memory ≡ thread self s.memory
  pub actions : (f sig : ℕ) (s : State) → (call f sig s).actions ≡ s.actions

-- A signal with a handler of the program, sent by threads that leave the descriptor alone.
pub record IsForeign (self : Ptr) (actions : ℕ → Action) (a : Arrival) : Type 0 where
  pub descriptor : (m : Cancel.State) → thread self (a.before m) ≡ thread self m
  pub fn : ℕ
  pub handler : (actions a.sig).sa_handler ≡ other fn

abbrev pub AllForeign : Ptr → (ℕ → Action) → List Arrival → Type 0
AllForeign self actions [] = Unit
AllForeign self actions (a ∷ behind) = IsForeign self actions a × AllForeign self actions behind

arrives-other :
    (call : ℕ → ℕ → State → State) (g : Globals) (sig f : ℕ) (self : Ptr) (s : State)
    → (s.actions sig).sa_handler ≡ other f
    → arrives call g sig self s ≡ returns (call f sig s)
unfolding arrives
arrives-other call g sig f self s e = rw (arrives, e) refl

-- A foreign signal leaves the thread asleep, with its descriptor and the handlers as before.
foreign_step :
    (call : ℕ → ℕ → State → State) (g : Globals) (mask : SigSet) (self : Ptr) (a : Arrival)
    (more : List Arrival) (s : State)
    → IsQuiet call self
    → IsForeign self s.actions a
    → (thread self s.memory).p_signal ≢ sig_restart
    → (u : State) × (suspend_loop call g mask (a ∷ more) self s
        ≡ suspend_loop call g mask more self u)
      × (thread self u.memory ≡ thread self s.memory)
      × (u.actions ≡ s.actions)
unfolding suspend_loop then_test
foreign_step call g mask self a more s quiet foreign ne = elim (Bool-cases (mask a.sig)) [
  | inl blocked ↦ (arrived a s, rw blocked refl, foreign.descriptor s.memory, refl)
  | inr passes ↦
      (let v = call foreign.fn a.sig (arrived a s) in
        let same : thread self v.memory ≡ thread self s.memory =
          quiet.descriptor foreign.fn a.sig (arrived a s) ∙ foreign.descriptor s.memory in
        let sleeps : ((thread self v.memory).p_signal == sig_restart) ≡ false =
          rw same (ground arith) in
        (
          v,
          rw
              (
                passes,
                arrives-other call g a.sig foreign.fn self (arrived a s) foreign.handler,
                sleeps,
              )
              refl,
          same,
          quiet.actions foreign.fn a.sig (arrived a s),
        ))
]

-- RESTART, sent by a thread that leaves the descriptor alone, wakes the thread.
restart_step :
    (call : ℕ → ℕ → State → State) (g : Globals) (mask : SigSet) (self : Ptr) (r : Arrival)
    (more : List Arrival) (s : State)
    → r.sig ≡ sig_restart
    → ((m : Cancel.State) → thread self (r.before m) ≡ thread self m)
    → (s.actions sig_restart).sa_handler ≡ pthread_sighandler
    → mask sig_restart ≡ false
    → self ≢ g.manager_thread
    → (thread self s.memory).p_signal_jmp ≡ null
    → (t : State) × (suspend_loop call g mask (r ∷ more) self s ≡ woken t more)
      × (thread self t.memory ≡ record (thread self s.memory) { p_signal = sig_restart })
unfolding suspend_loop then_test
restart_step call g mask self r more s is_restart keeps handler passes ne nojmp =
    let same : thread self (arrived r s).memory ≡ thread self s.memory = keeps s.memory in
    let test : mask r.sig ≡ false = rw is_restart passes in
    let noted_at = noted r.sig self (arrived r s) in
    let caught : arrives call g r.sig self (arrived r s) ≡ returns noted_at =
      arrives-noted call g r.sig self (arrived r s) (rw is_restart handler) ne (rw same nojmp) in
    let is_test : ((thread self noted_at.memory).p_signal == sig_restart) ≡ true =
      rw is_restart (ground arith) in
    (noted_at, rw (test, caught, then_test, is_test) refl, ground (arith, same, is_restart))

-- A thread whose last signal was not RESTART sleeps in suspend, with no buffer of pthread_sighandler.
-- The signals `foreign` reach it, whose handlers are the program's, blocked or not, then RESTART, all
-- sent by threads that leave its descriptor alone; the handlers leave the descriptor and the table of
-- handlers alone. It sleeps until RESTART, wakes up then, with the signals behind still to come, and
-- its descriptor is as before but for RESTART as the last signal.
pub suspend-restart :
    (call : ℕ → ℕ → State → State) (g : Globals) (self : Ptr) (foreign : List Arrival) (r : Arrival)
    (more : List Arrival) (s : State)
    → IsQuiet call self
    → AllForeign self s.actions foreign
    → r.sig ≡ sig_restart
    → ((m : Cancel.State) → thread self (r.before m) ≡ thread self m)
    → (s.actions sig_restart).sa_handler ≡ pthread_sighandler
    → self ≢ g.manager_thread
    → (thread self s.memory).p_signal_jmp ≡ null
    → (thread self s.memory).p_signal ≢ sig_restart
    → (t : State) × (suspend call g (foreign ++ r ∷ more) self s ≡ woken t more)
      × (thread self t.memory ≡ record (thread self s.memory) { p_signal = sig_restart })
unfolding suspend
suspend-restart call g self foreign r more s quiet all is_restart keeps handler ne nojmp fresh =
    loop foreign s all handler nojmp fresh
  where
    loop :
        (foreign : List Arrival) (u : State)
        → AllForeign self u.actions foreign
        → (u.actions sig_restart).sa_handler ≡ pthread_sighandler
        → (thread self u.memory).p_signal_jmp ≡ null
        → (thread self u.memory).p_signal ≢ sig_restart
        → (t : State) × (suspend_loop call g
              (sigdelset s.mask sig_restart)
              (foreign ++ r ∷ more)
              self
              u
            ≡ woken t more)
          × (thread self t.memory ≡ record (thread self u.memory) { p_signal = sig_restart })
    loop [] u fs h nj fr =
        restart_step call g (sigdelset s.mask sig_restart) self r more u is_restart keeps h
          (ground arith) ne nj
    loop (a ∷ behind) u fs h nj fr =
        let (v, e, same, acts) =
          foreign_step call g (sigdelset s.mask sig_restart) self a (behind ++ r ∷ more) u quiet
            fs.0 fr in
        let (t, f, d) = loop behind v (rw acts fs.1) (rw acts h) (rw same nj) (rw same fr) in
        (t, e ∙ f, rw (← same) d)

-- A foreign signal that is not blocked ends the loop of a thread whose last signal is RESTART.
stale_step :
    (call : ℕ → ℕ → State → State) (g : Globals) (mask : SigSet) (self : Ptr) (a : Arrival)
    (more : List Arrival) (s : State)
    → IsQuiet call self
    → IsForeign self s.actions a
    → mask a.sig ≡ false
    → (thread self s.memory).p_signal ≡ sig_restart
    → (v : State) × (suspend_loop call g mask (a ∷ more) self s ≡ woken v more)
      × (thread self v.memory ≡ thread self s.memory)
unfolding suspend_loop then_test
stale_step call g mask self a more s quiet foreign passes stale =
    let v = call foreign.fn a.sig (arrived a s) in
    let same : thread self v.memory ≡ thread self s.memory =
      quiet.descriptor foreign.fn a.sig (arrived a s) ∙ foreign.descriptor s.memory in
    let wakes : ((thread self v.memory).p_signal == sig_restart) ≡ true = rw same (ground arith) in
    let caught = arrives-other call g a.sig foreign.fn self (arrived a s) foreign.handler in
    (v, rw (passes, caught, then_test, wakes) refl, same)

-- What pthread_join does when its thread is woken, whether or not the other thread has terminated.
join_woken_early :
    (self th : Ptr) (p : Process)
    → cancel_pending (p.desc self) ≡ false
    → (p.desc th).p_spinlock ≡ 0
    → Returns
        (join_woken self th p)
        (success, (p.desc th).p_retval)
        (λ q. (q.desc th).p_terminated ≡ (p.desc th).p_terminated)
unfolding join_woken
join_woken_early self th p calm free = ground arith

-- A thread that RESTART has woken before, with no other signal noted since: `suspend` does not clear
-- the last signal, so the first signal that is not blocked wakes it, though its handler is the program's
-- and it is not RESTART. So too in suspend_with_cancellation, if the thread is not cancelled; and a
-- thread that sleeps there in pthread_join then returns 0, with whatever the other thread `th` has
-- for its value, terminated or not.
pub suspend_stale :
    (call : ℕ → ℕ → State → State) (g : Globals) (jmpbuf self th : Ptr) (a : Arrival)
    (more : List Arrival) (s : State)
    → IsQuiet call self
    → IsForeign self s.actions a
    → s.mask a.sig ≡ false
    → (thread self s.memory).p_signal ≡ sig_restart
    → cancel_pending (thread self s.memory) ≡ false
    → ((v : State) × (suspend call g (a ∷ more) self s ≡ woken v more)
        × (thread self v.memory ≡ thread self s.memory))
      × ((t : State) × (suspend_with_cancellation call g jmpbuf (a ∷ more) self s ≡ woken t more)
          × ((thread th t.memory).p_spinlock ≡ 0
              → Returns
                  (join_woken self th t.memory.process)
                  (success, (thread th t.memory).p_retval)
                  (λ p. (p.desc th).p_terminated ≡ (thread th t.memory).p_terminated)))
unfolding suspend suspend_with_cancellation reblock
suspend_stale call g jmpbuf self th a more s quiet foreign passes stale calm =
    let mask = sigdelset s.mask sig_restart in
    let s' = set_cancel_jmp self jmpbuf s in
    let test : mask a.sig ≡ false = ground arith in
    let quiet_start : cancel_pending (thread self s'.memory) ≡ false = ground arith in
    let (v, e, same) = stale_step call g mask self a more s quiet foreign test stale in
    let (w, f, kept) = stale_step call g mask self a more s' quiet foreign test (ground arith) in
    let t = set_cancel_jmp self null w in
    (
      (v, e, same),
      (
        t,
        rw (quiet_start, f) refl,
        join_woken_early self th t.memory.process (ground (arith, kept)),
      ),
    )
