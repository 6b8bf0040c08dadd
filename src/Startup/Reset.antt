-- ===== src/Startup/Reset.antt =====
-- pthread.c: the reset after fork, the handler of the RESTART signal, and the start of the manager.
use read_linuxthreads.Prelude.{ℕ, ◌+◌, ◌≡◌, ◌≢◌, refl, true, false, none, some, [], ◌∷◌, arith}
use read_linuxthreads.Prelude.Int.{pos, negsuc, ltb_ℤ}
use read_linuxthreads.Memory.{null, SigSet, Process, eagain}
use read_linuxthreads.Run.{done}
use read_linuxthreads.Ring.{insert_live}
use read_linuxthreads.Ring.Laws.{IsRing, nexts, prevs, insert_live-alone}
use read_linuxthreads.Startup.{
  State, StartAnswers, manager_stack_size, signalled, children_terminated, initialize_manager,
  start_manager, create, exit_process, sighandler, reset_main_thread,
}

-- After the reset the thread is the main thread, linked to itself, and there is no manager, so that
-- the exit of the process asks for nothing. The back link is stale, but the first thread that is then
-- inserted makes a proper ring of the two.
pub reset-IsRing :
    (pid self th code : ℕ) (s : State)
    → th ≢ self
    → let t = reset_main_thread pid self s in
      (t.process.main_thread ≡ self)
      × ((t.process.desc self).p_pid ≡ pid)
      × (exit_process code self t ≡ done tt t)
      × (prevs t.process self ≡ prevs s.process self)
      × IsRing (insert_live self th t.process) self (th ∷ [])
unfolding reset_main_thread exit_process
reset-IsRing pid self th code s ne =
    let p = (reset_main_thread pid self s).process in
    let alone : nexts p self ≡ self = ground arith in
    (refl, ground arith, refl, ground arith, insert_live-alone self th p alone ne)

-- Without a manager, and when malloc, pipe or __clone fails: pthread_create returns EAGAIN, there is
-- still no manager, and no request is written.
create-fails :
    (answers : StartAnswers) (attr fn arg : ℕ) (mask : SigSet) (self b r w : ℕ) (s : State)
    → ltb_ℤ s.process.manager_request (pos 0) ≡ true
    → (answers.block ≡ none
        → (t : State) × (create answers attr fn arg mask self s ≡ done (eagain, none) t)
          × (t.process ≡ s.process))
      × (answers.block ≡ some b
          → answers.pipe ≡ none
          → (t : State) × (create answers attr fn arg mask self s ≡ done (eagain, none) t)
            × (t.process ≡ s.process))
      × (answers.block ≡ some b
          → answers.pipe ≡ some (r, w)
          → answers.clones ≡ false
          → (t : State) × (create answers attr fn arg mask self s ≡ done (eagain, none) t)
            × (t.process ≡ record (s.process) { manager_request = negsuc 0 }))
unfolding create initialize_manager start_manager
create-fails answers attr fn arg mask self b r w s off = (
  λ e. (record s { manager_bos = null }, rw (e, initialize_manager, off) refl, refl),
  λ e f. (
    record s { manager_bos = b; manager_tos = b + manager_stack_size },
    rw (e, initialize_manager, f, initialize_manager, off) refl,
    refl,
  ),
  λ e f g. (
    record s {
      process = record (s.process) { manager_request = negsuc 0 };
      manager_bos = b;
      manager_tos = b + manager_stack_size;
      manager_reader = pos r;
    },
    rw (e, initialize_manager, f, initialize_manager, start_manager, g, off) refl,
    refl,
  ),
)

-- The handler records the signal in the descriptor of a thread, and tells the manager that children
-- have ended.
sighandler-signalled :
    (manager sig self : ℕ) (p : Process)
    → (self ≢ manager
        → sighandler manager sig self p
          ≡ signalled (p.desc self).p_signal_jmp (record (p.desc self) { p_signal = sig }))
      × (sighandler manager sig manager p ≡ children_terminated)
unfolding sighandler
sighandler-signalled manager sig self p = (λ ne. ground arith, ground arith)
