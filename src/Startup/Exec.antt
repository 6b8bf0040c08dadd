-- ===== src/Startup/Exec.antt =====
-- pthread.c: the end of all other threads before exec, and the scheduling calls.
mod Tests
use read_linuxthreads.Prelude.{
  ℕ, ◌<◌, ◌≡◌, ◌≢◌, refl, Bool, true, false, some, List, [], ◌∷◌, ◌++◌, arith, length, last,
}
use read_linuxthreads.Prelude.Int.{pos, ltb_ℤ}
use read_linuxthreads.Memory.{
  Ptr, Process, req_process_exit, sig_cancel, restart_kill, write_request, success,
}
use read_linuxthreads.Run.{done, suspends}
use read_linuxthreads.Ring.Laws.{IsRing, nexts, prevs, Links}
use read_linuxthreads.Ring.Walks.{to_all}
use read_linuxthreads.Manager
use read_linuxthreads.Manager.{Layout, Answers, manager_exits, handle_request}
use read_linuxthreads.Manager.Exit.{handle_exit-signals}
use read_linuxthreads.Startup.{
  State, kill_other_threads, kill_other_woken, exit_process, reset_main_thread, Scheduling,
  setschedparam, getschedparam,
}

-- The backward link that closes the ring.
Links-back :
    (nx pv : Ptr → Ptr) (stop a : Ptr) (xs : List Ptr) → Links nx pv stop a xs → pv stop ≡ last a xs
Links-back nx pv stop a [] l = l.1
Links-back nx pv stop a (x ∷ xs) l = Links-back nx pv stop x xs l.2

-- A thread asks for the end of all others while the manager runs; the manager reads the request, with
-- the active threads in a ring, read from this thread as `self ∷ xs`, and enough fuel. The call sleeps.
-- The manager notes the exit of the process, sends one CANCEL signal to each of the others, in the order of the ring,
-- and one restart to the thread, and exits. Woken, the thread is the main thread, without a
-- manager, so that a further exit request asks for nothing; its forward link leads to itself, while its
-- backward link still leads to the last of the others (to itself if there are none).
pub kill_other_threads-alone :
    (fuel : ℕ) (lay : Layout) (answers : Answers) (detached : ℕ → Bool) (pid self code : ℕ)
    (s : State) (m : Manager.State) (xs : List Ptr)
    → ltb_ℤ s.process.manager_request (pos 0) ≡ false
    → m.process
      ≡ write_request (record { req_thread = self; req_kind = req_process_exit 0 }) s.process
    → IsRing m.process self xs
    → length xs < fuel
    → (kill_other_threads pid self s ≡ suspends (record s { process = m.process }))
      × ((u : Manager.State) × (handle_request fuel lay answers detached self (req_process_exit 0) m
            ≡ some (manager_exits u))
          × (u.exit_requested ≡ true)
          × (u.process.kills
              ≡ (m.process.kills ++ to_all m.process.desc sig_cancel xs)
                ++ restart_kill self m.process ∷ [])
          × (let t = kill_other_woken pid self (record s { process = u.process }) in
              (t.process.main_thread ≡ self)
              × (nexts t.process self ≡ self)
              × (prevs t.process self ≡ last self xs)
              × (exit_process code self t ≡ done tt t)))
unfolding kill_other_threads kill_other_woken exit_process reset_main_thread handle_request
kill_other_threads-alone fuel lay answers detached pid self code s m xs runs sent ring lt =
    let (u, h, on, value, kills, kept) = handle_exit-signals fuel self 0 m xs ring lt in
    (
      ground arith,
      (
        u,
        h,
        on,
        kills,
        (
          refl,
          ground arith,
          ground
              (arith, kept, Links-back (nexts m.process) (prevs m.process) self self xs ring.links),
          refl,
        ),
      ),
    )

-- What setschedparam stores for a process that exists, getschedparam reads; any other process keeps
-- its scheduling.
getschedparam-set :
    (th policy param : ℕ) (p : Process) (sched : Scheduling) (old : ℕ × ℕ)
    → sched (p.desc th).p_pid ≡ some old
    → let (code, new) = setschedparam success th policy param p sched in
      (code ≡ success)
      × (getschedparam th p new ≡ (success, some (policy, param)))
      × ((pid : ℕ) → pid ≢ (p.desc th).p_pid → new pid ≡ sched pid)
unfolding setschedparam getschedparam
getschedparam-set th policy param p sched old e =
    (ground arith, ground arith, λ pid ne. ground arith)
