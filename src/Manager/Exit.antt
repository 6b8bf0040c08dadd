-- ===== src/Manager/Exit.antt =====
-- The end of the process: the exit of a thread for all, and that of the main thread.
use read_linuxthreads.Prelude.{
  ℕ, ◌<◌, ◌≡◌, refl, sym, ap, subst, ◌∙◌, Bool, true, false, some, List, [], ◌∷◌, ◌++◌, arith, ◌==◌,
  length, erase, Bool-cases, inl, inr,
}
use read_linuxthreads.Memory.{
  Ptr, Process, sig_cancel, sig_restart, restart, restart_kill, kill, Request, req_main_thread_exit,
}
use read_linuxthreads.Ring.{remove_live}
use read_linuxthreads.Ring.Laws.{IsRing}
use read_linuxthreads.Ring.Kept.{
  SameProcess, remove_live-SameProcess, pid-IsBlind, remove_live-blind,
}
use read_linuxthreads.Ring.Walks.{to_all, with_kills, kill_live-all}
use read_linuxthreads.Manager.{
  State, Layout, Answers, continues, manager_exits, check_last, mark_exited, free_thread, exited,
  kill_all_threads, handle_exit, handle_request, then_request, manager_round,
}
use read_linuxthreads.Manager.Threads.{mark_exited-process, mark_exited-IsRing, exited-marks}

-- A thread asks for the exit of the process. With the active threads in a ring, read from this thread
-- as `issuing ∷ xs`, and enough fuel: the code is noted, each of the others is sent one CANCEL signal,
-- in the order of the ring, then the thread one restart, and the manager exits; no descriptor changes.
pub handle_exit-signals :
    (fuel : ℕ) (issuing code : ℕ) (s : State) (xs : List Ptr)
    → IsRing s.process issuing xs
    → length xs < fuel
    → (t : State) × (handle_exit fuel issuing code s ≡ some (manager_exits t))
      × (t.exit_requested ≡ true)
      × (t.exit_code ≡ code)
      × (t.process.kills
          ≡ (s.process.kills ++ to_all s.process.desc sig_cancel xs)
            ++ restart_kill issuing s.process ∷ [])
      × (t.process.desc ≡ s.process.desc)
unfolding handle_exit
handle_exit-signals fuel issuing code s xs ring lt = (
  record s {
    process = restart issuing (with_kills (to_all s.process.desc sig_cancel xs) s.process);
    exit_requested = true;
    exit_code = code;
  },
  rw (kill_live-all fuel issuing sig_cancel issuing s.process xs ring.links ring.distinct.0 lt)
      refl,
  refl,
  refl,
  refl,
  refl,
)

-- The same walk from the main thread, with any signal.
kill_all-signals :
    (fuel sig : ℕ) (p : Process) (xs : List Ptr)
    → IsRing p p.main_thread xs
    → length xs < fuel
    → (kill_all_threads fuel sig false p ≡ some (with_kills (to_all p.desc sig xs) p))
      × (kill_all_threads fuel sig true p
          ≡ some (kill (p.desc p.main_thread).p_pid sig (with_kills (to_all p.desc sig xs) p)))
unfolding kill_all_threads
kill_all-signals fuel sig p xs ring lt =
    let e = kill_live-all fuel p.main_thread sig p.main_thread p xs ring.links ring.distinct.0 lt in
    (rw e refl, rw e refl)

-- The test for the last thread reads whether the ring holds the main thread only.
check_last-alone :
    (s : State)
    → IsRing s.process s.process.main_thread []
    → s.main_thread_exiting ≡ true
    → check_last s ≡ manager_exits (record s { process = restart s.process.main_thread s.process })
unfolding check_last
check_last-alone s ring on =
    let alone : ((s.process.desc s.process.main_thread).p_nextlive == s.process.main_thread)
        ≡ true =
      ground (arith, ring.links) in
    simp (on, alone) refl

check_last-others :
    (s : State) (x : Ptr) (xs : List Ptr)
    → IsRing s.process s.process.main_thread (x ∷ xs)
    → check_last s ≡ continues s
unfolding check_last
check_last-others s x xs ring =
    let others : ((s.process.desc s.process.main_thread).p_nextlive == s.process.main_thread)
        ≡ false =
      ground (arith, ring.links, ring.distinct) in
    elim (Bool-cases s.main_thread_exiting) [
      | inl on ↦ simp (on, others) refl
      | inr off ↦ simp off refl
    ]

mark_exited-exiting :
    (lay : Layout) (th : Ptr) (s : State)
    → (mark_exited lay th s).main_thread_exiting ≡ s.main_thread_exiting
unfolding mark_exited free_thread
mark_exited-exiting lay th s = elim (Bool-cases ((remove_live th s.process).desc th).p_detached) [
  | inl on ↦ elim (Bool-cases (th == lay.initial_thread)) [
    | inl initial ↦ rw (on, initial) refl
    | inr other ↦ rw (on, other) refl
  ]
  | inr off ↦ rw off refl
]

mark_exited-SameProcess :
    (lay : Layout) (th : Ptr) (s : State) → SameProcess s.process (mark_exited lay th s).process
mark_exited-SameProcess lay th s =
    let same = remove_live-SameProcess th s.process in
    rw (mark_exited-process lay th s)
      (record { main = same.main; kills = same.kills; requests = same.requests })

-- The process numbers stay.
mark_exited-pid :
    (lay : Layout) (th a : Ptr) (s : State)
    → ((mark_exited lay th s).process.desc a).p_pid ≡ (s.process.desc a).p_pid
mark_exited-pid lay th a s = rw (mark_exited-process lay th s) (
    ground (
      arith,
      remove_live-blind (λ d. d.p_pid) pid-IsBlind th a s.process,
      remove_live-blind (λ d. d.p_pid) pid-IsBlind th th s.process,
    ))

-- The request of the main thread's pthread_exit in a round of the server loop without other events.
exit_request :
    (fuel : ℕ) (lay : Layout) (answers : Answers) (detached : ℕ → Bool) (s : State)
    → s.terminated_children ≡ false
    → manager_round fuel lay answers detached false []
        (some (record { req_thread = s.process.main_thread; req_kind = req_main_thread_exit }))
        s
      ≡ some (check_last (record s { main_thread_exiting = true }))
unfolding manager_round then_request handle_request
exit_request fuel lay answers detached s quiet = rw quiet refl

-- The main thread calls pthread_exit and the manager reads its request, with no child terminated. If
-- no other thread is active, the main thread is woken and the manager exits. If `th` is the only
-- other one, alone in its process number and with its spinlock free, the manager goes on, and when the process of `th` ends the
-- main thread is sent one restart and the manager exits.
pub main_exit-woken :
    (fuel : ℕ) (lay : Layout) (answers : Answers) (detached : ℕ → Bool) (th pid : ℕ) (s : State)
    → s.terminated_children ≡ false
    → (s.process.desc th).p_pid ≡ pid
    → 1 < fuel
    → (s.process.desc th).p_spinlock ≡ 0
    → let main = s.process.main_thread in
      let on : State = record s { main_thread_exiting = true } in
      let request : Request = record { req_thread = main; req_kind = req_main_thread_exit } in
      let served = manager_round fuel lay answers detached false [] (some request) s in
      (IsRing s.process main []
        → served ≡ some (manager_exits (record on { process = restart main s.process })))
      × (IsRing s.process main (th ∷ [])
          → (served ≡ some (continues on))
            × (t : State) × (exited fuel lay pid on ≡ some (manager_exits t))
            × (t.process.kills ≡ s.process.kills ++ restart_kill main s.process ∷ []))
main_exit-woken fuel lay answers detached th pid s quiet e lt unlocked =
    let main = s.process.main_thread in
    let on : State = record s { main_thread_exiting = true } in
    let request = exit_request fuel lay answers detached s quiet in
    let v : State = mark_exited lay th on in
    let same = mark_exited-SameProcess lay th on in
    (
      λ alone. request ∙ ap some (check_last-alone on alone refl),
      λ ring.
          (let found =
              exited-marks fuel lay pid th on (th ∷ []) ring (omega arith) (ground arith) e
                (λ b m h. ground (arith, m)) unlocked in
            let left : IsRing v.process v.process.main_thread [] =
              subst (λ a. IsRing v.process a []) (sym same.main)
                (subst (λ ys. IsRing v.process main ys) (erase_self th)
                  (mark_exited-IsRing lay th on (th ∷ []) ring (ground arith))) in
            (
              request ∙ ap some (check_last-others on th [] ring),
              record v { process = restart v.process.main_thread v.process },
              found ∙ ap some (check_last-alone v left (mark_exited-exiting lay th on)),
              ap (λ ks. ks ++ restart_kill v.process.main_thread v.process ∷ []) same.kills
                  ∙ ap (λ k. s.process.kills ++ k ∷ [])
                      (ap (λ a. restart_kill a v.process) same.main
                        ∙ ap (λ n. record { pid = n; sig = sig_restart })
                            (mark_exited-pid lay th main on)),
            )),
    )
  where
    erase_self : (a : Ptr) → erase a (a ∷ []) ≡ []
    erase_self a = ground arith
