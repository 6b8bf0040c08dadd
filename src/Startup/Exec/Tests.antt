-- ===== src/Startup/Exec/Tests.antt =====
-- The main thread at 8 ends the thread at 24.
use read_linuxthreads.Prelude.{◌≡◌, refl, true, false, none, some, [], ◌∷◌, ◌++◌, ◌==◌, arith}
use read_linuxthreads.Prelude.Int.{pos}
use read_linuxthreads.Memory.{
  Process, req_process_exit, sig_cancel, restart_kill, write_request, set_desc,
}
use read_linuxthreads.Examples.{fresh_process, thread_at}
use read_linuxthreads.Run.{done, suspends}
use read_linuxthreads.Ring.Laws.{IsRing, nexts, prevs}
use read_linuxthreads.Ring.Walks.{to_all}
use read_linuxthreads.Manager
use read_linuxthreads.Manager.{Layout, Answers, manager_exits, handle_request}
use read_linuxthreads.Startup.{State, kill_other_threads, kill_other_woken, exit_process}
use read_linuxthreads.Startup.Exec.{kill_other_threads-alone}

abbrev two : Process
two =
    set_desc 24 (record (thread_at 24) { p_nextlive = 8; p_prevlive = 8 })
      (set_desc 8 (record (thread_at 8) { p_nextlive = 24; p_prevlive = 24 }) fresh_process)

abbrev caller : State
caller = record { process = two; manager_bos = 1000; manager_tos = 9160; manager_reader = pos 4 }

abbrev asked : Process
asked = write_request (record { req_thread = 8; req_kind = req_process_exit 0 }) two

abbrev manager : Manager.State
manager = record {
  process = asked;
  segments = record { used = λ i. i == 0; num = 128 };
  terminated_children = false;
  main_thread_exiting = false;
  exit_requested = false;
  exit_code = 0;
}

abbrev lay : Layout
lay = record { start = 8_388_608; size = 256; initial_thread = 8 }

abbrev answers : Answers
answers = record { grants = λ n. true; maps = λ k. true; clone = none }

ring : IsRing asked 8 (24 ∷ [])
ring = record { links = (refl, refl, (refl, refl)); distinct = (refl, (refl, tt)) }

kill_other_threads-alone_example :
    (kill_other_threads 99 8 caller ≡ suspends (record caller { process = manager.process }))
    × ((u : Manager.State) × (handle_request 2 lay answers
            (λ a. false)
            8
            (req_process_exit 0)
            manager
          ≡ some (manager_exits u))
        × (u.exit_requested ≡ true)
        × (u.process.kills
            ≡ (manager.process.kills ++ to_all manager.process.desc sig_cancel (24 ∷ []))
              ++ restart_kill 8 manager.process ∷ [])
        × (let t = kill_other_woken 99 8 (record caller { process = u.process }) in
            (t.process.main_thread ≡ 8)
            × (nexts t.process 8 ≡ 8)
            × (prevs t.process 8 ≡ 24)
            × (exit_process 3 8 t ≡ done tt t)))
kill_other_threads-alone_example =
    kill_other_threads-alone 2 lay answers (λ a. false) 99 8 3 caller manager (24 ∷ []) refl refl
      ring (omega arith)
