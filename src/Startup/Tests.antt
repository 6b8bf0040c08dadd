-- ===== src/Startup/Tests.antt =====
-- The main thread at 8 asks for a thread, forks, and looks for its descriptor.
use read_linuxthreads.Prelude.{
  ℕ, ◌≡◌, ◌≢◌, refl, true, false, none, some, [], ◌∷◌, ◌++◌, ◌==◌, update, arith,
}
use read_linuxthreads.Prelude.Int.{pos}
use read_linuxthreads.Memory.{success, eagain, req_create, write_request, restart_kill}
use read_linuxthreads.Examples.{fresh_process}
use read_linuxthreads.Run.{done, suspends}
use read_linuxthreads.Ring.{insert_live}
use read_linuxthreads.Ring.Laws.{IsRing, prevs}
use read_linuxthreads.Stacks.{Segments, thread_seg, found, find_segment, try_segment, reserve}
use read_linuxthreads.Manager
use read_linuxthreads.Manager.{Layout, Answers, continues, handle_request}
use read_linuxthreads.Manager.Creation.{IsManaged, IsLaidOut, IsNew}
use read_linuxthreads.Startup.{
  State, Places, StartAnswers, create, create_woken, exit_process, reset_main_thread,
}
use read_linuxthreads.Startup.Requests.{create-answered}
use read_linuxthreads.Startup.Reset.{reset-IsRing}

abbrev places : Places
places = record { initial_thread = 8; manager_thread = 16; initial_bos = 8_388_608; size = 256 }

abbrev client : State
client = record {
  process = fresh_process;
  manager_bos = 1000;
  manager_tos = 9160;
  manager_reader = pos 4;
}

reset-IsRing_example :
    let t = reset_main_thread 99 8 client in
    (t.process.main_thread ≡ 8)
    × ((t.process.desc 8).p_pid ≡ 99)
    × (exit_process 3 8 t ≡ done tt t)
    × (prevs t.process 8 ≡ prevs fresh_process 8)
    × IsRing (insert_live 8 24 t.process) 8 (24 ∷ [])
reset-IsRing_example = reset-IsRing 99 8 24 3 client (ground arith)

abbrev lay : Layout
lay = record { start = 8_388_608; size = 256; initial_thread = 8 }

abbrev answers : Answers
answers = record { grants = λ n. true; maps = λ k. k == 1; clone = some 77 }

-- Only the main thread runs, linked to itself.
abbrev manager : Manager.State
manager = record {
  process = record fresh_process {
    desc =
        update fresh_process.desc 8
          (record (fresh_process.desc 8) { p_nextlive = 8; p_prevlive = 8 });
  };
  segments = record { used = λ i. i == 0; num = 128 };
  terminated_children = false;
  main_thread_exiting = false;
  exit_requested = false;
  exit_code = 0;
}

managed : IsManaged lay manager []
managed = record {
  ring = record { links = (refl, refl); distinct = ground arith };
  placed = λ a i. cc;
  bounded = λ i ge. ground arith;
}

not_8 : (k : ℕ) → k ≡ 1 → thread_seg lay.start lay.size k ≢ 8
unfolding thread_seg
not_8 k e = ground (arith, e)

laid_out : IsLaidOut lay answers.maps 8
laid_out = record {
  some_size = omega arith;
  fits = omega arith;
  above = λ k m. ground arith;
  apart = λ k m. not_8 k (ground (arith, m));
}

abbrev in_segment_1 : Segments
in_segment_1 = record { used = update (λ i. i == 0) 1 true; num = 128 }

finds : find_segment 2 answers.grants answers.maps 0 manager.segments ≡ some (found 1 in_segment_1)
unfolding find_segment try_segment reserve
finds = refl

abbrev start : StartAnswers
start = record { block = none; pipe = none; clones = false }

create-answered_example :
    (create start 0 5 6 (λ n. false) 8 client
      ≡ suspends (record client {
        process =
            write_request
              (record { req_thread = 8; req_kind = req_create 0 5 6 (λ n. false) })
              fresh_process;
      }))
    × (answers.clone ≡ some 77
        → (u : Manager.State) × (handle_request 2 lay answers
              (λ a. true)
              8
              (req_create 0 5 6 (λ n. false))
              manager
            ≡ some (continues u))
          × (u.process.kills ≡ manager.process.kills ++ restart_kill 8 manager.process ∷ [])
          × (create_woken 8 u.process ≡ (success, some (thread_seg lay.start lay.size 1)))
          × IsManaged lay u (thread_seg lay.start lay.size 1 ∷ [])
          × IsNew (u.process.desc (thread_seg lay.start lay.size 1)) true 77 5 6 (λ n. false))
    × (answers.clone ≡ none
        → (u : Manager.State) × (handle_request 2 lay answers
              (λ a. true)
              8
              (req_create 0 5 6 (λ n. false))
              manager
            ≡ some (continues u))
          × (u.process.kills ≡ manager.process.kills ++ restart_kill 8 manager.process ∷ [])
          × (create_woken 8 u.process ≡ (eagain, none))
          × IsManaged lay u [])
create-answered_example =
    create-answered 2 start lay answers (λ a. true) 8 0 5 6 (λ n. false) client manager [] 1 77
      in_segment_1 refl managed laid_out finds refl
