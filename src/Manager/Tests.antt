-- ===== src/Manager/Tests.antt =====
-- The manager with one active thread besides the main thread, in segment 0.
use read_linuxthreads.Prelude.{
  ℕ, ◌≡◌, ◌≢◌, refl, true, false, some, [], ◌∷◌, ◌++◌, ◌==◌, update, arith,
}
use read_linuxthreads.Memory.{
  Ptr, Process, Request, req_main_thread_exit, restart, restart_kill, set_desc,
}
use read_linuxthreads.Examples.{fresh_process, thread_at}
use read_linuxthreads.Run.{done}
use read_linuxthreads.Ring.Laws.{IsRing}
use read_linuxthreads.Stacks.{
  Segments, thread_seg, seg_thread, found, find_segment, try_segment, reserve,
}
use read_linuxthreads.Manager.{
  State, Layout, Answers, continues, manager_exits, check_last, exited, handle_free, manager_round,
}
use read_linuxthreads.Manager.Creation.{IsManaged, IsLaidOut}
use read_linuxthreads.Manager.Threads.{freed_in_either_order}
use read_linuxthreads.Manager.Exit.{main_exit-woken}

-- Four segments below this address.
abbrev lay : Layout
lay = record { start = 8_388_608; size = 256; initial_thread = 8 }

-- The descriptor of segment 0.
abbrev th : Ptr
th = 8_388_352

abbrev two_threads : Process
two_threads =
    set_desc th (record (thread_at th) { p_nextlive = 8; p_prevlive = 8 })
      (set_desc 8 (record (thread_at 8) { p_nextlive = th; p_prevlive = th }) fresh_process)

abbrev state : State
state = record {
  process = two_threads;
  segments = record { used = λ i. i == 0; num = 128 };
  terminated_children = false;
  main_thread_exiting = false;
  exit_requested = false;
  exit_code = 0;
}

ring : IsRing two_threads 8 (th ∷ [])
ring = record { links = (refl, refl, (refl, refl)); distinct = (refl, (refl, tt)) }

-- The segment of the descriptor.
th_seg : seg_thread lay.start lay.size th ≡ 0
unfolding seg_thread
th_seg = refl

th_used : state.segments.used (seg_thread lay.start lay.size th) ≡ true
th_used = ground (arith, th_seg)

freed_in_either_order_example :
    ((u : State) × (t : State) × (handle_free lay th state ≡ done tt u)
      × (u.segments.used (seg_thread lay.start lay.size th) ≡ true)
      × (exited 2 lay th u ≡ some (check_last t))
      × (t.segments.used (seg_thread lay.start lay.size th) ≡ false)
      × IsRing t.process 8 [])
    × ((v : State) × (w : State) × (exited 2 lay th state ≡ some (check_last v))
        × (v.segments.used (seg_thread lay.start lay.size th) ≡ true)
        × IsRing v.process 8 []
        × (handle_free lay th v ≡ done tt w)
        × (w.segments.used (seg_thread lay.start lay.size th) ≡ false))
freed_in_either_order_example =
    freed_in_either_order 2 lay th th state (th ∷ []) ring (omega arith) refl refl
      (λ b m h. ground arith) (ground arith) refl refl refl th_used

abbrev answers : Answers
answers = record { grants = λ n. true; maps = λ k. k == 1; clone = some 77 }

managed : IsManaged lay state (th ∷ [])
managed = record {
  ring = ring;
  placed = λ a i. ground (arith, th_seg, i);
  bounded = λ i ge. ground arith;
}

not_8 : (k : ℕ) → k ≡ 1 → thread_seg lay.start lay.size k ≢ 8
unfolding thread_seg
not_8 k e = ground (arith, e)

laid_out : IsLaidOut lay answers.maps 8
laid_out = record {
  some_size = omega arith;
  fits = omega arith;
  above = λ k m. ground arith;
  apart = λ k m. not_8 k (ground (arith, m));
}

abbrev in_segment_1 : Segments
in_segment_1 = record { used = update (λ i. i == 0) 1 true; num = 128 }

finds : find_segment 2 answers.grants answers.maps 0 state.segments ≡ some (found 1 in_segment_1)
unfolding find_segment try_segment reserve
finds = refl

main_exit-woken_example :
    let on : State = record state { main_thread_exiting = true } in
    let request : Request = record { req_thread = 8; req_kind = req_main_thread_exit } in
    let served = manager_round 2 lay answers (λ a. false) false [] (some request) state in
    (IsRing two_threads 8 []
      → served ≡ some (manager_exits (record on { process = restart 8 two_threads })))
    × (IsRing two_threads 8 (th ∷ [])
        → (served ≡ some (continues on))
          × (t : State) × (exited 2 lay th on ≡ some (manager_exits t))
          × (t.process.kills ≡ two_threads.kills ++ restart_kill 8 two_threads ∷ []))
main_exit-woken_example =
    main_exit-woken 2 lay answers (λ a. false) th th state refl refl (omega arith) refl
