-- ===== src/Join/Tests.antt =====
-- The thread at 16 ends, and the thread at 24 joins it.
use read_linuxthreads.Prelude.{◌≡◌, ◌≢◌, refl, [], ◌∷◌, ◌++◌, arith}
use read_linuxthreads.Memory.{Ptr, Process, success, einval, restart_kill}
use read_linuxthreads.Examples.{fresh_process}
use read_linuxthreads.Run.{Returns, Waits, Exits}
use read_linuxthreads.Join.{join, join_woken, exit_thread, free_request}
use read_linuxthreads.Join.Lifecycle.{Keeps, IsRunning, after_handlers, join-exit}

abbrev no_handlers : Ptr → Process → Process
no_handlers th p = p

no_handlers-Keeps : Keeps no_handlers
no_handlers-Keeps = record {
  spinlock = λ th a p. refl;
  joining = λ th a p. refl;
  detached = λ th a p. refl;
  pending = λ th a p. refl;
  pid = λ th a p. refl;
  manager = λ th p. refl;
  main = λ th p. refl;
}

running : IsRunning 16 fresh_process
running = record { ne_main = ground arith; manager = refl; free = refl; terminated = refl }

join-exit_example : Waits (join 24 16 fresh_process) (λ q.
    (q.requests ≡ fresh_process.requests)
    × ((other : Ptr)
        → other ≢ 16
        → Returns (join other 16 q) (einval, 0) (λ r. r.requests ≡ q.requests))
    × Exits (exit_thread no_handlers 16 42 q) 42 (λ r.
      (r.kills ≡ (after_handlers no_handlers 16 q).kills ++ restart_kill 24 fresh_process ∷ [])
      × Returns
          (join_woken 24 16 r)
          (success, 42)
          (λ t. t.requests ≡ r.requests ++ free_request 24 16 ∷ [])))
join-exit_example =
    join-exit no_handlers 24 16 42 fresh_process no_handlers-Keeps running (ground arith)
      (ground arith) refl refl refl
