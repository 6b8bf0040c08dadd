-- ===== src/Buffer/System/Tests.antt =====
-- A producer at 16 and a consumer at 24.
use read_linuxthreads.Prelude.{◌≡◌, ap, refl, [], ◌∷◌, arith}
use read_linuxthreads.Prelude.Int.{pos}
use read_linuxthreads.Semaphore.Counting.{wait_count}
use read_linuxthreads.Examples.{fresh_process}
use read_linuxthreads.Buffer.{Prodcons, write_state}
use read_linuxthreads.Buffer.System.{System, Step, Reach, here, later, put_wait, put_store}
use read_linuxthreads.Buffer.System.Invariant.{Pair}
use read_linuxthreads.Buffer.System.Kept.{start, init_lem}
use read_linuxthreads.Buffer.System.Safety.{buffer_moves}

abbrev unset : Prodcons
unset = record {
  buffer = λ n. pos 0;
  readpos = 3;
  writepos = 4;
  sem_read = 0;
  sem_write = 0;
  process = fresh_process;
}

two : Pair 16 24 fresh_process
two = record {
  producer = (ground arith, refl);
  consumer = (ground arith, refl);
  apart = ground arith;
  pids = ground arith;
}

-- The producer has stored 7.
reach_stored : (s : System) × Reach 16 24 (start 8 unset) s × (s.put_in ≡ pos 7 ∷ [])
reach_stored =
    let free =
      wait_count 16 15 (write_state (start 8 unset).b) (ap (λ b. b.sem_write) (init_lem 8 unset))
        refl in
    (_, later (later here (put_wait _ refl (free.0 (omega arith)))) (put_store (pos 7) refl), refl)

buffer_moves_example : (t : System) × Step 16 24 reach_stored.0 t
buffer_moves_example = buffer_moves 8 16 24 unset two {s = reach_stored.0} reach_stored.1
