-- ===== src/Semaphore/System/Tests.antt =====
-- The thread 16 waits for a semaphore with the count 0, and the thread 24 posts.
use read_linuxthreads.Prelude.{◌+◌, ◌≤◌, ◌≡◌, ◌⊎◌, refl, true, false, List, [], ◌∷◌, arith}
use read_linuxthreads.Memory.{Ptr}
use read_linuxthreads.Examples.{fresh_process}
use read_linuxthreads.Semaphore.{wait_loop, wait_won, compare_and_swap, sem_getvalue}
use read_linuxthreads.Semaphore.System.{
  Alone, System, outside, trying, sleeping, in_post, Step, begin, sleep, swap, Reach, here, later,
}
use read_linuxthreads.Semaphore.System.Invariant.{Threads}
use read_linuxthreads.Semaphore.System.Kept.{start}
use read_linuxthreads.Semaphore.System.Safety.{takes_balance, sleeper_reached}

abbrev two : List Ptr
two = 16 ∷ 24 ∷ []

threads : Threads two fresh_process
threads = record { aligned = λ i m. ground arith; pids = λ i j m n e. e }

-- The thread 16 sleeps.
reach_sleeping :
    (s : System) × Reach two (start 0 fresh_process) s
    × (s.pc 16 ≡ sleeping)
    × (s.pending 16 ≡ false)
    × (s.pc 24 ≡ outside)
unfolding wait_loop wait_won compare_and_swap
reach_sleeping =
    (_, later (later here (begin 16 refl refl)) (sleep 16 _ refl refl refl), refl, refl, refl)

-- The thread 24 has raised the count, and woken nobody yet.
reach_posting : (s : System) × Reach two (start 0 fresh_process) s
unfolding wait_loop wait_won compare_and_swap
reach_posting = (
  _,
  later (later (later here (begin 16 refl refl)) (sleep 16 _ refl refl refl))
      (swap 24 _ refl refl refl refl),
)

takes_balance_example :
    (sem_getvalue reach_posting.0.state + reach_posting.0.takes ≡ 0 + reach_posting.0.posts)
    × (reach_posting.0.takes ≤ 0 + reach_posting.0.posts)
takes_balance_example =
    takes_balance 0 two fresh_process threads (omega arith) {s = reach_posting.0} reach_posting.1

sleeper_reached_example :
    (j : Ptr) × ((in_post (reach_sleeping.0.pc j) ≡ true)
      ⊎ ((j ≡ 24) × (sem_getvalue reach_sleeping.0.state ≡ 0)))
    × (t : System) × Alone two j reach_sleeping.0 t
    × (t.pending 16 ≡ true)
    × (u : System) × Step two t u
    × (u.pc 16 ≡ trying)
sleeper_reached_example =
    sleeper_reached 0 two fresh_process threads (omega arith) {s = reach_sleeping.0}
      reach_sleeping.1 24 16 refl reach_sleeping.4 reach_sleeping.2 reach_sleeping.3
