-- ===== src/Semaphore/Tests.antt =====
-- The semaphores on concrete threads.
use read_linuxthreads.Prelude.{ℕ, ◌+◌, ◌^◌, ◌<◌, ◌≡◌, refl, true, false, some, [], ◌∷◌, arith}
use read_linuxthreads.Memory.{set_nextwaiting, canceled_value, erange, set_desc}
use read_linuxthreads.Woken.{Woken}
use read_linuxthreads.Examples.{fresh_process}
use read_linuxthreads.Run.{done, exits}
use read_linuxthreads.Semaphore.{
  State, value_max, set_status, set_errno, sem_init, wait_woken, post_loop, sem_getvalue,
}
use read_linuxthreads.Semaphore.Counting.{
  count_status, settled, post_count, post_wraps, post_loop-linear,
}
use read_linuxthreads.Semaphore.Waiters.{IsThread, IsWaiting, post-Woken, cancel-IsWaiting}

-- 24 came last and 16 first.
abbrev two_wait : State
two_wait = record {
  sem_status = 24;
  process = set_nextwaiting 24 16 (
      set_nextwaiting 16 1
        (set_desc 16 (record (fresh_process.desc 16) { p_canceled = true }) fresh_process));
}

two_wait-IsWaiting : IsWaiting two_wait (24 ∷ 16 ∷ [])
two_wait-IsWaiting = record {
  chain = (refl, ground arith, refl, (refl, ground arith, refl, refl));
  threads = ((ground arith, refl), ((ground arith, refl), tt));
}

IsThread-32 : IsThread 32
IsThread-32 = (ground arith, refl)

IsThread-16 : IsThread 16
IsThread-16 = (ground arith, refl)

post-Woken_example :
    (t : State) × (post_loop 2 [] 8 two_wait ≡ some (done true t))
    × (t.sem_status ≡ 3)
    × Woken two_wait.process (24 ∷ 16 ∷ []) t.process
post-Woken_example = post-Woken 2 8 24 (16 ∷ []) two_wait two_wait-IsWaiting (omega arith)

cancel-IsWaiting_example :
    (t : State) × (wait_woken 3 [] 16 two_wait ≡ some (exits canceled_value t))
    × IsWaiting t (24 ∷ [])
cancel-IsWaiting_example =
    cancel-IsWaiting 3 [] 16 (24 ∷ 16 ∷ []) two_wait two_wait-IsWaiting IsThread-16 (omega arith)
      refl

abbrev with_count : ℕ → State
with_count n = record { sem_status = count_status n; process = fresh_process }

post_count_example :
    (2 + 1 < 2 ^ 30
      → post_loop 0 [] 8 (with_count 2)
        ≡ some (done true (set_status (count_status 3) (with_count 2))))
    × (◌≡◌ {A = ℕ} (2 + 1) (2 ^ 30)
        → post_loop 0 [] 8 (with_count 2) ≡ some (done false (set_errno 8 erange (with_count 2))))
post_count_example = post_count 0 8 2 (with_count 2) refl

abbrev full : State
full = set_status 4_294_967_295 (with_count 0)

full-init : sem_init 8 value_max false (with_count 0) ≡ done true full
unfolding sem_init
full-init = ground arith

post_wraps_example :
    (sem_getvalue full ≡ value_max)
    × (u : State) × (post_loop 0 [] 8 full ≡ some (done true u))
    × (sem_getvalue u ≡ 0)
post_wraps_example = post_wraps 0 8 (with_count 0) full full-init

post_loop-linear_example :
    post_loop 0 (count_status 0 ∷ []) 8 (with_count 1)
    ≡ post_loop 0 [] 8 (set_status (settled (count_status 1) (count_status 0 ∷ [])) (with_count 1))
post_loop-linear_example = post_loop-linear 8 0 (count_status 0 ∷ []) (with_count 1)
