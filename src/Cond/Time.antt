-- ===== src/Cond/Time.antt =====
-- condvar.c: the time that pthread_cond_timedwait sleeps.
use read_linuxthreads.Prelude.{ℕ, ◌+◌, ◌-◌, ◌*◌, ◌<◌, ◌≤◌, ◌≡◌, none, some, arith}
use native.Mathlib.Decide.{dec_lt}
use read_linuxthreads.Cond.{Timespec, relative_time}

-- For a time whose nanoseconds are below 10^9 and a clock whose microseconds are below 10^6: a time
-- in the past, in nanoseconds, gives ETIMEDOUT, and any other gives the difference to the clock as
-- seconds and nanoseconds, the latter below 10^9.
pub relative_time-difference :
    (sec usec : ℕ) (abstime : Timespec)
    → usec < 1_000_000
    → abstime.tv_nsec < 1_000_000_000
    → let now = sec * 1_000_000_000 + usec * 1000 in
      let till = abstime.tv_sec * 1_000_000_000 + abstime.tv_nsec in
      (till < now → relative_time sec usec abstime ≡ none)
      × (now ≤ till
          → (t : Timespec) × (relative_time sec usec abstime ≡ some t)
            × (t.tv_nsec < 1_000_000_000)
            × (now + (t.tv_sec * 1_000_000_000 + t.tv_nsec) ≡ till))
unfolding relative_time
relative_time-difference sec usec abstime small fits = (
  λ past. ground arith,
  λ future. elim (dec_lt abstime.tv_nsec (usec * 1000)) [
    | yes borrow ↦ (
      record {
        tv_sec = abstime.tv_sec - (sec + 1);
        tv_nsec = abstime.tv_nsec + 1_000_000_000 - usec * 1000;
      },
      ground arith,
      omega arith,
      omega arith,
    )
    | no keep ↦ (
      record { tv_sec = abstime.tv_sec - sec; tv_nsec = abstime.tv_nsec - usec * 1000 },
      ground arith,
      omega arith,
      omega arith,
    )
  ],
)
