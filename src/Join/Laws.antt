-- ===== src/Join/Laws.antt =====
-- The outcome of join and detach on every branch.
use read_linuxthreads.Prelude.{◌≡◌, ◌≢◌, ◌⊎◌, true, arith}
use read_linuxthreads.Memory.{Ptr, null, Process, einval, edeadlk}
use read_linuxthreads.Run.{done, Returns}
use read_linuxthreads.Join.{join}

-- With the descriptor's spinlock free: a thread that joins itself gets EDEADLK; joining a thread
-- that is detached, or being joined, gives EINVAL, sends no signal and no request and leaves all
-- descriptors as they were.
pub join_refused :
    (self th : Ptr) (p : Process)
    → (p.desc th).p_spinlock ≡ 0
    → (th ≡ self → join self th p ≡ done (edeadlk, 0) p)
      × (th ≢ self
          → ((p.desc th).p_detached ≡ true) ⊎ ((p.desc th).p_joining ≢ null)
          → Returns
              (join self th p)
              (einval, 0)
              (λ q.
                (q.requests ≡ p.requests)
                × (q.kills ≡ p.kills)
                × ((a : Ptr) → q.desc a ≡ p.desc a)))
unfolding join
join_refused self th p free = (λ e. ground arith, λ ne bad. ground arith)
