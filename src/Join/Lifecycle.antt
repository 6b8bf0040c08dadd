-- ===== src/Join/Lifecycle.antt =====
-- A thread that ends and another that joins or detaches it, in either order.
use read_linuxthreads.Prelude.{
  ℕ, ◌≡◌, ◌≢◌, true, false, List, [], ◌∷◌, ◌++◌, arith, append-nil, ap, not, ◌∙◌, ◌==◌,
  if◌then◌else◌,
}
use read_linuxthreads.Prelude.Int.{pos, ltb_ℤ}
use read_linuxthreads.Memory.{
  Ptr, null, Process, Kill, restart_kill, success, einval, cancel_pending, set_desc,
}
use read_linuxthreads.Run.{Returns, Waits, Exits, Exits-mono, Waits-mono}
use read_linuxthreads.Join.{
  join, join_woken, detach, publish, exit_thread, has_manager, free_request,
}

-- Cleanup handlers and destructors that leave the joining and the cancellation of threads alone.
pub record Keeps (finish : Ptr → Process → Process) : Type 0 where
  pub spinlock :
      (th a : Ptr) (p : Process) → ((finish th p).desc a).p_spinlock ≡ (p.desc a).p_spinlock
  pub joining : (th a : Ptr) (p : Process) → ((finish th p).desc a).p_joining ≡ (p.desc a).p_joining
  pub detached :
      (th a : Ptr) (p : Process) → ((finish th p).desc a).p_detached ≡ (p.desc a).p_detached
  pub pending :
      (th a : Ptr) (p : Process) → cancel_pending ((finish th p).desc a) ≡ cancel_pending (p.desc a)
  pub pid : (th a : Ptr) (p : Process) → ((finish th p).desc a).p_pid ≡ (p.desc a).p_pid
  pub manager : (th : Ptr) (p : Process) → (finish th p).manager_request ≡ p.manager_request
  pub main : (th : Ptr) (p : Process) → (finish th p).main_thread ≡ p.main_thread

-- A thread that runs, is not the main thread, and nobody is in a section on it; the manager runs.
pub record IsRunning (th : Ptr) (p : Process) : Type 0 where
  pub ne_main : th ≢ p.main_thread
  pub manager : has_manager p ≡ true
  pub free : (p.desc th).p_spinlock ≡ 0
  pub terminated : (p.desc th).p_terminated ≡ false

-- The signal that wakes the thread that joins `th`.
abbrev pub wake_joiner : Ptr → Process → List Kill
wake_joiner th p =
    if (p.desc th).p_joining == null then [] else restart_kill (p.desc th).p_joining p ∷ []

-- `q` is what `publish` leaves of `f`.
record Published (th : Ptr) (v : ℕ) (f q : Process) : Type 0 where
  free : (q.desc th).p_spinlock ≡ 0
  terminated : (q.desc th).p_terminated ≡ true
  retval : (q.desc th).p_retval ≡ v
  joining : (q.desc th).p_joining ≡ (f.desc th).p_joining
  detached : (q.desc th).p_detached ≡ (f.desc th).p_detached
  pending : (a : Ptr) → cancel_pending (q.desc a) ≡ cancel_pending (f.desc a)
  manager : q.manager_request ≡ f.manager_request
  requests : q.requests ≡ f.requests
  kills : q.kills ≡ f.kills ++ wake_joiner th f

publish-Published :
    (th : Ptr) (v : ℕ) (f : Process)
    → (f.desc th).p_spinlock ≡ 0
    → th ≢ f.main_thread
    → Exits (publish th v f) v (Published th v f)
unfolding publish
publish-Published th v f free ne = ground (arith, append-nil f.kills)

-- The process when the handlers and destructors of `th` have run.
abbrev pub after_handlers : (Ptr → Process → Process) → Ptr → Process → Process
after_handlers finish th p = finish th (set_desc th (record (p.desc th) { p_canceled = false }) p)

exit-Published :
    (finish : Ptr → Process → Process) (th : Ptr) (v : ℕ) (p : Process)
    → Keeps finish
    → IsRunning th p
    → Exits (exit_thread finish th v p) v (Published th v (after_handlers finish th p))
unfolding exit_thread
exit-Published finish th v p keeps run =
    publish-Published th v f (ground (arith, keeps.spinlock th th started))
      (λ e. run.ne_main (e ∙ keeps.main th started))
  where
    started : Process
    started = set_desc th (record (p.desc th) { p_canceled = false }) p

    f : Process
    f = after_handlers finish th p

-- What the end of a thread keeps of what others have arranged with it.
record Kept (th : Ptr) (p f : Process) : Type 0 where
  joining : (f.desc th).p_joining ≡ (p.desc th).p_joining
  detached : (f.desc th).p_detached ≡ (p.desc th).p_detached
  manager : f.manager_request ≡ p.manager_request
  pid : (a : Ptr) → (f.desc a).p_pid ≡ (p.desc a).p_pid
  pending : (a : Ptr) → a ≢ th → cancel_pending (f.desc a) ≡ cancel_pending (p.desc a)

finished-Kept :
    (finish : Ptr → Process → Process) (th : Ptr) (p : Process)
    → Keeps finish
    → Kept th p (after_handlers finish th p)
finished-Kept finish th p keeps = record {
  joining = ground (arith, keeps.joining th th started);
  detached = ground (arith, keeps.detached th th started);
  manager = keeps.manager th started;
  pid = λ a. ground (arith, keeps.pid th a started);
  pending = λ a ne. ground (arith, keeps.pending th a started);
}
  where
    started : Process
    started = set_desc th (record (p.desc th) { p_canceled = false }) p

-- The thread `th` ends with `v`, is joinable, and nobody has joined it.
record IsJoinable (th : Ptr) (v : ℕ) (q : Process) : Type 0 where
  free : (q.desc th).p_spinlock ≡ 0
  terminated : (q.desc th).p_terminated ≡ true
  retval : (q.desc th).p_retval ≡ v
  joining : (q.desc th).p_joining ≡ null
  detached : (q.desc th).p_detached ≡ false
  manager : has_manager q ≡ true

join_ended :
    (self th : Ptr) (v : ℕ) (q : Process)
    → self ≢ th
    → IsJoinable th v q
    → Returns
        (join self th q)
        (success, v)
        (λ r. r.requests ≡ q.requests ++ free_request self th ∷ [])
unfolding join
join_ended self th v q ne j = ground arith

detach_ended :
    (self th : Ptr) (v : ℕ) (q : Process)
    → IsJoinable th v q
    → Returns (detach self th q) success (λ r.
      ((r.desc th).p_detached ≡ true) × (r.requests ≡ q.requests ++ free_request self th ∷ []))
unfolding detach
detach_ended self th v q j = ground arith

-- A running thread that nobody joins ends, and then another one joins or detaches it; handlers and
-- destructors leave the joining and the cancellation of threads alone. The end sends no signal; join
-- returns the value and detach returns 0, each with one request to free the thread, and detach marks
-- it detached.
pub exit-join :
    (finish : Ptr → Process → Process) (self th : Ptr) (v : ℕ) (p : Process)
    → Keeps finish
    → IsRunning th p
    → self ≢ th
    → (p.desc th).p_detached ≡ false
    → (p.desc th).p_joining ≡ null
    → Exits (exit_thread finish th v p) v (λ q.
      (q.kills ≡ (after_handlers finish th p).kills)
      × Returns
          (join self th q)
          (success, v)
          (λ r. r.requests ≡ q.requests ++ free_request self th ∷ [])
      × Returns (detach self th q) success (λ r.
        ((r.desc th).p_detached ≡ true) × (r.requests ≡ q.requests ++ free_request self th ∷ [])))
exit-join finish self th v p keeps run ne attached alone =
    Exits-mono (exit_thread finish th v p) v (exit-Published finish th v p keeps run) λ q e.
      (kills q e, join_ended self th v q ne (joinable q e), detach_ended self th v q (joinable q e))
  where
    f : Process
    f = after_handlers finish th p

    k : Kept th p f
    k = finished-Kept finish th p keeps

    joinable : (q : Process) → Published th v f q → IsJoinable th v q
    joinable q e = record {
      free = e.free;
      terminated = e.terminated;
      retval = e.retval;
      joining = e.joining ∙ k.joining ∙ alone;
      detached = e.detached ∙ k.detached ∙ attached;
      manager = ap (λ m. not (ltb_ℤ m (pos 0))) (e.manager ∙ k.manager) ∙ run.manager;
    }

    kills : (q : Process) → Published th v f q → q.kills ≡ f.kills
    kills q e = ground (arith, e.kills, k.joining, append-nil f.kills)

-- `q` is `p` with `self` joining `th`.
record Joined (self th : Ptr) (p q : Process) : Type 0 where
  running : IsRunning th q
  joining : (q.desc th).p_joining ≡ self
  pid : (q.desc self).p_pid ≡ (p.desc self).p_pid
  pending : cancel_pending (q.desc self) ≡ cancel_pending (p.desc self)
  requests : q.requests ≡ p.requests
  kills : q.kills ≡ p.kills

join-Joined :
    (self th : Ptr) (p : Process)
    → IsRunning th p
    → self ≢ th
    → (p.desc th).p_detached ≡ false
    → (p.desc th).p_joining ≡ null
    → Waits (join self th p) (Joined self th p)
unfolding join
join-Joined self th p run ne attached alone = ground arith

-- Nobody else can join or detach a thread that is being joined.
others_refused :
    (other self th : Ptr) (q : Process)
    → self ≢ null
    → other ≢ th
    → (q.desc th).p_spinlock ≡ 0
    → (q.desc th).p_joining ≡ self
    → Returns (join other th q) (einval, 0) (λ r. r.requests ≡ q.requests)
      × ((q.desc th).p_detached ≡ false
          → Returns
              (detach other th q)
              success
              (λ r. ((r.desc th).p_detached ≡ false) × (r.requests ≡ q.requests)))
unfolding join detach
others_refused other self th q nonnull ne free joining = (ground arith, λ attached. ground arith)

woken_returns :
    (self th : Ptr) (v : ℕ) (r : Process)
    → (r.desc th).p_spinlock ≡ 0
    → (r.desc th).p_retval ≡ v
    → cancel_pending (r.desc self) ≡ false
    → has_manager r ≡ true
    → Returns
        (join_woken self th r)
        (success, v)
        (λ t. t.requests ≡ r.requests ++ free_request self th ∷ [])
unfolding join_woken
woken_returns self th v r free retval calm manager = ground arith

-- What the joined thread leaves when it ends, for the thread that waits.
module _ (self th : Ptr) (v : ℕ) (p q f r : Process) (ne : self ≢ th) (nonnull : self ≢ null)
    (j : Joined self th p q) (k : Kept th q f) (e : Published th v f r) where
  wakes : r.kills ≡ f.kills ++ restart_kill self p ∷ []
  wakes = ground (arith, e.kills, k.joining, j.joining, k.pid self, j.pid)

  quiet : cancel_pending (p.desc self) ≡ false → cancel_pending (r.desc self) ≡ false
  quiet calm = e.pending self ∙ k.pending self ne ∙ j.pending ∙ calm

  alive : has_manager r ≡ true
  alive = ap (λ m. not (ltb_ℤ m (pos 0))) (e.manager ∙ k.manager) ∙ j.running.manager

-- A thread that is not cancelled joins a running thread that is joinable, which then ends; handlers
-- and destructors leave the joining and the cancellation of threads alone. The first one sleeps,
-- with no request sent, and any further join returns EINVAL; the end wakes it by one restart, and it
-- then returns the value, with one request to free the thread.
pub join-exit :
    (finish : Ptr → Process → Process) (self th : Ptr) (v : ℕ) (p : Process)
    → Keeps finish
    → IsRunning th p
    → self ≢ th
    → self ≢ null
    → (p.desc th).p_detached ≡ false
    → (p.desc th).p_joining ≡ null
    → cancel_pending (p.desc self) ≡ false
    → Waits (join self th p) (λ q.
      (q.requests ≡ p.requests)
      × ((other : Ptr)
          → other ≢ th
          → Returns (join other th q) (einval, 0) (λ r. r.requests ≡ q.requests))
      × Exits (exit_thread finish th v q) v (λ r.
        (r.kills ≡ (after_handlers finish th q).kills ++ restart_kill self p ∷ [])
        × Returns
            (join_woken self th r)
            (success, v)
            (λ t. t.requests ≡ r.requests ++ free_request self th ∷ [])))
join-exit finish self th v p keeps run ne nonnull attached alone calm =
    Waits-mono (join self th p) (join-Joined self th p run ne attached alone) λ q j. (
      j.requests,
      λ other o. (others_refused other self th q nonnull o j.running.free j.joining).0,
      Exits-mono (exit_thread finish th v q) v (exit-Published finish th v q keeps j.running) λ r e.
          (
            wakes self th v p q _ r ne nonnull j (finished-Kept finish th q keeps) e,
            woken_returns self th v r e.free e.retval
                (quiet self th v p q _ r ne nonnull j (finished-Kept finish th q keeps) e calm)
                (alive self th v p q _ r ne nonnull j (finished-Kept finish th q keeps) e),
          ),
    )
