-- ===== src/Startup/Requests.antt =====
-- pthread.c against the manager, and the descriptor that a stack address leads to.
use read_linuxthreads.Prelude.{
  ℕ, ◌-◌, ◌*◌, ◌/◌, ◌<◌, ◌≤◌, ◌≡◌, refl, Bool, false, ◌&&◌, none, some, List, [], ◌∷◌, ◌++◌, arith,
  ◌∈◌, leb, ltb,
}
use read_linuxthreads.Prelude.Int.{pos, ltb_ℤ}
use read_linuxthreads.Memory.{
  Ptr, SigSet, Process, success, eagain, req_create, write_request, restart_kill,
}
use read_linuxthreads.Run.{suspends}
use read_linuxthreads.Stacks.{Segments, stack_size, thread_seg, found, find_segment}
use read_linuxthreads.Manager
use read_linuxthreads.Manager.{Layout, Answers, continues, handle_request}
use read_linuxthreads.Manager.Creation.{IsManaged, IsLaidOut, IsNew}
use read_linuxthreads.Manager.Requests.{create_request}
use read_linuxthreads.Startup.{State, Places, StartAnswers, thread_self, ask, create, create_woken}

-- An address in the stack segment `k` below a start address that is a multiple of the segment size,
-- outside the stack of the manager: thread_self is the descriptor at the top of that segment.
pub thread_self-thread_seg :
    (places : Places) (bos tos n k sp : ℕ)
    → places.initial_bos ≡ n * stack_size
    → k < n
    → (n - k - 1) * stack_size ≤ sp
    → sp < (n - k) * stack_size
    → (leb bos sp && ltb sp tos) ≡ false
    → thread_self places bos tos sp ≡ thread_seg places.initial_bos places.size k
unfolding thread_self thread_seg
thread_self-thread_seg places bos tos n k sp aligned lt lo hi outside =
    let below : leb places.initial_bos sp ≡ false = ground arith in
    let seg : sp / stack_size ≡ n - k - 1 = omega arith in rw (below, outside, seg) (omega arith)

-- What the thread reads when it wakes up.
woken-success :
    (self th : Ptr) (p : Process)
    → (p.desc self).p_retcode ≡ success
    → (p.desc self).p_retval ≡ th
    → create_woken self p ≡ (success, some th)
unfolding create_woken
woken-success self th p code val = rw (code, create_woken, val) refl

woken-eagain :
    (self : Ptr) (p : Process)
    → (p.desc self).p_retcode ≡ eagain
    → create_woken self p ≡ (eagain, none)
unfolding create_woken
woken-eagain self p code = rw (code, create_woken) refl

-- pthread_create while the manager runs, and the manager's handling of the request when its search
-- finds the segment `k`; the active threads form a ring with the main thread, the caller among them,
-- each but the main thread at the top of a segment in use. The call writes the request and sleeps. The
-- manager sends one restart, to the caller, and no other signal. If __clone succeeds, the caller, behind
-- its sleep, returns 0 and the new thread, which stands in the ring with the detach state,
-- function, argument and mask of the request. If __clone fails, it returns EAGAIN and the ring is as
-- before.
pub create-answered :
    (fuel : ℕ) (start : StartAnswers) (lay : Layout) (answers : Answers) (detached : ℕ → Bool)
    (self attr fn arg : ℕ) (mask : SigSet) (s : State) (m : Manager.State) (xs : List Ptr)
    (k pid : ℕ) (g : Segments)
    → ltb_ℤ s.process.manager_request (pos 0) ≡ false
    → IsManaged lay m xs
    → IsLaidOut lay answers.maps m.process.main_thread
    → find_segment fuel answers.grants answers.maps 0 m.segments ≡ some (found k g)
    → self ∈ m.process.main_thread ∷ xs
    → let th = thread_seg lay.start lay.size k in
      let request = req_create attr fn arg mask in
      (create start attr fn arg mask self s
        ≡ suspends (record s {
          process = write_request (record { req_thread = self; req_kind = request }) s.process;
        }))
      × (answers.clone ≡ some pid
          → (u : Manager.State) × (handle_request fuel lay answers detached self request m
              ≡ some (continues u))
            × (u.process.kills ≡ m.process.kills ++ restart_kill self m.process ∷ [])
            × (create_woken self u.process ≡ (success, some th))
            × IsManaged lay u (th ∷ xs)
            × IsNew (u.process.desc th) (detached attr) pid fn arg mask)
      × (answers.clone ≡ none
          → (u : Manager.State) × (handle_request fuel lay answers detached self request m
              ≡ some (continues u))
            × (u.process.kills ≡ m.process.kills ++ restart_kill self m.process ∷ [])
            × (create_woken self u.process ≡ (eagain, none))
            × IsManaged lay u xs)
unfolding create ask
create-answered fuel start lay answers detached self attr fn arg mask s m xs k pid g runs managed
      out e i =
    let both =
      create_request fuel lay answers detached self attr fn arg mask m xs k pid g managed out e i in
    (
      simp runs refl,
      λ cloned.
          (let (u, t, h, mu, new, an, code, val, sent) = both.0 cloned in
            (
              u,
              h,
              sent,
              woken-success self (thread_seg lay.start lay.size k) u.process code val,
              mu,
              new,
            )),
      λ failed.
          (let (u, t, h, mu, free, an, code, sent) = both.1 failed in
            (u, h, sent, woken-eagain self u.process code, mu)),
    )
