-- ===== src/Manager.antt =====
-- manager.c: the manager thread, which creates the threads and frees what they leave.
pub mod Threads
pub mod Creation
pub mod Exit
pub mod Requests
mod Tests
use read_linuxthreads.Prelude.{
  ℕ, zero, suc, Bool, true, false, not, ◌&&◌, Option, none, some, List, [], ◌∷◌, ◌==◌,
  if◌then◌else◌, update, option_map, option_bind,
}
use read_linuxthreads.Memory.{
  Ptr, null, SigSet, Process, Pthread, Errno, success, eagain, cancel_enable, cancel_deferred,
  sig_cancel, sig_kill, set_desc, kill, restart, RequestKind, req_create, req_free,
  req_process_exit, req_main_thread_exit, Request,
}
use read_linuxthreads.Run.{Run, done, spins, M}
use read_linuxthreads.Ring.{insert_live, remove_live, find_live, kill_live}
use read_linuxthreads.Stacks.{
  Segments, thread_seg, seg_thread, Found, no_memory, found, find_segment,
}

-- The process, the stack segments and the static variables of manager.c and pthread.c.
pub record State : Type 0 where
  pub process : Process
  pub segments : Segments
  pub terminated_children : Bool
  pub main_thread_exiting : Bool
  pub exit_requested : Bool
  pub exit_code : ℕ

-- THREAD_STACK_START_ADDRESS, the size of a descriptor and the descriptor of the initial thread.
pub record Layout : Type 0 where
  pub start : ℕ
  pub size : ℕ
  pub initial_thread : Ptr

abbrev pub set_used : ℕ → Bool → State → State
set_used sseg b s = record s {
  segments = record (s.segments) { used = update s.segments.used sseg b };
}

-- The descriptor that pthread_handle_create fills in; the links, the process number and p_retcode
-- keep what the memory holds.
pub initial_desc : Pthread → (detached : Bool) → (fn arg : ℕ) → SigSet → Pthread
initial_desc d detached fn arg mask = record d {
  p_nextwaiting = null;
  p_spinlock = 0;
  p_signal = 0;
  p_signal_jmp = null;
  p_cancel_jmp = null;
  p_terminated = false;
  p_detached = detached;
  p_exited = false;
  p_retval = 0;
  p_joining = null;
  p_cleanup = null;
  p_cancelstate = cancel_enable;
  p_canceltype = cancel_deferred;
  p_canceled = false;
  p_errno = success;
  p_h_errno = 0;
  p_initial_fn = fn;
  p_initial_fn_arg = arg;
  p_initial_mask = mask;
  p_specific = λ key. 0;
}

-- The rest of pthread_handle_create for a segment; `clone` is the process that __clone makes, `none`
-- for -1. The scheduling of the new process, which the kernel keeps, is left out.
pub create_in :
    Layout
    → (clone : Option ℕ) → (detached : Bool) → (fn arg : ℕ) → SigSet
    → ℕ
    → State
    → Errno × Ptr × State
create_in lay clone detached fn arg mask sseg s =
    let th = thread_seg lay.start lay.size sseg in
    let p = set_desc th (initial_desc (s.process.desc th) detached fn arg mask) s.process in
    elim clone [
      | none ↦ (eagain, null, set_used sseg false (record s { process = p }))
      | some pid ↦
          (let q = insert_live p.main_thread th p in
            (
              success,
              th,
              record s { process = set_desc th (record (q.desc th) { p_pid = pid }) q },
            ))
    ]

-- What the system answers: for malloc, mmap and __clone.
pub record Answers : Type 0 where
  pub grants : ℕ → Bool
  pub maps : ℕ → Bool
  pub clone : Option ℕ

-- The code, the new thread on success, and the state; `none` means that the fuel ran out.
pub handle_create :
    ℕ
    → Layout
    → Answers
    → (detached : Bool) → (fn arg : ℕ) → SigSet
    → State
    → Option (Errno × Ptr × State)
unfolding create_in
handle_create fuel lay answers detached fn arg mask s =
    elim (find_segment fuel answers.grants answers.maps 0 s.segments) [
      | none ↦ none
      | some (no_memory g) ↦ some (eagain, null, record s { segments = g })
      | some (found sseg g) ↦
          some (create_in lay answers.clone detached fn arg mask sseg (record s { segments = g }))
    ]

pub free_thread : Layout → Ptr → State → State
free_thread lay th s =
    if th == lay.initial_thread then s else set_used (seg_thread lay.start lay.size th) false s

-- What the manager does next: it goes on, exits, or spins at a taken spinlock.
pub data Served : Type 0 where
  continues manager_exits : State → Served
  blocks : Served

-- The test at the end of pthread_exited.
pub check_last : State → Served
check_last s =
    let main = s.process.main_thread in
    if s.main_thread_exiting && ((s.process.desc main).p_nextlive == main)
    then manager_exits (record s { process = restart main s.process })
    else continues s

-- What the loop in pthread_exited does to the thread that is found, when its `acquire` succeeds; the
-- spinlock is free again behind the `release`.
pub mark_exited : Layout → Ptr → State → State
mark_exited lay th s =
    let p = remove_live th s.process in
    let t = record s { process = set_desc th (record (p.desc th) { p_exited = true }) p } in
    if (p.desc th).p_detached then free_thread lay th t else t

-- `blocks` is the manager that spins at the spinlock of the thread, already out of the ring.
pub exited : ℕ → Layout → ℕ → State → Option Served
unfolding mark_exited check_last
exited fuel lay pid s =
    let main = s.process.main_thread in
    elim (find_live fuel main pid (s.process.desc main).p_nextlive s.process) [
      | none ↦ none
      | some none ↦ some (check_last s)
      | some (some th) ↦ some (
          if (s.process.desc th).p_spinlock == 0 then check_last (mark_exited lay th s) else blocks)
    ]

pub handle_free : Layout → Ptr → M State (Unit {0})
unfolding free_thread
handle_free lay th s =
    let d = s.process.desc th in
    if d.p_spinlock == 0
    then done tt (
        if d.p_exited
        then free_thread lay th
            (record s { process = set_desc th (record d { p_spinlock = 1 }) s.process })
        else record s { process = set_desc th (record d { p_detached = true }) s.process })
    else spins

pub kill_all_threads : ℕ → (sig : ℕ) → (main_thread_also : Bool) → Process → Option Process
kill_all_threads fuel sig main_thread_also p =
    option_map (λ q. if main_thread_also then kill (q.desc q.main_thread).p_pid sig q else q)
      (kill_live fuel p.main_thread sig (p.desc p.main_thread).p_nextlive p)

-- The children that __libc_waitpid reports, each with the signal that ended it, if one did.
pub reap_children : ℕ → Layout → List (ℕ × Option ℕ) → State → Option Served
unfolding exited kill_all_threads
reap_children fuel lay [] s = some (continues s)
reap_children fuel lay ((pid, status) ∷ cs) s = elim (exited fuel lay pid s) [
  | none ↦ none
  | some blocks ↦ some blocks
  | some (manager_exits t) ↦ some (manager_exits t)
  | some (continues t) ↦
      (let rest = reap_children fuel lay cs t in
        elim status [
          | none ↦ rest
          | some sig ↦
              option_map (λ p. manager_exits (record t { process = p }))
                (kill_all_threads fuel sig true t.process)
        ])
]

unfoldable pub handle_exit : ℕ → (issuing : Ptr) → (code : ℕ) → State → Option Served
handle_exit fuel issuing code s =
    option_map
      (λ p.
        manager_exits
          (record s { process = restart issuing p; exit_requested = true; exit_code = code }))
      (kill_live fuel issuing sig_cancel (s.process.desc issuing).p_nextlive s.process)

-- What REQ_CREATE writes into the descriptor of the thread that asked, which is then woken.
pub answer : Ptr → Errno × Ptr × State → State
answer th (code, new, s) =
    let d = s.process.desc th in
    let retval : ℕ = elim code [ success ↦ new | _ ↦ d.p_retval ] in
    record s {
      process =
          restart th (set_desc th (record d { p_retcode = code; p_retval = retval }) s.process);
    }

-- The switch of the server loop; `detached` is the detach state of the attributes at an address.
unfoldable pub handle_request :
    ℕ → Layout → Answers → (detached : ℕ → Bool) → Ptr → RequestKind → State → Option Served
unfolding handle_create answer handle_free check_last handle_exit
handle_request fuel lay answers detached th (req_create attr fn arg mask) s =
    option_map (λ r. continues (answer th r))
      (handle_create fuel lay answers (detached attr) fn arg mask s)
handle_request fuel lay answers detached th (req_free freed) s = elim (handle_free lay freed s) [
  | done u t ↦ some (continues t)
  | _ ↦ some blocks
]
handle_request fuel lay answers detached th (req_process_exit code) s = handle_exit fuel th code s
handle_request fuel lay answers detached th req_main_thread_exit s =
    some (check_last (record s { main_thread_exiting = true }))

-- The request of a round, behind the reaping of the children.
pub then_request :
    ℕ → Layout → Answers → (detached : ℕ → Bool) → Option Request → Served → Option Served
unfolding handle_request
then_request fuel lay answers detached (some r) (continues s) =
    handle_request fuel lay answers detached r.req_thread r.req_kind s
then_request fuel lay answers detached none (continues s) = some (continues s)
then_request fuel lay answers detached request (manager_exits s) = some (manager_exits s)
then_request fuel lay answers detached request blocks = some blocks

-- One round of the server loop, behind `__select`: `orphan` is the test of `getppid`, `children` what
-- waitpid reports and `request` what is read from the pipe.
pub manager_round :
    ℕ
    → Layout
    → Answers
    → (detached : ℕ → Bool) → (orphan : Bool) → List (ℕ × Option ℕ)
    → Option Request
    → State
    → Option Served
unfolding kill_all_threads reap_children then_request
manager_round fuel lay answers detached orphan children request s =
    let killed = kill_all_threads fuel sig_kill false s.process in
    let cleared = record s { terminated_children = false } in
    let reaped =
      if s.terminated_children
      then reap_children fuel lay children cleared
      else some (continues s) in
    if orphan
    then option_map (λ p. manager_exits (record s { process = p })) killed
    else option_bind reaped (then_request fuel lay answers detached request)
