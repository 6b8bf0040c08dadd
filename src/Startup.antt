-- ===== src/Startup.antt =====
-- pthread.c, and thread_self of internals.h: the start of the manager, requests to it from the other
-- side, the handler of the RESTART signal, and the reset after fork and before exec.
pub mod Requests
pub mod Reset
pub mod Exec
mod Tests
use read_linuxthreads.Prelude.{
  ℕ, ◌+◌, ◌-◌, ◌*◌, ◌/◌, Bool, true, false, ◌&&◌, Option, none, some, leb, ltb, ◌==◌, if◌then◌else◌,
  update,
}
use read_linuxthreads.Prelude.Int.{ℤ, pos, negsuc, ltb_ℤ}
use read_linuxthreads.Memory.{
  Ptr, null, SigSet, Pthread, Process, Request, req_create, req_process_exit, Errno, success,
  eagain, esrch, set_desc, write_request,
}
use read_linuxthreads.Run.{Run, done, spins, suspends, exits, M}
use read_linuxthreads.Stacks.{stack_size}

-- The process, the stack of the manager (NULL for none) and the reading end of the pipe.
pub record State : Type 0 where
  pub process : Process
  pub manager_bos : Ptr
  pub manager_tos : Ptr
  pub manager_reader : ℤ

-- THREAD_MANAGER_STACK_SIZE for pages of 4096 bytes.
abbrev pub manager_stack_size : ℕ
manager_stack_size = 2 * 4096 - 32

-- The addresses of the descriptors of the initial thread and of the manager, the bottom of the stack
-- of the initial thread, and the size of a descriptor.
pub record Places : Type 0 where
  pub initial_thread : Ptr
  pub manager_thread : Ptr
  pub initial_bos : Ptr
  pub size : ℕ

-- The descriptor of the thread whose stack holds `sp`. STACK_SIZE is a power of 2, so that
-- `sp | (STACK_SIZE - 1)` is the last address of the segment of `sp`.
pub thread_self : Places → (bos tos sp : Ptr) → Ptr
thread_self places bos tos sp =
    if leb places.initial_bos sp
    then places.initial_thread
    else if leb bos sp && ltb sp tos
    then places.manager_thread
    else sp / stack_size * stack_size + (stack_size - 1) + 1 - places.size

-- What the system answers: the block of malloc, and the reading and the writing end that pipe makes,
-- `none` for a failure; and whether __clone succeeds.
pub record StartAnswers : Type 0 where
  pub block : Option Ptr
  pub pipe : Option (ℕ × ℕ)
  pub clones : Bool

-- Behind malloc and pipe: the manager is started. After a failure the stack is freed, while the
-- variables of its limits and the reading end keep their values.
pub start_manager : Bool → ℕ → ℕ → State → Bool × State
start_manager clones reader writer s =
    let piped = record s { manager_reader = pos reader } in
    if clones
    then (true, record piped { process = record (s.process) { manager_request = pos writer } })
    else (false, record piped { process = record (s.process) { manager_request = negsuc 0 } })

-- `false` is the return of -1.
pub initialize_manager : StartAnswers → State → Bool × State
unfolding start_manager
initialize_manager answers s = elim answers.block [
  | none ↦ (false, record s { manager_bos = null })
  | some b ↦
      (let t = record s { manager_bos = b; manager_tos = b + manager_stack_size } in
        elim answers.pipe [
          | none ↦ (false, t)
          | some (reader, writer) ↦ start_manager answers.clones reader writer t
        ])
]

-- The request of pthread_create, and the wait for its answer.
pub ask : (attr fn arg : ℕ) → SigSet → Ptr → State → Run State (Errno × Option Ptr)
ask attr fn arg mask self s = suspends (record s {
  process =
      write_request (record { req_thread = self; req_kind = req_create attr fn arg mask })
        s.process;
})

-- As far as `suspend`; `mask` is the signal mask of the thread. The second value is what is stored at
-- `thread`, `none` for nothing.
pub create : StartAnswers → (attr fn arg : ℕ) → SigSet → Ptr → M State (Errno × Option Ptr)
unfolding initialize_manager ask
create answers attr fn arg mask self s =
    let (started, t) = initialize_manager answers s in
    if ltb_ℤ s.process.manager_request (pos 0)
    then (if started then ask attr fn arg mask self t else done (eagain, none) t)
    else ask attr fn arg mask self s

-- Behind `suspend`.
pub create_woken : Ptr → Process → Errno × Option Ptr
create_woken self p =
    let d = p.desc self in
    elim d.p_retcode [ success ↦ (success, some d.p_retval) | code ↦ (code, none) ]

-- The function that exit calls: the request, and the wait for the end of all other threads.
pub exit_process : (retcode : ℕ) → Ptr → M State (Unit {0})
exit_process retcode self s =
    if ltb_ℤ s.process.manager_request (pos 0)
    then done tt s
    else suspends (record s {
      process =
          write_request (record { req_thread = self; req_kind = req_process_exit retcode })
            s.process;
    })

-- The handler of the RESTART signal: for the manager, the value of `terminated_children`; for another
-- thread, the new descriptor and the buffer that it jumps to, NULL for none.
pub data Handled : Type 0 where
  children_terminated : Handled
  signalled : (jmpbuf : Ptr) → Pthread → Handled

unfoldable pub sighandler : (manager_thread : Ptr) → (sig : ℕ) → Ptr → Process → Handled
sighandler manager_thread sig self p =
    let d = p.desc self in
    if self == manager_thread
    then children_terminated
    else signalled d.p_signal_jmp (record d { p_signal = sig })

-- `pid` is the process of the thread after fork.
pub reset_main_thread : (pid : ℕ) → Ptr → State → State
reset_main_thread pid self s = record s {
  process = record (s.process) {
    desc =
        (set_desc self (record (s.process.desc self) { p_pid = pid; p_nextlive = self })
          s.process).desc;
    manager_request = negsuc 0;
    main_thread = self;
  };
  manager_bos = null;
  manager_tos = null;
  manager_reader = negsuc 0;
}

-- Behind the exit request of kill_other_threads.
pub kill_other_woken : (pid : ℕ) → Ptr → State → State
unfolding reset_main_thread
kill_other_woken pid self s = reset_main_thread pid self s

-- As far as `suspend` of the exit request, or to the end if there is no manager.
pub kill_other_threads : (pid : ℕ) → Ptr → M State (Unit {0})
unfolding exit_process kill_other_woken
kill_other_threads pid self s = elim (exit_process 0 self s) [
  | done e t ↦ done tt (kill_other_woken pid self t)
  | spins ↦ spins
  | suspends t ↦ suspends t
  | exits v t ↦ exits v t
]

-- The scheduling of the processes, which the kernel keeps: policy and priority by process number.
abbrev pub Scheduling : Type 0
Scheduling = ℕ → Option (ℕ × ℕ)

-- `allows` is the kernel's answer to sched_setscheduler for a process that exists.
pub setschedparam :
    (allows : Errno) → Ptr → (policy param : ℕ) → Process → Scheduling → Errno × Scheduling
setschedparam allows th policy param p sched = elim (sched (p.desc th).p_pid) [
  | none ↦ (esrch, sched)
  | some old ↦ (elim allows [
    | success ↦ (success, update sched (p.desc th).p_pid (some (policy, param)))
    | code ↦ (code, sched)
  ])
]

-- The code, and on success the policy and the parameter.
pub getschedparam : Ptr → Process → Scheduling → Errno × Option (ℕ × ℕ)
getschedparam th p sched = elim (sched (p.desc th).p_pid) [
  | none ↦ (esrch, none)
  | some both ↦ (success, some both)
]
