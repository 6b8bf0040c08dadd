-- ===== src/Cancel.antt =====
-- cancel.c: cancellation and cleanup handlers; pthread.c: the handler of the CANCEL signal.
pub mod Requests
pub mod Cleanup
mod Tests
use read_linuxthreads.Prelude.{
  ℕ, zero, suc, Bool, true, false, not, ◌&&◌, ◌||◌, Option, none, some, ◌==◌, if◌then◌else◌, update,
}
use read_linuxthreads.Prelude.Int.{ℤ, pos, negsuc, ltb_ℤ}
use read_linuxthreads.Memory.{
  Ptr, null, Process, Pthread, Errno, success, einval, CancelState, cancel_enable, cancel_disable,
  CancelType, cancel_deferred, cancel_asynchronous, canceled_value, sig_cancel, set_desc, kill,
  cancel_pending,
}
use read_linuxthreads.Run.{Run, done, exits, M}

-- struct _pthread_cleanup_buffer; the buffers stand in the stack frames of their threads.
pub record Buffer : Type 0 where
  pub routine : ℕ
  pub arg : ℕ
  pub canceltype : CancelType
  pub prev : Ptr

pub record State : Type 0 where
  pub buffers : Ptr → Buffer
  pub process : Process

abbrev pub thread : Ptr → State → Pthread
thread self s = s.process.desc self

abbrev pub set_thread : Ptr → Pthread → State → State
set_thread self d s = record s { process = set_desc self d s.process }

-- The values of the two enumerations, 0 and 1.
abbrev pub state_of : ℤ → CancelState
state_of v = if ltb_ℤ v (pos 1) then cancel_enable else cancel_disable

abbrev pub type_of : ℤ → CancelType
type_of v = if ltb_ℤ v (pos 1) then cancel_deferred else cancel_asynchronous

abbrev pub is_asynchronous : CancelType → Bool
is_asynchronous cancel_deferred = false
is_asynchronous cancel_asynchronous = true

-- The condition under which a thread is cancelled at once.
abbrev pub cancel_now : Pthread → Bool
cancel_now d = cancel_pending d && is_asynchronous d.p_canceltype

unfoldable pub exit_if_now : {A : Type 0} → Ptr → A → M State A
exit_if_now self a s = if cancel_now (thread self s) then exits canceled_value s else done a s

-- With the old state, which is stored at `oldstate` unless that is NULL.
pub setcancelstate : Ptr → ℤ → M State (Errno × CancelState)
unfolding exit_if_now
setcancelstate self state s =
    let old = (thread self s).p_cancelstate in
    if ltb_ℤ state (pos 0) || ltb_ℤ (pos 1) state
    then done (einval, old) s
    else exit_if_now self (success, old)
        (set_thread self (record (thread self s) { p_cancelstate = state_of state }) s)

unfoldable pub setcanceltype : Ptr → ℤ → M State (Errno × CancelType)
unfolding exit_if_now
setcanceltype self type s =
    let old = (thread self s).p_canceltype in
    if ltb_ℤ type (pos 0) || ltb_ℤ (pos 1) type
    then done (einval, old) s
    else exit_if_now self (success, old)
        (set_thread self (record (thread self s) { p_canceltype = type_of type }) s)

unfoldable pub cancel : Ptr → State → State
cancel th s =
    let t = set_thread th (record (thread th s) { p_canceled = true }) s in
    record t { process = kill (t.process.desc th).p_pid sig_cancel t.process }

unfoldable pub testcancel : Ptr → M State (Unit {0})
testcancel self s = if cancel_pending (thread self s) then exits canceled_value s else done tt s

abbrev set_buffer : Ptr → Buffer → State → State
set_buffer b v s = record s { buffers = update s.buffers b v }

abbrev set_cleanup : Ptr → Ptr → State → State
set_cleanup self b s = set_thread self (record (thread self s) { p_cleanup = b }) s

abbrev set_type : Ptr → CancelType → State → State
set_type self t s = set_thread self (record (thread self s) { p_canceltype = t }) s

pub cleanup_push : Ptr → Ptr → ℕ → ℕ → State → State
cleanup_push self buffer routine arg s = set_cleanup self buffer (
    set_buffer buffer
      (record (s.buffers buffer) { routine = routine; arg = arg; prev = (thread self s).p_cleanup })
      s)

-- `call routine arg` is what the handler does.
pub cleanup_pop : (ℕ → ℕ → State → State) → Ptr → Ptr → Bool → State → State
cleanup_pop call self buffer execute s =
    let t = if execute then call (s.buffers buffer).routine (s.buffers buffer).arg s else s in
    set_cleanup self (t.buffers buffer).prev t

unfoldable pub cleanup_push_defer : Ptr → Ptr → ℕ → ℕ → State → State
cleanup_push_defer self buffer routine arg s = set_cleanup self buffer (
    set_type self cancel_deferred (
      set_buffer buffer
        (record {
          routine = routine;
          arg = arg;
          canceltype = (thread self s).p_canceltype;
          prev = (thread self s).p_cleanup;
        })
        s))

-- The state that `pop_restore` tests for cancellation.
pub restored : (ℕ → ℕ → State → State) → Ptr → Ptr → Bool → State → State
restored call self buffer execute s =
    let t = if execute then call (s.buffers buffer).routine (s.buffers buffer).arg s else s in
    set_type self (t.buffers buffer).canceltype (set_cleanup self (t.buffers buffer).prev t)

unfoldable pub cleanup_pop_restore : (ℕ → ℕ → State → State) → Ptr → Ptr → Bool → M State (Unit {0})
unfolding exit_if_now
cleanup_pop_restore call self buffer execute s =
    exit_if_now self tt (restored call self buffer execute s)

-- The `for` loop from `c`; `none` means that the fuel ran out.
pub cleanup_loop : (ℕ → ℕ → State → State) → ℕ → Ptr → State → Option State
cleanup_loop call zero c s = none
cleanup_loop call (suc fuel) c s =
    let t = call (s.buffers c).routine (s.buffers c).arg s in
    let rest = cleanup_loop call fuel (t.buffers c).prev t in if c == null then some s else rest

pub perform_cleanup : (ℕ → ℕ → State → State) → ℕ → Ptr → State → Option State
perform_cleanup call fuel self s = cleanup_loop call fuel (thread self s).p_cleanup s

-- How the handler of the CANCEL signal ends.
pub data Handled : Type 0 where
  -- `_exit(__pthread_exit_code)`
  process_exits : ℕ → Handled
  -- `pthread_exit(PTHREAD_CANCELED)`
  thread_exits : Handled
  -- `siglongjmp` to the buffer
  jumps : Ptr → State → Handled
  returns : State → Handled

-- `requested` and `code` are __pthread_exit_requested and __pthread_exit_code.
unfoldable pub handle_sigcancel : (requested : Bool) → (code : ℕ) → Ptr → State → Handled
handle_sigcancel requested code self s =
    let d = thread self s in
    if requested
    then process_exits code
    else if not (cancel_pending d)
    then returns s
    else if is_asynchronous d.p_canceltype
    then thread_exits
    else if d.p_cancel_jmp == null
    then returns s
    else jumps d.p_cancel_jmp (set_thread self (record d { p_cancel_jmp = null }) s)
