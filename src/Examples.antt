-- ===== src/Examples.antt =====
-- A process for the tests: the thread at each address has this address for its process number.
use read_linuxthreads.Prelude.{false, []}
use read_linuxthreads.Prelude.Int.{pos}
use read_linuxthreads.Memory.{Ptr, null, Pthread, Process, cancel_enable, cancel_deferred, success}

abbrev pub thread_at : Ptr → Pthread
thread_at a = record {
  p_nextlive = null;
  p_prevlive = null;
  p_nextwaiting = null;
  p_pid = a;
  p_spinlock = 0;
  p_signal = 0;
  p_signal_jmp = null;
  p_cancel_jmp = null;
  p_terminated = false;
  p_detached = false;
  p_exited = false;
  p_retval = 0;
  p_retcode = success;
  p_joining = null;
  p_cleanup = null;
  p_cancelstate = cancel_enable;
  p_canceltype = cancel_deferred;
  p_canceled = false;
  p_errno = success;
  p_h_errno = 0;
  p_initial_fn = 0;
  p_initial_fn_arg = 0;
  p_initial_mask = λ n. false;
  p_specific = λ key. 0;
}

abbrev pub fresh_process : Process
fresh_process = record {
  desc = thread_at;
  kills = [];
  requests = [];
  manager_request = pos 5;
  main_thread = 8;
}
