-- ===== src/Buffer/System/Invariant.antt =====
-- What holds in every state of the producer and the consumer.
use read_linuxthreads.Prelude.{ℕ, ◌+◌, ◌≡◌, ◌≢◌, List, [], ◌++◌, arith}
use read_linuxthreads.Prelude.Int.{ℤ}
use read_linuxthreads.Memory.{Ptr, Process}
use read_linuxthreads.Semaphore.Waiters.{IsThread}
use read_linuxthreads.Buffer.{read_state, write_state}
use read_linuxthreads.Buffer.Contents.{HoldsIn}
use read_linuxthreads.Buffer.System.{System, Phase, ready, sleeping, holding, moved}
use read_linuxthreads.Buffer.System.Waits

-- 1 for a thread behind its wait, in front of its access; and behind it, in front of its post.
abbrev pub is_holding : Phase → ℕ
is_holding ready = 0
is_holding sleeping = 0
is_holding holding = 1
is_holding moved = 0

abbrev pub is_moved : Phase → ℕ
is_moved ready = 0
is_moved sleeping = 0
is_moved holding = 0
is_moved moved = 1

-- Two threads with addresses and processes of their own.
pub record Pair (p c : Ptr) (q : Process) : Type 0 where
  pub producer : IsThread p
  pub consumer : IsThread c
  pub apart : p ≢ c
  pub pids : (q.desc p).p_pid ≢ (q.desc c).p_pid

pub Pair-kept :
    {p c : Ptr} {q : Process} (q' : Process)
    → Pair p c q
    → ((a : Ptr) → (q'.desc a).p_pid ≡ (q.desc a).p_pid)
    → Pair p c q'
Pair-kept {p = p} {c = c} q' pair same = record {
  producer = pair.producer;
  consumer = pair.consumer;
  apart = pair.apart;
  pids = ground (arith, same p, same c, pair.pids);
}

-- The buffer holds the `n` integers `xs`; `r` is the count of sem_read and `w` that of sem_write.
pub record Inv (p c : Ptr) (s : System) : Type 0 where
  pub n : ℕ
  pub r : ℕ
  pub w : ℕ
  pub xs : List ℤ
  pub holds : HoldsIn s.b n xs
  pub fifo : s.taken_out ++ xs ≡ s.put_in
  pub reads : Waits.Sem c (read_state s.b) r s.consumer s.consumer_woken
  pub writes : Waits.Sem p (write_state s.b) w s.producer s.producer_woken
  pub kills : s.b.process.kills ≡ []
  pub elements : n ≡ r + is_holding s.consumer + is_moved s.producer
  pub places : n + w + is_holding s.producer + is_moved s.consumer ≡ 15
  pub pair : Pair p c s.b.process
