-- ===== src/Buffer.antt =====
-- Examples/ex5.c: a circular buffer of integers between a producer and a consumer, with a semaphore for
-- the elements in it and one for the free places.
pub mod Contents
pub mod System
use read_linuxthreads.Prelude.{ℕ, ◌+◌, ◌-◌, Bool, List, [], ◌∷◌, leb, if◌then◌else◌, update, false}
use read_linuxthreads.Prelude.Int.{ℤ}
use read_linuxthreads.Memory.{Ptr, Process}
use read_linuxthreads.Run.{Run, done, spins, suspends, exits}
use read_linuxthreads.Semaphore
use read_linuxthreads.Semaphore.{sem_init}

abbrev pub buffer_size : ℕ
buffer_size = 16

pub record Prodcons : Type 0 where
  pub buffer : ℕ → ℤ
  pub readpos : ℕ
  pub writepos : ℕ
  pub sem_read : ℕ
  pub sem_write : ℕ
  pub process : Process

-- A semaphore of the buffer, with the threads that all objects share.
abbrev pub read_state : Prodcons → Semaphore.State
read_state b = record { sem_status = b.sem_read; process = b.process }

abbrev pub write_state : Prodcons → Semaphore.State
write_state b = record { sem_status = b.sem_write; process = b.process }

abbrev pub with_read : Prodcons → Semaphore.State → Prodcons
with_read b s = record b { sem_read = s.sem_status; process = s.process }

abbrev pub with_write : Prodcons → Semaphore.State → Prodcons
with_write b s = record b { sem_write = s.sem_status; process = s.process }

-- The state that a call leaves, whatever it returns; the code does not look at the result.
abbrev pub left : Semaphore.State → Run Semaphore.State Bool → Semaphore.State
left s (done ok t) = t
left s spins = s
left s (suspends t) = t
left s (exits v t) = t

pub init : Ptr → Prodcons → Prodcons
init self b =
    let b1 =
      with_write b (left (write_state b) (sem_init self (buffer_size - 1) false (write_state b))) in
    let b2 = with_read b1 (left (read_state b1) (sem_init self 0 false (read_state b1))) in
    record b2 { readpos = 0; writepos = 0 }

-- A position behind its increment.
abbrev pub advance : ℕ → ℕ
advance n = if leb buffer_size (n + 1) then 0 else n + 1

-- Between the calls of `put`, and between those of `get`.
pub store : ℤ → Prodcons → Prodcons
store d b = record b { buffer = update b.buffer b.writepos d; writepos = advance b.writepos }

pub fetch : Prodcons → ℤ × Prodcons
fetch b = (b.buffer b.readpos, record b { readpos = advance b.readpos })
