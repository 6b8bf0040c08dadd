-- ===== src/Buffer/System.antt =====
-- The producer and the consumer of Examples/ex5.c in any interleaving of their calls.
pub mod Waits
pub mod Invariant
pub mod Put
pub mod Get
pub mod Kept
pub mod Safety
mod Tests
use read_linuxthreads.Prelude.{ℕ, ◌+◌, ◌≡◌, Bool, true, false, some, List, [], ◌∷◌, ◌++◌, ◌||◌}
use read_linuxthreads.Prelude.Int.{ℤ}
use read_linuxthreads.Memory.{Ptr, Process}
use read_linuxthreads.Run.{done, suspends}
use read_linuxthreads.Semaphore
use read_linuxthreads.Semaphore.{wait_loop, post_loop}
use read_linuxthreads.Mutex.System.{sent}
use read_linuxthreads.Semaphore.System.{drain}
use read_linuxthreads.Buffer.{
  Prodcons, read_state, write_state, with_read, with_write, store, fetch,
}

-- Where a thread stands in its call of `put` or `get`: at the top of the loop of sem_wait, in its
-- `suspend`, behind it, and in front of sem_post. Between two calls it is `ready` for the next.
pub data Phase : Type 0 where
  ready sleeping holding moved : Phase

-- `put_in` and `taken_out` are the integers that have been stored and fetched.
pub record System : Type 0 where
  pub b : Prodcons
  pub producer : Phase
  pub consumer : Phase
  pub producer_woken : Bool
  pub consumer_woken : Bool
  pub put_in : List ℤ
  pub taken_out : List ℤ

-- The restarts that a post has sent reach the two threads.
abbrev pub delivered : Ptr → Ptr → System → System
delivered p c s =
    let q = s.b.process in
    record s {
      b = record (s.b) { process = drain q };
      producer_woken = s.producer_woken || sent (q.desc p).p_pid q.kills;
      consumer_woken = s.consumer_woken || sent (q.desc c).p_pid q.kills;
    }

-- The steps of the producer `p` and the consumer `c`. One unit of fuel is enough for a post, since only
-- one thread waits for each semaphore.
pub data Step (p c : Ptr) (s : System) : System → Type 0 where
  put_wait :
      (t : Semaphore.State)
      → s.producer ≡ ready
      → wait_loop [] p (write_state s.b) ≡ done true t
      → Step p c s (record s { b = with_write s.b t; producer = holding })
  put_sleep :
      (t : Semaphore.State)
      → s.producer ≡ ready
      → wait_loop [] p (write_state s.b) ≡ suspends t
      → Step p c s (record s { b = with_write s.b t; producer = sleeping })
  put_wake :
      s.producer ≡ sleeping
      → s.producer_woken ≡ true
      → Step p c s (record s { producer = ready; producer_woken = false })
  put_store :
      (d : ℤ)
      → s.producer ≡ holding
      → Step p c s (record s { b = store d s.b; producer = moved; put_in = s.put_in ++ d ∷ [] })
  put_post :
      (t : Semaphore.State)
      → s.producer ≡ moved
      → post_loop 1 [] p (read_state s.b) ≡ some (done true t)
      → Step p c s (delivered p c (record s { b = with_read s.b t; producer = ready }))
  get_wait :
      (t : Semaphore.State)
      → s.consumer ≡ ready
      → wait_loop [] c (read_state s.b) ≡ done true t
      → Step p c s (record s { b = with_read s.b t; consumer = holding })
  get_sleep :
      (t : Semaphore.State)
      → s.consumer ≡ ready
      → wait_loop [] c (read_state s.b) ≡ suspends t
      → Step p c s (record s { b = with_read s.b t; consumer = sleeping })
  get_wake :
      s.consumer ≡ sleeping
      → s.consumer_woken ≡ true
      → Step p c s (record s { consumer = ready; consumer_woken = false })
  get_fetch :
      s.consumer ≡ holding
      → Step p c s (record s {
        b = (fetch s.b).1;
        consumer = moved;
        taken_out = s.taken_out ++ (fetch s.b).0 ∷ [];
      })
  get_post :
      (t : Semaphore.State)
      → s.consumer ≡ moved
      → post_loop 1 [] c (write_state s.b) ≡ some (done true t)
      → Step p c s (delivered p c (record s { b = with_write s.b t; consumer = ready }))

pub data Reach (p c : Ptr) (s : System) : System → Type 0 where
  here : Reach p c s s
  later : {t u : System} → Reach p c s t → Step p c t u → Reach p c s u
