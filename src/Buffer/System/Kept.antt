-- ===== src/Buffer/System/Kept.antt =====
-- Every step of the producer and the consumer keeps the invariant, which holds at the start.
use read_linuxthreads.Prelude.{ℕ, ◌<◌, ◌≡◌, refl, false, [], arith, sym, subst}
use read_linuxthreads.Memory.{Ptr}
use read_linuxthreads.Semaphore.{State}
use read_linuxthreads.Semaphore.Counting.{count_status, init_count}
use read_linuxthreads.Semaphore.System.{drain}
use read_linuxthreads.Buffer.{Prodcons, read_state, write_state, init}
use read_linuxthreads.Buffer.System.{
  System, ready, Step, put_wait, put_sleep, put_wake, put_store, put_post, get_wait, get_sleep,
  get_wake, get_fetch, get_post, Reach, here, later,
}
use read_linuxthreads.Buffer.System.Waits
use read_linuxthreads.Buffer.System.Invariant.{Pair, Pair-kept, Inv}
use read_linuxthreads.Buffer.System.Put.{
  put_wait-Inv, put_sleep-Inv, put_wake-Inv, put_store-Inv, put_post-Inv,
}
use read_linuxthreads.Buffer.System.Get.{
  get_wait-Inv, get_sleep-Inv, get_wake-Inv, get_fetch-Inv, get_post-Inv,
}

pub Step-Inv : {p c : Ptr} {s t : System} → Inv p c s → Step p c s t → Inv p c t
Step-Inv inv (put_wait u e h) = put_wait-Inv inv u e h
Step-Inv inv (put_sleep u e h) = put_sleep-Inv inv u e h
Step-Inv inv (put_wake e h) = put_wake-Inv inv e h
Step-Inv inv (put_store d e) = put_store-Inv inv d e
Step-Inv inv (put_post u e h) = put_post-Inv inv u e h
Step-Inv inv (get_wait u e h) = get_wait-Inv inv u e h
Step-Inv inv (get_sleep u e h) = get_sleep-Inv inv u e h
Step-Inv inv (get_wake e h) = get_wake-Inv inv e h
Step-Inv inv (get_fetch e) = get_fetch-Inv inv e
Step-Inv inv (get_post u e h) = get_post-Inv inv u e h

pub Reach-Inv : {p c : Ptr} {s t : System} → Inv p c s → Reach p c s t → Inv p c t
Reach-Inv inv here = inv
Reach-Inv inv (later r st) = Step-Inv (Reach-Inv inv r) st

-- A buffer with the two threads in front of their first calls.
abbrev started : Prodcons → System
started b = record {
  b = record b { process = drain b.process };
  producer = ready;
  consumer = ready;
  producer_woken = false;
  consumer_woken = false;
  put_in = [];
  taken_out = [];
}

-- Behind `init`, called by `self`.
abbrev pub start : Ptr → Prodcons → System
start self b = started (init self b)

-- `init` sets up 15 free places and no element, at equal positions.
pub init_lem :
    (self : Ptr) (b : Prodcons)
    → init self b ≡ record b {
      readpos = 0;
      writepos = 0;
      sem_read = count_status 0;
      sem_write = count_status 15;
    }
unfolding init
init_lem self b = rw (init_count self 15 (write_state b) (omega arith)) (
    rw (init_count self 0 (read_state (record b { sem_write = count_status 15 })) (omega arith))
      refl)

counted :
    (i : Ptr) (s : State) (n : ℕ)
    → s.sem_status ≡ count_status n
    → n < 16
    → Waits.Sem i s n ready false
counted i s n e small = record {
  waits = false;
  count = λ c. e;
  asleep = λ w. cc;
  awake = λ c h. cc;
  signalled = λ h. cc;
  small = small;
}

pub start-Inv : (self p c : Ptr) (b : Prodcons) → Pair p c b.process → Inv p c (start self b)
start-Inv self p c b pair =
    subst (λ v. Inv p c (started v)) (sym (init_lem self b))
      (record {
        n = 0;
        r = 0;
        w = 15;
        xs = [];
        holds = record {
          read_in = omega arith;
          few = omega arith;
          write_at = refl;
          content = refl;
        };
        fifo = refl;
        reads = counted c _ 0 refl (omega arith);
        writes = counted p _ 15 refl (omega arith);
        kills = refl;
        elements = refl;
        places = refl;
        pair = Pair-kept _ pair (λ a. refl);
      })
