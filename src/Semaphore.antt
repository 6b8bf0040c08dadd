-- ===== src/Semaphore.antt =====
-- semaphore.c, for a `long` of 32 bits: counting semaphores whose status is the pattern 2N + 1, or
-- the address of the thread that waits and came last.
pub mod Counting
pub mod Waiters
pub mod System
mod Tests
use read_linuxthreads.Prelude.{
  ℕ, zero, suc, ◌+◌, ◌-◌, ◌*◌, ◌/◌, ◌%◌, ◌^◌, Bool, true, false, ◌&&◌, ◌||◌, not, Option, none,
  some, List, [], ◌∷◌, ltb, leb, ◌==◌, if◌then◌else◌,
}
use read_linuxthreads.Memory.{
  Ptr, null, Process, Errno, einval, enosys, ebusy, eagain, erange, canceled_value, set_desc,
  set_nextwaiting, restart, cancel_pending,
}
use read_linuxthreads.Run.{Run, done, suspends, exits, M}

abbrev pub long_mod : ℕ
long_mod = 2 ^ 32

-- SEM_VALUE_MAX, INT_MAX.
abbrev pub value_max : ℕ
value_max = 2 ^ 31 - 1

abbrev pub is_odd : ℕ → Bool
is_odd n = n % 2 == 1

-- `n >= SEM_VALUE_MAX` for a `long`: the patterns from 2^31 on are negative.
abbrev pub is_max : ℕ → Bool
is_max n = leb value_max n && ltb n (2 ^ 31)

pub record State : Type 0 where
  pub sem_status : ℕ
  pub process : Process

abbrev pub set_status : ℕ → State → State
set_status n s = record s { sem_status = n }

-- `errno = e`, for the calling thread; the call then returns -1, here `false`.
abbrev pub set_errno : Ptr → Errno → State → State
set_errno self e s = record s {
  process = set_desc self (record (s.process.desc self) { p_errno = e }) s.process;
}

abbrev pub link : Ptr → Ptr → State → State
link th v s = record s { process = set_nextwaiting th v s.process }

-- Stores `new` if the status is `old`, and says whether it was.
pub compare_and_swap : ℕ → ℕ → State → Bool × State
compare_and_swap old new s = if s.sem_status == old then (true, set_status new s) else (false, s)

pub sem_init : Ptr → ℕ → Bool → M State Bool
sem_init self value pshared s =
    if ltb value_max value
    then done false (set_errno self einval s)
    else if pshared
    then done false (set_errno self enosys s)
    else done true (set_status ((value * 2 + 1) % long_mod) s)

-- The status that `sem_wait` wants to store for `old`: the count lowered, or the thread itself.
abbrev pub has_count : ℕ → Bool
has_count old = is_odd old && not (old == 1)

-- Behind a successful compare-and-swap.
pub wait_won : Ptr → ℕ → M State Bool
wait_won self new s = if is_odd new then done true s else suspends s

-- The `do … while` loop. The list holds what other threads store between the load of the status and
-- the compare-and-swap of each round; when it is used up they are quiet.
pub wait_loop : List ℕ → Ptr → M State Bool
wait_loop [] self s =
    let old = s.sem_status in
    let new = if has_count old then old - 2 else self in
    let s' = if has_count old then s else link self old s in
    let (won, t) = compare_and_swap old new s' in wait_won self new t
wait_loop (v ∷ vs) self s =
    let old = s.sem_status in
    let new = if has_count old then old - 2 else self in
    let s' = if has_count old then s else link self old s in
    let (won, t) = compare_and_swap old new (set_status v s') in
    let again = wait_loop vs self t in if won then wait_won self new t else again

-- Takes a cancelled thread out of the list behind `t`; `none` means that the fuel ran out.
pub unlink_loop : ℕ → Ptr → Ptr → Process → Option Process
unlink_loop zero self t p = none
unlink_loop (suc fuel) self t p =
    let next = (p.desc t).p_nextwaiting in
    let rest = unlink_loop fuel self next p in
    if (next == 1) || (next == null)
    then some p
    else if next == self
    then some (set_nextwaiting t (p.desc self).p_nextwaiting p)
    else rest

-- The removal of a cancelled thread, with no other thread in between.
pub unlink_self : ℕ → Ptr → State → Option State
unfolding unlink_loop
unlink_self fuel self s =
    if s.sem_status == self
    then some (compare_and_swap self (s.process.desc self).p_nextwaiting s).1
    else if is_odd s.sem_status
    then some s
    else elim (unlink_loop fuel self s.sem_status s.process) [
      | none ↦ none
      | some p ↦ some (record s { process = p })
    ]

-- Behind `suspend_with_cancellation`: the thread exits, or tries again.
pub wait_woken : ℕ → List ℕ → Ptr → State → Option (Run State Bool)
unfolding unlink_self
wait_woken fuel others self s =
    if cancel_pending (s.process.desc self)
    then elim (unlink_self fuel self s) [ none ↦ none | some t ↦ some (exits canceled_value t) ]
    else some (wait_loop others self s)

pub trywait_loop : List ℕ → Ptr → M State Bool
trywait_loop [] self s =
    let old = s.sem_status in
    let (won, t) = compare_and_swap old (old - 2) s in
    if not (is_odd old) || (old == 1) then done false (set_errno self eagain s) else done true t
trywait_loop (v ∷ vs) self s =
    let old = s.sem_status in
    let (won, t) = compare_and_swap old (old - 2) (set_status v s) in
    let again = trywait_loop vs self t in
    if not (is_odd old) || (old == 1)
    then done false (set_errno self eagain s)
    else if won
    then done true t
    else again

-- `newstatus` in `sem_post`.
abbrev pub post_new : ℕ → ℕ
post_new old = if is_odd old then (old + 2) % long_mod else 3

-- The end mark of the list.
abbrev pub at_end : Ptr → Bool
at_end th = th == 1

-- The body of the loop of `sem_post`: the thread is unlinked and woken, and the one behind it is next.
abbrev pub wake_step : Ptr → Process → Ptr × Process
wake_step th p = ((p.desc th).p_nextwaiting, restart th (set_nextwaiting th null p))

-- Wakes the thread and those behind it; `none` means that the fuel ran out.
pub wake_loop : ℕ → Ptr → Process → Option Process
wake_loop zero th p = none
wake_loop (suc fuel) th p =
    let (next, p') = wake_step th p in
    let rest = wake_loop fuel next p' in if at_end next then some p' else rest

-- Behind a successful compare-and-swap of `sem_post`.
pub post_won : ℕ → ℕ → State → Option (Run State Bool)
unfolding wake_loop
post_won fuel old s =
    if is_odd old then some (done true s) else elim (wake_loop fuel old s.process) [
      | none ↦ none
      | some p ↦ some (done true (record s { process = p }))
    ]

-- The loop of `sem_post`, the list as for `wait_loop`.
pub post_loop : ℕ → List ℕ → Ptr → State → Option (Run State Bool)
post_loop fuel [] self s =
    let old = s.sem_status in
    let new = post_new old in
    let (won, t) = compare_and_swap old new s in
    if is_odd old && is_max old
    then some (done false (set_errno self erange s))
    else post_won fuel old t
post_loop fuel (v ∷ vs) self s =
    let old = s.sem_status in
    let new = post_new old in
    let (won, t) = compare_and_swap old new (set_status v s) in
    let again = post_loop fuel vs self t in
    if is_odd old && is_max old
    then some (done false (set_errno self erange s))
    else if won
    then post_won fuel old t
    else again

-- The cast to `int` keeps a value below 2^31.
pub sem_getvalue : State → ℕ
sem_getvalue s = if is_odd s.sem_status then s.sem_status / 2 else 0

pub sem_destroy : Ptr → M State Bool
sem_destroy self s =
    if is_odd s.sem_status then done true s else done false (set_errno self ebusy s)
