-- ===== src/Ring.antt =====
-- manager.c: the active threads, linked both ways in a ring that holds the main thread.
pub mod Laws
pub mod Removal
pub mod Kept
pub mod Walks
use read_linuxthreads.Prelude.{ℕ, zero, suc, Option, none, some, ◌==◌, if◌then◌else◌}
use read_linuxthreads.Memory.{Ptr, Process, set_desc, kill}

pub set_nextlive : Ptr → Ptr → Process → Process
set_nextlive a v p = set_desc a (record (p.desc a) { p_nextlive = v }) p

pub set_prevlive : Ptr → Ptr → Process → Process
set_prevlive a v p = set_desc a (record (p.desc a) { p_prevlive = v }) p

-- The four assignments of pthread_handle_create.
pub insert_live : Ptr → Ptr → Process → Process
insert_live main th p =
    let p1 = set_prevlive th main p in
    let p2 = set_nextlive th (p1.desc main).p_nextlive p1 in
    let p3 = set_prevlive (p2.desc main).p_nextlive th p2 in set_nextlive main th p3

-- The two assignments of pthread_exited.
pub remove_live : Ptr → Process → Process
remove_live th p =
    let p1 = set_prevlive (p.desc th).p_nextlive (p.desc th).p_prevlive p in
    set_nextlive (p1.desc th).p_prevlive (p1.desc th).p_nextlive p1

-- The `for` loop from `t` that looks for the thread with this process; `some none` means that it came
-- round to `stop`, `none` that the fuel ran out.
pub find_live : ℕ → (stop pid t : Ptr) → Process → Option (Option Ptr)
find_live zero stop pid t p = none
find_live (suc fuel) stop pid t p =
    let rest = find_live fuel stop pid (p.desc t).p_nextlive p in
    if t == stop then some none else if (p.desc t).p_pid == pid then some (some t) else rest

-- The `for` loop from `t` to `stop` that sends a signal to each thread.
pub kill_live : ℕ → (stop sig t : Ptr) → Process → Option Process
kill_live zero stop sig t p = none
kill_live (suc fuel) stop sig t p =
    let rest = kill_live fuel stop sig (p.desc t).p_nextlive (kill (p.desc t).p_pid sig p) in
    if t == stop then some p else rest
