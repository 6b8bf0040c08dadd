-- ===== src/Attr.antt =====
-- attr.c: thread attributes.
pub mod Laws
use read_linuxthreads.Prelude.{ℕ, Bool, true, false, not, ◌&&◌, ◌||◌, ◌==◌, if◌then◌else◌}
use read_linuxthreads.Prelude.Int.{ℤ, pos, ltb_ℤ, eqb_ℤ}
use read_linuxthreads.Memory.{Errno, success, einval, enotsup}

-- The enumerations of pthread.h, and SCHED_OTHER, SCHED_FIFO and SCHED_RR of Linux.
abbrev pub create_joinable : ℤ
create_joinable = pos 0

abbrev pub create_detached : ℤ
create_detached = pos 1

abbrev pub inherit_sched : ℤ
inherit_sched = pos 0

abbrev pub explicit_sched : ℤ
explicit_sched = pos 1

abbrev pub scope_system : ℤ
scope_system = pos 0

abbrev pub scope_process : ℤ
scope_process = pos 1

abbrev pub sched_other : ℤ
sched_other = pos 0

abbrev pub sched_fifo : ℤ
sched_fifo = pos 1

abbrev pub sched_rr : ℤ
sched_rr = pos 2

-- `schedparam` is the priority, the only field of `struct sched_param`.
pub record Attr : Type 0 where
  pub detachstate : ℤ
  pub schedpolicy : ℤ
  pub schedparam : ℤ
  pub inheritsched : ℤ
  pub scope : ℤ

pub attr_init : Attr
attr_init = record {
  detachstate = create_joinable;
  schedpolicy = sched_other;
  schedparam = pos 0;
  inheritsched = explicit_sched;
  scope = scope_system;
}

pub setdetachstate : Attr → ℤ → Errno × Attr
setdetachstate attr detachstate =
    if ltb_ℤ detachstate create_joinable || ltb_ℤ create_detached detachstate
    then (einval, attr)
    else (success, record attr { detachstate = detachstate })

pub getdetachstate : Attr → ℤ
getdetachstate attr = attr.detachstate

-- `max_prio` and `min_prio` are sched_get_priority_max and sched_get_priority_min of the kernel.
pub setschedparam : (max_prio min_prio : ℤ → ℤ) → Attr → ℤ → Errno × Attr
setschedparam max_prio min_prio attr priority =
    if ltb_ℤ priority (min_prio attr.schedpolicy) || ltb_ℤ (max_prio attr.schedpolicy) priority
    then (einval, attr)
    else (success, record attr { schedparam = priority })

pub getschedparam : Attr → ℤ
getschedparam attr = attr.schedparam

-- `euid` is what geteuid returns.
pub setschedpolicy : (euid : ℕ) → Attr → ℤ → Errno × Attr
setschedpolicy euid attr policy =
    if not (eqb_ℤ policy sched_other)
      && not (eqb_ℤ policy sched_fifo)
      && not (eqb_ℤ policy sched_rr)
    then (einval, attr)
    else if not (eqb_ℤ policy sched_other) && not (euid == 0)
    then (enotsup, attr)
    else (success, record attr { schedpolicy = policy })

pub getschedpolicy : Attr → ℤ
getschedpolicy attr = attr.schedpolicy

pub setinheritsched : Attr → ℤ → Errno × Attr
setinheritsched attr inherit =
    if not (eqb_ℤ inherit inherit_sched) && not (eqb_ℤ inherit explicit_sched)
    then (einval, attr)
    else (success, record attr { inheritsched = inherit })

pub getinheritsched : Attr → ℤ
getinheritsched attr = attr.inheritsched

pub setscope : Attr → ℤ → Errno × Attr
setscope attr scope =
    if eqb_ℤ scope scope_system
    then (success, record attr { scope = scope })
    else if eqb_ℤ scope scope_process
    then (enotsup, attr)
    else (einval, attr)

pub getscope : Attr → ℤ
getscope attr = attr.scope
