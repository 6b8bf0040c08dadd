-- ===== src/Attr/Laws.antt =====
-- Valid attributes, and the setters.
use read_linuxthreads.Prelude.{ℕ, ◌≡◌, ◌≢◌, ◌⊎◌, List, [], ◌∷◌, arith}
use read_linuxthreads.Prelude.Int.{ℤ}
use read_linuxthreads.Memory.{Errno, success}
use read_linuxthreads.Attr.{
  Attr, create_joinable, create_detached, inherit_sched, explicit_sched, scope_system, sched_other,
  sched_fifo, sched_rr, attr_init, setdetachstate, getdetachstate, setschedparam, getschedparam,
  setschedpolicy, getschedpolicy, setinheritsched, getinheritsched, setscope, getscope,
}

-- What `pthread_create` relies on: every field names a case of its enumeration. The priority is
-- checked by its setter against the policy of that moment only.
pub record IsValid (attr : Attr) : Type 0 where
  pub detachstate : (attr.detachstate ≡ create_joinable) ⊎ (attr.detachstate ≡ create_detached)
  pub schedpolicy :
      (attr.schedpolicy ≡ sched_other)
      ⊎ (attr.schedpolicy ≡ sched_fifo)
      ⊎ (attr.schedpolicy ≡ sched_rr)
  pub inheritsched : (attr.inheritsched ≡ inherit_sched) ⊎ (attr.inheritsched ≡ explicit_sched)
  pub scope : attr.scope ≡ scope_system

-- A call of a setter.
pub data Setter : Type 0 where
  detachstate schedparam schedpolicy inheritsched scope : ℤ → Setter

-- The kernel's side: priorities by policy, and the effective user.
pub record Kernel : Type 0 where
  pub max_prio : ℤ → ℤ
  pub min_prio : ℤ → ℤ
  pub euid : ℕ

abbrev pub run_setter : Kernel → Attr → Setter → Errno × Attr
run_setter k attr (detachstate v) = setdetachstate attr v
run_setter k attr (schedparam v) = setschedparam k.max_prio k.min_prio attr v
run_setter k attr (schedpolicy v) = setschedpolicy k.euid attr v
run_setter k attr (inheritsched v) = setinheritsched attr v
run_setter k attr (scope v) = setscope attr v

abbrev pub run_setters : Kernel → Attr → List Setter → Attr
run_setters k attr [] = attr
run_setters k attr (c ∷ cs) = run_setters k (run_setter k attr c).1 cs

abbrev pub get_field : Attr → Setter → ℤ
get_field attr (detachstate v) = getdetachstate attr
get_field attr (schedparam v) = getschedparam attr
get_field attr (schedpolicy v) = getschedpolicy attr
get_field attr (inheritsched v) = getinheritsched attr
get_field attr (scope v) = getscope attr

abbrev pub value : Setter → ℤ
value (detachstate v) = v
value (schedparam v) = v
value (schedpolicy v) = v
value (inheritsched v) = v
value (scope v) = v

run_setter-IsValid :
    (k : Kernel) (attr : Attr) (c : Setter) → IsValid attr → IsValid (run_setter k attr c).1
unfolding setdetachstate setschedparam setschedpolicy setinheritsched setscope
run_setter-IsValid k attr (detachstate v) h = ground arith
run_setter-IsValid k attr (schedparam v) h = ground arith
run_setter-IsValid k attr (schedpolicy v) h = ground arith
run_setter-IsValid k attr (inheritsched v) h = ground arith
run_setter-IsValid k attr (scope v) h = ground arith

run_setters-IsValid :
    (k : Kernel) (attr : Attr) (cs : List Setter) → IsValid attr → IsValid (run_setters k attr cs)
run_setters-IsValid k attr [] h = h
run_setters-IsValid k attr (c ∷ cs) h =
    run_setters-IsValid k (run_setter k attr c).1 cs (run_setter-IsValid k attr c h)

attr_init-IsValid : IsValid attr_init
unfolding attr_init
attr_init-IsValid = ground arith

-- Whatever setters are called on initialised attributes, with whatever values: each field of the
-- outcome but the priority names a case of its enumeration, and the scope is the supported one.
pub setters-IsValid : (k : Kernel) (cs : List Setter) → IsValid (run_setters k attr_init cs)
setters-IsValid k cs = run_setters-IsValid k attr_init cs attr_init-IsValid

-- After a setter has succeeded the getter of its field reads the value; a setter that fails leaves
-- the attributes as they were.
pub get-set :
    (k : Kernel) (attr : Attr) (c : Setter)
    → ((run_setter k attr c).0 ≡ success → get_field (run_setter k attr c).1 c ≡ value c)
      × ((run_setter k attr c).0 ≢ success → (run_setter k attr c).1 ≡ attr)
unfolding setdetachstate setschedparam setschedpolicy setinheritsched setscope getdetachstate
    getschedparam getschedpolicy getinheritsched getscope
get-set k attr (detachstate v) = (λ e. ground arith, λ e. ground arith)
get-set k attr (schedparam v) = (λ e. ground arith, λ e. ground arith)
get-set k attr (schedpolicy v) = (λ e. ground arith, λ e. ground arith)
get-set k attr (inheritsched v) = (λ e. ground arith, λ e. ground arith)
get-set k attr (scope v) = (λ e. ground arith, λ e. ground arith)
