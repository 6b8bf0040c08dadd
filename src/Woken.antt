-- ===== src/Woken.antt =====
-- restart.h: a list of threads that are woken one after the other, as `pthread_cond_broadcast` and
-- `sem_post` do.
use read_linuxthreads.Prelude.{
  ◌≡◌, refl, ap, ◌∙◌, inl, inr, Bool-cases, List, [], ◌∷◌, ◌++◌, append_assoc, append-nil, sym,
  arith, has, ◌∈◌, ◌∉◌,
}
use read_linuxthreads.Memory.{Ptr, null, Process, Kill, restart_kill}
use read_linuxthreads.Chain.{nextwaiting, SameOutside}

-- The restarts of the threads, in order.
abbrev pub restarts : Process → List Ptr → List Kill
restarts p [] = []
restarts p (x ∷ xs) = restart_kill x p ∷ restarts p xs

restarts-same :
    (p q : Process) (xs : List Ptr)
    → ((a : Ptr) → (q.desc a).p_pid ≡ (p.desc a).p_pid)
    → restarts q xs ≡ restarts p xs
restarts-same p q [] same = refl
restarts-same p q (x ∷ xs) same = rw (same x, restarts-same p q xs same)

-- All of `xs` are woken, in order, and unlinked.
pub record Woken (p : Process) (xs : List Ptr) (p' : Process) : Type 0 where
  pub kills : p'.kills ≡ p.kills ++ restarts p xs
  pub unlinked : (a : Ptr) → a ∈ xs → nextwaiting p' a ≡ null
  pub same : SameOutside xs p p'
  pub pids : (a : Ptr) → (p'.desc a).p_pid ≡ (p.desc a).p_pid

-- `p'` is `p` after `x` was unlinked and woken.
pub record WokenOne (p : Process) (x : Ptr) (p' : Process) : Type 0 where
  pub kills : p'.kills ≡ p.kills ++ restart_kill x p ∷ []
  pub unlinked : nextwaiting p' x ≡ null
  pub pids : (a : Ptr) → (p'.desc a).p_pid ≡ (p.desc a).p_pid
  pub same : SameOutside (x ∷ []) p p'

pub Woken-nil : (p : Process) → Woken p [] p
Woken-nil p = record {
  kills = sym (append-nil p.kills);
  unlinked = λ a i. cc;
  same = λ a o. refl;
  pids = λ a. refl;
}

pub Woken-cons :
    (x : Ptr) (xs : List Ptr) (p m p' : Process)
    → x ∉ xs
    → WokenOne p x m
    → Woken m xs p'
    → Woken p (x ∷ xs) p'
Woken-cons x xs p m p' out one w = record {
  kills =
      w.kills
      ∙ ap (λ ks. ks ++ restarts m xs) one.kills
      ∙ append_assoc p.kills (restart_kill x p ∷ []) (restarts m xs)
      ∙ ap (λ ks. p.kills ++ restart_kill x p ∷ ks) (restarts-same p m xs one.pids);
  unlinked = λ a i. elim (Bool-cases (has a xs)) [
    | inl later ↦ w.unlinked a later
    | inr now ↦ ground (arith, w.same a now, one.unlinked)
  ];
  same = λ a o. ground (arith, w.same a (ground arith), one.same a (ground arith));
  pids = λ a. w.pids a ∙ one.pids a;
}
