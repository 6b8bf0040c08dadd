-- ===== src/Ring/Walks.antt =====
-- The loops around the ring of active threads.
use read_linuxthreads.Prelude.{
  ℕ, zero, suc, ◌<◌, ◌≡◌, sym, ap, true, false, some, List, [], ◌∷◌, ◌++◌, arith, ◌==◌, ◌∈◌, ◌∉◌,
  length, append-nil, append_assoc, Bool-cases, inl, inr,
}
use read_linuxthreads.Memory.{Ptr, Pthread, Process, Kill, kill}
use read_linuxthreads.Ring.{find_live, kill_live}
use read_linuxthreads.Ring.Laws.{nexts, prevs, Links}

-- One signal to each of the threads.
abbrev pub to_all : (Ptr → Pthread) → ℕ → List Ptr → List Kill
to_all desc sig [] = []
to_all desc sig (x ∷ xs) = record { pid = (desc x).p_pid; sig = sig } ∷ to_all desc sig xs

abbrev pub with_kills : List Kill → Process → Process
with_kills ks p = record p { kills = p.kills ++ ks }

pub kill_live-all :
    (fuel stop sig a : ℕ) (p : Process) (xs : List Ptr)
    → Links (nexts p) (prevs p) stop a xs
    → stop ∉ xs
    → length xs < fuel
    → kill_live fuel stop sig (nexts p a) p ≡ some (with_kills (to_all p.desc sig xs) p)
unfolding kill_live
kill_live-all zero stop sig a p xs l out lt = absurd (omega arith)
kill_live-all (suc k) stop sig a p [] l out lt =
    let here : (stop == stop) ≡ true = ground arith in
    rw (l.0, here) (ap (λ ks. some (record p { kills = ks })) (sym (append-nil p.kills)))
kill_live-all (suc k) stop sig a p (x ∷ xs) l out lt =
    let q : Process = kill (p.desc x).p_pid sig p in
    let e : kill_live k stop sig (nexts q x) q ≡ some (with_kills (to_all p.desc sig xs) q) =
      kill_live-all k stop sig x q xs l.2 (ground arith) (omega arith) in
    let miss : (x == stop) ≡ false = ground arith in
    rw (l.0, miss, e)
      (ap (λ ks. some (record p { kills = ks }))
        (append_assoc p.kills (record { pid = (p.desc x).p_pid; sig = sig } ∷ [])
          (to_all p.desc sig xs)))

-- The search finds the thread in the ring that runs in the process, if no other one does.
pub find_live-some :
    (fuel stop pid a th : ℕ) (p : Process) (xs : List Ptr)
    → Links (nexts p) (prevs p) stop a xs
    → stop ∉ xs
    → length xs < fuel
    → th ∈ xs
    → (p.desc th).p_pid ≡ pid
    → ((b : Ptr) → b ∈ xs → (p.desc b).p_pid ≡ pid → b ≡ th)
    → find_live fuel stop pid (nexts p a) p ≡ some (some th)
unfolding find_live
find_live-some zero stop pid a th p xs l out lt i e only = absurd (omega arith)
find_live-some (suc k) stop pid a th p [] l out lt i e only = cc
find_live-some (suc k) stop pid a th p (x ∷ xs) l out lt i e only =
    elim (Bool-cases ((p.desc x).p_pid == pid)) [
      | inl hit ↦ ground (arith, l.0, only x (ground arith))
      | inr miss ↦ ground (
        arith,
        l.0,
        find_live-some k stop pid x th p xs l.2 (ground arith) (omega arith) (ground arith) e
            (λ b m. only b (ground arith)),
      )
    ]
