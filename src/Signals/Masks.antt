-- ===== src/Signals/Masks.antt =====
-- pthread_sigmask.
use read_linuxthreads.Prelude.{ℕ, ◌≤◌, ◌<◌, ◌≡◌, ◌≢◌, true, false, some, none, arith, ap, Option}
use read_linuxthreads.Memory.{SigSet, success, einval, sig_restart, sig_cancel}
use read_linuxthreads.Signals.{State, sigmask, edit_mask, sigprocmask, sig_setmask}

-- A restart stays pending until the thread waits for it, and a cancellation reaches the thread.
pub record IsKept (s : State) : Type 0 where
  pub restart_blocked : s.mask sig_restart ≡ true
  pub cancel_open : s.mask sig_cancel ≡ false

abbrev at : Option SigSet → SigSet
at none sig = false
at (some m) sig = m sig

-- pthread_sigmask, whatever the mask: a restart stays blocked and CANCEL stays unblocked. A valid
-- `how` succeeds with the old mask, and makes of every other signal but what SIG_UNBLOCK and SIG_BLOCK
-- are kept from what sigprocmask makes of it; any other `how` gives EINVAL, with nothing changed.
pub sigmask-IsKept :
    (how : ℕ) (set : SigSet) (s : State)
    → IsKept s
    → let (code, old, t) = sigmask how set s in
      IsKept t
      × (sig_setmask < how → (code ≡ einval) × (old ≡ none) × (t ≡ s))
      × (how ≤ sig_setmask
          → (code ≡ success)
            × (old ≡ some s.mask)
            × (t ≡ record s { mask = t.mask })
            × ((m : SigSet)
                → sigprocmask how set s.mask ≡ some m
                → (sig : ℕ) → sig ≢ sig_restart
                → sig ≢ sig_cancel
                → t.mask sig ≡ m sig))
unfolding sigmask edit_mask
sigmask-IsKept how set s kept = (
  ground arith,
  λ bad. ground arith,
  λ fine. (
    ground arith,
    ground arith,
    ground arith,
    λ m e sig ne nc.
        (let here : at (sigprocmask how set s.mask) sig ≡ m sig = ap (λ o. at o sig) e in
          ground arith),
  ),
)
