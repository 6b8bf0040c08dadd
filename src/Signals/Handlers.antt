-- ===== src/Signals/Handlers.antt =====
-- The two loops of sigwait over the table of handlers.
use read_linuxthreads.Prelude.{
  ℕ, zero, suc, ◌+◌, ◌≡◌, Bool, false, ◌&&◌, arith, ltb, leb, if◌then◌else◌,
}
use read_linuxthreads.Memory.{SigSet}
use read_linuxthreads.Signals.{
  Locals, Action, waiting_action, catchable, chosen, set_action, install, restore, save_one,
  install_one,
}

-- A loop from `s` with `rounds` rounds acts on the chosen signals of its range.
abbrev pub in_loop : (rounds s : ℕ) → SigSet → ℕ → Bool
in_loop rounds s set sig = leb s sig && ltb sig (s + rounds) && chosen set sig

-- The first loop unblocks the chosen signals, saves their handlers and installs its own.
pub install_lem :
    (rounds s : ℕ) (set : SigSet) (l : Locals) (actions : ℕ → Action) (sig : ℕ)
    → let (m, new) = install rounds s set l actions in
      (m.wait_mask sig ≡ (if in_loop rounds s set sig then false else l.wait_mask sig))
      × (m.saved_signals sig ≡ (
          if in_loop rounds s set sig && catchable sig then actions sig else l.saved_signals sig))
      × (new sig
          ≡ (if in_loop rounds s set sig && catchable sig then waiting_action else actions sig))
unfolding install
install_lem zero s set l actions sig = ground arith
install_lem (suc rounds) s set l actions sig = ground (
  arith,
  install_lem rounds (s + 1) set (save_one set s l actions) (install_one set s actions) sig,
)

-- The second loop puts back what is saved for the chosen signals.
pub restore_lem :
    (rounds s : ℕ) (set : SigSet) (saved actions : ℕ → Action) (sig : ℕ)
    → restore rounds s set saved actions sig
      ≡ (if in_loop rounds s set sig && catchable sig then saved sig else actions sig)
unfolding restore
restore_lem zero s set saved actions sig = ground arith
restore_lem (suc rounds) s set saved actions sig = ground (
  arith,
  restore_lem rounds (s + 1) set saved
      (if chosen set s then set_action s (saved s) actions else actions) sig,
)

-- Behind each other the two loops leave all handlers as they were.
pub restore-install :
    (rounds : ℕ) (set : SigSet) (l : Locals) (actions : ℕ → Action) (sig : ℕ)
    → let (m, new) = install rounds 0 set l actions in
      restore rounds 0 set m.saved_signals new sig ≡ actions sig
restore-install rounds set l actions sig =
    let (m, new) = install rounds 0 set l actions in
    ground (
      arith,
      install_lem rounds 0 set l actions sig,
      restore_lem rounds 0 set m.saved_signals new sig,
    )
