-- ===== src/Run.antt =====
-- A call of a library function as far as its thread runs without waiting. A section between
-- `acquire` and `release` (spinlock.h) is one atomic piece for the threads that use the same lock.
use read_linuxthreads.Prelude.{ℕ, ◌≡◌, ap}

pub data Run (S A : Type 0) : Type 0 where
  done : A → S → Run S A
  -- `acquire` finds the spinlock taken: the loop of `acquire` goes on until another thread releases.
  spins : Run S A
  -- The thread waits in `suspend`.
  suspends : S → Run S A
  -- The thread calls `pthread_exit` with the value.
  exits : ℕ → S → Run S A

abbrev pub M : Type 0 → Type 0 → Type 0
M S A = S → Run S A

abbrev pub and_then : {S A B : Type 0} → Run S A → (A → M S B) → Run S B
and_then (done a s) f = f a s
and_then spins f = spins
and_then (suspends s) f = suspends s
and_then (exits v s) f = exits v s

infixl 5 ◌>>=◌ ◌>>◌
abbrev pub ◌>>=◌ : {S A B : Type 0} → M S A → (A → M S B) → M S B
◌>>=◌ m f s = and_then (m s) f

abbrev pub ◌>>◌ : {S B : Type 0} → M S (Unit {0}) → M S B → M S B
m >> k = m >>= λ _. k

abbrev pub pure : {S A : Type 0} → A → M S A
pure a s = done a s

abbrev pub get : {S : Type 0} → M S S
get s = done s s

abbrev pub modify : {S : Type 0} → (S → S) → M S (Unit {0})
modify f s = done tt (f s)

-- The call returns `v` in a state with `P`; the thread waits in a state with `P`.
abbrev pub Returns : {S A : Type 0} → Run S A → A → (S → Type 0) → Type 0
Returns (done a s) v P = (a ≡ v) × P s
Returns _ v P = ⊥

abbrev pub Waits : {S A : Type 0} → Run S A → (S → Type 0) → Type 0
Waits (suspends s) P = P s
Waits _ P = ⊥

abbrev pub Exits : {S A : Type 0} → Run S A → ℕ → (S → Type 0) → Type 0
Exits (exits a s) v P = (a ≡ v) × P s
Exits _ v P = ⊥

pub Exits-mono :
    {S A : Type 0} (r : Run S A) (v : ℕ) {P Q : S → Type 0}
    → Exits r v P
    → ((s : S) → P s → Q s)
    → Exits r v Q
Exits-mono (exits a s) v e weaken = (e.0, weaken s e.1)
Exits-mono (done a s) v e weaken = absurd e
Exits-mono spins v e weaken = absurd e
Exits-mono (suspends s) v e weaken = absurd e

pub Waits-mono :
    {S A : Type 0} (r : Run S A) {P Q : S → Type 0} → Waits r P → ((s : S) → P s → Q s) → Waits r Q
Waits-mono (suspends s) e weaken = weaken s e
Waits-mono (done a s) e weaken = absurd e
Waits-mono spins e weaken = absurd e
Waits-mono (exits a s) e weaken = absurd e

pub Returns-done :
    {S A : Type 0} (r : Run S A) (v : A) (P : S → Type 0)
    → Returns r v P
    → (s : S) × (r ≡ done v s) × P s
Returns-done (done a s) v P e = (s, ap (λ b. done b s) e.0, e.1)
Returns-done spins v P e = absurd e
Returns-done (suspends s) v P e = absurd e
Returns-done (exits a s) v P e = absurd e
