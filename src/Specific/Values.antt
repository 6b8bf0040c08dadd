-- ===== src/Specific/Values.antt =====
-- The values under the keys, and the destructors that a thread runs when it ends.
use read_linuxthreads.Prelude.{
  ℕ, zero, suc, ◌+◌, ◌≤◌, ◌<◌, ◌≡◌, refl, not, ◌&&◌, List, [], ◌∷◌, arith, ◌==◌, if◌then◌else◌,
  Bool-cases, inl, inr, ◌∙◌,
}
use mathlib.Core.Path.{ap₂}
use read_linuxthreads.Memory.{Ptr, null, Process, keys_max, success, einval}
use read_linuxthreads.Specific.{
  Key, State, setspecific, getspecific, destroy_loop, destroy_specifics,
}

-- pthread_setspecific refuses a key out of range with EINVAL, changes nothing, and
-- pthread_getspecific reads NULL there; for any other key it succeeds, and then the calling thread
-- reads the value under this key, while it reads its old values under the other keys, and other
-- threads under all.
pub getspecific-setspecific :
    (self th : Ptr) (key k v : ℕ) (p : Process)
    → let (code, p') = setspecific self key v p in
      (keys_max ≤ key → (code ≡ einval) × (p' ≡ p) × (getspecific self key p ≡ null))
      × (key < keys_max
          → (code ≡ success)
            × (getspecific th k p'
                ≡ (if (th == self) && (k == key) then v else getspecific th k p)))
unfolding setspecific getspecific
getspecific-setspecific self th key k v p = (λ out. ground arith, λ lt. ground arith)

-- The destructors to call from key `i` on, with their arguments: those of the keys whose destructor
-- and value are not NULL, in the order of the keys.
pub due : ℕ → ℕ → (ℕ → Key) → (ℕ → ℕ) → List (ℕ × ℕ)
due zero i keys values = []
due (suc n) i keys values =
    let rest = due n (i + 1) keys values in
    if not ((keys i).destr == null) && not (values i == null)
    then ((keys i).destr, values i) ∷ rest
    else rest

-- The calls one after the other.
abbrev pub run_calls : (ℕ → ℕ → State → State) → List (ℕ × ℕ) → State → State
run_calls call [] s = s
run_calls call ((f, a) ∷ cs) s = run_calls call cs (call f a s)

-- Destructors that set no value of the thread and no key.
pub record IsQuiet (call : ℕ → ℕ → State → State) (self : Ptr) : Type 0 where
  pub keys : (f a : ℕ) (s : State) → (call f a s).keys ≡ s.keys
  pub values :
      (f a : ℕ) (s : State)
      → ((call f a s).process.desc self).p_specific ≡ (s.process.desc self).p_specific

module _ (call : ℕ → ℕ → State → State) (self : Ptr) (quiet : IsQuiet call self) where
  destroy_loop-due :
      (n i : ℕ) (s : State)
      → destroy_loop call n i self s
        ≡ run_calls call (due n i s.keys (s.process.desc self).p_specific) s
  unfolding destroy_loop due
  destroy_loop-due zero i s = refl
  destroy_loop-due (suc n) i s =
      elim (Bool-cases
        (not ((s.keys i).destr == null) && not ((s.process.desc self).p_specific i == null))) [
          | inl run ↦
              (let f = (s.keys i).destr in
                let a = (s.process.desc self).p_specific i in
                let t = call f a s in
                rw run (
                  destroy_loop-due n (i + 1) t
                  ∙ ap₂ (λ k v. run_calls call (due n (i + 1) k v) t) (quiet.keys f a s)
                      (quiet.values f a s)))
          | inr skip ↦ rw skip (destroy_loop-due n (i + 1) s)
        ]

  -- With destructors that set no value of the thread and no key, the end of a thread calls, once
  -- each and in the order of the keys, the destructors that are not NULL whose values are not NULL,
  -- on these values, and nothing else.
  pub destroy_specifics-due :
      (s : State)
      → destroy_specifics call self s
        ≡ run_calls call (due keys_max 0 s.keys (s.process.desc self).p_specific) s
  unfolding destroy_specifics
  destroy_specifics-due s = destroy_loop-due keys_max 0 s
