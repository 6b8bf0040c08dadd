-- ===== src/Ring/Kept.antt =====
-- What insertion and removal leave alone: all fields but the links, and the rest of the process.
use read_linuxthreads.Prelude.{◌≡◌, refl, ◌∙◌, ap, ==→eq, Bool-cases, inl, inr, ◌==◌}
use read_linuxthreads.Memory.{Ptr, Pthread, Process}
use read_linuxthreads.Ring.{set_nextlive, set_prevlive, insert_live, remove_live}

-- A reading of a descriptor that does not see the links.
pub record IsBlind {A : Type 0} (f : Pthread → A) : Type 0 where
  pub next : (d : Pthread) (v : Ptr) → f (record d { p_nextlive = v }) ≡ f d
  pub prev : (d : Pthread) (v : Ptr) → f (record d { p_prevlive = v }) ≡ f d

pub pid-IsBlind : IsBlind (λ d. d.p_pid)
pid-IsBlind = record { next = λ d v. refl; prev = λ d v. refl }

module _ {A : Type 0} (f : Pthread → A) (blind : IsBlind f) where
  next_blind : (a v b : Ptr) (p : Process) → f ((set_nextlive a v p).desc b) ≡ f (p.desc b)
  unfolding set_nextlive
  next_blind a v b p = elim (Bool-cases (a == b)) [
    | inl hit ↦ rw hit (blind.next (p.desc a) v ∙ ap (λ c. f (p.desc c)) (==→eq a b hit))
    | inr miss ↦ rw miss refl
  ]

  prev_blind : (a v b : Ptr) (p : Process) → f ((set_prevlive a v p).desc b) ≡ f (p.desc b)
  unfolding set_prevlive
  prev_blind a v b p = elim (Bool-cases (a == b)) [
    | inl hit ↦ rw hit (blind.prev (p.desc a) v ∙ ap (λ c. f (p.desc c)) (==→eq a b hit))
    | inr miss ↦ rw miss refl
  ]

  pub insert_live-blind :
      (main th b : Ptr) (p : Process) → f ((insert_live main th p).desc b) ≡ f (p.desc b)
  unfolding insert_live
  insert_live-blind main th b p =
      next_blind main th b _ ∙ prev_blind _ th b _ ∙ next_blind th _ b _ ∙ prev_blind th main b p

  pub remove_live-blind : (th b : Ptr) (p : Process) → f ((remove_live th p).desc b) ≡ f (p.desc b)
  unfolding remove_live
  remove_live-blind th b p = next_blind _ _ b _ ∙ prev_blind _ _ b p

-- `q` is `p` but for the descriptors.
pub record SameProcess (p q : Process) : Type 0 where
  pub main : q.main_thread ≡ p.main_thread
  pub kills : q.kills ≡ p.kills
  pub requests : q.requests ≡ p.requests

pub insert_live-SameProcess : (main th : Ptr) (p : Process) → SameProcess p (insert_live main th p)
unfolding insert_live set_nextlive set_prevlive
insert_live-SameProcess main th p = record { main = refl; kills = refl; requests = refl }

pub remove_live-SameProcess : (th : Ptr) (p : Process) → SameProcess p (remove_live th p)
unfolding remove_live set_nextlive set_prevlive
remove_live-SameProcess th p = record { main = refl; kills = refl; requests = refl }
