-- ===== src/Prelude/Options.antt =====
-- Options in a chain, where a file needs another `do`.
use mathlib.Core.Option.{Option, none, some}

module _ {ℓ κ} {A : Type ℓ} {B : Type κ} where
  abbrev pub option_map : (A → B) → Option A → Option B
  option_map f none = none
  option_map f (some a) = some (f a)

  abbrev pub option_bind : Option A → (A → Option B) → Option B
  option_bind none f = none
  option_bind (some a) f = f a
