-- ===== src/Prelude/Actions.antt =====
-- Go's `(value, error)` results and methods that change a store: a computation takes the store and
-- gives the store that it leaves, with a value or an error.
pub mod Keeps
pub mod Gives
use green_lab.Prelude.Tests.{if◌then◌else◌}
use mathlib.Core.Bool.{Bool}
use mathlib.Core.List.{List, [], ◌∷◌}
use mathlib.Core.Option.{Option, none, some}

pub data Result {ℓ} (E : Type 0) (A : Type ℓ) : Type ℓ where
  done : A → Result E A
  failed : E → Result E A

-- A computation on the store.
abbrev pub Action : Type 0 → Type 0 → Type 0 → Type 0
Action S E A = S → S × Result E A

abbrev pub resume : {S E A B : Type 0} → S → Result E A → (A → Action S E B) → S × Result E B
resume s (failed e) f = (s, failed e)
resume s (done a) f = f a s

infixl 5 ◌>>=◌
unfoldable pub ◌>>=◌ : {S E A B : Type 0} → Action S E A → (A → Action S E B) → Action S E B
(m >>= f) s = resume (m s).0 (m s).1 f

infixl 5 ◌>>◌
abbrev pub ◌>>◌ : {S E A B : Type 0} → Action S E A → Action S E B → Action S E B
m >> k = m >>= λ _. k

unfoldable pub return : {S E A : Type 0} → A → Action S E A
return a s = (s, done a)

unfoldable pub throw : {S E A : Type 0} → E → Action S E A
throw e s = (s, failed e)

unfoldable pub from : {S E A : Type 0} → Result E A → Action S E A
from o s = (s, o)

abbrev pub or_error : {E A : Type 0} → Result E A → E → Result E A
or_error (failed _) e = failed e
or_error (done a) e = done a

-- `if err != nil { return ..., other }`
unfoldable pub or_throw : {S E A : Type 0} → Action S E A → E → Action S E A
or_throw m e s = ((m s).0, or_error (m s).1 e)

-- An error that is logged only.
unfoldable pub ignore : {S E : Type 0} → Action S E Unit → Action S E Unit
ignore m s = ((m s).0, done tt)

-- `if !ok { return ..., e }`
abbrev pub require : {S E : Type 0} → Bool → E → Action S E Unit
require ok e = if ok then return tt else throw e

unfoldable pub find_row : {A : Type 0} → (A → Bool) → List A → Option A
find_row p [] = none
find_row p (a ∷ rows) = if p a then some a else find_row p rows
