-- ===== src/Prelude/Actions/Keeps.antt =====
-- Invariants of the store that a computation keeps, with what is then known of its result, put
-- together from those of its steps.
use green_lab.Prelude.Tests.{if◌then◌else◌}
use green_lab.Prelude.Actions.{
  Result, done, failed, Action, ◌>>=◌, ◌>>◌, return, throw, from, or_throw, ignore, resume, require,
}
use green_lab.Prelude.Actions.Gives.{or_error-done}
use mathlib.Core.Path.{◌≡◌, refl}
use mathlib.Core.Bool.{Bool, true, false}

module _ {S E : Type 0} (P : S → Type 0) where
  -- From a store with `P`, the computation leaves one with `P`, whether it succeeds or fails, and a
  -- value that it gives has `Q`.
  pub record Ensures {A : Type 0} (Q : A → Type 0) (m : Action S E A) : Type 0 where
    pub keeps : (s : S) → P s → P (m s).0
    pub ensures : (s : S) → P s → (a : A) → (m s).1 ≡ done a → Q a

  abbrev pub Keeps : {A : Type 0} → Action S E A → Type 0
  Keeps {A} m = Ensures (λ (a : A). Unit) m

  pub Keeps-all : {A : Type 0} {m : Action S E A} → ((s : S) → P s → P (m s).0) → Keeps m
  Keeps-all h = record { keeps = h; ensures = λ s u a e. tt }

  pub Keeps-any : {A : Type 0} {Q : A → Type 0} {m : Action S E A} → Ensures Q m → Keeps m
  Keeps-any h = Keeps-all h.keeps

  keeps-resume :
      {A B : Type 0} {Q : A → Type 0} {R : B → Type 0} (t : S) (o : Result E A)
      (f : A → Action S E B)
      → P t
      → ((a : A) → o ≡ done a → Q a)
      → ((a : A) → Q a → Ensures R (f a))
      → P (resume t o f).0
  keeps-resume t (failed e) f u q k = u
  keeps-resume t (done a) f u q k = (k a (q a refl)).keeps t u

  ensures-resume :
      {A B : Type 0} {Q : A → Type 0} {R : B → Type 0} (t : S) (o : Result E A)
      (f : A → Action S E B)
      → P t
      → ((a : A) → o ≡ done a → Q a)
      → ((a : A) → Q a → Ensures R (f a))
      → (b : B) → (resume t o f).1 ≡ done b
      → R b
  ensures-resume t (failed e) f u q k b h = absurd (cc)
  ensures-resume t (done a) f u q k b h = (k a (q a refl)).ensures t u b h

  pub Ensures-bind :
      {A B : Type 0} {Q : A → Type 0} {R : B → Type 0} {m : Action S E A} {f : A → Action S E B}
      → Ensures Q m
      → ((a : A) → Q a → Ensures R (f a))
      → Ensures R (m >>= f)
  unfolding ◌>>=◌
  Ensures-bind {m = m} {f = f} hm hf = record {
    keeps = λ s u. keeps-resume (m s).0 (m s).1 f (hm.keeps s u) (hm.ensures s u) hf;
    ensures = λ s u. ensures-resume (m s).0 (m s).1 f (hm.keeps s u) (hm.ensures s u) hf;
  }

  pub Keeps-bind :
      {A B : Type 0} {R : B → Type 0} {m : Action S E A} {f : A → Action S E B}
      → Keeps m
      → ((a : A) → Ensures R (f a))
      → Ensures R (m >>= f)
  Keeps-bind hm hf = Ensures-bind hm (λ a _. hf a)

  pub Keeps-then :
      {A B : Type 0} {R : B → Type 0} {m : Action S E A} {k : Action S E B}
      → Keeps m
      → Ensures R k
      → Ensures R (m >> k)
  Keeps-then hm hk = Ensures-bind hm (λ _ _. hk)

  pub Keeps-return : {A : Type 0} (a : A) → Keeps (return a)
  unfolding return
  Keeps-return a = Keeps-all (λ s u. u)

  pub Keeps-throw : {A : Type 0} (e : E) → Keeps (throw {A = A} e)
  unfolding throw
  Keeps-throw e = Keeps-all (λ s u. u)

  pub Keeps-from : {A : Type 0} (o : Result E A) → Keeps (from o)
  unfolding from
  Keeps-from o = Keeps-all (λ s u. u)

  -- A value that a step gives without the store.
  pub Ensures-from :
      {A : Type 0} (Q : A → Type 0) (o : Result E A)
      → ((a : A) → o ≡ done a → Q a)
      → Ensures Q (from o)
  unfolding from
  Ensures-from Q o h = record { keeps = λ s u. u; ensures = λ s u. h }

  pub Ensures-or_throw :
      {A : Type 0} {Q : A → Type 0} {m : Action S E A} (e : E)
      → Ensures Q m
      → Ensures Q (or_throw m e)
  unfolding or_throw
  Ensures-or_throw {m = m} e h = record {
    keeps = λ s u. h.keeps s u;
    ensures = λ s u a g. h.ensures s u a (or_error-done (m s).1 e a g);
  }

  pub Keeps-ignore : {m : Action S E Unit} → Keeps m → Keeps (ignore m)
  unfolding ignore
  Keeps-ignore h = Keeps-all (λ s u. h.keeps s u)

  pub Keeps-require : (ok : Bool) (e : E) → Keeps (require ok e)
  Keeps-require true e = Keeps-return tt
  Keeps-require false e = Keeps-throw e

  pub Ensures-if :
      {A : Type 0} {Q : A → Type 0} (b : Bool) {m k : Action S E A}
      → Ensures Q m
      → Ensures Q k
      → Ensures Q (if b then m else k)
  Ensures-if true hm hk = hm
  Ensures-if false hm hk = hk
