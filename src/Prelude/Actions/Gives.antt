-- ===== src/Prelude/Actions/Gives.antt =====
-- What a computation that succeeded has done: the inversion of `>>=` and of the other combinators.
use green_lab.Prelude.Actions.{
  Result, done, failed, Action, ◌>>=◌, resume, or_error, or_throw, from, throw, return, ignore,
  require,
}
use mathlib.Core.Path.{◌≡◌, refl, sym, ◌∙◌, ap}
use mathlib.Core.Logic.{◌⊎◌, inl, inr}
use mathlib.Core.Bool.{Bool, true, false}

-- The computation gives `a` and goes from `s` to `t`.
abbrev pub Gives : {S E A : Type 0} → Action S E A → S → A → S → Type 0
Gives m s a t = m s ≡ (t, done a)

pub done_injective : {E A : Type 0} {a b : A} → (let x : Result E A = done a in x ≡ done b) → a ≡ b
done_injective h = cc

pub Result-cases :
    {E A : Type 0} (o : Result E A) → ((a : A) × (o ≡ done a)) ⊎ ((e : E) × (o ≡ failed e))
Result-cases (done a) = inl (a, refl)
Result-cases (failed e) = inr (e, refl)

pub or_error-done :
    {E A : Type 0} (o : Result E A) (e : E) (a : A) → or_error o e ≡ done a → o ≡ done a
or_error-done (failed x) e a h = absurd (cc)
or_error-done (done x) e a h = h

module _ {S E : Type 0} where
  resume-done :
      {A B : Type 0} (t u : S) (o : Result E A) (f : A → Action S E B) (b : B)
      → resume t o f ≡ (u, done b)
      → (a : A) × (o ≡ done a) × (f a t ≡ (u, done b))
  resume-done t u (failed e) f b h = absurd (cc)
  resume-done t u (done a) f b h = (a, refl, h)

  pub bind-Gives :
      {A B : Type 0} (m : Action S E A) (f : A → Action S E B) (s u : S) (b : B)
      → Gives (m >>= f) s b u
      → (a : A) × (t : S) × Gives m s a t × Gives (f a) t b u
  unfolding ◌>>=◌
  bind-Gives m f s u b h =
      let (a, ho, hf) = resume-done (m s).0 u (m s).1 f b h in
      (a, (m s).0, ap (λ o. ((m s).0, o)) ho, hf)

  pub bind_failed :
      {A B : Type 0} (m : Action S E A) (f : A → Action S E B) (s t : S) (e : E)
      → m s ≡ (t, failed e)
      → (m >>= f) s ≡ (t, failed e)
  unfolding ◌>>=◌
  bind_failed m f s t e h = rw h

  pub bind_done :
      {A B : Type 0} (m : Action S E A) (f : A → Action S E B) (s t : S) (a : A)
      → Gives m s a t
      → (m >>= f) s ≡ f a t
  unfolding ◌>>=◌
  bind_done m f s t a h = rw h

  pub or_throw-Gives :
      {A : Type 0} (m : Action S E A) (e : E) (s t : S) (a : A)
      → Gives (or_throw m e) s a t
      → Gives m s a t
  unfolding or_throw
  or_throw-Gives m e s t a h =
      let ho = or_error-done (m s).1 e a (ap (λ p. p.1) h) in
      let hs : (m s).0 ≡ t = ap (λ p. p.0) h in ap (λ o. ((m s).0, o)) ho ∙ ap (λ u. (u, done a)) hs

  pub require-Gives :
      (b : Bool) (e : E) (s t : S) (x : Unit) → Gives (require b e) s x t → (b ≡ true) × (t ≡ s)
  unfolding return throw
  require-Gives true e s t x h = (refl, sym (ap (λ p. p.0) h))
  require-Gives false e s t x h = absurd (cc)

  pub from-Gives :
      {A : Type 0} (o : Result E A) (s t : S) (a : A)
      → Gives (from o) s a t
      → (o ≡ done a) × (t ≡ s)
  unfolding from
  from-Gives o s t a h = (ap (λ p. p.1) h, sym (ap (λ p. p.0) h))

  pub ignore-Gives :
      (m : Action S E Unit) (s t : S) (x : Unit) → Gives (ignore m) s x t → t ≡ (m s).0
  unfolding ignore
  ignore-Gives m s t x h = sym (ap (λ p. p.0) h)

  pub return-Gives :
      {A : Type 0} (a b : A) (s t : S) → Gives (return {E = E} b) s a t → (t ≡ s) × (b ≡ a)
  unfolding return
  return-Gives a b s t h = (sym (ap (λ p. p.0) h), done_injective (ap (λ p. p.1) h))
