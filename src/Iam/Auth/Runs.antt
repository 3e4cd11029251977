-- ===== src/Iam/Auth/Runs.antt =====
-- What a step of the service that succeeded has done: the inversion of `>>=` and of the calls.
use green_lab.Prelude.{
  ◌≡◌, ◌∙◌, ap, String, Bool, false, Option, none, some, List, [], ◌∷◌, ◌++◌, map, Bool-cases, inl,
  inr, arith,
}
use green_lab.Prelude.Actions.Gives.{Gives}
use green_lab.Prelude.Actions.{done, failed, find_row}
use green_lab.Ingestion.Domain.{Time}
use green_lab.Iam.User.{AuthError, Outcome, User, RefreshToken}
use green_lab.Iam.Store.{
  Store, Action, Call, get_user, revoke, Event, get_user_where, get_roles_of, save_token,
  update_user, update_row, roles_of, revoke_if, revoke_where, send,
}
use green_lab.Iam.Auth.{hide_user_not_found, hidden}

found-Gives :
    (e : AuthError) (s t : Store) (o : Option User) (u : User)
    → (elim o as (λ _. Store × Outcome User) [ none ↦ (s, failed e) | some v ↦ (s, done v) ])
      ≡ (t, done u)
    → (o ≡ some u) × (t ≡ s)
found-Gives e s t none u h = absurd (cc)
found-Gives e s t (some v) u h = (cc, cc)

hide-done : (o : Outcome User) (u : User) → hidden o ≡ done u → o ≡ done u
unfolding hidden
hide-done (failed e) u h = absurd (cc)
hide-done (done v) u h = h

pub hide_user_not_found-Gives :
    (m : Action User) (s t : Store) (u : User) → Gives (hide_user_not_found m) s u t → Gives m s u t
unfolding hide_user_not_found
hide_user_not_found-Gives m s t u h =
    let ho = hide-done (m s).1 u (ap (λ p. p.1) h) in
    let hs : (m s).0 ≡ t = ap (λ p. p.0) h in ap (λ o. ((m s).0, o)) ho ∙ ap (λ v. (v, done u)) hs

module _ (down : Call → Bool) (now : Time) where
  pub get_user_where-Gives :
      (e : AuthError) (p : User → Bool) (s t : Store) (u : User)
      → Gives (get_user_where down now e p) s u t
      → (find_row p s.users ≡ some u) × (t ≡ s)
  unfolding get_user_where
  get_user_where-Gives e p s t u h = elim (Bool-cases (down get_user)) [
    | inl d ↦ absurd (ground arith)
    | inr d ↦ found-Gives e s t (find_row p s.users) u (rw d at h)
  ]

  pub get_roles_of-Gives :
      (id : String) (s t : Store) (roles : List String)
      → Gives (get_roles_of down now id) s roles t
      → (t ≡ s) × (roles_of id s.roles ≡ roles)
  unfolding get_roles_of
  get_roles_of-Gives id s t roles h = (ground arith, ground arith)

  pub save_token-Gives :
      (row : RefreshToken) (s t : Store) (x : Unit)
      → Gives (save_token down now row) s x t
      → t.tokens ≡ s.tokens ++ row ∷ []
  unfolding save_token
  save_token-Gives row s t x h = ground arith

  pub update_user-Gives :
      (u : User) (s t : Store) (x : Unit)
      → Gives (update_user down now u) s x t
      → (t.tokens ≡ s.tokens) × (t.users ≡ map (update_row now u) s.users)
  unfolding update_user
  update_user-Gives u s t x h = ground arith

  pub tokens-send : (c : Call) (e : Event) (s : Store) → (send down now c e s).0.tokens ≡ s.tokens
  unfolding send
  tokens-send c e s = ground arith

  pub users-send : (c : Call) (e : Event) (s : Store) → (send down now c e s).0.users ≡ s.users
  unfolding send
  users-send c e s = ground arith

  pub revoke_where_up :
      (p : RefreshToken → Bool) (s : Store)
      → down revoke ≡ false
      → (revoke_where down now p s).0 ≡ record s { tokens = map (revoke_if p) s.tokens }
  unfolding revoke_where
  revoke_where_up p s h = rw h
