-- ===== src/Iam/Auth/Keeps.antt =====
-- Invariants of the tables that every operation of the service keeps, from what the calls of the
-- database and the user's methods keep.
use green_lab.Prelude.{◌≡◌, refl, String, Bool, List}
use green_lab.Prelude.Actions.{done, failed}
use green_lab.Prelude.Actions.Keeps.{Ensures, Keeps}
use green_lab.Ingestion.Domain.{Time}
use green_lab.Iam.User.{
  AuthError, Outcome, User, RefreshToken, Lib, new_user, set_password, activate, set_reset_token,
  clear_reset_token,
}
use green_lab.Iam.Store.{
  Store, Action, Call, Event, Org, create_org_row, create_user, get_user_where, update_user,
  get_roles_of, set_roles_of, save_token, get_and_revoke_token, revoke_where, send,
}
use green_lab.Iam.Auth.{forget, set_new_reset_token, hide_user_not_found, hidden}

-- What the calls of the database do to the tables, for an invariant `P` of the tables that knows
-- `Good` of every user.
pub record Primitives (P : Store → Type 0) (Good : User → Type 0) : Type 0 where
  pub keeps_create_org :
      (down : Call → Bool) (now : Time) (org : Org) → Keeps P (create_org_row down now org)
  pub keeps_create :
      (down : Call → Bool) (now : Time) (u : User) → Good u → Keeps P (create_user down now u)
  pub ensures_get_user :
      (down : Call → Bool) (now : Time) (e : AuthError) (p : User → Bool)
      → Ensures P Good (get_user_where down now e p)
  pub keeps_update :
      (down : Call → Bool) (now : Time) (u : User) → Good u → Keeps P (update_user down now u)
  pub keeps_get_roles :
      (down : Call → Bool) (now : Time) (id : String) → Keeps P (get_roles_of down now id)
  pub keeps_set_roles :
      (down : Call → Bool) (now : Time) (id : String) (roles : List String)
      → Keeps P (set_roles_of down now id roles)
  pub keeps_save_token :
      (down : Call → Bool) (now : Time) (t : RefreshToken) → Keeps P (save_token down now t)
  pub keeps_get_and_revoke :
      (down : Call → Bool) (now : Time) (hash : String)
      → Keeps P (get_and_revoke_token down now hash)
  pub keeps_revoke :
      (down : Call → Bool) (now : Time) (p : RefreshToken → Bool)
      → Keeps P (revoke_where down now p)
  pub keeps_send :
      (down : Call → Bool) (now : Time) (c : Call) (e : Event) → Keeps P (send down now c e)

-- What the constructor and the methods of a user do to it.
pub record Methods (lib : Lib) (Good : User → Type 0) : Type 0 where
  pub good_new :
      (now : Time) (id token tenant email password first_name last_name : String) (u : User)
      → new_user lib now id token tenant email password first_name last_name ≡ done u
      → Good u
  pub good_set_password :
      (now : Time) (u v : User) (password : String)
      → Good u
      → set_password lib now u password ≡ done v
      → Good v
  pub good_verify_token : (u : User) (t : String) → Good u → Good (record u { verify_token = t })
  pub good_activate : (now : Time) (u : User) → Good u → Good (activate now u)
  pub good_set_reset_token :
      (now : Time) (t : String) (e : Time) (u : User) → Good u → Good (set_reset_token now t e u)
  pub good_clear_reset_token : (now : Time) (u : User) → Good u → Good (clear_reset_token now u)
  pub good_roles : (u : User) (roles : List String) → Good u → Good (record u { roles = roles })
  pub good_names :
      (now : Time) (u : User) (first_name last_name : String)
      → Good u
      → Good (record u { first_name = first_name; last_name = last_name; updated_at = now })

module _ (P : Store → Type 0) (Good : User → Type 0) where
  ensures-hidden :
      (o : Outcome User)
      → ((u : User) → o ≡ done u → Good u)
      → (u : User) → hidden o ≡ done u
      → Good u
  unfolding hidden
  ensures-hidden (failed e) h u g = absurd (cc)
  ensures-hidden (done v) h u g = h u g

  pub Ensures-hide_user_not_found :
      {m : Action User} → Ensures P Good m → Ensures P Good (hide_user_not_found m)
  unfolding hide_user_not_found
  Ensures-hide_user_not_found {m = m} h = record {
    keeps = λ s u. h.keeps s u;
    ensures = λ s u. ensures-hidden (m s).1 (h.ensures s u);
  }

  pub keeps-forget :
      (lib : Lib) (issuer : String) (down : Call → Bool) (now : Time) (token : String) (s : Store)
      (o : Outcome User)
      → P s
      → ((u : User) → o ≡ done u → Keeps P (set_new_reset_token lib issuer down now token u))
      → P (forget lib issuer down now token s o).0
  unfolding forget
  keeps-forget lib issuer down now token s (failed e) u h = u
  keeps-forget lib issuer down now token s (done user) u h = (h user refl).keeps s u
