-- ===== src/Iam/Store.antt =====
-- services/iam/internal/infrastructure/postgres: token_repo.go and user_repo.go, on tables that are
-- lists of rows, with the unique keys of migrations/000001_init.up.sql. A call of the database or of
-- another server may fail, by a foreign key or otherwise: `down` says which calls do.
use green_lab.Prelude.{
  String, Bool, true, not, ◌&&◌, ◌||◌, none, some, List, [], ◌∷◌, ◌++◌, map, ltb, str_eq,
  if◌then◌else◌,
}
use green_lab.Prelude.Actions.{done, failed, find_row}
use green_lab.Prelude.Actions
use green_lab.Ingestion.Domain.{Time}
use green_lab.Iam.User.{
  AuthError, token_not_found, email_already_registered, slug_taken, storage_error, User,
  RefreshToken,
}

-- What the service publishes or passes to the cache.
pub data Event : Type 0 where
  user_registered user_logged_in password_changed email_verified : String → Event
  blacklisted : String → Event

-- Org of domain/tenant/org.go: the logo and the website, which are empty, and the time of the last change are left out.
pub record Org : Type 0 where
  pub id : String
  pub name : String
  pub slug : String
  pub plan : String
  pub owner_user_id : String
  pub created_at : Time

pub record Store : Type 0 where
  pub orgs : List Org
  pub users : List User
  pub roles : List (String × String)
  pub tokens : List RefreshToken
  pub events : List Event

-- The calls that can fail.
pub data Call : Type 0 where
  create_org create get_user update get_roles set_roles save_refresh_token revoke publish
        blacklist :
      Call

-- A computation on the store.
abbrev pub Action : Type 0 → Type 0
Action A = Actions.Action Store AuthError A

abbrev pub revoke_if : (RefreshToken → Bool) → RefreshToken → RefreshToken
revoke_if p t = if p t then record t { revoked = true } else t

-- WHERE token_hash = $1 AND revoked = FALSE AND expires_at > NOW()
unfoldable pub is_live : Time → String → RefreshToken → Bool
is_live now token_hash t = str_eq t.token_hash token_hash && not t.revoked && ltb now t.expires_at

unfoldable pub remove_roles : String → List (String × String) → List (String × String)
remove_roles user_id [] = []
remove_roles user_id ((u, r) ∷ rows) =
    let rest = remove_roles user_id rows in if str_eq u user_id then rest else (u, r) ∷ rest

unfoldable pub roles_of : String → List (String × String) → List String
roles_of user_id [] = []
roles_of user_id ((u, r) ∷ rows) =
    let rest = roles_of user_id rows in if str_eq u user_id then r ∷ rest else rest

-- The columns that UserRepo.Update sets.
abbrev pub update_row : Time → User → User → User
update_row now u row =
    if str_eq row.id u.id
    then record row {
      first_name = u.first_name;
      last_name = u.last_name;
      password_hash = u.password_hash;
      status = u.status;
      email_verified = u.email_verified;
      verify_token = u.verify_token;
      reset_token = u.reset_token;
      reset_token_expiry = u.reset_token_expiry;
      updated_at = now;
    }
    else row

module _ (down : Call → Bool) (now : Time) where
  abbrev guarded : {A : Type 0} → Call → Action A → Action A
  guarded c m s = if down c then (s, failed storage_error) else m s

  -- OrgRepo.Create; `slug` is a unique key.
  unfoldable pub create_org_row : Org → Action Unit
  unfolding find_row
  create_org_row org = guarded create_org (λ s.
      elim (find_row (λ row. str_eq row.slug org.slug || str_eq row.id org.id) s.orgs) [
        | some row ↦ (s, failed slug_taken)
        | none ↦ (record s { orgs = s.orgs ++ org ∷ [] }, done tt)
      ])

  -- UserRepo.Create: the columns that are not inserted have their defaults.
  unfoldable pub create_user : User → Action Unit
  unfolding find_row
  create_user u = guarded create (λ s.
      elim (find_row (λ row. str_eq row.email u.email || str_eq row.id u.id) s.users) [
        | some row ↦ (s, failed email_already_registered)
        | none ↦ (
          record s {
            users =
                s.users
                ++ record u {
                  roles = [];
                  reset_token = "";
                  reset_token_expiry = none;
                  created_at = now;
                  updated_at = now;
                }
                  ∷ [];
          },
          done tt,
        )
      ])

  -- GetByID, GetByEmail, GetByVerifyToken and GetByResetToken, by their WHERE clause and the error of
  -- a missing row.
  unfoldable pub get_user_where : AuthError → (User → Bool) → Action User
  unfolding find_row
  get_user_where e p =
      guarded get_user
        (λ s. elim (find_row p s.users) [ none ↦ (s, failed e) | some u ↦ (s, done u) ])

  unfoldable pub update_user : User → Action Unit
  update_user u =
      guarded update (λ s. (record s { users = map (update_row now u) s.users }, done tt))

  unfoldable pub get_roles_of : String → Action (List String)
  unfolding roles_of
  get_roles_of user_id = guarded get_roles (λ s. (s, done (roles_of user_id s.roles)))

  -- The transaction of SetRoles, for roles that are all different.
  unfoldable pub set_roles_of : String → List String → Action Unit
  unfolding remove_roles
  set_roles_of user_id roles = guarded set_roles (λ s.
      (record s { roles = remove_roles user_id s.roles ++ map (λ r. (user_id, r)) roles }, done tt))

  -- SaveRefreshToken; `token_hash` is a unique key.
  unfoldable pub save_token : RefreshToken → Action Unit
  unfolding find_row
  save_token t = guarded save_refresh_token (λ s.
      elim (find_row (λ row. str_eq row.token_hash t.token_hash || str_eq row.id t.id) s.tokens) [
        | some row ↦ (s, failed storage_error)
        | none ↦ (record s { tokens = s.tokens ++ t ∷ [] }, done tt)
      ])

  -- GetAndRevokeRefreshToken: the row that it returns is the updated one.
  unfoldable pub get_and_revoke_token : String → Action RefreshToken
  unfolding find_row is_live
  get_and_revoke_token token_hash = guarded revoke (λ s.
      elim (find_row (is_live now token_hash) s.tokens) [
        | none ↦ (s, failed token_not_found)
        | some row ↦ (
          record s { tokens = map (revoke_if (is_live now token_hash)) s.tokens },
          done (record row { revoked = true }),
        )
      ])

  -- RevokeRefreshToken and RevokeAllForUser, by their WHERE clause.
  unfoldable pub revoke_where : (RefreshToken → Bool) → Action Unit
  revoke_where p = guarded revoke (λ s. (record s { tokens = map (revoke_if p) s.tokens }, done tt))

  -- A call of the publisher or of the cache.
  unfoldable pub send : Call → Event → Action Unit
  send c e = guarded c (λ s. (record s { events = s.events ++ e ∷ [] }, done tt))
