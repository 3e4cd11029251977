-- ===== src/Iam/Auth.antt =====
-- services/iam/internal/application/auth_service.go. A call's clock readings are one instant, `now`,
-- and the UUIDs that it draws are arguments.
pub mod Runs
pub mod Spent
pub mod Keeps
pub mod Operations
pub mod Requests
pub mod WellFormed
pub mod Sessions
pub mod Recovery
pub mod Resets
pub mod Passwords
use Prim.Native.String.{◌++◌}
use green_lab.Prelude.{
  ℕ, ◌+◌, ◌*◌, String, Bool, true, false, not, Option, none, some, List, [], ◌∷◌, ltb, str_eq,
  if◌then◌else◌,
}
use green_lab.Prelude.Actions.{
  require, done, failed, ◌>>=◌, ◌>>◌, return, throw, from, or_throw, ignore,
}
use green_lab.Ingestion.Domain.{Time, second}
use green_lab.Iam.User.{
  AuthError, user_not_found, invalid_credentials, invalid_token, account_is_not_active,
  get_roles_failed, issue_token_failed, email_already_registered, invalid_reset_token,
  invalid_password, uuid_error, sign_error, storage_error, Outcome, User, RefreshToken, TokenPair,
  Claims, Lib, new_user, check_password, set_password, is_active, activate, set_reset_token,
  clear_reset_token, is_reset_token_valid, access_token_ttl, refresh_token_ttl, new_refresh_token,
}
use green_lab.Iam.Store.{
  Store, Action, Call, publish, blacklist, Event, user_registered, user_logged_in, password_changed,
  email_verified, blacklisted, Org, create_org_row, create_user, get_user_where, update_user,
  get_roles_of, set_roles_of, save_token, get_and_revoke_token, revoke_where, send,
}

pub record RegisterInput : Type 0 where
  pub tenant_id : String
  pub email : String
  pub password : String
  pub first_name : String
  pub last_name : String

pub record LoginInput : Type 0 where
  pub email : String
  pub password : String
  pub user_agent : String
  pub ip_address : String

pub record RefreshInput : Type 0 where
  pub refresh_token : String
  pub user_agent : String
  pub ip_address : String

-- The UUIDs that issueTokenPair draws: the JWT ID, the raw refresh token and the row's ID.
pub record Fresh : Type 0 where
  pub jti : String
  pub raw_refresh : String
  pub row_id : String

-- `errors.Is(err, auth.ErrUserNotFound)`
unfoldable pub is_user_not_found : AuthError → Bool
is_user_not_found user_not_found = true
is_user_not_found _ = false

-- The error of Login when GetByEmail fails.
unfoldable pub hidden : {A : Type 0} → Outcome A → Outcome A
unfolding is_user_not_found
hidden (done a) = done a
hidden (failed e) = failed (if is_user_not_found e then invalid_credentials else e)

unfoldable pub hide_user_not_found : {A : Type 0} → Action A → Action A
unfolding hidden
hide_user_not_found m s = ((m s).0, hidden (m s).1)

-- SelfSignupInput, with the user agent and the address.
pub record SelfSignupInput : Type 0 where
  pub email : String
  pub password : String
  pub user_agent : String
  pub ip_address : String

-- The UUIDs that SelfSignup draws, and the first eight characters of the one in the slug.
pub record SignupFresh : Type 0 where
  pub slug_suffix : String
  pub org_id : String
  pub user_id : String
  pub verify_token : String
  pub family : String
  pub pair : Fresh

module _ (lib : Lib) (issuer : String) (down : Call → Bool) (now : Time) where
  abbrev parse_uuid : String → Action String
  parse_uuid text =
      from (elim (lib.parse_uuid text) [ none ↦ failed uuid_error | some id ↦ done id ])

  abbrev pub claims_of : User → Fresh → Claims
  claims_of user fresh = record {
    user_id = user.id;
    tenant_id = user.tenant_id;
    email = user.email;
    roles = user.roles;
    issuer = issuer;
    issued_at = now;
    expires_at = now + access_token_ttl;
    jti = fresh.jti;
  }

  unfoldable pub issue_token_pair : User → String → String → String → Fresh → Action TokenPair
  issue_token_pair user family user_agent ip fresh = do
    access_token ← from (elim (lib.sign (claims_of user fresh)) [
      | none ↦ failed sign_error
      | some token ↦ done token
    ])
    save_token down now (
        new_refresh_token fresh.row_id now user.id (lib.sha256_hex fresh.raw_refresh) family
          refresh_token_ttl user_agent ip)
    return (record {
      access_token = access_token;
      refresh_token = fresh.raw_refresh;
      expires_at = now + access_token_ttl;
      token_type = "Bearer";
    })

  -- The first lookup of Register: a user that is found ends the call, and any error lets it go on.
  check_email : String → Action Unit
  check_email email s =
      let out = get_user_where down now user_not_found (λ u. str_eq u.email email) s in
      (out.0, elim out.1 [ done u ↦ failed email_already_registered | failed e ↦ done tt ])

  -- Register; the result keeps the raw verify token.
  unfoldable pub register : String → String → RegisterInput → Action User
  unfolding check_email
  register id raw_verify_token input = do
    tenant_id ← parse_uuid input.tenant_id
    check_email input.email
    user ← from (
        new_user lib now id raw_verify_token tenant_id input.email input.password input.first_name
          input.last_name)
    create_user down now (record user { verify_token = lib.sha256_hex raw_verify_token })
    set_roles_of down now user.id user.roles
    ignore (send down now publish (user_registered user.id))
    return user

  unfoldable pub login : String → Fresh → LoginInput → Action TokenPair
  login family fresh input = do
    user ←
        hide_user_not_found
          (get_user_where down now user_not_found (λ u. str_eq u.email input.email))
    require (check_password lib now user input.password) invalid_credentials
    require (is_active user) account_is_not_active
    roles ← or_throw (get_roles_of down now user.id) get_roles_failed
    pair ←
        or_throw
          (issue_token_pair (record user { roles = roles }) family input.user_agent input.ip_address
            fresh)
          issue_token_failed
    ignore (send down now publish (user_logged_in user.id))
    return pair

  -- Refresh, once the presented token is revoked.
  unfoldable pub rotate : Fresh → RefreshInput → RefreshToken → Action TokenPair
  rotate fresh input stored = do
    user ← get_user_where down now user_not_found (λ u. str_eq u.id stored.user_id)
    require (is_active user) account_is_not_active
    roles ← or_throw (get_roles_of down now user.id) get_roles_failed
    or_throw
        (issue_token_pair (record user { roles = roles }) stored.family input.user_agent
          input.ip_address fresh)
        issue_token_failed

  unfoldable pub refresh : Fresh → RefreshInput → Action TokenPair
  refresh fresh input = do
    stored ←
        or_throw (get_and_revoke_token down now (lib.sha256_hex input.refresh_token)) invalid_token
    rotate fresh input stored

  unfoldable pub logout : String → String → Action Unit
  logout refresh_token jti = do
    if str_eq refresh_token ""
        then return tt
        else ignore
            (revoke_where down now (λ t. str_eq t.token_hash (lib.sha256_hex refresh_token)))
    if str_eq jti "" then return tt else ignore (send down now blacklist (blacklisted jti))

  unfoldable pub set_new_reset_token : String → User → Action Unit
  set_new_reset_token raw_token user =
      update_user down now
        (set_reset_token now (lib.sha256_hex raw_token) (now + 60 * 60 * second) user)

  pub forget : String → Store → Outcome User → Store × Outcome Unit
  unfolding is_user_not_found
  forget raw_token s (failed e) = (s, if is_user_not_found e then done tt else failed e)
  forget raw_token s (done user) = set_new_reset_token raw_token user s

  -- ForgotPassword: an unknown address is no error.
  unfoldable pub forgot_password : String → String → Action Unit
  unfolding forget
  forgot_password raw_token email s =
      let out = get_user_where down now user_not_found (λ u. str_eq u.email email) s in
      forget raw_token out.0 out.1

  -- WHERE reset_token = $1 AND reset_token_expiry > NOW()
  abbrev pub has_reset_token : String → User → Bool
  has_reset_token token u =
      if str_eq u.reset_token token
      then elim u.reset_token_expiry [ none ↦ false | some expiry ↦ ltb now expiry ]
      else false

  -- What ends ResetPassword and ChangePassword.
  unfoldable pub save_password : User → Action Unit
  save_password user = do
    update_user down now user
    ignore (revoke_where down now (λ t. str_eq t.user_id user.id))
    ignore (send down now publish (password_changed user.id))

  unfoldable pub reset_password : String → String → Action Unit
  reset_password token new_password = do
    user ←
        or_throw
          (get_user_where down now invalid_reset_token (has_reset_token (lib.sha256_hex token)))
          invalid_reset_token
    require (is_reset_token_valid now user (lib.sha256_hex token)) invalid_reset_token
    changed ← from (set_password lib now user new_password)
    save_password (clear_reset_token now changed)

  activate_user : User → Action Unit
  activate_user user = if user.email_verified then return tt else do
    update_user down now (activate now user)
    ignore (send down now publish (email_verified user.id))

  unfoldable pub verify_email : String → Action Unit
  unfolding activate_user
  verify_email token = do
    user ←
        or_throw
          (get_user_where down now user_not_found
            (λ u. str_eq u.verify_token (lib.sha256_hex token)))
          invalid_token
    activate_user user

  unfoldable pub get_me : String → Action User
  get_me user_id = do
    id ← parse_uuid user_id
    user ← get_user_where down now user_not_found (λ u. str_eq u.id id)
    roles ← or_throw (get_roles_of down now id) get_roles_failed
    return (record user { roles = roles })

  -- An empty name leaves the old one.
  abbrev pub renamed : String → String → String
  renamed old new = if str_eq new "" then old else new

  unfoldable pub update_me : String → String → String → Action User
  update_me user_id first_name last_name = do
    id ← parse_uuid user_id
    user ← get_user_where down now user_not_found (λ u. str_eq u.id id)
    let changed = record user {
      first_name = renamed user.first_name first_name;
      last_name = renamed user.last_name last_name;
      updated_at = now;
    }
    update_user down now changed
    return changed

  unfoldable pub change_password : String → String → String → Action Unit
  change_password user_id current_password new_password = do
    id ← parse_uuid user_id
    user ← get_user_where down now user_not_found (λ u. str_eq u.id id)
    require (check_password lib now user current_password) invalid_password
    changed ← from (set_password lib now user new_password)
    save_password changed

  abbrev pub or_default : String → String → String
  or_default text other = if str_eq text "" then other else text

  unfoldable pub self_signup : SignupFresh → SelfSignupInput → Action (TokenPair × User)
  unfolding check_email
  self_signup fresh input = do
    check_email input.email
    let prefix = lib.to_lower (lib.split_first input.email "@")
    created ← from (
        new_user lib now fresh.user_id fresh.verify_token fresh.org_id input.email input.password
          (or_default (lib.split_first prefix ".") "User") "User")
    let user = record (activate now created) { roles = "admin" ∷ [] }
    create_org_row down now (record {
      id = fresh.org_id;
      plan = "free";
      name = prefix ++ "'s Org";
      slug = or_default (lib.strip_non_alphanumeric prefix) "user" ++ ("-" ++ fresh.slug_suffix);
      owner_user_id = user.id;
      created_at = now;
    })
    create_user down now user
    set_roles_of down now user.id user.roles
    pair ← issue_token_pair user fresh.family input.user_agent input.ip_address fresh.pair
    ignore (send down now publish (user_registered user.id))
    return (pair, user)
