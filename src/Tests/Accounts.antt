-- ===== src/Tests/Accounts.antt =====
-- Tests of accounts and sessions.
use mathlib.Core.Bool.{false≢true}
use green_lab.Prelude.{
  ℕ, ◌*◌, All, get_elem?, eq_iff, ◌+◌, ◌≡◌, refl, Bool, true, false, none, some, List, [], ◌∷◌,
  ◌++◌, str_eq, arith,
}
use green_lab.Prelude.Actions.{done, failed, ◌>>=◌, return, throw, from, or_throw, ignore, find_row}
use green_lab.Iam.User.{
  Lib, User, RefreshToken, TokenPair, active, invalid_token, is_active, check_password,
  set_password, is_reset_token_valid, new_refresh_token, refresh_token_ttl, access_token_ttl,
}
use green_lab.Iam.Store.{
  Store, Call, user_logged_in, password_changed, is_live, roles_of, get_user_where, get_roles_of,
  get_and_revoke_token, save_token, update_user, revoke_where, send,
}
use green_lab.Iam.Auth.{
  change_password, LoginInput, RefreshInput, Fresh, hidden, hide_user_not_found, issue_token_pair,
  rotate, refresh, login, save_password, reset_password, forgot_password,
}
use green_lab.Iam.Auth.Requests.{Request, logout_request, login_request, serve_all}
use green_lab.Iam.Auth.Sessions.{refresh_once}
use green_lab.Iam.Auth.WellFormed.{WellFormed, serve_all-WellFormed}
use green_lab.Iam.Auth.Resets.{reset_password-forgot_password}
use green_lab.Ingestion.Domain.{second}
use green_lab.Iam.Auth.Passwords.{HasNewPassword, MayReset}
use green_lab.Iam.Auth.Recovery.{
  change_password-LoggedOut, LoggedOut, granted, login-Gives, reset_password-LoggedOut,
}

abbrev lib : Lib
lib = record {
  sha256_hex = λ text. text;
  bcrypt_generate = some;
  bcrypt_compare = str_eq;
  parse_address = λ text. true;
  parse_uuid = some;
  sign = λ claims. some claims.jti;
  to_lower = λ text. text;
  split_first = λ text separator. text;
  strip_non_alphanumeric = λ text. text;
}

abbrev all_up : Call → Bool
all_up call = false

abbrev ann : User
ann = record {
  id = "u1";
  tenant_id = "t1";
  email = "ann@example.org";
  password_hash = "correct horse";
  first_name = "Ann";
  last_name = "Lee";
  roles = [];
  status = active;
  email_verified = true;
  verify_token = "";
  reset_token = "reset";
  reset_token_expiry = some 500;
  created_at = 1;
  updated_at = 1;
}

abbrev row : RefreshToken
row = record {
  id = "r1";
  user_id = "u1";
  token_hash = "old";
  family = "f1";
  expires_at = 1000;
  created_at = 1;
  revoked = false;
  user_agent = "";
  ip_address = "";
}

abbrev store : Store
store = record {
  orgs = [];
  users = ann ∷ [];
  roles = ("u1", "viewer") ∷ [];
  tokens = row ∷ [];
  events = [];
}

abbrev fresh : Fresh
fresh = record { jti = "j2"; raw_refresh = "new"; row_id = "r2" }

abbrev old_token : RefreshInput
old_token = record { refresh_token = "old"; user_agent = ""; ip_address = "" }

abbrev new_pair : TokenPair
new_pair = record {
  access_token = "j2";
  refresh_token = "new";
  expires_at = 100 + access_token_ttl;
  token_type = "Bearer";
}

exchanged : (refresh lib "iam" all_up 100 fresh old_token store).1 ≡ done new_pair
unfolding refresh rotate issue_token_pair get_and_revoke_token get_user_where get_roles_of
    save_token ◌>>=◌ return throw from or_throw find_row is_live roles_of is_active
exchanged = refl

abbrev between : List Request
between = logout_request all_up 150 "new" "j2" ∷ []

refresh_once_example :
    (refresh lib "iam" all_up 200 fresh old_token
      (serve_all lib "iam" between (refresh lib "iam" all_up 100 fresh old_token store).0)).1
    ≡ failed invalid_token
refresh_once_example =
    refresh_once lib "iam" all_up all_up 100 200 fresh fresh old_token old_token store new_pair
      between exchanged refl (omega arith)

abbrev credentials : LoginInput
credentials = record {
  email = "ann@example.org";
  password = "correct horse";
  user_agent = "";
  ip_address = "";
}

abbrev logged_in : Store
logged_in = record store {
  tokens = row ∷ new_refresh_token "r2" 100 "u1" "new" "f2" refresh_token_ttl "" "" ∷ [];
  events = user_logged_in "u1" ∷ [];
}

entered : login lib "iam" all_up 100 "f2" fresh credentials store ≡ (logged_in, done new_pair)
unfolding login hide_user_not_found hidden issue_token_pair get_user_where get_roles_of save_token
    send ignore ◌>>=◌ return throw from or_throw find_row roles_of is_active check_password
entered = refl

login-Gives_example :
    (user : User) × ((i : ℕ) × (get_elem? store.users i ≡ some user))
    × (user.email ≡ "ann@example.org")
    × (str_eq user.password_hash "correct horse" ≡ true)
    × (user.status ≡ active)
    × (lib.sign (record {
      user_id = user.id;
      tenant_id = user.tenant_id;
      email = user.email;
      roles = granted user.id store.roles;
      issuer = "iam";
      issued_at = 100;
      expires_at = 100 + 15 * 60 * second;
      jti = "j2";
    })
        ≡ some new_pair.access_token)
    × (new_pair.refresh_token ≡ fresh.raw_refresh)
    × (logged_in.tokens
        ≡ store.tokens
          ++ new_refresh_token "r2" 100 user.id "new" "f2" refresh_token_ttl "" "" ∷ [])
login-Gives_example =
    login-Gives lib "iam" all_up 100 "f2" fresh credentials store logged_in new_pair entered

abbrev recovered : Store
recovered = record store {
  users =
      record ann {
        password_hash = "a new password";
        reset_token = "";
        reset_token_expiry = none;
        updated_at = 100;
      }
      ∷ [];
  tokens = record row { revoked = true } ∷ [];
  events = password_changed "u1" ∷ [];
}

was_reset :
    reset_password lib "iam" all_up 100 "reset" "a new password" store ≡ (recovered, done tt)
unfolding reset_password save_password set_password get_user_where update_user revoke_where send
    ignore ◌>>=◌ return throw from or_throw find_row is_reset_token_valid
was_reset = refl

reset_password-LoggedOut_example :
    (user : User) × ((i : ℕ) × (get_elem? store.users i ≡ some user))
    × MayReset 100 "reset" user
    × HasNewPassword lib "a new password" user.id store.users recovered.users
    × All
        (λ (row : User).
          row.id ≡ user.id → (row.reset_token ≡ "") × (row.reset_token_expiry ≡ none))
        recovered.users
    × LoggedOut user.id recovered
reset_password-LoggedOut_example =
    reset_password-LoggedOut lib "iam" all_up 100 "reset" "a new password" store recovered refl
      was_reset

abbrev changed_ann : User
changed_ann = record ann { password_hash = "a new password"; updated_at = 100 }

abbrev changed_store : Store
changed_store = record store {
  users = changed_ann ∷ [];
  tokens = record row { revoked = true } ∷ [];
  events = password_changed "u1" ∷ [];
}

was_changed :
    change_password lib "iam" all_up 100 "u1" "correct horse" "a new password" store
    ≡ (changed_store, done tt)
unfolding change_password save_password set_password check_password get_user_where update_user
    revoke_where send ignore ◌>>=◌ return throw from find_row
was_changed = refl

change_password-LoggedOut_example :
    (user : User) × (some "u1" ≡ some user.id)
    × ((i : ℕ) × (get_elem? store.users i ≡ some user))
    × (str_eq user.password_hash "correct horse" ≡ true)
    × HasNewPassword lib "a new password" user.id store.users changed_store.users
    × LoggedOut user.id changed_store
change_password-LoggedOut_example =
    change_password-LoggedOut lib "iam" all_up 100 "u1" "correct horse" "a new password" store
      changed_store refl was_changed

abbrev history : List Request
history =
    login_request all_up 100 "f2" fresh credentials ∷ logout_request all_up 150 "new" "j2" ∷ []

serve_all-WellFormed_example : WellFormed lib (serve_all lib "iam" history store)
serve_all-WellFormed_example =
    serve_all-WellFormed lib "iam" history store
      (refl, ((("correct horse", refl, refl), λ on. refl), tt))

abbrev forgetful : Store
forgetful = record store { users = record ann { reset_token = ""; reset_token_expiry = none } ∷ [] }

abbrev known_ann : User
known_ann = record ann { reset_token = ""; reset_token_expiry = none }

ann_is_found : find_row (λ u. str_eq u.email "ann@example.org") forgetful.users ≡ some known_ann
unfolding find_row
ann_is_found = refl

reset_password-forgot_password_example :
    let asked = forgot_password lib "iam" all_up 100 "secret" "ann@example.org" forgetful in
    let out = reset_password lib "iam" all_up 200 "secret" "a new password" asked.0 in
    (asked.1 ≡ done tt)
    × (asked.0 ≡ record forgetful { users = asked.0.users })
    × (out.1 ≡ done tt)
    × (u : User) × (find_row (λ u. str_eq u.email "ann@example.org") out.0.users ≡ some u)
    × (check_password lib 200 u "a new password" ≡ true)
reset_password-forgot_password_example =
    reset_password-forgot_password lib "iam" all_up all_up 100 200 "secret" "ann@example.org"
      "a new password" "a new password" forgetful known_ann refl refl refl refl (omega arith)
      ann_is_found (λ e. false≢true ((eq_iff "secret" "").1 e)) refl refl refl refl
