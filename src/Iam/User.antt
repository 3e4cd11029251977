-- ===== src/Iam/User.antt =====
-- services/iam/internal/domain/auth: user.go, token.go and errors.go. UUIDs are texts, and `now` is
-- the clock's reading. What the code calls outside the repository is the record `Lib`.
use Prim.Native.String.{len}
use green_lab.Prelude.{
  ◌+◌, ◌*◌, String, Bool, true, false, not, ◌||◌, Option, none, some, List, [], ◌∷◌, ltb, str_eq,
  if◌then◌else◌,
}
use green_lab.Prelude.Actions.{Result, done, failed}
use green_lab.Ingestion.Domain.{Time, second}

-- The errors of errors.go; from `first_name_required` on, errors that are not sentinels: those of
-- user.go, of bcrypt, of uuid.Parse and of the infrastructure.
pub data AuthError : Type 0 where
  user_not_found invalid_credentials token_not_found token_expired invalid_token : AuthError
  account_is_not_active get_roles_failed issue_token_failed : AuthError
  email_already_registered invalid_reset_token invalid_password invalid_email : AuthError
  first_name_required last_name_required password_too_short : AuthError
  bcrypt_error uuid_error sign_error storage_error slug_taken : AuthError

abbrev pub Outcome : Type 0 → Type 0
Outcome A = Result AuthError A

pub data UserStatus : Type 0 where
  pending active disabled : UserStatus

pub record User : Type 0 where
  pub id : String
  pub tenant_id : String
  pub email : String
  pub password_hash : String
  pub first_name : String
  pub last_name : String
  pub roles : List String
  pub status : UserStatus
  pub email_verified : Bool
  pub verify_token : String
  pub reset_token : String
  pub reset_token_expiry : Option Time
  pub created_at : Time
  pub updated_at : Time

pub record RefreshToken : Type 0 where
  pub id : String
  pub user_id : String
  pub token_hash : String
  pub family : String
  pub expires_at : Time
  pub created_at : Time
  pub revoked : Bool
  pub user_agent : String
  pub ip_address : String

pub record TokenPair : Type 0 where
  pub access_token : String
  pub refresh_token : String
  pub expires_at : Time
  pub token_type : String

-- The claims of an access token: sharedMiddleware.Claims with its registered claims. That
-- jwt.NewNumericDate cuts instants to seconds is a part of `sign`.
pub record Claims : Type 0 where
  pub user_id : String
  pub tenant_id : String
  pub email : String
  pub roles : List String
  pub issuer : String
  pub issued_at : Time
  pub expires_at : Time
  pub jti : String

-- SHA-256 in hexadecimal, bcrypt, net/mail, google/uuid, the signing of a token, and what SelfSignup
-- uses of package strings and of regexp: ToLower, the first part of Split, and ReplaceAllString of
-- nonAlphanumeric by the empty text.
pub record Lib : Type 0 where
  pub sha256_hex : String → String
  pub bcrypt_generate : String → Option String
  pub bcrypt_compare : String → String → Bool
  pub parse_address : String → Bool
  pub parse_uuid : String → Option String
  pub sign : Claims → Option String
  pub to_lower : String → String
  pub split_first : String → String → String
  pub strip_non_alphanumeric : String → String

module _ (lib : Lib) (now : Time) where
  -- The shared tail of NewUser and SetPassword: the length and the hash of a password.
  unfoldable pub hash_password : String → Outcome String
  hash_password password =
      if ltb (len password) 8
      then failed password_too_short
      else elim (lib.bcrypt_generate (lib.sha256_hex password)) [
        | none ↦ failed bcrypt_error
        | some hash ↦ done hash
      ]

  -- `id` and `verify_token` are the two new UUIDs.
  unfoldable pub new_user :
      String → String → String → String → String → String → String → Outcome User
  unfolding hash_password
  new_user id verify_token tenant_id email password first_name last_name =
      if not (lib.parse_address email)
      then failed invalid_email
      else if str_eq first_name ""
      then failed first_name_required
      else if str_eq last_name ""
      then failed last_name_required
      else elim (hash_password password) [
        | failed e ↦ failed e
        | done hash ↦ done (record {
          id = id;
          tenant_id = tenant_id;
          email = email;
          password_hash = hash;
          first_name = first_name;
          last_name = last_name;
          roles = "viewer" ∷ [];
          status = pending;
          email_verified = false;
          verify_token = verify_token;
          reset_token = "";
          reset_token_expiry = none;
          created_at = now;
          updated_at = now;
        })
      ]

  unfoldable pub check_password : User → String → Bool
  check_password u password = lib.bcrypt_compare u.password_hash (lib.sha256_hex password)

  unfoldable pub set_password : User → String → Outcome User
  unfolding hash_password
  set_password u password = elim (hash_password password) [
    | failed e ↦ failed e
    | done hash ↦ done (record u { password_hash = hash; updated_at = now })
  ]

unfoldable pub is_active : User → Bool
is_active u = elim u.status [ active ↦ true | _ ↦ false ]

abbrev pub activate : Time → User → User
activate now u = record u {
  status = active;
  email_verified = true;
  verify_token = "";
  updated_at = now;
}

abbrev pub set_reset_token : Time → String → Time → User → User
set_reset_token now token expiry u = record u {
  reset_token = token;
  reset_token_expiry = some expiry;
  updated_at = now;
}

abbrev pub clear_reset_token : Time → User → User
clear_reset_token now u = record u { reset_token = ""; reset_token_expiry = none; updated_at = now }

unfoldable pub is_reset_token_valid : Time → User → String → Bool
is_reset_token_valid now u token =
    if str_eq u.reset_token "" || str_eq token "" || not (str_eq u.reset_token token)
    then false
    else elim u.reset_token_expiry [ none ↦ false | some expiry ↦ ltb now expiry ]

abbrev pub access_token_ttl : Time
access_token_ttl = 15 * 60 * second

abbrev pub refresh_token_ttl : Time
refresh_token_ttl = 7 * 24 * 60 * 60 * second

abbrev pub new_refresh_token :
    String → Time → String → String → String → Time → String → String → RefreshToken
new_refresh_token id now user_id token_hash family ttl user_agent ip = record {
  id = id;
  user_id = user_id;
  token_hash = token_hash;
  family = family;
  expires_at = now + ttl;
  created_at = now;
  revoked = false;
  user_agent = user_agent;
  ip_address = ip;
}
