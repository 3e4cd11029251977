-- ===== src/Iam/Auth/Requests.antt =====
-- Histories of calls of the service, at whatever moments and with whatever failures.
use green_lab.Prelude.{String, Bool, List, [], ◌∷◌}
use green_lab.Ingestion.Domain.{Time}
use green_lab.Iam.User.{User, Lib}
use green_lab.Iam.Store.{Store, Call}
use green_lab.Iam.Auth.{
  RegisterInput, LoginInput, RefreshInput, SelfSignupInput, SignupFresh, Fresh, register, login,
  refresh, logout, forgot_password, reset_password, verify_email, get_me, update_me,
  change_password, self_signup,
}
use green_lab.Iam.Auth.Keeps.{Primitives, Methods}
use green_lab.Iam.Auth.Operations.{
  Keeps-register, Keeps-login, Keeps-refresh, Keeps-logout, Keeps-forgot_password,
  Keeps-reset_password, Keeps-verify_email, Keeps-get_me, Keeps-update_me, Keeps-change_password,
  Keeps-self_signup,
}

-- A call of the service, with what it draws, the moment, and which calls of other servers fail.
pub data Request : Type 0 where
  register_request : (Call → Bool) → Time → String → String → RegisterInput → Request
  login_request : (Call → Bool) → Time → String → Fresh → LoginInput → Request
  refresh_request : (Call → Bool) → Time → Fresh → RefreshInput → Request
  logout_request : (Call → Bool) → Time → String → String → Request
  forgot_password_request : (Call → Bool) → Time → String → String → Request
  reset_password_request : (Call → Bool) → Time → String → String → Request
  verify_email_request : (Call → Bool) → Time → String → Request
  get_me_request : (Call → Bool) → Time → String → Request
  update_me_request : (Call → Bool) → Time → String → String → String → Request
  change_password_request : (Call → Bool) → Time → String → String → String → Request
  self_signup_request : (Call → Bool) → Time → SignupFresh → SelfSignupInput → Request

module _ (lib : Lib) (issuer : String) where
  -- The store after a call.
  abbrev pub serve : Request → Store → Store
  serve (register_request down now id token input) s =
      (register lib issuer down now id token input s).0
  serve (login_request down now family fresh input) s =
      (login lib issuer down now family fresh input s).0
  serve (refresh_request down now fresh input) s = (refresh lib issuer down now fresh input s).0
  serve (logout_request down now token jti) s = (logout lib issuer down now token jti s).0
  serve (forgot_password_request down now token email) s =
      (forgot_password lib issuer down now token email s).0
  serve (reset_password_request down now token password) s =
      (reset_password lib issuer down now token password s).0
  serve (verify_email_request down now token) s = (verify_email lib issuer down now token s).0
  serve (get_me_request down now id) s = (get_me lib issuer down now id s).0
  serve (update_me_request down now id first_name last_name) s =
      (update_me lib issuer down now id first_name last_name s).0
  serve (change_password_request down now id old new) s =
      (change_password lib issuer down now id old new s).0
  serve (self_signup_request down now fresh input) s =
      (self_signup lib issuer down now fresh input s).0

  abbrev pub serve_all : List Request → Store → Store
  serve_all [] s = s
  serve_all (r ∷ rs) s = serve_all rs (serve r s)

  module _ (P : Store → Type 0) (Good : User → Type 0) where
    module _ (db : Primitives P Good) (methods : Methods lib Good) where
      serve-keeps : (r : Request) (s : Store) → P s → P (serve r s)
      serve-keeps (register_request down now id token input) =
          (Keeps-register P Good db lib methods issuer down now id token input).keeps
      serve-keeps (login_request down now family fresh input) =
          (Keeps-login P Good db lib methods issuer down now family fresh input).keeps
      serve-keeps (refresh_request down now fresh input) =
          (Keeps-refresh P Good db lib methods issuer down now fresh input).keeps
      serve-keeps (logout_request down now token jti) =
          (Keeps-logout P Good db lib methods issuer down now token jti).keeps
      serve-keeps (forgot_password_request down now token email) =
          (Keeps-forgot_password P Good db lib methods issuer down now token email).keeps
      serve-keeps (reset_password_request down now token password) =
          (Keeps-reset_password P Good db lib methods issuer down now token password).keeps
      serve-keeps (verify_email_request down now token) =
          (Keeps-verify_email P Good db lib methods issuer down now token).keeps
      serve-keeps (get_me_request down now id) =
          (Keeps-get_me P Good db lib methods issuer down now id).keeps
      serve-keeps (update_me_request down now id first_name last_name) =
          (Keeps-update_me P Good db lib methods issuer down now id first_name last_name).keeps
      serve-keeps (change_password_request down now id old new) =
          (Keeps-change_password P Good db lib methods issuer down now id old new).keeps
      serve-keeps (self_signup_request down now fresh input) =
          (Keeps-self_signup P Good db lib methods issuer down now fresh input).keeps

      pub serve_all-keeps : (rs : List Request) (s : Store) → P s → P (serve_all rs s)
      serve_all-keeps [] s u = u
      serve_all-keeps (r ∷ rs) s u = serve_all-keeps rs (serve r s) (serve-keeps r s u)
