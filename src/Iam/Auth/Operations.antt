-- ===== src/Iam/Auth/Operations.antt =====
-- Every operation of the service keeps an invariant that the calls of the database keep.
use green_lab.Prelude.{String, Bool, str_eq}
use green_lab.Prelude.Actions.Keeps.{
  Ensures, Keeps, Keeps-all, Ensures-bind, Keeps-bind, Keeps-then, Keeps-return, Keeps-from,
  Ensures-from, Ensures-or_throw, Keeps-ignore, Keeps-require, Ensures-if,
}
use green_lab.Ingestion.Domain.{Time}
use green_lab.Iam.User.{AuthError, user_not_found, User, RefreshToken, Lib}
use green_lab.Iam.Store.{Store, Call, get_user_where}
use green_lab.Iam.Auth.{
  RegisterInput, LoginInput, RefreshInput, SelfSignupInput, SignupFresh, Fresh, issue_token_pair,
  register, login, rotate, refresh, logout, forgot_password, reset_password, verify_email, get_me,
  update_me, change_password, self_signup, save_password, check_email, set_new_reset_token,
  activate_user,
}
use green_lab.Iam.Auth.Keeps.{Primitives, Methods, Ensures-hide_user_not_found, keeps-forget}

module _ (P : Store → Type 0) (Good : User → Type 0) (db : Primitives P Good) where
  module _ (lib : Lib) (methods : Methods lib Good) where
    module _ (issuer : String) (down : Call → Bool) (now : Time) where
      found : (e : AuthError) (p : User → Bool) → Ensures P Good (get_user_where down now e p)
      found e p = db.ensures_get_user down now e p

      Keeps-issue_token_pair :
          (user : User) (family agent ip : String) (fresh : Fresh)
          → Keeps P (issue_token_pair lib issuer down now user family agent ip fresh)
      unfolding issue_token_pair
      Keeps-issue_token_pair user family agent ip fresh =
          Keeps-bind P (Keeps-from P _)
            (λ access. Keeps-then P (db.keeps_save_token down now _) (Keeps-return P _))

      Keeps-check_email : (email : String) → Keeps P (check_email lib issuer down now email)
      unfolding check_email
      Keeps-check_email email = Keeps-all P (found user_not_found (λ u. str_eq u.email email)).keeps

      pub Keeps-register :
          (id token : String) (input : RegisterInput)
          → Keeps P (register lib issuer down now id token input)
      unfolding register
      Keeps-register id token input = Keeps-bind P (Keeps-from P _) (λ tenant_id.
          Keeps-then P (Keeps-check_email input.email) (
            Ensures-bind P (Ensures-from P Good _ (methods.good_new now _ _ _ _ _ _ _))
              (λ user good.
                Keeps-then P (db.keeps_create down now _ (methods.good_verify_token user _ good)) (
                  Keeps-then P (db.keeps_set_roles down now _ _) (
                    Keeps-then P (Keeps-ignore P (db.keeps_send down now _ _))
                      (Keeps-return P _))))))

      pub Keeps-login :
          (family : String) (fresh : Fresh) (input : LoginInput)
          → Keeps P (login lib issuer down now family fresh input)
      unfolding login
      Keeps-login family fresh input =
          Ensures-bind P (Ensures-hide_user_not_found P Good (found _ _)) (λ user _.
            Keeps-then P (Keeps-require P _ _) (
              Keeps-then P (Keeps-require P _ _) (
                Keeps-bind P (Ensures-or_throw P _ (db.keeps_get_roles down now _)) (λ roles.
                  Keeps-bind P (Ensures-or_throw P _ (Keeps-issue_token_pair _ _ _ _ _)) (λ pair.
                    Keeps-then P (Keeps-ignore P (db.keeps_send down now _ _))
                      (Keeps-return P _))))))

      pub Keeps-rotate :
          (fresh : Fresh) (input : RefreshInput) (stored : RefreshToken)
          → Keeps P (rotate lib issuer down now fresh input stored)
      unfolding rotate
      Keeps-rotate fresh input stored = Ensures-bind P (found _ _) (λ user _.
          Keeps-then P (Keeps-require P _ _) (
            Keeps-bind P (Ensures-or_throw P _ (db.keeps_get_roles down now _))
              (λ roles. Ensures-or_throw P _ (Keeps-issue_token_pair _ _ _ _ _))))

      pub Keeps-refresh :
          (fresh : Fresh) (input : RefreshInput) → Keeps P (refresh lib issuer down now fresh input)
      unfolding refresh
      Keeps-refresh fresh input =
          Keeps-bind P (Ensures-or_throw P _ (db.keeps_get_and_revoke down now _))
            (Keeps-rotate fresh input)

      pub Keeps-logout : (token jti : String) → Keeps P (logout lib issuer down now token jti)
      unfolding logout
      Keeps-logout token jti =
          Keeps-then P
            (Ensures-if P _ (Keeps-return P _) (Keeps-ignore P (db.keeps_revoke down now _)))
            (Ensures-if P _ (Keeps-return P _) (Keeps-ignore P (db.keeps_send down now _ _)))

      Keeps-set_new_reset_token :
          (token : String) (user : User)
          → Good user
          → Keeps P (set_new_reset_token lib issuer down now token user)
      unfolding set_new_reset_token
      Keeps-set_new_reset_token token user good =
          db.keeps_update down now _ (methods.good_set_reset_token now _ _ user good)

      pub Keeps-forgot_password :
          (token email : String) → Keeps P (forgot_password lib issuer down now token email)
      unfolding forgot_password
      Keeps-forgot_password token email =
          let lookup = found user_not_found (λ u. str_eq u.email email) in
          Keeps-all P (λ s u.
            keeps-forget P Good lib issuer down now token _ _ (lookup.keeps s u)
              (λ user e. Keeps-set_new_reset_token token user (lookup.ensures s u user e)))

      Keeps-save_password :
          (user : User) → Good user → Keeps P (save_password lib issuer down now user)
      unfolding save_password
      Keeps-save_password user good = Keeps-then P (db.keeps_update down now user good) (
          Keeps-then P (Keeps-ignore P (db.keeps_revoke down now _))
            (Keeps-ignore P (db.keeps_send down now _ _)))

      pub Keeps-reset_password :
          (token password : String) → Keeps P (reset_password lib issuer down now token password)
      unfolding reset_password
      Keeps-reset_password token password =
          Ensures-bind P (Ensures-or_throw P _ (found _ _)) (λ user good.
            Keeps-then P (Keeps-require P _ _) (
              Ensures-bind P
                (Ensures-from P Good _ (λ v. methods.good_set_password now user v password good))
                (λ changed better.
                  Keeps-save_password _ (methods.good_clear_reset_token now changed better))))

      pub Keeps-verify_email : (token : String) → Keeps P (verify_email lib issuer down now token)
      unfolding verify_email activate_user
      Keeps-verify_email token = Ensures-bind P (Ensures-or_throw P _ (found _ _)) (λ user good.
          Ensures-if P _ (Keeps-return P _) (
            Keeps-then P (db.keeps_update down now _ (methods.good_activate now user good))
              (Keeps-ignore P (db.keeps_send down now _ _))))

      pub Keeps-get_me : (id : String) → Keeps P (get_me lib issuer down now id)
      unfolding get_me
      Keeps-get_me id = Keeps-bind P (Keeps-from P _) (λ _. Ensures-bind P (found _ _) (λ user _.
          Keeps-bind P (Ensures-or_throw P _ (db.keeps_get_roles down now _))
            (λ roles. Keeps-return P _)))

      pub Keeps-update_me :
          (id first_name last_name : String)
          → Keeps P (update_me lib issuer down now id first_name last_name)
      unfolding update_me
      Keeps-update_me id first_name last_name = Keeps-bind P (Keeps-from P _) (λ _.
          Ensures-bind P (found _ _) (λ user good.
            Keeps-then P (db.keeps_update down now _ (methods.good_names now user _ _ good))
              (Keeps-return P _)))

      pub Keeps-change_password :
          (id old new : String) → Keeps P (change_password lib issuer down now id old new)
      unfolding change_password
      Keeps-change_password id old new = Keeps-bind P (Keeps-from P _) (λ _.
          Ensures-bind P (found _ _) (λ user good. Keeps-then P (Keeps-require P _ _) (
            Ensures-bind P
              (Ensures-from P Good _ (λ v. methods.good_set_password now user v new good))
              (λ changed better. Keeps-save_password _ better))))

      pub Keeps-self_signup :
          (fresh : SignupFresh) (input : SelfSignupInput)
          → Keeps P (self_signup lib issuer down now fresh input)
      unfolding self_signup
      Keeps-self_signup fresh input = Keeps-then P (Keeps-check_email input.email) (
          Ensures-bind P (Ensures-from P Good _ (methods.good_new now _ _ _ _ _ _ _))
            (λ created good. Keeps-then P (db.keeps_create_org down now _) (
              Keeps-then P
                (db.keeps_create down now _
                  (methods.good_roles _ _ (methods.good_activate now created good)))
                (Keeps-then P (db.keeps_set_roles down now _ _) (
                  Keeps-bind P (Keeps-issue_token_pair _ _ _ _ _) (λ pair.
                    Keeps-then P (Keeps-ignore P (db.keeps_send down now _ _))
                      (Keeps-return P _)))))))
